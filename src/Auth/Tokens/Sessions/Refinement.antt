-- ===== src/Auth/Tokens/Sessions/Refinement.antt =====
-- The table against the abstract machine, over a sequence of operations.
use daisy_workflow.Common.{
  ℕ, ◌≡◌, refl, ap, ◌∙◌, String, Bool-cases, inl, inr, Option, none, some, List, [], ◌∷◌, ◌++◌,
  ◌==◌, any, arith, update,
}
use daisy_workflow.Auth.Tokens.{
  Row, select, conflicts, inserted, issue_refresh_token, consume_row, consume_refresh_token,
  revoke_all_for_user, Op, issue_op, consume_op, revoke_op, revoke_all_op, apply, run,
}
use daisy_workflow.Auth.Tokens.Sessions.{
  accepted, advance, advances, is_fresh_op, labelled, map_option, new_session, presented,
  session_of, view,
}
use daisy_workflow.Auth.Tokens.Sessions.Views.{
  view-burn, end_predecessor-ap, view-retire_predecessor, view-inserted, view-consume, view-revoke,
}

module _ (sha256_hex : String → String) (refresh_ttl_ms : ℕ) where
  pub view-apply :
      (op : Op sha256_hex refresh_ttl_ms) (rows : List Row) (hash : String)
      → view (apply sha256_hex refresh_ttl_ms op rows) hash
        ≡ advance sha256_hex refresh_ttl_ms
            (is_fresh_op sha256_hex refresh_ttl_ms op rows)
            op
            (view rows)
            hash
  unfolding apply issue_refresh_token revoke_all_for_user
  view-apply (issue_op now id token issue) rows hash =
      elim (Bool-cases (any (conflicts id (sha256_hex token)) rows)) [
        | inl e ↦ rw e refl
        | inr e ↦
            let new = inserted sha256_hex refresh_ttl_ms now id token issue in
            rw e (
              view-retire_predecessor sha256_hex refresh_ttl_ms now id issue.predecessor_id hash
                (rows ++ new ∷ [])
              ∙ end_predecessor-ap issue.predecessor_id hash (view (rows ++ new ∷ []))
                  (update (view rows) (sha256_hex token)
                    (some (new_session sha256_hex refresh_ttl_ms now id token issue)))
                  (view-inserted sha256_hex refresh_ttl_ms now id token issue rows hash e))
      ]
  view-apply (consume_op now token) rows hash =
      view-consume sha256_hex refresh_ttl_ms now token rows hash
  view-apply (revoke_op now token) rows hash =
      view-revoke sha256_hex refresh_ttl_ms now token rows hash
  view-apply (revoke_all_op now user) rows hash =
      view-burn sha256_hex refresh_ttl_ms now user hash rows

  answer-accepted :
      (now : ℕ) (o : Option Row) (rows : List Row)
      → (consume_row sha256_hex refresh_ttl_ms now o rows).0
        ≡ accepted now (map_option session_of o)
  answer-accepted now none rows = refl
  answer-accepted now (some r) rows = ground arith

  consume-presented :
      (now : ℕ) (token : String) (rows : List Row)
      → (consume_refresh_token sha256_hex refresh_ttl_ms now token rows).0
        ≡ presented sha256_hex refresh_ttl_ms now token (view rows)
  unfolding consume_refresh_token
  consume-presented now token rows = elim (Bool-cases (token == "")) [
    | inl e ↦ rw e refl
    | inr e ↦ rw e (answer-accepted now (select (sha256_hex token) rows) rows)
  ]

  view-run :
      (ops : List (Op sha256_hex refresh_ttl_ms)) (rows : List Row)
      → view (run sha256_hex refresh_ttl_ms ops rows)
        ≡ advances sha256_hex refresh_ttl_ms
            (labelled sha256_hex refresh_ttl_ms ops rows)
            (view rows)
  unfolding run advances labelled
  view-run [] rows = refl
  view-run (op ∷ ops) rows =
      view-run ops (apply sha256_hex refresh_ttl_ms op rows)
      ∙ ap
          (advances sha256_hex refresh_ttl_ms
            (labelled sha256_hex refresh_ttl_ms ops (apply sha256_hex refresh_ttl_ms op rows)))
          (λ i hash. view-apply op rows hash i)

  -- Whatever is issued, presented and revoked, in any order, the table says of every hash what the
  -- abstract machine says after the same operations; and a token that is then presented is accepted
  -- exactly if it is not empty, its session is active, and the session has not expired.
  pub run-refines :
      (ops : List (Op sha256_hex refresh_ttl_ms)) (rows : List Row) (hash : String) (now : ℕ)
      (token : String)
      → (view (run sha256_hex refresh_ttl_ms ops rows) hash
          ≡ advances sha256_hex refresh_ttl_ms
              (labelled sha256_hex refresh_ttl_ms ops rows)
              (view rows)
              hash)
        × ((consume_refresh_token sha256_hex refresh_ttl_ms now token
              (run sha256_hex refresh_ttl_ms ops rows)).0
            ≡ presented sha256_hex refresh_ttl_ms now token (
                advances sha256_hex refresh_ttl_ms
                  (labelled sha256_hex refresh_ttl_ms ops rows)
                  (view rows)))
  run-refines ops rows hash now token = (
    λ i. view-run ops rows i hash,
    consume-presented now token (run sha256_hex refresh_ttl_ms ops rows)
        ∙ ap (presented sha256_hex refresh_ttl_ms now token) (view-run ops rows),
  )
