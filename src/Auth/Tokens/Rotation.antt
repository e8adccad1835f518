-- ===== src/Auth/Tokens/Rotation.antt =====
-- A session that was exchanged stays exchanged, and burns its user's sessions when it is presented.
use daisy_workflow.Common.{
  ℕ, ◌≡◌, refl, sym, ap, subst, ◌∙◌, String, Bool, true, false, ◌&&◌, Bool-cases, inl, inr, Option,
  none, some, is_some, List, [], ◌∷◌, ◌==◌, any, arith, eq_iff, update,
}
use daisy_workflow.Auth.Tokens.{
  Row, is_unrevoked, select, conflicts, burn, consume_row, consume_refresh_token, Op, issue_op,
  consume_op, revoke_op, revoke_all_op, apply, run,
}
use daisy_workflow.Auth.Tokens.Sessions.{
  Session, Standing, after_consume, is_of_user, session_of, map_option, view, end_if, all_ends,
  is_rotated, end_predecessor, advance, is_fresh_op, new_session,
}
use daisy_workflow.Auth.Tokens.Sessions.Views.{is_rotated-session_of, select-conflicts}
use daisy_workflow.Auth.Tokens.Sessions.Refinement.{view-apply}

-- Nothing ends a session that was exchanged, and nothing revives it.
end_if_rotated :
    (test : Session → Bool) (to : Standing) (s : Session)
    → is_rotated s ≡ true
    → end_if test to s ≡ s
end_if_rotated test to s e = ground arith

all_ends_rotated :
    (test : Session → Bool) (to : Standing) (sessions : String → Option Session) (hash : String)
    (s : Session)
    → is_rotated s ≡ true
    → sessions hash ≡ some s
    → all_ends test to sessions hash ≡ some s
all_ends_rotated test to sessions hash s e h = rw h (ap some (end_if_rotated test to s e))

-- The user whose token has this hash.
abbrev pub owner : Option Row → String
owner none = ""
owner (some r) = r.user_id

after_consume_rotated :
    (o : Option Session) (sessions : String → Option Session) (hash : String) (s : Session)
    → is_rotated s ≡ true
    → sessions hash ≡ some s
    → after_consume o sessions hash ≡ some s
after_consume_rotated none sessions hash s e h = h
after_consume_rotated (some t) sessions hash s e h = elim (Bool-cases (is_rotated t)) [
  | inl q ↦ rw q (all_ends_rotated (is_of_user t.user_id) Standing.revoked sessions hash s e h)
  | inr q ↦ rw q h
]

end_predecessor_rotated :
    (predecessor : String) (sessions : String → Option Session) (hash : String) (s : Session)
    → is_rotated s ≡ true
    → sessions hash ≡ some s
    → end_predecessor predecessor sessions hash ≡ some s
end_predecessor_rotated predecessor sessions hash s e h = elim (Bool-cases (predecessor == "")) [
  | inl q ↦ rw q h
  | inr q ↦ rw q (all_ends_rotated (λ t. t.id == predecessor) Standing.rotated sessions hash s e h)
]

view-some :
    (o : Option Row) (s : Session)
    → map_option session_of o ≡ some s
    → (r : Row) × (o ≡ some r) × (session_of r ≡ s)
view-some none s h = cc
view-some (some r) s h = (r, refl, cc)

module _ (sha256_hex : String → String) (refresh_ttl_ms : ℕ) where
  -- A fresh token has another hash than any that is there.
  pub fresh_hash :
      (id hash token : String) (rows : List Row) (s : Session)
      → any (conflicts id (sha256_hex token)) rows ≡ false
      → view rows hash ≡ some s
      → (sha256_hex token == hash) ≡ false
  fresh_hash id hash token rows s fresh h = elim (Bool-cases (sha256_hex token == hash)) [
    | inl e ↦
        let absent : select hash rows ≡ none =
          rw ((eq_iff (sha256_hex token) hash).0 e) at
            (select-conflicts id (sha256_hex token) rows fresh) in
        absurd (none_some (rw absent at h))
    | inr e ↦ e
  ]
    where
      none_some : none ≡ some s → ⊥
      none_some q = cc

  advance_rotated :
      (op : Op sha256_hex refresh_ttl_ms) (rows : List Row) (hash : String) (s : Session)
      → is_rotated s ≡ true
      → view rows hash ≡ some s
      → view (apply sha256_hex refresh_ttl_ms op rows) hash ≡ some s
  advance_rotated op rows hash s e h = view-apply sha256_hex refresh_ttl_ms op rows hash ∙ ended op
    where
      ended :
          (o : Op sha256_hex refresh_ttl_ms)
          → advance sha256_hex refresh_ttl_ms
              (is_fresh_op sha256_hex refresh_ttl_ms o rows)
              o
              (view rows)
              hash
            ≡ some s
      ended (issue_op now id token issue) =
          elim (Bool-cases (any (conflicts id (sha256_hex token)) rows)) [
            | inl q ↦ rw q h
            | inr q ↦
                let other = fresh_hash id hash token rows s q h in
                rw q (
                  end_predecessor_rotated issue.predecessor_id
                    (update (view rows) (sha256_hex token)
                      (some (new_session sha256_hex refresh_ttl_ms now id token issue)))
                    hash s e (rw other h))
          ]
      ended (consume_op now token) = elim (Bool-cases (token == "")) [
        | inl q ↦ rw q h
        | inr q ↦ rw q (after_consume_rotated (view rows (sha256_hex token)) (view rows) hash s e h)
      ]
      ended (revoke_op now token) = elim (Bool-cases (token == "")) [
        | inl q ↦ rw q h
        | inr q ↦ rw q (
            all_ends_rotated (λ t. t.token_hash == sha256_hex token) Standing.revoked (view rows)
              hash s e h)
      ]
      ended (revoke_all_op now user) =
          all_ends_rotated (is_of_user user) Standing.revoked (view rows) hash s e h

  pub run_rotated :
      (ops : List (Op sha256_hex refresh_ttl_ms)) (rows : List Row) (hash : String) (s : Session)
      → is_rotated s ≡ true
      → view rows hash ≡ some s
      → view (run sha256_hex refresh_ttl_ms ops rows) hash ≡ some s
  unfolding run
  run_rotated [] rows hash s e h = h
  run_rotated (op ∷ ops) rows hash s e h =
      run_rotated ops (apply sha256_hex refresh_ttl_ms op rows) hash s e
        (advance_rotated op rows hash s e h)

  burn-unrevoked :
      (now : ℕ) (user : String) (rows : List Row)
      → any
          (λ r. r.user_id == user && is_unrevoked r)
          (burn sha256_hex refresh_ttl_ms now user rows)
        ≡ false
  burn-unrevoked now user [] = refl
  burn-unrevoked now user (r ∷ rs) = ground (arith, burn-unrevoked now user rs)

  -- What a token whose session was exchanged does when it is presented.
  unfoldable pub Burns : ℕ → String → List Row → String → Type 0
  Burns now token rows user =
      let out = consume_refresh_token sha256_hex refresh_ttl_ms now token rows in
      (out.0 ≡ none) × (any (λ r. r.user_id == user && is_unrevoked r) out.1 ≡ false)

  consume_row_rotated :
      (now : ℕ) (r : Row) (rows : List Row)
      → is_some r.rotated_to ≡ true
      → let out = consume_row sha256_hex refresh_ttl_ms now (some r) rows in
        (out.0 ≡ none) × (any (λ q. q.user_id == r.user_id && is_unrevoked q) out.1 ≡ false)
  consume_row_rotated now r rows e = rw e (refl, burn-unrevoked now r.user_id rows)

  pub consume-Burns :
      (now : ℕ) (token : String) (rows : List Row) (s : Session)
      → (token == "") ≡ false
      → is_rotated s ≡ true
      → view rows (sha256_hex token) ≡ some s
      → Burns now token rows s.user_id
  unfolding consume_refresh_token Burns
  consume-Burns now token rows s t e h =
      let found = view-some (select (sha256_hex token) rows) s h in
      let r = found.0 in
      let marked : is_some r.rotated_to ≡ true =
        sym (is_rotated-session_of r) ∙ ap is_rotated found.2 ∙ e in
      subst (Burns now token rows) (ap (λ (q : Session). q.user_id) found.2)
        (rw (t, found.1) (consume_row_rotated now r rows marked))
