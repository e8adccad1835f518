-- ===== src/Auth/Tokens/Replay.antt =====
-- A refresh token that was exchanged and is presented again.
use daisy_workflow.Common.{
  ℕ, ◌≡◌, refl, sym, ap, subst, ◌∙◌, String, Bool, true, false, not, ◌&&◌, ◌||◌, Bool-cases, inl,
  inr, Option, none, some, is_some, List, [], ◌∷◌, ◌++◌, ◌==◌, ltb, any, all, arith, eq_refl,
}
use daisy_workflow.Auth.Tokens.{
  Row, Consumed, Issue, is_unrevoked, select, conflicts, inserted, retire_predecessor,
  issue_refresh_token, consume_row, consume_refresh_token, Op, run, Refreshed, refreshed,
  missing_cookie, user_unavailable, rotated, refresh_for, refresh,
}
use daisy_workflow.Auth.Tokens.Sessions.{
  Session, Standing, session_of, view, end_with, is_rotated, end_predecessor,
}
use daisy_workflow.Auth.Tokens.Sessions.Views.{view-retire_predecessor, view-inserted}
use daisy_workflow.Auth.Tokens.Rotation.{owner, Burns, consume-Burns, run_rotated, fresh_hash}

module _ (sha256_hex : String → String) (refresh_ttl_ms : ℕ) where
  written_by :
      (token : String) (o : Option (List Row)) (rows written : List Row) (given : String)
      → rotated sha256_hex refresh_ttl_ms token o rows ≡ (refreshed given, written)
      → o ≡ some written
  written_by token none rows written given h = cc
  written_by token (some w) rows written given h = cc

  kept :
      (rows written : List Row) (given : String)
      → ◌≡◌ {A = Refreshed sha256_hex refresh_ttl_ms × List Row}
          (user_unavailable, rows)
          (refreshed given, written)
      → ⊥
  kept rows written given h = cc

  refresh_for-refreshed :
      (now : ℕ) (id token : String) (agent ip : Option String) (is_active : String → Bool)
      (o : Option Consumed) (rows written : List Row) (given : String)
      → refresh_for sha256_hex refresh_ttl_ms now id token agent ip is_active o rows
        ≡ (refreshed given, written)
      → (c : Consumed) × (o ≡ some c)
        × (issue_refresh_token sha256_hex refresh_ttl_ms now id token
              (record { user_id = c.user_id; user_agent = agent; ip = ip; predecessor_id = c.id })
              rows
            ≡ some written)
  refresh_for-refreshed now id token agent ip is_active none rows written given h = cc
  refresh_for-refreshed now id token agent ip is_active (some c) rows written given h =
      let issue : Issue = record {
        user_id = c.user_id;
        user_agent = agent;
        ip = ip;
        predecessor_id = c.id;
      } in
      elim (Bool-cases (is_active c.user_id)) [
        | inl e ↦ (
          c,
          refl,
          written_by token (issue_refresh_token sha256_hex refresh_ttl_ms now id token issue rows)
              rows written given (rw e at h),
        )
        | inr e ↦ absurd (kept rows written given (rw e at h))
      ]

  some_injective : {q r : Row} → ◌≡◌ {A = Option Row} (some q) (some r) → q ≡ r
  some_injective h = cc

  select-all :
      (test : Row → Bool) (hash : String) (rows : List Row) (r : Row)
      → all test rows ≡ true
      → select hash rows ≡ some r
      → test r ≡ true
  unfolding select
  select-all test hash [] r h e = cc
  select-all test hash (q ∷ rows) r h e = elim (Bool-cases (q.token_hash == hash)) [
    | inl k ↦
        let same : q ≡ r = some_injective (rw k at e) in
        subst (λ (t : Row). test t ≡ true) same (ground arith)
    | inr k ↦ select-all test hash rows r (ground arith) (rw k at e)
  ]

  nothing : (written : List Row) → ◌≡◌ {A = Option (List Row)} none (some written) → ⊥
  nothing written h = cc

  rows_injective : {v w : List Row} → ◌≡◌ {A = Option (List Row)} (some v) (some w) → v ≡ w
  rows_injective h = cc

  -- The session that a new token follows.
  issue-rotates :
      (now : ℕ) (id token hash : String) (issue : Issue) (rows written : List Row) (r : Row)
      → issue_refresh_token sha256_hex refresh_ttl_ms now id token issue rows ≡ some written
      → select hash rows ≡ some r
      → issue.predecessor_id ≡ r.id
      → (r.id == "") ≡ false
      → view written hash ≡ some (end_with Standing.rotated (session_of r))
  unfolding issue_refresh_token
  issue-rotates now id token hash issue rows written r h e p n =
      elim (Bool-cases (any (conflicts id (sha256_hex token)) rows)) [
        | inl k ↦ absurd (nothing written (rw k at h))
        | inr k ↦
            let new = inserted sha256_hex refresh_ttl_ms now id token issue in
            let done : some (
                  retire_predecessor sha256_hex refresh_ttl_ms now id issue.predecessor_id
                    (rows ++ new ∷ []))
                ≡ some written =
              rw k at h in
            let there : view (rows ++ new ∷ []) hash ≡ some (session_of r) =
              view-inserted sha256_hex refresh_ttl_ms now id token issue rows hash k
              ∙ rw
                  (
                    fresh_hash sha256_hex refresh_ttl_ms id hash token rows (session_of r) k
                        (rw e refl),
                    e,
                  )
                  refl in
            let ended : end_predecessor issue.predecessor_id (view (rows ++ new ∷ [])) hash
                ≡ some (end_with Standing.rotated (session_of r)) =
              rw (p, n, there, eq_refl r.id) refl in
            subst (λ (w : List Row). view w hash ≡ some (end_with Standing.rotated (session_of r)))
              (rows_injective done)
              (view-retire_predecessor sha256_hex refresh_ttl_ms now id issue.predecessor_id hash
                  (rows ++ new ∷ [])
                ∙ ended)
      ]

  -- The row behind a token that is accepted.
  record Accepted (now : ℕ) (o : Option Row) (rows : List Row) (c : Consumed) : Type 0 where
    row : Row
    found : o ≡ some row
    id_is : c.id ≡ row.id
    user_is : c.user_id ≡ row.user_id
    unrotated : is_some row.rotated_to ≡ false
    unrevoked : is_some row.revoked_at ≡ false
    unchanged : (consume_row sha256_hex refresh_ttl_ms now o rows).1 ≡ rows

  consumed_row :
      (now : ℕ) (o : Option Row) (rows : List Row) (c : Consumed)
      → (consume_row sha256_hex refresh_ttl_ms now o rows).0 ≡ some c
      → Accepted now o rows c
  consumed_row now none rows c h = cc
  consumed_row now (some r) rows c h =
      elim (Bool-cases (is_some r.rotated_to || is_some r.revoked_at || ltb r.expires_at now)) [
        | inl e ↦ absurd (refused c (rw e at h))
        | inr e ↦ record {
          row = r;
          found = refl;
          id_is = sym (ap (λ (d : Consumed). d.id) (given_back c (rw e at h)));
          user_is = sym (ap (λ (d : Consumed). d.user_id) (given_back c (rw e at h)));
          unrotated = ground arith;
          unrevoked = ground arith;
          unchanged = rw (unset r.rotated_to e) refl;
        }
      ]
    where
      refused : (d : Consumed) → ◌≡◌ {A = Option Consumed} none (some d) → ⊥
      refused d q = cc

      given_back :
          (d : Consumed)
          → ◌≡◌ {A = Option Consumed} (some (record { id = r.id; user_id = r.user_id })) (some d)
          → ◌≡◌ {A = Consumed} (record { id = r.id; user_id = r.user_id }) d
      given_back d q = cc

      unset :
          (o : Option String)
          → (is_some o || is_some r.revoked_at || ltb r.expires_at now) ≡ false
          → is_some o ≡ false
      unset o q = ground arith

  -- The session of a token that was exchanged.
  record Exchanged (presented : String) (rows written : List Row) : Type 0 where
    session : Session
    there : view written (sha256_hex presented) ≡ some session
    marked : is_rotated session ≡ true
    user_is : session.user_id ≡ owner (select (sha256_hex presented) rows)
    not_empty : (presented == "") ≡ false

  exchanged :
      (now : ℕ) (id token : String) (agent ip : Option String) (is_active : String → Bool)
      (presented given : String) (rows written : List Row)
      → all (λ r. not (r.id == "")) rows ≡ true
      → (presented == "") ≡ false
      → (let out =
            consume_row sha256_hex refresh_ttl_ms now (select (sha256_hex presented) rows) rows in
          refresh_for sha256_hex refresh_ttl_ms now id token agent ip is_active out.0 out.1)
        ≡ (refreshed given, written)
      → Exchanged presented rows written
  exchanged now id token agent ip is_active presented given rows written named e h =
      let hash = sha256_hex presented in
      let out = consume_row sha256_hex refresh_ttl_ms now (select hash rows) rows in
      let issued =
        refresh_for-refreshed now id token agent ip is_active out.0 out.1 written given h in
      let c = issued.0 in
      let a : Accepted now (select hash rows) rows c =
        consumed_row now (select hash rows) rows c issued.1 in
      record {
        session = end_with Standing.rotated (session_of a.row);
        there =
            issue-rotates now id token hash
              (record { user_id = c.user_id; user_agent = agent; ip = ip; predecessor_id = c.id })
              rows written a.row (rw a.unchanged at issued.2) a.found a.id_is
              (named_row (a.row.id == "")
                (select-all (λ r. not (r.id == "")) hash rows a.row named a.found));
        marked = rw (a.unrotated, a.unrevoked) refl;
        user_is = rw a.found refl;
        not_empty = e;
      }
    where
      named_row : (b : Bool) → not b ≡ true → b ≡ false
      named_row b q = ground arith

  -- A token that was exchanged for another one is refused when it is presented again, whatever was
  -- issued, presented and revoked in between, and its user is then left with no token that is not
  -- revoked, the one that it was exchanged for included. No row's identifier is empty.
  pub refresh-replay :
      (now : ℕ) (id token : String) (agent ip : Option String) (is_active : String → Bool)
      (presented given : String) (rows written : List Row)
      (ops : List (Op sha256_hex refresh_ttl_ms)) (later : ℕ)
      → all (λ r. not (r.id == "")) rows ≡ true
      → refresh sha256_hex refresh_ttl_ms now id token agent ip is_active presented rows
        ≡ (refreshed given, written)
      → let out =
          consume_refresh_token sha256_hex refresh_ttl_ms later presented
            (run sha256_hex refresh_ttl_ms ops written) in
        let user = owner (select (sha256_hex presented) rows) in
        (out.0 ≡ none) × (any (λ r. r.user_id == user && is_unrevoked r) out.1 ≡ false)
  unfolding refresh consume_refresh_token Burns
  refresh-replay now id token agent ip is_active presented given rows written ops later named h =
      elim (Bool-cases (presented == "")) [
        | inl e ↦ absurd (no_cookie rows written given (rw e at h))
        | inr e ↦ burnt (
            exchanged now id token agent ip is_active presented given rows written named e
              (rw e at h))
      ]
    where
      no_cookie :
          (rows written : List Row) (given : String)
          → ◌≡◌ {A = Refreshed sha256_hex refresh_ttl_ms × List Row}
              (missing_cookie, rows)
              (refreshed given, written)
          → ⊥
      no_cookie rows written given q = cc

      burnt :
          Exchanged presented rows written
          → Burns sha256_hex refresh_ttl_ms later presented
              (run sha256_hex refresh_ttl_ms ops written)
              (owner (select (sha256_hex presented) rows))
      burnt x =
          subst
            (Burns sha256_hex refresh_ttl_ms later presented
              (run sha256_hex refresh_ttl_ms ops written))
            x.user_is
            (consume-Burns sha256_hex refresh_ttl_ms later presented
              (run sha256_hex refresh_ttl_ms ops written) x.session x.not_empty x.marked
              (run_rotated sha256_hex refresh_ttl_ms ops written (sha256_hex presented) x.session
                x.marked x.there))
