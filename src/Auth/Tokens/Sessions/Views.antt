-- ===== src/Auth/Tokens/Sessions/Views.antt =====
-- What each statement on the table does to the sessions.
use daisy_workflow.Common.{
  ℕ, ◌≡◌, refl, ap, String, Bool, true, false, ◌&&◌, Bool-cases, inl, inr, Option, none, some,
  is_some, List, [], ◌∷◌, ◌++◌, ◌==◌, if◌then◌else◌, any, arith, eq_iff, update,
}
use daisy_workflow.Auth.Tokens.{
  Row, Issue, update_where, is_unrevoked, select, conflicts, inserted, retire_predecessor, burn,
  consume_row, consume_refresh_token, revoke_refresh_token, consume_op, revoke_op,
}
use daisy_workflow.Auth.Tokens.Sessions.{
  Session, Standing, advance, after_consume, all_ends, end_if, end_predecessor, is_of_user,
  is_rotated, map_option, new_session, revoked, rotated, session_of, view,
}

pub select-update_where :
    (hash : String) (test : Row → Bool) (change : Row → Row) (rows : List Row)
    → ((r : Row) → (change r).token_hash ≡ r.token_hash)
    → select hash (update_where test change rows)
      ≡ map_option (λ (r : Row). if test r then change r else r) (select hash rows)
unfolding select
select-update_where hash test change [] kept = refl
select-update_where hash test change (r ∷ rs) kept =
    let same = ap (λ (t : String). t == hash) (kept r) in
    elim (Bool-cases (test r)) [
      | inl e ↦ rw e (elim (Bool-cases (r.token_hash == hash)) [
        | inl h ↦ rw (same, h, e) refl
        | inr h ↦ rw (same, h) (select-update_where hash test change rs kept)
      ])
      | inr e ↦ rw e (elim (Bool-cases (r.token_hash == hash)) [
        | inl h ↦ rw (h, e) refl
        | inr h ↦ rw h (select-update_where hash test change rs kept)
      ])
    ]

-- An update that ends the sessions that pass a test.
pub view-update_where :
    (hash : String) (test : Row → Bool) (change : Row → Row) (rows : List Row)
    (ends : Session → Bool) (to : Standing)
    → ((r : Row) → (change r).token_hash ≡ r.token_hash)
    → ((r : Row) → session_of (if test r then change r else r) ≡ end_if ends to (session_of r))
    → view (update_where test change rows) hash ≡ all_ends ends to (view rows) hash
view-update_where hash test change rows ends to kept same =
    rw (select-update_where hash test change rows kept) (mapped (select hash rows))
  where
    mapped :
        (o : Option Row)
        → map_option session_of (map_option (λ (r : Row). if test r then change r else r) o)
          ≡ map_option (end_if ends to) (map_option session_of o)
    mapped none = refl
    mapped (some r) = ap some (same r)

pub view-burn :
    (h : String → String) (ttl now : ℕ) (user hash : String) (rows : List Row)
    → view (burn h ttl now user rows) hash ≡ all_ends (is_of_user user) revoked (view rows) hash
view-burn h ttl now user hash rows =
    view-update_where hash (λ r. r.user_id == user && is_unrevoked r)
      (λ r. record r { revoked_at = some now }) rows (is_of_user user) revoked (λ r. refl)
      (λ r. ground arith)

-- The rows with no key of the new one do not have its hash.
pub select-conflicts :
    (id hash : String) (rows : List Row)
    → any (conflicts id hash) rows ≡ false
    → select hash rows ≡ none
unfolding select
select-conflicts id hash [] h = refl
select-conflicts id hash (r ∷ rs) h = ground (arith, select-conflicts id hash rs)

abbrev pub after : Row → String → Option Row → Option Row
after new hash none = if new.token_hash == hash then some new else none
after new hash (some r) = some r

pub select-append :
    (hash : String) (rows : List Row) (new : Row)
    → select hash (rows ++ new ∷ []) ≡ after new hash (select hash rows)
unfolding select
select-append hash [] new = refl
select-append hash (r ∷ rs) new = elim (Bool-cases (r.token_hash == hash)) [
  | inl e ↦ rw e refl
  | inr e ↦ rw e (select-append hash rs new)
]

pub session-after :
    (new : Row) (hash : String) (o : Option Row)
    → (new.token_hash == hash) ≡ false
    → map_option session_of (after new hash o) ≡ map_option session_of o
session-after new hash none e = rw e refl
session-after new hash (some r) e = refl

pub end_predecessor-ap :
    (predecessor hash : String) (f g : String → Option Session)
    → f hash ≡ g hash
    → end_predecessor predecessor f hash ≡ end_predecessor predecessor g hash
end_predecessor-ap predecessor hash f g h = elim (Bool-cases (predecessor == "")) [
  | inl e ↦ rw e h
  | inr e ↦ rw (e, h) refl
]

pub is_rotated-session_of : (r : Row) → is_rotated (session_of r) ≡ is_some r.rotated_to
is_rotated-session_of r = ground arith

module _ (sha256_hex : String → String) (refresh_ttl_ms : ℕ) where
  pub view-retire_predecessor :
      (now : ℕ) (id predecessor hash : String) (rows : List Row)
      → view (retire_predecessor sha256_hex refresh_ttl_ms now id predecessor rows) hash
        ≡ end_predecessor predecessor (view rows) hash
  view-retire_predecessor now id predecessor hash rows = elim (Bool-cases (predecessor == "")) [
    | inl e ↦ rw e refl
    | inr e ↦ rw e (
        view-update_where hash (λ r. r.id == predecessor && is_unrevoked r)
          (λ r. record r { revoked_at = some now; rotated_to = some id }) rows
          (λ s. s.id == predecessor) rotated (λ r. refl) (λ r. ground arith))
  ]

  pub view-inserted :
      (now : ℕ) (id token : String) (issue : Issue) (rows : List Row) (hash : String)
      → any (conflicts id (sha256_hex token)) rows ≡ false
      → view (rows ++ inserted sha256_hex refresh_ttl_ms now id token issue ∷ []) hash
        ≡ update
            (view rows)
            (sha256_hex token)
            (some (new_session sha256_hex refresh_ttl_ms now id token issue))
            hash
  view-inserted now id token issue rows hash h =
      let new = inserted sha256_hex refresh_ttl_ms now id token issue in
      elim (Bool-cases (sha256_hex token == hash)) [
        | inl e ↦
            let absent : select hash rows ≡ none =
              rw ((eq_iff (sha256_hex token) hash).0 e) at
                (select-conflicts id (sha256_hex token) rows h) in
            rw (select-append hash rows new, absent, e) refl
        | inr e ↦ rw (select-append hash rows new, e) (session-after new hash (select hash rows) e)
      ]

  pub view-consume_row :
      (now : ℕ) (o : Option Row) (rows : List Row) (hash : String)
      → view (consume_row sha256_hex refresh_ttl_ms now o rows).1 hash
        ≡ after_consume (map_option session_of o) (view rows) hash
  view-consume_row now none rows hash = refl
  view-consume_row now (some r) rows hash = elim (Bool-cases (is_some r.rotated_to)) [
    | inl e ↦
        rw (is_rotated-session_of r, e)
          (view-burn sha256_hex refresh_ttl_ms now r.user_id hash rows)
    | inr e ↦ rw (is_rotated-session_of r, e) refl
  ]

  pub view-consume :
      (now : ℕ) (token : String) (rows : List Row) (hash : String)
      → view (consume_refresh_token sha256_hex refresh_ttl_ms now token rows).1 hash
        ≡ advance sha256_hex refresh_ttl_ms true (consume_op now token) (view rows) hash
  unfolding consume_refresh_token
  view-consume now token rows hash = elim (Bool-cases (token == "")) [
    | inl e ↦ rw e refl
    | inr e ↦ rw e (view-consume_row now (select (sha256_hex token) rows) rows hash)
  ]

  pub view-revoke :
      (now : ℕ) (token : String) (rows : List Row) (hash : String)
      → view (revoke_refresh_token sha256_hex refresh_ttl_ms now token rows).1 hash
        ≡ advance sha256_hex refresh_ttl_ms true (revoke_op now token) (view rows) hash
  unfolding revoke_refresh_token
  view-revoke now token rows hash = elim (Bool-cases (token == "")) [
    | inl e ↦ rw e refl
    | inr e ↦ rw e (
        view-update_where hash (λ r. r.token_hash == sha256_hex token && is_unrevoked r)
          (λ r. record r { revoked_at = some now }) rows (λ s. s.token_hash == sha256_hex token)
          revoked (λ r. refl) (λ r. ground arith))
  ]
