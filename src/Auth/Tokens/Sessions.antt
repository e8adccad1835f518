-- ===== src/Auth/Tokens/Sessions.antt =====
-- What the table says of a token: its session, or nothing. The order of the rows, the times of
-- revocation, the successors, the user agents and the addresses are forgotten.
pub mod Views
pub mod Refinement
use daisy_workflow.Common.{
  ℕ, ◌+◌, ◌≡◌, refl, ap, ◌∙◌, String, Bool, true, false, not, ◌&&◌, Bool-cases, inl, inr, Option,
  none, some, is_some, List, [], ◌∷◌, ◌++◌, ◌==◌, ltb, if◌then◌else◌, any, arith, eq_iff, update,
}
use daisy_workflow.Auth.Tokens.{
  Row, Consumed, Issue, update_where, is_unrevoked, select, conflicts, inserted, retire_predecessor,
  issue_refresh_token, burn, consume_row, consume_refresh_token, revoke_refresh_token,
  revoke_all_for_user, Op, issue_op, consume_op, revoke_op, revoke_all_op, apply, run,
}

pub data Standing : Type 0 where
  active revoked rotated : Standing

pub record Session : Type 0 where
  pub id : String
  pub user_id : String
  pub token_hash : String
  pub expires_at : ℕ
  pub standing : Standing

abbrev pub standing_of : Row → Standing
standing_of r =
    if is_some r.rotated_to then rotated else if is_some r.revoked_at then revoked else active

abbrev pub session_of : Row → Session
session_of r = record {
  id = r.id;
  user_id = r.user_id;
  token_hash = r.token_hash;
  expires_at = r.expires_at;
  standing = standing_of r;
}

abbrev pub map_option {ℓ κ} : {A : Type ℓ} {B : Type κ} → (A → B) → Option A → Option B
map_option f none = none
map_option f (some a) = some (f a)

-- The session of the token with this hash.
abbrev pub view : List Row → String → Option Session
view rows hash = map_option session_of (select hash rows)

abbrev pub end_with : Standing → Session → Session
end_with to s = record s {
  standing = elim s.standing [ active ↦ to | revoked ↦ revoked | rotated ↦ rotated ];
}

abbrev pub end_if : (Session → Bool) → Standing → Session → Session
end_if test to s = if test s then end_with to s else s

abbrev pub all_ends :
    (Session → Bool) → Standing → (String → Option Session) → String → Option Session
all_ends test to sessions hash = map_option (end_if test to) (sessions hash)

abbrev pub is_of_user : String → Session → Bool
is_of_user user s = s.user_id == user

abbrev pub end_predecessor : String → (String → Option Session) → String → Option Session
end_predecessor predecessor sessions =
    if predecessor == "" then sessions else all_ends (λ s. s.id == predecessor) rotated sessions

abbrev pub is_rotated : Session → Bool
is_rotated s = elim s.standing [ active ↦ false | revoked ↦ false | rotated ↦ true ]

abbrev pub is_active : Session → Bool
is_active s = elim s.standing [ active ↦ true | revoked ↦ false | rotated ↦ false ]

abbrev pub after_consume : Option Session → (String → Option Session) → String → Option Session
after_consume none sessions = sessions
after_consume (some s) sessions =
    if is_rotated s then all_ends (is_of_user s.user_id) revoked sessions else sessions

-- A token is accepted if its session is active and has not expired.
abbrev pub accepted : ℕ → Option Session → Option Consumed
accepted now none = none
accepted now (some s) =
    if is_active s && not (ltb s.expires_at now)
    then some (record { id = s.id; user_id = s.user_id })
    else none

-- The abstract machine: a map from hashes to sessions, and what each operation does to it.
module _ (sha256_hex : String → String) (refresh_ttl_ms : ℕ) where
  abbrev pub new_session : ℕ → String → String → Issue → Session
  new_session now id token issue = record {
    id = id;
    user_id = issue.user_id;
    token_hash = sha256_hex token;
    expires_at = now + refresh_ttl_ms;
    standing = active;
  }

  -- `is_fresh` says whether an issue breaks no key.
  abbrev pub advance :
      Bool → Op sha256_hex refresh_ttl_ms → (String → Option Session) → String → Option Session
  advance is_fresh (issue_op now id token issue) sessions =
      if is_fresh
      then end_predecessor issue.predecessor_id
          (update sessions (sha256_hex token) (some (new_session now id token issue)))
      else sessions
  advance is_fresh (consume_op now token) sessions =
      if token == "" then sessions else after_consume (sessions (sha256_hex token)) sessions
  advance is_fresh (revoke_op now token) sessions =
      if token == ""
      then sessions
      else all_ends (λ s. s.token_hash == sha256_hex token) revoked sessions
  advance is_fresh (revoke_all_op now user) sessions = all_ends (is_of_user user) revoked sessions

  abbrev pub is_fresh_op : Op sha256_hex refresh_ttl_ms → List Row → Bool
  is_fresh_op (issue_op now id token issue) rows = not (any (conflicts id (sha256_hex token)) rows)
  is_fresh_op op rows = true

  -- The operations with whether each of them breaks no key when its turn comes.
  unfoldable pub labelled :
      List (Op sha256_hex refresh_ttl_ms) → List Row → List (Bool × Op sha256_hex refresh_ttl_ms)
  labelled [] rows = []
  labelled (op ∷ ops) rows =
      (is_fresh_op op rows, op) ∷ labelled ops (apply sha256_hex refresh_ttl_ms op rows)

  unfoldable pub advances :
      List (Bool × Op sha256_hex refresh_ttl_ms)
      → (String → Option Session)
      → String
      → Option Session
  advances [] sessions = sessions
  advances ((is_fresh, op) ∷ ops) sessions = advances ops (advance is_fresh op sessions)

  -- The answer to a token that is presented.
  abbrev pub presented : ℕ → String → (String → Option Session) → Option Consumed
  presented now token sessions =
      if token == "" then none else accepted now (sessions (sha256_hex token))
