-- ===== src/Auth/Tokens.antt =====
-- Refresh tokens (backend/src/auth/tokens.js) and their use by the routes of
-- backend/src/api/auth.js. The table is the list of its rows; sha256 is the parameter `sha256_hex`,
-- and the random token, its identifier and the time are arguments.
pub mod Sessions
pub mod Rotation
pub mod Replay
mod Tests
use daisy_workflow.Common.{
  ℕ, ◌+◌, String, Bool, true, false, not, ◌&&◌, ◌||◌, Option, none, some, is_some, List, [], ◌∷◌,
  ◌++◌, map, ◌==◌, ltb, if◌then◌else◌, any, length, keep,
}

-- A row of `refresh_tokens`.
pub record Row : Type 0 where
  pub id : String
  pub user_id : String
  pub token_hash : String
  pub user_agent : Option String
  pub ip : Option String
  pub expires_at : ℕ
  pub revoked_at : Option ℕ
  pub rotated_to : Option String

-- `{ id, userId }`
pub record Consumed : Type 0 where
  pub id : String
  pub user_id : String

-- The argument of `issueRefreshToken`; no predecessor is the empty text.
pub record Issue : Type 0 where
  pub user_id : String
  pub user_agent : Option String
  pub ip : Option String
  pub predecessor_id : String

-- `UPDATE refresh_tokens SET ... WHERE ...`
abbrev pub update_where : (Row → Bool) → (Row → Row) → List Row → List Row
update_where test change [] = []
update_where test change (r ∷ rs) = (if test r then change r else r) ∷ update_where test change rs

-- `revoked_at IS NULL`
abbrev pub is_unrevoked : Row → Bool
is_unrevoked r = not (is_some r.revoked_at)

-- `SELECT ... WHERE token_hash = $1 LIMIT 1`
unfoldable pub select : String → List Row → Option Row
select hash [] = none
select hash (r ∷ rs) = if r.token_hash == hash then some r else select hash rs

-- The primary key and the unique index of the table.
abbrev pub conflicts : String → String → Row → Bool
conflicts id hash r = r.id == id || r.token_hash == hash

module _ (sha256_hex : String → String) (refresh_ttl_ms : ℕ) where
  abbrev pub inserted : ℕ → String → String → Issue → Row
  inserted now id token issue = record {
    id = id;
    user_id = issue.user_id;
    token_hash = sha256_hex token;
    user_agent = issue.user_agent;
    ip = issue.ip;
    expires_at = now + refresh_ttl_ms;
    revoked_at = none;
    rotated_to = none;
  }

  -- The predecessor is revoked and points at the new row.
  abbrev pub retire_predecessor : ℕ → String → String → List Row → List Row
  retire_predecessor now id predecessor rows =
      if predecessor == ""
      then rows
      else update_where (λ r. r.id == predecessor && is_unrevoked r)
          (λ r. record r { revoked_at = some now; rotated_to = some id }) rows

  -- `issueRefreshToken`; it throws, and nothing is written, where the insertion breaks a key.
  unfoldable pub issue_refresh_token : ℕ → String → String → Issue → List Row → Option (List Row)
  issue_refresh_token now id token issue rows =
      if any (conflicts id (sha256_hex token)) rows
      then none
      else some (
          retire_predecessor now id issue.predecessor_id (rows ++ inserted now id token issue ∷ []))

  -- Every active token of the user is revoked.
  abbrev pub burn : ℕ → String → List Row → List Row
  burn now user =
      update_where (λ r. r.user_id == user && is_unrevoked r)
        (λ r. record r { revoked_at = some now })

  -- What the row says of a token, from `rotated_to` on.
  abbrev pub answer : ℕ → Row → Option Consumed
  answer now r =
      if is_some r.rotated_to || is_some r.revoked_at || ltb r.expires_at now
      then none
      else some (record { id = r.id; user_id = r.user_id })

  abbrev pub consume_row : ℕ → Option Row → List Row → Option Consumed × List Row
  consume_row now none rows = (none, rows)
  consume_row now (some r) rows =
      (answer now r, if is_some r.rotated_to then burn now r.user_id rows else rows)

  unfoldable pub consume_refresh_token : ℕ → String → List Row → Option Consumed × List Row
  unfolding select
  consume_refresh_token now plaintext rows =
      if plaintext == ""
      then (none, rows)
      else consume_row now (select (sha256_hex plaintext) rows) rows

  -- `revokeRefreshToken`, with what it returns.
  unfoldable pub revoke_refresh_token : ℕ → String → List Row → Bool × List Row
  revoke_refresh_token now plaintext rows =
      let hash = sha256_hex plaintext in
      let test = λ (r : Row). r.token_hash == hash && is_unrevoked r in
      if plaintext == ""
      then (false, rows)
      else (any test rows, update_where test (λ r. record r { revoked_at = some now }) rows)

  unfoldable pub revoke_all_for_user : ℕ → String → List Row → ℕ × List Row
  revoke_all_for_user now user rows =
      (length (keep (λ r. r.user_id == user && is_unrevoked r) rows), burn now user rows)

  -- A statement of a request that writes to the table. The deletions of the retention job are left
  -- out.
  pub data Op : Type 0 where
    issue_op : ℕ → String → String → Issue → Op
    consume_op : ℕ → String → Op
    revoke_op : ℕ → String → Op
    revoke_all_op : ℕ → String → Op

  abbrev pub issued : Option (List Row) → List Row → List Row
  issued none rows = rows
  issued (some written) rows = written

  unfoldable pub apply : Op → List Row → List Row
  unfolding issue_refresh_token consume_refresh_token revoke_refresh_token revoke_all_for_user
  apply (issue_op now id token issue) rows =
      issued (issue_refresh_token now id token issue rows) rows
  apply (consume_op now token) rows = (consume_refresh_token now token rows).1
  apply (revoke_op now token) rows = (revoke_refresh_token now token rows).1
  apply (revoke_all_op now user) rows = (revoke_all_for_user now user rows).1

  unfoldable pub run : List Op → List Row → List Row
  unfolding apply
  run [] rows = rows
  run (op ∷ ops) rows = run ops (apply op rows)

  -- The answers of `POST /auth/refresh`; a token that was issued is the cookie's new value.
  pub data Refreshed : Type 0 where
    refreshed : String → Refreshed
    missing_cookie token_invalid user_unavailable failed : Refreshed

  abbrev pub rotated : String → Option (List Row) → List Row → Refreshed × List Row
  rotated token none rows = (failed, rows)
  rotated token (some written) rows = (refreshed token, written)

  abbrev pub refresh_for :
      ℕ
      → String
      → String
      → Option String
      → Option String
      → (String → Bool)
      → Option Consumed
      → List Row
      → Refreshed × List Row
  refresh_for now id token agent ip is_active none rows = (token_invalid, rows)
  refresh_for now id token agent ip is_active (some c) rows =
      let issue : Issue = record {
        user_id = c.user_id;
        user_agent = agent;
        ip = ip;
        predecessor_id = c.id;
      } in
      if is_active c.user_id
      then rotated token (issue_refresh_token now id token issue rows) rows
      else (user_unavailable, rows)

  -- `POST /auth/refresh` with this cookie, no cookie being the empty text. `is_active` says of which
  -- identifiers there is an active user.
  unfoldable pub refresh :
      ℕ
      → String
      → String
      → Option String
      → Option String
      → (String → Bool)
      → String
      → List Row
      → Refreshed × List Row
  unfolding consume_refresh_token issue_refresh_token
  refresh now id token agent ip is_active presented rows =
      let consumed = consume_refresh_token now presented rows in
      if presented == ""
      then (missing_cookie, rows)
      else refresh_for now id token agent ip is_active consumed.0 consumed.1
