-- ===== src/Auth/Tokens/Tests.antt =====
-- A session that is refreshed, and whose first token is presented again.
use daisy_workflow.Common.{◌≡◌, refl, String, false, ◌&&◌, none, some, List, [], ◌∷◌, ◌==◌, any}
use daisy_workflow.Auth.Tokens.{
  Row, is_unrevoked, select, issue_refresh_token, consume_refresh_token, Op, issue_op, consume_op,
  apply, run, refresh,
}
use daisy_workflow.Auth.Tokens.Sessions.{view, labelled, advances, presented}
use daisy_workflow.Auth.Tokens.Sessions.Refinement.{run-refines}
use daisy_workflow.Auth.Tokens.Replay.{refresh-replay}

abbrev hash_of : String → String
hash_of token = token

abbrev first : Row
first = record {
  id = "1";
  user_id = "u";
  token_hash = "old";
  user_agent = none;
  ip = none;
  expires_at = 100;
  revoked_at = none;
  rotated_to = none;
}

abbrev chained : Row
chained = record first { revoked_at = some 5; rotated_to = some "2" }

abbrev second : Row
second = record first { id = "2"; token_hash = "new"; expires_at = 55 }

abbrev login : Op hash_of 50
login =
    issue_op 6 "3" "other"
      (record { user_id = "u"; user_agent = none; ip = none; predecessor_id = "" })

refresh-replay_example :
    let out =
      consume_refresh_token hash_of 50 9 "old"
        (run hash_of 50 (login ∷ []) (chained ∷ second ∷ [])) in
    (out.0 ≡ none) × (any (λ r. r.user_id == "u" && is_unrevoked r) out.1 ≡ false)
unfolding refresh consume_refresh_token issue_refresh_token select
refresh-replay_example =
    refresh-replay hash_of 50 5 "2" "new" none none (λ user. user == "u") "old" "new" (first ∷ [])
      (chained ∷ second ∷ []) (login ∷ []) 9 refl refl

run-refines_example :
    (view (run hash_of 50 (login ∷ consume_op 7 "old" ∷ []) (chained ∷ [])) "other"
      ≡ advances hash_of 50
          (labelled hash_of 50 (login ∷ consume_op 7 "old" ∷ []) (chained ∷ []))
          (view (chained ∷ []))
          "other")
    × ((consume_refresh_token hash_of 50 8 "other"
          (run hash_of 50 (login ∷ consume_op 7 "old" ∷ []) (chained ∷ []))).0
        ≡ presented hash_of 50 8 "other" (
            advances hash_of 50
              (labelled hash_of 50 (login ∷ consume_op 7 "old" ∷ []) (chained ∷ []))
              (view (chained ∷ []))))
run-refines_example =
    run-refines hash_of 50 (login ∷ consume_op 7 "old" ∷ []) (chained ∷ []) "other" 8 "other"

-- Two requests read the same token before either of them writes: both new tokens are accepted.
abbrev raced : List Row
raced = chained ∷ second ∷ record second { id = "4"; token_hash = "stolen" } ∷ []

race :
    let follow = λ (id token : String) (rows : List Row).
      apply hash_of 50
        (issue_op 5 id token
          (record { user_id = "u"; user_agent = none; ip = none; predecessor_id = "1" }))
        rows in
    let rows = follow "4" "stolen" (follow "2" "new" (first ∷ [])) in
    (rows ≡ raced)
    × ((consume_refresh_token hash_of 50 6 "new" rows).0
        ≡ some (record { id = "2"; user_id = "u" }))
    × ((consume_refresh_token hash_of 50 6 "stolen" rows).0
        ≡ some (record { id = "4"; user_id = "u" }))
unfolding apply consume_refresh_token issue_refresh_token select
race = (refl, refl, refl)
