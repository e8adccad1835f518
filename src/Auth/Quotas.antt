-- ===== src/Auth/Quotas.antt =====
-- Project quotas (backend/src/auth/quotas.js). The tables are lists of rows; the starts of the month
-- and of the day, which SQL computes, are the parameters of `Clock`. A write that fails is only
-- logged by the code, and is left out.
pub mod Metering
mod Tests
use daisy_workflow.Common.{
  ℕ, ◌+◌, ◌-◌, String, Bool, true, false, ◌&&◌, ◌||◌, Option, none, some, List, [], ◌∷◌, ◌==◌, eqb,
  leb, if◌then◌else◌, Result, ok, err, ◌>>=◌,
}

-- A row of `project_quotas`.
pub record Quota : Type 0 where
  pub project_id : String
  pub kind : String
  pub limit_value : ℕ
  pub period : String

-- A row of `quota_usage`.
pub record Usage : Type 0 where
  pub project_id : String
  pub kind : String
  pub period_start : ℕ
  pub usage_value : ℕ

-- Days: `date_trunc('month', NOW())` and `CURRENT_DATE`. The first of January 1970 is day 0.
pub record Clock : Type 0 where
  pub month_start : ℕ
  pub current_date : ℕ

pub record Snapshot : Type 0 where
  pub kind : String
  pub limit : Option ℕ
  pub usage : ℕ
  pub period : String
  pub remaining : Option ℕ

pub data QuotaError : Type 0 where
  unknown_quota_kind : String → QuotaError
  quota_exceeded : Snapshot → QuotaError

unfoldable pub period_start_for_kind : String → Result QuotaError String
period_start_for_kind kind =
    if kind == "tokens_per_month"
    then ok "month"
    else if kind == "executions_per_day"
    then ok "day"
    else if kind == "storage_bytes"
    then ok "none"
    else err (unknown_quota_kind kind)

-- The day that the period of a kind starts on.
abbrev pub period_start_literal : Clock → String → ℕ
period_start_literal c period =
    if period == "month" then c.month_start else if period == "day" then c.current_date else 0

unfoldable pub get_quota : String → String → List Quota → Option Quota
get_quota project kind [] = none
get_quota project kind (q ∷ qs) =
    let later = get_quota project kind qs in
    if project == ""
    then none
    else if q.project_id == project && q.kind == kind
    then some q
    else later

abbrev pub is_bucket : String → String → ℕ → Usage → Bool
is_bucket project kind start u =
    u.project_id == project && (u.kind == kind && eqb u.period_start start)

unfoldable pub usage_value : String → String → ℕ → List Usage → ℕ
usage_value project kind start [] = 0
usage_value project kind start (u ∷ us) =
    let later = usage_value project kind start us in
    if is_bucket project kind start u then u.usage_value else later

unfoldable pub get_current_usage : Clock → String → String → List Usage → Result QuotaError ℕ
unfolding period_start_for_kind usage_value
get_current_usage c project kind usages =
    if project == ""
    then ok 0
    else (period_start_for_kind kind >>= λ period.
        ok (usage_value project kind (period_start_literal c period) usages))

abbrev pub period_of : Option Quota → String → Result QuotaError String
period_of (some q) kind = if q.period == "" then period_start_for_kind kind else ok q.period
period_of none kind = period_start_for_kind kind

abbrev pub limit_of : Option Quota → Option ℕ
limit_of none = none
limit_of (some q) = some q.limit_value

abbrev pub remaining_of : Option ℕ → ℕ → Option ℕ
remaining_of none used = none
remaining_of (some limit) used = some (limit - used)

unfoldable pub get_quota_snapshot :
    Clock → String → String → List Quota → List Usage → Result QuotaError Snapshot
unfolding get_quota get_current_usage
get_quota_snapshot c project kind quotas usages = do
  used ← get_current_usage c project kind usages
  period ← period_of (get_quota project kind quotas) kind
  let limit = limit_of (get_quota project kind quotas)
  ok (record {
    kind = kind;
    limit = limit;
    usage = used;
    period = period;
    remaining = remaining_of limit used;
  })

-- `INSERT ... ON CONFLICT (project_id, kind, period_start) DO UPDATE`
unfoldable pub add_usage : String → String → ℕ → ℕ → List Usage → List Usage
add_usage project kind start delta [] =
    record { project_id = project; kind = kind; period_start = start; usage_value = delta } ∷ []
add_usage project kind start delta (u ∷ us) =
    let later = add_usage project kind start delta us in
    if is_bucket project kind start u
    then record u { usage_value = u.usage_value + delta } ∷ us
    else u ∷ later

unfoldable pub increment_usage :
    Clock → String → String → ℕ → List Usage → Result QuotaError (List Usage)
unfolding period_start_for_kind add_usage
increment_usage c project kind delta usages =
    if project == "" || eqb delta 0
    then ok usages
    else (period_start_for_kind kind >>= λ period.
        ok (add_usage project kind (period_start_literal c period) delta usages))

abbrev pub within : Option ℕ → Snapshot → Result QuotaError (Option Snapshot)
within none snap = ok (some snap)
within (some limit) snap =
    if leb limit snap.usage then err (quota_exceeded snap) else ok (some snap)

unfoldable pub assert_quota :
    Clock → String → String → List Quota → List Usage → Result QuotaError (Option Snapshot)
assert_quota c project kind quotas usages =
    if project == ""
    then ok none
    else (get_quota_snapshot c project kind quotas usages >>= λ snap. within snap.limit snap)

unfoldable pub check_and_increment :
    Clock → String → String → ℕ → List Quota → List Usage → Result QuotaError (List Usage)
check_and_increment c project kind delta quotas usages =
    assert_quota c project kind quotas usages >>= λ snap.
    increment_usage c project kind delta usages
