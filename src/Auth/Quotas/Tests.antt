-- ===== src/Auth/Quotas/Tests.antt =====
-- Five executions on a day that admits three.
use daisy_workflow.Common.{◌≡◌, refl, List, [], ◌∷◌, ok}
use daisy_workflow.Auth.Quotas.{
  Quota, Clock, Usage, get_current_usage, period_start_for_kind, usage_value, get_quota,
}
use daisy_workflow.Auth.Quotas.Metering.{requests, requests-get_current_usage}

abbrev clock : Clock
clock = record { month_start = 10; current_date = 20 }

abbrev quotas : List Quota
quotas =
    record { project_id = "p"; kind = "executions_per_day"; limit_value = 3; period = "day" } ∷ []

abbrev yesterday : List Usage
yesterday =
    record { project_id = "p"; kind = "executions_per_day"; period_start = 19; usage_value = 9 }
    ∷ []

requests-get_current_usage_example :
    get_current_usage clock "p" "executions_per_day"
      (requests clock "p" "executions_per_day" quotas 5 yesterday)
    ≡ ok 3
unfolding get_quota usage_value period_start_for_kind
requests-get_current_usage_example =
    requests-get_current_usage clock "p" "executions_per_day" "day" quotas refl refl 5 yesterday
