-- ===== src/Auth/Quotas/Metering.antt =====
-- What is counted, and that what is admitted keeps within the limit.
use daisy_workflow.Common.{
  ℕ, zero, suc, ◌+◌, ◌≡◌, refl, sym, ap, ◌∙◌, String, Bool, false, Bool-cases, inl, inr, Option,
  none, some, List, [], ◌∷◌, ◌==◌, leb, if◌then◌else◌, arith, ok, err, ◌>>=◌, eq_refl, max, min,
}
use daisy_workflow.Auth.Quotas.{
  Quota, Usage, Clock, Snapshot, period_start_for_kind, period_start_literal, get_quota, is_bucket,
  usage_value, get_current_usage, period_of, limit_of, get_quota_snapshot, add_usage,
  increment_usage, within, remaining_of, assert_quota, check_and_increment,
}

usage_value-add_usage :
    (project kind : String) (start delta : ℕ) (us : List Usage)
    → usage_value project kind start (add_usage project kind start delta us)
      ≡ usage_value project kind start us + delta
unfolding usage_value add_usage
usage_value-add_usage project kind start delta [] = ground (arith, eq_refl project, eq_refl kind)
usage_value-add_usage project kind start delta (u ∷ us) =
    elim (Bool-cases (is_bucket project kind start u)) [
      | inl e ↦ rw (e, e) refl
      | inr e ↦ rw (e, e) (usage_value-add_usage project kind start delta us)
    ]

-- A request that is counted if it is admitted.
abbrev admitted : Clock → String → String → ℕ → List Quota → List Usage → List Usage
admitted c project kind delta quotas us =
    elim (check_and_increment c project kind delta quotas us) [
      | ok written ↦ written
      | err why ↦ us
    ]

-- `n` requests after each other.
abbrev pub requests : Clock → String → String → List Quota → ℕ → List Usage → List Usage
requests c project kind quotas zero us = us
requests c project kind quotas (suc n) us =
    requests c project kind quotas n (admitted c project kind 1 quotas us)

-- Is there room for one more?
abbrev is_full : Option ℕ → ℕ → Bool
is_full none used = false
is_full (some limit) used = leb limit used

-- The count after `n` requests, each of which asks for one.
abbrev pub expected : Option ℕ → ℕ → ℕ → ℕ
expected none used n = used + n
expected (some limit) used n = max used (min (used + n) limit)

expected_step :
    (o : Option ℕ) (used n : ℕ)
    → expected o (if is_full o used then used else used + 1) n ≡ expected o used (suc n)
expected_step none used n = omega arith
expected_step (some l) used n = ground arith

expected_none : (o : Option ℕ) (used : ℕ) → expected o used 0 ≡ used
expected_none none used = omega arith
expected_none (some l) used = ground arith

module _ (c : Clock) (project kind period : String) (quotas : List Quota)
    (is_project : (project == "") ≡ false) (is_kind : period_start_for_kind kind ≡ ok period) where
  counted : List Usage → ℕ
  counted us = usage_value project kind (period_start_literal c period) us

  increment_usage-counted :
      (us : List Usage)
      → (written : List Usage) × (increment_usage c project kind 1 us ≡ ok written)
        × (counted written ≡ counted us + 1)
  unfolding increment_usage counted
  increment_usage-counted us = (
    add_usage project kind (period_start_literal c period) 1 us,
    rw (is_project, is_kind) refl,
    usage_value-add_usage project kind (period_start_literal c period) 1 us,
  )

  period_of-ok : (o : Option Quota) → (p : String) × (period_of o kind ≡ ok p)
  period_of-ok none = (period, is_kind)
  period_of-ok (some q) = elim (Bool-cases (q.period == "")) [
    | inl e ↦ (period, rw e is_kind)
    | inr e ↦ (q.period, rw e refl)
  ]

  snapshot : List Usage → Snapshot
  snapshot us = record {
    kind = kind;
    limit = limit_of (get_quota project kind quotas);
    usage = counted us;
    period = (period_of-ok (get_quota project kind quotas)).0;
    remaining = remaining_of (limit_of (get_quota project kind quotas)) (counted us);
  }

  get_quota_snapshot-ok :
      (us : List Usage) → get_quota_snapshot c project kind quotas us ≡ ok (snapshot us)
  unfolding get_quota_snapshot get_current_usage snapshot counted
  get_quota_snapshot-ok us =
      rw (is_project, is_kind, (period_of-ok (get_quota project kind quotas)).1) refl

  assert_quota-within :
      (us : List Usage)
      → assert_quota c project kind quotas us
        ≡ within (limit_of (get_quota project kind quotas)) (snapshot us)
  unfolding assert_quota snapshot
  assert_quota-within us = rw (is_project, get_quota_snapshot-ok us) refl

  -- What the count is after a check that ended so.
  admitted_by :
      (o : Option ℕ) (snap : Snapshot) (us : List Usage)
      → snap.usage ≡ counted us
      → counted (elim (within o snap >>= λ s. increment_usage c project kind 1 us) [
        | ok written ↦ written
        | err why ↦ us
      ])
        ≡ (if is_full o (counted us) then counted us else counted us + 1)
  admitted_by none snap us h = let step = increment_usage-counted us in rw (step.1) step.2
  admitted_by (some l) snap us h = elim (Bool-cases (leb l (counted us))) [
    | inl e ↦ rw (h, e) refl
    | inr e ↦ let step = increment_usage-counted us in rw (h, e, step.1) step.2
  ]

  admitted-counted :
      (us : List Usage)
      → counted (admitted c project kind 1 quotas us) ≡ (
          if is_full (limit_of (get_quota project kind quotas)) (counted us)
          then counted us
          else counted us + 1)
  unfolding check_and_increment
  admitted-counted us =
      rw (admitted, assert_quota-within us)
        (admitted_by (limit_of (get_quota project kind quotas)) (snapshot us) us
          (unfold snapshot in refl))

  requests-counted :
      (n : ℕ) (us : List Usage)
      → counted (requests c project kind quotas n us)
        ≡ expected (limit_of (get_quota project kind quotas)) (counted us) n
  requests-counted zero us =
      sym (expected_none (limit_of (get_quota project kind quotas)) (counted us))
  requests-counted (suc n) us =
      requests-counted n (admitted c project kind 1 quotas us)
      ∙ rw (admitted-counted us)
          (expected_step (limit_of (get_quota project kind quotas)) (counted us) n)

  usage-counted : (us : List Usage) → get_current_usage c project kind us ≡ ok (counted us)
  unfolding get_current_usage counted
  usage-counted us = rw (is_project, is_kind) refl

  -- Of requests that come one after the other and ask for one each, as many are admitted as there is
  -- room for: a project's count for a kind goes up by their number, but not above the limit, and
  -- where it was not below the limit it stays; with no limit every one is counted.
  pub requests-get_current_usage :
      (n : ℕ) (us : List Usage)
      → get_current_usage c project kind (requests c project kind quotas n us)
        ≡ ok (
            expected
              (limit_of (get_quota project kind quotas))
              (usage_value project kind (period_start_literal c period) us)
              n)
  unfolding counted
  requests-get_current_usage n us =
      usage-counted (requests c project kind quotas n us) ∙ ap ok (requests-counted n us)
