-- ===== src/Guardrails/Policies.antt =====
-- The cache of the policies.
use daisy_workflow.Common.{
  ℕ, ◌+◌, ◌<◌, String, ◌≡◌, refl, ap, true, false, Option, none, some, ◌==◌, eq_refl, if◌then◌else◌,
  ltb, Result, arith,
}
use daisy_workflow.Guardrails.{
  Policy, PartialPolicy, Cache, cache_ttl_ms, fetch, queried, load_project_policy,
  evict_policy_cache,
}

module _ (default : Policy) (answer : Result String (Option PartialPolicy)) (now : ℕ)
    (project : String) (named : (project == "") ≡ false) where
  missed :
      (cache : Cache)
      → cache project ≡ none
      → load_project_policy default answer now project cache
        ≡ fetch default answer now project cache
  unfolding load_project_policy
  missed cache missing = rw (named, if◌then◌else◌, missing) refl

  found :
      (cache : Cache) (policy : Policy) (expires_at : ℕ)
      → cache project ≡ some (policy, expires_at)
      → now < expires_at
      → (load_project_policy default answer now project cache).0 ≡ policy
  unfolding load_project_policy
  found cache policy expires_at there fresh =
      rw (named, if◌then◌else◌, there) (rw (is_below now expires_at fresh) refl)
    where
      is_below : (a b : ℕ) → a < b → ltb a b ≡ true
      is_below a b h = ground arith

-- After a load that met no cached policy, every load within the next thirty seconds gives the same
-- policy, whatever the database then has; after an eviction the next load gives what the database
-- has then.
pub load_project_policy_cached :
    (default : Policy) (before after : Result String (Option PartialPolicy)) (now later : ℕ)
    (project : String) (cache : Cache)
    → (project == "") ≡ false
    → cache project ≡ none
    → later < now + cache_ttl_ms
    → ((load_project_policy default after later project
          (load_project_policy default before now project cache).1).0
        ≡ queried default before)
      × ((load_project_policy default after later project
            (evict_policy_cache project (load_project_policy default before now project cache).1)).0
          ≡ queried default after)
unfolding evict_policy_cache
load_project_policy_cached default before after now later project cache named missing soon = (
  found default after later project named _ (queried default before) (now + cache_ttl_ms)
      (rw (missed default before now project named cache missing, eq_refl project) refl) soon,
  ap (λ r. r.0)
      (missed default after later project named _
        (rw (named, if◌then◌else◌, eq_refl project) refl)),
)
