-- ===== src/Examples/Tenants.antt =====
-- The gateway's limits on concrete inputs.
use ai_inference_project.Common.{
  false, ◌+◌, ◌≤◌, ◌<◌, ◌≡◌, ◌↔◌, ◌⊎◌, refl, true, List, [], ◌∷◌, ◌++◌, length, arith, filter,
  raised, index_error,
}
use ai_inference_project.Common.Int.{pos, ◌+ℤ◌}
use ai_inference_project.Common.Dict
use ai_inference_project.Gateway.Admission.{AdmissionPolicy, SystemLoad, check_load}
use ai_inference_project.Gateway.Admission.Laws.{lets_in, check_load_lem}
use ai_inference_project.Gateway.Tenant.{
  TenantPolicy, TenantPolicyEngine, TenantCheckResult, within_limits, get_policy, state_of, prune,
  check, release, decide, boosted,
}
use ai_inference_project.Common.{some, none}
use ai_inference_project.Gateway.Tenant.Laws.{IsBounded, is_admitted, release-check, check_answers}
use ai_inference_project.Gateway.Tenant.Window.{
  Call, checks, releases, run, admissions, run-IsBounded, admissions_bounded,
}

abbrev policy : TenantPolicy
policy = record { max_requests_per_minute = 2; max_concurrent = 1; priority_boost = pos 0 }

abbrev engine : TenantPolicyEngine
engine = record { default_policy = policy; policies = []; states = [] }

abbrev history : List Call
history =
    checks "a" (pos 5) 10
    ∷ releases "a"
    ∷ checks "a" (pos 5) 20
    ∷ checks "b" (pos 5) 30
    ∷ checks "a" (pos 5) 40
    ∷ []

abbrev admitted : TenantCheckResult
admitted = record {
  allowed = true;
  tenant_id = "a";
  reason = within_limits;
  retry_after_seconds = none;
  effective_priority = some (pos 5);
}

admissions_bounded_example :
    length (prune 50 (admissions history engine "a"))
    ≤ (get_policy engine "a").max_requests_per_minute
admissions_bounded_example =
    admissions_bounded history engine "a" 50 refl
      (omega arith, (omega arith, (omega arith, (omega arith, omega arith))))

run-IsBounded_example : IsBounded (get_policy engine "a") (state_of (run history engine) "a")
unfolding Dict.get state_of get_policy
run-IsBounded_example =
    run-IsBounded history engine "a" (record { rate = omega arith; concurrency = omega arith })

check_answers_example :
    ((is_admitted (check "a" (pos 5) 10 engine).2 ≡ true) ↔ (
      (length (prune 10 (state_of engine "a").timestamps)
        < (get_policy engine "a").max_requests_per_minute)
      × ((state_of engine "a").active_count < (get_policy engine "a").max_concurrent)))
    × (((check "a" (pos 5) 10 engine).2 ≡ raised index_error) ↔ (
        ((get_policy engine "a").max_requests_per_minute ≡ 0)
        × (prune 10 (state_of engine "a").timestamps ≡ [])))
check_answers_example = check_answers "a" (pos 5) 10 engine

release-check_example :
    let e' = (check "a" (pos 5) 10 engine).0 in
    ((state_of e' "a").timestamps ≡ prune 10 (state_of engine "a").timestamps ++ 10 ∷ [])
    × ((state_of e' "a").active_count ≡ (state_of engine "a").active_count + 1)
    × ((state_of (release "a" e') "a").active_count ≡ (state_of engine "a").active_count)
unfolding Dict.get check decide get_policy prune filter state_of ◌+ℤ◌ boosted
release-check_example = release-check "a" (pos 5) 10 engine admitted refl refl

abbrev limits : AdmissionPolicy
limits = record {
  max_queue_depth = 100;
  max_pending_requests = 50;
  max_processing_requests = 20;
  enabled = true;
}

abbrev load : SystemLoad
load = record { queue_depth = 3; pending_count = 50; processing_count = 1 }

check_load_lem_example :
    let (r, events) = check_load limits load in
    ((lets_in r ≡ true) ↔ ((true ≡ false) ⊎ ((3 < 100) × (50 < 50) × (1 < 20))))
    × ((lets_in r ≡ true) ↔ (events ≡ []))
    × ((lets_in r ≡ true) ↔ (r.retry_after_seconds ≡ none))
check_load_lem_example = check_load_lem limits load
