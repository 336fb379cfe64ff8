-- ===== src/Gateway/Tenant.antt =====
-- gateway/tenant.py: rate and concurrency limits for each tenant. Instants are microseconds, and
-- the clock's reading is an argument; `t > now - 60` is written as `now < t + minute`.
pub mod Window
pub mod Laws
use Prim.Native.String.{◌++◌}
use ai_inference_project.Common.{
  ℕ, ◌+◌, ◌-◌, ◌/◌, String, Bool, true, false, Option, none, some, List, [], ◌∷◌, length, filter,
  get_or, max, ltb, leb, if◌then◌else◌, string_key, Result, ok, raised, index_error,
}
use ai_inference_project.Common as Common
use ai_inference_project.Common.Int.{ℤ, pos, ◌+ℤ◌, leb_ℤ}
use ai_inference_project.Common.Dict
use ai_inference_project.Common.Dict.{Dict}
use ai_inference_project.Core.Metrics.{MetricEvent, request_rejected}

pub record TenantPolicy : Type 0 where
  pub max_requests_per_minute : ℕ
  pub max_concurrent : ℕ
  pub priority_boost : ℤ

-- The texts of `reason`, with the numbers that they are formatted from.
pub data TenantReason : Type 0 where
  rate_limited : (requests limit : ℕ) → TenantReason
  concurrency_limited : (active limit : ℕ) → TenantReason
  within_limits : TenantReason

pub record TenantCheckResult : Type 0 where
  pub allowed : Bool
  pub tenant_id : String
  pub reason : TenantReason
  pub retry_after_seconds : Option ℕ
  pub effective_priority : Option ℤ

-- `_TenantState`
pub record TenantState : Type 0 where
  pub timestamps : List ℕ
  pub active_count : ℕ

pub record TenantPolicyEngine : Type 0 where
  pub default_policy : TenantPolicy
  pub policies : Dict String TenantPolicy
  pub states : Dict String TenantState

abbrev pub default_tenant : String
default_tenant = "__default__"

abbrev pub second : ℕ
second = 1_000_000

abbrev pub minute : ℕ
minute = 60_000_000

-- `__init__`
unfoldable pub new_engine : TenantPolicy → TenantPolicyEngine
new_engine policy = record { default_policy = policy; policies = []; states = [] }

unfoldable pub set_policy : String → TenantPolicy → TenantPolicyEngine → TenantPolicyEngine
set_policy tenant_id policy e = record e { policies = Dict.put e.policies tenant_id policy }

unfoldable pub get_policy : TenantPolicyEngine → String → TenantPolicy
get_policy e tenant_id = get_or (Dict.get e.policies tenant_id) e.default_policy

-- The read of a `defaultdict(_TenantState)`.
unfoldable pub state_of : TenantPolicyEngine → String → TenantState
state_of e tenant_id =
    get_or (Dict.get e.states tenant_id) (record { timestamps = []; active_count = 0 })

abbrev pub with_state : String → TenantState → TenantPolicyEngine → TenantPolicyEngine
with_state tenant_id s e = record e { states = Dict.put e.states tenant_id s }

-- The timestamps of the last minute.
unfoldable pub prune : (now : ℕ) → List ℕ → List ℕ
prune now timestamps = filter (λ t. ltb now (t + minute)) timestamps

-- The seconds until the oldest timestamp leaves the window, rounded down, and one more.
unfoldable pub retry_after : (now oldest : ℕ) → ℕ
retry_after now oldest = max 1 ((oldest + minute - now) / second + 1)

-- `min(10, request_priority + policy.priority_boost)`
unfoldable pub boosted : TenantPolicy → ℤ → ℤ
boosted policy request_priority =
    let sum = request_priority +ℤ policy.priority_boost in
    if leb_ℤ (pos 10) sum then pos 10 else sum

-- What `check` does with the pruned state of the tenant: the new state, the events and the result.
-- `timestamps[0]` of an empty list raises.
unfoldable pub decide :
    TenantPolicy
    → String
    → (request_priority : ℤ) (now : ℕ) → TenantState
    → TenantState × List MetricEvent × Result TenantCheckResult
unfolding retry_after boosted
decide policy tenant_id request_priority now s =
    if leb policy.max_requests_per_minute (length s.timestamps)
    then elim s.timestamps [
      | [] ↦ (s, [], raised index_error)
      | oldest ∷ _ ↦ (
        s,
        request_rejected ("tenant_rate_limit:" ++ tenant_id) ∷ [],
        ok (record {
          allowed = false;
          tenant_id = tenant_id;
          reason = rate_limited (length s.timestamps) policy.max_requests_per_minute;
          retry_after_seconds = some (retry_after now oldest);
          effective_priority = none;
        }),
      )
    ]
    else if leb policy.max_concurrent s.active_count
    then (
      s,
      request_rejected ("tenant_concurrency:" ++ tenant_id) ∷ [],
      ok (record {
        allowed = false;
        tenant_id = tenant_id;
        reason = concurrency_limited s.active_count policy.max_concurrent;
        retry_after_seconds = some 5;
        effective_priority = none;
      }),
    )
    else (
      record {
        timestamps = Common.◌++◌ s.timestamps (now ∷ []);
        active_count = s.active_count + 1;
      },
      [],
      ok (record {
        allowed = true;
        tenant_id = tenant_id;
        reason = within_limits;
        retry_after_seconds = none;
        effective_priority = some (boosted policy request_priority);
      }),
    )

unfoldable pub check :
    String
    → (request_priority : ℤ) (now : ℕ) → TenantPolicyEngine
    → TenantPolicyEngine × List MetricEvent × Result TenantCheckResult
check tenant_id request_priority now e =
    let s = state_of e tenant_id in
    let pruned = record s { timestamps = prune now s.timestamps } in
    let (s', events, result) =
      decide (get_policy e tenant_id) tenant_id request_priority now pruned in
    (with_state tenant_id s' e, events, result)

unfoldable pub release : String → TenantPolicyEngine → TenantPolicyEngine
release tenant_id e =
    let s = state_of e tenant_id in
    with_state tenant_id (record s { active_count = s.active_count - 1 }) e

unfoldable pub extract_tenant : Dict String String → String
extract_tenant metadata = get_or (Dict.get metadata "tenant") default_tenant
