-- ===== src/Worker/Setup/Placement.antt =====
-- What the worker's configuration lets the scheduler place.
use mathlib.Core.List.{mem-cons_self, mem-cons, not-mem-nil}
use mathlib.Core.Bool.{Bool-set}
use mathlib.Core.Logic.Or
use ai_inference_project.Common.{
  ℕ, ltb, ◌≤◌, ◌≡◌, ◌≢◌, ◌↔◌, inl, inr, sym, subst, ◌∙◌, String, true, Bool-cases, some, List, [],
  ◌∷◌, Mem, if◌then◌else◌, ◌==◌, string_key, arith, ok,
}
use ai_inference_project.Common.Dict
use ai_inference_project.Common.Dict.{Dict}
use ai_inference_project.Inference.Latency.{LatencyTracker}
use ai_inference_project.Inference.Router.{
  ModelProfile, ModelRouter, InferenceRequest, RoutingDecision, by_name, route,
}
use ai_inference_project.Inference.Router.Routes.{route_lem}
use ai_inference_project.Inference.GpuScheduler.{
  GpuDeviceSnapshot, ModelResourceProfile, SchedulingPolicy, GpuScheduler, rejected, check_profile,
  check_snapshot, is_eligible, hundred, new_scheduler, place, schedule_with, schedule, is_scheduled,
}
use ai_inference_project.Inference.GpuScheduler.Laws.{
  HasCapacity, is_eligible_iff, place_lem, schedule-safe, schedule-live,
}
use ai_inference_project.Gateway.Api.Router.{two_profiles, two_router, two_profiles-ok}
use ai_inference_project.Worker.Messages.Collect.{AlwaysRoutes}
use ai_inference_project.Worker.Setup.{
  WorkerConfig, small_model, large_model, initialize_model_router, small_resources, large_resources,
  scheduling_policy, check_policy, scheduler_over, initialize_gpu_scheduler, snapshot,
  get_gpu_snapshots,
}

-- The bounds of the validation of `WorkerConfig`, and a device that does not use more memory than it
-- has.
pub record IsAllowed (c : WorkerConfig) : Type 0 where
  pub small_memory : 1 ≤ c.gpu_small_model_memory_mb
  pub large_memory : 1 ≤ c.gpu_large_model_memory_mb
  pub small_batch : 1 ≤ c.gpu_small_model_max_batch_size
  pub large_batch : 1 ≤ c.gpu_large_model_max_batch_size
  pub some_utilization : 100 ≤ c.gpu_max_utilization_percent
  pub within_utilization : c.gpu_max_utilization_percent ≤ hundred
  pub device_utilization : c.gpu_device_utilization_percent ≤ hundred
  pub device_memory : c.gpu_device_used_memory_mb ≤ c.gpu_device_memory_mb

-- The resources of a model that the router chooses.
abbrev pub resources_of : WorkerConfig → String → ModelResourceProfile
resources_of c model = if small_model c == model then small_resources c else large_resources c

abbrev pub router_for : WorkerConfig → LatencyTracker → ModelRouter
router_for c tracker =
    two_router (small_model c) (large_model c) c.vllm_small_context_tokens
      c.vllm_large_context_tokens (some tracker)

abbrev pub scheduler_for : WorkerConfig → GpuScheduler
scheduler_for c = record {
  model_profiles =
      if large_model c == small_model c
      then (small_model c, small_resources c) ∷ []
      else (small_model c, small_resources c) ∷ (large_model c, large_resources c) ∷ [];
  policy = scheduling_policy c;
}

small_checked :
    (c : WorkerConfig) → IsAllowed c → check_profile (small_resources c) ≡ ok (small_resources c)
unfolding check_profile
small_checked c h = ground (arith, h.small_memory, h.small_batch)

large_checked :
    (c : WorkerConfig) → IsAllowed c → check_profile (large_resources c) ≡ ok (large_resources c)
unfolding check_profile
large_checked c h = ground (arith, h.large_memory, h.large_batch)

scheduler_over-ok :
    (c : WorkerConfig) (k : String) (p : ModelResourceProfile)
    (ps : Dict String ModelResourceProfile)
    → IsAllowed c
    → scheduler_over ((k, p) ∷ ps) (scheduling_policy c)
      ≡ ok (record { model_profiles = (k, p) ∷ ps; policy = scheduling_policy c })
unfolding scheduler_over check_policy new_scheduler
scheduler_over-ok c k p ps h = ground (arith, h.some_utilization, h.within_utilization)

scheduler_made :
    (c : WorkerConfig) → IsAllowed c → initialize_gpu_scheduler c ≡ ok (scheduler_for c)
unfolding initialize_gpu_scheduler Dict.put
scheduler_made c h =
    let small = small_model c in
    let large = large_model c in
    elim (Bool-cases (large == small)) [
      | inl same ↦
          ground
            (arith, same, small_checked c h, scheduler_over-ok c small (small_resources c) [] h)
      | inr other ↦ ground (
        arith,
        other,
        small_checked c h,
        large_checked c h,
        string_key.beq_iff small large,
        string_key.beq_iff large small,
        scheduler_over-ok c small (small_resources c) ((large, large_resources c) ∷ []) h,
      )
    ]

snapshots_made : (c : WorkerConfig) → IsAllowed c → get_gpu_snapshots c ≡ ok (snapshot c ∷ [])
unfolding get_gpu_snapshots check_snapshot
snapshots_made c h = ground (arith, h.device_utilization, h.device_memory)

-- The router knows only the small and the large model, and the scheduler has the resources of both.
knows :
    (c : WorkerConfig) (tracker : LatencyTracker) (model : String) (p : ModelProfile)
    → Dict.get (router_for c tracker).profiles model ≡ some p
    → Dict.get (scheduler_for c).model_profiles model ≡ some (resources_of c model)
unfolding two_profiles by_name Dict.put Dict.get
knows c tracker model p h =
    let small = small_model c in
    let large = large_model c in
    elim (Bool-cases (large == small)) [
      | inl same ↦ ground (arith, same, h)
      | inr other ↦
          ground (arith, other, h, string_key.beq_iff small large, string_key.beq_iff large small)
    ]

capacity_iff :
    (c : WorkerConfig) (model : String) (n : ℕ)
    → Dict.get (scheduler_for c).model_profiles model ≡ some (resources_of c model)
    → (is_scheduled (schedule (scheduler_for c) model (snapshot c ∷ []) n) ≡ true) ↔ (
        (n ≤ (resources_of c model).max_batch_size)
        × HasCapacity (scheduling_policy c) (resources_of c model) (snapshot c))
capacity_iff c model n found = (
  λ h.
      let (profile, d, has, fits, tightest, _) =
        schedule-safe (scheduler_for c) model (snapshot c ∷ []) n h in
      let same : profile ≡ resources_of c model = ground (arith, has, found) in
      (
        subst (λ p. n ≤ p.max_batch_size) same fits,
        subst (λ p. HasCapacity (scheduling_policy c) p (snapshot c)) same
            ((is_eligible_iff (scheduling_policy c) profile (snapshot c)).0
              (only profile d tightest.present tightest.capacity)),
      ),
  λ h.
      schedule-live (scheduler_for c) model (snapshot c ∷ []) n (resources_of c model) (snapshot c)
        found h.0 mem-cons_self h.1,
)
  where
    only :
        (p : ModelResourceProfile) (d : GpuDeviceSnapshot)
        → Mem d (snapshot c ∷ [])
        → HasCapacity (scheduling_policy c) p d
        → is_eligible (scheduling_policy c) p (snapshot c) ≡ true
    only p d m v =
        Or.elim (Bool-set _ _) (mem-cons.0 m)
          (λ e.
            (is_eligible_iff (scheduling_policy c) p (snapshot c)).1
              (subst (HasCapacity (scheduling_policy c) p) e v))
          (λ none'. absurd (not-mem-nil none'))

place_not_rejected :
    (policy : SchedulingPolicy) (p : ModelResourceProfile) (model : String)
    (devices : List GpuDeviceSnapshot)
    → (place policy p model devices).status ≢ rejected
place_not_rejected policy p model devices h = elim (place_lem policy p model devices) [
  | inl (placed, _, _, _) ↦ absurd (ground (arith, placed, h))
  | inr (waits, _, _) ↦ absurd (ground (arith, waits, h))
]

not_rejected :
    (s : GpuScheduler) (model : String) (d : GpuDeviceSnapshot) (rest : List GpuDeviceSnapshot)
    (n : ℕ) (p : ModelResourceProfile)
    → Dict.get s.model_profiles model ≡ some p
    → (schedule s model (d ∷ rest) n).status ≢ rejected
unfolding schedule schedule_with
not_rejected s model d rest n p found h = elim (Bool-cases (ltb p.max_batch_size n)) [
  | inl over ↦ absurd (ground (arith, found, over, h))
  | inr within ↦ place_not_rejected s.policy p model (d ∷ rest) (ground (arith, found, within, h))
]

-- A batch within the limits of the device goes to the models that the router chooses.
pub routed-is_scheduled :
    (c : WorkerConfig) (tracker : LatencyTracker) (request : InferenceRequest) (d : RoutingDecision)
    (n : ℕ)
    → route (router_for c tracker) request ≡ ok d
    → n ≤ (resources_of c d.model_name).max_batch_size
    → HasCapacity (scheduling_policy c) (resources_of c d.model_name) (snapshot c)
    → is_scheduled (schedule (scheduler_for c) d.model_name (snapshot c ∷ []) n) ≡ true
routed-is_scheduled c tracker request d n routes small capacity =
    let made =
      two_profiles-ok (small_model c) (large_model c) c.vllm_small_context_tokens
        c.vllm_large_context_tokens (some tracker) in
    let (e, p, answers, answer) =
      route_lem _ (small_model c) (some tracker) (router_for c tracker) request made in
    let same : e.model_name ≡ d.model_name = ground (arith, routes, answers) in
    let found =
      subst (λ x. Dict.get (scheduler_for c).model_profiles x ≡ some (resources_of c x))
        (sym answer.named ∙ same) (knows c tracker p.name p answer.configured) in
    (capacity_iff c d.model_name n found).1 (small, capacity)

-- With a configuration within its bounds, the router, the scheduler and the observation of the device
-- are made without an error; the router answers every request; and a batch of `n` requests of the
-- model that it answers with is never rejected, and is placed exactly if `n` is within the batch limit
-- of that model and the device has capacity for it.
pub initialize-places :
    (c : WorkerConfig) (tracker : LatencyTracker) (request : InferenceRequest)
    → IsAllowed c
    → (r : ModelRouter) × (s : GpuScheduler) × (devices : List GpuDeviceSnapshot)
      × (d : RoutingDecision) × (initialize_model_router c tracker ≡ ok r)
      × (initialize_gpu_scheduler c ≡ ok s)
      × (get_gpu_snapshots c ≡ ok devices)
      × (route r request ≡ ok d)
      × ((n : ℕ)
          → ((schedule s d.model_name devices n).status ≢ rejected)
            × ((is_scheduled (schedule s d.model_name devices n) ≡ true) ↔ (
                (n ≤ (resources_of c d.model_name).max_batch_size)
                × HasCapacity (scheduling_policy c) (resources_of c d.model_name) (snapshot c))))
unfolding initialize_model_router
initialize-places c tracker request h =
    let made =
      two_profiles-ok (small_model c) (large_model c) c.vllm_small_context_tokens
        c.vllm_large_context_tokens (some tracker) in
    let (d, p, routes, answer) =
      route_lem _ (small_model c) (some tracker) (router_for c tracker) request made in
    let found =
      subst (λ x. Dict.get (scheduler_for c).model_profiles x ≡ some (resources_of c x))
        (sym answer.named) (knows c tracker p.name p answer.configured) in
    (
      router_for c tracker,
      scheduler_for c,
      snapshot c ∷ [],
      d,
      made,
      scheduler_made c h,
      snapshots_made c h,
      routes,
      λ n. (
        not_rejected (scheduler_for c) d.model_name (snapshot c) [] n _ found,
        capacity_iff c d.model_name n found,
      ),
    )

-- The router of the configuration answers every request, whatever latencies are recorded after it was
-- made.
pub router_for-AlwaysRoutes :
    (c : WorkerConfig) (tracker : LatencyTracker) → AlwaysRoutes (router_for c tracker)
router_for-AlwaysRoutes c tracker later q =
    let (d, _, routes, _) = route_lem _ (small_model c) (some later) (router_for c later) q (
      two_profiles-ok (small_model c) (large_model c) c.vllm_small_context_tokens
        c.vllm_large_context_tokens (some later)) in
    (d, routes)

pub initialize_model_router-AlwaysRoutes :
    (c : WorkerConfig) (tracker : LatencyTracker)
    → (r : ModelRouter) × (initialize_model_router c tracker ≡ ok r) × AlwaysRoutes r
unfolding initialize_model_router
initialize_model_router-AlwaysRoutes c tracker = (
  router_for c tracker,
  two_profiles-ok (small_model c) (large_model c) c.vllm_small_context_tokens
      c.vllm_large_context_tokens (some tracker),
  router_for-AlwaysRoutes c tracker,
)
