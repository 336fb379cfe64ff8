-- ===== src/Inference/GpuScheduler/Laws.antt =====
-- Where a batch is placed.
use mathlib.Core.Bool.{false≢true}
use mathlib.Core.HLevel.{⊥_prop}
use mathlib.Core.Logic.Or
use mathlib.Core.List.{mem-cons, mem-cons_self, not-mem-nil}
use mathlib.Core.List.Perm
use ai_inference_project.Common.{
  ℕ, ◌+◌, ◌≤◌, ◌≡◌, ◌↔◌, ◌⊎◌, inl, inr, refl, sym, String, true, false, Bool-cases, none, some,
  Option-cases, Mem, mem_of_mem-filter, All-of_filter, List-cases, subst, List, [], ◌∷◌, All,
  All-map, All-filter_test, filter, arith, ltb, string_key,
}
use ai_inference_project.Common.Dict
use ai_inference_project.Common.Sort.{
  sorted, sorted-perm, All-of_sorted, sorted-All, Ranks, IsAscending, sorted-IsAscending,
}
use ai_inference_project.Inference.GpuScheduler.{
  GpuDeviceSnapshot, ModelResourceProfile, SchedulingPolicy, GpuScheduler, deferred, free_memory_mb,
  is_eligible, tighter, place, schedule_with, schedule, is_scheduled,
}

-- The device has room for the model beside the reserve, stays within the utilization limit with it,
-- and is healthy.
pub record HasCapacity (policy : SchedulingPolicy) (profile : ModelResourceProfile)
    (d : GpuDeviceSnapshot) : Type 0 where
  pub healthy : d.unhealthy ≡ false
  pub memory : profile.required_memory_mb + policy.memory_reserve_mb ≤ free_memory_mb d
  pub utilization :
      d.utilization_percent + profile.expected_utilization_percent
      ≤ policy.max_gpu_utilization_percent

pub is_eligible_iff :
    (policy : SchedulingPolicy) (profile : ModelResourceProfile) (d : GpuDeviceSnapshot)
    → (is_eligible policy profile d ≡ true) ↔ HasCapacity policy profile d
unfolding is_eligible
is_eligible_iff policy profile d = (
  λ h. record { healthy = ground arith; memory = ground arith; utilization = ground arith },
  λ v. ground (arith, v.healthy, v.memory, v.utilization),
)

by_memory : Ranks tighter (λ d e. free_memory_mb d ≤ free_memory_mb e)
unfolding tighter
by_memory = record {
  if_before = λ d e h. ground arith;
  unless_before = λ d e h. ground arith;
  transitive = λ d e f h k. omega arith;
}

-- `d` is one of the devices, as the scheduler chooses it: it has capacity, and no device with
-- capacity has less free memory.
pub record IsTightest (policy : SchedulingPolicy) (profile : ModelResourceProfile)
    (devices : List GpuDeviceSnapshot) (d : GpuDeviceSnapshot) : Type 0 where
  pub present : Mem d devices
  pub capacity : HasCapacity policy profile d
  pub tightest :
      All (λ e. HasCapacity policy profile e → free_memory_mb d ≤ free_memory_mb e) devices

All-trivial : (ds : List GpuDeviceSnapshot) → All (λ x. Unit {0}) ds
All-trivial [] = tt
All-trivial (d ∷ ds) = (tt, All-trivial ds)

module _ (policy : SchedulingPolicy) (profile : ModelResourceProfile)
    (devices : List GpuDeviceSnapshot) where
  abbrev eligible : List GpuDeviceSnapshot
  eligible = filter (is_eligible policy profile) devices

  first-IsTightest :
      (d : GpuDeviceSnapshot) (rest : List GpuDeviceSnapshot)
      → sorted tighter eligible ≡ d ∷ rest
      → IsTightest policy profile devices d
  first-IsTightest d rest e = record {
    present =
        mem_of_mem-filter (is_eligible policy profile) d devices
          (Perm.subset (sorted-perm tighter eligible) d (subst (Mem d) (sym e) mem-cons_self));
    capacity = (is_eligible_iff policy profile d).0 (fits.0).1;
    tightest =
        All-map _ _ (λ x h v. h ((is_eligible_iff policy profile x).1 v)) devices
          (All-of_filter (λ x. free_memory_mb d ≤ free_memory_mb x) (is_eligible policy profile)
            devices
            (All-of_sorted tighter (λ x. free_memory_mb d ≤ free_memory_mb x) eligible
              (rw e (omega arith, order.0))));
  }
    where
      order : IsAscending (λ x y. free_memory_mb x ≤ free_memory_mb y) (d ∷ rest)
      order = subst (IsAscending _) e (sorted-IsAscending by_memory eligible)

      fits : All (λ x. Unit {0} × (is_eligible policy profile x ≡ true)) (d ∷ rest)
      fits = subst (All _) e (
          sorted-All tighter _ eligible (
            All-filter_test (λ x. Unit {0}) (is_eligible policy profile) devices
              (All-trivial devices)))

  none_eligible : sorted tighter eligible ≡ [] → All (λ d. ¬ HasCapacity policy profile d) devices
  none_eligible e =
      All-map _ _ (λ d h v. h ((is_eligible_iff policy profile d).1 v)) devices
        (All-of_filter (λ d. ⊥) (is_eligible policy profile) devices
          (All-of_sorted tighter (λ d. ⊥) eligible (rw e tt)))

-- Placement either chooses a device of the list that has capacity for the model and has the least
-- free memory of all that have, or defers the batch, with no device, when none has capacity.
pub place_lem :
    (policy : SchedulingPolicy) (profile : ModelResourceProfile) (model_name : String)
    (devices : List GpuDeviceSnapshot)
    → ((is_scheduled (place policy profile model_name devices) ≡ true)
        × (d : GpuDeviceSnapshot) × IsTightest policy profile devices d
        × ((place policy profile model_name devices).device_id ≡ some d.device_id))
      ⊎ (((place policy profile model_name devices).status ≡ deferred)
          × ((place policy profile model_name devices).device_id ≡ none)
          × All (λ d. ¬ HasCapacity policy profile d) devices)
unfolding place
place_lem policy profile model_name devices =
    elim (List-cases (sorted tighter (filter (is_eligible policy profile) devices))) [
      | inl e ↦ inr (rw (e, place) refl, rw (e, place) refl, none_eligible policy profile devices e)
      | inr (d, rest, e) ↦ inl (
        rw (e, place) refl,
        d,
        first-IsTightest policy profile devices d rest e,
        rw (e, place) refl,
      )
    ]

schedule_with-safe :
    (policy : SchedulingPolicy) (profile : ModelResourceProfile) (model_name : String)
    (devices : List GpuDeviceSnapshot) (batch_size : ℕ)
    → is_scheduled (schedule_with policy profile model_name devices batch_size) ≡ true
    → (d : GpuDeviceSnapshot) × (batch_size ≤ profile.max_batch_size)
      × IsTightest policy profile devices d
      × ((schedule_with policy profile model_name devices batch_size).device_id ≡ some d.device_id)
unfolding schedule_with
schedule_with-safe policy profile model_name [] batch_size h = absurd (ground arith)
schedule_with-safe policy profile model_name (x ∷ xs) batch_size h =
    elim (Bool-cases (ltb profile.max_batch_size batch_size)) [
      | inl over ↦ absurd (false≢true (rw over at h))
      | inr within ↦ elim (place_lem policy profile model_name (x ∷ xs)) [
        | inl (_, d, tightest, chosen) ↦ (d, ground arith, tightest, rw within chosen)
        | inr (waits, _, _) ↦ absurd (ground (arith, waits, h, within))
      ]
    ]

refuted :
    (policy : SchedulingPolicy) (profile : ModelResourceProfile) (d : GpuDeviceSnapshot)
    (devices : List GpuDeviceSnapshot)
    → All (λ x. ¬ HasCapacity policy profile x) devices
    → Mem d devices
    → HasCapacity policy profile d
    → ⊥
refuted policy profile d [] h m v = not-mem-nil m
refuted policy profile d (x ∷ xs) h m v =
    Or.elim ⊥_prop (mem-cons.0 m) (λ e. h.0 (subst (HasCapacity policy profile) e v))
      (λ later. refuted policy profile d xs h.1 later v)

schedule_with-live :
    (policy : SchedulingPolicy) (profile : ModelResourceProfile) (model_name : String)
    (devices : List GpuDeviceSnapshot) (batch_size : ℕ) (d : GpuDeviceSnapshot)
    → batch_size ≤ profile.max_batch_size
    → Mem d devices
    → HasCapacity policy profile d
    → is_scheduled (schedule_with policy profile model_name devices batch_size) ≡ true
unfolding schedule_with
schedule_with-live policy profile model_name [] batch_size d fits m v = absurd (not-mem-nil m)
schedule_with-live policy profile model_name (x ∷ xs) batch_size d fits m v =
    elim (place_lem policy profile model_name (x ∷ xs)) [
      | inl (yes', _, _, _) ↦ ground (arith, yes')
      | inr (_, _, none') ↦ absurd (refuted policy profile d (x ∷ xs) none' m v)
    ]

-- A batch is scheduled only on a device of the list, for a model with a resource profile whose
-- batch limit it respects; the device has capacity for the model, and no device with capacity has
-- less free memory.
pub schedule-safe :
    (s : GpuScheduler) (model_name : String) (devices : List GpuDeviceSnapshot) (batch_size : ℕ)
    → is_scheduled (schedule s model_name devices batch_size) ≡ true
    → (profile : ModelResourceProfile) × (d : GpuDeviceSnapshot) × (Dict.get s.model_profiles
          model_name
        ≡ some profile)
      × (batch_size ≤ profile.max_batch_size)
      × IsTightest s.policy profile devices d
      × ((schedule s model_name devices batch_size).device_id ≡ some d.device_id)
unfolding schedule
schedule-safe s model_name devices batch_size h =
    elim (Option-cases (Dict.get s.model_profiles model_name)) [
      | inl e ↦ absurd (false≢true (rw (e, schedule) at h))
      | inr (profile, e) ↦
          let (d, fits, tightest, chosen) =
            schedule_with-safe s.policy profile model_name devices batch_size
              (rw (e, schedule) at h) in
          (profile, d, e, fits, tightest, rw (e, schedule) chosen)
    ]

-- A model with a resource profile, a batch within its limit and a device with capacity: then the
-- batch is scheduled.
pub schedule-live :
    (s : GpuScheduler) (model_name : String) (devices : List GpuDeviceSnapshot) (batch_size : ℕ)
    (profile : ModelResourceProfile) (d : GpuDeviceSnapshot)
    → Dict.get s.model_profiles model_name ≡ some profile
    → batch_size ≤ profile.max_batch_size
    → Mem d devices
    → HasCapacity s.policy profile d
    → is_scheduled (schedule s model_name devices batch_size) ≡ true
unfolding schedule
schedule-live s model_name devices batch_size profile d e fits m v =
    rw (e, schedule) (schedule_with-live s.policy profile model_name devices batch_size d fits m v)
