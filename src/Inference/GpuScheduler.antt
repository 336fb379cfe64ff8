-- ===== src/Inference/GpuScheduler.antt =====
-- inference/gpu_scheduler.py: the placement of a batch on a device. A percentage is a whole number
-- of a fixed fraction of a percent, `hundred` being 100.
pub mod Laws
use ai_inference_project.Common.{
  ℕ, ◌+◌, ◌-◌, max, String, Bool, true, false, not, ◌&&◌, ◌||◌, Option, none, some, List, [], ◌∷◌,
  leb, ltb, filter, if◌then◌else◌, ◌==◌, string_key, nat_key, ltb_string, Result, ok, raised,
  value_error,
}
use ai_inference_project.Common.Dict
use ai_inference_project.Common.Dict.{Dict}
use ai_inference_project.Common.Sort.{sorted}

pub data SchedulingStatus : Type 0 where
  scheduled deferred rejected : SchedulingStatus

pub record GpuDeviceSnapshot : Type 0 where
  pub device_id : String
  pub total_memory_mb : ℕ
  pub used_memory_mb : ℕ
  pub utilization_percent : ℕ
  pub unhealthy : Bool

pub record ModelResourceProfile : Type 0 where
  pub model_name : String
  pub required_memory_mb : ℕ
  pub expected_utilization_percent : ℕ
  pub max_batch_size : ℕ

pub record SchedulingPolicy : Type 0 where
  pub memory_reserve_mb : ℕ
  pub max_gpu_utilization_percent : ℕ
  pub allow_cpu_fallback : Bool

pub record SchedulingDecision : Type 0 where
  pub status : SchedulingStatus
  pub model_name : String
  pub device_id : Option String
  pub reason : String
  pub available_memory_mb : ℕ
  pub required_memory_mb : ℕ

abbrev pub hundred : ℕ
hundred = 10_000

-- `GPUDeviceSnapshot.__post_init__`; the tests for negative numbers have nothing to test.
unfoldable pub check_snapshot : GpuDeviceSnapshot → Result GpuDeviceSnapshot
check_snapshot d =
    if ltb d.total_memory_mb d.used_memory_mb && ltb 0 d.total_memory_mb
    then raised value_error
    else if leb d.utilization_percent hundred
    then ok d
    else raised value_error

-- `ModelResourceProfile.__post_init__`
unfoldable pub check_profile : ModelResourceProfile → Result ModelResourceProfile
check_profile p =
    if ltb p.required_memory_mb 1
    then raised value_error
    else if not (leb p.expected_utilization_percent hundred)
    then raised value_error
    else if ltb p.max_batch_size 1
    then raised value_error
    else ok p

-- `GPUDeviceSnapshot.free_memory_mb`
unfoldable pub free_memory_mb : GpuDeviceSnapshot → ℕ
free_memory_mb d = d.total_memory_mb - d.used_memory_mb

pub record GpuScheduler : Type 0 where
  pub model_profiles : Dict String ModelResourceProfile
  pub policy : SchedulingPolicy

-- `GPUScheduler.__init__`
unfoldable pub new_scheduler :
    Dict String ModelResourceProfile → SchedulingPolicy → Result GpuScheduler
new_scheduler [] policy = raised value_error
new_scheduler (p ∷ profiles) policy = ok (record { model_profiles = p ∷ profiles; policy = policy })

-- A device that the loop of `schedule` appends to `eligible`.
unfoldable pub is_eligible : SchedulingPolicy → ModelResourceProfile → GpuDeviceSnapshot → Bool
is_eligible policy profile d =
    not d.unhealthy
    && (leb (profile.required_memory_mb + policy.memory_reserve_mb) (free_memory_mb d)
        && leb (d.utilization_percent + profile.expected_utilization_percent)
            policy.max_gpu_utilization_percent)

-- `(free, utilization, device_id)` in lexicographic order.
unfoldable pub tighter : GpuDeviceSnapshot → GpuDeviceSnapshot → Bool
tighter d e =
    ltb (free_memory_mb d) (free_memory_mb e)
    || (free_memory_mb d == free_memory_mb e
        && (ltb d.utilization_percent e.utilization_percent
            || (d.utilization_percent == e.utilization_percent
                && ltb_string d.device_id e.device_id)))

-- `max((d.free_memory_mb for d in devices if not d.unhealthy), default=0)`
unfoldable pub best_free : List GpuDeviceSnapshot → ℕ
best_free [] = 0
best_free (d ∷ devices) =
    let rest = best_free devices in if d.unhealthy then rest else max (free_memory_mb d) rest

-- The sorted eligible devices, and the placement on the first of them.
unfoldable pub place :
    SchedulingPolicy → ModelResourceProfile → String → List GpuDeviceSnapshot → SchedulingDecision
place policy profile model_name devices =
    let required_with_reserve = profile.required_memory_mb + policy.memory_reserve_mb in
    elim (sorted tighter (filter (is_eligible policy profile) devices)) [
      | [] ↦ record {
        status = deferred;
        model_name = model_name;
        device_id = none;
        reason = "insufficient_gpu_capacity";
        available_memory_mb = best_free devices;
        required_memory_mb = required_with_reserve;
      }
      | selected ∷ _ ↦ record {
        status = scheduled;
        model_name = model_name;
        device_id = some selected.device_id;
        reason = "gpu_capacity_available";
        available_memory_mb = free_memory_mb selected;
        required_memory_mb = required_with_reserve;
      }
    ]

-- `schedule` for a model with a profile.
unfoldable pub schedule_with :
    SchedulingPolicy
    → ModelResourceProfile
    → String
    → List GpuDeviceSnapshot
    → (batch_size : ℕ) → SchedulingDecision
schedule_with policy profile model_name devices batch_size =
    if ltb profile.max_batch_size batch_size
    then record {
      status = deferred;
      model_name = model_name;
      device_id = none;
      reason = "batch_size_exceeds_model_profile";
      available_memory_mb = 0;
      required_memory_mb = profile.required_memory_mb;
    }
    else elim devices [
      | [] ↦ record {
        status = deferred;
        model_name = model_name;
        device_id = if policy.allow_cpu_fallback then some "cpu" else none;
        reason = if policy.allow_cpu_fallback then "cpu_fallback_selected" else "no_gpu_available";
        available_memory_mb = 0;
        required_memory_mb = profile.required_memory_mb;
      }
      | d ∷ rest ↦ place policy profile model_name (d ∷ rest)
    ]

unfoldable pub schedule :
    GpuScheduler → String → List GpuDeviceSnapshot → (batch_size : ℕ) → SchedulingDecision
schedule s model_name devices batch_size = elim (Dict.get s.model_profiles model_name) [
  | none ↦ record {
    status = rejected;
    model_name = model_name;
    device_id = none;
    reason = "unknown_model_resource_profile";
    available_memory_mb = 0;
    required_memory_mb = 0;
  }
  | some profile ↦ schedule_with s.policy profile model_name devices batch_size
]

-- `SchedulingDecision.scheduled`
abbrev pub is_scheduled : SchedulingDecision → Bool
is_scheduled d = elim d.status [ scheduled ↦ true | _ ↦ false ]
