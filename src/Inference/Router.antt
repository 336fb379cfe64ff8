-- ===== src/Inference/Router.antt =====
-- inference/router.py: the choice of a model for a request.
pub mod Laws
pub mod Routes
use Prim.Native.String.{◌++◌, count}
use ai_inference_project.Common.{
  ℕ, ◌/◌, max, String, Bool, true, false, not, ◌&&◌, ◌||◌, Option, none, some, List, [], ◌∷◌, leb,
  ltb, if◌then◌else◌, get_or, ◌==◌, string_key, nat_key, filter, truthy, Result, ok, raised,
  value_error, index_error,
}
use ai_inference_project.Common.Int.{ℤ, pos, leb_ℤ}
use ai_inference_project.Common.Dict
use ai_inference_project.Common.Dict.{Dict}
use ai_inference_project.Common.Sort.{sorted}
use ai_inference_project.Inference.Latency.{LatencyTracker, is_degraded}

pub data RoutingReason : Type 0 where
  explicit_model_requested context_too_large_for_small_model complex_task_type : RoutingReason
  high_priority_request default_small_model fallback_default_model : RoutingReason
  latency_avoidance : RoutingReason

pub record ModelProfile : Type 0 where
  pub name : String
  pub max_context_tokens : ℕ
  pub priority : ℕ
  pub supports_batching : Bool
  pub enabled : Bool
  pub description : String

pub record InferenceRequest : Type 0 where
  pub prompt : String
  pub context : String
  pub event_type : String
  pub priority : ℤ
  pub requested_model : Option String

-- The property `estimated_tokens`.
unfoldable pub estimated_tokens : InferenceRequest → ℕ
estimated_tokens request = max 1 (count (request.prompt ++ "\n" ++ request.context) / 4)

pub record RoutingDecision : Type 0 where
  pub model_name : String
  pub reason : RoutingReason
  pub estimated_tokens : ℕ
  pub batchable : Bool
  pub notes : String

pub record ModelRouter : Type 0 where
  pub profiles : Dict String ModelProfile
  pub default_model : String
  pub latency_tracker : Option LatencyTracker

-- `COMPLEX_EVENT_TYPES`
abbrev pub complex_event_types : List String
complex_event_types =
    "long_context_rag" ∷ "multi_document_rag" ∷ "code_generation" ∷ "analysis" ∷ "mission_summary"
    ∷ "legal_review" ∷ "medical_review" ∷ []

-- `x in xs`
unfoldable pub contains : List String → String → Bool
contains [] x = false
contains (y ∷ ys) x = y == x || contains ys x

-- `{profile.name: profile for profile in profiles if profile.enabled}`, onto `d`.
unfoldable pub by_name : List ModelProfile → Dict String ModelProfile → Dict String ModelProfile
by_name [] d = d
by_name (p ∷ ps) d = by_name ps (if p.enabled then Dict.put d p.name p else d)

-- `__init__`
unfoldable pub new_router :
    List ModelProfile → (default_model : String) → Option LatencyTracker → Result ModelRouter
unfolding by_name
new_router profiles default_model tracker = elim (by_name profiles []) [
  | [] ↦ raised value_error
  | first ∷ rest ↦ elim (Dict.get (first ∷ rest) default_model) [
    | none ↦ raised value_error
    | some _ ↦ ok (record {
      profiles = first ∷ rest;
      default_model = default_model;
      latency_tracker = tracker;
    })
  ]
]

-- `(p.max_context_tokens, p.priority) < (q.max_context_tokens, q.priority)`
unfoldable pub smaller : ModelProfile → ModelProfile → Bool
smaller p q =
    ltb p.max_context_tokens q.max_context_tokens
    || (p.max_context_tokens == q.max_context_tokens && ltb p.priority q.priority)

-- The profiles, smallest first.
unfoldable pub by_size : ModelRouter → List ModelProfile
by_size r = sorted smaller (Dict.values r.profiles)

-- `sorted_profiles[-1]`
unfoldable pub last_of : ModelProfile → List ModelProfile → ModelProfile
last_of p [] = p
last_of p (q ∷ rest) = last_of q rest

-- The loop of `_smallest_model_that_fits` over the sorted profiles.
unfoldable pub first_fit : ℕ → List ModelProfile → Option ModelProfile
first_fit tokens [] = none
first_fit tokens (p ∷ rest) =
    if leb tokens p.max_context_tokens then some p else first_fit tokens rest

unfoldable pub decision : ModelProfile → RoutingReason → ℕ → String → RoutingDecision
decision p reason tokens notes = record {
  model_name = p.name;
  reason = reason;
  estimated_tokens = tokens;
  batchable = p.supports_batching;
  notes = notes;
}

-- The loop of `_check_latency_avoidance` over the sorted profiles.
unfoldable pub find_alternative :
    LatencyTracker → ModelProfile → ℕ → List ModelProfile → Option ModelProfile
find_alternative tracker preferred tokens [] = none
find_alternative tracker preferred tokens (alt ∷ rest) =
    if not (alt.name == preferred.name)
      && (leb tokens alt.max_context_tokens && not (is_degraded tracker alt.name))
    then some alt
    else find_alternative tracker preferred tokens rest

unfoldable pub check_latency_avoidance : ModelRouter → ModelProfile → ℕ → Option ModelProfile
check_latency_avoidance r preferred tokens = elim r.latency_tracker [
  | none ↦ none
  | some tracker ↦
      if is_degraded tracker preferred.name
      then find_alternative tracker preferred tokens (by_size r)
      else none
]

-- `route` past the explicit request: `smallest` and `rest` are the sorted profiles.
unfoldable pub route_by_policy :
    ModelRouter → InferenceRequest → ℕ → ModelProfile → List ModelProfile → RoutingDecision
route_by_policy r request tokens smallest rest =
    let largest = last_of smallest rest in
    if ltb smallest.max_context_tokens tokens
    then decision (get_or (first_fit tokens (smallest ∷ rest)) largest)
        context_too_large_for_small_model tokens
        "Request exceeded the smallest model context budget."
    else if contains complex_event_types request.event_type
    then decision largest complex_task_type tokens
        ("Event type '" ++ request.event_type ++ "' is configured as complex.")
    else if leb_ℤ request.priority (pos 2)
    then decision largest high_priority_request tokens
        "High priority request routed to highest capacity model."
    else elim (check_latency_avoidance r smallest tokens) [
      | some alt ↦
          decision alt latency_avoidance tokens
            ("Avoided '" ++ smallest.name ++ "' due to elevated P95 latency.")
      | none ↦
          decision smallest default_small_model tokens
            "Defaulted to the smallest enabled model that can serve the request."
    ]

-- The profile that the caller asked for by name, if it is configured.
unfoldable pub requested_profile : ModelRouter → InferenceRequest → Option ModelProfile
requested_profile r request = elim (truthy request.requested_model) [
  | none ↦ none
  | some name ↦ Dict.get r.profiles name
]

unfoldable pub route : ModelRouter → InferenceRequest → Result RoutingDecision
route r request = elim (requested_profile r request) [
  | some p ↦ ok (
      decision p explicit_model_requested (estimated_tokens request)
        "Caller requested a configured model explicitly.")
  | none ↦ elim (by_size r) [
    | [] ↦ raised index_error
    | smallest ∷ rest ↦ ok (route_by_policy r request (estimated_tokens request) smallest rest)
  ]
]
