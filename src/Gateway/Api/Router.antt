-- ===== src/Gateway/Api/Router.antt =====
-- gateway/api.py: `build_router`, from the settings of the models.
use ai_inference_project.Common.{
  ℕ, String, ◌≡◌, true, Bool-cases, inl, inr, Option, none, List, [], ◌∷◌, if◌then◌else◌, ◌==◌,
  string_key, beq_refl, truthy, get_or, arith, Result, ok,
}
use ai_inference_project.Common.Dict
use ai_inference_project.Inference.Router.{
  ModelProfile, ModelRouter, InferenceRequest, RoutingDecision, new_router, by_name, route,
}
use ai_inference_project.Inference.Latency.{LatencyTracker}
use ai_inference_project.Inference.Router.Routes.{IsAnswer, route_lem}

-- `GatewaySettings`, as far as the router depends on it.
pub record GatewaySettings : Type 0 where
  pub default_model : String
  pub small_model : Option String
  pub large_model : Option String
  pub small_context_tokens : ℕ
  pub large_context_tokens : ℕ

abbrev pub small_profile : String → ℕ → ModelProfile
small_profile name max_context_tokens = record {
  name = name;
  max_context_tokens = max_context_tokens;
  priority = 10;
  supports_batching = true;
  enabled = true;
  description = "Lower latency model for simple requests";
}

abbrev pub large_profile : String → ℕ → ModelProfile
large_profile name max_context_tokens = record {
  name = name;
  max_context_tokens = max_context_tokens;
  priority = 20;
  supports_batching = true;
  enabled = true;
  description = "Higher capacity model for complex or long context requests";
}

-- The profiles of a small model and, where it is another one, of a large model.
unfoldable pub two_profiles :
    (small large : String) (small_context_tokens large_context_tokens : ℕ) → List ModelProfile
two_profiles small large small_context_tokens large_context_tokens =
    if large == small
    then small_profile small small_context_tokens ∷ []
    else small_profile small small_context_tokens ∷ large_profile large large_context_tokens ∷ []

unfoldable pub build_router : GatewaySettings → Result ModelRouter
build_router st =
    let small = get_or (truthy st.small_model) st.default_model in
    let large = get_or (truthy st.large_model) st.default_model in
    new_router (two_profiles small large st.small_context_tokens st.large_context_tokens) small none

-- The router over those profiles.
abbrev pub two_router :
    (small large : String) (small_context_tokens large_context_tokens : ℕ)
    → Option LatencyTracker
    → ModelRouter
two_router small large small_context_tokens large_context_tokens tracker = record {
  profiles = by_name (two_profiles small large small_context_tokens large_context_tokens) [];
  default_model = small;
  latency_tracker = tracker;
}

pub two_profiles-ok :
    (small large : String) (n m : ℕ) (tracker : Option LatencyTracker)
    → new_router (two_profiles small large n m) small tracker
      ≡ ok (two_router small large n m tracker)
unfolding two_profiles new_router by_name Dict.put Dict.get
two_profiles-ok small large n m tracker = elim (Bool-cases (large == small)) [
  | inl same ↦ ground (arith, same, beq_refl small)
  | inr other ↦
      ground (
        arith,
        other,
        beq_refl small,
        string_key.beq_iff small large,
        string_key.beq_iff large small,
      )
]

-- The settings of the gateway always give a router, and that router answers every request: with the
-- model that the request names if it is configured, or else with one whose context takes the request
-- whenever one does.
pub build_router-routes :
    (st : GatewaySettings) (request : InferenceRequest)
    → (r : ModelRouter) × (d : RoutingDecision) × (p : ModelProfile) × (build_router st ≡ ok r)
      × (route r request ≡ ok d)
      × IsAnswer r request d p
unfolding build_router
build_router-routes st request =
    let small = get_or (truthy st.small_model) st.default_model in
    let large = get_or (truthy st.large_model) st.default_model in
    let profiles = two_profiles small large st.small_context_tokens st.large_context_tokens in
    let r = two_router small large st.small_context_tokens st.large_context_tokens none in
    let made = two_profiles-ok small large st.small_context_tokens st.large_context_tokens none in
    let (d, p, routes, answer) = route_lem profiles small none r request made in
    (r, d, p, made, routes, answer)
