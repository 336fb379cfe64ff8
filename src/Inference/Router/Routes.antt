-- ===== src/Inference/Router/Routes.antt =====
-- The whole of `route`, for a router that its constructor returned.
use ai_inference_project.Common.{
  ◌≤◌, ◌≡◌, ◌≢◌, truthy, ◌⊎◌, inl, inr, refl, sym, ap, subst, ◌∙◌, String, true, false, Option,
  none, some, Option-cases, List, [], ◌∷◌, All, List-cases, length, arith, if◌then◌else◌,
  string_key, ok,
}
use ai_inference_project.Common.Dict
use ai_inference_project.Common.Dict.{Dict}
use ai_inference_project.Common.Sort.{length-sorted, sorted-All, sorted-IsAscending, IsAscending}
use ai_inference_project.Inference.Latency.{LatencyTracker}
use ai_inference_project.Inference.Router.{
  ModelProfile, ModelRouter, InferenceRequest, RoutingDecision, estimated_tokens, by_name,
  new_router, smaller, by_size, decision, requested_profile, route, route_by_policy,
  explicit_model_requested,
}
use ai_inference_project.Inference.Router.Laws.{by_context, IsBest, by_policy}

-- What the constructor ensures: there is a profile, and each stands under its own name, once.
pub record IsValid (r : ModelRouter) : Type 0 where
  pub not_empty :
      (e : String × ModelProfile) × (rest : Dict String ModelProfile) × (r.profiles ≡ e ∷ rest)
  pub named : Dict.IsKeyed (λ p. p.name) r.profiles

by_name-IsKeyed :
    (ps : List ModelProfile) (d : Dict String ModelProfile)
    → Dict.IsKeyed (λ p. p.name) d
    → Dict.IsKeyed (λ p. p.name) (by_name ps d)
unfolding by_name
by_name-IsKeyed [] d h = h
by_name-IsKeyed (p ∷ ps) d h =
    elim p.enabled
      as (λ b. Dict.IsKeyed (λ p. p.name) (by_name ps (if b then Dict.put d p.name p else d))) [
        | true ↦
            by_name-IsKeyed ps (Dict.put d p.name p)
              (Dict.put-IsKeyed (λ q. q.name) d p.name p refl h)
        | false ↦ by_name-IsKeyed ps d h
      ]

pub new_router-IsValid :
    (ps : List ModelProfile) (default_model : String) (tracker : Option LatencyTracker)
    (r : ModelRouter)
    → new_router ps default_model tracker ≡ ok r
    → IsValid r
unfolding new_router
new_router-IsValid ps default_model tracker r h = elim (List-cases (by_name ps [])) [
  | inl e ↦ absurd (ground (arith, rw (e, new_router) at h))
  | inr (x, rest, e) ↦
      let made : r.profiles ≡ x ∷ rest = ground (arith, rw (e, new_router) at h) in
      record {
        not_empty = (x, rest, made);
        named = subst (Dict.IsKeyed (λ p. p.name)) (e ∙ sym made) (by_name-IsKeyed ps [] tt);
      }
]

-- What a decision says of the profile that it is for: the profile is configured, the name, the
-- batching support and the token estimate are its and the request's, and it is the profile asked
-- for, or else one that can take the request, or the largest of all where none can.
pub record IsAnswer (r : ModelRouter) (request : InferenceRequest) (d : RoutingDecision)
    (p : ModelProfile) : Type 0 where
  pub configured : Dict.get r.profiles p.name ≡ some p
  pub named : d.model_name ≡ p.name
  pub batching : d.batchable ≡ p.supports_batching
  pub estimate : d.estimated_tokens ≡ estimated_tokens request
  pub choice :
      (requested_profile r request ≡ some p)
      ⊎ ((requested_profile r request ≡ none) × IsBest (by_size r) (estimated_tokens request) p)

requested_configured :
    (r : ModelRouter) (request : InferenceRequest) (p : ModelProfile)
    → IsValid r
    → requested_profile r request ≡ some p
    → Dict.get r.profiles p.name ≡ some p
unfolding requested_profile
requested_configured r request p v e = elim (Option-cases (truthy request.requested_model)) [
  | inl off ↦ absurd (ground (arith, rw (off, requested_profile) at e))
  | inr (name, on) ↦
      let found = rw (on, requested_profile) at e in
      let key = Dict.key_of_get (λ q. q.name) r.profiles name p v.named found in
      ap (Dict.get r.profiles) key ∙ found
]

by_size_not_empty : (r : ModelRouter) → IsValid r → by_size r ≢ []
unfolding by_size Dict.values
by_size_not_empty r v e =
    let (x, rest, made) = v.not_empty in
    absurd (
      omega (
        arith,
        ap length e,
        length-sorted smaller (Dict.values r.profiles),
        ap (λ d. length (Dict.values d)) made,
      ))

-- A router that was constructed answers every request, with a configured model: the one that the
-- request names if it is configured, and else one whose context takes the estimated tokens whenever
-- some model's does, or the one with the largest context.
pub route_lem :
    (ps : List ModelProfile) (default_model : String) (tracker : Option LatencyTracker)
    (r : ModelRouter) (request : InferenceRequest)
    → new_router ps default_model tracker ≡ ok r
    → (d : RoutingDecision) × (p : ModelProfile) × (route r request ≡ ok d) × IsAnswer r request d p
unfolding route
route_lem ps default_model tracker r request made =
    let v = new_router-IsValid ps default_model tracker r made in
    elim (Option-cases (requested_profile r request)) [
      | inr (p, e) ↦ (
        decision p explicit_model_requested (estimated_tokens request)
            "Caller requested a configured model explicitly.",
        p,
        rw (e, route) refl,
        record {
          configured = requested_configured r request p v e;
          named = unfold decision in refl;
          batching = unfold decision in refl;
          estimate = unfold decision in refl;
          choice = inl e;
        },
      )
      | inl none' ↦ elim (List-cases (by_size r)) [
        | inl empty ↦ absurd (by_size_not_empty r v empty)
        | inr (smallest, rest, sizes) ↦
            let tokens = estimated_tokens request in
            let all = subst (All (λ p. Dict.get r.profiles p.name ≡ some p)) sizes (
              unfold by_size in
              sorted-All smaller _ (Dict.values r.profiles)
                (Dict.get_of_values (λ p. p.name) r.profiles v.named)) in
            let order =
              subst (IsAscending (λ p q. p.max_context_tokens ≤ q.max_context_tokens)) sizes
                (unfold by_size in sorted-IsAscending by_context (Dict.values r.profiles)) in
            let (p, configured, named, batching, estimate, best) =
              by_policy r request tokens (λ p. Dict.get r.profiles p.name ≡ some p) smallest rest
                sizes all order in
            (
              route_by_policy r request tokens smallest rest,
              p,
              rw (none', sizes, route) refl,
              record {
                configured = configured;
                named = named;
                batching = batching;
                estimate = estimate;
                choice = inr (none', subst (λ ps. IsBest ps tokens p) (sym sizes) best);
              },
            )
      ]
    ]
