-- ===== src/Inference/Router/Laws.antt =====
-- The choice that `route` makes past an explicit request.
use ai_inference_project.Common.{
  ℕ, ◌≤◌, ◌<◌, ◌≡◌, ◌⊎◌, inl, inr, refl, subst, String, false, not, ◌&&◌, Bool-cases, none, some,
  Option-cases, List, [], ◌∷◌, All, arith, leb, ltb, string_key, ◌==◌, nat_key, get_or,
}
use ai_inference_project.Common.Sort.{Ranks, IsAscending}
use ai_inference_project.Inference.Latency.{LatencyTracker, is_degraded}
use ai_inference_project.Inference.Router.{
  ModelProfile, ModelRouter, InferenceRequest, RoutingDecision, RoutingReason, smaller, by_size,
  last_of, first_fit, decision, find_alternative, check_latency_avoidance, route_by_policy,
  contains, complex_event_types,
}
use ai_inference_project.Common.Int.{leb_ℤ, pos}

pub by_context : Ranks smaller (λ p q. p.max_context_tokens ≤ q.max_context_tokens)
unfolding smaller
by_context = record {
  if_before = λ p q h. ground arith;
  unless_before = λ p q h. ground arith;
  transitive = λ p q r h k. omega arith;
}

-- A property of the first of a list and of its rest holds of the last.
last_of-All {κ} :
    (P : ModelProfile → Type κ) (p : ModelProfile) (rest : List ModelProfile)
    → P p
    → All P rest
    → P (last_of p rest)
unfolding last_of
last_of-All P p [] h k = h
last_of-All P p (q ∷ rest) h k = last_of-All P q rest k.0 k.1

last_of-largest :
    (p : ModelProfile) (rest : List ModelProfile)
    → IsAscending (λ p q. p.max_context_tokens ≤ q.max_context_tokens) (p ∷ rest)
    → All (λ q. q.max_context_tokens ≤ (last_of p rest).max_context_tokens) (p ∷ rest)
unfolding last_of
last_of-largest p [] h = (omega arith, tt)
last_of-largest p (q ∷ rest) h =
    let below = last_of-largest q rest h.1 in (omega (arith, below.0, h.0.0), below)

-- What the loop of `_smallest_model_that_fits` finds.
first_fit_lem :
    (tokens : ℕ) (ps : List ModelProfile)
    → ((p : ModelProfile) × (first_fit tokens ps ≡ some p) × (tokens ≤ p.max_context_tokens))
      ⊎ ((first_fit tokens ps ≡ none) × All (λ p. p.max_context_tokens < tokens) ps)
unfolding first_fit
first_fit_lem tokens [] = inr (refl, tt)
first_fit_lem tokens (p ∷ ps) = elim (Bool-cases (leb tokens p.max_context_tokens)) [
  | inl fits ↦ inl (p, rw fits refl, ground arith)
  | inr over ↦ elim (first_fit_lem tokens ps) [
    | inl (q, e, k) ↦ inl (q, rw over e, k)
    | inr (e, k) ↦ inr (rw over e, (ground arith, k))
  ]
]

first_fit-All {κ} :
    (P : ModelProfile → Type κ) (tokens : ℕ) (ps : List ModelProfile) (p : ModelProfile)
    → All P ps
    → first_fit tokens ps ≡ some p
    → P p
unfolding first_fit
first_fit-All P tokens [] p h e = absurd (ground arith)
first_fit-All P tokens (q ∷ ps) p h e = elim (Bool-cases (leb tokens q.max_context_tokens)) [
  | inl fits ↦ subst P (ground arith) h.0
  | inr over ↦ first_fit-All P tokens ps p h.1 (rw over at e)
]

find_alternative-All {κ} :
    (P : ModelProfile → Type κ) (t : LatencyTracker) (preferred : ModelProfile) (tokens : ℕ)
    (ps : List ModelProfile) (p : ModelProfile)
    → All P ps
    → find_alternative t preferred tokens ps ≡ some p
    → P p × (tokens ≤ p.max_context_tokens) × (is_degraded t p.name ≡ false)
unfolding find_alternative
find_alternative-All P t preferred tokens [] p h e = absurd (ground arith)
find_alternative-All P t preferred tokens (q ∷ ps) p h e =
    elim (Bool-cases (
      not (q.name == preferred.name)
      && (leb tokens q.max_context_tokens && not (is_degraded t q.name)))) [
        | inl take' ↦
            let same : q ≡ p = ground arith in (subst P same h.0, ground arith, ground arith)
        | inr skip ↦ find_alternative-All P t preferred tokens ps p h.1 (rw skip at e)
      ]

abbrev Fits : ℕ → ModelProfile → Type 0
Fits tokens p = tokens ≤ p.max_context_tokens

-- `p` can take a request of `tokens`, or no profile can and none is larger.
abbrev pub IsBest : List ModelProfile → ℕ → ModelProfile → Type 0
IsBest ps tokens p =
    (tokens ≤ p.max_context_tokens)
    ⊎ (All (λ q. q.max_context_tokens < tokens) ps
        × All (λ q. q.max_context_tokens ≤ p.max_context_tokens) ps)

-- The decision is for a profile of the list, with the estimate of the request, and it is best.
abbrev pub Decides : List ModelProfile → ℕ → (ModelProfile → Type 0) → RoutingDecision → Type 0
Decides ps tokens P d =
    (p : ModelProfile) × P p
    × (d.model_name ≡ p.name)
    × (d.batchable ≡ p.supports_batching)
    × (d.estimated_tokens ≡ tokens)
    × IsBest ps tokens p

module _ (r : ModelRouter) (request : InferenceRequest) (tokens : ℕ) (P : ModelProfile → Type 0)
    (smallest : ModelProfile) (rest : List ModelProfile) (sizes : by_size r ≡ smallest ∷ rest)
    (all : All P (smallest ∷ rest))
    (order : IsAscending
      (λ p q. p.max_context_tokens ≤ q.max_context_tokens)
      (smallest ∷ rest)) where
  large_request :
      (reason : RoutingReason) (notes : String)
      → Decides (smallest ∷ rest) tokens P (
          decision
            (get_or (first_fit tokens (smallest ∷ rest)) (last_of smallest rest))
            reason
            tokens
            notes)
  unfolding decision
  large_request reason notes = elim (first_fit_lem tokens (smallest ∷ rest)) [
    | inl (p, e, fits) ↦
        rw e (p, first_fit-All P tokens (smallest ∷ rest) p all e, refl, refl, refl, inl fits)
    | inr (e, none') ↦ rw e (
      last_of smallest rest,
      last_of-All P smallest rest all.0 all.1,
      refl,
      refl,
      refl,
      inr (none', last_of-largest smallest rest order),
    )
  ]

  chosen :
      (p : ModelProfile) (reason : RoutingReason) (notes : String)
      → P p
      → Fits tokens p
      → Decides (smallest ∷ rest) tokens P (decision p reason tokens notes)
  unfolding decision
  chosen p reason notes h fits = (p, h, refl, refl, refl, inl fits)

  largest_chosen :
      (reason : RoutingReason) (notes : String)
      → Fits tokens smallest
      → Decides (smallest ∷ rest) tokens P (decision (last_of smallest rest) reason tokens notes)
  largest_chosen reason notes fits =
      let below = last_of-largest smallest rest order in
      chosen (last_of smallest rest) reason notes (last_of-All P smallest rest all.0 all.1)
        (omega (arith, below.0))

  alternative :
      (p : ModelProfile) → check_latency_avoidance r smallest tokens ≡ some p → P p × Fits tokens p
  unfolding check_latency_avoidance
  alternative p e = elim (Option-cases r.latency_tracker) [
    | inl off ↦ absurd (ground (arith, rw (off, check_latency_avoidance) at e))
    | inr (t, on) ↦ elim (Bool-cases (is_degraded t smallest.name)) [
      | inl slow ↦
          let found =
            find_alternative-All P t smallest tokens (smallest ∷ rest) p all
              (rw (on, check_latency_avoidance, slow, sizes) at e) in
          (found.0, found.1)
      | inr fast ↦ absurd (ground (arith, rw (on, check_latency_avoidance, fast) at e))
    ]
  ]

  pub by_policy :
      Decides (smallest ∷ rest) tokens P (route_by_policy r request tokens smallest rest)
  unfolding route_by_policy
  by_policy = elim (Bool-cases (ltb smallest.max_context_tokens tokens)) [
    | inl over ↦ rw over (large_request _ _)
    | inr within ↦
        let fits : Fits tokens smallest = ground arith in
        elim (Bool-cases (contains complex_event_types request.event_type)) [
          | inl complex ↦ rw (within, complex) (largest_chosen _ _ fits)
          | inr plain ↦ elim (Bool-cases (leb_ℤ request.priority (pos 2))) [
            | inl urgent ↦ rw (within, plain, urgent) (largest_chosen _ _ fits)
            | inr normal ↦ elim (Option-cases (check_latency_avoidance r smallest tokens)) [
              | inl e ↦ rw (within, plain, normal, e) (chosen smallest _ _ all.0 fits)
              | inr (p, e) ↦
                  let (h, k) = alternative p e in rw (within, plain, normal, e) (chosen p _ _ h k)
            ]
          ]
        ]
  ]
