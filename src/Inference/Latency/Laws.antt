-- ===== src/Inference/Latency/Laws.antt =====
-- The windows of the latency tracker and their percentiles.

use ai_inference_project.Common.{
  ℕ, zero, suc, ◌-◌, ◌*◌, ◌/◌, ◌≤◌, ◌<◌, ◌≡◌, ◌↔◌, refl, String, true, false, some, List, [], ◌∷◌,
  ◌++◌, length, length-drop, get_elem?, get_or, min, ltb, leb, filter, Bool-cases, inl, inr, arith,
  string_key, ◌==◌, All, subst,
}
use ai_inference_project.Common.Dict
use ai_inference_project.Common.Dict.{get-put}
use ai_inference_project.Common.Sort.{
  sorted, length-sorted, length-filter-sorted, IsAscending, Ranks, sorted-IsAscending,
}
use ai_inference_project.Inference.Latency.{
  LatencyTracker, push, record_duration, percentile, is_degraded,
}

-- The window of `model`, empty where nothing was recorded.
abbrev pub window_of : LatencyTracker → String → List ℕ
window_of t model = get_or (Dict.get t.windows model) []

length-push : (size : ℕ) (window : List ℕ) (x : ℕ) → length (push size window x) ≤ size
unfolding push
length-push size window x =
    omega (arith, length-drop (length (window ++ x ∷ []) - size) (window ++ x ∷ []))

-- Recording keeps every window within the window size, and touches the window of its model alone.
pub record_duration_lem :
    (t : LatencyTracker) (model other : String) (d : ℕ)
    → length (window_of t other) ≤ t.policy.window_size
    → (length (window_of (record_duration model d t) other) ≤ t.policy.window_size)
      × ((model == other) ≡ false → window_of (record_duration model d t) other ≡ window_of t other)
unfolding record_duration
record_duration_lem t model other d h = (
  rw get-put (elim (Bool-cases (model == other)) [
    | inl e ↦ rw e (length-push t.policy.window_size (window_of t model) d)
    | inr e ↦ rw e h
  ]),
  λ e. rw get-put (rw e refl),
)

rank_in_ascending :
    (xs : List ℕ) (i p : ℕ)
    → IsAscending ◌≤◌ xs
    → get_elem? xs i ≡ some p
    → (i < length (filter (λ x. leb x p) xs)) × ((n : ℕ) → All (◌≤◌ n) xs → n ≤ p)
unfolding filter
rank_in_ascending [] i p h e = cc
rank_in_ascending (x ∷ xs) zero p h e = (ground arith, λ n a. ground arith)
rank_in_ascending (x ∷ xs) (suc i) p h e =
    let (below, least) = rank_in_ascending xs i p h.1 e in
    let first = least x h.0 in (ground arith, λ n a. least n a.1)

none_below : (xs : List ℕ) (x : ℕ) → All (◌≤◌ x) xs → length (filter (λ y. ltb y x) xs) ≡ 0
unfolding filter
none_below [] x a = refl
none_below (y ∷ xs) x a = let rest = none_below xs x a.1 in let first = a.0 in ground (arith, rest)

few_below :
    (xs : List ℕ) (i p : ℕ)
    → IsAscending ◌≤◌ xs
    → get_elem? xs i ≡ some p
    → length (filter (λ x. ltb x p) xs) ≤ i
unfolding filter
few_below [] i p h e = cc
few_below (x ∷ xs) zero p h e =
    let first : x ≡ p = ground (arith, e) in
    let rest = none_below xs p (subst (λ x. All (◌≤◌ x) xs) first h.0) in ground (arith, rest)
few_below (x ∷ xs) (suc i) p h e = let rest = few_below xs i p h.1 e in ground (arith, rest)

test_order : Ranks ltb ◌≤◌
test_order = record {
  if_before = λ x y h. ground arith;
  unless_before = λ x y h. ground arith;
  transitive = λ x y z h k. omega arith;
}

get_elem?_in_range : (xs : List ℕ) (i : ℕ) → i < length xs → (p : ℕ) × (get_elem? xs i ≡ some p)
get_elem?_in_range [] i h = elim h [ ]
get_elem?_in_range (x ∷ xs) zero h = (x, refl)
get_elem?_in_range (x ∷ xs) (suc i) h = get_elem?_in_range xs i (omega arith)

share_below : (n pct : ℕ) → 0 < n → pct < 100 → n * pct / 100 < n
share_below n pct h k = let bound : n * pct ≤ n * 99 = grind arith in omega (arith, bound)

-- Of a window that is not empty, more than `pct` percent of the durations, rounded down, are at most
-- the percentile, and no more than those are below it.
pub percentile_rank :
    (window : List ℕ) (pct : ℕ)
    → 0 < length window
    → pct < 100
    → (length window * pct / 100 < length (filter (λ x. leb x (percentile window pct)) window))
      × (length (filter (λ x. ltb x (percentile window pct)) window) ≤ length window * pct / 100)
unfolding percentile
percentile_rank window pct nonempty h =
    let below = share_below (length window) pct nonempty h in
    let index = min (length window * pct / 100) (length window - 1) in
    let (p, e) =
      get_elem?_in_range (sorted ltb window) index
        (omega (arith, below, length-sorted ltb window)) in
    let rank =
      rank_in_ascending (sorted ltb window) index p (sorted-IsAscending test_order window) e in
    let few = few_below (sorted ltb window) index p (sorted-IsAscending test_order window) e in
    (
      rw e (omega (arith, below, rank.0, length-filter-sorted ltb (λ x. leb x p) window)),
      rw e (omega (arith, below, few, length-filter-sorted ltb (λ x. ltb x p) window)),
    )

-- A model is never called degraded before the minimal number of samples, and then exactly when its
-- 95th percentile is above the threshold.
pub is_degraded_lem :
    (t : LatencyTracker) (model : String)
    → 0 < t.policy.min_samples
    → (is_degraded t model ≡ true) ↔ (
        (t.policy.min_samples ≤ length (window_of t model))
        × (t.policy.p95_threshold_ms < percentile (window_of t model) 95))
unfolding is_degraded
is_degraded_lem t model h = (λ e. ground arith, λ e. ground arith)
