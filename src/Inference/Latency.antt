-- ===== src/Inference/Latency.antt =====
-- inference/latency.py: the sliding window of durations of each model, and its percentiles.
-- Durations are whole numbers of one unit, that of `p95_threshold`.
pub mod Laws
use ai_inference_project.Common.{
  ℕ, ◌-◌, ◌*◌, ◌/◌, ◌+◌, String, Bool, true, false, Option, none, some, List, [], ◌∷◌, ◌++◌, length,
  drop, get_elem?, get_or, min, ltb, if◌then◌else◌, string_key,
}
use ai_inference_project.Common.Dict
use ai_inference_project.Common.Dict.{Dict}
use ai_inference_project.Common.Sort.{sorted}

pub record LatencyPolicy : Type 0 where
  pub window_size : ℕ
  pub p95_threshold_ms : ℕ
  pub min_samples : ℕ

pub record ModelLatencyStats : Type 0 where
  pub model : String
  pub sample_count : ℕ
  pub p50_ms : ℕ
  pub p95_ms : ℕ
  pub degraded : Bool

pub record LatencyTracker : Type 0 where
  pub policy : LatencyPolicy
  pub windows : Dict String (List ℕ)

unfoldable pub new_tracker : LatencyPolicy → LatencyTracker
new_tracker policy = record { policy = policy; windows = [] }

-- `append` on a `deque(maxlen=size)`: the oldest entries go once the window is full.
unfoldable pub push : (size : ℕ) → List ℕ → ℕ → List ℕ
push size window x = let longer = window ++ x ∷ [] in drop (length longer - size) longer

unfoldable pub record_duration : String → ℕ → LatencyTracker → LatencyTracker
unfolding push
record_duration model duration_ms t = record t {
  windows =
      Dict.put t.windows model
        (push t.policy.window_size (get_or (Dict.get t.windows model) []) duration_ms);
}

-- `_percentile`; the entry at an index past the end of an empty window is never asked for.
unfoldable pub percentile : List ℕ → ℕ → ℕ
percentile window pct =
    get_or (get_elem? (sorted ltb window) (min (length window * pct / 100) (length window - 1))) 0

-- The body of `is_degraded` on the window of the model.
unfoldable pub degraded_window : LatencyPolicy → List ℕ → Bool
unfolding percentile
degraded_window p [] = false
degraded_window p (x ∷ rest) =
    if ltb (length (x ∷ rest)) p.min_samples
    then false
    else ltb p.p95_threshold_ms (percentile (x ∷ rest) 95)

unfoldable pub is_degraded : LatencyTracker → String → Bool
unfolding degraded_window
is_degraded t model = elim (Dict.get t.windows model) [
  | none ↦ false
  | some window ↦ degraded_window t.policy window
]

unfoldable pub get_stats : LatencyTracker → String → Option ModelLatencyStats
unfolding is_degraded
get_stats t model = elim (Dict.get t.windows model) [
  | none ↦ none
  | some [] ↦ none
  | some (x ∷ rest) ↦ some (record {
    model = model;
    sample_count = length (x ∷ rest);
    p50_ms = percentile (x ∷ rest) 50;
    p95_ms = percentile (x ∷ rest) 95;
    degraded = is_degraded t model;
  })
]
