-- ===== src/Core/PriorityQueue.antt =====
-- core/priority_queue.py: the three lanes of the in-process queue, and the strict drain order. What
-- other threads put in while a `get` waits is its argument `arriving`, in order.
pub mod Laws
use ai_inference_project.Common.{
  ℕ, zero, suc, ◌+◌, ◌-◌, String, Option, none, some, List, [], ◌∷◌, ◌++◌, leb, if◌then◌else◌,
  length,
}

pub data PriorityLane : Type 0 where
  high normal low : PriorityLane

unfoldable pub priority_to_lane : ℕ → PriorityLane
priority_to_lane priority = if leb priority 2 then high else if leb priority 7 then normal else low

-- `PriorityInferenceQueue._lanes`
pub record PriorityInferenceQueue : Type 0 where
  pub high_lane : List String
  pub normal_lane : List String
  pub low_lane : List String

-- `self._lanes[lane].put(payload)`
unfoldable pub put_lane :
    PriorityLane → (payload : String) → PriorityInferenceQueue → PriorityInferenceQueue
put_lane high payload q = record q { high_lane = q.high_lane ++ payload ∷ [] }
put_lane normal payload q = record q { normal_lane = q.normal_lane ++ payload ∷ [] }
put_lane low payload q = record q { low_lane = q.low_lane ++ payload ∷ [] }

unfoldable pub put :
    (payload : String) (priority : ℕ) → PriorityInferenceQueue → PriorityInferenceQueue
put payload priority q = put_lane (priority_to_lane priority) payload q

abbrev pub arrive : List (String × ℕ) → PriorityInferenceQueue → PriorityInferenceQueue
arrive [] q = q
arrive ((payload, priority) ∷ rest) q = arrive rest (put payload priority q)

-- The first loop of `get`: the first lane that is not empty, from high to low.
unfoldable pub get_nowait : PriorityInferenceQueue → Option String × PriorityInferenceQueue
get_nowait q = elim q.high_lane [
  | x ∷ xs ↦ (some x, record q { high_lane = xs })
  | [] ↦ elim q.normal_lane [
    | x ∷ xs ↦ (some x, record q { normal_lane = xs })
    | [] ↦ elim q.low_lane [ x ∷ xs ↦ (some x, record q { low_lane = xs }) | [] ↦ (none, q) ]
  ]
]

-- What follows when all lanes were empty: the wait on the normal lane, then the other two.
unfoldable pub get_after_wait : PriorityInferenceQueue → Option String × PriorityInferenceQueue
get_after_wait q = elim q.normal_lane [
  | x ∷ xs ↦ (some x, record q { normal_lane = xs })
  | [] ↦ elim q.high_lane [
    | x ∷ xs ↦ (some x, record q { high_lane = xs })
    | [] ↦ elim q.low_lane [ x ∷ xs ↦ (some x, record q { low_lane = xs }) | [] ↦ (none, q) ]
  ]
]

unfoldable pub get :
    List (String × ℕ) → PriorityInferenceQueue → Option String × PriorityInferenceQueue
get arriving q =
    let (item, after) = get_nowait q in
    elim item [ some x ↦ (some x, after) | none ↦ get_after_wait (arrive arriving q) ]

-- The loop of `get_batch`, with the number of items that are still wanted.
unfoldable pub fill : ℕ → PriorityInferenceQueue → List String × PriorityInferenceQueue
fill zero q = ([], q)
fill (suc n) q =
    let (item, after) = get [] q in
    let rest = fill n after in elim item [ none ↦ ([], after) | some x ↦ (x ∷ rest.0, rest.1) ]

unfoldable pub get_batch :
    (max_size : ℕ)
    → List (String × ℕ)
    → PriorityInferenceQueue
    → List String × PriorityInferenceQueue
get_batch max_size arriving q =
    let (first, after) = get arriving q in
    let rest = fill (max_size - 1) after in
    elim first [ none ↦ ([], after) | some x ↦ (x ∷ rest.0, rest.1) ]

unfoldable pub qsize : PriorityInferenceQueue → ℕ
qsize q = length q.high_lane + length q.normal_lane + length q.low_lane

unfoldable pub lane_sizes : PriorityInferenceQueue → List (String × ℕ)
lane_sizes q =
    ("high", length q.high_lane)
    ∷ ("normal", length q.normal_lane)
    ∷ ("low", length q.low_lane)
    ∷ []
