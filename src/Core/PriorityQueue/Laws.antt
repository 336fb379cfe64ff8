-- ===== src/Core/PriorityQueue/Laws.antt =====
-- The priority queue and the one list of its lanes, from high to low.
use mathlib.Core.List.{append_assoc}
use ai_inference_project.Common.{
  ℕ, zero, suc, ◌+◌, ◌-◌, length, length-append, max, String, ◌≡◌, refl, Option, none, some,
  Option-cases, inl, inr, List, [], ◌∷◌, ◌++◌, drop, take, arith,
}
use ai_inference_project.Core.PriorityQueue.{
  PriorityLane, high, normal, low, priority_to_lane, PriorityInferenceQueue, qsize, lane_sizes, put,
  put_lane, get_nowait, get_after_wait, get, fill, get_batch,
}

-- The payloads in the order in which they are drained.
abbrev pub contents : PriorityInferenceQueue → List String
contents q = q.high_lane ++ q.normal_lane ++ q.low_lane

abbrev pub before : Option String → List String → List String
before none xs = []
before (some x) xs = x ∷ xs

get_lanes :
    (xs ys zs : List String)
    → let (item, after) = get [] (record { high_lane = xs; normal_lane = ys; low_lane = zs }) in
      (xs ++ ys ++ zs ≡ before item (contents after)) × (contents after ≡ drop 1 (xs ++ ys ++ zs))
unfolding get get_nowait get_after_wait
get_lanes (x ∷ xs) ys zs = (refl, refl)
get_lanes [] (y ∷ ys) zs = (refl, refl)
get_lanes [] [] (z ∷ zs) = (refl, refl)
get_lanes [] [] [] = (refl, refl)

-- A get while nothing arrives takes the head of the contents and leaves the rest; it is none only
-- if there is nothing.
pub get_lem :
    (q : PriorityInferenceQueue)
    → let (item, after) = get [] q in
      (contents q ≡ before item (contents after)) × (contents after ≡ drop 1 (contents q))
get_lem q = get_lanes q.high_lane q.normal_lane q.low_lane

fill_lem :
    (n : ℕ) (q : PriorityInferenceQueue)
    → ((fill n q).0 ≡ take n (contents q)) × (contents (fill n q).1 ≡ drop n (contents q))
unfolding fill
fill_lem zero q = (refl, refl)
fill_lem (suc n) q =
    let (rest, left) = fill_lem n (get [] q).1 in
    let (head, tail) = get_lem q in
    elim (Option-cases (get [] q).0) [
      | inl e ↦ ground (arith, rest, left, head, tail, e)
      | inr (x, e) ↦ ground (arith, rest, left, head, tail, e)
    ]

max_one : (n : ℕ) → max n 1 ≡ suc (n - 1)
max_one n = omega arith

-- A batch while nothing arrives is the first `max_size` payloads of the contents, at least one if
-- there is one, and it leaves the others in the queue.
pub get_batch_lem :
    (max_size : ℕ) (q : PriorityInferenceQueue)
    → ((get_batch max_size [] q).0 ≡ take (max max_size 1) (contents q))
      × (contents (get_batch max_size [] q).1 ≡ drop (max max_size 1) (contents q))
unfolding get_batch
get_batch_lem max_size q =
    rw max_one
      let (rest, left) = fill_lem (max_size - 1) (get [] q).1 in
        let (head, tail) = get_lem q in
        elim (Option-cases (get [] q).0) [
          | inl e ↦ ground (arith, rest, left, head, tail, e)
          | inr (x, e) ↦ ground (arith, rest, left, head, tail, e)
        ]

-- The payloads behind which a new one of the lane stands, and those before which it does.
abbrev pub ahead : PriorityLane → PriorityInferenceQueue → List String
ahead high q = q.high_lane
ahead normal q = q.high_lane ++ q.normal_lane
ahead low q = q.high_lane ++ q.normal_lane ++ q.low_lane

abbrev pub behind : PriorityLane → PriorityInferenceQueue → List String
behind high q = q.normal_lane ++ q.low_lane
behind normal q = q.low_lane
behind low q = []

contents-put_lane :
    (lane : PriorityLane) (payload : String) (q : PriorityInferenceQueue)
    → contents (put_lane lane payload q) ≡ ahead lane q ++ payload ∷ behind lane q
unfolding put_lane
contents-put_lane high payload q = simp append_assoc
contents-put_lane normal payload q = simp append_assoc
contents-put_lane low payload q = simp append_assoc

-- A put places the payload behind the lanes that its priority does not precede, its own included,
-- and before the others.
pub contents-put :
    (payload : String) (priority : ℕ) (q : PriorityInferenceQueue)
    → let lane = priority_to_lane priority in
      (contents (put payload priority q) ≡ ahead lane q ++ payload ∷ behind lane q)
unfolding put
contents-put payload priority q = contents-put_lane (priority_to_lane priority) payload q

abbrev sum_sizes : List (String × ℕ) → ℕ
sum_sizes [] = 0
sum_sizes ((lane, size) ∷ sizes) = size + sum_sizes sizes

-- The size of the queue is the number of the payloads that gets can take, and the sum over its lanes.
pub qsize_lem :
    (q : PriorityInferenceQueue)
    → (qsize q ≡ length (contents q)) × (qsize q ≡ sum_sizes (lane_sizes q))
unfolding qsize lane_sizes
qsize_lem q =
    let outer = length-append (q.high_lane ++ q.normal_lane) q.low_lane in
    let inner = length-append q.high_lane q.normal_lane in
    (omega (arith, outer, inner), omega arith)
