-- ===== src/Inference/Batching.antt =====
-- inference/batching.py: requests grouped into batches. The source gives each batch a random id
-- and the instant of its creation; they are labels that nothing here reads, and the worker takes
-- the ids from outside, in the order in which the batches are made.
pub mod Split
pub mod Laws
use ai_inference_project.Common.{
  ℕ, ◌+◌, String, Bool, true, false, not, ◌&&◌, ◌||◌, Option, none, some, List, [], ◌∷◌, ◌++◌, leb,
  ltb, length, if◌then◌else◌, ◌==◌, string_key, pair_key, ltb_string, Result, ok, raised,
  value_error, ◌>>=◌,
}
use ai_inference_project.Common.Int.{ℤ, ltb_ℤ, leb_ℤ, beq_ℤ}
use ai_inference_project.Common.Dict.{Dict}
use ai_inference_project.Common.Sort.{sorted}

-- What the worker reads of `raw_payload`: for each key whether it is there, and its value, which
-- may be `None` for the timestamp.
pub record RawPayload : Type 0 where
  pub timestamp : Option (Option String)
  pub metadata : Option (Dict String String)

pub record BatchCandidate : Type 0 where
  pub request_id : String
  pub prompt : String
  pub context : String
  pub model_name : String
  pub event_type : String
  pub priority : ℤ
  pub estimated_tokens : ℕ
  pub batchable : Bool
  pub raw_payload : RawPayload

abbrev pub compatibility_key : BatchCandidate → String × String
compatibility_key c = (c.model_name, c.event_type)

pub record InferenceBatch : Type 0 where
  pub model_name : String
  pub event_type : String
  pub candidates : List BatchCandidate
  pub reason : String

-- `total_estimated_tokens`
unfoldable pub total_tokens : List BatchCandidate → ℕ
total_tokens [] = 0
total_tokens (c ∷ cs) = c.estimated_tokens + total_tokens cs

pub record BatchingPolicy : Type 0 where
  pub max_batch_size : ℕ
  pub max_batch_tokens : ℕ
  pub high_priority_threshold : ℤ
  pub allow_single_item_batches : Bool

-- `__post_init__`
unfoldable pub check_policy : BatchingPolicy → Result BatchingPolicy
check_policy p =
    if ltb p.max_batch_size 1
    then raised value_error
    else if ltb p.max_batch_tokens 1
    then raised value_error
    else if ltb_ℤ p.high_priority_threshold (ai_inference_project.Common.Int.pos 1)
    then raised value_error
    else ok p

unfoldable pub make_batch : List BatchCandidate → String → Result InferenceBatch
make_batch [] reason = raised value_error
make_batch (first ∷ rest) reason = ok (record {
  model_name = first.model_name;
  event_type = first.event_type;
  candidates = first ∷ rest;
  reason = reason;
})

-- The end of `_split_group`: what is left in `current`.
unfoldable pub flush : BatchingPolicy → List BatchCandidate → Result (List InferenceBatch)
unfolding make_batch
flush p current =
    if ltb 0 (length current) && (p.allow_single_item_batches || ltb 1 (length current))
    then (do
      b ← make_batch current (
          if ltb 1 (length current) then "compatible_dynamic_batch" else "single_batchable_request")
      ok (b ∷ []))
    else ok []

-- The loop of `_split_group`, with `current` and `current_tokens`.
unfoldable pub split_from :
    BatchingPolicy
    → (current : List BatchCandidate) (current_tokens : ℕ) → List BatchCandidate
    → Result (List InferenceBatch)
unfolding make_batch flush
split_from p current current_tokens [] = flush p current
split_from p current current_tokens (c ∷ group) =
    let joined = split_from p (current ++ c ∷ []) (current_tokens + c.estimated_tokens) group in
    let cut = (do
      b ← make_batch current "compatible_dynamic_batch"
      rest ← split_from p (c ∷ []) c.estimated_tokens group
      ok (b ∷ rest)) in
    if leb p.max_batch_size (length current)
      || (ltb 0 (length current) && ltb p.max_batch_tokens (current_tokens + c.estimated_tokens))
    then cut
    else joined

abbrev pub Groups : Type 0
Groups = Dict (String × String) (List BatchCandidate)

-- `grouped.setdefault(key, []).append(candidate)`
unfoldable pub add_to_group : BatchCandidate → Groups → Groups
add_to_group c [] = (compatibility_key c, c ∷ []) ∷ []
add_to_group c ((key, group) ∷ groups) =
    if key == compatibility_key c
    then (key, group ++ c ∷ []) ∷ groups
    else (key, group) ∷ add_to_group c groups

-- Why a candidate gets a batch of its own, if it does.
unfoldable pub singleton_reason : BatchingPolicy → BatchCandidate → Option String
singleton_reason p c =
    if not c.batchable
    then some "not_batchable"
    else if leb_ℤ c.priority p.high_priority_threshold
    then some "high_priority_singleton"
    else if ltb p.max_batch_tokens c.estimated_tokens
    then some "token_budget_exceeded_singleton"
    else none

-- The loop of `build_batches` over the sorted candidates.
unfoldable pub collect :
    BatchingPolicy
    → List BatchCandidate
    → List InferenceBatch × Groups
    → Result (List InferenceBatch × Groups)
unfolding make_batch
collect p [] (immediate, grouped) = ok (immediate, grouped)
collect p (c ∷ cs) (immediate, grouped) = elim (singleton_reason p c) [
  | some reason ↦ (do b ← make_batch (c ∷ []) reason; collect p cs (immediate ++ b ∷ [], grouped))
  | none ↦ collect p cs (immediate, add_to_group c grouped)
]

-- The loop over `grouped.values()`.
unfoldable pub split_groups : BatchingPolicy → Groups → Result (List InferenceBatch)
split_groups p [] = ok []
split_groups p ((key, group) ∷ groups) = do
  batches ← split_from p [] 0 group
  rest ← split_groups p groups
  ok (batches ++ rest)

-- `(priority, request_id)` in lexicographic order.
unfoldable pub more_urgent : BatchCandidate → BatchCandidate → Bool
more_urgent c d =
    ltb_ℤ c.priority d.priority
    || (beq_ℤ c.priority d.priority && ltb_string c.request_id d.request_id)

unfoldable pub build_batches : BatchingPolicy → List BatchCandidate → Result (List InferenceBatch)
build_batches p [] = ok []
build_batches p (c ∷ cs) = do
  (immediate, grouped) ← collect p (sorted more_urgent (c ∷ cs)) ([], [])
  batches ← split_groups p grouped
  ok (immediate ++ batches)
