-- ===== src/Inference/Adapter/Vllm.antt =====
-- inference/vllm_adapter.py: `VllmBatchAdapter`. The chat completion, the text of its exceptions and
-- the measured durations are arguments. The threads of the pool all run to their end; the order in
-- which they do is `as_completed`, a rearrangement of what they return.
use ai_inference_project.Common.{
  ℕ, zero, suc, ◌+◌, Bool, true, false, not, ◌&&◌, get_elem?, subst, beq_refl, ◌≤◌, ◌≡◌, refl, ◌∙◌,
  String, Option, none, some, List, [], ◌∷◌, map, Perm, arith, ltb, get_or, string_key, ◌==◌,
  Exception, Result, ok, raised,
}
use mathlib.Core.List.Perm
use ai_inference_project.Common.Dict
use ai_inference_project.Common.Dict.{Dict, get-put}
use ai_inference_project.Common.Sort.{sorted, sorted-perm, Ranks, IsAscending, sorted-IsAscending}
use ai_inference_project.Common.Perms.{any, any-perm}
use ai_inference_project.Inference.Adapter.{InferenceInput, InferenceOutput}

-- The model server and the thread pool.
pub record Client : Type 0 where
  pub complete : (model : String) → InferenceInput → Result (Option String)
  pub error_text : Exception → String
  pub duration_ms : InferenceInput → ℕ
  pub as_completed : List InferenceOutput → List InferenceOutput

-- `_infer_single`
unfoldable pub infer_single : Client → (model : String) → InferenceInput → InferenceOutput
infer_single client model i = elim (client.complete model i) [
  | ok text ↦ record {
    request_id = i.request_id;
    text = text;
    error = none;
    duration_ms = client.duration_ms i;
  }
  | raised e ↦ record {
    request_id = i.request_id;
    text = none;
    error = some (client.error_text e);
    duration_ms = client.duration_ms i;
  }
]

-- `{inp.request_id: index for index, inp in enumerate(inputs)}`, from `index` onto `d`.
unfoldable pub positions : (index : ℕ) → List InferenceInput → Dict String ℕ → Dict String ℕ
positions index [] d = d
positions index (i ∷ inputs) d = positions (suc index) inputs (Dict.put d i.request_id index)

-- `order.get(result.request_id, 0)`
unfoldable pub position : List InferenceInput → InferenceOutput → ℕ
position inputs o = get_or (Dict.get (positions 0 inputs []) o.request_id) 0

unfoldable pub infer_batch : Client → (model : String) → List InferenceInput → List InferenceOutput
infer_batch client model [] = []
infer_batch client model (i ∷ inputs) =
    sorted (λ o p. ltb (position (i ∷ inputs) o) (position (i ∷ inputs) p))
      (client.as_completed (map (infer_single client model) (i ∷ inputs)))

-- The documented behaviour of `as_completed`: each of the futures, once.
abbrev pub Completes : Client → Type 0
Completes client = (os : List InferenceOutput) → Perm (client.as_completed os) os

by_position :
    (inputs : List InferenceInput)
    → Ranks
        (λ o p. ltb (position inputs o) (position inputs p))
        (λ o p. position inputs o ≤ position inputs p)
by_position inputs = record {
  if_before = λ o p h. ground arith;
  unless_before = λ o p h. ground arith;
  transitive = λ o p q h k. omega arith;
}

id_of_single :
    (client : Client) (model : String) (i : InferenceInput)
    → (infer_single client model i).request_id ≡ i.request_id
unfolding infer_single
id_of_single client model i = ground arith

-- No two of the inputs have the same request id.
abbrev pub are_distinct : List InferenceInput → Bool
are_distinct [] = true
are_distinct (i ∷ inputs) =
    not (any (λ j. j.request_id == i.request_id) inputs) && are_distinct inputs

positions_absent :
    (index : ℕ) (inputs : List InferenceInput) (d : Dict String ℕ) (x : String)
    → any (λ i. i.request_id == x) inputs ≡ false
    → Dict.get (positions index inputs d) x ≡ Dict.get d x
unfolding positions
positions_absent index [] d x h = refl
positions_absent index (i ∷ inputs) d x h =
    let rest =
      positions_absent (suc index) inputs (Dict.put d i.request_id index) x (ground (arith, h)) in
    let first = get-put d i.request_id index x in ground (arith, h, rest, first)

positions_present :
    (index : ℕ) (inputs : List InferenceInput) (d : Dict String ℕ) (n : ℕ) (i : InferenceInput)
    → are_distinct inputs ≡ true
    → get_elem? inputs n ≡ some i
    → Dict.get (positions index inputs d) i.request_id ≡ some (index + n)
unfolding positions
positions_present index [] d n i h e = absurd (ground (arith, e))
positions_present index (j ∷ inputs) d zero i h e =
    let same : j ≡ i = ground (arith, e) in
    let more = Dict.put d j.request_id index in
    let rest = positions_absent (suc index) inputs more j.request_id (ground (arith, h)) in
    let first = get-put d j.request_id index j.request_id in
    subst (λ i. Dict.get (positions (suc index) inputs more) i.request_id ≡ some (index + 0)) same
      (ground (arith, rest, first, beq_refl j.request_id))
positions_present index (j ∷ inputs) d (suc n) i h e =
    let rest =
      positions_present (suc index) inputs (Dict.put d j.request_id index) n i (ground (arith, h))
        (ground (arith, e)) in
    ground (arith, rest)

-- With threads that complete in any order, the outputs of a batch are those of the single calls, one
-- for each input and none twice. They stand in the order of their positions; and where no two inputs
-- have the same request id, the position of the output of the n-th input is n, from 0.
pub infer_batch_lem :
    (client : Client) (model : String) (inputs : List InferenceInput)
    → Completes client
    → let os = infer_batch client model inputs in
      Perm os (map (infer_single client model) inputs)
      × IsAscending (λ o p. position inputs o ≤ position inputs p) os
      × (are_distinct inputs ≡ true
          → (n : ℕ) (i : InferenceInput) → get_elem? inputs n ≡ some i
          → position inputs (infer_single client model i) ≡ n)
unfolding infer_batch position
infer_batch_lem client model [] h = (Perm.refl [], tt, λ d n i e. absurd (ground (arith, e)))
infer_batch_lem client model (i ∷ inputs) h =
    let all = map (infer_single client model) (i ∷ inputs) in
    (
      Perm.trans (sorted-perm _ (client.as_completed all)) (h all),
      sorted-IsAscending (by_position (i ∷ inputs)) (client.as_completed all),
      λ d n j e.
          let found = positions_present 0 (i ∷ inputs) [] n j d e in
          let own = id_of_single client model j in ground (arith, found, own),
    )

ids_of_singles :
    (client : Client) (model : String) (inputs : List InferenceInput) (x : String)
    → any (λ o. o.request_id == x) (map (infer_single client model) inputs)
      ≡ any (λ i. i.request_id == x) inputs
ids_of_singles client model [] x = refl
ids_of_singles client model (i ∷ inputs) x =
    rw (id_of_single client model i, ids_of_singles client model inputs x) refl

-- Some output is for a request exactly when some input is.
pub ids-infer_batch :
    (client : Client) (model : String) (inputs : List InferenceInput) (x : String)
    → Completes client
    → any (λ o. o.request_id == x) (infer_batch client model inputs)
      ≡ any (λ i. i.request_id == x) inputs
ids-infer_batch client model inputs x h =
    any-perm (λ o. o.request_id == x) (infer_batch_lem client model inputs h).0
    ∙ ids_of_singles client model inputs x
