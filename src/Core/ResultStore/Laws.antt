-- ===== src/Core/ResultStore/Laws.antt =====
-- The in-memory store: reads after writes, and what a scan finds.
use mathlib.Core.List.{mem-cons}
use mathlib.Core.Logic.Or
use ai_inference_project.Common.{
  String, ◌≡◌, refl, [], ◌∷◌, some, arith, All, All-filter_test, mem-filter_of_mem, Mem, true, inl,
  inr, Bool-cases, ◌==◌, if◌then◌else◌, beq_refl, string_key,
}
use ai_inference_project.Common.Dict
use ai_inference_project.Common.Dict.{Dict, get-put}
use ai_inference_project.Core.ResultStore.{
  RequestStatus, InferenceResult, ResultStore, same_status, put, get, scan_by_status,
}

-- A read after a write returns the record written, for its own request, and for any other request
-- what the store held before.
pub get-put_lem :
    (r : InferenceResult) (store : ResultStore) (request_id : String)
    → get (put r store) request_id
      ≡ (if r.request_id == request_id then some r else get store request_id)
unfolding get put
get-put_lem r store request_id = get-put store r.request_id r request_id

pub get-put_self :
    (r : InferenceResult) (store : ResultStore) → get (put r store) r.request_id ≡ some r
get-put_self r store = simp (get-put_lem, beq_refl)

abbrev pub IsKeyed : ResultStore → Type 0
IsKeyed = Dict.IsKeyed (λ r. r.request_id)

-- A write keeps the store keyed.
pub put-IsKeyed :
    (r : InferenceResult) (store : ResultStore) → IsKeyed store → IsKeyed (put r store)
unfolding put
put-IsKeyed r store h = Dict.put-IsKeyed (λ x. x.request_id) store r.request_id r refl h

-- In a keyed store, each record that a scan returns is the one that `get` returns for its request,
-- and it has the status scanned for.
pub scan_by_status_sound :
    (store : ResultStore) (status : RequestStatus)
    → IsKeyed store
    → All
        (λ r. (get store r.request_id ≡ some r) × (same_status r.status status ≡ true))
        (scan_by_status store status)
unfolding get scan_by_status
scan_by_status_sound store status h =
    All-filter_test (λ r. Dict.get store r.request_id ≡ some r) (λ r. same_status r.status status)
      (Dict.values store) (Dict.get_of_values (λ r. r.request_id) store h)

same_status_refl : (s : RequestStatus) → same_status s s ≡ true
same_status_refl s = ground arith

mem-values :
    (store : ResultStore) (k : String) (r : InferenceResult)
    → Dict.get store k ≡ some r
    → Mem r (Dict.values store)
unfolding Dict.get Dict.values
mem-values [] k r h = cc
mem-values ((i, s) ∷ rest) k r h = elim (Bool-cases (i == k)) [
  | inl e ↦ mem-cons.1 (Or.inl (ground arith))
  | inr e ↦ mem-cons.1 (Or.inr (mem-values rest k r (ground arith)))
]

-- Every record that `get` returns is in the scan for its status.
pub scan_by_status_complete :
    (store : ResultStore) (request_id : String) (r : InferenceResult)
    → get store request_id ≡ some r
    → Mem r (scan_by_status store r.status)
unfolding get scan_by_status
scan_by_status_complete store request_id r h =
    mem-filter_of_mem (λ s. same_status s.status r.status) r (Dict.values store)
      (same_status_refl r.status) (mem-values store request_id r h)
