-- ===== src/Core/ResultStore.antt =====
-- core/result_store.py: the life cycle record of a request, the in-memory store, and the items
-- that the DynamoDB store writes and reads. Timestamps are texts, as in the source.
pub mod Laws
pub mod Items
use ai_inference_project.Common.{String, Bool, true, false, Option, List, filter, string_key}
use ai_inference_project.Common.Dict
use ai_inference_project.Common.Dict.{Dict}

pub data RequestStatus : Type 0 where
  pending processing completed failed : RequestStatus

pub record InferenceResult : Type 0 where
  pub request_id : String
  pub status : RequestStatus
  pub accepted_at : String
  pub completed_at : Option String
  pub model_name : Option String
  pub result : Option String
  pub error : Option String

abbrev pub same_status : RequestStatus → RequestStatus → Bool
same_status pending pending = true
same_status processing processing = true
same_status completed completed = true
same_status failed failed = true
same_status _ _ = false

-- `InMemoryResultStore._store`
abbrev pub ResultStore : Type 0
ResultStore = Dict String InferenceResult

unfoldable pub put : InferenceResult → ResultStore → ResultStore
put result store = Dict.put store result.request_id result

unfoldable pub get : ResultStore → String → Option InferenceResult
get store request_id = Dict.get store request_id

unfoldable pub scan_by_status : ResultStore → RequestStatus → List InferenceResult
scan_by_status store status = filter (λ r. same_status r.status status) (Dict.values store)
