-- ===== src/Core/ResultStore/Items.antt =====
-- core/result_store.py: the items of `DynamoResultStore`. A key that is absent is `none`; the
-- table itself is a service and no part of this file.
use ai_inference_project.Common.{
  ℕ, ◌+◌, ◌*◌, ◌↔◌, ◌≢◌, ap, inl, inr, Bool-cases, arith, String, ◌≡◌, refl, Option, some, none,
  Result, ok, raised, value_error, ◌==◌, string_key, if◌then◌else◌,
}
use ai_inference_project.Core.ResultStore.{
  RequestStatus, pending, processing, completed, failed, InferenceResult,
}

pub record Item : Type 0 where
  pub request_id : String
  pub status : String
  pub accepted_at : String
  pub ttl : ℕ
  pub completed_at : Option String
  pub model_name : Option String
  pub result : Option String
  pub error : Option String

-- `RequestStatus.value`
unfoldable pub status_value : RequestStatus → String
status_value pending = "pending"
status_value processing = "processing"
status_value completed = "completed"
status_value failed = "failed"

-- `RequestStatus(text)`
unfoldable pub status_of_value : String → Result RequestStatus
status_of_value text =
    if text == "pending"
    then ok pending
    else if text == "processing"
    then ok processing
    else if text == "completed"
    then ok completed
    else if text == "failed"
    then ok failed
    else raised value_error

-- The guards `if result.field:`: neither `None` nor the empty text is written.
unfoldable pub written : Option String → Option String
written none = none
written (some text) = if text == "" then none else some text

-- `put`: the item that is handed to `put_item`, at `now` seconds since the epoch.
unfoldable pub to_item : (now ttl_days : ℕ) → InferenceResult → Item
unfolding status_value written
to_item now ttl_days r = record {
  request_id = r.request_id;
  status = status_value r.status;
  accepted_at = r.accepted_at;
  ttl = now + ttl_days * 86400;
  completed_at = written r.completed_at;
  model_name = written r.model_name;
  result = written r.result;
  error = written r.error;
}

-- `get` and `scan_by_status`: the record that an item is read as.
unfoldable pub of_item : Item → Result InferenceResult
unfolding status_of_value
of_item item = elim (status_of_value item.status) [
  | raised e ↦ raised e
  | ok status ↦ ok (record {
    request_id = item.request_id;
    status = status;
    accepted_at = item.accepted_at;
    completed_at = item.completed_at;
    model_name = item.model_name;
    result = item.result;
    error = item.error;
  })
]

status_of_value-status_value : (s : RequestStatus) → status_of_value (status_value s) ≡ ok s
unfolding status_of_value status_value
status_of_value-status_value pending = refl
status_of_value-status_value processing = refl
status_of_value-status_value completed = refl
status_of_value-status_value failed = refl

written_iff : (text : Option String) → (written text ≡ text) ↔ (text ≢ some "")
unfolding written
written_iff none = (λ e h. absurd (ground (arith, h)), λ h. refl)
written_iff (some text) = elim (Bool-cases (text == "")) [
  | inl empty ↦
      let same : text ≡ "" = (string_key.beq_iff text "").0 empty in
      (λ e h. absurd (ground (arith, e, empty)), λ h. absurd (h (ap some same)))
  | inr full ↦ (
    λ e h.
        let same : text ≡ "" = ground (arith, h) in
        absurd (ground (arith, full, (string_key.beq_iff text "").1 same)),
    λ h. ground (arith, full),
  )
]

-- The record that is read back from the item of a record is the record itself exactly if none of its
-- optional texts is the empty text; otherwise a record is read back too, with the same status.
pub of_item-to_item :
    (now ttl_days : ℕ) (r : InferenceResult)
    → ((of_item (to_item now ttl_days r) ≡ ok r) ↔ (
        (r.completed_at ≢ some "")
        × (r.model_name ≢ some "")
        × (r.result ≢ some "")
        × (r.error ≢ some "")))
      × ((r' : InferenceResult) × (of_item (to_item now ttl_days r) ≡ ok r')
          × (r'.status ≡ r.status))
unfolding of_item to_item
of_item-to_item now ttl_days r =
    let item = to_item now ttl_days r in
    let read : InferenceResult = record r {
      completed_at = item.completed_at;
      model_name = item.model_name;
      result = item.result;
      error = item.error;
    } in
    let reads : of_item item ≡ ok read = rw (status_of_value-status_value r.status, of_item) refl in
    (
      (
        λ e.
            let same : read ≡ r = ground (arith, reads, e) in
            (
              (written_iff r.completed_at).0 (ap (λ r. r.completed_at) same),
              (written_iff r.model_name).0 (ap (λ r. r.model_name) same),
              (written_iff r.result).0 (ap (λ r. r.result) same),
              (written_iff r.error).0 (ap (λ r. r.error) same),
            ),
        λ (no_time, no_model, no_result, no_error). ground (
          arith,
          reads,
          (written_iff r.completed_at).1 no_time,
          (written_iff r.model_name).1 no_model,
          (written_iff r.result).1 no_result,
          (written_iff r.error).1 no_error,
        ),
      ),
      (read, reads, refl),
    )
