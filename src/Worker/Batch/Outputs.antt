-- ===== src/Worker/Batch/Outputs.antt =====
-- The loop over the outputs of the model server, and what it leaves in the result store.
use ai_inference_project.Common.{
  ◌≡◌, inl, inr, refl, Mem, truthy, get_or, String, Bool, true, false, Bool-cases, ◌||◌, Option,
  none, some, List, [], ◌∷◌, map, All, if◌then◌else◌, ◌==◌, string_key, arith, ok,
}
use ai_inference_project.Common.Dict
use ai_inference_project.Common.Dict.{Dict}
use ai_inference_project.Core.ResultStore.{
  InferenceResult, ResultStore, RequestStatus, pending, processing, completed, failed,
}
use ai_inference_project.Core.ResultStore
use mathlib.Core.List.{mem-cons, mem-cons_self}
use mathlib.Core.Logic.Or
use ai_inference_project.Worker.Batch.Records.{
  Settles, Settles-refl, Settles-then, Settles-put, Settles-at, IsAnswer, Reports, IsEnded,
}
use ai_inference_project.Inference.Adapter.{InferenceOutput, success}
use ai_inference_project.Inference.Batching.{BatchCandidate}
use ai_inference_project.Worker.{Worker}
use ai_inference_project.Worker.Actions.{
  Outcome, pure, now, put_result, emit_metric, record_audit, delete_message, health_success,
  health_error, breaker_success, breaker_failure, record_latency, release_tenant,
}
use ai_inference_project.Worker.Batch.{
  Environment, validated, receipt_of, ended, complete, fail, candidate_of, handle_output,
  handle_outputs,
}

-- The record of a request is there, and in a terminal state.
abbrev pub is_done : Option InferenceResult → Bool
is_done none = false
is_done (some r) = elim r.status [ completed ↦ true | failed ↦ true | _ ↦ false ]

-- The candidate carries a timestamp text, and its message is known.
pub record IsReady (messages : Dict String String) (c : BatchCandidate) : Type 0 where
  pub stamped : (text : String) × (c.raw_payload.timestamp ≡ some (some text))
  pub delivered : (receipt : String) × (Dict.get messages c.request_id ≡ some receipt)

-- SQS deletes every message that it is asked to.
abbrev pub Deletes : Environment → Type 0
Deletes env = (receipt : String) → env.delete_message receipt ≡ ok tt

-- The request id is among the given ones.
abbrev pub is_in : List String → String → Bool
is_in [] x = false
is_in (y ∷ ys) x = y == x || is_in ys x

-- Some candidate has the request id.
abbrev pub has_id : List BatchCandidate → String → Bool
has_id cs = is_in (map (λ c. c.request_id) cs)

-- Every output is a success.
abbrev pub all_succeed : List InferenceOutput → Bool
all_succeed [] = true
all_succeed (o ∷ os) = if success o then all_succeed os else false

module _ (env : Environment) (messages : Dict String String) (model batch_id : String) where
  -- A round of the loop over the outputs writes one record, that reports the output.
  abbrev pub Ends : Worker → Outcome (Unit {0}) → InferenceOutput → Type 0
  Ends w o output =
      (r : InferenceResult) × (o.result ≡ ok tt)
      × (o.after.result_store ≡ ResultStore.put r w.result_store)
      × (r.request_id ≡ output.request_id)
      × (r.model_name ≡ some model)
      × Reports env model r output

  complete-Ends :
      (accepted_at : String) (o : InferenceOutput) (receipt : String) (w : Worker)
      → Dict.get messages o.request_id ≡ some receipt
      → env.delete_message receipt ≡ ok tt
      → success o ≡ true
      → Ends w (complete env messages model batch_id accepted_at o w) o
  unfolding complete now put_result emit_metric record_latency receipt_of delete_message
      health_success record_audit
  complete-Ends accepted_at o receipt w e deletes good = (
    ended o.request_id completed accepted_at (env.calendar.isoformat (w.clock w.reads)) model o.text
        none,
    ground (arith, e, deletes),
    ground (arith, e, deletes),
    refl,
    refl,
    record {
      own = refl;
      success_ends = λ _. (refl, refl, refl);
      failure_ends = λ bad. absurd (ground (arith, good, bad));
    },
  )

  fail-Ends :
      (accepted_at : String) (o : InferenceOutput) (w : Worker)
      → success o ≡ false
      → Ends w (fail env messages model batch_id accepted_at o w) o
  unfolding fail now put_result emit_metric health_error record_audit
  fail-Ends accepted_at o w bad = (
    ended o.request_id failed accepted_at (env.calendar.isoformat (w.clock w.reads)) model none
        (some (get_or (truthy o.error) "Inference failed")),
    refl,
    refl,
    refl,
    refl,
    record {
      own = refl;
      success_ends = λ good. absurd (ground (arith, good, bad));
      failure_ends = λ _. (refl, refl, refl);
    },
  )

  candidate_found :
      (live : List BatchCandidate) (request_id : String) (w : Worker)
      → All (IsReady messages) live
      → has_id live request_id ≡ true
      → (c : BatchCandidate) × (candidate_of env messages model batch_id live request_id w
          ≡ pure c w)
        × (c.request_id ≡ request_id)
        × IsReady messages c
  unfolding candidate_of
  candidate_found [] request_id w h e = absurd (ground arith)
  candidate_found (c ∷ cs) request_id w h e = elim (Bool-cases (c.request_id == request_id)) [
    | inl hit ↦ (c, rw hit refl, (string_key.beq_iff c.request_id request_id).0 hit, h.0)
    | inr miss ↦
        let (d, found, same, ready) = candidate_found cs request_id w h.1 (rw miss at e) in
        (d, rw miss found, same, ready)
  ]

  handle_output-Ends :
      (t : String) (live : List BatchCandidate) (o : InferenceOutput) (w : Worker)
      → Deletes env
      → All (IsReady messages) live
      → has_id live o.request_id ≡ true
      → Ends w (handle_output env messages model batch_id t live o w) o
  unfolding handle_output validated breaker_success breaker_failure now release_tenant
  handle_output-Ends t live o w deletes h e =
      let (c, found, same, ready) = candidate_found live o.request_id w h e in
      let (text, stamped) = ready.stamped in
      let (receipt, delivered) = ready.delivered in
      elim (Bool-cases (success o)) [
        | inl good ↦
            let w' = (breaker_success w).after in
            let (r, returns, stored, own, named, reports) =
              complete-Ends text o receipt w' (rw same at delivered) (deletes receipt) good in
            (
              r,
              ground (arith, found, good, stamped, returns),
              ground (arith, found, good, stamped, returns, stored),
              own,
              named,
              reports,
            )
        | inr bad ↦
            let w' = (breaker_failure (w.clock w.reads) (now w).after).after in
            let (r, returns, stored, own, named, reports) = fail-Ends text o w' bad in
            (
              r,
              ground (arith, found, bad, stamped, returns),
              ground (arith, found, bad, stamped, returns, stored),
              own,
              named,
              reports,
            )
      ]

  -- The loop over the outputs returns whether all of them succeeded, and leaves for each request
  -- that has an output a record that reports one; the others are kept.
  pub handle_outputs-done :
      (t : String) (live : List BatchCandidate) (os : List InferenceOutput) (w : Worker)
      → Deletes env
      → All (IsReady messages) live
      → All (λ o. has_id live o.request_id ≡ true) os
      → ((o : InferenceOutput) → Mem o os → IsAnswer env model o)
      → let o = handle_outputs env messages model batch_id t live os w in
        (o.result ≡ ok (all_succeed os))
        × ((x : String)
            → Settles
                (IsEnded env model false)
                (is_in (map (λ o. o.request_id) os) x)
                (ResultStore.get w.result_store x)
                (ResultStore.get o.after.result_store x))
  unfolding handle_outputs
  handle_outputs-done t live [] w deletes h k from = (refl, λ x. Settles-refl _)
  handle_outputs-done t live (o ∷ os) w deletes h k from =
      let (r, returns, stored, own, named, reports) = handle_output-Ends t live o w deletes h k.0 in
      let w' = (handle_output env messages model batch_id t live o w).after in
      let (rest, later) =
        handle_outputs-done t live os w' deletes h k.1 (λ p m. from p (mem-cons.1 (Or.inr m))) in
      (
        ground (arith, returns, rest),
        λ x. Settles-at (ground (arith, returns, rest)) (
            Settles-then
              (Settles-put r o.request_id w.result_store w'.result_store x stored own
                (named, inr (refl, inr (o, from o mem-cons_self, reports))))
              (later x)),
      )
