-- ===== src/Worker/Batch/Gates.antt =====
-- The loops before the model server is called: the circuit breaker's refusal, the TTL check and the
-- marking of what is left, with what they leave in the result store.
use ai_inference_project.Common.{
  ◌≡◌, inl, inr, refl, String, Bool, true, false, Bool-cases, ◌||◌, none, some, List, [], ◌∷◌, All,
  if◌then◌else◌, ◌==◌, string_key, arith, ok,
}
use ai_inference_project.Common.Dict.{Dict}
use ai_inference_project.Core.ResultStore.{InferenceResult, processing, failed}
use ai_inference_project.Core.ResultStore
use ai_inference_project.Core.Ttl.{is_expired}
use ai_inference_project.Inference.Batching.{BatchCandidate}
use ai_inference_project.Worker.{Worker}
use ai_inference_project.Worker.Actions.{
  now, put_result, emit_metric, record_audit, delete_message, release_tenant,
}
use ai_inference_project.Worker.Batch.{
  Environment, timestamp_or, validated, receipt_of, ended, refuse, fail_fast, check_ttl, keep_live,
  mark, mark_processing,
}
use ai_inference_project.Worker.Batch.Records.{
  Settles, Settles-refl, Settles-then, Settles-put, Settles-hit, Settles-at, IsEnded,
}
use ai_inference_project.Worker.Batch.Outputs.{IsReady, Deletes, has_id}

module _ (env : Environment) (messages : Dict String String) where
  -- Refusing a batch returns, and leaves each of its requests refused.
  refuse-done :
      (model t : String) (c : BatchCandidate) (w : Worker)
      → IsReady messages c
      → ((refuse model t c w).result ≡ ok tt)
        × ((x : String)
            → Settles
                (IsEnded env model true)
                (c.request_id == x)
                (ResultStore.get w.result_store x)
                (ResultStore.get (refuse model t c w).after.result_store x))
  unfolding refuse validated put_result emit_metric release_tenant
  refuse-done model t c w ready =
      let (text, stamped) = ready.stamped in
      let error : String = "Circuit breaker open — downstream unavailable" in
      let r = ended c.request_id failed text t model none (some error) in
      (
        ground (arith, stamped),
        λ x.
            Settles-put r c.request_id w.result_store (refuse model t c w).after.result_store x
              (ground (arith, stamped)) refl
              (refl, inl (refl, record { fails = refl; no_result = refl; because = refl })),
      )

  pub fail_fast-done :
      (model t : String) (cs : List BatchCandidate) (w : Worker)
      → All (IsReady messages) cs
      → let o = fail_fast model t cs w in
        (o.result ≡ ok tt)
        × ((x : String)
            → Settles
                (IsEnded env model true)
                (has_id cs x)
                (ResultStore.get w.result_store x)
                (ResultStore.get o.after.result_store x))
  unfolding fail_fast
  fail_fast-done model t [] w h = (refl, λ x. Settles-refl _)
  fail_fast-done model t (c ∷ cs) w h =
      let (returns, first) = refuse-done model t c w h.0 in
      let (rest, later) = fail_fast-done model t cs (refuse model t c w).after h.1 in
      (
        ground (arith, returns, rest),
        λ x. Settles-at (ground (arith, returns, rest)) (Settles-then (first x) (later x)),
      )

module _ (env : Environment) (messages : Dict String String) (model batch_id : String) where
  -- The TTL check of a request returns; a request that is not live ends as expired, and a live one
  -- leaves the store alone.
  check_ttl-done :
      (t : String) (c : BatchCandidate) (w : Worker)
      → Deletes env
      → IsReady messages c
      → let o = check_ttl env messages model batch_id t c w in
        (live : Bool) × (o.result ≡ ok live)
        × ((x : String)
            → Settles
                (IsEnded env model false)
                (if live then false else c.request_id == x)
                (ResultStore.get w.result_store x)
                (ResultStore.get o.after.result_store x))
  unfolding check_ttl now put_result emit_metric record_audit release_tenant delete_message
      validated receipt_of
  check_ttl-done t c w deletes ready =
      let (text, stamped) = ready.stamped in
      let (receipt, delivered) = ready.delivered in
      let deleted = deletes receipt in
      let o = check_ttl env messages model batch_id t c w in
      elim (Bool-cases
        (is_expired env.calendar env.max_age (w.clock w.reads) (timestamp_or c.raw_payload ""))) [
          | inl late ↦
              let r = ended c.request_id failed text t model none (some env.expiry_error) in
              let dated : is_expired env.calendar env.max_age (w.clock w.reads) (some text) ≡ true =
                ground (arith, late, stamped) in
              (
                false,
                ground (arith, late, stamped, delivered, deleted),
                λ x.
                    Settles-put r c.request_id w.result_store o.after.result_store x
                      (ground (arith, late, stamped, delivered, deleted)) refl
                      (
                        refl,
                        inr (
                          refl,
                          inl (
                            record { fails = refl; no_result = refl; because = refl },
                            w.clock w.reads,
                            dated,
                          ),
                        ),
                      ),
              )
          | inr early ↦ (
            true,
            ground (arith, early),
            λ x. Settles-at (ground (arith, early)) (Settles-refl _),
          )
        ]

  -- The TTL check of a batch returns its live requests; the others end as expired.
  pub keep_live-done :
      (t : String) (cs : List BatchCandidate) (w : Worker)
      → Deletes env
      → All (IsReady messages) cs
      → let o = keep_live env messages model batch_id t cs w in
        (live : List BatchCandidate) × (o.result ≡ ok live)
        × All (IsReady messages) live
        × ((x : String)
            → (hit : Bool) × ((hit || has_id live x) ≡ has_id cs x)
              × Settles
                  (IsEnded env model false)
                  hit
                  (ResultStore.get w.result_store x)
                  (ResultStore.get o.after.result_store x))
  unfolding keep_live
  keep_live-done t [] w deletes h = ([], refl, tt, λ x. (false, refl, Settles-refl _))
  keep_live-done t (c ∷ cs) w deletes h =
      let (b, returns, first) = check_ttl-done t c w deletes h.0 in
      let w' = (check_ttl env messages model batch_id t c w).after in
      let (live, rest, ready, later) = keep_live-done t cs w' deletes h.1 in
      elim (Bool-cases b) [
        | inl lives ↦ (
          c ∷ live,
          ground (arith, returns, rest, lives),
          (h.0, ready),
          λ x.
              let (hit, same, s) = later x in
              (
                hit,
                ground (arith, same),
                Settles-at (ground (arith, returns, rest))
                    (Settles-then {h = false} (Settles-hit (ground (arith, lives)) (first x)) s),
              ),
        )
        | inr ends ↦ (
          live,
          ground (arith, returns, rest, ends),
          ready,
          λ x.
              let (hit, same, s) = later x in
              (
                c.request_id == x || hit,
                ground (arith, same),
                Settles-at (ground (arith, returns, rest)) (
                    Settles-then {h = c.request_id == x}
                      (Settles-hit (ground (arith, ends)) (first x)) s),
              ),
        )
      ]

  mark-done :
      (t : String) (c : BatchCandidate) (w : Worker)
      → IsReady messages c
      → let o = mark env messages model batch_id t c w in
        (o.result ≡ ok tt)
        × ((x : String)
            → Settles
                (λ r. r.status ≡ processing)
                (c.request_id == x)
                (ResultStore.get w.result_store x)
                (ResultStore.get o.after.result_store x))
  unfolding mark validated put_result emit_metric
  mark-done t c w ready =
      let (text, stamped) = ready.stamped in
      let r : InferenceResult = record {
        request_id = c.request_id;
        status = processing;
        accepted_at = text;
        completed_at = none;
        model_name = some model;
        result = none;
        error = none;
      } in
      (
        ground (arith, stamped),
        λ x.
            Settles-put r c.request_id w.result_store
              (mark env messages model batch_id t c w).after.result_store x
              (ground (arith, stamped)) refl refl,
      )

  -- Marking the live requests returns, and leaves them in processing; the others are kept.
  pub mark_processing-done :
      (t : String) (cs : List BatchCandidate) (w : Worker)
      → All (IsReady messages) cs
      → let o = mark_processing env messages model batch_id t cs w in
        (o.result ≡ ok tt)
        × ((x : String)
            → Settles
                (λ r. r.status ≡ processing)
                (has_id cs x)
                (ResultStore.get w.result_store x)
                (ResultStore.get o.after.result_store x))
  unfolding mark_processing
  mark_processing-done t [] w h = (refl, λ x. Settles-refl _)
  mark_processing-done t (c ∷ cs) w h =
      let (returns, first) = mark-done t c w h.0 in
      let (rest, later) =
        mark_processing-done t cs (mark env messages model batch_id t c w).after h.1 in
      (
        ground (arith, returns, rest),
        λ x. Settles-at (ground (arith, returns, rest)) (Settles-then (first x) (later x)),
      )
