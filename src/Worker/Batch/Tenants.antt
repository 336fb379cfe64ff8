-- ===== src/Worker/Batch/Tenants.antt =====
-- What a batch gives back to the tenants.
use ai_inference_project.Common.{
  ℕ, ◌≡◌, length, subst, refl, sym, String, false, Bool-cases, inl, inr, Option, Option-cases, none,
  some, List, [], ◌∷◌, All, ◌==◌, string_key, arith, Result-cases, ok,
}
use ai_inference_project.Common.Dict
use ai_inference_project.Common.Dict.{Dict}
use ai_inference_project.Gateway.Tenant.{TenantPolicyEngine, state_of, release, extract_tenant}
use ai_inference_project.Gateway.Tenant.Laws.{state_of-release}
use ai_inference_project.Core.Metrics.{scheduling_decision}
use ai_inference_project.Inference.Adapter.{InferenceOutput}
use ai_inference_project.Inference.GpuScheduler.{GpuDeviceSnapshot, schedule, is_scheduled}
use ai_inference_project.Inference.Batching.{BatchCandidate, InferenceBatch}
use ai_inference_project.Worker.{Worker}
use ai_inference_project.Worker.Actions.{
  Action, now, put_result, emit_metric, record_audit, delete_message, health_success, health_error,
  breaker_allows, breaker_success, breaker_failure, record_latency, release_tenant,
}
use ai_inference_project.Worker.Batch.{
  Environment, metadata_of, validated, receipt_of, refuse, fail_fast, check_ttl, keep_live, mark,
  mark_processing, candidate_of, complete, fail, handle_output, handle_outputs, call_server,
  infer_live, run_batch, run_scheduled, process_batch,
}

-- The running requests of the tenant.
abbrev pub held : Option TenantPolicyEngine → String → ℕ
held none a = 0
held (some e) a = (state_of e a).active_count

-- The candidate has no metadata, as those that come from messages.
abbrev pub IsBare : BatchCandidate → Type 0
IsBare c = c.raw_payload.metadata ≡ none

module _ (a : String) (named : ("__default__" == a) ≡ false) where
  -- The action takes and gives no slot of the tenant.
  abbrev pub Keeps : {A : Type 0} → Action A → Type 0
  Keeps m = (w : Worker) → held (m w).after.tenant_engine a ≡ held w.tenant_engine a

  release-held :
      (e : TenantPolicyEngine) → held (some (release "__default__" e)) a ≡ held (some e) a
  release-held e = let after = state_of-release "__default__" a e in ground (arith, after, named)

  -- The tenant that a candidate without metadata releases.
  bare_tenant : (c : BatchCandidate) → IsBare c → extract_tenant (metadata_of c) ≡ "__default__"
  unfolding extract_tenant Dict.get
  bare_tenant c bare = rw bare refl

  refuse-Keeps : (model t : String) (c : BatchCandidate) → IsBare c → Keeps (refuse model t c)
  unfolding refuse validated put_result emit_metric release_tenant
  refuse-Keeps model t c bare w =
      let tenant = bare_tenant c bare in
      elim (Option-cases w.tenant_engine) [
        | inl off ↦ ground (arith, off)
        | inr (e, on) ↦ ground (arith, on, tenant, release-held e)
      ]

  fail_fast-Keeps :
      (model t : String) (cs : List BatchCandidate) → All IsBare cs → Keeps (fail_fast model t cs)
  unfolding fail_fast
  fail_fast-Keeps model t [] bare w = refl
  fail_fast-Keeps model t (c ∷ cs) bare w =
      let first = refuse-Keeps model t c bare.0 w in
      let rest = fail_fast-Keeps model t cs bare.1 (refuse model t c w).after in
      ground (arith, first, rest)

  module _ (env : Environment) (messages : Dict String String) (model batch_id : String) where
    check_ttl-Keeps :
        (t : String) (c : BatchCandidate)
        → IsBare c
        → Keeps (check_ttl env messages model batch_id t c)
    unfolding check_ttl now validated receipt_of put_result emit_metric record_audit release_tenant
        delete_message
    check_ttl-Keeps t c bare w =
        let tenant = bare_tenant c bare in
        elim (Option-cases w.tenant_engine) [
          | inl off ↦ ground (arith, off)
          | inr (e, on) ↦ ground (arith, on, tenant, release-held e)
        ]

    keep_live-Keeps :
        (t : String) (cs : List BatchCandidate)
        → All IsBare cs
        → Keeps (keep_live env messages model batch_id t cs)
    unfolding keep_live
    keep_live-Keeps t [] bare w = refl
    keep_live-Keeps t (c ∷ cs) bare w =
        let o = check_ttl env messages model batch_id t c w in
        let first = check_ttl-Keeps t c bare.0 w in
        let rest = keep_live-Keeps t cs bare.1 o.after in ground (arith, first, rest)

    mark_processing-Keeps :
        (t : String) (cs : List BatchCandidate)
        → Keeps (mark_processing env messages model batch_id t cs)
    unfolding mark_processing mark validated put_result emit_metric
    mark_processing-Keeps t [] w = refl
    mark_processing-Keeps t (c ∷ cs) w =
        let rest = mark_processing-Keeps t cs (mark env messages model batch_id t c w).after in
        ground (arith, rest)

    -- The candidate of an output is one of the batch.
    candidate_of-IsBare :
        (cs : List BatchCandidate) (id : String) (w : Worker) (c : BatchCandidate)
        → All IsBare cs
        → (candidate_of env messages model batch_id cs id w).result ≡ ok c
        → IsBare c
    unfolding candidate_of
    candidate_of-IsBare [] id w c bare h = absurd (ground (arith, h))
    candidate_of-IsBare (d ∷ cs) id w c bare h = elim (Bool-cases (d.request_id == id)) [
      | inl hit ↦ let same : d ≡ c = ground (arith, h, hit) in subst IsBare same bare.0
      | inr miss ↦ candidate_of-IsBare cs id w c bare.1 (ground (arith, h, miss))
    ]

    candidate_of-after :
        (cs : List BatchCandidate) (id : String) (w : Worker)
        → (candidate_of env messages model batch_id cs id w).after ≡ w
    unfolding candidate_of
    candidate_of-after [] id w = refl
    candidate_of-after (d ∷ cs) id w = let rest = candidate_of-after cs id w in ground (arith, rest)

    handle_output-Keeps :
        (t : String) (live : List BatchCandidate) (o : InferenceOutput)
        → All IsBare live
        → Keeps (handle_output env messages model batch_id t live o)
    unfolding handle_output breaker_success breaker_failure validated now release_tenant complete
        fail put_result emit_metric record_latency receipt_of delete_message health_success
        health_error record_audit
    handle_output-Keeps t live o bare w =
        let found = candidate_of env messages model batch_id live o.request_id w in
        let same = candidate_of-after live o.request_id w in
        elim (Result-cases found.result) [
          | inl (e, raises) ↦ ground (arith, raises, same)
          | inr (c, finds) ↦
              let tenant = bare_tenant c (candidate_of-IsBare live o.request_id w c bare finds) in
              elim (Option-cases w.tenant_engine) [
                | inl off ↦ ground (arith, finds, same, off)
                | inr (e, on) ↦ ground (arith, finds, same, on, tenant, release-held e)
              ]
        ]

    handle_outputs-Keeps :
        (t : String) (live : List BatchCandidate) (os : List InferenceOutput)
        → All IsBare live
        → Keeps (handle_outputs env messages model batch_id t live os)
    unfolding handle_outputs
    handle_outputs-Keeps t live [] bare w = refl
    handle_outputs-Keeps t live (o ∷ os) bare w =
        let first = handle_output-Keeps t live o bare w in
        let rest =
          handle_outputs-Keeps t live os bare
            (handle_output env messages model batch_id t live o w).after in
        ground (arith, first, rest)

    infer_live-Keeps :
        (live : List BatchCandidate)
        → All IsBare live
        → Keeps (infer_live env messages model batch_id live)
    unfolding infer_live now call_server
    infer_live-Keeps [] bare w = refl
    infer_live-Keeps (c ∷ cs) bare w =
        let t = env.calendar.isoformat (w.clock w.reads) in
        let w1 = (now w).after in
        let marked = mark_processing env messages model batch_id t (c ∷ cs) w1 in
        let first = mark_processing-Keeps t (c ∷ cs) w1 in
        let rest =
          λ (os : List InferenceOutput). handle_outputs-Keeps t (c ∷ cs) os bare marked.after in
        elim (Result-cases (call_server env messages model batch_id (c ∷ cs) marked.after).result) [
          | inl (e, raises) ↦ ground (arith, first, raises)
          | inr (os, answers) ↦ ground (arith, first, answers, rest os)
        ]

    keep_live-IsBare :
        (t : String) (cs live : List BatchCandidate) (w : Worker)
        → All IsBare cs
        → (keep_live env messages model batch_id t cs w).result ≡ ok live
        → All IsBare live
    unfolding keep_live
    keep_live-IsBare t [] live w bare h =
        let none' : live ≡ [] = ground (arith, h) in subst (All IsBare) (sym none') tt
    keep_live-IsBare t (c ∷ cs) live w bare h =
        let o = check_ttl env messages model batch_id t c w in
        let later = keep_live env messages model batch_id t cs o.after in
        elim (Result-cases o.result) [
          | inl (e, raises) ↦ absurd (ground (arith, h, raises))
          | inr (lives, checks) ↦ elim (Result-cases later.result) [
            | inl (e, raises) ↦ absurd (ground (arith, h, checks, raises))
            | inr (rest, kept) ↦
                let bares = keep_live-IsBare t cs rest o.after bare.1 kept in
                elim (Bool-cases lives) [
                  | inl yes' ↦
                      let same : live ≡ c ∷ rest = ground (arith, h, checks, kept, yes') in
                      subst (All IsBare) (sym same) (bare.0, bares)
                  | inr no' ↦
                      let same : live ≡ rest = ground (arith, h, checks, kept, no') in
                      subst (All IsBare) (sym same) bares
                ]
          ]
        ]

    run_batch-Keeps :
        (cs : List BatchCandidate)
        → All IsBare cs
        → Keeps (run_batch env messages model batch_id cs)
    unfolding run_batch now breaker_allows
    run_batch-Keeps cs bare w =
        let w1 = (now w).after in
        let gate = breaker_allows (w.clock w.reads) w1 in
        let w2 = (now gate.after).after in
        let t = env.calendar.isoformat (w1.clock w1.reads) in
        let kept = keep_live env messages model batch_id t cs w2 in
        let checks = keep_live-Keeps t cs bare w2 in
        let refuses = fail_fast-Keeps model t cs bare w2 in
        elim (Result-cases kept.result) [
          | inl (e, raises) ↦ ground (arith, checks, refuses, raises)
          | inr (live, lives) ↦
              let infers =
                infer_live-Keeps live (keep_live-IsBare t cs live w2 bare lives) kept.after in
              ground (arith, checks, refuses, lives, infers)
        ]

  observed-Keeps :
      (env : Environment) (messages : Dict String String) (batch_id : String)
      (batch : InferenceBatch) (devices : List GpuDeviceSnapshot)
      → All IsBare batch.candidates
      → env.gpu_snapshots ≡ ok devices
      → Keeps (process_batch env messages batch_id batch)
  unfolding process_batch run_scheduled emit_metric health_error
  observed-Keeps env messages batch_id batch devices bare seen w =
      let model = batch.model_name in
      let runs = run_batch-Keeps env messages model batch_id batch.candidates bare in
      let d = schedule env.gpu_scheduler model devices (length batch.candidates) in
      let w1 =
        (emit_metric (scheduling_decision batch_id model (is_scheduled d) d.device_id d.reason)
          w).after in
      elim (Bool-cases env.gpu_scheduling_enabled) [
        | inl on ↦ elim (Bool-cases (is_scheduled d)) [
          | inl yes' ↦ ground (arith, on, seen, yes', runs w1)
          | inr no' ↦ ground (arith, on, seen, no')
        ]
        | inr off ↦ ground (arith, off, runs w)
      ]

  -- The processing of a batch whose candidates have no metadata, as those of a receive have none,
  -- gives no slot of a tenant other than the default one back, whatever becomes of its requests and also where it ends with
  -- an exception.
  pub process_batch-Keeps :
      (env : Environment) (messages : Dict String String) (batch_id : String)
      (batch : InferenceBatch)
      → All IsBare batch.candidates
      → Keeps (process_batch env messages batch_id batch)
  unfolding process_batch
  process_batch-Keeps env messages batch_id batch bare w = elim (Result-cases env.gpu_snapshots) [
    | inl (e, raises) ↦ elim (Bool-cases env.gpu_scheduling_enabled) [
      | inl on ↦ ground (arith, on, raises)
      | inr off ↦
          let runs =
            run_batch-Keeps env messages batch.model_name batch_id batch.candidates bare w in
          ground (arith, off, runs)
    ]
    | inr (devices, seen) ↦ observed-Keeps env messages batch_id batch devices bare seen w
  ]
