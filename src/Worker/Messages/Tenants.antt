-- ===== src/Worker/Messages/Tenants.antt =====
-- What a receive gives back to the tenants.
use ai_inference_project.Common.{
  ℕ, suc, ◌≡◌, refl, ap, ◌∙◌, String, Bool, true, false, inl, inr, Option-cases, none, some, List,
  [], ◌∷◌, ◌++◌, All, ◌==◌, string_key, arith, Result-cases, ok,
}
use ai_inference_project.Common.Perms.{all, all-append, all-perm}
use ai_inference_project.Common.Dict
use ai_inference_project.Common.Dict.{Dict}
use ai_inference_project.Inference.Batching.{BatchCandidate, InferenceBatch}
use ai_inference_project.Inference.Batching.Split.{flat}
use ai_inference_project.Inference.Batching.Split as Split
use ai_inference_project.Inference.Batching.Laws.{build_batches_lem}
use ai_inference_project.Worker.{Worker}
use ai_inference_project.Worker.Actions.{now, health_error}
use ai_inference_project.Worker.Batch.{process_batch}
use ai_inference_project.Worker.Batch.Tenants.{held, IsBare, Keeps, process_batch-Keeps}
use ai_inference_project.Worker.Messages.{
  Message, Intake, id_of, task_to_batch_candidate, normalize, collect_messages, run_batches,
  run_candidates, process_messages,
}

abbrev is_bare : BatchCandidate → Bool
is_bare c = elim c.raw_payload.metadata [ none ↦ true | some metadata ↦ false ]

all-IsBare : (cs : List BatchCandidate) → all is_bare cs ≡ true → All IsBare cs
all-IsBare [] h = tt
all-IsBare (c ∷ cs) h = (ground (arith, h), all-IsBare cs (ground (arith, h)))

module _ (intake : Intake) where
  normalize-engine :
      (m : Message) (w : Worker) → (normalize intake m w).after.tenant_engine ≡ w.tenant_engine
  unfolding normalize task_to_batch_candidate id_of now health_error
  normalize-engine m w = ground arith

  normalize-bare :
      (m : Message) (w : Worker) (c : BatchCandidate)
      → (normalize intake m w).result ≡ ok (some c)
      → is_bare c ≡ true
  unfolding normalize task_to_batch_candidate id_of now health_error
  normalize-bare m w c h = ground (arith, h)

  collect-engine :
      (ms : List Message) (cs : List BatchCandidate) (receipts : Dict String String) (w : Worker)
      → (collect_messages intake ms cs receipts w).after.tenant_engine ≡ w.tenant_engine
  unfolding collect_messages
  collect-engine [] cs receipts w = refl
  collect-engine (m ∷ ms) cs receipts w =
      let o = normalize intake m w in
      let first = normalize-engine m w in
      elim (Result-cases o.result) [
        | inl (e, raises) ↦ ground (arith, raises, first)
        | inr (found, finds) ↦ elim (Option-cases found) [
          | inl off ↦
              let rest = collect-engine ms cs receipts o.after in
              ground (arith, finds, off, first, rest)
          | inr (c, on) ↦
              let rest =
                collect-engine ms (cs ++ c ∷ []) (Dict.put receipts c.request_id m.receipt_handle)
                  o.after in
              ground (arith, finds, on, first, rest)
        ]
      ]

  collect-bare :
      (ms : List Message) (cs cs' : List BatchCandidate) (receipts receipts' : Dict String String)
      (w : Worker)
      → all is_bare cs ≡ true
      → (collect_messages intake ms cs receipts w).result ≡ ok (cs', receipts')
      → all is_bare cs' ≡ true
  unfolding collect_messages
  collect-bare [] cs cs' receipts receipts' w bare h = ground (arith, bare, h)
  collect-bare (m ∷ ms) cs cs' receipts receipts' w bare h =
      let o = normalize intake m w in
      elim (Result-cases o.result) [
        | inl (e, raises) ↦ absurd (ground (arith, raises, h))
        | inr (found, finds) ↦ elim (Option-cases found) [
          | inl off ↦
              collect-bare ms cs cs' receipts receipts' o.after bare (ground (arith, h, finds, off))
          | inr (c, on) ↦
              let one = normalize-bare m w c (finds ∙ ap ok on) in
              let more = all-append is_bare cs (c ∷ []) in
              collect-bare ms (cs ++ c ∷ []) cs' (Dict.put receipts c.request_id m.receipt_handle)
                receipts' o.after (ground (arith, bare, one, more)) (ground (arith, h, finds, on))
        ]
      ]

  module _ (a : String) (named : ("__default__" == a) ≡ false) where
    run_batches-Keeps :
        (receipts : Dict String String) (index : ℕ) (bs : List InferenceBatch)
        → all is_bare (flat bs) ≡ true
        → Keeps a named (run_batches intake receipts index bs)
    unfolding run_batches flat
    run_batches-Keeps receipts index [] bare w = refl
    run_batches-Keeps receipts index (b ∷ bs) bare w =
        let both = all-append is_bare b.candidates (flat bs) in
        let o = process_batch intake.env receipts (intake.batch_id index) b w in
        let first =
          process_batch-Keeps a named intake.env receipts (intake.batch_id index) b
            (all-IsBare b.candidates (ground (arith, both, bare))) w in
        let rest = run_batches-Keeps receipts (suc index) bs (ground (arith, both, bare)) o.after in
        ground (arith, first, rest)

    run_candidates-Keeps :
        (cs : List BatchCandidate) (receipts : Dict String String)
        → Split.IsValid intake.policy
        → intake.policy.allow_single_item_batches ≡ true
        → all is_bare cs ≡ true
        → Keeps a named (run_candidates intake (cs, receipts))
    unfolding run_candidates
    run_candidates-Keeps [] receipts valid single bare w = refl
    run_candidates-Keeps (c ∷ cs) receipts valid single bare w =
        let (bs, built, perm, _) = build_batches_lem intake.policy (c ∷ cs) valid single in
        let batches = all-perm is_bare perm ∙ bare in
        rw (built, run_candidates) (run_batches-Keeps receipts 0 bs batches w)

    -- With a valid policy that allows batches of one request, processing a receive gives no slot of a
    -- tenant other than the default one back, whatever the messages are and whatever the model server
    -- answers, and also where it ends with an exception: the candidates carry no metadata, so that only
    -- the default tenant is released.
    pub process_messages-held :
        (messages : List Message) (w : Worker)
        → Split.IsValid intake.policy
        → intake.policy.allow_single_item_batches ≡ true
        → held (process_messages intake messages w).after.tenant_engine a ≡ held w.tenant_engine a
    unfolding process_messages
    process_messages-held messages w valid single =
        let o = collect_messages intake messages [] [] w in
        let first = collect-engine messages [] [] w in
        elim (Result-cases o.result) [
          | inl (e, raises) ↦ ground (arith, raises, first)
          | inr ((cs, receipts), collects) ↦
              let rest =
                run_candidates-Keeps cs receipts valid single
                  (collect-bare messages [] cs [] receipts w refl collects) o.after in
              ground (arith, collects, first, rest)
        ]
