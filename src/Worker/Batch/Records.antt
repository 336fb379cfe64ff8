-- ===== src/Worker/Batch/Records.antt =====
-- How a step changes the stored record of one request, and how the requests of a batch may end.
use ai_inference_project.Common.{
  ℕ, ◌≡◌, ◌⊎◌, inl, inr, refl, sym, ap, ◌∙◌, subst, String, Bool, true, false, Bool-cases, ◌||◌,
  Option, none, some, List, Mem, if◌then◌else◌, ◌==◌, string_key, truthy, get_or, arith, ok,
}
use ai_inference_project.Core.ResultStore.{InferenceResult, ResultStore, completed, failed}
use ai_inference_project.Core.ResultStore
use ai_inference_project.Core.ResultStore.Laws.{get-put_lem}
use ai_inference_project.Core.Ttl.{is_expired}
use ai_inference_project.Inference.Adapter.{InferenceInput, InferenceOutput, success}
use ai_inference_project.Worker.Batch.{Environment}

-- From `before` to `after`, the record of a request: one with `P` where the request is hit, and
-- otherwise the same, or none, as before.
pub record Settles (P : InferenceResult → Type 0) (hit : Bool)
    (before after : Option InferenceResult) : Type 0 where
  pub settled : hit ≡ true → (r : InferenceResult) × (after ≡ some r) × P r
  pub kept : hit ≡ false → after ≡ before

module _ {P : InferenceResult → Type 0} where
  pub Settles-refl : (a : Option InferenceResult) → Settles P false a a
  Settles-refl a = record { settled = λ e. absurd (ground (arith, e)); kept = λ e. refl }

  -- A later step overwrites what an earlier one left.
  pub Settles-then :
      {h k : Bool} {a b c : Option InferenceResult}
      → Settles P h a b
      → Settles P k b c
      → Settles P (h || k) a c
  Settles-then {h} {k} {a} {b} {c} first later = record {
    settled = λ e. elim (Bool-cases k) [
      | inl on ↦ later.settled on
      | inr off ↦
          let (r, found, p) = first.settled (ground (arith, e, off)) in
          (r, later.kept off ∙ found, p)
    ];
    kept = λ e. later.kept (ground (arith, e)) ∙ first.kept (ground (arith, e));
  }

  -- What an earlier step left does not matter where a later one hits the same requests.
  pub Settles-over :
      {Q : InferenceResult → Type 0} {h : Bool} {a b c : Option InferenceResult}
      → Settles Q h a b
      → Settles P h b c
      → Settles P h a c
  Settles-over first later = record {
    settled = later.settled;
    kept = λ e. later.kept e ∙ first.kept e;
  }

  pub Settles-map :
      {Q : InferenceResult → Type 0} {h : Bool} {a b : Option InferenceResult}
      → ((r : InferenceResult) → P r → Q r)
      → Settles P h a b
      → Settles Q h a b
  Settles-map f s = record {
    settled = λ e. let (r, found, p) = s.settled e in (r, found, f r p);
    kept = s.kept;
  }

  -- A write of a record for the request `id`, followed by no other.
  pub Settles-put :
      (r : InferenceResult) (id : String) (before after : ResultStore) (x : String)
      → after ≡ ResultStore.put r before
      → r.request_id ≡ id
      → P r
      → Settles P (id == x) (ResultStore.get before x) (ResultStore.get after x)
  Settles-put r id before after x stored own p =
      let read =
        ap (λ s. ResultStore.get s x) stored
        ∙ get-put_lem r before x
        ∙ ap (λ i. if i == x then some r else ResultStore.get before x) own in
      record { settled = λ e. (r, ground (arith, read, e), p); kept = λ e. ground (arith, read, e) }

  pub Settles-hit :
      {h k : Bool} {a b : Option InferenceResult} → h ≡ k → Settles P h a b → Settles P k a b
  Settles-hit {h} {k} {a} {b} e s = subst (λ h. Settles P h a b) e s

  pub Settles-at :
      {h : Bool} {a b c : Option InferenceResult} → c ≡ b → Settles P h a b → Settles P h a c
  Settles-at {h} {a} {b} {c} e s = subst (Settles P h a) (sym e) s

  pub Settles-from :
      {h : Bool} {a b c : Option InferenceResult} → b ≡ a → Settles P h b c → Settles P h a c
  Settles-from {h} {a} {b} {c} e s = subst (λ a. Settles P h a c) e s

module _ (env : Environment) (model : String) where
  -- The output stands in an answer of the model server.
  pub record IsAnswer (o : InferenceOutput) : Type 0 where
    pub inputs : List InferenceInput
    pub outputs : List InferenceOutput
    pub called : env.infer_batch model inputs ≡ ok outputs
    pub given : Mem o outputs

  -- The record that an output of the model server leaves: a success keeps the text, a failure the
  -- error.
  pub record Reports (r : InferenceResult) (o : InferenceOutput) : Type 0 where
    pub own : o.request_id ≡ r.request_id
    pub success_ends :
        success o ≡ true → (r.status ≡ completed) × (r.result ≡ o.text) × (r.error ≡ none)
    pub failure_ends :
        success o ≡ false
        → (r.status ≡ failed)
          × (r.result ≡ none)
          × (r.error ≡ some (get_or (truthy o.error) "Inference failed"))

  -- The record of a request that is not served, with the given error.
  pub record IsTurnedAway (error : String) (r : InferenceResult) : Type 0 where
    pub fails : r.status ≡ failed
    pub no_result : r.result ≡ none
    pub because : r.error ≡ some error

  -- The record of a request of a batch at its end: where the circuit breaker is shut, it is refused;
  -- otherwise it has expired at a reading of the clock, or the model server answered it.
  abbrev pub IsEnded : (shut : Bool) → InferenceResult → Type 0
  IsEnded shut r =
      (r.model_name ≡ some model)
      × (((shut ≡ true) × IsTurnedAway "Circuit breaker open — downstream unavailable" r)
          ⊎ ((shut ≡ false)
              × ((IsTurnedAway env.expiry_error r
                    × (instant : ℕ) × (is_expired env.calendar env.max_age instant
                          (some r.accepted_at)
                        ≡ true))
                  ⊎ ((o : InferenceOutput) × IsAnswer o × Reports r o))))
