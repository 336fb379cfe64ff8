-- ===== src/Worker/Single/Retries.antt =====
-- How the retries of a single message end.
use ai_inference_project.Common.{
  ℕ, zero, suc, ◌+◌, ◌<◌, ◌≡◌, ◌⊎◌, inl, inr, refl, sym, ap, subst, ◌∙◌, String, Option, none, some,
  arith, Result, ok, raised, Result-cases, Exception,
}
use ai_inference_project.Inference.Router.{ModelRouter, RoutingDecision, route}
use ai_inference_project.Worker.{Worker, WorkerHealth, record_success, record_error}
use ai_inference_project.Worker.Actions.{Outcome, health_success, health_error}
use ai_inference_project.Worker.Messages.{RagTask, router_of, request_of}
use ai_inference_project.Worker.Single.{
  Completions, settle, attempts, routed_answer, attempts_with, perform_inference,
  perform_inference_with_model,
}

-- A health record after `n` errors.
abbrev pub after_errors : ℕ → WorkerHealth → WorkerHealth
after_errors zero h = h
after_errors (suc n) h = after_errors n (record_error h)

-- Attempt number `attempt` of the answers `answer` raises.
abbrev pub Fails : (ℕ → Result (Option String)) → ℕ → Type 0
Fails answer attempt = (e : Exception) × (answer attempt ≡ raised e)

-- How `n` attempts from number `attempt` on end: at the first answer that is not an exception, after
-- an error for each attempt before it, or with an error for each.
abbrev pub Ends :
    (ℕ → Result (Option String)) → (attempt n : ℕ) → Worker → Outcome (Option String) → Type 0
Ends answer attempt n w o =
    ((k : ℕ) × (text : Option String) × (k < n)
      × ((j : ℕ) → j < k → Fails answer (attempt + j))
      × (answer (attempt + k) ≡ ok text)
      × (o.result ≡ ok text)
      × (o.after ≡ record w { health = record_success (after_errors k w.health) }))
    ⊎ (((j : ℕ) → j < n → Fails answer (attempt + j))
        × (o.result ≡ ok none)
        × (o.after ≡ record w { health = after_errors n w.health }))

-- The loop over the attempts, with answers that do not depend on the state.
module _ (answer : ℕ → Result (Option String)) where
  unfoldable pub looped : (attempt left : ℕ) → Worker → Outcome (Option String)
  looped attempt zero w = record { result = ok none; after = w }
  looped attempt (suc left) w =
      let retry = looped (attempt + 1) left in settle (answer attempt) retry w

  shift : (attempt j : ℕ) → attempt + 1 + j ≡ attempt + suc j
  shift attempt j = omega arith

  below :
      (attempt k : ℕ)
      → Fails answer attempt
      → ((j : ℕ) → j < k → Fails answer (attempt + 1 + j))
      → (j : ℕ) → j < suc k
      → Fails answer (attempt + j)
  below attempt k first rest zero h = let (e, raises) = first in (e, ground (arith, raises))
  below attempt k first rest (suc j) h =
      let (e, raises) = rest j (omega (arith, h)) in
      (e, subst (λ i. answer i ≡ raised e) (shift attempt j) raises)

  looped_lem : (attempt n : ℕ) (w : Worker) → Ends answer attempt n w (looped attempt n w)
  unfolding looped health_success health_error
  looped_lem attempt zero w = inr (λ j h. absurd (omega (arith, h)), refl, refl)
  looped_lem attempt (suc n) w = elim (Result-cases (answer attempt)) [
    | inr (text, answers) ↦ inl (
      0,
      text,
      omega arith,
      λ j h. absurd (omega (arith, h)),
      ground (arith, answers),
      ground (arith, answers),
      ground (arith, answers),
    )
    | inl (e, raises) ↦
        elim (looped_lem (attempt + 1) n (record w { health = record_error w.health })) [
          | inl (k, text, within, fails, answers, returns, same) ↦ inl (
            suc k,
            text,
            omega (arith, within),
            below attempt k (e, raises) fails,
            ground (arith, answers),
            ground (arith, raises, returns),
            ground (arith, raises, same),
          )
          | inr (fails, returns, same) ↦ inr (
            below attempt n (e, raises) fails,
            ground (arith, raises, returns),
            ground (arith, raises, same),
          )
        ]
  ]

attempts-looped :
    (create : Completions) (router : ModelRouter) (task : RagTask) (attempt n : ℕ) (w : Worker)
    → attempts create router task attempt n w
      ≡ looped (routed_answer create (router_of router w.latency_tracker) task) attempt n w
unfolding attempts looped health_success health_error
attempts-looped create router task attempt zero w = refl
attempts-looped create router task attempt (suc n) w =
    let answer = routed_answer create (router_of router w.latency_tracker) task in
    elim (Result-cases (answer attempt)) [
      | inr (text, answers) ↦ ground (arith, answers)
      | inl (e, raises) ↦ ground (
        arith,
        raises,
        attempts-looped create router task (attempt + 1) n
            (record w { health = record_error w.health }),
      )
    ]

attempts_with-looped :
    (create : Completions) (model : String) (task : RagTask) (attempt n : ℕ) (w : Worker)
    → attempts_with create model task attempt n w ≡ looped (λ a. create a model task) attempt n w
unfolding attempts_with looped health_success health_error
attempts_with-looped create model task attempt zero w = refl
attempts_with-looped create model task attempt (suc n) w =
    elim (Result-cases (create attempt model task)) [
      | inr (text, answers) ↦ ground (arith, answers)
      | inl (e, raises) ↦ ground (
        arith,
        raises,
        attempts_with-looped create model task (attempt + 1) n
            (record w { health = record_error w.health }),
      )
    ]

-- Inference of a single task gives what the model server answers to the first attempt that raises no
-- exception, with one error counted for each attempt before it and one success, or nothing, with one
-- error for each attempt, when every attempt raises one; it changes nothing else of the worker.
pub perform_inference-Ends :
    (max_retries : ℕ) (create : Completions) (router : ModelRouter) (task : RagTask) (w : Worker)
    → Ends
        (routed_answer create (router_of router w.latency_tracker) task)
        0
        max_retries
        w
        (perform_inference max_retries (some create) router task w)
unfolding perform_inference
perform_inference-Ends max_retries create router task w =
    let answer = routed_answer create (router_of router w.latency_tracker) task in
    subst (Ends answer 0 max_retries w) (sym (attempts-looped create router task 0 max_retries w))
      (looped_lem answer 0 max_retries w)

routed_answer-of_decision :
    (create : Completions) (router : ModelRouter) (task : RagTask) (d : RoutingDecision)
    → route router (request_of task) ≡ ok d
    → routed_answer create router task ≡ (λ a. create a d.model_name task)
unfolding routed_answer
routed_answer-of_decision create router task d routed = λ i a.
    (let same : routed_answer create router task a ≡ create a d.model_name task =
          ground (arith, routed) in
        same)
      i

-- With the model that the router chooses for the task, inference with a preselected model does what
-- inference with routing in every attempt does, with a client or without one.
pub perform_inference_with_model-perform_inference :
    (max_retries : ℕ) (client : Option Completions) (router : ModelRouter) (task : RagTask)
    (w : Worker) (d : RoutingDecision)
    → route (router_of router w.latency_tracker) (request_of task) ≡ ok d
    → perform_inference_with_model max_retries client task d.model_name w
      ≡ perform_inference max_retries client router task w
unfolding perform_inference_with_model perform_inference
perform_inference_with_model-perform_inference max_retries none router task w d routed = refl
perform_inference_with_model-perform_inference max_retries (some create) router task w d routed =
    attempts_with-looped create d.model_name task 0 max_retries w
    ∙ ap (λ answer. looped answer 0 max_retries w)
        (sym (routed_answer-of_decision create (router_of router w.latency_tracker) task d routed))
    ∙ sym (attempts-looped create router task 0 max_retries w)
