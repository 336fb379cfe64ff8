-- ===== src/Platform.antt =====
-- The gateway and the worker together: gateway/api.py publishes what core/worker.py takes from the
-- queue, over one result store. The text of a payload, by the JSON library, is an argument, and that
-- the worker reads the task back from it is a hypothesis.
use mathlib.Core.List.{mem-cons, not-mem-nil}
use mathlib.Core.Logic.Or
use mathlib.Core.Bool.{Bool-set}
use ai_inference_project.Common.{
  ◌≡◌, ◌⊎◌, refl, none, inl, inr, sym, subst, ap, ◌∙◌, String, true, false, Option, Option-cases,
  some, List, [], ◌∷◌, ◌++◌, map, All, Mem, truthy, string_key, beq_refl, arith, ok,
}
use ai_inference_project.Core.ResultStore
use ai_inference_project.Core.ResultStore.{InferenceResult, pending}
use ai_inference_project.Core.ResultStore.Laws.{get-put_self}
use ai_inference_project.Inference.Router.{RoutingDecision}
use ai_inference_project.Gateway.Api.{
  App, Submission, Gateway, QueuePayload, accepted, payload_of, pending_record, submit,
  get_inference_result,
}
use ai_inference_project.Gateway.Api.Laws.{Explains, submit_lem}
use ai_inference_project.Worker.{Worker}
use ai_inference_project.Worker.Batch.Outputs.{is_in}
use ai_inference_project.Worker.Messages.{RagTask, Message}
use ai_inference_project.Worker.Messages.Collect.{tasks, own_id}
use ai_inference_project.Worker.Loop.{Turn, run}
use ai_inference_project.Worker.Loop.Places.{taken, asked, IsServed, Places, is_in-append}
use ai_inference_project.Worker.Loop.Handles.{IsTerminal}
use ai_inference_project.Worker.Loop.Runs.{run-kept, run-done}

-- The task that `RAGTask(**payload)` makes of a payload; it has no field for the rest.
abbrev pub task_of : QueuePayload → RagTask
task_of p = record {
  prompt = p.prompt;
  context = p.context;
  event_type = p.event_type;
  event_id = some p.event_id;
  timestamp = some p.timestamp;
  priority = p.priority;
  requested_model = some p.requested_model;
}

module _ (encode : QueuePayload → String) (p : QueuePayload) where
  -- The turn takes a message with the payload, and the worker reads the payload's task from it.
  abbrev pub Takes : Turn → Type 0
  Takes t =
      (m : Message) × Mem m (taken t)
      × (m.body ≡ some (encode p))
      × (t.intake.parse (encode p) ≡ some (task_of p))

  -- A turn before the shutdown takes a message with the payload.
  abbrev pub IsDelivered : List Turn → Type 0
  IsDelivered [] = ⊥
  IsDelivered (t ∷ ts) = (t.stopping ≡ false) × (Takes t ⊎ IsDelivered ts)

  takes_id :
      (parse : String → Option RagTask) (ms : List Message) (m : Message)
      → truthy (some p.event_id) ≡ some p.event_id
      → Mem m ms
      → m.body ≡ some (encode p)
      → parse (encode p) ≡ some (task_of p)
      → is_in (map own_id (tasks parse ms)) p.event_id ≡ true
  takes_id parse [] m named e b r = absurd (not-mem-nil e)
  takes_id parse (n ∷ ms) m named e b r =
      Or.elim (Bool-set _ _) (mem-cons.0 e)
        (λ same.
          let body : n.body ≡ some (encode p) = ap (λ m. m.body) (sym same) ∙ b in
          ground (arith, body, r, named, beq_refl p.event_id))
        (λ later.
          let rest = takes_id parse ms m named later b r in
          elim (Option-cases n.body) [
            | inl no_body ↦ ground (arith, rest, no_body)
            | inr (body, has) ↦ elim (Option-cases (parse body)) [
              | inl bad ↦ ground (arith, rest, has, bad)
              | inr (task, good) ↦ ground (arith, rest, has, good)
            ]
          ])

  delivered_id :
      (turns : List Turn)
      → truthy (some p.event_id) ≡ some p.event_id
      → IsDelivered turns
      → is_in (asked turns) p.event_id ≡ true
  delivered_id [] named h = absurd h
  delivered_id (t ∷ ts) named (goes, inl (m, mem, body, reads)) =
      let found = takes_id t.intake.parse (taken t) m named mem body reads in
      let split =
        is_in-append (map own_id (tasks t.intake.parse (taken t))) (asked ts) p.event_id in
      ground (arith, goes, found, split)
  delivered_id (t ∷ ts) named (goes, inr later) =
      let found = delivered_id ts named later in
      let split =
        is_in-append (map own_id (tasks t.intake.parse (taken t))) (asked ts) p.event_id in
      ground (arith, goes, found, split)

-- A submission that is accepted under an id that is not empty is published, and its record is pending,
-- without a result or an error; and once a worker's main loop has taken its message in a turn before
-- the shutdown, all turns being served, and a scheduler that is on placing each sound batch of at most
-- the turn's tasks for a model of the router, the record of the request is terminal, whatever the
-- worker's store held for it and whatever other messages the turns took.
pub submit-run :
    (encode : QueuePayload → String) (app : App) (s : Submission) (g : Gateway) (at key : String)
    (d : RoutingDecision) (turns : List Turn) (w : Worker)
    → truthy (some s.request_id) ≡ some s.request_id
    → (submit app s g).0 ≡ accepted s.request_id at d key
    → All IsServed turns
    → All Places turns
    → IsDelivered encode (payload_of app s d) turns
    → let g' = (submit app s g).1 in
      (g'.published ≡ g.published ++ payload_of app s d ∷ [])
      × ((r : InferenceResult) × (get_inference_result g' s.request_id ≡ some r)
          × (r.request_id ≡ s.request_id)
          × (r.status ≡ pending)
          × (r.result ≡ none)
          × (r.error ≡ none))
      × ((run turns w).result ≡ ok tt)
      × ((r : InferenceResult) × (ResultStore.get (run turns w).after.result_store s.request_id
            ≡ some r)
          × IsTerminal r)
unfolding get_inference_result payload_of
submit-run encode app s g at key d turns w named answer served places delivered =
    let g' = (submit app s g).1 in
    let (_, _, published, stored, _) =
      subst (λ r. Explains app s g.published g.result_store g.audit (r, g')) answer
        (submit_lem app s g) in
    let returns = (run-kept turns w served).0 in
    let ends = run-done turns w served places s.request_id in
    let asks = delivered_id encode (payload_of app s d) turns named delivered in
    (
      published,
      (
        pending_record s d,
        ap (λ store. ResultStore.get store s.request_id) stored
            ∙ get-put_self (pending_record s d) g.result_store,
        refl,
        refl,
        refl,
        refl,
      ),
      returns,
      ends.settled asks,
    )
