-- ===== src/Worker/Messages/Collect.antt =====
-- The candidates that come out of the messages.
use mathlib.Core.List.{append-nil}
use ai_inference_project.Common.{
  ◌≡◌, ◌⊎◌, inl, inr, refl, sym, ap, ◌∙◌, String, Bool, true, false, Option, none, some,
  Option-cases, List, [], ◌∷◌, ◌++◌, map, All, All-append, truthy, get_or, beq_refl, subst,
  string_key, arith, ok,
}
use ai_inference_project.Common.Perms.{all, all-append}
use ai_inference_project.Common.Dict
use ai_inference_project.Common.Dict.{Dict, get-put}
use ai_inference_project.Inference.Batching.{BatchCandidate}
use ai_inference_project.Inference.Latency.{LatencyTracker}
use ai_inference_project.Inference.Router.{ModelRouter, InferenceRequest, RoutingDecision, route}
use ai_inference_project.Worker.{Worker}
use ai_inference_project.Worker.Actions.{Outcome, health_error}
use ai_inference_project.Worker.Batch.Outputs.{IsReady}
use ai_inference_project.Worker.Messages.{
  RagTask, Message, Intake, router_of, request_of, candidate_for, id_of, task_to_batch_candidate,
  normalize, collect_messages,
}

-- The candidate carries a timestamp text and its message is known.
abbrev pub is_ready : Dict String String → BatchCandidate → Bool
is_ready receipts c = elim c.raw_payload.timestamp [
  | some (some text) ↦ elim (Dict.get receipts c.request_id) [ none ↦ false | some _ ↦ true ]
  | _ ↦ false
]

pub is_ready-IsReady :
    (receipts : Dict String String) (c : BatchCandidate)
    → is_ready receipts c ≡ true
    → IsReady receipts c
is_ready-IsReady receipts c h = elim (Option-cases c.raw_payload.timestamp) [
  | inl e ↦ absurd (ground (arith, h, e))
  | inr (none, e) ↦ absurd (ground (arith, h, e))
  | inr (some text, e) ↦ elim (Option-cases (Dict.get receipts c.request_id)) [
    | inl g ↦ absurd (ground (arith, h, e, g))
    | inr (receipt, g) ↦ record { stamped = (text, e); delivered = (receipt, g) }
  ]
]

is_ready-put :
    (receipts : Dict String String) (id receipt : String) (c : BatchCandidate)
    → is_ready receipts c ≡ true
    → is_ready (Dict.put receipts id receipt) c ≡ true
is_ready-put receipts id receipt c h = ground (arith, h, get-put receipts id receipt c.request_id)

all_ready-put :
    (receipts : Dict String String) (id receipt : String) (cs : List BatchCandidate)
    → all (is_ready receipts) cs ≡ true
    → all (is_ready (Dict.put receipts id receipt)) cs ≡ true
all_ready-put receipts id receipt [] h = refl
all_ready-put receipts id receipt (c ∷ cs) h =
    rw
      (
        is_ready-put receipts id receipt c (ground (arith, h)),
        all_ready-put receipts id receipt cs (ground (arith, h)),
      )
      refl

-- The tasks of the messages whose bodies parse.
abbrev pub tasks : (String → Option RagTask) → List Message → List RagTask
tasks parse [] = []
tasks parse (m ∷ ms) = elim m.body [
  | none ↦ tasks parse ms
  | some body ↦ elim (parse body) [ none ↦ tasks parse ms | some task ↦ task ∷ tasks parse ms ]
]

-- The message has no task.
abbrev IsSkipped : (String → Option RagTask) → Message → Type 0
IsSkipped parse m = (m.body ≡ none) ⊎ ((body : String) × (m.body ≡ some body) × (parse body ≡ none))

tasks_skip :
    (parse : String → Option RagTask) (m : Message) (ms : List Message)
    → IsSkipped parse m
    → tasks parse (m ∷ ms) ≡ tasks parse ms
tasks_skip parse m ms (inl e) = ground (arith, e)
tasks_skip parse m ms (inr (body, e, g)) = ground (arith, e, g)

tasks_task :
    (parse : String → Option RagTask) (m : Message) (ms : List Message) (body : String)
    (task : RagTask)
    → m.body ≡ some body
    → parse body ≡ some task
    → tasks parse (m ∷ ms) ≡ task ∷ tasks parse ms
tasks_task parse m ms body task e g = ground (arith, e, g)

-- The request id that the task brings with it.
abbrev pub own_id : RagTask → String
own_id task = get_or (truthy task.event_id) ""

-- The task has an id that is not empty, and a timestamp, as those that the gateway publishes.
pub record IsAddressed (task : RagTask) : Type 0 where
  pub named : (id : String) × (truthy task.event_id ≡ some id)
  pub stamped : (text : String) × (task.timestamp ≡ some text)

-- The router answers every request, whatever the latencies.
abbrev pub AlwaysRoutes : ModelRouter → Type 0
AlwaysRoutes router =
    (tracker : LatencyTracker) (q : InferenceRequest)
    → (d : RoutingDecision) × (route (router_of router tracker) q ≡ ok d)

-- The router sends some request to the model, for some latencies.
pub record IsRouted (router : ModelRouter) (model : String) : Type 0 where
  pub tracker : LatencyTracker
  pub request : InferenceRequest
  pub decision : RoutingDecision
  pub routes : route (router_of router tracker) request ≡ ok decision
  pub chooses : decision.model_name ≡ model

module _ (intake : Intake) (routes : AlwaysRoutes intake.router) where
  normalize_task :
      (m : Message) (body : String) (task : RagTask) (w : Worker)
      → m.body ≡ some body
      → intake.parse body ≡ some task
      → IsAddressed task
      → (c : BatchCandidate) × ((normalize intake m w).result ≡ ok (some c))
        × ((normalize intake m w).after.result_store ≡ w.result_store)
        × (c.request_id ≡ own_id task)
        × (c.raw_payload.timestamp ≡ some task.timestamp)
        × IsRouted intake.router c.model_name
  unfolding normalize task_to_batch_candidate id_of
  normalize_task m body task w e g addressed =
      let (d, routed) = routes w.latency_tracker (request_of task) in
      let (id, named) = addressed.named in
      (
        candidate_for task d id,
        ground (arith, e, g, routed, named),
        ground (arith, e, g, routed, named),
        ground (arith, named),
        refl,
        record {
          tracker = w.latency_tracker;
          request = request_of task;
          decision = d;
          routes = routed;
          chooses = refl;
        },
      )

  normalize_skips :
      (m : Message) (w : Worker)
      → IsSkipped intake.parse m
      → ((normalize intake m w).result ≡ ok none)
        × ((normalize intake m w).after.result_store ≡ w.result_store)
  unfolding normalize health_error
  normalize_skips m w (inl e) = (ground (arith, e), ground (arith, e))
  normalize_skips m w (inr (body, e, g)) = (ground (arith, e, g), ground (arith, e, g))

  -- What the loop over the messages returns: every candidate is ready, and their ids are those of
  -- the tasks, in order.
  abbrev pub Collects :
      List Message
      → List BatchCandidate
      → Worker
      → Outcome (List BatchCandidate × Dict String String)
      → Type 0
  Collects ms cs w o =
      (cs' : List BatchCandidate) × (receipts : Dict String String) × (o.result
        ≡ ok (cs', receipts))
      × (o.after.result_store ≡ w.result_store)
      × (all (is_ready receipts) cs' ≡ true)
      × All (λ c. IsRouted intake.router c.model_name) cs'
      × (map (λ c. c.request_id) cs'
          ≡ map (λ c. c.request_id) cs ++ map own_id (tasks intake.parse ms))

  collect_skip :
      (m : Message) (ms : List Message) (cs : List BatchCandidate) (receipts : Dict String String)
      (w : Worker)
      → IsSkipped intake.parse m
      → Collects ms cs
          (normalize intake m w).after
          (collect_messages intake ms cs receipts (normalize intake m w).after)
      → Collects (m ∷ ms) cs w (collect_messages intake (m ∷ ms) cs receipts w)
  unfolding collect_messages
  collect_skip m ms cs receipts w skips (cs', receipts', returns, stored, all', sent, ids) =
      let (skipped, same) = normalize_skips m w skips in
      (
        cs',
        receipts',
        ground (arith, skipped, returns),
        ground (arith, skipped, stored, same),
        all',
        sent,
        ids
            ∙ ap (λ ts. map (λ c. c.request_id) cs ++ map own_id ts)
                (sym (tasks_skip intake.parse m ms skips)),
      )

  ids_shift :
      (cs : List BatchCandidate) (c : BatchCandidate) (ys : List String)
      → map (λ c. c.request_id) (cs ++ c ∷ []) ++ ys
        ≡ map (λ c. c.request_id) cs ++ c.request_id ∷ ys
  ids_shift [] c ys = refl
  ids_shift (d ∷ cs) c ys = ap (λ zs. d.request_id ∷ zs) (ids_shift cs c ys)

  ready_more :
      (receipts : Dict String String) (cs : List BatchCandidate) (c : BatchCandidate)
      (receipt text : String)
      → all (is_ready receipts) cs ≡ true
      → c.raw_payload.timestamp ≡ some (some text)
      → all (is_ready (Dict.put receipts c.request_id receipt)) (cs ++ c ∷ []) ≡ true
  ready_more receipts cs c receipt text ready stamped =
      let more = Dict.put receipts c.request_id receipt in
      ground (
        arith,
        all-append (is_ready more) cs (c ∷ []),
        all_ready-put receipts c.request_id receipt cs ready,
        stamped,
        get-put receipts c.request_id receipt c.request_id,
        beq_refl c.request_id,
      )

  -- The loop over the messages never raises: it skips the messages without a task, and makes of each
  -- task a candidate that carries its timestamp, for a model of the router, and whose message is known.
  pub collect_messages_lem :
      (ms : List Message) (cs : List BatchCandidate) (receipts : Dict String String) (w : Worker)
      → All IsAddressed (tasks intake.parse ms)
      → all (is_ready receipts) cs ≡ true
      → All (λ c. IsRouted intake.router c.model_name) cs
      → Collects ms cs w (collect_messages intake ms cs receipts w)
  unfolding collect_messages
  collect_messages_lem [] cs receipts w h ready sent =
      (cs, receipts, refl, refl, ready, sent, sym (append-nil _))
  collect_messages_lem (m ∷ ms) cs receipts w h ready sent =
      let after = (normalize intake m w).after in
      let skip = λ (skips : IsSkipped intake.parse m). collect_skip m ms cs receipts w skips (
        collect_messages_lem ms cs receipts after
          (subst (All IsAddressed) (tasks_skip intake.parse m ms skips) h) ready sent) in
      elim (Option-cases m.body) [
        | inl e ↦ skip (inl e)
        | inr (body, e) ↦ elim (Option-cases (intake.parse body)) [
          | inl g ↦ skip (inr (body, e, g))
          | inr (task, g) ↦
              let split = tasks_task intake.parse m ms body task e g in
              let both = subst (All IsAddressed) split h in
              let (c, found, same, named, stamped, chosen) =
                normalize_task m body task w e g both.0 in
              let (text, has_text) = both.0.stamped in
              let more = Dict.put receipts c.request_id m.receipt_handle in
              let (cs', receipts', returns, stored, all', sent', ids) =
                collect_messages_lem ms (cs ++ c ∷ []) more after both.1
                  (ready_more receipts cs c m.receipt_handle text ready
                    (stamped ∙ ap some has_text))
                  (All-append (λ c. IsRouted intake.router c.model_name) cs (c ∷ []) sent
                    (chosen, tt)) in
              (
                cs',
                receipts',
                ground (arith, found, returns),
                ground (arith, found, stored, same),
                all',
                sent',
                ids
                    ∙ ids_shift cs c (map own_id (tasks intake.parse ms))
                    ∙ ap
                        (λ id.
                          map (λ c. c.request_id) cs ++ id ∷ map own_id (tasks intake.parse ms))
                        named
                    ∙ ap (λ ts. map (λ c. c.request_id) cs ++ map own_id ts) (sym split),
              )
        ]
      ]
