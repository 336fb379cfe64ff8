-- ===== src/Worker/Loop/Runs.antt =====
-- What the turns of the main loop do to the stored requests.

use ai_inference_project.Common.{
  ◌≤◌, length, ◌≡◌, ◌⊎◌, subst, List-cases, inl, inr, refl, sym, ap, ◌∙◌, String, Bool, true, false,
  Bool-cases, ◌||◌, List, [], ◌∷◌, map, All, Exception, string_key, arith, ok, Result-cases,
}
use ai_inference_project.Common.Perms.{length-perm, length-map}
use ai_inference_project.Gateway.Auth.{lowers_to}
use ai_inference_project.Inference.Batching.Split.{flat}
use ai_inference_project.Worker.{Worker}
use ai_inference_project.Worker.Actions.{Action, Outcome, health_error}
use mathlib.Core.List.Perm
use ai_inference_project.Core.ResultStore
use ai_inference_project.Core.ResultStore.{InferenceResult}
use ai_inference_project.Worker.Batch.Records.{Settles, Settles-map, Settles-hit}
use ai_inference_project.Worker.Batch.Outputs.{has_id, is_in}
use ai_inference_project.Worker.Messages.{Message, process_messages}
use ai_inference_project.Worker.Messages.Collect.{tasks, own_id, IsAddressed}
use ai_inference_project.Worker.Messages.Done.{placed, process_messages-done}
use ai_inference_project.Worker.Loop.{
  Parameter, value, client_error, failure, Turn, check_kill_switch, handle, receive, try_turn,
  guarded, run,
}
use ai_inference_project.Worker.Loop.Places.{
  taken, asked, IsServed, Places, is_in-append, placed-All, has_id-perm, placed_within,
}
use ai_inference_project.Worker.Loop.Handles.{
  IsTerminal, ended_IsTerminal, HandlesAll, Handles-none, Handles-then, Handles-map, Handles-at,
}

-- The requests of the messages are handled, and the others are what they were.
process_messages-asked :
    (t : Turn) (ms : List Message) (w : Worker)
    → IsServed t
    → taken t ≡ ms
    → let o = process_messages t.intake ms w in
      (b : Bool) × (o.result ≡ ok b)
      × HandlesAll (Places t) (map own_id (tasks t.intake.parse ms)) w o.after
process_messages-asked t ms w h same =
    let (cs, bs, b, returns, ids, sent, perm, sound, ends) =
      process_messages-done t.intake h.up ms w h.routes h.policy h.single
        (subst (λ ms. All IsAddressed (tasks t.intake.parse ms)) same h.addressed) in
    let few : length (flat bs) ≤ length (tasks t.intake.parse (taken t)) =
      let counted = ap length ids in
      let named = length-map (λ c. c.request_id) cs in
      let owned = length-map own_id (tasks t.intake.parse ms) in
      let turned = ap (λ ms. length (tasks t.intake.parse ms)) same in
      omega (arith, length-perm perm, counted, named, owned, turned) in
    (
      b,
      returns,
      λ x.
          let all' = has_id-perm perm x ∙ ap (λ ids. is_in ids x) ids in
          record {
            hit = has_id (placed t.intake.env bs) x;
            within = λ e. sym all' ∙ placed_within t.intake.env bs x e;
            sure = λ places.
                ap (λ cs. has_id cs x)
                  (placed-All t places cs bs sound sent (λ c m. (Perm.mem_iff perm).0 m) few)
                ∙ all';
            settles = Settles-map (ended_IsTerminal t.intake.env) (ends x);
          },
    )

-- How a turn ends: with no exception, and with the requests `ids` handled and the others kept.
abbrev Leaves : Type 0 → List String → Worker → Outcome (Unit {0}) → Type 0
Leaves Sure ids w o = (o.result ≡ ok tt) × HandlesAll Sure ids w o.after

Leaves-none :
    {S : Type 0} (ids : List String) (w : Worker) (o : Outcome (Unit {0}))
    → o.result ≡ ok tt
    → o.after.result_store ≡ w.result_store
    → ids ≡ []
    → Leaves S ids w o
Leaves-none {S} ids w o returns same none' = (
  returns,
  λ x. Handles-none (ap (λ ids. is_in ids x) none') (ap (λ s. ResultStore.get s x) same),
)

-- A turn that polls the queue.
module _ (t : Turn) (w : Worker) (text : String) (on : t.switch ≡ value text)
    (allowed : lowers_to text "true" ≡ true) where
  polled_lem :
      IsServed t
      → Leaves (Places t) (map own_id (tasks t.intake.parse (taken t))) w (guarded (try_turn t) w)
  unfolding guarded try_turn check_kill_switch receive handle health_error
  polled_lem h =
      let o = guarded (try_turn t) w in
      let ids = map own_id (tasks t.intake.parse (taken t)) in
      elim (Result-cases t.received) [
        | inl (e, raises) ↦
            Leaves-none ids w o (ground (arith, on, allowed, raises))
              (ground (arith, on, allowed, raises)) (ground (arith, on, allowed, raises))
        | inr (ms, got) ↦ elim (Bool-cases t.stopping_late) [
          | inl late ↦
              Leaves-none ids w o (ground (arith, on, allowed, got, late))
                (ground (arith, on, allowed, got, late)) (ground (arith, on, allowed, got, late))
          | inr runs ↦ elim (List-cases ms) [
            | inl empty ↦
                Leaves-none ids w o (ground (arith, on, allowed, got, runs, empty))
                  (ground (arith, on, allowed, got, runs, empty))
                  (ground (arith, on, allowed, got, runs, empty))
            | inr (m, rest, some') ↦
                let same : taken t ≡ m ∷ rest = ground (arith, on, allowed, got, runs, some') in
                let (b, returns, ends) = process_messages-asked t (m ∷ rest) w h same in
                (
                  ground (arith, on, allowed, got, runs, some', returns),
                  λ x.
                      Handles-map (λ p. p)
                        (ap (λ ms. is_in (map own_id (tasks t.intake.parse ms)) x) (sym same))
                        (Handles-at (ground (arith, on, allowed, got, runs, some', returns))
                          (ends x)),
                )
          ]
        ]
      ]

Parameter-cases :
    (p : Parameter)
    → ((text : String) × (p ≡ value text))
      ⊎ ((p ≡ client_error) ⊎ ((e : Exception) × (p ≡ failure e)))
Parameter-cases (value text) = inl (text, refl)
Parameter-cases client_error = inr (inl refl)
Parameter-cases (failure e) = inr (inr (e, refl))

turn_lem :
    (t : Turn) (w : Worker)
    → IsServed t
    → Leaves (Places t) (map own_id (tasks t.intake.parse (taken t))) w (guarded (try_turn t) w)
unfolding guarded try_turn check_kill_switch health_error
turn_lem t w h =
    let o = guarded (try_turn t) w in
    let ids = map own_id (tasks t.intake.parse (taken t)) in
    elim (Parameter-cases t.switch) [
      | inl (text, on) ↦ elim (Bool-cases (lowers_to text "true")) [
        | inl allowed ↦ polled_lem t w text on allowed h
        | inr off ↦
            Leaves-none ids w o (ground (arith, on, off)) (ground (arith, on, off))
              (ground (arith, on, off))
      ]
      | inr (inl on) ↦
          Leaves-none ids w o (ground (arith, on)) (ground (arith, on)) (ground (arith, on))
      | inr (inr (e, on)) ↦
          Leaves-none ids w o (ground (arith, on)) (ground (arith, on)) (ground (arith, on))
    ]

run_lem :
    (turns : List Turn) (w : Worker)
    → All IsServed turns
    → ((run turns w).result ≡ ok tt)
      × HandlesAll (All Places turns) (asked turns) w (run turns w).after
unfolding run
run_lem [] w h = (refl, λ x. Handles-none refl refl)
run_lem (t ∷ ts) w h = elim (Bool-cases t.stopping) [
  | inl stops ↦
      (ground (arith, stops), λ x. Handles-none (ground (arith, stops)) (ground (arith, stops)))
  | inr goes ↦
      let (returns, ends) = turn_lem t w h.0 in
      let (rest, later) = run_lem ts (guarded (try_turn t) w).after h.1 in
      let ids = map own_id (tasks t.intake.parse (taken t)) in
      (
        ground (arith, goes, returns, rest),
        λ x.
            let joined = is_in-append ids (asked ts) x in
            Handles-map {h = is_in ids x || is_in (asked ts) x} (λ p. p)
              (ground (arith, goes, joined))
              (Handles-at (ground (arith, goes, returns)) (Handles-then (ends x) (later x))),
      )
]

-- While every turn is served, the main loop ends without an exception, and changes the record of no
-- request but of those whose messages were received by the turns before the shutdown, with the switch
-- on; where it changes the record of one of those, a terminal record is left.
pub run-kept :
    (turns : List Turn) (w : Worker)
    → All IsServed turns
    → ((run turns w).result ≡ ok tt)
      × ((x : String)
          → (hit : Bool) × (hit ≡ true → is_in (asked turns) x ≡ true)
            × Settles IsTerminal hit
                (ResultStore.get w.result_store x)
                (ResultStore.get (run turns w).after.result_store x))
run-kept turns w h =
    let (returns, ends) = run_lem turns w h in
    (returns, λ x. let e = ends x in (e.hit, e.within, e.settles))

-- While every turn is served, and the scheduler, where it is on, places each sound batch of at most
-- the turn's tasks for a model of the router, all requests whose messages were received by the turns
-- before the shutdown, with the switch on, have terminal records after the main loop, and the records
-- of all others are what they were.
pub run-done :
    (turns : List Turn) (w : Worker)
    → All IsServed turns
    → All Places turns
    → (x : String)
    → Settles IsTerminal
        (is_in (asked turns) x)
        (ResultStore.get w.result_store x)
        (ResultStore.get (run turns w).after.result_store x)
run-done turns w h places x =
    let e = (run_lem turns w h).1 x in Settles-hit (e.sure places) e.settles

guarded_ok : (act : Action (Unit {0})) (w : Worker) → (guarded act w).result ≡ ok tt
unfolding guarded health_error
guarded_ok act w = elim (Result-cases (act w).result) [
  | inl (e, raises) ↦ ground (arith, raises)
  | inr (u, returns) ↦ ground (arith, returns)
]

-- The switch holds "true".
abbrev pub is_on : Parameter → Bool
is_on (value text) = lowers_to text "true"
is_on client_error = false
is_on (failure e) = false

off_turn :
    (t : Turn) (w : Worker)
    → is_on t.switch ≡ false
    → (guarded (try_turn t) w).after ≡ record w { health = (guarded (try_turn t) w).after.health }
unfolding guarded try_turn check_kill_switch health_error
off_turn t w off = elim (Parameter-cases t.switch) [
  | inl (text, on) ↦ ground (arith, on, off)
  | inr (inl on) ↦ ground (arith, on)
  | inr (inr (e, on)) ↦ ground (arith, on)
]

-- Whatever the turns bring, the main loop raises no exception; and turns whose switch cannot be read
-- or is not "true" change nothing of the worker but its health record.
pub run-off :
    (turns : List Turn) (w : Worker)
    → ((run turns w).result ≡ ok tt)
      × (All (λ t. is_on t.switch ≡ false) turns
          → (run turns w).after ≡ record w { health = (run turns w).after.health })
unfolding run
run-off [] w = (refl, λ h. refl)
run-off (t ∷ ts) w = elim (Bool-cases t.stopping) [
  | inl stops ↦ (ground (arith, stops), λ h. ground (arith, stops))
  | inr goes ↦
      let returns = guarded_ok (try_turn t) w in
      let (rest, later) = run-off ts (guarded (try_turn t) w).after in
      (
        ground (arith, goes, returns, rest),
        λ h. ground (arith, goes, returns, off_turn t w h.0, later h.1),
      )
]
