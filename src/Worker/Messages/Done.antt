-- ===== src/Worker/Messages/Done.antt =====
-- What becomes of the requests of a receive: from the messages through the batches to the store.

use ai_inference_project.Common.{
  ℕ, suc, ◌≡◌, refl, ap, inl, inr, Bool-cases, ◌&&◌, ◌∙◌, String, Bool, true, false, ◌||◌, List, [],
  ◌∷◌, ◌++◌, map, All, Perm, if◌then◌else◌, string_key, arith, ok,
}
use ai_inference_project.Common.Perms.{all, all-append, all-perm}
use ai_inference_project.Common.Dict.{Dict}
use ai_inference_project.Inference.Batching.{BatchCandidate, InferenceBatch, build_batches}
use ai_inference_project.Inference.Batching.Split.{IsSound, flat}
use ai_inference_project.Inference.Batching.Split as Split
use ai_inference_project.Inference.Batching.Laws.{build_batches_lem}
use ai_inference_project.Worker.{Worker}
use ai_inference_project.Worker.Batch.{Environment, process_batch}
use ai_inference_project.Core.ResultStore
use ai_inference_project.Core.ResultStore.{InferenceResult}
use ai_inference_project.Worker.Actions.{Outcome}
use ai_inference_project.Worker.Batch.Records.{
  Settles, IsEnded, Settles-refl, Settles-then, Settles-from, Settles-map, Settles-hit, Settles-at,
}
use ai_inference_project.Worker.Batch.Outputs.{IsReady, has_id}
use ai_inference_project.Worker.Batch.Run.{IsUp, is_placed, is_shut, process_batch-done}
use ai_inference_project.Worker.Messages.{
  Message, Intake, collect_messages, run_batches, run_candidates, process_messages,
}
use ai_inference_project.Worker.Messages.Collect.{
  is_ready, is_ready-IsReady, tasks, own_id, IsRouted, IsAddressed, AlwaysRoutes,
  collect_messages_lem,
}

-- The candidates of the batches that are placed.
abbrev pub placed : Environment → List InferenceBatch → List BatchCandidate
placed env [] = []
placed env (b ∷ bs) = if is_placed env b then b.candidates ++ placed env bs else placed env bs

all-All :
    (receipts : Dict String String) (cs : List BatchCandidate)
    → all (is_ready receipts) cs ≡ true
    → All (IsReady receipts) cs
all-All receipts [] h = tt
all-All receipts (c ∷ cs) h =
    (is_ready-IsReady receipts c (ground (arith, h)), all-All receipts cs (ground (arith, h)))

pub has_id-append :
    (cs ds : List BatchCandidate) (x : String) → has_id (cs ++ ds) x ≡ (has_id cs x || has_id ds x)
has_id-append [] ds x = refl
has_id-append (c ∷ cs) ds x = ground (arith, has_id-append cs ds x)

has_id-placed :
    (env : Environment) (b : InferenceBatch) (bs : List InferenceBatch) (x : String)
    → ((is_placed env b && has_id b.candidates x) || has_id (placed env bs) x)
      ≡ has_id (placed env (b ∷ bs)) x
has_id-placed env b bs x = elim (Bool-cases (is_placed env b)) [
  | inl on ↦ ground (arith, on, has_id-append b.candidates (placed env bs) x)
  | inr off ↦ ground (arith, off)
]

-- The record of a request has ended, with a model and with the circuit breaker in some state.
abbrev pub HasEnded : Environment → InferenceResult → Type 0
HasEnded env r = (model : String) × (shut : Bool) × IsEnded env model shut r

-- From the store of `w` to that of `o`: the requests that are hit end, and the others are kept.
abbrev pub Leaves : Environment → (String → Bool) → Worker → Outcome Bool → Type 0
Leaves env hit w o =
    (x : String)
    → Settles (HasEnded env) (hit x) (ResultStore.get w.result_store x)
        (ResultStore.get o.after.result_store x)

module _ (intake : Intake) (up : IsUp intake.env) where
  -- Running the batches returns; the requests of the placed ones end, and the others are kept.
  run_batches-done :
      (receipts : Dict String String) (index : ℕ) (bs : List InferenceBatch) (w : Worker)
      → all (is_ready receipts) (flat bs) ≡ true
      → let o = run_batches intake receipts index bs w in
        (b : Bool) × (o.result ≡ ok b) × Leaves intake.env (has_id (placed intake.env bs)) w o
  unfolding run_batches flat
  run_batches-done receipts index [] w h = (true, refl, λ x. Settles-refl _)
  run_batches-done receipts index (b ∷ bs) w h =
      let both = all-append (is_ready receipts) b.candidates (flat bs) in
      let (good, returns, done) =
        process_batch-done intake.env receipts (intake.batch_id index) b w up
          (all-All receipts b.candidates (ground (arith, h, both))) in
      let after = (process_batch intake.env receipts (intake.batch_id index) b w).after in
      let (rest, later, ends) =
        run_batches-done receipts (suc index) bs after (ground (arith, h, both)) in
      (
        if good then rest else false,
        ground (arith, returns, later),
        λ x. Settles-at (ground (arith, returns, later)) (
            Settles-hit (has_id-placed intake.env b bs x)
              (Settles-then (Settles-map (λ r e. (b.model_name, is_shut w, e)) (done x)) (ends x))),
      )

  run_candidates-done :
      (cs : List BatchCandidate) (receipts : Dict String String) (bs : List InferenceBatch)
      (w : Worker)
      → build_batches intake.policy cs ≡ ok bs
      → all (is_ready receipts) (flat bs) ≡ true
      → let o = run_candidates intake (cs, receipts) w in
        (b : Bool) × (o.result ≡ ok b) × Leaves intake.env (has_id (placed intake.env bs)) w o
  unfolding run_candidates build_batches
  run_candidates-done [] receipts bs w built h =
      let none' : bs ≡ [] = ground (arith, built) in
      (false, refl, λ x. Settles-hit (ground (arith, none')) (Settles-refl _))
  run_candidates-done (c ∷ cs) receipts bs w built h =
      let (b, returns, ends) = run_batches-done receipts 0 bs w h in
      (b, ground (arith, built, returns), λ x. Settles-at (ground (arith, built)) (ends x))

  -- Where what the worker calls is up, with a router that answers every request, a valid policy that
  -- allows batches of one request, and tasks that have an id and a timestamp, processing a receive
  -- returns, whatever messages without a task are in it. There are candidates with the ids of the
  -- tasks, in order, for models of the router, and batches that hold each of them exactly once and
  -- are sound. The records of the requests of the batches that are placed have ended: refused,
  -- expired, or with the text or the error of an output of the model server; the records of all
  -- other requests are what they were.
  pub process_messages-done :
      (messages : List Message) (w : Worker)
      → AlwaysRoutes intake.router
      → Split.IsValid intake.policy
      → intake.policy.allow_single_item_batches ≡ true
      → All IsAddressed (tasks intake.parse messages)
      → let o = process_messages intake messages w in
        (cs : List BatchCandidate) × (bs : List InferenceBatch) × (b : Bool) × (o.result ≡ ok b)
        × (map (λ c. c.request_id) cs ≡ map own_id (tasks intake.parse messages))
        × All (λ c. IsRouted intake.router c.model_name) cs
        × Perm (flat bs) cs
        × All (IsSound intake.policy) bs
        × Leaves intake.env (has_id (placed intake.env bs)) w o
  unfolding process_messages
  process_messages-done messages w routes valid single addressed =
      let (cs, receipts, collects, stored, ready, sent, ids) =
        collect_messages_lem intake routes messages [] [] w addressed refl tt in
      let after = (collect_messages intake messages [] [] w).after in
      let (bs, built, perm, sound) = build_batches_lem intake.policy cs valid single in
      let (b, returns, ends) =
        run_candidates-done cs receipts bs after built
          (all-perm (is_ready receipts) perm ∙ ready) in
      (
        cs,
        bs,
        b,
        ground (arith, collects, returns),
        ids,
        sent,
        perm,
        sound,
        λ x.
            Settles-from (ap (λ s. ResultStore.get s x) stored)
              (Settles-at (ground (arith, collects)) (ends x)),
      )
