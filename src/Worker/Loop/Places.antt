-- ===== src/Worker/Loop/Places.antt =====
-- The messages and the batches of a turn of the main loop, and which of them the scheduler places.

use ai_inference_project.Common.{
  ◌≤◌, length, length-append, ◌≡◌, subst, List-cases, inl, inr, refl, sym, ap, ◌∙◌, String, true,
  Bool-cases, ◌||◌, List, [], ◌∷◌, ◌++◌, map, All, Perm, if◌then◌else◌, ◌==◌, string_key, arith, ok,
  raised,
}
use ai_inference_project.Common.Perms.{any, any-perm}
use ai_inference_project.Gateway.Auth.{lowers_to}
use ai_inference_project.Inference.Batching.{BatchCandidate, InferenceBatch, compatibility_key}
use ai_inference_project.Inference.Batching.Split.{IsSound, flat}
use ai_inference_project.Inference.Batching.Split as Split
use ai_inference_project.Worker.Batch.{Environment}
use mathlib.Core.List.{mem-cons, mem-cons_self, not-mem-nil, mem-append_left, mem-append_right, Mem}
use mathlib.Core.Logic.Or
use mathlib.Core.Bool.{Bool-set}
use ai_inference_project.Worker.Batch.Outputs.{has_id, is_in}
use ai_inference_project.Worker.Batch.Run.{IsUp, is_placed}
use ai_inference_project.Worker.Messages.{Message}
use ai_inference_project.Worker.Messages.Collect.{
  tasks, own_id, IsRouted, IsAddressed, AlwaysRoutes,
}
use ai_inference_project.Worker.Messages.Done.{placed, has_id-append}
use ai_inference_project.Worker.Loop.{value, client_error, failure, Turn}

-- The messages that a turn processes: none where the switch is not "true", the queue cannot be
-- polled, or shutdown is asked for.
abbrev pub taken : Turn → List Message
taken t = elim t.switch [
  | value text ↦
      if lowers_to text "true"
      then (if t.stopping_late then [] else elim t.received [ raised e ↦ [] | ok ms ↦ ms ])
      else []
  | client_error ↦ []
  | failure e ↦ []
]

-- The ids of the tasks that the turns before the shutdown process.
abbrev pub asked : List Turn → List String
asked [] = []
asked (t ∷ ts) = if t.stopping then [] else map own_id (tasks t.intake.parse (taken t)) ++ asked ts

-- What a turn works with: services that are up, a router that answers every request, a valid policy
-- that allows single items, and tasks that have an id and a timestamp.
pub record IsServed (t : Turn) : Type 0 where
  pub up : IsUp t.intake.env
  pub routes : AlwaysRoutes t.intake.router
  pub policy : Split.IsValid t.intake.policy
  pub single : t.intake.policy.allow_single_item_batches ≡ true
  pub addressed : All IsAddressed (tasks t.intake.parse (taken t))

-- The scheduler, where it is on, places each batch that the turn may build: a sound one, for a model
-- that the router sends requests to, of at most as many requests as the turn has tasks.
abbrev pub Places : Turn → Type 0
Places t =
    (b : InferenceBatch)
    → IsSound t.intake.policy b
    → IsRouted t.intake.router b.model_name
    → length b.candidates ≤ length (tasks t.intake.parse (taken t))
    → is_placed t.intake.env b ≡ true

pub is_in-append :
    (xs ys : List String) (x : String) → is_in (xs ++ ys) x ≡ (is_in xs x || is_in ys x)
is_in-append [] ys x = refl
is_in-append (y ∷ xs) ys x = ground (arith, is_in-append xs ys x)

module _ (t : Turn) (places : Places t) where
  -- What holds of a batch whose model is that of a candidate in the list.
  placed_by :
      (cs : List BatchCandidate) (c : BatchCandidate) (b : InferenceBatch)
      → IsSound t.intake.policy b
      → c.model_name ≡ b.model_name
      → All (λ c. IsRouted t.intake.router c.model_name) cs
      → Mem c cs
      → length b.candidates ≤ length (tasks t.intake.parse (taken t))
      → is_placed t.intake.env b ≡ true
  placed_by [] c b sound same sent m few = absurd (not-mem-nil m)
  placed_by (d ∷ cs) c b sound same sent m few =
      Or.elim (Bool-set _ _) (mem-cons.0 m)
        (λ e.
          places b sound
            (subst (IsRouted t.intake.router) (ap (λ c. c.model_name) (sym e) ∙ same) sent.0) few)
        (λ later. placed_by cs c b sound same sent.1 later few)

  placed_one :
      (cs : List BatchCandidate) (b : InferenceBatch)
      → IsSound t.intake.policy b
      → All (λ c. IsRouted t.intake.router c.model_name) cs
      → ((c : BatchCandidate) → Mem c b.candidates → Mem c cs)
      → length b.candidates ≤ length (tasks t.intake.parse (taken t))
      → is_placed t.intake.env b ≡ true
  placed_one cs b sound sent within few = elim (List-cases b.candidates) [
    | inl empty ↦ let some' = sound.not_empty in absurd (ground (arith, empty, some'))
    | inr (c, rest, e) ↦
        let keyed =
          (subst (All (λ c. compatibility_key c ≡ (b.model_name, b.event_type))) e
            sound.homogeneous).0 in
        placed_by cs c b sound (ap (λ k. k.0) keyed) sent
          (within c (subst (Mem c) (sym e) mem-cons_self)) few
  ]

  -- The scheduler places every batch of candidates for the router's models.
  pub placed-All :
      (cs : List BatchCandidate) (bs : List InferenceBatch)
      → All (IsSound t.intake.policy) bs
      → All (λ c. IsRouted t.intake.router c.model_name) cs
      → ((c : BatchCandidate) → Mem c (flat bs) → Mem c cs)
      → length (flat bs) ≤ length (tasks t.intake.parse (taken t))
      → placed t.intake.env bs ≡ flat bs
  unfolding flat
  placed-All cs [] sound sent within few = refl
  placed-All cs (b ∷ bs) sound sent within few =
      let sizes = length-append b.candidates (flat bs) in
      let first =
        placed_one cs b sound.0 sent (λ c m. within c (mem-append_left (flat bs) m))
          (omega (arith, sizes, few)) in
      let rest =
        placed-All cs bs sound.1 sent (λ c m. within c (mem-append_right b.candidates m))
          (omega (arith, sizes, few)) in
      ground (arith, first, rest)

is_in-any : (cs : List BatchCandidate) (x : String) → has_id cs x ≡ any (λ c. c.request_id == x) cs
is_in-any [] x = refl
is_in-any (c ∷ cs) x = ground (arith, is_in-any cs x)

pub has_id-perm :
    {bs cs : List BatchCandidate} → Perm bs cs → (x : String) → has_id bs x ≡ has_id cs x
has_id-perm {bs} {cs} p x =
    is_in-any bs x ∙ any-perm (λ c. c.request_id == x) p ∙ sym (is_in-any cs x)

pub placed_within :
    (env : Environment) (bs : List InferenceBatch) (x : String)
    → has_id (placed env bs) x ≡ true
    → has_id (flat bs) x ≡ true
unfolding flat
placed_within env [] x h = h
placed_within env (b ∷ bs) x h =
    let all' = has_id-append b.candidates (flat bs) x in
    let some' = has_id-append b.candidates (placed env bs) x in
    elim (Bool-cases (has_id (placed env bs) x)) [
      | inl on ↦ let rest = placed_within env bs x on in ground (arith, all', rest)
      | inr off ↦ ground (arith, all', some', h, off)
    ]
