-- ===== src/Worker/Loop/Handles.antt =====
-- What becomes of the record of one request over turns of the main loop.

use ai_inference_project.Common.{
  Option, ◌≡◌, subst, inl, inr, sym, ◌∙◌, String, Bool, true, false, Bool-cases, some, ◌||◌, List,
  string_key, arith,
}
use ai_inference_project.Worker.{Worker}
use ai_inference_project.Worker.Batch.{Environment}
use ai_inference_project.Core.ResultStore
use ai_inference_project.Core.ResultStore.{InferenceResult}
use ai_inference_project.Inference.Adapter.{success}
use ai_inference_project.Worker.Batch.Records.{Settles, Settles-refl, Settles-then, Settles-at}
use ai_inference_project.Worker.Batch.Outputs.{is_in, is_done}
use ai_inference_project.Worker.Messages.Done.{HasEnded}

-- The record is in a terminal state.
abbrev pub IsTerminal : InferenceResult → Type 0
IsTerminal r = is_done (some r) ≡ true

pub ended_IsTerminal : (env : Environment) (r : InferenceResult) → HasEnded env r → IsTerminal r
ended_IsTerminal env r (model, shut, (named, inl (on, away))) = ground (arith, away.fails)
ended_IsTerminal env r (model, shut, (named, inr (off, inl (away, _, _)))) =
    ground (arith, away.fails)
ended_IsTerminal env r (model, shut, (named, inr (off, inr (o, answer, reports)))) =
    elim (Bool-cases (success o)) [
      | inl good ↦ ground (arith, (reports.success_ends good).0)
      | inr bad ↦ ground (arith, (reports.failure_ends bad).0)
    ]

-- The record of a request that is not asked for stays as it is; one that is asked for becomes
-- terminal or stays as it is, and becomes terminal where `Sure` holds.
pub record Handles (Sure : Type 0) (asked : Bool) (before after : Option InferenceResult)
    : Type 0 where
  pub hit : Bool
  pub within : hit ≡ true → asked ≡ true
  pub sure : Sure → hit ≡ asked
  pub settles : Settles IsTerminal hit before after

pub Handles-none :
    {S : Type 0} {asked : Bool} {a b : Option InferenceResult}
    → asked ≡ false
    → b ≡ a
    → Handles S asked a b
Handles-none {S} {asked} {a} {b} off same = record {
  hit = false;
  within = λ e. absurd (ground (arith, e));
  sure = λ _. sym off;
  settles = Settles-at same (Settles-refl a);
}

pub Handles-then :
    {S T : Type 0} {h k : Bool} {a b c : Option InferenceResult}
    → Handles S h a b
    → Handles T k b c
    → Handles (S × T) (h || k) a c
Handles-then {S} {T} {h} {k} {a} {b} {c} first later = record {
  hit = first.hit || later.hit;
  within = λ e. elim (Bool-cases first.hit) [
    | inl on ↦ let asked = first.within on in ground (arith, asked)
    | inr off ↦ let asked = later.within (ground (arith, e, off)) in ground (arith, asked)
  ];
  sure = λ st. ground (arith, first.sure st.0, later.sure st.1);
  settles = Settles-then first.settles later.settles;
}

pub Handles-map :
    {S T : Type 0} {h k : Bool} {a b : Option InferenceResult}
    → (T → S)
    → h ≡ k
    → Handles S h a b
    → Handles T k a b
Handles-map {S} {T} {h} {k} {a} {b} f e x = record {
  hit = x.hit;
  within = λ on. sym e ∙ x.within on;
  sure = λ t. x.sure (f t) ∙ e;
  settles = x.settles;
}

pub Handles-at :
    {S : Type 0} {h : Bool} {a b c : Option InferenceResult}
    → c ≡ b
    → Handles S h a b
    → Handles S h a c
Handles-at {S} {h} {a} {b} {c} e = subst (Handles S h a) (sym e)

-- From the store of `w` to that of `after`, where the requests `ids` are asked for.
abbrev pub HandlesAll : Type 0 → List String → Worker → Worker → Type 0
HandlesAll Sure ids w after =
    (x : String)
    → Handles Sure (is_in ids x) (ResultStore.get w.result_store x)
        (ResultStore.get after.result_store x)
