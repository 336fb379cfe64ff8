-- ===== src/Common/Keys.antt =====
-- Equality tests as an interface, with its instances for numbers, texts and pairs of keys.
use Prim.Native.Nat.{ℕ, Ordering}
use Prim.Native.String.{String, compare}
use mathlib.Core.Path.{◌≡◌, refl}
use mathlib.Core.Option.{Option, none, some}
use mathlib.Core.Logic.{◌↔◌}
use mathlib.Core.Bool.{Bool, true, false, ◌&&◌}
use native.Mathlib.Omega.{arith}
use text.Mathlib.Text.{◌==◌ as str_eq}
use text.Mathlib.TextEquality.{eq_iff}
use ai_inference_project.Common.Tests.{nat_beq, nat_beq_iff}

pub record Eq {ℓ} (A : Type ℓ) : Type ℓ where
  pub beq : A → A → Bool
  pub beq_iff : (x y : A) → (beq x y ≡ true) ↔ (x ≡ y)

abbrev pub pair_beq : String × String → String × String → Bool
pair_beq (a, b) (c, d) = str_eq a c && str_eq b d

pub pair_beq_iff : (p q : String × String) → (pair_beq p q ≡ true) ↔ (p ≡ q)
pair_beq_iff (a, b) (c, d) = ground (arith, eq_iff a c, eq_iff b d)

infix 50 ◌==◌
abbrev pub ◌==◌ {ℓ} : {A : Type ℓ} ⦃key : Eq A⦄ → A → A → Bool
◌==◌ ⦃key⦄ = key.beq

instance abbrev pub pair_key : Eq (String × String)
pair_key = record { beq = pair_beq; beq_iff = pair_beq_iff }

pub beq_refl {ℓ} : {A : Type ℓ} ⦃e : Eq A⦄ (a : A) → (a == a) ≡ true
beq_refl ⦃e⦄ a = (e.beq_iff a a).1 refl

instance abbrev pub string_key : Eq String
string_key = record { beq = str_eq; beq_iff = eq_iff }

instance abbrev pub nat_key : Eq ℕ
nat_key = record { beq = nat_beq; beq_iff = nat_beq_iff }

-- The optional text, absent where Python takes it for false: `None` and the empty text.
abbrev pub truthy : Option String → Option String
truthy none = none
truthy (some s) = elim (str_eq s "") [ true ↦ none | false ↦ some s ]

-- `s < t` on texts, by code points.
abbrev pub ltb_string : String → String → Bool
ltb_string s t = elim (compare s t) [ Ordering.lt ↦ true | _ ↦ false ]
