-- ===== src/Common/Perms.antt =====
-- Boolean tests of the members of a list, which do not see their order.
use mathlib.Core.Path.{◌≡◌, refl, sym, ◌∙◌, ap}
use mathlib.Core.Bool.{Bool, true, false, ◌||◌, ◌&&◌, not, Bool-set}
use mathlib.Core.Logic.{inl, inr}
use mathlib.Core.Logic.Or
use mathlib.Core.List.{List, [], ◌∷◌, ◌++◌, Perm, Mem, mem-cons, not-mem-nil}
use mathlib.Core.List.Perm
use mathlib.Core.List as List
use mathlib.Core.Nat as Unary
use Prim.Native.Nat.{ℕ, suc}
use native.Mathlib.Omega.{arith}
use ai_inference_project.Common.Lists.{length}
use ai_inference_project.Common.Tests.{Bool-cases}

module _ {A : Type 0} (f : A → Bool) where
  -- `any(f(x) for x in xs)`
  abbrev pub any : List A → Bool
  any [] = false
  any (x ∷ xs) = f x || any xs

  -- `all(f(x) for x in xs)`
  abbrev pub all : List A → Bool
  all [] = true
  all (x ∷ xs) = f x && all xs

  any-mem : (xs : List A) → any xs ≡ true → (x : A) × Mem x xs × (f x ≡ true)
  any-mem [] h = absurd (ground (arith, h))
  any-mem (x ∷ xs) h = elim (Bool-cases (f x)) [
    | inl hit ↦ (x, mem-cons.1 (Or.inl refl), hit)
    | inr miss ↦
        let (y, m, e) = any-mem xs (ground (arith, h, miss)) in (y, mem-cons.1 (Or.inr m), e)
  ]

  any_of_mem : (xs : List A) (x : A) → f x ≡ true → Mem x xs → any xs ≡ true
  any_of_mem [] x e m = absurd (not-mem-nil m)
  any_of_mem (y ∷ ys) x e m =
      Or.elim (Bool-set _ _) (mem-cons.0 m)
        (λ same. let hit : f y ≡ true = ap f (sym same) ∙ e in rw hit refl)
        (λ later. ground (arith, any_of_mem ys x e later))

  pub any-perm : {xs ys : List A} → Perm xs ys → any xs ≡ any ys
  any-perm {xs} {ys} p = elim (Bool-cases (any xs)) [
    | inl hit ↦
        let (x, m, e) = any-mem xs hit in hit ∙ sym (any_of_mem ys x e ((Perm.mem_iff p).0 m))
    | inr miss ↦ elim (Bool-cases (any ys)) [
      | inl hit ↦
          let (x, m, e) = any-mem ys hit in any_of_mem xs x e ((Perm.mem_iff p).1 m) ∙ sym hit
      | inr none' ↦ miss ∙ sym none'
    ]
  ]

  pub all-append : (xs ys : List A) → all (xs ++ ys) ≡ (all xs && all ys)
  all-append [] ys = refl
  all-append (x ∷ xs) ys = ground (arith, all-append xs ys)

  pub any-append : (xs ys : List A) → any (xs ++ ys) ≡ (any xs || any ys)
  any-append [] ys = refl
  any-append (x ∷ xs) ys = ground (arith, any-append xs ys)

pub all-any : {A : Type 0} (f : A → Bool) (xs : List A) → all f xs ≡ not (any (λ x. not (f x)) xs)
all-any f [] = refl
all-any f (x ∷ xs) = ground (arith, all-any f xs)

pub all-perm : {A : Type 0} (f : A → Bool) {xs ys : List A} → Perm xs ys → all f xs ≡ all f ys
all-perm f {xs} {ys} p = all-any f xs ∙ ap not (any-perm (λ x. not (f x)) p) ∙ sym (all-any f ys)

abbrev of_unary : Unary.ℕ → ℕ
of_unary Unary.zero = 0
of_unary (Unary.suc n) = suc (of_unary n)

of_unary-length : {A : Type 0} (xs : List A) → of_unary (List.length xs) ≡ length xs
of_unary-length [] = refl
of_unary-length (x ∷ xs) = ap suc (of_unary-length xs)

-- A rearrangement has as many members.
pub length-perm : {A : Type 0} {xs ys : List A} → Perm xs ys → length xs ≡ length ys
length-perm {A} {xs} {ys} p =
    sym (of_unary-length xs) ∙ ap of_unary (Perm.length-eq p) ∙ of_unary-length ys

pub length-map : {A B : Type 0} (f : A → B) (xs : List A) → length (List.map f xs) ≡ length xs
length-map f [] = refl
length-map f (x ∷ xs) = ap suc (length-map f xs)
