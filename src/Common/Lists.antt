-- ===== src/Common/Lists.antt =====
-- Lists measured by native numbers, predicates on their members, and Python's slices.
use Prim.Native.Nat.{ℕ, zero, suc, ◌+◌, ◌-◌, ◌≤◌}
use mathlib.Core.Path.{◌≡◌, refl, sym, ◌∙◌}
use mathlib.Core.Bool.{Bool, true, false, false≢true}
use mathlib.Core.Option.{Option, none, some}
use mathlib.Core.Logic.{◌⊎◌, inl, inr}
use mathlib.Core.Logic.Or
use mathlib.Core.List.{List, [], ◌∷◌, ◌++◌, Mem, Mem-prop, mem-cons, not-mem-nil}
use native.Mathlib.Omega.{arith}
use ai_inference_project.Common.Tests.{if◌then◌else◌, Bool-cases}

module _ {ℓ} {A : Type ℓ} where
  abbrev pub length : List A → ℕ
  length [] = 0
  length (x ∷ xs) = suc (length xs)

  abbrev pub get_elem? : List A → ℕ → Option A
  get_elem? [] i = none
  get_elem? (x ∷ xs) zero = some x
  get_elem? (x ∷ xs) (suc i) = get_elem? xs i

  abbrev pub drop : ℕ → List A → List A
  drop zero xs = xs
  drop (suc n) [] = []
  drop (suc n) (x ∷ xs) = drop n xs

  abbrev pub take : ℕ → List A → List A
  take zero xs = []
  take (suc n) [] = []
  take (suc n) (x ∷ xs) = x ∷ take n xs

  -- `[x for x in xs if keep(x)]`
  unfoldable pub filter : (A → Bool) → List A → List A
  filter keep [] = []
  filter keep (x ∷ xs) = let rest = filter keep xs in if keep x then x ∷ rest else rest

  pub length-append : (xs ys : List A) → length (xs ++ ys) ≡ length xs + length ys
  length-append [] ys = omega arith
  length-append (x ∷ xs) ys = omega (arith, length-append xs ys)

  pub length-drop : (n : ℕ) (xs : List A) → length (drop n xs) ≡ length xs - n
  length-drop zero xs = omega arith
  length-drop (suc n) [] = omega arith
  length-drop (suc n) (x ∷ xs) = omega (arith, length-drop n xs)

  pub length-filter-le : (keep : A → Bool) (xs : List A) → length (filter keep xs) ≤ length xs
  unfolding filter
  length-filter-le keep [] = omega arith
  length-filter-le keep (x ∷ xs) = ground (arith, length-filter-le keep xs)

  -- Every member satisfies `P`.
  abbrev pub All {κ} : (A → Type κ) → List A → Type κ
  All P [] = Unit
  All P (x ∷ xs) = P x × All P xs

  pub All-append {κ} : (P : A → Type κ) (xs ys : List A) → All P xs → All P ys → All P (xs ++ ys)
  All-append P [] ys h k = k
  All-append P (x ∷ xs) ys h k = (h.0, All-append P xs ys h.1 k)

  pub All-map {κ μ} :
      (P : A → Type κ) (Q : A → Type μ)
      → ((x : A) → P x → Q x)
      → (xs : List A) → All P xs
      → All Q xs
  All-map P Q f [] h = tt
  All-map P Q f (x ∷ xs) h = (f x h.0, All-map P Q f xs h.1)

  pub All-filter {κ} :
      (P : A → Type κ) (keep : A → Bool) (xs : List A) → All P xs → All P (filter keep xs)
  unfolding filter
  All-filter P keep [] h = tt
  All-filter P keep (x ∷ xs) h =
      elim (keep x) as (λ b. All P (if b then x ∷ filter keep xs else filter keep xs)) [
        | true ↦ (h.0, All-filter P keep xs h.1)
        | false ↦ All-filter P keep xs h.1
      ]

  -- What a filter keeps passed its test.
  pub All-filter_test {κ} :
      (P : A → Type κ) (keep : A → Bool) (xs : List A)
      → All P xs
      → All (λ x. P x × (keep x ≡ true)) (filter keep xs)
  unfolding filter
  All-filter_test P keep [] h = tt
  All-filter_test P keep (x ∷ xs) h = elim (Bool-cases (keep x)) [
    | inl e ↦ rw e ((h.0, e), All-filter_test P keep xs h.1)
    | inr e ↦ rw e (All-filter_test P keep xs h.1)
  ]

  pub filter-append :
      (keep : A → Bool) (xs ys : List A) → filter keep (xs ++ ys) ≡ filter keep xs ++ filter keep ys
  unfolding filter
  filter-append keep [] ys = refl
  filter-append keep (x ∷ xs) ys = elim (Bool-cases (keep x)) [
    | inl e ↦ rw (e, filter-append keep xs ys) refl
    | inr e ↦ rw (e, filter-append keep xs ys) refl
  ]

  pub mem-filter_of_mem :
      (keep : A → Bool) (a : A) (xs : List A) → keep a ≡ true → Mem a xs → Mem a (filter keep xs)
  unfolding filter
  mem-filter_of_mem keep a [] e m = absurd (not-mem-nil m)
  mem-filter_of_mem keep a (x ∷ xs) e m = elim (Bool-cases (keep x)) [
    | inl k ↦ rw k (
        Or.elim Mem-prop (mem-cons.0 m) (λ s. mem-cons.1 (Or.inl s))
          (λ later. mem-cons.1 (Or.inr (mem-filter_of_mem keep a xs e later))))
    | inr k ↦ rw k (Or.elim Mem-prop (mem-cons.0 m) (λ s. cc) (mem-filter_of_mem keep a xs e))
  ]

  pub mem_of_mem-filter :
      (keep : A → Bool) (a : A) (xs : List A) → Mem a (filter keep xs) → Mem a xs
  unfolding filter
  mem_of_mem-filter keep a [] m = absurd (not-mem-nil m)
  mem_of_mem-filter keep a (x ∷ xs) m = elim (Bool-cases (keep x)) [
    | inl k ↦
        Or.elim Mem-prop (mem-cons.0 (rw k at m)) (λ s. mem-cons.1 (Or.inl s))
          (λ later. mem-cons.1 (Or.inr (mem_of_mem-filter keep a xs later)))
    | inr k ↦ mem-cons.1 (Or.inr (mem_of_mem-filter keep a xs (rw k at m)))
  ]

  -- What holds of all that a filter keeps holds of every member that passes its test.
  pub All-of_filter {κ} :
      (P : A → Type κ) (keep : A → Bool) (xs : List A)
      → All P (filter keep xs)
      → All (λ x. keep x ≡ true → P x) xs
  unfolding filter
  All-of_filter P keep [] h = tt
  All-of_filter P keep (x ∷ xs) h = elim (Bool-cases (keep x)) [
    | inl k ↦ let h' = rw k at h in (λ _. h'.0, All-of_filter P keep xs h'.1)
    | inr k ↦ (λ k'. absurd (false≢true (sym k ∙ k')), All-of_filter P keep xs (rw k at h))
  ]

  pub length_nil : (xs : List A) → length xs ≡ 0 → xs ≡ []
  length_nil [] h = refl
  length_nil (x ∷ xs) h = absurd (omega arith)

  pub List-cases : (xs : List A) → (xs ≡ []) ⊎ ((x : A) × (rest : List A) × (xs ≡ x ∷ rest))
  List-cases [] = inl refl
  List-cases (x ∷ rest) = inr (x, rest, refl)
