-- ===== src/Common/Sort.antt =====
-- Python's `sorted`: stable, by a test `before x y` that stands for `key(x) < key(y)`.
use Prim.Native.Nat.{suc}
use mathlib.Core.Path.{◌≡◌, refl, ap, ◌∙◌}
use mathlib.Core.Logic.{inl, inr}
use mathlib.Core.Bool.{Bool, true, false}
use mathlib.Core.List.{List, [], ◌∷◌, Perm}
use mathlib.Core.List.Perm
use native.Mathlib.Omega.{arith}
use ai_inference_project.Common.Tests.{if◌then◌else◌, Bool-cases}
use ai_inference_project.Common.Lists.{All, All-map, length, filter}

module _ {ℓ} {A : Type ℓ} (before : A → A → Bool) where
  -- `x` stood in front of all of the list, so it goes in front of its equals.
  unfoldable pub insert : A → List A → List A
  insert x [] = x ∷ []
  insert x (y ∷ ys) = if before y x then y ∷ insert x ys else x ∷ y ∷ ys

  unfoldable pub sorted : List A → List A
  unfolding insert
  sorted [] = []
  sorted (x ∷ xs) = insert x (sorted xs)

  insert-perm : (x : A) (xs : List A) → Perm (insert x xs) (x ∷ xs)
  unfolding insert
  insert-perm x [] = Perm.refl (x ∷ [])
  insert-perm x (y ∷ ys) = elim (Bool-cases (before y x)) [
    | inl e ↦ rw e (Perm.trans (Perm.cons y (insert-perm x ys)) (Perm.swap x y ys))
    | inr e ↦ rw e (Perm.refl (x ∷ y ∷ ys))
  ]

  -- Sorting keeps every member, as often as it occurs.
  pub sorted-perm : (xs : List A) → Perm (sorted xs) xs
  unfolding sorted
  sorted-perm [] = Perm.refl []
  sorted-perm (x ∷ xs) = Perm.trans (insert-perm x (sorted xs)) (Perm.cons x (sorted-perm xs))

  length-insert : (x : A) (xs : List A) → length (insert x xs) ≡ suc (length xs)
  unfolding insert
  length-insert x [] = refl
  length-insert x (y ∷ ys) = ground (arith, length-insert x ys)

  pub length-sorted : (xs : List A) → length (sorted xs) ≡ length xs
  unfolding sorted
  length-sorted [] = refl
  length-sorted (x ∷ xs) = length-insert x (sorted xs) ∙ ap suc (length-sorted xs)

  length-filter-insert :
      (keep : A → Bool) (x : A) (xs : List A)
      → length (filter keep (insert x xs)) ≡ length (filter keep (x ∷ xs))
  unfolding insert filter
  length-filter-insert keep x [] = refl
  length-filter-insert keep x (y ∷ ys) = ground (arith, length-filter-insert keep x ys)

  -- As many members pass a test after sorting as before.
  pub length-filter-sorted :
      (keep : A → Bool) (xs : List A) → length (filter keep (sorted xs)) ≡ length (filter keep xs)
  unfolding sorted filter
  length-filter-sorted keep [] = refl
  length-filter-sorted keep (x ∷ xs) =
      ground (arith, length-filter-insert keep x (sorted xs), length-filter-sorted keep xs)

  insert-All {κ} : (P : A → Type κ) (x : A) (xs : List A) → P x → All P xs → All P (insert x xs)
  unfolding insert
  insert-All P x [] p h = (p, tt)
  insert-All P x (y ∷ ys) p h = elim (Bool-cases (before y x)) [
    | inl e ↦ rw e (h.0, insert-All P x ys p h.1)
    | inr e ↦ rw e (p, h)
  ]

  pub sorted-All {κ} : (P : A → Type κ) (xs : List A) → All P xs → All P (sorted xs)
  unfolding sorted
  sorted-All P [] h = tt
  sorted-All P (x ∷ xs) h = insert-All P x (sorted xs) h.0 (sorted-All P xs h.1)

module _ {ℓ κ} {A : Type ℓ} (before : A → A → Bool) (P : A → Type κ) where
  All-of_insert : (x : A) (xs : List A) → All P (insert before x xs) → P x × All P xs
  unfolding insert
  All-of_insert x [] h = (h.0, tt)
  All-of_insert x (y ∷ ys) h = elim (Bool-cases (before y x)) [
    | inl e ↦
        let h' = rw (e, insert) at h in let (p, rest) = All-of_insert x ys h'.1 in (p, (h'.0, rest))
    | inr e ↦ let h' = rw (e, insert) at h in (h'.0, h'.1)
  ]

  pub All-of_sorted : (xs : List A) → All P (sorted before xs) → All P xs
  unfolding sorted
  All-of_sorted [] h = tt
  All-of_sorted (x ∷ xs) h =
      let (p, rest) = All-of_insert x (sorted before xs) h in (p, All-of_sorted xs rest)

-- Each member is related to all that follow it.
abbrev pub IsAscending {ℓ κ} : {A : Type ℓ} → (A → A → Type κ) → List A → Type (ℓ ⊔ κ)
IsAscending R [] = Unit
IsAscending R (x ∷ xs) = All (R x) xs × IsAscending R xs

-- What a sort needs of the order `R` that its result shows.
pub record Ranks {ℓ κ} {A : Type ℓ} (before : A → A → Bool) (R : A → A → Type κ)
    : Type (ℓ ⊔ κ) where
  pub if_before : (x y : A) → before x y ≡ true → R x y
  pub unless_before : (x y : A) → before x y ≡ false → R y x
  pub transitive : (x y z : A) → R x y → R y z → R x z

module _ {ℓ κ} {A : Type ℓ} {before : A → A → Bool} {R : A → A → Type κ}
    (ranks : Ranks before R) where
  insert-IsAscending : (x : A) (xs : List A) → IsAscending R xs → IsAscending R (insert before x xs)
  unfolding insert
  insert-IsAscending x [] h = (tt, tt)
  insert-IsAscending x (y ∷ ys) h = elim (Bool-cases (before y x)) [
    | inl e ↦
        rw e (insert-All before (R y) x ys (ranks.if_before y x e) h.0, insert-IsAscending x ys h.1)
    | inr e ↦
        let below = ranks.unless_before y x e in
        rw e ((below, All-map (R y) (R x) (λ z. ranks.transitive x y z below) ys h.0), h)
  ]

  -- The result ascends in every order that the test ranks by.
  pub sorted-IsAscending : (xs : List A) → IsAscending R (sorted before xs)
  unfolding sorted
  sorted-IsAscending [] = tt
  sorted-IsAscending (x ∷ xs) = insert-IsAscending x (sorted before xs) (sorted-IsAscending xs)
