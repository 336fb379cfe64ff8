-- ===== src/Common/Dict.antt =====
-- Python's `dict` as an association list in insertion order: a write to a key that is there keeps
-- its place, and a write to a new key goes to the end.
use mathlib.Core.Path.{◌≡◌, refl, sym, ap, ◌∙◌}
use mathlib.Core.Bool.{false}
use mathlib.Core.Logic.{inl, inr}
use mathlib.Core.Option.{Option, none, some}
use mathlib.Core.List.{List, [], ◌∷◌, map}
use native.Mathlib.Omega.{arith}
use ai_inference_project.Common.Tests.{if◌then◌else◌, Bool-cases}
use ai_inference_project.Common.Lists.{All}
use ai_inference_project.Common.Keys.{Eq, ◌==◌, beq_refl}

abbrev pub Dict {ℓ κ} : Type ℓ → Type κ → Type (ℓ ⊔ κ)
Dict K V = List (K × V)

-- `d.values()`
unfoldable pub values {ℓ κ} : {K : Type ℓ} {V : Type κ} → Dict K V → List V
values = map (λ p. p.1)

module _ {ℓ κ} {K : Type ℓ} {V : Type κ} ⦃e : Eq K⦄ where
  -- `d.get(k)`
  unfoldable pub get : Dict K V → K → Option V
  get [] k = none
  get ((j, v) ∷ d) k = if j == k then some v else get d k

  -- `d[k] = v`
  unfoldable pub put : Dict K V → K → V → Dict K V
  put [] k v = (k, v) ∷ []
  put ((j, w) ∷ d) k v = if j == k then (j, v) ∷ d else (j, w) ∷ put d k v

  -- A read after a write finds the value at its key, and what was there at any other.
  pub get-put :
      (d : Dict K V) (k : K) (v : V) (j : K)
      → get (put d k v) j ≡ (if k == j then some v else get d j)
  unfolding get put
  get-put [] k v j = refl
  get-put ((i, w) ∷ d) k v j =
      ground (arith, e.beq_iff k j, e.beq_iff i k, e.beq_iff i j, get-put d k v j)

  pub get-put_self : (d : Dict K V) (k : K) (v : V) → get (put d k v) k ≡ some v
  get-put_self d k v = simp (get-put, beq_refl)

-- Dictionaries whose values carry their key: each entry stands under its own key, once.
module _ {ℓ κ} {K : Type ℓ} {V : Type κ} ⦃e : Eq K⦄ (key : V → K) where
  abbrev pub IsKeyed : Dict K V → Type ℓ
  IsKeyed [] = Unit
  IsKeyed ((k, v) ∷ rest) = (key v ≡ k) × All (λ p. (p.0 == k) ≡ false) rest × IsKeyed rest

  put-keys :
      (d : Dict K V) (k j : K) (v : V)
      → (k == j) ≡ false
      → All (λ p. (p.0 == j) ≡ false) d
      → All (λ p. (p.0 == j) ≡ false) (put d k v)
  unfolding put
  put-keys [] k j v h a = (h, tt)
  put-keys ((i, w) ∷ rest) k j v h a = elim (Bool-cases (i == k)) [
    | inl same ↦ rw same a
    | inr other ↦ rw other (a.0, put-keys rest k j v h a.1)
  ]

  -- A write under the value's own key keeps the dictionary so.
  pub put-IsKeyed : (d : Dict K V) (k : K) (v : V) → key v ≡ k → IsKeyed d → IsKeyed (put d k v)
  unfolding put
  put-IsKeyed [] k v h a = (h, tt, tt)
  put-IsKeyed ((i, w) ∷ rest) k v h a = elim (Bool-cases (i == k)) [
    | inl same ↦ rw same (h ∙ sym ((e.beq_iff i k).0 same), a.1, a.2)
    | inr other ↦ rw other (
      a.0,
      put-keys rest k i v (ground (arith, e.beq_iff i k, e.beq_iff k i)) a.1,
      put-IsKeyed rest k v h a.2,
    )
  ]

  -- Under a first entry at `k`, what is found at other keys stays found.
  found_behind :
      (k : K) (w : V) (rest l : Dict K V)
      → IsKeyed l
      → All (λ p. (p.0 == k) ≡ false) l
      → All (λ v. get rest (key v) ≡ some v) (values l)
      → All (λ v. get ((k, w) ∷ rest) (key v) ≡ some v) (values l)
  unfolding get values
  found_behind k w rest [] h a b = tt
  found_behind k w rest ((i, v) ∷ l) h a b = (
    ground (arith, b.0, h.0, a.0, e.beq_iff i k, e.beq_iff k (key v)),
    found_behind k w rest l h.2 a.1 b.1,
  )

  -- Each value is the one found at its key.
  pub get_of_values : (d : Dict K V) → IsKeyed d → All (λ v. get d (key v) ≡ some v) (values d)
  unfolding get values
  get_of_values [] h = tt
  get_of_values ((k, w) ∷ rest) h =
      (rw (h.0, beq_refl k) refl, found_behind k w rest rest h.2 h.1 (get_of_values rest h.2))

  -- What is found at a key carries that key.
  pub key_of_get : (d : Dict K V) (k : K) (v : V) → IsKeyed d → get d k ≡ some v → key v ≡ k
  unfolding get
  key_of_get [] k v h found = absurd (ground arith)
  key_of_get ((i, w) ∷ rest) k v h found = elim (Bool-cases (i == k)) [
    | inl same ↦ let eq : w ≡ v = ground arith in ap key (sym eq) ∙ h.0 ∙ (e.beq_iff i k).0 same
    | inr other ↦ key_of_get rest k v h.2 (rw other at found)
  ]
