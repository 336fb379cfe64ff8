-- ===== src/Core/Ttl.antt =====
-- core/ttl.py: the age limit of queued requests. Instants and ages are microseconds. Python's
-- `datetime` is a parameter: `fromisoformat` is `none` for what raises ValueError or TypeError,
-- the subtraction of a timestamp without a time zone included.
pub mod Laws
use ai_inference_project.Common.{ℕ, ◌+◌, String, ◌≡◌, Bool, false, Option, none, some, ltb, truthy}
use ai_inference_project.Common.Int.{ℤ, pos, sub_ℕ}

pub record Calendar : Type 0 where
  pub fromisoformat : String → Option ℕ
  pub isoformat : ℕ → String

-- The documented round trip of the two, for the instants that the platform writes.
abbrev pub RoundTrips : Calendar → Type 0
RoundTrips c =
    (t : ℕ)
    → (c.fromisoformat (c.isoformat t) ≡ some t)
      × (truthy (some (c.isoformat t)) ≡ some (c.isoformat t))

-- The instant of an `accepted_at` text: absent if it is falsy or is no timestamp.
unfoldable pub accepted_instant : Calendar → Option String → Option ℕ
accepted_instant c accepted_at = elim (truthy accepted_at) [
  | none ↦ none
  | some text ↦ c.fromisoformat text
]

-- `age > max_age` for `age = now - accepted`, at `now`.
unfoldable pub is_expired : Calendar → (max_age now : ℕ) → Option String → Bool
unfolding accepted_instant
is_expired c max_age now accepted_at = elim (accepted_instant c accepted_at) [
  | none ↦ false
  | some accepted ↦ ltb (accepted + max_age) now
]

unfoldable pub remaining : Calendar → (max_age now : ℕ) → Option String → ℤ
unfolding accepted_instant
remaining c max_age now accepted_at = elim (accepted_instant c accepted_at) [
  | none ↦ pos max_age
  | some accepted ↦ sub_ℕ (max_age + accepted) now
]
