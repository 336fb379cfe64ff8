-- ===== src/Core/Ttl/Laws.antt =====
-- When a queued request expires.
use ai_inference_project.Common.{
  ℕ, ◌+◌, ◌<◌, ◌≡◌, ◌↔◌, String, true, Option, some, arith, Option-cases, inl, inr,
}
use ai_inference_project.Common.Int.{pos, ltb_ℤ}
use ai_inference_project.Core.Ttl.{Calendar, RoundTrips, accepted_instant, is_expired, remaining}

-- A request is expired exactly when less than no time remains, also where its timestamp is absent
-- or cannot be read.
pub is_expired-remaining :
    (c : Calendar) (max_age now : ℕ) (accepted_at : Option String)
    → is_expired c max_age now accepted_at ≡ ltb_ℤ (remaining c max_age now accepted_at) (pos 0)
unfolding is_expired remaining
is_expired-remaining c max_age now accepted_at =
    elim (Option-cases (accepted_instant c accepted_at)) [
      | inl e ↦ rw (e, is_expired, remaining) (ground arith)
      | inr (t, e) ↦ rw (e, is_expired, remaining) (ground arith)
    ]

-- A request stamped at the instant `accepted` is expired exactly when more than the maximal age has
-- passed since then.
pub is_expired-isoformat :
    (c : Calendar) (max_age now accepted : ℕ)
    → RoundTrips c
    → (is_expired c max_age now (some (c.isoformat accepted)) ≡ true) ↔ (accepted + max_age < now)
unfolding is_expired
is_expired-isoformat c max_age now accepted h =
    rw ((h accepted).1, (h accepted).0, is_expired) (ground arith)
