-- ===== src/Gateway/Tenant/Window.antt =====
-- Histories of the tenant engine: checks and releases in any order, the clock never stepping back.
use mathlib.Core.List.{append-nil, append_assoc}
use ai_inference_project.Common.{
  ℕ, ◌+◌, ◌≤◌, ◌≡◌, inl, inr, refl, ap, sym, subst, ◌∙◌, String, Bool, true, false, Bool-cases,
  List, [], ◌∷◌, ◌++◌, length, filter, filter-append, arith, ltb, string_key, ◌==◌, if◌then◌else◌,
  ◌&&◌, length-filter-le,
}
use ai_inference_project.Common.Dict.{get}
use ai_inference_project.Common.Int.{ℤ}
use ai_inference_project.Gateway.Tenant.{
  TenantPolicyEngine, minute, get_policy, state_of, prune, check, release,
}
use ai_inference_project.Gateway.Tenant.Laws.{
  IsBounded, is_admitted, check_lem, release_lem, timestamps-check, state_of-release,
  get_policy-check, get_policy-release,
}

pub data Call : Type 0 where
  checks : (tenant_id : String) (request_priority : ℤ) (now : ℕ) → Call
  releases : (tenant_id : String) → Call

pub step : Call → TenantPolicyEngine → TenantPolicyEngine
step (checks a priority now) e = (check a priority now e).0
step (releases a) e = release a e

pub run : List Call → TenantPolicyEngine → TenantPolicyEngine
run [] e = e
run (c ∷ calls) e = run calls (step c e)

-- The instants at which requests of `tenant_id` are admitted.
pub admissions : List Call → TenantPolicyEngine → String → List ℕ
admissions [] e tenant_id = []
admissions (checks a priority now ∷ calls) e tenant_id =
    let rest = admissions calls (check a priority now e).0 tenant_id in
    if a == tenant_id && is_admitted (check a priority now e).2 then now ∷ rest else rest
admissions (releases a ∷ calls) e tenant_id = admissions calls (release a e) tenant_id

-- The readings of the clock ascend from `start` to `stop`.
abbrev pub IsMonotone : (start : ℕ) → List Call → (stop : ℕ) → Type 0
IsMonotone start [] stop = start ≤ stop
IsMonotone start (checks a priority now ∷ calls) stop = (start ≤ now) × IsMonotone now calls stop
IsMonotone start (releases a ∷ calls) stop = IsMonotone start calls stop

step-IsBounded :
    (c : Call) (e : TenantPolicyEngine) (t : String)
    → IsBounded (get_policy e t) (state_of e t)
    → IsBounded (get_policy (step c e) t) (state_of (step c e) t)
unfolding step
step-IsBounded (checks a priority now) e t v = (check_lem a t priority now e v).0
step-IsBounded (releases a) e t v = rw (get_policy-release, state_of-release a t e) (ground arith)

step-policy :
    (c : Call) (e : TenantPolicyEngine) (t : String) → get_policy (step c e) t ≡ get_policy e t
unfolding step
step-policy (checks a priority now) e t = get_policy-check a t priority now e
step-policy (releases a) e t = get_policy-release a t e

run-policy :
    (calls : List Call) (e : TenantPolicyEngine) (t : String)
    → get_policy (run calls e) t ≡ get_policy e t
unfolding run
run-policy [] e t = refl
run-policy (c ∷ calls) e t = run-policy calls (step c e) t ∙ step-policy c e t

-- From an engine in which a tenant is within its limits, no history of checks and releases, of any
-- tenants at any readings of the clock, takes that tenant over the limits of its policy.
pub run-IsBounded :
    (calls : List Call) (e : TenantPolicyEngine) (t : String)
    → IsBounded (get_policy e t) (state_of e t)
    → IsBounded (get_policy e t) (state_of (run calls e) t)
unfolding run
run-IsBounded [] e t v = v
run-IsBounded (c ∷ calls) e t v =
    subst (λ p. IsBounded p (state_of (run calls (step c e)) t)) (step-policy c e t)
      (run-IsBounded calls (step c e) t (step-IsBounded c e t v))

prune-prune : (l now : ℕ) (ts : List ℕ) → l ≤ now → prune now (prune l ts) ≡ prune now ts
unfolding prune filter
prune-prune l now [] h = refl
prune-prune l now (t ∷ ts) h = ground (arith, prune-prune l now ts h)

prune-append : (now : ℕ) (xs ys : List ℕ) → prune now (xs ++ ys) ≡ prune now xs ++ prune now ys
unfolding prune
prune-append now xs ys = filter-append (λ t. ltb now (t + minute)) xs ys

prune-now : (now : ℕ) → prune now (now ∷ []) ≡ now ∷ []
unfolding prune filter
prune-now now = ground arith

-- The rate window of tenant `t` in `e` shows all of its admissions `seen` that were recent at some
-- instant up to `start`.
abbrev Shows : ℕ → TenantPolicyEngine → String → List ℕ → Type 0
Shows start e t seen = (l : ℕ) × (l ≤ start) × ((state_of e t).timestamps ≡ prune l seen)

check-Shows :
    (a t : String) (priority : ℤ) (now start : ℕ) (e : TenantPolicyEngine) (seen : List ℕ)
    → start ≤ now
    → Shows start e t seen
    → Shows now
        (check a priority now e).0
        t
        (seen ++ (if a == t && is_admitted (check a priority now e).2 then now ∷ [] else []))
check-Shows a t priority now start e seen h (l, k, shown) =
    let recent = ap (prune now) shown ∙ prune-prune l now seen (omega arith) in
    let after = timestamps-check a t priority now e in
    elim (Bool-cases (a == t)) [
      | inr other ↦ (l, omega arith, rw after (rw (other, append-nil) shown))
      | inl same ↦ elim (Bool-cases (is_admitted (check a priority now e).2)) [
        | inl yes' ↦ (
          now,
          omega arith,
          rw after (rw (same, yes', recent, prune-append now seen (now ∷ []), prune-now now) refl),
        )
        | inr no' ↦ (now, omega arith, rw after (rw (same, no', append-nil) recent))
      ]
    ]

push_front :
    (b : Bool) (now : ℕ) (seen rest : List ℕ)
    → (seen ++ (if b then now ∷ [] else [])) ++ rest ≡ seen ++ (if b then now ∷ rest else rest)
push_front true now seen rest = append_assoc seen (now ∷ []) rest
push_front false now seen rest = simp append-nil

window_from :
    (calls : List Call) (e : TenantPolicyEngine) (t : String) (seen : List ℕ) (start stop : ℕ)
    → IsMonotone start calls stop
    → Shows start e t seen
    → Shows stop (run calls e) t (seen ++ admissions calls e t)
unfolding run step admissions
window_from [] e t seen start stop m (l, k, shown) = (l, omega arith, simp append-nil shown)
window_from (checks a priority now ∷ calls) e t seen start stop m shown =
    let admitted = a == t && is_admitted (check a priority now e).2 in
    let rest = admissions calls (check a priority now e).0 t in
    subst (Shows stop (run calls (check a priority now e).0) t) (push_front admitted now seen rest)
      (window_from calls (check a priority now e).0 t (seen ++ (if admitted then now ∷ [] else []))
        now stop m.1 (check-Shows a t priority now start e seen m.0 shown))
window_from (releases a ∷ calls) e t seen start stop m (l, k, shown) =
    window_from calls (release a e) t seen start stop m (l, k, (release_lem a t e).1 ∙ shown)

prune-nil : prune 0 [] ≡ []
unfolding prune filter
prune-nil = refl

no_states :
    (e : TenantPolicyEngine) (t : String)
    → e.states ≡ []
    → state_of e t ≡ record { timestamps = []; active_count = 0 }
unfolding state_of get
no_states e t h = rw h refl

length-prune : (now : ℕ) (ts : List ℕ) → length (prune now ts) ≤ length ts
unfolding prune
length-prune now ts = length-filter-le (λ x. ltb now (x + minute)) ts

-- The rate limit itself: over any history from an engine with no tenant on record, with a clock
-- that does not step back, the requests of a tenant that were admitted in the minute before `stop`
-- are at most the limit of its policy.
pub admissions_bounded :
    (calls : List Call) (e : TenantPolicyEngine) (t : String) (stop : ℕ)
    → e.states ≡ []
    → IsMonotone 0 calls stop
    → length (prune stop (admissions calls e t)) ≤ (get_policy e t).max_requests_per_minute
admissions_bounded calls e t stop h m =
    let empty = no_states e t h in
    let (l, k, shown) =
      window_from calls e t [] 0 stop m
        (0, omega arith, ap (λ s. s.timestamps) empty ∙ sym prune-nil) in
    let window = ap (prune stop) shown ∙ prune-prune l stop (admissions calls e t) k in
    let bounded =
      run-IsBounded calls e t
        (rw empty (record { rate = omega arith; concurrency = omega arith })) in
    rw (← window)
      (omega (arith, length-prune stop (state_of (run calls e) t).timestamps, bounded.rate))
