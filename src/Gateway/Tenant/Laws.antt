-- ===== src/Gateway/Tenant/Laws.antt =====
-- A check or a release of one tenant, and the states of all tenants.
use ai_inference_project.Common.{
  ℕ, ◌+◌, ◌-◌, ◌≤◌, ◌<◌, ◌≡◌, ◌↔◌, inl, inr, refl, ap, sym, ◌∙◌, subst, String, Bool, true, false,
  Bool-cases, List, [], ◌∷◌, ◌++◌, length, length-append, length-filter-le, arith, ltb, string_key,
  ◌==◌, if◌then◌else◌, beq_refl, Result, ok, raised, index_error,
}
use ai_inference_project.Common.Int.{ℤ}
use ai_inference_project.Common.Dict.{get-put}
use ai_inference_project.Gateway.Tenant.{
  TenantPolicy, TenantState, TenantPolicyEngine, TenantCheckResult, minute, get_policy, state_of,
  with_state, prune, decide, check, release,
}

pub state_of-with_state :
    (a b : String) (s : TenantState) (e : TenantPolicyEngine)
    → state_of (with_state a s e) b ≡ (if a == b then s else state_of e b)
unfolding state_of
state_of-with_state a b s e = rw get-put (ground arith)

-- Within both limits of a policy.
pub record IsBounded (p : TenantPolicy) (s : TenantState) : Type 0 where
  pub rate : length s.timestamps ≤ p.max_requests_per_minute
  pub concurrency : s.active_count ≤ p.max_concurrent

length-prune : (now : ℕ) (ts : List ℕ) → length (prune now ts) ≤ length ts
unfolding prune
length-prune now ts = length-filter-le (λ t. ltb now (t + minute)) ts

decide-IsBounded :
    (p : TenantPolicy) (tenant_id : String) (priority : ℤ) (now : ℕ) (s : TenantState)
    → IsBounded p s
    → IsBounded p (decide p tenant_id priority now s).0
unfolding decide
decide-IsBounded p tenant_id priority now s v =
    ground (arith, length-append s.timestamps (now ∷ []))

-- The state that a tenant's check starts from.
abbrev pub pruned : ℕ → TenantState → TenantState
pruned now s = record s { timestamps = prune now s.timestamps }

pub state_of-check :
    (a b : String) (priority : ℤ) (now : ℕ) (e : TenantPolicyEngine)
    → state_of (check a priority now e).0 b ≡ (
        if a == b
        then (decide (get_policy e a) a priority now (pruned now (state_of e a))).0
        else state_of e b)
unfolding check
state_of-check a b priority now e = state_of-with_state a b _ e

pub get_policy-check :
    (a b : String) (priority : ℤ) (now : ℕ) (e : TenantPolicyEngine)
    → get_policy (check a priority now e).0 b ≡ get_policy e b
unfolding check get_policy
get_policy-check a b priority now e = refl

pub state_of-release :
    (a b : String) (e : TenantPolicyEngine)
    → state_of (release a e) b ≡ (
        if a == b
        then record (state_of e b) { active_count = (state_of e b).active_count - 1 }
        else state_of e b)
unfolding release
state_of-release a b e = state_of-with_state a b _ e ∙ elim (Bool-cases (a == b)) [
  | inl same ↦ let eq : a ≡ b = (string_key.beq_iff a b).0 same in rw eq refl
  | inr other ↦ rw other refl
]

pub get_policy-release :
    (a b : String) (e : TenantPolicyEngine) → get_policy (release a e) b ≡ get_policy e b
unfolding release get_policy
get_policy-release a b e = refl

-- The state that a tenant's check leaves.
abbrev pub decided : String → ℤ → ℕ → TenantPolicyEngine → TenantState
decided a priority now e = (decide (get_policy e a) a priority now (pruned now (state_of e a))).0

decided-IsBounded :
    (a : String) (priority : ℤ) (now : ℕ) (e : TenantPolicyEngine)
    → IsBounded (get_policy e a) (state_of e a)
    → IsBounded (get_policy e a) (decided a priority now e)
decided-IsBounded a priority now e v =
    decide-IsBounded (get_policy e a) a priority now (pruned now (state_of e a)) (record {
      rate = omega (arith, length-prune now (state_of e a).timestamps);
      concurrency = v.concurrency;
    })

-- A check for one tenant keeps every tenant within the limits of its policy, and changes nothing
-- for a tenant with another name.
pub check_lem :
    (a b : String) (priority : ℤ) (now : ℕ) (e : TenantPolicyEngine)
    → IsBounded (get_policy e b) (state_of e b)
    → let e' = (check a priority now e).0 in
      IsBounded (get_policy e' b) (state_of e' b)
      × ((a == b) ≡ false → state_of e' b ≡ state_of e b)
check_lem a b priority now e v = (
  rw (get_policy-check, state_of-check a b priority now e)
      (elim (Bool-cases (a == b)) [
        | inl same ↦ rw same (
            subst (λ c. IsBounded (get_policy e c) (decided a priority now e))
              ((string_key.beq_iff a b).0 same)
              (decided-IsBounded a priority now e (
                subst (λ c. IsBounded (get_policy e c) (state_of e c))
                  (sym ((string_key.beq_iff a b).0 same)) v)))
        | inr other ↦ rw other v
      ]),
  λ other. state_of-check a b priority now e ∙ rw other refl,
)

-- A release of a tenant frees one slot of its own, if one is taken, and changes nothing else: its
-- rate window and the states of the other tenants stay.
pub release_lem :
    (a b : String) (e : TenantPolicyEngine)
    → ((state_of (release a e) a).active_count ≡ (state_of e a).active_count - 1)
      × ((state_of (release a e) b).timestamps ≡ (state_of e b).timestamps)
      × ((a == b) ≡ false → state_of (release a e) b ≡ state_of e b)
release_lem a b e = (
  rw (state_of-release, beq_refl a) refl,
  rw (state_of-release a b e) (ground arith),
  λ other. state_of-release a b e ∙ rw other refl,
)

decide_admitted :
    (p : TenantPolicy) (a : String) (priority : ℤ) (now : ℕ) (s : TenantState)
    (r : TenantCheckResult)
    → (decide p a priority now s).2 ≡ ok r
    → r.allowed ≡ true
    → (decide p a priority now s).0
      ≡ record { timestamps = s.timestamps ++ now ∷ []; active_count = s.active_count + 1 }
unfolding decide
decide_admitted p a priority now s r h admitted = ground arith

-- An admitted request takes one slot and one place in the rate window, and releasing it gives the
-- slot back.
pub release-check :
    (a : String) (priority : ℤ) (now : ℕ) (e : TenantPolicyEngine) (r : TenantCheckResult)
    → (check a priority now e).2 ≡ ok r
    → r.allowed ≡ true
    → let e' = (check a priority now e).0 in
      ((state_of e' a).timestamps ≡ prune now (state_of e a).timestamps ++ now ∷ [])
      × ((state_of e' a).active_count ≡ (state_of e a).active_count + 1)
      × ((state_of (release a e') a).active_count ≡ (state_of e a).active_count)
release-check a priority now e r h admitted =
    let taken =
      decide_admitted (get_policy e a) a priority now (pruned now (state_of e a)) r
        (unfold check in h) admitted in
    let after = state_of-check a a priority now e ∙ rw (beq_refl a) taken in
    (
      ap (λ s. s.timestamps) after,
      ap (λ s. s.active_count) after,
      (release_lem a a (check a priority now e).0).0 ∙ rw after (omega arith),
    )

abbrev pub is_admitted : Result TenantCheckResult → Bool
is_admitted (ok r) = r.allowed
is_admitted (raised e) = false

decide_answers :
    (p : TenantPolicy) (a : String) (priority : ℤ) (now : ℕ) (s : TenantState)
    → let answer = (decide p a priority now s).2 in
      ((is_admitted answer ≡ true)
        ↔ ((length s.timestamps < p.max_requests_per_minute) × (s.active_count < p.max_concurrent)))
      × ((answer ≡ raised index_error) ↔ ((p.max_requests_per_minute ≡ 0) × (s.timestamps ≡ [])))
unfolding decide
decide_answers p a priority now s =
    ((λ h. ground arith, λ (h, k). ground arith), (λ h. ground arith, λ (h, k). ground arith))

-- A check admits exactly when the tenant has fewer requests in the last minute and fewer active
-- requests than its policy allows. It raises an index error exactly when the rate limit is zero and
-- the tenant has no request in the last minute.
pub check_answers :
    (a : String) (priority : ℤ) (now : ℕ) (e : TenantPolicyEngine)
    → let p = get_policy e a in
      let recent = prune now (state_of e a).timestamps in
      let answer = (check a priority now e).2 in
      ((is_admitted answer ≡ true) ↔ (
        (length recent < p.max_requests_per_minute)
        × ((state_of e a).active_count < p.max_concurrent)))
      × ((answer ≡ raised index_error) ↔ ((p.max_requests_per_minute ≡ 0) × (recent ≡ [])))
unfolding check
check_answers a priority now e =
    decide_answers (get_policy e a) a priority now (pruned now (state_of e a))

decide_timestamps :
    (p : TenantPolicy) (a : String) (priority : ℤ) (now : ℕ) (s : TenantState)
    → (decide p a priority now s).0.timestamps ≡ (
        if is_admitted (decide p a priority now s).2
        then s.timestamps ++ now ∷ []
        else s.timestamps)
unfolding decide
decide_timestamps p a priority now s = ground arith

-- The rate window of each tenant after a check.
pub timestamps-check :
    (a b : String) (priority : ℤ) (now : ℕ) (e : TenantPolicyEngine)
    → (state_of (check a priority now e).0 b).timestamps ≡ (
        if a == b
        then (if is_admitted (check a priority now e).2
            then prune now (state_of e b).timestamps ++ now ∷ []
            else prune now (state_of e b).timestamps)
        else (state_of e b).timestamps)
timestamps-check a b priority now e =
    rw (state_of-check a b priority now e) (elim (Bool-cases (a == b)) [
      | inl same ↦
          let eq : a ≡ b = (string_key.beq_iff a b).0 same in
          rw same (
            subst
              (λ c. (decided a priority now e).timestamps ≡ (
                if is_admitted (check a priority now e).2
                then prune now (state_of e c).timestamps ++ now ∷ []
                else prune now (state_of e c).timestamps))
              eq
              (unfold check in
                decide_timestamps (get_policy e a) a priority now (pruned now (state_of e a))))
      | inr other ↦ rw other refl
    ])
