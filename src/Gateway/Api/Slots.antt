-- ===== src/Gateway/Api/Slots.antt =====
-- The concurrency slot of a submission's tenant.
use ai_inference_project.Common.{
  ℕ, ◌+◌, ◌≡◌, refl, ◌∙◌, String, Bool, true, false, Bool-cases, inl, inr, ◌++◌, if◌then◌else◌,
  nat_beq, beq_refl, string_key, arith, Result-cases, ok,
}
use ai_inference_project.Common.Int.{ℤ}
use ai_inference_project.Gateway.Admission.{check_load}
use ai_inference_project.Gateway.Auth.{authenticate}
use ai_inference_project.Gateway.Tenant.{
  TenantPolicy, TenantState, TenantPolicyEngine, check, get_policy, state_of, decide,
}
use ai_inference_project.Gateway.Tenant.Laws.{is_admitted, pruned, state_of-check}
use ai_inference_project.Inference.Router.{RoutingDecision, route}
use ai_inference_project.Gateway.Api.{
  App, Submission, Gateway, Response, accepted, refused, crashed, load_of, is_pass,
  inference_request, payload_of, accept, enqueue, charge, tenant_of, submit,
}

-- The requests of the tenant that the engine counts as active.
abbrev pub active : TenantPolicyEngine → String → ℕ
active e tenant_id = (state_of e tenant_id).active_count

-- The response comes after a tenant check that admitted the request.
abbrev pub is_charged : Response → Bool
is_charged (accepted id at d key) = true
is_charged (refused status retry) = nat_beq status 503
is_charged (crashed e) = false

decide-active :
    (p : TenantPolicy) (a : String) (priority : ℤ) (now : ℕ) (s : TenantState)
    → (decide p a priority now s).0.active_count
      ≡ s.active_count + (if is_admitted (decide p a priority now s).2 then 1 else 0)
unfolding decide
decide-active p a priority now s = ground arith

pub active-check :
    (a : String) (priority : ℤ) (now : ℕ) (e : TenantPolicyEngine)
    → active (check a priority now e).0 a
      ≡ active e a + (if is_admitted (check a priority now e).2 then 1 else 0)
unfolding check
active-check a priority now e =
    let counted = decide-active (get_policy e a) a priority now (pruned now (state_of e a)) in
    let after = state_of-check a a priority now e in ground (arith, after, beq_refl a, counted)

module _ (app : App) (s : Submission) (d : RoutingDecision)
    (routes : route app.router (inference_request s.request) ≡ ok d) where
  enqueue_charged :
      (g : Gateway)
      → ((enqueue app s g).1.tenant_engine ≡ g.tenant_engine)
        × (is_charged (enqueue app s g).0 ≡ true)
  unfolding enqueue accept
  enqueue_charged g = elim (Result-cases (app.publish (payload_of app s d))) [
    | inl (e, raises) ↦ rw (routes, raises, enqueue) (refl, refl)
    | inr (u, sends) ↦ rw (routes, sends, enqueue) (refl, refl)
  ]

  charge-active :
      (a : String) (g : Gateway)
      → let (response, g') = charge app s a g in
        (active g'.tenant_engine a
          ≡ active g.tenant_engine a + (if is_charged response then 1 else 0))
  unfolding charge
  charge-active a g =
      let (engine, events, result) = check a s.request.priority s.checked_at g.tenant_engine in
      let counted = active-check a s.request.priority s.checked_at g.tenant_engine in
      let charged = record g { tenant_engine = engine; metrics = g.metrics ++ events } in
      elim (Result-cases result) [
        | inl (e, raises) ↦ rw (raises, charge) (counted ∙ rw raises refl)
        | inr (r, answers) ↦ elim (Bool-cases r.allowed) [
          | inl yes' ↦
              let (same, taken) = enqueue_charged charged in
              rw (answers, yes', charge) (rw (taken, same) (counted ∙ rw (answers, yes') refl))
          | inr no' ↦ rw (answers, no', charge) (counted ∙ rw (answers, no') refl)
        ]
      ]

  -- For a request that the router has a decision for, a submission takes one slot of its tenant if
  -- it is accepted, and also if its publication fails, which is then refused with status 503 and
  -- gives no slot back; any other response leaves the tenant's slots as they were.
  pub submit-active :
      (g : Gateway)
      → let (response, g') = submit app s g in
        let a = tenant_of app s in
        (active g'.tenant_engine a
          ≡ active g.tenant_engine a + (if is_charged response then 1 else 0))
  unfolding submit
  submit-active g =
      let (result, events) = check_load app.admission (load_of g.result_store) in
      let seen = record g { metrics = g.metrics ++ events } in
      elim (Bool-cases (authenticate app.auth s.authorization).authenticated) [
        | inl known ↦ elim (Bool-cases (is_pass result.decision)) [
          | inl pass ↦ rw (known, pass, submit) (charge-active (tenant_of app s) seen)
          | inr over ↦ rw (known, over, submit) (omega arith)
        ]
        | inr unknown ↦ rw (unknown, submit) (omega arith)
      ]
