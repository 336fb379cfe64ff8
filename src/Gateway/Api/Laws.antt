-- ===== src/Gateway/Api/Laws.antt =====
-- What a submission does to the store, the queue and the tenant.
use ai_inference_project.Common.{
  ◌≡◌, refl, String, Bool-cases, inl, inr, List, [], ◌∷◌, ◌++◌, string_key, Result-cases, ok,
}
use ai_inference_project.Core.Audit.{AuditLog}
use ai_inference_project.Core.ResultStore
use ai_inference_project.Core.ResultStore.{ResultStore}
use ai_inference_project.Gateway.Admission.{check_load}
use ai_inference_project.Gateway.Auth.{authenticate}
use ai_inference_project.Gateway.Tenant.{check}
use ai_inference_project.Inference.Router.{route}
use ai_inference_project.Gateway.Api.{
  App, Submission, Gateway, Response, QueuePayload, accepted, refused, crashed, load_of, is_pass,
  inference_request, payload_of, pending_record, accept, enqueue, charge, tenant_of, submit,
}

-- What the response says of the state before and after it: an accepted request is published, once
-- and at the end of the queue, with its routing decision, and its record is pending; any other
-- response leaves the queue, the records and the audit log as they were.
abbrev pub Explains :
    App → Submission → List QueuePayload → ResultStore → AuditLog → Response × Gateway → Type 0
Explains app s published store audit (accepted id at d key, g') =
    (route app.router (inference_request s.request) ≡ ok d)
    × (app.publish (payload_of app s d) ≡ ok tt)
    × (g'.published ≡ published ++ payload_of app s d ∷ [])
    × (g'.result_store ≡ ResultStore.put (pending_record s d) store)
    × (id ≡ s.request_id)
Explains app s published store audit (refused status retry, g') =
    (g'.published ≡ published) × (g'.result_store ≡ store) × (g'.audit ≡ audit)
Explains app s published store audit (crashed e, g') =
    (g'.published ≡ published) × (g'.result_store ≡ store) × (g'.audit ≡ audit)

module _ (app : App) (s : Submission) where
  enqueue-Explains :
      (g : Gateway) → Explains app s g.published g.result_store g.audit (enqueue app s g)
  unfolding enqueue accept
  enqueue-Explains g = elim (Result-cases (route app.router (inference_request s.request))) [
    | inl (e, raises) ↦ rw (raises, enqueue) (refl, refl, refl)
    | inr (d, routes) ↦ elim (Result-cases (app.publish (payload_of app s d))) [
      | inl (e, raises) ↦ rw (routes, raises, enqueue) (refl, refl, refl)
      | inr (u, sends) ↦ rw (routes, sends, enqueue) (routes, sends, refl, refl, refl)
    ]
  ]

  charge-Explains :
      (tenant_id : String) (g : Gateway)
      → Explains app s g.published g.result_store g.audit (charge app s tenant_id g)
  unfolding charge
  charge-Explains tenant_id g =
      let (engine, events, result) =
        check tenant_id s.request.priority s.checked_at g.tenant_engine in
      let charged = record g { tenant_engine = engine; metrics = g.metrics ++ events } in
      elim (Result-cases result) [
        | inl (e, raises) ↦ rw (raises, charge) (refl, refl, refl)
        | inr (r, answers) ↦ elim (Bool-cases r.allowed) [
          | inl yes' ↦ rw (answers, yes', charge) (enqueue-Explains charged)
          | inr no' ↦ rw (answers, no', charge) (refl, refl, refl)
        ]
      ]

  -- Any response to a submission tells what happened. An accepted request was routed, its payload
  -- with that decision was published, once and at the end of the queue, and its record is pending;
  -- every other response leaves the queue, the records and the audit log as they were.
  pub submit_lem :
      (g : Gateway) → Explains app s g.published g.result_store g.audit (submit app s g)
  unfolding submit
  submit_lem g =
      let (result, events) = check_load app.admission (load_of g.result_store) in
      let seen = record g { metrics = g.metrics ++ events } in
      elim (Bool-cases (authenticate app.auth s.authorization).authenticated) [
        | inl known ↦ elim (Bool-cases (is_pass result.decision)) [
          | inl pass ↦ rw (known, pass, submit) (charge-Explains (tenant_of app s) seen)
          | inr over ↦ rw (known, over, submit) (refl, refl, refl)
        ]
        | inr unknown ↦ rw (unknown, submit) (refl, refl, refl)
      ]
