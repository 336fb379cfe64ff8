-- ===== src/Core/Reconciliation/Laws.antt =====
-- A pass of the engine and the result store.
use Prim.Native.String.{◌++◌ as append_text}
use ai_inference_project.Common.{
  ◌≡◌, refl, sym, ap, String, Bool, true, false, Bool-cases, inl, inr, ◌==◌, string_key, some, List,
  [], ◌∷◌, ◌++◌, All, All-map, if◌then◌else◌, arith, Result, Result-cases, ok, raised, subst,
}
use ai_inference_project.Core.ResultStore.{
  RequestStatus, pending, processing, completed, failed, InferenceResult, ResultStore,
  scan_by_status, same_status,
}
use ai_inference_project.Core.ResultStore
use ai_inference_project.Core.ResultStore.Laws.{get-put_lem, IsKeyed, scan_by_status_sound}
use ai_inference_project.Core.Reconciliation.{
  Services, ReconciliationConfig, Engine, is_stale, select_stale, fail_record, execute_heal,
  recover, recover_all, run_once, decide_action,
}

-- The request has ended, and its record says how.
abbrev pub is_ended : RequestStatus → Bool
is_ended completed = true
is_ended failed = true
is_ended _ = false

-- No record is for the request.
abbrev avoids : String → List InferenceResult → Bool
avoids x [] = true
avoids x (r ∷ rs) = if r.request_id == x then false else avoids x rs

abbrev avoids_found : String → Result (List InferenceResult) → Bool
avoids_found x (raised e) = true
avoids_found x (ok found) = avoids x found

avoids-append :
    (x : String) (rs ts : List InferenceResult)
    → avoids x rs ≡ true
    → avoids x ts ≡ true
    → avoids x (rs ++ ts) ≡ true
avoids-append x [] ts h k = k
avoids-append x (r ∷ rs) ts h k = ground (arith, avoids-append x rs ts (ground arith) k)

avoids_of_All :
    (x : String) (rs : List InferenceResult)
    → All (λ r. (r.request_id == x) ≡ false) rs
    → avoids x rs ≡ true
avoids_of_All x [] h = refl
avoids_of_All x (r ∷ rs) h = rw (h.0, avoids_of_All x rs h.1) refl

module _ (env : Services) (config : ReconciliationConfig) where
  is_stale-store :
      (r : InferenceResult) (s : Engine) → (is_stale env config r s).1.result_store ≡ s.result_store
  unfolding is_stale
  is_stale-store r s = ground arith

  pub select_stale-store :
      (rs : List InferenceResult) (s : Engine)
      → (select_stale env config rs s).1.result_store ≡ s.result_store
  unfolding select_stale
  select_stale-store [] s = refl
  select_stale-store (r ∷ rs) s =
      let s1 = (is_stale env config r s).1 in
      ground (arith, is_stale-store r s, select_stale-store rs s1)

  select_stale-avoids :
      (x : String) (rs : List InferenceResult) (s : Engine)
      → avoids x rs ≡ true
      → avoids_found x (select_stale env config rs s).0 ≡ true
  unfolding select_stale
  select_stale-avoids x [] s h = refl
  select_stale-avoids x (r ∷ rs) s h =
      ground (arith, h, select_stale-avoids x rs (is_stale env config r s).1 (ground (arith, h)))

  fail_record-get :
      (r : InferenceResult) (error x : String) (s : Engine)
      → (r.request_id == x) ≡ false
      → ResultStore.get (fail_record env config r error s).result_store x
        ≡ ResultStore.get s.result_store x
  unfolding fail_record
  fail_record-get r error x s e = rw (get-put_lem, e) refl

  recover-get :
      (r : InferenceResult) (x : String) (s : Engine)
      → (r.request_id == x) ≡ false
      → ResultStore.get (recover env config r s).1.result_store x ≡ ResultStore.get s.result_store x
  unfolding recover execute_heal decide_action
  recover-get r x s e = ground (
    arith,
    e,
    fail_record-get r "Reconciliation: Resubmit failed: no queue publisher" x s e,
    fail_record-get r (append_text "Reconciliation: " (decide_action env config r).reason) x s e,
  )

  recover_all-get :
      (rs : List InferenceResult) (x : String) (s : Engine)
      → avoids x rs ≡ true
      → ResultStore.get (recover_all env config rs s).1.result_store x
        ≡ ResultStore.get s.result_store x
  unfolding recover_all
  recover_all-get [] x s h = refl
  recover_all-get (r ∷ rs) x s h =
      let s1 = (recover env config r s).1 in
      let differs : (r.request_id == x) ≡ false = ground (arith, h) in
      ground (arith, recover-get r x s differs, recover_all-get rs x s1 (ground (arith, h)))

  -- A scan for a status that is not `x`'s does not find `x`.
  scan-avoids :
      (x : String) (r : InferenceResult) (store : ResultStore) (status : RequestStatus)
      → IsKeyed store
      → ResultStore.get store x ≡ some r
      → same_status r.status status ≡ false
      → avoids x (scan_by_status store status) ≡ true
  scan-avoids x r store status keyed e other = avoids_of_All x (scan_by_status store status) (
      All-map _ (λ q. (q.request_id == x) ≡ false)
        (λ q h. elim (Bool-cases (q.request_id == x)) [
          | inl same ↦ absurd (
              ground (
                arith,
                e,
                h.0,
                h.1,
                other,
                ap (λ k. ResultStore.get store k) ((string_key.beq_iff q.request_id x).0 same),
              ))
          | inr differs ↦ differs
        ])
        (scan_by_status store status) (scan_by_status_sound store status keyed))

  -- A pass of the engine, whatever its configuration, its services and the clock, leaves the record
  -- of a request that has completed or failed as it is, in a keyed store.
  pub run_once-keeps :
      (x : String) (r : InferenceResult) (s : Engine)
      → IsKeyed s.result_store
      → ResultStore.get s.result_store x ≡ some r
      → is_ended r.status ≡ true
      → ResultStore.get (run_once env config s).1.result_store x ≡ some r
  unfolding run_once
  run_once-keeps x r s keyed e ended =
      let waiting = scan_by_status s.result_store pending in
      let s1 = (select_stale env config waiting s).1 in
      let same = select_stale-store waiting s in
      let running = scan_by_status s1.result_store processing in
      let s2 = (select_stale env config running s1).1 in
      let first =
        select_stale-avoids x waiting s
          (scan-avoids x r s.result_store pending keyed e (ground arith)) in
      let second = select_stale-avoids x running s1 (
        scan-avoids x r s1.result_store processing (subst IsKeyed (sym same) keyed) (rw same e)
          (ground arith)) in
      elim (Result-cases (select_stale env config waiting s).0) [
        | inl (e1, raises) ↦ ground (arith, raises, same, e)
        | inr (found, finds) ↦ elim (Result-cases (select_stale env config running s1).0) [
          | inl (e2, raises) ↦ ground (arith, finds, raises, same, select_stale-store running s1, e)
          | inr (more, finds2) ↦ ground (
            arith,
            finds,
            finds2,
            same,
            select_stale-store running s1,
            e,
            recover_all-get (found ++ more) x s2 (
                avoids-append x found more (ground (arith, first, finds))
                  (ground (arith, second, finds2))),
          )
        ]
      ]
