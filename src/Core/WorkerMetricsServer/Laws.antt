-- ===== src/Core/WorkerMetricsServer/Laws.antt =====
-- Where the metrics server can listen.
use ai_inference_project.Common.{
  ℕ, ◌/◌, ◌≤◌, ◌≡◌, ◌⊎◌, ◌↔◌, inl, inr, String, Bool, true, false, Option, Option-cases, none, some,
  arith, Result, ok, raised, Result-cases, if◌then◌else◌, ◌||◌, value_error, ap, subst,
}
use ai_inference_project.Core.WorkerMetricsServer.{
  Address, v4, v6, is_in_network, is_unspecified, is_multicast, is_loopback, is_in_private,
  validate_private_bind_host, WorkerMetricsServer, new_server, start, stop, running,
}

-- An address of the loopback or of a private network: 127.*, 10.*, 172.16-31.*, 192.168.*, and ::1
-- and fc00::/7, by the leading bits of its number.
abbrev pub IsPrivate : Address → Type 0
IsPrivate (v4 a) =
    (a / 16_777_216 ≡ 127)
    ⊎ ((a / 16_777_216 ≡ 10) ⊎ ((a / 1_048_576 ≡ 2_753) ⊎ (a / 65_536 ≡ 49_320)))
IsPrivate (v6 a) = (a ≡ 1) ⊎ (a / 2_658_455_991_569_831_745_807_614_120_560_689_152 ≡ 126)

abbrev allowed : Address → Bool
allowed a = if is_unspecified a || is_multicast a then false else (is_loopback a || is_in_private a)

allowed_iff : (a : Address) → (allowed a ≡ true) ↔ IsPrivate a
unfolding is_unspecified is_multicast is_loopback is_in_private is_in_network
allowed_iff (v4 a) = (λ h. ground arith, λ h. ground arith)
allowed_iff (v6 a) = (λ h. ground arith, λ h. ground arith)

validate_allowed :
    (parse : String → Option Address) (host : String) (a : Address)
    → parse host ≡ some a
    → validate_private_bind_host parse host ≡ (if allowed a then ok host else raised value_error)
unfolding validate_private_bind_host
validate_allowed parse host a e = ground (arith, e)

validate_none :
    (parse : String → Option Address) (host : String)
    → parse host ≡ none
    → validate_private_bind_host parse host ≡ raised value_error
unfolding validate_private_bind_host
validate_none parse host e = ground (arith, e)

-- A server is made exactly for an address text that is read as a loopback or private address and a
-- port up to 65535; it then has that address and that port, no socket, and no thread.
pub new_server_lem :
    (parse : String → Option Address) (host : String) (port : ℕ) (s : WorkerMetricsServer)
    → (new_server parse host port ≡ ok s) ↔ (
        (a : Address) × (parse host ≡ some a)
        × IsPrivate a
        × (port ≤ 65_535)
        × (s ≡ record { host = host; port = port; bound = none; alive = false }))
unfolding new_server
new_server_lem parse host port s = elim (Option-cases (parse host)) [
  | inl e ↦
      let invalid = validate_none parse host e in
      (λ h. absurd (ground (arith, invalid, h)), λ (a, f, _, _, _). absurd (ground (arith, e, f)))
  | inr (a, e) ↦
      let valid = validate_allowed parse host a e in
      (
        λ h. (
          a,
          e,
          (allowed_iff a).0 (ground (arith, valid, h)),
          ground (arith, valid, h),
          ground (arith, valid, h),
        ),
        λ (b, f, private, within, made).
            let same : b ≡ a = ground (arith, e, f) in
            let passes = (allowed_iff a).1 (subst IsPrivate same private) in
            ground (arith, valid, passes, within, made),
      )
]

-- Starting a server that is not running binds its host and port, or ends with the exception of the
-- binding; a started server that is stopped has no socket, does not run, and keeps its host and port.
pub stop-start :
    (bind : String → ℕ → Result (String × ℕ)) (s after : WorkerMetricsServer)
    → running s ≡ false
    → start bind s ≡ ok after
    → ((address : String × ℕ) × (bind s.host s.port ≡ ok address)
        × (after ≡ record s { bound = some address; alive = true }))
      × (stop after ≡ record s { bound = none; alive = false })
unfolding start stop
stop-start bind s after idle h = elim (Result-cases (bind s.host s.port)) [
  | inl (e, raises) ↦ absurd (ground (arith, idle, raises, h))
  | inr (address, binds) ↦
      let made : after ≡ record s { bound = some address; alive = true } =
        ground (arith, idle, binds, h) in
      ((address, binds, made), ap stop made)
]
