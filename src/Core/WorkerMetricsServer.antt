-- ===== src/Core/WorkerMetricsServer.antt =====
-- core/worker_metrics_server.py: the check of the bind address, and the server's life and answers. The
-- parsing of an address by Python's `ipaddress` and the binding of the socket are arguments; the text
-- of the metrics is one too. An address is its number.
pub mod Laws
use ai_inference_project.Common.{
  ℕ, ◌+◌, String, Bool, true, false, not, ◌&&◌, ◌||◌, Option, none, some, leb, if◌then◌else◌, ◌==◌,
  nat_key, string_key, Result, ok, raised, value_error, runtime_error,
}

-- `IPv4Address` and `IPv6Address`
pub data Address : Type 0 where
  v4 v6 : ℕ → Address

-- A network: the number of its first address and of its addresses.
pub data Network : Type 0 where
  network_v4 network_v6 : (first size : ℕ) → Network

-- `address in network`, which never holds between the two versions.
unfoldable pub is_in_network : Network → Address → Bool
is_in_network (network_v4 first size) (v4 a) = leb first a && not (leb (first + size) a)
is_in_network (network_v4 first size) (v6 a) = false
is_in_network (network_v6 first size) (v4 a) = false
is_in_network (network_v6 first size) (v6 a) = leb first a && not (leb (first + size) a)

-- `is_unspecified`
unfoldable pub is_unspecified : Address → Bool
is_unspecified (v4 a) = a == 0
is_unspecified (v6 a) = a == 0

-- `is_multicast`: 224.0.0.0/4 and ff00::/8.
unfoldable pub is_multicast : Address → Bool
unfolding is_in_network
is_multicast (v4 a) = is_in_network (network_v4 3_758_096_384 268_435_456) (v4 a)
is_multicast (v6 a) =
    is_in_network
      (network_v6 338_953_138_925_153_547_590_470_800_371_487_866_880
        1_329_227_995_784_915_872_903_807_060_280_344_576)
      (v6 a)

-- `is_loopback`: 127.0.0.0/8 and ::1.
unfoldable pub is_loopback : Address → Bool
unfolding is_in_network
is_loopback (v4 a) = is_in_network (network_v4 2_130_706_432 16_777_216) (v4 a)
is_loopback (v6 a) = a == 1

-- `any(address in network for network in private_networks)`: 10.0.0.0/8, 172.16.0.0/12,
-- 192.168.0.0/16 and fc00::/7.
unfoldable pub is_in_private : Address → Bool
unfolding is_in_network
is_in_private a =
    is_in_network (network_v4 167_772_160 16_777_216) a
    || (is_in_network (network_v4 2_886_729_728 1_048_576) a
        || (is_in_network (network_v4 3_232_235_520 65_536) a
            || is_in_network
                (network_v6 334_965_454_937_798_799_971_759_379_190_646_833_152
                  2_658_455_991_569_831_745_807_614_120_560_689_152)
                a))

-- `validate_private_bind_host`, where `parse` is `ipaddress.ip_address`.
unfoldable pub validate_private_bind_host :
    (parse : String → Option Address) → String → Result String
validate_private_bind_host parse host = elim (parse host) [
  | none ↦ raised value_error
  | some a ↦
      if is_unspecified a || is_multicast a
      then raised value_error
      else if is_loopback a || is_in_private a
      then ok host
      else raised value_error
]

-- `WorkerMetricsServer`: `bound` is the address of the socket while there is one, and `alive` says
-- whether the thread runs.
pub record WorkerMetricsServer : Type 0 where
  pub host : String
  pub port : ℕ
  pub bound : Option (String × ℕ)
  pub alive : Bool

-- `__init__`; a negative port is refused as one beyond the range is.
unfoldable pub new_server :
    (parse : String → Option Address) → (host : String) (port : ℕ) → Result WorkerMetricsServer
new_server parse host port = elim (validate_private_bind_host parse host) [
  | raised e ↦ raised e
  | ok valid ↦
      if leb port 65_535
      then ok (record { host = valid; port = port; bound = none; alive = false })
      else raised value_error
]

unfoldable pub bound_host : WorkerMetricsServer → String
bound_host s = elim s.bound [ none ↦ s.host | some (host, port) ↦ host ]

unfoldable pub bound_port : WorkerMetricsServer → ℕ
bound_port s = elim s.bound [ none ↦ s.port | some (host, port) ↦ port ]

unfoldable pub running : WorkerMetricsServer → Bool
running s = elim s.bound [ none ↦ false | some address ↦ s.alive ]

-- `start`, where `bind` makes the socket and answers with its address.
unfoldable pub start :
    (bind : String → ℕ → Result (String × ℕ)) → WorkerMetricsServer → Result WorkerMetricsServer
unfolding running
start bind s = if running s then ok s else elim (bind s.host s.port) [
  | raised e ↦ raised e
  | ok address ↦ ok (record s { bound = some address; alive = true })
]

-- `stop`
unfoldable pub stop : WorkerMetricsServer → WorkerMetricsServer
stop s = elim s.bound [ none ↦ s | some address ↦ record s { bound = none; alive = false } ]

-- `do_GET`: the status and the payload.
unfoldable pub do_get : (render : String) (path : String) → ℕ × String
do_get render path = if path == "/metrics" then (200, render) else (404, "")
