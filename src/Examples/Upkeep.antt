-- ===== src/Examples/Upkeep.antt =====
-- The background parts of the platform on concrete inputs.
use ai_inference_project.Common.{
  ℕ, arith, ◌≡◌, ◌≤◌, ◌↔◌, refl, String, true, false, Option, some, none, [], ◌∷◌, if◌then◌else◌,
  ◌==◌, string_key, ok,
}
use ai_inference_project.Common.Dict
use ai_inference_project.Common.Int.{ℤ, pos}
use ai_inference_project.Core.Config.{
  Value, Reader, read, env_to_dict, meets, is_met, validate_fields, validate_vllm_url,
  validate_email, has_at, worker_config, load_config, text_at, number_at, is_nan_at, Float, finite,
}
use ai_inference_project.Gateway.Auth.{lowers_to}
use ai_inference_project.Worker.Setup.Placement.{IsAllowed}
use ai_inference_project.Worker.Setup.Loaded.{config_of, load_config-IsAllowed}
use ai_inference_project.Core.ReconciliationScheduler.{ReconciliationScheduler, loop}
use ai_inference_project.Core.ReconciliationScheduler.Laws.{Passes, loop-Passes}
use ai_inference_project.Core.WorkerMetricsServer.{Address, v4, WorkerMetricsServer, new_server}
use ai_inference_project.Core.WorkerMetricsServer.Laws.{IsPrivate, new_server_lem}
use ai_inference_project.Examples.Stores.{services, config, stuck}

abbrev scheduler : ReconciliationScheduler
scheduler = record {
  engine = stuck;
  metrics = [];
  stop_event = false;
  running = true;
  pass_count = 0;
}

loop-Passes_example :
    Passes services config scheduler (loop services config (false ∷ false ∷ true ∷ []) scheduler)
loop-Passes_example =
    loop-Passes services config (false ∷ false ∷ true ∷ []) scheduler
      (refl, (refl, tt), (refl, tt, tt))

-- 127.0.0.1
abbrev parse : String → Option Address
parse host = if host == "127.0.0.1" then some (v4 2_130_706_433) else none

abbrev server : WorkerMetricsServer
server = record { host = "127.0.0.1"; port = 9101; bound = none; alive = false }

new_server_lem_example : (new_server parse "127.0.0.1" 9101 ≡ ok server) ↔ (
    (a : Address) × (parse "127.0.0.1" ≡ some a)
    × IsPrivate a
    × (9101 ≤ 65_535)
    × (server ≡ record { host = "127.0.0.1"; port = 9101; bound = none; alive = false }))
new_server_lem_example = new_server_lem parse "127.0.0.1" 9101 server

-- An environment with the required variables, and defaults for the rest.
abbrev variables : Dict.Dict String String
variables =
    ("AWS_REGION", "us-east-1")
    ∷ ("AWS_ACCOUNT_ID", "1")
    ∷ ("QUEUE_NAME", "q")
    ∷ ("DLQ_NAME", "d")
    ∷ ("SSM_KILL_SWITCH", "s")
    ∷ ("SSM_CONFIG_PREFIX", "p")
    ∷ ("LOG_GROUP_NAME", "g")
    ∷ ("LOG_STREAM_NAME", "l")
    ∷ ("VLLM_URL", "http://vllm:8000")
    ∷ ("VLLM_MODEL", "m")
    ∷ ("VPN_TUNNEL_CIDR", "c")
    ∷ ("HOME_IP", "h")
    ∷ ("VPC_CIDR", "v")
    ∷ []

-- What `int` and `float` read in the defaults.
abbrev numbers : Dict.Dict String ℤ
numbers =
    ("0", pos 0)
    ∷ ("2", pos 2)
    ∷ ("3", pos 3)
    ∷ ("4", pos 4)
    ∷ ("5", pos 5)
    ∷ ("7", pos 7)
    ∷ ("8", pos 8)
    ∷ ("10", pos 10)
    ∷ ("20", pos 20)
    ∷ ("30", pos 30)
    ∷ ("90", pos 90)
    ∷ ("100", pos 100)
    ∷ ("300", pos 300)
    ∷ ("1024", pos 1024)
    ∷ ("2048", pos 2048)
    ∷ ("4096", pos 4096)
    ∷ ("8192", pos 8192)
    ∷ ("9101", pos 9101)
    ∷ ("12000", pos 12000)
    ∷ ("24576", pos 24576)
    ∷ ("32768", pos 32768)
    ∷ ("49152", pos 49152)
    ∷ ("65000", pos 65000)
    ∷ []

abbrev finite_pos : ℕ → Float
finite_pos n = finite (pos n)

abbrev hundredths : Dict.Dict String Float
hundredths =
    ("0.0", finite_pos 0)
    ∷ ("0.1", finite_pos 10)
    ∷ ("2.0", finite_pos 200)
    ∷ ("30.0", finite_pos 3000)
    ∷ ("92.0", finite_pos 9200)
    ∷ ("300.0", finite_pos 30000)
    ∷ ("2000.0", finite_pos 200000)
    ∷ []

abbrev reader : Reader
reader = record { getenv = Dict.get variables; int = Dict.get numbers; float = Dict.get hundredths }

loaded :
    (values : Dict.Dict String Value) × (load_config reader ≡ ok values)
    × (is_nan_at values "gpu_max_utilization_percent" ≡ false)
    × (is_nan_at values "gpu_device_utilization_percent" ≡ false)
    × (number_at values "gpu_device_used_memory_mb" ≤ number_at values "gpu_device_memory_mb")
unfolding load_config env_to_dict read lowers_to Dict.get worker_config validate_fields is_met meets
    validate_vllm_url validate_email text_at number_at has_at
loaded = (_, refl, refl, refl, omega arith)

load_config-IsAllowed_example : IsAllowed (config_of loaded.0)
load_config-IsAllowed_example =
    load_config-IsAllowed reader loaded.0 loaded.1 loaded.2 loaded.3 loaded.4
