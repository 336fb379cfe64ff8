-- ===== src/Core/Config.antt =====
-- core/config.py: the configuration of a worker, from the environment variables to its validation by
-- the fields of `WorkerConfig`. The variables that python-dotenv and the process leave are one
-- function; `int` and `float` are arguments. A finite float is counted in hundredths, so that texts
-- that are finer are not modelled; NaN, which the bounds of pydantic let pass, and the infinities are.
-- The log is not modelled.
pub mod Laws
pub mod Manager
use text.Mathlib.Text.{starts_with}
use Prim.Native.Char.{code}
use Prim.Native.String
use Prim.Native.String.{◌++◌}
use ai_inference_project.Common.{
  ℕ, String, Bool, true, false, ◌&&◌, ◌||◌, Option, none, some, List, [], ◌∷◌, leb, nat_beq,
  if◌then◌else◌, get_or, truthy, string_key, Result, ok, raised, value_error, validation_error,
}
use ai_inference_project.Common.Perms.{all}
use ai_inference_project.Common.Int.{ℤ, pos, negsuc}
use ai_inference_project.Common.Dict
use ai_inference_project.Common.Dict.{Dict}
use ai_inference_project.Gateway.Auth.{lowers_to}

-- A Python float: a number of hundredths, NaN, or an infinity with its sign.
pub data Float : Type 0 where
  finite : (hundredths : ℤ) → Float
  not_a_number : Float
  infinite : (negative : Bool) → Float

-- The value of a field.
pub data Value : Type 0 where
  words : Option String → Value
  whole : ℤ → Value
  number : Float → Value
  flag : Bool → Value

-- How `_env_to_dict` reads a variable, with the text that stands for one that is not set.
pub data Reading : Type 0 where
  text_of : Option String → Reading
  whole_of number_of flag_of : String → Reading

-- The type and the bounds of a field of `WorkerConfig`.
pub data Constraint : Type 0 where
  is_text is_optional_text is_flag : Constraint
  whole_between number_between : (low high : ℕ) → Constraint

-- The environment, and Python's `int` and `float` on texts.
pub record Reader : Type 0 where
  pub getenv : String → Option String
  pub int : String → Option ℤ
  pub float : String → Option Float

-- The entries of `_env_to_dict`: the field, its variable, and how it is read.
abbrev pub entries : List (String × String × Reading)
entries =
    ("aws_region", "AWS_REGION", text_of none)
    ∷ ("aws_account_id", "AWS_ACCOUNT_ID", text_of none)
    ∷ ("queue_name", "QUEUE_NAME", text_of none)
    ∷ ("dlq_name", "DLQ_NAME", text_of none)
    ∷ ("queue_visibility_timeout", "QUEUE_VISIBILITY_TIMEOUT", whole_of "300")
    ∷ ("max_receive_count", "MAX_RECEIVE_COUNT", whole_of "3")
    ∷ ("ssm_kill_switch", "SSM_KILL_SWITCH", text_of none)
    ∷ ("ssm_config_prefix", "SSM_CONFIG_PREFIX", text_of none)
    ∷ ("log_group_name", "LOG_GROUP_NAME", text_of none)
    ∷ ("log_stream_name", "LOG_STREAM_NAME", text_of none)
    ∷ ("log_retention_days", "LOG_RETENTION_DAYS", whole_of "7")
    ∷ ("vllm_url", "VLLM_URL", text_of none)
    ∷ ("vllm_model", "VLLM_MODEL", text_of none)
    ∷ ("vllm_small_model", "VLLM_SMALL_MODEL", text_of none)
    ∷ ("vllm_large_model", "VLLM_LARGE_MODEL", text_of none)
    ∷ ("vllm_small_context_tokens", "VLLM_SMALL_CONTEXT_TOKENS", whole_of "4096")
    ∷ ("vllm_large_context_tokens", "VLLM_LARGE_CONTEXT_TOKENS", whole_of "32768")
    ∷ ("vllm_temperature", "VLLM_TEMPERATURE", number_of "0.1")
    ∷ ("vllm_max_tokens", "VLLM_MAX_TOKENS", whole_of "2048")
    ∷ ("worker_poll_interval", "WORKER_POLL_INTERVAL", whole_of "20")
    ∷ ("worker_health_check_interval", "WORKER_HEALTH_CHECK_INTERVAL", whole_of "30")
    ∷ ("worker_max_retries", "WORKER_MAX_RETRIES", whole_of "3")
    ∷ ("worker_backoff_factor", "WORKER_BACKOFF_FACTOR", number_of "2.0")
    ∷ ("worker_batch_size", "WORKER_BATCH_SIZE", whole_of "4")
    ∷ ("worker_batch_token_budget", "WORKER_BATCH_TOKEN_BUDGET", whole_of "12000")
    ∷ ("gpu_scheduling_enabled", "GPU_SCHEDULING_ENABLED", flag_of "true")
    ∷ ("gpu_memory_reserve_mb", "GPU_MEMORY_RESERVE_MB", whole_of "1024")
    ∷ ("gpu_max_utilization_percent", "GPU_MAX_UTILIZATION_PERCENT", number_of "92.0")
    ∷ ("gpu_small_model_memory_mb", "GPU_SMALL_MODEL_MEMORY_MB", whole_of "8192")
    ∷ ("gpu_large_model_memory_mb", "GPU_LARGE_MODEL_MEMORY_MB", whole_of "24576")
    ∷ ("gpu_small_model_max_batch_size", "GPU_SMALL_MODEL_MAX_BATCH_SIZE", whole_of "8")
    ∷ ("gpu_large_model_max_batch_size", "GPU_LARGE_MODEL_MAX_BATCH_SIZE", whole_of "2")
    ∷ ("gpu_device_id", "GPU_DEVICE_ID", text_of (some "gpu-0"))
    ∷ ("gpu_device_name", "GPU_DEVICE_NAME", text_of (some "local-gpu"))
    ∷ ("gpu_device_memory_mb", "GPU_DEVICE_MEMORY_MB", whole_of "49152")
    ∷ ("gpu_device_used_memory_mb", "GPU_DEVICE_USED_MEMORY_MB", whole_of "0")
    ∷ ("gpu_device_utilization_percent", "GPU_DEVICE_UTILIZATION_PERCENT", number_of "0.0")
    ∷ ("result_store_table_name", "RESULT_STORE_TABLE_NAME", text_of (some "inference-results"))
    ∷ ("result_store_ttl_days", "RESULT_STORE_TTL_DAYS", whole_of "7")
    ∷ ("request_ttl_seconds", "REQUEST_TTL_SECONDS", number_of "300.0")
    ∷ ("circuit_breaker_failure_threshold", "CIRCUIT_BREAKER_FAILURE_THRESHOLD", whole_of "5")
    ∷ (
      "circuit_breaker_recovery_timeout_seconds",
      "CIRCUIT_BREAKER_RECOVERY_TIMEOUT_SECONDS",
      number_of "30.0",
    )
    ∷ ("latency_window_size", "LATENCY_WINDOW_SIZE", whole_of "100")
    ∷ ("latency_p95_threshold_ms", "LATENCY_P95_THRESHOLD_MS", number_of "2000.0")
    ∷ ("latency_min_samples", "LATENCY_MIN_SAMPLES", whole_of "10")
    ∷ ("vpn_tunnel_cidr", "VPN_TUNNEL_CIDR", text_of none)
    ∷ ("vpn_bgp_asn", "VPN_BGP_ASN", whole_of "65000")
    ∷ ("home_ip", "HOME_IP", text_of none)
    ∷ ("vpc_cidr", "VPC_CIDR", text_of none)
    ∷ ("encryption_at_rest", "ENCRYPTION_AT_REST", flag_of "true")
    ∷ ("vpn_key_rotation_days", "VPN_KEY_ROTATION_DAYS", whole_of "90")
    ∷ ("session_timeout_minutes", "SESSION_TIMEOUT_MINUTES", whole_of "30")
    ∷ ("health_check_enabled", "HEALTH_CHECK_ENABLED", flag_of "true")
    ∷ ("metrics_enabled", "METRICS_ENABLED", flag_of "true")
    ∷ ("worker_metrics_enabled", "WORKER_METRICS_ENABLED", flag_of "false")
    ∷ ("worker_metrics_host", "WORKER_METRICS_HOST", text_of (some "127.0.0.1"))
    ∷ ("worker_metrics_port", "WORKER_METRICS_PORT", whole_of "9101")
    ∷ ("alert_email", "ALERT_EMAIL", text_of none)
    ∷ []

-- The fields of `WorkerConfig`.
abbrev pub fields : List (String × Constraint)
fields =
    ("aws_region", is_text)
    ∷ ("aws_account_id", is_text)
    ∷ ("queue_name", is_text)
    ∷ ("dlq_name", is_text)
    ∷ ("queue_visibility_timeout", whole_between 30 43200)
    ∷ ("max_receive_count", whole_between 1 10)
    ∷ ("ssm_kill_switch", is_text)
    ∷ ("ssm_config_prefix", is_text)
    ∷ ("log_group_name", is_text)
    ∷ ("log_stream_name", is_text)
    ∷ ("log_retention_days", whole_between 1 365)
    ∷ ("vllm_url", is_text)
    ∷ ("vllm_model", is_text)
    ∷ ("vllm_small_model", is_optional_text)
    ∷ ("vllm_large_model", is_optional_text)
    ∷ ("vllm_small_context_tokens", whole_between 512 262144)
    ∷ ("vllm_large_context_tokens", whole_between 512 262144)
    ∷ ("vllm_temperature", number_between 0 200)
    ∷ ("vllm_max_tokens", whole_between 1 8192)
    ∷ ("worker_poll_interval", whole_between 1 300)
    ∷ ("worker_health_check_interval", whole_between 5 300)
    ∷ ("worker_max_retries", whole_between 1 10)
    ∷ ("worker_backoff_factor", number_between 100 1000)
    ∷ ("worker_batch_size", whole_between 1 10)
    ∷ ("worker_batch_token_budget", whole_between 1 262144)
    ∷ ("gpu_scheduling_enabled", is_flag)
    ∷ ("gpu_memory_reserve_mb", whole_between 0 131072)
    ∷ ("gpu_max_utilization_percent", number_between 100 10000)
    ∷ ("gpu_small_model_memory_mb", whole_between 1 262144)
    ∷ ("gpu_large_model_memory_mb", whole_between 1 262144)
    ∷ ("gpu_small_model_max_batch_size", whole_between 1 256)
    ∷ ("gpu_large_model_max_batch_size", whole_between 1 256)
    ∷ ("gpu_device_id", is_text)
    ∷ ("gpu_device_name", is_text)
    ∷ ("gpu_device_memory_mb", whole_between 1 262144)
    ∷ ("gpu_device_used_memory_mb", whole_between 0 262144)
    ∷ ("gpu_device_utilization_percent", number_between 0 10000)
    ∷ ("result_store_table_name", is_text)
    ∷ ("result_store_ttl_days", whole_between 1 90)
    ∷ ("request_ttl_seconds", number_between 1000 360000)
    ∷ ("circuit_breaker_failure_threshold", whole_between 1 100)
    ∷ ("circuit_breaker_recovery_timeout_seconds", number_between 100 60000)
    ∷ ("latency_window_size", whole_between 10 10000)
    ∷ ("latency_p95_threshold_ms", number_between 10000 6000000)
    ∷ ("latency_min_samples", whole_between 1 100)
    ∷ ("vpn_tunnel_cidr", is_text)
    ∷ ("vpn_bgp_asn", whole_between 1 4294967295)
    ∷ ("home_ip", is_text)
    ∷ ("vpc_cidr", is_text)
    ∷ ("encryption_at_rest", is_flag)
    ∷ ("vpn_key_rotation_days", whole_between 1 365)
    ∷ ("session_timeout_minutes", whole_between 5 1440)
    ∷ ("health_check_enabled", is_flag)
    ∷ ("metrics_enabled", is_flag)
    ∷ ("worker_metrics_enabled", is_flag)
    ∷ ("worker_metrics_host", is_text)
    ∷ ("worker_metrics_port", whole_between 1 65535)
    ∷ ("alert_email", is_optional_text)
    ∷ []

module _ (reader : Reader) where
  unfoldable pub read : String → Reading → Result Value
  read variable (text_of default) =
      ok (words (elim (reader.getenv variable) [ none ↦ default | some t ↦ some t ]))
  read variable (whole_of default) = elim (reader.int (get_or (reader.getenv variable) default)) [
    | none ↦ raised value_error
    | some n ↦ ok (whole n)
  ]
  read variable (number_of default) =
      elim (reader.float (get_or (reader.getenv variable) default)) [
        | none ↦ raised value_error
        | some n ↦ ok (number n)
      ]
  read variable (flag_of default) =
      ok (flag (lowers_to (get_or (reader.getenv variable) default) "true"))

  -- `_env_to_dict`, from the given entry on.
  unfoldable pub env_to_dict : List (String × String × Reading) → Result (Dict String Value)
  env_to_dict [] = ok []
  env_to_dict ((name, variable, how) ∷ rest) = elim (read variable how) [
    | raised e ↦ raised e
    | ok v ↦ elim (env_to_dict rest) [ raised e ↦ raised e | ok values ↦ ok ((name, v) ∷ values) ]
  ]

-- Whether a value has the type and is within the bounds of a field.
unfoldable pub meets : Constraint → Value → Bool
meets is_text (words (some t)) = true
meets is_optional_text (words t) = true
meets is_flag (flag b) = true
meets (whole_between low high) (whole (pos n)) = leb low n && leb n high
meets (number_between low high) (number (finite (pos n))) = leb low n && leb n high
meets (number_between low high) (number not_a_number) = true
meets _ _ = false

unfoldable pub is_met : Dict String Value → String × Constraint → Bool
is_met values (name, constraint) = elim (Dict.get values name) [
  | none ↦ false
  | some v ↦ meets constraint v
]

-- The text of a field; a field without one has none.
unfoldable pub text_at : Dict String Value → String → Option String
text_at values name = elim (Dict.get values name) [ some (words t) ↦ t | _ ↦ none ]

-- The number of a field; a field without a finite one has 0.
unfoldable pub number_at : Dict String Value → String → ℕ
number_at values name = elim (Dict.get values name) [
  | some (whole (pos n)) ↦ n
  | some (number (finite (pos n))) ↦ n
  | _ ↦ 0
]

-- Whether a field holds NaN.
abbrev pub is_nan_at : Dict String Value → String → Bool
is_nan_at values name = elim (Dict.get values name) [
  | some (number not_a_number) ↦ true
  | _ ↦ false
]

-- `'@' in v`
unfoldable pub has_at : String → Bool
has_at String.[] = false
has_at (String.◌∷◌ c s) = if nat_beq (code c) 64 then true else has_at s

-- `validate_vllm_url`
unfoldable pub validate_vllm_url : Dict String Value → Bool
validate_vllm_url values = elim (text_at values "vllm_url") [
  | none ↦ false
  | some url ↦ starts_with url "http://" || starts_with url "https://"
]

-- `validate_email`
unfoldable pub validate_email : Dict String Value → Bool
validate_email values = elim (truthy (text_at values "alert_email")) [
  | none ↦ true
  | some email ↦ has_at email
]

-- The fields of `WorkerConfig` are there with their types and within their bounds.
unfoldable pub validate_fields : Dict String Value → Bool
validate_fields values = all (is_met values) fields

-- `WorkerConfig(**config_dict)`
unfoldable pub worker_config : Dict String Value → Result (Dict String Value)
worker_config values =
    if validate_fields values && (validate_vllm_url values && validate_email values)
    then ok values
    else raised validation_error

-- `_load_config`, once the variables are there.
unfoldable pub load_config : Reader → Result (Dict String Value)
load_config reader = elim (env_to_dict reader entries) [
  | raised e ↦ raised e
  | ok values ↦ worker_config values
]

-- The address of the queue named by `queue`, on SQS.
unfoldable pub url_of : (queue : String) → Dict String Value → String
url_of queue values =
    "https://sqs."
    ++ (get_or (text_at values "aws_region") ""
        ++ (".amazonaws.com/"
            ++ (get_or (text_at values "aws_account_id") ""
                ++ ("/" ++ get_or (text_at values queue) ""))))

-- `queue_url`
unfoldable pub queue_url : Dict String Value → String
queue_url = url_of "queue_name"

-- `dlq_url`
unfoldable pub dlq_url : Dict String Value → String
dlq_url = url_of "dlq_name"
