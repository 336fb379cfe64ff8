-- ===== src/Core/Metrics/Prometheus.antt =====
-- core/metrics.py: the aggregation of the events by `PrometheusMetricsSink`. Counters are numbers, and
-- durations are whole numbers of milliseconds, with the boundaries of their buckets. The lock is not
-- modelled, since every call holds it from its start to its end.
pub mod Histograms
pub mod Series
pub mod Totals
pub mod Text
use ai_inference_project.Common.{
  ℕ, ◌+◌, String, Bool, true, false, ◌&&◌, ◌||◌, Option, none, some, List, [], ◌∷◌, map, leb,
  if◌then◌else◌, get_or, ◌==◌, string_key, pair_key, nat_key, Eq, ◌↔◌, ◌≡◌, arith, refl, ltb,
  ltb_string,
}
use ai_inference_project.Common.Dict
use ai_inference_project.Common.Dict.{Dict}
use ai_inference_project.Common.Sort.{sorted}
use ai_inference_project.Core.Metrics.{
  MetricEvent, request_accepted, request_rejected, inference_started, inference_completed,
  inference_failed, batch_built, scheduling_decision, reconciliation_pass, queue_wait_time,
  circuit_breaker_transition, scaling_decided,
}

-- `LabelSet`
abbrev pub LabelSet : Type 0
LabelSet = List (String × String)

abbrev pub labels_beq : LabelSet → LabelSet → Bool
labels_beq [] [] = true
labels_beq [] (l ∷ ls) = false
labels_beq (k ∷ ks) [] = false
labels_beq (k ∷ ks) (l ∷ ls) = k == l && labels_beq ks ls

pub labels_beq_iff : (ks ls : LabelSet) → (labels_beq ks ls ≡ true) ↔ (ks ≡ ls)
labels_beq_iff [] [] = ground arith
labels_beq_iff [] (l ∷ ls) = ground arith
labels_beq_iff (k ∷ ks) [] = ground arith
labels_beq_iff (k ∷ ks) (l ∷ ls) = ground (arith, pair_key.beq_iff k l, labels_beq_iff ks ls)

instance abbrev pub labels_key : Eq LabelSet
labels_key = record { beq = labels_beq; beq_iff = labels_beq_iff }

-- The order of pairs of texts.
abbrev pub ltb_label : String × String → String × String → Bool
ltb_label (j, v) (k, w) = ltb_string j k || (j == k && ltb_string v w)

-- `_label_set`
unfoldable pub label_set : Dict String String → LabelSet
label_set labels = sorted ltb_label labels

-- `_Histogram`
pub record Histogram : Type 0 where
  pub buckets : List ℕ
  pub counts : List ℕ
  pub count : ℕ
  pub total : ℕ

-- The members of a list, each once.
abbrev pub distinct : List ℕ → List ℕ
distinct [] = []
distinct (x ∷ xs) = let rest = distinct xs in if has rest x then rest else x ∷ rest
  where
    has : List ℕ → ℕ → Bool
    has [] x = false
    has (y ∷ ys) x = y == x || has ys x

unfoldable pub new_histogram : (buckets : List ℕ) → Histogram
new_histogram buckets =
    let ordered = sorted ltb (distinct buckets) in
    record { buckets = ordered; counts = map (λ b. 0) ordered; count = 0; total = 0 }

-- The loop of `observe` over the buckets.
unfoldable pub bump : (value : ℕ) → (buckets counts : List ℕ) → List ℕ
bump value [] counts = counts
bump value (b ∷ bs) [] = []
bump value (b ∷ bs) (c ∷ cs) = (if leb value b then c + 1 else c) ∷ bump value bs cs

unfoldable pub observe : (value : ℕ) → Histogram → Histogram
observe value h = record h {
  counts = bump value h.buckets h.counts;
  count = h.count + 1;
  total = h.total + value;
}

-- `_LATENCY_BUCKETS`, in milliseconds.
abbrev pub latency_buckets : List ℕ
latency_buckets =
    10 ∷ 25 ∷ 50 ∷ 100 ∷ 250 ∷ 500 ∷ 1_000 ∷ 2_500 ∷ 5_000 ∷ 10_000 ∷ 30_000 ∷ 60_000 ∷ []

-- `_BATCH_SIZE_BUCKETS`
abbrev pub batch_size_buckets : List ℕ
batch_size_buckets = 1 ∷ 2 ∷ 4 ∷ 8 ∷ 16 ∷ 32 ∷ 64 ∷ []

-- `_TOKEN_BUCKETS`
abbrev pub token_buckets : List ℕ
token_buckets = 128 ∷ 512 ∷ 1_024 ∷ 4_096 ∷ 8_192 ∷ 16_384 ∷ 32_768 ∷ 65_536 ∷ []

pub record PrometheusSink : Type 0 where
  pub counters : Dict String (Dict LabelSet ℕ)
  pub histograms : Dict String (Dict LabelSet Histogram)

abbrev pub new_sink : PrometheusSink
new_sink = record { counters = []; histograms = [] }

-- `_inc`
unfoldable pub inc : String → Dict String String → (value : ℕ) → PrometheusSink → PrometheusSink
inc name labels value s =
    let series = get_or (Dict.get s.counters name) [] in
    let key = label_set labels in
    record s {
      counters =
          Dict.put s.counters name (Dict.put series key (get_or (Dict.get series key) 0 + value));
    }

-- `_observe`
unfoldable pub observe_in :
    String → Dict String String → (value : ℕ) → (buckets : List ℕ) → PrometheusSink → PrometheusSink
observe_in name labels value buckets s =
    let series = get_or (Dict.get s.histograms name) [] in
    let key = label_set labels in
    let histogram = get_or (Dict.get series key) (new_histogram buckets) in
    record s {
      histograms = Dict.put s.histograms name (Dict.put series key (observe value histogram));
    }

-- `str(bool(...)).lower()`
abbrev pub bool_text : Bool → String
bool_text b = if b then "true" else "false"

unfoldable pub emit : MetricEvent → PrometheusSink → PrometheusSink
emit (request_accepted id model event_type tokens) s =
    inc "ai_inference_gateway_requests_total"
      (("outcome", "accepted") ∷ ("model", model) ∷ ("event_type", event_type) ∷ []) 1 s
emit (request_rejected reason) s =
    inc "ai_inference_gateway_requests_total"
      (("outcome", "rejected") ∷ ("model", "") ∷ ("event_type", "") ∷ []) 1 s
emit (inference_started id model batch_id) s = s
emit (inference_completed id model duration_ms) s =
    observe_in "ai_inference_inference_duration_seconds" (("model", model) ∷ []) duration_ms
      latency_buckets
      (inc "ai_inference_worker_requests_total" (("outcome", "completed") ∷ ("model", model) ∷ []) 1
        s)
emit (inference_failed id model error) s =
    inc "ai_inference_worker_requests_total" (("outcome", "failed") ∷ ("model", model) ∷ []) 1 s
emit (batch_built id model size total_tokens reason) s =
    let labels = ("model", model) ∷ ("reason", reason) ∷ [] in
    observe_in "ai_inference_batch_estimated_tokens" labels total_tokens token_buckets
      (observe_in "ai_inference_batch_size" labels size batch_size_buckets s)
emit (scheduling_decision id model scheduled device_id reason) s =
    inc "ai_inference_scheduling_decisions_total"
      (("model", model) ∷ ("scheduled", bool_text scheduled) ∷ []) 1 s
emit (reconciliation_pass stale healed failed notified) s =
    inc "ai_inference_reconciliation_requests_total" (("outcome", "notified") ∷ []) notified (
      inc "ai_inference_reconciliation_requests_total" (("outcome", "failed") ∷ []) failed (
        inc "ai_inference_reconciliation_requests_total" (("outcome", "healed") ∷ []) healed
          (inc "ai_inference_reconciliation_requests_total" (("outcome", "stale") ∷ []) stale s)))
emit (queue_wait_time id wait_ms) s =
    observe_in "ai_inference_queue_wait_seconds" [] wait_ms latency_buckets s
emit (circuit_breaker_transition from_state to_state failure_count) s = s
emit (scaling_decided action reason current desired dry_run) s = s

-- The events in the order of their emission.
abbrev pub emit_all : List MetricEvent → PrometheusSink → PrometheusSink
emit_all [] s = s
emit_all (e ∷ es) s = emit_all es (emit e s)

-- A series as the text exposition reads it: a counter that is absent is 0.
abbrev pub counter_of : PrometheusSink → String → LabelSet → ℕ
counter_of s name labels = get_or (Dict.get (get_or (Dict.get s.counters name) []) labels) 0

abbrev pub histogram_of : PrometheusSink → String → LabelSet → Option Histogram
histogram_of s name labels = Dict.get (get_or (Dict.get s.histograms name) []) labels
