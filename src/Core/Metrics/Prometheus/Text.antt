-- ===== src/Core/Metrics/Prometheus/Text.antt =====
-- core/metrics.py: `render_prometheus`, the text exposition of the sink. The format of numbers, `:g`, of
-- the boundaries of the buckets, and `str` of a count are arguments, and so is the help of a metric.
-- The labels of a series never hold "le", which is the only label that is added to them.
use Prim.Native.Char.{code}
use Prim.Native.String.{◌++◌}
use text.Mathlib.TextLemmas.{cons-append, nil-append}
use ai_inference_project.Common.{
  ℕ, ◌≡◌, refl, String, Bool, true, false, Bool-cases, inl, inr, ◌&&◌, ◌||◌, not, List, [], ◌∷◌,
  map, nat_beq, if◌then◌else◌, ltb_string, ◌==◌, string_key, pair_key, arith,
}
use ai_inference_project.Common as Common
use ai_inference_project.Common.Dict.{Dict}
use ai_inference_project.Common.Sort.{sorted}
use ai_inference_project.Core.Metrics.Prometheus.{
  LabelSet, labels_key, ltb_label, Histogram, PrometheusSink,
}

-- `text.replace(c, new)`, for a character by its code.
unfoldable pub replace_code : (c : ℕ) (new : String) → String → String
replace_code c new String.[] = ""
replace_code c new (String.◌∷◌ d s) =
    let rest = replace_code c new s in if nat_beq (code d) c then new ++ rest else String.◌∷◌ d rest

-- `_escape_label`
unfoldable pub escape_label : String → String
escape_label value = replace_code 34 "\\\"" (replace_code 10 "\\n" (replace_code 92 "\\\\" value))

-- `",".join(...)` over the labels
unfoldable pub join_labels : LabelSet → String
unfolding escape_label
join_labels [] = ""
join_labels ((key, value) ∷ []) = key ++ ("=\"" ++ (escape_label value ++ "\""))
join_labels ((key, value) ∷ l ∷ labels) =
    let rest = join_labels (l ∷ labels) in key ++ ("=\"" ++ (escape_label value ++ ("\"," ++ rest)))

-- `_format_labels`, with the extra labels.
unfoldable pub format_labels : LabelSet → (extra : LabelSet) → String
format_labels labels extra = elim (sorted ltb_label (Common.◌++◌ labels extra)) [
  | [] ↦ ""
  | l ∷ rest ↦ "{" ++ (join_labels (l ∷ rest) ++ "}")
]

-- The text has no line break.
unfoldable pub is_line : String → Bool
is_line String.[] = true
is_line (String.◌∷◌ c s) = if nat_beq (code c) 10 then false else is_line s

is_line-append : (s t : String) → is_line (s ++ t) ≡ (is_line s && is_line t)
unfolding is_line
is_line-append String.[] t = rw nil-append refl
is_line-append (String.◌∷◌ c s) t = rw cons-append (ground (arith, is_line-append s t))

-- A replacement by a text without line breaks makes none.
is_line-replace_code :
    (c : ℕ) (new s : String)
    → is_line new ≡ true
    → (nat_beq c 10 || is_line s) ≡ true
    → is_line (replace_code c new s) ≡ true
unfolding is_line replace_code
is_line-replace_code c new String.[] h k = refl
is_line-replace_code c new (String.◌∷◌ d s) h k =
    let rest = is_line-replace_code c new s h (ground (arith, k)) in
    let both = is_line-append new (replace_code c new s) in ground (arith, rest, both, h, k)

-- An escaped label value stands in one line, whatever the value is.
pub is_line-escape_label : (value : String) → is_line (escape_label value) ≡ true
unfolding escape_label is_line
is_line-escape_label value =
    is_line-replace_code 34 "\\\"" _ refl
      (is_line-replace_code 10 "\\n" (replace_code 92 "\\\\" value) refl refl)

-- How numbers are written: the value of a counter, a count, and, by the metric, whose unit may be a
-- thousandth of the one that is shown, a boundary and a total; and `_counter_help`, `_histogram_help`.
pub record Formats : Type 0 where
  pub value : ℕ → String
  pub count : ℕ → String
  pub boundary : (metric : String) → ℕ → String
  pub total : (metric : String) → ℕ → String
  pub help : String → String

-- The order of tuples of labels.
abbrev pub ltb_labels : LabelSet → LabelSet → Bool
ltb_labels [] [] = false
ltb_labels [] (l ∷ ls) = true
ltb_labels (k ∷ ks) [] = false
ltb_labels (k ∷ ks) (l ∷ ls) = ltb_label k l || (k == l && ltb_labels ks ls)

-- `sorted(series.items())`, whose keys differ.
abbrev pub by_labels {ℓ} : {V : Type ℓ} → Dict LabelSet V → Dict LabelSet V
by_labels series = sorted (λ p q. ltb_labels p.0 q.0) series

abbrev pub by_metric {ℓ} : {V : Type ℓ} → Dict String V → Dict String V
by_metric metrics = sorted (λ p q. ltb_string p.0 q.0) metrics

module _ (formats : Formats) where
  unfoldable pub counter_lines : (name : String) → Dict LabelSet ℕ → List String
  counter_lines name [] = []
  counter_lines name ((labels, value) ∷ series) =
      (name ++ (format_labels labels [] ++ (" " ++ formats.value value)))
      ∷ counter_lines name series

  -- The lines of the buckets, by their boundaries and counts.
  unfoldable pub bucket_lines : (name : String) → LabelSet → (buckets counts : List ℕ) → List String
  bucket_lines name labels (b ∷ bs) (c ∷ cs) =
      (name
        ++ ("_bucket"
            ++ (format_labels labels (("le", formats.boundary name b) ∷ [])
                ++ (" " ++ formats.count c))))
      ∷ bucket_lines name labels bs cs
  bucket_lines name labels _ _ = []

  unfoldable pub histogram_lines : (name : String) → Dict LabelSet Histogram → List String
  histogram_lines name [] = []
  histogram_lines name ((labels, h) ∷ series) =
      Common.◌++◌ (bucket_lines name labels h.buckets h.counts) (
        (name
          ++ ("_bucket"
              ++ (format_labels labels (("le", "+Inf") ∷ []) ++ (" " ++ formats.count h.count))))
        ∷ (name ++ ("_count" ++ (format_labels labels [] ++ (" " ++ formats.count h.count))))
        ∷ (name ++ ("_sum" ++ (format_labels labels [] ++ (" " ++ formats.total name h.total))))
        ∷ histogram_lines name series)

  unfoldable pub all_counters : Dict String (Dict LabelSet ℕ) → List String
  all_counters [] = []
  all_counters ((name, series) ∷ metrics) =
      ("# HELP " ++ (name ++ (" " ++ formats.help name)))
      ∷ ("# TYPE " ++ (name ++ " counter"))
      ∷ Common.◌++◌ (counter_lines name (by_labels series)) (all_counters metrics)

  unfoldable pub all_histograms : Dict String (Dict LabelSet Histogram) → List String
  all_histograms [] = []
  all_histograms ((name, series) ∷ metrics) =
      ("# HELP " ++ (name ++ (" " ++ formats.help name)))
      ∷ ("# TYPE " ++ (name ++ " histogram"))
      ∷ Common.◌++◌ (histogram_lines name (by_labels series)) (all_histograms metrics)

  -- The lines of `render_prometheus`, which joins them with line breaks and ends with one.
  unfoldable pub render_lines : PrometheusSink → List String
  render_lines s =
      Common.◌++◌ (all_counters (by_metric s.counters)) (all_histograms (by_metric s.histograms))

-- `"\n".join(lines) + "\n"`, or the empty text without lines.
unfoldable pub render : List String → String
render [] = ""
render (line ∷ lines) = let rest = render lines in line ++ ("\n" ++ rest)
