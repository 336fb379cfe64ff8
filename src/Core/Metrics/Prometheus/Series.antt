-- ===== src/Core/Metrics/Prometheus/Series.antt =====
-- What a write to one series of the sink leaves of it and of the others.
use ai_inference_project.Common.{
  ℕ, ◌+◌, ◌≡◌, inl, inr, ap, ◌∙◌, String, true, Bool-cases, ◌&&◌, some, List, [], if◌then◌else◌,
  get_or, ◌==◌, string_key, arith,
}
use ai_inference_project.Common.Dict
use ai_inference_project.Common.Dict.{Dict, get-put}
use ai_inference_project.Core.Metrics.Prometheus.{
  LabelSet, labels_key, label_set, new_histogram, observe, PrometheusSink, inc, observe_in,
  counter_of, histogram_of,
}

both_keys :
    (name n : String) (key l : LabelSet) → (name == n && key == l) ≡ true → (name ≡ n) × (key ≡ l)
both_keys name n key l h =
    (ground (arith, string_key.beq_iff name n, h), ground (arith, labels_key.beq_iff key l, h))

module _ {V : Type 0} where
  abbrev series_of : Dict String (Dict LabelSet V) → String → Dict LabelSet V
  series_of d name = get_or (Dict.get d name) []

  -- A write in a dictionary of dictionaries is read back at its two keys alone.
  nested :
      (d : Dict String (Dict LabelSet V)) (name n : String) (key l : LabelSet) (v : V)
      → Dict.get (series_of (Dict.put d name (Dict.put (series_of d name) key v)) n) l
        ≡ (if name == n && key == l then some v else Dict.get (series_of d n) l)
  nested d name n key l v =
      let outer = get-put d name (Dict.put (series_of d name) key v) n in
      let found = get-put (series_of d name) key v l in
      elim (Bool-cases (name == n)) [
        | inl hit ↦
            let same : series_of d name ≡ series_of d n =
              ap (series_of d) ((string_key.beq_iff name n).0 hit) in
            ground (arith, hit, outer, found, same)
        | inr miss ↦ ground (arith, miss, outer)
      ]

-- `_inc` adds to its own series alone.
pub counter-inc :
    (name : String) (labels : Dict String String) (v : ℕ) (s : PrometheusSink) (n : String)
    (l : LabelSet)
    → counter_of (inc name labels v s) n l
      ≡ counter_of s n l + (if name == n && label_set labels == l then v else 0)
unfolding inc
counter-inc name labels v s n l =
    let key = label_set labels in
    let written = nested s.counters name n key l (counter_of s name key + v) in
    elim (Bool-cases (name == n && key == l)) [
      | inl hit ↦
          let (e, f) = both_keys name n key l hit in
          let same : counter_of s name key ≡ counter_of s n l =
            ap (λ x. counter_of s x key) e ∙ ap (counter_of s n) f in
          ground (arith, hit, written, same)
      | inr miss ↦ ground (arith, miss, written)
    ]

-- `_observe` adds to its own series alone.
pub histogram-observe_in :
    (name : String) (labels : Dict String String) (v : ℕ) (buckets : List ℕ) (s : PrometheusSink)
    (n : String) (l : LabelSet)
    → histogram_of (observe_in name labels v buckets s) n l ≡ (
        if name == n && label_set labels == l
        then some (observe v (get_or (histogram_of s n l) (new_histogram buckets)))
        else histogram_of s n l)
unfolding observe_in
histogram-observe_in name labels v buckets s n l =
    let key = label_set labels in
    let written =
      nested s.histograms name n key l
        (observe v (get_or (histogram_of s name key) (new_histogram buckets))) in
    elim (Bool-cases (name == n && key == l)) [
      | inl hit ↦
          let (e, f) = both_keys name n key l hit in
          let same : histogram_of s name key ≡ histogram_of s n l =
            ap (λ x. histogram_of s x key) e ∙ ap (histogram_of s n) f in
          ground (arith, hit, written, same)
      | inr miss ↦ ground (arith, miss, written)
    ]
