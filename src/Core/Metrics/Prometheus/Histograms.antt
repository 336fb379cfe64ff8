-- ===== src/Core/Metrics/Prometheus/Histograms.antt =====
-- What a histogram holds after a sequence of observations.
use ai_inference_project.Common.{
  ℕ, zero, suc, ◌+◌, ◌≤◌, ◌≡◌, All, ltb, subst, refl, sym, ap, ◌∙◌, List, [], ◌∷◌, map, leb,
  if◌then◌else◌, length, arith,
}
use ai_inference_project.Common.Sort.{Ranks, IsAscending, sorted-IsAscending}
use ai_inference_project.Core.Metrics.Prometheus.{Histogram, distinct, new_histogram, bump, observe}

-- How many of the values are at most `b`.
abbrev pub count_within : (b : ℕ) → List ℕ → ℕ
count_within b [] = 0
count_within b (v ∷ vs) = if leb v b then suc (count_within b vs) else count_within b vs

abbrev pub sum : List ℕ → ℕ
sum [] = 0
sum (v ∷ vs) = v + sum vs

abbrev pub observe_all : List ℕ → Histogram → Histogram
observe_all [] h = h
observe_all (v ∷ vs) h = observe_all vs (observe v h)

-- Element by element.
abbrev plus : List ℕ → List ℕ → List ℕ
plus [] cs = []
plus (d ∷ ds) [] = []
plus (d ∷ ds) (c ∷ cs) = (d + c) ∷ plus ds cs

bump_lem :
    (v : ℕ) (vs buckets counts : List ℕ)
    → length counts ≡ length buckets
    → plus (map (λ b. count_within b vs) buckets) (bump v buckets counts)
      ≡ plus (map (λ b. count_within b (v ∷ vs)) buckets) counts
unfolding bump
bump_lem v vs [] counts h = refl
bump_lem v vs (b ∷ bs) [] h = refl
bump_lem v vs (b ∷ bs) (c ∷ cs) h =
    let rest = bump_lem v vs bs cs (omega (arith, h)) in ground (arith, rest)

length-bump :
    (v : ℕ) (buckets counts : List ℕ)
    → length counts ≡ length buckets
    → length (bump v buckets counts) ≡ length buckets
unfolding bump
length-bump v [] counts h = h
length-bump v (b ∷ bs) [] h = h
length-bump v (b ∷ bs) (c ∷ cs) h =
    let rest = length-bump v bs cs (omega (arith, h)) in omega (arith, rest)

plus_none :
    (bs cs : List ℕ) → length cs ≡ length bs → plus (map (λ b. count_within b []) bs) cs ≡ cs
plus_none [] [] h = refl
plus_none [] (c ∷ cs) h = absurd (omega (arith, h))
plus_none (b ∷ bs) [] h = refl
plus_none (b ∷ bs) (c ∷ cs) h =
    let rest = plus_none bs cs (omega (arith, h)) in ground (arith, rest)

plus_zeros : (f : ℕ → ℕ) (bs : List ℕ) → plus (map f bs) (map (λ b. 0) bs) ≡ map f bs
plus_zeros f [] = refl
plus_zeros f (b ∷ bs) = let rest = plus_zeros f bs in ground (arith, rest)

length_zeros : (bs : List ℕ) → length (map (λ (b : ℕ). zero) bs) ≡ length bs
length_zeros [] = refl
length_zeros (b ∷ bs) = let rest = length_zeros bs in omega (arith, rest)

observe_all_lem :
    (vs : List ℕ) (h : Histogram)
    → length h.counts ≡ length h.buckets
    → let after = observe_all vs h in
      (after.buckets ≡ h.buckets)
      × (after.counts ≡ plus (map (λ b. count_within b vs) h.buckets) h.counts)
      × (after.count ≡ length vs + h.count)
      × (after.total ≡ sum vs + h.total)
unfolding observe
observe_all_lem [] h same =
    (refl, sym (plus_none h.buckets h.counts same), omega arith, omega arith)
observe_all_lem (v ∷ vs) h same =
    let (buckets, counts, count, total) =
      observe_all_lem vs (observe v h) (length-bump v h.buckets h.counts same) in
    (
      buckets,
      counts ∙ bump_lem v vs h.buckets h.counts same,
      omega (arith, count),
      omega (arith, total),
    )

count_within_mono : (b c : ℕ) (vs : List ℕ) → b ≤ c → count_within b vs ≤ count_within c vs
count_within_mono b c [] h = omega arith
count_within_mono b c (v ∷ vs) h = let rest = count_within_mono b c vs h in ground (arith, rest)

count_within-length : (b : ℕ) (vs : List ℕ) → count_within b vs ≤ length vs
count_within-length b [] = omega arith
count_within-length b (v ∷ vs) = let rest = count_within-length b vs in ground (arith, rest)

counts_above :
    (vs : List ℕ) (b : ℕ) (bs : List ℕ)
    → All (λ c. b ≤ c) bs
    → All (λ n. count_within b vs ≤ n) (map (λ c. count_within c vs) bs)
counts_above vs b [] h = tt
counts_above vs b (c ∷ bs) h = (count_within_mono b c vs h.0, counts_above vs b bs h.1)

counts-IsAscending :
    (vs bs : List ℕ)
    → IsAscending (λ b c. b ≤ c) bs
    → IsAscending (λ n m. n ≤ m) (map (λ b. count_within b vs) bs)
counts-IsAscending vs [] h = tt
counts-IsAscending vs (b ∷ bs) h = (counts_above vs b bs h.0, counts-IsAscending vs bs h.1)

counts_below : (vs bs : List ℕ) → All (λ n. n ≤ length vs) (map (λ b. count_within b vs) bs)
counts_below vs [] = tt
counts_below vs (b ∷ bs) = (count_within-length b vs, counts_below vs bs)

by_boundary : Ranks ltb (λ b c. b ≤ c)
by_boundary = record {
  if_before = λ b c h. ground arith;
  unless_before = λ b c h. ground arith;
  transitive = λ b c d h k. omega arith;
}

-- What a histogram says of the values that it has observed: each bucket counts those that are at
-- most its boundary, so that the counts ascend with the boundaries and none is over the number of all
-- values; beside them stand that number and the sum.
pub record Summarizes (vs : List ℕ) (h : Histogram) : Type 0 where
  pub counts : h.counts ≡ map (λ b. count_within b vs) h.buckets
  pub count : h.count ≡ length vs
  pub total : h.total ≡ sum vs
  pub ascending : IsAscending (λ n m. n ≤ m) h.counts
  pub below : All (λ n. n ≤ h.count) h.counts

-- A new histogram after some observations summarizes them.
pub observe_all-Summarizes :
    (vs buckets : List ℕ) → Summarizes vs (observe_all vs (new_histogram buckets))
unfolding new_histogram
observe_all-Summarizes vs buckets =
    let start = new_histogram buckets in
    let after = observe_all vs start in
    let (same, counts, count, total) = observe_all_lem vs start (length_zeros start.buckets) in
    let number : after.count ≡ length vs = omega (arith, count) in
    let within : after.counts ≡ map (λ b. count_within b vs) start.buckets =
      counts ∙ plus_zeros (λ b. count_within b vs) start.buckets in
    record {
      counts = within ∙ ap (map (λ b. count_within b vs)) (sym same);
      count = number;
      total = omega (arith, total);
      ascending =
          subst (IsAscending (λ n m. n ≤ m)) (sym within) (
            counts-IsAscending vs start.buckets
              (sorted-IsAscending by_boundary (distinct buckets)));
      below =
          subst (λ n. All (λ c. c ≤ n) after.counts) (sym number)
            (subst (All (λ c. c ≤ length vs)) (sym within) (counts_below vs start.buckets));
    }
