-- ===== src/Inference/Batching/Split.antt =====
-- The batches that `_split_group` makes of a group.
use mathlib.Core.List.{append_assoc}
use ai_inference_project.Common.{
  ℕ, ◌+◌, ◌≤◌, ◌≡◌, ◌⊎◌, inl, inr, refl, ap, sym, ◌∙◌, String, Bool, true, false, Bool-cases, ◌&&◌,
  ◌||◌, List, [], ◌∷◌, ◌++◌, length, length-append, All, All-append, All-map, none, arith, leb, ltb,
  if◌then◌else◌, Result, ok,
}
use ai_inference_project.Inference.Batching.{
  BatchCandidate, compatibility_key, InferenceBatch, total_tokens, BatchingPolicy, split_from,
  singleton_reason,
}

-- A policy that `__post_init__` accepts.
pub record IsValid (p : BatchingPolicy) : Type 0 where
  pub size : 1 ≤ p.max_batch_size
  pub tokens : 1 ≤ p.max_batch_tokens

-- What a batch promises: it is not empty, it is within the size limit, it is within the token limit
-- unless it is a single request, its requests share the batch's model and event type, and a request
-- that must run alone is alone in it.
pub record IsSound (p : BatchingPolicy) (b : InferenceBatch) : Type 0 where
  pub not_empty : 1 ≤ length b.candidates
  pub within_size : length b.candidates ≤ p.max_batch_size
  pub within_tokens : (total_tokens b.candidates ≤ p.max_batch_tokens) ⊎ (length b.candidates ≡ 1)
  pub homogeneous : All (λ c. compatibility_key c ≡ (b.model_name, b.event_type)) b.candidates
  pub unshared : (length b.candidates ≡ 1) ⊎ All (λ c. singleton_reason p c ≡ none) b.candidates

-- The candidates of all batches, in order.
unfoldable pub flat : List InferenceBatch → List BatchCandidate
flat [] = []
flat (b ∷ bs) = b.candidates ++ flat bs

pub flat-append : (bs cs : List InferenceBatch) → flat (bs ++ cs) ≡ flat bs ++ flat cs
unfolding flat
flat-append [] cs = refl
flat-append (b ∷ bs) cs =
    ap (◌++◌ b.candidates) (flat-append bs cs) ∙ sym (append_assoc b.candidates (flat bs) (flat cs))

total_tokens-append :
    (xs ys : List BatchCandidate) → total_tokens (xs ++ ys) ≡ total_tokens xs + total_tokens ys
unfolding total_tokens
total_tokens-append [] ys = omega arith
total_tokens-append (x ∷ xs) ys = omega (arith, total_tokens-append xs ys)

total_nil : (cs : List BatchCandidate) → length cs ≡ 0 → total_tokens cs ≡ 0
unfolding total_tokens
total_nil [] h = refl
total_nil (c ∷ cs) h = absurd (omega arith)

-- What is known of each member of a group.
pub record IsMember (p : BatchingPolicy) (k : String × String) (c : BatchCandidate) : Type 0 where
  pub shared : singleton_reason p c ≡ none
  pub keyed : compatibility_key c ≡ k

fits :
    (p : BatchingPolicy) (k : String × String) (c : BatchCandidate)
    → IsMember p k c
    → c.estimated_tokens ≤ p.max_batch_tokens
unfolding singleton_reason
fits p k c m = ground (arith, m.shared)

-- The invariant of the loop: what is in `current`, for a group with the key `k`.
record IsOpen (p : BatchingPolicy) (k : String × String) (current : List BatchCandidate)
    : Type 0 where
  size : length current ≤ p.max_batch_size
  tokens : total_tokens current ≤ p.max_batch_tokens
  members : All (IsMember p k) current

-- The batch that `make_batch` makes of a list with the given head.
abbrev batch_of : BatchCandidate → List BatchCandidate → String → InferenceBatch
batch_of c cs reason = record {
  model_name = c.model_name;
  event_type = c.event_type;
  candidates = c ∷ cs;
  reason = reason;
}

batch_of-IsSound :
    (p : BatchingPolicy) (k : String × String) (c : BatchCandidate) (cs : List BatchCandidate)
    (reason : String)
    → IsOpen p k (c ∷ cs)
    → IsSound p (batch_of c cs reason)
batch_of-IsSound p k c cs reason v = record {
  not_empty = omega arith;
  within_size = v.size;
  within_tokens = inl v.tokens;
  homogeneous =
      All-map (IsMember p k) (λ d. compatibility_key d ≡ compatibility_key c)
        (λ d m. m.keyed ∙ sym v.members.0.keyed) (c ∷ cs) v.members;
  unshared = inr (All-map (IsMember p k) _ (λ d m. m.shared) (c ∷ cs) v.members);
}

single-IsOpen :
    (p : BatchingPolicy) (k : String × String) (c : BatchCandidate)
    → IsValid p
    → IsMember p k c
    → IsOpen p k (c ∷ [])
unfolding total_tokens
single-IsOpen p k c valid m = record {
  size = valid.size;
  tokens = omega (arith, fits p k c m);
  members = (m, tt);
}

-- The test of the loop that closes the current batch.
abbrev cuts : BatchingPolicy → List BatchCandidate → ℕ → BatchCandidate → Bool
cuts p current tokens d =
    leb p.max_batch_size (length current)
    || (ltb 0 (length current) && ltb p.max_batch_tokens (tokens + d.estimated_tokens))

total_tokens-single : (d : BatchCandidate) → total_tokens (d ∷ []) ≡ d.estimated_tokens
unfolding total_tokens
total_tokens-single d = omega arith

joined-IsOpen :
    (p : BatchingPolicy) (k : String × String) (current : List BatchCandidate) (tokens : ℕ)
    (d : BatchCandidate)
    → tokens ≡ total_tokens current
    → IsOpen p k current
    → IsMember p k d
    → cuts p current tokens d ≡ false
    → IsOpen p k (current ++ d ∷ [])
joined-IsOpen p k current tokens d e v m joined = record {
  size = ground (arith, length-append current (d ∷ []));
  tokens = ground (
    arith,
    total_tokens-append current (d ∷ []),
    total_tokens-single d,
    fits p k d m,
    v.tokens,
    total_nil current,
  );
  members = All-append (IsMember p k) current (d ∷ []) v.members (m, tt);
}

-- The result of the loop: it returns sound batches that hold just the given candidates, in order.
abbrev pub Splits : BatchingPolicy → Result (List InferenceBatch) → List BatchCandidate → Type 0
Splits p r cs = (bs : List InferenceBatch) × (r ≡ ok bs) × (flat bs ≡ cs) × All (IsSound p) bs

split_from-Splits :
    (p : BatchingPolicy) (k : String × String) (current : List BatchCandidate) (tokens : ℕ)
    (group : List BatchCandidate)
    → IsValid p
    → p.allow_single_item_batches ≡ true
    → tokens ≡ total_tokens current
    → IsOpen p k current
    → All (IsMember p k) group
    → Splits p (split_from p current tokens group) (current ++ group)
unfolding split_from flat
split_from-Splits p k [] tokens [] valid single e v h = ([], refl, refl, tt)
split_from-Splits p k (c ∷ cs) tokens [] valid single e v h = (
  (batch_of c cs (
        if ltb 1 (length (c ∷ cs)) then "compatible_dynamic_batch" else "single_batchable_request"))
      ∷ [],
  ground arith,
  refl,
  (batch_of-IsSound p k c cs _ v, tt),
)
split_from-Splits p k [] tokens (d ∷ group) valid single e v h =
    let fits = single-IsOpen p k d valid h.0 in
    let (bs, returns, kept, sound) =
      split_from-Splits p k (d ∷ []) (tokens + d.estimated_tokens) group valid single
        (unfold total_tokens in omega arith) fits h.1 in
    (bs, ground (arith, valid.size, returns), kept, sound)
split_from-Splits p k (x ∷ xs) tokens (d ∷ group) valid single e v h =
    elim (Bool-cases (cuts p (x ∷ xs) tokens d)) [
      | inl cut ↦
          let (bs, returns, kept, sound) =
            split_from-Splits p k (d ∷ []) d.estimated_tokens group valid single
              (unfold total_tokens in omega arith) (single-IsOpen p k d valid h.0) h.1 in
          (
            batch_of x xs "compatible_dynamic_batch" ∷ bs,
            rw cut (rw returns refl),
            ap (λ l. (x ∷ xs) ++ l) kept,
            (batch_of-IsSound p k x xs _ v, sound),
          )
      | inr joined ↦
          let (bs, returns, kept, sound) =
            split_from-Splits p k ((x ∷ xs) ++ d ∷ []) (tokens + d.estimated_tokens) group valid
              single (omega (arith, total_tokens-append (x ∷ xs) (d ∷ []), total_tokens-single d))
              (joined-IsOpen p k (x ∷ xs) tokens d e v h.0 joined) h.1 in
          (bs, rw joined returns, kept ∙ append_assoc (x ∷ xs) (d ∷ []) group, sound)
    ]

-- A whole group is split from an empty start.
pub split_group-Splits :
    (p : BatchingPolicy) (k : String × String) (group : List BatchCandidate)
    → IsValid p
    → p.allow_single_item_batches ≡ true
    → All (IsMember p k) group
    → Splits p (split_from p [] 0 group) group
unfolding total_tokens
split_group-Splits p k group valid single h =
    split_from-Splits p k [] 0 group valid single refl
      (record { size = omega arith; tokens = omega arith; members = tt }) h
