-- ===== src/Inference/Batching/Laws.antt =====
-- The batches that `build_batches` makes of all candidates.
use mathlib.Core.List.{append-nil, append_assoc, perm_middle, perm_append_singleton}
use mathlib.Core.List.Perm
use mathlib.Core.Path.{ap₂}
use ai_inference_project.Common.{
  ◌≡◌, inl, inr, refl, ap, sym, ◌∙◌, String, true, Bool-cases, none, Option-cases, List, [], ◌∷◌,
  ◌++◌, All, All-append, Perm, arith, ◌==◌, pair_key, Result, ok,
}
use ai_inference_project.Common.Sort.{sorted, sorted-perm}
use ai_inference_project.Inference.Batching.{
  BatchCandidate, compatibility_key, InferenceBatch, BatchingPolicy, Groups, add_to_group,
  singleton_reason, collect, split_groups, more_urgent, build_batches,
}
use ai_inference_project.Inference.Batching.Split.{
  IsValid, IsSound, IsMember, Splits, flat, flat-append, split_group-Splits,
}

flat_groups : Groups → List BatchCandidate
flat_groups [] = []
flat_groups ((key, group) ∷ groups) = group ++ flat_groups groups

abbrev AreGroups : BatchingPolicy → Groups → Type 0
AreGroups p [] = Unit
AreGroups p ((key, group) ∷ groups) = All (IsMember p key) group × AreGroups p groups

add_to_group-perm :
    (c : BatchCandidate) (groups : Groups)
    → Perm (flat_groups (add_to_group c groups)) (c ∷ flat_groups groups)
unfolding add_to_group flat_groups
add_to_group-perm c [] = Perm.refl (c ∷ [])
add_to_group-perm c ((key, group) ∷ groups) = elim (Bool-cases (key == compatibility_key c)) [
  | inl hit ↦ rw hit (
      rw (append_assoc group (c ∷ []) (flat_groups groups))
        (perm_middle group (flat_groups groups)))
  | inr miss ↦ rw miss (
      Perm.trans (Perm.append_left group (add_to_group-perm c groups))
        (perm_middle group (flat_groups groups)))
]

add_to_group-AreGroups :
    (p : BatchingPolicy) (c : BatchCandidate) (groups : Groups)
    → singleton_reason p c ≡ none
    → AreGroups p groups
    → AreGroups p (add_to_group c groups)
unfolding add_to_group
add_to_group-AreGroups p c [] e h = ((record { shared = e; keyed = refl }, tt), tt)
add_to_group-AreGroups p c ((key, group) ∷ groups) e h =
    elim (Bool-cases (key == compatibility_key c)) [
      | inl hit ↦
          let same : key ≡ compatibility_key c =
            (pair_key.beq_iff key (compatibility_key c)).0 hit in
          rw hit (
            All-append (IsMember p key) group (c ∷ []) h.0
                (record { shared = e; keyed = sym same }, tt),
            h.1,
          )
      | inr miss ↦ rw miss (h.0, add_to_group-AreGroups p c groups e h.1)
    ]

-- One request in a batch of its own.
abbrev alone : BatchCandidate → String → InferenceBatch
alone c reason = record {
  model_name = c.model_name;
  event_type = c.event_type;
  candidates = c ∷ [];
  reason = reason;
}

alone-IsSound :
    (p : BatchingPolicy) (c : BatchCandidate) (reason : String)
    → IsValid p
    → IsSound p (alone c reason)
alone-IsSound p c reason valid = record {
  not_empty = omega arith;
  within_size = valid.size;
  within_tokens = inr refl;
  homogeneous = (refl, tt);
  unshared = inl refl;
}

-- One more request joins those seen.
joins-perm :
    (front groups groups' seen : List BatchCandidate) (c : BatchCandidate)
    → Perm groups' (c ∷ groups)
    → Perm (front ++ groups) seen
    → Perm (front ++ groups') (seen ++ c ∷ [])
joins-perm front groups groups' seen c joined perm = Perm.trans (Perm.append_left front joined) (
    Perm.trans (perm_middle front groups)
      (Perm.trans (Perm.cons c perm) (Perm.symm (perm_append_singleton c seen))))

flat-single :
    (bs : List InferenceBatch) (c : BatchCandidate) (reason : String) (rest : List BatchCandidate)
    → flat (bs ++ alone c reason ∷ []) ++ rest ≡ flat bs ++ c ∷ rest
unfolding flat
flat-single bs c reason rest =
    ap (λ l. l ++ rest) (flat-append bs (alone c reason ∷ []))
    ∙ append_assoc (flat bs) (c ∷ []) rest

-- The result of the loop of `build_batches`.
abbrev Collects :
    BatchingPolicy → Result (List InferenceBatch × Groups) → List BatchCandidate → Type 0
Collects p r cs =
    (immediate : List InferenceBatch) × (grouped : Groups) × (r ≡ ok (immediate, grouped))
    × Perm (flat immediate ++ flat_groups grouped) cs
    × All (IsSound p) immediate
    × AreGroups p grouped

collect-Collects :
    (p : BatchingPolicy) (cs : List BatchCandidate) (immediate : List InferenceBatch)
    (grouped : Groups) (seen : List BatchCandidate)
    → IsValid p
    → Perm (flat immediate ++ flat_groups grouped) seen
    → All (IsSound p) immediate
    → AreGroups p grouped
    → Collects p (collect p cs (immediate, grouped)) (seen ++ cs)
unfolding collect
collect-Collects p [] immediate grouped seen valid perm sound h =
    (immediate, grouped, refl, rw append-nil perm, sound, h)
collect-Collects p (c ∷ cs) immediate grouped seen valid perm sound h =
    elim (Option-cases (singleton_reason p c)) [
      | inl shared ↦
          rw (shared, collect, ← append_assoc seen (c ∷ []) cs)
            (collect-Collects p cs immediate (add_to_group c grouped) (seen ++ c ∷ []) valid
              (joins-perm (flat immediate) (flat_groups grouped)
                (flat_groups (add_to_group c grouped)) seen c (add_to_group-perm c grouped) perm)
              sound (add_to_group-AreGroups p c grouped shared h))
      | inr (reason, single) ↦
          rw (single, collect, ← append_assoc seen (c ∷ []) cs)
            (collect-Collects p cs (immediate ++ alone c reason ∷ []) grouped (seen ++ c ∷ []) valid
              (rw (flat-single immediate c reason (flat_groups grouped)) (
                joins-perm (flat immediate) (flat_groups grouped) (c ∷ flat_groups grouped) seen c
                  (Perm.refl (c ∷ flat_groups grouped)) perm))
              (All-append (IsSound p) immediate (alone c reason ∷ []) sound
                (alone-IsSound p c reason valid, tt))
              h)
    ]

split_groups-Splits :
    (p : BatchingPolicy) (groups : Groups)
    → IsValid p
    → p.allow_single_item_batches ≡ true
    → AreGroups p groups
    → Splits p (split_groups p groups) (flat_groups groups)
unfolding split_groups flat_groups flat
split_groups-Splits p [] valid single h = ([], refl, refl, tt)
split_groups-Splits p ((key, group) ∷ groups) valid single h =
    let (bs, returns, kept, sound) = split_group-Splits p key group valid single h.0 in
    let (cs, returns', kept', sound') = split_groups-Splits p groups valid single h.1 in
    (
      bs ++ cs,
      rw (returns, returns') refl,
      flat-append bs cs ∙ ap₂ (λ x y. x ++ y) kept kept',
      All-append (IsSound p) bs cs sound sound',
    )

-- Under a valid policy that allows batches of one request, batching always returns. The batches
-- hold every request exactly once, and each of them is sound: not empty, within the size and token
-- limits (but for a single request), of one model and event type, and with no other request beside
-- one that is not batchable, is of high priority or exceeds the token limit by itself.
pub build_batches_lem :
    (p : BatchingPolicy) (cs : List BatchCandidate)
    → IsValid p
    → p.allow_single_item_batches ≡ true
    → (bs : List InferenceBatch) × (build_batches p cs ≡ ok bs)
      × Perm (flat bs) cs
      × All (IsSound p) bs
unfolding build_batches
build_batches_lem p [] valid single = ([], refl, unfold flat in Perm.refl [], tt)
build_batches_lem p (c ∷ cs) valid single =
    let ordered = sorted more_urgent (c ∷ cs) in
    let (immediate, grouped, collected, perm, sound, h) =
      collect-Collects p ordered [] [] [] valid (unfold flat flat_groups in Perm.refl []) tt tt in
    let (bs, returns, kept, sound') = split_groups-Splits p grouped valid single h in
    (
      immediate ++ bs,
      rw collected (rw returns refl),
      rw (flat-append immediate bs, kept) (Perm.trans perm (sorted-perm more_urgent (c ∷ cs))),
      All-append (IsSound p) immediate bs sound sound',
    )
