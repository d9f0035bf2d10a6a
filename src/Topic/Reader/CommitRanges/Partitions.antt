-- ===== src/Topic/Reader/CommitRanges/Partitions.antt =====
-- The order of what `toPartitionsOffsets` gives, and the length of what `Append` leaves.
use mathlib.Core.Path.{subst}
use ydb_go_sdk.Base.{
  ==_iff, All, Bool-cases, List, [], arith, false, inl, inr, length, length-append,
  length-replicate, ltb, ok, panic, replicate, suc, sym, true, ℕ, ◌&&◌, ◌*◌, ◌++◌, ◌+◌, ◌==◌, ◌↔◌,
  ◌∙◌, ◌∷◌, ◌≡◌,
}
use ydb_go_sdk.Base.Word.{IsWord, sle, slt}
use ydb_go_sdk.Topic.Reader.CommitRange.{CommitRange}
use ydb_go_sdk.Topic.Reader.CommitRanges.{
  PartitionOffsets, append_loop, append_ranges, continues, fill_partitions, has_nil_session,
  id_or_zero, merge_ranges, merge_sorted, offset_range, optimize, range_less, to_partitions,
  to_partitions_offsets, zero_range,
}

-- What a sort by `range_less` promises: no range is less than the one before it.
abbrev SortedFrom : CommitRange → List CommitRange → Type 0
SortedFrom last [] = Unit
SortedFrom last (c ∷ cs) = (range_less c last ≡ false) × SortedFrom c cs

abbrev IsSorted : List CommitRange → Type 0
IsSorted [] = Unit
IsSorted (c ∷ cs) = SortedFrom c cs

abbrev HasWordId : CommitRange → Type 0
HasWordId c = IsWord (id_or_zero c)

-- The ids of the ranges do not go down.
abbrev AscendsFrom : ℕ → List CommitRange → Type 0
AscendsFrom id [] = Unit
AscendsFrom id (c ∷ cs) = (sle id (id_or_zero c) ≡ true) × AscendsFrom (id_or_zero c) cs

-- The ids of the partitions go up.
abbrev RisesFrom : ℕ → List PartitionOffsets → Type 0
RisesFrom id [] = Unit
RisesFrom id (p ∷ ps) = (slt id p.partition_session_id ≡ true) × RisesFrom p.partition_session_id ps

abbrev pub Rises : List PartitionOffsets → Type 0
Rises [] = Unit
Rises (p ∷ ps) = RisesFrom p.partition_session_id ps

-- No range goes on where the one before it ends.
abbrev ApartFrom : CommitRange → List CommitRange → Type 0
ApartFrom last [] = Unit
ApartFrom last (c ∷ cs) = (continues last c ≡ false) × ApartFrom c cs

SortedFrom-AscendsFrom :
    (last : CommitRange) (cs : List CommitRange)
    → SortedFrom last cs
    → AscendsFrom (id_or_zero last) cs
unfolding range_less
SortedFrom-AscendsFrom last [] h = tt
SortedFrom-AscendsFrom last (c ∷ cs) (p, h) = (ground arith, SortedFrom-AscendsFrom c cs h)

merge_ranges-AscendsFrom :
    (id : ℕ) (last : CommitRange) (cs : List CommitRange)
    → sle id (id_or_zero last) ≡ true
    → HasWordId last
    → All HasWordId cs
    → AscendsFrom (id_or_zero last) cs
    → AscendsFrom id (merge_ranges last cs) × All HasWordId (merge_ranges last cs)
unfolding merge_ranges
merge_ranges-AscendsFrom id last [] p w ws h = ((p, tt), (w, tt))
merge_ranges-AscendsFrom id last (c ∷ cs) p w (v, vs) (q, h) =
    elim (Bool-cases (continues last c)) [
      | inl e ↦
          let same : id_or_zero c ≡ id_or_zero last = ground arith in
          rw e (
            merge_ranges-AscendsFrom id (record last { end = c.end }) cs p w vs
              (subst (λ i. AscendsFrom i cs) same h))
      | inr e ↦
          let (rest, words) = merge_ranges-AscendsFrom (id_or_zero last) c cs q v vs h in
          rw e ((p, rest), (w, words))
    ]

fill_partitions-RisesFrom :
    (id : ℕ) (p : PartitionOffsets) (cs : List CommitRange)
    → slt id p.partition_session_id ≡ true
    → IsWord p.partition_session_id
    → All HasWordId cs
    → AscendsFrom p.partition_session_id cs
    → RisesFrom id (fill_partitions p cs)
unfolding fill_partitions
fill_partitions-RisesFrom id p [] r w ws h = (r, tt)
fill_partitions-RisesFrom id p (c ∷ cs) r w (v, vs) (q, h) =
    elim (Bool-cases (p.partition_session_id == id_or_zero c)) [
      | inl e ↦ rw e (
          fill_partitions-RisesFrom id (record p { offsets = p.offsets ++ offset_range c ∷ [] }) cs
            r w vs (subst (λ i. AscendsFrom i cs) (sym ((==_iff _ _).0 e)) h))
      | inr e ↦ rw e (
        r,
        fill_partitions-RisesFrom p.partition_session_id
            (record { partition_session_id = id_or_zero c; offsets = offset_range c ∷ [] }) cs
            (ground arith) v vs h,
      )
    ]

fill_partitions-Rises :
    (p : PartitionOffsets) (cs : List CommitRange)
    → IsWord p.partition_session_id
    → All HasWordId cs
    → AscendsFrom p.partition_session_id cs
    → Rises (fill_partitions p cs)
unfolding fill_partitions
fill_partitions-Rises p [] w ws h = tt
fill_partitions-Rises p (c ∷ cs) w (v, vs) (q, h) =
    let here : PartitionOffsets = record p { offsets = p.offsets ++ offset_range c ∷ [] } in
    let fresh : PartitionOffsets = record {
      partition_session_id = id_or_zero c;
      offsets = offset_range c ∷ [];
    } in
    elim (Bool-cases (p.partition_session_id == id_or_zero c)) [
      | inl e ↦ rw e (
          fill_partitions-Rises here cs w vs
            (subst (λ i. AscendsFrom i cs) (sym ((==_iff _ _).0 e)) h))
      | inr e ↦
          rw e (fill_partitions-RisesFrom p.partition_session_id fresh cs (ground arith) v vs h)
    ]

to_partitions-AscendsFrom :
    (id : ℕ) (rs : List CommitRange)
    → AscendsFrom id rs
    → All HasWordId rs
    → Rises (to_partitions rs)
unfolding to_partitions
to_partitions-AscendsFrom id [] up words = tt
to_partitions-AscendsFrom id (r ∷ rs) (p, up) (v, vs) =
    fill_partitions-Rises (record { partition_session_id = id_or_zero r; offsets = [] }) (r ∷ rs) v
      (v, vs) (ground arith, up)

to_partitions-Rises :
    (cs : List CommitRange)
    → IsSorted cs
    → All HasWordId cs
    → Rises (to_partitions (merge_sorted cs))
to_partitions-Rises [] h w = to_partitions-AscendsFrom 0 [] tt tt
to_partitions-Rises (c ∷ cs) h (w, ws) =
    let (up, words) =
      merge_ranges-AscendsFrom (id_or_zero c) c cs (ground arith) w ws
        (SortedFrom-AscendsFrom c cs h) in
    to_partitions-AscendsFrom (id_or_zero c) (merge_ranges c cs) up words

to_partitions_offsets-ok :
    (sort : List CommitRange → List CommitRange) (c : CommitRange) (cs : List CommitRange)
    (ps : List PartitionOffsets)
    → to_partitions_offsets sort (c ∷ cs) ≡ ok ps
    → to_partitions (merge_sorted (sort (c ∷ cs))) ≡ ps
unfolding to_partitions_offsets optimize
to_partitions_offsets-ok sort c cs ps e = ground arith

abbrev Apart : List CommitRange → Type 0
Apart [] = Unit
Apart (c ∷ cs) = ApartFrom c cs

merge_ranges-ApartFrom :
    (previous last : CommitRange) (cs : List CommitRange)
    → continues previous last ≡ false
    → ApartFrom previous (merge_ranges last cs)
unfolding merge_ranges
merge_ranges-ApartFrom previous last [] p = (p, tt)
merge_ranges-ApartFrom previous last (c ∷ cs) p = elim (Bool-cases (continues last c)) [
  | inl e ↦ rw e (merge_ranges-ApartFrom previous (record last { end = c.end }) cs p)
  | inr e ↦ rw e (p, merge_ranges-ApartFrom last c cs e)
]

merge_ranges-Apart : (last : CommitRange) (cs : List CommitRange) → Apart (merge_ranges last cs)
unfolding merge_ranges
merge_ranges-Apart last [] = tt
merge_ranges-Apart last (c ∷ cs) = elim (Bool-cases (continues last c)) [
  | inl e ↦ rw e (merge_ranges-Apart (record last { end = c.end }) cs)
  | inr e ↦ rw e (merge_ranges-ApartFrom last c cs e)
]

merge_sorted-Apart : (cs : List CommitRange) → Apart (merge_sorted cs)
merge_sorted-Apart [] = tt
merge_sorted-Apart (c ∷ cs) = merge_ranges-Apart c cs

-- `optimize` leaves no range that goes on where the one before it ends, in the order that the sort
-- gives, and panics exactly on two or more ranges of which one has no session.
optimize-Apart :
    (sort : List CommitRange → List CommitRange) (cs : List CommitRange)
    → ((out : List CommitRange) → optimize sort cs ≡ ok out → Apart out)
      × ((optimize sort cs ≡ panic) ↔ (ltb 1 (length cs) && has_nil_session cs ≡ true))
unfolding optimize
optimize-Apart sort cs = (
  (λ out e.
      let same : merge_sorted (sort cs) ≡ out = ground arith in
      subst Apart same (merge_sorted-Apart (sort cs))),
  ((λ e. ground arith), (λ e. ground arith)),
)

append_loop_arith : (r f n : ℕ) → r + (f + suc n) + n * (f + 1 + n) ≡ r + suc n * (f + suc n)
append_loop_arith r f n = omega arith

append_loop-length :
    (rs filled cs : List CommitRange)
    → length (append_loop rs filled cs) ≡ length rs + length cs * (length filled + length cs)
unfolding append_loop
append_loop-length rs filled [] = ground arith
append_loop-length rs filled (c ∷ cs) =
    let n = length cs in
    let f = length filled in
    let sum : length (rs ++ (filled ++ c ∷ replicate n zero_range)) ≡ length rs + (f + suc n) =
      omega (
        arith,
        length-append rs (filled ++ c ∷ replicate n zero_range),
        length-append filled (c ∷ replicate n zero_range),
        length-replicate n zero_range,
      ) in
    append_loop-length (rs ++ (filled ++ c ∷ replicate n zero_range)) (filled ++ c ∷ []) cs
    ∙ rw (sum, length-append filled (c ∷ [])) (append_loop_arith (length rs) f n)

-- `Append` of `n` ranges leaves `n * n` more ranges, so it is right for one range at a time only.
append_ranges-length :
    (rs cs : List CommitRange) → length (append_ranges rs cs) ≡ length rs + length cs * length cs
unfolding append_ranges
append_ranges-length rs cs = append_loop-length rs [] cs ∙ omega arith

-- Where the sort gives no range that is less than the one before it, the message has every session
-- once, by rising ids.
to_partitions_offsets-Rises :
    (sort : List CommitRange → List CommitRange) (cs : List CommitRange)
    (ps : List PartitionOffsets)
    → IsSorted (sort cs)
    → All HasWordId (sort cs)
    → to_partitions_offsets sort cs ≡ ok ps
    → Rises ps
unfolding to_partitions_offsets
to_partitions_offsets-Rises sort [] ps h w e = let same : [] ≡ ps = cc in subst Rises same tt
to_partitions_offsets-Rises sort (c ∷ cs) ps h w e =
    subst Rises (to_partitions_offsets-ok sort c cs ps e) (to_partitions-Rises (sort (c ∷ cs)) h w)
