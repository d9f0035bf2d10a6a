-- ===== src/Topic/Reader/CommitRanges.antt =====
-- `CommitRanges` of internal/topic/topicreaderinternal/commit_range.go. `sort.Slice`, which promises an
-- order and not which of equal elements comes first, is the parameter `sort`.
pub mod Cover
pub mod Partitions
mod Tests
use ydb_go_sdk.Base.{
  Bool, List, Option, Result, [], err, false, if◌then◌else◌, length, ltb, none, ok, panic,
  replicate, some, true, ℕ, ◌&&◌, ◌++◌, ◌==◌, ◌∷◌,
}
use ydb_go_sdk.Base.Word.{slt}
use ydb_go_sdk.Topic.Reader.CommitRange.{CommitRange}

-- The zero `commitRange` of a slice that `make` gives.
abbrev pub zero_range : CommitRange
zero_range = record { start = 0; end = 0; session = none }

-- The loop of `Append` and of `AppendMessages`: at each step the slice `converted`, filled up to
-- that step, is appended whole.
unfoldable pub append_loop :
    List CommitRange → List CommitRange → List CommitRange → List CommitRange
append_loop ranges filled [] = ranges
append_loop ranges filled (c ∷ cs) =
    append_loop (ranges ++ (filled ++ c ∷ replicate (length cs) zero_range)) (filled ++ c ∷ []) cs

unfoldable pub append_ranges : List CommitRange → List CommitRange → List CommitRange
unfolding append_loop
append_ranges ranges cs = append_loop ranges [] cs

-- `partitionSession.partitionSessionID`, which panics at a nil pointer
abbrev id_of : CommitRange → Option ℕ
id_of c = elim c.session [ none ↦ none | some s ↦ some s.session_id ]

-- The session's id of a range that has a session.
abbrev pub id_or_zero : CommitRange → ℕ
id_or_zero c = elim c.session [ none ↦ 0 | some s ↦ s.session_id ]

-- The order of `optimize`: by the session's id, then by the start.
unfoldable pub range_less : CommitRange → CommitRange → Bool
range_less a b =
    if slt (id_or_zero a) (id_or_zero b)
    then true
    else if slt (id_or_zero b) (id_or_zero a)
    then false
    else slt a.start b.start

-- The range goes on where the last one ends, in the same session.
abbrev pub continues : CommitRange → CommitRange → Bool
continues last c = id_or_zero last == id_or_zero c && last.end == c.start

-- The loop of `optimize` behind its first element.
unfoldable pub merge_ranges : CommitRange → List CommitRange → List CommitRange
merge_ranges last [] = last ∷ []
merge_ranges last (c ∷ cs) =
    let merged = merge_ranges (record last { end = c.end }) cs in
    let apart = merge_ranges c cs in if continues last c then merged else last ∷ apart

-- `rawtopicreader.OffsetRange` and `rawtopicreader.PartitionCommitOffset`
pub record OffsetRange : Type 0 where
  pub from : ℕ
  pub upto : ℕ

pub record PartitionOffsets : Type 0 where
  pub partition_session_id : ℕ
  pub offsets : List OffsetRange

abbrev pub offset_range : CommitRange → OffsetRange
offset_range c = record { from = c.start; upto = c.end }

-- The loop of `toRawPartitionCommitOffset`, with the partition that is being filled.
unfoldable pub fill_partitions : PartitionOffsets → List CommitRange → List PartitionOffsets
fill_partitions p [] = p ∷ []
fill_partitions p (c ∷ cs) =
    let same = fill_partitions (record p { offsets = p.offsets ++ offset_range c ∷ [] }) cs in
    let next =
      fill_partitions
        (record { partition_session_id = id_or_zero c; offsets = offset_range c ∷ [] }) cs in
    if p.partition_session_id == id_or_zero c then same else p ∷ next

-- `toRawPartitionCommitOffset`
unfoldable pub to_partitions : List CommitRange → List PartitionOffsets
unfolding fill_partitions
to_partitions [] = []
to_partitions (c ∷ cs) =
    fill_partitions (record { partition_session_id = id_or_zero c; offsets = [] }) (c ∷ cs)

abbrev pub has_nil_session : List CommitRange → Bool
has_nil_session [] = false
has_nil_session (c ∷ cs) = elim c.session [ none ↦ true | some _ ↦ has_nil_session cs ]

abbrev pub merge_sorted : List CommitRange → List CommitRange
merge_sorted [] = []
merge_sorted (c ∷ cs) = merge_ranges c cs

module _ (sort : List CommitRange → List CommitRange) where
  -- `optimize`; a nil session is dereferenced as soon as there are two ranges
  unfoldable pub optimize : List CommitRange → Result (Unit {0}) (List CommitRange)
  unfolding merge_ranges
  optimize rs =
      if ltb 1 (length rs) && has_nil_session rs then panic else ok (merge_sorted (sort rs))

  -- `toPartitionsOffsets`
  unfoldable pub to_partitions_offsets :
      List CommitRange → Result (Unit {0}) (List PartitionOffsets)
  unfolding optimize to_partitions
  to_partitions_offsets [] = ok []
  to_partitions_offsets (c ∷ cs) =
      if has_nil_session (c ∷ cs) then panic else elim (optimize (c ∷ cs)) [
        | ok rs ↦ ok (to_partitions rs)
        | err e ↦ err e
        | panic ↦ panic
      ]
