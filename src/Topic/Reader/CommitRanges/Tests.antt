-- ===== src/Topic/Reader/CommitRanges/Tests.antt =====
-- Commit ranges of two sessions: runs, and the theorems at them.
use mathlib.Core.List.{Permᴰ}
use ydb_go_sdk.Base.{List, [], if◌then◌else◌, ok, refl, some, ℕ, ◌*◌, ◌∷◌, ◌≡◌}
use ydb_go_sdk.Topic.Reader.CommitRange.{CommitRange}
use ydb_go_sdk.Topic.Reader.CommitRanges.{PartitionOffsets, range_less, to_partitions_offsets}
use ydb_go_sdk.Topic.Reader.CommitRanges.Cover.{covered, requested, to_partitions_offsets-covered}

abbrev range : ℕ → ℕ → ℕ → CommitRange
range id from upto = record {
  start = from;
  end = upto;
  session = some (record { address = id * 100; session_id = id });
}

-- An insertion sort by `range_less`.
abbrev insert_range : CommitRange → List CommitRange → List CommitRange
insert_range c [] = c ∷ []
insert_range c (d ∷ ds) =
    let rest = insert_range c ds in if range_less d c then d ∷ rest else c ∷ d ∷ ds

abbrev sort_ranges : List CommitRange → List CommitRange
sort_ranges [] = []
sort_ranges (c ∷ cs) = insert_range c (sort_ranges cs)

abbrev mixed : List CommitRange
mixed = range 2 5 7 ∷ range 1 3 4 ∷ range 2 0 5 ∷ []

abbrev mixed_offsets : List PartitionOffsets
mixed_offsets =
    record { partition_session_id = 1; offsets = record { from = 3; upto = 4 } ∷ [] }
    ∷ record { partition_session_id = 2; offsets = record { from = 0; upto = 7 } ∷ [] }
    ∷ []

mixed_result : to_partitions_offsets sort_ranges mixed ≡ ok mixed_offsets
unfolding to_partitions_offsets range_less
mixed_result = refl

mixed_sorted : sort_ranges mixed ≡ range 1 3 4 ∷ range 2 0 5 ∷ range 2 5 7 ∷ []
unfolding range_less
mixed_sorted = refl

to_partitions_offsets-covered_example :
    (ps : List PartitionOffsets) × (to_partitions_offsets sort_ranges mixed ≡ ok ps)
    × ((id o : ℕ) → requested id o ps ≡ covered id o mixed)
unfolding range_less
to_partitions_offsets-covered_example =
    to_partitions_offsets-covered sort_ranges mixed
      (Permᴰ.trans (Permᴰ.cons refl (Permᴰ.swap refl refl)) (Permᴰ.swap refl refl))
      ((refl, refl), ((refl, refl), ((refl, refl), tt)))
