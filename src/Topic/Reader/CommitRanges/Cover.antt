-- ===== src/Topic/Reader/CommitRanges/Cover.antt =====
-- What a list of ranges covers, before and after `optimize`.
use mathlib.Core.List.{Permᴰ}
use ydb_go_sdk.Base.{
  All, Bool, Bool-cases, List, [], ap, arith, false, inl, inr, is_some, ok, refl, true, ℕ, ◌&&◌,
  ◌++◌, ◌==◌, ◌||◌, ◌∙◌, ◌∷◌, ◌≡◌,
}
use ydb_go_sdk.Base.Word.{sle, slt}
use ydb_go_sdk.Topic.Reader.CommitRange.{CommitRange}
use ydb_go_sdk.Topic.Reader.CommitRanges.{
  OffsetRange, PartitionOffsets, continues, fill_partitions, has_nil_session, id_or_zero,
  merge_ranges, merge_sorted, offset_range, optimize, to_partitions, to_partitions_offsets,
}

-- The range begins no later than it ends.
abbrev IsRange : CommitRange → Type 0
IsRange c = sle c.start c.end ≡ true

-- The offset stands in the range, which is one of the session with that id.
abbrev pub covers : ℕ → ℕ → CommitRange → Bool
covers id o c = id_or_zero c == id && (sle c.start o && slt o c.end)

abbrev pub covered : ℕ → ℕ → List CommitRange → Bool
covered id o [] = false
covered id o (c ∷ cs) = covers id o c || covered id o cs

-- The same for the ranges of one partition of the message that commits them, and of all of them.
abbrev spans : ℕ → List OffsetRange → Bool
spans o [] = false
spans o (r ∷ rs) = (sle r.from o && slt o r.upto) || spans o rs

abbrev pub requested : ℕ → ℕ → List PartitionOffsets → Bool
requested id o [] = false
requested id o (p ∷ ps) = (p.partition_session_id == id && spans o p.offsets) || requested id o ps

covered-Perm :
    (id o : ℕ) {xs ys : List CommitRange} → Permᴰ xs ys → covered id o xs ≡ covered id o ys
covered-Perm id o Permᴰ.nil = refl
covered-Perm id o (Permᴰ.cons e p) = rw (e, covered-Perm id o p)
covered-Perm id o (Permᴰ.swap e f) = rw (e, f) (ground arith)
covered-Perm id o (Permᴰ.trans p q) = covered-Perm id o p ∙ covered-Perm id o q

-- A range of a session, which begins no later than it ends.
abbrev pub IsWritten : CommitRange → Type 0
IsWritten c = IsRange c × (is_some c.session ≡ true)

AllWritten-Perm : {xs ys : List CommitRange} → Permᴰ xs ys → All IsWritten ys → All IsWritten xs
AllWritten-Perm Permᴰ.nil h = h
AllWritten-Perm (Permᴰ.cons e p) (h, hs) = (rw e h, AllWritten-Perm p hs)
AllWritten-Perm (Permᴰ.swap e f) (h, (k, hs)) = (rw e k, (rw f h, hs))
AllWritten-Perm (Permᴰ.trans p q) h = AllWritten-Perm p (AllWritten-Perm q h)

covers-join :
    (id o : ℕ) (last c : CommitRange)
    → IsRange last
    → IsRange c
    → continues last c ≡ true
    → (covers id o (record last { end = c.end }) ≡ covers id o last || covers id o c)
      × IsRange (record last { end = c.end })
covers-join id o last c p q e = (ground arith, ground arith)

merge_ranges-covered :
    (id o : ℕ) (last : CommitRange) (cs : List CommitRange)
    → IsRange last
    → All IsWritten cs
    → covered id o (merge_ranges last cs) ≡ covers id o last || covered id o cs
unfolding merge_ranges
merge_ranges-covered id o last [] p q = refl
merge_ranges-covered id o last (c ∷ cs) p ((q, some_session), qs) =
    elim (Bool-cases (continues last c)) [
      | inl e ↦
          let (same, joined) = covers-join id o last c p q e in
          rw e (
            merge_ranges-covered id o (record last { end = c.end }) cs joined qs
            ∙ ground (arith, same))
      | inr e ↦ rw e (ap (λ b. covers id o last || b) (merge_ranges-covered id o c cs q qs))
    ]

spans-append :
    (o : ℕ) (rs : List OffsetRange) (r : OffsetRange)
    → spans o (rs ++ r ∷ []) ≡ spans o rs || (sle r.from o && slt o r.upto)
spans-append o [] r = ground arith
spans-append o (x ∷ xs) r = rw (spans-append o xs r) (ground arith)

fill_partitions-requested :
    (id o : ℕ) (p : PartitionOffsets) (cs : List CommitRange)
    → requested id o (fill_partitions p cs)
      ≡ (p.partition_session_id == id && spans o p.offsets) || covered id o cs
unfolding fill_partitions
fill_partitions-requested id o p [] = refl
fill_partitions-requested id o p (c ∷ cs) = ground (
  arith,
  fill_partitions-requested id o (record p { offsets = p.offsets ++ offset_range c ∷ [] }) cs,
  fill_partitions-requested id o
      (record { partition_session_id = id_or_zero c; offsets = offset_range c ∷ [] }) cs,
  spans-append o p.offsets (offset_range c),
)

has_nil_session-written : (cs : List CommitRange) → All IsWritten cs → has_nil_session cs ≡ false
has_nil_session-written [] h = refl
has_nil_session-written (c ∷ cs) ((p, q), h) = ground (arith, has_nil_session-written cs h)

to_partitions-requested :
    (id o : ℕ) (cs : List CommitRange) → requested id o (to_partitions cs) ≡ covered id o cs
unfolding to_partitions
to_partitions-requested id o [] = refl
to_partitions-requested id o (c ∷ cs) =
    fill_partitions-requested id o (record { partition_session_id = id_or_zero c; offsets = [] })
      (c ∷ cs)
    ∙ ground arith

merged-covered :
    (id o : ℕ) (cs : List CommitRange)
    → All IsWritten cs
    → covered id o (merge_sorted cs) ≡ covered id o cs
merged-covered id o [] h = refl
merged-covered id o (c ∷ cs) ((p, _), h) = merge_ranges-covered id o c cs p h

merge_ranges-IsWritten :
    (last : CommitRange) (cs : List CommitRange)
    → IsWritten last
    → All IsWritten cs
    → All IsWritten (merge_ranges last cs)
unfolding merge_ranges
merge_ranges-IsWritten last [] p q = (p, tt)
merge_ranges-IsWritten last (c ∷ cs) (p, has) (q, qs) = elim (Bool-cases (continues last c)) [
  | inl e ↦
      let joined = (covers-join 0 0 last c p q.0 e).1 in
      rw e (merge_ranges-IsWritten (record last { end = c.end }) cs (joined, has) qs)
  | inr e ↦ rw e ((p, has), merge_ranges-IsWritten c cs q qs)
]

merge_sorted-IsWritten :
    (cs : List CommitRange) → All IsWritten cs → All IsWritten (merge_sorted cs)
merge_sorted-IsWritten [] h = h
merge_sorted-IsWritten (c ∷ cs) (h, hs) = merge_ranges-IsWritten c cs h hs

-- Ranges that are written stay so, and cover the same offsets.
pub optimize-covered :
    (sort : List CommitRange → List CommitRange) (cs : List CommitRange)
    → Permᴰ (sort cs) cs
    → All IsWritten cs
    → (os : List CommitRange) × (optimize sort cs ≡ ok os)
      × All IsWritten os
      × ((id o : ℕ) → covered id o os ≡ covered id o cs)
unfolding optimize
optimize-covered sort cs p h =
    let written = AllWritten-Perm p h in
    (
      merge_sorted (sort cs),
      rw (has_nil_session-written cs h) (ground arith),
      merge_sorted-IsWritten (sort cs) written,
      (λ id o. merged-covered id o (sort cs) written ∙ covered-Perm id o p),
    )

-- Whatever the sort does with equal ranges, the message asks to commit exactly the offsets that the
-- ranges cover, for every session id: merging loses none and adds none. The ranges have sessions and
-- begin no later than they end.
pub to_partitions_offsets-covered :
    (sort : List CommitRange → List CommitRange) (cs : List CommitRange)
    → Permᴰ (sort cs) cs
    → All IsWritten cs
    → (ps : List PartitionOffsets) × (to_partitions_offsets sort cs ≡ ok ps)
      × ((id o : ℕ) → requested id o ps ≡ covered id o cs)
unfolding to_partitions_offsets optimize
to_partitions_offsets-covered sort [] p h = ([], refl, (λ id o. refl))
to_partitions_offsets-covered sort (c ∷ cs) p h = (
  to_partitions (merge_sorted (sort (c ∷ cs))),
  rw (has_nil_session-written (c ∷ cs) h) (ground arith),
  (λ id o.
      to_partitions-requested id o (merge_sorted (sort (c ∷ cs)))
      ∙ merged-covered id o (sort (c ∷ cs)) (AllWritten-Perm p h)
      ∙ covered-Perm id o p),
)
