-- ===== src/Topic/Reader/Batcher/Limits.antt =====
-- When a `Pop` waits, and that it takes raw messages first.
use ydb_go_sdk.Base.{
  All, Bool, List, Option, Option-cases, [], arith, false, inl, inr, leb, length, ltb, none, not,
  refl, some, ℕ, ◌&&◌, ◌||◌, ◌↔◌, ◌∷◌, ◌≡◌,
}
use ydb_go_sdk.Base.Dict.{Dict}
use ydb_go_sdk.Topic.Reader.Batch.{Batch, is_empty}
use ydb_go_sdk.Topic.Reader.Batcher.{
  Batcher, Candidate, GetOptions, Item, apply_force, candidate, cut_head, find_loop, is_batch,
  of_batch, of_raw, or_else, pop, raw_only, split_batch, waits,
}

module _ {A : Type 0} where
  is_empty-length : (b : Batch A) → not (is_empty (some b)) ≡ ltb 0 (length b.messages)
  unfolding is_empty
  is_empty-length b = ground arith

  split_batch-none :
      (o : GetOptions) (b : Batch A)
      → (split_batch o b ≡ none) ↔ (leb o.min_count (length b.messages) ≡ false)
  unfolding split_batch
  split_batch-none o b = (λ e. ground arith, λ e. ground arith)

module _ {A M : Type 0} where
  -- The items begin with one that is no batch of messages, or with an empty batch.
  abbrev begins_raw : List (Item A M) → Bool
  begins_raw [] = false
  begins_raw (x ∷ xs) = not (is_batch x)

  -- The items begin with a batch of messages that is large enough, and batches are asked for.
  abbrev has_enough : GetOptions → List (Item A M) → Bool
  has_enough o [] = false
  has_enough o (of_batch none ∷ xs) = false
  has_enough o (of_batch (some b) ∷ xs) =
      ltb 0 (length b.messages) && leb o.min_count (length b.messages) && not o.raw_messages_only
  has_enough o (of_raw m ∷ xs) = false

  cut_head-none :
      (o : GetOptions) (items : List (Item A M))
      → (cut_head o items ≡ none) ↔ (begins_raw items || has_enough o items ≡ false)
  unfolding cut_head is_batch
  cut_head-none o [] = (λ e. refl, λ e. refl)
  cut_head-none o (of_batch none ∷ xs) =
      (λ e. absurd (ground arith), λ h. absurd (unfold is_empty in ground arith))
  cut_head-none o (of_raw m ∷ xs) = (λ e. absurd (ground arith), λ h. absurd (ground arith))
  cut_head-none o (of_batch (some b) ∷ xs) =
      let s = split_batch-none o b in
      let l = is_empty-length b in
      (
        λ e. elim (Option-cases (split_batch o b)) [
          | inl f ↦ ground (arith, s, l, e, f)
          | inr (p, f) ↦ ground (arith, s, l, e, f)
        ],
        λ h. elim (Option-cases (split_batch o b)) [
          | inl f ↦ ground (arith, s, l, h, f)
          | inr (p, f) ↦ ground (arith, s, l, h, f)
        ],
      )

  or_else-none : (x y : Option (Candidate A M)) → (or_else x y ≡ none) ↔ ((x ≡ none) × (y ≡ none))
  or_else-none none y = (λ e. (refl, e), λ h. h.1)
  or_else-none (some c) y = (λ e. absurd (ground arith), λ h. h.0)

  candidate-none :
      (k : ℕ) (r : Option (Item A M × List (Item A M))) → (candidate k r ≡ none) ↔ (r ≡ none)
  candidate-none k none = (λ e. refl, λ e. refl)
  candidate-none k (some r) = (λ e. absurd (ground arith), λ e. absurd (ground arith))

  -- Nothing can be taken of the items.
  abbrev pub IsShort : GetOptions → ℕ × List (Item A M) → Type 0
  IsShort o e = begins_raw e.1 || has_enough o e.1 ≡ false

  raw_only-IsShort :
      (o : GetOptions) (items : List (Item A M))
      → begins_raw items || has_enough o items ≡ false
      → begins_raw items || has_enough raw_only items ≡ false
  raw_only-IsShort o [] h = refl
  raw_only-IsShort o (of_batch none ∷ xs) h = h
  raw_only-IsShort o (of_batch (some b) ∷ xs) h = ground arith
  raw_only-IsShort o (of_raw m ∷ xs) h = h

  find_loop-none :
      (o : GetOptions) (entries : Dict (List (Item A M))) (best : Option (Candidate A M))
      → (find_loop o entries best ≡ none) ↔ ((best ≡ none) × All (IsShort o) entries)
  unfolding find_loop
  find_loop-none o [] best = (λ e. (e, tt), λ h. h.0)
  find_loop-none o ((k, items) ∷ rest) best =
      let first = cut_head raw_only items in
      let mine = cut_head o items in
      let (down, up) = find_loop-none o rest (or_else best (candidate k mine)) in
      let outer =
        or_else-none (candidate k first) (find_loop o rest (or_else best (candidate k mine))) in
      let inner = or_else-none best (candidate k mine) in
      (
        λ e.
            let (p, q) = outer.0 e in
            let (r, all) = down q in
            let (b, c) = inner.0 r in
            (b, ((cut_head-none o items).0 ((candidate-none k mine).0 c), all)),
        λ h.
            let (b, (short, all)) = h in
            let c = (candidate-none k mine).1 ((cut_head-none o items).1 short) in
            let raw_short : begins_raw items || has_enough raw_only items ≡ false =
              raw_only-IsShort o items short in
            outer.1 (
              (candidate-none k first).1 ((cut_head-none raw_only items).1 raw_short),
              up (inner.1 (b, c), all),
            ),
      )

  -- `Pop` waits exactly when the batcher is open and, for every session, there are no items, or the
  -- first is a batch that has messages, but which the options keep back: they ask for raw messages
  -- only, or for more messages than it has. A call of `IgnoreMinRestrictionsOnNextPop` makes them ask
  -- for one.
  pub pop-waits :
      (o : GetOptions) (entries : Dict (List (Item A M))) (b : Batcher A M)
      → ((pop o entries b).0 ≡ waits)
        ↔ ((b.closed ≡ false) × All (IsShort (apply_force b o)) entries)
  unfolding pop
  pop-waits o entries b =
      let n = find_loop-none (apply_force b o) entries none in
      elim (Option-cases (find_loop (apply_force b o) entries none)) [
        | inl f ↦ (λ e. (ground (arith, e, f), (n.0 f).1), λ h. ground (arith, h, f))
        | inr (c, f) ↦ (λ e. absurd (ground (arith, e, f)), λ h. absurd (cc (n.1 (refl, h.1), f)))
      ]
