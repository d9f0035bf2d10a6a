-- ===== src/Topic/Reader/Batcher/Taking.antt =====
-- What a push and a `Pop` do to what waits for each session.
use mathlib.Core.Path.{subst}
use ydb_go_sdk.Base.{
  ==_iff, All, Bool-cases, List, Option, Result, [], ap, arith, err, if◌then◌else◌, inl, inr, none,
  ok, panic, refl, some, sym, true, ℕ, ◌++◌, ◌==◌, ◌∙◌, ◌∷◌, ◌≡◌, ◌≢◌,
}
use ydb_go_sdk.Base.Dict.{Dict, insert, lookup, lookup-erase, lookup-insert}
use ydb_go_sdk.Topic.Reader.Batch.{BatchError}
use ydb_go_sdk.Topic.Reader.Batcher.{
  Batcher, Candidate, GetOptions, Item, add_item, append_item, apply_force, apply_found, candidate,
  cut_head, find_loop, items_of, or_else, pop, popped, raw_only, stored,
}
use ydb_go_sdk.Topic.Reader.Batcher.Items.{
  Content, IsItem, append_item-Holds, contents, contents_of, cut_head-Divides,
}

module _ {A M : Type 0} where
  abbrev pub waiting : ℕ → Batcher A M → List (Content A M)
  waiting k b = contents (items_of k b.messages)

  -- Every batch that waits is a chain.
  abbrev pub IsKept : Batcher A M → Type 0
  IsKept b = (k : ℕ) → All IsItem (items_of k b.messages)

  -- The entries are ones of the map.
  abbrev AreOf : Dict (List (Item A M)) → Dict (List (Item A M)) → Type 0
  AreOf d entries = All (λ e. lookup e.0 d ≡ some e.1) entries

  abbrev IsCut : Dict (List (Item A M)) → Option (Candidate A M) → Type 0
  IsCut d none = Unit
  IsCut d (some c) = (o : GetOptions) × (cut_head o (items_of c.key d) ≡ some (c.result, c.rest))

  or_else-IsCut :
      (d : Dict (List (Item A M))) (x y : Option (Candidate A M))
      → IsCut d x
      → IsCut d y
      → IsCut d (or_else x y)
  or_else-IsCut d none y p q = q
  or_else-IsCut d (some c) y p q = p

  candidate-IsCut :
      (d : Dict (List (Item A M))) (k : ℕ) (o : GetOptions)
      (r : Option (Item A M × List (Item A M)))
      → cut_head o (items_of k d) ≡ r
      → IsCut d (candidate k r)
  candidate-IsCut d k o none e = tt
  candidate-IsCut d k o (some (h, r)) e = (o, e)

  find_loop-IsCut :
      (filter : GetOptions) (d entries : Dict (List (Item A M))) (best : Option (Candidate A M))
      → AreOf d entries
      → IsCut d best
      → IsCut d (find_loop filter entries best)
  unfolding find_loop
  find_loop-IsCut filter d [] best h p = p
  find_loop-IsCut filter d ((k, items) ∷ rest) best (e, h) p =
      let same : items_of k d ≡ items = ground arith in
      or_else-IsCut d (candidate k (cut_head raw_only items)) _
        (candidate-IsCut d k raw_only (cut_head raw_only items) (rw same refl))
        (find_loop-IsCut filter d rest (or_else best (candidate k (cut_head filter items))) h (
          or_else-IsCut d best (candidate k (cut_head filter items)) p
            (candidate-IsCut d k filter (cut_head filter items) (rw same refl))))

  apply_found-items_of :
      (c : Candidate A M) (b : Batcher A M) (k : ℕ)
      → items_of k (apply_found c b).messages
        ≡ (if c.key == k then c.rest else items_of k b.messages)
  unfolding apply_found
  apply_found-items_of c b k = after (c.rest) refl
    where
      after :
          (r : List (Item A M))
          → c.rest ≡ r
          → items_of k (apply_found c b).messages
            ≡ (if c.key == k then c.rest else items_of k b.messages)
      after [] e = ground (arith, e, lookup-erase c.key k b.messages)
      after (x ∷ xs) e = ground (arith, e, lookup-insert c.key k c.rest b.messages)

  pop-found :
      (o : GetOptions) (entries : Dict (List (Item A M))) (b b' : Batcher A M) (item : Item A M)
      → AreOf b.messages entries
      → pop o entries b ≡ (popped item, b')
      → (c : Candidate A M) × IsCut b.messages (some c) × (c.result ≡ item) × (b' ≡ apply_found c b)
  unfolding pop
  pop-found o entries b b' item h e =
      go (find_loop (apply_force b o) entries none) refl
        (find_loop-IsCut (apply_force b o) b.messages entries none h tt)
    where
      go :
          (r : Option (Candidate A M))
          → find_loop (apply_force b o) entries none ≡ r
          → IsCut b.messages r
          → (c : Candidate A M) × IsCut b.messages (some c)
            × (c.result ≡ item)
            × (b' ≡ apply_found c b)
      go none f p = absurd (ground (arith, e, f))
      go (some c) f p = (c, p, ground (arith, e, f), ground (arith, e, f))

  -- What `Pop` gives is the oldest of what waits for one session, in its order: it is taken off the
  -- front of that session, nothing else is lost or moved, no other session changes, and the batches
  -- that are left are chains.
  pub pop-waiting :
      (o : GetOptions) (entries : Dict (List (Item A M))) (b b' : Batcher A M) (item : Item A M)
      → IsKept b
      → AreOf b.messages entries
      → pop o entries b ≡ (popped item, b')
      → (k : ℕ) × (waiting k b ≡ contents_of item ++ waiting k b')
        × ((j : ℕ) → j ≢ k → waiting j b' ≡ waiting j b)
        × IsItem item
        × IsKept b'
  pop-waiting o entries b b' item kept h e =
      let (c, (o', cut), result, after) = pop-found o entries b b' item h e in
      let (halves, good, left) =
        cut_head-Divides o' (items_of c.key b.messages) c.result c.rest (kept c.key) cut in
      let items : (j : ℕ)
          → items_of j b'.messages ≡ (if c.key == j then c.rest else items_of j b.messages) =
        λ j. ap (λ x. items_of j x.messages) after ∙ apply_found-items_of c b j in
      let here : items_of c.key b'.messages ≡ c.rest =
        ground (arith, items c.key, ==_iff c.key c.key) in
      let there : (j : ℕ) → j ≢ c.key → items_of j b'.messages ≡ items_of j b.messages =
        λ j ne. ground (arith, items j, ==_iff c.key j) in
      (
        c.key,
        halves
            ∙ ap (λ x. contents_of x ++ contents c.rest) result
            ∙ ap (λ x. contents_of item ++ contents x) (sym here),
        (λ j ne. ap contents (there j ne)),
        subst IsItem result good,
        (λ j. elim (Bool-cases (c.key == j)) [
          | inl s ↦ subst (All IsItem) (sym (ground (arith, items j))) left
          | inr s ↦ subst (All IsItem) (sym (ground (arith, items j))) (kept j)
        ]),
      )

  stored-ok :
      (k : ℕ) (b b' : Batcher A M) (r : Result BatchError (List (Item A M)))
      → stored k b r ≡ (ok tt, b')
      → (items : List (Item A M)) × (r ≡ ok items)
        × ((j : ℕ) → items_of j b'.messages ≡ (if k == j then items else items_of j b.messages))
  stored-ok k b b' (ok items) e =
      let after : b' ≡ record b { messages = insert k items b.messages; has_new_messages = true } =
        ap (λ x. x.1) (sym e) in
      (
        items,
        refl,
        (λ j.
            ap (λ x. items_of j x.messages) after
            ∙ ground (arith, lookup-insert k j items b.messages)),
      )
  stored-ok k b b' (err x) e = absurd (ground arith)
  stored-ok k b b' panic e = absurd (ground arith)

  -- A push that succeeds puts what the item holds behind all that waits for its session, changes no
  -- other session, and wakes a `Pop` that waits.
  pub add_item-waiting :
      (k : ℕ) (item : Item A M) (b b' : Batcher A M)
      → IsKept b
      → IsItem item
      → add_item k item b ≡ (ok tt, b')
      → (waiting k b' ≡ waiting k b ++ contents_of item)
        × ((j : ℕ) → j ≢ k → waiting j b' ≡ waiting j b)
        × IsKept b'
        × (b'.has_new_messages ≡ true)
  unfolding add_item
  add_item-waiting k item b b' kept good e =
      let (out, f, items) = stored-ok k b b' (append_item (items_of k b.messages) item) e in
      let (c, all) = append_item-Holds (items_of k b.messages) item out (kept k) good f in
      let here : items_of k b'.messages ≡ out = ground (arith, items k, ==_iff k k) in
      let there : (j : ℕ) → j ≢ k → items_of j b'.messages ≡ items_of j b.messages =
        λ j ne. ground (arith, items j, ==_iff k j) in
      (
        ap contents here ∙ c,
        (λ j ne. ap contents (there j ne)),
        (λ j. elim (Bool-cases (k == j)) [
          | inl s ↦ subst (All IsItem) (sym (ground (arith, items j))) all
          | inr s ↦ subst (All IsItem) (sym (ground (arith, items j))) (kept j)
        ]),
        woken (append_item (items_of k b.messages) item) e,
      )
    where
      woken :
          (r : Result BatchError (List (Item A M)))
          → stored k b r ≡ (ok tt, b')
          → b'.has_new_messages ≡ true
      woken (ok items) h = ap (λ x. x.1.has_new_messages) (sym h)
      woken (err x) h = absurd (ground arith)
      woken panic h = absurd (ground arith)
