-- ===== src/Topic/Reader/Batcher/Items.antt =====
-- What the items of a session hold, and what `Append` and a cut do to it.
use mathlib.Core.Path.{subst}
use ydb_go_sdk.Base.{
  All, Bool-cases, List, Option, Option-cases, Result, [], ap, append-nil, append_assoc, arith, err,
  inl, inr, map, none, ok, panic, refl, some, sym, ◌&&◌, ◌++◌, ◌∙◌, ◌∷◌, ◌≡◌, ◌⊎◌,
}
use ydb_go_sdk.Topic.Reader.Batch.{Batch, BatchError, ReaderMessage, append_batch, is_empty}
use ydb_go_sdk.Topic.Reader.Batch.Laws.{append-IsBatch}
use ydb_go_sdk.Topic.Reader.Batcher.Cuts.{
  IsChained, is_empty-messages_of, messages_of, split_batch-Halves,
}
use ydb_go_sdk.Topic.Reader.Batcher.{
  GetOptions, Item, append_item, append_last, behind, cut_head, is_batch, is_empty_item,
  merged_last, of_batch, of_raw, replace_head, split_batch,
}

-- One thing that waits: a message of a batch, or a raw message.
pub data Content (A M : Type 0) : Type 0 where
  read : ReaderMessage A → Content A M
  raw : M → Content A M

module _ {A M : Type 0} where
  abbrev pub contents_of : Item A M → List (Content A M)
  contents_of (of_batch b) = map read (messages_of b)
  contents_of (of_raw m) = raw m ∷ []

  abbrev pub contents : List (Item A M) → List (Content A M)
  contents [] = []
  contents (x ∷ xs) = contents_of x ++ contents xs

  -- A batch of an item is a chain.
  abbrev pub IsItem : Item A M → Type 0
  IsItem (of_batch b) = IsChained b
  IsItem (of_raw m) = Unit

  map-append :
      (xs ys : List (ReaderMessage A))
      → map {B = Content A M} read (xs ++ ys) ≡ map read xs ++ map read ys
  map-append [] ys = refl
  map-append (x ∷ xs) ys = rw (map-append xs ys) refl

  abbrev Holds : List (Content A M) → List (Item A M) → Type 0
  Holds cs items = (contents items ≡ cs) × All IsItem items

  pair-Holds :
      (x y : Item A M) → IsItem x → IsItem y → Holds (contents_of x ++ contents_of y) (x ∷ y ∷ [])
  pair-Holds x y p q = (rw (append-nil (contents_of y)) refl, (p, (q, tt)))

  merged_last-ok :
      (item : Item A M) (r : Result BatchError (Batch A)) (out : List (Item A M))
      → merged_last item r ≡ ok out
      → (d : Batch A) × (r ≡ ok d) × (of_batch (some d) ∷ [] ≡ out)
  merged_last-ok item (ok d) out e = (d, refl, ground arith)
  merged_last-ok item (err x) out e = absurd (ground arith)
  merged_last-ok item panic out e = absurd (ground arith)

  append_last-cases :
      (x y : Batch A) (out : List (Item A M))
      → append_last (of_batch (some x)) (of_batch (some y)) ≡ ok out
      → (of_batch (some x) ∷ of_batch (some y) ∷ [] ≡ out)
        ⊎ ((d : Batch A) × (append_batch (some x) y ≡ ok d) × (of_batch (some d) ∷ [] ≡ out))
  unfolding append_last
  append_last-cases x y out e =
      elim (Bool-cases (
        is_batch {A = A} {M = M} (of_batch (some y))
        && is_batch {A = A} {M = M} (of_batch (some x)))) [
          | inl t ↦
              inr (merged_last-ok (of_batch (some y)) (append_batch (some x) y) out (ground arith))
          | inr f ↦ inl (ground arith)
        ]

  append_last-Holds :
      (x y : Item A M) (out : List (Item A M))
      → IsItem x
      → IsItem y
      → append_last x y ≡ ok out
      → Holds (contents_of x ++ contents_of y) out
  unfolding append_last is_batch is_empty
  append_last-Holds (of_raw m) y out p q e =
      let same : of_raw m ∷ y ∷ [] ≡ out = ground arith in
      subst (Holds _) same (pair-Holds (of_raw m) y p q)
  append_last-Holds (of_batch x) (of_raw m) out p q e =
      let same : of_batch x ∷ of_raw m ∷ [] ≡ out = ground arith in
      subst (Holds _) same (pair-Holds (of_batch x) (of_raw m) p q)
  append_last-Holds (of_batch x) (of_batch none) out p q e =
      let same : of_batch x ∷ of_batch none ∷ [] ≡ out = ground arith in
      subst (Holds _) same (pair-Holds (of_batch x) (of_batch none) p q)
  append_last-Holds (of_batch none) (of_batch (some y)) out p q e =
      let same : of_batch none ∷ of_batch (some y) ∷ [] ≡ out = ground arith in
      subst (Holds _) same (pair-Holds (of_batch none) (of_batch (some y)) p q)
  append_last-Holds (of_batch (some x)) (of_batch (some y)) out p q e =
      elim (append_last-cases x y out e) [
        | inl same ↦ subst (Holds _) same (pair-Holds (of_batch (some x)) (of_batch (some y)) p q)
        | inr (d, h, same) ↦
            let (chain, all) = append-IsBatch x y d p q h in
            subst (Holds _) same (
              append-nil (map read d.messages)
                  ∙ ap (map read) all
                  ∙ map-append x.messages y.messages,
              (chain, tt),
            )
      ]

  behind-ok :
      (x : Item A M) (r : Result BatchError (List (Item A M))) (out : List (Item A M))
      → behind x r ≡ ok out
      → (rest : List (Item A M)) × (r ≡ ok rest) × (x ∷ rest ≡ out)
  behind-ok x (ok xs) out e = (xs, refl, ground arith)
  behind-ok x (err d) out e = absurd (ground arith)
  behind-ok x panic out e = absurd (ground arith)

  -- `Append` puts what the item holds behind all that the items hold.
  pub append_item-Holds :
      (xs : List (Item A M)) (item : Item A M) (out : List (Item A M))
      → All IsItem xs
      → IsItem item
      → append_item xs item ≡ ok out
      → (contents out ≡ contents xs ++ contents_of item) × All IsItem out
  unfolding append_item
  append_item-Holds [] item out p q e =
      let same : item ∷ [] ≡ out = ground arith in
      subst (Holds _) same (append-nil (contents_of item), (q, tt))
  append_item-Holds (x ∷ []) item out (p, _) q e =
      let (c, h) = append_last-Holds x item out p q e in
      (c ∙ ap (λ z. z ++ contents_of item) (sym (append-nil (contents_of x))), h)
  append_item-Holds (x ∷ y ∷ ys) item out (p, ps) q e =
      let (rest, f, same) = behind-ok x (append_item (y ∷ ys) item) out e in
      let (c, h) = append_item-Holds (y ∷ ys) item rest ps q f in
      subst (Holds _) same (
        ap (λ z. contents_of x ++ z) c
            ∙ sym (append_assoc (contents_of x) (contents (y ∷ ys)) (contents_of item)),
        (p, h),
      )

  abbrev Divides : List (Item A M) → Item A M → List (Item A M) → Type 0
  Divides xs item rest =
      (contents xs ≡ contents_of item ++ contents rest) × IsItem item × All IsItem rest

  replace_head-contents :
      (r : Option (Batch A)) (xs : List (Item A M))
      → IsChained r
      → All IsItem xs
      → (contents (replace_head (of_batch r) xs) ≡ map read (messages_of r) ++ contents xs)
        × All IsItem (replace_head (of_batch r) xs)
  unfolding replace_head is_empty_item
  replace_head-contents r xs p q = elim (Bool-cases (is_empty r)) [
    | inl e ↦ rw e (rw (is_empty-messages_of r e) refl, q)
    | inr f ↦ rw f (refl, (p, q))
  ]

  cut_head-cases :
      (o : GetOptions) (b : Batch A) (xs : List (Item A M)) (item : Item A M)
      (rest : List (Item A M))
      → cut_head o (of_batch (some b) ∷ xs) ≡ some (item, rest)
      → (◌≡◌ {A = Item A M × List (Item A M)} (of_batch (some b), xs) (item, rest))
        ⊎ ((h r : Option (Batch A)) × (split_batch o b ≡ some (h, r))
            × (◌≡◌ {A = Item A M × List (Item A M)}
                (of_batch h, replace_head (of_batch r) xs)
                (item, rest)))
  unfolding cut_head
  cut_head-cases o b xs item rest e = elim (Option-cases (split_batch o b)) [
    | inl f ↦ inl (ground arith)
    | inr ((h, r), f) ↦ elim (Bool-cases (is_batch {A = A} {M = M} (of_batch (some b)))) [
      | inl t ↦ inr (h, r, f, ground arith)
      | inr t ↦ inl (ground arith)
    ]
  ]

  -- A cut gives the contents of the items in two, and the parts are chains.
  pub cut_head-Divides :
      (o : GetOptions) (xs : List (Item A M)) (item : Item A M) (rest : List (Item A M))
      → All IsItem xs
      → cut_head o xs ≡ some (item, rest)
      → (contents xs ≡ contents_of item ++ contents rest) × IsItem item × All IsItem rest
  unfolding cut_head
  cut_head-Divides o [] item rest p e = absurd (ground arith)
  cut_head-Divides o (of_raw m ∷ xs) item rest (p, ps) e =
      let same : ◌≡◌ {A = Item A M × List (Item A M)} (of_raw m, xs) (item, rest) = ground arith in
      subst (λ x. Divides (of_raw m ∷ xs) x.0 x.1) same (refl, tt, ps)
  cut_head-Divides o (of_batch none ∷ xs) item rest (p, ps) e =
      let same : ◌≡◌ {A = Item A M × List (Item A M)} (of_batch none, xs) (item, rest) =
        ground arith in
      subst (λ x. Divides (of_batch none ∷ xs) x.0 x.1) same (refl, tt, ps)
  cut_head-Divides o (of_batch (some b) ∷ xs) item rest (p, ps) e =
      elim (cut_head-cases o b xs item rest e) [
        | inl same ↦ subst (λ x. Divides (of_batch (some b) ∷ xs) x.0 x.1) same (refl, p, ps)
        | inr (h, r, f, same) ↦
            let (all, good, chained) = split_batch-Halves o b h r p f in
            let (c, left) = replace_head-contents r xs chained ps in
            subst (λ x. Divides (of_batch (some b) ∷ xs) x.0 x.1) same
              (
                ap (λ z. map read z ++ contents xs) all
                    ∙ ap (λ z. z ++ contents xs) (map-append (messages_of h) (messages_of r))
                    ∙ append_assoc (map read (messages_of h)) (map read (messages_of r))
                        (contents xs)
                    ∙ ap (λ z. map read (messages_of h) ++ z) (sym c),
                good,
                left,
              )
      ]
