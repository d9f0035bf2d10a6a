-- ===== src/Topic/Reader/Batcher/Cuts.antt =====
-- How `splitBatch` divides the messages of a batch.
use mathlib.Core.Path.{subst}
use ydb_go_sdk.Base.{
  ==_iff, Bool-cases, List, Option, [], append-nil, arith, inl, inr, leb, length, none, refl, some,
  sym, true, ℕ, ◌++◌, ◌==◌, ◌≡◌, ◌≢◌,
}
use ydb_go_sdk.Topic.Reader.Batch.{Batch, ReaderMessage, cut_messages, is_empty}
use ydb_go_sdk.Topic.Reader.Batch.Laws.{IsBatch, append-IsBatch, cut-append}
use ydb_go_sdk.Topic.Reader.Batcher.{GetOptions, split_batch}

module _ {A : Type 0} where
  abbrev pub messages_of : Option (Batch A) → List (ReaderMessage A)
  messages_of none = []
  messages_of (some b) = b.messages

  abbrev pub IsChained : Option (Batch A) → Type 0
  IsChained none = Unit
  IsChained (some b) = IsBatch b

  pub is_empty-messages_of : (b : Option (Batch A)) → is_empty b ≡ true → messages_of b ≡ []
  unfolding is_empty
  is_empty-messages_of none e = refl
  is_empty-messages_of (some b) e = ground arith

  -- Two parts of a batch that are chains and have its messages in their order.
  abbrev Halves : Batch A → Option (Batch A) → Option (Batch A) → Type 0
  Halves b h r = (b.messages ≡ messages_of h ++ messages_of r) × IsChained h × IsChained r

  whole-Halves : (b : Batch A) → IsBatch b → Halves b (some b) none
  whole-Halves b h = (sym (append-nil b.messages), h, tt)

  cut_messages-Halves :
      (n : ℕ) (b : Batch A) → IsBatch b → n ≢ 0 → Halves b (cut_messages n b).0 (cut_messages n b).1
  cut_messages-Halves n b h pos = elim (Bool-cases (leb (length b.messages) n)) [
    | inl short ↦
        let same : cut_messages n b ≡ (some b, none) = unfold cut_messages in ground arith in
        subst (λ p. Halves b p.0 p.1) (sym same) (whole-Halves b h)
    | inr long ↦
        let (head, rest, same, p, q, _, e) = cut-append n b h (omega arith) (ground arith) in
        let (_, all) = append-IsBatch head rest b p q e in
        subst (λ p. Halves b p.0 p.1) (sym same) (all, p, q)
  ]

  pub split_batch-Halves :
      (o : GetOptions) (b : Batch A) (h r : Option (Batch A))
      → IsBatch b
      → split_batch o b ≡ some (h, r)
      → Halves b h r
  unfolding split_batch
  split_batch-Halves o b h r p e = elim (Bool-cases (o.max_count == 0)) [
    | inl z ↦
        let same : ◌≡◌ {A = Option (Batch A) × Option (Batch A)} (some b, none) (h, r) =
          ground arith in
        subst (λ x. Halves b x.0 x.1) same (whole-Halves b p)
    | inr nz ↦
        let same : cut_messages o.max_count b ≡ (h, r) = ground arith in
        subst (λ x. Halves b x.0 x.1) same
          (cut_messages-Halves o.max_count b p (λ z. cc ((==_iff o.max_count 0).1 z, nz)))
  ]
