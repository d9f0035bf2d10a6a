-- ===== src/Topic/Reader/Batcher/Tests.antt =====
-- A batcher with messages of two sessions: runs, and the theorems at it.
use mathlib.Core.Path.{subst}
use ydb_go_sdk.Base.{
  All, Bool-cases, [], arith, false, inl, inr, refl, some, sym, true, ℕ, ◌++◌, ◌+◌, ◌==◌, ◌↔◌, ◌∷◌,
  ◌≡◌, ◌≢◌,
}
use ydb_go_sdk.Base.Dict.{erase, insert}
use ydb_go_sdk.Topic.Reader.CommitRange.{SessionRef}
use ydb_go_sdk.Topic.Reader.Batch.{Batch}
use ydb_go_sdk.Topic.Reader.Batcher.{
  Batcher, GetOptions, add_item, apply_force, items_of, of_batch, of_raw, pop, popped, push_batches,
  push_raw, waits,
}
use ydb_go_sdk.Topic.Reader.Batcher.Items.{IsItem, contents_of}
use ydb_go_sdk.Topic.Reader.Batcher.Taking.{IsKept, add_item-waiting, pop-waiting, waiting}
use ydb_go_sdk.Topic.Reader.Batcher.Limits.{IsShort, pop-waits}

abbrev session : SessionRef
session = record { address = 1; session_id = 9 }

abbrev one_message : ℕ → Batch ℕ
one_message o = record {
  messages =
      record {
        range = record { start = o; end = o + 1; session = some session };
        raw_data_len = 0;
        buffer_bytes = 0;
        content = o;
      }
      ∷ [];
  range = record { start = o; end = o + 1; session = some session };
}

abbrev empty : Batcher ℕ ℕ
empty = record { closed = false; has_new_messages = false; force = false; messages = [] }

abbrev filled : Batcher ℕ ℕ
filled = record {
  closed = false;
  has_new_messages = true;
  force = false;
  messages = (2, of_batch (some (one_message 4)) ∷ []) ∷ (3, of_raw 77 ∷ []) ∷ [];
}

abbrev at_least : ℕ → GetOptions
at_least n = record { min_count = n; max_count = 0; raw_messages_only = false }

filling : (push_raw 3 77 (push_batches (one_message 4 ∷ []) empty).1).1 ≡ filled
unfolding push_raw push_batches insert
filling = refl

-- The raw message goes first.
taking : (pop (at_least 1) filled.messages filled).0 ≡ popped (of_raw 77)
unfolding pop
taking = refl

abbrev without_raw : Batcher ℕ ℕ
without_raw = record filled { messages = (2, of_batch (some (one_message 4)) ∷ []) ∷ [] }

filled-IsKept : IsKept filled
filled-IsKept k = elim (Bool-cases (2 == k)) [
  | inl e ↦
      let same : items_of k filled.messages ≡ of_batch (some (one_message 4)) ∷ [] = ground arith in
      subst (All (IsItem {A = ℕ} {M = ℕ})) (sym same) ((refl, refl, refl), tt)
  | inr e ↦ elim (Bool-cases (3 == k)) [
    | inl f ↦
        let same : items_of k filled.messages ≡ of_raw 77 ∷ [] = ground arith in
        subst (All (IsItem {A = ℕ} {M = ℕ})) (sym same) (tt, tt)
    | inr f ↦
        let same : items_of k filled.messages ≡ [] = ground arith in
        subst (All (IsItem {A = ℕ} {M = ℕ})) (sym same) tt
  ]
]

pop-waiting_example :
    (k : ℕ) × (waiting k filled ≡ contents_of {A = ℕ} {M = ℕ} (of_raw 77) ++ waiting k without_raw)
    × ((j : ℕ) → j ≢ k → waiting j without_raw ≡ waiting j filled)
    × IsItem {A = ℕ} {M = ℕ} (of_raw 77)
    × IsKept without_raw
pop-waiting_example =
    pop-waiting (at_least 1) filled.messages filled without_raw (of_raw 77) filled-IsKept
      (refl, (refl, tt)) (unfold pop erase in refl)

abbrev two_raw : Batcher ℕ ℕ
two_raw = record filled {
  messages = (2, of_batch (some (one_message 4)) ∷ []) ∷ (3, of_raw 77 ∷ of_raw 78 ∷ []) ∷ [];
}

add_item-waiting_example :
    (waiting 3 two_raw ≡ waiting 3 filled ++ contents_of {A = ℕ} {M = ℕ} (of_raw 78))
    × ((j : ℕ) → j ≢ 3 → waiting j two_raw ≡ waiting j filled)
    × IsKept two_raw
    × (two_raw.has_new_messages ≡ true)
add_item-waiting_example =
    add_item-waiting 3 (of_raw 78) filled two_raw filled-IsKept tt (unfold add_item insert in refl)

pop-waits_example : ((pop (at_least 2) without_raw.messages without_raw).0 ≡ waits) ↔ (
    (without_raw.closed ≡ false)
    × All (IsShort (apply_force without_raw (at_least 2))) without_raw.messages)
pop-waits_example = pop-waits (at_least 2) without_raw.messages without_raw
