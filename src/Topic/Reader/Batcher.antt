-- ===== src/Topic/Reader/Batcher.antt =====
-- `batcher` of internal/topic/topicreaderinternal/batcher.go: what waits for each partition session,
-- and what a call of `Pop` takes. `A` is the content of a message and `M` the type of raw messages.
-- The counts of the options are not negative. The keys are pointers: the addresses of the sessions.
pub mod Cuts
pub mod Items
pub mod Taking
pub mod Limits
mod Tests
use ydb_go_sdk.Base.{
  Bool, List, Option, Result, [], err, false, if◌then◌else◌, length, ltb, none, not, ok, panic,
  some, suc, true, ℕ, ◌&&◌, ◌==◌, ◌∷◌,
}
use ydb_go_sdk.Base.Dict.{Dict, erase, insert, lookup}
use ydb_go_sdk.Topic.Reader.CommitRange.{SessionRef}
use ydb_go_sdk.Topic.Reader.Batch.{Batch, BatchError, append_batch, cut_messages, is_empty}

-- `batcherMessageOrderItem`: the two functions that make one set one of its two fields, and the zero
-- item has no batch.
pub data Item (A M : Type 0) : Type 0 where
  of_batch : Option (Batch A) → Item A M
  of_raw : M → Item A M

pub record GetOptions : Type 0 where
  pub min_count : ℕ
  pub max_count : ℕ
  pub raw_messages_only : Bool

pub record Batcher (A M : Type 0) : Type 0 where
  pub closed : Bool
  pub has_new_messages : Bool
  pub force : Bool
  pub messages : Dict (List (Item A M))

pub data BatcherError : Type 0 where
  closed_already push_closed pop_closed : BatcherError
  not_merged : BatchError → BatcherError

-- What one turn of `Pop` ends with: an item, an error, or that it waits for new messages.
pub data Popped (A M : Type 0) : Type 0 where
  popped : Item A M → Popped A M
  refused : BatcherError → Popped A M
  waits : Popped A M

-- `batcherResultCandidate` that is found
pub record Candidate (A M : Type 0) : Type 0 where
  pub key : ℕ
  pub result : Item A M
  pub rest : List (Item A M)

abbrev pub raw_only : GetOptions
raw_only = record { min_count = 0; max_count = 0; raw_messages_only = true }

-- The key of a session: 0 for the nil pointer.
abbrev key_of : Option SessionRef → ℕ
key_of none = 0
key_of (some s) = suc s.address

-- `splitBatch`
unfoldable pub split_batch :
    {A : Type 0} → GetOptions → Batch A → Option (Option (Batch A) × Option (Batch A))
split_batch o b =
    if ltb (length b.messages) o.min_count
    then none
    else if o.max_count == 0
    then some (some b, none)
    else some (cut_messages o.max_count b)

module _ {A M : Type 0} where
  -- `IsBatch`, `IsRawMessage` and `IsEmpty` of an item
  unfoldable pub is_batch : Item A M → Bool
  unfolding is_empty
  is_batch (of_batch b) = not (is_empty b)
  is_batch (of_raw m) = false

  unfoldable pub is_empty_item : Item A M → Bool
  unfolding is_empty
  is_empty_item (of_batch b) = is_empty b
  is_empty_item (of_raw m) = false

  abbrev pub merged_last :
      Item A M → Result BatchError (Batch A) → Result BatchError (List (Item A M))
  merged_last item (ok b) = ok (of_batch (some b) ∷ [])
  merged_last item (err e) = err e
  merged_last item panic = panic

  abbrev pub behind :
      Item A M → Result BatchError (List (Item A M)) → Result BatchError (List (Item A M))
  behind x (ok xs) = ok (x ∷ xs)
  behind x (err e) = err e
  behind x panic = panic

  -- Two items that stand next to each other: two batches become one.
  unfoldable pub append_last : Item A M → Item A M → Result BatchError (List (Item A M))
  unfolding is_batch
  append_last (of_batch last) (of_batch (some b)) =
      if is_batch (of_batch (some b)) && is_batch (of_batch last)
      then merged_last (of_batch (some b)) (append_batch last b)
      else ok (of_batch last ∷ of_batch (some b) ∷ [])
  append_last (of_batch last) (of_batch none) = ok (of_batch last ∷ of_batch none ∷ [])
  append_last (of_batch last) (of_raw m) = ok (of_batch last ∷ of_raw m ∷ [])
  append_last (of_raw m) item = ok (of_raw m ∷ item ∷ [])

  -- `Append` of the items
  unfoldable pub append_item : List (Item A M) → Item A M → Result BatchError (List (Item A M))
  unfolding append_last
  append_item [] item = ok (item ∷ [])
  append_item (x ∷ xs) item = elim xs [
    | [] ↦ append_last x item
    | _ ∷ _ ↦ behind x (append_item xs item)
  ]

  -- `ReplaceHeadItem` of items behind their head
  unfoldable pub replace_head : Item A M → List (Item A M) → List (Item A M)
  unfolding is_empty_item
  replace_head item rest = if is_empty_item item then rest else item ∷ rest

  -- `cutBatchItemsHead`
  unfoldable pub cut_head : GetOptions → List (Item A M) → Option (Item A M × List (Item A M))
  unfolding is_batch split_batch replace_head
  cut_head o [] = none
  cut_head o (of_batch none ∷ rest) = some (of_batch none, rest)
  cut_head o (of_batch (some b) ∷ rest) =
      if is_batch (of_batch (some b))
      then if o.raw_messages_only then none else elim (split_batch o b) [
        | none ↦ none
        | some p ↦ some (of_batch p.0, replace_head (of_batch p.1) rest)
      ]
      else some (of_batch (some b), rest)
  cut_head o (of_raw m ∷ rest) = some (of_raw m, rest)

  abbrev pub candidate : ℕ → Option (Item A M × List (Item A M)) → Option (Candidate A M)
  candidate k none = none
  candidate k (some (h, r)) = some (record { key = k; result = h; rest = r })

  abbrev pub or_else : Option (Candidate A M) → Option (Candidate A M) → Option (Candidate A M)
  or_else none d = d
  or_else (some c) d = some c

  -- The loop of `findNeedLock`, over the entries of the map in the order in which it meets them.
  unfoldable pub find_loop :
      GetOptions → Dict (List (Item A M)) → Option (Candidate A M) → Option (Candidate A M)
  unfolding cut_head
  find_loop filter [] best = best
  find_loop filter ((k, items) ∷ rest) best =
      let later = find_loop filter rest (or_else best (candidate k (cut_head filter items))) in
      or_else (candidate k (cut_head raw_only items)) later

  -- `applyForceFlagToOptions`
  unfoldable pub apply_force : Batcher A M → GetOptions → GetOptions
  apply_force b o = if b.force then record o { min_count = 1 } else o

  -- `applyNeedLock`
  unfoldable pub apply_found : Candidate A M → Batcher A M → Batcher A M
  unfolding is_batch
  apply_found c b = record b {
    messages = elim c.rest [ [] ↦ erase c.key b.messages | _ ∷ _ ↦ insert c.key c.rest b.messages ];
    force = if is_batch c.result then false else b.force;
  }

  -- One turn of `Pop`, which holds the lock; `entries` is the map in the order of its loop.
  unfoldable pub pop : GetOptions → Dict (List (Item A M)) → Batcher A M → Popped A M × Batcher A M
  unfolding find_loop apply_force apply_found
  pop o entries b =
      if b.closed
      then (refused pop_closed, b)
      else elim (find_loop (apply_force b o) entries none) [
        | none ↦ (waits, b)
        | some c ↦ (popped c.result, apply_found c b)
      ]

  -- The items of a key; a key that is not there has none.
  abbrev pub items_of : ℕ → Dict (List (Item A M)) → List (Item A M)
  items_of k d = elim (lookup k d) [ none ↦ [] | some items ↦ items ]

  abbrev pub stored :
      ℕ
      → Batcher A M
      → Result BatchError (List (Item A M))
      → Result BatcherError (Unit {0}) × Batcher A M
  stored k b (ok items) =
      (ok tt, record b { messages = insert k items b.messages; has_new_messages = true })
  stored k b (err e) = (err (not_merged e), b)
  stored k b panic = (panic, b)

  -- `addNeedLock`
  unfoldable pub add_item :
      ℕ → Item A M → Batcher A M → Result BatcherError (Unit {0}) × Batcher A M
  unfolding append_item
  add_item k item b = stored k b (append_item (items_of k b.messages) item)

  -- `PushRawMessage`
  unfoldable pub push_raw : ℕ → M → Batcher A M → Result BatcherError (Unit {0}) × Batcher A M
  unfolding add_item
  push_raw k m b = if b.closed then (err push_closed, b) else add_item k (of_raw m) b

  abbrev pub and_then :
      (Batcher A M → Result BatcherError (Unit {0}) × Batcher A M)
      → Result BatcherError (Unit {0}) × Batcher A M
      → Result BatcherError (Unit {0}) × Batcher A M
  and_then next (ok _, b) = next b
  and_then next (err e, b) = (err e, b)
  and_then next (panic, b) = (panic, b)

  -- The loop of `PushBatches`, which stops at the first error.
  unfoldable push_loop : List (Batch A) → Batcher A M → Result BatcherError (Unit {0}) × Batcher A M
  unfolding add_item
  push_loop [] b = (ok tt, b)
  push_loop (x ∷ xs) b =
      and_then (push_loop xs) (add_item (key_of x.range.session) (of_batch (some x)) b)

  -- `PushBatches`
  unfoldable pub push_batches :
      List (Batch A) → Batcher A M → Result BatcherError (Unit {0}) × Batcher A M
  unfolding push_loop
  push_batches batches b = if b.closed then (err push_closed, b) else push_loop batches b

  -- `Close`
  unfoldable close_batcher : Batcher A M → Result BatcherError (Unit {0}) × Batcher A M
  close_batcher b =
      if b.closed then (err closed_already, b) else (ok tt, record b { closed = true })

  -- `IgnoreMinRestrictionsOnNextPop`
  unfoldable ignore_min : Batcher A M → Batcher A M
  ignore_min b = record b { force = true; has_new_messages = true }
