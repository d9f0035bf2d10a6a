-- ===== src/Topic/Reader/Batch/Tests.antt =====
-- Batches of two messages: runs, and the theorems at them.
use mathlib.Core.Option
use ydb_go_sdk.Base.{List, [], arith, err, length, ok, refl, some, ℕ, ◌∷◌, ◌≡◌}
use ydb_go_sdk.Topic.Reader.CommitRange.{SessionRef}
use ydb_go_sdk.Topic.Reader.Batch.{
  Batch, RawMessage, ReaderMessage, append_batch, bad_merge_offset, cut_messages,
}
use ydb_go_sdk.Topic.Reader.Batch.Laws.{IsBatch, cut-append}
use ydb_go_sdk.Topic.Reader.Batch.Bytes.{charged_all, messages_count, split_bytes, split_bytes-sum}

abbrev session : SessionRef
session = record { address = 1; session_id = 9 }

abbrev raw : ℕ → RawMessage ℕ
raw o = record { offset = o; raw_len = 10; raw_content = o }

abbrev read_message : ℕ → ℕ → ReaderMessage ℕ
read_message a b = record {
  range = record { start = a; end = b; session = some session };
  raw_data_len = 10;
  buffer_bytes = 0;
  content = a;
}

-- The messages at the offsets 4 and 6 for a reader that has received offset 3.
abbrev pair : Batch ℕ
pair = record {
  messages = read_message 4 5 ∷ read_message 5 7 ∷ [];
  range = record { start = 4; end = 7; session = some session };
}

abbrev after_pair : Batch ℕ
after_pair = record {
  messages = read_message 7 8 ∷ [];
  range = record { start = 7; end = 8; session = some session };
}

abbrev joined_batch : Batch ℕ
joined_batch = record {
  messages = read_message 4 5 ∷ read_message 5 7 ∷ read_message 7 8 ∷ [];
  range = record { start = 4; end = 8; session = some session };
}

append-pair : append_batch (some pair) after_pair ≡ ok joined_batch
unfolding append_batch
append-pair = refl

gap-refused : append_batch (some after_pair) pair ≡ err bad_merge_offset
unfolding append_batch
gap-refused = refl

split-pair : Option.map charged_all (split_bytes (pair ∷ after_pair ∷ []) 35) ≡ some 35
unfolding split_bytes
split-pair = refl

cut-append_example :
    (head rest : Batch ℕ) × (cut_messages 2 joined_batch ≡ (some head, some rest))
    × IsBatch head
    × IsBatch rest
    × (length head.messages ≡ 2)
    × (append_batch (some head) rest ≡ ok joined_batch)
cut-append_example =
    cut-append 2 joined_batch (refl, refl, (refl, refl, (refl, refl, refl))) (omega arith)
      (omega arith)

split_bytes-sum_example :
    (bs : List (Batch ℕ)) × (split_bytes (pair ∷ after_pair ∷ []) 35 ≡ some bs)
    × (charged_all bs ≡ 35)
split_bytes-sum_example =
    split_bytes-sum (pair ∷ after_pair ∷ []) 35 (unfold messages_count in λ e. ground arith)
