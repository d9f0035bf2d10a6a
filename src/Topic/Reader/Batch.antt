-- ===== src/Topic/Reader/Batch.antt =====
-- `PublicBatch` of internal/topic/topicreaderinternal/batch.go. The fields of a message that this file
-- only copies, its reader and its metadata among them, are the parameter `A`.
pub mod Laws
pub mod Bytes
mod Tests
use ydb_go_sdk.Base.{
  Bool, List, Option, Result, [], drop, err, false, if◌then◌else◌, leb, length, none, ok, panic,
  some, take, true, ℕ, ◌++◌, ◌==◌, ◌∷◌,
}
use ydb_go_sdk.Base.Word.{incr}
use ydb_go_sdk.Topic.Reader.CommitRange.{CommitRange, SessionRef, same_session}

-- `PublicMessage`
pub record ReaderMessage (A : Type 0) : Type 0 where
  pub range : CommitRange
  pub raw_data_len : ℕ
  pub buffer_bytes : ℕ
  pub content : A

pub record Batch (A : Type 0) : Type 0 where
  pub messages : List (ReaderMessage A)
  pub range : CommitRange

pub data BatchError : Type 0 where
  bad_session bad_offset bad_merge_session bad_merge_offset : BatchError

-- A message of `rawtopicreader.Batch`: its offset and the length of its data.
pub record RawMessage (A : Type 0) : Type 0 where
  pub offset : ℕ
  pub raw_len : ℕ
  pub raw_content : A

abbrev pub last_or {ℓ} : {B : Type ℓ} → B → List B → B
last_or b [] = b
last_or b (x ∷ xs) = last_or x xs

module _ {A : Type 0} where
  -- A message with no session gets the batch's.
  abbrev pub adopt : Option SessionRef → ReaderMessage A → ReaderMessage A
  adopt s m = elim m.range.session [
    | none ↦ record m { range = record m.range { session = s } }
    | some _ ↦ m
  ]

  abbrev prepend :
      ReaderMessage A
      → Result BatchError (List (ReaderMessage A))
      → Result BatchError (List (ReaderMessage A))
  prepend m (ok ms) = ok (m ∷ ms)
  prepend m (err e) = err e
  prepend m panic = panic

  -- The loop of `newBatch`, with the end of the previous message's range if there is one.
  unfoldable pub check_messages :
      Option SessionRef
      → Option ℕ
      → List (ReaderMessage A)
      → Result BatchError (List (ReaderMessage A))
  check_messages s previous [] = ok []
  check_messages s previous (m ∷ ms) =
      let m' = adopt s m in
      let rest = check_messages s (some m'.range.end) ms in
      if same_session s m'.range.session
      then elim previous [
        | none ↦ prepend m' rest
        | some end ↦ if end == m'.range.start then prepend m' rest else err bad_offset
      ]
      else err bad_session

  -- The range of all messages.
  abbrev whole_range : Option SessionRef → List (ReaderMessage A) → CommitRange
  whole_range s [] = record { start = 0; end = 0; session = s }
  whole_range s (m ∷ ms) = record {
    start = m.range.start;
    end = (last_or m ms).range.end;
    session = s;
  }

  abbrev as_batch :
      Option SessionRef → Result BatchError (List (ReaderMessage A)) → Result BatchError (Batch A)
  as_batch s (ok ms) = ok (record { messages = ms; range = whole_range s ms })
  as_batch s (err e) = err e
  as_batch s panic = panic

  -- `newBatch`
  unfoldable pub new_batch :
      Option SessionRef → List (ReaderMessage A) → Result BatchError (Batch A)
  unfolding check_messages
  new_batch s ms = as_batch s (check_messages s none ms)

  -- The messages of `newBatchFromStream`, from the session's last received offset on, and the offset
  -- that becomes the last received one.
  unfoldable pub from_stream : Option SessionRef → ℕ → List (RawMessage A) → List (ReaderMessage A)
  from_stream s previous [] = []
  from_stream s previous (r ∷ rs) =
      record {
        range = record { start = incr previous; end = incr r.offset; session = s };
        raw_data_len = r.raw_len;
        buffer_bytes = 0;
        content = r.raw_content;
      }
      ∷ from_stream s r.offset rs

  unfoldable pub last_offset : ℕ → List (RawMessage A) → ℕ
  last_offset previous [] = previous
  last_offset previous (r ∷ rs) = last_offset r.offset rs

  -- `newBatchFromStream`: the batch, and the session's last received offset after it.
  unfoldable pub new_batch_from_stream :
      SessionRef → ℕ → List (RawMessage A) → Result BatchError (Batch A) × ℕ
  new_batch_from_stream s received raw =
      (new_batch (some s) (from_stream (some s) received raw), last_offset received raw)

  -- `append`; the receiver may be nil
  unfoldable pub append_batch : Option (Batch A) → Batch A → Result BatchError (Batch A)
  append_batch m b =
      let r : Batch A = elim m [
        | none ↦ record { messages = []; range = record { start = 0; end = 0; session = none } }
        | some x ↦ x
      ] in
      if same_session r.range.session b.range.session
      then if r.range.end == b.range.start
        then ok (record {
          messages = r.messages ++ b.messages;
          range = record r.range { end = b.range.end };
        })
        else err bad_merge_offset
      else err bad_merge_session

  abbrev batch_or_nil : Result BatchError (Batch A) → Option (Batch A)
  batch_or_nil (ok b) = some b
  batch_or_nil (err e) = none
  batch_or_nil panic = none

  -- `cutMessages`, which drops the errors of `newBatch`
  unfoldable pub cut_messages : ℕ → Batch A → Option (Batch A) × Option (Batch A)
  cut_messages count b =
      if count == 0
      then (none, some b)
      else if leb (length b.messages) count
      then (some b, none)
      else (
        batch_or_nil (new_batch b.range.session (take count b.messages)),
        batch_or_nil (new_batch b.range.session (drop count b.messages)),
      )

  -- `isEmpty`
  unfoldable pub is_empty : Option (Batch A) → Bool
  is_empty none = true
  is_empty (some b) = elim b.messages [ [] ↦ true | _ ∷ _ ↦ false ]
