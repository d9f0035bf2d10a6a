-- ===== src/Topic/Reader/Batch/Bytes.antt =====
-- `splitBytesByMessagesInBatches` of internal/topic/topicreaderinternal/batch.go, which charges the
-- bytes of a response to its messages. The sizes are not negative.
use ydb_go_sdk.Base.{
  List, Option, [], ap, arith, if◌then◌else◌, leb, length, ltb, none, refl, some, suc, ℕ, ◌%◌, ◌*◌,
  ◌+◌, ◌-◌, ◌/◌, ◌<◌, ◌==◌, ◌∷◌, ◌≡◌, ◌≢◌, ◌≤◌,
}
use ydb_go_sdk.Topic.Reader.Batch.{Batch, ReaderMessage}

-- `cutBytes`: what is cut off, and what is left of `restBytes`
unfoldable cut_bytes : ℕ → ℕ → ℕ × ℕ
cut_bytes rest want =
    if rest == 0 then (0, rest) else if leb rest want then (rest, 0) else (want, rest - want)

-- What may be left when `n` messages are still to come: nothing after the last one.
abbrev Left : ℕ → ℕ → ℕ → ℕ → Type 0
Left per remainder n rest = rest ≤ n * (per + (if ltb 0 remainder then 1 else 0))

division-Left : (rest count : ℕ) → 0 < count → Left (rest / count) (rest % count) count rest
division-Left rest count pos = ground arith

module _ {A : Type 0} where
  -- A loop over the messages of one batch that changes each, with a state.
  unfoldable each_message :
      (ℕ → ReaderMessage A → ReaderMessage A × ℕ)
      → ℕ
      → List (ReaderMessage A)
      → List (ReaderMessage A) × ℕ
  each_message f s [] = ([], s)
  each_message f s (m ∷ ms) =
      let (m', s') = f s m in let (ms', s'') = each_message f s' ms in (m' ∷ ms', s'')

  -- The same loop over the batches.
  unfoldable each_batch :
      (ℕ → ReaderMessage A → ReaderMessage A × ℕ) → ℕ → List (Batch A) → List (Batch A) × ℕ
  unfolding each_message
  each_batch f s [] = ([], s)
  each_batch f s (b ∷ bs) =
      let (ms, s') = each_message f s b.messages in
      let (bs', s'') = each_batch f s' bs in (record b { messages = ms } ∷ bs', s'')

  unfoldable pub messages_count : List (Batch A) → ℕ
  messages_count [] = 0
  messages_count (b ∷ bs) = length b.messages + messages_count bs

  -- The first loop's body: a message is charged for its own data.
  unfoldable charge_data : ℕ → ReaderMessage A → ReaderMessage A × ℕ
  unfolding cut_bytes
  charge_data rest m =
      let (cut, rest') = cut_bytes rest m.raw_data_len in (record m { buffer_bytes = cut }, rest')

  -- The second loop's body: its part of the overhead, and one byte if there is a remainder.
  unfoldable charge_overhead : ℕ → ℕ → ℕ → ReaderMessage A → ReaderMessage A × ℕ
  unfolding cut_bytes
  charge_overhead per remainder rest m =
      let (cut, rest') = cut_bytes rest per in
      if ltb 0 remainder
      then (let (one, rest'') = cut_bytes rest' 1 in
          (record m { buffer_bytes = m.buffer_bytes + cut + one }, rest''))
      else (record m { buffer_bytes = m.buffer_bytes + cut }, rest')

  -- `splitBytesByMessagesInBatches`: `none` is its error.
  unfoldable pub split_bytes : List (Batch A) → ℕ → Option (List (Batch A))
  unfolding each_batch messages_count charge_data charge_overhead
  split_bytes bs total =
      let (charged, rest) = each_batch charge_data total bs in
      let count = messages_count bs in
      if count == 0
      then if total == 0 then some charged else none
      else some (each_batch (charge_overhead (rest / count) (rest % count)) rest charged).0

  -- What a list of messages, or of batches, is charged.
  abbrev charged : List (ReaderMessage A) → ℕ
  charged [] = 0
  charged (m ∷ ms) = m.buffer_bytes + charged ms

  abbrev pub charged_all : List (Batch A) → ℕ
  charged_all [] = 0
  charged_all (b ∷ bs) = charged b.messages + charged_all bs

  -- A body of the second loop moves bytes from the rest to the message.
  charge_overhead-sum :
      (per remainder rest : ℕ) (m : ReaderMessage A)
      → let (m', rest') = charge_overhead per remainder rest m in
        m'.buffer_bytes + rest' ≡ m.buffer_bytes + rest
  unfolding charge_overhead
  charge_overhead-sum per remainder rest m = ground arith

  charge_data-sum :
      (rest : ℕ) (m : ReaderMessage A)
      → let (m', rest') = charge_data rest m in m'.buffer_bytes + rest' ≡ rest
  unfolding charge_data
  charge_data-sum rest m = ground arith

  charge_overhead-Left :
      (per remainder rest n : ℕ) (m : ReaderMessage A)
      → Left per remainder (suc n) rest
      → Left per remainder n (charge_overhead per remainder rest m).1
  unfolding charge_overhead
  charge_overhead-Left per remainder rest n m h = ground arith

  each_message-Left :
      (per remainder rest n : ℕ) (ms : List (ReaderMessage A))
      → Left per remainder (length ms + n) rest
      → let (ms', rest') = each_message (charge_overhead per remainder) rest ms in
        Left per remainder n rest' × (charged ms' + rest' ≡ charged ms + rest)
  unfolding each_message
  each_message-Left per remainder rest n [] h = (omega arith, refl)
  each_message-Left per remainder rest n (m ∷ ms) h =
      let rest' = (charge_overhead per remainder rest m).1 in
      let ih =
        each_message-Left per remainder rest' n ms
          (charge_overhead-Left per remainder rest (length ms + n) m (ground arith)) in
      (ih.0, omega (arith, ih.1, charge_overhead-sum per remainder rest m))

  each_batch-Left :
      (per remainder rest : ℕ) (bs : List (Batch A))
      → Left per remainder (messages_count bs) rest
      → let (bs', rest') = each_batch (charge_overhead per remainder) rest bs in
        Left per remainder 0 rest' × (charged_all bs' + rest' ≡ charged_all bs + rest)
  unfolding each_batch messages_count
  each_batch-Left per remainder rest [] h = (h, refl)
  each_batch-Left per remainder rest (b ∷ bs) h =
      let (left, sum) = each_message-Left per remainder rest (messages_count bs) b.messages h in
      let rest' = (each_message (charge_overhead per remainder) rest b.messages).1 in
      let (left', sum') = each_batch-Left per remainder rest' bs left in (left', omega arith)

  each_message-charge :
      (rest : ℕ) (ms : List (ReaderMessage A))
      → let (ms', rest') = each_message charge_data rest ms in
        (charged ms' + rest' ≡ rest) × (length ms' ≡ length ms)
  unfolding each_message
  each_message-charge rest [] = (omega arith, refl)
  each_message-charge rest (m ∷ ms) =
      let (sum, len) = each_message-charge (charge_data rest m).1 ms in
      (omega (arith, charge_data-sum rest m), ap suc len)

  each_batch-charge :
      (rest : ℕ) (bs : List (Batch A))
      → let (bs', rest') = each_batch charge_data rest bs in
        (charged_all bs' + rest' ≡ rest) × (messages_count bs' ≡ messages_count bs)
  unfolding each_batch messages_count
  each_batch-charge rest [] = (omega arith, refl)
  each_batch-charge rest (b ∷ bs) =
      let (sum, len) = each_message-charge rest b.messages in
      let (sum', len') = each_batch-charge (each_message charge_data rest b.messages).1 bs in
      (omega arith, omega arith)

  -- With at least one message the messages are charged exactly the bytes of the response, whatever
  -- their own sizes.
  pub split_bytes-sum :
      (bs : List (Batch A)) (total : ℕ)
      → messages_count bs ≢ 0
      → (bs' : List (Batch A)) × (split_bytes bs total ≡ some bs') × (charged_all bs' ≡ total)
  unfolding split_bytes
  split_bytes-sum bs total some_message =
      let (data_sum, count) = each_batch-charge total bs in
      let first = (each_batch charge_data total bs).0 in
      let rest = (each_batch charge_data total bs).1 in
      let n = messages_count bs in
      let left : Left (rest / n) (rest % n) (messages_count first) rest =
        rw count (division-Left rest n (omega arith)) in
      let (none_left, sum) = each_batch-Left (rest / n) (rest % n) rest first left in
      ((each_batch (charge_overhead (rest / n) (rest % n)) rest first).0, ground arith, omega arith)
