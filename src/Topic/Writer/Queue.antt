-- ===== src/Topic/Writer/Queue.antt =====
-- `messageQueue` of internal/topic/topicwriterinternal/queue.go. Its methods run under its mutex, so
-- each is one step. Indexes and sequence numbers are 64-bit patterns (Base/Word); the part of a
-- message that the queue only passes on is the parameter `A`. The channel `hasNewMessages` of
-- capacity one is a flag, `acksReceivedEvent` the number of its broadcasts.
pub mod Cycle
pub mod Sending
pub mod Resending
pub mod Invariant
pub mod Acks
pub mod Waiting
pub mod Effects
pub mod Waking
mod Tests
use mathlib.Core.Option
use ydb_go_sdk.Base.{
  Bool, List, Option, Result, [], err, false, if◌then◌else◌, leb, length, none, not, ok, panic,
  some, suc, true, zero, ℕ, ◌%◌, ◌&&◌, ◌+◌, ◌-◌, ◌==◌, ◌^◌, ◌||◌, ◌∷◌,
}
use ydb_go_sdk.Base.Word.{decr, incr, modulus, sign_bit, sle, slt}
use ydb_go_sdk.Base.Dict.{Dict, contains, erase, insert, lookup}

-- `messageWithDataContent`
pub record Message (A : Type 0) : Type 0 where
  pub seq_no : ℕ
  pub content : A

pub data QueueError : Type 0 where
  add_to_closed unordered_messages unexpected_ack close_closed : QueueError
  get_from_closed queue_closed context_done : QueueError

pub record MessageQueue (A : Type 0) : Type 0 where
  pub has_new_messages : Bool
  pub ack_broadcasts : ℕ
  pub closed : Bool
  pub last_written : ℕ
  pub last_sent : ℕ
  pub last_seq_no : ℕ
  pub messages : Dict (Message A)
  pub order_of : Dict ℕ

-- `minPositiveIndexWhichOrderLessThenNegative`
abbrev half_positive : ℕ
half_positive = 2 ^ 62 - 1

abbrev is_negative : ℕ → Bool
is_negative x = leb sign_bit x

-- `isFirstCycledIndexLess`
unfoldable pub cycled_less : ℕ → ℕ → Bool
cycled_less first second =
    if slt half_positive first && is_negative second
    then true
    else if is_negative first && slt half_positive second
    then false
    else slt first second

-- How many steps of `++` lead from one index to another.
abbrev pub distance : ℕ → ℕ → ℕ
distance a b = (b + modulus - a) % modulus

-- A method's result, and the queue that it leaves.
abbrev pub Returns : Type 0 → Type 0 → Type 0
Returns A B = Result QueueError B × MessageQueue A

module _ {A : Type 0} where
  -- `newMessageQueue`
  unfoldable pub new_queue : MessageQueue A
  new_queue = record {
    has_new_messages = false;
    ack_broadcasts = 0;
    closed = false;
    last_written = 0;
    last_sent = 0;
    last_seq_no = modulus - 1;
    messages = [];
    order_of = [];
  }

  -- `checkNewMessagesBeforeAddNeedLock`, from the number checked last
  unfoldable pub check_new_messages : ℕ → List (Message A) → Bool
  check_new_messages checked [] = true
  check_new_messages checked (m ∷ ms) =
      if sle m.seq_no checked then false else check_new_messages m.seq_no ms

  -- Whether `ensureNoSmallIntIndexes` panics.
  unfoldable pub has_small_index : Dict (Message A) → Bool
  has_small_index [] = false
  has_small_index ((k, m) ∷ d) = (not (is_negative k) && slt k half_positive) || has_small_index d

  -- `addMessageNeedLock`
  unfoldable pub add_message : Message A → MessageQueue A → Returns A ℕ
  unfolding has_small_index
  add_message m q =
      let i = incr q.last_written in
      let q' = record q { last_written = i } in
      if i == sign_bit && has_small_index q.messages
      then (panic, q')
      else if contains i q.messages
      then (panic, q')
      else (
        ok i,
        record q' {
          messages = insert i m q.messages;
          order_of = insert m.seq_no i q.order_of;
          last_seq_no = m.seq_no;
        },
      )

  -- The index of a message goes to the waiter, in front of those of the messages after it.
  abbrev pub note_index : ℕ → Returns A (List ℕ) → Returns A (List ℕ)
  note_index i (ok is, q) = (ok (i ∷ is), q)
  note_index i (err e, q) = (err e, q)
  note_index i (panic, q) = (panic, q)

  abbrev pub and_then : (MessageQueue A → Returns A (List ℕ)) → Returns A ℕ → Returns A (List ℕ)
  and_then rest (ok i, q) = note_index i (rest q)
  and_then rest (err e, q) = (err e, q)
  and_then rest (panic, q) = (panic, q)

  -- The loop of `addMessages`.
  unfoldable pub add_all : List (Message A) → MessageQueue A → Returns A (List ℕ)
  add_all [] q = (ok [], q)
  add_all (m ∷ ms) q = and_then (add_all ms) (add_message m q)

  -- `notifyNewMessages`
  abbrev pub notify : MessageQueue A → MessageQueue A
  notify q = record q { has_new_messages = true }

  abbrev pub notified : Returns A (List ℕ) → Returns A (List ℕ)
  notified (ok is, q) = (ok is, notify q)
  notified (err e, q) = (err e, q)
  notified (panic, q) = (panic, q)

  -- `addMessages`: the indexes are those that `AddMessagesWithWaiter` hands to its waiter.
  unfoldable pub add_messages : List (Message A) → MessageQueue A → Returns A (List ℕ)
  unfolding check_new_messages add_all
  add_messages ms q =
      if q.closed
      then (err add_to_closed, q)
      else if check_new_messages q.last_seq_no ms
      then notified (add_all ms q)
      else (err unordered_messages, q)

  -- `ackReceivedNeedLock`
  unfoldable pub ack_received : ℕ → MessageQueue A → Returns A (Unit {0})
  ack_received s q = elim (lookup s q.order_of) [
    | none ↦ (err unexpected_ack, q)
    | some i ↦ (ok tt, record q { order_of = erase s q.order_of; messages = erase i q.messages })
  ]

  -- The loop of `AcksReceived`; the count of the acknowledged messages, which `OnAckReceived` is
  -- told also on an error, stands first.
  abbrev count_ack :
      (MessageQueue A → ℕ × Returns A (Unit {0})) → Returns A (Unit {0}) → ℕ × Returns A (Unit {0})
  count_ack rest (ok _, q) = let (k, r) = rest q in (suc k, r)
  count_ack rest (err e, q) = (0, (err e, q))
  count_ack rest (panic, q) = (0, (panic, q))

  unfoldable ack_all : List ℕ → MessageQueue A → ℕ × Returns A (Unit {0})
  ack_all [] q = (0, (ok tt, record q { ack_broadcasts = suc q.ack_broadcasts }))
  ack_all (s ∷ ss) q = count_ack (ack_all ss) (ack_received s q)

  -- `AcksReceived`
  unfoldable pub acks_received : List ℕ → MessageQueue A → ℕ × Returns A (Unit {0})
  unfolding ack_all ack_received
  acks_received acks q = ack_all acks q

  -- `Close`: with the count that `OnAckReceived` is told when the queue is closed for the first time.
  unfoldable pub close : MessageQueue A → Option ℕ × Returns A (Unit {0})
  close q =
      if q.closed
      then (none, (err close_closed, q))
      else (some (length q.order_of), (ok tt, record q { closed = true }))

  -- `ResetSentProgress`: the least key in the cyclic order, from the last index written.
  unfoldable pub min_key : ℕ → Dict (Message A) → ℕ
  unfolding cycled_less
  min_key least [] = least
  min_key least ((k, m) ∷ d) = min_key (if cycled_less k least then k else least) d

  unfoldable pub reset_sent_progress : MessageQueue A → MessageQueue A
  unfolding min_key
  reset_sent_progress q = notify (record q { last_sent = decr (min_key q.last_written q.messages) })

  abbrev pub push_found : Option (Message A) → List (Message A) → List (Message A)
  push_found none ms = ms
  push_found (some m) ms = m ∷ ms

  -- The loop of `getMessagesForSendWithLock`, which stops when the two indexes meet: the messages
  -- found, and the last index sent.
  unfoldable pub send_loop : ℕ → ℕ → ℕ → Dict (Message A) → Option (List (Message A) × ℕ)
  send_loop zero written sent d = none
  send_loop (suc fuel) written sent d =
      let next = incr sent in
      let rest = send_loop fuel written next d in
      if written == sent
      then some ([], sent)
      else Option.map (λ r. (push_found (lookup next d) r.0, r.1)) rest

  -- `getMessagesForSendWithLock`, with fuel for the indexes between.
  unfoldable pub get_messages : MessageQueue A → Option (List (Message A) × MessageQueue A)
  unfolding send_loop
  get_messages q =
      Option.map (λ r. (r.0, record q { last_sent = r.1 }))
        (send_loop (suc (distance q.last_sent q.last_written)) q.last_written q.last_sent
          q.messages)
