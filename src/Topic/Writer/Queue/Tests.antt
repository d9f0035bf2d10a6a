-- ===== src/Topic/Writer/Queue/Tests.antt =====
-- Runs of the writer's queue, and its theorems at concrete queues.
use mathlib.Core.Option
use ydb_go_sdk.Base.{
  All, List, [], ap, arith, false, length, ok, refl, some, true, ℕ, ◌*◌, ◌++◌, ◌+◌, ◌-◌, ◌<◌, ◌↔◌,
  ◌∷◌, ◌≡◌, ◌≢◌, ◌⊎◌,
}
use ydb_go_sdk.Base.Word.{sign_bit}
use ydb_go_sdk.Base.Dict.{erase, insert}
use ydb_go_sdk.Topic.Writer.Queue.{
  Message, MessageQueue, acks_received, add_message, add_messages, get_messages, new_queue,
  reset_sent_progress,
}
use ydb_go_sdk.Topic.Writer.Queue.Sending.{add_messages-get, unsent}
use ydb_go_sdk.Topic.Writer.Queue.Resending.{Occurs, Stored, reset-resends}
use ydb_go_sdk.Topic.Writer.Queue.Invariant.{IsValid, add_messages-succeeds}
use ydb_go_sdk.Topic.Writer.Queue.Acks.{acks_received-Stored}
use ydb_go_sdk.Topic.Writer.Queue.Waiting.{
  QueueReach, QueueRun, QueueStep, awaits, new_queue_run, sender_look, skip_acked, sleeps,
  start_sender, start_waiter, waiter_check,
}
use ydb_go_sdk.Topic.Writer.Queue.Waking.{Reach-awake, head_stored}

abbrev message : ℕ → Message ℕ
message s = record { seq_no = s; content = s * 10 }

-- A queue whose indexes are about to go from the largest `int` to the smallest.
abbrev brink : MessageQueue ℕ
brink = record {
  has_new_messages = false;
  ack_broadcasts = 0;
  closed = false;
  last_written = sign_bit - 1;
  last_sent = sign_bit - 1;
  last_seq_no = 5;
  messages = (sign_bit - 1, message 5) ∷ [];
  order_of = (5, sign_bit - 1) ∷ [];
}

abbrev two : List (Message ℕ)
two = message 6 ∷ message 9 ∷ []

-- The queue after two more messages.
abbrev past_brink : MessageQueue ℕ
past_brink = record {
  has_new_messages = true;
  ack_broadcasts = 0;
  closed = false;
  last_written = sign_bit + 1;
  last_sent = sign_bit - 1;
  last_seq_no = 9;
  messages = (sign_bit - 1, message 5) ∷ (sign_bit, message 6) ∷ (sign_bit + 1, message 9) ∷ [];
  order_of = (5, sign_bit - 1) ∷ (6, sign_bit) ∷ (9, sign_bit + 1) ∷ [];
}

add-brink : add_messages two brink ≡ (ok (sign_bit ∷ (sign_bit + 1) ∷ []), past_brink)
unfolding add_messages add_message insert
add-brink = refl

get-past_brink : Option.map (λ r. r.0) (get_messages past_brink) ≡ some two
unfolding get_messages
get-past_brink = refl

reset-past_brink :
    Option.map (λ r. r.0) (get_messages (reset_sent_progress past_brink)) ≡ some (message 5 ∷ two)
unfolding get_messages reset_sent_progress
reset-past_brink = refl

ack-past_brink : (acks_received (6 ∷ 7 ∷ 9 ∷ []) past_brink).0 ≡ 1
unfolding acks_received erase
ack-past_brink = refl

brink-IsValid : IsValid brink
brink-IsValid = record {
  indexed = omega arith;
  window = omega arith;
  stored = λ k m e. ground arith;
  ordered = λ s k e. (message 5, ground arith, ground arith);
  bounded = λ s k e. ground arith;
}

add_messages-get_example :
    (old : List (Message ℕ)) × (before after : MessageQueue ℕ) × (get_messages brink
      ≡ some (old, before))
    × (get_messages (add_messages two brink).1 ≡ some (old ++ two, after))
add_messages-get_example =
    add_messages-get two brink (omega arith) (omega arith) (ap (λ r. r.0) add-brink)

reset-resends_example :
    let q' = reset_sent_progress past_brink in
    (get_messages q' ≡ some (unsent q', record q' { last_sent = q'.last_written }))
    × (Stored (message 6) past_brink ↔ Occurs (message 6) (unsent q'))
reset-resends_example = reset-resends past_brink (message 6) (omega arith) (omega arith)

add_messages-succeeds_example :
    (is : List ℕ) × ((add_messages two brink).0 ≡ ok is)
    × (length is ≡ length two)
    × IsValid (add_messages two brink).1
add_messages-succeeds_example =
    add_messages-succeeds two brink brink-IsValid (omega arith) refl (refl, (refl, tt))

acks_received-Stored_example :
    ((acks_received (5 ∷ []) brink).0 ≡ 1)
    × (Stored (message 5) (acks_received (5 ∷ []) brink).1.1
        ↔ (Stored (message 5) brink × All (λ s. (message 5).seq_no ≢ s) (5 ∷ [])))
acks_received-Stored_example =
    acks_received-Stored (5 ∷ []) brink (message 5) brink-IsValid (unfold acks_received in refl)

-- A message is added and sent, and its waiter and the sender sleep.
abbrev added : MessageQueue ℕ
added = record new_queue {
  has_new_messages = true;
  last_written = 1;
  last_seq_no = 6;
  messages = (1, message 6) ∷ [];
  order_of = (6, 1) ∷ [];
}

abbrev asleep : QueueRun ℕ
asleep = record {
  queue = record added { last_sent = 1 };
  sender = sleeps;
  waiter = awaits 0 (1 ∷ []);
  bad_ack = false;
}

asleep_reached : QueueReach new_queue_run asleep
unfolding new_queue add_messages add_message insert start_waiter start_sender waiter_check
    skip_acked sender_look get_messages
asleep_reached =
    QueueReach.next
      (QueueReach.next
        (QueueReach.next
          (QueueReach.next
            (QueueReach.next
              (QueueReach.next
                (QueueReach.next
                  (QueueReach.next QueueReach.here (QueueStep.adds (message 6 ∷ []) refl))
                  (QueueStep.starts_waiting false (1 ∷ [])))
                (QueueStep.asks_for (1 ∷ []) refl))
              (QueueStep.checks_for 0 (1 ∷ []) refl))
            (QueueStep.starts_sending false))
          (QueueStep.looks_up refl refl))
        (QueueStep.starts_sending false))
      (QueueStep.looks_up refl refl)

Reach-awake_example :
    (asleep.sender ≡ sleeps
      → (asleep.queue.has_new_messages ≡ true)
        ⊎ (asleep.queue.last_written ≡ asleep.queue.last_sent))
    × ((since : ℕ) (is : List ℕ)
        → asleep.waiter ≡ awaits since is
        → asleep.bad_ack ≡ false
        → (since < asleep.queue.ack_broadcasts) ⊎ (head_stored is asleep.queue.messages ≡ true))
Reach-awake_example = Reach-awake asleep asleep_reached
