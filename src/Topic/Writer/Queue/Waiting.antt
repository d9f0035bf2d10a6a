-- ===== src/Topic/Writer/Queue/Waiting.antt =====
-- `GetMessagesForSend` and `Wait` of internal/topic/topicwriterinternal/queue.go, which wait between
-- two holds of the mutex, beside the other methods.
use mathlib.Core.Option
use ydb_go_sdk.Base.{
  Bool, List, Option, Result, [], err, false, if◌then◌else◌, none, not, ok, panic, some, true, ℕ,
  ◌==◌, ◌||◌, ◌∷◌, ◌≡◌,
}
use ydb_go_sdk.Base.Dict.{Dict, contains}
use ydb_go_sdk.Topic.Writer.Queue.{
  Message, MessageQueue, QueueError, acks_received, add_messages, close, context_done,
  get_from_closed, get_messages, new_queue, queue_closed, reset_sent_progress,
}

-- Where a call of `GetMessagesForSend` is: before a look at the queue, at its `select`, or returned.
pub data Sender (A : Type 0) : Type 0 where
  looks sleeps : Sender A
  sends : List (Message A) → Sender A
  fails : QueueError → Sender A

-- Where a call of `Wait` is, with the indexes left and the broadcasts so far when it asked for the
-- event.
pub data Waiter : Type 0 where
  asks : List ℕ → Waiter
  checks : ℕ → List ℕ → Waiter
  awaits : ℕ → List ℕ → Waiter
  waited : Waiter
  gives_up : QueueError → Waiter

-- What a `select` receives: `other` is the new message or the event.
pub data Cause : Type 0 where
  by_context by_close by_other : Cause

unfoldable pub start_waiter : Bool → List ℕ → Waiter
start_waiter done is = if done then gives_up context_done else asks is

abbrev pub after_check : ℕ → List ℕ → Waiter
after_check since [] = waited
after_check since (i ∷ is) = awaits since (i ∷ is)

module _ {A : Type 0} where
  -- The beginning of `GetMessagesForSend`, with whether its context is done.
  unfoldable pub start_sender : Bool → MessageQueue A → Sender A
  start_sender done q =
      if done then fails context_done else if q.closed then fails get_from_closed else looks

  abbrev pub after_look : List (Message A) → Sender A
  after_look [] = sleeps
  after_look (m ∷ ms) = sends (m ∷ ms)

  -- A turn of its loop up to the `select`.
  unfoldable pub sender_look : MessageQueue A → Option (Sender A × MessageQueue A)
  unfolding get_messages
  sender_look q = Option.map (λ r. (after_look r.0, r.1)) (get_messages q)

  -- Its `select`, where the case is ready.
  unfoldable pub sender_wake : Cause → MessageQueue A → Option (Sender A × MessageQueue A)
  sender_wake by_context q = some (fails context_done, q)
  sender_wake by_close q = if q.closed then some (fails queue_closed, q) else none
  sender_wake by_other q =
      if q.has_new_messages then some (looks, record q { has_new_messages = false }) else none

  -- The loop of `Wait` under the mutex, which leaves out what is acknowledged.
  unfoldable pub skip_acked : Dict (Message A) → List ℕ → List ℕ
  skip_acked d [] = []
  skip_acked d (i ∷ is) = let rest = skip_acked d is in if contains i d then i ∷ is else rest

  unfoldable pub waiter_check : ℕ → List ℕ → MessageQueue A → Waiter
  unfolding skip_acked
  waiter_check since is q = after_check since (skip_acked q.messages is)

  -- Its `select`; the event is done as soon as there was a broadcast behind the ones counted.
  unfoldable pub waiter_wake : Cause → ℕ → List ℕ → MessageQueue A → Option Waiter
  waiter_wake by_context since is q = some (gives_up context_done)
  waiter_wake by_close since is q = if q.closed then some (gives_up queue_closed) else none
  waiter_wake by_other since is q = if q.ack_broadcasts == since then none else some (asks is)

-- The queue with one call of each, and whether a call of `AcksReceived` failed.
pub record QueueRun (A : Type 0) : Type 0 where
  pub queue : MessageQueue A
  pub sender : Sender A
  pub waiter : Waiter
  pub bad_ack : Bool

abbrev pub is_panic : {B : Type 0} → Result QueueError B → Bool
is_panic (ok b) = false
is_panic (err e) = false
is_panic panic = true

abbrev pub is_error : {B : Type 0} → Result QueueError B → Bool
is_error (ok b) = false
is_error (err e) = true
is_error panic = false

abbrev pub is_ok : {B : Type 0} → Result QueueError B → Bool
is_ok (ok b) = true
is_ok (err e) = false
is_ok panic = false

module _ {A : Type 0} where
  pub data QueueStep (s : QueueRun A) : QueueRun A → Type 0 where
    adds :
        (ms : List (Message A))
        → is_panic (add_messages ms s.queue).0 ≡ false
        → QueueStep s (record s { queue = (add_messages ms s.queue).1 })
    acknowledges :
        (ss : List ℕ)
        → QueueStep s (record s {
          queue = (acks_received ss s.queue).1.1;
          bad_ack = s.bad_ack || not (is_ok (acks_received ss s.queue).1.0);
        })
    resets : QueueStep s (record s { queue = reset_sent_progress s.queue })
    shuts : QueueStep s (record s { queue = (close s.queue).1.1 })
    -- a call of `GetMessagesForSend` begins, looks, and wakes up
    starts_sending : (done : Bool) → QueueStep s (record s { sender = start_sender done s.queue })
    looks_up :
        {x : Sender A} {q : MessageQueue A}
        → s.sender ≡ looks
        → sender_look s.queue ≡ some (x, q)
        → QueueStep s (record s { queue = q; sender = x })
    wakes_up :
        {x : Sender A} {q : MessageQueue A} (c : Cause)
        → s.sender ≡ sleeps
        → sender_wake c s.queue ≡ some (x, q)
        → QueueStep s (record s { queue = q; sender = x })
    -- a call of `Wait` begins, asks for the event, looks at the messages, and wakes up
    starts_waiting :
        (done : Bool) (is : List ℕ) → QueueStep s (record s { waiter = start_waiter done is })
    asks_for :
        (is : List ℕ)
        → s.waiter ≡ asks is
        → QueueStep s (record s { waiter = checks s.queue.ack_broadcasts is })
    checks_for :
        (since : ℕ) (is : List ℕ)
        → s.waiter ≡ checks since is
        → QueueStep s (record s { waiter = waiter_check since is s.queue })
    resumes :
        {w : Waiter} (c : Cause) (since : ℕ) (is : List ℕ)
        → s.waiter ≡ awaits since is
        → waiter_wake c since is s.queue ≡ some w
        → QueueStep s (record s { waiter = w })

  pub data QueueReach (s : QueueRun A) : QueueRun A → Type 0 where
    here : QueueReach s s
    next : {t u : QueueRun A} → QueueReach s t → QueueStep t u → QueueReach s u

  -- A new queue, before any call.
  abbrev pub new_queue_run : QueueRun A
  new_queue_run = record {
    queue = new_queue;
    sender = fails context_done;
    waiter = waited;
    bad_ack = false;
  }
