-- ===== src/Topic/Reader/Committer/Loop.antt =====
-- `pushCommitsLoop` beside the goroutines that commit: a step is one hold of the mutex, one `select`
-- or one use of a channel. `sort.Slice` is the parameter `sort`, as for the ranges.
use ydb_go_sdk.Base.{
  List, Option, [], false, if◌then◌else◌, length, none, ok, some, suc, true, ℕ, ◌++◌, ◌∷◌, ◌≡◌,
  Bool,
}
use ydb_go_sdk.Topic.Reader.CommitRange.{CommitRange, SessionRef}
use ydb_go_sdk.Topic.Reader.CommitRanges.{PartitionOffsets, optimize, to_partitions_offsets}
use ydb_go_sdk.Topic.Reader.Committer.{
  CommitMode, CommitWaiter, Committer, Event, Trigger, append_commit, at_start, lag_finished,
  listens, loop_done, loop_signal, on_commit_notify, remove_waiter, send_signal, take_commits,
  trigger_step, triggered,
}

-- Where the loop is: in `waitSendTrigger`, behind the mutex with what it took, or returned.
pub data LoopState : Type 0 where
  waits : Trigger → LoopState
  holds : List CommitRange → LoopState
  returned : LoopState

-- The committer, how many calls of `pushCommit` are behind the mutex and have not signalled yet, and
-- what was accepted and sent so far.
pub record LoopRun (E : Type 0) : Type 0 where
  pub committer : Committer E
  pub loop : LoopState
  pub pushing : ℕ
  pub accepted : List CommitRange
  pub taken : List CommitRange
  pub sent : List PartitionOffsets

-- The background worker is closed with a context error, unless it is closed.
abbrev pub close_worker : {E : Type 0} → E → Committer E → Committer E
close_worker e c = record c { closed = elim c.closed [ none ↦ some e | some x ↦ some x ] }

-- What `select` receives, if it can; a receive empties the channel.
unfoldable pub receive : {E : Type 0} → Event → Committer E → Option (Committer E)
receive loop_done c = elim c.closed [ none ↦ none | some e ↦ some c ]
receive loop_signal c = if c.signal then some (record c { signal = false }) else none
receive lag_finished c = some c

-- `sendCommitMessage` answers with no error, or with one that the loop closes the worker for.
abbrev pub after_send : {E : Type 0} → Option E → Committer E → Committer E
after_send none c = c
after_send (some e) c = close_worker e c

module _ {E : Type 0} (lag count : ℕ) (sort : List CommitRange → List CommitRange) where
  pub data Step (s : LoopRun E) : LoopRun E → Type 0 where
    -- `pushCommit` under the mutex, and its signal
    appends :
        {d : Committer E} (w : CommitWaiter) (r : CommitRange)
        → append_commit w r s.committer ≡ (none, d)
        → Step s
            (record s { committer = d; pushing = suc s.pushing; accepted = s.accepted ++ r ∷ [] })
    -- `pushCommit` of a closed committer, which signals too
    refuses :
        (w : CommitWaiter) (r : CommitRange) (e : E)
        → append_commit w r s.committer ≡ (some e, s.committer)
        → Step s (record s { pushing = suc s.pushing })
    signals :
        (n : ℕ)
        → s.pushing ≡ suc n
        → Step s (record s { committer = send_signal s.committer; pushing = n })
    notifies :
        (session : Option SessionRef) (offset : ℕ)
        → Step s (record s { committer = on_commit_notify session offset s.committer })
    leaves : (id : ℕ) → Step s (record s { committer = remove_waiter id s.committer })
    closes : (e : E) → Step s (record s { committer = close_worker e s.committer })
    -- the loop
    selects :
        {d : Committer E} (t : Trigger) (e : Event)
        → s.loop ≡ waits t
        → listens t e ≡ true
        → receive e s.committer ≡ some d
        → Step s (record s {
          committer = d;
          loop = waits (trigger_step lag count (length d.commits) t e);
        })
    takes :
        s.loop ≡ waits triggered
        → Step s (record s {
          committer = (take_commits s.committer).1;
          loop = holds (take_commits s.committer).0;
        })
    stops :
        (e : E)
        → s.loop ≡ holds []
        → s.committer.closed ≡ some e
        → Step s (record s { loop = returned })
    goes_on :
        s.loop ≡ holds [] → s.committer.closed ≡ none → Step s (record s { loop = waits at_start })
    -- the loop optimizes the ranges, and `sendCommitMessage` does so once more
    sends :
        {os : List CommitRange} {ps : List PartitionOffsets} (r : CommitRange)
        (rs : List CommitRange) (answer : Option E)
        → s.loop ≡ holds (r ∷ rs)
        → optimize sort (r ∷ rs) ≡ ok os
        → to_partitions_offsets sort os ≡ ok ps
        → Step s (record s {
          committer = after_send answer s.committer;
          loop = waits at_start;
          taken = s.taken ++ r ∷ rs;
          sent = s.sent ++ ps;
        })

  -- The step is one of `pushCommitsLoop`.
  abbrev pub is_of_loop : {s t : LoopRun E} → Step s t → Bool
  is_of_loop (appends w r e) = false
  is_of_loop (refuses w r e f) = false
  is_of_loop (signals n e) = false
  is_of_loop (notifies session offset) = false
  is_of_loop (leaves id) = false
  is_of_loop (closes e) = false
  is_of_loop (selects t e l a r) = true
  is_of_loop (takes l) = true
  is_of_loop (stops e l c) = true
  is_of_loop (goes_on l c) = true
  is_of_loop (sends r rs answer l m n) = true

  -- The loop alone, for as long as no other goroutine has a step.
  pub data LoopReach (s : LoopRun E) : LoopRun E → Type 0 where
    begins : LoopReach s s
    turns :
        {t u : LoopRun E} → LoopReach s t → (st : Step t u) → is_of_loop st ≡ true → LoopReach s u

  pub data Reach (s : LoopRun E) : LoopRun E → Type 0 where
    here : Reach s s
    next : {t u : LoopRun E} → Reach s t → Step t u → Reach s u

-- A new committer, whose loop was started.
abbrev pub new_run : {E : Type 0} → CommitMode → LoopRun E
new_run mode = record {
  committer = record {
    mode = mode;
    closed = none;
    signal = false;
    waiters = [];
    commits = [];
    last_id = 0;
  };
  loop = waits at_start;
  pushing = 0;
  accepted = [];
  taken = [];
  sent = [];
}
