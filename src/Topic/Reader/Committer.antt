-- ===== src/Topic/Reader/Committer.antt =====
-- The committer of internal/topic/topicreaderinternal/committer.go. Each definition is one hold of its
-- mutex, or what a goroutine does between two of them. An error of a context is a value of a type `E`;
-- a channel with room for one is whether it is full.
pub mod Loop
pub mod Acks
pub mod Sending
pub mod Waking
pub mod Closing
pub mod Registering
pub mod Serving
pub mod Commit
mod Tests
use ydb_go_sdk.Base.{
  Bool, List, Option, Result, [], err, false, if◌then◌else◌, leb, none, not, ok, panic, some, true,
  ℕ, ◌&&◌, ◌++◌, ◌==◌, ◌∷◌,
}
use ydb_go_sdk.Base.Word.{incr, sle}
use ydb_go_sdk.Topic.Reader.CommitRange.{CommitRange, SessionRef, same_session}
use ydb_go_sdk.Topic.Reader.CommitRanges.{append_ranges}

pub data CommitMode : Type 0 where
  mode_async mode_none mode_sync : CommitMode

unfoldable pub commits_enabled : CommitMode → Bool
commits_enabled mode_async = true
commits_enabled mode_none = false
commits_enabled mode_sync = true

abbrev pub is_sync : CommitMode → Bool
is_sync mode_async = false
is_sync mode_none = false
is_sync mode_sync = true

pub record CommitWaiter : Type 0 where
  pub id : ℕ
  pub session : Option SessionRef
  pub end_offset : ℕ
  pub committed : Bool

-- `checkCondition`
unfoldable pub check_condition : CommitWaiter → Option SessionRef → ℕ → Bool
check_condition w session offset = same_session session w.session && sle w.end_offset offset

-- `newCommitWaiter`, with the number it takes
unfoldable pub new_commit_waiter : ℕ → Option SessionRef → ℕ → CommitWaiter
new_commit_waiter id session end_offset = record {
  id = id;
  session = session;
  end_offset = end_offset;
  committed = false;
}

pub data CommitError (E : Type 0) : Type 0 where
  commit_disabled : CommitError E
  session_expired : CommitError E
  context_error : E → CommitError E

-- `closed` is the error of the background worker's context, if it is done; `last_id` is
-- `commitWaiterLastID`.
pub record Committer (E : Type 0) : Type 0 where
  pub mode : CommitMode
  pub closed : Option E
  pub signal : Bool
  pub waiters : List CommitWaiter
  pub commits : List CommitRange
  pub last_id : ℕ

unfoldable pub add_waiter : {E : Type 0} → CommitWaiter → Committer E → Committer E
add_waiter w c = record c { waiters = c.waiters ++ w ∷ [] }

unfoldable pub remove_from : ℕ → List CommitWaiter → List CommitWaiter
remove_from id [] = []
remove_from id (w ∷ ws) = let rest = remove_from id ws in if w.id == id then rest else w ∷ rest

-- `removeWaiterByIDNeedLock`
unfoldable pub remove_waiter : {E : Type 0} → ℕ → Committer E → Committer E
unfolding remove_from
remove_waiter id c = record c { waiters = remove_from id c.waiters }

-- What `pushCommit` does under the mutex.
unfoldable pub append_commit :
    {E : Type 0} → CommitWaiter → CommitRange → Committer E → Option E × Committer E
unfolding add_waiter append_ranges
append_commit w r c = elim c.closed [
  | some e ↦ (some e, c)
  | none ↦
      let appended = record c { commits = append_ranges c.commits (r ∷ []) } in
      (none, if is_sync c.mode then add_waiter w appended else appended)
]

abbrev pub send_signal : {E : Type 0} → Committer E → Committer E
send_signal c = record c { signal = true }

-- `pushCommit`
unfoldable pub push_commit :
    {E : Type 0} → CommitRange → Committer E → (Option E × CommitWaiter) × Committer E
unfolding new_commit_waiter append_commit
push_commit r c =
    let w = new_commit_waiter (incr c.last_id) r.session r.end in
    let (e, d) = append_commit w r (record c { last_id = incr c.last_id }) in
    ((e, w), send_signal d)

-- `Commit` up to `waitCommitAck`, with the error of its context.
unfoldable pub start_commit :
    {E : Type 0}
    → Option E
    → CommitRange
    → Committer E
    → Result (CommitError E) CommitWaiter × Committer E
unfolding commits_enabled push_commit
start_commit ctx r c = if not (commits_enabled c.mode) then (err commit_disabled, c) else elim ctx [
  | some e ↦ (err (context_error e), c)
  | none ↦
      let ((e, w), d) = push_commit r c in
      (elim e [ none ↦ ok w | some x ↦ err (context_error x) ], d)
]

-- The case that the `select` of `waitCommitAck` takes.
pub data Wake (E : Type 0) : Type 0 where
  ctx_done : E → Wake E
  session_done : Wake E
  ack_received : Wake E

abbrev pub woken : {E : Type 0} → Wake E → Result (CommitError E) (Unit {0})
woken (ctx_done e) = err (context_error e)
woken session_done = err session_expired
woken ack_received = ok tt

-- `waitCommitAck`, with the committed offset that it loads. A load from no session is a panic, behind
-- which the waiter is removed too.
unfoldable pub wait_commit_ack :
    {E : Type 0}
    → Wake E
    → ℕ
    → CommitWaiter
    → Committer E
    → Result (CommitError E) (Unit {0}) × Committer E
unfolding check_condition remove_waiter
wait_commit_ack wake offset w c = if not (is_sync c.mode) then (ok tt, c) else (
  elim w.session [
    | none ↦ panic
    | some s ↦ if check_condition w w.session offset then ok tt else woken wake
  ],
  remove_waiter w.id c,
)

unfoldable pub notify_waiters : Option SessionRef → ℕ → List CommitWaiter → List CommitWaiter
unfolding check_condition
notify_waiters session offset [] = []
notify_waiters session offset (w ∷ ws) =
    let rest = notify_waiters session offset ws in
    (if check_condition w session offset then record w { committed = true } else w) ∷ rest

-- `OnCommitNotify`
unfoldable pub on_commit_notify : {E : Type 0} → Option SessionRef → ℕ → Committer E → Committer E
unfolding notify_waiters
on_commit_notify session offset c = record c { waiters = notify_waiters session offset c.waiters }

-- The part of `pushCommitsLoop` under the mutex.
unfoldable pub take_commits : {E : Type 0} → Committer E → List CommitRange × Committer E
take_commits c = (c.commits, record c { commits = [] })

-- Where `waitSendTrigger` is: at its first `select`, at the one that waits for the time only, at the
-- one in the loop, behind a look at the buffer, or at its end.
pub data Trigger : Type 0 where
  at_start at_lag at_count triggered : Trigger

-- What a `select` of `waitSendTrigger` receives.
pub data Event : Type 0 where
  loop_done loop_signal lag_finished : Event

-- A turn of its loop up to the `select`.
unfoldable pub look_at_buffer : ℕ → ℕ → Trigger
look_at_buffer count buffered = if leb count buffered then triggered else at_count

-- The cases that the `select` at each place has.
unfoldable pub listens : Trigger → Event → Bool
listens at_start lag_finished = false
listens at_start e = true
listens at_lag loop_signal = false
listens at_lag e = true
listens at_count e = true
listens triggered e = false

-- One `select` and what follows it, with `BufferTimeLagTrigger`, `BufferCountTrigger` and the length
-- of the buffer that is then read.
unfoldable pub trigger_step : ℕ → ℕ → ℕ → Trigger → Event → Trigger
unfolding look_at_buffer
trigger_step lag count buffered at_start loop_signal =
    if lag == 0 then triggered else if count == 0 then at_lag else look_at_buffer count buffered
trigger_step lag count buffered at_count loop_signal = look_at_buffer count buffered
trigger_step lag count buffered t e = triggered
