-- ===== src/Topic/Reader/Committer/Tests.antt =====
-- The committer at work, and its theorems at concrete runs.
use ydb_go_sdk.Base.{
  All, List, Option, [], arith, false, none, refl, some, true, ℕ, ◌++◌, ◌∷◌, ◌≡◌, ◌≤◌, ◌⊎◌, map,
}
use ydb_go_sdk.Topic.Reader.CommitRange.{CommitRange, SessionRef}
use ydb_go_sdk.Topic.Reader.CommitRanges.{
  PartitionOffsets, append_ranges, fill_partitions, merge_ranges, optimize, to_partitions,
  to_partitions_offsets,
}
use ydb_go_sdk.Topic.Reader.CommitRanges.Cover.{covered, requested}
use ydb_go_sdk.Topic.Reader.Committer.{
  CommitWaiter, Committer, add_waiter, append_commit, at_start, check_condition, listens,
  loop_signal, mode_async, mode_sync, new_commit_waiter, notify_waiters, on_commit_notify,
  push_commit, take_commits, trigger_step,
}
use ydb_go_sdk.Topic.Reader.Committer.Loop.{
  LoopRun, LoopState, Reach, Step, new_run, receive, LoopReach,
}
use ydb_go_sdk.Topic.Reader.Committer.Sending.{Reach-accepted, held}
use ydb_go_sdk.Topic.Reader.Committer.Waking.{Reach-signal}
use ydb_go_sdk.Topic.Reader.Committer.Closing.{closed-Ends}
use mathlib.Core.List.{Permᴰ, Memᴰ}
use ydb_go_sdk.Topic.Reader.Committer.Acks.{
  AckReach, AckRun, AckStep, key_of, new_ack_run, set_offset,
}
use ydb_go_sdk.Topic.Reader.Committer.Serving.{Reach-committed, is_pending, is_reached, was_reached}

abbrev session : SessionRef
session = record { address = 100; session_id = 1 }

abbrev range : ℕ → ℕ → CommitRange
range from upto = record { start = from; end = upto; session = some session }

abbrev same_order : List CommitRange → List CommitRange
same_order cs = cs

same_order-Perm : (cs : List CommitRange) → Permᴰ (same_order cs) cs
same_order-Perm [] = Permᴰ.nil
same_order-Perm (c ∷ cs) = Permᴰ.cons refl (same_order-Perm cs)

abbrev waiter : CommitWaiter
waiter = record { id = 1; session = some session; end_offset = 7; committed = false }

abbrev start_run : LoopRun ℕ
start_run = new_run mode_async

-- A range in the buffer, and the signal given.
abbrev pushed_run : LoopRun ℕ
pushed_run = record start_run {
  committer = record start_run.committer { commits = range 5 7 ∷ []; signal = true };
  accepted = range 5 7 ∷ [];
}

pushed : Reach 0 0 same_order start_run pushed_run
unfolding append_commit append_ranges
pushed =
    Reach.next (Reach.next Reach.here (Step.appends waiter (range 5 7) refl)) (Step.signals 0 refl)

-- A range that is accepted between the look at an empty buffer and the end of the loop stays in the
-- buffer: the first two are sent with one message, and the third one never.
abbrev sent_offsets : List PartitionOffsets
sent_offsets =
    record { partition_session_id = 1; offsets = record { from = 5; upto = 9 } ∷ [] } ∷ []

abbrev lost_run : LoopRun ℕ
lost_run = record {
  committer = record start_run.committer { commits = range 9 11 ∷ []; closed = some 0 };
  loop = LoopState.returned;
  pushing = 1;
  accepted = range 5 7 ∷ range 7 9 ∷ range 9 11 ∷ [];
  taken = range 5 7 ∷ range 7 9 ∷ [];
  sent = sent_offsets;
}

two_pushed : Reach 0 0 same_order start_run (record start_run {
  committer = record start_run.committer { commits = range 5 7 ∷ range 7 9 ∷ []; signal = true };
  pushing = 1;
  accepted = range 5 7 ∷ range 7 9 ∷ [];
})
unfolding append_commit append_ranges
two_pushed =
    Reach.next
      (Reach.next (Reach.next Reach.here (Step.appends waiter (range 5 7) refl))
        (Step.appends waiter (range 7 9) refl))
      (Step.signals 1 refl)

two_sent : Reach 0 0 same_order start_run (record start_run {
  pushing = 1;
  accepted = range 5 7 ∷ range 7 9 ∷ [];
  taken = range 5 7 ∷ range 7 9 ∷ [];
  sent = sent_offsets;
})
unfolding receive listens trigger_step take_commits to_partitions_offsets optimize to_partitions
    fill_partitions merge_ranges
two_sent =
    Reach.next
      (Reach.next (Reach.next two_pushed (Step.selects at_start loop_signal refl refl refl))
        (Step.takes refl))
      (Step.sends (range 5 7) (range 7 9 ∷ []) none refl refl refl)

lost : Reach 0 0 same_order start_run lost_run
unfolding receive listens trigger_step take_commits append_commit append_ranges
lost =
    Reach.next
      (Reach.next
        (Reach.next
          (Reach.next
            (Reach.next (Reach.next two_sent (Step.signals 0 refl))
              (Step.selects at_start loop_signal refl refl refl))
            (Step.takes refl))
          (Step.appends waiter (range 9 11) refl))
        (Step.closes 0))
      (Step.stops 0 refl refl)

Reach-accepted_example :
    (pushed_run.taken ++ (held pushed_run.loop ++ pushed_run.committer.commits)
      ≡ pushed_run.accepted)
    × ((id o : ℕ) → requested id o pushed_run.sent ≡ covered id o pushed_run.taken)
Reach-accepted_example =
    Reach-accepted 0 0 same_order same_order-Perm mode_async pushed_run pushed ((refl, refl), tt)

Reach-signal_example :
    (pushed_run.committer.commits ≡ [])
    ⊎ ((pushed_run.committer.signal ≡ true) ⊎ (1 ≤ pushed_run.pushing))
Reach-signal_example = Reach-signal 0 0 same_order mode_async pushed_run pushed refl

abbrev closed_run : LoopRun ℕ
closed_run = record pushed_run { committer = record pushed_run.committer { closed = some 0 } }

closed-Ends_example :
    (u : LoopRun ℕ) × LoopReach 0 0 same_order closed_run u
    × (u.loop ≡ LoopState.returned)
    × (u.committer.commits ≡ [])
    × (u.taken ≡ closed_run.taken ++ (held closed_run.loop ++ closed_run.committer.commits))
closed-Ends_example =
    closed-Ends 0 0 same_order same_order-Perm closed_run closed_run 0 refl refl ((refl, refl), tt)
      LoopReach.begins

abbrev fresh : Committer ℕ
fresh = record {
  mode = mode_sync;
  closed = none;
  signal = false;
  waiters = [];
  commits = [];
  last_id = 0;
}

-- The waiter of a first commit at its `select`, and the response that it waits for.
abbrev no_offsets : Option SessionRef → ℕ
no_offsets s = 0

abbrev acknowledged : AckRun ℕ
acknowledged = record (new_ack_run mode_sync no_offsets) {
  committer = record fresh {
    waiters = record waiter { committed = true } ∷ [];
    commits = range 5 7 ∷ [];
    last_id = 1;
    signal = true;
  };
  offsets = set_offset (some session) 8 no_offsets;
  calls = key_of waiter ∷ [];
  blocked = key_of waiter ∷ [];
  responses = (some session, 8) ∷ [];
}

acknowledged_reached : AckReach (new_ack_run mode_sync no_offsets) acknowledged
unfolding push_commit append_commit append_ranges new_commit_waiter add_waiter check_condition
    on_commit_notify notify_waiters
acknowledged_reached =
    AckReach.next
      (AckReach.next
        (AckReach.next (AckReach.next AckReach.here (AckStep.pushes (range 5 7) (omega arith)))
          (AckStep.blocks waiter (Memᴰ.head refl) refl))
        (AckStep.responds (some session) 8 refl))
      (AckStep.notifies (some session) 8 refl)

Reach-committed_example :
    All (λ k. Memᴰ k (map key_of acknowledged.committer.waiters)) acknowledged.blocked
    × All
        (λ w.
          (Memᴰ (key_of w) acknowledged.blocked
            → is_reached acknowledged.offsets w ≡ true
            → is_pending acknowledged.pending w.session ≡ false
            → w.committed ≡ true)
          × (w.committed ≡ true → was_reached acknowledged.responses w ≡ true))
        acknowledged.committer.waiters
Reach-committed_example = Reach-committed mode_sync no_offsets acknowledged acknowledged_reached
