-- ===== src/Topic/Reader/Committer/Waking.antt =====
-- The signal of the loop, and what it does when the committer is closed.
use mathlib.Core.Bool.{true≢false}
use ydb_go_sdk.Base.{
  Bool, Bool-cases, List, Option, [], arith, false, inl, inr, leb, length, none, refl, some, sym,
  true, ℕ, ◌==◌, ◌∙◌, ◌≡◌, ◌≤◌, ◌⊎◌,
}
use ydb_go_sdk.Topic.Reader.Committer.{
  CommitMode, Committer, Event, Trigger, at_count, at_lag, at_start, lag_finished, listens,
  look_at_buffer, loop_done, loop_signal, on_commit_notify, remove_waiter, take_commits,
  trigger_step, triggered,
}
use ydb_go_sdk.Topic.Reader.Committer.Loop.{
  LoopRun, LoopState, Reach, Step, after_send, appends, closes, goes_on, here, holds, leaves,
  new_run, next, notifies, refuses, returned, selects, sends, signals, stops, takes, waits,
}
use ydb_go_sdk.Topic.Reader.CommitRange.{CommitRange}
use ydb_go_sdk.Topic.Reader.Committer.Sending.{after_send-commits}

-- The loop will wait for the signal before it takes what is in the buffer.
abbrev needs_signal : LoopState → Bool
needs_signal (waits at_start) = true
needs_signal (waits t) = false
needs_signal (holds cs) = true
needs_signal returned = false

IsSignalled : {E : Type 0} → LoopRun E → Type 0
IsSignalled s =
    needs_signal s.loop ≡ true
    → (s.committer.commits ≡ []) ⊎ ((s.committer.signal ≡ true) ⊎ (1 ≤ s.pushing))

look_at_buffer-needs : (count n : ℕ) → needs_signal (waits (look_at_buffer count n)) ≡ false
unfolding look_at_buffer
look_at_buffer-needs count n = elim (Bool-cases (leb count n)) [
  | inl e ↦ rw e refl
  | inr e ↦ rw e refl
]

-- Behind a `select` the loop is not at its start.
trigger_step-needs :
    (lag count n : ℕ) (t : Trigger) (e : Event)
    → listens t e ≡ true
    → needs_signal (waits (trigger_step lag count n t e)) ≡ false
unfolding trigger_step listens
trigger_step-needs lag count n at_start loop_done h = refl
trigger_step-needs lag count n at_start loop_signal h = elim (Bool-cases (lag == 0)) [
  | inl a ↦ rw a refl
  | inr a ↦ elim (Bool-cases (count == 0)) [
    | inl b ↦ rw (a, b) refl
    | inr b ↦ rw (a, b) (look_at_buffer-needs count n)
  ]
]
trigger_step-needs lag count n at_start lag_finished h = cc
trigger_step-needs lag count n at_lag loop_done h = refl
trigger_step-needs lag count n at_lag loop_signal h = cc
trigger_step-needs lag count n at_lag lag_finished h = refl
trigger_step-needs lag count n at_count loop_done h = refl
trigger_step-needs lag count n at_count loop_signal h = look_at_buffer-needs count n
trigger_step-needs lag count n at_count lag_finished h = refl
trigger_step-needs lag count n triggered e h = cc

after_send-signal :
    {E : Type 0} (o : Option E) (c : Committer E) → (after_send o c).signal ≡ c.signal
after_send-signal none c = refl
after_send-signal (some e) c = refl

module _ {E : Type 0} (lag count : ℕ) (sort : List CommitRange → List CommitRange) where
  Step-IsSignalled : {s t : LoopRun E} → IsSignalled s → Step lag count sort s t → IsSignalled t
  unfolding IsSignalled on_commit_notify remove_waiter take_commits
  Step-IsSignalled h (appends w r e) n = inr (inr (omega arith))
  Step-IsSignalled h (refuses w r e f) n = inr (inr (omega arith))
  Step-IsSignalled h (signals n e) k = inr (inl refl)
  Step-IsSignalled h (notifies session offset) n = h n
  Step-IsSignalled h (leaves id) n = h n
  Step-IsSignalled h (closes e) n = h n
  Step-IsSignalled h (selects {d} t e l a r) n =
      absurd (true≢false (sym n ∙ trigger_step-needs lag count (length d.commits) t e a))
  Step-IsSignalled h (takes l) n = inl refl
  Step-IsSignalled h (stops e l c) n = cc
  Step-IsSignalled h (goes_on l c) n = h (rw l refl)
  Step-IsSignalled {s} h (sends r rs answer l k m) n =
      rw (after_send-commits answer s.committer, after_send-signal answer s.committer)
        (h (rw l refl))

  Reach-IsSignalled :
      (mode : CommitMode) (s : LoopRun E) → Reach lag count sort (new_run mode) s → IsSignalled s
  unfolding IsSignalled
  Reach-IsSignalled mode s here = λ n. inl refl
  Reach-IsSignalled mode u (next {t} steps step) =
      Step-IsSignalled (Reach-IsSignalled mode t steps) step

  -- No wake-up is lost: whatever the goroutines do, a loop that waits at its start while ranges are
  -- in the buffer has its signal, or a goroutine is about to give it.
  pub Reach-signal :
      (mode : CommitMode) (s : LoopRun E)
      → Reach lag count sort (new_run mode) s
      → s.loop ≡ waits at_start
      → (s.committer.commits ≡ []) ⊎ ((s.committer.signal ≡ true) ⊎ (1 ≤ s.pushing))
  unfolding IsSignalled
  Reach-signal mode s steps l = Reach-IsSignalled mode s steps (rw l refl)
