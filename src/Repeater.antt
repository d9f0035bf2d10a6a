-- ===== src/Repeater.antt =====
-- The worker of internal/repeater/repeater.go, beside those who call `Force` and `Stop`. The channel
-- `force` of capacity one is whether it is full.
pub mod Retries
mod Tests
use ydb_go_sdk.Base.{Bool, List, [], false, if◌then◌else◌, suc, true, ℕ, ◌==◌, ◌∷◌, ◌≡◌}

-- Where the worker is: at its `select`, at that of `waitForceEvent`, in the task, or returned.
pub data WorkerState : Type 0 where
  selecting delaying running stopped : WorkerState

-- `index` is `forceIndex`; `outcomes` are the results of the task, the last one first.
pub record Repeater : Type 0 where
  pub cancelled : Bool
  pub force : Bool
  pub index : ℕ
  pub worker : WorkerState
  pub outcomes : List Bool

-- What `waitForceEvent` gives where it waits.
pub data RepeatEvent : Type 0 where
  event_tick event_force event_cancel : RepeatEvent

-- `Force`
unfoldable pub force_up : Repeater → Repeater
force_up r = record r { force = true }

-- `Stop`, or the context of the caller is done.
unfoldable pub cancel : Repeater → Repeater
cancel r = record r { cancelled = true }

-- `processEvent` up to the task: `wakeUp` returns the error of a context that is done.
unfoldable pub begin_task : Repeater → Repeater
begin_task r =
    if r.cancelled
    then record r { index = suc r.index; worker = selecting }
    else record r { worker = running }

-- The rest of `wakeUp` and of `processEvent`, with whether the task succeeded.
unfoldable pub end_task : Bool → Repeater → Repeater
end_task true r = record r {
  force = false;
  index = 0;
  worker = selecting;
  outcomes = true ∷ r.outcomes;
}
end_task false r = record r {
  force = true;
  index = suc r.index;
  worker = selecting;
  outcomes = false ∷ r.outcomes;
}

-- The case of the forced wake-up.
unfoldable pub take_force : Repeater → Repeater
unfolding begin_task
take_force r =
    let taken = record r { force = false } in
    if r.index == 0 then begin_task taken else record taken { worker = delaying }

-- `processEvent` of what `waitForceEvent` gives.
unfoldable pub process_event : RepeatEvent → Repeater → Repeater
unfolding begin_task
process_event event_tick r = begin_task r
process_event event_force r = begin_task r
process_event event_cancel r = record r { worker = selecting }

-- The case of `waitForceEvent` is ready.
abbrev pub is_ready : RepeatEvent → Repeater → Bool
is_ready event_tick r = true
is_ready event_force r = true
is_ready event_cancel r = r.cancelled

pub data RepeaterStep (r : Repeater) : Repeater → Type 0 where
  is_forced : RepeaterStep r (force_up r)
  is_cancelled : RepeaterStep r (cancel r)
  ticks : r.worker ≡ selecting → RepeaterStep r (begin_task r)
  takes_force : r.worker ≡ selecting → r.force ≡ true → RepeaterStep r (take_force r)
  is_delayed :
      (e : RepeatEvent)
      → r.worker ≡ delaying
      → is_ready e r ≡ true
      → RepeaterStep r (process_event e r)
  ends_task : (succeeded : Bool) → r.worker ≡ running → RepeaterStep r (end_task succeeded r)
  stops : r.worker ≡ selecting → r.cancelled ≡ true → RepeaterStep r (record r { worker = stopped })

pub data RepeaterReach (r : Repeater) : Repeater → Type 0 where
  begins : RepeaterReach r r
  goes : {s t : Repeater} → RepeaterReach r s → RepeaterStep s t → RepeaterReach r t

-- `New`
abbrev pub new_repeater : Repeater
new_repeater = record {
  cancelled = false;
  force = false;
  index = 0;
  worker = selecting;
  outcomes = [];
}
