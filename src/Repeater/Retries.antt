-- ===== src/Repeater/Retries.antt =====
-- A task that failed is run again, with the delay of its failures.
use mathlib.Core.Bool.{true≢false}
use ydb_go_sdk.Base.{
  Bool, Bool-cases, List, [], ap, arith, false, inl, inr, refl, suc, sym, true, ℕ, ◌==◌, ◌∙◌, ◌∷◌,
  ◌≡◌, ◌≤◌, ◌⊎◌,
}
use ydb_go_sdk.Repeater.{
  Repeater, RepeaterReach, RepeaterStep, WorkerState, begin_task, begins, cancel, delaying,
  end_task, ends_task, event_cancel, event_force, event_tick, force_up, goes, is_cancelled,
  is_delayed, is_forced, new_repeater, process_event, running, selecting, stopped, stops,
  take_force, takes_force, ticks,
}

-- The failures since the last success.
abbrev pub failures : List Bool → ℕ
failures [] = 0
failures (true ∷ os) = 0
failures (false ∷ os) = suc (failures os)

abbrev at_select : WorkerState → Bool
at_select selecting = true
at_select delaying = false
at_select running = false
at_select stopped = false

-- While the context is live: the index counts the failures, and at the `select` one of them has its
-- forced run to come.
record IsRetrying (r : Repeater) : Type 0 where
  counted : r.cancelled ≡ false → r.index ≡ failures r.outcomes
  pending : r.cancelled ≡ false → at_select r.worker ≡ true → 1 ≤ r.index → r.force ≡ true

begin_task-cases :
    (r : Repeater)
    → ((r.cancelled ≡ true) × (begin_task r ≡ record r { index = suc r.index; worker = selecting }))
      ⊎ (begin_task r ≡ record r { worker = running })
unfolding begin_task
begin_task-cases r = elim (Bool-cases r.cancelled) [
  | inl c ↦ inl (c, simp c refl)
  | inr c ↦ inr (simp c refl)
]

begin_task-IsRetrying :
    (r : Repeater)
    → (r.cancelled ≡ false → r.index ≡ failures r.outcomes)
    → IsRetrying (begin_task r)
begin_task-IsRetrying r h = elim (begin_task-cases r) [
  | inl (c, e) ↦ rw e (record {
    counted = λ n. absurd (true≢false (sym c ∙ n));
    pending = λ n a l. absurd (true≢false (sym c ∙ n));
  })
  | inr e ↦ rw e (record { counted = h; pending = λ n a l. cc })
]

take_force-IsRetrying : (r : Repeater) → IsRetrying r → IsRetrying (take_force r)
unfolding take_force
take_force-IsRetrying r h = elim (Bool-cases (r.index == 0)) [
  | inl z ↦
      let e : take_force r ≡ begin_task (record r { force = false }) = simp z refl in
      rw e (begin_task-IsRetrying (record r { force = false }) h.counted)
  | inr z ↦
      let e : take_force r ≡ record r { force = false; worker = delaying } = simp z refl in
      rw e (record { counted = h.counted; pending = λ n a l. cc })
]

Step-IsRetrying : {r t : Repeater} → IsRetrying r → RepeaterStep r t → IsRetrying t
unfolding force_up cancel process_event end_task
Step-IsRetrying h is_forced = record { counted = h.counted; pending = λ n a l. refl }
Step-IsRetrying h is_cancelled = record { counted = λ n. cc; pending = λ n a l. cc }
Step-IsRetrying {r} h (ticks w) = begin_task-IsRetrying r h.counted
Step-IsRetrying {r} h (takes_force w f) = take_force-IsRetrying r h
Step-IsRetrying {r} h (is_delayed event_tick w e) = begin_task-IsRetrying r h.counted
Step-IsRetrying {r} h (is_delayed event_force w e) = begin_task-IsRetrying r h.counted
Step-IsRetrying {r} h (is_delayed event_cancel w e) = record {
  counted = h.counted;
  pending = λ n a l. absurd (true≢false (sym e ∙ n));
}
Step-IsRetrying h (ends_task true w) = record {
  counted = λ n. refl;
  pending = λ n a l. absurd (omega (arith, l));
}
Step-IsRetrying h (ends_task false w) = record {
  counted = λ n. ap suc (h.counted n);
  pending = λ n a l. refl;
}
Step-IsRetrying h (stops w c) = record { counted = h.counted; pending = λ n a l. cc }

Reach-IsRetrying : (r : Repeater) → RepeaterReach new_repeater r → IsRetrying r
Reach-IsRetrying r begins = record {
  counted = λ n. refl;
  pending = λ n a l. absurd (omega (arith, l));
}
Reach-IsRetrying t (goes {s} steps step) = Step-IsRetrying (Reach-IsRetrying s steps) step

-- Whatever is forced and whenever, until the repeater is stopped: the index that gives the delay is
-- the number of failures since the last success, and a worker that waits at its `select` after a
-- failure has a forced run to come, so that it does not wait for the next tick.
pub Reach-failures :
    (r : Repeater)
    → RepeaterReach new_repeater r
    → r.cancelled ≡ false
    → (r.index ≡ failures r.outcomes)
      × (r.worker ≡ selecting → 1 ≤ failures r.outcomes → r.force ≡ true)
Reach-failures r steps n =
    let h = Reach-IsRetrying r steps in
    let c = h.counted n in (c, λ w l. h.pending n (ap at_select w) (omega (arith, c, l)))
