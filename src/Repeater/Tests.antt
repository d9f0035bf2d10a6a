-- ===== src/Repeater/Tests.antt =====
-- The repeater after a failed task, and the theorem there.
use ydb_go_sdk.Base.{[], false, refl, true, ◌∷◌, ◌≡◌, ◌≤◌}
use ydb_go_sdk.Repeater.{
  Repeater, RepeaterReach, RepeaterStep, begin_task, end_task, event_force, new_repeater,
  process_event, selecting, take_force,
}
use ydb_go_sdk.Repeater.Retries.{Reach-failures, failures}

abbrev failed_twice : Repeater
failed_twice = record new_repeater { force = true; index = 2; outcomes = false ∷ false ∷ [] }

failed_twice_reached : RepeaterReach new_repeater failed_twice
unfolding begin_task end_task take_force process_event
failed_twice_reached =
    RepeaterReach.goes
      (RepeaterReach.goes
        (RepeaterReach.goes
          (RepeaterReach.goes (RepeaterReach.goes RepeaterReach.begins (RepeaterStep.ticks refl))
            (RepeaterStep.ends_task false refl))
          (RepeaterStep.takes_force refl refl))
        (RepeaterStep.is_delayed event_force refl refl))
      (RepeaterStep.ends_task false refl)

Reach-failures_example :
    (failed_twice.index ≡ failures failed_twice.outcomes)
    × (failed_twice.worker ≡ selecting
        → 1 ≤ failures failed_twice.outcomes
        → failed_twice.force ≡ true)
Reach-failures_example = Reach-failures failed_twice failed_twice_reached refl
