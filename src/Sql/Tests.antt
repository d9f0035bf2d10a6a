-- ===== src/Sql/Tests.antt =====
-- A connection with one transaction after another, and the theorem there.
use ydb_go_sdk.Base.{[], false, some, true, ◌+◌, ◌∷◌, ◌≡◌}
use ydb_go_sdk.Sql.{
  SqlConn, SqlReach, SqlStep, begin_known, begin_tx, begin_with, begins_in, check_tx_state,
  data_mode, end_tx, end_with, level_default, level_snapshot, new_conn, to_ydb,
}
use ydb_go_sdk.Sql.Ends.{Reach-ends, times_current, times_ended}

abbrev second_open : SqlConn
second_open = record { current = some 1; begun = 2; closed = false; ends = (0, true) ∷ [] }

-- The first one is committed, and its rollback behind that, as `defer tx.Rollback()` gives it, is
-- refused.
second_reached : SqlReach new_conn second_open
unfolding begin_tx begin_known begins_in begin_with to_ydb end_tx end_with check_tx_state
second_reached =
    SqlReach.called
      (SqlReach.called
        (SqlReach.called
          (SqlReach.called SqlReach.opened (SqlStep.begins_tx data_mode level_default false true))
          (SqlStep.ends_tx true 0 false))
        (SqlStep.ends_tx false 0 true))
      (SqlStep.begins_tx data_mode level_snapshot true true)

Reach-ends_example : times_ended 0 second_open.ends + times_current 0 second_open.current ≡ 1
Reach-ends_example = Reach-ends second_open second_reached 0
