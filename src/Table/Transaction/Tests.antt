-- ===== src/Table/Transaction/Tests.antt =====
-- Attempts of `DoTx`, and a transaction that is called again after its end.
use ydb_go_sdk.Base.{List, [], false, none, refl, some, true, ◌∷◌, ◌≡◌}
use ydb_go_sdk.Table.Transaction.{
  TxRun, attempted, begun, commit_done, commit_failed, commit_request, committed, do_tx_attempt,
  execute_request, initialized, panicked, rollback_request,
}
use ydb_go_sdk.Table.Transaction.Log.{
  EndsOnce, TxCall, calls, calls-EndsOnce, commits_tx, executes, rolls_back,
}
use ydb_go_sdk.Table.Transaction.Attempt.{Ends, do_tx_attempt-Ends}

abbrev history : List TxCall
history = executes none ∷ commits_tx (commit_failed 14) ∷ rolls_back none ∷ executes none ∷ []

history_log :
    (calls history begun).log
    ≡ (execute_request, true) ∷ (commit_request, false) ∷ (rollback_request, true) ∷ []
unfolding calls
history_log = refl

calls-EndsOnce_example :
    EndsOnce (calls history (record { commits = false; state = initialized; log = [] }))
calls-EndsOnce_example = calls-EndsOnce false history

abbrev panicking : TxRun
panicking = record {
  begin_error = none;
  replies = none ∷ [];
  ending = panicked;
  commit_reply = commit_done;
  rollback_reply = none;
}

-- The operation panics, and its transaction is committed.
committed_panic :
    do_tx_attempt true panicking
    ≡ attempted none (
        some (record {
          commits = false;
          state = committed;
          log = (execute_request, true) ∷ (commit_request, true) ∷ [];
        }))
unfolding do_tx_attempt
committed_panic = refl

do_tx_attempt-Ends_example : Ends true panicking (do_tx_attempt true panicking)
do_tx_attempt-Ends_example = do_tx_attempt-Ends true panicking
