-- ===== src/Table/Transaction.antt =====
-- `transaction` of internal/table/transaction.go, and one attempt of `DoTx` of internal/table/client.go.
-- What the service answers is an argument of each operation; the transaction keeps the requests that
-- it sent, each with whether its answer was a success that could be read.
pub mod Log
pub mod Attempt
mod Tests
use ydb_go_sdk.Base.{Bool, List, Option, [], false, if◌then◌else◌, none, some, true, ℕ, ◌++◌, ◌∷◌}

pub data TxState : Type 0 where
  initialized committed rollbacked : TxState

pub data Request : Type 0 where
  execute_request commit_request rollback_request : Request

pub record Tx : Type 0 where
  -- `control.Desc().CommitTx`: a request to execute commits as well
  pub commits : Bool
  pub state : TxState
  pub log : List (Request × Bool)

-- `of_service` has the error of a call, by its number.
pub data TxError : Type 0 where
  already_committed rollbacked_early : TxError
  of_service : ℕ → TxError

abbrev Done : Type 0
Done = Option TxError × Tx

abbrev sends : Request → Bool → Tx → Tx
sends r done tx = record tx { log = tx.log ++ (r, done) ∷ [] }

-- The default case of `Execute`, which `ExecuteStatement` has as well.
abbrev executed : Option ℕ → Tx → Done
executed (some e) tx = (some (of_service e), sends execute_request false tx)
executed none tx = (
  none,
  record (sends execute_request true tx) { state = if tx.commits then committed else tx.state },
)

-- `Execute` and `ExecuteStatement`
unfoldable pub execute : Option ℕ → Tx → Done
execute reply tx = elim tx.state [
  | committed ↦ (some already_committed, tx)
  | rollbacked ↦ (some rollbacked_early, tx)
  | initialized ↦ executed reply tx
]

-- How the call of `CommitTransaction` ends: its error, or one of reading its result.
pub data CommitReply : Type 0 where
  commit_failed unreadable : ℕ → CommitReply
  commit_done : CommitReply

abbrev commit_sent : CommitReply → Tx → Done
commit_sent (commit_failed e) tx = (some (of_service e), sends commit_request false tx)
commit_sent (unreadable e) tx = (some (of_service e), sends commit_request false tx)
commit_sent commit_done tx = (none, record (sends commit_request true tx) { state = committed })

-- `CommitTx`
unfoldable pub commit_tx : CommitReply → Tx → Done
commit_tx reply tx = elim tx.state [
  | committed ↦ (some already_committed, tx)
  | rollbacked ↦ (some rollbacked_early, tx)
  | initialized ↦ commit_sent reply tx
]

abbrev rollback_sent : Option ℕ → Tx → Done
rollback_sent (some e) tx = (some (of_service e), sends rollback_request false tx)
rollback_sent none tx = (none, record (sends rollback_request true tx) { state = rollbacked })

-- `Rollback`
unfoldable pub rollback : Option ℕ → Tx → Done
rollback reply tx = elim tx.state [
  | committed ↦ (none, tx)
  | rollbacked ↦ (some rollbacked_early, tx)
  | initialized ↦ rollback_sent reply tx
]

-- The transaction that `BeginTransaction` gives.
abbrev pub begun : Tx
begun = record { commits = false; state = initialized; log = [] }

-- How the operation of the caller ends: it may return an error, by its number.
pub data Ending : Type 0 where
  returned : Option ℕ → Ending
  panicked : Ending

-- What one attempt meets: the error of `BeginTransaction`, the answers to the operation's calls of
-- `Execute`, how the operation ends, and the answers to the commit and to the rollback.
pub record TxRun : Type 0 where
  pub begin_error : Option ℕ
  pub replies : List (Option ℕ)
  pub ending : Ending
  pub commit_reply : CommitReply
  pub rollback_reply : Option ℕ

unfoldable pub run_op : List (Option ℕ) → Tx → Tx
unfolding execute
run_op [] tx = tx
run_op (r ∷ rs) tx = run_op rs (execute r tx).1

-- The error of the attempt, with that of the rollback if it has one.
pub data DoError : Type 0 where
  not_begun of_op : ℕ → DoError
  of_commit : TxError → DoError
  with_rollback : DoError → TxError → DoError

-- The attempt has no transaction if it was not begun; `panics` is a panic that goes on, since there is
-- no panic callback.
pub data Outcome : Type 0 where
  attempted : Option DoError → Option Tx → Outcome
  panics : Tx → Outcome

-- The deferred rollback.
abbrev pub issues : DoError → Option TxError → DoError
issues e none = e
issues e (some r) = with_rollback e r

abbrev pub undone : DoError → Done → Outcome
undone e (r, tx) = attempted (some (issues e r)) (some tx)

abbrev pub after_commit : Option ℕ → Done → Outcome
after_commit reply (none, tx) = attempted none (some tx)
after_commit reply (some e, tx) = undone (of_commit e) (rollback reply tx)

-- What follows the inner function, whose error is nil as well after a panic that the callback took.
abbrev after_op : TxRun → Option ℕ → Tx → Outcome
after_op r (some e) tx = undone (of_op e) (rollback r.rollback_reply tx)
after_op r none tx = after_commit r.rollback_reply (commit_tx r.commit_reply tx)

abbrev pub ended : Bool → TxRun → Ending → Tx → Outcome
ended has_callback r (returned e) tx = after_op r e tx
ended has_callback r panicked tx = if has_callback then after_op r none tx else panics tx

abbrev pub from_begin : Bool → TxRun → Option ℕ → Outcome
from_begin has_callback r (some e) = attempted (some (not_begun e)) none
from_begin has_callback r none = ended has_callback r r.ending (run_op r.replies begun)

-- One call of the function that `DoTx` retries.
unfoldable pub do_tx_attempt : Bool → TxRun → Outcome
unfolding run_op commit_tx rollback
do_tx_attempt has_callback r = from_begin has_callback r r.begin_error
