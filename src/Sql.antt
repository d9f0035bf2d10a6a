-- ===== src/Sql.antt =====
-- The transactions of a connection of database/sql: internal/xsql/tx.go, `BeginTx` and `Close` of
-- conn.go, and internal/xsql/isolation. A transaction is the number of its object. The answers of
-- the service are arguments.
pub mod Ends
mod Tests
use ydb_go_sdk.Base.{
  Bool, List, Option, Result, [], err, false, if◌then◌else◌, none, not, ok, some, suc, true, ℕ,
  ◌==◌, ◌∷◌,
}

-- The levels of database/sql.
pub data Isolation : Type 0 where
  level_default level_serializable level_snapshot other_level : Isolation

-- `QueryMode`
pub data QueryMode : Type 0 where
  unknown_mode data_mode explain_mode scan_mode scheme_mode scripting_mode : QueryMode

-- The settings that the table service knows.
pub data TxControl : Type 0 where
  serializable_read_write snapshot_read_only : TxControl

-- `ToYDB`, with whether the transaction is read-only
unfoldable pub to_ydb : Isolation → Bool → Option TxControl
to_ydb level_default read_only = if not read_only then some serializable_read_write else none
to_ydb level_serializable read_only = if not read_only then some serializable_read_write else none
to_ydb level_snapshot read_only = if read_only then some snapshot_read_only else none
to_ydb other_level read_only = none

pub data TxFailure : Type 0 where
  already_has_tx wrong_query_mode unsupported_options begin_failed : TxFailure
  not_related : TxFailure
  other_current : ℕ → TxFailure
  request_failed closed_early close_failed : TxFailure

-- `ends` are the requests that ended a transaction, with whether it was to be committed.
pub record SqlConn : Type 0 where
  pub current : Option ℕ
  pub begun : ℕ
  pub closed : Bool
  pub ends : List (ℕ × Bool)

-- `beginTx`, with the answer of the service, the current transaction, and the settings.
unfoldable pub begin_with :
    Option ℕ → Option TxControl → Bool → SqlConn → Result TxFailure ℕ × SqlConn
begin_with (some t) control answered c = (err already_has_tx, c)
begin_with none none answered c = (err unsupported_options, c)
begin_with none (some control) false c = (err begin_failed, c)
begin_with none (some control) true c =
    (ok c.begun, record c { current = some c.begun; begun = suc c.begun })

-- The modes in `beginTxFuncs` of a connection that is opened without the option for fake
-- transactions.
unfoldable pub begins_in : QueryMode → Bool
begins_in data_mode = true
begins_in unknown_mode = false
begins_in explain_mode = false
begins_in scan_mode = false
begins_in scheme_mode = false
begins_in scripting_mode = false

unfoldable pub begin_known :
    Bool → Option ℕ → Option TxControl → Bool → SqlConn → Result TxFailure ℕ × SqlConn
unfolding begin_with
begin_known is_known (some t) control answered c = (err already_has_tx, c)
begin_known false none control answered c = (err wrong_query_mode, c)
begin_known true none control answered c = begin_with none control answered c

-- `BeginTx`, with the query mode of the context or of the connection
unfoldable pub begin_tx :
    QueryMode → Isolation → Bool → Bool → SqlConn → Result TxFailure ℕ × SqlConn
unfolding begins_in begin_known to_ydb
begin_tx mode level read_only answered c =
    begin_known (begins_in mode) c.current (to_ydb level read_only) answered c

-- `checkTxState`, with the current transaction
unfoldable pub check_tx_state : ℕ → Option ℕ → Option TxFailure
check_tx_state t none = some not_related
check_tx_state t (some u) = if u == t then none else some (other_current u)

-- `Commit` and `Rollback`, behind the check
unfoldable pub end_with :
    Option TxFailure → Bool → ℕ → Bool → SqlConn → Result TxFailure (Unit {0}) × SqlConn
end_with (some e) commits t answered c = (err e, c)
end_with none commits t answered c = (
  if answered then ok tt else err request_failed,
  record c { current = none; ends = (t, commits) ∷ c.ends },
)

unfoldable pub end_tx : Bool → ℕ → Bool → SqlConn → Result TxFailure (Unit {0}) × SqlConn
unfolding check_tx_state end_with
end_tx commits t answered c = end_with (check_tx_state t c.current) commits t answered c

-- The rollback of `Close`, with the current transaction.
unfoldable pub undo_current : Option ℕ → Bool → SqlConn → SqlConn
unfolding end_tx
undo_current none undone c = c
undo_current (some t) undone c = (end_tx false t undone c).1

-- `Close`, with the answers to the rollback and to the close of the session
unfoldable pub close_conn : Bool → Bool → SqlConn → Result TxFailure (Unit {0}) × SqlConn
unfolding undo_current
close_conn undone answered c = if c.closed then (err closed_early, c) else (
  if answered then ok tt else err close_failed,
  undo_current c.current undone (record c { closed = true }),
)

pub data SqlStep (c : SqlConn) : SqlConn → Type 0 where
  begins_tx :
      (mode : QueryMode) (level : Isolation) (read_only answered : Bool)
      → SqlStep c (begin_tx mode level read_only answered c).1
  ends_tx : (commits : Bool) (t : ℕ) (answered : Bool) → SqlStep c (end_tx commits t answered c).1
  closes_conn : (undone answered : Bool) → SqlStep c (close_conn undone answered c).1

pub data SqlReach (c : SqlConn) : SqlConn → Type 0 where
  opened : SqlReach c c
  called : {d e : SqlConn} → SqlReach c d → SqlStep d e → SqlReach c e

abbrev pub new_conn : SqlConn
new_conn = record { current = none; begun = 0; closed = false; ends = [] }
