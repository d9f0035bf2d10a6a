-- ===== src/Sql/Ends.antt =====
-- Each transaction is ended once.
use ydb_go_sdk.Base.{
  ==_iff, Bool, Bool-cases, List, Option, [], ap, arith, false, if◌then◌else◌, inl, inr, ltb, none,
  refl, some, suc, sym, true, ℕ, ◌+◌, ◌==◌, ◌∷◌, ◌≡◌,
}
use ydb_go_sdk.Sql.{
  SqlConn, SqlReach, SqlStep, TxControl, TxFailure, begin_known, begin_tx, begin_with, begins_in,
  begins_tx, called, check_tx_state, close_conn, closes_conn, end_tx, end_with, ends_tx, new_conn,
  opened, to_ydb, undo_current,
}
use mathlib.Core.Option.{none-ne-some}

-- How often a transaction was ended, and whether it is the current one.
abbrev pub times_ended : ℕ → List (ℕ × Bool) → ℕ
times_ended t [] = 0
times_ended t ((u, commits) ∷ es) = (if u == t then 1 else 0) + times_ended t es

abbrev pub times_current : ℕ → Option ℕ → ℕ
times_current t none = 0
times_current t (some u) = if u == t then 1 else 0

-- Once for a transaction that began, and never for another one.
IsEndedOnce : SqlConn → Type 0
IsEndedOnce c =
    (t : ℕ) → times_ended t c.ends + times_current t c.current ≡ (if ltb t c.begun then 1 else 0)

begin-IsEndedOnce :
    (c : SqlConn)
    → IsEndedOnce c
    → c.current ≡ none
    → IsEndedOnce (record c { current = some c.begun; begun = suc c.begun })
unfolding IsEndedOnce
begin-IsEndedOnce c h n t =
    let before : times_ended t c.ends + 0 ≡ (if ltb t c.begun then 1 else 0) = rw n at (h t) in
    ground (arith, before)

end-IsEndedOnce :
    (c : SqlConn) (t : ℕ) (commits : Bool)
    → IsEndedOnce c
    → c.current ≡ some t
    → IsEndedOnce (record c { current = none; ends = (t, commits) ∷ c.ends })
unfolding IsEndedOnce
end-IsEndedOnce c t commits h n u =
    let before : times_ended u c.ends + (if t == u then 1 else 0)
        ≡ (if ltb u c.begun then 1 else 0) =
      rw n at (h u) in
    ground (arith, before)

check_tx_state-none : (t : ℕ) (o : Option ℕ) → check_tx_state t o ≡ none → o ≡ some t
unfolding check_tx_state
check_tx_state-none t none h = cc
check_tx_state-none t (some u) h = elim (Bool-cases (u == t)) [
  | inl e ↦ ap some (ground (arith, e, ==_iff u t))
  | inr e ↦ absurd (none-ne-some _ (sym (rw e at h)))
]

begin_with-IsEndedOnce :
    (o : Option ℕ) (control : Option TxControl) (answered : Bool) (c : SqlConn)
    → c.current ≡ o
    → IsEndedOnce c
    → IsEndedOnce (begin_with o control answered c).1
unfolding begin_with
begin_with-IsEndedOnce (some t) control answered c n h = h
begin_with-IsEndedOnce none none answered c n h = h
begin_with-IsEndedOnce none (some control) false c n h = h
begin_with-IsEndedOnce none (some control) true c n h = begin-IsEndedOnce c h n

begin_known-IsEndedOnce :
    (is_known : Bool) (o : Option ℕ) (control : Option TxControl) (answered : Bool) (c : SqlConn)
    → c.current ≡ o
    → IsEndedOnce c
    → IsEndedOnce (begin_known is_known o control answered c).1
unfolding begin_known
begin_known-IsEndedOnce is_known (some t) control answered c n h = h
begin_known-IsEndedOnce false none control answered c n h = h
begin_known-IsEndedOnce true none control answered c n h =
    begin_with-IsEndedOnce none control answered c n h

end_with-IsEndedOnce :
    (o : Option TxFailure) (commits : Bool) (t : ℕ) (answered : Bool) (c : SqlConn)
    → check_tx_state t c.current ≡ o
    → IsEndedOnce c
    → IsEndedOnce (end_with o commits t answered c).1
unfolding end_with
end_with-IsEndedOnce (some e) commits t answered c n h = h
end_with-IsEndedOnce none commits t answered c n h =
    end-IsEndedOnce c t commits h (check_tx_state-none t c.current n)

end_tx-IsEndedOnce :
    (commits : Bool) (t : ℕ) (answered : Bool) (c : SqlConn)
    → IsEndedOnce c
    → IsEndedOnce (end_tx commits t answered c).1
unfolding end_tx
end_tx-IsEndedOnce commits t answered c h = end_with-IsEndedOnce _ commits t answered c refl h

closed-IsEndedOnce : (c : SqlConn) → IsEndedOnce c → IsEndedOnce (record c { closed = true })
unfolding IsEndedOnce
closed-IsEndedOnce c h = h

undo_current-IsEndedOnce :
    (o : Option ℕ) (undone : Bool) (c : SqlConn)
    → IsEndedOnce c
    → IsEndedOnce (undo_current o undone c)
unfolding undo_current
undo_current-IsEndedOnce none undone c h = h
undo_current-IsEndedOnce (some t) undone c h = end_tx-IsEndedOnce false t undone c h

close_conn-IsEndedOnce :
    (undone answered : Bool) (c : SqlConn)
    → IsEndedOnce c
    → IsEndedOnce (close_conn undone answered c).1
unfolding close_conn
close_conn-IsEndedOnce undone answered c h = elim (Bool-cases c.closed) [
  | inl s ↦ simp s h
  | inr s ↦ simp s (
      undo_current-IsEndedOnce c.current undone (record c { closed = true })
        (closed-IsEndedOnce c h))
]

Step-IsEndedOnce : {c d : SqlConn} → IsEndedOnce c → SqlStep c d → IsEndedOnce d
unfolding begin_tx
Step-IsEndedOnce {c} h (begins_tx mode level read_only answered) =
    begin_known-IsEndedOnce (begins_in mode) c.current (to_ydb level read_only) answered c refl h
Step-IsEndedOnce {c} h (ends_tx commits t answered) = end_tx-IsEndedOnce commits t answered c h
Step-IsEndedOnce {c} h (closes_conn undone answered) = close_conn-IsEndedOnce undone answered c h

-- Whatever is called on a connection that was opened without fake transactions, in whatever order and
-- with whatever answers: each transaction
-- that began is the current one and was not ended, or was ended once, by a commit or a rollback, and
-- none is ended that did not begin.
pub Reach-ends :
    (c : SqlConn)
    → SqlReach new_conn c
    → (t : ℕ) → times_ended t c.ends + times_current t c.current ≡ (if ltb t c.begun then 1 else 0)
unfolding IsEndedOnce
Reach-ends c opened t = ground arith
Reach-ends d (called {d = c} steps step) t = Step-IsEndedOnce (Reach-ends c steps) step t
