-- ===== src/Table/Transaction/Attempt.antt =====
-- How an attempt of `DoTx` ends, and what it leaves of the transaction.
use mathlib.Core.Path.{subst}
use ydb_go_sdk.Base.{
  Bool, List, Option, [], ap, append-nil, append_assoc, arith, false, inl, inr, map, none, refl,
  some, sym, true, ℕ, ◌++◌, ◌∙◌, ◌∷◌, ◌≡◌, ◌≢◌, ◌⊎◌,
}
use ydb_go_sdk.Table.Transaction.{
  CommitReply, DoError, Ending, Outcome, Request, Tx, TxRun, after_commit, attempted, commit_done,
  commit_failed, commit_request, commit_tx, committed, do_tx_attempt, ended, execute,
  execute_request, from_begin, initialized, issues, not_begun, of_commit, of_op, of_service,
  panicked, panics, returned, rollback, rollback_request, run_op, undone, unreadable,
}

abbrev pub sent : Option ℕ → Request × Bool
sent none = (execute_request, true)
sent (some e) = (execute_request, false)

run_op-log :
    (rs : List (Option ℕ)) (l : List (Request × Bool))
    → run_op rs (record { commits = false; state = initialized; log = l })
      ≡ record { commits = false; state = initialized; log = l ++ map sent rs }
unfolding run_op execute
run_op-log [] l =
    ap (λ x. record { commits = false; state = initialized; log = x }) (sym (append-nil l))
run_op-log (none ∷ rs) l =
    run_op-log rs (l ++ (execute_request, true) ∷ [])
    ∙ ap (λ x. record { commits = false; state = initialized; log = x })
        (append_assoc l ((execute_request, true) ∷ []) (map sent rs))
run_op-log (some e ∷ rs) l =
    run_op-log rs (l ++ (execute_request, false) ∷ [])
    ∙ ap (λ x. record { commits = false; state = initialized; log = x })
        (append_assoc l ((execute_request, false) ∷ []) (map sent rs))

-- The transaction as the operation leaves it.
abbrev after_calls : TxRun → Tx
after_calls r = record { commits = false; state = initialized; log = map sent r.replies }

-- The inner function gives no error.
abbrev HasNoError : Bool → Ending → Type 0
HasNoError h (returned none) = Unit
HasNoError h (returned (some e)) = ⊥
HasNoError h panicked = h ≡ true

-- The attempt ended with an error, the transaction was not seen to commit, and its rollback was the
-- last request.
abbrev GaveUp : TxRun → Outcome → Type 0
GaveUp r o =
    (e : DoError) × (tx : Tx) × (l : List (Request × Bool)) × (d : Bool) × (o
      ≡ attempted (some e) (some tx))
    × (tx.state ≢ committed)
    × (tx.log ≡ (map sent r.replies ++ l) ++ (rollback_request, d) ∷ [])

abbrev pub Ends : Bool → TxRun → Outcome → Type 0
Ends h r o =
    ((e : ℕ) × (r.begin_error ≡ some e) × (o ≡ attempted (some (not_begun e)) none))
    ⊎ ((r.begin_error ≡ none) × (r.ending ≡ panicked) × (h ≡ false) × (o ≡ panics (after_calls r)))
    ⊎ ((r.begin_error ≡ none)
        × HasNoError h r.ending
        × (r.commit_reply ≡ commit_done)
        × (o
            ≡ attempted none (
                some (record {
                  commits = false;
                  state = committed;
                  log = map sent r.replies ++ (commit_request, true) ∷ [];
                }))))
    ⊎ ((r.begin_error ≡ none)
        × ((HasNoError h r.ending × (r.commit_reply ≢ commit_done)) ⊎ (¬ HasNoError h r.ending))
        × GaveUp r o)

abbrev with_log : List (Request × Bool) → Tx
with_log l = record { commits = false; state = initialized; log = l }

undone-GaveUp :
    (r : TxRun) (e : DoError) (l : List (Request × Bool)) (reply : Option ℕ)
    → GaveUp r (undone e (rollback reply (with_log (map sent r.replies ++ l))))
unfolding rollback
undone-GaveUp r e l (some x) =
    (issues e (some (of_service x)), _, l, false, refl, (λ p. absurd (ground (arith, p))), refl)
undone-GaveUp r e l none = (e, _, l, true, refl, (λ p. absurd (ground (arith, p))), refl)

commit-Ends :
    (h : Bool) (r : TxRun) (c : CommitReply)
    → r.begin_error ≡ none
    → HasNoError h r.ending
    → r.commit_reply ≡ c
    → Ends h r (after_commit r.rollback_reply (commit_tx c (after_calls r)))
unfolding commit_tx
commit-Ends h r commit_done b n c = inr (inr (inl (b, n, c, refl)))
commit-Ends h r (commit_failed e) b n c = inr (
    inr (
      inr (
        b,
        inl (n, λ p. absurd (ground (arith, p, c))),
        undone-GaveUp r (of_commit (of_service e)) ((commit_request, false) ∷ []) r.rollback_reply,
      )))
commit-Ends h r (unreadable e) b n c = inr (
    inr (
      inr (
        b,
        inl (n, λ p. absurd (ground (arith, p, c))),
        undone-GaveUp r (of_commit (of_service e)) ((commit_request, false) ∷ []) r.rollback_reply,
      )))

failed-GaveUp :
    (r : TxRun) (e : ℕ) → GaveUp r (undone (of_op e) (rollback r.rollback_reply (after_calls r)))
failed-GaveUp r e =
    subst (λ l. GaveUp r (undone (of_op e) (rollback r.rollback_reply (with_log l))))
      (append-nil (map sent r.replies)) (undone-GaveUp r (of_op e) [] r.rollback_reply)

ended-Ends :
    (h : Bool) (r : TxRun) (en : Ending)
    → r.begin_error ≡ none
    → r.ending ≡ en
    → Ends h r (ended h r en (after_calls r))
ended-Ends h r (returned none) b e =
    commit-Ends h r r.commit_reply b (subst (HasNoError h) (sym e) tt) refl
ended-Ends h r (returned (some x)) b e =
    inr (inr (inr (b, inr (λ n. elim (subst (HasNoError h) e n) [ ]), failed-GaveUp r x)))
ended-Ends true r panicked b e =
    commit-Ends true r r.commit_reply b (subst (HasNoError true) (sym e) refl) refl
ended-Ends false r panicked b e = inr (inl (b, e, refl, refl))

begun-Ends : (h : Bool) (r : TxRun) (b : Option ℕ) → r.begin_error ≡ b → Ends h r (from_begin h r b)
begun-Ends h r (some e) b = inl (e, b, refl)
begun-Ends h r none b =
    subst (λ tx. Ends h r (ended h r r.ending tx)) (sym (run_op-log r.replies []))
      (ended-Ends h r r.ending b refl)

-- An attempt that cannot begin its transaction says so. If the operation panics and there is no panic
-- callback, the panic goes on, and nothing is rolled back. If the operation has no error, or panics
-- with a panic callback, and the commit is answered, the attempt has no error, and the transaction is
-- committed behind the requests of the operation. In all other cases the attempt has an error, the
-- transaction is not seen to commit, and its rollback is the last request.
pub do_tx_attempt-Ends :
    (has_callback : Bool) (r : TxRun) → Ends has_callback r (do_tx_attempt has_callback r)
unfolding do_tx_attempt
do_tx_attempt-Ends h r = begun-Ends h r r.begin_error refl
