-- ===== src/Table/Transaction/Log.antt =====
-- The requests of a transaction, whatever is called on it.
use mathlib.Core.Path.{subst}
use ydb_go_sdk.Base.{
  All, All-append, Bool, List, Option, [], ap, append-nil, false, inl, inr, none, refl, some, sym,
  true, ℕ, ◌&&◌, ◌++◌, ◌∙◌, ◌∷◌, ◌≡◌, ◌⊎◌,
}
use ydb_go_sdk.Table.Transaction.{
  CommitReply, Request, Tx, TxState, commit_done, commit_failed, commit_request, commit_tx,
  committed, execute, execute_request, initialized, rollback, rollback_request, rollbacked,
  unreadable,
}

pub data TxCall : Type 0 where
  executes : Option ℕ → TxCall
  commits_tx : CommitReply → TxCall
  rolls_back : Option ℕ → TxCall

unfoldable pub call : TxCall → Tx → Tx
unfolding execute commit_tx rollback
call (executes reply) tx = (execute reply tx).1
call (commits_tx reply) tx = (commit_tx reply tx).1
call (rolls_back reply) tx = (rollback reply tx).1

unfoldable pub calls : List TxCall → Tx → Tx
unfolding call
calls [] tx = tx
calls (c ∷ cs) tx = calls cs (call c tx)

-- The request ends the transaction for good.
abbrev pub closes : Bool → Request × Bool → Bool
closes c (execute_request, d) = d && c
closes c (commit_request, d) = d
closes c (rollback_request, d) = d

abbrev Last : Bool → TxState → List (Request × Bool) → Type 0
Last c initialized back = back ≡ []
Last c committed back =
    (back ≡ (commit_request, true) ∷ []) ⊎ ((c ≡ true) × (back ≡ (execute_request, true) ∷ []))
Last c rollbacked back = back ≡ (rollback_request, true) ∷ []

-- No request before the last one ended the transaction, and the last one did if the state says so.
abbrev pub EndsOnce : Tx → Type 0
EndsOnce tx =
    (front back : List (Request × Bool)) × (tx.log ≡ front ++ back)
    × All (λ e. closes tx.commits e ≡ false) front
    × Last tx.commits tx.state back

-- An open transaction that sends one more request, which does not end it.
open-EndsOnce :
    (c : Bool) (l : List (Request × Bool)) (e : Request × Bool)
    → All (λ x. closes c x ≡ false) l
    → closes c e ≡ false
    → EndsOnce (record { commits = c; state = initialized; log = l ++ e ∷ [] })
open-EndsOnce c l e h k = (
  l ++ e ∷ [],
  [],
  sym (append-nil (l ++ e ∷ [])),
  All-append (λ x. closes c x ≡ false) l (e ∷ []) h (k, tt),
  refl,
)

still_open :
    (c : Bool) (l : List (Request × Bool))
    → EndsOnce (record { commits = c; state = initialized; log = l })
    → All (λ x. closes c x ≡ false) l
still_open c l (front, back, f, a, b) =
    let same : front ≡ l = sym (f ∙ ap (λ x. front ++ x) b ∙ append-nil front) in
    subst (All (λ x. closes c x ≡ false)) same a

call-EndsOnce :
    (o : TxCall) (c : Bool) (s : TxState) (l : List (Request × Bool))
    → EndsOnce (record { commits = c; state = s; log = l })
    → EndsOnce (call o (record { commits = c; state = s; log = l }))
unfolding call
call-EndsOnce (executes r) c committed l h = h
call-EndsOnce (executes r) c rollbacked l h = h
call-EndsOnce (commits_tx r) c committed l h = h
call-EndsOnce (commits_tx r) c rollbacked l h = h
call-EndsOnce (rolls_back r) c committed l h = h
call-EndsOnce (rolls_back r) c rollbacked l h = h
call-EndsOnce (executes (some e)) c initialized l h =
    open-EndsOnce c l (execute_request, false) (still_open c l h) refl
call-EndsOnce (executes none) true initialized l h =
    (l, (execute_request, true) ∷ [], refl, still_open true l h, inr (refl, refl))
call-EndsOnce (executes none) false initialized l h =
    open-EndsOnce false l (execute_request, true) (still_open false l h) refl
call-EndsOnce (commits_tx (commit_failed e)) c initialized l h =
    open-EndsOnce c l (commit_request, false) (still_open c l h) refl
call-EndsOnce (commits_tx (unreadable e)) c initialized l h =
    open-EndsOnce c l (commit_request, false) (still_open c l h) refl
call-EndsOnce (commits_tx commit_done) c initialized l h =
    (l, (commit_request, true) ∷ [], refl, still_open c l h, inl refl)
call-EndsOnce (rolls_back (some e)) c initialized l h =
    open-EndsOnce c l (rollback_request, false) (still_open c l h) refl
call-EndsOnce (rolls_back none) c initialized l h =
    (l, (rollback_request, true) ∷ [], refl, still_open c l h, refl)

calls_from-EndsOnce : (os : List TxCall) (tx : Tx) → EndsOnce tx → EndsOnce (calls os tx)
unfolding calls
calls_from-EndsOnce [] tx h = h
calls_from-EndsOnce (o ∷ os) tx h =
    calls_from-EndsOnce os (call o tx) (call-EndsOnce o tx.commits tx.state tx.log h)

-- Whatever is called on a new transaction, in whatever order and with whatever answers: a request
-- that ends it, with an answer that could be read, is the last one that is sent, and the state is then
-- that of this request, and else that of an open transaction.
pub calls-EndsOnce :
    (commits : Bool) (os : List TxCall)
    → EndsOnce (calls os (record { commits = commits; state = initialized; log = [] }))
calls-EndsOnce commits os = calls_from-EndsOnce os _ ([], [], refl, tt, refl)
