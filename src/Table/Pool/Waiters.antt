-- ===== src/Table/Pool/Waiters.antt =====
-- Which of the waiting goroutines a session goes to.
use mathlib.Core.Path.{subst}
use ydb_go_sdk.Base.{
  All, Bool, Bool-cases, List, Option-cases, [], ap, arith, false, inl, inr, length, none, ok, refl,
  some, true, ℕ, ◌++◌, ◌<◌, ◌∷◌, ◌≡◌, ◌⊎◌,
}
use ydb_go_sdk.Table.Pool.{Notified, Pool, SessionView, notify, put, put_error, put_locked}
use ydb_go_sdk.Table.Pool.Invariant.{Held, push_idle-eq, pushed}

abbrev Nobody : (ℕ → Bool) → List ℕ → Type 0
Nobody reads = All λ ch. reads ch ≡ false

-- What happened to the waiters: nobody stood at the receive, and every channel was closed; or one did,
-- it is the first that did, those before it were closed and those behind it still wait.
abbrev pub Told : (ℕ → Bool) → List ℕ → Notified → Type 0
Told reads chs n =
    ((n.taken_by ≡ none) × Nobody reads chs × (n.closed_chs ≡ chs) × (n.left ≡ []))
    ⊎ ((ch : ℕ) × (n.taken_by ≡ some ch)
        × (reads ch ≡ true)
        × Nobody reads n.closed_chs
        × (chs ≡ n.closed_chs ++ ch ∷ n.left))

Told-next :
    (reads : ℕ → Bool) (ch : ℕ) (chs : List ℕ) (n : Notified)
    → reads ch ≡ false
    → Told reads chs n
    → Told reads (ch ∷ chs) (record n { closed_chs = ch ∷ n.closed_chs })
Told-next reads ch chs n r (inl (t, h, c, l)) = inl (t, (r, h), ap (λ x. ch ∷ x) c, l)
Told-next reads ch chs n r (inr (x, t, y, h, e)) = inr (x, t, y, (r, h), ap (λ z. ch ∷ z) e)

notify-Told : (reads : ℕ → Bool) (chs : List ℕ) → Told reads chs (notify reads chs)
unfolding notify
notify-Told reads [] = inl (refl, tt, refl, refl)
notify-Told reads (ch ∷ chs) = elim (Bool-cases (reads ch)) [
  | inl r ↦
      let same : record { taken_by = some ch; closed_chs = []; left = chs }
          ≡ notify reads (ch ∷ chs) =
        ground (arith, r) in
      subst (Told reads (ch ∷ chs)) same (inr (ch, refl, r, tt, refl))
  | inr r ↦
      let n = notify reads chs in
      let same : record n { closed_chs = ch ∷ n.closed_chs } ≡ notify reads (ch ∷ chs) =
        ground (arith, r) in
      subst (Told reads (ch ∷ chs)) same (Told-next reads ch chs n r (notify-Told reads chs))
]

abbrev pub handed : ℕ → ℕ → Pool → Notified → Pool
handed s now p n =
    let p' : Pool = record p { wait_q = n.left } in
    elim n.taken_by [ some _ ↦ p' | none ↦ pushed s now p' ]

-- A session that is fit for use and given back to an open pool with room goes to the first waiter
-- that stands at the receive; the waiters before it are woken to try again. Only if there is no such
-- waiter the session becomes the last of the idle ones.
pub put-handed :
    (view : SessionView) (reads : ℕ → Bool) (now s : ℕ) (p : Pool)
    → Held s p
    → put_error view p.closed ≡ none
    → length p.idle < p.limit
    → let n = notify reads p.wait_q in
      Told reads p.wait_q n × (put view reads now s p ≡ ok (none, handed s now p n))
unfolding put put_locked
put-handed view reads now s p (i, f, m) fit room =
    let n = notify reads p.wait_q in
    let p' : Pool = record p { wait_q = n.left } in
    (
      notify-Told reads p.wait_q,
      elim (Option-cases n.taken_by) [
        | inl t ↦ ground (arith, fit, room, t, push_idle-eq s now p' i f m)
        | inr (ch, t) ↦ ground (arith, fit, room, t)
      ],
    )
