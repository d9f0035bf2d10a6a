-- ===== src/Table/Pool/Steps.antt =====
-- The pool with the goroutines that use it: one step is one hold of the mutex.
use mathlib.Core.Path.{subst}
use ydb_go_sdk.Table.Pool.Idle.{length-insert}
use ydb_go_sdk.Table.Pool.Putting.{put-IsConsistent}
use ydb_go_sdk.Base.{
  All, Bool, Bool-cases, List, Option, Option-cases, [], arith, if◌then◌else◌, inl, inr, length,
  ltb, none, ok, panic, refl, some, sym, take, true, ℕ, ◌+◌, ◌<◌, ◌∙◌, ◌∷◌, ◌≡◌, ◌≢◌, ◌≤◌,
}
use ydb_go_sdk.Base.Dict.{Dict, lookup}
use ydb_go_sdk.Table.Pool.{
  Pool, PoolError, PoolInfo, SessionView, close_pool, gc_loop, gc_tick, leave_wait, new_pool,
  on_close, on_create, push_wait, put, release, remove_first_idle, reserve,
}
use ydb_go_sdk.Table.Pool.Invariant.{
  Held, IsConsistent, NoMore, NoMore-refl, element_in, new_pool-IsConsistent, on_close-IsConsistent,
  on_create-IsConsistent, remove_first_idle-IsConsistent,
}

-- The pool, and how many calls of `internalPoolCreateSession` have taken a place: those that have no
-- session in the index yet, and those that have.
pub record System : Type 0 where
  pub pool : Pool
  pub reserved : ℕ
  pub added : ℕ

abbrev with_pool : Pool → System → System
with_pool p s = record s { pool = p }

pub data Step (s : System) : System → Type 0 where
  reserves :
      {p : Pool}
      → reserve s.pool ≡ (true, p)
      → Step s (record { pool = p; reserved = s.reserved + 1; added = s.added })
  -- the builder gave a new session
  builds :
      (x now r : ℕ)
      → lookup x s.pool.index ≡ none
      → s.reserved ≡ r + 1
      → Step s (record { pool = on_create x now s.pool; reserved = r; added = s.added + 1 })
  -- the builder failed, or the caller did not wait for it
  fails :
      (r : ℕ)
      → s.reserved ≡ r + 1
      → Step s (record { pool = release s.pool; reserved = r; added = s.added })
  finishes :
      (a : ℕ)
      → s.added ≡ a + 1
      → Step s (record { pool = release s.pool; reserved = s.reserved; added = a })
  pops : {o : Option ℕ} {p : Pool} → remove_first_idle s.pool ≡ ok (o, p) → Step s (with_pool p s)
  puts :
      {e : Option PoolError} {p : Pool} (v : SessionView) (reads : ℕ → Bool) (now x : ℕ)
      → Held x s.pool
      → put v reads now x s.pool ≡ ok (e, p)
      → Step s (with_pool p s)
  closes :
      {p : Pool} (reads : ℕ → Bool) (x : ℕ) (i : PoolInfo)
      → lookup x s.pool.index ≡ some i
      → on_close reads x s.pool ≡ ok p
      → Step s (with_pool p s)
  waits_for : (ch : ℕ) → Step s (with_pool (push_wait ch s.pool) s)
  leaves : (ch : ℕ) → Step s (with_pool (leave_wait ch s.pool) s)
  shuts : Step s (with_pool (close_pool s.pool).0 s)

pub data Reach (s : System) : System → Type 0 where
  here : Reach s s
  next : {t u : System} → Reach s t → Step t u → Reach s u

abbrev pub start : ℕ → System
start n = record { pool = new_pool n; reserved = 0; added = 0 }

record IsBounded (n : ℕ) (s : System) : Type 0 where
  consistent : IsConsistent s.pool
  counted : s.pool.create_in_progress ≡ s.reserved + s.added
  sized : length s.pool.index + s.reserved ≤ n
  limited : s.pool.limit ≤ n

start-IsBounded : (n : ℕ) → IsBounded n (start n)
start-IsBounded n = record {
  consistent = new_pool-IsConsistent n;
  counted = unfold new_pool in refl;
  sized = unfold new_pool in omega arith;
  limited = unfold new_pool in omega arith;
}

less-IsBounded :
    (n : ℕ) (s : System) (q : Pool)
    → IsBounded n s
    → IsConsistent q
    → NoMore s.pool q
    → IsBounded n (with_pool q s)
less-IsBounded n s q b c (e, l, m) = record {
  consistent = c;
  counted = e ∙ b.counted;
  sized = omega (arith, b.sized);
  limited = omega (arith, b.limited);
}

-- A pool that has the same sessions and the same list.
same-IsConsistent :
    (p q : Pool)
    → IsConsistent p
    → q.index ≡ p.index
    → q.idle ≡ p.idle
    → q.next_element ≡ p.next_element
    → IsConsistent q
same-IsConsistent p q v a b c = record {
  matched = λ e s. rw (a, b) (v.matched e s);
  listed = rw (a, b) v.listed;
  rising = rw (b, c) v.rising;
}

reserve-room :
    (p q : Pool)
    → reserve p ≡ (true, q)
    → (p.create_in_progress + length p.index < p.limit)
      × (q ≡ record p { create_in_progress = p.create_in_progress + 1 })
unfolding reserve
reserve-room p q e = (ground arith, ground arith)

reserve-IsBounded :
    (n : ℕ) (s : System)
    → IsBounded n s
    → s.pool.create_in_progress + length s.pool.index < s.pool.limit
    → IsBounded n (record {
      pool = record s.pool { create_in_progress = s.pool.create_in_progress + 1 };
      reserved = s.reserved + 1;
      added = s.added;
    })
reserve-IsBounded n s b room = record {
  consistent = same-IsConsistent s.pool _ b.consistent refl refl refl;
  counted = omega (arith, b.counted);
  sized = omega (arith, b.counted, b.limited);
  limited = b.limited;
}

close_pool-NoMore :
    (p : Pool) → IsConsistent p → IsConsistent (close_pool p).0 × NoMore p (close_pool p).0
unfolding close_pool
close_pool-NoMore p v = elim (Bool-cases p.closed) [
  | inl c ↦
      let same : p ≡ (close_pool p).0 = ground (arith, c) in
      subst (λ x. IsConsistent x × NoMore p x) same (v, NoMore-refl p)
  | inr c ↦ rw c (same-IsConsistent p _ v refl refl refl, (refl, omega arith, omega arith))
]

Step-IsBounded : (n : ℕ) {s t : System} → Step s t → IsBounded n s → IsBounded n t
unfolding reserve on_create release push_wait leave_wait close_pool
Step-IsBounded n {s} (reserves {p} e) b =
    let (room, same) = reserve-room s.pool p e in
    subst (λ x. IsBounded n (record { pool = x; reserved = s.reserved + 1; added = s.added }))
      (sym same) (reserve-IsBounded n s b room)
Step-IsBounded n {s} (builds x now r new e) b = record {
  consistent = on_create-IsConsistent x now s.pool new b.consistent;
  counted = omega (arith, b.counted);
  sized =
      omega
        (arith, b.sized, length-insert x (record { element = none; touched = now }) s.pool.index);
  limited = b.limited;
}
Step-IsBounded n {s} (fails r e) b = record {
  consistent = same-IsConsistent s.pool _ b.consistent refl refl refl;
  counted = omega (arith, b.counted);
  sized = omega (arith, b.sized);
  limited = b.limited;
}
Step-IsBounded n {s} (finishes a e) b = record {
  consistent = same-IsConsistent s.pool _ b.consistent refl refl refl;
  counted = omega (arith, b.counted);
  sized = b.sized;
  limited = b.limited;
}
Step-IsBounded n {s} (pops {p = p} e) b =
    let (_, q, f, c, more) = remove_first_idle-IsConsistent s.pool b.consistent in
    let same : q ≡ p = ground (arith, e, f) in
    subst (λ x. IsBounded n (with_pool x s)) same (less-IsBounded n s q b c more)
Step-IsBounded n {s} (puts {p = p} v reads now x held e) b =
    let (_, q, f, c, more, _) = put-IsConsistent v reads now x s.pool b.consistent held in
    let same : q ≡ p = ground (arith, e, f) in
    subst (λ x. IsBounded n (with_pool x s)) same (less-IsBounded n s q b c more)
Step-IsBounded n {s} (closes {p} reads x i known e) b =
    let (q, f, c, more, _, _) = on_close-IsConsistent reads x s.pool i b.consistent known in
    let same : q ≡ p = ground (arith, e, f) in
    subst (λ x. IsBounded n (with_pool x s)) same (less-IsBounded n s q b c more)
Step-IsBounded n {s} (waits_for ch) b =
    less-IsBounded n s _ b (same-IsConsistent s.pool _ b.consistent refl refl refl)
      (refl, omega arith, omega arith)
Step-IsBounded n {s} (leaves ch) b =
    less-IsBounded n s _ b (same-IsConsistent s.pool _ b.consistent refl refl refl)
      (refl, omega arith, omega arith)
Step-IsBounded n {s} shuts b =
    let (c, more) = close_pool-NoMore s.pool b.consistent in less-IsBounded n s _ b c more

Reach-IsBounded : (n : ℕ) {s : System} → Reach (start n) s → IsBounded n s
Reach-IsBounded n here = start-IsBounded n
Reach-IsBounded n (next r st) = Step-IsBounded n st (Reach-IsBounded n r)

-- Whatever the goroutines do and in whatever order, the pool has at most as many sessions as its
-- limit, those that are being created included, and the counter of creations is exact.
pub Reach-limit :
    (n : ℕ) (s : System)
    → Reach (start n) s
    → (length s.pool.index + s.reserved ≤ n) × (s.pool.create_in_progress ≡ s.reserved + s.added)
Reach-limit n s r = let b = Reach-IsBounded n r in (b.sized, b.counted)

gc_loop-ok :
    (since : ℕ → ℕ) (threshold : ℕ) (index : Dict PoolInfo) (d : Dict ℕ)
    → All (λ x. element_in index x.1 ≡ some x.0) d
    → (ss : List ℕ) × (gc_loop since threshold index d ≡ ok ss)
unfolding gc_loop
gc_loop-ok since threshold index [] h = ([], refl)
gc_loop-ok since threshold index (e ∷ es) (p, ps) =
    let (ss, q) = gc_loop-ok since threshold index es ps in
    elim (Option-cases (lookup e.1 index)) [
      | inl f ↦ absurd (ground (arith, p, f))
      | inr (i, f) ↦
          let m : i.element ≡ some e.0 = ground (arith, p, f) in
          (if ltb threshold (since i.touched) then e.1 ∷ ss else ss, ground (arith, f, m, q))
    ]

gc_tick-ok :
    (since : ℕ → ℕ) (threshold : ℕ) (p : Pool) → IsConsistent p → gc_tick since threshold p ≢ panic
unfolding gc_tick
gc_tick-ok since threshold p v e =
    let (ss, q) = gc_loop-ok since threshold p.index p.idle v.listed in
    absurd (ground (arith, q, e))

-- What may be called on a pool, in which only a session in use is put back, and only one that is in
-- the index, in use or idle, is closed.
pub data Call (p : Pool) : Type 0 where
  takes : Call p
  gives : (view : SessionView) (reads : ℕ → Bool) (now x : ℕ) → Held x p → Call p
  shuts_one : (reads : ℕ → Bool) (x : ℕ) (i : PoolInfo) → lookup x p.index ≡ some i → Call p
  collects : (since : ℕ → ℕ) (threshold : ℕ) → Call p

abbrev pub Panics : (p : Pool) → Call p → Type 0
Panics p takes = remove_first_idle p ≡ panic
Panics p (gives view reads now x held) = put view reads now x p ≡ panic
Panics p (shuts_one reads x i known) = on_close reads x p ≡ panic
Panics p (collects since threshold) = gc_tick since threshold p ≡ panic

Call-no_panic : (p : Pool) (c : Call p) → IsConsistent p → ¬ Panics p c
Call-no_panic p takes v e =
    let (_, _, take, _, _) = remove_first_idle-IsConsistent p v in absurd (ground (arith, take, e))
Call-no_panic p (gives view reads now x held) v e =
    let (_, _, back, _, _, _) = put-IsConsistent view reads now x p v held in
    absurd (ground (arith, back, e))
Call-no_panic p (shuts_one reads x i known) v e =
    let (_, shut, _, _, _, _) = on_close-IsConsistent reads x p i v known in
    absurd (ground (arith, shut, e))
Call-no_panic p (collects since threshold) v e = gc_tick-ok since threshold p v e

-- No order of steps leads to a panic of the pool: not when a session is taken from it, not when one
-- in the index is closed, idle or in use, not when one in use is put back, and not in the collection
-- of idle sessions.
pub Reach-no_panic :
    (n : ℕ) (s : System) → Reach (start n) s → (c : Call s.pool) → ¬ Panics s.pool c
Reach-no_panic n s r c = Call-no_panic s.pool c (Reach-IsBounded n r).consistent
