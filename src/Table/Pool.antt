-- ===== src/Table/Pool.antt =====
-- The session pool of internal/table/client.go. A session is a number, the address of its object. An
-- element of the list `idle` is a number as well: the k-th that `PushBack` made. Each function here
-- is what the source does in one hold of the mutex.
pub mod Waiters
pub mod Idle
pub mod Invariant
pub mod Putting
pub mod Steps
pub mod Spec
pub mod Implements
pub mod Refinement
pub mod Getting
mod Tests
use ydb_go_sdk.Base.{
  Bool, List, Option, Result, [], err, false, if◌then◌else◌, leb, length, ltb, map, none, ok, panic,
  some, true, ℕ, ◌++◌, ◌+◌, ◌-◌, ◌==◌, ◌∷◌,
}
use ydb_go_sdk.Base.Dict.{Dict, contains, erase, insert, lookup}

-- `sessionInfo`
pub record PoolInfo : Type 0 where
  pub element : Option ℕ
  pub touched : ℕ

-- The fields of `Client` that change. A waiter is the number of its channel.
pub record Pool : Type 0 where
  pub closed : Bool
  pub limit : ℕ
  pub create_in_progress : ℕ
  pub index : Dict PoolInfo
  pub idle : Dict ℕ
  pub next_element : ℕ
  pub wait_q : List ℕ

pub data PoolError : Type 0 where
  closed_client session_closing session_closed node_not_observable pool_overflow no_progress :
      PoolError

-- `newClient`
unfoldable pub new_pool : ℕ → Pool
new_pool limit = record {
  closed = false;
  limit = limit;
  create_in_progress = 0;
  index = [];
  idle = [];
  next_element = 0;
  wait_q = [];
}

-- The pre-check of `internalPoolCreateSession`, which takes a place for the session to come.
unfoldable pub reserve : Pool → Bool × Pool
reserve p =
    if ltb (p.create_in_progress + length p.index) p.limit
    then (true, record p { create_in_progress = p.create_in_progress + 1 })
    else (false, p)

-- Its deferred function.
unfoldable pub release : Pool → Pool
release p = record p { create_in_progress = p.create_in_progress - 1 }

-- The function `withCreateSessionOnCreate`.
unfoldable pub on_create : ℕ → ℕ → Pool → Pool
on_create s now p = record p { index = insert s (record { element = none; touched = now }) p.index }

-- What `internalPoolNotify` did: the channel that took the session, if one did, those it closed, and
-- the waiters that are left.
pub record Notified : Type 0 where
  pub taken_by : Option ℕ
  pub closed_chs : List ℕ
  pub left : List ℕ

-- `internalPoolNotify`; `reads` tells of a channel whether its goroutine stands at the receive. The
-- pool is open whenever it is called, so the case of `done` does not arise.
unfoldable pub notify : (ℕ → Bool) → List ℕ → Notified
notify reads [] = record { taken_by = none; closed_chs = []; left = [] }
notify reads (ch ∷ chs) =
    let rest = notify reads chs in
    if reads ch
    then record { taken_by = some ch; closed_chs = []; left = chs }
    else record rest { closed_chs = ch ∷ rest.closed_chs }

-- `internalPoolPeekFirstIdle`: the first element and its session.
unfoldable peek_first_idle : Pool → Result PoolError (Option (ℕ × ℕ))
peek_first_idle p = elim p.idle [
  | [] ↦ ok none
  | e ∷ _ ↦ elim (lookup e.1 p.index) [
    | none ↦ panic
    | some i ↦ elim i.element [ none ↦ panic | some el ↦ if el == e.0 then ok (some e) else panic ]
  ]
]

-- `internalPoolRemoveIdle`
unfoldable remove_idle : ℕ → Pool → Result PoolError Pool
remove_idle s p = elim (lookup s p.index) [
  | none ↦ panic
  | some i ↦ elim i.element [
    | none ↦ panic
    | some el ↦ ok (record p {
      idle = erase el p.idle;
      index = insert s (record i { element = none }) p.index;
    })
  ]
]

abbrev pub given : ℕ → Result PoolError Pool → Result PoolError (Option ℕ × Pool)
given s (ok p) = ok (some s, p)
given s (err e) = err e
given s panic = panic

-- `internalPoolRemoveFirstIdle`
unfoldable pub remove_first_idle : Pool → Result PoolError (Option ℕ × Pool)
unfolding peek_first_idle remove_idle
remove_first_idle p = elim (peek_first_idle p) [
  | ok o ↦ elim o [ none ↦ ok (none, p) | some e ↦ given e.1 (remove_idle e.1 p) ]
  | err e ↦ err e
  | panic ↦ panic
]

-- `internalPoolPushIdle` with `internalPoolHandlePushIdle`
unfoldable pub push_idle : ℕ → ℕ → Pool → Result PoolError Pool
push_idle s now p = elim (lookup s p.index) [
  | none ↦ panic
  | some i ↦ elim i.element [
    | some _ ↦ panic
    | none ↦ ok (record p {
      idle = p.idle ++ (p.next_element, s) ∷ [];
      next_element = p.next_element + 1;
      index = insert s (record { element = some p.next_element; touched = now }) p.index;
    })
  ]
]

-- The default case of `Put`.
unfoldable pub put_locked : (ℕ → Bool) → ℕ → ℕ → Pool → Result PoolError Pool
unfolding notify push_idle
put_locked reads now s p =
    if leb p.limit (length p.idle)
    then err pool_overflow
    else let n = notify reads p.wait_q in
      let p' : Pool = record p { wait_q = n.left } in
      elim n.taken_by [ some _ ↦ ok p' | none ↦ push_idle s now p' ]

-- The function `withCreateSessionOnClose`.
unfoldable pub on_close : (ℕ → Bool) → ℕ → Pool → Result PoolError Pool
unfolding notify
on_close reads s p = elim (lookup s p.index) [
  | none ↦ panic
  | some i ↦
      let q = if p.closed then p.wait_q else (notify reads p.wait_q).left in
      let idle : Dict ℕ = elim i.element [ none ↦ p.idle | some el ↦ erase el p.idle ] in
      ok (record p { index = erase s p.index; wait_q = q; idle = idle })
]

-- What `Put` sees of the session and of its node.
pub record SessionView : Type 0 where
  pub is_closing : Bool
  pub is_closed : Bool
  pub has_node : Bool

-- The error that `Put` finds before it takes the mutex.
unfoldable pub put_error : SessionView → Bool → Option PoolError
put_error v closed =
    if closed
    then some closed_client
    else if v.is_closing
    then some session_closing
    else if v.is_closed
    then some session_closed
    else if v.has_node
    then none
    else some node_not_observable

abbrev closing :
    PoolError → Result PoolError Pool → Pool → Result PoolError (Option PoolError × Pool)
closing e (ok p) p₀ = ok (some e, p)
closing e (err x) p₀ = ok (some e, p₀)
closing e panic p₀ = panic

-- `s.Close`: the functions of `onClose` run once, so on a session that the pool still has.
unfoldable pub sync_close :
    PoolError → (ℕ → Bool) → ℕ → Pool → Result PoolError (Option PoolError × Pool)
unfolding on_close
sync_close e reads s p =
    if contains s p.index then closing e (on_close reads s p) p else ok (some e, p)

abbrev put_result :
    (ℕ → Bool) → ℕ → Pool → Result PoolError Pool → Result PoolError (Option PoolError × Pool)
put_result reads s p (ok p') = ok (none, p')
put_result reads s p (err e) = sync_close e reads s p
put_result reads s p panic = panic

-- `Put`: the error it returns, if any, after which it closes the session. The checks before the mutex
-- and the part under it are one step, so nothing closes the pool or the session between the two.
unfoldable pub put :
    SessionView → (ℕ → Bool) → ℕ → ℕ → Pool → Result PoolError (Option PoolError × Pool)
unfolding put_error put_locked sync_close
put v reads now s p = elim (put_error v p.closed) [
  | some e ↦ sync_close e reads s p
  | none ↦ put_result reads s p (put_locked reads now s p)
]

-- The beginning of `internalPoolWaitFromCh`, and its end when the channel was not read.
unfoldable pub push_wait : ℕ → Pool → Pool
push_wait ch p = record p { wait_q = p.wait_q ++ ch ∷ [] }

unfoldable remove_ch : ℕ → List ℕ → List ℕ
remove_ch ch [] = []
remove_ch ch (c ∷ cs) = let rest = remove_ch ch cs in if c == ch then cs else c ∷ rest

unfoldable pub leave_wait : ℕ → Pool → Pool
unfolding remove_ch
leave_wait ch p = record p { wait_q = remove_ch ch p.wait_q }

-- `Close`: the pool, the channels that it closes, and the sessions that it begins to close.
unfoldable pub close_pool : Pool → Pool × (List ℕ × List ℕ)
close_pool p =
    if p.closed
    then (p, ([], []))
    else (record p { closed = true; limit = 0 }, (p.wait_q, map (λ e. e.1) p.idle))

-- `internalPoolGCTick`: the idle sessions that it begins to close.
abbrev stale : (ℕ → ℕ) → ℕ → Dict PoolInfo → ℕ × ℕ → Result PoolError Bool
stale since threshold index e = elim (lookup e.1 index) [
  | none ↦ panic
  | some i ↦ elim i.element [ none ↦ panic | some _ ↦ ok (ltb threshold (since i.touched)) ]
]

abbrev collected : ℕ → Result PoolError Bool → Result PoolError (List ℕ) → Result PoolError (List ℕ)
collected s (ok old) (ok ss) = ok (if old then s ∷ ss else ss)
collected s (ok old) (err e) = err e
collected s (ok old) panic = panic
collected s (err e) r = err e
collected s panic r = panic

unfoldable pub gc_loop : (ℕ → ℕ) → ℕ → Dict PoolInfo → Dict ℕ → Result PoolError (List ℕ)
gc_loop since threshold index [] = ok []
gc_loop since threshold index (e ∷ es) =
    collected e.1 (stale since threshold index e) (gc_loop since threshold index es)

unfoldable pub gc_tick : (ℕ → ℕ) → ℕ → Pool → Result PoolError (List ℕ)
unfolding gc_loop
gc_tick since threshold p = if p.closed then ok [] else gc_loop since threshold p.index p.idle
