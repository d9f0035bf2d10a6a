-- ===== src/Table/Pool/Putting.antt =====
-- `Put` never panics for a session that was taken from the pool.
use ydb_go_sdk.Table.Pool.Idle.{length-insert_known}
use ydb_go_sdk.Base.{
  Bool, Bool-cases, Option, Option-cases, arith, err, inl, inr, leb, length, none, ok, refl, some,
  ℕ, ◌≡◌, ◌⊎◌, ◌++◌, [], ◌∷◌, ==_iff,
}
use ydb_go_sdk.Base.Dict.{lookup, lookup-insert}
use ydb_go_sdk.Table.Pool.{
  Pool, PoolError, PoolInfo, SessionView, notify, pool_overflow, put, put_error, put_locked,
  sync_close,
}
use ydb_go_sdk.Table.Pool.Invariant.{
  Held, IsConsistent, NoMore, NoMore-refl, on_close-IsConsistent, push_idle-eq, pushed,
  pushed-IsConsistent,
}

sync_close-IsConsistent :
    (e : PoolError) (reads : ℕ → Bool) (s : ℕ) (p : Pool) (i : PoolInfo)
    → IsConsistent p
    → lookup s p.index ≡ some i
    → (p' : Pool) × (sync_close e reads s p ≡ ok (some e, p'))
      × IsConsistent p'
      × NoMore p p'
      × (lookup s p'.index ≡ none)
unfolding sync_close
sync_close-IsConsistent e reads s p i v f =
    let (p', q, c, more, _, gone) = on_close-IsConsistent reads s p i v f in
    (p', ground (arith, f, q), c, more, gone)

-- The session was handed to the waiter that is told of it, and the pool keeps it as it was, in use;
-- or nobody was told of it, and it is the last of the idle sessions, under a new number.
abbrev pub IsGivenBack : (ℕ → Bool) → ℕ → ℕ → Pool → Pool → Type 0
IsGivenBack reads now s p p' =
    ((ch : ℕ) × ((notify reads p.wait_q).taken_by ≡ some ch)
      × (p'.index ≡ p.index)
      × (p'.idle ≡ p.idle))
    ⊎ (((notify reads p.wait_q).taken_by ≡ none)
        × (p'.idle ≡ p.idle ++ (p.next_element, s) ∷ [])
        × (lookup s p'.index ≡ some (record { element = some p.next_element; touched = now })))

put_locked-cases :
    (reads : ℕ → Bool) (now s : ℕ) (p : Pool)
    → IsConsistent p
    → Held s p
    → (put_locked reads now s p ≡ err pool_overflow)
      ⊎ ((p' : Pool) × (put_locked reads now s p ≡ ok p')
          × IsConsistent p'
          × NoMore p p'
          × IsGivenBack reads now s p p')
unfolding put_locked
put_locked-cases reads now s p v held = elim (Bool-cases (leb p.limit (length p.idle))) [
  | inl full ↦ inl (ground (arith, full))
  | inr room ↦
      let p₁ : Pool = record p { wait_q = (notify reads p.wait_q).left } in
      let v₁ : IsConsistent p₁ = record {
        matched = v.matched;
        listed = v.listed;
        rising = v.rising;
      } in
      elim (Option-cases (notify reads p.wait_q).taken_by) [
        | inr (ch, t) ↦
            inr (p₁, ground (arith, room, t), v₁, NoMore-refl p, inl (ch, t, refl, refl))
        | inl t ↦
            let info : PoolInfo = record { element = some p.next_element; touched = now } in
            let (i, f, m) = held in
            let q = push_idle-eq s now p₁ i f m in
            let more : NoMore p (pushed s now p₁) =
              (refl, omega (arith, length-insert_known s info p.index f), omega arith) in
            inr (
              pushed s now p₁,
              ground (arith, room, t, q),
              pushed-IsConsistent s now p₁ v₁ held,
              more,
              inr (t, refl, ground (arith, ==_iff s s, lookup-insert s s info p.index)),
            )
      ]
]

-- `Put` of a session that is in use never panics, and a consistent pool stays consistent. Without an
-- error the session was handed to a waiter, or, if none takes it, it is the last of the idle ones;
-- with an error it is closed and taken out of the pool.
pub put-IsConsistent :
    (view : SessionView) (reads : ℕ → Bool) (now s : ℕ) (p : Pool)
    → IsConsistent p
    → Held s p
    → (r : Option PoolError) × (p' : Pool) × (put view reads now s p ≡ ok (r, p'))
      × IsConsistent p'
      × NoMore p p'
      × (((r ≡ none) × IsGivenBack reads now s p p')
          ⊎ ((e : PoolError) × (r ≡ some e) × (lookup s p'.index ≡ none)))
unfolding put
put-IsConsistent view reads now s p v (i, f, m) = elim (Option-cases (put_error view p.closed)) [
  | inr (e, h) ↦
      let (p', q, c, more, gone) = sync_close-IsConsistent e reads s p i v f in
      (some e, p', ground (arith, h, q), c, more, inr (e, refl, gone))
  | inl h ↦ elim (put_locked-cases reads now s p v (i, f, m)) [
    | inl full ↦
        let (p', q, c, more, gone) = sync_close-IsConsistent pool_overflow reads s p i v f in
        (
          some pool_overflow,
          p',
          ground (arith, h, full, q),
          c,
          more,
          inr (pool_overflow, refl, gone),
        )
    | inr (p', q, c, more, back) ↦ (none, p', ground (arith, h, q), c, more, inl (refl, back))
  ]
]
