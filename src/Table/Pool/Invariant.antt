-- ===== src/Table/Pool/Invariant.antt =====
-- The pool's index and its list of idle sessions agree, whatever is done to them.
use ydb_go_sdk.Base.{
  ==_iff, All, All-imp, Bool, List, Option, Option-cases, [], arith, if◌then◌else◌, inl, inr,
  length, none, ok, refl, some, ℕ, ◌++◌, ◌+◌, ◌<◌, ◌==◌, ◌↔◌, ◌∷◌, ◌≡◌, ◌≤◌, ◌⊎◌,
}
use ydb_go_sdk.Base.Dict.{Dict, erase, insert, lookup, lookup-erase, lookup-insert}
use ydb_go_sdk.Table.Pool.Idle.{
  All-push, Rises, Rises-below, Rises-erase, Rises-push, erase-All_ne, length-erase_known,
  length-insert_known, lookup-append,
}
use ydb_go_sdk.Table.Pool.{
  Pool, PoolInfo, new_pool, notify, on_close, on_create, push_idle, remove_first_idle,
}

-- The element of an idle session.
abbrev pub element_in : Dict PoolInfo → ℕ → Option ℕ
element_in index s = elim (lookup s index) [ none ↦ none | some i ↦ i.element ]

-- A session stands in the list at an element exactly when the index says so.
pub record IsConsistent (p : Pool) : Type 0 where
  pub matched : (e s : ℕ) → (lookup e p.idle ≡ some s) ↔ (element_in p.index s ≡ some e)
  pub listed : All (λ x. element_in p.index x.1 ≡ some x.0) p.idle
  pub rising : Rises 0 p.idle p.next_element

-- A pool whose limit, sessions and sessions to come are not more than those of another.
abbrev pub NoMore : Pool → Pool → Type 0
NoMore p q =
    (q.create_in_progress ≡ p.create_in_progress)
    × (length q.index ≤ length p.index)
    × (q.limit ≤ p.limit)

pub NoMore-refl : (p : Pool) → NoMore p p
NoMore-refl p = (refl, omega arith, omega arith)

-- The session belongs to the pool, and is not idle.
abbrev pub Held : ℕ → Pool → Type 0
Held s p = (i : PoolInfo) × (lookup s p.index ≡ some i) × (i.element ≡ none)

element_in-insert :
    (s t : ℕ) (i : PoolInfo) (d : Dict PoolInfo)
    → element_in (insert s i d) t ≡ (if s == t then i.element else element_in d t)
element_in-insert s t i d = ground (arith, lookup-insert s t i d)

element_in-erase :
    (s t : ℕ) (d : Dict PoolInfo)
    → element_in (erase s d) t ≡ (if s == t then none else element_in d t)
element_in-erase s t d = ground (arith, lookup-erase s t d)

pub new_pool-IsConsistent : (n : ℕ) → IsConsistent (new_pool n)
unfolding new_pool
new_pool-IsConsistent n = record {
  matched = λ e s. (λ h. absurd (ground arith), λ h. absurd (ground arith));
  listed = tt;
  rising = omega arith;
}

pub on_create-IsConsistent :
    (s now : ℕ) (p : Pool)
    → lookup s p.index ≡ none
    → IsConsistent p
    → IsConsistent (on_create s now p)
unfolding on_create
on_create-IsConsistent s now p new v =
    let info : PoolInfo = record { element = none; touched = now } in
    record {
      matched = λ e t. ground (
        arith,
        v.matched e t,
        element_in-insert s t (record { element = none; touched = now }) p.index,
        ==_iff s t,
      );
      listed =
          All-imp p.idle
            (λ x h. ground (arith, element_in-insert s x.1 info p.index, ==_iff s x.1, h, new))
            v.listed;
      rising = v.rising;
    }

-- The first idle session, and the pool without it.
pub remove_first_idle-cases :
    (p : Pool)
    → IsConsistent p
    → ((p.idle ≡ []) × (remove_first_idle p ≡ ok (none, p)))
      ⊎ ((e s : ℕ) × (rest : Dict ℕ) × (i : PoolInfo) × (p.idle ≡ (e, s) ∷ rest)
          × (lookup s p.index ≡ some i)
          × (i.element ≡ some e)
          × (remove_first_idle p
              ≡ ok (
                some s,
                record p {
                  idle = erase e p.idle;
                  index = insert s (record i { element = none }) p.index;
                },
              )))
unfolding remove_first_idle
remove_first_idle-cases p v = go p.idle refl
  where
    go :
        (d : Dict ℕ)
        → p.idle ≡ d
        → ((p.idle ≡ []) × (remove_first_idle p ≡ ok (none, p)))
          ⊎ ((e s : ℕ) × (rest : Dict ℕ) × (i : PoolInfo) × (p.idle ≡ (e, s) ∷ rest)
              × (lookup s p.index ≡ some i)
              × (i.element ≡ some e)
              × (remove_first_idle p
                  ≡ ok (
                    some s,
                    record p {
                      idle = erase e p.idle;
                      index = insert s (record i { element = none }) p.index;
                    },
                  )))
    go [] q = inl (q, ground (arith, q))
    go ((e, s) ∷ rest) q =
        let here : lookup e p.idle ≡ some s = rw q (ground arith) in
        let marked = (v.matched e s).0 here in
        elim (Option-cases (lookup s p.index)) [
          | inl f ↦ absurd (ground (arith, marked, f))
          | inr (i, f) ↦
              let m : i.element ≡ some e = ground (arith, marked, f) in
              inr (e, s, rest, i, q, f, m, ground (arith, q, f, m, ==_iff e e))
        ]

pub remove_idle-matched :
    (e₀ s₀ : ℕ) (i : PoolInfo) (p : Pool)
    → IsConsistent p
    → lookup s₀ p.index ≡ some i
    → i.element ≡ some e₀
    → IsConsistent (record p {
      idle = erase e₀ p.idle;
      index = insert s₀ (record i { element = none }) p.index;
    })
remove_idle-matched e₀ s₀ i p v f m = record {
  matched = λ e t. ground (
    arith,
    v.matched e t,
    v.matched e₀ t,
    v.matched e₀ s₀,
    element_in-insert s₀ t (record i { element = none }) p.index,
    ==_iff s₀ t,
    ==_iff e₀ e,
    lookup-erase e₀ e p.idle,
  );
  listed =
      erase-All_ne e₀ p.idle
        (λ x ne h. ground (
          arith,
          element_in-insert s₀ x.1 (record i { element = none }) p.index,
          ==_iff s₀ x.1,
          ne,
          h,
          f,
          m,
        ))
        v.listed;
  rising = Rises-erase e₀ 0 p.next_element p.idle v.rising;
}

-- Taking the first idle session never panics; it leaves a consistent pool in which the session is
-- held, and every other session is as it was.
pub remove_first_idle-IsConsistent :
    (p : Pool)
    → IsConsistent p
    → (o : Option ℕ) × (p' : Pool) × (remove_first_idle p ≡ ok (o, p'))
      × IsConsistent p'
      × NoMore p p'
remove_first_idle-IsConsistent p v = elim (remove_first_idle-cases p v) [
  | inl (empty, e) ↦ (none, p, e, v, NoMore-refl p)
  | inr (e, s, rest, i, q, f, m, r) ↦ (
    some s,
    _,
    r,
    remove_idle-matched e s i p v f m,
    (
      refl,
      omega (arith, length-insert_known s (record i { element = none }) p.index f),
      omega arith,
    ),
  )
]

-- The pool with a session at the end of its list.
abbrev pub pushed : ℕ → ℕ → Pool → Pool
pushed s now p = record p {
  idle = p.idle ++ (p.next_element, s) ∷ [];
  next_element = p.next_element + 1;
  index = insert s (record { element = some p.next_element; touched = now }) p.index;
}

pub push_idle-eq :
    (s now : ℕ) (p : Pool) (i : PoolInfo)
    → lookup s p.index ≡ some i
    → i.element ≡ none
    → push_idle s now p ≡ ok (pushed s now p)
unfolding push_idle
push_idle-eq s now p i f m = ground (arith, f, m)

pub pushed-IsConsistent :
    (s now : ℕ) (p : Pool) → IsConsistent p → Held s p → IsConsistent (pushed s now p)
pushed-IsConsistent s now p v (i, f, m) =
    let n = p.next_element in
    let info : PoolInfo = record { element = some n; touched = now } in
    let absent : lookup n p.idle ≡ none = elim (Option-cases (lookup n p.idle)) [
      | inl a ↦ a
      | inr (t, a) ↦ absurd (omega (arith, Rises-below 0 n n p.idle v.rising a))
    ] in
    record {
      matched = λ e t. ground (
        arith,
        v.matched e t,
        v.matched e s,
        v.matched n s,
        v.matched n t,
        absent,
        element_in-insert s t info p.index,
        lookup-append n e s p.idle,
        ==_iff s t,
        ==_iff n e,
        f,
        m,
      );
      listed =
          All-push p.idle (n, s)
            (λ x h. ground (arith, element_in-insert s x.1 info p.index, ==_iff s x.1, h, f, m))
            v.listed (ground (arith, element_in-insert s s info p.index, ==_iff s s));
      rising = Rises-push 0 n s p.idle v.rising;
    }

pub push_idle-IsConsistent :
    (s now : ℕ) (p : Pool)
    → IsConsistent p
    → Held s p
    → (p' : Pool) × (push_idle s now p ≡ ok p') × IsConsistent p' × NoMore p p'
push_idle-IsConsistent s now p v (i, f, m) =
    let info : PoolInfo = record { element = some p.next_element; touched = now } in
    (
      pushed s now p,
      push_idle-eq s now p i f m,
      pushed-IsConsistent s now p v (i, f, m),
      (refl, omega (arith, length-insert_known s info p.index f), omega arith),
    )

-- The pool without a session, and with the waiters that are left.
abbrev pub without : ℕ → PoolInfo → List ℕ → Pool → Pool
without s i q p = record p {
  index = erase s p.index;
  wait_q = q;
  idle = elim i.element [ none ↦ p.idle | some el ↦ erase el p.idle ];
}

pub on_close-eq :
    (reads : ℕ → Bool) (s : ℕ) (p : Pool) (i : PoolInfo)
    → lookup s p.index ≡ some i
    → on_close reads s p
      ≡ ok (without s i (if p.closed then p.wait_q else (notify reads p.wait_q).left) p)
unfolding on_close
on_close-eq reads s p i f = rw (on_close, f) refl

pub without-IsConsistent :
    (s : ℕ) (i : PoolInfo) (q : List ℕ) (p : Pool)
    → IsConsistent p
    → lookup s p.index ≡ some i
    → IsConsistent (without s i q p)
without-IsConsistent s i q p v f = elim (Option-cases i.element) [
  | inl m ↦ record {
    matched = λ e t.
        ground
          (arith, v.matched e t, v.matched e s, element_in-erase s t p.index, ==_iff s t, f, m);
    listed = rw m (
        All-imp p.idle
          (λ x h. ground (arith, element_in-erase s x.1 p.index, ==_iff s x.1, h, f, m)) v.listed);
    rising = rw m v.rising;
  }
  | inr (el, m) ↦ record {
    matched = λ e t. ground (
      arith,
      v.matched e t,
      v.matched e s,
      v.matched el s,
      v.matched el t,
      element_in-erase s t p.index,
      lookup-erase el e p.idle,
      ==_iff s t,
      ==_iff el e,
      f,
      m,
    );
    listed = rw m (
        erase-All_ne el p.idle
          (λ x ne h. ground (arith, element_in-erase s x.1 p.index, ==_iff s x.1, ne, h, f, m))
          v.listed);
    rising = rw m (Rises-erase el 0 p.next_element p.idle v.rising);
  }
]

-- Closing a session of the pool never panics; the pool stays consistent, and has one session less.
pub on_close-IsConsistent :
    (reads : ℕ → Bool) (s : ℕ) (p : Pool) (i : PoolInfo)
    → IsConsistent p
    → lookup s p.index ≡ some i
    → (p' : Pool) × (on_close reads s p ≡ ok p')
      × IsConsistent p'
      × NoMore p p'
      × (length p'.index < length p.index)
      × (lookup s p'.index ≡ none)
on_close-IsConsistent reads s p i v f =
    let q = if p.closed then p.wait_q else (notify reads p.wait_q).left in
    (
      without s i q p,
      on_close-eq reads s p i f,
      without-IsConsistent s i q p v f,
      (refl, omega (arith, length-erase_known s p.index f), omega arith),
      length-erase_known s p.index f,
      ground (arith, lookup-erase s s p.index, ==_iff s s),
    )
