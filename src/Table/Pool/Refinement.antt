-- ===== src/Table/Pool/Refinement.antt =====
-- The index with the linked list implements the queue with its set.
use mathlib.Core.Path.{subst}
use ydb_go_sdk.Base.{
  ==_iff, All-imp, List, Option, Option-cases, Result, [], ap, arith, if◌then◌else◌, inl, inr, none,
  ok, refl, some, suc, sym, true, ℕ, ◌++◌, ◌∙◌, ◌∷◌, ◌≡◌,
}
use ydb_go_sdk.Base.Dict.{erase, lookup}
use ydb_go_sdk.Table.Pool.Idle.{Rises, erase-Rises, erase_head}
use ydb_go_sdk.Table.Pool.{
  Pool, PoolError, PoolInfo, new_pool, notify, on_create, remove_first_idle,
}
use ydb_go_sdk.Table.Pool.Invariant.{
  IsConsistent, new_pool-IsConsistent, on_close-eq, on_create-IsConsistent, push_idle-eq, pushed,
  pushed-IsConsistent, remove_first_idle-cases, remove_idle-matched, without, without-IsConsistent,
}
use ydb_go_sdk.Table.Pool.Spec.{
  Allowed, Op, Permitted, Spec, adds, drops, further, gives, less, mark, no_reader, no_sessions,
  pool_run, pool_step, quietly, spec_run, spec_step, takes,
}
use ydb_go_sdk.Table.Pool.Implements.{
  Implements, held, is_held-erase, is_held-insert, known, less-absent, sessions, sessions-erase,
  sessions-push, unknown,
}

abbrev Next : ℕ → Op → Pool → Spec → Type 0
Next now o p a =
    (p' : Pool) × (pool_step now o p ≡ ok ((spec_step o a).0, p')) × Implements p' (spec_step o a).1

adds-Next :
    (now s : ℕ) (p : Pool) (a : Spec) → Implements p a → Allowed (adds s) a → Next now (adds s) p a
unfolding pool_step spec_step on_create
adds-Next now s p a v (b, m) =
    let new = unknown p a s v b m in
    (
      on_create s now p,
      refl,
      record {
        consistent = on_create-IsConsistent s now p new v.consistent;
        queued = v.queued;
        used = λ t. ground (
          arith,
          is_held-insert s t (record { element = none; touched = now }) p.index,
          v.used t,
        );
      },
    )

gives-Next :
    (now s : ℕ) (p : Pool) (a : Spec)
    → Implements p a
    → Allowed (gives s) a
    → Next now (gives s) p a
unfolding pool_step spec_step
gives-Next now s p a v b =
    let (i, f, m) = held p a s v b in
    let info : PoolInfo = record { element = some p.next_element; touched = now } in
    (
      pushed s now p,
      ap quietly (push_idle-eq s now p i f m),
      record {
        consistent = pushed-IsConsistent s now p v.consistent (i, f, m);
        queued = sessions-push p.idle p.next_element s ∙ ap (λ x. x ++ s ∷ []) v.queued;
        used = λ t. ground (arith, is_held-insert s t info p.index, v.used t);
      },
    )

without-queued :
    (s : ℕ) (i : PoolInfo) (q : List ℕ) (p : Pool)
    → IsConsistent p
    → lookup s p.index ≡ some i
    → sessions (without s i q p).idle ≡ less s (sessions p.idle)
without-queued s i q p v f = elim (Option-cases i.element) [
  | inl m ↦ rw m (
      sym (
        less-absent s p.idle
          (All-imp p.idle (λ x h. ground (arith, h, f, m, ==_iff x.1 s)) v.listed)))
  | inr (el, m) ↦ rw m (
      sessions-erase el s p.idle (
        All-imp p.idle
          (λ x h.
            ground (arith, h, f, m, ==_iff x.1 s, ==_iff x.0 el, v.matched el s, v.matched el x.1))
          v.listed))
]

drops-Next :
    (now s : ℕ) (p : Pool) (a : Spec)
    → Implements p a
    → Allowed (drops s) a
    → Next now (drops s) p a
unfolding pool_step spec_step
drops-Next now s p a v b =
    let (i, f) = known p a s v b in
    let q = if p.closed then p.wait_q else (notify no_reader p.wait_q).left in
    (
      without s i q p,
      ap quietly (on_close-eq no_reader s p i f),
      record {
        consistent = without-IsConsistent s i q p v.consistent f;
        queued = without-queued s i q p v.consistent f ∙ ap (less s) v.queued;
        used = λ t. ground (arith, is_held-erase s t p.index, v.used t);
      },
    )

abbrev After : Pool → Option ℕ × Spec → Type 0
After p r = (p' : Pool) × (remove_first_idle p ≡ ok (r.0, p')) × Implements p' r.1

further-ok :
    (run : Pool → Result PoolError (List (Option ℕ))) (o : Option ℕ) (p : Pool)
    {os : List (Option ℕ)}
    → run p ≡ ok os
    → further run (ok (o, p)) ≡ ok (o ∷ os)
further-ok run o p h = rw (further, h) refl

takes-Next : (now : ℕ) (p : Pool) (a : Spec) → Implements p a → Next now takes p a
unfolding pool_step spec_step
takes-Next now p a v = elim (remove_first_idle-cases p v.consistent) [
  | inl (empty, e) ↦
      let same : (none, a) ≡ spec_step takes a = ground (arith, sym v.queued ∙ ap sessions empty) in
      subst (After p) same (p, e, v)
  | inr (e, s, rest, i, q, f, m, r) ↦
      let a' : Spec = record { queue = sessions rest; busy = mark s true a.busy } in
      let same : (some s, a') ≡ spec_step takes a = ground (arith, sym v.queued ∙ ap sessions q) in
      let info : PoolInfo = record i { element = none } in
      let up : Rises (suc e) rest p.next_element =
        (subst (λ d. Rises 0 d p.next_element) q v.consistent.rising).1 in
      let erased : erase e p.idle ≡ rest =
        ap (erase e) q
        ∙ erase_head e s rest
        ∙ erase-Rises e (suc e) p.next_element rest up (omega arith) in
      subst (After p) same (
        _,
        r,
        record {
          consistent = remove_idle-matched e s i p v.consistent f m;
          queued = ap sessions erased;
          used = λ t. ground (arith, is_held-insert s t info p.index, v.used t);
        },
      )
]

pool_step-Next :
    (now : ℕ) (o : Op) (p : Pool) (a : Spec) → Implements p a → Allowed o a → Next now o p a
pool_step-Next now (adds s) p a v h = adds-Next now s p a v h
pool_step-Next now (gives s) p a v h = gives-Next now s p a v h
pool_step-Next now (drops s) p a v h = drops-Next now s p a v h
pool_step-Next now takes p a v h = takes-Next now p a v

pool_run-eq :
    (now : ℕ) (os : List Op) (p : Pool) (a : Spec)
    → Implements p a
    → Permitted os a
    → pool_run now os p ≡ ok (spec_run os a)
unfolding pool_run spec_run
pool_run-eq now [] p a v h = refl
pool_run-eq now (o ∷ os) p a v (h, hs) =
    let (p', e, v') = pool_step-Next now o p a v h in
    ap (further (pool_run now os)) e
    ∙ further-ok (pool_run now os) (spec_step o a).0 p'
        (pool_run-eq now os p' (spec_step o a).1 v' hs)

-- From an empty pool every sequence of sessions that are created, taken, given back and closed gives
-- what the queue with its set gives: a session taken is the one that waited longest, and never one
-- in use. No step fails or panics.
pub pool_run-refines :
    (now limit : ℕ) (os : List Op)
    → Permitted os no_sessions
    → pool_run now os (new_pool limit) ≡ ok (spec_run os no_sessions)
pool_run-refines now limit os h =
    pool_run-eq now os (new_pool limit) no_sessions
      (record {
        consistent = new_pool-IsConsistent limit;
        queued = unfold new_pool in refl;
        used = λ s. unfold new_pool in refl;
      })
      h
