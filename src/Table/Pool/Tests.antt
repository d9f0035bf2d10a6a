-- ===== src/Table/Pool/Tests.antt =====
-- A pool of two sessions: runs, and the theorems at it.
use ydb_go_sdk.Base.{
  Bool, List, Option, [], arith, false, length, none, ok, panic, refl, some, suc, true, zero, ℕ,
  ◌+◌, ◌==◌, ◌↔◌, ◌∷◌, ◌≡◌, ◌≤◌, ◌⊎◌,
}
use ydb_go_sdk.Base.Dict.{insert, lookup}
use ydb_go_sdk.Xerrors.{Err, GrpcCode}
use ydb_go_sdk.Table.Pool.{
  Pool, PoolError, SessionView, new_pool, notify, on_create, pool_overflow, put, put_error, reserve,
}
use ydb_go_sdk.Table.Pool.Invariant.{Held, IsConsistent, NoMore}
use ydb_go_sdk.Table.Pool.Putting.{put-IsConsistent, IsGivenBack}
use ydb_go_sdk.Table.Pool.Steps.{
  Reach, Reach-limit, Reach-no_panic, Step, System, builds, here, next, reserves, start, Call,
}
use ydb_go_sdk.Table.Pool.Spec.{
  Op, adds, drops, gives, no_sessions, pool_run, spec_run, spec_step, takes,
}
use ydb_go_sdk.Table.Pool.Refinement.{pool_run-refines}
use ydb_go_sdk.Table.Pool.Waiters.{Told, handed, put-handed}
use ydb_go_sdk.Table.Pool.Getting.{Attempt, FirstOffer, failed, get, get-FirstOffer, of_pool, woken}

-- Session 7 is created, given back, and another one is created and given back; then one is taken.
abbrev history : List Op
history = adds 7 ∷ adds 8 ∷ gives 8 ∷ gives 7 ∷ takes ∷ drops 7 ∷ takes ∷ []

history_outputs :
    spec_run history no_sessions ≡ none ∷ none ∷ none ∷ none ∷ some 8 ∷ none ∷ none ∷ []
unfolding spec_run
history_outputs = refl

pool_run-refines_example : pool_run 5 history (new_pool 2) ≡ ok (spec_run history no_sessions)
pool_run-refines_example =
    pool_run-refines 5 2 history
      (unfold spec_step in ((refl, refl), ((refl, refl), (refl, (refl, (tt, (refl, (tt, tt))))))))

abbrev one_reserved : System
one_reserved = record {
  pool = record {
    closed = false;
    limit = 2;
    create_in_progress = 1;
    index = [];
    idle = [];
    next_element = 0;
    wait_q = [];
  };
  reserved = 1;
  added = 0;
}

abbrev one_session : System
one_session = record {
  pool = record {
    closed = false;
    limit = 2;
    create_in_progress = 1;
    index = (7, record { element = none; touched = 5 }) ∷ [];
    idle = [];
    next_element = 0;
    wait_q = [];
  };
  reserved = 0;
  added = 1;
}

start-Step : Step (start 2) one_reserved
unfolding reserve new_pool
start-Step = reserves {p = one_reserved.pool} refl

one_reserved-Step : Step one_reserved one_session
unfolding on_create insert
one_reserved-Step = builds 7 5 0 refl refl

one_session-Reach : Reach (start 2) one_session
one_session-Reach = next (next here start-Step) one_reserved-Step

Reach-limit_example :
    (length one_session.pool.index + one_session.reserved ≤ 2)
    × (one_session.pool.create_in_progress ≡ one_session.reserved + one_session.added)
Reach-limit_example = Reach-limit 2 one_session one_session-Reach

abbrev fit : SessionView
fit = record { is_closing = false; is_closed = false; has_node = true }

-- Only channel 4 is read.
abbrev reads_four : ℕ → Bool
reads_four ch = ch == 4

abbrev one_held : Held 7 one_session.pool
one_held = (record { element = none; touched = 5 }, refl, refl)

Reach-no_panic_example : ¬ (put fit reads_four 9 7 one_session.pool ≡ panic)
Reach-no_panic_example =
    Reach-no_panic 2 one_session one_session-Reach (Call.gives fit reads_four 9 7 one_held)

abbrev crowded : Pool
crowded = record one_session.pool { wait_q = 3 ∷ 4 ∷ 5 ∷ [] }

hands_over : put fit reads_four 9 7 crowded ≡ ok (none, record crowded { wait_q = 5 ∷ [] })
unfolding put
hands_over = refl

put-handed_example :
    let n = notify reads_four (3 ∷ 4 ∷ 5 ∷ []) in
    Told reads_four (3 ∷ 4 ∷ 5 ∷ []) n
    × (put fit reads_four 9 7 crowded ≡ ok (none, handed 7 9 crowded n))
put-handed_example =
    put-handed fit reads_four 9 7 crowded one_held (unfold put_error in refl) (omega arith)

crowded-IsConsistent : IsConsistent crowded
crowded-IsConsistent = record {
  matched = λ e s. (λ h. absurd (ground arith), λ h. absurd (ground arith));
  listed = tt;
  rising = omega arith;
}

put-IsConsistent_example :
    (r : Option PoolError) × (p' : Pool) × (put
        (record fit { is_closing = true })
        reads_four
        9
        7
        crowded
      ≡ ok (r, p'))
    × IsConsistent p'
    × NoMore crowded p'
    × (((r ≡ none) × IsGivenBack reads_four 9 7 crowded p')
        ⊎ ((e : PoolError) × (r ≡ some e) × (lookup 7 p'.index ≡ none)))
put-IsConsistent_example =
    put-IsConsistent (record fit { is_closing = true }) reads_four 9 7 crowded crowded-IsConsistent
      one_held

abbrev no_status : Err → Option GrpcCode
no_status e = none

-- The pool is full at first, and then session 7 is idle.
abbrev attempts : ℕ → Attempt
attempts zero = record {
  is_closed = false;
  idle = none;
  created = failed (of_pool pool_overflow);
  waited = woken;
}
attempts (suc k) = record {
  is_closed = false;
  idle = some (7, true);
  created = failed (of_pool pool_overflow);
  waited = woken;
}

get-FirstOffer_example : (get no_status attempts ≡ ok 7) ↔ FirstOffer no_status attempts 100 7
get-FirstOffer_example = get-FirstOffer no_status attempts 7
