-- ===== src/Table/Pool/Spec.antt =====
-- What the pool promises, as a queue of idle sessions and a set of sessions in use, and runs of the
-- promise and of the pool. Nobody waits here: see Waiters for those who do.
use ydb_go_sdk.Base.{
  Bool, List, Option, Result, [], err, false, if◌then◌else◌, none, ok, panic, some, true, ℕ, ◌++◌,
  ◌==◌, ◌||◌, ◌∷◌, ◌≡◌,
}
use ydb_go_sdk.Table.Pool.{Pool, PoolError, on_close, on_create, push_idle, remove_first_idle}

pub record Spec : Type 0 where
  pub queue : List ℕ
  pub busy : ℕ → Bool

pub data Op : Type 0 where
  -- a session that was created, one that is taken, given back, or closed
  adds gives drops : ℕ → Op
  takes : Op

abbrev pub among : ℕ → List ℕ → Bool
among s [] = false
among s (x ∷ xs) = x == s || among s xs

abbrev pub less : ℕ → List ℕ → List ℕ
less s [] = []
less s (x ∷ xs) = let rest = less s xs in if x == s then rest else x ∷ rest

abbrev pub mark : ℕ → Bool → (ℕ → Bool) → ℕ → Bool
mark s b f t = if s == t then b else f t

unfoldable pub spec_step : Op → Spec → Option ℕ × Spec
spec_step (adds s) a = (none, record a { busy = mark s true a.busy })
spec_step (gives s) a = (none, record { queue = a.queue ++ s ∷ []; busy = mark s false a.busy })
spec_step (drops s) a = (none, record { queue = less s a.queue; busy = mark s false a.busy })
spec_step takes a = elim a.queue [
  | [] ↦ (none, a)
  | s ∷ rest ↦ (some s, record { queue = rest; busy = mark s true a.busy })
]

-- A new session is not known; one that is given back is in use; one that is closed is known.
abbrev pub Allowed : Op → Spec → Type 0
Allowed (adds s) a = (a.busy s ≡ false) × (among s a.queue ≡ false)
Allowed (gives s) a = a.busy s ≡ true
Allowed (drops s) a = a.busy s || among s a.queue ≡ true
Allowed takes a = Unit

abbrev pub Permitted : List Op → Spec → Type 0
Permitted [] a = Unit
Permitted (o ∷ os) a = Allowed o a × Permitted os (spec_step o a).1

unfoldable pub spec_run : List Op → Spec → List (Option ℕ)
unfolding spec_step
spec_run [] a = []
spec_run (o ∷ os) a = (spec_step o a).0 ∷ spec_run os (spec_step o a).1

-- The same by the functions of the pool.
abbrev pub quietly : Result PoolError Pool → Result PoolError (Option ℕ × Pool)
quietly (ok p) = ok (none, p)
quietly (err e) = err e
quietly panic = panic

abbrev pub no_reader : ℕ → Bool
no_reader ch = false

unfoldable pub pool_step : ℕ → Op → Pool → Result PoolError (Option ℕ × Pool)
pool_step now (adds s) p = ok (none, on_create s now p)
pool_step now (gives s) p = quietly (push_idle s now p)
pool_step now (drops s) p = quietly (on_close no_reader s p)
pool_step now takes p = remove_first_idle p

abbrev pub further :
    (Pool → Result PoolError (List (Option ℕ)))
    → Result PoolError (Option ℕ × Pool)
    → Result PoolError (List (Option ℕ))
further run (ok (o, p)) = elim (run p) [ ok os ↦ ok (o ∷ os) | err e ↦ err e | panic ↦ panic ]
further run (err e) = err e
further run panic = panic

unfoldable pub pool_run : ℕ → List Op → Pool → Result PoolError (List (Option ℕ))
unfolding pool_step
pool_run now [] p = ok []
pool_run now (o ∷ os) p = further (pool_run now os) (pool_step now o p)

abbrev pub no_sessions : Spec
no_sessions = record { queue = []; busy = λ s. false }
