-- ===== src/Retry/Tests.antt =====
-- Runs of the retry loop, and its theorems at concrete runs.
use ydb_go_sdk.Base.{
  List, Option, [], arith, false, inl, length, none, refl, some, take, true, ℕ, ◌-◌, ◌∷◌, ◌≡◌, ◌≤◌,
}
use ydb_go_sdk.Base.Int.{pos}
use ydb_go_sdk.Xerrors.{
  Err, GrpcCode, Numbers, aborted, check, error_target, fast, find_as, grpc_tag, no_issues,
  operation, overloaded, slow, status_tag, undetermined,
}
use ydb_go_sdk.Retry.Loop.{RetryOptions, Round, called, finished, retry, returned}
use ydb_go_sdk.Retry.Backoff.{Fits, delay, delay-bounds, fast_backoff, max, slot}
use ydb_go_sdk.Retry.Rounds.{
  AllButLast, CalledInTurn, MustRetry, Survives, retry-calls, retry-recovers,
}
use ydb_go_sdk.Retry.Streaks.{codes_of, indices, retry-streaks, streaks}

abbrev numbers : Numbers
numbers = record { status_number = λ c. pos (status_tag c); grpc_number = λ c. pos (grpc_tag c) }

abbrev no_status : Err → Option GrpcCode
no_status e = none

abbrev options : RetryOptions
options = record { idempotent = false; recovers = true }

-- A round with a live context, whose call ends so.
abbrev live : Option Err → Round
live e = record { ctx_before = none; outcome = returned e; ctx_after = none; ctx_waiting = none }

abbrev overload : Err
overload = operation overloaded no_issues

abbrev abort : Err
abort = operation aborted no_issues

abbrev script : List Round
script =
    live (some overload) ∷ live (some overload) ∷ live (some abort) ∷ live none ∷ live none ∷ []

run-script : retry numbers no_status options script ≡ record {
  failures = overload ∷ overload ∷ abort ∷ [];
  pauses =
      record { kind = slow; index = 0 }
      ∷ record { kind = slow; index = 1 }
      ∷ record { kind = fast; index = 0 }
      ∷ [];
  ending = finished none;
}
unfolding retry check find_as error_target
run-script = refl

-- An operation that is not idempotent is not called again after an outcome that is not known.
run-undetermined :
    (retry numbers no_status options
      (live (some (operation undetermined no_issues)) ∷ live none ∷ [])).failures
    ≡ operation undetermined no_issues ∷ []
unfolding retry check find_as error_target
run-undetermined = refl

retry-calls_example :
    let r = retry numbers no_status options script in
    CalledInTurn numbers no_status options r.failures script
    × AllButLast (MustRetry numbers no_status options) r.failures
retry-calls_example = retry-calls numbers no_status options script

abort-Survives : Survives numbers no_status options (live (some abort))
abort-Survives = record {
  error = abort;
  fails = (refl, unfold called in refl);
  live = (refl, refl);
  retries = unfold check find_as error_target in inl refl;
  waits = unfold check find_as error_target in λ e. ground arith;
}

retry-recovers_example :
    (retry numbers no_status options (live (some abort) ∷ live none ∷ [])).ending ≡ finished none
retry-recovers_example =
    retry-recovers numbers no_status options (live (some abort) ∷ []) (live none) []
      (abort-Survives, tt) (refl, unfold called in refl)

retry-streaks_example :
    let r = retry numbers no_status options script in
    indices r ≡ take (length r.pauses) (streaks (pos 0 ∷ []) (codes_of numbers r.failures))
retry-streaks_example = retry-streaks numbers no_status options script

fast-Fits : Fits fast_backoff
fast-Fits = unfold slot max in omega arith

-- All but ten of the delay is fixed, and the generator gives the least number.
abbrev all_but_ten : ℕ → ℕ
all_but_ten d = d - 10

delay-bounds_example :
    (all_but_ten 40000000 ≤ delay all_but_ten (λ m. 0) fast_backoff 3)
    × (delay all_but_ten (λ m. 0) fast_backoff 3 ≤ 40000000)
delay-bounds_example =
    delay-bounds all_but_ten (λ m. 0) fast_backoff 3 fast-Fits (λ d. omega arith) (λ m p. p)

abbrev no_part : ℕ → ℕ
no_part d = 0

abbrev first_number : ℕ → ℕ
first_number m = m - 1
