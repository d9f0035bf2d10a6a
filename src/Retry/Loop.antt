-- ===== src/Retry/Loop.antt =====
-- `Retry` of retry/retry.go, `retryMode` of retry/mode.go and `Wait` of internal/wait/wait.go. What
-- the loop meets in one turn (the context, what the operation returns, how a wait ends) is a
-- `Round`; a run takes a list of them, and is unfinished when the list ends.
use ydb_go_sdk.Base.{
  Bool, List, Option, [], false, if◌then◌else◌, none, some, true, ℕ, ◌&&◌, ◌+◌, ◌==◌, ◌∷◌,
}
use ydb_go_sdk.Base.Int.{neg_part, pos, pos_part, ℤ}
use ydb_go_sdk.Xerrors.{
  BackoffType, Err, GrpcCode, Mode, Numbers, any_backoff, check, conditionally_retryable, formatted,
  joined, more_errs, no_backoff, no_error, no_errs, non_retryable, plain, retryable_type, undefined,
  with_stack_trace,
}

-- `retryMode.MustRetry`
unfoldable pub must_retry : Mode → Bool → Bool
must_retry m idempotent = elim m.err_type [
  | undefined ↦ false
  | no_error ↦ false
  | non_retryable ↦ false
  | conditionally_retryable ↦ idempotent
  | retryable_type ↦ true
]

-- `retryMode.MustBackoff`
unfoldable must_backoff : Mode → Bool
must_backoff m = elim m.backoff [ no_backoff ↦ false | _ ↦ true ]

-- How a call of the operation ends.
pub data Outcome : Type 0 where
  returned : Option Err → Outcome
  panicked : Outcome

-- One turn: `ctx.Err()` when the turn begins and after the call, the call, and `ctx.Err()` when the
-- backoff's timer or the context ends the wait (`none`: the timer did).
pub record Round : Type 0 where
  pub ctx_before : Option Err
  pub outcome : Outcome
  pub ctx_after : Option Err
  pub ctx_waiting : Option Err

-- The options that the loop reads.
pub record RetryOptions : Type 0 where
  pub idempotent : Bool
  pub recovers : Bool

-- A wait that the loop asks for: the kind of backoff and its index.
pub record Pause : Type 0 where
  pub kind : BackoffType
  pub index : ℕ

pub data Ending : Type 0 where
  -- `return err`
  finished : Option Err → Ending
  -- a panic of the operation, with no panic callback, or of a backoff that is nil
  crashed : Ending
  unfinished : Ending

-- What a run did: the errors that calls of the operation returned, the waits, and the end.
pub record Run : Type 0 where
  pub failures : List Err
  pub pauses : List Pause
  pub ending : Ending

-- How a turn ends: the loop quits, with no failed call; the call failed and the loop gives up, or it
-- asks for a wait that breaks off, or that lets it go on with a new `code`.
pub data Turn : Type 0 where
  quits : Ending → Turn
  gives_up : Err → Ending → Turn
  breaks_off : Err → Pause → Ending → Turn
  goes_on : Err → Pause → ℤ → Turn

abbrev pub ended : Ending → Run
ended e = record { failures = []; pauses = []; ending = e }

abbrev add_failure : Err → Run → Run
add_failure e r = record r { failures = e ∷ r.failures }

abbrev add_pause : Pause → Run → Run
add_pause p r = record r { pauses = p ∷ r.pauses }

-- `wait.Wait`: how it ends, `none` for the nil backoff of a kind that has none.
unfoldable wait_for : Mode → Option Err → Option (Option Err)
wait_for m waiting = elim m.backoff [ any_backoff ↦ none | _ ↦ some waiting ]

-- The run that begins with a turn, by the run of the turns that follow.
unfoldable pub after_turn : (ℕ → ℤ → Run) → Turn → Run
after_turn rest (quits x) = ended x
after_turn rest (gives_up e x) = add_failure e (ended x)
after_turn rest (breaks_off e p x) = add_failure e (add_pause p (ended x))
after_turn rest (goes_on e p code) = add_failure e (add_pause p (rest p.index code))

-- Two codes, as numbers.
unfoldable pub same_code : ℤ → ℤ → Bool
same_code a b = pos_part a == pos_part b && neg_part a == neg_part b

-- `if m.StatusCode() != code { i = 0 }`
unfoldable pub next_index : ℤ → Mode → ℕ → ℕ
unfolding same_code
next_index last m i = if same_code m.code last then i else 0

-- `from_error` is `grpcStatus.FromError` of the grpc library, which `WithStackTrace` calls.
module _ (n : Numbers) (from_error : Err → Option GrpcCode) (o : RetryOptions) where
  -- The errors that the loop makes: a text of its own, a text that wraps an error (`%w`), and a text
  -- joined with the context's error and the operation's.
  abbrev text_error : Err
  text_error = plain 0

  unfoldable wrapping_error : Err → Err
  unfolding with_stack_trace
  wrapping_error e = with_stack_trace from_error (formatted e)

  unfoldable context_error : Err → Err → Err
  unfolding with_stack_trace
  context_error c e =
      with_stack_trace from_error
        (joined (more_errs text_error (more_errs c (more_errs e no_errs))))

  -- The call with its deferred `recover`: `none` where the panic goes on.
  unfoldable pub called : Outcome → Option (Option Err)
  unfolding with_stack_trace
  called (returned e) = some e
  called panicked =
      if o.recovers then some (some (with_stack_trace from_error text_error)) else none

  -- One turn of the loop, with its variables `i` and `code`.
  unfoldable pub turn : Round → ℕ → ℤ → Turn
  unfolding called wait_for next_index must_retry wrapping_error context_error
  turn r i last = elim r.ctx_before [
    | some e ↦ quits (finished (some (wrapping_error e)))
    | none ↦ elim (called r.outcome) [
      | none ↦ quits crashed
      | some none ↦ quits (finished none)
      | some (some e) ↦ elim r.ctx_after [
        | some c ↦ gives_up e (finished (some (context_error c e)))
        | none ↦
            let m = check n (some e) in
            let pause : Pause = record { kind = m.backoff; index = next_index last m (i + 1) } in
            if must_retry m o.idempotent
            then elim (wait_for m r.ctx_waiting) [
              | none ↦ breaks_off e pause crashed
              | some (some w) ↦ breaks_off e pause (finished (some (context_error w e)))
              | some none ↦ goes_on e pause m.code
            ]
            else gives_up e (finished (some (wrapping_error e)))
      ]
    ]
  ]

  unfoldable pub retry_loop : List Round → ℕ → ℤ → Run
  unfolding turn after_turn
  retry_loop [] i last = ended unfinished
  retry_loop (r ∷ rs) i last = after_turn (retry_loop rs) (turn r i last)

  -- `Retry`
  unfoldable pub retry : List Round → Run
  unfolding retry_loop
  retry rounds = retry_loop rounds 0 (pos 0)
