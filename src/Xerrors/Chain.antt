-- ===== src/Xerrors/Chain.antt =====
-- The kinds of errors (internal/xerrors: operation.go, transport.go, retryable.go, ydb.go,
-- stacktrace.go, issues.go, join.go) and the walk of `errors.As` over wrapped errors. Texts,
-- addresses and trace ids, which no decision reads, are left out.
use ydb_go_sdk.Base.{Bool, Option, none, some, ℕ}
use ydb_go_sdk.Base.Int.{ℤ}
use ydb_go_sdk.Xerrors.Codes.{BackoffType, GrpcCode, StatusCode}

mutual
  -- `Ydb_Issue.IssueMessage`: its code and its nested issues.
  pub data Issue : Type 0 where
    issue : ℕ → Issues → Issue

  pub data Issues : Type 0 where
    no_issues : Issues
    more_issues : Issue → Issues → Issues

-- The fields of `retryableError`, less its text.
pub record RetryMarks : Type 0 where
  pub marked_code : ℤ
  pub marked_backoff : BackoffType
  pub marked_delete : Bool

mutual
  pub data Err : Type 0 where
    -- `operationError`
    operation : StatusCode → Issues → Err
    -- `transportError`
    transport : GrpcCode → Err → Err
    -- `retryableError`
    retryable : RetryMarks → Err → Err
    -- `ydbError`
    ydb_error : Err → Err
    -- `stackError`, and `stackTransportError` where there is a grpc status
    stack_error : Option GrpcCode → Err → Err
    -- `fmt.Errorf` with `%w`
    formatted : Err → Err
    -- `errorWithIssues`
    with_issues : Errs → Err
    -- `joinError`
    joined : Errs → Err
    -- an error of the grpc library that carries a status
    grpc_error : GrpcCode → Err
    context_canceled context_deadline_exceeded eof : Err
    -- any other error that wraps nothing
    plain : ℕ → Err

  pub data Errs : Type 0 where
    no_errs : Errs
    more_errs : Err → Errs → Errs

abbrev pub or_else {ℓ} : {A : Type ℓ} → Option A → Option A → Option A
or_else (some a) o = some a
or_else none o = o

-- `errors.As`: the first error of the chain that is a target, each error before those it wraps.
-- The methods `As` of `errorWithIssues` and `joinError` go through their errors in order.
module _ {ℓ} {A : Type ℓ} (target : Err → Option A) where
  unfoldable mutual
    pub find_as : Err → Option A
    find_as (operation c i) = target (operation c i)
    find_as (transport c e) = or_else (target (transport c e)) (find_as e)
    find_as (retryable m e) = or_else (target (retryable m e)) (find_as e)
    find_as (ydb_error e) = or_else (target (ydb_error e)) (find_as e)
    find_as (stack_error s e) = or_else (target (stack_error s e)) (find_as e)
    find_as (formatted e) = or_else (target (formatted e)) (find_as e)
    find_as (with_issues es) = or_else (target (with_issues es)) (find_as_any es)
    find_as (joined es) = or_else (target (joined es)) (find_as_any es)
    find_as (grpc_error c) = target (grpc_error c)
    find_as context_canceled = target context_canceled
    find_as context_deadline_exceeded = target context_deadline_exceeded
    find_as eof = target eof
    find_as (plain n) = target (plain n)

    pub find_as_any : Errs → Option A
    find_as_any no_errs = none
    find_as_any (more_errs e es) = or_else (find_as e) (find_as_any es)
