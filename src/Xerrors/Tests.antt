-- ===== src/Xerrors/Tests.antt =====
-- The classification of errors at concrete errors.
use ydb_go_sdk.Base.{Option, arith, none, refl, some, true, ◌≡◌}
use ydb_go_sdk.Base.Int.{pos}
use ydb_go_sdk.Xerrors.Codes.{GrpcCode, bad_session, grpc_tag, session_busy, status_tag}
use ydb_go_sdk.Xerrors.Chain.{
  Err, context_canceled, eof, find_as, grpc_error, joined, more_errs, no_errs, no_issues, operation,
  ydb_error,
}
use ydb_go_sdk.Xerrors.Check.{Numbers, check, error_target, is_timeout_error, must_delete_session}
use ydb_go_sdk.Xerrors.Laws.{check-no_backoff, of_operation}

abbrev numbers : Numbers
numbers = record { status_number = λ c. pos (status_tag c); grpc_number = λ c. pos (grpc_tag c) }

-- A grpc status is found in an error of the grpc library only.
abbrev grpc_only : Err → Option GrpcCode
grpc_only (grpc_error c) = some c
grpc_only _ = none

abbrev busy : Err
busy = operation session_busy no_issues

check-no_backoff_example : must_delete_session numbers (operation bad_session no_issues) ≡ true
check-no_backoff_example =
    check-no_backoff numbers (of_operation bad_session no_issues)
      (unfold check find_as error_target in λ e. ground arith)
      (unfold check find_as error_target in refl)

timeout_of_wrapped :
    is_timeout_error grpc_only
      (ydb_error (joined (more_errs eof (more_errs context_canceled no_errs))))
    ≡ true
unfolding is_timeout_error find_as
timeout_of_wrapped = refl
