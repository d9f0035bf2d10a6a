-- ===== src/Xerrors/Codes.antt =====
-- internal/xerrors/type.go, internal/backoff/type.go and the tables by status code of
-- internal/xerrors/operation.go and internal/xerrors/transport.go. The status codes themselves are
-- enumerations of the generated YDB protocol and of grpc; the numbers behind them are a parameter.
use ydb_go_sdk.Base.{Bool, false, true, ℕ, ◌+◌, ◌==◌}

-- `xerrors.Type`
pub data ErrorType : Type 0 where
  undefined no_error non_retryable conditionally_retryable retryable_type : ErrorType

-- `backoff.Type`
pub data BackoffType : Type 0 where
  no_backoff fast slow any_backoff : BackoffType

-- The members of `Ydb.StatusIds_StatusCode` that the source tells apart, and all others.
pub data StatusCode : Type 0 where
  status_unspecified aborted unavailable overloaded bad_session session_busy session_expired :
      StatusCode
  cancelled timeout undetermined : StatusCode
  other_status : ℕ → StatusCode

-- The members of `grpcCodes.Code` that the source tells apart, and all others.
pub data GrpcCode : Type 0 where
  grpc_ok grpc_canceled grpc_unknown grpc_deadline_exceeded grpc_resource_exhausted : GrpcCode
  grpc_aborted grpc_out_of_range grpc_internal grpc_unavailable : GrpcCode
  other_grpc : ℕ → GrpcCode

-- `(*operationError).Type`
unfoldable pub operation_type : StatusCode → ErrorType
operation_type aborted = retryable_type
operation_type unavailable = retryable_type
operation_type overloaded = retryable_type
operation_type bad_session = retryable_type
operation_type session_busy = retryable_type
operation_type undetermined = conditionally_retryable
operation_type _ = undefined

-- `(*operationError).BackoffType`
unfoldable pub operation_backoff : StatusCode → BackoffType
operation_backoff overloaded = slow
operation_backoff aborted = fast
operation_backoff unavailable = fast
operation_backoff cancelled = fast
operation_backoff session_busy = fast
operation_backoff undetermined = fast
operation_backoff _ = no_backoff

-- `(*operationError).MustDeleteSession`
unfoldable pub operation_deletes_session : StatusCode → Bool
operation_deletes_session bad_session = true
operation_deletes_session session_expired = true
operation_deletes_session session_busy = true
operation_deletes_session _ = false

-- `(*transportError).Type`
unfoldable pub transport_type : GrpcCode → ErrorType
transport_type grpc_aborted = retryable_type
transport_type grpc_resource_exhausted = retryable_type
transport_type grpc_internal = conditionally_retryable
transport_type grpc_canceled = conditionally_retryable
transport_type grpc_deadline_exceeded = conditionally_retryable
transport_type grpc_unavailable = conditionally_retryable
transport_type _ = undefined

-- `(*transportError).BackoffType`
unfoldable pub transport_backoff : GrpcCode → BackoffType
transport_backoff grpc_internal = fast
transport_backoff grpc_canceled = fast
transport_backoff grpc_deadline_exceeded = fast
transport_backoff grpc_unavailable = fast
transport_backoff grpc_resource_exhausted = slow
transport_backoff _ = no_backoff

-- `(*transportError).MustDeleteSession`
unfoldable pub transport_deletes_session : GrpcCode → Bool
transport_deletes_session grpc_resource_exhausted = false
transport_deletes_session grpc_out_of_range = false
transport_deletes_session _ = true

-- Equality of codes.
abbrev pub status_tag : StatusCode → ℕ
status_tag status_unspecified = 0
status_tag aborted = 1
status_tag unavailable = 2
status_tag overloaded = 3
status_tag bad_session = 4
status_tag session_busy = 5
status_tag session_expired = 6
status_tag cancelled = 7
status_tag timeout = 8
status_tag undetermined = 9
status_tag (other_status n) = n + 10

abbrev pub same_status : StatusCode → StatusCode → Bool
same_status a b = status_tag a == status_tag b

abbrev pub grpc_tag : GrpcCode → ℕ
grpc_tag grpc_ok = 0
grpc_tag grpc_canceled = 1
grpc_tag grpc_unknown = 2
grpc_tag grpc_deadline_exceeded = 3
grpc_tag grpc_resource_exhausted = 4
grpc_tag grpc_aborted = 5
grpc_tag grpc_out_of_range = 6
grpc_tag grpc_internal = 7
grpc_tag grpc_unavailable = 8
grpc_tag (other_grpc n) = n + 9

abbrev pub same_grpc : GrpcCode → GrpcCode → Bool
same_grpc a b = grpc_tag a == grpc_tag b
