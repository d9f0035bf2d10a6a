-- ===== src/Xerrors/Check.antt =====
-- The functions over errors: internal/xerrors/check.go, retryable.go, operation.go, transport.go,
-- issues.go and xerrors.go.
use ydb_go_sdk.Base.{
  Bool, List, Option, [], false, if◌then◌else◌, is_some, none, not, some, true, ℕ, ◌&&◌, ◌++◌, ◌==◌,
  ◌||◌, ◌∷◌,
}
use ydb_go_sdk.Base.Int.{negsuc, ℤ}
use ydb_go_sdk.Xerrors.Codes.{
  BackoffType, ErrorType, GrpcCode, StatusCode, aborted, cancelled, grpc_canceled,
  grpc_deadline_exceeded, grpc_out_of_range, grpc_resource_exhausted, grpc_unknown, no_backoff,
  no_error, non_retryable, operation_backoff, operation_deletes_session, operation_type,
  retryable_type, same_grpc, same_status, timeout, transport_backoff, transport_deletes_session,
  transport_type,
}
use ydb_go_sdk.Xerrors.Chain.{
  Err, Issue, Issues, RetryMarks, context_canceled, context_deadline_exceeded, eof, find_as, issue,
  more_issues, no_issues, operation, or_else, retryable, stack_error, transport,
}

-- What the interface `Error` tells of an error: `Code`, `Type`, `BackoffType` and
-- `MustDeleteSession`. It is the answer of `Check`, too.
pub record Mode : Type 0 where
  pub code : ℤ
  pub err_type : ErrorType
  pub backoff : BackoffType
  pub delete_session : Bool

-- The numbers of the status codes, which the generated protocol and grpc fix.
pub record Numbers : Type 0 where
  pub status_number : StatusCode → ℤ
  pub grpc_number : GrpcCode → ℤ

-- -1, the code of an error that is none of the SDK's.
abbrev no_code : ℤ
no_code = negsuc 0

-- The three types that implement the interface `Error`.
unfoldable pub error_target : Numbers → Err → Option Mode
unfolding operation_type operation_backoff operation_deletes_session transport_type
    transport_backoff transport_deletes_session
error_target n (operation c _) = some (record {
  code = n.status_number c;
  err_type = operation_type c;
  backoff = operation_backoff c;
  delete_session = operation_deletes_session c;
})
error_target n (transport c _) = some (record {
  code = n.grpc_number c;
  err_type = transport_type c;
  backoff = transport_backoff c;
  delete_session = transport_deletes_session c;
})
error_target n (retryable m _) = some (record {
  code = m.marked_code;
  err_type = retryable_type;
  backoff = m.marked_backoff;
  delete_session = m.marked_delete;
})
error_target n _ = none

-- `xerrors.Check`
unfoldable pub check : Numbers → Option Err → Mode
check n none = record {
  code = no_code;
  err_type = no_error;
  backoff = no_backoff;
  delete_session = false;
}
check n (some e) = elim (find_as (error_target n) e) [
  | some m ↦ m
  | none ↦ record {
    code = no_code;
    err_type = non_retryable;
    backoff = no_backoff;
    delete_session = false;
  }
]

-- `xerrors.MustDeleteSession`
unfoldable pub must_delete_session : Numbers → Err → Bool
unfolding error_target find_as
must_delete_session n e = elim (find_as (error_target n) e) [
  | some m ↦ m.delete_session
  | none ↦ false
]

-- `RetryableErrorOption`, and `Retryable`, which takes over the marks of the error inside.
pub data RetryableOption : Type 0 where
  with_backoff : BackoffType → RetryableOption
  with_delete_session : RetryableOption

unfoldable apply_option : RetryableOption → RetryMarks → RetryMarks
apply_option (with_backoff t) m = record m { marked_backoff = t }
apply_option with_delete_session m = record m { marked_delete = true }

unfoldable apply_options : List RetryableOption → RetryMarks → RetryMarks
unfolding apply_option
apply_options [] m = m
apply_options (o ∷ os) m = apply_options os (apply_option o m)

unfoldable inherited_marks : Option Mode → RetryMarks
inherited_marks none = record {
  marked_code = no_code;
  marked_backoff = no_backoff;
  marked_delete = false;
}
inherited_marks (some m) = record {
  marked_code = m.code;
  marked_backoff = m.backoff;
  marked_delete = m.delete_session;
}

unfoldable pub make_retryable : Numbers → Err → List RetryableOption → Err
unfolding apply_options inherited_marks
make_retryable n e os =
    retryable (apply_options os (inherited_marks (find_as (error_target n) e))) e

-- The targets of the other calls of `errors.As` and `errors.Is`.
unfoldable retryable_target : Err → Option RetryMarks
retryable_target (retryable m _) = some m
retryable_target _ = none

unfoldable operation_target : Err → Option (StatusCode × Issues)
operation_target (operation c i) = some (c, i)
operation_target _ = none

unfoldable pub transport_target : Err → Option GrpcCode
transport_target (transport c _) = some c
transport_target _ = none

unfoldable eof_target : Err → Option (Unit {0})
eof_target eof = some tt
eof_target _ = none

unfoldable cancel_target : Err → Option (Unit {0})
cancel_target context_canceled = some tt
cancel_target context_deadline_exceeded = some tt
cancel_target _ = none

-- `len(codes) == 0`, or one of the codes is the error's
abbrev one_of {ℓ} : {A : Type ℓ} → (A → A → Bool) → A → List A → Bool
one_of same c [] = false
one_of same c (d ∷ ds) = same c d || one_of same c ds

abbrev allowed_by {ℓ} : {A : Type ℓ} → (A → A → Bool) → A → List A → Bool
allowed_by same c [] = true
allowed_by same c (d ∷ ds) = one_of same c (d ∷ ds)

-- `xerrors.RetryableError`, less the value: whether it is not nil.
unfoldable is_retryable_error : Err → Bool
unfolding retryable_target
is_retryable_error e = is_some (find_as retryable_target e)

unfoldable pub is_operation_error : Err → List StatusCode → Bool
unfolding operation_target
is_operation_error e codes = elim (find_as operation_target e) [
  | none ↦ false
  | some (c, _) ↦ allowed_by same_status c codes
]

-- `grpcStatus.FromError` of the grpc library is the parameter `from_error`.
module _ (from_error : Err → Option GrpcCode) where
  -- The status that `IsTransportError` finds.
  unfoldable pub transport_status : Err → Option GrpcCode
  unfolding transport_target
  transport_status e = or_else (find_as transport_target e) (from_error e)

  unfoldable pub is_transport_error : Option Err → List GrpcCode → Bool
  unfolding transport_status
  is_transport_error none codes = false
  is_transport_error (some e) codes = elim (transport_status e) [
    | none ↦ false
    | some c ↦ allowed_by same_grpc c codes
  ]

  -- `xerrors.Transport`
  unfoldable pub make_transport : Option Err → Option Err
  unfolding transport_target
  make_transport none = none
  make_transport (some e) = elim (find_as transport_target e) [
    | some _ ↦ some e
    | none ↦ elim (from_error e) [
      | some c ↦ some (transport c e)
      | none ↦ some (transport grpc_unknown e)
    ]
  ]

  unfoldable pub must_pessimize_endpoint : Option Err → List GrpcCode → Bool
  unfolding is_transport_error
  must_pessimize_endpoint none codes = false
  must_pessimize_endpoint (some e) codes =
      is_transport_error (some e) []
      && not
          (is_transport_error (some e) (codes ++ grpc_resource_exhausted ∷ grpc_out_of_range ∷ []))

  unfoldable pub is_timeout_error : Err → Bool
  unfolding is_operation_error is_transport_error cancel_target
  is_timeout_error e =
      is_operation_error e (timeout ∷ cancelled ∷ [])
      || is_transport_error (some e) (grpc_canceled ∷ grpc_deadline_exceeded ∷ [])
      || is_some (find_as cancel_target e)

  -- `xerrors.WithStackTrace`
  unfoldable pub with_stack_trace : Err → Err
  with_stack_trace e = stack_error (from_error e) e

-- `iterate`, as a fold of its callback over a state.
unfoldable mutual
  pub iterate : {A : Type 0} → (ℕ → A → A) → Issues → A → A
  iterate it no_issues a = a
  iterate it (more_issues i is) a = iterate it is (iterate_one it i a)

  pub iterate_one : {A : Type 0} → (ℕ → A → A) → Issue → A → A
  iterate_one it (issue c nested) a = iterate it nested (it c a)

abbrev pub locks_invalidated_code : ℕ
locks_invalidated_code = 2001

-- `IsOperationErrorTransactionLocksInvalidated`
unfoldable pub is_locks_invalidated : Err → Bool
unfolding is_operation_error iterate
is_locks_invalidated e =
    if is_operation_error e (aborted ∷ [])
    then elim (find_as operation_target e) [
      | none ↦ false
      | some (_, is) ↦ iterate (λ c found. found || c == locks_invalidated_code) is false
    ]
    else false
