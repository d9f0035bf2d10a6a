-- ===== src/Xerrors/Laws.antt =====
-- What the classification of errors promises to the code that retries.
use ydb_go_sdk.Base.{
  Bool, List, Option, Option-cases, [], arith, false, inl, inr, is_some, refl, some, true, ℕ, ◌&&◌,
  ◌++◌, ◌==◌, ◌||◌, ◌∷◌, ◌≡◌, ◌≢◌,
}
use ydb_go_sdk.Xerrors.Codes.{
  BackoffType, GrpcCode, StatusCode, aborted, grpc_unknown, no_backoff, retryable_type, same_status,
  undefined,
}
use ydb_go_sdk.Xerrors.Chain.{
  Err, Issue, Issues, find_as, formatted, issue, more_issues, no_issues, operation, stack_error,
  transport, ydb_error,
}
use ydb_go_sdk.Xerrors.Check.{
  Numbers, check, error_target, is_locks_invalidated, iterate, iterate_one, locks_invalidated_code,
  make_retryable, make_transport, must_delete_session, must_pessimize_endpoint, transport_status,
  transport_target, with_backoff, with_delete_session,
}

-- The wrappers of the SDK around one error: `%w`, `Wrap` and `WithStackTrace`, in any order.
pub data Wraps (e : Err) : Err → Type 0 where
  bare : Wraps e e
  in_format : {f : Err} → Wraps e f → Wraps e (formatted f)
  in_ydb : {f : Err} → Wraps e f → Wraps e (ydb_error f)
  in_stack : {f : Err} (s : Option GrpcCode) → Wraps e f → Wraps e (stack_error s f)

find-Wraps :
    (n : Numbers) {e f : Err} → Wraps e f → find_as (error_target n) f ≡ find_as (error_target n) e
unfolding find_as error_target
find-Wraps n bare = refl
find-Wraps n (in_format w) = find-Wraps n w
find-Wraps n (in_ydb w) = find-Wraps n w
find-Wraps n (in_stack s w) = find-Wraps n w

-- A wrapped error is classified as the error inside.
check-Wraps : (n : Numbers) {e f : Err} → Wraps e f → check n (some f) ≡ check n (some e)
unfolding check
check-Wraps n w = rw (check, find-Wraps n w)

-- The error is one that the SDK classifies: by an operation's status, a transport's, or by hand.
pub data IsStatus : Err → Type 0 where
  of_operation : (c : StatusCode) (is : Issues) → IsStatus (operation c is)
  of_transport : (c : GrpcCode) (e : Err) → IsStatus (transport c e)

-- A retry without a backoff is never on the same session: whenever the status of an operation or of
-- a transport makes the SDK retry at once, for idempotent operations or others, it also makes it
-- delete the session.
pub check-no_backoff :
    (n : Numbers) {e : Err}
    → IsStatus e
    → (check n (some e)).err_type ≢ undefined
    → (check n (some e)).backoff ≡ no_backoff
    → must_delete_session n e ≡ true
unfolding check must_delete_session
check-no_backoff n (of_operation c is) t b = ground arith
check-no_backoff n (of_transport c e) t b = ground arith

-- `Retryable` makes any error retryable. Without options it keeps the code, the backoff and the
-- session's fate of the error inside; each option sets its one mark.
check-make_retryable :
    (n : Numbers) (e : Err)
    → let plain_mode = check n (some e) in
      let kept = check n (some (make_retryable n e [])) in
      (kept ≡ record plain_mode { err_type = retryable_type })
      × ((t : BackoffType)
          → check n (some (make_retryable n e (with_backoff t ∷ []))) ≡ record kept { backoff = t })
      × (check n (some (make_retryable n e (with_delete_session ∷ [])))
          ≡ record kept { delete_session = true })
unfolding check make_retryable find_as error_target
check-make_retryable n e = (ground arith, λ t. refl, refl)

module _ (from_error : Err → Option GrpcCode) where
  -- An endpoint is banned for a transport error exactly when the session is deleted for it, if the
  -- caller excepts no codes: the two tables of codes agree.
  pessimize-iff-delete :
      (n : Numbers) (c : GrpcCode) (e : Err)
      → must_pessimize_endpoint from_error (some (transport c e)) []
        ≡ must_delete_session n (transport c e)
  unfolding must_pessimize_endpoint must_delete_session transport_status
  pessimize-iff-delete n c e = ground arith

  -- `Transport` turns every error into one that has a transport error in its chain, and leaves such
  -- an error as it is.
  make_transport-find :
      (e : Err)
      → (f : Err) × (make_transport from_error (some e) ≡ some f)
        × (is_some (find_as transport_target f) ≡ true)
        × (make_transport from_error (some f) ≡ some f)
  unfolding make_transport find_as
  make_transport-find e = elim (Option-cases (find_as transport_target e)) [
    | inl h ↦ elim (Option-cases (from_error e)) [
      | inl g ↦ (transport grpc_unknown e, ground arith, refl, refl)
      | inr (c, g) ↦ (transport c e, ground arith, refl, refl)
    ]
    | inr (c, h) ↦ (e, ground arith, rw h, ground arith)
  ]

-- The codes of a tree of issues, each before those nested in it.
mutual
  pub all_codes : Issues → List ℕ
  all_codes no_issues = []
  all_codes (more_issues i is) = all_codes_one i ++ all_codes is

  all_codes_one : Issue → List ℕ
  all_codes_one (issue c nested) = c ∷ all_codes nested

abbrev pub mentions : ℕ → List ℕ → Bool
mentions k [] = false
mentions k (c ∷ cs) = c == k || mentions k cs

mentions-append :
    (k : ℕ) (xs ys : List ℕ) → mentions k (xs ++ ys) ≡ (mentions k xs || mentions k ys)
mentions-append k [] ys = refl
mentions-append k (x ∷ xs) ys = ground (arith, mentions-append k xs ys)

mutual
  unfolding iterate all_codes

  iterate-mentions :
      (k : ℕ) (is : Issues) (b : Bool)
      → iterate (λ c found. found || c == k) is b ≡ (b || mentions k (all_codes is))
  iterate-mentions k no_issues b = ground arith
  iterate-mentions k (more_issues i is) b = ground (
    arith,
    iterate-mentions k is (iterate_one (λ c found. found || c == k) i b),
    iterate_one-mentions k i b,
    mentions-append k (all_codes_one i) (all_codes is),
  )

  iterate_one-mentions :
      (k : ℕ) (i : Issue) (b : Bool)
      → iterate_one (λ c found. found || c == k) i b ≡ (b || mentions k (all_codes_one i))
  iterate_one-mentions k (issue c nested) b =
      ground (arith, iterate-mentions k nested (b || c == k))

-- Lost locks are reported exactly for an operation that was aborted with an issue of code 2001, at
-- any depth of its issues.
locks_invalidated-mentions :
    (c : StatusCode) (is : Issues)
    → is_locks_invalidated (operation c is)
      ≡ (same_status c aborted && mentions locks_invalidated_code (all_codes is))
unfolding is_locks_invalidated find_as
locks_invalidated-mentions c is = ground (arith, iterate-mentions locks_invalidated_code is false)
