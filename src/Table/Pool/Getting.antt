-- ===== src/Table/Pool/Getting.antt =====
-- The loop of `internalPoolGet`, over what each attempt meets, and `isCreateSessionErrorRetriable` of
-- internal/table/errors.go.
use mathlib.Core.Path.{subst}
use ydb_go_sdk.Base.{
  Bool, Bool-cases, Option, Result, [], ap, arith, err, false, if◌then◌else◌, inl, inr, none, ok,
  panic, refl, some, suc, true, zero, ℕ, ◌<◌, ◌||◌, ◌↔◌, ◌∙◌, ◌∷◌, ◌≡◌, ◌≤◌, ◌⊎◌,
}
use ydb_go_sdk.Xerrors.{
  Err, GrpcCode, grpc_deadline_exceeded, grpc_resource_exhausted, grpc_unavailable,
  is_operation_error, is_transport_error, overloaded,
}
use ydb_go_sdk.Table.Pool.{PoolError, closed_client, no_progress, pool_overflow}

-- The errors of a creation: the pool's own, and those of the service.
pub data CreateError : Type 0 where
  of_pool : PoolError → CreateError
  of_service : Err → CreateError

-- `from_error` is `grpcStatus.FromError` of the grpc library.
unfoldable pub is_create_session_error_retriable : (Err → Option GrpcCode) → CreateError → Bool
is_create_session_error_retriable from_error (of_pool pool_overflow) = true
is_create_session_error_retriable from_error (of_pool _) = false
is_create_session_error_retriable from_error (of_service e) =
    is_operation_error e (overloaded ∷ [])
    || is_transport_error from_error (some e)
        (grpc_resource_exhausted ∷ grpc_deadline_exceeded ∷ grpc_unavailable ∷ [])

-- How `internalPoolCreateSession` and `internalPoolWaitFromCh` end.
pub data Created : Type 0 where
  session : ℕ → Created
  failed : CreateError → Created
  -- both results are nil, with the context's error
  neither : Option CreateError → Created

pub data Waited : Type 0 where
  received : ℕ → Waited
  woken : Waited
  broke_off : CreateError → Waited

-- One attempt: whether the client is closed when it begins, the idle session with whether its node
-- is known, the creation, and the wait.
pub record Attempt : Type 0 where
  pub is_closed : Bool
  pub idle : Option (ℕ × Bool)
  pub created : Created
  pub waited : Waited

abbrev max_attempts : ℕ
max_attempts = 100

pub data Verdict : Type 0 where
  returns : Result CreateError ℕ → Verdict
  again : Verdict

module _ (from_error : Err → Option GrpcCode) where
  abbrev wait_verdict : Waited → Verdict
  wait_verdict (received s) = returns (ok s)
  wait_verdict woken = again
  wait_verdict (broke_off e) = returns (err e)

  abbrev create_verdict : Created → Waited → Verdict
  create_verdict (session s) w = returns (ok s)
  create_verdict (neither (some e)) w = returns (err e)
  create_verdict (neither none) w = returns panic
  create_verdict (failed e) w =
      if is_create_session_error_retriable from_error e then wait_verdict w else returns (err e)

  abbrev verdict : Option (ℕ × Bool) → Created → Waited → Verdict
  verdict none c w = create_verdict c w
  verdict (some (s, has_node)) c w = if has_node then returns (ok s) else again

  -- One turn of the loop.
  unfoldable pub attempt : Attempt → Verdict
  unfolding is_create_session_error_retriable
  attempt a = verdict a.idle a.created a.waited

  abbrev turned : Verdict → Result CreateError ℕ → Result CreateError ℕ
  turned (returns r) rest = r
  turned again rest = rest

  -- The loop with `left` attempts to go, and what follows it.
  unfoldable get_loop : (ℕ → Attempt) → ℕ → Result CreateError ℕ
  unfolding attempt
  get_loop env zero =
      if (env 0).is_closed then err (of_pool closed_client) else err (of_pool no_progress)
  get_loop env (suc left) =
      let rest = get_loop (λ k. env (suc k)) left in
      if (env 0).is_closed then err (of_pool closed_client) else turned (attempt (env 0)) rest

  -- `internalPoolGet`
  unfoldable pub get : (ℕ → Attempt) → Result CreateError ℕ
  unfolding get_loop
  get env = get_loop env max_attempts

  -- The attempt offers the session: it is idle with a node that is known, or created, or received
  -- after a creation that may be tried again.
  abbrev Offers : Attempt → ℕ → Type 0
  Offers a s =
      (a.idle ≡ some (s, true))
      ⊎ ((a.idle ≡ none) × (a.created ≡ session s))
      ⊎ ((e : CreateError) × (a.idle ≡ none)
          × (a.created ≡ failed e)
          × (is_create_session_error_retriable from_error e ≡ true)
          × (a.waited ≡ received s))

  wait-received : (z : Waited) (s : ℕ) → wait_verdict z ≡ returns (ok s) → z ≡ received s
  wait-received (received t) s e = ground arith
  wait-received woken s e = absurd (ground arith)
  wait-received (broke_off x) s e = absurd (ground arith)

  Offers-attempt : (a : Attempt) (s : ℕ) → Offers a s → attempt a ≡ returns (ok s)
  unfolding attempt
  Offers-attempt a s (inl p) = ground arith
  Offers-attempt a s (inr (inl (p, q))) = ground arith
  Offers-attempt a s (inr (inr (x, p, q, t, r))) = rw (attempt, p, q, t, r) refl

  verdict-Offers :
      (a : Attempt) (s : ℕ) (x : Option (ℕ × Bool)) (y : Created) (z : Waited)
      → a.idle ≡ x
      → a.created ≡ y
      → a.waited ≡ z
      → verdict x y z ≡ returns (ok s)
      → Offers a s
  verdict-Offers a s (some (t, true)) y z p q r e = inl (ground arith)
  verdict-Offers a s (some (t, false)) y z p q r e = absurd (ground arith)
  verdict-Offers a s none (session t) z p q r e = inr (inl (p, ground arith))
  verdict-Offers a s none (neither (some x)) z p q r e = absurd (ground arith)
  verdict-Offers a s none (neither none) z p q r e = absurd (ground arith)
  verdict-Offers a s none (failed x) z p q r e =
      elim (Bool-cases (is_create_session_error_retriable from_error x)) [
        | inl t ↦ inr (inr (x, p, q, t, r ∙ wait-received z s (ground (arith, e, t))))
        | inr t ↦ absurd (ground (arith, e, t))
      ]

  -- The attempt has nothing to return: it took an idle session whose node is not known, or its
  -- creation failed with an error that lets the caller wait, and the wait ended with nothing.
  abbrev IsRepeated : Attempt → Type 0
  IsRepeated a =
      ((s : ℕ) × (a.idle ≡ some (s, false)))
      ⊎ ((e : CreateError) × (a.idle ≡ none)
          × (a.created ≡ failed e)
          × (is_create_session_error_retriable from_error e ≡ true)
          × (a.waited ≡ woken))

  IsRepeated-attempt : (a : Attempt) → IsRepeated a → attempt a ≡ again
  unfolding attempt
  IsRepeated-attempt a (inl (s, p)) = ground arith
  IsRepeated-attempt a (inr (x, p, q, t, r)) = rw (attempt, p, q, t, r) refl

  wait-woken : (z : Waited) → wait_verdict z ≡ again → z ≡ woken
  wait-woken (received t) e = absurd (ground arith)
  wait-woken woken e = refl
  wait-woken (broke_off x) e = absurd (ground arith)

  verdict-IsRepeated :
      (a : Attempt) (x : Option (ℕ × Bool)) (y : Created) (z : Waited)
      → a.idle ≡ x
      → a.created ≡ y
      → a.waited ≡ z
      → verdict x y z ≡ again
      → IsRepeated a
  verdict-IsRepeated a (some (t, true)) y z p q r e = absurd (ground arith)
  verdict-IsRepeated a (some (t, false)) y z p q r e = inl (t, p)
  verdict-IsRepeated a none (session t) z p q r e = absurd (ground arith)
  verdict-IsRepeated a none (neither (some x)) z p q r e = absurd (ground arith)
  verdict-IsRepeated a none (neither none) z p q r e = absurd (ground arith)
  verdict-IsRepeated a none (failed x) z p q r e =
      elim (Bool-cases (is_create_session_error_retriable from_error x)) [
        | inl t ↦ inr (x, p, q, t, r ∙ wait-woken z (ground (arith, e, t)))
        | inr t ↦ absurd (ground (arith, e, t))
      ]

  -- An attempt offers the session while the client is open, and those before it had nothing to return.
  abbrev pub FirstOffer : (ℕ → Attempt) → ℕ → ℕ → Type 0
  FirstOffer env left s =
      (k : ℕ) × (k < left)
      × Offers (env k) s
      × ((j : ℕ) → j ≤ k → (env j).is_closed ≡ false)
      × ((j : ℕ) → j < k → IsRepeated (env j))

  shift : (P : ℕ → Type 0) → P 0 → ((j : ℕ) → P (suc j)) → (j : ℕ) → P j
  shift P p f zero = p
  shift P p f (suc j) = f j

  get_loop-FirstOffer :
      (env : ℕ → Attempt) (left s : ℕ) → get_loop env left ≡ ok s → FirstOffer env left s
  unfolding get_loop
  get_loop-FirstOffer env zero s e = absurd (ground arith)
  get_loop-FirstOffer env (suc left) s e = elim (Bool-cases (env 0).is_closed) [
    | inl c ↦ absurd (ground (arith, e, c))
    | inr c ↦ go c (get_loop-FirstOffer (λ j. env (suc j)) left s) (attempt (env 0)) refl
  ]
    where
      go :
          (env 0).is_closed ≡ false
          → (get_loop (λ j. env (suc j)) left ≡ ok s → FirstOffer (λ j. env (suc j)) left s)
          → (v : Verdict) → attempt (env 0) ≡ v
          → FirstOffer env (suc left) s
      go c rec (returns r) h =
          let same : r ≡ ok s = ground (arith, e, c, h) in
          (
            0,
            omega arith,
            verdict-Offers (env 0) s (env 0).idle (env 0).created (env 0).waited refl refl refl
                (h ∙ ap returns same),
            (λ j l. subst (λ i. (env i).is_closed ≡ false) (omega arith) c),
            (λ j l. absurd (omega arith)),
          )
      go c rec again h =
          let f : get_loop (λ j. env (suc j)) left ≡ ok s = ground (arith, e, c, h) in
          let (k, l, offer, open_, before) = rec f in
          (
            suc k,
            omega arith,
            offer,
            shift (λ j. j ≤ suc k → (env j).is_closed ≡ false) (λ _. c)
                (λ j m. open_ j (omega arith)),
            shift (λ j. j < suc k → IsRepeated (env j))
                (λ _.
                  verdict-IsRepeated (env 0) (env 0).idle (env 0).created (env 0).waited refl refl
                    refl h)
                (λ j m. before j (omega arith)),
          )

  FirstOffer-get_loop :
      (env : ℕ → Attempt) (left s : ℕ) → FirstOffer env left s → get_loop env left ≡ ok s
  unfolding get_loop
  FirstOffer-get_loop env zero s (k, l, _, _, _) = absurd (omega arith)
  FirstOffer-get_loop env (suc left) s (zero, l, offer, open_, before) =
      ground (arith, open_ 0 (omega arith), Offers-attempt (env 0) s offer)
  FirstOffer-get_loop env (suc left) s (suc k, l, offer, open_, before) =
      let rest =
        FirstOffer-get_loop (λ j. env (suc j)) left s
          (
            k,
            omega arith,
            offer,
            (λ j h. open_ (suc j) (omega arith)),
            (λ j h. before (suc j) (omega arith)),
          ) in
      ground
        (arith, open_ 0 (omega arith), IsRepeated-attempt (env 0) (before 0 (omega arith)), rest)

  -- Getting a session succeeds exactly if within the first hundred attempts, all while the client is
  -- open, one offers it and those before it had nothing to return. An attempt offers an idle session
  -- whose node is known, or a new one, or one received after a creation whose error lets the caller
  -- wait; it has nothing to return if the idle session has no known node, or if after such an error
  -- the wait ended with no session and no error.
  pub get-FirstOffer :
      (env : ℕ → Attempt) (s : ℕ) → (get env ≡ ok s) ↔ FirstOffer env max_attempts s
  unfolding get
  get-FirstOffer env s =
      (get_loop-FirstOffer env max_attempts s, FirstOffer-get_loop env max_attempts s)
