-- ===== src/Retry/Rounds.antt =====
-- What a run of `Retry` does in each turn.
use ydb_go_sdk.Base.{
  All, List, Option, [], ap, arith, get_elem?, length, none, refl, some, suc, true, ℕ, ◌++◌, ◌+◌,
  ◌↔◌, ◌∷◌, ◌≡◌, ◌≢◌, ◌⊎◌,
}
use ydb_go_sdk.Base.Int.{pos, ℤ}
use ydb_go_sdk.Xerrors.{
  Err, GrpcCode, Numbers, any_backoff, check, conditionally_retryable, retryable_type,
}
use ydb_go_sdk.Retry.Loop.{
  Pause, RetryOptions, Round, Run, Turn, after_turn, breaks_off, called, finished, gives_up,
  goes_on, must_retry, next_index, quits, retry, retry_loop, turn, unfinished,
}

-- Every element but the last satisfies `P`.
abbrev pub AllButLast {ℓ κ} : {A : Type ℓ} → (A → Type κ) → List A → Type κ
AllButLast P [] = Unit
AllButLast P (x ∷ []) = Unit
AllButLast P (x ∷ y ∷ zs) = P x × AllButLast P (y ∷ zs)

cons-AllButLast {ℓ κ} :
    {A : Type ℓ} (P : A → Type κ) (x : A) (xs : List A)
    → P x
    → AllButLast P xs
    → AllButLast P (x ∷ xs)
cons-AllButLast P x [] p ps = tt
cons-AllButLast P x (y ∷ ys) p ps = (p, ps)

module _ (n : Numbers) (from_error : Err → Option GrpcCode) (o : RetryOptions) where
  -- The errors after which the operation may be called again: those that are retryable, and for an
  -- idempotent operation also those that are conditionally so.
  abbrev pub MustRetry : Err → Type 0
  MustRetry e =
      ((check n (some e)).err_type ≡ retryable_type)
      ⊎ (((check n (some e)).err_type ≡ conditionally_retryable) × (o.idempotent ≡ true))

  must_retry-MustRetry :
      (e : Err) → (must_retry (check n (some e)) o.idempotent ≡ true) ↔ MustRetry e
  unfolding must_retry
  must_retry-MustRetry e = (λ h. ground arith, λ h. ground arith)

  -- The operation was called in the round, with the context not done, and ended so.
  abbrev Called : Round → Option Err → Type 0
  Called r e = (r.ctx_before ≡ none) × (called n from_error o r.outcome ≡ some e)

  -- What is known of a turn.
  abbrev Turned : Round → Turn → Type 0
  Turned r (quits x) = (x ≢ unfinished) × (x ≡ finished none → Called r none)
  Turned r (gives_up e x) = Called r (some e) × (x ≢ unfinished) × (x ≢ finished none)
  Turned r (breaks_off e p x) = Called r (some e) × (x ≢ unfinished) × (x ≢ finished none)
  Turned r (goes_on e p c) = Called r (some e) × MustRetry e

  turn-Turned : (r : Round) (i : ℕ) (last : ℤ) → Turned r (turn n from_error o r i last)
  unfolding turn must_retry
  turn-Turned r i last = ground arith

  -- The k-th failure is what the call of round k returned.
  abbrev pub CalledInTurn : List Err → List Round → Type 0
  CalledInTurn [] rs = Unit
  CalledInTurn (e ∷ es) [] = ⊥
  CalledInTurn (e ∷ es) (r ∷ rs) = Called r (some e) × CalledInTurn es rs

  -- The round after the failures made the call that returned no error.
  abbrev pub SucceededAt : ℕ → List Round → Type 0
  SucceededAt k rs = (r : Round) × (get_elem? rs k ≡ some r) × Called r none

  record Explains (rs : List Round) (r : Run) : Type 0 where
    in_turn : CalledInTurn r.failures rs
    retried : AllButLast MustRetry r.failures
    on_success :
        r.ending ≡ finished none → All MustRetry r.failures × SucceededAt (length r.failures) rs
    on_unfinished :
        r.ending ≡ unfinished → All MustRetry r.failures × (length r.failures ≡ length rs)

  after_turn-Explains :
      (r : Round) (rs : List Round) (rest : ℕ → ℤ → Run)
      → ((i : ℕ) (c : ℤ) → Explains rs (rest i c))
      → (t : Turn) → Turned r t
      → Explains (r ∷ rs) (after_turn rest t)
  unfolding after_turn
  after_turn-Explains r rs rest go (quits x) (live, done) = record {
    in_turn = tt;
    retried = tt;
    on_success = λ e. (tt, (r, refl, done e));
    on_unfinished = λ e. absurd (live e);
  }
  after_turn-Explains r rs rest go (gives_up e x) (c, live, bad) = record {
    in_turn = (c, tt);
    retried = tt;
    on_success = λ h. absurd (bad h);
    on_unfinished = λ h. absurd (live h);
  }
  after_turn-Explains r rs rest go (breaks_off e p x) (c, live, bad) = record {
    in_turn = (c, tt);
    retried = tt;
    on_success = λ h. absurd (bad h);
    on_unfinished = λ h. absurd (live h);
  }
  after_turn-Explains r rs rest go (goes_on e p code) (c, m) =
      let g = go p.index code in
      record {
        in_turn = (c, g.in_turn);
        retried = cons-AllButLast MustRetry e _ m g.retried;
        on_success = λ h. let (all, s) = g.on_success h in ((m, all), s);
        on_unfinished = λ h. let (all, k) = g.on_unfinished h in ((m, all), ap suc k);
      }

  retry_loop-Explains :
      (rs : List Round) (i : ℕ) (last : ℤ) → Explains rs (retry_loop n from_error o rs i last)
  unfolding retry_loop
  retry_loop-Explains [] i last = record {
    in_turn = tt;
    retried = tt;
    on_success = λ h. cc;
    on_unfinished = λ h. (tt, refl);
  }
  retry_loop-Explains (r ∷ rs) i last =
      after_turn-Explains r rs (retry_loop n from_error o rs) (retry_loop-Explains rs)
        (turn n from_error o r i last) (turn-Turned r i last)

  -- The operation is called once a round, never with its context done, and is called again only
  -- after an error that must be retried.
  pub retry-calls :
      (rounds : List Round)
      → let r = retry n from_error o rounds in
        CalledInTurn r.failures rounds × AllButLast MustRetry r.failures
  unfolding retry
  retry-calls rounds = let x = retry_loop-Explains rounds 0 (pos 0) in (x.in_turn, x.retried)

  -- `Retry` returns nil only if the call in the round after the failures returned nil, and every
  -- failure before it was one that must be retried.
  retry-success :
      (rounds : List Round)
      → let r = retry n from_error o rounds in
        r.ending ≡ finished none → All MustRetry r.failures × SucceededAt (length r.failures) rounds
  unfolding retry
  retry-success rounds h = (retry_loop-Explains rounds 0 (pos 0)).on_success h

  -- The loop is still running only if every round so far failed with an error that must be retried.
  retry-unfinished :
      (rounds : List Round)
      → let r = retry n from_error o rounds in
        r.ending ≡ unfinished → All MustRetry r.failures × (length r.failures ≡ length rounds)
  unfolding retry
  retry-unfinished rounds h = (retry_loop-Explains rounds 0 (pos 0)).on_unfinished h

  -- A round that a retry outlives: the context is live throughout, and the call's error must be
  -- retried, after a backoff of a kind that there is.
  pub record Survives (r : Round) : Type 0 where
    pub error : Err
    pub fails : Called r (some error)
    pub live : (r.ctx_after ≡ none) × (r.ctx_waiting ≡ none)
    pub retries : MustRetry error
    pub waits : (check n (some error)).backoff ≢ any_backoff

  turn-Survives :
      (r : Round) (i : ℕ) (last : ℤ)
      → Survives r
      → (e : Err) × (p : Pause) × (c : ℤ) × (turn n from_error o r i last ≡ goes_on e p c)
  unfolding turn
  turn-Survives r i last s =
      let m = check n (some s.error) in
      (
        s.error,
        record { kind = m.backoff; index = next_index last m (i + 1) },
        m.code,
        ground (arith, must_retry-MustRetry s.error),
      )

  retry_loop-recovers :
      (before : List Round) (r : Round) (after : List Round) (i : ℕ) (last : ℤ)
      → All Survives before
      → Called r none
      → (retry_loop n from_error o (before ++ r ∷ after) i last).ending ≡ finished none
  unfolding retry_loop after_turn turn
  retry_loop-recovers [] r after i last s c = ground arith
  retry_loop-recovers (b ∷ before) r after i last (s, ss) c =
      let (e, p, code, q) = turn-Survives b i last s in
      rw q (retry_loop-recovers before r after p.index code ss c)

  -- `Retry` does succeed: when every round before survives and then a call returns nil.
  pub retry-recovers :
      (before : List Round) (r : Round) (after : List Round)
      → All Survives before
      → Called r none
      → (retry n from_error o (before ++ r ∷ after)).ending ≡ finished none
  unfolding retry
  retry-recovers before r after s c = retry_loop-recovers before r after 0 (pos 0) s c
