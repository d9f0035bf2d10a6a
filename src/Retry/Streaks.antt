-- ===== src/Retry/Streaks.antt =====
-- The index of a backoff against a description by the history of the error codes.
use ydb_go_sdk.Base.{
  List, Option, [], arith, if◌then◌else◌, length, map, refl, some, take, true, ℕ, ◌+◌, ◌∷◌, ◌≡◌,
}
use ydb_go_sdk.Base.Int.{pos, ℤ}
use ydb_go_sdk.Xerrors.{Err, GrpcCode, Mode, Numbers, check}
use ydb_go_sdk.Retry.Loop.{
  RetryOptions, Round, Run, Turn, after_turn, breaks_off, gives_up, goes_on, next_index, quits,
  retry, retry_loop, same_code, turn,
}

-- How many of the latest codes, newest first, are this one.
unfoldable pub streak : ℤ → List ℤ → ℕ
unfolding same_code
streak c [] = 0
streak c (d ∷ ds) = if same_code c d then streak c ds + 1 else 0

-- For each code the streak that it continues.
unfoldable pub streaks : List ℤ → List ℤ → List ℕ
streaks past [] = []
streaks past (c ∷ cs) = streak c past ∷ streaks (c ∷ past) cs

same_code_refl : (c : ℤ) → same_code c c ≡ true
unfolding same_code
same_code_refl c = ground arith

same_code-eq : (c d : ℤ) → same_code c d ≡ true → c ≡ d
unfolding same_code
same_code-eq c d h = ground arith

abbrev pub codes_of : Numbers → List Err → List ℤ
codes_of n = map λ e. (check n (some e)).code

abbrev pub indices : Run → List ℕ
indices r = map (λ p. p.index) r.pauses

next_index-streak :
    (m : Mode) (last : ℤ) (past : List ℤ) (i : ℕ)
    → streak last (last ∷ past) ≡ i + 1
    → (next_index last m (i + 1) ≡ streak m.code (last ∷ past))
      × (streak m.code (m.code ∷ last ∷ past) ≡ next_index last m (i + 1) + 1)
unfolding next_index streak
next_index-streak m last past i h =
    ground (arith, same_code_refl m.code, same_code_refl last, same_code-eq m.code last)

module _ (n : Numbers) (from_error : Err → Option GrpcCode) (o : RetryOptions) where
  -- What a turn tells of its pause.
  abbrev Paused : ℕ → ℤ → Turn → Type 0
  Paused i last (quits x) = Unit
  Paused i last (gives_up e x) = Unit
  Paused i last (breaks_off e p x) = p.index ≡ next_index last (check n (some e)) (i + 1)
  Paused i last (goes_on e p c) =
      (p.index ≡ next_index last (check n (some e)) (i + 1)) × (c ≡ (check n (some e)).code)

  turn-Paused : (r : Round) (i : ℕ) (last : ℤ) → Paused i last (turn n from_error o r i last)
  unfolding turn
  turn-Paused r i last = ground arith

  abbrev Counts : List ℤ → Run → Type 0
  Counts past r = indices r ≡ take (length r.pauses) (streaks past (codes_of n r.failures))

  after_turn-Counts :
      (rest : ℕ → ℤ → Run) (i : ℕ) (last : ℤ) (past : List ℤ)
      → streak last (last ∷ past) ≡ i + 1
      → ((j : ℕ) (c : ℤ) → streak c (c ∷ last ∷ past) ≡ j + 1 → Counts (c ∷ last ∷ past) (rest j c))
      → (t : Turn) → Paused i last t
      → Counts (last ∷ past) (after_turn rest t)
  unfolding after_turn streaks
  after_turn-Counts rest i last past h go (quits x) p = refl
  after_turn-Counts rest i last past h go (gives_up e x) p = refl
  after_turn-Counts rest i last past h go (breaks_off e q x) p =
      rw (p, (next_index-streak (check n (some e)) last past i h).0)
  after_turn-Counts rest i last past h go (goes_on e q c) p =
      let s = next_index-streak (check n (some e)) last past i h in
      rw (go q.index c (rw (p.1, p.0) s.1), p.1) (rw (p.0, s.0))

  retry_loop-Counts :
      (rs : List Round) (i : ℕ) (last : ℤ) (past : List ℤ)
      → streak last (last ∷ past) ≡ i + 1
      → Counts (last ∷ past) (retry_loop n from_error o rs i last)
  unfolding retry_loop
  retry_loop-Counts [] i last past h = refl
  retry_loop-Counts (r ∷ rs) i last past h =
      after_turn-Counts (retry_loop n from_error o rs) i last past h
        (λ j c. retry_loop-Counts rs j c (last ∷ past)) (turn n from_error o r i last)
        (turn-Paused r i last)

  -- Each wait of a run has as its index the number of failures just before it with the same code:
  -- the streak that begins anew when the code changes. The variable `code` counts as a first failure
  -- with code 0.
  pub retry-streaks :
      (rounds : List Round)
      → let r = retry n from_error o rounds in
        indices r ≡ take (length r.pauses) (streaks (pos 0 ∷ []) (codes_of n r.failures))
  unfolding retry streak
  retry-streaks rounds =
      retry_loop-Counts rounds 0 (pos 0) [] (ground (arith, same_code_refl (pos 0)))
