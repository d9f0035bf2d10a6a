-- ===== src/Bind/Lexer/Fuel.antt =====
-- Each turn of the lexer brings it nearer to its end, so the fuel of `lex` is enough.
use ydb_go_sdk.Base.{
  ==_iff, List, Option-cases, [], ap, arith, false, inl, inr, length, refl, suc, sym, true, zero, ℕ,
  ◌*◌, ◌+◌, ◌<◌, ◌==◌, ◌∙◌, ◌∷◌, ◌≡◌, ◌≢◌, ◌≤◌, ◌⊎◌,
}
use ydb_go_sdk.Bind.Lexer.{
  Dialect, Lexed, Part, SqlLexer, StateFn, Text, Turn, atoi, emit, end_number, finish,
  in_numeric_arg, is_letter, is_number, lex, lex_loop, lexer_panic, multiline_comment, numeric,
  numeric_arg_state, numeric_args_state, one_line_comment, out_of_fuel, panicked, parts, peek,
  positional, positional_args_state, quoted, raw, run_state, rune_error, skip, stopped,
}
use ydb_go_sdk.Bind.Lexer.Moves.{
  IsInText, Move, common_state-Move, ends, if-lem, multiline_comment_state-Move,
  one_line_comment_state-Move, quoted_state-Move, skip-cases, skips, steps,
}

abbrev weight : StateFn → ℕ
weight stopped = 0
weight panicked = 0
weight (in_numeric_arg numbers) = 2
weight raw = 1
weight (quoted q) = 1
weight one_line_comment = 1
weight multiline_comment = 1

abbrev measure : StateFn → SqlLexer → ℕ
measure s l = 2 * length l.rest + weight s

-- A quoted text does not end with the rune that stands for the end.
abbrev IsFine : StateFn → Type 0
IsFine (quoted q) = (q == rune_error) ≡ false
IsFine raw = Unit
IsFine one_line_comment = Unit
IsFine multiline_comment = Unit
IsFine (in_numeric_arg numbers) = Unit
IsFine stopped = Unit
IsFine panicked = Unit

abbrev Falls : StateFn → SqlLexer → Turn → Type 0
Falls s l t = (measure t.state t.lexer < measure s l) × IsFine t.state

skip-length : (l : SqlLexer) → length (skip l).rest ≤ length l.rest
skip-length l = elim (skip-cases l) [
  | inl (e, p) ↦ rw p (omega arith)
  | inr (r, rs, e, p) ↦ rw (p, e) (omega arith)
]

skip_one :
    (l : SqlLexer) → (peek l.rest == rune_error) ≡ false → length (skip l).rest + 1 ≡ length l.rest
unfolding peek
skip_one l h = elim (skip-cases l) [
  | inl (e, p) ↦ absurd (ground (arith, e, h))
  | inr (r, rs, e, p) ↦ rw (p, e) (omega arith)
]

in_text-weight : (s : StateFn) → IsInText s → (weight s ≡ 1) × IsFine s
in_text-weight raw h = (refl, tt)
in_text-weight (quoted q) h = (refl, h)
in_text-weight one_line_comment h = (refl, tt)
in_text-weight multiline_comment h = (refl, tt)
in_text-weight (in_numeric_arg _) h = elim h [ ]
in_text-weight stopped h = elim h [ ]
in_text-weight panicked h = elim h [ ]

Move-Falls : (s : StateFn) (l : SqlLexer) {t : Turn} → weight s ≡ 1 → Move l t → Falls s l t
unfolding finish
Move-Falls s l w (steps s' l' i e p q) =
    let (w', f) = in_text-weight s' i in (omega (arith, w, w', skip_one l e, ap length q), f)
Move-Falls s l w (skips s' l' i e p q) =
    let (w', f) = in_text-weight s' i in
    (omega (arith, w, w', skip_one l e, skip-length (skip l), ap length q), f)
Move-Falls s l w (ends e) = (omega (arith, w, skip-length l), tt)

end_number-Falls :
    (numbers ds : Text) (l l' : SqlLexer)
    → length l'.rest ≤ length l.rest
    → Falls (in_numeric_arg numbers) l (end_number ds l')
end_number-Falls numbers [] l l' h = unfold end_number in (omega arith, tt)
end_number-Falls numbers (d ∷ ds) l l' h = elim (Option-cases (atoi (d ∷ ds))) [
  | inl e ↦ unfold end_number in rw e (omega arith, tt)
  | inr (n, e) ↦ unfold end_number in rw e (omega arith, tt)
]

pub digit-found :
    (l : SqlLexer) → is_number (peek l.rest) ≡ true → (peek l.rest == rune_error) ≡ false
unfolding is_number
digit-found l h = ground (arith, h, ==_iff (peek l.rest) rune_error)

numeric_arg_state-Falls :
    (numbers : Text) (l : SqlLexer) → Falls (in_numeric_arg numbers) l (numeric_arg_state numbers l)
unfolding numeric_arg_state
numeric_arg_state-Falls numbers l =
    let r = peek l.rest in
    if-lem (Falls (in_numeric_arg numbers) l) (is_number r)
      (λ h. (omega (arith, skip_one l (digit-found l h)), tt))
      (λ _.
        if-lem (Falls (in_numeric_arg numbers) l) (is_letter r)
          (λ _. end_number-Falls numbers [] l (skip l) (skip-length l))
          (λ _. end_number-Falls numbers numbers l l (omega arith)))

positional_args_state-Falls : (l : SqlLexer) → Falls raw l (positional_args_state l)
unfolding positional_args_state
positional_args_state-Falls l =
    if-lem (Falls raw l) (peek l.rest == b'?')
      (λ h. (omega (arith, skip_one l (ground (arith, h, ==_iff (peek l.rest) 63))), tt))
      (λ _. Move-Falls raw l refl (common_state-Move l))

numeric_args_state-Falls : (l : SqlLexer) → Falls raw l (numeric_args_state l)
unfolding numeric_args_state
numeric_args_state-Falls l =
    if-lem (Falls raw l) (peek l.rest == b'$')
      (λ h.
        let e = skip_one l (ground (arith, h, ==_iff (peek l.rest) 36)) in
        if-lem (Falls raw l) (is_number (peek (skip l).rest)) (λ _. (omega (arith, e), tt))
          (λ _. (omega (arith, e), tt)))
      (λ _. Move-Falls raw l refl (common_state-Move l))

abbrev pub IsRunning : StateFn → Type 0
IsRunning stopped = ⊥
IsRunning panicked = ⊥
IsRunning raw = Unit
IsRunning (quoted q) = Unit
IsRunning one_line_comment = Unit
IsRunning multiline_comment = Unit
IsRunning (in_numeric_arg numbers) = Unit

run_state-Falls :
    (d : Dialect) (s : StateFn) (l : SqlLexer)
    → IsRunning s
    → IsFine s
    → Falls s l (run_state d s l)
unfolding run_state
run_state-Falls positional raw l h f = positional_args_state-Falls l
run_state-Falls numeric raw l h f = numeric_args_state-Falls l
run_state-Falls d (quoted q) l h f = Move-Falls (quoted q) l refl (quoted_state-Move q l f)
run_state-Falls d one_line_comment l h f =
    Move-Falls one_line_comment l refl (one_line_comment_state-Move l)
run_state-Falls d multiline_comment l h f =
    Move-Falls multiline_comment l refl (multiline_comment_state-Move l)
run_state-Falls d (in_numeric_arg numbers) l h f = numeric_arg_state-Falls numbers l
run_state-Falls d stopped l h f = elim h [ ]
run_state-Falls d panicked l h f = elim h [ ]

pub lex_loop-running :
    (d : Dialect) (fuel : ℕ) (s : StateFn) (l : SqlLexer)
    → IsRunning s
    → lex_loop (suc fuel) d s l
      ≡ emit
          (run_state d s l).emits
          (lex_loop fuel d (run_state d s l).state (run_state d s l).lexer)
unfolding lex_loop
lex_loop-running d fuel raw l h = refl
lex_loop-running d fuel (quoted q) l h = refl
lex_loop-running d fuel one_line_comment l h = refl
lex_loop-running d fuel multiline_comment l h = refl
lex_loop-running d fuel (in_numeric_arg numbers) l h = refl
lex_loop-running d fuel stopped l h = elim h [ ]
lex_loop-running d fuel panicked l h = elim h [ ]

pub StateFn-cases : (s : StateFn) → (s ≡ stopped) ⊎ (s ≡ panicked) ⊎ (IsRunning s × (1 ≤ weight s))
StateFn-cases raw = inr (inr (tt, omega arith))
StateFn-cases (quoted q) = inr (inr (tt, omega arith))
StateFn-cases one_line_comment = inr (inr (tt, omega arith))
StateFn-cases multiline_comment = inr (inr (tt, omega arith))
StateFn-cases (in_numeric_arg numbers) = inr (inr (tt, omega arith))
StateFn-cases stopped = inl refl
StateFn-cases panicked = inr (inl refl)

emit-ends : (ps : List Part) (r : Lexed) → r ≢ out_of_fuel → emit ps r ≢ out_of_fuel
emit-ends ps (parts qs) h e = absurd (ground arith)
emit-ends ps lexer_panic h e = absurd (ground arith)
emit-ends ps out_of_fuel h e = h refl

pub lex_loop-stopped :
    (d : Dialect) (fuel : ℕ) (l : SqlLexer) → lex_loop fuel d stopped l ≡ parts []
unfolding lex_loop
lex_loop-stopped d zero l = refl
lex_loop-stopped d (suc fuel) l = refl

pub lex_loop-panicked :
    (d : Dialect) (fuel : ℕ) (l : SqlLexer) → lex_loop fuel d panicked l ≡ lexer_panic
unfolding lex_loop
lex_loop-panicked d zero l = refl
lex_loop-panicked d (suc fuel) l = refl

lex_loop-ends :
    (d : Dialect) (fuel : ℕ) (s : StateFn) (l : SqlLexer)
    → measure s l ≤ fuel
    → IsFine s
    → lex_loop fuel d s l ≢ out_of_fuel
lex_loop-ends d zero s l h f = elim (StateFn-cases s) [
  | inl p ↦ rw p (λ e. absurd (ground (arith, e, lex_loop-stopped d zero l)))
  | inr (inl p) ↦ rw p (λ e. absurd (ground (arith, e, lex_loop-panicked d zero l)))
  | inr (inr (_, w)) ↦ absurd (omega (arith, w, h))
]
lex_loop-ends d (suc fuel) s l h f = elim (StateFn-cases s) [
  | inl p ↦ rw p (λ e. absurd (ground (arith, e, lex_loop-stopped d (suc fuel) l)))
  | inr (inl p) ↦ rw p (λ e. absurd (ground (arith, e, lex_loop-panicked d (suc fuel) l)))
  | inr (inr (run, w)) ↦
      let t = run_state d s l in
      let (falls, fine) = run_state-Falls d s l run f in
      let rest = lex_loop-ends d fuel t.state t.lexer (omega (arith, falls, h)) fine in
      λ e.
        emit-ends t.emits (lex_loop fuel d t.state t.lexer) rest
          (sym (lex_loop-running d fuel s l run) ∙ e)
]

pub lex-ends : (d : Dialect) (src : Text) → lex d src ≢ out_of_fuel
unfolding lex
lex-ends d src =
    lex_loop-ends d (2 * length src + 2) raw (record { text = []; rest = src; nested = 0 })
      (omega arith) tt
