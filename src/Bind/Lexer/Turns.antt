-- ===== src/Bind/Lexer/Turns.antt =====
-- Each turn of the lexer appends what it takes off the query.
use ydb_go_sdk.Base.{
  All, List, Option, [], ap, append-nil, append_assoc, none, refl, some, sym, true, ℕ, ◌++◌, ◌==◌,
  ◌∙◌, ◌∷◌, ◌≡◌,
}
use ydb_go_sdk.Bind.Lexer.{
  Dialect, SqlLexer, StateFn, Text, atoi, end_number, in_numeric_arg, is_letter, is_number,
  multiline_comment, number_turn, numeric, numeric_arg_state, numeric_args_state, one_line_comment,
  panicked, peek, positional, positional_args_state, quoted, raw, run_state, skip, stopped,
}
use ydb_go_sdk.Bind.Lexer.Moves.{
  common_state-Move, if-lem, multiline_comment_state-Move, one_line_comment_state-Move,
  quoted_state-Move,
}
use ydb_go_sdk.Bind.Lexer.Fuel.{IsRunning, digit-found}
use ydb_go_sdk.Bind.Lexer.Spelling.{
  AreDigits, IsClean, IsOk, Move-Tells, Tells, found, peek-skip, skip-IsClean, skip-whole,
}

letters-Tells :
    (d : Dialect) (numbers : Text) (l : SqlLexer)
    → IsClean l
    → Tells d (in_numeric_arg numbers) l (end_number [] l)
unfolding end_number
letters-Tells d numbers l c =
    (b'$' ∷ l.text, refl, ([], sym (append-nil (b'$' ∷ l.text)), refl), tt, c)

number-Tells :
    (d : Dialect) (numbers : Text) (o : Option ℕ) (l : SqlLexer)
    → d ≡ numeric
    → AreDigits l.text
    → atoi l.text ≡ o
    → IsClean l
    → Tells d (in_numeric_arg numbers) l (number_turn o l)
number-Tells d numbers (some n) l k digits e c =
    (b'$' ∷ l.text, refl, (l.text, [], sym (append-nil (b'$' ∷ l.text)), k, digits, e, refl), tt, c)
number-Tells d numbers none l k digits e c = ([], refl, refl, (k, digits, e), c)

end_number-Tells :
    (d : Dialect) (numbers ds : Text) (l : SqlLexer)
    → d ≡ numeric
    → IsClean l
    → ds ≡ l.text
    → AreDigits l.text
    → Tells d (in_numeric_arg numbers) l (end_number ds l)
unfolding end_number
end_number-Tells d numbers [] l n c e h = letters-Tells d numbers l c
end_number-Tells d numbers (r ∷ rs) l n c e h =
    number-Tells d numbers (atoi (r ∷ rs)) l n h (ap atoi (sym e)) c

All-last {ℓ ℓ'} :
    {A : Type ℓ} (P : A → Type ℓ') (xs : List A) (x : A) → All P xs → P x → All P (xs ++ x ∷ [])
All-last P [] x h k = (k, tt)
All-last P (y ∷ ys) x (h, hs) k = (h, All-last P ys x hs k)

digit-Ok :
    (d : Dialect) (numbers : Text) (l : SqlLexer)
    → IsOk d (in_numeric_arg numbers) l
    → is_number (peek l.rest) ≡ true
    → IsOk d (in_numeric_arg (numbers ++ peek l.rest ∷ [])) (skip l)
digit-Ok d numbers l (n, same, digits) h =
    let (_, e) = peek-skip l (digit-found l h) in
    (n, rw (same, e) refl, rw e (All-last (λ r. is_number r ≡ true) l.text (peek l.rest) digits h))

numeric_arg_state-Tells :
    (d : Dialect) (numbers : Text) (l : SqlLexer)
    → IsOk d (in_numeric_arg numbers) l
    → IsClean l
    → Tells d (in_numeric_arg numbers) l (numeric_arg_state numbers l)
unfolding numeric_arg_state
numeric_arg_state-Tells d numbers l (n, same, digits) c =
    let r = peek l.rest in
    let whole = ap (λ x. b'$' ∷ x) (skip-whole l) in
    if-lem (Tells d (in_numeric_arg numbers) l) (is_number r)
      (λ h. ([], whole, refl, digit-Ok d numbers l (n, same, digits) h, skip-IsClean l c))
      (λ _.
        if-lem (Tells d (in_numeric_arg numbers) l) (is_letter r)
          (λ _.
            let (a, e, f, g, k) = letters-Tells d numbers (skip l) (skip-IsClean l c) in
            (a, whole ∙ e, f, g, k))
          (λ _. end_number-Tells d numbers numbers l n c same digits))

positional_args_state-Tells :
    (l : SqlLexer) → IsClean l → Tells positional raw l (positional_args_state l)
unfolding positional_args_state
positional_args_state-Tells l c =
    if-lem (Tells positional raw l) (peek l.rest == b'?')
      (λ h. (
        l.text ++ b'?' ∷ [],
        ap (λ x. l.text ++ x) (found b'?' l h refl)
            ∙ sym (append_assoc l.text (b'?' ∷ []) (skip l).rest),
        (b'?' ∷ [], refl, ([], refl, refl, refl)),
        tt,
        skip-IsClean l c,
      ))
      (λ _. Move-Tells positional raw l refl c (common_state-Move l))

numeric_args_state-Tells : (l : SqlLexer) → IsClean l → Tells numeric raw l (numeric_args_state l)
unfolding numeric_args_state
numeric_args_state-Tells l c =
    if-lem (Tells numeric raw l) (peek l.rest == b'$')
      (λ h.
        if-lem (Tells numeric raw l) (is_number (peek (skip l).rest))
          (λ _. (
            l.text,
            ap (λ x. l.text ++ x) (found b'$' l h refl),
            ([], sym (append-nil l.text), refl),
            (refl, refl, tt),
            skip-IsClean l c,
          ))
          (λ _. ([], skip-whole l, refl, tt, skip-IsClean l c)))
      (λ _. Move-Tells numeric raw l refl c (common_state-Move l))

pub run_state-Tells :
    (d : Dialect) (s : StateFn) (l : SqlLexer)
    → IsRunning s
    → IsOk d s l
    → IsClean l
    → Tells d s l (run_state d s l)
unfolding run_state
run_state-Tells positional raw l h f c = positional_args_state-Tells l c
run_state-Tells numeric raw l h f c = numeric_args_state-Tells l c
run_state-Tells d (quoted q) l h f c = Move-Tells d (quoted q) l refl c (quoted_state-Move q l f)
run_state-Tells d one_line_comment l h f c =
    Move-Tells d one_line_comment l refl c (one_line_comment_state-Move l)
run_state-Tells d multiline_comment l h f c =
    Move-Tells d multiline_comment l refl c (multiline_comment_state-Move l)
run_state-Tells d (in_numeric_arg numbers) l h f c = numeric_arg_state-Tells d numbers l f c
run_state-Tells d stopped l h f c = elim h [ ]
run_state-Tells d panicked l h f c = elim h [ ]
