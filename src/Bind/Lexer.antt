-- ===== src/Bind/Lexer.antt =====
-- `sqlLexer` of internal/bind/sql_lexer.go with the state functions of positional_args.go and
-- numeric_args.go. A text is the list of its runes; what is no UTF-8 is the rune `utf8.RuneError`,
-- which also is what a decoding behind the end gives. A turn is one round of the loop of a state
-- function; the runes from `start` to `pos` are `text`, and those behind them `rest`.
pub mod Moves
pub mod Fuel
pub mod Spelling
pub mod Turns
pub mod Outcome
mod Tests
use ydb_go_sdk.Base.{
  Bool, List, Option, [], if◌then◌else◌, leb, length, ltb, none, some, suc, zero, ℕ, ◌&&◌, ◌*◌,
  ◌++◌, ◌+◌, ◌-◌, ◌==◌, ◌||◌, ◌∷◌,
}
use ydb_go_sdk.Base.Word.{sign_bit}

abbrev pub Text : Type 0
Text = List ℕ

abbrev pub rune_error : ℕ
rune_error = 65533

-- `isLetter` and `isNumber`
unfoldable pub is_letter : ℕ → Bool
is_letter r = (leb b'a' r && leb r b'z') || (leb b'A' r && leb r b'Z')

unfoldable pub is_number : ℕ → Bool
is_number r = leb b'0' r && leb r b'9'

pub data Part : Type 0 where
  verbatim : Text → Part
  positional_arg : Part
  numeric_arg : ℕ → Part

-- The two raw state functions, and the others; a quoted text ends with the rune it began with.
pub data Dialect : Type 0 where
  positional numeric : Dialect

pub data StateFn : Type 0 where
  raw : StateFn
  quoted : ℕ → StateFn
  one_line_comment : StateFn
  multiline_comment : StateFn
  in_numeric_arg : Text → StateFn
  stopped : StateFn
  panicked : StateFn

pub record SqlLexer : Type 0 where
  pub text : Text
  pub rest : Text
  pub nested : ℕ

-- The parts that a turn appends, and where it leaves the lexer.
pub record Turn : Type 0 where
  pub emits : List Part
  pub state : StateFn
  pub lexer : SqlLexer

-- The next rune.
unfoldable pub peek : Text → ℕ
peek [] = rune_error
peek (r ∷ rs) = r

-- `pos += width` for the rune that `peek` gives.
unfoldable pub skip : SqlLexer → SqlLexer
skip l = elim l.rest [ [] ↦ l | r ∷ rs ↦ record l { text = l.text ++ r ∷ []; rest = rs } ]

abbrev pub go_on : StateFn → SqlLexer → Turn
go_on s l = record { emits = []; state = s; lexer = l }

-- The case of `utf8.RuneError`, which is the same in all state functions.
unfoldable pub finish : SqlLexer → Turn
finish l = record {
  emits = elim l.text [ [] ↦ [] | _ ∷ _ ↦ verbatim l.text ∷ [] ];
  state = stopped;
  lexer = record l { text = [] };
}

-- `backtickState`, `singleQuoteState` and `doubleQuoteState`, which differ in the rune `q` only
unfoldable pub quoted_state : ℕ → SqlLexer → Turn
unfolding peek skip finish
quoted_state q l =
    let r = peek l.rest in
    let l' = skip l in
    if r == q
    then if peek l'.rest == q then go_on (quoted q) (skip l') else go_on raw l'
    else if r == rune_error
    then finish l'
    else go_on (quoted q) l'

-- `oneLineCommentState`
unfoldable pub one_line_comment_state : SqlLexer → Turn
unfolding peek skip finish
one_line_comment_state l =
    let r = peek l.rest in
    let l' = skip l in
    if r == b'\\'
    then go_on one_line_comment (skip l')
    else if r == b'\n' || r == b'\r'
    then go_on raw l'
    else if r == rune_error
    then finish l'
    else go_on one_line_comment l'

-- `multilineCommentState`
unfoldable pub multiline_comment_state : SqlLexer → Turn
unfolding peek skip finish
multiline_comment_state l =
    let r = peek l.rest in
    let l' = skip l in
    if r == b'/'
    then if peek l'.rest == b'*'
      then go_on multiline_comment (record (skip l') { nested = l.nested + 1 })
      else go_on multiline_comment l'
    else if r == b'*'
    then if peek l'.rest == b'/'
      then if l.nested == 0
        then go_on raw (skip l')
        else go_on multiline_comment (record (skip l') { nested = l.nested - 1 })
      else go_on multiline_comment l'
    else if r == rune_error
    then finish l'
    else go_on multiline_comment l'

-- What the two raw state functions have in common.
unfoldable pub common_state : SqlLexer → Turn
unfolding peek skip finish
common_state l =
    let r = peek l.rest in
    let l' = skip l in
    if r == b'`' || r == b'\'' || r == b'"'
    then go_on (quoted r) l'
    else if r == b'-'
    then if peek l'.rest == b'-' then go_on one_line_comment (skip l') else go_on raw l'
    else if r == b'/'
    then if peek l'.rest == b'*' then go_on multiline_comment (skip l') else go_on raw l'
    else if r == rune_error
    then finish l'
    else go_on raw l'

-- `positionalArgsStateFn`
unfoldable pub positional_args_state : SqlLexer → Turn
unfolding peek skip common_state
positional_args_state l =
    if peek l.rest == b'?'
    then record {
      emits = verbatim l.text ∷ positional_arg ∷ [];
      state = raw;
      lexer = record (skip l) { text = [] };
    }
    else common_state l

-- `numericArgsStateFn`
unfoldable pub numeric_args_state : SqlLexer → Turn
unfolding peek skip common_state is_number
numeric_args_state l =
    if peek l.rest == b'$'
    then if is_number (peek (skip l).rest)
      then record {
        emits = verbatim l.text ∷ [];
        state = in_numeric_arg [];
        lexer = record (skip l) { text = [] };
      }
      else go_on raw (skip l)
    else common_state l

-- `strconv.Atoi` of digits: it fails at a number that is no `int`.
unfoldable pub value_of : ℕ → Text → ℕ
value_of n [] = n
value_of n (d ∷ ds) = value_of (n * 10 + (d - b'0')) ds

unfoldable pub atoi : Text → Option ℕ
unfolding value_of
atoi ds = if ltb (value_of 0 ds) sign_bit then some (value_of 0 ds) else none

-- The deferred function of `numericArgState`, for the digits in `numbers`.
abbrev pub number_turn : Option ℕ → SqlLexer → Turn
number_turn (some n) l = record {
  emits = numeric_arg n ∷ [];
  state = raw;
  lexer = record l { text = [] };
}
number_turn none l = go_on panicked l

unfoldable pub end_number : Text → SqlLexer → Turn
unfolding atoi
end_number [] l = record {
  emits = verbatim (b'$' ∷ l.text) ∷ [];
  state = raw;
  lexer = record l { text = [] };
}
end_number (d ∷ ds) l = number_turn (atoi (d ∷ ds)) l

-- `numericArgState`
unfoldable pub numeric_arg_state : Text → SqlLexer → Turn
unfolding peek skip is_number is_letter end_number
numeric_arg_state numbers l =
    let r = peek l.rest in
    if is_number r
    then go_on (in_numeric_arg (numbers ++ r ∷ [])) (skip l)
    else if is_letter r
    then end_number [] (skip l)
    else end_number numbers l

-- One turn of the current state function.
unfoldable pub run_state : Dialect → StateFn → SqlLexer → Turn
unfolding quoted_state one_line_comment_state multiline_comment_state positional_args_state
    numeric_args_state numeric_arg_state
run_state positional raw l = positional_args_state l
run_state numeric raw l = numeric_args_state l
run_state d (quoted q) l = quoted_state q l
run_state d one_line_comment l = one_line_comment_state l
run_state d multiline_comment l = multiline_comment_state l
run_state d (in_numeric_arg numbers) l = numeric_arg_state numbers l
run_state d stopped l = go_on stopped l
run_state d panicked l = go_on panicked l

pub data Lexed : Type 0 where
  parts : List Part → Lexed
  lexer_panic out_of_fuel : Lexed

abbrev pub emit : List Part → Lexed → Lexed
emit ps (parts qs) = parts (ps ++ qs)
emit ps lexer_panic = lexer_panic
emit ps out_of_fuel = out_of_fuel

-- The loop `for l.stateFn != nil`
unfoldable pub lex_loop : ℕ → Dialect → StateFn → SqlLexer → Lexed
unfolding run_state
lex_loop zero d s l = elim s [ stopped ↦ parts [] | panicked ↦ lexer_panic | _ ↦ out_of_fuel ]
lex_loop (suc fuel) d s l =
    let t = run_state d s l in
    let rest = lex_loop fuel d t.state t.lexer in
    elim s [ stopped ↦ parts [] | panicked ↦ lexer_panic | _ ↦ emit t.emits rest ]

-- The lexer of `RewriteQuery`: each rune takes two turns at most.
unfoldable pub lex : Dialect → Text → Lexed
unfolding lex_loop
lex d src = lex_loop (2 * length src + 2) d raw (record { text = []; rest = src; nested = 0 })
