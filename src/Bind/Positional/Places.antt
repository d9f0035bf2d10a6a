-- ===== src/Bind/Positional/Places.antt =====
-- Where a query has positional arguments: an independent description of what the lexer of
-- internal/bind/positional_args.go takes for one, without its parts, its positions and its turns.
use ydb_go_sdk.Base.{Bool, [], false, if◌then◌else◌, true, ℕ, ◌&&◌, ◌+◌, ◌-◌, ◌==◌, ◌||◌, ◌∷◌}
use ydb_go_sdk.Bind.Lexer.{Text}

-- In the query itself, in a text between two runes, or in a comment, to the end of the line or in
-- brackets, with how many brackets around it.
pub data Place : Type 0 where
  in_query in_line : Place
  in_text in_brackets : ℕ → Place

abbrev pub is_quote : ℕ → Bool
is_quote r = r == b'`' || r == b'\'' || r == b'"'

-- Where one is behind a rune, with the one that follows it, and whether that is used up as well.
abbrev pub leads : Place → ℕ → ℕ → Place × Bool
leads in_query r s =
    if is_quote r
    then (in_text r, false)
    else if r == b'-' && s == b'-'
    then (in_line, true)
    else if r == b'/' && s == b'*'
    then (in_brackets 0, true)
    else (in_query, false)
leads (in_text q) r s =
    if r == q && s == q
    then (in_text q, true)
    else if r == q
    then (in_query, false)
    else (in_text q, false)
leads in_line r s =
    if r == b'\\'
    then (in_line, true)
    else if r == b'\n' || r == b'\r'
    then (in_query, false)
    else (in_line, false)
leads (in_brackets n) r s =
    if r == b'/' && s == b'*'
    then (in_brackets (n + 1), true)
    else if r == b'*' && s == b'/'
    then if n == 0 then (in_query, true) else (in_brackets (n - 1), true)
    else (in_brackets n, false)

-- A `?` is an argument in the query itself only.
abbrev pub is_mark : Place → ℕ → Bool
is_mark in_query r = r == b'?'
is_mark in_line r = false
is_mark (in_text q) r = false
is_mark (in_brackets n) r = false

unfoldable pub open_marks_from : Place → Text → ℕ
open_marks_from p [] = 0
open_marks_from p (r ∷ []) = if is_mark p r then 1 else 0
open_marks_from p (r ∷ s ∷ rs) =
    let (p', both) = leads p r s in
    let behind : ℕ = elim both [
      | true ↦ open_marks_from p' rs
      | false ↦ open_marks_from p' (s ∷ rs)
    ] in
    if is_mark p r then behind + 1 else behind

-- How many `?` of a query are arguments.
unfoldable pub open_marks : Text → ℕ
unfolding open_marks_from
open_marks t = open_marks_from in_query t
