-- ===== src/Bind/Lexer/Tests.antt =====
-- Queries through the lexer.
use ydb_go_sdk.Base.{List, [], refl, ◌∷◌, ◌≡◌, ◌⊎◌}
use ydb_go_sdk.Bind.Lexer.{
  Part, Text, lex, lexer_panic, numeric, numeric_arg, parts, positional, positional_arg, rune_error,
  verbatim,
}
use ydb_go_sdk.Bind.Lexer.Outcome.{Overflows, lex-Spells}
use ydb_go_sdk.Bind.Lexer.Spelling.{Spells}

-- select ?, '?' --?
abbrev query : Text
query = b'a' ∷ b'?' ∷ b'\'' ∷ b'?' ∷ b'\'' ∷ b'?' ∷ b'-' ∷ b'-' ∷ b'?' ∷ []

query_parts :
    lex positional query
    ≡ parts (
        verbatim (b'a' ∷ [])
        ∷ positional_arg
        ∷ verbatim (b'\'' ∷ b'?' ∷ b'\'' ∷ [])
        ∷ positional_arg
        ∷ verbatim (b'-' ∷ b'-' ∷ b'?' ∷ [])
        ∷ [])
unfolding lex
query_parts = refl

numeric_parts :
    lex numeric (b'$' ∷ b'1' ∷ b'2' ∷ b',' ∷ b'$' ∷ b'3' ∷ b'x' ∷ [])
    ≡ parts (
        verbatim []
        ∷ numeric_arg 12
        ∷ verbatim (b',' ∷ [])
        ∷ verbatim (b'$' ∷ b'3' ∷ b'x' ∷ [])
        ∷ [])
unfolding lex
numeric_parts = refl

-- What stands behind the rune for the end is lost.
lost_behind :
    lex positional (b'a' ∷ rune_error ∷ b'?' ∷ []) ≡ parts (verbatim (b'a' ∷ rune_error ∷ []) ∷ [])
unfolding lex
lost_behind = refl

lex-Spells_example :
    ((ps : List Part) × (lex positional query ≡ parts ps) × Spells positional ps query)
    ⊎ ((lex positional query ≡ lexer_panic) × Overflows positional query)
lex-Spells_example = lex-Spells positional query refl
