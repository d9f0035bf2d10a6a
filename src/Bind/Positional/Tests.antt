-- ===== src/Bind/Positional/Tests.antt =====
-- A query with two positional arguments.
use ydb_go_sdk.Bind.Positional.Laws.{marks}
use ydb_go_sdk.Bind.Positional.Places.{open_marks, open_marks_from}
use ydb_go_sdk.Base.{List, [], err, ok, refl, ◌↔◌, ◌∷◌, ◌≡◌}
use ydb_go_sdk.Bind.Lexer.{Part, Text, lex, parts, positional}
use ydb_go_sdk.Bind.Lexer.Spelling.{Spells}
use ydb_go_sdk.Bind.Args.{
  bool_type, Arg, Param, bits, codes, go_arg, go_bool, inconsistent_args, named_arg, plain,
  primitive_value,
}
use ydb_go_sdk.Bind.Positional.{Rewritten, positional_prefix, rewrite_positional}
use ydb_go_sdk.Bind.Positional.Rewriting.{IsRewriting, rewrite_positional-IsRewriting}

abbrev query : Text
query = codes "select ?, '?', ?"

abbrev flag : Arg
flag = go_arg (plain go_bool (bits 1))

abbrev flag_param : Text → Param
flag_param name = record { name = name; value = primitive_value bool_type (bits 1) }

abbrev result : Rewritten
result = record {
  yql = codes "-- origin query with positional args replacement\nselect $p0, '?', $p1";
  new_args = flag_param (codes "$p0") ∷ flag_param (codes "$p1") ∷ [];
}

query_result : rewrite_positional query (flag ∷ flag ∷ []) ≡ ok result
unfolding rewrite_positional positional_prefix
query_result = refl

too_few : rewrite_positional query (flag ∷ []) ≡ err inconsistent_args
unfolding rewrite_positional positional_prefix
too_few = refl

-- An argument that brings its name along keeps it, but the query has the other one.
other_name :
    rewrite_positional (codes "?") (named_arg (codes "x") flag ∷ [])
    ≡ ok (record {
      yql = codes "-- origin query with positional args replacement\n$p0";
      new_args = flag_param (codes "$x") ∷ [];
    })
unfolding rewrite_positional positional_prefix
other_name = refl

rewrite_positional-IsRewriting_example :
    (ps : List Part) × (lex positional query ≡ parts ps)
    × Spells positional ps query
    × (marks ps ≡ open_marks query)
    × ((args : List Arg) (r : Rewritten)
        → (rewrite_positional query args ≡ ok r) ↔ IsRewriting ps args r)
rewrite_positional-IsRewriting_example = rewrite_positional-IsRewriting query refl

-- The one in the text between quotes is none.
query_marks : open_marks query ≡ 2
unfolding open_marks open_marks_from
query_marks = refl
