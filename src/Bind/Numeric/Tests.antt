-- ===== src/Bind/Numeric/Tests.antt =====
-- A query with numeric arguments, one of them twice.
use ydb_go_sdk.Base.{List, [], err, ok, panic, refl, ◌↔◌, ◌∷◌, ◌≡◌, ◌⊎◌}
use ydb_go_sdk.Bind.Lexer.{Part, Text, lex, numeric, parts}
use ydb_go_sdk.Bind.Lexer.Outcome.{Overflows}
use ydb_go_sdk.Bind.Lexer.Spelling.{Spells}
use ydb_go_sdk.Bind.Args.{
  bool_type, Arg, Param, auto_name, bits, codes, go_arg, go_bool, inconsistent_args, named_arg,
  plain, primitive_value, to_ydb_param,
}
use ydb_go_sdk.Bind.Positional.{Rewritten}
use ydb_go_sdk.Bind.Numeric.{numeric_prefix, rewrite_numeric}
use ydb_go_sdk.Bind.Numeric.Rewriting.{IsNumericRewriting, rewrite_numeric-IsNumericRewriting}

abbrev query : Text
query = codes "$2 $1 $2"

abbrev flag : Arg
flag = go_arg (plain go_bool (bits 1))

abbrev flag_param : Text → Param
flag_param name = record { name = name; value = primitive_value bool_type (bits 1) }

two_args :
    rewrite_numeric query (flag ∷ named_arg (codes "x") flag ∷ [])
    ≡ ok (record {
      yql = codes "-- origin query with numeric args replacement\n$x $p0 $x";
      new_args = flag_param (codes "$p0") ∷ flag_param (codes "$x") ∷ [];
    })
unfolding rewrite_numeric to_ydb_param auto_name numeric_prefix
two_args = refl

unused : rewrite_numeric query (flag ∷ flag ∷ flag ∷ []) ≡ err inconsistent_args
unfolding rewrite_numeric to_ydb_param auto_name numeric_prefix
unused = refl

rewrite_numeric-IsNumericRewriting_example :
    ((ps : List Part) × (lex numeric query ≡ parts ps)
      × Spells numeric ps query
      × ((args : List Arg) (r : Rewritten)
          → (rewrite_numeric query args ≡ ok r) ↔ IsNumericRewriting ps args r))
    ⊎ (((args : List Arg) → rewrite_numeric query args ≡ panic) × Overflows numeric query)
rewrite_numeric-IsNumericRewriting_example = rewrite_numeric-IsNumericRewriting query refl
