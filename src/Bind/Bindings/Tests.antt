-- ===== src/Bind/Bindings/Tests.antt =====
-- A query with two bindings.
use mathlib.Core.List.Permᴰ
use ydb_go_sdk.Base.{List, Result, [], ok, refl, ◌∷◌, ◌≡◌}
use ydb_go_sdk.Bind.Lexer.{Text}
use ydb_go_sdk.Bind.Args.{
  bool_type, Arg, BindError, Param, Value, bits, codes, go_arg, go_bool, plain, primitive_value,
}
use ydb_go_sdk.Bind.Positional.{positional_prefix}
use ydb_go_sdk.Bind.Bindings.{auto_declare, bindings_loop, positional_args, rewrite_query}
use ydb_go_sdk.Bind.Bindings.Laws.{Declares, rewrite_query-Declares}

abbrev flag : Arg
flag = go_arg (plain go_bool (bits 1))

abbrev flag_param : Param
flag_param = record { name = codes "$p0"; value = primitive_value bool_type (bits 1) }

abbrev same_params : List Param → List Param
same_params ps = ps

abbrev same_lines : List Text → List Text
same_lines ls = ls

abbrev bool_text : Value → Text
bool_text v = codes "Bool"

abbrev result : Text
result =
    codes
      "-- bind declares\nDECLARE $p0 AS Bool;\n\n-- origin query with positional args replacement\n$p0"

abbrev bound : Result BindError (Text × List Param)
bound =
    rewrite_query same_params same_lines bool_text (auto_declare ∷ positional_args ∷ []) (codes "?")
      (flag ∷ [])

declared_result : bound ≡ ok (result, flag_param ∷ [])
unfolding rewrite_query positional_prefix
declared_result = refl

rewrite_query-Declares_example :
    (inner : Text × List Arg) × (bindings_loop same_params same_lines bool_text
        (positional_args ∷ [])
        (codes "?")
        (flag ∷ [])
      ≡ ok inner)
    × Declares same_params same_lines bool_text result inner.0 (flag_param ∷ [])
rewrite_query-Declares_example =
    rewrite_query-Declares same_params same_lines bool_text (positional_args ∷ []) (codes "?")
      (flag ∷ []) result (flag_param ∷ []) (λ qs. Permᴰ.refl qs) (λ ls. Permᴰ.refl ls)
      declared_result
