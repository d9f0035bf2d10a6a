-- ===== src/Bind/Positional.antt =====
-- `PositionalArgs.RewriteQuery` of internal/bind/positional_args.go.
pub mod Laws
pub mod Places
pub mod Reading
pub mod Rewriting
mod Tests
use ydb_go_sdk.Base.{
  List, Option, Result, [], bind_ok, err, get_elem?, if◌then◌else◌, length, ltb, none, ok, panic,
  some, suc, ℕ, ◌++◌, ◌==◌, ◌∷◌,
}
use ydb_go_sdk.Bind.Lexer.{
  Lexed, Part, Text, lex, lexer_panic, numeric_arg, out_of_fuel, parts, positional, positional_arg,
  verbatim,
}
use ydb_go_sdk.Bind.Args.{Arg, BindError, Param, auto_name, codes, inconsistent_args, to_ydb_param}

-- What a rewriting gives: the query and its arguments.
pub record Rewritten : Type 0 where
  pub yql : Text
  pub new_args : List Param

-- The buffer, the new arguments and the position.
pub record Progress : Type 0 where
  pub buffer : Text
  pub new_params : List Param
  pub position : ℕ

abbrev add_param : Progress → Result BindError Param → Result BindError Progress
add_param g (ok p) = ok (record {
  buffer = g.buffer ++ auto_name g.position;
  new_params = g.new_params ++ p ∷ [];
  position = suc g.position;
})
add_param g (err e) = err e
add_param g panic = panic

abbrev take_arg : Progress → Option Arg → Result BindError Progress
take_arg g none = err inconsistent_args
take_arg g (some a) = add_param g (to_ydb_param (auto_name g.position) a)

-- One turn of the loop over the parts.
unfoldable pub positional_part : List Arg → Part → Progress → Result BindError Progress
unfolding to_ydb_param auto_name
positional_part args (verbatim t) g = ok (record g { buffer = g.buffer ++ t })
positional_part args positional_arg g = take_arg g (get_elem? args g.position)
positional_part args (numeric_arg n) g = ok g

unfoldable pub positional_loop : List Arg → List Part → Progress → Result BindError Progress
unfolding positional_part
positional_loop args [] g = ok g
positional_loop args (p ∷ ps) g = bind_ok (positional_part args p g) (positional_loop args ps)

-- What follows the loop.
unfoldable pub positional_prefix : Text
positional_prefix = codes "-- origin query with positional args replacement\n"

unfoldable pub positional_end : List Arg → Progress → Result BindError Rewritten
positional_end args g =
    if length args == g.position
    then ok (record {
      yql = if ltb 0 g.position then positional_prefix ++ g.buffer else g.buffer;
      new_args = g.new_params;
    })
    else err inconsistent_args

unfoldable pub rewrite_parts : List Arg → Lexed → Result BindError Rewritten
unfolding positional_loop positional_end
rewrite_parts args (parts ps) =
    bind_ok (positional_loop args ps (record { buffer = []; new_params = []; position = 0 }))
      (positional_end args)
rewrite_parts args lexer_panic = panic
rewrite_parts args out_of_fuel = panic

unfoldable pub rewrite_positional : Text → List Arg → Result BindError Rewritten
unfolding rewrite_parts lex
rewrite_positional sql args = rewrite_parts args (lex positional sql)
