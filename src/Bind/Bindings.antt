-- ===== src/Bind/Bindings.antt =====
-- `Bindings.RewriteQuery` of internal/bind/bind.go, with the bindings of table_path_prefix.go and
-- auto_declare.go. The two sorts of the source and the text of a value's type are parameters.
pub mod Laws
mod Tests
use ydb_go_sdk.Base.{List, Result, [], bind_ok, map, ok, ℕ, ◌++◌, ◌∷◌}
use ydb_go_sdk.Bind.Lexer.{Text}
use ydb_go_sdk.Bind.Args.{Arg, BindError, Param, Value, codes, param_option, to_params}
use ydb_go_sdk.Bind.Positional.{Rewritten, rewrite_positional}
use ydb_go_sdk.Bind.Numeric.{rewrite_numeric}

pub data Bind : Type 0 where
  table_path_prefix : Text → Bind
  auto_declare positional_args numeric_args : Bind

-- `blockID`
unfoldable block_id : Bind → ℕ
block_id (table_path_prefix t) = 0
block_id auto_declare = 1
block_id positional_args = 2
block_id numeric_args = 2

-- `TablePathPrefix.RewriteQuery`
unfoldable pragma : Text → Text → Text
pragma tables query =
    codes "-- bind TablePathPrefix\n"
    ++ codes "PRAGMA TablePathPrefix(\""
    ++ tables
    ++ codes "\");\n\n"
    ++ query

unfoldable pub write_lines : List Text → Text
write_lines [] = []
write_lines (l ∷ ls) = l ++ b'\n' ∷ write_lines ls

module _ (sort : List Param → List Param) (sort_strings : List Text → List Text)
    (yql_type : Value → Text) where
  unfoldable pub declaration : Param → Text
  declaration p = codes "DECLARE " ++ p.name ++ codes " AS " ++ yql_type p.value ++ codes ";"

  unfoldable pub declares : List Param → Text → Text
  unfolding declaration write_lines
  declares ps query =
      codes "-- bind declares\n" ++ write_lines (sort_strings (map declaration ps)) ++ b'\n' ∷ query

  -- `AutoDeclare.RewriteQuery`
  abbrev pub declared : Text → List Arg → List Param → Text × List Arg
  declared query args [] = (query, args)
  declared query args (p ∷ ps) = (declares (p ∷ ps) query, map param_option (p ∷ ps))

  abbrev new_query : Rewritten → Text × List Arg
  new_query r = (r.yql, map param_option r.new_args)

  unfoldable pub rewrite : Bind → Text → List Arg → Result BindError (Text × List Arg)
  unfolding pragma declares to_params rewrite_positional rewrite_numeric
  rewrite (table_path_prefix tables) query args = ok (pragma tables query, args)
  rewrite auto_declare query args =
      bind_ok (to_params sort args) (λ ps. ok (declared query args ps))
  rewrite positional_args query args =
      bind_ok (rewrite_positional query args) (λ r. ok (new_query r))
  rewrite numeric_args query args = bind_ok (rewrite_numeric query args) (λ r. ok (new_query r))

  -- The loop over the bindings, which begins with the last.
  unfoldable pub bindings_loop : List Bind → Text → List Arg → Result BindError (Text × List Arg)
  unfolding rewrite
  bindings_loop [] query args = ok (query, args)
  bindings_loop (b ∷ bs) query args = bind_ok (bindings_loop bs query args) (λ r. rewrite b r.0 r.1)

  -- What follows the loop.
  abbrev pub send : Text × List Arg → Result BindError (Text × List Param)
  send r = bind_ok (to_params sort r.1) (λ ps. ok (r.0, ps))

  -- `Bindings.RewriteQuery`: the query, and the parameters for `NewQueryParameters`.
  unfoldable pub rewrite_query : List Bind → Text → List Arg → Result BindError (Text × List Param)
  unfolding bindings_loop to_params
  rewrite_query bs query args = bind_ok (bindings_loop bs query args) send
