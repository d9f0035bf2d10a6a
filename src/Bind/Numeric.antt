-- ===== src/Bind/Numeric.antt =====
-- `NumericArgs.RewriteQuery` of internal/bind/numeric_args.go.
pub mod Slots
pub mod Laws
pub mod Rewriting
mod Tests
use ydb_go_sdk.Base.{
  List, Option, Result, [], bind_ok, err, get_elem?, if◌then◌else◌, length, ltb, none, ok, panic,
  replicate, set, some, ℕ, ◌++◌, ◌-◌, ◌==◌, ◌∷◌,
}
use ydb_go_sdk.Bind.Lexer.{
  Lexed, Part, Text, lex, lexer_panic, numeric, numeric_arg, out_of_fuel, parts, positional_arg,
  verbatim,
}
use ydb_go_sdk.Bind.Args.{
  Arg, BindError, Param, auto_name, codes, inconsistent_args, to_ydb_param,
  unexpected_numeric_arg_zero,
}
use ydb_go_sdk.Bind.Positional.{Rewritten}

-- The buffer, and `newArgs` with `nil` for an argument that was not used yet.
pub record Filling : Type 0 where
  pub written : Text
  pub slots : List (Option Param)

abbrev pub write_name : Filling → Param → Filling
write_name g p = record g { written = g.written ++ p.name }

abbrev pub fill_slot : ℕ → Filling → Result BindError Param → Result BindError Filling
fill_slot i g (ok p) = ok (record { written = g.written ++ p.name; slots = set g.slots i (some p) })
fill_slot i g (err e) = err e
fill_slot i g panic = panic

abbrev pub new_slot : ℕ → Filling → Option Arg → Result BindError Filling
new_slot i g none = panic
new_slot i g (some a) = fill_slot i g (to_ydb_param (auto_name i) a)

-- The parameter of argument `i`: the one that is there, or a new one.
abbrev pub use_slot : List Arg → ℕ → Filling → Option (Option Param) → Result BindError Filling
use_slot args i g none = panic
use_slot args i g (some (some p)) = ok (write_name g p)
use_slot args i g (some none) = new_slot i g (get_elem? args i)

-- One turn of the loop over the parts.
unfoldable pub numeric_part : List Arg → Part → Filling → Result BindError Filling
numeric_part args (verbatim t) g = ok (record g { written = g.written ++ t })
numeric_part args positional_arg g = ok g
numeric_part args (numeric_arg n) g =
    if n == 0
    then err unexpected_numeric_arg_zero
    else if ltb (length args) n
    then err inconsistent_args
    else use_slot args (n - 1) g (get_elem? g.slots (n - 1))

unfoldable pub numeric_loop : List Arg → List Part → Filling → Result BindError Filling
unfolding numeric_part
numeric_loop args [] g = ok g
numeric_loop args (p ∷ ps) g = bind_ok (numeric_part args p g) (numeric_loop args ps)

-- The loop that looks for an argument that was not used.
unfoldable pub all_used : List (Option Param) → Result BindError (List Param)
all_used [] = ok []
all_used (none ∷ os) = err inconsistent_args
all_used (some p ∷ os) = bind_ok (all_used os) (λ ps. ok (p ∷ ps))

unfoldable pub numeric_prefix : Text
numeric_prefix = codes "-- origin query with numeric args replacement\n"

unfoldable pub numeric_end : Text → List Param → Rewritten
numeric_end written new = record {
  yql = if ltb 0 (length new) then numeric_prefix ++ written else written;
  new_args = new;
}

unfoldable pub numeric_parts : List Arg → Lexed → Result BindError Rewritten
unfolding numeric_loop all_used numeric_end
numeric_parts args (parts ps) =
    bind_ok (numeric_loop args ps (record { written = []; slots = replicate (length args) none }))
      (λ g. bind_ok (all_used g.slots) (λ new. ok (numeric_end g.written new)))
numeric_parts args lexer_panic = panic
numeric_parts args out_of_fuel = panic

unfoldable pub rewrite_numeric : Text → List Arg → Result BindError Rewritten
unfolding numeric_parts lex
rewrite_numeric sql args = numeric_parts args (lex numeric sql)
