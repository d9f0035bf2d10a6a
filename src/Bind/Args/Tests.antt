-- ===== src/Bind/Args/Tests.antt =====
-- Arguments and their parameters.
use ydb_go_sdk.Base.{ok, refl, ◌≡◌}
use ydb_go_sdk.Bind.Args.{
  bool_type, Arg, Param, auto_name, bits, codes, go_arg, go_bool, named_arg, plain, primitive_value,
  to_ydb_param,
}

twelve : auto_name 12 ≡ codes "$p12"
unfolding auto_name
twelve = refl

abbrev flag : Arg
flag = go_arg (plain go_bool (bits 1))

abbrev third : Param
third = record { name = codes "$p3"; value = primitive_value bool_type (bits 1) }

flag_to_third : to_ydb_param (auto_name 3) flag ≡ ok third
unfolding to_ydb_param auto_name
flag_to_third = refl

named_third :
    to_ydb_param (auto_name 3) (named_arg (codes "x") flag)
    ≡ ok (record third { name = codes "$x" })
unfolding to_ydb_param auto_name
named_third = refl
