-- ===== src/Bind/Args.antt =====
-- Arguments of a query and the parameters they become: internal/bind/params.go, with `ValueParam` of
-- table/table.go and the constructors of values that `toValue` calls.
pub mod Laws
mod Tests
use Prim.Native.Char.{code}
use Prim.Native.String.{String}
use ydb_go_sdk.Base.{
  List, Option, Result, [], err, if◌then◌else◌, length, ltb, none, ok, panic, some, suc, zero, ℕ,
  ◌%◌, ◌++◌, ◌+◌, ◌-◌, ◌/◌, ◌==◌, ◌^◌, ◌∷◌,
}
use ydb_go_sdk.Base.Word.{modulus, sign_bit}
use ydb_go_sdk.Bind.Lexer.{Text}

-- The runes of a text that stands in the source.
abbrev pub codes : String → Text
codes String.[] = []
codes (String.◌∷◌ c s) = code c ∷ codes s

-- The types of YDB that an argument may get.
pub data Primitive : Type 0 where
  bool_type int8_type uint8_type int16_type uint16_type int32_type uint32_type int64_type
        uint64_type :
      Primitive
  float_type double_type bytes_type text_type uuid_type timestamp_type interval_type : Primitive

-- A number or the bits of one, or bytes.
pub data Payload : Type 0 where
  bits : ℕ → Payload
  runes : Text → Payload

-- `given` is a value that the caller made.
pub data Value : Type 0 where
  void_value : Value
  primitive_value optional_value : Primitive → Payload → Value
  null_value : Primitive → Value
  text_list : List Text → Value
  given : ℕ → Value

-- The types of Go that have a case in `toValue`, and each with a pointer to it.
pub data GoType : Type 0 where
  go_bool go_int go_uint go_int8 go_uint8 go_int16 go_uint16 go_int32 go_uint32 go_int64 go_uint64 :
      GoType
  go_float32 go_float64 go_bytes go_string go_uuid go_time go_duration : GoType

pub data GoValue : Type 0 where
  nil_value unsupported : GoValue
  ydb_value : Value → GoValue
  plain : GoType → Payload → GoValue
  pointer : GoType → Option Payload → GoValue
  strings : List Text → GoValue

pub record Param : Type 0 where
  pub name : Text
  pub value : Value

-- An argument: a `driver.Valuer` has what its method gives, or its error.
pub data Arg : Type 0 where
  go_arg : GoValue → Arg
  valuer : Option GoValue → Arg
  named_value named_arg : Text → Arg → Arg
  param_option : Param → Arg
  query_parameters : List Param → Arg

pub data BindError : Type 0 where
  valuer_error unsupported_type unnamed_param multiple_query_parameters : BindError
  inconsistent_args unexpected_numeric_arg_zero : BindError

unfoldable type_of : GoType → Primitive
type_of go_bool = bool_type
type_of go_int = int32_type
type_of go_uint = uint32_type
type_of go_int8 = int8_type
type_of go_uint8 = uint8_type
type_of go_int16 = int16_type
type_of go_uint16 = uint16_type
type_of go_int32 = int32_type
type_of go_uint32 = uint32_type
type_of go_int64 = int64_type
type_of go_uint64 = uint64_type
type_of go_float32 = float_type
type_of go_float64 = double_type
type_of go_bytes = bytes_type
type_of go_string = text_type
type_of go_uuid = uuid_type
type_of go_time = timestamp_type
type_of go_duration = interval_type

-- `d / time.Microsecond` on the 64-bit pattern of a duration, which cuts off towards zero.
unfoldable to_microseconds : ℕ → ℕ
to_microseconds d = if ltb d sign_bit then d / 1000 else (modulus - (modulus - d) / 1000) % modulus

-- The conversion that a case makes: of an `int` to 32 bits, and of a time, which is the duration
-- since the epoch.
unfoldable convert : GoType → Payload → Payload
unfolding to_microseconds
convert go_int (bits x) = bits (x % 2 ^ 32)
convert go_uint (bits x) = bits (x % 2 ^ 32)
convert go_time (bits x) = bits (to_microseconds x)
convert go_duration (bits x) = bits (to_microseconds x)
convert t p = p

-- The switch of `toValue`.
unfoldable switch_value : GoValue → Result BindError Value
unfolding type_of convert
switch_value nil_value = ok void_value
switch_value unsupported = err unsupported_type
switch_value (ydb_value v) = ok v
switch_value (plain t p) = ok (primitive_value (type_of t) (convert t p))
switch_value (pointer t none) = ok (null_value (type_of t))
switch_value (pointer t (some p)) = ok (optional_value (type_of t) (convert t p))
switch_value (strings ss) = ok (text_list ss)

-- `toValue`
unfoldable pub to_value : Arg → Result BindError Value
unfolding switch_value
to_value (go_arg v) = switch_value v
to_value (valuer (some v)) = switch_value v
to_value (valuer none) = err valuer_error
to_value (named_value n a) = err unsupported_type
to_value (named_arg n a) = err unsupported_type
to_value (param_option p) = err unsupported_type
to_value (query_parameters ps) = err unsupported_type

abbrev either_name : Text → Text → Text
either_name [] name = name
either_name (r ∷ rs) name = r ∷ rs

-- The two looks at the wrapper of the argument.
unfoldable unwrap_value : Text → Arg → Text × Arg
unwrap_value name (named_value n v) = (either_name n name, v)
unwrap_value name a = (name, a)

unfoldable unwrap_arg : Text → Arg → Text × Arg
unwrap_arg name (named_arg n v) = (either_name n name, v)
unwrap_arg name a = (name, a)

-- `ValueParam`, for a name that is not empty
unfoldable pub value_param : Text → Value → Result BindError Param
value_param [] v = panic
value_param (r ∷ rs) v =
    ok (record { name = if r == b'$' then r ∷ rs else b'$' ∷ r ∷ rs; value = v })

abbrev pub with_name : Text → Result BindError Value → Result BindError Param
with_name name (err e) = err e
with_name name panic = panic
with_name [] (ok v) = err unnamed_param
with_name (r ∷ rs) (ok v) = value_param (if r == b'$' then r ∷ rs else b'$' ∷ r ∷ rs) v

abbrev to_param : Text → Arg → Result BindError Param
to_param name (param_option p) = ok p
to_param name a = with_name name (to_value a)

-- `toYdbParam`
unfoldable pub to_ydb_param : Text → Arg → Result BindError Param
unfolding to_value unwrap_value unwrap_arg value_param
to_ydb_param name a =
    let (n, v) = unwrap_value name a in let (n', v') = unwrap_arg n v in to_param n' v'

-- `strconv.Itoa`
unfoldable pub itoa_loop : ℕ → ℕ → Text
itoa_loop zero n = []
itoa_loop (suc fuel) n =
    let front = itoa_loop fuel (n / 10) in
    if ltb n 10 then (b'0' + n) ∷ [] else front ++ (b'0' + n % 10) ∷ []

unfoldable pub itoa : ℕ → Text
unfolding itoa_loop
itoa n = itoa_loop (n + 1) n

-- `"$p" + strconv.Itoa(i)`
unfoldable pub auto_name : ℕ → Text
unfolding itoa
auto_name i = b'$' ∷ b'p' ∷ itoa i

abbrev single : Result BindError Param → Result BindError (List Param)
single (ok p) = ok (p ∷ [])
single (err e) = err e
single panic = panic

abbrev multiple : ℕ → List Param → Result BindError (List Param)
multiple count ps = if ltb 1 count then err multiple_query_parameters else ok ps

-- One turn of the loop of `Params`, for argument `i` of `count`.
unfoldable params_of : ℕ → ℕ → Arg → Result BindError (List Param)
unfolding to_ydb_param auto_name
params_of count i (named_value [] (query_parameters ps)) = multiple count ps
params_of count i (named_value [] (param_option p)) = ok (p ∷ [])
params_of count i (named_value [] a) = single (to_ydb_param (auto_name i) a)
params_of count i (named_value (r ∷ rs) a) = single (to_ydb_param (r ∷ rs) a)
params_of count i (named_arg [] a) = err unnamed_param
params_of count i (named_arg (r ∷ rs) a) = single (to_ydb_param (r ∷ rs) a)
params_of count i (query_parameters ps) = multiple count ps
params_of count i (param_option p) = ok (p ∷ [])
params_of count i (go_arg v) = single (to_ydb_param (auto_name i) (go_arg v))
params_of count i (valuer v) = single (to_ydb_param (auto_name i) (valuer v))

abbrev pub joined :
    Result BindError (List Param) → Result BindError (List Param) → Result BindError (List Param)
joined (ok ps) (ok qs) = ok (ps ++ qs)
joined (ok ps) (err e) = err e
joined (ok ps) panic = panic
joined (err e) r = err e
joined panic r = panic

unfoldable pub params_loop : ℕ → ℕ → List Arg → Result BindError (List Param)
unfolding params_of
params_loop count i [] = ok []
params_loop count i (a ∷ rest) = joined (params_of count i a) (params_loop count (i + 1) rest)

-- `Params`, with `sort.Slice` by the names as a parameter; a map that `Each` walks is a list of
-- parameters in the order of the walk.
abbrev sorted :
    (List Param → List Param) → Result BindError (List Param) → Result BindError (List Param)
sorted sort (ok ps) = ok (sort ps)
sorted sort (err e) = err e
sorted sort panic = panic

unfoldable pub to_params : (List Param → List Param) → List Arg → Result BindError (List Param)
unfolding params_loop
to_params sort args = sorted sort (params_loop (length args) 0 args)
