-- ===== src/Bind/Args/Laws.antt =====
-- The names and the numbers of parameters.
use ydb_go_sdk.Base.{
  Bool-cases, Result, [], ap, arith, err, if◌then◌else◌, inl, inr, ltb, ok, panic, refl, some, suc,
  sym, zero, ℕ, ◌%◌, ◌*◌, ◌++◌, ◌+◌, ◌-◌, ◌/◌, ◌<◌, ◌^◌, ◌↔◌, ◌∙◌, ◌∷◌, ◌≡◌, ◌≤◌, ◌⊎◌,
}
use ydb_go_sdk.Base.Word.{modulus, sign_bit}
use ydb_go_sdk.Bind.Lexer.{Text, atoi, value_of}
use ydb_go_sdk.Bind.Args.{
  int32_type, Arg, BindError, Param, Value, auto_name, bits, go_arg, go_int, itoa, itoa_loop,
  named_arg, named_value, param_option, plain, primitive_value, query_parameters, to_value,
  to_ydb_param, value_param, valuer, with_name,
}

value_of-append :
    (m : ℕ) (ds : Text) (d : ℕ) → value_of m (ds ++ d ∷ []) ≡ value_of m ds * 10 + (d - b'0')
unfolding value_of
value_of-append m [] d = refl
value_of-append m (e ∷ ds) d = value_of-append (m * 10 + (e - b'0')) ds d

itoa_loop-value : (fuel n : ℕ) → n < fuel → value_of 0 (itoa_loop fuel n) ≡ n
unfolding itoa_loop
itoa_loop-value zero n l = absurd (omega arith)
itoa_loop-value (suc fuel) n l = elim (Bool-cases (ltb n 10)) [
  | inl small ↦ rw small (unfold value_of in ground arith)
  | inr big ↦
      let front = itoa_loop-value fuel (n / 10) (ground (arith, big)) in
      rw big (value_of-append 0 (itoa_loop fuel (n / 10)) (b'0' + n % 10) ∙ omega (arith, front))
]

atoi-itoa : (n : ℕ) → n < sign_bit → atoi (itoa n) ≡ some n
unfolding atoi itoa
atoi-itoa n l = ground (arith, itoa_loop-value (n + 1) n (omega arith), l)

abbrev tail_of : Text → Text
tail_of [] = []
tail_of (r ∷ rs) = rs

auto_name_unique : (i j : ℕ) → i < sign_bit → j < sign_bit → auto_name i ≡ auto_name j → i ≡ j
unfolding auto_name
auto_name_unique i j l m e =
    let same : itoa i ≡ itoa j = ap (λ t. tail_of (tail_of t)) e in
    ground (arith, ap atoi same, atoi-itoa i l, atoi-itoa j m)

-- The argument brings no name along.
abbrev pub IsUnnamed : Arg → Type 0
IsUnnamed (go_arg v) = Unit
IsUnnamed (valuer v) = Unit
IsUnnamed (named_value n a) = ⊥
IsUnnamed (named_arg n a) = ⊥
IsUnnamed (param_option p) = ⊥
IsUnnamed (query_parameters ps) = ⊥

with_name-name :
    (i : ℕ) (r : Result BindError Value) (p : Param)
    → with_name (auto_name i) r ≡ ok p
    → p.name ≡ auto_name i
unfolding auto_name value_param
with_name-name i (ok v) p e =
    let same : record { name = auto_name i; value = v } ≡ p = ground (arith, e) in
    ap (λ x. x.name) (sym same)
with_name-name i (err x) p e = absurd (ground (arith, e))
with_name-name i panic p e = absurd (ground (arith, e))

-- It becomes a parameter by the name that it is given.
pub to_ydb_param-name :
    (i : ℕ) (a : Arg) (p : Param)
    → IsUnnamed a
    → to_ydb_param (auto_name i) a ≡ ok p
    → p.name ≡ auto_name i
unfolding to_ydb_param
to_ydb_param-name i (go_arg v) p h e = with_name-name i (to_value (go_arg v)) p e
to_ydb_param-name i (valuer v) p h e = with_name-name i (to_value (valuer v)) p e
to_ydb_param-name i (named_value n a) p h e = elim h [ ]
to_ydb_param-name i (named_arg n a) p h e = elim h [ ]
to_ydb_param-name i (param_option q) p h e = elim h [ ]
to_ydb_param-name i (query_parameters ps) p h e = elim h [ ]

-- The 64-bit pattern of the number that a 32-bit pattern stands for.
abbrev pub sign_extend : ℕ → ℕ
sign_extend y = if ltb y (2 ^ 31) then y else y + (2 ^ 64 - 2 ^ 32)

-- An `int` becomes an Int32, also where it does not fit: its number is kept exactly if it lies between
-- -(2 ^ 31) and 2 ^ 31 - 1.
to_value-int :
    (x : ℕ)
    → x < modulus
    → (y : ℕ) × (to_value (go_arg (plain go_int (bits x)))
        ≡ ok (primitive_value int32_type (bits y)))
      × (y < 2 ^ 32)
      × ((sign_extend y ≡ x) ↔ ((x < 2 ^ 31) ⊎ (2 ^ 64 - 2 ^ 31 ≤ x)))
unfolding to_value
to_value-int x h = (x % 2 ^ 32, refl, omega arith, (kept, extended))
  where
    kept : sign_extend (x % 2 ^ 32) ≡ x → (x < 2 ^ 31) ⊎ (2 ^ 64 - 2 ^ 31 ≤ x)
    kept e = elim (Bool-cases (ltb (x % 2 ^ 32) (2 ^ 31))) [
      | inl t ↦ inl (ground (arith, e, t))
      | inr t ↦ inr (ground (arith, e, t))
    ]

    extended : (x < 2 ^ 31) ⊎ (2 ^ 64 - 2 ^ 31 ≤ x) → sign_extend (x % 2 ^ 32) ≡ x
    extended (inl l) = ground (arith, l)
    extended (inr l) = ground (arith, l, h)
