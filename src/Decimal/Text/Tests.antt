-- ===== src/Decimal/Text/Tests.antt =====
-- Decimals printed and read, in the cases that the tests of the repository have and in others.
use ydb_go_sdk.Base.{arith, ok, panic, refl, true, ℕ, ◌≡◌}
use ydb_go_sdk.Decimal.{BigInt, inf_abs, is_inf, is_nan, nonneg, pow, pow_loop}
use ydb_go_sdk.Decimal.Text.{
  Text, end_parse, format, format_loop, is_inf_text, is_nan_text, pad_loop, parse, parse_loop,
  parse_unsigned, put_byte, rounded, rounds_up, tie_loop,
}
use ydb_go_sdk.Bind.Args.{codes}
use ydb_go_sdk.Decimal.Text.RoundTrip.{parse-format}

abbrev negative : ℕ → BigInt
negative n = record { negative = true; abs = n }

prints : format (negative 1023) 22 2 ≡ ok (codes "-10.23")
unfolding format format_loop is_inf is_nan put_byte
prints = refl

prints_small : format (nonneg 5) 22 3 ≡ ok (codes "0.005")
unfolding format format_loop is_inf is_nan put_byte pad_loop
prints_small = refl

prints_tag : format (nonneg 1000) 3 1 ≡ ok (codes "<error>")
unfolding format format_loop is_inf is_nan put_byte pad_loop
prints_tag = refl

-- Zero without a fraction is a panic.
prints_zero : format (nonneg 0) 22 0 ≡ panic
unfolding format format_loop is_inf is_nan put_byte pad_loop
prints_zero = refl

reads : parse (codes "-10.23") 22 2 ≡ ok (negative 1023)
unfolding parse parse_unsigned is_inf_text is_nan_text parse_loop end_parse rounds_up rounded pow
    pow_loop
reads = refl

-- A digit 5 rounds to the even neighbour.
reads_even : parse (codes "12.25") 22 1 ≡ ok (nonneg 122)
unfolding parse parse_unsigned is_inf_text is_nan_text parse_loop end_parse rounds_up tie_loop
    rounded pow pow_loop
reads_even = refl

reads_odd : parse (codes "12.35") 22 1 ≡ ok (nonneg 124)
unfolding parse parse_unsigned is_inf_text is_nan_text parse_loop end_parse rounds_up tie_loop
    rounded pow pow_loop
reads_odd = refl

-- What follows a rounding digit is not looked at, and zeros in front count as digits.
reads_rest : parse (codes "0.04xyz") 3 1 ≡ ok (nonneg 0)
unfolding parse parse_unsigned is_inf_text is_nan_text parse_loop end_parse rounds_up rounded pow
    pow_loop
reads_rest = refl

reads_zeros : parse (codes "012") 2 0 ≡ ok (nonneg inf_abs)
unfolding parse parse_unsigned is_inf_text is_nan_text parse_loop end_parse rounds_up rounded pow
    pow_loop
reads_zeros = refl

reads_wrapped : parse (codes "01") 1 1 ≡ ok (nonneg 10)
unfolding parse parse_unsigned is_inf_text is_nan_text parse_loop end_parse rounds_up rounded pow
    pow_loop
reads_wrapped = refl

parse-format_example :
    (t : Text) × (format (negative 1023) 22 2 ≡ ok t) × (parse t 22 2 ≡ ok (negative 1023))
parse-format_example =
    parse-format (negative 1023) 22 2 (λ _. omega arith) (omega arith) (omega arith) (omega arith)
      (omega arith)
