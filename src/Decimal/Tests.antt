-- ===== src/Decimal/Tests.antt =====
-- Numbers as bytes and back, and the theorems at a concrete number.
use ydb_go_sdk.Base.{
  List, [], arith, false, length, refl, replicate, some, true, ℕ, ◌++◌, ◌^◌, ◌∷◌, ◌≡◌,
}
use ydb_go_sdk.Decimal.{
  BigInt, big_int_to_byte, bounded, complement, flip, from_bytes, inf_abs, is_err, is_inf, is_nan,
  limited, nan_abs, nonneg, pow, pow_loop, put_bytes, put_words, set_bytes, word_bytes, word_count,
}
use ydb_go_sdk.Decimal.Pow.{pow-eq}
use ydb_go_sdk.Decimal.RoundTrip.{clamp, from_bytes-big_int_to_byte}

abbrev minus_258 : BigInt
minus_258 = record { negative = true; abs = 258 }

abbrev minus_258_bytes : List ℕ
minus_258_bytes = replicate 14 255 ++ 254 ∷ 254 ∷ []

put_258 : big_int_to_byte minus_258 22 ≡ some minus_258_bytes
unfolding big_int_to_byte bounded is_inf is_nan is_err pow pow_loop put_bytes complement flip
    word_count put_words word_bytes
put_258 = refl

-- A number of two bytes, and `nan`, which is read back as the infinity.
get_two : from_bytes (1 ∷ 2 ∷ []) 3 ≡ nonneg 258
unfolding from_bytes set_bytes limited pow pow_loop
get_two = refl

nan_read : limited 35 false (nonneg nan_abs) ≡ nonneg inf_abs
unfolding limited pow pow_loop
nan_read = refl

pow-eq_example : pow 10 35 ≡ 10 ^ 35
pow-eq_example = pow-eq 10 35

from_bytes-big_int_to_byte_example :
    (bs : List ℕ) × (big_int_to_byte minus_258 2 ≡ some bs)
    × (length bs ≡ 16)
    × (from_bytes bs 2 ≡ clamp 2 minus_258)
from_bytes-big_int_to_byte_example =
    from_bytes-big_int_to_byte minus_258 2 (λ _. omega arith) (omega arith)
