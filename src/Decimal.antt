-- ===== src/Decimal.antt =====
-- internal/decimal/decimal.go: the decimals as 16 bytes. A `big.Int` is its sign and its absolute
-- value, as `math/big` has it; zero has no sign. A byte is a number below 256.
pub mod Pow
pub mod Bytes
pub mod Words
pub mod Encode
pub mod RoundTrip
pub mod Text
mod Tests
use ydb_go_sdk.Base.{
  Bool, List, Option, [], false, if◌then◌else◌, leb, length, ltb, none, not, replicate, some, suc,
  true, zero, ℕ, ◌%◌, ◌&&◌, ◌*◌, ◌++◌, ◌+◌, ◌-◌, ◌/◌, ◌==◌, ◌^◌, ◌∷◌,
}
use ydb_go_sdk.Base.Word.{modulus}

pub record BigInt : Type 0 where
  pub negative : Bool
  pub abs : ℕ

abbrev pub nonneg : ℕ → BigInt
nonneg n = record { negative = false; abs = n }

-- `Neg`
abbrev pub negate : BigInt → BigInt
negate x = record x { negative = if x.abs == 0 then false else not x.negative }

-- The absolute values of `inf`, `nan` and `err`.
abbrev pub inf_abs : ℕ
inf_abs = 100000000000000000 * 1000000000000000000

abbrev pub nan_abs : ℕ
nan_abs = inf_abs + 1

abbrev pub err_abs : ℕ
err_abs = nan_abs + 1

unfoldable pub is_inf : BigInt → Bool
is_inf x = x.abs == inf_abs

unfoldable pub is_nan : BigInt → Bool
is_nan x = x.abs == nan_abs

unfoldable pub is_err : BigInt → Bool
is_err x = not x.negative && x.abs == err_abs

-- The loop of `pow`, and `pow`: each turn halves the exponent.
unfoldable pub pow_loop : ℕ → ℕ → ℕ → ℕ → ℕ
pow_loop zero v m n = v
pow_loop (suc fuel) v m n =
    let rest = pow_loop fuel (if n % 2 == 0 then v else v * m) (m * m) (n / 2) in
    if n == 0 then v else rest

unfoldable pub pow : ℕ → ℕ → ℕ
unfolding pow_loop
pow x n = pow_loop (n + 1) 1 x n

-- The number of words of `Bits`, and the absolute value that `not` leaves, which turns each of them
-- over.
unfoldable pub word_count : ℕ → ℕ → ℕ
word_count zero n = 0
word_count (suc fuel) n = let rest = word_count fuel (n / modulus) in if n == 0 then 0 else suc rest

unfoldable pub flip : ℕ → ℕ
unfolding word_count
flip n = modulus ^ word_count n n - 1 - n

-- `SetBytes`, from the value of the bytes before
unfoldable pub set_bytes : ℕ → List ℕ → ℕ
set_bytes acc [] = acc
set_bytes acc (b ∷ bs) = set_bytes (acc * 256 + b) bs

-- The last part of `FromBytes`, with `neg`.
unfoldable pub limited : ℕ → Bool → BigInt → BigInt
unfolding pow
limited precision neg v =
    if leb (pow 10 precision) v.abs then record { negative = neg; abs = inf_abs } else v

-- `FromBytes` and `FromInt128`; the scale is not used
unfoldable pub from_bytes : List ℕ → ℕ → BigInt
unfolding set_bytes flip limited
from_bytes [] precision = nonneg 0
from_bytes (b ∷ bs) precision =
    let v = set_bytes 0 (b ∷ bs) in
    if leb 128 b
    then limited precision true (negate (nonneg (flip v + 1)))
    else limited precision false (nonneg v)

-- `complement` of a negative number
unfoldable pub complement : BigInt → ℕ
unfolding flip
complement x = flip x.abs + 1

-- The loop of `put` over the bytes of a word, from the end of the array: `byte(d)` and `d >>= 8`.
unfoldable pub word_bytes : ℕ → ℕ → List ℕ
word_bytes zero d = []
word_bytes (suc j) d = d % 256 ∷ word_bytes j (d / 256)

-- The loop over the words.
unfoldable pub put_words : ℕ → ℕ → List ℕ
unfolding word_bytes
put_words zero n = []
put_words (suc fuel) n =
    let rest = put_words fuel (n / modulus) in
    if n == 0 then [] else word_bytes 8 (n % modulus) ++ rest

-- The rest of the array: an index that is neither 0 nor the length goes on down.
abbrev pub padding : ℕ → ℕ → ℕ → List ℕ
padding size used pad = if used == 0 then replicate size 0 else replicate (size - used) pad

abbrev pub from_end : List ℕ → List ℕ
from_end [] = []
from_end (b ∷ bs) = from_end bs ++ b ∷ []

-- `put` into an array of `size` bytes, which panics if the number does not fit.
unfoldable pub put_bytes : BigInt → ℕ → Option (List ℕ)
unfolding complement put_words
put_bytes x size =
    let n = if x.negative then complement x else x.abs in
    let bytes = put_words n n in
    if ltb size (length bytes)
    then none
    else some (from_end (bytes ++ padding size (length bytes) (if x.negative then 255 else 0)))

-- `BigIntToByte`
unfoldable pub bounded : BigInt → ℕ → BigInt
unfolding is_inf is_nan is_err pow
bounded x precision =
    if not (is_inf x) && (not (is_nan x) && (not (is_err x) && leb (pow 10 precision) x.abs))
    then record { negative = x.negative; abs = inf_abs }
    else x

unfoldable pub big_int_to_byte : BigInt → ℕ → Option (List ℕ)
unfolding bounded put_bytes
big_int_to_byte x precision = put_bytes (bounded x precision) 16

-- `size` and `Append`
unfoldable pub size : BigInt → ℕ
unfolding complement word_count
size x = let n = if x.negative then complement x else x.abs in 8 * word_count n n

unfoldable pub append_bytes : List ℕ → BigInt → Option (List ℕ)
unfolding put_bytes size
append_bytes p x = elim (put_bytes x (size x)) [ none ↦ none | some bytes ↦ some (p ++ bytes) ]
