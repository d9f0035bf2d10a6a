-- ===== src/Decimal/RoundTrip.antt =====
-- The bytes that `BigIntToByte` gives are read by `FromBytes` as the number.
use native.Mathlib.Nat.{pow-le-pow_right}
use mathlib.Core.Path.{subst}
use ydb_go_sdk.Base.{
  ==_iff, All, Bool, Bool-cases, List, Option, [], ap, arith, false, if◌then◌else◌, inl, inr, leb,
  length, not, refl, some, sym, true, ℕ, ◌&&◌, ◌*◌, ◌+◌, ◌-◌, ◌<◌, ◌==◌, ◌^◌, ◌∙◌, ◌∷◌, ◌≡◌, ◌≤◌,
  ◌⊎◌,
}
use ydb_go_sdk.Base.Word.{modulus}
use ydb_go_sdk.Decimal.{
  BigInt, big_int_to_byte, bounded, flip, from_bytes, inf_abs, is_err, is_inf, is_nan, limited,
  negate, nonneg, put_bytes, set_bytes, size,
}
use ydb_go_sdk.Decimal.Bytes.{IsByte, scale, set_bytes-eq, set_bytes-lt}
use ydb_go_sdk.Decimal.Words.{flip_two}
use ydb_go_sdk.Decimal.Pow.{pow-eq}
use ydb_go_sdk.Decimal.Encode.{put_bytes-negative, put_bytes-nonneg}

-- A number as `math/big` has it.
abbrev pub IsNormal : BigInt → Type 0
IsNormal x = x.negative ≡ true → 1 ≤ x.abs

-- The number within a precision: itself, or the infinity of its sign.
unfoldable pub clamp : ℕ → BigInt → BigInt
clamp p x = if leb (10 ^ p) x.abs then record { negative = x.negative; abs = inf_abs } else x

-- The first of 16 bytes has the sign of their number.
first_byte :
    (b : ℕ) (bs : List ℕ)
    → All IsByte (b ∷ bs)
    → length (b ∷ bs) ≡ 16
    → leb 128 b ≡ leb (2 ^ 127) (set_bytes 0 (b ∷ bs))
first_byte b bs (h, hs) size =
    let n : length bs ≡ 15 = omega (arith, size) in
    let first : set_bytes 0 (b ∷ bs) ≡ scale (length bs) (0 * 256 + b) + set_bytes 0 bs =
      unfold set_bytes in set_bytes-eq (0 * 256 + b) bs in
    let value : set_bytes 0 (b ∷ bs) ≡ scale 15 (0 * 256 + b) + set_bytes 0 bs =
      first ∙ ap (λ k. scale k (0 * 256 + b) + set_bytes 0 bs) n in
    let lt : set_bytes 0 bs < scale 15 1 =
      subst (λ k. set_bytes 0 bs < scale k 1) n (set_bytes-lt bs hs) in
    ground (arith, value, lt, h)

-- What `FromBytes` makes of 16 bytes, from their number.
from_bytes_16 :
    (bs : List ℕ) (p : ℕ)
    → All IsByte bs
    → length bs ≡ 16
    → from_bytes bs p ≡ (
        if leb (2 ^ 127) (set_bytes 0 bs)
        then limited p true (negate (nonneg (flip (set_bytes 0 bs) + 1)))
        else limited p false (nonneg (set_bytes 0 bs)))
unfolding from_bytes
from_bytes_16 [] p h size = absurd (omega (arith, size))
from_bytes_16 (b ∷ bs) p h size = rw (first_byte b bs h size) refl

from_bytes-nonneg :
    (m p : ℕ)
    → m < 2 ^ 127
    → (bs : List ℕ) → All IsByte bs
    → length bs ≡ 16
    → set_bytes 0 bs ≡ m
    → from_bytes bs p ≡ clamp p (nonneg m)
unfolding limited clamp
from_bytes-nonneg m p h bs all size value =
    let small : leb (2 ^ 127) m ≡ false = ground (arith, h) in
    from_bytes_16 bs p all size ∙ rw (value, small, pow-eq 10 p) refl

from_bytes-negative :
    (m p : ℕ)
    → 1 ≤ m
    → m < 2 ^ 127
    → (bs : List ℕ) → All IsByte bs
    → length bs ≡ 16
    → set_bytes 0 bs ≡ modulus * modulus - m
    → from_bytes bs p ≡ clamp p (record { negative = true; abs = m })
unfolding limited clamp
from_bytes-negative m p l h bs all size value =
    let v = modulus * modulus - m in
    let large : leb (2 ^ 127) v ≡ true = ground (arith, h) in
    let back : flip v + 1 ≡ m =
      ap (λ k. k + 1) (flip_two v (omega arith) (omega arith)) ∙ omega arith in
    let e : (m == 0) ≡ false = ground (arith, l, ==_iff m 0) in
    from_bytes_16 bs p all size ∙ rw (value, large, back, e, pow-eq 10 p) refl

-- What `BigIntToByte` puts is below 2 ^ 127.
power_le : (p : ℕ) → p ≤ 35 → 10 ^ p ≤ inf_abs
power_le p h = pow-le-pow_right (omega arith) h

bounded_cases :
    (x : BigInt) (p : ℕ)
    → p ≤ 35
    → ((bounded x p ≡ record { negative = x.negative; abs = inf_abs }) × (10 ^ p ≤ x.abs))
      ⊎ ((bounded x p ≡ x) × (x.abs < 2 ^ 127))
unfolding bounded is_inf is_nan is_err
bounded_cases x p h =
    let le = power_le p h in
    let large = leb (10 ^ p) x.abs in
    let test = not (is_inf x) && (not (is_nan x) && (not (is_err x) && large)) in
    elim (Bool-cases test) [
      | inl t ↦ inl (rw (pow-eq 10 p, t) refl, ground (arith, t))
      | inr t ↦ inr (rw (pow-eq 10 p, t) refl, ground (arith, t, le))
    ]

-- A number that fits, through `put` and `FromBytes`.
abbrev Reads : Option (List ℕ) → ℕ → BigInt → Type 0
Reads r p y = (bs : List ℕ) × (r ≡ some bs) × (length bs ≡ 16) × (from_bytes bs p ≡ y)

nonneg-Reads : (m p : ℕ) → m < 2 ^ 127 → Reads (put_bytes (nonneg m) 16) p (clamp p (nonneg m))
nonneg-Reads m p h =
    let (bs, eq, all, size, value) = put_bytes-nonneg m (omega (arith, h)) in
    (bs, eq, size, from_bytes-nonneg m p h bs all size value)

negative-Reads :
    (m p : ℕ)
    → 1 ≤ m
    → m < 2 ^ 127
    → Reads
        (put_bytes (record { negative = true; abs = m }) 16)
        p
        (clamp p (record { negative = true; abs = m }))
negative-Reads m p l h =
    let (bs, eq, all, size, value) = put_bytes-negative m l h in
    (bs, eq, size, from_bytes-negative m p l h bs all size value)

put_bytes-Reads :
    (x : BigInt) (p : ℕ) → IsNormal x → x.abs < 2 ^ 127 → Reads (put_bytes x 16) p (clamp p x)
put_bytes-Reads x p normal h =
    let P : Bool → Type 0 = λ s.
      let y : BigInt = record { negative = s; abs = x.abs } in
      Reads (put_bytes y 16) p (clamp p y) in
    elim (Bool-cases x.negative) [
      | inl neg ↦ subst P (sym neg) (negative-Reads x.abs p (normal neg) h)
      | inr pos ↦ subst P (sym pos) (nonneg-Reads x.abs p h)
    ]

clamp-infinite :
    (x : BigInt) (p : ℕ)
    → p ≤ 35
    → 10 ^ p ≤ x.abs
    → clamp p (record { negative = x.negative; abs = inf_abs }) ≡ clamp p x
unfolding clamp
clamp-infinite x p h l =
    let le = power_le p h in
    let a : leb (10 ^ p) x.abs ≡ true = ground (arith, l) in
    let b : leb (10 ^ p) inf_abs ≡ true = ground (arith, le) in rw (a, b) refl

-- The bytes that `BigIntToByte` gives for a number and a precision of at most 35 are 16, and
-- `FromBytes` reads them, with the same precision, as the number, or, if its absolute value is
-- not below the power of ten of the precision, as the infinity of its sign.
pub from_bytes-big_int_to_byte :
    (x : BigInt) (p : ℕ)
    → IsNormal x
    → p ≤ 35
    → (bs : List ℕ) × (big_int_to_byte x p ≡ some bs)
      × (length bs ≡ 16)
      × (from_bytes bs p ≡ clamp p x)
unfolding big_int_to_byte
from_bytes-big_int_to_byte x p normal h = elim (bounded_cases x p h) [
  | inl (e, l) ↦
      subst (λ y. Reads (put_bytes (bounded x p) 16) p y) (clamp-infinite x p h l)
        (rw e (
          put_bytes-Reads (record { negative = x.negative; abs = inf_abs }) p (λ _. omega arith)
            (omega arith)))
  | inr (e, l) ↦ rw e (put_bytes-Reads x p normal l)
]
