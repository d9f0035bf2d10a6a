-- ===== src/Decimal/Text/Printing.antt =====
-- The turns of the loops of `Format`.
use native.Mathlib.Nat.{pow-suc, pow-zero}
use ydb_go_sdk.Base.{
  Bool, Bool-cases, Result, arith, bind_ok, false, if◌then◌else◌, inl, inr, length, ltb, not, ok,
  refl, suc, true, zero, ℕ, ◌%◌, ◌-◌, ◌/◌, ◌<◌, ◌==◌, ◌^◌, ◌||◌, ◌∷◌, ◌≡◌, ◌≤◌,
}
use ydb_go_sdk.Decimal.Text.{
  Text, buffer_size, digit, dot_byte, format_loop, pad_loop, put_byte, put_digit, put_dot,
  put_padding, put_sign, put_zero,
}

-- The point in front of the last digit of a fraction.
abbrev pub dotted : ℕ → Text → Text
dotted scale bts = if scale == 1 then dot_byte ∷ bts else bts

-- What follows the loop, and the loop with it.
abbrev pub after : Bool → ℕ × ℕ × Text → Result (Unit {0}) Text
after neg r = bind_ok (put_padding r) (λ b. bind_ok (put_zero b) (put_sign neg))

abbrev pub printed : Bool → ℕ → ℕ → ℕ → ℕ → Text → Result (Unit {0}) Text
printed neg fuel v p scale bts = bind_ok (format_loop fuel v p scale bts) (after neg)

pub put_byte_room : (c : ℕ) (bts : Text) → length bts < 40 → put_byte c bts ≡ ok (c ∷ bts)
unfolding put_byte
put_byte_room c bts h = let e : (length bts == buffer_size) ≡ false = ground (arith, h) in rw e refl

put_digit_room :
    (d scale : ℕ) (bts : Text) → length bts < 40 → put_digit d scale bts ≡ ok (digit d ∷ bts)
unfolding put_digit
put_digit_room d scale bts h =
    let e : (not (d == 0) || (scale == 0 || ltb (length bts) buffer_size)) ≡ true =
      ground (arith, h) in
    rw e (put_byte_room (digit d) bts h)

put_dot_room :
    (scale : ℕ) (bts : Text) → length bts < 40 → put_dot scale bts ≡ ok (dotted scale bts)
unfolding put_dot
put_dot_room scale bts h = elim (Bool-cases (scale == 1)) [
  | inl e ↦
      let l : ltb (length bts) buffer_size ≡ true = ground (arith, h) in
      rw (e, l) (put_byte_room dot_byte bts h)
  | inr e ↦ rw e refl
]

pub format_loop-step :
    (fuel v p scale : ℕ) (bts : Text)
    → 1 ≤ v
    → 1 ≤ p
    → length bts < 39
    → format_loop (suc fuel) v p scale bts
      ≡ format_loop fuel (v / 10) (p - 1) (scale - 1) (dotted scale (digit (v % 10) ∷ bts))
unfolding format_loop
format_loop-step fuel v p scale bts l k h =
    let a : (v == 0) ≡ false = ground (arith, l) in
    let b : (p == 0) ≡ false = ground (arith, k) in
    rw
      (
        a,
        b,
        put_digit_room (v % 10) scale bts (omega (arith, h)),
        put_dot_room scale (digit (v % 10) ∷ bts) (omega (arith, h)),
      )
      refl

pub format_loop-zero :
    (fuel p scale : ℕ) (bts : Text) → format_loop fuel 0 p scale bts ≡ ok (p, scale, bts)
unfolding format_loop
format_loop-zero zero p scale bts = refl
format_loop-zero (suc fuel) p scale bts = refl

-- One turn of the padding.
pub after-pad :
    (neg : Bool) (k p : ℕ) (bts : Text)
    → 1 ≤ p
    → length bts < 39
    → after neg (p, suc k, bts) ≡ after neg (p - 1, k, dotted (suc k) (digit 0 ∷ bts))
unfolding pad_loop
after-pad neg zero p bts l h =
    let b : (p == 0) ≡ false = ground (arith, l) in
    rw
      (
        b,
        put_byte_room 48 bts (omega (arith, h)),
        put_byte_room dot_byte (48 ∷ bts) (omega (arith, h)),
      )
      refl
after-pad neg (suc k) p bts l h =
    let b : (p == 0) ≡ false = ground (arith, l) in
    let c : (suc (suc k) == 0) ≡ false = ground arith in
    let d : (suc k == 0) ≡ false = ground arith in
    let e : (suc (suc k) == 1) ≡ false = ground arith in
    rw (b, c, d, e, put_byte_room 48 bts (omega (arith, h))) refl

-- A number below a power of ten, without its last digit.
pub shorter : (v p : ℕ) → 1 ≤ p → v < 10 ^ p → v / 10 < 10 ^ (p - 1)
shorter v zero l h = absurd (omega (arith, l))
shorter v (suc p) l h = let e : suc p - 1 ≡ p = omega arith in rw e (omega (arith, h, pow-suc 10 p))

pub has_precision : (v p : ℕ) → 1 ≤ v → v < 10 ^ p → 1 ≤ p
has_precision v zero l h = absurd (omega (arith, l, h, pow-zero 10))
has_precision v (suc p) l h = omega arith
