-- ===== src/Retry/Backoff.antt =====
-- internal/backoff/backoff.go. A `time.Duration` is an `int64` of nanoseconds that is not negative
-- here, but for the product in `Delay`, whose wrap-around is written out. The two things that are not
-- integer arithmetic are parameters: the part of the delay that is fixed, which the source computes
-- in floating point from `jitterLimit`, and the generator's next number below a bound.
use mathlib.Core.Path.{subst}
use native.Mathlib.Nat.{pow-suc, add-suc, mod-eq_of_lt, add-zero}
use ydb_go_sdk.Base.{
  ap, arith, if◌then◌else◌, ltb, suc, zero, ℕ, ◌%◌, ◌*◌, ◌+◌, ◌-◌, ◌<◌, ◌==◌, ◌^◌, ◌≡◌, ◌≤◌,
}
use ydb_go_sdk.Base.Word.{modulus, sign_bit}

pub record LogBackoff : Type 0 where
  pub slot_duration : ℕ
  pub ceiling : ℕ

abbrev pub second : ℕ
second = 1000000000

-- The defaults `Fast` and `Slow`.
abbrev pub fast_backoff : LogBackoff
fast_backoff = record { slot_duration = 5000000; ceiling = 6 }

abbrev slow_backoff : LogBackoff
slow_backoff = record { slot_duration = second; ceiling = 6 }

-- `min` and `max`
unfoldable pub min : ℕ → ℕ → ℕ
min a b = if ltb a b then a else b

unfoldable pub max : ℕ → ℕ → ℕ
max a b = if ltb b a then a else b

-- `s` in `Delay`
unfoldable pub slot : LogBackoff → ℕ
slot b = if b.slot_duration == 0 then second else b.slot_duration

-- `d` in `Delay`, the most that it returns: `1 << n` and the product are `int64`
unfoldable pub full_delay : LogBackoff → ℕ → ℕ
full_delay b i = (slot b * (2 ^ (min i (max 1 b.ceiling)) % modulus)) % modulus

module _ (fixed : ℕ → ℕ) (random : ℕ → ℕ) where
  -- `Delay`
  unfoldable pub delay : LogBackoff → ℕ → ℕ
  delay b i =
      let d = full_delay b i in let f = fixed d in if f == d then f else (f + random (d - f + 1))

two_pow-pos : (k : ℕ) → 0 < 2 ^ k
two_pow-pos zero = omega arith
two_pow-pos (suc k) = simp pow-suc (omega (arith, two_pow-pos k))

two_pow_mono : (k d : ℕ) → 2 ^ k ≤ 2 ^ (k + d)
two_pow_mono k zero = simp add-zero (omega arith)
two_pow_mono k (suc d) = simp (add-suc, pow-suc) (omega (arith, two_pow_mono k d))

two_pow-le : (j k : ℕ) → j ≤ k → 2 ^ j ≤ 2 ^ k
two_pow-le j k h = let e : j + (k - j) ≡ k = omega arith in rw e at (two_pow_mono j (k - j))

-- The largest delay fits an `int64`.
abbrev pub Fits : LogBackoff → Type 0
Fits b = slot b * 2 ^ max 1 b.ceiling < sign_bit

slot-pos : (b : LogBackoff) → 0 < slot b
unfolding slot
slot-pos b = ground arith

min-le : (a b : ℕ) → (min a b ≤ a) × (min a b ≤ b)
unfolding min
min-le a b = ground arith

mul_mono : (s p q : ℕ) → p ≤ q → s * p ≤ s * q
mul_mono s p q h = grind arith

min_mono : (a b c : ℕ) → a ≤ b → min a c ≤ min b c
unfolding min
min_mono a b c h = ground arith

min_right : (a b : ℕ) → b ≤ a → min a b ≡ b
unfolding min
min_right a b h = ground arith

-- A factor and a product below the sign bit do not wrap.
no_wrap : (s p q : ℕ) → 0 < s → p ≤ q → s * q < sign_bit → (s * (p % modulus)) % modulus ≡ s * p
no_wrap s p q pos le fits =
    let product : s * p ≤ s * q = grind arith in
    let factor : p ≤ s * p = grind arith in
    rw (mod-eq_of_lt {n = p} {m = modulus} (omega arith)) (mod-eq_of_lt (omega arith))

-- Where the largest delay fits, no shift and no product wraps: the full delay of turn `i` is the slot
-- times two to the power of `i`, or of the ceiling if that is less.
full_delay_exact :
    (b : LogBackoff) (i : ℕ) → Fits b → full_delay b i ≡ slot b * 2 ^ min i (max 1 b.ceiling)
unfolding full_delay
full_delay_exact b i fits =
    no_wrap (slot b) (2 ^ min i (max 1 b.ceiling)) (2 ^ max 1 b.ceiling) (slot-pos b)
      (two_pow-le _ _ (min-le i (max 1 b.ceiling)).1) fits

-- The delay never falls from one turn to the next, and stays the same from the ceiling on.
full_delay_mono :
    (b : LogBackoff) (i : ℕ)
    → Fits b
    → (full_delay b i ≤ full_delay b (i + 1))
      × (max 1 b.ceiling ≤ i → full_delay b i ≡ slot b * 2 ^ max 1 b.ceiling)
full_delay_mono b i fits =
    rw (full_delay_exact b i fits, full_delay_exact b (i + 1) fits)
      (
        mul_mono (slot b) _ _ (two_pow-le _ _ (min_mono i (i + 1) (max 1 b.ceiling) (omega arith))),
        λ h. ap (λ k. slot b * 2 ^ k) (min_right i (max 1 b.ceiling) h),
      )

module _ (fixed : ℕ → ℕ) (random : ℕ → ℕ) where
  -- With a fixed part within the full delay and a random number below its bound, the delay lies
  -- between its fixed part and the full delay of that turn, and below the largest delay.
  delay_bounds :
      (b : LogBackoff) (i : ℕ)
      → Fits b
      → ((d : ℕ) → fixed d ≤ d)
      → ((m : ℕ) → 0 < m → random m < m)
      → (fixed (full_delay b i) ≤ delay fixed random b i)
        × (delay fixed random b i ≤ full_delay b i)
        × (full_delay b i ≤ slot b * 2 ^ max 1 b.ceiling)
  unfolding delay
  delay_bounds b i fits part below =
      let p = part (full_delay b i) in
      let r = below (full_delay b i - fixed (full_delay b i) + 1) (omega arith) in
      let cap = mul_mono (slot b) _ _ (two_pow-le _ _ (min-le i (max 1 b.ceiling)).1) in
      (ground arith, ground arith, rw (full_delay_exact b i fits) cap)

  -- Where the largest delay fits, no shift and no product wraps: the delay of turn `i` is not longer
  -- than the slot, or a second if there is none, times two to the power of `i`, or of the ceiling if
  -- that is less, which counts as one at least; and it is not shorter than the fixed part of that. The
  -- fixed part of a delay is not longer than it, and a random number is below its bound.
  pub delay-bounds :
      (b : LogBackoff) (i : ℕ)
      → Fits b
      → ((d : ℕ) → fixed d ≤ d)
      → ((m : ℕ) → 0 < m → random m < m)
      → let s = if b.slot_duration == 0 then second else b.slot_duration in
        let m = if ltb b.ceiling 1 then 1 else b.ceiling in
        let n = if ltb i m then i else m in
        (fixed (s * 2 ^ n) ≤ delay fixed random b i) × (delay fixed random b i ≤ s * 2 ^ n)
  unfolding slot min max
  delay-bounds b i fits part below =
      let (low, high, _) = delay_bounds b i fits part below in
      subst (λ d. (fixed d ≤ delay fixed random b i) × (delay fixed random b i ≤ d))
        (full_delay_exact b i fits) (low, high)
