-- ===== src/Decimal/Pow.antt =====
-- `pow` is the power.
use native.Mathlib.Nat.{pow-suc, pow-zero}
use ydb_go_sdk.Base.{
  ==_iff, Bool-cases, ap, arith, inl, inr, suc, sym, zero, ℕ, ◌%◌, ◌*◌, ◌+◌, ◌/◌, ◌<◌, ◌==◌, ◌^◌,
  ◌∙◌, ◌≡◌, ◌≤◌,
}
use ydb_go_sdk.Decimal.{pow, pow_loop}

double_power : (m k : ℕ) → (m * m) ^ k ≡ m ^ (k + k)
double_power m zero = pow-zero (m * m) ∙ sym (pow-zero m)
double_power m (suc k) =
    let twice : suc k + suc k ≡ suc (suc (k + k)) = omega arith in
    rw (twice, pow-suc (m * m) k, pow-suc m (suc (k + k)), pow-suc m (k + k), double_power m k)
      (grind arith)

-- The halves of the exponent.
halved_even : (m n : ℕ) → n % 2 ≡ 0 → (m * m) ^ (n / 2) ≡ m ^ n
halved_even m n h =
    let e : n / 2 + n / 2 ≡ n = omega (arith, h) in double_power m (n / 2) ∙ ap (λ k. m ^ k) e

halved_odd : (m n : ℕ) → n % 2 ≡ 1 → (m * m) ^ (n / 2) * m ≡ m ^ n
halved_odd m n h =
    let e : suc (n / 2 + n / 2) ≡ n = omega (arith, h) in
    ap (λ x. x * m) (double_power m (n / 2)) ∙ sym (pow-suc m (n / 2 + n / 2)) ∙ ap (λ k. m ^ k) e

swap_last : (a b c : ℕ) → a * b * c ≡ a * (c * b)
swap_last a b c = grind arith

pow_loop-eq : (fuel v m n : ℕ) → n < fuel → pow_loop fuel v m n ≡ v * m ^ n
unfolding pow_loop
pow_loop-eq zero v m n h = absurd (omega arith)
pow_loop-eq (suc fuel) v m n h = elim (Bool-cases (n == 0)) [
  | inl z ↦ let e : n ≡ 0 = ground (arith, z, ==_iff n 0) in rw (z, e, pow-zero m) (omega arith)
  | inr z ↦
      let pos : 1 ≤ n = ground (arith, z, ==_iff n 0) in
      elim (Bool-cases (n % 2 == 0)) [
        | inl even ↦
            let e : n % 2 ≡ 0 = ground (arith, even, ==_iff (n % 2) 0) in
            rw (z, even)
              (pow_loop-eq fuel v (m * m) (n / 2) (omega (arith, h, pos))
                ∙ ap (λ x. v * x) (halved_even m n e))
        | inr odd ↦
            let e : n % 2 ≡ 1 = ground (arith, odd, ==_iff (n % 2) 0) in
            rw (z, odd)
              (pow_loop-eq fuel (v * m) (m * m) (n / 2) (omega (arith, h, pos))
                ∙ swap_last v m ((m * m) ^ (n / 2))
                ∙ ap (λ x. v * x) (halved_odd m n e))
      ]
]

-- `pow` ends and gives the power.
pub pow-eq : (x n : ℕ) → pow x n ≡ x ^ n
unfolding pow
pow-eq x n = pow_loop-eq (n + 1) 1 x n (omega arith) ∙ omega arith
