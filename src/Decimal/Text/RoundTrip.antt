-- ===== src/Decimal/Text/RoundTrip.antt =====
-- What `Format` prints is read by `Parse` as the number.
use native.Mathlib.Nat.{pow-le-pow_right}
use mathlib.Core.Path.{subst}
use ydb_go_sdk.Base.{
  ==_iff, Bool, Bool-cases, Result, [], ap, arith, false, inl, inr, length, ltb, ok, refl, suc,
  true, zero, ℕ, ◌%◌, ◌*◌, ◌+◌, ◌-◌, ◌/◌, ◌<◌, ◌==◌, ◌^◌, ◌||◌, ◌∙◌, ◌∷◌, ◌≡◌, ◌≤◌,
}
use ydb_go_sdk.Decimal.{BigInt, inf_abs, is_inf, is_nan, nan_abs, pow}
use ydb_go_sdk.Decimal.Pow.{pow-eq}
use ydb_go_sdk.Decimal.RoundTrip.{IsNormal}
use ydb_go_sdk.Decimal.Text.{
  Text, digit, end_parse, format, is_digit, is_inf_text, is_nan_text, minus_byte, or_tag, parse,
  parse_loop, parse_unsigned, plus_byte, rounded, rounds_up, stopped,
}
use ydb_go_sdk.Decimal.Text.Reading.{ReadsFraction, ReadsWhole, fraction-digit}
use ydb_go_sdk.Decimal.Text.Printing.{
  after-pad, dotted, format_loop-step, format_loop-zero, printed, shorter,
}
use ydb_go_sdk.Decimal.Text.Digits.{Prints, dot-Prints, whole_start, with_sign}

module _ (neg : Bool) (x scale integral : ℕ) (small : integral < 2 ^ 32) where
  -- One zero of the padding.
  padding_turn :
      (k fuel v p : ℕ) (t : Text)
      → v ≡ 0
      → 1 ≤ p
      → length t < 39
      → Prints neg x scale integral
          (printed neg 0 (v / 10) (p - 1) k (dotted (suc k) (digit (v % 10) ∷ t)))
      → Prints neg x scale integral (printed neg fuel v p (suc k) t)
  padding_turn k fuel v p t e q l next =
      let next' =
        subst
          (λ n.
            Prints neg x scale integral
              (printed neg 0 (n / 10) (p - 1) k (dotted (suc k) (digit (n % 10) ∷ t))))
          e next in
      rw (e, format_loop-zero fuel p (suc k) t, after-pad neg k p t q l)
        (rw (format_loop-zero 0 (p - 1) k (dotted (suc k) (digit 0 ∷ t))) at next')

  -- One digit of the fraction, or one zero.
  fraction_turn :
      (k fuel v p : ℕ) (t : Text)
      → v ≤ fuel
      → 1 ≤ p
      → length t < 39
      → ((f : ℕ)
          → v / 10 ≤ f
          → Prints neg x scale integral
              (printed neg f (v / 10) (p - 1) k (dotted (suc k) (digit (v % 10) ∷ t))))
      → Prints neg x scale integral (printed neg fuel v p (suc k) t)
  fraction_turn k zero v p t f q l next =
      padding_turn k zero v p t (omega (arith, f)) q l (next 0 (omega (arith, f)))
  fraction_turn k (suc fuel) v p t f q l next = elim (Bool-cases (v == 0)) [
    | inl z ↦
        let e : v ≡ 0 = ground (arith, z) in
        padding_turn k (suc fuel) v p t e q l (next 0 (omega (arith, e)))
    | inr z ↦
        let pos : 1 ≤ v = ground (arith, z) in
        let one : suc k - 1 ≡ k = omega arith in
        rw (format_loop-step fuel v p (suc k) t pos q l, one) (next fuel (omega (arith, f, pos)))
  ]

  fraction_loop :
      (k j fuel v p : ℕ) (t : Text)
      → suc k + j ≡ scale
      → v ≤ fuel
      → v < 10 ^ p
      → suc k ≤ p
      → p ≤ integral + suc k
      → length t + p ≤ 36
      → ReadsFraction x v j t
      → Prints neg x scale integral (printed neg fuel v p (suc k) t)
  fraction_loop zero j fuel v p t e f b s i l h =
      fraction_turn zero fuel v p t f s (omega (arith, l, s)) (λ f a.
        dot-Prints neg x scale integral small f (v / 10) (p - 1) (digit (v % 10) ∷ t) a
          (shorter v p s b) (omega (arith, i)) (omega (arith, l, s))
          (subst (λ n. ReadsFraction x (v / 10) n (digit (v % 10) ∷ t)) (omega (arith, e))
            (fraction-digit x v j t h)))
  fraction_loop (suc k) j fuel v p t e f b s i l h =
      let c : (suc (suc k) == 1) ≡ false = ground arith in
      let q : 1 ≤ p = omega (arith, s) in
      fraction_turn (suc k) fuel v p t f q (omega (arith, l, s)) (λ f a. rw c (
        fraction_loop k (suc j) f (v / 10) (p - 1) (digit (v % 10) ∷ t) (omega (arith, e)) a
          (shorter v p q b) (omega (arith, s)) (omega (arith, i)) (omega (arith, l, s))
          (fraction-digit x v j t h)))

-- A text that begins with a digit is no tag.
no_tag :
    (c : ℕ) (cs : Text)
    → is_digit c ≡ true
    → (is_inf_text (c ∷ cs) ≡ false) × (is_nan_text (c ∷ cs) ≡ false)
unfolding is_inf_text is_nan_text
no_tag c [] d = (refl, refl)
no_tag c (a ∷ []) d = (refl, refl)
no_tag c (a ∷ b ∷ cs) d = (ground (arith, d), ground (arith, d))

-- The number is read behind its sign.
parse-with_sign :
    (x : BigInt) (p scale c : ℕ) (cs : Text)
    → IsNormal x
    → scale ≤ p
    → is_digit c ≡ true
    → parse_loop (c ∷ cs) 0 false scale (p - scale) ≡ stopped x.abs 0 []
    → parse (with_sign x.negative (c ∷ cs)) p scale ≡ ok x
unfolding parse parse_unsigned end_parse rounds_up rounded
parse-with_sign x p scale c cs normal l d h =
    let a : ltb p scale ≡ false = ground (arith, l) in
    let one : x.abs * pow 10 0 ≡ x.abs = ap (λ k. x.abs * k) (pow-eq 10 0) ∙ omega arith in
    let (ni, nn) = no_tag c cs d in
    elim (Bool-cases x.negative) [
      | inl neg ↦
          let z : (x.abs == 0) ≡ false = ground (arith, normal neg, ==_iff x.abs 0) in
          rw (neg, a, ni, nn, h, one, z) refl
      | inr pos ↦
          let m : (c == minus_byte || c == plus_byte) ≡ false = ground (arith, d) in
          rw (pos, a, m, ni, nn, h, one) refl
    ]

whole-end : (v : ℕ) → ReadsWhole v v 0 0 []
unfolding parse_loop
whole-end v i l k = refl

or_tag-Prints :
    (neg : Bool) (x scale integral : ℕ) (r : Result (Unit {0}) Text)
    → Prints neg x scale integral r
    → Prints neg x scale integral (or_tag r)
or_tag-Prints neg x scale integral r (c, cs, e, d, h) = (c, cs, rw e refl, d, h)

-- A number below 10 ^ 35 is neither `inf` nor `nan`.
is_number : (v p : ℕ) → v < 10 ^ p → p ≤ 35 → ((v == inf_abs) ≡ false) × ((v == nan_abs) ≡ false)
is_number v p b h =
    let le : 10 ^ p ≤ 10 ^ 35 = pow-le-pow_right (omega arith) h in
    (ground (arith, b, le), ground (arith, b, le))

fraction-end : (v : ℕ) → ReadsFraction v v 0 []
unfolding parse_loop
fraction-end v i = refl

format-Prints :
    (x : BigInt) (p scale : ℕ)
    → x.abs < 10 ^ p
    → p ≤ 35
    → scale ≤ p
    → 1 ≤ scale + x.abs
    → Prints x.negative x.abs scale (p - scale) (format x p scale)
unfolding format is_inf is_nan
format-Prints x p zero b h s l =
    let (a, c) = is_number x.abs p b h in
    rw (a, c)
      (or_tag-Prints x.negative x.abs 0 (p - 0) (printed x.negative x.abs x.abs p 0 []) (
        whole_start x.negative x.abs 0 (p - 0) (omega (arith, h)) x.abs x.abs p [] (omega arith)
          (omega (arith, l)) b (omega arith) (omega (arith, h)) (whole-end x.abs)))
format-Prints x p (suc k) b h s l =
    let (a, c) = is_number x.abs p b h in
    rw (a, c)
      (or_tag-Prints x.negative x.abs (suc k) (p - suc k)
        (printed x.negative x.abs x.abs p (suc k) [])
        (fraction_loop x.negative x.abs (suc k) (p - suc k) (omega (arith, h)) k 0 x.abs x.abs p []
          (omega arith) (omega arith) b s (omega arith) (omega (arith, h)) (fraction-end x.abs)))

-- A number below the power of ten of a precision of at most 35 is printed, and its text is read as
-- the number, with the same precision and any scale within it; without a scale the number is not 0.
pub parse-format :
    (x : BigInt) (p scale : ℕ)
    → IsNormal x
    → x.abs < 10 ^ p
    → p ≤ 35
    → scale ≤ p
    → 1 ≤ scale + x.abs
    → (t : Text) × (format x p scale ≡ ok t) × (parse t p scale ≡ ok x)
parse-format x p scale normal b h s l =
    let (c, cs, printed_as, d, reads) = format-Prints x p scale b h s l in
    (with_sign x.negative (c ∷ cs), printed_as, parse-with_sign x p scale c cs normal s d reads)
