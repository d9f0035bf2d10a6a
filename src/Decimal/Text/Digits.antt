-- ===== src/Decimal/Text/Digits.antt =====
-- The text that `Format` leaves, from the digits before the dot on.
use mathlib.Core.Path.{subst}
use ydb_go_sdk.Base.{
  Bool, Bool-cases, Result, [], arith, false, if◌then◌else◌, inl, inr, length, ok, refl, suc, true,
  zero, ℕ, ◌%◌, ◌+◌, ◌-◌, ◌/◌, ◌<◌, ◌==◌, ◌^◌, ◌∷◌, ◌≡◌, ◌≤◌,
}
use ydb_go_sdk.Decimal.Text.{
  Text, digit, dot_byte, is_digit, minus_byte, parse_loop, put_padding, put_sign, put_zero, stopped,
}
use ydb_go_sdk.Decimal.Text.Reading.{ReadsFraction, ReadsWhole, whole-digit, whole-dot, whole-zero}
use ydb_go_sdk.Decimal.Text.Printing.{
  after, format_loop-step, format_loop-zero, has_precision, printed, put_byte_room, shorter,
}

abbrev pub with_sign : Bool → Text → Text
with_sign neg t = if neg then minus_byte ∷ t else t

-- The result is a text that begins with a digit, behind its sign, and that reads as `x`.
abbrev pub Prints : Bool → ℕ → ℕ → ℕ → Result (Unit {0}) Text → Type 0
Prints neg x scale integral r =
    (c : ℕ) × (cs : Text) × (r ≡ ok (with_sign neg (c ∷ cs)))
    × (is_digit c ≡ true)
    × (parse_loop (c ∷ cs) 0 false scale integral ≡ stopped x 0 [])

put_sign-with_sign : (neg : Bool) (t : Text) → length t < 40 → put_sign neg t ≡ ok (with_sign neg t)
unfolding put_sign
put_sign-with_sign false t h = refl
put_sign-with_sign true t h = put_byte_room minus_byte t h

module _ (neg : Bool) (x scale integral : ℕ) (small : integral < 2 ^ 32) where
  after-Prints :
      (p c : ℕ) (cs : Text)
      → is_digit c ≡ true
      → length (c ∷ cs) < 40
      → ReadsWhole x 0 scale integral (c ∷ cs)
      → Prints neg x scale integral (after neg (p, 0, c ∷ cs))
  unfolding put_padding put_zero
  after-Prints p c cs d l h =
      let e : (c == dot_byte) ≡ false = ground (arith, d) in
      (c, cs, rw e (put_sign-with_sign neg (c ∷ cs) l), d, h integral (omega arith) small)

  -- The loop has no digits left.
  ended-Prints :
      (fuel v p c : ℕ) (cs : Text)
      → v ≡ 0
      → is_digit c ≡ true
      → length (c ∷ cs) + p ≤ 38
      → ReadsWhole x v scale (integral - p) (c ∷ cs)
      → Prints neg x scale integral (printed neg fuel v p 0 (c ∷ cs))
  ended-Prints fuel v p c cs e d l h =
      let h' : ReadsWhole x 0 scale integral (c ∷ cs) = λ i a b.
        subst (λ k. parse_loop (c ∷ cs) k false scale i ≡ stopped x 0 []) e (h i (omega arith) b) in
      rw (e, format_loop-zero fuel p 0 (c ∷ cs)) (after-Prints p c cs d (omega (arith, l)) h')

  whole_loop :
      (fuel v p c : ℕ) (cs : Text)
      → v ≤ fuel
      → v < 10 ^ p
      → p ≤ integral
      → is_digit c ≡ true
      → length (c ∷ cs) + p ≤ 38
      → ReadsWhole x v scale (integral - p) (c ∷ cs)
      → Prints neg x scale integral (printed neg fuel v p 0 (c ∷ cs))
  whole_loop zero v p c cs f b i d l h = ended-Prints 0 v p c cs (omega (arith, f)) d l h
  whole_loop (suc fuel) v p c cs f b i d l h = elim (Bool-cases (v == 0)) [
    | inl z ↦ ended-Prints (suc fuel) v p c cs (ground (arith, z)) d l h
    | inr z ↦
        let pos : 1 ≤ v = ground (arith, z) in
        let q : 1 ≤ p = has_precision v p pos b in
        let m : suc (integral - p) ≡ integral - (p - 1) = omega (arith, i, q) in
        let next : ReadsWhole x (v / 10) scale (integral - (p - 1)) (digit (v % 10) ∷ (c ∷ cs)) =
          subst (λ k. ReadsWhole x (v / 10) scale k (digit (v % 10) ∷ (c ∷ cs))) m
            (whole-digit x v scale (integral - p) (c ∷ cs) h) in
        rw (format_loop-step fuel v p 0 (c ∷ cs) pos q (omega (arith, l))) (
          whole_loop fuel (v / 10) (p - 1) (digit (v % 10)) (c ∷ cs) (omega (arith, f, pos))
            (shorter v p q b) (omega (arith, i)) (ground arith) (omega (arith, l, q)) next)
  ]

  -- The loop behind the last digit of the fraction, or before the first of a number without one.
  pub whole_start :
      (fuel v p : ℕ) (bts : Text)
      → v ≤ fuel
      → 1 ≤ v
      → v < 10 ^ p
      → p ≤ integral
      → length bts + p ≤ 37
      → ReadsWhole x v scale 0 bts
      → Prints neg x scale integral (printed neg fuel v p 0 bts)
  whole_start zero v p bts f pos b i l h = absurd (omega (arith, f, pos))
  whole_start (suc fuel) v p bts f pos b i l h =
      let q : 1 ≤ p = has_precision v p pos b in
      let next : ReadsWhole x (v / 10) scale (integral - (p - 1)) (digit (v % 10) ∷ bts) =
        λ j a k. whole-digit x v scale 0 bts h j (omega (arith, a, i, q)) k in
      rw (format_loop-step fuel v p 0 bts pos q (omega (arith, l))) (
        whole_loop fuel (v / 10) (p - 1) (digit (v % 10)) bts (omega (arith, f, pos))
          (shorter v p q b) (omega (arith, i)) (ground arith) (omega (arith, l, q)) next)

  -- The same behind the dot, where a zero is put if there are no digits.
  pub dot-Prints :
      (fuel v p : ℕ) (t : Text)
      → v ≤ fuel
      → v < 10 ^ p
      → p ≤ integral
      → length t + p ≤ 36
      → ReadsFraction x v scale t
      → Prints neg x scale integral (printed neg fuel v p 0 (dot_byte ∷ t))
  unfolding put_padding put_zero
  dot-Prints fuel v p t f b i l h = elim (Bool-cases (v == 0)) [
    | inl z ↦
        let e : v ≡ 0 = ground (arith, z) in
        let h' : ReadsFraction x 0 scale t = subst (λ k. ReadsFraction x k scale t) e h in
        let reads : ReadsWhole x 0 scale 0 (48 ∷ dot_byte ∷ t) =
          whole-zero x scale (dot_byte ∷ t) (whole-dot x 0 scale t h') in
        rw
          (
            e,
            format_loop-zero fuel p 0 (dot_byte ∷ t),
            put_byte_room 48 (dot_byte ∷ t) (omega (arith, l)),
          )
          (
            48,
            dot_byte ∷ t,
            put_sign-with_sign neg (48 ∷ dot_byte ∷ t) (omega (arith, l)),
            refl,
            reads integral (omega arith) small,
          )
    | inr z ↦
        whole_start fuel v p (dot_byte ∷ t) f (ground (arith, z)) b i (omega (arith, l))
          (whole-dot x v scale t h)
  ]
