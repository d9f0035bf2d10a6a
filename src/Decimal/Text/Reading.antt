-- ===== src/Decimal/Text/Reading.antt =====
-- How `Parse` reads digits and the dot.
use ydb_go_sdk.Base.{
  [], arith, false, ltb, suc, true, ℕ, ◌%◌, ◌&&◌, ◌*◌, ◌+◌, ◌-◌, ◌/◌, ◌<◌, ◌==◌, ◌^◌, ◌∷◌, ◌≡◌, ◌≤◌,
}
use ydb_go_sdk.Decimal.Text.{Text, decr_32, digit, dot_byte, is_digit, parse_loop, stopped}

-- The text is read to its end as the number `x`, from the value `v` of the digits before.
abbrev pub ReadsFraction : ℕ → ℕ → ℕ → Text → Type 0
ReadsFraction x v scale t = (i : ℕ) → parse_loop t v true scale i ≡ stopped x 0 []

-- The same before the dot, with room for `m` digits or more.
abbrev pub ReadsWhole : ℕ → ℕ → ℕ → ℕ → Text → Type 0
ReadsWhole x v scale m t =
    (i : ℕ) → m ≤ i → i < 2 ^ 32 → parse_loop t v false scale i ≡ stopped x 0 []

pub fraction-digit :
    (x v scale : ℕ) (t : Text)
    → ReadsFraction x v scale t
    → ReadsFraction x (v / 10) (suc scale) (digit (v % 10) ∷ t)
unfolding parse_loop
fraction-digit x v scale t h i =
    let value : v / 10 * 10 + (digit (v % 10) - 48) ≡ v = omega arith in
    let a : (digit (v % 10) == dot_byte) ≡ false = ground arith in
    let b : is_digit (digit (v % 10)) ≡ true = ground arith in
    let c : (suc scale == 0) ≡ false = ground arith in
    let d : suc scale - 1 ≡ scale = omega arith in rw (a, b, c, d, value) (h (decr_32 i))

pub whole-digit :
    (x v scale m : ℕ) (t : Text)
    → ReadsWhole x v scale m t
    → ReadsWhole x (v / 10) scale (suc m) (digit (v % 10) ∷ t)
unfolding parse_loop
whole-digit x v scale m t h i l k =
    let value : v / 10 * 10 + (digit (v % 10) - 48) ≡ v = omega arith in
    let a : (digit (v % 10) == dot_byte) ≡ false = ground arith in
    let b : is_digit (digit (v % 10)) ≡ true = ground arith in
    let c : (i == 0) ≡ false = ground (arith, l) in
    let d : ltb 0 v && false ≡ false = ground arith in
    rw (a, b, c, value, d) (h (decr_32 i) (omega (arith, l, k)) (omega arith))

pub whole-dot :
    (x v scale : ℕ) (t : Text) → ReadsFraction x v scale t → ReadsWhole x v scale 0 (dot_byte ∷ t)
unfolding parse_loop
whole-dot x v scale t h i l k = h i

pub whole-zero :
    (x scale : ℕ) (t : Text) → ReadsWhole x 0 scale 0 t → ReadsWhole x 0 scale 0 (digit 0 ∷ t)
unfolding parse_loop
whole-zero x scale t h i l k = h (decr_32 i) (omega arith) (omega arith)
