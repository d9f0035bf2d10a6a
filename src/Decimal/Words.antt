-- ===== src/Decimal/Words.antt =====
-- The words of a number, for numbers of one or two words.
use ydb_go_sdk.Base.{
  ==_iff, All, All-append, Bool-cases, ap, arith, false, inl, inr, length, length-append, refl, suc,
  zero, ℕ, ◌%◌, ◌*◌, ◌++◌, ◌+◌, ◌-◌, ◌/◌, ◌<◌, ◌==◌, ◌∙◌, ◌≡◌, ◌≤◌,
}
use ydb_go_sdk.Base.Word.{modulus}
use ydb_go_sdk.Decimal.{flip, put_words, size, word_bytes, word_count}
use ydb_go_sdk.Decimal.Bytes.{
  IsByte, le_value, le_value-append, scale, word_bytes-AreBytes, word_value,
}

word_count-zero : (fuel : ℕ) → word_count fuel 0 ≡ 0
unfolding word_count
word_count-zero zero = refl
word_count-zero (suc fuel) = refl

word_count-next :
    (fuel n : ℕ) → 1 ≤ n → word_count (suc fuel) n ≡ suc (word_count fuel (n / modulus))
unfolding word_count
word_count-next fuel n h = let e : (n == 0) ≡ false = ground (arith, h, ==_iff n 0) in rw e refl

word_count-one : (fuel n : ℕ) → n ≤ fuel → 1 ≤ n → n < modulus → word_count fuel n ≡ 1
word_count-one zero n f l h = absurd (omega (arith, f, l))
word_count-one (suc fuel) n f l h =
    let e : n / modulus ≡ 0 = omega (arith, h) in
    word_count-next fuel n l ∙ ap (λ k. suc (word_count fuel k)) e ∙ ap suc (word_count-zero fuel)

word_count-two :
    (fuel n : ℕ) → n ≤ fuel → modulus ≤ n → n < modulus * modulus → word_count fuel n ≡ 2
word_count-two zero n f l h = absurd (omega (arith, f, l))
word_count-two (suc fuel) n f l h =
    word_count-next fuel n (omega (arith, l))
    ∙ ap suc (
        word_count-one fuel (n / modulus) (omega (arith, f, l)) (omega (arith, l))
          (omega (arith, h)))

put_words-next :
    (fuel n : ℕ)
    → 1 ≤ n
    → put_words (suc fuel) n ≡ word_bytes 8 (n % modulus) ++ put_words fuel (n / modulus)
unfolding put_words
put_words-next fuel n h = let e : (n == 0) ≡ false = ground (arith, h, ==_iff n 0) in rw e refl

pub put_words-value : (fuel n : ℕ) → n ≤ fuel → le_value (put_words fuel n) ≡ n
put_words-value zero n f = unfold put_words in unfold le_value in omega (arith, f)
put_words-value (suc fuel) n f = elim (Bool-cases (n == 0)) [
  | inl z ↦
      let e : n ≡ 0 = ground (arith, z, ==_iff n 0) in
      rw e (unfold put_words in unfold le_value in refl)
  | inr z ↦
      let l : 1 ≤ n = ground (arith, z, ==_iff n 0) in
      let bytes = word_bytes 8 (n % modulus) in
      let rest = put_words fuel (n / modulus) in
      let size = (word_bytes-AreBytes 8 (n % modulus)).1 in
      ap le_value (put_words-next fuel n l)
      ∙ le_value-append bytes rest
      ∙ ap (λ k. le_value bytes + scale k (le_value rest)) size
      ∙ omega (
        arith,
        word_value (n % modulus) (omega arith),
        put_words-value fuel (n / modulus) (omega (arith, l, f)),
      )
]

pub put_words-AreBytes :
    (fuel n : ℕ)
    → All IsByte (put_words fuel n) × (length (put_words fuel n) ≡ 8 * word_count fuel n)
put_words-AreBytes zero n = unfold put_words in unfold word_count in (tt, refl)
put_words-AreBytes (suc fuel) n = elim (Bool-cases (n == 0)) [
  | inl z ↦
      let e : n ≡ 0 = ground (arith, z, ==_iff n 0) in
      rw e (unfold put_words in unfold word_count in (tt, refl))
  | inr z ↦
      let l : 1 ≤ n = ground (arith, z, ==_iff n 0) in
      let bytes = word_bytes 8 (n % modulus) in
      let rest = put_words fuel (n / modulus) in
      let (a, size) = word_bytes-AreBytes 8 (n % modulus) in
      let (b, size') = put_words-AreBytes fuel (n / modulus) in
      rw (put_words-next fuel n l, word_count-next fuel n l)
        (All-append IsByte bytes rest a b, omega (arith, length-append bytes rest, size, size'))
]

-- What `not` leaves of a number of one word, and of two.
pub flip_one : (n : ℕ) → 1 ≤ n → n < modulus → flip n ≡ modulus - 1 - n
unfolding flip
flip_one n l h = rw (word_count-one n n (omega arith) l h) refl

pub flip_two : (n : ℕ) → modulus ≤ n → n < modulus * modulus → flip n ≡ modulus * modulus - 1 - n
unfolding flip
flip_two n l h = rw (word_count-two n n (omega arith) l h) refl

pub put_words_one : (n : ℕ) → 1 ≤ n → n < modulus → length (put_words n n) ≡ 8
put_words_one n l h =
    (put_words-AreBytes n n).1 ∙ ap (λ k. 8 * k) (word_count-one n n (omega arith) l h)

pub put_words_two : (n : ℕ) → modulus ≤ n → n < modulus * modulus → length (put_words n n) ≡ 16
put_words_two n l h =
    (put_words-AreBytes n n).1 ∙ ap (λ k. 8 * k) (word_count-two n n (omega arith) l h)
