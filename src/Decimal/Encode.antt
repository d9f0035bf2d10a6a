-- ===== src/Decimal/Encode.antt =====
-- What the 16 bytes of a number hold.
use ydb_go_sdk.Base.{
  ==_iff, All, All-append, Bool-cases, List, Option, [], ap, append-nil, arith, false,
  if◌then◌else◌, inl, inr, length, length-append, ltb, none, refl, replicate, some, suc, true, zero,
  ℕ, ◌*◌, ◌++◌, ◌+◌, ◌-◌, ◌<◌, ◌==◌, ◌^◌, ◌∙◌, ◌∷◌, ◌≡◌, ◌≤◌,
}
use ydb_go_sdk.Decimal.{
  BigInt, append_bytes, complement, from_end, nonneg, padding, put_bytes, put_words, set_bytes,
  size, word_count,
}
use ydb_go_sdk.Base.Word.{modulus}
use ydb_go_sdk.Decimal.Bytes.{
  IsByte, le_value, le_value-append, length-from_end, scale, set_bytes-from_end,
}
use ydb_go_sdk.Decimal.Words.{
  flip_one, flip_two, put_words-AreBytes, put_words-value, put_words_one, put_words_two,
}
use mathlib.Core.List.{append-nil}

replicate-AreBytes : (n b : ℕ) → b < 256 → All IsByte (replicate n b)
replicate-AreBytes zero b h = tt
replicate-AreBytes (suc n) b h = (h, replicate-AreBytes n b h)

from_end-AreBytes : (bs : List ℕ) → All IsByte bs → All IsByte (from_end bs)
from_end-AreBytes [] h = tt
from_end-AreBytes (b ∷ bs) (h, hs) =
    All-append IsByte (from_end bs) (b ∷ []) (from_end-AreBytes bs hs) (h, tt)

-- The result of `put`: 16 bytes with the value `v`.
abbrev pub Holds : Option (List ℕ) → ℕ → Type 0
Holds r v = (bs : List ℕ) × (r ≡ some bs) × All IsByte bs × (length bs ≡ 16) × (set_bytes 0 bs ≡ v)

-- What `put` does with a number that fits.
put_bytes_fits :
    (x : BigInt) (n v : ℕ) (pads : List ℕ)
    → (if x.negative then complement x else x.abs) ≡ n
    → padding 16 (length (put_words n n)) (if x.negative then 255 else 0) ≡ pads
    → length (put_words n n) + length pads ≡ 16
    → All IsByte pads
    → n + scale (length (put_words n n)) (le_value pads) ≡ v
    → Holds (put_bytes x 16) v
unfolding put_bytes
put_bytes_fits x n v pads en ep size h value =
    let bytes = put_words n n in
    let fits : ltb 16 (length bytes) ≡ false = ground (arith, size) in
    (
      from_end (bytes ++ pads),
      rw (en, fits, ep) refl,
      from_end-AreBytes (bytes ++ pads) (All-append IsByte bytes pads (put_words-AreBytes n n).0 h),
      length-from_end (bytes ++ pads) ∙ length-append bytes pads ∙ size,
      set_bytes-from_end (bytes ++ pads)
          ∙ le_value-append bytes pads
          ∙ omega (arith, put_words-value n n (omega arith), value),
    )

put_bytes_zero :
    (x : BigInt) → (if x.negative then complement x else x.abs) ≡ 0 → Holds (put_bytes x 16) 0
put_bytes_zero x e =
    put_bytes_fits x 0 0 (replicate 16 0) e (unfold put_words in refl) (unfold put_words in refl)
      (replicate-AreBytes 16 0 (omega arith)) (unfold put_words in unfold le_value in refl)

put_bytes_one :
    (x : BigInt) (n v : ℕ)
    → (if x.negative then complement x else x.abs) ≡ n
    → 1 ≤ n
    → n < modulus
    → n + modulus * le_value (replicate 8 (if x.negative then 255 else 0)) ≡ v
    → Holds (put_bytes x 16) v
put_bytes_one x n v e l h value =
    let size = put_words_one n l h in
    let pad : ℕ = if x.negative then 255 else 0 in
    let byte : pad < 256 = ground arith in
    put_bytes_fits x n v (replicate 8 pad) e (ap (λ k. padding 16 k pad) size) (omega (arith, size))
      (replicate-AreBytes 8 pad byte)
      (ap (λ k. n + scale k (le_value (replicate 8 pad))) size ∙ omega (arith, value))

put_bytes_two :
    (x : BigInt) (n : ℕ)
    → (if x.negative then complement x else x.abs) ≡ n
    → modulus ≤ n
    → n < modulus * modulus
    → Holds (put_bytes x 16) n
put_bytes_two x n e l h =
    let size = put_words_two n l h in
    let pad : ℕ = if x.negative then 255 else 0 in
    put_bytes_fits x n n [] e (ap (λ k. padding 16 k pad) size) (omega (arith, size)) tt
      (ap (λ k. n + scale k (le_value [])) size ∙ (unfold le_value in omega arith))

-- What the 16 bytes hold: the number, or its two's complement.
pub put_bytes-nonneg : (m : ℕ) → m < modulus * modulus → Holds (put_bytes (nonneg m) 16) m
put_bytes-nonneg m h = elim (Bool-cases (m == 0)) [
  | inl z ↦ let e : m ≡ 0 = ground (arith, z, ==_iff m 0) in rw e (put_bytes_zero (nonneg 0) refl)
  | inr z ↦ elim (Bool-cases (ltb m modulus)) [
    | inl s ↦
        put_bytes_one (nonneg m) m m refl (ground (arith, z)) (ground (arith, s))
          (unfold le_value in omega arith)
    | inr s ↦ put_bytes_two (nonneg m) m refl (ground (arith, s)) h
  ]
]

pub put_bytes-negative :
    (m : ℕ)
    → 1 ≤ m
    → m < 2 ^ 127
    → Holds (put_bytes (record { negative = true; abs = m }) 16) (modulus * modulus - m)
unfolding complement
put_bytes-negative m l h =
    let x : BigInt = record { negative = true; abs = m } in
    elim (Bool-cases (ltb m modulus)) [
      | inl s ↦
          let lt : m < modulus = ground (arith, s) in
          put_bytes_one x (modulus - m) (modulus * modulus - m)
            (ap (λ k. k + 1) (flip_one m l lt) ∙ omega arith) (omega arith) (omega arith)
            (unfold le_value in omega arith)
      | inr s ↦
          let ge : modulus ≤ m = ground (arith, s) in
          put_bytes_two x (modulus * modulus - m)
            (ap (λ k. k + 1) (flip_two m ge (omega arith)) ∙ omega arith) (omega arith)
            (omega arith)
    ]

padding_none : (used pad : ℕ) → padding used used pad ≡ []
padding_none zero pad = refl
padding_none (suc used) pad =
    let a : (suc used == 0) ≡ false = ground arith in
    let b : suc used - suc used ≡ 0 = omega arith in rw (a, b) refl

put_bytes_exact :
    (x : BigInt) (n k : ℕ)
    → (if x.negative then complement x else x.abs) ≡ n
    → length (put_words n n) ≡ k
    → put_bytes x k ≡ some (from_end (put_words n n))
unfolding put_bytes
put_bytes_exact x n k e size =
    let fits : ltb k (length (put_words n n)) ≡ false = ground (arith, size) in
    let pad = if x.negative then 255 else 0 in
    let pads : padding k (length (put_words n n)) pad ≡ [] =
      ap (λ j. padding k j pad) size ∙ padding_none k pad in
    rw (e, fits, pads) (ap (λ bs. some (from_end bs)) (append-nil (put_words n n)))

-- `Append` has room for the number: it never panics, and adds as many bytes as `size` says.
append_bytes_total :
    (p : List ℕ) (x : BigInt)
    → (bytes : List ℕ) × (append_bytes p x ≡ some (p ++ bytes)) × (length bytes ≡ size x)
unfolding append_bytes size
append_bytes_total p x =
    let n = if x.negative then complement x else x.abs in
    let used : length (put_words n n) ≡ 8 * word_count n n = (put_words-AreBytes n n).1 in
    let eq = put_bytes_exact x n (8 * word_count n n) refl used in
    (
      from_end (put_words n n),
      ap (λ r. elim r [ none ↦ none | some bytes ↦ some (p ++ bytes) ]) eq,
      length-from_end (put_words n n) ∙ used,
    )
