-- ===== src/Decimal/Bytes.antt =====
-- What the bytes of an array say, read from its end and from its beginning.
use ydb_go_sdk.Base.{
  All, List, [], ap, arith, length, length-append, refl, suc, sym, zero, ℕ, ◌*◌, ◌++◌, ◌+◌, ◌/◌,
  ◌<◌, ◌∙◌, ◌∷◌, ◌≡◌, ◌≤◌,
}
use ydb_go_sdk.Base.Word.{modulus}
use ydb_go_sdk.Decimal.{from_end, set_bytes, word_bytes}

-- 256 ^ k * v, and v / 256 ^ k
abbrev pub scale : ℕ → ℕ → ℕ
scale zero v = v
scale (suc k) v = 256 * scale k v

abbrev pub shift : ℕ → ℕ → ℕ
shift zero v = v
shift (suc k) v = shift k (v / 256)

abbrev pub IsByte : ℕ → Type 0
IsByte b = b < 256

-- The value of bytes with the lowest first.
unfoldable pub le_value : List ℕ → ℕ
le_value [] = 0
le_value (b ∷ bs) = b + 256 * le_value bs

pub scale-mul : (k a b : ℕ) → scale k (a * 256 + b) ≡ scale (suc k) a + scale k b
scale-mul zero a b = omega arith
scale-mul (suc k) a b = omega (arith, scale-mul k a b)

scale-add : (k a b : ℕ) → scale k (a + b) ≡ scale k a + scale k b
scale-add zero a b = refl
scale-add (suc k) a b = omega (arith, scale-add k a b)

scale_zero : (k : ℕ) → scale k 0 ≡ 0
scale_zero zero = refl
scale_zero (suc k) = omega (arith, scale_zero k)

scale_byte : (k b : ℕ) → b < 256 → scale k b ≤ 255 * scale k 1
scale_byte zero b h = omega arith
scale_byte (suc k) b h = omega (arith, scale_byte k b h)

pub le_value-append :
    (xs ys : List ℕ) → le_value (xs ++ ys) ≡ le_value xs + scale (length xs) (le_value ys)
unfolding le_value
le_value-append [] ys = omega arith
le_value-append (x ∷ xs) ys = omega (arith, le_value-append xs ys)

pub set_bytes-eq :
    (acc : ℕ) (bs : List ℕ) → set_bytes acc bs ≡ scale (length bs) acc + set_bytes 0 bs
unfolding set_bytes
set_bytes-eq acc [] = omega arith
set_bytes-eq acc (b ∷ bs) =
    set_bytes-eq (acc * 256 + b) bs
    ∙ omega (arith, scale-mul (length bs) acc b, scale-mul (length bs) 0 b, scale_zero (length bs))
    ∙ ap (λ x. scale (suc (length bs)) acc + x) (sym (set_bytes-eq (0 * 256 + b) bs))

set_bytes-append :
    (acc : ℕ) (xs : List ℕ) (b : ℕ) → set_bytes acc (xs ++ b ∷ []) ≡ set_bytes acc xs * 256 + b
unfolding set_bytes
set_bytes-append acc [] b = refl
set_bytes-append acc (x ∷ xs) b = set_bytes-append (acc * 256 + x) xs b

-- The value does not depend on the end from which the bytes are read.
pub set_bytes-from_end : (bs : List ℕ) → set_bytes 0 (from_end bs) ≡ le_value bs
unfolding le_value
set_bytes-from_end [] = unfold set_bytes in refl
set_bytes-from_end (b ∷ bs) =
    set_bytes-append 0 (from_end bs) b ∙ omega (arith, set_bytes-from_end bs)

pub length-from_end : (bs : List ℕ) → length (from_end bs) ≡ length bs
length-from_end [] = refl
length-from_end (b ∷ bs) = omega (arith, length-append (from_end bs) (b ∷ []), length-from_end bs)

-- Bytes are below the power of their number.
pub set_bytes-lt : (bs : List ℕ) → All IsByte bs → set_bytes 0 bs < scale (length bs) 1
unfolding set_bytes
set_bytes-lt [] h = omega arith
set_bytes-lt (b ∷ bs) (h, hs) =
    let n = length bs in
    let first : set_bytes 0 (b ∷ bs) ≡ scale n (0 * 256 + b) + set_bytes 0 bs =
      set_bytes-eq (0 * 256 + b) bs in
    omega (arith, first, set_bytes-lt bs hs, scale-mul n 0 b, scale_zero n, scale_byte n b h)

-- The bytes of a word.
pub word_bytes-value : (k d : ℕ) → le_value (word_bytes k d) + scale k (shift k d) ≡ d
unfolding le_value word_bytes
word_bytes-value zero d = omega arith
word_bytes-value (suc k) d = omega (arith, word_bytes-value k (d / 256))

pub word_bytes-AreBytes : (k d : ℕ) → All IsByte (word_bytes k d) × (length (word_bytes k d) ≡ k)
unfolding word_bytes
word_bytes-AreBytes zero d = (tt, refl)
word_bytes-AreBytes (suc k) d =
    let (h, l) = word_bytes-AreBytes k (d / 256) in ((omega arith, h), omega (arith, l))

pub shift-lt : (k d m : ℕ) → d < scale k m → shift k d < m
shift-lt zero d m h = h
shift-lt (suc k) d m h = shift-lt k (d / 256) m (omega (arith, h))

-- A word is the value of its eight bytes.
pub word_value : (d : ℕ) → d < modulus → le_value (word_bytes 8 d) ≡ d
word_value d h = omega (arith, word_bytes-value 8 d, shift-lt 8 d 1 (omega arith))
