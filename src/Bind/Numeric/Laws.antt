-- ===== src/Bind/Numeric/Laws.antt =====
-- When a query with numeric arguments is rewritten, and into what.
use mathlib.Core.Path.{subst}
use ydb_go_sdk.Base.{
  ==_iff, Bool, Bool-cases, List, Option, Result, [], ap, append-nil, append_assoc, arith, bind_ok,
  err, false, get_elem?, inl, inr, length, ltb, none, ok, panic, refl, set, some, suc, sym, true, ℕ,
  ◌++◌, ◌-◌, ◌==◌, ◌||◌, ◌∙◌, ◌∷◌, ◌≡◌, ◌≤◌,
}
use ydb_go_sdk.Bind.Lexer.{Part, Text, numeric_arg, positional_arg, verbatim}
use ydb_go_sdk.Bind.Args.{Arg, BindError, Param, auto_name, to_ydb_param}
use ydb_go_sdk.Bind.Numeric.{
  Filling, fill_slot, new_slot, numeric_loop, numeric_part, use_slot, write_name,
}
use ydb_go_sdk.Bind.Positional.Laws.{Result-cases}
use ydb_go_sdk.Bind.Numeric.Slots.{
  IsPartial, IsPartial-At, IsPartial-length, filled, filled-set, set-IsPartial,
}

-- The argument number `n`, from 1 on, becomes this parameter.
abbrev Becomes : List Arg → ℕ → Param → Type 0
Becomes args n p =
    (a : Arg) × (1 ≤ n)
    × (n ≤ length args)
    × (get_elem? args (n - 1) ≡ some a)
    × (to_ydb_param (auto_name (n - 1)) a ≡ ok p)

abbrev name_of : Result BindError Param → Text
name_of (ok p) = p.name
name_of (err e) = []
name_of panic = []

abbrev name_found : ℕ → Option Arg → Text
name_found i none = []
name_found i (some a) = name_of (to_ydb_param (auto_name i) a)

-- The name of the parameter that argument number `n` becomes.
abbrev name_at : List Arg → ℕ → Text
name_at args n = name_found (n - 1) (get_elem? args (n - 1))

abbrev pub replaced : List Arg → List Part → Text
replaced args [] = []
replaced args (verbatim t ∷ ps) = t ++ replaced args ps
replaced args (positional_arg ∷ ps) = replaced args ps
replaced args (numeric_arg n ∷ ps) = name_at args n ++ replaced args ps

abbrev pub mentions : ℕ → List Part → Bool
mentions n [] = false
mentions n (verbatim t ∷ ps) = mentions n ps
mentions n (positional_arg ∷ ps) = mentions n ps
mentions n (numeric_arg m ∷ ps) = m == n || mentions n ps

abbrev pub IsGood : List Arg → Filling → Type 0
IsGood args g = IsPartial 0 args g.slots

-- What one numeric argument does.
abbrev Used : List Arg → ℕ → Filling → Filling → Type 0
Used args n g g' =
    (g'.written ≡ g.written ++ name_at args n)
    × IsGood args g'
    × ((k : ℕ) → filled g'.slots k ≡ (n == suc k || filled g.slots k))

name_at-Becomes : (args : List Arg) (n : ℕ) (p : Param) → Becomes args n p → name_at args n ≡ p.name
name_at-Becomes args n p (a, _, _, f, h) = ap (name_found (n - 1)) f ∙ ap name_of h

part-new :
    (args : List Arg) (n : ℕ) (g : Filling) (a : Arg)
    → (n == 0) ≡ false
    → ltb (length args) n ≡ false
    → get_elem? g.slots (n - 1) ≡ some none
    → get_elem? args (n - 1) ≡ some a
    → numeric_part args (numeric_arg n) g ≡ fill_slot (n - 1) g (to_ydb_param (auto_name (n - 1)) a)
unfolding numeric_part
part-new args n g a x y e f = rw (x, y) (ap (use_slot args (n - 1) g) e ∙ ap (new_slot (n - 1) g) f)

previous : (n k : ℕ) → 1 ≤ n → (n - 1 == k) ≡ (n == suc k)
previous n k l = ground (arith, ==_iff (n - 1) k, ==_iff n (suc k))

already :
    (n : ℕ) (os : List (Option Param))
    → 1 ≤ n
    → filled os (n - 1) ≡ true
    → (k : ℕ) → filled os k ≡ (n == suc k || filled os k)
already n os l h k = elim (Bool-cases (n == suc k)) [
  | inr e ↦ rw e refl
  | inl e ↦
      let same : n - 1 ≡ k = ground (arith, e, ==_iff n (suc k)) in
      rw e (ap (filled os) (sym same) ∙ h)
]

use-ok :
    (args : List Arg) (n : ℕ) (p : Param) (g : Filling)
    → IsGood args g
    → Becomes args n p
    → (g' : Filling) × (numeric_part args (numeric_arg n) g ≡ ok g') × Used args n g g'
unfolding numeric_part
use-ok args n p g good (a, low, high, f, h) =
    let nonzero : (n == 0) ≡ false = ground (arith, low, ==_iff n 0) in
    let inside : ltb (length args) n ≡ false = ground (arith, high) in
    let (b, f', there) =
      IsPartial-At 0 (n - 1) (n - 1) args g.slots (omega arith) good (omega arith) in
    elim there [
      | inl empty ↦ (
        record { written = g.written ++ p.name; slots = set g.slots (n - 1) (some p) },
        part-new args n g a nonzero inside empty f ∙ ap (fill_slot (n - 1) g) h,
        (
          ap (λ x. g.written ++ x) (sym (name_at-Becomes args n p (a, low, high, f, h))),
          set-IsPartial 0 (n - 1) (n - 1) args g.slots a p (omega arith) good f h,
          (λ k.
              filled-set g.slots (n - 1) k p
                (omega (arith, IsPartial-length 0 args g.slots good, high, low))
              ∙ ap (λ x. x || filled g.slots k) (previous n k low)),
        ),
      )
      | inr (q, e, c, full) ↦ (
        write_name g q,
        rw (nonzero, inside, e) refl,
        (
          ap (λ x. g.written ++ x) (sym (name_at-Becomes args n q (b, low, high, f', c))),
          good,
          already n g.slots low full,
        ),
      )
    ]

-- An argument that can be used was in range and became a parameter.
use-Becomes :
    (args : List Arg) (n : ℕ) (g g' : Filling)
    → IsGood args g
    → numeric_part args (numeric_arg n) g ≡ ok g'
    → (p : Param) × Becomes args n p
unfolding numeric_part
use-Becomes args n g g' good e = elim (Bool-cases (n == 0)) [
  | inl z ↦ absurd (ground (arith, e, z))
  | inr z ↦ elim (Bool-cases (ltb (length args) n)) [
    | inl big ↦ absurd (ground (arith, e, z, big))
    | inr small ↦
        let low : 1 ≤ n = ground (arith, z, ==_iff n 0) in
        let high : n ≤ length args = ground (arith, small) in
        let (a, f, there) =
          IsPartial-At 0 (n - 1) (n - 1) args g.slots (omega arith) good (omega arith) in
        elim there [
          | inr (q, _, c, _) ↦ (q, (a, low, high, f, c))
          | inl empty ↦ elim (Result-cases (to_ydb_param (auto_name (n - 1)) a)) [
            | inl (p, c) ↦ (p, (a, low, high, f, c))
            | inr (inl (x, c)) ↦ absurd (
                ground
                  (arith, sym e ∙ part-new args n g a z small empty f ∙ ap (fill_slot (n - 1) g) c))
            | inr (inr c) ↦ absurd (
                ground
                  (arith, sym e ∙ part-new args n g a z small empty f ∙ ap (fill_slot (n - 1) g) c))
          ]
        ]
  ]
]

abbrev pub AllBecome : List Arg → List Part → Type 0
AllBecome args [] = Unit
AllBecome args (verbatim t ∷ ps) = AllBecome args ps
AllBecome args (positional_arg ∷ ps) = AllBecome args ps
AllBecome args (numeric_arg n ∷ ps) = ((p : Param) × Becomes args n p) × AllBecome args ps

-- What the loop does.
abbrev pub Replaced : List Arg → List Part → Filling → Filling → Type 0
Replaced args ps g g' =
    (g'.written ≡ g.written ++ replaced args ps)
    × IsGood args g'
    × ((k : ℕ) → filled g'.slots k ≡ (mentions (suc k) ps || filled g.slots k))

pub loop-Replaced :
    (args : List Arg) (ps : List Part) (g : Filling)
    → IsGood args g
    → AllBecome args ps
    → (g' : Filling) × (numeric_loop args ps g ≡ ok g') × Replaced args ps g g'
unfolding numeric_loop
loop-Replaced args [] g good h = (g, refl, (sym (append-nil g.written), good, λ k. refl))
loop-Replaced args (verbatim t ∷ ps) g good h =
    let (g', e, (w, good', f)) =
      loop-Replaced args ps (record g { written = g.written ++ t }) good h in
    (g', e, (w ∙ append_assoc g.written t (replaced args ps), good', f))
loop-Replaced args (positional_arg ∷ ps) g good h = loop-Replaced args ps g good h
loop-Replaced args (numeric_arg n ∷ ps) g good ((p, b), h) =
    let (g₁, e₁, (w₁, good₁, f₁)) = use-ok args n p g good b in
    let (g', e, (w, good', f)) = loop-Replaced args ps g₁ good₁ h in
    (
      g',
      ap (λ x. bind_ok x (numeric_loop args ps)) e₁ ∙ e,
      (
        w
            ∙ ap (λ x. x ++ replaced args ps) w₁
            ∙ append_assoc g.written (name_at args n) (replaced args ps),
        good',
        λ k. ground (arith, f k, f₁ k),
      ),
    )

pub loop-AllBecome :
    (args : List Arg) (ps : List Part) (g g' : Filling)
    → IsGood args g
    → numeric_loop args ps g ≡ ok g'
    → AllBecome args ps
unfolding numeric_loop
loop-AllBecome args [] g g' good e = tt
loop-AllBecome args (verbatim t ∷ ps) g g' good e =
    loop-AllBecome args ps (record g { written = g.written ++ t }) g' good e
loop-AllBecome args (positional_arg ∷ ps) g g' good e = loop-AllBecome args ps g g' good e
loop-AllBecome args (numeric_arg n ∷ ps) g g' good e =
    elim (Result-cases (numeric_part args (numeric_arg n) g)) [
      | inr (inl (x, c)) ↦
          absurd (ground (arith, sym e ∙ ap (λ r. bind_ok r (numeric_loop args ps)) c))
      | inr (inr c) ↦ absurd (ground (arith, sym e ∙ ap (λ r. bind_ok r (numeric_loop args ps)) c))
      | inl (g₁, c) ↦
          let (p, b) = use-Becomes args n g g₁ good c in
          let (g₂, c', (_, good₂, _)) = use-ok args n p g good b in
          let same : g₂ ≡ g₁ = ground (arith, c, c') in
          (
            (p, b),
            loop-AllBecome args ps g₁ g' (subst (IsGood args) same good₂)
                (sym (ap (λ r. bind_ok r (numeric_loop args ps)) c) ∙ e),
          )
    ]
