-- ===== src/Bind/Positional/Laws.antt =====
-- The loop of the rewriting with positional arguments.
use mathlib.Core.Path.{subst}
use ydb_go_sdk.Base.{
  List, Result, [], ap, append-nil, append_assoc, arith, drop, err, get_elem?, inl, inr, length,
  none, ok, panic, refl, some, suc, sym, zero, ℕ, ◌++◌, ◌+◌, ◌∙◌, ◌∷◌, ◌≡◌, ◌⊎◌,
}
use ydb_go_sdk.Bind.Lexer.{Part, Text, numeric_arg, positional_arg, verbatim}
use ydb_go_sdk.Bind.Args.{Arg, BindError, Param, auto_name, to_ydb_param}
use ydb_go_sdk.Bind.Positional.{Progress, positional_loop, positional_part}

-- The number of positional arguments, and the query with the name of its own number for each.
abbrev pub marks : List Part → ℕ
marks [] = 0
marks (verbatim t ∷ ps) = marks ps
marks (positional_arg ∷ ps) = marks ps + 1
marks (numeric_arg n ∷ ps) = marks ps

abbrev pub fill : ℕ → List Part → Text
fill i [] = []
fill i (verbatim t ∷ ps) = t ++ fill i ps
fill i (positional_arg ∷ ps) = auto_name i ++ fill (suc i) ps
fill i (numeric_arg n ∷ ps) = fill i ps

-- Each argument became its parameter, with the names from number `i` on.
abbrev pub Converted : ℕ → List Arg → List Param → Type 0
Converted i [] [] = Unit
Converted i [] (p ∷ ps) = ⊥
Converted i (a ∷ rest) [] = ⊥
Converted i (a ∷ rest) (p ∷ ps) = (to_ydb_param (auto_name i) a ≡ ok p) × Converted (suc i) rest ps

drop-cases {ℓ} :
    {A : Type ℓ} (i : ℕ) (xs : List A)
    → ((drop i xs ≡ []) × (get_elem? xs i ≡ none))
      ⊎ ((x : A) × (drop i xs ≡ x ∷ drop (suc i) xs) × (get_elem? xs i ≡ some x))
drop-cases zero [] = inl (refl, refl)
drop-cases zero (x ∷ xs) = inr (x, refl, refl)
drop-cases (suc i) [] = inl (refl, refl)
drop-cases (suc i) (x ∷ xs) = drop-cases i xs

abbrev progressed : Text → List Param → ℕ → Result BindError Progress
progressed b ps n = ok (record { buffer = b; new_params = ps; position = n })

pub progressed-eq :
    {b c : Text} {ps qs : List Param} {m n : ℕ}
    → b ≡ c
    → ps ≡ qs
    → m ≡ n
    → progressed b ps m ≡ progressed c qs n
progressed-eq e f h = rw (e, f, h) refl

abbrev Advanced : List Arg → List Part → Progress → Progress → Type 0
Advanced args ps g g' =
    (used : List Arg) × (new : List Param) × (drop g.position args ≡ used ++ drop g'.position args)
    × Converted g.position used new
    × (g'.new_params ≡ g.new_params ++ new)
    × (g'.buffer ≡ g.buffer ++ fill g.position ps)
    × (g'.position ≡ g.position + marks ps)
    × (length used ≡ marks ps)

pub Result-cases {ℓ κ} :
    {E : Type ℓ} {A : Type κ} (r : Result E A)
    → ((a : A) × (r ≡ ok a)) ⊎ ((e : E) × (r ≡ err e)) ⊎ (r ≡ panic)
Result-cases (ok a) = inl (a, refl)
Result-cases (err e) = inr (inl (e, refl))
Result-cases panic = inr (inr refl)

abbrev advanced : Progress → Param → Progress
advanced g x = record {
  buffer = g.buffer ++ auto_name g.position;
  new_params = g.new_params ++ x ∷ [];
  position = suc g.position;
}

loop-next :
    (args : List Arg) (ps : List Part) (g : Progress) (a : Arg) (x : Param)
    → get_elem? args g.position ≡ some a
    → to_ydb_param (auto_name g.position) a ≡ ok x
    → positional_loop args (positional_arg ∷ ps) g ≡ positional_loop args ps (advanced g x)
loop-next args ps g a x f h = unfold positional_loop in unfold positional_part in rw (f, h) refl

pub loop-Advanced :
    (args : List Arg) (ps : List Part) (g g' : Progress)
    → positional_loop args ps g ≡ ok g'
    → Advanced args ps g g'
unfolding positional_loop
loop-Advanced args [] g g' e =
    let same : g ≡ g' = ground (arith, e) in
    subst (Advanced args [] g) same (
      [],
      [],
      refl,
      tt,
      sym (append-nil g.new_params),
      sym (append-nil g.buffer),
      omega arith,
      refl,
    )
loop-Advanced args (verbatim t ∷ ps) g g' e =
    let (used, new, d, c, p, b, q, l) =
      loop-Advanced args ps (record g { buffer = g.buffer ++ t }) g' e in
    (used, new, d, c, p, b ∙ append_assoc g.buffer t (fill g.position ps), q, l)
loop-Advanced args (numeric_arg n ∷ ps) g g' e = loop-Advanced args ps g g' e
loop-Advanced args (positional_arg ∷ ps) g g' e = elim (drop-cases g.position args) [
  | inl (d, f) ↦ absurd (ground (arith, e, f))
  | inr (a, d, f) ↦ elim (Result-cases (to_ydb_param (auto_name g.position) a)) [
    | inl (x, h) ↦
        let (used, new, d', c, p, b, q, l) =
          loop-Advanced args ps (advanced g x) g' (sym (loop-next args ps g a x f h) ∙ e) in
        (
          a ∷ used,
          x ∷ new,
          d ∙ ap (λ y. a ∷ y) d',
          (h, c),
          p ∙ append_assoc g.new_params (x ∷ []) new,
          b ∙ append_assoc g.buffer (auto_name g.position) (fill (suc g.position) ps),
          omega (arith, q),
          omega (arith, l),
        )
    | inr (inl (x, h)) ↦ absurd (ground (arith, e, f, h))
    | inr (inr h) ↦ absurd (ground (arith, e, f, h))
  ]
]

pub loop_complete :
    (args : List Arg) (ps : List Part) (g : Progress) (used tail : List Arg) (new : List Param)
    → drop g.position args ≡ used ++ tail
    → Converted g.position used new
    → length used ≡ marks ps
    → positional_loop args ps g
      ≡ progressed (g.buffer ++ fill g.position ps) (g.new_params ++ new) (g.position + marks ps)
unfolding positional_loop
loop_complete args [] g [] tail [] d c l =
    progressed-eq (sym (append-nil g.buffer)) (sym (append-nil g.new_params)) (omega arith)
loop_complete args [] g [] tail (x ∷ new) d c l = elim c [ ]
loop_complete args [] g (a ∷ used) tail new d c l = absurd (omega (arith, l))
loop_complete args (verbatim t ∷ ps) g used tail new d c l =
    let rest = loop_complete args ps (record g { buffer = g.buffer ++ t }) used tail new d c l in
    rest ∙ progressed-eq (append_assoc g.buffer t (fill g.position ps)) refl refl
loop_complete args (numeric_arg n ∷ ps) g used tail new d c l =
    loop_complete args ps g used tail new d c l
loop_complete args (positional_arg ∷ ps) g [] tail new d c l = absurd (omega (arith, l))
loop_complete args (positional_arg ∷ ps) g (a ∷ used) tail [] d c l = elim c [ ]
loop_complete args (positional_arg ∷ ps) g (a ∷ used) tail (x ∷ new) d (h, c) l =
    elim (drop-cases g.position args) [
      | inl (d', f) ↦ absurd (ground (arith, d, d'))
      | inr (b, d', f) ↦
          let same : b ≡ a = ground (arith, d, d') in
          let further : drop (suc g.position) args ≡ used ++ tail = ground (arith, d, d') in
          let rest =
            loop_complete args ps (advanced g x) used tail new further c (omega (arith, l)) in
          loop-next args ps g a x (f ∙ ap some same) h
          ∙ rest
          ∙ progressed-eq (append_assoc g.buffer (auto_name g.position) (fill (suc g.position) ps))
              (append_assoc g.new_params (x ∷ []) new) (omega arith)
    ]
