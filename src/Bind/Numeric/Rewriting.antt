-- ===== src/Bind/Numeric/Rewriting.antt =====
-- The rewriting of a query with numeric arguments as a whole.
use mathlib.Core.Path.{subst}
use ydb_go_sdk.Base.{
  ==_iff, Bool, Bool-cases, List, Result, [], ap, arith, bind_ok, false, get_elem?, if◌then◌else◌,
  inl, inr, length, ltb, none, ok, panic, refl, replicate, some, suc, sym, true, zero, ℕ, ◌++◌, ◌+◌,
  ◌-◌, ◌<◌, ◌==◌, ◌||◌, ◌↔◌, ◌∙◌, ◌∷◌, ◌≡◌, ◌≤◌, ◌⊎◌,
}
use ydb_go_sdk.Bind.Lexer.{
  Part, Text, numeric, lex, numeric_arg, parts, positional_arg, rune_error, verbatim,
}
use ydb_go_sdk.Bind.Args.{Arg, BindError, Param, auto_name, to_ydb_param}
use ydb_go_sdk.Bind.Positional.{Rewritten}
use ydb_go_sdk.Bind.Positional.Laws.{Converted, Result-cases}
use ydb_go_sdk.Bind.Numeric.{
  Filling, all_used, numeric_end, numeric_loop, numeric_parts, numeric_prefix, rewrite_numeric,
}
use ydb_go_sdk.Bind.Lexer.Outcome.{Overflows, lex-Spells}
use ydb_go_sdk.Bind.Lexer.Spelling.{Spells, full, has}
use ydb_go_sdk.Bind.Numeric.Slots.{
  IsPartial-length, all_used-Converted, all_used-ok, empty-IsPartial, filled, filled-empty,
}
use ydb_go_sdk.Bind.Numeric.Laws.{
  AllBecome, Replaced, loop-AllBecome, loop-Replaced, mentions, replaced,
}

abbrev titled : List Arg → Text → Text
titled args t = if ltb 0 (length args) then numeric_prefix ++ t else t

-- The numbers in the query are those from 1 to the number of arguments, each as often as one likes.
abbrev pub IsNumericRewriting : List Part → List Arg → Rewritten → Type 0
IsNumericRewriting ps args r =
    ((n : ℕ) → (mentions n ps ≡ true) ↔ ((1 ≤ n) × (n ≤ length args)))
    × Converted 0 args r.new_args
    × (r.yql ≡ titled args (replaced args ps))

AllBecome-range :
    (args : List Arg) (ps : List Part) (n : ℕ)
    → AllBecome args ps
    → mentions n ps ≡ true
    → (1 ≤ n) × (n ≤ length args)
AllBecome-range args [] n h m = absurd (ground (arith, m))
AllBecome-range args (verbatim t ∷ ps) n h m = AllBecome-range args ps n h m
AllBecome-range args (positional_arg ∷ ps) n h m = AllBecome-range args ps n h m
AllBecome-range args (numeric_arg k ∷ ps) n ((p, (a, low, high, _, _)), h) m =
    elim (Bool-cases (k == n)) [
      | inl e ↦ (ground (arith, e, low, ==_iff k n), ground (arith, e, high, ==_iff k n))
      | inr e ↦ AllBecome-range args ps n h (ground (arith, e, m))
    ]

Converted-at :
    (i j k : ℕ) (args : List Arg) (ns : List Param)
    → j ≡ k + i
    → Converted i args ns
    → k < length args
    → (a : Arg) × (p : Param) × (get_elem? args k ≡ some a) × (to_ydb_param (auto_name j) a ≡ ok p)
Converted-at i j k [] ns e c l = absurd (omega (arith, l))
Converted-at i j k (a ∷ rest) [] e c l = elim c [ ]
Converted-at i j zero (a ∷ rest) (p ∷ ns) e (h, c) l =
    let same : j ≡ i = omega (arith, e) in
    (a, p, refl, ap (λ n. to_ydb_param (auto_name n) a) same ∙ h)
Converted-at i j (suc k) (a ∷ rest) (p ∷ ns) e (h, c) l =
    Converted-at (suc i) j k rest ns (omega (arith, e)) c (omega (arith, l))

Converted-length :
    (i : ℕ) (args : List Arg) (ns : List Param) → Converted i args ns → length ns ≡ length args
Converted-length i [] [] c = refl
Converted-length i [] (p ∷ ns) c = elim c [ ]
Converted-length i (a ∷ rest) [] c = elim c [ ]
Converted-length i (a ∷ rest) (p ∷ ns) (h, c) = ap suc (Converted-length (suc i) rest ns c)

Converted-unique :
    (i : ℕ) (args : List Arg) (ns ms : List Param)
    → Converted i args ns
    → Converted i args ms
    → ns ≡ ms
Converted-unique i [] [] [] c d = refl
Converted-unique i [] [] (p ∷ ns) c d = elim d [ ]
Converted-unique i [] (p ∷ ns) ms c d = elim c [ ]
Converted-unique i (a ∷ rest) [] ms c d = elim c [ ]
Converted-unique i (a ∷ rest) (p ∷ ns) [] c d = elim d [ ]
Converted-unique i (a ∷ rest) (p ∷ ns) (q ∷ ms) (h, c) (k, d) =
    let same : p ≡ q = ground (arith, h, k) in cc (same, Converted-unique (suc i) rest ns ms c d)

range-AllBecome :
    (args : List Arg) (ps : List Part) (ns : List Param)
    → Converted 0 args ns
    → ((n : ℕ) → mentions n ps ≡ true → (1 ≤ n) × (n ≤ length args))
    → AllBecome args ps
range-AllBecome args [] ns c h = tt
range-AllBecome args (verbatim t ∷ ps) ns c h = range-AllBecome args ps ns c h
range-AllBecome args (positional_arg ∷ ps) ns c h = range-AllBecome args ps ns c h
range-AllBecome args (numeric_arg k ∷ ps) ns c h =
    let (low, high) = h k (ground (arith, ==_iff k k)) in
    let (a, p, f, e) =
      Converted-at 0 (k - 1) (k - 1) args ns (omega arith) c (omega (arith, low, high)) in
    ((p, (a, low, high, f, e)), range-AllBecome args ps ns c (λ n m. h n (ground (arith, m))))

or_false : (b : Bool) → b || false ≡ b
or_false true = refl
or_false false = refl

abbrev at_first : List Arg → Filling
at_first args = record { written = []; slots = replicate (length args) none }

abbrev finish_with : Filling → Result BindError Rewritten
finish_with g = bind_ok (all_used g.slots) (λ new. ok (numeric_end g.written new))

-- A slot is filled exactly if its number is in the query.
mentioned :
    (args : List Arg) (ps : List Part) (g : Filling) (n : ℕ)
    → Replaced args ps (at_first args) g
    → 1 ≤ n
    → filled g.slots (n - 1) ≡ mentions n ps
mentioned args ps g n (_, _, f) l =
    let same : suc (n - 1) ≡ n = omega arith in
    f (n - 1)
    ∙ ap (λ b. mentions (suc (n - 1)) ps || b) (filled-empty (length args) (n - 1))
    ∙ or_false (mentions (suc (n - 1)) ps)
    ∙ ap (λ m. mentions m ps) same

finished :
    (args : List Arg) (ps : List Part) (g : Filling) (ns : List Param)
    → Replaced args ps (at_first args) g
    → Converted 0 args ns
    → numeric_end g.written ns ≡ record { yql = titled args (replaced args ps); new_args = ns }
unfolding numeric_end
finished args ps g ns (w, _, _) c = rw (w, Converted-length 0 args ns c) refl

ended_sound :
    (args : List Arg) (ps : List Part) (g : Filling) (r : Rewritten)
    → AllBecome args ps
    → Replaced args ps (at_first args) g
    → finish_with g ≡ ok r
    → IsNumericRewriting ps args r
ended_sound args ps g r all done e = elim (Result-cases (all_used g.slots)) [
  | inr (inl (x, c)) ↦ absurd (ground (arith, e, c))
  | inr (inr c) ↦ absurd (ground (arith, e, c))
  | inl (ns, c) ↦
      let (conv, full) = all_used-Converted 0 args g.slots ns done.1 c in
      let same : numeric_end g.written ns ≡ r = ground (arith, e, c) in
      subst (IsNumericRewriting ps args) (sym (finished args ps g ns done conv) ∙ same) (
        (λ n. (
          AllBecome-range args ps n all,
          λ (l, m). sym (mentioned args ps g n done l) ∙ full (n - 1) (omega (arith, l, m)),
        )),
        conv,
        refl,
      )
]

numeric_sound :
    (args : List Arg) (ps : List Part) (r : Rewritten)
    → numeric_parts args (parts ps) ≡ ok r
    → IsNumericRewriting ps args r
unfolding numeric_parts
numeric_sound args ps r e = elim (Result-cases (numeric_loop args ps (at_first args))) [
  | inr (inl (x, c)) ↦ absurd (ground (arith, sym e ∙ ap (λ x. bind_ok x finish_with) c))
  | inr (inr c) ↦ absurd (ground (arith, sym e ∙ ap (λ x. bind_ok x finish_with) c))
  | inl (g₀, c₀) ↦
      let all = loop-AllBecome args ps (at_first args) g₀ (empty-IsPartial 0 args) c₀ in
      let (g, c, done) = loop-Replaced args ps (at_first args) (empty-IsPartial 0 args) all in
      let e' : finish_with g ≡ ok r = sym (ap (λ x. bind_ok x finish_with) c) ∙ e in
      ended_sound args ps g r all done e'
]

numeric_complete :
    (args : List Arg) (ps : List Part) (r : Rewritten)
    → IsNumericRewriting ps args r
    → numeric_parts args (parts ps) ≡ ok r
unfolding numeric_parts
numeric_complete args ps r (h, conv, y) =
    let all = range-AllBecome args ps r.new_args conv (λ n. (h n).0) in
    let (g, c, done) = loop-Replaced args ps (at_first args) (empty-IsPartial 0 args) all in
    let size = IsPartial-length 0 args g.slots done.1 in
    let (ns, e) = all_used-ok g.slots (λ k l.
      ap (filled g.slots) (omega arith)
      ∙ mentioned args ps g (suc k) done (omega arith)
      ∙ (h (suc k)).1 (omega arith, omega (arith, l, size))) in
    let conv' = (all_used-Converted 0 args g.slots ns done.1 e).0 in
    let same : ns ≡ r.new_args = Converted-unique 0 args ns r.new_args conv' conv in
    ap (λ x. bind_ok x finish_with) c
    ∙ ap (λ x. bind_ok x (λ new. ok (numeric_end g.written new))) e
    ∙ ap ok (finished args ps g ns done conv' ∙ rw (same, y) refl)

-- A query without the rune for the end is split by the lexer into parts that spell it, or the lexer
-- panics, whatever the arguments. For any arguments, it is rewritten exactly if the numbers among the
-- parts of the lexer are those from 1 to the number of the arguments, and each argument becomes a
-- parameter. The query is the one given, with the name of that parameter for each number, and with a
-- line before it if there are arguments.
pub rewrite_numeric-IsNumericRewriting :
    (sql : Text)
    → has rune_error sql ≡ false
    → ((ps : List Part) × (lex numeric sql ≡ parts ps)
        × Spells numeric ps sql
        × ((args : List Arg) (r : Rewritten)
            → (rewrite_numeric sql args ≡ ok r) ↔ IsNumericRewriting ps args r))
      ⊎ (((args : List Arg) → rewrite_numeric sql args ≡ panic) × Overflows numeric sql)
unfolding rewrite_numeric
rewrite_numeric-IsNumericRewriting sql h = elim (lex-Spells numeric sql h) [
  | inl (ps, e, spelt) ↦
      inl (ps, e, spelt, λ args r. rw e (numeric_sound args ps r, numeric_complete args ps r))
  | inr (e, o) ↦ inr (λ args. rw e refl, o)
]
