-- ===== src/Bind/Positional/Rewriting.antt =====
-- When a query with positional arguments is rewritten, and into what.
use ydb_go_sdk.Bind.Positional.Reading.{lex-open_marks}
use ydb_go_sdk.Bind.Positional.Places.{open_marks}
use mathlib.Core.Path.{subst}
use ydb_go_sdk.Base.{
  ==_iff, All, Bool-cases, List, [], ap, append-nil, arith, bind_ok, drop, false, get_elem?,
  if◌then◌else◌, inl, inr, length, ltb, ok, refl, some, suc, sym, true, zero, ℕ, ◌++◌, ◌+◌, ◌==◌,
  ◌↔◌, ◌∙◌, ◌∷◌, ◌≡◌,
}
use ydb_go_sdk.Bind.Lexer.{Part, Text, lex, parts, positional, rune_error}
use ydb_go_sdk.Bind.Lexer.Spelling.{Spells, has}
use ydb_go_sdk.Bind.Lexer.Outcome.{lex-Spells}
use ydb_go_sdk.Bind.Args.{Arg, Param, auto_name}
use ydb_go_sdk.Bind.Args.Laws.{IsUnnamed, to_ydb_param-name}
use ydb_go_sdk.Bind.Positional.{
  Progress, Rewritten, positional_end, positional_loop, positional_prefix, rewrite_parts,
  rewrite_positional,
}
use ydb_go_sdk.Bind.Positional.Laws.{
  Converted, Result-cases, fill, loop-Advanced, loop_complete, marks, progressed-eq,
}

-- The query with its arguments, under the line that says so if it has any.
abbrev headed : List Part → Text
headed ps = if ltb 0 (marks ps) then positional_prefix ++ fill 0 ps else fill 0 ps

abbrev pub IsRewriting : List Part → List Arg → Rewritten → Type 0
IsRewriting ps args r = (marks ps ≡ length args) × Converted 0 args r.new_args × (r.yql ≡ headed ps)

drop_all {ℓ} : {A : Type ℓ} (xs : List A) → drop (length xs) xs ≡ []
drop_all [] = refl
drop_all (x ∷ xs) = drop_all xs

abbrev at_start : Progress
at_start = record { buffer = []; new_params = []; position = 0 }

abbrev buffer_of : ℕ → Text → Text
buffer_of n b = if ltb 0 n then positional_prefix ++ b else b

end_sound :
    (args : List Arg) (g : Progress) (r : Rewritten)
    → positional_end args g ≡ ok r
    → (length args ≡ g.position)
      × (r.new_args ≡ g.new_params)
      × (r.yql ≡ buffer_of g.position g.buffer)
unfolding positional_end
end_sound args g r e = elim (Bool-cases (length args == g.position)) [
  | inl h ↦
      let same : record { yql = buffer_of g.position g.buffer; new_args = g.new_params } ≡ r =
        ground (arith, e, h) in
      (
        ground (arith, h, ==_iff (length args) g.position),
        ap (λ x. x.new_args) (sym same),
        ap (λ x. x.yql) (sym same),
      )
  | inr h ↦ absurd (ground (arith, e, h))
]

rewrite_sound :
    (args : List Arg) (ps : List Part) (r : Rewritten)
    → rewrite_parts args (parts ps) ≡ ok r
    → IsRewriting ps args r
unfolding rewrite_parts
rewrite_sound args ps r e = elim (Result-cases (positional_loop args ps at_start)) [
  | inr (inl (x, h)) ↦ absurd (ground (arith, e, h))
  | inr (inr h) ↦ absurd (ground (arith, e, h))
  | inl (g, h) ↦
      let (used, new, d, c, p, b, q, l) = loop-Advanced args ps at_start g h in
      let ended : positional_end args g ≡ ok r =
        ap (λ x. bind_ok x (positional_end args)) (sym h) ∙ e in
      let (full_, ns, y) = end_sound args g r ended in
      let all_used : args ≡ used =
        d
        ∙ ap (λ n. used ++ drop n args) (sym full_)
        ∙ ap (λ x. used ++ x) (drop_all args)
        ∙ append-nil used in
      let total : g.position ≡ marks ps = omega (arith, q) in
      (
        sym total ∙ sym full_,
        subst (λ x. Converted 0 x r.new_args) (sym all_used)
            (subst (Converted 0 used) (sym (ns ∙ p)) c),
        y ∙ rw (total, b) refl,
      )
]

end_complete :
    (args : List Arg) (b : Text) (ns : List Param) (n : ℕ) (y : Text)
    → n ≡ length args
    → y ≡ buffer_of n b
    → positional_end args (record { buffer = b; new_params = ns; position = n })
      ≡ ok (record { yql = y; new_args = ns })
unfolding positional_end
end_complete args b ns n y m h =
    let same : (length args == n) ≡ true = ground (arith, m, ==_iff (length args) n) in
    rw (same, h) refl

rewrite_complete :
    (args : List Arg) (ps : List Part) (r : Rewritten)
    → IsRewriting ps args r
    → rewrite_parts args (parts ps) ≡ ok r
unfolding rewrite_parts positional_end
rewrite_complete args ps r (m, c, y) =
    let e = loop_complete args ps at_start args [] r.new_args (sym (append-nil args)) c (sym m) in
    ap (λ x. bind_ok x (positional_end args)) (e ∙ progressed-eq refl refl (omega arith))
    ∙ end_complete args (fill 0 ps) r.new_args (marks ps) r.yql m y

-- A query without the rune for the end is split by the lexer into parts that spell it, whatever the
-- arguments, and has as many positional arguments as there are `?` in it outside of quoted texts
-- and comments. For any arguments, it is rewritten exactly if it is called with that many of them,
-- and each of those becomes a parameter, under the name of its number unless it brings its own. The
-- query is the one given, with the names of the numbers for its positional arguments, and with a
-- line before it if it has any.
pub rewrite_positional-IsRewriting :
    (sql : Text)
    → has rune_error sql ≡ false
    → (ps : List Part) × (lex positional sql ≡ parts ps)
      × Spells positional ps sql
      × (marks ps ≡ open_marks sql)
      × ((args : List Arg) (r : Rewritten)
          → (rewrite_positional sql args ≡ ok r) ↔ IsRewriting ps args r)
unfolding rewrite_positional
rewrite_positional-IsRewriting sql h = elim (lex-Spells positional sql h) [
  | inl (ps, e, spelt) ↦ (
    ps,
    e,
    spelt,
    lex-open_marks sql ps h e,
    λ args r. rw e (rewrite_sound args ps r, rewrite_complete args ps r),
  )
  | inr (_, (_, _, _, _, d, _, _)) ↦ absurd (ground (arith, d))
]

Converted-name :
    (i j k : ℕ) (args : List Arg) (ns : List Param) (p : Param)
    → j ≡ k + i
    → All IsUnnamed args
    → Converted i args ns
    → get_elem? ns k ≡ some p
    → p.name ≡ auto_name j
Converted-name i j k args [] p e u c f = absurd (ground (arith, f))
Converted-name i j k [] (n ∷ ns) p e u c f = elim c [ ]
Converted-name i j zero (a ∷ rest) (n ∷ ns) p e (u, us) (h, c) f =
    let same : n ≡ p = ground (arith, f) in
    let here : i ≡ j = omega (arith, e) in
    ap (λ x. x.name) (sym same) ∙ to_ydb_param-name i a n u h ∙ ap auto_name here
Converted-name i j (suc k) (a ∷ rest) (n ∷ ns) p e (u, us) (h, c) f =
    Converted-name (suc i) j k rest ns p (omega (arith, e)) us c f

-- The new arguments of a query whose arguments bring no names along have the names that stand in it:
-- the argument with index `k` that of number `k`.
rewrite_positional-names :
    (sql : Text) (args : List Arg) (r : Rewritten) (k : ℕ) (p : Param)
    → has rune_error sql ≡ false
    → All IsUnnamed args
    → rewrite_positional sql args ≡ ok r
    → get_elem? r.new_args k ≡ some p
    → p.name ≡ auto_name k
rewrite_positional-names sql args r k p h u e f =
    let (ps, _, _, _, iff) = rewrite_positional-IsRewriting sql h in
    Converted-name 0 k k args r.new_args p (omega arith) u ((iff args r).0 e).1 f
