-- ===== src/Bind/Lexer/Outcome.antt =====
-- What the parts that the lexer gives are, and when it panics.
use mathlib.Core.Path.{subst}
use ydb_go_sdk.Base.{
  List, [], append_assoc, false, inl, inr, none, refl, suc, zero, ℕ, ◌++◌, ◌∷◌, ◌≡◌, ◌⊎◌,
}
use ydb_go_sdk.Bind.Lexer.{
  Dialect, Lexed, Part, SqlLexer, StateFn, Text, atoi, emit, in_numeric_arg, lex, lex_loop,
  lexer_panic, multiline_comment, numeric, one_line_comment, out_of_fuel, panicked, parts, quoted,
  raw, run_state, rune_error, stopped,
}
use ydb_go_sdk.Bind.Lexer.Fuel.{
  StateFn-cases, lex-ends, lex_loop-panicked, lex_loop-running, lex_loop-stopped,
}
use ydb_go_sdk.Bind.Lexer.Spelling.{AreDigits, IsClean, IsOk, Spells, Spells-append, full, has}
use ydb_go_sdk.Bind.Lexer.Turns.{run_state-Tells}

-- A `$` with digits behind it that are no `int`.
abbrev pub Overflows : Dialect → Text → Type 0
Overflows d t =
    (a : Text) × (ds : Text) × (b : Text) × (t ≡ a ++ b'$' ∷ (ds ++ b))
    × (d ≡ numeric)
    × AreDigits ds
    × (atoi ds ≡ none)

-- What the lexer's outcome says of the text.
abbrev pub Outcome : Dialect → Text → Lexed → Type 0
Outcome d t (parts ps) = Spells d ps t
Outcome d t lexer_panic = Overflows d t
Outcome d t out_of_fuel = Unit

emit-Outcome :
    (d : Dialect) (ps : List Part) (a t : Text) (r : Lexed)
    → Spells d ps a
    → Outcome d t r
    → Outcome d (a ++ t) (emit ps r)
emit-Outcome d ps a t (parts qs) h k = Spells-append d ps qs a t h k
emit-Outcome d ps a t lexer_panic h (b, ds, c, e, o, m, n) =
    (a ++ b, ds, c, rw (e, append_assoc a b (b'$' ∷ (ds ++ c))) refl, o, m, n)
emit-Outcome d ps a t out_of_fuel h k = tt

stopped-Outcome :
    (d : Dialect) (fuel : ℕ) (l : SqlLexer)
    → IsOk d stopped l
    → Outcome d (full stopped l) (lex_loop fuel d stopped l)
stopped-Outcome d fuel l (e, f) = rw (lex_loop-stopped d fuel l, e, f) refl

panicked-Outcome :
    (d : Dialect) (fuel : ℕ) (l : SqlLexer)
    → IsOk d panicked l
    → Outcome d (full panicked l) (lex_loop fuel d panicked l)
panicked-Outcome d fuel l (n, digits, e) =
    rw (lex_loop-panicked d fuel l) ([], l.text, l.rest, refl, n, digits, e)

lex_loop-Outcome :
    (d : Dialect) (fuel : ℕ) (s : StateFn) (l : SqlLexer)
    → IsOk d s l
    → IsClean l
    → Outcome d (full s l) (lex_loop fuel d s l)
unfolding lex_loop
lex_loop-Outcome d zero stopped l h c = stopped-Outcome d zero l h
lex_loop-Outcome d zero panicked l h c = panicked-Outcome d zero l h
lex_loop-Outcome d zero raw l h c = tt
lex_loop-Outcome d zero (quoted q) l h c = tt
lex_loop-Outcome d zero one_line_comment l h c = tt
lex_loop-Outcome d zero multiline_comment l h c = tt
lex_loop-Outcome d zero (in_numeric_arg numbers) l h c = tt
lex_loop-Outcome d (suc fuel) s l h c = elim (StateFn-cases s) [
  | inl p ↦ rw p (stopped-Outcome d (suc fuel) l (subst (λ x. IsOk d x l) p h))
  | inr (inl p) ↦ rw p (panicked-Outcome d (suc fuel) l (subst (λ x. IsOk d x l) p h))
  | inr (inr (run, _)) ↦
      let t = run_state d s l in
      let (a, whole, spelt, ok_, clean) = run_state-Tells d s l run h c in
      let rest = lex_loop-Outcome d fuel t.state t.lexer ok_ clean in
      rw (lex_loop-running d fuel s l run, whole)
        (emit-Outcome d t.emits a (full t.state t.lexer) (lex_loop fuel d t.state t.lexer) spelt
          rest)
]

ended :
    (d : Dialect) (src : Text) (r : Lexed)
    → lex d src ≡ r
    → Outcome d src (lex d src)
    → ((ps : List Part) × (lex d src ≡ parts ps) × Spells d ps src)
      ⊎ ((lex d src ≡ lexer_panic) × Overflows d src)
ended d src (parts ps) e h = inl (ps, e, subst (Outcome d src) e h)
ended d src lexer_panic e h = inr (e, subst (Outcome d src) e h)
ended d src out_of_fuel e h = absurd (lex-ends d src e)

-- A query without the rune for the end, which is the mark of a byte that is no UTF-8: its parts,
-- written one after the other, are the query, with `?` for a positional argument, and `$` and its
-- digits for a numeric one, so nothing is lost or moved. The lexer comes to its end, and panics only
-- on the numeric arguments, at a `$` with digits behind it that are no `int`.
pub lex-Spells :
    (d : Dialect) (src : Text)
    → has rune_error src ≡ false
    → ((ps : List Part) × (lex d src ≡ parts ps) × Spells d ps src)
      ⊎ ((lex d src ≡ lexer_panic) × Overflows d src)
lex-Spells d src h = ended d src (lex d src) refl (unfold lex in lex_loop-Outcome d _ raw _ tt h)
