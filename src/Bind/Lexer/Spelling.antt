-- ===== src/Bind/Lexer/Spelling.antt =====
-- The parts of a query, written one after the other, are the query.
use ydb_go_sdk.Base.{
  ==_iff, All, Bool, List, [], ap, append-nil, append_assoc, arith, false, inl, inr, none, refl,
  some, sym, true, ℕ, ◌++◌, ◌==◌, ◌||◌, ◌∙◌, ◌∷◌, ◌≡◌,
}
use ydb_go_sdk.Bind.Lexer.{
  Dialect, Part, SqlLexer, StateFn, Text, Turn, atoi, finish, in_numeric_arg, is_number,
  multiline_comment, numeric, numeric_arg, one_line_comment, panicked, peek, positional,
  positional_arg, quoted, raw, rune_error, skip, stopped, verbatim,
}
use ydb_go_sdk.Bind.Lexer.Moves.{IsInText, List-cases, Move, ends, skip-cases, skips, steps}

abbrev pub AreDigits : Text → Type 0
AreDigits = All λ r. is_number r ≡ true

abbrev pub has : ℕ → Text → Bool
has q [] = false
has q (r ∷ rs) = r == q || has q rs

-- How the parts are written: an argument with its mark, and a number in decimal digits.
abbrev pub Spells : Dialect → List Part → Text → Type 0
Spells d [] t = t ≡ []
Spells d (verbatim u ∷ ps) t = (v : Text) × (t ≡ u ++ v) × Spells d ps v
Spells d (positional_arg ∷ ps) t = (v : Text) × (t ≡ b'?' ∷ v) × (d ≡ positional) × Spells d ps v
Spells d (numeric_arg n ∷ ps) t =
    (ds : Text) × (v : Text) × (t ≡ b'$' ∷ (ds ++ v))
    × (d ≡ numeric)
    × AreDigits ds
    × (atoi ds ≡ some n)
    × Spells d ps v

pub Spells-append :
    (d : Dialect) (ps qs : List Part) (s t : Text)
    → Spells d ps s
    → Spells d qs t
    → Spells d (ps ++ qs) (s ++ t)
Spells-append d [] qs s t e h = rw e h
Spells-append d (verbatim u ∷ ps) qs s t (v, e, k) h =
    (v ++ t, rw (e, append_assoc u v t) refl, Spells-append d ps qs v t k h)
Spells-append d (positional_arg ∷ ps) qs s t (v, e, f, k) h =
    (v ++ t, rw e refl, f, Spells-append d ps qs v t k h)
Spells-append d (numeric_arg n ∷ ps) qs s t (ds, v, e, f, a, g, k) h =
    (ds, v ++ t, rw (e, append_assoc ds v t) refl, f, a, g, Spells-append d ps qs v t k h)

-- What the lexer has not appended to the parts yet.
abbrev pending : StateFn → SqlLexer → Text
pending (in_numeric_arg numbers) l = b'$' ∷ l.text
pending panicked l = b'$' ∷ l.text
pending raw l = l.text
pending (quoted q) l = l.text
pending one_line_comment l = l.text
pending multiline_comment l = l.text
pending stopped l = l.text

abbrev pub full : StateFn → SqlLexer → Text
full s l = pending s l ++ l.rest

abbrev pub IsOk : Dialect → StateFn → SqlLexer → Type 0
IsOk d (in_numeric_arg numbers) l = (d ≡ numeric) × (numbers ≡ l.text) × AreDigits l.text
IsOk d panicked l = (d ≡ numeric) × AreDigits l.text × (atoi l.text ≡ none)
IsOk d stopped l = (l.text ≡ []) × (l.rest ≡ [])
IsOk d (quoted q) l = (q == rune_error) ≡ false
IsOk d raw l = Unit
IsOk d one_line_comment l = Unit
IsOk d multiline_comment l = Unit

abbrev pub Tells : Dialect → StateFn → SqlLexer → Turn → Type 0
Tells d s l t =
    (a : Text) × (full s l ≡ a ++ full t.state t.lexer)
    × Spells d t.emits a
    × IsOk d t.state t.lexer
    × (has rune_error t.lexer.rest ≡ false)

abbrev pub IsClean : SqlLexer → Type 0
IsClean l = has rune_error l.rest ≡ false

-- A rune that is skipped goes from the rest to the text.
pub skip-whole : (l : SqlLexer) → l.text ++ l.rest ≡ (skip l).text ++ (skip l).rest
skip-whole l = elim (skip-cases l) [
  | inl (e, p) ↦ rw p refl
  | inr (r, rs, e, p) ↦ rw (p, e, append_assoc l.text (r ∷ []) rs) refl
]

pub skip-IsClean : (l : SqlLexer) → IsClean l → IsClean (skip l)
skip-IsClean l h = elim (skip-cases l) [
  | inl (e, p) ↦ rw p h
  | inr (r, rs, e, p) ↦ rw p (ground (arith, h, e))
]

pub peek-skip :
    (l : SqlLexer)
    → (peek l.rest == rune_error) ≡ false
    → (l.rest ≡ peek l.rest ∷ (skip l).rest) × ((skip l).text ≡ l.text ++ peek l.rest ∷ [])
unfolding peek
peek-skip l h = elim (skip-cases l) [
  | inl (e, p) ↦ absurd (ground (arith, h, e))
  | inr (r, rs, e, p) ↦ rw (p, e) (refl, refl)
]

-- The lexer stands before the rune `q`.
pub found :
    (q : ℕ) (l : SqlLexer)
    → (peek l.rest == q) ≡ true
    → (q == rune_error) ≡ false
    → l.rest ≡ q ∷ (skip l).rest
found q l h k =
    let same : peek l.rest ≡ q = ground (arith, h, ==_iff (peek l.rest) q) in
    (peek-skip l (ground (arith, h, k, ==_iff (peek l.rest) q))).0
    ∙ ap (λ x. x ∷ (skip l).rest) same

clean-end :
    (l : SqlLexer) → IsClean l → (peek l.rest == rune_error) ≡ true → (l.rest ≡ []) × (skip l ≡ l)
unfolding peek
clean-end l h k = elim (skip-cases l) [
  | inl (e, p) ↦ (e, p)
  | inr (r, rs, e, p) ↦ absurd (ground (arith, h, k, e))
]

in_text-pending :
    (d : Dialect) (s : StateFn) (l : SqlLexer) → IsInText s → (pending s l ≡ l.text) × IsOk d s l
in_text-pending d raw l h = (refl, tt)
in_text-pending d (quoted q) l h = (refl, h)
in_text-pending d one_line_comment l h = (refl, tt)
in_text-pending d multiline_comment l h = (refl, tt)
in_text-pending d (in_numeric_arg _) l h = elim h [ ]
in_text-pending d stopped l h = elim h [ ]
in_text-pending d panicked l h = elim h [ ]

finish-Tells : (d : Dialect) (l : SqlLexer) → l.rest ≡ [] → Tells d raw l (finish l)
unfolding finish
finish-Tells d l e = (
  l.text,
  rw e refl,
  elim (List-cases l.text) [
    | inl f ↦ rw f refl
    | inr (r, rs, f) ↦ rw f ([], sym (append-nil l.text ∙ f), refl)
  ],
  (refl, e),
  rw e refl,
)

pub Move-Tells :
    (d : Dialect) (s : StateFn) (l : SqlLexer) {t : Turn}
    → pending s l ≡ l.text
    → IsClean l
    → Move l t
    → Tells d s l t
Move-Tells d s l w c (steps s' l' i e p q) =
    let (w', f) = in_text-pending d s' l' i in
    ([], rw (w, w', p, q) (skip-whole l), refl, f, rw q (skip-IsClean l c))
Move-Tells d s l w c (skips s' l' i e p q) =
    let (w', f) = in_text-pending d s' l' i in
    (
      [],
      rw (w, w', p, q) (skip-whole l ∙ skip-whole (skip l)),
      refl,
      f,
      rw q (skip-IsClean (skip l) (skip-IsClean l c)),
    )
Move-Tells d s l w c (ends e) =
    let (e', p) = clean-end l c e in
    let (a, f, g, o, c') = finish-Tells d l e' in rw p (a, rw w f, g, o, c')
