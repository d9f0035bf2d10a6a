-- ===== src/Bind/Lexer/Moves.antt =====
-- What the state functions have in common: a turn takes one rune or two, or ends the lexer at
-- `utf8.RuneError`.
use ydb_go_sdk.Base.{
  ==_iff, Bool, List, [], arith, false, if◌then◌else◌, inl, inr, refl, true, ℕ, ◌++◌, ◌+◌, ◌-◌,
  ◌==◌, ◌||◌, ◌∷◌, ◌≡◌, ◌⊎◌,
}
use ydb_go_sdk.Bind.Lexer.{
  SqlLexer, StateFn, Text, Turn, common_state, finish, go_on, in_numeric_arg, multiline_comment,
  multiline_comment_state, one_line_comment, one_line_comment_state, panicked, peek, quoted,
  quoted_state, raw, rune_error, skip, stopped,
}

pub if-lem {ℓ ℓ'} :
    {A : Type ℓ} (P : A → Type ℓ') (b : Bool) {x y : A}
    → (b ≡ true → P x)
    → (b ≡ false → P y)
    → P (if b then x else y)
if-lem P true f g = f refl
if-lem P false f g = g refl

pub List-cases {ℓ} :
    {A : Type ℓ} (xs : List A) → (xs ≡ []) ⊎ ((y : A) × (ys : List A) × (xs ≡ y ∷ ys))
List-cases [] = inl refl
List-cases (y ∷ ys) = inr (y, ys, refl)

-- The states in which a text goes on; a quoted one does not end with the rune for the end.
abbrev pub IsInText : StateFn → Type 0
IsInText raw = Unit
IsInText (quoted q) = (q == rune_error) ≡ false
IsInText one_line_comment = Unit
IsInText multiline_comment = Unit
IsInText (in_numeric_arg numbers) = ⊥
IsInText stopped = ⊥
IsInText panicked = ⊥

pub data Move (l : SqlLexer) : Turn → Type 0 where
  steps :
      (s : StateFn) (l' : SqlLexer)
      → IsInText s
      → (peek l.rest == rune_error) ≡ false
      → l'.text ≡ (skip l).text
      → l'.rest ≡ (skip l).rest
      → Move l (go_on s l')
  skips :
      (s : StateFn) (l' : SqlLexer)
      → IsInText s
      → (peek l.rest == rune_error) ≡ false
      → l'.text ≡ (skip (skip l)).text
      → l'.rest ≡ (skip (skip l)).rest
      → Move l (go_on s l')
  ends : (peek l.rest == rune_error) ≡ true → Move l (finish (skip l))

other : (r q : ℕ) → (r == q) ≡ true → (q == rune_error) ≡ false → (r == rune_error) ≡ false
other r q h k = ground (arith, h, k, ==_iff r q)

pub quoted_state-Move :
    (q : ℕ) (l : SqlLexer) → (q == rune_error) ≡ false → Move l (quoted_state q l)
unfolding quoted_state
quoted_state-Move q l fine =
    let r = peek l.rest in
    if-lem (Move l) (r == q)
      (λ h.
        if-lem (Move l) (peek (skip l).rest == q)
          (λ _. skips (quoted q) (skip (skip l)) fine (other r q h fine) refl refl)
          (λ _. steps raw (skip l) tt (other r q h fine) refl refl))
      (λ _.
        if-lem (Move l) (r == rune_error) (λ e. ends e)
          (λ e. steps (quoted q) (skip l) fine e refl refl))

pub one_line_comment_state-Move : (l : SqlLexer) → Move l (one_line_comment_state l)
unfolding one_line_comment_state
one_line_comment_state-Move l =
    let r = peek l.rest in
    if-lem (Move l) (r == b'\\')
      (λ h. skips one_line_comment (skip (skip l)) tt (other r b'\\' h refl) refl refl)
      (λ _.
        if-lem (Move l) (r == b'\n' || r == b'\r')
          (λ h. steps raw (skip l) tt (ground (arith, h, ==_iff r 10, ==_iff r 13)) refl refl)
          (λ _.
            if-lem (Move l) (r == rune_error) (λ e. ends e)
              (λ e. steps one_line_comment (skip l) tt e refl refl)))

pub multiline_comment_state-Move : (l : SqlLexer) → Move l (multiline_comment_state l)
unfolding multiline_comment_state
multiline_comment_state-Move l =
    let r = peek l.rest in
    let l' = skip l in
    if-lem (Move l) (r == b'/')
      (λ h.
        if-lem (Move l) (peek l'.rest == b'*')
          (λ _.
            skips multiline_comment (record (skip l') { nested = l.nested + 1 }) tt
              (other r b'/' h refl) refl refl)
          (λ _. steps multiline_comment l' tt (other r b'/' h refl) refl refl))
      (λ _.
        if-lem (Move l) (r == b'*')
          (λ h.
            if-lem (Move l) (peek l'.rest == b'/')
              (λ _.
                if-lem (Move l) (l.nested == 0)
                  (λ _. skips raw (skip l') tt (other r b'*' h refl) refl refl)
                  (λ _.
                    skips multiline_comment (record (skip l') { nested = l.nested - 1 }) tt
                      (other r b'*' h refl) refl refl))
              (λ _. steps multiline_comment l' tt (other r b'*' h refl) refl refl))
          (λ _.
            if-lem (Move l) (r == rune_error) (λ e. ends e)
              (λ e. steps multiline_comment l' tt e refl refl)))

pub common_state-Move : (l : SqlLexer) → Move l (common_state l)
unfolding common_state
common_state-Move l =
    let r = peek l.rest in
    let l' = skip l in
    if-lem (Move l) (r == b'`' || r == b'\'' || r == b'"')
      (λ h.
        let e : (r == rune_error) ≡ false =
          ground (arith, h, ==_iff r 96, ==_iff r 39, ==_iff r 34) in
        steps (quoted r) l' e e refl refl)
      (λ _.
        if-lem (Move l) (r == b'-')
          (λ h.
            if-lem (Move l) (peek l'.rest == b'-')
              (λ _. skips one_line_comment (skip l') tt (other r b'-' h refl) refl refl)
              (λ _. steps raw l' tt (other r b'-' h refl) refl refl))
          (λ _.
            if-lem (Move l) (r == b'/')
              (λ h.
                if-lem (Move l) (peek l'.rest == b'*')
                  (λ _. skips multiline_comment (skip l') tt (other r b'/' h refl) refl refl)
                  (λ _. steps raw l' tt (other r b'/' h refl) refl refl))
              (λ _.
                if-lem (Move l) (r == rune_error) (λ e. ends e)
                  (λ e. steps raw l' tt e refl refl))))

pub skip-cases :
    (l : SqlLexer)
    → ((l.rest ≡ []) × (skip l ≡ l))
      ⊎ ((r : ℕ) × (rs : Text) × (l.rest ≡ r ∷ rs)
          × (skip l ≡ record l { text = l.text ++ r ∷ []; rest = rs }))
unfolding skip
skip-cases l = elim (List-cases l.rest) [
  | inl e ↦ inl (e, rw e refl)
  | inr (r, rs, e) ↦ inr (r, rs, e, rw e refl)
]
