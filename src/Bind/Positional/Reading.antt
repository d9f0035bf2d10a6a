-- ===== src/Bind/Positional/Reading.antt =====
-- The lexer takes a `?` for an argument where the description of the places does.
use mathlib.Core.Path.{subst, subst₂}
use ydb_go_sdk.Base.{
  ==_iff, Bool, Bool-cases, List, [], ap, arith, false, length, inl, inr, refl, suc, sym, true,
  zero, ℕ, ◌++◌, ◌*◌, ◌+◌, ◌-◌, ◌==◌, ◌||◌, ◌∙◌, ◌∷◌, ◌≡◌, ◌⊎◌,
}
use ydb_go_sdk.Bind.Lexer.{
  go_on, Lexed, Part, SqlLexer, StateFn, Text, Turn, common_state, emit, finish, in_numeric_arg,
  lex, lex_loop, lexer_panic, multiline_comment, multiline_comment_state, numeric_arg,
  one_line_comment, one_line_comment_state, out_of_fuel, panicked, parts, peek, positional,
  positional_arg, positional_args_state, quoted, quoted_state, raw, run_state, rune_error, skip,
  stopped, verbatim,
}
use ydb_go_sdk.Bind.Lexer.Fuel.{lex_loop-stopped}
use ydb_go_sdk.Bind.Lexer.Spelling.{has}
use ydb_go_sdk.Bind.Positional.Laws.{marks}
use ydb_go_sdk.Bind.Positional.Places.{
  Place, in_brackets, in_line, in_query, in_text, is_mark, is_quote, leads, open_marks,
  open_marks_from,
}

-- Where the lexer is, for the states in which it reads a query with positional arguments.
abbrev IsIn : StateFn → ℕ → Place → Type 0
IsIn raw n p = (n ≡ 0) × (p ≡ in_query)
IsIn (quoted q) n p = (n ≡ 0) × (p ≡ in_text q) × (is_quote q ≡ true)
IsIn one_line_comment n p = (n ≡ 0) × (p ≡ in_line)
IsIn multiline_comment n p = p ≡ in_brackets n
IsIn (in_numeric_arg t) n p = ⊥
IsIn stopped n p = ⊥
IsIn panicked n p = ⊥

-- The lexer will find the `?` that are left, or has stopped at the end.
abbrev Finds : StateFn → SqlLexer → ℕ → Type 0
Finds s l k =
    ((s ≡ stopped) × (k ≡ 0))
    ⊎ ((p : Place) × IsIn s l.nested p
        × (has rune_error l.rest ≡ false)
        × (open_marks_from p l.rest ≡ k))

-- A turn finds some of them, and leaves the others.
abbrev Leaves : Turn → ℕ → Type 0
Leaves t k = (j : ℕ) × (k ≡ marks t.emits + j) × Finds t.state t.lexer j

finish-Leaves : (l : SqlLexer) → Leaves (finish l) 0
unfolding finish
finish-Leaves l = (0, finished l.text, inl (refl, refl))
  where
    finished : (t : Text) → 0 ≡ marks (elim t [ [] ↦ [] | _ ∷ _ ↦ verbatim l.text ∷ [] ]) + 0
    finished [] = refl
    finished (x ∷ xs) = refl

sum_zero : (k : ℕ) → k ≡ 0 + k
sum_zero k = omega arith

-- What a rune that is no argument leaves.
led :
    (p p' : Place) (r s : ℕ) (rs : Text) (b : Bool)
    → leads p r s ≡ (p', b)
    → is_mark p r ≡ false
    → open_marks_from p (r ∷ s ∷ rs)
      ≡ 0 + (elim b as (λ _. ℕ) [
        | true ↦ open_marks_from p' rs
        | false ↦ open_marks_from p' (s ∷ rs)
      ])
unfolding open_marks_from
led p p' r s rs b e m =
    rw m (
      ap
        (λ x. elim x.1 as (λ _. ℕ) [
          | true ↦ open_marks_from x.0 rs
          | false ↦ open_marks_from x.0 (s ∷ rs)
        ])
        e)
    ∙ sum_zero _

last :
    (p p' : Place) (r : ℕ)
    → is_mark p r ≡ false
    → open_marks_from p (r ∷ []) ≡ 0 + open_marks_from p' []
unfolding open_marks_from
last p p' r m = rw m refl

none_left : (p : Place) → open_marks_from p [] ≡ 0
unfolding open_marks_from
none_left p = refl

end-Leaves : (l : SqlLexer) (k : ℕ) → k ≡ 0 → Leaves (finish l) k
end-Leaves l k e = subst (Leaves (finish l)) (sym e) (finish-Leaves l)

-- The state of the lexer at a place, and how many brackets it has counted.
abbrev state_at : Place → StateFn
state_at in_query = raw
state_at in_line = one_line_comment
state_at (in_text q) = quoted q
state_at (in_brackets n) = multiline_comment

abbrev level : Place → ℕ
level in_query = 0
level in_line = 0
level (in_text q) = 0
level (in_brackets n) = n

abbrev goes_to : Place → Text → Turn
goes_to p rest = go_on (state_at p) (record { text = []; rest = rest; nested = level p })

one-Leaves :
    (p q : Place) (r s : ℕ) (rs : Text)
    → leads p r s ≡ (q, false)
    → is_mark p r ≡ false
    → IsIn (state_at q) (level q) q
    → has rune_error (s ∷ rs) ≡ false
    → Leaves (goes_to q (s ∷ rs)) (open_marks_from p (r ∷ s ∷ rs))
one-Leaves p q r s rs e m h f =
    (open_marks_from q (s ∷ rs), led p q r s rs false e m, inr (q, h, f, refl))

two-Leaves :
    (p q : Place) (r s : ℕ) (rs : Text)
    → leads p r s ≡ (q, true)
    → is_mark p r ≡ false
    → IsIn (state_at q) (level q) q
    → has rune_error rs ≡ false
    → Leaves (goes_to q rs) (open_marks_from p (r ∷ s ∷ rs))
two-Leaves p q r s rs e m h f = (open_marks_from q rs, led p q r s rs true e m, inr (q, h, f, refl))

end_of-Leaves :
    (p q : Place) (r : ℕ)
    → is_mark p r ≡ false
    → IsIn (state_at q) (level q) q
    → Leaves (goes_to q []) (open_marks_from p (r ∷ []))
end_of-Leaves p q r m h = (open_marks_from q [], last p q r m, inr (q, h, refl, refl))

line-Leaves :
    (t rest : Text)
    → has rune_error rest ≡ false
    → Leaves
        (one_line_comment_state (record { text = t; rest = rest; nested = 0 }))
        (open_marks_from in_line rest)
unfolding one_line_comment_state peek skip
line-Leaves t [] e = end-Leaves (record { text = t; rest = []; nested = 0 }) _ (none_left in_line)
line-Leaves t (r ∷ []) e = elim (Bool-cases (r == b'\\')) [
  | inl a ↦ rw a (end_of-Leaves _ in_line _ refl (refl, refl))
  | inr a ↦ elim (Bool-cases (r == b'\n' || r == b'\r')) [
    | inl b ↦ rw (a, b) (end_of-Leaves _ in_query _ refl (refl, refl))
    | inr b ↦
        let c : r == rune_error ≡ false = ground (arith, e) in
        rw (a, b, c) (end_of-Leaves _ in_line _ refl (refl, refl))
  ]
]
line-Leaves t (r ∷ s ∷ rs) e =
    let f : has rune_error (s ∷ rs) ≡ false = ground (arith, e) in
    let g : has rune_error rs ≡ false = ground (arith, e) in
    elim (Bool-cases (r == b'\\')) [
      | inl a ↦ rw a (two-Leaves _ in_line _ _ _ (rw a refl) refl (refl, refl) g)
      | inr a ↦ elim (Bool-cases (r == b'\n' || r == b'\r')) [
        | inl b ↦ rw (a, b) (one-Leaves _ in_query _ _ _ (rw (a, b) refl) refl (refl, refl) f)
        | inr b ↦
            let c : r == rune_error ≡ false = ground (arith, e) in
            rw (a, b, c) (one-Leaves _ in_line _ _ _ (rw (a, b) refl) refl (refl, refl) f)
      ]
    ]

text-Leaves :
    (q : ℕ) (t rest : Text)
    → is_quote q ≡ true
    → has rune_error rest ≡ false
    → Leaves
        (quoted_state q (record { text = t; rest = rest; nested = 0 }))
        (open_marks_from (in_text q) rest)
unfolding quoted_state peek skip
text-Leaves q t [] i e =
    let c : rune_error == q ≡ false = ground (arith, i) in
    rw c (end-Leaves (record { text = t; rest = []; nested = 0 }) _ (none_left (in_text q)))
text-Leaves q t (r ∷ []) i e =
    let c : r == rune_error ≡ false = ground (arith, e) in
    let d : rune_error == q ≡ false = ground (arith, i) in
    elim (Bool-cases (r == q)) [
      | inl a ↦ rw (a, d) (end_of-Leaves _ in_query _ refl (refl, refl))
      | inr a ↦ rw (a, c) (end_of-Leaves _ (in_text q) _ refl (refl, refl, i))
    ]
text-Leaves q t (r ∷ s ∷ rs) i e =
    let c : r == rune_error ≡ false = ground (arith, e) in
    let f : has rune_error (s ∷ rs) ≡ false = ground (arith, e) in
    let g : has rune_error rs ≡ false = ground (arith, e) in
    elim (Bool-cases (r == q)) [
      | inl a ↦ elim (Bool-cases (s == q)) [
        | inl b ↦ rw (a, b) (two-Leaves _ (in_text q) _ _ _ (rw (a, b) refl) refl (refl, refl, i) g)
        | inr b ↦ rw (a, b) (one-Leaves _ in_query _ _ _ (rw (a, b) refl) refl (refl, refl) f)
      ]
      | inr a ↦ rw (a, c) (one-Leaves _ (in_text q) _ _ _ (rw a refl) refl (refl, refl, i) f)
    ]

brackets-Leaves :
    (n : ℕ) (t rest : Text)
    → has rune_error rest ≡ false
    → Leaves
        (multiline_comment_state (record { text = t; rest = rest; nested = n }))
        (open_marks_from (in_brackets n) rest)
unfolding multiline_comment_state peek skip
brackets-Leaves n t [] e =
    end-Leaves (record { text = t; rest = []; nested = n }) _ (none_left (in_brackets n))
brackets-Leaves n t (r ∷ []) e =
    let c : r == rune_error ≡ false = ground (arith, e) in
    elim (Bool-cases (r == b'/')) [
      | inl a ↦ rw a (end_of-Leaves _ (in_brackets n) _ refl refl)
      | inr a ↦ elim (Bool-cases (r == b'*')) [
        | inl b ↦ rw (a, b) (end_of-Leaves _ (in_brackets n) _ refl refl)
        | inr b ↦ rw (a, b, c) (end_of-Leaves _ (in_brackets n) _ refl refl)
      ]
    ]
brackets-Leaves n t (r ∷ s ∷ rs) e =
    let c : r == rune_error ≡ false = ground (arith, e) in
    let f : has rune_error (s ∷ rs) ≡ false = ground (arith, e) in
    let g : has rune_error rs ≡ false = ground (arith, e) in
    elim (Bool-cases (r == b'/')) [
      | inl a ↦
          let d : r == b'*' ≡ false = ground (arith, a) in
          elim (Bool-cases (s == b'*')) [
            | inl b ↦
                rw (a, b) (two-Leaves _ (in_brackets (n + 1)) _ _ _ (rw (a, b) refl) refl refl g)
            | inr b ↦ rw (a, b) (one-Leaves _ (in_brackets n) _ _ _ (rw (a, b, d) refl) refl refl f)
          ]
      | inr a ↦ elim (Bool-cases (r == b'*')) [
        | inl b ↦ elim (Bool-cases (s == b'/')) [
          | inl d ↦ elim (Bool-cases (n == 0)) [
            | inl z ↦
                let none_ : n ≡ 0 = ground (arith, z, ==_iff n 0) in
                rw (a, b, d, z)
                  (
                    open_marks_from in_query rs,
                    led (in_brackets n) in_query r s rs true (rw (a, b, d, z) refl) refl,
                    inr (in_query, (none_, refl), g, refl),
                  )
            | inr z ↦
                rw (a, b, d, z)
                  (two-Leaves _ (in_brackets (n - 1)) _ _ _ (rw (a, b, d, z) refl) refl refl g)
          ]
          | inr d ↦
              rw (a, b, d) (one-Leaves _ (in_brackets n) _ _ _ (rw (a, b, d) refl) refl refl f)
        ]
        | inr b ↦ rw (a, b, c) (one-Leaves _ (in_brackets n) _ _ _ (rw (a, b) refl) refl refl f)
      ]
    ]

-- A rune that is no `?`.
common-Leaves :
    (t rest : Text)
    → has rune_error rest ≡ false
    → peek rest == b'?' ≡ false
    → Leaves
        (common_state (record { text = t; rest = rest; nested = 0 }))
        (open_marks_from in_query rest)
unfolding common_state peek skip
common-Leaves t [] e m =
    end-Leaves (record { text = t; rest = []; nested = 0 }) _ (none_left in_query)
common-Leaves t (r ∷ []) e m =
    let c : r == rune_error ≡ false = ground (arith, e) in
    elim (Bool-cases (is_quote r)) [
      | inl a ↦ rw a (end_of-Leaves _ (in_text r) _ m (refl, refl, a))
      | inr a ↦ elim (Bool-cases (r == b'-')) [
        | inl b ↦ rw (a, b) (end_of-Leaves _ in_query _ m (refl, refl))
        | inr b ↦ elim (Bool-cases (r == b'/')) [
          | inl d ↦ rw (a, b, d) (end_of-Leaves _ in_query _ m (refl, refl))
          | inr d ↦ rw (a, b, d, c) (end_of-Leaves _ in_query _ m (refl, refl))
        ]
      ]
    ]
common-Leaves t (r ∷ s ∷ rs) e m =
    let c : r == rune_error ≡ false = ground (arith, e) in
    let f : has rune_error (s ∷ rs) ≡ false = ground (arith, e) in
    let g : has rune_error rs ≡ false = ground (arith, e) in
    elim (Bool-cases (is_quote r)) [
      | inl a ↦ rw a (one-Leaves _ (in_text r) _ _ _ (rw a refl) m (refl, refl, a) f)
      | inr a ↦ elim (Bool-cases (r == b'-')) [
        | inl b ↦
            let d : r == b'/' ≡ false = ground (arith, b) in
            elim (Bool-cases (s == b'-')) [
              | inl h ↦
                  rw (a, b, h) (two-Leaves _ in_line _ _ _ (rw (a, b, h) refl) m (refl, refl) g)
              | inr h ↦
                  rw (a, b, h) (one-Leaves _ in_query _ _ _ (rw (a, b, h, d) refl) m (refl, refl) f)
            ]
        | inr b ↦ elim (Bool-cases (r == b'/')) [
          | inl d ↦ elim (Bool-cases (s == b'*')) [
            | inl h ↦
                rw (a, b, d, h) (two-Leaves _ (in_brackets 0) _ _ _ (rw (a, b, d, h) refl) m refl g)
            | inr h ↦
                rw (a, b, d, h)
                  (one-Leaves _ in_query _ _ _ (rw (a, b, d, h) refl) m (refl, refl) f)
          ]
          | inr d ↦
              rw (a, b, d, c) (one-Leaves _ in_query _ _ _ (rw (a, b, d) refl) m (refl, refl) f)
        ]
      ]
    ]

one_more : (k : ℕ) → k + 1 ≡ 1 + k
one_more k = omega arith

marked :
    (r s : ℕ) (rs : Text)
    → leads in_query r s ≡ (in_query, false)
    → is_mark in_query r ≡ true
    → open_marks_from in_query (r ∷ s ∷ rs) ≡ 1 + open_marks_from in_query (s ∷ rs)
unfolding open_marks_from
marked r s rs e m =
    rw m (
      ap
        (λ x.
          (elim x.1 as (λ _. ℕ) [
            | true ↦ open_marks_from x.0 rs
            | false ↦ open_marks_from x.0 (s ∷ rs)
          ])
          + 1)
        e)
    ∙ one_more (open_marks_from in_query (s ∷ rs))

mark-Leaves :
    (t rest : Text)
    → has rune_error rest ≡ false
    → peek rest == b'?' ≡ true
    → Leaves
        (record {
          emits = verbatim t ∷ positional_arg ∷ [];
          state = raw;
          lexer = record (skip (record { text = t; rest = rest; nested = 0 })) { text = [] };
        })
        (open_marks_from in_query rest)
unfolding peek skip open_marks_from
mark-Leaves t [] e m = cc
mark-Leaves t (r ∷ []) e m = (0, rw m refl, inr (in_query, (refl, refl), refl, refl))
mark-Leaves t (r ∷ s ∷ rs) e m =
    let a : is_quote r ≡ false = ground (arith, m) in
    let b : r == b'-' ≡ false = ground (arith, m) in
    let d : r == b'/' ≡ false = ground (arith, m) in
    let f : has rune_error (s ∷ rs) ≡ false = ground (arith, e) in
    (
      open_marks_from in_query (s ∷ rs),
      marked r s rs (rw (a, b, d) refl) m,
      inr (in_query, (refl, refl), f, refl),
    )

query-Leaves :
    (t rest : Text)
    → has rune_error rest ≡ false
    → Leaves
        (positional_args_state (record { text = t; rest = rest; nested = 0 }))
        (open_marks_from in_query rest)
unfolding positional_args_state
query-Leaves t rest e = elim (Bool-cases (peek rest == b'?')) [
  | inr m ↦ rw m (common-Leaves t rest e m)
  | inl m ↦ rw m (mark-Leaves t rest e m)
]

moved :
    (s : StateFn) {p q : Place} (t rest : Text) {n m : ℕ}
    → n ≡ m
    → p ≡ q
    → Leaves
        (run_state positional s (record { text = t; rest = rest; nested = m }))
        (open_marks_from q rest)
    → Leaves
        (run_state positional s (record { text = t; rest = rest; nested = n }))
        (open_marks_from p rest)
moved s t rest e f h =
    subst₂
      (λ x y.
        Leaves (run_state positional s (record { text = t; rest = rest; nested = x }))
          (open_marks_from y rest))
      (sym e) (sym f) h

state-Leaves :
    (s : StateFn) (p : Place) (t rest : Text) (n : ℕ)
    → IsIn s n p
    → has rune_error rest ≡ false
    → Leaves
        (run_state positional s (record { text = t; rest = rest; nested = n }))
        (open_marks_from p rest)
unfolding run_state
state-Leaves raw p t rest n (z, h) e = moved raw t rest z h (query-Leaves t rest e)
state-Leaves (quoted q) p t rest n (z, h, i) e =
    moved (quoted q) t rest z h (text-Leaves q t rest i e)
state-Leaves one_line_comment p t rest n (z, h) e =
    moved one_line_comment t rest z h (line-Leaves t rest e)
state-Leaves multiline_comment p t rest n h e =
    moved multiline_comment t rest refl h (brackets-Leaves n t rest e)
state-Leaves (in_numeric_arg u) p t rest n h e = elim h [ ]
state-Leaves stopped p t rest n h e = elim h [ ]
state-Leaves panicked p t rest n h e = elim h [ ]

marks-append : (ps qs : List Part) → marks (ps ++ qs) ≡ marks ps + marks qs
marks-append [] qs = omega arith
marks-append (verbatim t ∷ ps) qs = marks-append ps qs
marks-append (positional_arg ∷ ps) qs = omega (arith, marks-append ps qs)
marks-append (numeric_arg n ∷ ps) qs = marks-append ps qs

-- What a loop gives whose first turn emits some parts.
emit-parts :
    (es ps : List Part) (x : Lexed)
    → emit es x ≡ parts ps
    → (qs : List Part) × (x ≡ parts qs) × (ps ≡ es ++ qs)
emit-parts es ps (parts qs) e = (qs, refl, ground (arith, e))
emit-parts es ps lexer_panic e = absurd (ground (arith, e))
emit-parts es ps out_of_fuel e = absurd (ground (arith, e))

turn-marks :
    (t : Turn) (k : ℕ) (x : Lexed) (ps : List Part)
    → Leaves t k
    → ((qs : List Part) (j : ℕ) → Finds t.state t.lexer j → x ≡ parts qs → marks qs ≡ j)
    → emit t.emits x ≡ parts ps
    → marks ps ≡ k
turn-marks t k x ps (j, e, f) behind h =
    let (qs, g, split) = emit-parts t.emits ps x h in
    let rest : marks qs ≡ j = behind qs j f g in
    ap marks split ∙ marks-append t.emits qs ∙ ap (λ n. marks t.emits + n) rest ∙ sym e

loop-marks :
    (fuel : ℕ) (s : StateFn) (l : SqlLexer) (ps : List Part) (k : ℕ)
    → Finds s l k
    → lex_loop fuel positional s l ≡ parts ps
    → marks ps ≡ k
unfolding lex_loop
loop-marks fuel s l ps k (inl (e, z)) h =
    let same : parts [] ≡ parts ps =
      sym (lex_loop-stopped positional fuel l)
      ∙ ap (λ x. lex_loop fuel positional x l) (sym e)
      ∙ h in
    ground (arith, same, z)
loop-marks zero raw l ps k (inr (p, i, c, f)) h = absurd (ground (arith, h))
loop-marks zero (quoted q) l ps k (inr (p, i, c, f)) h = absurd (ground (arith, h))
loop-marks zero one_line_comment l ps k (inr (p, i, c, f)) h = absurd (ground (arith, h))
loop-marks zero multiline_comment l ps k (inr (p, i, c, f)) h = absurd (ground (arith, h))
loop-marks fuel (in_numeric_arg t) l ps k (inr (p, i, c, f)) h = elim i [ ]
loop-marks fuel stopped l ps k (inr (p, i, c, f)) h = elim i [ ]
loop-marks fuel panicked l ps k (inr (p, i, c, f)) h = elim i [ ]
loop-marks (suc fuel) raw l ps k (inr (p, i, c, f)) h =
    turn-marks (run_state positional raw l) _ _ ps (state-Leaves raw p l.text l.rest l.nested i c)
      (λ qs j. loop-marks fuel _ _ qs j) h
    ∙ f
loop-marks (suc fuel) (quoted q) l ps k (inr (p, i, c, f)) h =
    turn-marks (run_state positional (quoted q) l) _ _ ps
      (state-Leaves (quoted q) p l.text l.rest l.nested i c) (λ qs j. loop-marks fuel _ _ qs j) h
    ∙ f
loop-marks (suc fuel) one_line_comment l ps k (inr (p, i, c, f)) h =
    turn-marks (run_state positional one_line_comment l) _ _ ps
      (state-Leaves one_line_comment p l.text l.rest l.nested i c)
      (λ qs j. loop-marks fuel _ _ qs j) h
    ∙ f
loop-marks (suc fuel) multiline_comment l ps k (inr (p, i, c, f)) h =
    turn-marks (run_state positional multiline_comment l) _ _ ps
      (state-Leaves multiline_comment p l.text l.rest l.nested i c)
      (λ qs j. loop-marks fuel _ _ qs j) h
    ∙ f

-- The lexer takes for an argument what is one.
pub lex-open_marks :
    (sql : Text) (ps : List Part)
    → has rune_error sql ≡ false
    → lex positional sql ≡ parts ps
    → marks ps ≡ open_marks sql
unfolding lex open_marks
lex-open_marks sql ps c e =
    loop-marks (2 * length sql + 2) raw (record { text = []; rest = sql; nested = 0 }) ps
      (open_marks_from in_query sql) (inr (in_query, (refl, refl), c, refl)) e
