-- ===== src/Bind/Bindings/Laws.antt =====
-- Every parameter of a query is declared in it.
use mathlib.Core.List.{Permᴰ}
use mathlib.Core.List.Permᴰ
use mathlib.Core.Path.{subst}
use ydb_go_sdk.Base.{
  List, Result, [], ap, arith, bind_ok, inl, inr, length, length-Permᴰ, map, ok, refl, sym, ℕ, ◌++◌,
  ◌+◌, ◌∙◌, ◌∷◌, ◌≡◌, ◌⊎◌, ◌≤◌,
}
use ydb_go_sdk.Bind.Lexer.{Text}
use ydb_go_sdk.Bind.Args.{Arg, BindError, Param, Value, codes, param_option, params_loop, to_params}
use ydb_go_sdk.Bind.Positional.Laws.{Result-cases}
use ydb_go_sdk.Bind.Bindings.{
  Bind, auto_declare, bindings_loop, declaration, declared, declares, rewrite, rewrite_query, send,
  write_lines,
}

map-Permᴰ {ℓ κ} :
    {A : Type ℓ} {B : Type κ} (f : A → B) {xs ys : List A}
    → Permᴰ xs ys
    → Permᴰ (map f xs) (map f ys)
map-Permᴰ f Permᴰ.nil = Permᴰ.nil
map-Permᴰ f (Permᴰ.cons e p) = Permᴰ.cons (ap f e) (map-Permᴰ f p)
map-Permᴰ f (Permᴰ.swap e g) = Permᴰ.swap (ap f e) (ap f g)
map-Permᴰ f (Permᴰ.trans p q) = Permᴰ.trans (map-Permᴰ f p) (map-Permᴰ f q)

-- Parameters that are passed on as arguments stay what they are.
params_loop-options :
    (count i : ℕ) (ps : List Param) → params_loop count i (map param_option ps) ≡ ok ps
unfolding params_loop
params_loop-options count i [] = refl
params_loop-options count i (p ∷ ps) = rw (params_loop-options count (i + 1) ps) refl

to_params-options :
    (sort : List Param → List Param) (ps : List Param)
    → to_params sort (map param_option ps) ≡ ok (sort ps)
unfolding to_params
to_params-options sort ps = rw (params_loop-options (length (map param_option ps)) 0 ps) refl

module _ (sort : List Param → List Param) (sort_strings : List Text → List Text)
    (yql_type : Value → Text) where
  -- The query says of each of the parameters what its type is, and of nothing else. It is as it was
  -- if there are none, and only then.
  abbrev pub Declares : Text → Text → List Param → Type 0
  Declares yql query ps =
      ((ps ≡ []) × (yql ≡ query))
      ⊎ ((ls : List Text) × (1 ≤ length ps)
          × Permᴰ ls (map (declaration sort sort_strings yql_type) ps)
          × (yql ≡ codes "-- bind declares\n" ++ write_lines ls ++ b'\n' ∷ query))

  after-Declares :
      (query : Text) (args : List Arg) (ps : List Param) (yql : Text) (out : List Param)
      → ((qs : List Param) → Permᴰ (sort qs) qs)
      → ((ls : List Text) → Permᴰ (sort_strings ls) ls)
      → to_params sort args ≡ ok ps
      → to_params sort (declared sort sort_strings yql_type query args ps).1 ≡ ok out
      → (declared sort sort_strings yql_type query args ps).0 ≡ yql
      → Declares yql query out
  unfolding declares
  after-Declares query args [] yql out p q e f g = inl (ground (arith, e, f), sym g)
  after-Declares query args (x ∷ ps) yql out p q e f g =
      let same : sort (x ∷ ps) ≡ out = ground (arith, f, to_params-options sort (x ∷ ps)) in
      let decl = declaration sort sort_strings yql_type in
      let lines = sort_strings (map decl (x ∷ ps)) in
      inr (
        lines,
        subst (λ y. 1 ≤ length y) same (omega (arith, length-Permᴰ (p (x ∷ ps)))),
        Permᴰ.trans (q (map decl (x ∷ ps)))
            (map-Permᴰ decl (subst (λ y. Permᴰ (x ∷ ps) y) same (Permᴰ.symm (p (x ∷ ps))))),
        sym g,
      )

  sent :
      (r : Text × List Arg) (yql : Text) (out : List Param)
      → send sort sort_strings yql_type r ≡ ok (yql, out)
      → (to_params sort r.1 ≡ ok out) × (r.0 ≡ yql)
  sent r yql out e = elim (Result-cases (to_params sort r.1)) [
    | inr (inl (x, c)) ↦ absurd (ground (arith, e, c))
    | inr (inr c) ↦ absurd (ground (arith, e, c))
    | inl (ps, c) ↦
        let same : ◌≡◌ {A = Text × List Param} (r.0, ps) (yql, out) = ground (arith, e, c) in
        (c ∙ ap (λ x. ok x.1) same, ap (λ x. x.0) same)
  ]

  -- With automatic declarations first, behind any other bindings: where the two sorts only reorder, a
  -- query that is rewritten gets one line for each parameter that is sent with it, with its name and
  -- its type, and no other lines; what is below them is what the other bindings gave. Without
  -- parameters, and only then, it is what the other bindings gave, with no line before it.
  pub rewrite_query-Declares :
      (bs : List Bind) (query : Text) (args : List Arg) (yql : Text) (out : List Param)
      → ((qs : List Param) → Permᴰ (sort qs) qs)
      → ((ls : List Text) → Permᴰ (sort_strings ls) ls)
      → rewrite_query sort sort_strings yql_type (auto_declare ∷ bs) query args ≡ ok (yql, out)
      → (inner : Text × List Arg) × (bindings_loop sort sort_strings yql_type bs query args
          ≡ ok inner)
        × Declares yql inner.0 out
  unfolding rewrite_query
  rewrite_query-Declares bs query args yql out p q e =
      elim (Result-cases (bindings_loop sort sort_strings yql_type bs query args)) [
        | inr (inl (x, c)) ↦ absurd (ground (arith, e, c))
        | inr (inr c) ↦ absurd (ground (arith, e, c))
        | inl (inner, c) ↦ elim (Result-cases (to_params sort inner.1)) [
          | inr (inl (x, d)) ↦ absurd (ground (arith, e, c, d))
          | inr (inr d) ↦ absurd (ground (arith, e, c, d))
          | inl (ps, d) ↦
              let next : Text × List Arg → Result BindError (Text × List Param) =
                send sort sort_strings yql_type in
              let r = declared sort sort_strings yql_type inner.0 inner.1 ps in
              let step =
                ap
                  (λ x.
                    bind_ok
                      (bind_ok x (λ i. rewrite sort sort_strings yql_type auto_declare i.0 i.1))
                      next)
                  c
                ∙ ap
                    (λ x.
                      bind_ok
                        (bind_ok x
                          (λ qs. ok (declared sort sort_strings yql_type inner.0 inner.1 qs)))
                        next)
                    d in
              let (f, g) = sent r yql out (sym step ∙ e) in
              (inner, c, after-Declares inner.0 inner.1 ps yql out p q d f g)
        ]
      ]
