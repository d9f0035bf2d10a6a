-- ===== src/Balancer/Connections/Sorting.antt =====
-- How the connections are divided into preferred ones and others.
use ydb_go_sdk.Base.{
  All, Bool, Bool-cases, List, Option, [], ap, arith, false, if◌then◌else◌, inl, inr, none, refl,
  some, sym, true, ℕ, ◌++◌, ◌∙◌, ◌∷◌, ◌≡◌,
}
use ydb_go_sdk.Base.Dict.{All-lookup, Dict, insert, insert-All, lookup}
use mathlib.Core.List.{Permᴰ}
use mathlib.Core.List.Permᴰ
use ydb_go_sdk.Balancer.Connections.{
  Conn, conns_to_node_id_map, is_ok_connection, new_connections_state, prefer_connection, sort_loop,
  sort_prefer_connections,
}

middle : (c : Conn) (xs ys : List Conn) → Permᴰ (xs ++ c ∷ ys) (c ∷ xs ++ ys)
middle c [] ys = Permᴰ.refl (c ∷ ys)
middle c (x ∷ xs) ys = Permᴰ.trans (Permᴰ.cons refl (middle c xs ys)) (Permᴰ.swap refl refl)

sort_loop-Perm :
    (allows : Conn → Bool) (conns : List Conn)
    → let (prefer, fallback) = sort_loop allows true conns in
      Permᴰ (prefer ++ fallback) conns
      × All (λ c. allows c ≡ true) prefer
      × All (λ c. allows c ≡ false) fallback
unfolding sort_loop
sort_loop-Perm allows [] = (Permᴰ.nil, tt, tt)
sort_loop-Perm allows (c ∷ cs) =
    let (p, yes_, no_) = sort_loop-Perm allows cs in
    elim (Bool-cases (allows c)) [
      | inl e ↦ rw e (Permᴰ.cons refl p, (e, yes_), no_)
      | inr e ↦ rw e (
        Permᴰ.trans (middle c (sort_loop allows true cs).0 (sort_loop allows true cs).1)
            (Permᴰ.cons refl p),
        yes_,
        (e, no_),
      )
    ]

sort_loop-fallback :
    (allows : Conn → Bool) (conns : List Conn)
    → ((sort_loop allows false conns).0 ≡ (sort_loop allows true conns).0)
      × ((sort_loop allows false conns).1 ≡ [])
unfolding sort_loop
sort_loop-fallback allows [] = (refl, refl)
sort_loop-fallback allows (c ∷ cs) = ground (arith, sort_loop-fallback allows cs)

-- With fallback allowed every connection is either preferred, and allowed by the filter, or a
-- fallback, and not allowed, and the list of all is the one given; without it there is no fallback,
-- the preferred ones are the same, and they are the list of all too.
pub new_connections_state-Perm :
    (conns : List Conn) (allows : Conn → Bool)
    → let s = new_connections_state conns (some allows) true in
      let t = new_connections_state conns (some allows) false in
      Permᴰ (s.prefer ++ s.fallback) conns
      × All (λ c. allows c ≡ true) s.prefer
      × All (λ c. allows c ≡ false) s.fallback
      × (s.all ≡ conns)
      × (t.prefer ≡ s.prefer)
      × (t.fallback ≡ [])
      × (t.all ≡ s.prefer)
unfolding new_connections_state sort_prefer_connections
new_connections_state-Perm conns allows =
    let (p, yes_, no_) = sort_loop-Perm allows conns in
    let (e, f) = sort_loop-fallback allows conns in (p, yes_, no_, refl, e, f, e)

-- The connection of a node id is one that has it.
conns_to_node_id_map-All :
    (conns : List Conn) (nodes : Dict Conn)
    → All (λ e. e.1.node_id ≡ e.0) nodes
    → All (λ e. e.1.node_id ≡ e.0) (conns_to_node_id_map conns nodes)
unfolding conns_to_node_id_map
conns_to_node_id_map-All [] nodes h = h
conns_to_node_id_map-All (c ∷ cs) nodes h =
    conns_to_node_id_map-All cs (insert c.node_id c nodes)
      (insert-All (λ e. e.1.node_id ≡ e.0) c.node_id c nodes h refl)

-- The connection that is preferred by the context has the node id asked for, and is not in a state
-- that no try accepts.
prefer_connection-node :
    (conns : List Conn) (filter : Option (Conn → Bool)) (fallback : Bool) (id : ℕ) (c : Conn)
    → prefer_connection (new_connections_state conns filter fallback) (some id) ≡ some c
    → (c.node_id ≡ id) × (is_ok_connection c true ≡ true)
unfolding prefer_connection new_connections_state
prefer_connection-node conns filter fallback id c e =
    found (lookup id (conns_to_node_id_map conns [])) refl e
  where
    found :
        (o : Option Conn)
        → lookup id (conns_to_node_id_map conns []) ≡ o
        → (elim o [ none ↦ none | some c' ↦ if is_ok_connection c' true then some c' else none ])
          ≡ some c
        → (c.node_id ≡ id) × (is_ok_connection c true ≡ true)
    found none h e' = cc
    found (some d) h e' =
        let (same, good) : (d ≡ c) × (is_ok_connection d true ≡ true) = ground arith in
        let named =
          All-lookup (λ x. x.1.node_id ≡ x.0) (conns_to_node_id_map conns []) id
            (conns_to_node_id_map-All conns [] tt) h in
        (
          ap (λ x. x.node_id) (sym same) ∙ named,
          ap (λ x. is_ok_connection x true) (sym same) ∙ good,
        )
