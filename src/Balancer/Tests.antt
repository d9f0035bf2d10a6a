-- ===== src/Balancer/Tests.antt =====
-- Three connections, one of them banned: runs, and the theorems at them.
use mathlib.Core.List.{Permᴰ}
use mathlib.Core.List.Permᴰ
use ydb_go_sdk.Base.{
  All, Bool, List, [], false, none, ok, refl, some, true, ℕ, ◌*◌, ◌++◌, ◌==◌, ◌∷◌, ◌≡◌,
}
use ydb_go_sdk.Balancer.Connections.{
  Choice, Conn, ConnState, ConnectionsState, banned, destroyed, get_connection,
  new_connections_state, online,
}
use ydb_go_sdk.Balancer.Connections.Sorting.{new_connections_state-Perm}

abbrev conn : ℕ → ConnState → Conn
conn id s = record { node_id = id; address = id * 10; state = s }

abbrev conns : List Conn
conns = conn 1 banned ∷ conn 2 online ∷ conn 3 destroyed ∷ []

-- Only the first connection is preferred.
abbrev is_near : Conn → Bool
is_near c = c.node_id == 1

abbrev start : ConnectionsState
start = new_connections_state conns (some is_near) true

abbrev at_first : Choice
at_first = record { first = 0; order = 0 ∷ [] }

abbrev at_last : Choice
at_last = record { first = 1; order = 1 ∷ 0 ∷ [] }

abbrev of_three : Choice
of_three = record { first = 2; order = 0 ∷ 1 ∷ 2 ∷ [] }

-- The preferred connection is banned, so another one is taken.
runs : get_connection start false none at_first at_last of_three ≡ ok (some (conn 2 online), 1)
unfolding get_connection new_connections_state
runs = refl

new_connections_state-Perm_example :
    let s = new_connections_state conns (some is_near) true in
    let t = new_connections_state conns (some is_near) false in
    Permᴰ (s.prefer ++ s.fallback) conns
    × All (λ c. is_near c ≡ true) s.prefer
    × All (λ c. is_near c ≡ false) s.fallback
    × (s.all ≡ conns)
    × (t.prefer ≡ s.prefer)
    × (t.fallback ≡ [])
    × (t.all ≡ s.prefer)
new_connections_state-Perm_example = new_connections_state-Perm conns is_near
