-- ===== src/Balancer/Connections/Choosing.antt =====
-- Which connection is chosen, and when none is.
use mathlib.Core.List.Permᴰ
use mathlib.Core.List.{Permᴰ}
use ydb_go_sdk.Base.{
  All, Bool, List, Option, [], false, get_elem?, indexes_from, length, none, some, true, ℕ, ◌+◌,
  ◌<◌, ◌∷◌, ◌≡◌, ◌≢◌, ◌⊎◌,
}
use ydb_go_sdk.Balancer.Connections.{Choice, Conn, ConnectionsState, banned, is_ok_connection}

-- What the generator promises: an index in range, and an order that has every index once.
abbrev pub Fits : Choice → List Conn → Type 0
Fits choice [] = Unit
Fits choice (c ∷ cs) =
    (choice.first < length (c ∷ cs)) × Permᴰ choice.order (indexes_from 0 (length (c ∷ cs)))

abbrev Refused : Bool → Conn → Type 0
Refused allow c = is_ok_connection c allow ≡ false

abbrev Among : Conn → List Conn → Type 0
Among c conns = (i : ℕ) × (get_elem? conns i ≡ some c)

-- What a try tells: a connection of the list that is accepted, without failures, or that each
-- connection of the list is refused, and counted.
abbrev pub Tells : Bool → List Conn → Option Conn → ℕ → Type 0
Tells allow conns none k = All (Refused allow) conns × (k ≡ length conns)
Tells allow conns (some c) k = Among c conns × (is_ok_connection c allow ≡ true) × (k ≡ 0)

-- The same inside the loop, for the indexes that are left.
abbrev RefusedAt : Bool → List Conn → ℕ → Type 0
RefusedAt allow conns i = (c : Conn) → get_elem? conns i ≡ some c → Refused allow c

abbrev Left : Bool → List Conn → List ℕ → ℕ → Option Conn → ℕ → Type 0
Left allow conns order failed none k =
    All (RefusedAt allow conns) order × (k ≡ failed + length order)
Left allow conns order failed (some c) k =
    Among c conns × (is_ok_connection c allow ≡ true) × (k ≡ 0)

-- Accepted by the first tries, and not banned.
abbrev pub IsGood : Conn → Type 0
IsGood c = (is_ok_connection c false ≡ true) × (c.state ≢ banned)

-- What `GetConnection` tells without a preferred endpoint: a connection that is not banned among the
-- preferred ones; or among the others when each preferred one is refused; or one that may be banned
-- when each of those is refused; or none when even so each is refused. The count is that of the
-- connections that were refused in the tries before.
abbrev pub Picks : ConnectionsState → Option Conn → ℕ → Type 0
Picks s none k =
    All (Refused false) s.prefer
    × All (Refused false) s.fallback
    × All (Refused true) s.all
    × (k ≡ length s.prefer + length s.fallback)
Picks s (some c) k =
    (Among c s.prefer × IsGood c × (k ≡ 0))
    ⊎ (All (Refused false) s.prefer × Among c s.fallback × IsGood c × (k ≡ length s.prefer))
    ⊎ (All (Refused false) s.prefer
        × All (Refused false) s.fallback
        × Among c s.all
        × (is_ok_connection c true ≡ true)
        × (k ≡ length s.prefer + length s.fallback))
