-- ===== src/Balancer/Connections.antt =====
-- `connectionsState` of internal/balancer/connections_state.go. A state is read once of each
-- connection, and stays as it is while a connection is chosen. What the random generator gives to
-- one call of `selectRandomConnection`, an index and an order of the indexes, is a `Choice`.
pub mod Choosing
pub mod Sorting
use ydb_go_sdk.Base.{
  Bool, List, Option, Result, [], err, false, get_elem?, if◌then◌else◌, none, ok, panic, some, suc,
  true, ℕ, ◌+◌, ◌∷◌,
}
use ydb_go_sdk.Base.Dict.{Dict, insert, lookup}

-- `State` of internal/conn/state.go
pub data ConnState : Type 0 where
  unknown created online banned offline destroyed : ConnState

pub record Conn : Type 0 where
  pub node_id : ℕ
  pub address : ℕ
  pub state : ConnState

-- `isOkConnection`
unfoldable pub is_ok_connection : Conn → Bool → Bool
is_ok_connection c banned_is_ok = elim c.state [
  | online ↦ true
  | created ↦ true
  | offline ↦ true
  | banned ↦ banned_is_ok
  | unknown ↦ false
  | destroyed ↦ false
]

pub record Choice : Type 0 where
  pub first : ℕ
  pub order : List ℕ

-- The loop over the shuffled indexes.
unfoldable pub try_indexes : Bool → List Conn → List ℕ → ℕ → Result (Unit {0}) (Option Conn × ℕ)
unfolding is_ok_connection
try_indexes allow conns [] failed = ok (none, failed)
try_indexes allow conns (i ∷ is) failed =
    let rest = try_indexes allow conns is (suc failed) in
    elim (get_elem? conns i) [
      | none ↦ panic
      | some c ↦ if is_ok_connection c allow then ok (some c, 0) else rest
    ]

-- `selectRandomConnection`
unfoldable pub select_random : Choice → List Conn → Bool → Result (Unit {0}) (Option Conn × ℕ)
unfolding try_indexes is_ok_connection
select_random choice [] allow = ok (none, 0)
select_random choice (c ∷ cs) allow = elim (get_elem? (c ∷ cs) choice.first) [
  | none ↦ panic
  | some d ↦
      if is_ok_connection d allow then ok (some d, 0) else try_indexes allow (c ∷ cs) choice.order 0
]

-- `connsToNodeIDMap`: of two connections with one node id the later one stays.
unfoldable pub conns_to_node_id_map : List Conn → Dict Conn → Dict Conn
conns_to_node_id_map [] nodes = nodes
conns_to_node_id_map (c ∷ cs) nodes = conns_to_node_id_map cs (insert c.node_id c nodes)

-- `sortPreferConnections`
unfoldable pub sort_loop : (Conn → Bool) → Bool → List Conn → List Conn × List Conn
sort_loop allows fallback [] = ([], [])
sort_loop allows fallback (c ∷ cs) =
    let (prefer, rest) = sort_loop allows fallback cs in
    if allows c then (c ∷ prefer, rest) else if fallback then (prefer, c ∷ rest) else (prefer, rest)

unfoldable pub sort_prefer_connections :
    List Conn → Option (Conn → Bool) → Bool → List Conn × List Conn
unfolding sort_loop
sort_prefer_connections conns none fallback = (conns, [])
sort_prefer_connections conns (some allows) fallback = sort_loop allows fallback conns

pub record ConnectionsState : Type 0 where
  pub conn_by_node_id : Dict Conn
  pub prefer : List Conn
  pub fallback : List Conn
  pub all : List Conn

-- `newConnectionsState`
unfoldable pub new_connections_state : List Conn → Option (Conn → Bool) → Bool → ConnectionsState
unfolding conns_to_node_id_map sort_prefer_connections
new_connections_state conns filter allow_fallback =
    let (prefer, fallback) = sort_prefer_connections conns filter allow_fallback in
    record {
      conn_by_node_id = conns_to_node_id_map conns [];
      prefer = prefer;
      fallback = fallback;
      all = if allow_fallback then conns else prefer;
    }

-- `preferConnection`, for the node id of the endpoint that the context asks for
unfoldable pub prefer_connection : ConnectionsState → Option ℕ → Option Conn
unfolding is_ok_connection
prefer_connection s none = none
prefer_connection s (some id) = elim (lookup id s.conn_by_node_id) [
  | none ↦ none
  | some c ↦ if is_ok_connection c true then some c else none
]

-- What follows one try: the connection it found, or the next try with the failures so far.
unfoldable pub after_try :
    ℕ
    → (ℕ → Result (Unit {0}) (Option Conn × ℕ))
    → Result (Unit {0}) (Option Conn × ℕ)
    → Result (Unit {0}) (Option Conn × ℕ)
after_try failed next (ok (some c, k)) = ok (some c, failed + k)
after_try failed next (ok (none, k)) = next (failed + k)
after_try failed next (err e) = err e
after_try failed next panic = panic

-- The last try does not count its failures.
unfoldable pub last_try :
    ℕ → Result (Unit {0}) (Option Conn × ℕ) → Result (Unit {0}) (Option Conn × ℕ)
last_try failed (ok (o, k)) = ok (o, failed)
last_try failed (err e) = err e
last_try failed panic = panic

-- `GetConnection`; `done` tells whether the context is done.
unfoldable pub get_connection :
    ConnectionsState
    → (done : Bool) (preferred : Option ℕ) (first second third : Choice)
    → Result (Unit {0}) (Option Conn × ℕ)
unfolding prefer_connection select_random after_try last_try
get_connection s done preferred first second third =
    if done then ok (none, 0) else elim (prefer_connection s preferred) [
      | some c ↦ ok (some c, 0)
      | none ↦
          after_try 0
            (λ k.
              after_try k (λ k'. last_try k' (select_random third s.all true))
                (select_random second s.fallback false))
            (select_random first s.prefer false)
    ]
