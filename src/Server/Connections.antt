-- ===== src/Server/Connections.antt =====
-- The connections of `ProxyBalancer`: the two hooks, the note of the last request, and the search
-- for idle connections.
pub mod Limit
mod Tests
use tonutils_liteserver_prox.Base.{
  ℕ, Bytes, ◌+◌, ◌-◌, String, Bool, true, false, ◌&&◌, Option, none, some, List, [], ◌∷◌, ◌++◌, ltb,
  leb, nat_eq, length, if◌then◌else◌, nat_key, string_key,
}
use tonutils_liteserver_prox.Base.Maps.{Map, lookup, insert, delete}
use tonutils_liteserver_prox.Base.Action.{Error, plain, Result, ok, err}
use tonutils_liteserver_prox.Base.Int.{ℤ, pos, negsuc}

-- A `liteclient.ServerClient`, as far as the proxy asks: its address, which client it is, and the
-- key of the server that it talks to.
pub record ServerClient : Type 0 where
  pub ip : String
  pub port : ℕ  -- uint16
  pub handle : ℕ
  pub server_key : Bytes

pub record ClientConnInfo : Type 0 where
  pub client : ServerClient
  pub last_request : ℕ  -- int64, Unix seconds

-- `ClientIPInfo`: the active connections by port
abbrev pub ClientIpInfo : Type 0
ClientIpInfo = Map ℕ ClientConnInfo

-- The fields of `ProxyBalancer` about connections; `opened` and `closed` count the steps up and down of the
-- gauge `ActiveADNLConnections`.
pub record Connections : Type 0 where
  pub ips : Map String ClientIpInfo
  pub max_connections_per_ip : ℕ
  pub opened : ℕ
  pub closed : ℕ

-- the connections of an address, none if it is not known
abbrev pub info_of : Option ClientIpInfo → ClientIpInfo
info_of none = []
info_of (some info) = info

-- `s.maxConnectionsPerIP > 0 && len(info.ActiveConnections) >= s.maxConnectionsPerIP`
abbrev pub is_full : ℕ → ClientIpInfo → Bool
is_full limit info = ltb 0 limit && leb limit (length info)

-- The connection hook for an address with the connections `info`, at the Unix time `now`. A new
-- address is entered before the limit is checked.
unfoldable pub connect_with :
    ServerClient → ℕ → ClientIpInfo → Connections → Result Connections (Unit {0})
connect_with c now info s =
    if is_full s.max_connections_per_ip info
    then err (plain "too many connections") (record s { ips = insert c.ip info s.ips })
    else ok tt (record s {
      ips = insert c.ip (insert c.port (record { client = c; last_request = now }) info) s.ips;
      opened = s.opened + 1;
    })

unfoldable pub connect : ServerClient → ℕ → Connections → Result Connections (Unit {0})
unfolding connect_with
connect c now s = connect_with c now (info_of (lookup c.ip s.ips)) s

-- the disconnect hook for an address with the connections `info`
abbrev pub drop_port :
    ServerClient → ClientIpInfo → Map String ClientIpInfo → Map String ClientIpInfo
drop_port c info ips =
    let info' = delete c.port info in
    if nat_eq (length info') 0 then delete c.ip ips else insert c.ip info' ips

unfoldable pub disconnect : ServerClient → Connections → Connections
disconnect c s = elim (lookup c.ip s.ips) [
  | none ↦ record s { closed = s.closed + 1 }
  | some info ↦ record s { ips = drop_port c info s.ips; closed = s.closed + 1 }
]

-- What `handleRequest` notes before it looks at the message.
abbrev pub touch_port : ServerClient → ℕ → ClientIpInfo → ClientIpInfo
touch_port c now info = elim (lookup c.port info) [
  | none ↦ info
  | some conn ↦ insert c.port (record conn { last_request = now }) info
]

unfoldable pub touch : ServerClient → ℕ → Connections → Connections
touch c now s = elim (lookup c.ip s.ips) [
  | none ↦ s
  | some info ↦ record s { ips = insert c.ip (touch_port c now info) s.ips }
]

-- The clients of one address whose last request is older than `last`.
unfoldable pub idle_of : ℕ → ClientIpInfo → List ServerClient
idle_of last [] = []
idle_of last ((p, conn) ∷ rest) =
    let others = idle_of last rest in
    if ltb conn.last_request last then conn.client ∷ others else others

-- One round of the cleanup: the clients that are closed. The hook of each does the rest.
unfoldable pub idle : ℕ → Map String ClientIpInfo → List ServerClient
unfolding idle_of
idle last [] = []
idle last ((ip, info) ∷ rest) = idle_of last info ++ idle last rest
