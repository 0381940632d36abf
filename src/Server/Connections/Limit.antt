-- ===== src/Server/Connections/Limit.antt =====
-- No address ever has more connections than the limit, or an empty entry.
use tonutils_liteserver_prox.Base.{
  ℕ, ◌≤◌, ◌<◌, ◌≡◌, inl, inr, false, some, List, [], ◌∷◌, All, length, arith, String, nat_eq,
  Bool-cases, Option-cases, nat_key, string_key,
}
use tonutils_liteserver_prox.Base.Maps.{
  Map, lookup, insert, delete, All-insert, All-delete, All-lookup,
}
use tonutils_liteserver_prox.Base.Action.{final}
use tonutils_liteserver_prox.Server.Connections.{
  Connections, ServerClient, ClientConnInfo, ClientIpInfo, connect, disconnect, touch, touch_port,
  connect_with, is_full,
}

length-delete : (k : ℕ) (m : ClientIpInfo) → length (delete k m) ≤ length m
unfolding delete
length-delete k [] = omega arith
length-delete k ((j, v) ∷ m) = ground (arith, length-delete k m)

length-delete_hit :
    (k : ℕ) (m : ClientIpInfo) (v : ClientConnInfo)
    → lookup k m ≡ some v
    → length (delete k m) < length m
unfolding delete lookup
length-delete_hit k [] v e = cc
length-delete_hit k ((j, w) ∷ m) v e = ground (arith, length-delete_hit k m v, length-delete k m)

-- what holds of the connections of one address
abbrev pub Within : ℕ → ClientIpInfo → Type 0
Within limit info = (0 < length info) × (0 < limit → length info ≤ limit)

pub record IsLimited (s : Connections) : Type 0 where
  pub each : All (λ e. Within s.max_connections_per_ip e.1) s.ips

-- a connection more, where there is room for it
insert-Within :
    (k : ℕ) (conn : ClientConnInfo) (info : ClientIpInfo) (limit : ℕ)
    → (0 < limit → length info ≤ limit)
    → is_full limit info ≡ false
    → Within limit (insert k conn info)
unfolding insert
insert-Within k conn info limit h room =
    (omega arith, λ p. ground (arith, length-delete k info, h p))

-- An update of a connection that is there changes no number.
touch_port-Within :
    (c : ServerClient) (now limit : ℕ) (info : ClientIpInfo)
    → Within limit info
    → Within limit (touch_port c now info)
unfolding insert
touch_port-Within c now limit info w = elim (Option-cases (lookup c.port info)) [
  | inl e ↦ rw (e, touch_port) w
  | inr (conn, e) ↦
      rw (e, touch_port)
        (omega arith, λ p. omega (arith, w.1 p, length-delete_hit c.port info conn e))
]

module _ (c : ServerClient) (s : Connections) (v : IsLimited s) where
  entry-Within :
      (info : ClientIpInfo) → lookup c.ip s.ips ≡ some info → Within s.max_connections_per_ip info
  entry-Within info e = All-lookup _ c.ip info s.ips e v.each

  -- the map with a new entry for the address
  abbrev enter : ClientIpInfo → Map String ClientIpInfo
  enter info = insert c.ip info s.ips

  enter-All :
      (info : ClientIpInfo)
      → Within s.max_connections_per_ip info
      → All (λ e. Within s.max_connections_per_ip e.1) (enter info)
  enter-All info w = All-insert (λ e. Within s.max_connections_per_ip e.1) c.ip info s.ips w v.each

  connect_with-IsLimited :
      (now : ℕ) (info : ClientIpInfo)
      → (0 < s.max_connections_per_ip → length info ≤ s.max_connections_per_ip)
      → IsLimited (final (connect_with c now info s))
  unfolding connect_with
  connect_with-IsLimited now info h = elim (Bool-cases (is_full s.max_connections_per_ip info)) [
    | inl full ↦ rw full (record { each = enter-All info (ground arith, h) })
    | inr room ↦ rw room (record {
      each =
          enter-All (insert c.port (record { client = c; last_request = now }) info)
            (insert-Within c.port _ info s.max_connections_per_ip h room);
    })
  ]

  connect-IsLimited : (now : ℕ) → IsLimited (final (connect c now s))
  unfolding connect
  connect-IsLimited now = elim (Option-cases (lookup c.ip s.ips)) [
    | inl e ↦ rw (e, connect) (connect_with-IsLimited now [] (λ h. omega arith))
    | inr (info, e) ↦ rw (e, connect) (connect_with-IsLimited now info (entry-Within info e).1)
  ]

  disconnect-IsLimited : IsLimited (disconnect c s)
  unfolding disconnect
  disconnect-IsLimited = elim (Option-cases (lookup c.ip s.ips)) [
    | inl e ↦ rw (e, disconnect) (record { each = v.each })
    | inr (info, e) ↦
        rw (e, disconnect)
          (elim (Bool-cases (nat_eq (length (delete c.port info)) 0)) [
            | inl gone ↦ rw gone (record { each = All-delete _ c.ip s.ips v.each })
            | inr left ↦
                let w = entry-Within info e in
                let shorter = length-delete c.port info in
                rw left (record {
                  each = enter-All (delete c.port info) (ground arith, λ h. ground (arith, w.1 h));
                })
          ])
  ]

  touch-IsLimited : (now : ℕ) → IsLimited (touch c now s)
  unfolding touch
  touch-IsLimited now = elim (Option-cases (lookup c.ip s.ips)) [
    | inl e ↦ rw (e, touch) v
    | inr (info, e) ↦
        rw (e, touch)
          (record {
            each =
                enter-All (touch_port c now info)
                  (touch_port-Within c now s.max_connections_per_ip info (entry-Within info e));
          })
  ]

-- what the server of package liteclient calls the hooks with, and a request
pub data Event : Type 0 where
  connects : ServerClient → (now : ℕ) → Event
  disconnects : ServerClient → Event
  requests : ServerClient → (now : ℕ) → Event

pub step : Connections → Event → Connections
step s (connects c now) = final (connect c now s)
step s (disconnects c) = disconnect c s
step s (requests c now) = touch c now s

pub run : Connections → List Event → Connections
unfolding step
run s [] = s
run s (e ∷ es) = run (step s e) es

step-IsLimited : (s : Connections) (e : Event) → IsLimited s → IsLimited (step s e)
unfolding step
step-IsLimited s (connects c now) v = connect-IsLimited c s v now
step-IsLimited s (disconnects c) v = disconnect-IsLimited c s v
step-IsLimited s (requests c now) v = touch-IsLimited c s v now

-- After any sequence of connections, requests and disconnections, each address that is entered has
-- at least one connection, and no more than the limit if there is one.
pub run-IsLimited : (s : Connections) (es : List Event) → IsLimited s → IsLimited (run s es)
unfolding run
run-IsLimited s [] v = v
run-IsLimited s (e ∷ es) v = run-IsLimited (step s e) es (step-IsLimited s e v)
