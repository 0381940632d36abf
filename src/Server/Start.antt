-- ===== src/Server/Start.antt =====
-- `NewProxyBalancer`, but for its hooks and the loop that closes idle connections: the cache of
-- answers, and the limits of the keys. `public_key` is that of ed25519 for a seed.
pub mod Configured
mod Tests
use Prim.Native.String.{◌++◌ as ◌<>◌}
use tonutils_liteserver_prox.Base.{
  ℕ, suc, Bytes, Bool, true, false, Option, none, some, List, [], ◌∷◌, nat_eq, ltb, length,
  if◌then◌else◌, bytes_key,
}
use tonutils_liteserver_prox.Base.Int.{ℤ, pos}
use tonutils_liteserver_prox.Base.Maps.{Map, insert}
use tonutils_liteserver_prox.Base.Action.{Fallible, good, bad, Action, ok, pure, crash, ◌>>=◌}
use tonutils_liteserver_prox.Ton.{Ton, ArcCache, Message}
use tonutils_liteserver_prox.Config.{ClientConfig}
use tonutils_liteserver_prox.Server.Limits.{Limiters, KeyConfig}
use tonutils_liteserver_prox.Server.Requests.{Proxy}

-- `capacity > 0`, of an int64
abbrev pub is_positive : ℤ → Bool
is_positive (pos (suc n)) = true
is_positive _ = false

module _ (l : Limiters) where
  -- a `KeyConfig` from the configuration of a client
  abbrev pub key_config : ClientConfig l.Rate → KeyConfig l
  key_config c = record {
    name = c.name;
    limiter_per_ip =
        if is_positive c.capacity_per_ip
        then some (l.new_collector c.cooling_per_sec c.capacity_per_ip true)
        else none;
    limiter_per_key =
        if is_positive c.capacity_per_key
        then some (l.new_bucket c.cooling_per_sec c.capacity_per_key)
        else none;
  }

  -- The loop over the clients. `NewKeyFromSeed` panics if the seed is not of 32 bytes.
  unfoldable pub configure :
      {S : Type 0}
      → (public_key : Bytes → Bytes) → List (ClientConfig l.Rate)
      → Map Bytes (KeyConfig l)
      → Action S (Map Bytes (KeyConfig l))
  configure public_key [] configs = pure configs
  configure public_key (c ∷ cs) configs =
      let rest =
        configure public_key cs (insert (public_key c.private_key) (key_config c) configs) in
      if nat_eq (length c.private_key) 32 then rest else crash "ed25519: bad seed length"

module _ (t : Ton) (a : ArcCache) where
  abbrev pub opened_cache :
      {S : Type 0}
      → Fallible (a.Arc ℕ (Message t.Cell))
      → Action S (Option (a.Arc ℕ (Message t.Cell)))
  opened_cache (good c) = pure (some c)
  opened_cache (bad e) = crash ("failed to init general purpose cache: " <> t.error_text e)

  -- the cache of answers, for a size above 0
  unfoldable pub new_gp_cache : {S : Type 0} → ℕ → Action S (Option (a.Arc ℕ (Message t.Cell)))
  new_gp_cache size =
      if ltb 0 size then opened_cache (a.new_arc ℕ (Message t.Cell) size) else pure none

  unfoldable pub new_proxy :
      {S : Type 0}
      → (l : Limiters) → (public_key : Bytes → Bytes) → List (ClientConfig l.Rate)
      → (only_proxy : Bool) → (max_connections_per_ip : ℕ) → (gp_cache_size : ℕ)
      → Action S (Proxy t a l S)
  unfolding new_gp_cache configure
  new_proxy l public_key clients only_proxy max_connections_per_ip gp_cache_size = do
    g ← new_gp_cache gp_cache_size
    configs ← configure l public_key clients []
    λ s.
        ok
          (record {
            store = s;
            configs = configs;
            connections = record {
              ips = [];
              max_connections_per_ip = max_connections_per_ip;
              opened = 0;
              closed = 0;
            };
            gp_cache = g;
            only_proxy = only_proxy;
          })
          s
