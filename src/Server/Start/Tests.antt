-- ===== src/Server/Start/Tests.antt =====
-- A proxy for two clients with the same key: the second one counts.
use tonutils_liteserver_prox.Base.{ℕ, Bytes, ◌≡◌, refl, none, some, List, [], ◌∷◌, true, bytes_key}
use tonutils_liteserver_prox.Base.Int.{pos}
use tonutils_liteserver_prox.Base.Maps.{lookup, insert, delete}
use tonutils_liteserver_prox.Base.Action.{ok, pure}
use tonutils_liteserver_prox.Ton.Sample.{sample, unbounded}
use tonutils_liteserver_prox.Config.{ClientConfig}
use tonutils_liteserver_prox.Server.Requests.{Proxy}
use tonutils_liteserver_prox.Server.Sample.{counters}
use tonutils_liteserver_prox.Server.Start.{configure, new_gp_cache, new_proxy}
use tonutils_liteserver_prox.Server.Start.Configured.{Configured, new_proxy-Configured}

-- a seed of 32 bytes, which is its own public key
abbrev seed : Bytes
seed =
    1 ∷ 2 ∷ 3 ∷ 4 ∷ 5 ∷ 6 ∷ 7 ∷ 8 ∷ 1 ∷ 2 ∷ 3 ∷ 4 ∷ 5 ∷ 6 ∷ 7 ∷ 8 ∷ 1 ∷ 2 ∷ 3 ∷ 4 ∷ 5 ∷ 6 ∷ 7 ∷ 8
    ∷ 1 ∷ 2 ∷ 3 ∷ 4 ∷ 5 ∷ 6 ∷ 7 ∷ 8 ∷ []

abbrev clients : List (ClientConfig ℕ)
clients =
    record {
      name = "a";
      private_key = seed;
      capacity_per_ip = pos 0;
      capacity_per_key = pos 9;
      cooling_per_sec = 1;
    }
    ∷ record {
      name = "b";
      private_key = seed;
      capacity_per_ip = pos 5;
      capacity_per_key = pos 0;
      cooling_per_sec = 1;
    }
    ∷ []

second_counts :
    configure counters {S = ℕ} (λ k. k) clients [] 7
    ≡ ok ((seed, record { name = "b"; limiter_per_ip = some 1; limiter_per_key = none }) ∷ []) 7
unfolding configure insert delete pure
second_counts = refl

new_proxy-Configured_example :
    (p : Proxy sample unbounded counters ℕ) × (new_proxy sample unbounded counters
        (λ k. k)
        clients
        true
        20
        10
        7
      ≡ ok p 7)
    × (p.store ≡ 7)
    × ((key : Bytes) → Configured counters (λ k. k) key clients (lookup key p.configs))
unfolding new_gp_cache pure
new_proxy-Configured_example =
    new_proxy-Configured sample unbounded counters (λ k. k) clients true 20 10 (some []) 7
      (refl, (refl, tt)) refl
