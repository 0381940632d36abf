-- ===== src/Server/Requests/OverCache.antt =====
-- Requests to the server over the block cache.
use tonutils_liteserver_prox.Base.{ℕ, Bytes, ◌≡◌, some, bytes_key}
use tonutils_liteserver_prox.Base.Maps.{lookup}
use tonutils_liteserver_prox.Base.Hoare.{Ends}
use tonutils_liteserver_prox.Ton.{Ton, TonLaws, ArcCache, Request}
use tonutils_liteserver_prox.Emulate.{Tvm}
use tonutils_liteserver_prox.Cache.State.{State}
use tonutils_liteserver_prox.Cache.Master.Invariant.{IsValid}
use tonutils_liteserver_prox.Server.Connections.{ServerClient}
use tonutils_liteserver_prox.Server.Services.{WaitMasterBlock, services}
use tonutils_liteserver_prox.Server.Services.OverCache.{WaitKeeps, services-Contract}
use tonutils_liteserver_prox.Server.Limits.{Limiters, KeyConfig}
use tonutils_liteserver_prox.Server.Requests.{Proxy, lite_server_query, handle_request}
use tonutils_liteserver_prox.Server.Requests.Answered.{AnswersOnce, query_answered}

module _ (t : Ton) (a : ArcCache) (laws : TonLaws t) (m : ℕ) (l : Limiters) (vm : Tvm t)
    (wait : WaitMasterBlock t a) (random : ℕ → State t a → Bytes) where
  -- the cache of a proxy is valid
  abbrev pub ValidProxy : Proxy t a l (State t a) → Type 0
  ValidProxy p = IsValid t a m p.store

  -- In a proxy with a valid cache, which stays valid while a request waits, and with ids compared
  -- as documented: whatever the backends answer, a query of a known key gets one answer, with the
  -- id of the query, or none at all if it is a list of requests, or the process panics. In each
  -- case the cache is valid after it.
  pub query_gets_one_answer :
      (ctx : t.Ctx) (sc : ServerClient) (now : ℕ) (id : Bytes) (r : Request) (cfg : KeyConfig l)
      (p : Proxy t a l (State t a))
      → WaitKeeps t a laws m wait
      → lookup sc.server_key p.configs ≡ some cfg
      → ValidProxy p
      → Ends
          (λ ps p'. ValidProxy p' × AnswersOnce id r ps)
          ValidProxy
          (handle_request t a l vm (services t a wait random) ctx sc now (lite_server_query id r) p)
  query_gets_one_answer ctx sc now id r cfg p kept known h =
      query_answered t a l vm (services t a wait random) (IsValid t a m)
        (services-Contract t a laws m wait random kept) ctx sc now id r cfg p known h
