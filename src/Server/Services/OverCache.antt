-- ===== src/Server/Services/OverCache.antt =====
-- `*BlockCache`, with the balancer that it shares with the server, as the services of the server.
use tonutils_liteserver_prox.Base.{ℕ, Bytes, refl}
use tonutils_liteserver_prox.Base.Int.{ℤ}
use tonutils_liteserver_prox.Base.Hoare.{gives}
use tonutils_liteserver_prox.Base.Keeps.{Keeps, Replies}
use tonutils_liteserver_prox.Ton.{Ton, TonLaws, ArcCache}
use tonutils_liteserver_prox.Cache.State.{State, read_clock}
use tonutils_liteserver_prox.Cache.Master.Invariant.{IsValid, IsValid-same}
use tonutils_liteserver_prox.Cache.Kept.{ask-Kept, get_account_state_in_block-Kept}
use tonutils_liteserver_prox.Cache.Kept.Shards.{get_master_block-Kept, cache_block_if_needed-Kept}
use tonutils_liteserver_prox.Cache.Kept.Libraries.{get_libraries-Kept}
use tonutils_liteserver_prox.Cache.Kept.Served.{
  get_last_master_block-Kept, get_zero_state-Kept, lookup_block_in_cache-Kept, serve_block-Kept,
  get_account_state-Kept, serve_transaction-Kept,
}
use tonutils_liteserver_prox.Server.Services.{WaitMasterBlock, services}
use tonutils_liteserver_prox.Server.Services.Contract.{Contract}

module _ (t : Ton) (a : ArcCache) (laws : TonLaws t) (m : ℕ) where
  read_clock-Replies : Replies (IsValid t a m) (read_clock t a)
  unfolding read_clock
  read_clock-Replies s h = gives (IsValid-same t a m refl refl h)

  -- What happens to the state while a request waits for a block keeps the cache valid.
  abbrev pub WaitKeeps : WaitMasterBlock t a → Type 0
  WaitKeeps wait =
      (ctx : t.Ctx) (seqno : ℕ) (timeout : ℤ) → Keeps (IsValid t a m) (wait ctx seqno timeout)

  -- With ids compared as documented, and if the cache stays valid while a request waits: each
  -- operation of the block cache and the balancer that the server calls keeps the cache valid,
  -- whether it returns, fails or panics, and whatever the backends answer. The clock does not fail.
  pub services-Contract :
      (wait : WaitMasterBlock t a) (random : ℕ → State t a → Bytes)
      → WaitKeeps wait
      → Contract t a (services t a wait random) (IsValid t a m)
  services-Contract wait random kept = record {
    lookup_block_in_cache = lookup_block_in_cache-Kept t a laws m;
    get_transaction = serve_transaction-Kept t a laws m;
    get_libraries = get_libraries-Kept t a laws m;
    wait_master_block = kept;
    get_zero_state = get_zero_state-Kept t a laws m;
    get_master_block = get_master_block-Kept t a laws m;
    get_last_master_block = get_last_master_block-Kept t a laws m;
    get_block = serve_block-Kept t a laws m;
    get_account_state = get_account_state-Kept t a laws m;
    get_account_state_in_block = get_account_state_in_block-Kept t a laws m;
    cache_block_if_needed = cache_block_if_needed-Kept t a laws m;
    query_liteserver = ask-Kept t a laws m;
    time_now = read_clock-Replies;
  }
