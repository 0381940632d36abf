-- ===== src/Server/Services.antt =====
-- What the server uses of the cache and of the backends: the interface `Cache` of server.go, over
-- the state in which the cache and the balancer live.
pub mod Contract
pub mod OverCache
use tonutils_liteserver_prox.Base.{ℕ, Bytes, Bool, Option, List}
use tonutils_liteserver_prox.Base.Int.{ℤ}
use tonutils_liteserver_prox.Base.Action.{Action}
use tonutils_liteserver_prox.Ton.{
  Ton, ArcCache, BlockIdExt, BlockInfoShort, BlockHeader, AccountId, AccountState, TransactionInfo,
  ZeroStateIdExt, Request, Message,
}
use tonutils_liteserver_prox.Cache.State.{State, Block, MasterBlock, ask, read_clock}
use tonutils_liteserver_prox.Cache.Master.{get_master_block, get_last_master_block, get_zero_state}
use tonutils_liteserver_prox.Cache.Shard.{cache_block_if_needed}
use tonutils_liteserver_prox.Cache.Libraries.{get_libraries}
use tonutils_liteserver_prox.Cache.Accounts.{get_account_state_in_block}
use tonutils_liteserver_prox.Cache.Lookup.{lookup_block_in_cache}
use tonutils_liteserver_prox.Cache.Serve.{serve_block, get_account_state}
use tonutils_liteserver_prox.Cache.Transaction.{serve_transaction}

module _ (t : Ton) (a : ArcCache) where
  open t use {Cell, Dict, Address, Ctx, World}

  -- The flags say that what is returned was in the cache. `wait_master_block` takes seconds, and
  -- stands for the call with all that other goroutines do to the state while it waits.
  pub record Cache (S : Type 0) : Type 0 where
    pub lookup_block_in_cache : BlockInfoShort → Action S (Option (BlockHeader Cell))
    pub get_transaction : Ctx → BlockIdExt → AccountId → ℤ → Action S (TransactionInfo × Bool)
    pub get_libraries : Ctx → List Bytes → Action S (Dict × Bool)
    pub wait_master_block : Ctx → ℕ → ℤ → Action S (Unit {0})
    pub get_zero_state : Action S ZeroStateIdExt
    pub get_master_block : Ctx → BlockIdExt → Action S (MasterBlock t a × Bool)
    pub get_last_master_block : Ctx → Action S (MasterBlock t a × Bool)
    pub get_block : Ctx → BlockIdExt → Action S (BlockIdExt × Cell × Bool)
    pub get_account_state : Ctx → BlockIdExt → Address → Action S (AccountState Cell × Bool)
    pub get_account_state_in_block : Ctx → Block t a → Address → Action S (AccountState Cell × Bool)
    pub cache_block_if_needed : Ctx → BlockIdExt → Action S (Option (Block t a) × Bool)

  -- The cache, the balancer that it shares with the server, the clock and the source of random bytes.
  pub record Services (S : Type 0) : Type 0 where
    pub cache : Cache S
    pub query_liteserver : Ctx → Request → Action S (Message Cell)
    pub time_now : Action S ℕ
    pub world : S → World
    pub random : ℕ → S → Bytes

  -- A call of `WaitMasterBlock`, with what happens to the state in the meantime.
  abbrev pub WaitMasterBlock : Type 0
  WaitMasterBlock = Ctx → ℕ → ℤ → Action (State t a) (Unit {0})

  -- `*BlockCache` as a `Cache`
  abbrev pub block_cache : WaitMasterBlock → Cache (State t a)
  block_cache wait = record {
    lookup_block_in_cache = lookup_block_in_cache t a;
    get_transaction = serve_transaction t a;
    get_libraries = get_libraries t a;
    wait_master_block = wait;
    get_zero_state = get_zero_state t a;
    get_master_block = get_master_block t a;
    get_last_master_block = get_last_master_block t a;
    get_block = serve_block t a;
    get_account_state = get_account_state t a;
    get_account_state_in_block = get_account_state_in_block t a;
    cache_block_if_needed = cache_block_if_needed t a;
  }

  abbrev pub services : WaitMasterBlock → (ℕ → State t a → Bytes) → Services (State t a)
  services wait random = record {
    cache = block_cache wait;
    query_liteserver = ask t a;
    time_now = read_clock t a;
    world = λ s. s.net.world;
    random = random;
  }
