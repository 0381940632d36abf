-- ===== src/Server/Services/Contract.antt =====
-- What the server relies on: each service keeps a property of the state, and the clock never fails.
use tonutils_liteserver_prox.Base.{ℕ, Bytes, List}
use tonutils_liteserver_prox.Base.Int.{ℤ}
use tonutils_liteserver_prox.Base.Keeps.{Keeps, Replies}
use tonutils_liteserver_prox.Ton.{Ton, ArcCache, BlockIdExt, BlockInfoShort, AccountId, Request}
use tonutils_liteserver_prox.Cache.State.{Block}
use tonutils_liteserver_prox.Server.Services.{Services}

module _ (t : Ton) (a : ArcCache) {S : Type 0} (v : Services t a S) (Ok : S → Type 0) where
  pub record Contract : Type 0 where
    pub lookup_block_in_cache : (id : BlockInfoShort) → Keeps Ok (v.cache.lookup_block_in_cache id)
    pub get_transaction :
        (ctx : t.Ctx) (id : BlockIdExt) (account : AccountId) (lt : ℤ)
        → Keeps Ok (v.cache.get_transaction ctx id account lt)
    pub get_libraries :
        (ctx : t.Ctx) (hashes : List Bytes) → Keeps Ok (v.cache.get_libraries ctx hashes)
    pub wait_master_block :
        (ctx : t.Ctx) (seqno : ℕ) (timeout : ℤ)
        → Keeps Ok (v.cache.wait_master_block ctx seqno timeout)
    pub get_zero_state : Keeps Ok v.cache.get_zero_state
    pub get_master_block :
        (ctx : t.Ctx) (id : BlockIdExt) → Keeps Ok (v.cache.get_master_block ctx id)
    pub get_last_master_block : (ctx : t.Ctx) → Keeps Ok (v.cache.get_last_master_block ctx)
    pub get_block : (ctx : t.Ctx) (id : BlockIdExt) → Keeps Ok (v.cache.get_block ctx id)
    pub get_account_state :
        (ctx : t.Ctx) (id : BlockIdExt) (addr : t.Address)
        → Keeps Ok (v.cache.get_account_state ctx id addr)
    pub get_account_state_in_block :
        (ctx : t.Ctx) (block : Block t a) (addr : t.Address)
        → Keeps Ok (v.cache.get_account_state_in_block ctx block addr)
    pub cache_block_if_needed :
        (ctx : t.Ctx) (id : BlockIdExt) → Keeps Ok (v.cache.cache_block_if_needed ctx id)
    pub query_liteserver : (ctx : t.Ctx) (r : Request) → Keeps Ok (v.query_liteserver ctx r)
    pub time_now : Replies Ok v.time_now
