-- ===== src/Cache/Serve.antt =====
-- `GetBlock` and `GetAccountState`: from the cache where it holds or takes the block, else straight
-- from a backend.
use tonutils_liteserver_prox.Base.{Bool, false, ◌&&◌, none, some}
use tonutils_liteserver_prox.Base.Action.{Action, pure, ◌>>=◌}
use tonutils_liteserver_prox.Ton.{Ton, ArcCache, BlockIdExt, AccountState}
use tonutils_liteserver_prox.Cache.State.{State}
use tonutils_liteserver_prox.Cache.Fetch.{get_block, get_account}
use tonutils_liteserver_prox.Cache.Accounts.{get_account_state_in_block}
use tonutils_liteserver_prox.Cache.Shard.{cache_block_if_needed}

module _ (t : Ton) (a : ArcCache) where
  open t use {Cell, Address, Ctx}

  -- `GetBlock`: the id and the data of the answer, and whether the block was cached
  unfoldable pub serve_block : Ctx → BlockIdExt → Action (State t a) (BlockIdExt × Cell × Bool)
  serve_block ctx id = do
    r ← cache_block_if_needed t a ctx id
    elim r.0 [
      | none ↦ do cell ← get_block t a ctx id; pure (id, cell, false)
      | some block ↦ pure (block.id, block.body.data_cell, r.1)
    ]

  -- `if cached { cached = blockFromCache }`
  unfoldable pub get_account_state :
      Ctx → BlockIdExt → Address → Action (State t a) (AccountState Cell × Bool)
  get_account_state ctx id addr = do
    r ← cache_block_if_needed t a ctx id
    elim r.0 [
      | none ↦ do account ← get_account t a ctx id addr; pure (account, false)
      | some block ↦ do
        acc ← get_account_state_in_block t a ctx block addr
        pure (acc.0, acc.1 && r.1)
    ]
