-- ===== src/Cache/State.antt =====
-- The state of `BlockCache`, and its arithmetic of uint32.
use tonutils_liteserver_prox.Base.{
  Bool, ℕ, ◌+◌, ◌-◌, ◌%◌, ◌^◌, String, Bytes, Option, List, if◌then◌else◌, ltb,
}
use tonutils_liteserver_prox.Base.Int.{ℤ, pos, negsuc}
use tonutils_liteserver_prox.Base.Maps.{Map}
use tonutils_liteserver_prox.Base.Action.{Action, ok, err, panic}
use tonutils_liteserver_prox.Ton.{
  Ton, ArcCache, BlockIdExt, ZeroStateIdExt, AccountState, Request, Message,
}
use tonutils_liteserver_prox.Backend.{Net, query}

abbrev pub add_uint32 : ℕ → ℕ → ℕ
add_uint32 a b = (a + b) % 2 ^ 32

abbrev pub sub_uint32 : ℕ → ℕ → ℕ
sub_uint32 a b = (a + 2 ^ 32 - b) % 2 ^ 32

-- `uint32(x)` of a signed integer
abbrev pub to_uint32 : ℤ → ℕ
to_uint32 (pos n) = n % 2 ^ 32
to_uint32 (negsuc n) = 2 ^ 32 - 1 - n % 2 ^ 32

-- `int32(x)` of a uint32
abbrev pub to_int32 : ℕ → ℤ
to_int32 n = if ltb n (2 ^ 31) then pos n else negsuc (2 ^ 32 - 1 - n)

abbrev pub masterchain : ℤ
masterchain = negsuc 0

pub record CacheConfig : Type 0 where
  pub disable_get_methods_emulation : Bool
  pub max_cached_accounts_per_block : ℕ
  pub max_cached_libraries : ℕ
  pub max_master_block_seqno_diff_to_cache : ℕ
  pub max_shard_block_seqno_diff_to_cache : ℕ

module _ (t : Ton) (a : ArcCache) where
  open t use {Cell, Dict, ShardAccounts, Ctx}
  open a use {Arc}

  -- The fields of a `Block` that are filled together, after it has been fetched. The cache of
  -- accounts is shared by all copies of the block, so it is the number of a cache in the state.
  pub record Body : Type 0 where
    pub data_cell : Cell
    pub shard_accounts : ShardAccounts
    pub master_id : BlockIdExt
    pub accounts_cache : Option ℕ

  pub record Block : Type 0 where
    pub id : BlockIdExt
    pub body : Body

  pub record MasterBlock : Type 0 where
    pub block : Block
    pub state_hash : Bytes
    pub gen_time : ℕ
    pub config : Dict

  -- A shard block has its id from the start, and the rest once `Data` is not nil.
  pub record ShardBlock : Type 0 where
    pub id : BlockIdExt
    pub body : Option Body

  pub record ShardInfo : Type 0 where
    pub shard_blocks : Map ℕ ShardBlock
    pub last_block : BlockIdExt
    pub updated_at : ℕ  -- nanoseconds

  -- A masterchain block that is not fetched yet, `&MasterBlock{}`, is an entry `none`.
  -- `account_caches` holds the caches that blocks refer to, and `broadcasts` counts the channels
  -- of `mcWaiter` that have been closed.
  pub record State : Type 0 where
    pub net : Net t
    pub config : CacheConfig
    pub libs_cache : Option (Arc Bytes Cell)
    pub last_block : Option BlockIdExt
    pub zero_state : Option ZeroStateIdExt
    pub master_blocks : Map ℕ (Option MasterBlock)
    pub shard_blocks : Map Bytes ShardInfo
    pub account_caches : List (Arc String (AccountState Cell))
    pub broadcasts : ℕ

  -- `c.balancer.GetClient().QueryLiteserver(ctx, payload, &resp)`
  unfoldable pub ask : Ctx → Request → Action State (Message Cell)
  ask ctx payload s = elim (query t ctx payload s.net) [
    | ok m n ↦ ok m (record s { net = n })
    | err e n ↦ err e (record s { net = n })
    | panic p n ↦ panic p (record s { net = n })
  ]

  -- `time.Now()`
  unfoldable pub read_clock : Action State ℕ
  read_clock s =
      let (now, w) = t.time_now s.net.world in
      ok now (record s { net = record (s.net) { world = w } })
