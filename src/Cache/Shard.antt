-- ===== src/Cache/Shard.antt =====
-- `CacheBlockIfNeeded`: the block of an id from the cache, fetched and kept if it is recent.
pub mod Masterchain
pub mod Entry
pub mod Poison
use tonutils_liteserver_prox.Base.{
  ℕ, ◌-◌, ◌^◌, Bytes, Bool, true, false, not, Option, none, some, ltb, leb, if◌then◌else◌, nat_key,
  bytes_key, ◌==◌,
}
use tonutils_liteserver_prox.Base.Int.{pos, negsuc, int_key}
use tonutils_liteserver_prox.Base.Maps.{lookup, insert}
use tonutils_liteserver_prox.Base.Action.{ls, wrap, Action, ok, err, pure, crash, lift, ◌>>=◌, ◌>>◌}
use tonutils_liteserver_prox.Ton.{Ton, ArcCache, BlockIdExt, BlockExtra, TlbBlock}
use tonutils_liteserver_prox.Cache.State.{
  State, Block, Body, ShardBlock, ShardInfo, masterchain, sub_uint32,
}
use tonutils_liteserver_prox.Cache.ShardKey.{get_shard_key}
use tonutils_liteserver_prox.Cache.Fetch.{get_block}
use tonutils_liteserver_prox.Cache.Accounts.{new_accounts_cache}
use tonutils_liteserver_prox.Cache.Master.{fetched, get_master_block}

module _ (t : Ton) (a : ArcCache) where
  open t use {Cell, Dict, Ctx}

  -- `si.shardBlocks[seqno]`, nil without a `si`
  abbrev pub shard_entry : Option (ShardInfo t a) → ℕ → Option (ShardBlock t a)
  shard_entry none seqno = none
  shard_entry (some si) seqno = lookup seqno si.shard_blocks

  -- The block of an entry whose data is fetched.
  abbrev pub loaded : Option (ShardBlock t a) → Option (Block t a)
  loaded none = none
  loaded (some b) = elim b.body [
    | none ↦ none
    | some body ↦ some (record { id = b.id; body = body })
  ]

  -- `if b == nil { b = &ShardBlock{ID: id.Copy()} }`
  abbrev pub placeholder : BlockIdExt → Option (ShardBlock t a) → ShardBlock t a
  placeholder id none = record { id = id; body = none }
  placeholder id (some b) = b

  -- A write to `si.shardBlocks[seqno]`.
  unfoldable pub store_shard : Bytes → ℕ → ShardBlock t a → Action (State t a) (Unit {0})
  store_shard key seqno b s = elim (lookup key s.shard_blocks) [
    | none ↦ ok tt s
    | some si ↦ ok tt (record s {
      shard_blocks =
          insert key (record si { shard_blocks = insert seqno b si.shard_blocks }) s.shard_blocks;
    })
  ]

  -- `block.Extra.ShardAccountBlocks`, through a pointer
  abbrev pub shard_account_blocks : Option (BlockExtra Cell Dict) → Action (State t a) Cell
  shard_account_blocks none = crash "invalid memory address or nil pointer dereference"
  shard_account_blocks (some extra) = pure extra.shard_account_blocks

  -- what a fetched shard block is given; its masterchain block is the one that it refers to
  abbrev pub new_body : Cell → t.ShardAccounts → Option ℕ → TlbBlock Cell Dict → Body t a
  new_body cell accounts cache block = record {
    data_cell = cell;
    shard_accounts = accounts;
    master_id = record {
      workchain = masterchain;
      shard = negsuc (2 ^ 63 - 1);
      seqno = block.master_seqno;
      root_hash = block.master_root_hash;
      file_hash = block.master_file_hash;
    };
    accounts_cache = cache;
  }

  -- The fetch under the lock of the entry `b`, which keeps the id that it has.
  unfoldable pub fill_shard :
      Ctx → BlockIdExt → Bytes → ShardBlock t a → Action (State t a) (Option (Block t a) × Bool)
  unfolding store_shard
  fill_shard ctx id key b = elim b.body [
    | some body ↦ pure (some (record { id = b.id; body = body }), true)
    | none ↦ do
      cell ← get_block t a ctx id
      block ← lift (wrap "failed to parse block data" (t.load_block cell))
      account_cell ← shard_account_blocks block.extra
      accounts ←
          lift
            (wrap "failed to load shard accounts from block" (t.load_shard_accounts account_cell))
      cache ← new_accounts_cache t a
      store_shard key id.seqno
          (record { id = b.id; body = some (new_body cell accounts cache block) })
      pure (some (record { id = b.id; body = new_body cell accounts cache block }), false)
  ]

  -- `id.SeqNo >= si.lastBlock.SeqNo - MaxShardBlockSeqnoDiffToCache`, false without a `si`
  unfoldable pub need_shard : BlockIdExt → Option (ShardInfo t a) → State t a → Bool
  need_shard id none s = false
  need_shard id (some si) s =
      leb (sub_uint32 si.last_block.seqno s.config.max_shard_block_seqno_diff_to_cache) id.seqno

  -- The branch for a shard, at the entry of the block and the flag `needCache`.
  unfoldable pub answer_shard :
      Ctx
      → BlockIdExt
      → Bool
      → Option (ShardBlock t a)
      → Action (State t a) (Option (Block t a) × Bool)
  unfolding fill_shard
  answer_shard ctx id need entry s =
      let key = get_shard_key id.workchain id.shard in
      elim (loaded entry) [
        | some block ↦
            if t.id_equals block.id id
            then ok (some block, true) s
            else err (ls (record { code = pos 403; text = "incorrect block id" })) s
        | none ↦
            let b = placeholder id entry in
            if need
            then (do store_shard key id.seqno b; fill_shard ctx id key b) s
            else ok (none, false) s
      ]

  unfoldable pub cache_shard_block :
      Ctx → BlockIdExt → Action (State t a) (Option (Block t a) × Bool)
  unfolding answer_shard need_shard
  cache_shard_block ctx id s =
      let si = lookup (get_shard_key id.workchain id.shard) s.shard_blocks in
      answer_shard ctx id (need_shard id si s) (shard_entry si id.seqno) s

  -- `c.lastBlock != nil && id.SeqNo < c.lastBlock.SeqNo - MaxMasterBlockSeqnoDiffToCache`
  unfoldable pub need_master : BlockIdExt → State t a → Bool
  need_master id s = elim s.last_block [
    | none ↦ false
    | some last ↦ ltb id.seqno (sub_uint32 last.seqno s.config.max_master_block_seqno_diff_to_cache)
  ]

  -- the branch for the masterchain
  unfoldable pub cache_master_block :
      Ctx → BlockIdExt → Action (State t a) (Option (Block t a) × Bool)
  unfolding need_master
  cache_master_block ctx id s = elim (fetched t a (lookup id.seqno s.master_blocks)) [
    | some b ↦
        if t.id_equals b.block.id id
        then ok (some b.block, true) s
        else err (ls (record { code = pos 403; text = "incorrect block id" })) s
    | none ↦
        if need_master id s
        then (do r ← get_master_block t a ctx id; pure (some (r.0).block, r.1)) s
        else ok (none, false) s
  ]

  -- The block, nil if the cache does not care for it, and whether it was there already.
  unfoldable pub cache_block_if_needed :
      Ctx → BlockIdExt → Action (State t a) (Option (Block t a) × Bool)
  unfolding cache_shard_block cache_master_block
  cache_block_if_needed ctx id =
      if not (id.workchain == masterchain)
      then cache_shard_block ctx id
      else cache_master_block ctx id
