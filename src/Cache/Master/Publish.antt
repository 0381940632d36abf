-- ===== src/Cache/Master/Publish.antt =====
-- What `GetMasterBlock` does under the lock when the block that it has fetched is the newest.
use tonutils_liteserver_prox.Base.{
  ℕ, ◌+◌, Bytes, Bool, true, not, Option, none, some, List, [], ◌∷◌, ltb, if◌then◌else◌, nat_key,
  bytes_key,
}
use tonutils_liteserver_prox.Base.Maps.{Map, lookup, insert, retain}
use tonutils_liteserver_prox.Base.Action.{Action, ok, pure, ◌>>=◌, ◌>>◌}
use tonutils_liteserver_prox.Ton.{Ton, ArcCache, BlockIdExt}
use tonutils_liteserver_prox.Cache.State.{
  State, ShardInfo, ShardBlock, MasterBlock, CacheConfig, sub_uint32, read_clock,
}
use tonutils_liteserver_prox.Cache.ShardKey.{get_shard_key}

-- fifteen minutes, in nanoseconds
abbrev pub stale_after : ℕ
stale_after = 900000000000

module _ (t : Ton) (a : ArcCache) where
  -- the entries that the loop over `si.shardBlocks` leaves
  unfoldable pub keep_shard_block : CacheConfig → BlockIdExt → ℕ → ShardBlock t a → Bool
  keep_shard_block cfg last u b =
      not (ltb cfg.max_shard_block_seqno_diff_to_cache (sub_uint32 last.seqno b.id.seqno))

  -- the blocks that a `ShardInfo`, or a new one, holds
  abbrev pub blocks_of : Option (ShardInfo t a) → Map ℕ (ShardBlock t a)
  blocks_of none = []
  blocks_of (some si) = si.shard_blocks

  -- One round of the loop over the shards of the new block, at the time `now`.
  unfoldable pub update_shard :
      CacheConfig → BlockIdExt → ℕ → Map Bytes (ShardInfo t a) → Map Bytes (ShardInfo t a)
  unfolding keep_shard_block
  update_shard cfg shard now shards =
      let key = get_shard_key shard.workchain shard.shard in
      insert key
        (record {
          shard_blocks = retain (keep_shard_block cfg shard) (blocks_of (lookup key shards));
          last_block = shard;
          updated_at = now;
        })
        shards

  -- the loop over the shards, with a reading of the clock in each round
  unfoldable pub update_shards : List BlockIdExt → Action (State t a) (Unit {0})
  unfolding update_shard
  update_shards [] = pure tt
  update_shards (shard ∷ rest) = do
    now ← read_clock t a
    λ s.
        update_shards rest
          (record s { shard_blocks = update_shard s.config shard now s.shard_blocks })

  -- the entries that the loop over `c.masterBlocks` leaves; one that is not fetched yet stays
  unfoldable pub keep_master_block : CacheConfig → BlockIdExt → ℕ → Option (MasterBlock t a) → Bool
  keep_master_block cfg last k none = true
  keep_master_block cfg last k (some b) =
      not (ltb cfg.max_master_block_seqno_diff_to_cache (sub_uint32 last.seqno b.block.id.seqno))

  -- `!sx.updatedAt.Before(now - 15 minutes)`
  unfoldable pub keep_shard_info : ℕ → Bytes → ShardInfo t a → Bool
  keep_shard_info now k sx = not (ltb (sx.updated_at + stale_after) now)

  -- `c.lastBlock == nil || id.SeqNo > c.lastBlock.SeqNo`
  unfoldable pub is_newer : BlockIdExt → Option BlockIdExt → Bool
  is_newer id none = true
  is_newer id (some last) = ltb last.seqno id.seqno

  -- The two loops that clean the maps, for the new last block `id`, at the time `now`.
  unfoldable pub clean : BlockIdExt → ℕ → State t a → State t a
  unfolding keep_master_block keep_shard_info
  clean id now s = record s {
    master_blocks = retain (keep_master_block s.config id) s.master_blocks;
    shard_blocks = retain (keep_shard_info now) s.shard_blocks;
  }

  -- The whole block `if lastUpdated { … }`, the broadcast included.
  unfoldable pub publish : BlockIdExt → List BlockIdExt → Action (State t a) (Unit {0})
  unfolding is_newer update_shards clean
  publish id shards s =
      if is_newer id s.last_block
      then (do
        update_shards shards
        now ← read_clock t a
        λ s'. let s'' = clean id now s' in ok tt (record s'' { broadcasts = s''.broadcasts + 1 }))
          (record s { last_block = some id })
      else ok tt s
