-- ===== src/Cache/Lookup.antt =====
-- `LookupBlockInCache`: the header of a block that the cache holds.
use tonutils_liteserver_prox.Base.{Option, none, some, nat_key, bytes_key, if◌then◌else◌, ◌==◌}
use tonutils_liteserver_prox.Base.Int.{int_key}
use tonutils_liteserver_prox.Base.Maps.{lookup}
use tonutils_liteserver_prox.Base.Action.{Action, ok, pure, lift, ◌>>=◌}
use tonutils_liteserver_prox.Ton.{Ton, ArcCache, BlockInfoShort, BlockHeader}
use tonutils_liteserver_prox.Cache.State.{State, Block, MasterBlock, masterchain, to_uint32}
use tonutils_liteserver_prox.Cache.ShardKey.{get_shard_key}
use tonutils_liteserver_prox.Cache.Master.{fetched}
use tonutils_liteserver_prox.Cache.Shard.{shard_entry, loaded}

module _ (t : Ton) (a : ArcCache) where
  abbrev pub block_of_master : Option (MasterBlock t a) → Option (Block t a)
  block_of_master none = none
  block_of_master (some b) = some b.block

  -- the block with data that the maps hold under the short id; a masterchain block is found by
  -- its seqno alone
  unfoldable pub find_block : BlockInfoShort → State t a → Option (Block t a)
  find_block id s =
      let seqno = to_uint32 id.seqno in
      if id.workchain == masterchain
      then block_of_master (fetched t a (lookup seqno s.master_blocks))
      else loaded t a
          (shard_entry t a (lookup (get_shard_key id.workchain id.shard) s.shard_blocks) seqno)

  unfoldable pub lookup_block_in_cache :
      BlockInfoShort → Action (State t a) (Option (BlockHeader t.Cell))
  unfolding find_block
  lookup_block_in_cache id s = elim (find_block id s) [
    | none ↦ ok none s
    | some block ↦
        (do
          proof ← lift (t.header_proof block.body.data_cell)
          pure (some (record { id = block.id; mode = 0; header_proof = proof })))
          s
  ]
