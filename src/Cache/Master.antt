-- ===== src/Cache/Master.antt =====
-- `GetMasterBlock` and what it calls: the checks of the seqno, the fetch, and the publication of a
-- new last block.
pub mod Publish
pub mod Publication
pub mod Cleanup
pub mod Invariant
pub mod Window
use tonutils_liteserver_prox.Base.{
  ℕ, String, Bytes, Bool, true, false, not, Option, none, some, List, [], ◌∷◌, ltb, if◌then◌else◌,
  nat_key, ◌==◌, ◌&&◌, ◌+◌,
}
use tonutils_liteserver_prox.Base.Int.{pos, int_key}
use tonutils_liteserver_prox.Base.Maps.{lookup, insert}
use tonutils_liteserver_prox.Base.Action.{
  Error, ls, plain, Fallible, good, bad, wrap, Action, Result, ok, err, panic, pure, fail, lift,
  wrapping, ◌>>=◌, ◌>>◌,
}
use tonutils_liteserver_prox.Ton.{
  Ton, ArcCache, BlockIdExt, TlbBlock, BlockExtra, McExtra, ZeroStateIdExt,
}
use tonutils_liteserver_prox.Cache.State.{
  State, MasterBlock, Block, Body, masterchain, add_uint32, sub_uint32,
}
use tonutils_liteserver_prox.Cache.Fetch.{get_block, get_blockchain_config}
use tonutils_liteserver_prox.Cache.Accounts.{new_accounts_cache}
use Publish.{publish}

-- `block.Extra == nil || block.Extra.Custom == nil || block.BlockInfo.NotMaster`
unfoldable pub complete_master :
    {C D : Type 0} → Bool → Option (BlockExtra C D) → Fallible (BlockExtra C D × McExtra D)
complete_master not_master none = bad (plain "not complete master block")
complete_master not_master (some extra) = elim extra.custom [
  | none ↦ bad (plain "not complete master block")
  | some custom ↦
      if not_master then bad (plain "not complete master block") else good (extra, custom)
]

module _ (t : Ton) (a : ArcCache) where
  open t use {Cell, Dict, Ctx}

  unfoldable pub last_seqno : Option BlockIdExt → ℕ
  last_seqno none = 0
  last_seqno (some last) = last.seqno

  -- The refusals of `GetMasterBlock` before it looks at the entry of the block.
  unfoldable pub refusal : BlockIdExt → State t a → Option Error
  unfolding last_seqno
  refusal id s =
      let last = last_seqno s.last_block in
      if not (id.workchain == masterchain)
      then some (plain "not a master workchain")
      else if ltb 0 last
          && ltb id.seqno (sub_uint32 last s.config.max_master_block_seqno_diff_to_cache)
      then some (ls (record { code = pos 404; text = "too old master info requested" }))
      else if ltb 0 last && ltb (add_uint32 last 200) id.seqno
      then some (ls (record { code = pos 404; text = "too future block" }))
      else none

  -- An entry of `c.masterBlocks` with the block that it holds, if it is fetched.
  abbrev pub fetched : Option (Option (MasterBlock t a)) → Option (MasterBlock t a)
  fetched none = none
  fetched (some entry) = entry

  -- `if b == nil { … c.masterBlocks[id.SeqNo] = &MasterBlock{} }`
  unfoldable pub ensure_entry : ℕ → State t a → State t a
  ensure_entry seqno s = elim (lookup seqno s.master_blocks) [
    | none ↦ record s { master_blocks = insert seqno none s.master_blocks }
    | some entry ↦ s
  ]

  -- The configuration: that of a key block itself, else that of the block before, else a query.
  unfoldable pub master_config : Ctx → BlockIdExt → McExtra Dict → Action (State t a) Dict
  master_config ctx id custom s =
      if custom.key_block
      then ok custom.config_params s
      else elim (fetched (lookup (sub_uint32 id.seqno 1) s.master_blocks)) [
        | some prev ↦ ok prev.config s
        | none ↦ wrapping "failed to get config" (get_blockchain_config t a ctx id) s
      ]

  -- the values that a fetched block is given
  abbrev pub new_master_block :
      BlockIdExt → Cell → t.ShardAccounts → Option ℕ → Bytes → ℕ → Dict → MasterBlock t a
  new_master_block id cell accounts cache hash time cfg = record {
    block = record {
      id = id;
      body = record {
        data_cell = cell;
        shard_accounts = accounts;
        master_id = id;
        accounts_cache = cache;
      };
    };
    state_hash = hash;
    gen_time = time;
    config = cfg;
  }

  unfoldable pub store_master : BlockIdExt → MasterBlock t a → Action (State t a) (Unit {0})
  store_master id b s =
      ok tt (record s { master_blocks = insert id.seqno (some b) s.master_blocks })

  -- From the query for the block to the end of `GetMasterBlock`.
  unfoldable pub fill_master : Ctx → BlockIdExt → Action (State t a) (MasterBlock t a)
  unfolding complete_master master_config store_master
  fill_master ctx id = do
    cell ← wrapping "failed to get block data" (get_block t a ctx id)
    block ← lift (wrap "failed to parse block data" (t.load_block cell))
    first ← lift (
        wrap "corrpted state update first bits"
          (t.load_slice (8 + 256) (t.begin_parse block.state_update)))
    hash ← lift (wrap "corrpted state update" (t.load_slice 256 first.1))
    parts ← lift (complete_master block.not_master block.extra)
    cfg ← master_config ctx id parts.1
    accounts ← lift (
        wrap "failed to load shard accounts from block"
          (t.load_shard_accounts (parts.0).shard_account_blocks))
    shards ← lift (t.load_shards (parts.1).shard_hashes)
    cache ← new_accounts_cache t a
    store_master id (new_master_block id cell accounts cache hash.0 block.gen_utime cfg)
    publish t a id shards
    pure (new_master_block id cell accounts cache hash.0 block.gen_utime cfg)

  -- The end of `GetMasterBlock`, for an entry that holds a block or does not. The flag says that
  -- the block came from the cache.
  unfoldable pub answer_master :
      Ctx → BlockIdExt → Option (MasterBlock t a) → Action (State t a) (MasterBlock t a × Bool)
  unfolding fill_master
  answer_master ctx id (some b) s =
      if t.id_equals b.block.id id
      then ok (b, true) s
      else err (ls (record { code = pos 400; text = "incorrect block id" })) s
  answer_master ctx id none s = (do b ← fill_master ctx id; pure (b, false)) s

  unfoldable pub get_master_block : Ctx → BlockIdExt → Action (State t a) (MasterBlock t a × Bool)
  unfolding refusal ensure_entry answer_master
  get_master_block ctx id s = elim (refusal id s) [
    | some e ↦ err e s
    | none ↦
        let s' = ensure_entry id.seqno s in
        answer_master ctx id (fetched (lookup id.seqno s'.master_blocks)) s'
  ]

  -- `GetLastMasterBlock`
  unfoldable pub get_last_master_block : Ctx → Action (State t a) (MasterBlock t a × Bool)
  get_last_master_block ctx s = elim s.last_block [
    | none ↦ err (plain "last master is not fetched yet") s
    | some last ↦ get_master_block ctx last s
  ]

  -- `GetZeroState`
  unfoldable pub get_zero_state : Action (State t a) ZeroStateIdExt
  get_zero_state s = elim s.zero_state [
    | none ↦ err (plain "zero state is not fetched yet") s
    | some z ↦ ok z s
  ]
