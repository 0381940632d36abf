-- ===== src/Cache/Update.antt =====
-- `NewBlockCache`: the first state, and the loop that follows the masterchain.
pub mod Follows
mod Tests
use tonutils_liteserver_prox.Base.{
  ℕ, zero, suc, Bytes, Bool, true, false, Option, none, some, [], ltb, nat_eq, if◌then◌else◌, suc,
}
use tonutils_liteserver_prox.Base.Action.{
  Fallible, good, bad, Action, Result, ok, err, panic, pure, crash, ◌>>=◌, ◌>>◌,
}
use tonutils_liteserver_prox.Ton.{Ton, ArcCache, MasterchainInfo, ZeroStateIdExt}
use tonutils_liteserver_prox.Backend.{Net}
use tonutils_liteserver_prox.Cache.State.{State, CacheConfig, add_uint32}
use tonutils_liteserver_prox.Cache.Fetch.{get_masterchain_info}
use tonutils_liteserver_prox.Cache.Master.{get_master_block}

-- The variables of the loop: `waitSeqno`, and whether the channel `fetched` is closed.
pub record Loop : Type 0 where
  pub wait_seqno : ℕ
  pub fetched : Bool

abbrev pub first_loop : Loop
first_loop = record { wait_seqno = 0; fetched = false }

module _ (t : Ton) (a : ArcCache) where
  -- the fields that `NewBlockCache` sets
  abbrev pub new_state : CacheConfig → Option (a.Arc Bytes t.Cell) → Net t → State t a
  new_state cfg libs n = record {
    net = n;
    config = cfg;
    libs_cache = libs;
    last_block = none;
    zero_state = none;
    master_blocks = [];
    shard_blocks = [];
    account_caches = [];
    broadcasts = 0;
  }

  -- `NewBlockCache` up to the start of the loop
  unfoldable pub new_block_cache : CacheConfig → Net t → Result (Net t) (State t a)
  new_block_cache cfg n =
      if ltb 0 cfg.max_cached_libraries
      then elim (a.new_arc Bytes t.Cell cfg.max_cached_libraries) [
        | good libs ↦ ok (new_state cfg (some libs) n) n
        | bad e ↦ panic "failed to init libs cache" n
      ]
      else ok (new_state cfg none n) n

  -- `if !hasZeroState { b.zeroState = inf.Init }`
  unfoldable pub keep_zero_state : ZeroStateIdExt → Action (State t a) (Unit {0})
  keep_zero_state init s = elim s.zero_state [
    | none ↦ ok tt (record s { zero_state = some init })
    | some z ↦ ok tt s
  ]

  -- `if waitSeqno == 0 { close(fetched) }`: closing a closed channel panics
  unfoldable pub close_fetched : Loop → Action (State t a) Bool
  close_fetched l =
      if nat_eq l.wait_seqno 0
      then (if l.fetched then crash "close of closed channel" else pure true)
      else pure l.fetched

  -- One round of the loop, with a timeout of eight seconds for each of the two calls; an error is a
  -- `continue`.
  unfoldable pub update_round : Loop → Action (State t a) Loop
  unfolding keep_zero_state close_fetched
  update_round l = do
    inf ← get_masterchain_info t a (t.with_timeout 8 t.background) l.wait_seqno
    keep_zero_state inf.init
    r ← get_master_block t a (t.with_timeout 8 t.background) inf.last
    closed ← close_fetched l
    pure (record { wait_seqno = add_uint32 (r.0).block.id.seqno 1; fetched = closed })

  -- That many rounds of the loop. After an error the next round has the same variables.
  unfoldable pub update_loop : ℕ → Loop → Action (State t a) Loop
  unfolding update_round
  update_loop zero l s = ok l s
  update_loop (suc n) l s = elim (update_round l s) [
    | ok l' s' ↦ update_loop n l' s'
    | err e s' ↦ update_loop n l s'
    | panic m s' ↦ panic m s'
  ]
