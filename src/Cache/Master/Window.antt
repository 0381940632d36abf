-- ===== src/Cache/Master/Window.antt =====
-- Which masterchain blocks `GetMasterBlock` accepts, and which stay in the cache.
use tonutils_liteserver_prox.Base.{ℕ, ◌+◌, ◌^◌, ◌≤◌, ◌<◌, ◌≡◌, ◌↔◌, none, some, arith}
use tonutils_liteserver_prox.Base.Int.{int_key, int_eq_iff, pos}
use tonutils_liteserver_prox.Base.Action.{ls}
use tonutils_liteserver_prox.Ton.{Ton, ArcCache, BlockIdExt}
use tonutils_liteserver_prox.Cache.State.{State, masterchain}
use tonutils_liteserver_prox.Cache.Master.{last_seqno, refusal}

module _ (t : Ton) (a : ArcCache) (id last : BlockIdExt) (s : State t a)
    (known : s.last_block ≡ some last) where
  abbrev diff : ℕ
  diff = s.config.max_master_block_seqno_diff_to_cache

  -- When the last block is known, its seqno is positive and at least the window, and 200 more
  -- stays below 2 ^ 32, `GetMasterBlock` lets an id pass exactly if it lies
  -- in the masterchain, at most the configured number of blocks behind the last block, and at most
  -- 200 blocks ahead of it.
  pub refusal_exact :
      0 < last.seqno
      → diff ≤ last.seqno
      → last.seqno + 200 < 2 ^ 32
      → (refusal t a id s ≡ none) ↔ (
          (id.workchain ≡ masterchain)
          × (last.seqno ≤ id.seqno + diff)
          × (id.seqno ≤ last.seqno + 200))
  unfolding refusal last_seqno
  refusal_exact started long small = ground (arith, int_eq_iff id.workchain masterchain, known)

  -- While the chain is shorter than the window, itself below 2 ^ 31, the lower end of the window
  -- wraps around: every block of the masterchain with a seqno below 2 ^ 31 is refused as too old,
  -- the last block included.
  pub refusal_young :
      0 < last.seqno
      → last.seqno < diff
      → diff < 2 ^ 31
      → id.workchain ≡ masterchain
      → id.seqno < 2 ^ 31
      → refusal t a id s
        ≡ some (ls (record { code = pos 404; text = "too old master info requested" }))
  unfolding refusal last_seqno
  refusal_young started short bound wc small =
      ground (arith, int_eq_iff id.workchain masterchain, known)
