-- ===== src/Cache/Master/Publication.antt =====
-- What `publish` changes, apart from the shards.
use tonutils_liteserver_prox.Base.{
  ◌+◌, ◌≡◌, refl, true, false, some, List, [], ◌∷◌, Bool-cases, inl, inr, nat_key,
}
use tonutils_liteserver_prox.Base.Maps.{retain}
use tonutils_liteserver_prox.Base.Action.{◌>>=◌}
use tonutils_liteserver_prox.Base.Hoare.{Post, returns, continue-Post, Post-imp}
use tonutils_liteserver_prox.Ton.{Ton, ArcCache, BlockIdExt}
use tonutils_liteserver_prox.Cache.State.{State, read_clock}
use tonutils_liteserver_prox.Cache.Master.Publish.{
  publish, update_shard, update_shards, clean, is_newer, keep_master_block,
}

module _ (t : Ton) (a : ArcCache) where
  -- `s'` differs from `s` at most in the network and in the shards.
  pub record ShardsOnly (s s' : State t a) : Type 0 where
    pub config : s'.config ≡ s.config
    pub libs_cache : s'.libs_cache ≡ s.libs_cache
    pub last_block : s'.last_block ≡ s.last_block
    pub master_blocks : s'.master_blocks ≡ s.master_blocks
    pub account_caches : s'.account_caches ≡ s.account_caches
    pub broadcasts : s'.broadcasts ≡ s.broadcasts

  update_shards-ShardsOnly :
      (shards : List BlockIdExt) (s : State t a)
      → Post (λ _ s'. ShardsOnly s s') (λ _. ⊥) (update_shards t a shards s)
  unfolding update_shards read_clock ◌>>=◌
  update_shards-ShardsOnly [] s = returns (record {
    config = refl;
    libs_cache = refl;
    last_block = refl;
    master_blocks = refl;
    account_caches = refl;
    broadcasts = refl;
  })
  update_shards-ShardsOnly (shard ∷ rest) s =
      let (now, w) = t.time_now s.net.world in
      let s' : State t a = record s {
        net = record (s.net) { world = w };
        shard_blocks = update_shard t a s.config shard now s.shard_blocks;
      } in
      Post-imp
        (λ _ _ f. record {
          config = f.config;
          libs_cache = f.libs_cache;
          last_block = f.last_block;
          master_blocks = f.master_blocks;
          account_caches = f.account_caches;
          broadcasts = f.broadcasts;
        })
        (λ _ e. e) (update_shards-ShardsOnly rest s')

  -- The state after `publish`: either the block is not newer than the last and nothing changes, or
  -- it is the last block, the masterchain blocks out of the window are gone, and one channel has
  -- been closed.
  pub data Published (id : BlockIdExt) (s s' : State t a) : Type 0 where
    kept : is_newer t a id s.last_block ≡ false → s' ≡ s → Published id s s'
    advanced :
        is_newer t a id s.last_block ≡ true
        → s'.last_block ≡ some id
        → s'.master_blocks ≡ retain (keep_master_block t a s.config id) s.master_blocks
        → s'.config ≡ s.config
        → s'.broadcasts ≡ s.broadcasts + 1
        → Published id s s'

  pub publish-Published :
      (id : BlockIdExt) (shards : List BlockIdExt) (s : State t a)
      → Post (λ _ s'. Published id s s') (λ _. ⊥) (publish t a id shards s)
  unfolding publish read_clock clean ◌>>=◌
  publish-Published id shards s = elim (Bool-cases (is_newer t a id s.last_block)) [
    | inr old ↦ rw old (returns (kept old refl))
    | inl new ↦ rw new (
        continue-Post _ (update_shards-ShardsOnly shards (record s { last_block = some id }))
          λ _ s' f.
            returns (
              advanced new f.last_block (rw (f.config, f.master_blocks)) f.config
                (rw f.broadcasts)))
  ]
