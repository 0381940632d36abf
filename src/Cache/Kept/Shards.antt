-- ===== src/Cache/Kept/Shards.antt =====
-- `CacheBlockIfNeeded` and the invariant of the masterchain blocks.
use tonutils_liteserver_prox.Base.{
  bytes_key, nat_key, Bool-cases, Option-cases, inl, inr, not, ◌==◌, ℕ, Bytes, Option, none, some,
  Bool, true, refl, string_key,
}
use tonutils_liteserver_prox.Base.Int.{int_key}
use tonutils_liteserver_prox.Base.Maps.{lookup, insert}
use tonutils_liteserver_prox.Base.Action.{ok}
use tonutils_liteserver_prox.Base.Hoare.{Post, returns, fails, Post-imp}
use tonutils_liteserver_prox.Base.Keeps.{crash-Keeps, pure-Keeps, lift-Keeps, bind-Keeps}
use tonutils_liteserver_prox.Ton.{Ton, TonLaws, ArcCache, BlockIdExt, BlockExtra}
use tonutils_liteserver_prox.Cache.State.{ShardInfo, ShardBlock, Body, masterchain}
use tonutils_liteserver_prox.Cache.Frame.{new_accounts_cache-Framed}
use tonutils_liteserver_prox.Cache.ShardKey.{get_shard_key}
use tonutils_liteserver_prox.Cache.Master.Invariant.{
  IsValid, IsValid-same, get_master_block-IsValid,
}
use tonutils_liteserver_prox.Cache.Master.{get_master_block, fetched}
use tonutils_liteserver_prox.Cache.Shard.{
  store_shard, fill_shard, answer_shard, cache_shard_block, cache_master_block,
  cache_block_if_needed, loaded, shard_account_blocks, need_master, placeholder,
}
use tonutils_liteserver_prox.Cache.Kept.{Kept, Framed-Kept, get_block-Kept}

module _ (t : Ton) (a : ArcCache) (laws : TonLaws t) (m : ℕ) where
  store_shard-Kept :
      (key : Bytes) (seqno : ℕ) (b : ShardBlock t a) → Kept t a laws m (store_shard t a key seqno b)
  unfolding store_shard
  store_shard-Kept key seqno b s h = found (lookup key s.shard_blocks)
    where
      found :
          (o : Option (ShardInfo t a))
          → Post {A = Unit {0}}
              (λ _ s'. IsValid t a m s')
              (IsValid t a m)
              (elim o [
                | none ↦ ok tt s
                | some si ↦ ok tt (record s {
                  shard_blocks =
                      insert key
                        (record si { shard_blocks = insert seqno b si.shard_blocks })
                        s.shard_blocks;
                })
              ])
      found none = returns h
      found (some si) = returns (IsValid-same t a m refl refl h)

  shard_account_blocks-Kept :
      (o : Option (BlockExtra t.Cell t.Dict)) → Kept t a laws m (shard_account_blocks t a o)
  shard_account_blocks-Kept none =
      crash-Keeps (IsValid t a m) "invalid memory address or nil pointer dereference"
  shard_account_blocks-Kept (some extra) = pure-Keeps (IsValid t a m) extra.shard_account_blocks

  fill_shard-Kept :
      (ctx : t.Ctx) (id : BlockIdExt) (key : Bytes) (b : ShardBlock t a)
      → Kept t a laws m (fill_shard t a ctx id key b)
  unfolding fill_shard
  fill_shard-Kept ctx id key b = of_body b.body
    where
      of_body :
          (o : Option (Body t a))
          → Kept t a laws m (fill_shard t a ctx id key (record b { body = o }))
      of_body (some body) =
          pure-Keeps (IsValid t a m) (some (record { id = b.id; body = body }), true)
      of_body none = bind-Keeps (IsValid t a m) _ _ (get_block-Kept t a laws m ctx id) λ cell.
          bind-Keeps (IsValid t a m) _ _ (lift-Keeps (IsValid t a m) _) λ block.
            bind-Keeps (IsValid t a m) _ _ (shard_account_blocks-Kept block.extra) λ account_cell.
              bind-Keeps (IsValid t a m) _ _ (lift-Keeps (IsValid t a m) _) λ accounts.
                bind-Keeps (IsValid t a m) _ _
                  (Framed-Kept t a laws m _ _ (new_accounts_cache-Framed t a))
                  λ cache.
                    bind-Keeps (IsValid t a m) _ _ (store_shard-Kept key id.seqno _)
                      λ _. pure-Keeps (IsValid t a m) _

  answer_shard-Kept :
      (ctx : t.Ctx) (id : BlockIdExt) (need : Bool) (entry : Option (ShardBlock t a))
      → Kept t a laws m (answer_shard t a ctx id need entry)
  unfolding answer_shard
  answer_shard-Kept ctx id need entry s h = elim (Option-cases (loaded t a entry)) [
    | inl e ↦
        rw (e, answer_shard)
          (elim (Bool-cases need) [
            | inl on ↦ rw on (
                bind-Keeps (IsValid t a m) _ _
                  (store_shard-Kept key id.seqno (placeholder t a id entry))
                  (λ _. fill_shard-Kept ctx id key (placeholder t a id entry)) s h)
            | inr off ↦ rw off (returns h)
          ])
    | inr (block, e) ↦
        rw (e, answer_shard)
          (elim (Bool-cases (t.id_equals block.id id)) [
            | inl same ↦ rw same (returns h)
            | inr other ↦ rw other (fails h)
          ])
  ]
    where
      key : Bytes
      key = get_shard_key id.workchain id.shard

  pub get_master_block-Kept :
      (ctx : t.Ctx) (id : BlockIdExt) → Kept t a laws m (get_master_block t a ctx id)
  get_master_block-Kept ctx id s h =
      Post-imp (λ _ _ p. p.0) (λ _ p. p) (get_master_block-IsValid t a m laws ctx id s h)

  cache_master_block-Kept :
      (ctx : t.Ctx) (id : BlockIdExt) → Kept t a laws m (cache_master_block t a ctx id)
  unfolding cache_master_block
  cache_master_block-Kept ctx id s h =
      elim (Option-cases (fetched t a (lookup id.seqno s.master_blocks))) [
        | inl e ↦
            rw (e, cache_master_block)
              (elim (Bool-cases (need_master t a id s)) [
                | inl on ↦ rw on (
                    bind-Keeps (IsValid t a m) _ _ (get_master_block-Kept ctx id)
                      (λ r. pure-Keeps (IsValid t a m) _) s h)
                | inr off ↦ rw off (returns h)
              ])
        | inr (b, e) ↦
            rw (e, cache_master_block)
              (elim (Bool-cases (t.id_equals b.block.id id)) [
                | inl same ↦ rw same (returns h)
                | inr other ↦ rw other (fails h)
              ])
      ]

  pub cache_block_if_needed-Kept :
      (ctx : t.Ctx) (id : BlockIdExt) → Kept t a laws m (cache_block_if_needed t a ctx id)
  unfolding cache_block_if_needed cache_shard_block
  cache_block_if_needed-Kept ctx id s h = elim (Bool-cases (not (id.workchain == masterchain))) [
    | inl shard ↦ rw shard (answer_shard-Kept ctx id _ _ s h)
    | inr master ↦ rw master (cache_master_block-Kept ctx id s h)
  ]
