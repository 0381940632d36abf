-- ===== src/Cache/Shard/Entry.antt =====
-- The entry of a shard block in `shardBlocks`, and how a fetch fills it.
use tonutils_liteserver_prox.Base.{
  ℕ, Bytes, ◌≡◌, refl, ap, ◌∙◌, Bool, Option, none, some, arith, nat_key, bytes_key, bytes_eq_iff,
}
use tonutils_liteserver_prox.Base.Maps.{Map, lookup, insert, lookup-insert}
use tonutils_liteserver_prox.Base.Action.{Fallible, Action, lift, crash}
use tonutils_liteserver_prox.Base.Hoare.{
  Post, returns, panics, bind-Post, lift-Post, pure-Post, Post-imp,
}
use tonutils_liteserver_prox.Ton.{Ton, ArcCache, BlockIdExt, BlockExtra}
use tonutils_liteserver_prox.Cache.State.{State, Block, Body, ShardBlock, ShardInfo}
use tonutils_liteserver_prox.Cache.ShardKey.{get_shard_key}
use tonutils_liteserver_prox.Cache.Frame.{
  Frame, Framed, get_block-Framed, new_accounts_cache-Framed,
}
use tonutils_liteserver_prox.Cache.Shard.{store_shard, fill_shard, shard_account_blocks}

module _ (t : Ton) (a : ArcCache) (id : BlockIdExt) where
  -- the key of the shard of `id`
  abbrev pub key : Bytes
  key = get_shard_key id.workchain id.shard

  -- The cache knows the shard of `id`.
  abbrev pub HasShard : State t a → Type 0
  HasShard s = (si : ShardInfo t a) × (lookup key s.shard_blocks ≡ some si)

  -- The entry for the seqno of `id` in its shard is `b`.
  abbrev pub HasEntry : ShardBlock t a → State t a → Type 0
  HasEntry b s =
      (si : ShardInfo t a) × (lookup key s.shard_blocks ≡ some si)
      × (lookup id.seqno si.shard_blocks ≡ some b)

  lookup-insert_self :
      (b : ShardBlock t a) (m : Map ℕ (ShardBlock t a))
      → lookup id.seqno (insert id.seqno b m) ≡ some b
  lookup-insert_self b m = lookup-insert id.seqno id.seqno b m ∙ ground arith

  pub store_shard-HasEntry :
      {E : State t a → Type 0} (b : ShardBlock t a) (s : State t a)
      → HasShard s
      → Post (λ _ s'. HasEntry b s') E (store_shard t a key id.seqno b s)
  unfolding store_shard
  store_shard-HasEntry {E} b s (si, e) =
      rw (e, store_shard)
        (returns (
          record si { shard_blocks = insert id.seqno b si.shard_blocks },
          lookup-insert key key _ s.shard_blocks ∙ (rw ((bytes_eq_iff key key).1 refl) refl),
          lookup-insert_self b si.shard_blocks,
        ))

  pub Frame-HasEntry :
      {b : ShardBlock t a} {s s' : State t a} → HasEntry b s → Frame t a s s' → HasEntry b s'
  Frame-HasEntry (si, e, h) f = (si, ap (lookup key) f.shard_blocks ∙ e, h)

  module _ (b : ShardBlock t a) where
    Framed-HasEntry :
        {A : Type 0} (Q : A → Type 0) (m : Action (State t a) A)
        → Framed t a m Q
        → (s : State t a) → HasEntry b s
        → Post (λ x s'. Q x × HasEntry b s') (HasEntry b) (m s)
    Framed-HasEntry Q m f s h =
        Post-imp (λ _ _ p. (p.0, Frame-HasEntry {b = b} h p.1)) (λ _ g. Frame-HasEntry {b = b} h g)
          (f s)

    lift-HasEntry :
        {A : Type 0} (x : Fallible A) (s : State t a)
        → HasEntry b s
        → Post (λ _ s'. HasEntry b s') (HasEntry b) (lift x s)
    lift-HasEntry x s h = lift-Post _ _ x s (λ _ _. h) h

    account_blocks-HasEntry :
        (extra : Option (BlockExtra t.Cell t.Dict)) (s : State t a)
        → HasEntry b s
        → Post (λ _ s'. HasEntry b s') (HasEntry b) (shard_account_blocks t a extra s)
    unfolding crash
    account_blocks-HasEntry none s h = panics h
    account_blocks-HasEntry (some extra) s h = pure-Post _ s h

  -- what a fetch that succeeds returns for an entry that bears the id `own`
  abbrev pub Filled : BlockIdExt → Option (Block t a) × Bool → State t a → Type 0
  Filled own r s' =
      (body : Body t a) × (r.0 ≡ some (record { id = own; body = body }))
      × (t.cell_hash body.data_cell ≡ id.root_hash)
      × HasEntry (record { id = own; body = some body }) s'

  -- A fetch for `id` fills the entry with data that has the root hash of `id`, and leaves the id of
  -- the entry as it is; if it fails, the entry stays without data.
  pub fill_shard-Filled :
      (ctx : t.Ctx) (own : BlockIdExt) (s : State t a)
      → HasEntry (record { id = own; body = none }) s
      → Post
          (Filled own)
          (HasEntry (record { id = own; body = none }))
          (fill_shard t a ctx id key (record { id = own; body = none }) s)
  unfolding fill_shard
  fill_shard-Filled ctx own s h =
      bind-Post _ _ _ (Framed-HasEntry b _ _ (get_block-Framed t a ctx id) s h)
        λ cell s₁ (hash, h₁). bind-Post _ _ _ (lift-HasEntry b _ s₁ h₁) λ block s₂ h₂.
          bind-Post _ _ _ (account_blocks-HasEntry b block.extra s₂ h₂) λ account_cell s₃ h₃.
            bind-Post _ _ _ (lift-HasEntry b _ s₃ h₃) λ accounts s₄ h₄.
              bind-Post _ _ _ (Framed-HasEntry b _ _ (new_accounts_cache-Framed t a) s₄ h₄)
                λ cache s₅ (_, h₅).
                  bind-Post _ _ _ (store_shard-HasEntry _ s₅ (h₅.0, h₅.1))
                    λ _ s₆ h₆. pure-Post _ s₆ (_, refl, hash, h₆)
    where
      b : ShardBlock t a
      b = record { id = own; body = none }
