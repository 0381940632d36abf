-- ===== src/Cache/Kept/Served.antt =====
-- What the cache gives the server, and the invariant of the masterchain blocks.
use tonutils_liteserver_prox.Base.{
  bytes_key, nat_key, Option-cases, inl, inr, ℕ, Option, none, some, Bool, false, string_key, ◌&&◌,
}
use tonutils_liteserver_prox.Base.Int.{int_key, ℤ}
use tonutils_liteserver_prox.Base.Action.{Action, ◌>>=◌}
use tonutils_liteserver_prox.Base.Hoare.{returns, fails}
use tonutils_liteserver_prox.Base.Keeps.{pure-Keeps, lift-Keeps, bind-Keeps}
use tonutils_liteserver_prox.Ton.{Ton, TonLaws, ArcCache, BlockIdExt, BlockInfoShort, AccountId}
use tonutils_liteserver_prox.Cache.State.{State, Block}
use tonutils_liteserver_prox.Cache.Lookup.{find_block, lookup_block_in_cache}
use tonutils_liteserver_prox.Cache.Serve.{serve_block, get_account_state}
use tonutils_liteserver_prox.Cache.Transaction.{transaction_in_block, serve_transaction}
use tonutils_liteserver_prox.Cache.Master.Invariant.{IsValid}
use tonutils_liteserver_prox.Cache.Master.{get_last_master_block, get_zero_state}
use tonutils_liteserver_prox.Cache.Shard.{cache_block_if_needed}
use tonutils_liteserver_prox.Cache.Kept.{
  Kept, get_block-Kept, get_account-Kept, get_transaction-Kept, get_account_state_in_block-Kept,
}
use tonutils_liteserver_prox.Cache.Kept.Shards.{get_master_block-Kept, cache_block_if_needed-Kept}

module _ (t : Ton) (a : ArcCache) (laws : TonLaws t) (m : ℕ) where
  pub get_last_master_block-Kept : (ctx : t.Ctx) → Kept t a laws m (get_last_master_block t a ctx)
  unfolding get_last_master_block
  get_last_master_block-Kept ctx s h = elim (Option-cases s.last_block) [
    | inl e ↦ rw (e, get_last_master_block) (fails h)
    | inr (last, e) ↦ rw (e, get_last_master_block) (get_master_block-Kept t a laws m ctx last s h)
  ]

  pub get_zero_state-Kept : Kept t a laws m (get_zero_state t a)
  unfolding get_zero_state
  get_zero_state-Kept s h = elim (Option-cases s.zero_state) [
    | inl e ↦ rw (e, get_zero_state) (fails h)
    | inr (z, e) ↦ rw (e, get_zero_state) (returns h)
  ]

  pub lookup_block_in_cache-Kept :
      (id : BlockInfoShort) → Kept t a laws m (lookup_block_in_cache t a id)
  unfolding lookup_block_in_cache
  lookup_block_in_cache-Kept id s h = elim (Option-cases (find_block t a id s)) [
    | inl e ↦ rw (e, lookup_block_in_cache) (returns h)
    | inr (block, e) ↦
        rw (e, lookup_block_in_cache)
          (bind-Keeps (IsValid t a m) _ _
            (lift-Keeps (IsValid t a m) (t.header_proof block.body.data_cell))
            (λ proof. pure-Keeps (IsValid t a m) _) s h)
  ]

  -- One goes on with the block that the cache has, or without one.
  with_block-Kept :
      {A : Type 0} (ctx : t.Ctx) (id : BlockIdExt)
      (f : Option (Block t a) × Bool → Action (State t a) A)
      → ((cached : Bool) → Kept t a laws m (f (none, cached)))
      → ((block : Block t a) (cached : Bool) → Kept t a laws m (f (some block, cached)))
      → Kept t a laws m (cache_block_if_needed t a ctx id >>= f)
  with_block-Kept {A} ctx id f without with =
      bind-Keeps (IsValid t a m) _ f (cache_block_if_needed-Kept t a laws m ctx id) next
    where
      next : (r : Option (Block t a) × Bool) → Kept t a laws m (f r)
      next (none, cached) = without cached
      next (some block, cached) = with block cached

  pub serve_block-Kept : (ctx : t.Ctx) (id : BlockIdExt) → Kept t a laws m (serve_block t a ctx id)
  unfolding serve_block
  serve_block-Kept ctx id =
      with_block-Kept ctx id _
        (λ cached.
          bind-Keeps (IsValid t a m) _ _ (get_block-Kept t a laws m ctx id)
            λ cell. pure-Keeps (IsValid t a m) (id, cell, false))
        (λ block cached. pure-Keeps (IsValid t a m) (block.id, block.body.data_cell, cached))

  pub get_account_state-Kept :
      (ctx : t.Ctx) (id : BlockIdExt) (addr : t.Address)
      → Kept t a laws m (get_account_state t a ctx id addr)
  unfolding get_account_state
  get_account_state-Kept ctx id addr =
      with_block-Kept ctx id _
        (λ cached.
          bind-Keeps (IsValid t a m) _ _ (get_account-Kept t a laws m ctx id addr)
            λ account. pure-Keeps (IsValid t a m) (account, false))
        (λ block cached.
          bind-Keeps (IsValid t a m) _ _ (get_account_state_in_block-Kept t a laws m ctx block addr)
            λ acc. pure-Keeps (IsValid t a m) (acc.0, acc.1 && cached))

  transaction_in_block-Kept :
      (id : BlockIdExt) (block : Block t a) (account : AccountId) (lt : ℤ)
      → Kept t a laws m (transaction_in_block t a id block account lt)
  unfolding transaction_in_block
  transaction_in_block-Kept id block account lt =
      bind-Keeps (IsValid t a m) _ _ (lift-Keeps (IsValid t a m) _) λ acc.
        bind-Keeps (IsValid t a m) _ _ (lift-Keeps (IsValid t a m) _) λ rest.
          bind-Keeps (IsValid t a m) _ _ (lift-Keeps (IsValid t a m) _) λ transactions.
            bind-Keeps (IsValid t a m) _ _ (lift-Keeps (IsValid t a m) _) λ tx.
              bind-Keeps (IsValid t a m) _ _ (lift-Keeps (IsValid t a m) _) λ proof.
                bind-Keeps (IsValid t a m) _ _ (lift-Keeps (IsValid t a m) _)
                  λ cell. pure-Keeps (IsValid t a m) _

  pub serve_transaction-Kept :
      (ctx : t.Ctx) (id : BlockIdExt) (account : AccountId) (lt : ℤ)
      → Kept t a laws m (serve_transaction t a ctx id account lt)
  unfolding serve_transaction
  serve_transaction-Kept ctx id account lt =
      with_block-Kept ctx id _
        (λ cached.
          bind-Keeps (IsValid t a m) _ _ (get_transaction-Kept t a laws m ctx id account lt)
            λ tx. pure-Keeps (IsValid t a m) (tx, false))
        (λ block cached.
          bind-Keeps (IsValid t a m) _ _ (transaction_in_block-Kept id block account lt)
            λ tx. pure-Keeps (IsValid t a m) (tx, cached))
