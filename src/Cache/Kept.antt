-- ===== src/Cache/Kept.antt =====
-- The operations of the cache, and the invariant of its masterchain blocks.
pub mod Shards
pub mod Libraries
pub mod Served
use tonutils_liteserver_prox.Base.{
  bytes_key, nat_key, Bool-cases, Option-cases, inl, inr, not, ◌==◌, ℕ, String, Bytes, Option, none,
  some, List, Bool, true, false, refl, get_elem?, string_key, set, ◌&&◌,
}
use tonutils_liteserver_prox.Base.Int.{int_key, ℤ}
use tonutils_liteserver_prox.Base.Maps.{lookup, insert}
use tonutils_liteserver_prox.Base.Action.{◌>>◌, ok, Action, ◌>>=◌, pure}
use tonutils_liteserver_prox.Base.Hoare.{Post, returns, fails, Post-imp}
use tonutils_liteserver_prox.Base.Keeps.{crash-Keeps, Keeps, pure-Keeps, lift-Keeps, bind-Keeps}
use tonutils_liteserver_prox.Ton.{
  Ton, TonLaws, ArcCache, BlockIdExt, BlockInfoShort, AccountId, AccountState, Request, BlockExtra,
}
use tonutils_liteserver_prox.Cache.State.{
  State, Block, ShardInfo, ShardBlock, ask, Body, masterchain,
}
use tonutils_liteserver_prox.Cache.Frame.{
  Framed, ask-Framed, get_block-Framed, new_accounts_cache-Framed,
}
use tonutils_liteserver_prox.Cache.Lookup.{find_block, lookup_block_in_cache}
use tonutils_liteserver_prox.Cache.Serve.{serve_block, get_account_state}
use tonutils_liteserver_prox.Cache.Transaction.{transaction_in_block, serve_transaction}
use tonutils_liteserver_prox.Cache.ShardKey.{get_shard_key}
use tonutils_liteserver_prox.Cache.Fetch.{
  get_account, get_transaction, get_libraries_from, get_block,
}
use tonutils_liteserver_prox.Cache.Accounts.{
  cached_account, add_account, get_account_state_in_block,
}
use tonutils_liteserver_prox.Cache.Master.Invariant.{
  IsValid, IsValid-same, Framed-IsValid, get_master_block-IsValid,
}
use tonutils_liteserver_prox.Cache.Master.{
  get_master_block, get_last_master_block, get_zero_state, fetched,
}
use tonutils_liteserver_prox.Cache.Shard.{
  store_shard, fill_shard, answer_shard, cache_shard_block, cache_master_block,
  cache_block_if_needed, loaded, shard_account_blocks, need_master, placeholder,
}

module _ (t : Ton) (a : ArcCache) (laws : TonLaws t) (m : ℕ) where
  abbrev pub Kept : {A : Type 0} → Action (State t a) A → Type 0
  Kept = Keeps (IsValid t a m)

  pub Framed-Kept :
      {A : Type 0} (Q : A → Type 0) (n : Action (State t a) A) → Framed t a n Q → Kept n
  Framed-Kept Q n f s h = Post-imp (λ _ _ p. p.1) (λ _ p. p) (Framed-IsValid t a m Q n f s h)

  pub ask-Kept : (ctx : t.Ctx) (r : Request) → Kept (ask t a ctx r)
  ask-Kept ctx r = Framed-Kept _ _ (ask-Framed t a ctx r)

  pub get_block-Kept : (ctx : t.Ctx) (id : BlockIdExt) → Kept (get_block t a ctx id)
  get_block-Kept ctx id = Framed-Kept _ _ (get_block-Framed t a ctx id)

  pub get_account-Kept :
      (ctx : t.Ctx) (id : BlockIdExt) (addr : t.Address) → Kept (get_account t a ctx id addr)
  unfolding get_account
  get_account-Kept ctx id addr =
      bind-Keeps (IsValid t a m) _ _ (ask-Kept ctx _) λ x. lift-Keeps (IsValid t a m) _

  pub get_transaction-Kept :
      (ctx : t.Ctx) (id : BlockIdExt) (acc : AccountId) (lt : ℤ)
      → Kept (get_transaction t a ctx id acc lt)
  unfolding get_transaction
  get_transaction-Kept ctx id acc lt =
      bind-Keeps (IsValid t a m) _ _ (ask-Kept ctx _) λ x. lift-Keeps (IsValid t a m) _

  pub get_libraries_from-Kept :
      (ctx : t.Ctx) (hashes : List Bytes) → Kept (get_libraries_from t a ctx hashes)
  unfolding get_libraries_from
  get_libraries_from-Kept ctx hashes =
      bind-Keeps (IsValid t a m) _ _ (ask-Kept ctx _) λ x. lift-Keeps (IsValid t a m) _

  cached_account-Kept : (i : Option ℕ) (key : String) → Kept (cached_account t a i key)
  unfolding cached_account
  cached_account-Kept none key s h = returns h
  cached_account-Kept (some i) key s h = found (get_elem? s.account_caches i)
    where
      found :
          (o : Option (a.Arc String (AccountState t.Cell)))
          → Post
              (λ _ s'. IsValid t a m s')
              (IsValid t a m)
              (elim o [
                | none ↦ ok none s
                | some c ↦
                    let (found, c') = a.get String (AccountState t.Cell) string_key key c in
                    ok found (record s { account_caches = set s.account_caches i c' })
              ])
      found none = returns h
      found (some c) = returns (IsValid-same t a m refl refl h)

  add_account-Kept :
      (i : Option ℕ) (key : String) (v : AccountState t.Cell) → Kept (add_account t a i key v)
  unfolding add_account
  add_account-Kept none key v s h = returns h
  add_account-Kept (some i) key v s h = found (get_elem? s.account_caches i)
    where
      found :
          (o : Option (a.Arc String (AccountState t.Cell)))
          → Post
              (λ _ s'. IsValid t a m s')
              (IsValid t a m)
              (elim o [
                | none ↦ ok tt s
                | some c ↦ ok tt (record s {
                  account_caches =
                      set s.account_caches i
                        (a.add String (AccountState t.Cell) string_key key v c);
                })
              ])
      found none = returns h
      found (some c) = returns (IsValid-same t a m refl refl h)

  pub get_account_state_in_block-Kept :
      (ctx : t.Ctx) (block : Block t a) (addr : t.Address)
      → Kept (get_account_state_in_block t a ctx block addr)
  unfolding get_account_state_in_block
  get_account_state_in_block-Kept ctx block addr =
      bind-Keeps (IsValid t a m) _ _ (cached_account-Kept block.body.accounts_cache _) asked
    where
      asked :
          (found : Option (AccountState t.Cell))
          → Kept {A = AccountState t.Cell × Bool} (elim found [
            | some acc ↦ pure (acc, true)
            | none ↦ do
              account ← get_account t a ctx block.id addr
              add_account t a block.body.accounts_cache (t.address_string addr) account
              pure (account, false)
          ])
      asked (some acc) = pure-Keeps (IsValid t a m) (acc, true)
      asked none = bind-Keeps (IsValid t a m) _ _ (get_account-Kept ctx block.id addr) λ acc.
          bind-Keeps (IsValid t a m) _ _ (add_account-Kept block.body.accounts_cache _ acc)
            λ _. pure-Keeps (IsValid t a m) (acc, false)
