-- ===== src/Cache/Accounts.antt =====
-- The caches of account states: one for each cached block, if the configuration asks for it.
use tonutils_liteserver_prox.Base.{
  ℕ, String, Bool, true, false, Option, none, some, [], ◌∷◌, ◌++◌, length, get_elem?, set, ltb,
  if◌then◌else◌, string_key,
}
use tonutils_liteserver_prox.Base.Action.{Fallible, Action, good, bad, ok, err, pure, ◌>>=◌, ◌>>◌}
use tonutils_liteserver_prox.Ton.{Ton, ArcCache, AccountState}
use tonutils_liteserver_prox.Cache.State.{State, Block}
use tonutils_liteserver_prox.Cache.Fetch.{get_account}

module _ (t : Ton) (a : ArcCache) where
  open t use {Cell, Address, Ctx}
  open a use {Arc, new_arc, get, add}

  -- the result of `lru.NewARC`, kept in the state
  unfoldable pub keep_accounts_cache :
      Fallible (Arc String (AccountState Cell)) → Action (State t a) (Option ℕ)
  keep_accounts_cache (good c) s =
      ok (some (length s.account_caches)) (record s { account_caches = s.account_caches ++ c ∷ [] })
  keep_accounts_cache (bad e) s = err e s

  -- the cache of accounts for a block that has just been fetched
  unfoldable pub new_accounts_cache : Action (State t a) (Option ℕ)
  unfolding keep_accounts_cache
  new_accounts_cache s =
      if ltb 0 s.config.max_cached_accounts_per_block
      then keep_accounts_cache
          (new_arc String (AccountState Cell) s.config.max_cached_accounts_per_block) s
      else ok none s

  -- `block.accountsCache.Get`, nothing without a cache
  unfoldable pub cached_account :
      Option ℕ → String → Action (State t a) (Option (AccountState Cell))
  cached_account none key s = ok none s
  cached_account (some i) key s = elim (get_elem? s.account_caches i) [
    | none ↦ ok none s
    | some c ↦
        let (found, c') = get String (AccountState Cell) string_key key c in
        ok found (record s { account_caches = set s.account_caches i c' })
  ]

  -- `block.accountsCache.Add`
  unfoldable pub add_account : Option ℕ → String → AccountState Cell → Action (State t a) (Unit {0})
  add_account none key v s = ok tt s
  add_account (some i) key v s = elim (get_elem? s.account_caches i) [
    | none ↦ ok tt s
    | some c ↦ ok tt (record s {
      account_caches = set s.account_caches i (add String (AccountState Cell) string_key key v c);
    })
  ]

  -- The flag says that the account came from the cache.
  unfoldable pub get_account_state_in_block :
      Ctx → Block t a → Address → Action (State t a) (AccountState Cell × Bool)
  get_account_state_in_block ctx block addr = do
    found ← cached_account block.body.accounts_cache (t.address_string addr)
    elim found [
      | some acc ↦ pure (acc, true)
      | none ↦ do
        account ← get_account t a ctx block.id addr
        add_account block.body.accounts_cache (t.address_string addr) account
        pure (account, false)
    ]
