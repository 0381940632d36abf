-- ===== src/Server/Handlers/Replying.antt =====
-- Lemmas on the handlers but that for get methods, over services that keep a contract.
use tonutils_liteserver_prox.Base.{
  String, Bytes, ℕ, Option, none, some, not, nat_eq, List, Bool-cases, inl, inr,
}
use tonutils_liteserver_prox.Base.Int.{ℤ}
use tonutils_liteserver_prox.Base.Action.{Error, Action, Result, ok, err, panic}
use tonutils_liteserver_prox.Base.Hoare.{
  Post, Ends, returns, fails, panics, gives, dies, continue-Ends,
}
use tonutils_liteserver_prox.Ton.{
  Ton, ArcCache, BlockIdExt, BlockInfoShort, BlockHeader, AccountId, ZeroStateIdExt,
}
use tonutils_liteserver_prox.Server.Services.{Services}
use tonutils_liteserver_prox.Server.Services.Contract.{Contract}
use tonutils_liteserver_prox.Base.Keeps.{Keeps, Replies}
use tonutils_liteserver_prox.Server.Handlers.{
  HitType, Reply, answering, with_zero_state, handle_get_libraries, handle_get_block,
  handle_get_transaction, handle_get_account, masterchain_info_reply, handle_get_masterchain_info,
  masterchain_info_ext_reply, handle_get_masterchain_info_ext, handle_lookup_block, block_header,
  internal,
}

module _ (t : Ton) (a : ArcCache) {S : Type 0} (v : Services t a S) (Ok : S → Type 0) where
  pub answering-Replies :
      {A : Type 0} (text : Error → String) (hit : HitType) (ctx : t.Ctx) (m : Action S A)
      (f : A → Action S (Reply t))
      → Keeps Ok m
      → ((x : A) → Replies Ok (f x))
      → Replies Ok (answering t a v text hit ctx m f)
  unfolding answering
  answering-Replies {A} text hit ctx m f kept next s h = go (m s) (kept s h)
    where
      go :
          (r : Result S A)
          → Post (λ _ s'. Ok s') Ok r
          → Ends (λ _ s'. Ok s') Ok (answering t a v text hit ctx (λ _. r) f s)
      go (ok x s') (returns q) = next x s' q
      go (err e s') (fails q) = gives q
      go (panic p s') (panics q) = dies q

  with_zero_state-Replies :
      (f : ZeroStateIdExt → Action S (Reply t))
      → Keeps Ok v.cache.get_zero_state
      → ((z : ZeroStateIdExt) → Replies Ok (f z))
      → Replies Ok (with_zero_state t a v f)
  unfolding with_zero_state
  with_zero_state-Replies f kept next s h = go (v.cache.get_zero_state s) (kept s h)
    where
      go :
          (r : Result S ZeroStateIdExt)
          → Post (λ _ s'. Ok s') Ok r
          → Ends
              (λ _ s'. Ok s')
              Ok
              (with_zero_state t a
                (record v { cache = record (v.cache) { get_zero_state = λ _. r } })
                f
                s)
      go (ok z s') (returns q) = next z s' q
      go (err e s') (fails q) = gives q
      go (panic p s') (panics q) = dies q

  handle_lookup_block-Replies :
      (mode : ℕ) (id : BlockInfoShort)
      → Keeps Ok (v.cache.lookup_block_in_cache id)
      → Replies Ok (handle_lookup_block t a v mode id)
  unfolding handle_lookup_block
  handle_lookup_block-Replies mode id kept s h = elim (Bool-cases (not (nat_eq mode 1))) [
    | inl off ↦ rw off (gives h)
    | inr on ↦ rw on (go (v.cache.lookup_block_in_cache id s) (kept s h))
  ]
    where
      go :
          (r : Result S (Option (BlockHeader t.Cell)))
          → Post (λ _ s'. Ok s') Ok r
          → Ends {A = Reply t}
              (λ _ s'. Ok s')
              Ok
              (elim r [
                | ok (some header) s' ↦ ok (some (block_header header), HitType.cache) s'
                | ok none s' ↦ ok (none, HitType.backend) s'
                | err e s' ↦ ok (internal t "failed to lookup block in cache") s'
                | panic p s' ↦ panic p s'
              ])
      go (ok none s') (returns q) = gives q
      go (ok (some x) s') (returns q) = gives q
      go (err e s') (fails q) = gives q
      go (panic p s') (panics q) = dies q

  module _ (c : Contract t a v Ok) where
    pub handle_get_libraries-Replies :
        (ctx : t.Ctx) (hashes : List Bytes) → Replies Ok (handle_get_libraries t a v ctx hashes)
    unfolding handle_get_libraries
    handle_get_libraries-Replies ctx hashes =
        answering-Replies (λ _. "failed to get libraries") _ ctx _ _ (c.get_libraries ctx hashes)
          λ r s h. gives h

    pub handle_get_block-Replies :
        (ctx : t.Ctx) (id : BlockIdExt) → Replies Ok (handle_get_block t a v ctx id)
    unfolding handle_get_block
    handle_get_block-Replies ctx id =
        answering-Replies (λ _. "failed to get block") _ ctx _ _ (c.get_block ctx id)
          λ r s h. gives h

    pub handle_get_transaction-Replies :
        (ctx : t.Ctx) (id : BlockIdExt) (account : AccountId) (lt : ℤ)
        → Replies Ok (handle_get_transaction t a v ctx id account lt)
    unfolding handle_get_transaction
    handle_get_transaction-Replies ctx id account lt =
        answering-Replies (λ _. "failed to get transaction") _ ctx _ _
          (c.get_transaction ctx id account lt) λ r s h. gives h

    pub handle_get_account-Replies :
        (ctx : t.Ctx) (id : BlockIdExt) (account : AccountId)
        → Replies Ok (handle_get_account t a v ctx id account)
    unfolding handle_get_account
    handle_get_account-Replies ctx id account =
        answering-Replies (λ _. "failed to get account state") _ ctx _ _
          (c.get_account_state ctx id _) λ r s h. gives h

    pub handle_get_masterchain_info-Replies :
        (ctx : t.Ctx) → Replies Ok (handle_get_masterchain_info t a v ctx)
    unfolding handle_get_masterchain_info masterchain_info_reply
    handle_get_masterchain_info-Replies ctx =
        answering-Replies (λ _. "failed to resolve master block") _ ctx _ _
          (c.get_last_master_block ctx)
          λ r. with_zero_state-Replies _ c.get_zero_state λ z s h. gives h

    pub handle_get_masterchain_info_ext-Replies :
        (ctx : t.Ctx) (mode : ℕ) → Replies Ok (handle_get_masterchain_info_ext t a v ctx mode)
    unfolding handle_get_masterchain_info_ext masterchain_info_ext_reply
    handle_get_masterchain_info_ext-Replies ctx mode s h = elim (Bool-cases (not (nat_eq mode 0))) [
      | inl off ↦ rw off (gives h)
      | inr on ↦ rw on (
          answering-Replies (λ _. "failed to resolve master block") _ ctx _ _
            (c.get_last_master_block ctx)
            (λ r.
              with_zero_state-Replies _ c.get_zero_state
                λ z s' h'. continue-Ends _ (c.time_now s' h') λ now s'' h''. gives h'')
            s h)
    ]

    pub lookup_block-Replies :
        (mode : ℕ) (id : BlockInfoShort) → Replies Ok (handle_lookup_block t a v mode id)
    lookup_block-Replies mode id = handle_lookup_block-Replies mode id (c.lookup_block_in_cache id)
