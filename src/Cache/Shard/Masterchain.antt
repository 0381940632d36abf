-- ===== src/Cache/Shard/Masterchain.antt =====
-- What `CacheBlockIfNeeded` does with a masterchain block that is not in the cache.
use tonutils_liteserver_prox.Base.{
  ◌<◌, ◌≡◌, refl, ap, ◌∙◌, true, false, not, none, some, arith, if◌then◌else◌, ◌==◌, nat_key,
  Bool-cases, inl, inr,
}
use tonutils_liteserver_prox.Base.Int.{int_key, pos}
use tonutils_liteserver_prox.Base.Maps.{lookup}
use tonutils_liteserver_prox.Base.Action.{Error, continue, ls, err, ok, ◌>>=◌, Action}
use tonutils_liteserver_prox.Ton.{Ton, ArcCache, BlockIdExt}
use tonutils_liteserver_prox.Cache.State.{State, masterchain}
use tonutils_liteserver_prox.Cache.Master.{last_seqno, refusal, fetched, get_master_block}
use tonutils_liteserver_prox.Cache.Shard.{need_master, cache_master_block, cache_block_if_needed}

-- the error with which `GetMasterBlock` refuses an old block
abbrev pub too_old : Error
too_old = ls (record { code = pos 404; text = "too old master info requested" })

module _ (t : Ton) (a : ArcCache) (ctx : t.Ctx) (id last : BlockIdExt) (s : State t a)
    (known : s.last_block ≡ some last) (started : 0 < last.seqno)
    (wc : id.workchain ≡ masterchain) where
  need_master-refusal : need_master t a id s ≡ true → refusal t a id s ≡ some too_old
  unfolding need_master refusal last_seqno
  need_master-refusal h = ground (arith, known, wc)

  get_master_block-refused :
      (e : Error) → refusal t a id s ≡ some e → get_master_block t a ctx id s ≡ err e s
  unfolding get_master_block
  get_master_block-refused e h = rw (h, get_master_block) refl

  not_shard : not (id.workchain == masterchain) ≡ false
  not_shard = ground (arith, wc)

  master_branch : cache_block_if_needed t a ctx id s ≡ cache_master_block t a ctx id s
  unfolding cache_block_if_needed
  master_branch = rw (not_shard, cache_block_if_needed) refl

  bind_err :
      {A B : Type 0} (m : Action (State t a) A) (f : A → Action (State t a) B) (e : Error)
      → m s ≡ err e s
      → (m >>= f) s ≡ err e s
  unfolding ◌>>=◌
  bind_err m f e h = ap (λ r. continue r f) h

  of_absent :
      fetched t a (lookup id.seqno s.master_blocks) ≡ none
      → cache_master_block t a ctx id s
        ≡ (if need_master t a id s then err too_old s else ok (none, false) s)
  unfolding cache_master_block
  of_absent absent = elim (Bool-cases (need_master t a id s)) [
    | inl old ↦
        rw (absent, cache_master_block)
          (rw old
            (bind_err _ _ too_old (get_master_block-refused too_old (need_master-refusal old))))
    | inr recent ↦ rw (absent, cache_master_block) (rw recent refl)
  ]

  -- When a last block with a positive seqno is known, a masterchain block that is not fetched yet
  -- is never taken into the cache by `CacheBlockIfNeeded`: inside the window the call gives up with no block and no error, and
  -- behind the window, where it calls `GetMasterBlock`, that call refuses the block as too old.
  -- Either way no backend is asked and the state stays as it is.
  pub cache_never_fetches_master :
      fetched t a (lookup id.seqno s.master_blocks) ≡ none
      → cache_block_if_needed t a ctx id s
        ≡ (if need_master t a id s then err too_old s else ok (none, false) s)
  cache_never_fetches_master absent = master_branch ∙ of_absent absent
