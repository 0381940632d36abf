-- ===== src/Server/RunMethod/Missing.antt =====
-- A get method on a masterchain block that the cache does not hold.
use tonutils_liteserver_prox.Base.{
  ℕ, Bytes, ◌<◌, ◌≡◌, refl, ap, ◌∙◌, Bool, false, not, Option, none, some, ◌==◌, arith, nat_key,
}
use tonutils_liteserver_prox.Base.Int.{int_key}
use tonutils_liteserver_prox.Base.Maps.{lookup}
use tonutils_liteserver_prox.Base.Action.{Result, ok, err, panic}
use tonutils_liteserver_prox.Ton.{Ton, ArcCache, BlockIdExt, AccountId}
use tonutils_liteserver_prox.Cache.State.{State, Block, masterchain}
use tonutils_liteserver_prox.Cache.Master.{fetched}
use tonutils_liteserver_prox.Cache.Shard.{need_master, cache_block_if_needed}
use tonutils_liteserver_prox.Cache.Shard.Masterchain.{cache_never_fetches_master}
use tonutils_liteserver_prox.Emulate.{Tvm}
use tonutils_liteserver_prox.Server.Services.{WaitMasterBlock, services}
use tonutils_liteserver_prox.Server.Handlers.{Reply, answering, HitType, failure}
use tonutils_liteserver_prox.Server.RunMethod.{handle_run_smc_method, with_block}

module _ (t : Ton) (a : ArcCache) (vm : Tvm t) (wait : WaitMasterBlock t a)
    (random : ℕ → State t a → Bytes) where
  -- Over a `BlockCache` with a known last block of positive seqno: a get method on a masterchain
  -- block that is not fetched yet and not behind the window panics, which ends the process,
  -- whatever the account and the method.
  pub missing_block_panics :
      (ctx : t.Ctx) (mode : ℕ) (id last : BlockIdExt) (account : AccountId) (method_id : ℕ)
      (params : Bytes) (s : State t a)
      → s.last_block ≡ some last
      → 0 < last.seqno
      → id.workchain ≡ masterchain
      → fetched t a (lookup id.seqno s.master_blocks) ≡ none
      → need_master t a id s ≡ false
      → handle_run_smc_method t a vm
          (services t a wait random)
          ctx
          mode
          id
          account
          method_id
          params
          s
        ≡ panic "invalid memory address or nil pointer dereference" s
  unfolding handle_run_smc_method answering with_block
  missing_block_panics ctx mode id last account method_id params s known started wc absent recent =
      let given : cache_block_if_needed t a ctx id s ≡ ok (none, false) s =
        cache_never_fetches_master t a ctx id last s known started wc absent ∙ (rw recent refl) in
      rw (not_shard, answering) (ap next given)
    where
      not_shard : not (id.workchain == masterchain) ≡ false
      not_shard = ground (arith, wc)

      next : Result (State t a) (Option (Block t a) × Bool) → Result (State t a) (Reply t)
      next (ok x s') =
          with_block t a vm (services t a wait random) ctx mode id account method_id params x s'
      next (err e s') =
          ok
            (failure t a (services t a wait random) (λ _. "failed to resolve block")
              HitType.failed_validate ctx e s')
            s'
      next (panic p s') = panic p s'
