-- ===== src/Server/Dispatch/Replying.antt =====
-- Lemmas on the two `switch`es, over services that keep a contract.
use tonutils_liteserver_prox.Base.{ℕ, none, some, bytes_key, nat_key}
use tonutils_liteserver_prox.Base.Int.{ℤ}
use tonutils_liteserver_prox.Base.Action.{ls, plain, wrapped, Result, ok, err, panic}
use tonutils_liteserver_prox.Base.Hoare.{
  Post, Ends, returns, fails, panics, gives, dies, continue-Ends, Ends-imp,
}
use tonutils_liteserver_prox.Ton.{
  Ton, ArcCache, Request, Requests, Message, ls_error, version, current_time, also, end, queries,
  get_version, get_time, get_masterchain_inf, wait_masterchain_seqno, get_masterchain_info_ext,
  get_libraries, get_one_transaction, get_block_data, get_account_state, run_smc_method,
  lookup_block,
}
use tonutils_liteserver_prox.Emulate.{Tvm}
use tonutils_liteserver_prox.Server.Services.{Services}
use tonutils_liteserver_prox.Server.Services.Contract.{Contract}
use tonutils_liteserver_prox.Base.Keeps.{Replies}
use tonutils_liteserver_prox.Server.RunMethod.Replying.{handle_run_smc_method-Replies}
use tonutils_liteserver_prox.Server.Handlers.Replying.{
  handle_get_masterchain_info_ext-Replies, handle_get_masterchain_info-Replies,
  handle_get_libraries-Replies, handle_get_transaction-Replies, handle_get_block-Replies,
  handle_get_account-Replies, lookup_block-Replies,
}
use tonutils_liteserver_prox.Server.Dispatch.{
  at_time, go_on, stop, dispatch, check_wait, Waited, wait_for, wait_first,
}
use tonutils_liteserver_prox.Cache.State.{to_uint32}

-- What the first `switch` leaves of a request: the end, without an answer only for a list.
pub data Decides {C : Type 0} : Request → Waited C → Type 0 where
  itself : {r : Request} → Decides r (go_on r)
  listed : {rs : Requests} {w : Waited C} → Decides (queries rs) w

module _ (t : Ton) (a : ArcCache) (vm : Tvm t) {S : Type 0} (v : Services t a S) (Ok : S → Type 0)
    (c : Contract t a v Ok) where
  at_time-Replies : (f : ℕ → Message t.Cell) → Replies Ok (at_time t a vm v f)
  unfolding at_time
  at_time-Replies f s h = continue-Ends _ (c.time_now s h) λ now s' h'. gives h'

  pub dispatch-Replies : (ctx : t.Ctx) (r : Request) → Replies Ok (dispatch t a vm v ctx r)
  unfolding dispatch
  dispatch-Replies ctx get_version = at_time-Replies (version 0 0x101 7)
  dispatch-Replies ctx get_time = at_time-Replies current_time
  dispatch-Replies ctx (get_masterchain_info_ext mode) =
      handle_get_masterchain_info_ext-Replies t a v Ok c ctx mode
  dispatch-Replies ctx get_masterchain_inf = handle_get_masterchain_info-Replies t a v Ok c ctx
  dispatch-Replies ctx (get_libraries hashes) = handle_get_libraries-Replies t a v Ok c ctx hashes
  dispatch-Replies ctx (get_one_transaction id account lt) =
      handle_get_transaction-Replies t a v Ok c ctx id account lt
  dispatch-Replies ctx (get_block_data id) = handle_get_block-Replies t a v Ok c ctx id
  dispatch-Replies ctx (get_account_state id account) =
      handle_get_account-Replies t a v Ok c ctx id account
  dispatch-Replies ctx (run_smc_method mode id account method_id params) =
      handle_run_smc_method-Replies t a vm v Ok c ctx mode id account method_id params
  dispatch-Replies ctx (lookup_block mode id) = lookup_block-Replies t a v Ok c mode id
  dispatch-Replies ctx _ = λ s h. gives h

  wait_for-Replies :
      (ctx : t.Ctx) (seqno timeout : ℤ) (q : Request)
      → Replies Ok (wait_for t a vm v ctx seqno timeout q)
  unfolding wait_for
  wait_for-Replies ctx seqno timeout q s h =
      go (v.cache.wait_master_block ctx (to_uint32 seqno) timeout s)
        (c.wait_master_block ctx _ timeout s h)
    where
      go :
          (r : Result S (Unit {0}))
          → Post (λ _ s'. Ok s') Ok r
          → Ends {A = Waited t.Cell}
              (λ _ s'. Ok s')
              Ok
              (elim r [
                | ok x s' ↦ ok (go_on q) s'
                | err (ls e) s' ↦ ok (stop (some (ls_error e))) s'
                | err e s' ↦ ok (stop none) s'
                | panic x s' ↦ panic x s'
              ])
      go (ok x s') (returns k) = gives k
      go (err (ls e) s') (fails k) = gives k
      go (err (plain m) s') (fails k) = gives k
      go (err (wrapped m e) s') (fails k) = gives k
      go (panic x s') (panics k) = dies k

  wait_first-Replies : (ctx : t.Ctx) (r q : Request) → Replies Ok (wait_first t a vm v ctx r q)
  unfolding wait_first
  wait_first-Replies ctx (wait_masterchain_seqno seqno timeout) q =
      wait_for-Replies ctx seqno timeout q
  wait_first-Replies ctx _ q = λ s h. gives h

  pub check_wait-Ends :
      (ctx : t.Ctx) (r : Request) (s : S)
      → Ok s
      → Ends (λ w s'. Ok s' × Decides r w) Ok (check_wait t a vm v ctx r s)
  unfolding check_wait
  check_wait-Ends ctx (queries (also first (also q end))) s h =
      Ends-imp (λ w s' k. (k, listed)) (wait_first-Replies ctx first q s h)
  check_wait-Ends ctx (queries _) s h = gives (h, listed)
  check_wait-Ends ctx _ s h = gives (h, itself)
