-- ===== src/Server/Dispatch.antt =====
-- The two `switch`es of `handleRequest` on the request: the wait for a block, and the handler.
pub mod Replying
use text.Mathlib.Text.{◌==◌ as str_eq}
use Prim.Native.String
use Prim.Native.String.{◌++◌ as ◌<>◌}
use tonutils_liteserver_prox.Base.{
  ℕ, ◌%◌, ◌^◌, String, Bytes, Bool, true, false, not, ◌||◌, Option, none, some, List, [], ◌∷◌,
  if◌then◌else◌, ◌==◌, nat_key, bytes_key,
}
use tonutils_liteserver_prox.Base.Int.{ℤ, pos, int_key}
use tonutils_liteserver_prox.Base.Maps.{Map, lookup, insert}
use tonutils_liteserver_prox.Base.Action.{
  LsError, Error, ls, plain, wrapped, Fallible, good, bad, Action, Result, ok, err, panic, pure,
  continue, ◌>>=◌,
}
use tonutils_liteserver_prox.Ton.{
  Ton, ArcCache, Request, Message, ls_error, version, current_time, also, end, queries, get_version,
  get_time, get_masterchain_inf, wait_masterchain_seqno, get_masterchain_info_ext, get_libraries,
  get_one_transaction, get_block_data, get_account_state, run_smc_method, lookup_block,
}
use tonutils_liteserver_prox.Backend.{unix}
use tonutils_liteserver_prox.Cache.State.{to_uint32}
use tonutils_liteserver_prox.Emulate.{Tvm, cell}
use tonutils_liteserver_prox.Server.Connections.{ServerClient, Connections, touch}
use tonutils_liteserver_prox.Server.Services.{Services}
use tonutils_liteserver_prox.Server.Checksum.{checksum}
use tonutils_liteserver_prox.Server.Handlers.{
  HitType, Reply, handle_get_masterchain_info_ext, handle_get_masterchain_info,
  handle_get_libraries, handle_get_transaction, handle_get_block, handle_get_account,
  handle_lookup_block,
}
use tonutils_liteserver_prox.Server.RunMethod.{handle_run_smc_method}

abbrev pub error_message : {C : Type 0} → ℤ → String → Message C
error_message code text = ls_error (record { code = code; text = text })

-- What comes of the wait that a request may ask for: a request to go on with, or the end, with an
-- answer or without one.
pub data Waited (C : Type 0) : Type 0 where
  go_on : Request → Waited C
  stop : Option (Message C) → Waited C

module _ (t : Ton) (a : ArcCache) (vm : Tvm t) {S : Type 0} (v : Services t a S) where
  open t use {Cell, Ctx}
  open v use {cache as kept, time_now}

  -- the call of `WaitMasterBlock`, before the request `q`
  unfoldable pub wait_for : Ctx → ℤ → ℤ → Request → Action S (Waited Cell)
  wait_for ctx seqno timeout q s = elim (kept.wait_master_block ctx (to_uint32 seqno) timeout s) [
    | ok x s' ↦ ok (go_on q) s'
    | err (ls e) s' ↦ ok (stop (some (ls_error e))) s'
    | err e s' ↦ ok (stop none) s'
    | panic x s' ↦ panic x s'
  ]

  -- the `switch` for a list of two requests
  unfoldable pub wait_first : Ctx → Request → Request → Action S (Waited Cell)
  unfolding wait_for
  wait_first ctx (wait_masterchain_seqno seqno timeout) q = wait_for ctx seqno timeout q
  wait_first ctx _ q = ok (stop (some (error_message (pos 400) "unexpected first query type")))

  -- the first `switch` on `q.Data`
  unfoldable pub check_wait : Ctx → Request → Action S (Waited Cell)
  unfolding wait_first
  check_wait ctx (queries (also first (also q end))) = wait_first ctx first q
  check_wait ctx (queries _) =
      ok (stop (some (error_message (pos 400) "unexpected len of queries")))
  check_wait ctx r = ok (go_on r)

  -- `uint32(time.Now().Unix())`, in a reply
  unfoldable pub at_time : (ℕ → Message Cell) → Action S (Reply t)
  at_time f s =
      continue (time_now s) λ now s'. ok (some (f (unix now % 2 ^ 32)), HitType.emulated) s'

  -- the second `switch` on `q.Data`
  unfoldable pub dispatch : Ctx → Request → Action S (Reply t)
  unfolding at_time
  dispatch ctx get_version = at_time (version 0 0x101 7)
  dispatch ctx get_time = at_time current_time
  dispatch ctx (get_masterchain_info_ext mode) = handle_get_masterchain_info_ext t a v ctx mode
  dispatch ctx get_masterchain_inf = handle_get_masterchain_info t a v ctx
  dispatch ctx (get_libraries hashes) = handle_get_libraries t a v ctx hashes
  dispatch ctx (get_one_transaction id account lt) = handle_get_transaction t a v ctx id account lt
  dispatch ctx (get_block_data id) = handle_get_block t a v ctx id
  dispatch ctx (get_account_state id account) = handle_get_account t a v ctx id account
  dispatch ctx (run_smc_method mode id account method_id params) =
      handle_run_smc_method t a vm v ctx mode id account method_id params
  dispatch ctx (lookup_block mode id) = handle_lookup_block t a v mode id
  dispatch ctx _ = ok (none, HitType.backend)
