-- ===== src/Server/RunMethod/Replying.antt =====
-- Lemmas on `handleRunSmcMethod`, over services that keep a contract.
use Prim.Native.String.{◌++◌ as ◌<>◌}
use tonutils_liteserver_prox.Base.{
  String, if◌then◌else◌, ℕ, Bytes, Bool, true, false, Option, none, some, not, ◌==◌,
}
use tonutils_liteserver_prox.Base.Int.{ℤ, int_key}
use tonutils_liteserver_prox.Base.Action.{Error, Fallible, good, bad, Action, ok, panic}
use tonutils_liteserver_prox.Base.Hoare.{gives, dies, continue-Ends}
use tonutils_liteserver_prox.Ton.{Ton, ArcCache, BlockIdExt, AccountId, AccountState}
use tonutils_liteserver_prox.Cache.State.{Block, masterchain}
use tonutils_liteserver_prox.Emulate.{Tvm, RunResult, prepare_c7, run_get_method}
use tonutils_liteserver_prox.Server.Services.{Services}
use tonutils_liteserver_prox.Server.Services.Contract.{Contract}
use tonutils_liteserver_prox.Base.Keeps.{Replies}
use tonutils_liteserver_prox.Server.Handlers.{HitType, Reply}
use tonutils_liteserver_prox.Server.Handlers.Replying.{answering-Replies}
use tonutils_liteserver_prox.Server.RunMethod.{
  method_hit, new_call, method_params, method_result, Call, on_good, mode_bit, internal_error,
  with_short_c7, method_reply, run_at, run_method, run_with_libs, with_account, with_block,
  handle_run_smc_method, not_initialized,
}

module _ {S : Type 0} (Ok : S → Type 0) where
  ok-Replies : {B : Type 0} (b : B) → Replies Ok (ok b)
  ok-Replies b s h = gives h

  panic-Replies : {B : Type 0} (text : String) → Replies Ok {A = B} (panic text)
  panic-Replies text s h = dies h

  on_good-Replies :
      {A B : Type 0} (x : Fallible A) (failed : Error → Action S B) (f : A → Action S B)
      → ((e : Error) → Replies Ok (failed e))
      → ((y : A) → Replies Ok (f y))
      → Replies Ok (on_good x failed f)
  unfolding on_good
  on_good-Replies (good y) failed f after next = next y
  on_good-Replies (bad e) failed f after next = after e

  -- an error that becomes a value
  or_reply-Replies :
      {A B : Type 0} (x : Fallible A) (failed : Error → B) (f : A → Action S B)
      → ((y : A) → Replies Ok (f y))
      → Replies Ok (on_good x (λ e. ok (failed e)) f)
  or_reply-Replies x failed f = on_good-Replies x (λ e. ok (failed e)) f λ e. ok-Replies (failed e)

  if-Replies :
      {B : Type 0} (b : Bool) (m n : Action S B)
      → Replies Ok m
      → Replies Ok n
      → Replies Ok (if b then m else n)
  if-Replies true m n p q = p
  if-Replies false m n p q = q

module _ (t : Ton) (a : ArcCache) (vm : Tvm t) {S : Type 0} (v : Services t a S) (Ok : S → Type 0)
    (c : Contract t a v Ok) where
  with_short_c7-Replies :
      (q : Call t) (seed : Bytes) (f : Option t.Cell → Action S (Reply t))
      → ((o : Option t.Cell) → Replies Ok (f o))
      → Replies Ok (with_short_c7 t a vm v q seed f)
  unfolding with_short_c7
  with_short_c7-Replies q seed f next =
      if-Replies Ok (mode_bit t vm q.mode 3) _ _
        (λ s h. continue-Ends _ (c.time_now s h) λ now.
          or_reply-Replies Ok (prepare_c7 t vm q.addr now seed q.balance none none)
            (λ e. internal_error t vm "failed to prepare c7: " e) _
            λ c7t.
              or_reply-Replies Ok (vm.value_cell c7t)
                (λ e. internal_error t vm "failed to build c7 tuple: " e) _ λ c7. next (some c7))
        (next none)

  method_reply-Replies :
      (q : Call t) (seed : Bytes) (libs : Bool) (res : RunResult t)
      → Replies Ok (method_reply t a vm v q seed libs res)
  unfolding method_reply
  method_reply-Replies q seed libs res =
      or_reply-Replies Ok _ (λ e. internal_error t vm "failed to prepare state proof args: " e) _
        λ proof.
          with_short_c7-Replies q seed
            (λ c7. ok (some (method_result t a vm v q res proof c7), q.hit libs))
            λ c7. ok-Replies Ok (some (method_result t a vm v q res proof c7), q.hit libs)

  run_at-Replies :
      (q : Call t) (libs : t.Dict × Bool) (now : ℕ) (seed : Bytes)
      → Replies Ok (run_at t a vm v q libs now seed)
  unfolding run_at
  run_at-Replies q libs now seed =
      or_reply-Replies Ok (prepare_c7 t vm q.addr now seed q.balance (some q.config) (some q.code))
        (λ e. internal_error t vm "failed to prepare c7: " e) _
        λ c7t.
          or_reply-Replies Ok (vm.stack_cell c7t)
            (λ e. internal_error t vm "failed to build c7 stack: " e) _
            λ c7. emulated (run_get_method t vm (method_params t a vm v q libs.0 c7) 1000000)
    where
      emulated :
          (o : Option (Fallible (RunResult t)))
          → Replies Ok (elim o [
            | none ↦ panic "memory access past the answer of the emulator"
            | some res ↦
                on_good res
                  (λ e. ok (internal_error t vm "failed to emulate run method: " e))
                  (method_reply t a vm v q seed libs.1)
          ])
      emulated none = panic-Replies Ok "memory access past the answer of the emulator"
      emulated (some res) = or_reply-Replies Ok res _ _ (method_reply-Replies q seed libs.1)

  run_with_libs-Replies : (ctx : t.Ctx) (q : Call t) → Replies Ok (run_with_libs t a vm v ctx q)
  unfolding run_with_libs run_method
  run_with_libs-Replies ctx q =
      on_good-Replies Ok _ (λ e. panic (t.error_text e)) _ (λ e s h. dies h)
        λ hashes.
          answering-Replies t a v Ok (λ e. "failed resolve libraries: " <> t.error_text e) _ ctx _ _
            (c.get_libraries ctx hashes)
            λ libs s h.
              continue-Ends _ (c.time_now s h) λ now s' h'. run_at-Replies q libs now _ s' h'

  with_account-Replies :
      (ctx : t.Ctx) (call : AccountState t.Cell → t.Cell → t.Cell → Option t.Cell → ℤ → Call t)
      (account : AccountState t.Cell)
      → Replies Ok (with_account t a vm v ctx call account)
  unfolding with_account
  with_account-Replies ctx call account = of_state account.state
    where
      of_init :
          (acc : AccountState t.Cell) (state : t.Cell) (balance : ℤ)
          (o : Option (Option t.Cell × Option t.Cell))
          → Replies Ok (elim o [
            | none ↦ ok (not_initialized t vm)
            | some (none, code_data) ↦ ok (not_initialized t vm)
            | some (some code, code_data) ↦
                run_with_libs t a vm v ctx (call acc state code code_data balance)
          ])
      of_init acc state balance none = ok-Replies Ok (not_initialized t vm)
      of_init acc state balance (some (none, code_data)) = ok-Replies Ok (not_initialized t vm)
      of_init acc state balance (some (some code, code_data)) =
          run_with_libs-Replies ctx (call acc state code code_data balance)

      of_state :
          (o : Option t.Cell)
          → Replies Ok (with_account t a vm v ctx call (record account { state = o }))
      of_state none = ok-Replies Ok (not_initialized t vm)
      of_state (some state) =
          or_reply-Replies Ok (vm.load_account (t.begin_parse state))
            (λ e. internal_error t vm "failed to parse account state: " e) _
            λ st. of_init (record account { state = some state }) state st.balance st.state_init

  with_block-Replies :
      (ctx : t.Ctx) (mode : ℕ) (id : BlockIdExt) (account : AccountId) (method_id : ℕ)
      (params : Bytes) (found : Option (Block t a) × Bool)
      → Replies Ok (with_block t a vm v ctx mode id account method_id params found)
  unfolding with_block
  with_block-Replies ctx mode id account method_id params (none, cached) =
      panic-Replies Ok "invalid memory address or nil pointer dereference"
  with_block-Replies ctx mode id account method_id params (some block, cached) =
      answering-Replies t a v Ok (λ _. "failed to resolve master block") _ ctx _ _
        (c.get_master_block ctx _)
        λ m.
          answering-Replies t a v Ok (λ _. "failed to get account state") _ ctx _ _
            (c.get_account_state_in_block ctx block _)
            λ st.
              with_account-Replies ctx
                (new_call t a vm v mode id method_id params
                  (t.new_address account.workchain account.id) m.0
                  (λ libs. method_hit t vm cached m.1 libs st.1))
                st.0

  pub handle_run_smc_method-Replies :
      (ctx : t.Ctx) (mode : ℕ) (id : BlockIdExt) (account : AccountId) (method_id : ℕ)
      (params : Bytes)
      → Replies Ok (handle_run_smc_method t a vm v ctx mode id account method_id params)
  unfolding handle_run_smc_method
  handle_run_smc_method-Replies ctx mode id account method_id params =
      if-Replies Ok (not (id.workchain == masterchain)) _ _ (ok-Replies Ok (none, HitType.backend))
        (answering-Replies t a v Ok (λ _. "failed to resolve block") _ ctx _ _
          (c.cache_block_if_needed ctx id)
          (with_block-Replies ctx mode id account method_id params))
