-- ===== src/Server/RunMethod.antt =====
-- `handleRunSmcMethod`: a get method of a contract, run by the emulator on the state that a
-- masterchain block holds. A Go panic in the goroutine of a request ends the process.
pub mod Libraries
pub mod Missing
pub mod Replying
mod Tests
use Prim.Native.String.{◌++◌ as ◌<>◌}
use tonutils_liteserver_prox.Base.{
  ℕ, zero, suc, ◌/◌, ◌%◌, ◌^◌, String, Bytes, Bool, true, false, not, ◌&&◌, Option, none, some,
  List, [], ◌∷◌, ◌++◌, nat_eq, ◌==◌, length, if◌then◌else◌,
}
use tonutils_liteserver_prox.Base.Int.{ℤ, int_key}
use tonutils_liteserver_prox.Base.Action.{
  Error, plain, Fallible, good, bad, Action, ok, panic, continue,
}
use tonutils_liteserver_prox.Ton.{
  Ton, ArcCache, BlockIdExt, AccountId, AccountState, Message, RunMethodResult, ls_error,
  run_method_result,
}
use tonutils_liteserver_prox.Cache.State.{MasterBlock, Block, masterchain, to_int32}
use tonutils_liteserver_prox.Emulate.{
  Tvm, LoadedAccount, RunMethodParams, RunResult, prepare_c7, run_get_method,
}
use tonutils_liteserver_prox.Server.Services.{Services}
use tonutils_liteserver_prox.Server.Handlers.{HitType, Reply, internal, answering}

-- One goes on with a value, and turns an error into a reply.
unfoldable pub on_good : {A B : Type 0} → Fallible A → (Error → B) → (A → B) → B
on_good (good x) failed f = f x
on_good (bad e) failed f = failed e

module _ (t : Ton) (vm : Tvm t) where
  -- the hash in a library cell, behind eight bits
  unfoldable pub library_hash : t.Cell → Fallible Bytes
  unfolding on_good
  library_hash code =
      on_good (t.load_slice 8 (t.begin_parse code)) bad
        λ tag. on_good (t.load_slice 256 tag.1) bad λ hash. good hash.0

  -- the loop over the references
  unfoldable pub collect_libs :
      (t.Cell → Fallible (List Bytes)) → List t.Cell → Fallible (List Bytes)
  unfolding on_good
  collect_libs find [] = good []
  collect_libs find (c ∷ cs) =
      on_good (find c) bad
        λ hashes. on_good (collect_libs find cs) bad λ rest. good (hashes ++ rest)

  -- the body of `findLibs`, with its recursive call; `bad` is a panic of `MustLoadSlice`
  unfoldable pub find_libs_step : (t.Cell → Fallible (List Bytes)) → t.Cell → Fallible (List Bytes)
  unfolding library_hash collect_libs
  find_libs_step find code =
      if nat_eq (length (vm.cell_refs code)) 0 && vm.is_library code
      then on_good (library_hash code) bad (λ hash. good (hash ∷ []))
      else collect_libs find (vm.cell_refs code)

  -- `findLibs` to a depth
  unfoldable pub find_libs_to : ℕ → t.Cell → Fallible (List Bytes)
  unfolding find_libs_step
  find_libs_to zero code = bad (plain "out of fuel")
  find_libs_to (suc n) code = find_libs_step (find_libs_to n) code

  unfoldable pub find_libs : t.Cell → Fallible (List Bytes)
  unfolding find_libs_to
  find_libs code = find_libs_to (suc (vm.depth code)) code

  -- `v.Mode & (1 << i) != 0`
  abbrev pub mode_bit : ℕ → ℕ → Bool
  mode_bit mode i = nat_eq (mode / 2 ^ i % 2) 1

  -- an error whose text is a part of the reply
  abbrev pub internal_error : String → Error → Reply t
  internal_error text e = internal t (text <> t.error_text e)

  abbrev pub not_initialized : Reply t
  not_initialized = (
    some (
        ls_error
          (record { code = vm.contract_not_initialized; text = "contract is not initialized" })),
    HitType.failed_validate,
  )

  -- the hit type from the flags of the block, the masterchain block, the libraries and the state
  unfoldable pub method_hit : Bool → Bool → Bool → Bool → HitType
  method_hit block master libs state =
      if block && master && libs
      then (if state then HitType.cache else HitType.emulated)
      else HitType.backend

  -- `if v.Mode&2 != 0 { … }`
  unfoldable pub state_proof : ℕ → t.Cell → Fallible (Option t.Cell)
  unfolding on_good
  state_proof mode state =
      if mode_bit mode 1
      then on_good (t.create_proof state t.new_skeleton) bad (λ proof. good (some proof))
      else good none

-- a request, and what the handler has found for it
pub record Call (t : Ton) : Type 0 where
  pub mode : ℕ
  pub id : BlockIdExt
  pub method_id : ℕ  -- uint64
  pub params : Bytes
  pub addr : t.Address
  pub account : AccountState t.Cell
  pub state : t.Cell
  pub code : t.Cell
  pub code_data : Option t.Cell
  pub balance : ℤ
  pub config : t.Dict
  pub hit : Bool → HitType

module _ (t : Ton) (a : ArcCache) (vm : Tvm t) {S : Type 0} (v : Services t a S) where
  open t use {Cell, Dict, Ctx}
  open v use {cache as kept, time_now, random}

  -- `if v.Mode&8 != 0 { … }`, then `f` with the cell
  unfoldable pub with_short_c7 :
      Call t → Bytes → (Option Cell → Action S (Reply t)) → Action S (Reply t)
  unfolding on_good
  with_short_c7 q seed f =
      if mode_bit t vm q.mode 3
      then (λ s. continue (time_now s) λ now.
          on_good (prepare_c7 t vm q.addr now seed q.balance none none)
            (λ e. ok (internal_error t vm "failed to prepare c7: " e))
            λ c7t.
              on_good (vm.value_cell c7t)
                (λ e. ok (internal_error t vm "failed to build c7 tuple: " e)) λ c7. f (some c7))
      else f none

  -- the result that is sent
  abbrev pub method_result : Call t → RunResult t → Option Cell → Option Cell → Message Cell
  method_result q res proof c7 = run_method_result (record {
    mode = q.mode;
    id = q.id;
    shard_block = q.account.shard;
    shard_proof = q.account.shard_proof;
    proof = q.account.proof;
    state_proof = proof;
    init_c7 = c7;
    exit_code = res.exit_code;
    result = res.stack;
  })

  -- From the result of the emulator to the reply.
  unfoldable pub method_reply : Call t → Bytes → Bool → RunResult t → Action S (Reply t)
  unfolding on_good state_proof with_short_c7
  method_reply q seed libs_cached res =
      on_good (state_proof t vm q.mode q.state)
        (λ e. ok (internal_error t vm "failed to prepare state proof args: " e))
        λ proof.
          with_short_c7 q seed λ c7. ok (some (method_result q res proof c7), q.hit libs_cached)

  -- `if libsCell == nil { … }`
  abbrev pub libs_cell : Option Cell → Cell
  libs_cell none = vm.empty_cell
  libs_cell (some c) = c

  abbrev pub method_params : Call t → Dict → Cell → RunMethodParams t
  method_params q libs c7 = record {
    code = q.code;
    code_data = q.code_data;
    stack = vm.params_of q.params;
    c7 = c7;
    libs = libs_cell (vm.dict_cell libs);
    method_id = to_int32 (q.method_id % 2 ^ 32);
  }

  -- The emulation with a million of gas, at a time and with a seed.
  unfoldable pub run_at : Call t → Dict × Bool → ℕ → Bytes → Action S (Reply t)
  unfolding on_good method_reply
  run_at q libs now seed =
      on_good (prepare_c7 t vm q.addr now seed q.balance (some q.config) (some q.code))
        (λ e. ok (internal_error t vm "failed to prepare c7: " e))
        λ c7t.
          on_good (vm.stack_cell c7t) (λ e. ok (internal_error t vm "failed to build c7 stack: " e))
            λ c7. elim (run_get_method t vm (method_params q libs.0 c7) 1000000) [
              | none ↦ panic "memory access past the answer of the emulator"
              | some res ↦
                  on_good res (λ e. ok (internal_error t vm "failed to emulate run method: " e))
                    (method_reply q seed libs.1)
            ]

  -- from the libraries to the reply
  unfoldable pub run_method : Call t → Dict × Bool → Action S (Reply t)
  unfolding run_at
  run_method q libs s = continue (time_now s) λ now s'. run_at q libs now (random 32 s) s'

  -- From the code of the contract to the reply.
  unfoldable pub run_with_libs : Ctx → Call t → Action S (Reply t)
  unfolding on_good find_libs run_method
  run_with_libs ctx q =
      on_good (find_libs t vm q.code) (λ e. panic (t.error_text e))
        λ hashes.
          answering t a v (λ e. "failed resolve libraries: " <> t.error_text e)
            HitType.failed_validate ctx (kept.get_libraries ctx hashes) (run_method q)

  -- the tests of the state of the account
  unfoldable pub with_account :
      Ctx
      → ((AccountState Cell) → Cell → Cell → Option Cell → ℤ → Call t)
      → AccountState Cell
      → Action S (Reply t)
  unfolding on_good run_with_libs
  with_account ctx call account = elim account.state [
    | none ↦ ok (not_initialized t vm)
    | some state ↦
        on_good (vm.load_account (t.begin_parse state))
          (λ e. ok (internal_error t vm "failed to parse account state: " e))
          λ st. elim st.state_init [
            | none ↦ ok (not_initialized t vm)
            | some (none, code_data) ↦ ok (not_initialized t vm)
            | some (some code, code_data) ↦
                run_with_libs ctx (call account state code code_data st.balance)
          ]
  ]

  abbrev pub new_call :
      ℕ
      → BlockIdExt
      → ℕ
      → Bytes
      → t.Address
      → MasterBlock t a
      → (Bool → HitType)
      → AccountState Cell
      → Cell
      → Cell
      → Option Cell
      → ℤ
      → Call t
  new_call mode id method_id params addr master hit account state code code_data balance = record {
    mode = mode;
    id = id;
    method_id = method_id;
    params = params;
    addr = addr;
    account = account;
    state = state;
    code = code;
    code_data = code_data;
    balance = balance;
    config = master.config;
    hit = hit;
  }

  -- The rest of the handler after `CacheBlockIfNeeded`. The code reads `block.MasterID` before it
  -- asks whether `block` is nil.
  unfoldable pub with_block :
      Ctx → ℕ → BlockIdExt → AccountId → ℕ → Bytes → Option (Block t a) × Bool → Action S (Reply t)
  unfolding with_account
  with_block ctx mode id account method_id params (none, cached) =
      panic "invalid memory address or nil pointer dereference"
  with_block ctx mode id account method_id params (some block, cached) =
      let addr = t.new_address account.workchain account.id in
      answering t a v (λ _. "failed to resolve master block") HitType.failed_validate ctx
        (kept.get_master_block ctx block.body.master_id)
        λ m.
          answering t a v (λ _. "failed to get account state") HitType.failed_validate ctx
            (kept.get_account_state_in_block ctx block addr)
            λ st.
              with_account ctx
                (new_call mode id method_id params addr m.0
                  (λ libs. method_hit t vm cached m.1 libs st.1))
                st.0

  unfoldable pub handle_run_smc_method :
      Ctx → ℕ → BlockIdExt → AccountId → ℕ → Bytes → Action S (Reply t)
  unfolding with_block
  handle_run_smc_method ctx mode id account method_id params =
      if not (id.workchain == masterchain)
      then ok (none, HitType.backend)
      else answering t a v (λ _. "failed to resolve block") HitType.failed_validate ctx
          (kept.cache_block_if_needed ctx id) (with_block ctx mode id account method_id params)
