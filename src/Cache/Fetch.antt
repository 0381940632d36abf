-- ===== src/Cache/Fetch.antt =====
-- The questions that the cache asks the backends, and how it checks the answers.
use tonutils_liteserver_prox.Base.{
  ℕ, Bytes, Option, none, some, List, [], ◌∷◌, ◌++◌, bytes_eq, ltb, if◌then◌else◌, map,
}
use tonutils_liteserver_prox.Base.Int.{ℤ, pos}
use tonutils_liteserver_prox.Base.Action.{ls, plain, Fallible, good, bad, wrap, Action, lift, ◌>>=◌}
use tonutils_liteserver_prox.Ton.{
  Ton, ArcCache, BlockIdExt, AccountId, AccountState, TransactionInfo, MasterchainInfo, Message,
  block_data, account_state, transaction_info, masterchain_info, config_all, library_result,
  ls_error, get_block_data, get_one_transaction, get_config_all, get_masterchain_inf,
  wait_masterchain_seqno, raw,
}
use tonutils_liteserver_prox.Ton
use tonutils_liteserver_prox.Cache.State.{State, ask, to_int32}

module _ (t : Ton) where
  open t use {Cell, Dict, Address}

  -- The `switch` of `getBlock` on the answer.
  unfoldable pub block_of_answer : BlockIdExt → Message Cell → Fallible Cell
  block_of_answer id (block_data of payload) =
      if bytes_eq (t.cell_hash payload) id.root_hash
      then good payload
      else bad (plain "incorrect block")
  block_of_answer id (ls_error e) = bad (ls e)
  block_of_answer id _ = bad (plain "unexpected response")

  -- The `switch` of `getAccount`.
  unfoldable pub account_of_answer : BlockIdExt → Message Cell → Fallible (AccountState Cell)
  account_of_answer id (account_state s) =
      if t.id_equals s.id id then good s else bad (plain "response with incorrect block")
  account_of_answer id (ls_error e) = bad (ls e)
  account_of_answer id _ = bad (plain "unexpected response")

  -- The `switch` of `getTransaction`.
  unfoldable pub transaction_of_answer : Message Cell → Fallible TransactionInfo
  transaction_of_answer (transaction_info i) = good i
  transaction_of_answer (ls_error e) = bad (ls e)
  transaction_of_answer _ = bad (plain "unexpected response")

  -- The `switch` of `getMasterchainInfo`.
  unfoldable pub info_of_answer : Message Cell → Fallible MasterchainInfo
  info_of_answer (masterchain_info i) = good i
  info_of_answer (ls_error e) = bad (ls e)
  info_of_answer _ = bad (plain "unexpected response")

  -- The `switch` of `getBlockchainConfig`.
  unfoldable pub config_of_answer : BlockIdExt → Message Cell → Fallible Dict
  config_of_answer id (config_all proof state) =
      wrap "incorrect proof" (t.check_config_proof id proof state)
  config_of_answer id (ls_error e) = bad (ls e)
  config_of_answer id _ = bad (plain "unexpected response from node")

  -- The inner loop of `getLibraries`: the last entry of the answer whose cell has the hash.
  unfoldable pub find_library : Bytes → Option Cell → List (Bytes × Cell) → Option Cell
  find_library h found [] = found
  find_library h found ((_, c) ∷ es) =
      find_library h (if bytes_eq h (t.cell_hash c) then some c else found) es

  -- The `switch` of `getLibraries`: for each hash the library, or nil.
  unfoldable pub libraries_of_answer : List Bytes → Message Cell → Fallible (List (Option Cell))
  unfolding find_library
  libraries_of_answer hashes (library_result es) = good (map (λ h. find_library h none es) hashes)
  libraries_of_answer hashes (ls_error e) = bad (ls e)
  libraries_of_answer hashes _ = bad (plain "unexpected response")

module _ (t : Ton) (a : ArcCache) where
  open t use {Cell, Dict, Address, Ctx}

  unfoldable pub get_block : Ctx → BlockIdExt → Action (State t a) Cell
  get_block ctx id = do answer ← ask t a ctx (get_block_data id); lift (block_of_answer t id answer)

  unfoldable pub get_account : Ctx → BlockIdExt → Address → Action (State t a) (AccountState Cell)
  get_account ctx id addr = do
    answer ← ask t a ctx (
        Ton.get_account_state id
          (record { workchain = t.address_workchain addr; id = t.address_data addr }))
    lift (account_of_answer t id answer)

  unfoldable pub get_transaction :
      Ctx → BlockIdExt → AccountId → ℤ → Action (State t a) TransactionInfo
  get_transaction ctx id acc lt = do
    answer ← ask t a ctx (get_one_transaction id acc lt)
    lift (transaction_of_answer t answer)

  unfoldable pub get_blockchain_config : Ctx → BlockIdExt → Action (State t a) Dict
  get_blockchain_config ctx id = do
    answer ← ask t a ctx (get_config_all 0b1111111111 id)
    lift (config_of_answer t id answer)

  unfoldable pub get_libraries_from : Ctx → List Bytes → Action (State t a) (List (Option Cell))
  get_libraries_from ctx hashes = do
    answer ← ask t a ctx (Ton.get_libraries hashes)
    lift (libraries_of_answer t hashes answer)

  -- the prefix of `getMasterchainInfo`, empty for seqno 0
  unfoldable pub wait_prefix : ℕ → Fallible Bytes
  wait_prefix seqno =
      if ltb 0 seqno
      then t.serialize (wait_masterchain_seqno (to_int32 seqno) (pos 8000))
      else good []

  unfoldable pub get_masterchain_info : Ctx → ℕ → Action (State t a) MasterchainInfo
  unfolding wait_prefix
  get_masterchain_info ctx seqno = do
    prefix ← lift (wait_prefix seqno)
    suffix ← lift (t.serialize get_masterchain_inf)
    answer ← ask t a ctx (raw (prefix ++ suffix))
    lift (info_of_answer t answer)
