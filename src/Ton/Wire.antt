-- ===== src/Ton/Wire.antt =====
-- The protocol values that the code builds, matches on and sends. `C` is the type of cells.
use tonutils_liteserver_prox.Base.{ℕ, String, Bytes, Option, List}
use tonutils_liteserver_prox.Base.Int.{ℤ}
use tonutils_liteserver_prox.Base.Action.{LsError}

pub record BlockIdExt : Type 0 where
  pub workchain : ℤ  -- int32
  pub shard : ℤ  -- int64
  pub seqno : ℕ  -- uint32
  pub root_hash : Bytes
  pub file_hash : Bytes

pub record BlockInfoShort : Type 0 where
  pub workchain : ℤ
  pub shard : ℤ
  pub seqno : ℤ  -- int32

pub record ZeroStateIdExt : Type 0 where
  pub workchain : ℤ
  pub root_hash : Bytes
  pub file_hash : Bytes

pub record AccountId : Type 0 where
  pub workchain : ℤ
  pub id : Bytes

-- What a client asks for. `other` stands for each request type that the code names and forwards
-- (`GetBlockHeader`, `GetBlockProof` and so on) and for unknown ones; `raw` is `tl.Raw`.
mutual
  pub data Request : Type 0 where
    get_version : Request
    get_time : Request
    get_masterchain_info_ext : (mode : ℕ) → Request
    get_masterchain_inf : Request
    get_libraries : List Bytes → Request
    get_one_transaction : BlockIdExt → AccountId → (lt : ℤ) → Request
    get_block_data : BlockIdExt → Request
    get_account_state : BlockIdExt → AccountId → Request
    run_smc_method :
        (mode : ℕ) → BlockIdExt → AccountId → (method_id : ℕ) → (params : Bytes) → Request
    lookup_block : (mode : ℕ) → BlockInfoShort → Request
    get_config_all : (mode : ℕ) → BlockIdExt → Request
    wait_masterchain_seqno : (seqno timeout : ℤ) → Request
    other : (kind : String) → (body : Bytes) → Request
    raw : Bytes → Request
    queries : Requests → Request

  -- `[]tl.Serializable`
  pub data Requests : Type 0 where
    end : Requests
    also : Request → Requests → Requests

pub record AccountState (C : Type 0) : Type 0 where
  pub id : BlockIdExt
  pub shard : BlockIdExt
  pub shard_proof : List C
  pub proof : List C
  pub state : Option C

pub record TransactionInfo : Type 0 where
  pub id : BlockIdExt
  pub proof : Bytes
  pub transaction : Bytes

pub record BlockHeader (C : Type 0) : Type 0 where
  pub id : BlockIdExt
  pub mode : ℕ
  pub header_proof : C

pub record MasterchainInfo : Type 0 where
  pub last : BlockIdExt
  pub state_root_hash : Bytes
  pub init : ZeroStateIdExt

pub record MasterchainInfoExt : Type 0 where
  pub mode : ℕ
  pub version : ℕ
  pub capabilities : ℕ
  pub last : BlockIdExt
  pub last_utime : ℕ
  pub now : ℕ
  pub state_root_hash : Bytes
  pub init : ZeroStateIdExt

pub record RunMethodResult (C : Type 0) : Type 0 where
  pub mode : ℕ
  pub id : BlockIdExt
  pub shard_block : BlockIdExt
  pub shard_proof : List C
  pub proof : List C
  pub state_proof : Option C
  pub init_c7 : Option C
  pub exit_code : ℤ
  pub result : C

-- What is answered. `unknown` stands for every other response type.
pub data Message (C : Type 0) : Type 0 where
  version : (mode version capabilities now : ℕ) → Message C
  current_time : (now : ℕ) → Message C
  masterchain_info_ext : MasterchainInfoExt → Message C
  masterchain_info : MasterchainInfo → Message C
  library_result : List (Bytes × C) → Message C
  transaction_info : TransactionInfo → Message C
  block_data : BlockIdExt → (payload : C) → Message C
  account_state : AccountState C → Message C
  run_method_result : RunMethodResult C → Message C
  block_header : BlockHeader C → Message C
  config_all : (config_proof state_proof : C) → Message C
  ls_error : LsError → Message C
  unknown : (kind : String) → (body : Bytes) → Message C
