-- ===== src/Ton/Library.antt =====
-- The operations of tonutils-go, of the network and of the clock.
use tonutils_liteserver_prox.Base.{ℕ, String, Bool, Bytes, Option, List, ◌≡◌, ◌↔◌, true, [], All}
use tonutils_liteserver_prox.Base.Int.{ℤ}
use tonutils_liteserver_prox.Base.Action.{Error, Fallible, good}
use tonutils_liteserver_prox.Ton.Wire.{BlockIdExt, Request, Message}

-- The parts of a `tlb.Block` that the code reads, for the types of cells and dictionaries.
pub record McExtra (D : Type 0) : Type 0 where
  pub key_block : Bool
  pub config_params : D
  pub shard_hashes : D

pub record BlockExtra (C D : Type 0) : Type 0 where
  pub shard_account_blocks : C
  pub custom : Option (McExtra D)

pub record TlbBlock (C D : Type 0) : Type 0 where
  pub state_update : C
  pub extra : Option (BlockExtra C D)
  pub not_master : Bool
  pub gen_utime : ℕ
  pub master_seqno : ℕ
  pub master_root_hash : Bytes
  pub master_file_hash : Bytes

-- The libraries and the world outside. `World` is all that the proxy does not own: the clock, the
-- liteservers and what is in flight; every use of it may change it.
pub record Ton : Type 1 where
  pub Cell : Type 0
  pub Dict : Type 0
  pub ShardAccounts : Type 0
  pub Address : Type 0
  pub Pool : Type 0
  pub World : Type 0
  pub Ctx : Type 0
  pub Slice : Type 0
  -- `context.Background()`
  pub background : Ctx
  -- `context.WithTimeout(ctx, d)`, in seconds
  pub with_timeout : ℕ → Ctx → Ctx
  -- `ctx.Deadline()`, as the seconds that are left
  pub seconds_left : Ctx → World → Option ℕ
  -- `ctx.Err()`
  pub ctx_err : Ctx → World → Option Error
  -- `time.Now()`, in nanoseconds since the epoch
  pub time_now : World → ℕ × World
  -- `NewConnectionPool` and `AddConnection` with an address and the key in base64
  pub connect : String → Bytes → World → Fallible Pool × World
  -- `ConnectionPool.QueryLiteserver`
  pub query_pool : Pool → Ctx → Request → World → Fallible (Message Cell) × World
  -- `Cell.Hash`
  pub cell_hash : Cell → Bytes
  -- `BlockIDExt.Equals`
  pub id_equals : BlockIdExt → BlockIdExt → Bool
  -- `tlb.LoadFromCell` into a `tlb.Block`
  pub load_block : Cell → Fallible (TlbBlock Cell Dict)
  -- `Cell.BeginParse` and `Slice.LoadSlice`
  pub begin_parse : Cell → Slice
  pub load_slice : ℕ → Slice → Fallible (Bytes × Slice)
  -- `tlb.LoadFromCellAsProof` into `tlb.ShardAccountBlocks`
  pub load_shard_accounts : Cell → Fallible ShardAccounts
  -- `ton.LoadShardsFromHashes`
  pub load_shards : Dict → Fallible (List BlockIdExt)
  -- `ton.CheckShardMcStateExtraProof`, and the configuration in its result
  pub check_config_proof : BlockIdExt → Cell → Cell → Fallible Dict
  -- `cell.NewDict(bits)`, `Dictionary.Set` at a key of 256 bits, `Dictionary.LoadAll`
  pub new_dict : ℕ → Dict
  pub dict_set : Bytes → Cell → Dict → Fallible Dict
  pub dict_load_all : Dict → Fallible (List (Bytes × Cell))
  -- `Cell.CreateProof` with the first reference of the root kept whole
  pub header_proof : Cell → Fallible Cell
  -- `tl.Serialize(v, true)`
  pub serialize : Request → Fallible Bytes
  pub address_string : Address → String
  pub address_workchain : Address → ℤ
  pub address_data : Address → Bytes
  -- `address.NewAddress(0, byte(workchain), id)`
  pub new_address : ℤ → Bytes → Address
  -- `err.Error()`
  pub error_text : Error → String
  -- `cell.CreateProofSkeleton()`; `ProofRef` along a path of references from the root
  pub Skeleton : Type 0
  pub ProofPath : Type 0
  pub new_skeleton : Skeleton
  pub proof_ref : List ℕ → Skeleton → ProofPath × Skeleton
  -- `LoadValueWithProof` in the dictionary of accounts of a block, and in that of the transactions
  -- of an account: the value, its path, and the skeleton with that path
  pub Transactions : Type 0
  pub load_account_with_proof :
      ShardAccounts → Bytes → ProofPath → Skeleton → Fallible (Slice × ProofPath) × Skeleton
  pub load_transaction_with_proof :
      Transactions → ℤ → ProofPath → Skeleton → Fallible (Slice × ProofPath) × Skeleton
  -- `tlb.LoadFromCell` into a `tlb.CurrencyCollection`, and into a `tlb.AccountBlock`
  pub load_currency : Slice → Fallible Slice
  pub load_account_block : Slice → Fallible Transactions
  -- `Cell.CreateProof`, `Slice.LoadRefCell`, `Cell.ToBOC`
  pub create_proof : Cell → Skeleton → Fallible Cell
  pub load_ref : Slice → Fallible Cell
  pub to_boc : Cell → Bytes

-- `BlockIDExt.Equals` compares all fields; a dictionary is a finite map, and `LoadAll` lists it.
pub record TonLaws (t : Ton) : Type 1 where
  pub equals_iff : (a b : BlockIdExt) → (t.id_equals a b ≡ true) ↔ (a ≡ b)
  pub new_dict-empty : (n : ℕ) → t.dict_load_all (t.new_dict n) ≡ good []
  -- the entries after a `Set` are the new one and some of those before
  pub dict_set-entries :
      (h : Bytes) (c : t.Cell) (d d' : t.Dict) (all : List (Bytes × t.Cell))
      → t.dict_set h c d ≡ good d'
      → t.dict_load_all d ≡ good all
      → (all' : List (Bytes × t.Cell)) × (t.dict_load_all d' ≡ good all')
        × ((P : Bytes → t.Cell → Type 0)
            → P h c
            → All (λ e. P e.0 e.1) all
            → All (λ e. P e.0 e.1) all')
