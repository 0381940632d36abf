-- ===== src/Emulate.antt =====
-- internal/emulate/emulator.go: the arguments of a get method, and the call of the emulator. The
-- emulator and the serialisation of cells are the record `Tvm`.
pub mod Memory
pub mod Sample
mod Tests
use tonutils_liteserver_prox.Base.{
  ℕ, zero, suc, ◌+◌, ◌*◌, ◌%◌, ◌^◌, Bytes, Bool, Option, none, some, List, [], ◌∷◌, not, nat_eq,
  length, if◌then◌else◌, suc, ltb, All, ◌<◌,
}
use tonutils_liteserver_prox.Base.Int.{ℤ, pos}
use tonutils_liteserver_prox.Base.Action.{plain, Fallible, good, bad}
use tonutils_liteserver_prox.Ton.{Ton}
use tonutils_liteserver_prox.Backend.{unix}

-- what goes on the stack of the TVM: the `any` of the code
mutual
  pub data Value (t : Ton) : Type 0 where
    null : Value t
    int : ℤ → Value t
    cell : t.Cell → Value t
    slice : t.Slice → Value t
    tuple : Values t → Value t

  pub data Values (t : Ton) : Type 0 where
    end : Values t
    also : Value t → Values t → Values t

-- `[]any{…}`
abbrev pub values_of : {t : Ton} → List (Value t) → Values t
values_of [] = end
values_of (x ∷ xs) = also x (values_of xs)

pub record RunMethodParams (t : Ton) : Type 0 where
  pub code : t.Cell
  pub code_data : Option t.Cell
  pub stack : t.Cell
  pub c7 : t.Cell
  pub libs : t.Cell
  pub method_id : ℤ  -- int32

pub record RunResult (t : Ton) : Type 0 where
  pub exit_code : ℤ  -- int32
  pub gas_used : ℤ  -- int64
  pub stack : t.Cell

-- the parts of a `tlb.AccountState` that the code reads
pub record LoadedAccount (t : Ton) : Type 0 where
  pub state_init : Option (Option t.Cell × Option t.Cell)
  pub balance : ℤ

pub record Tvm (t : Ton) : Type 0 where
  -- `Dictionary.AsCell`, nil for an empty one; `BeginCell().EndCell()`
  pub dict_cell : t.Dict → Option t.Cell
  pub empty_cell : t.Cell
  -- `BeginCell().MustStoreAddr(addr).ToSlice()`
  pub address_slice : t.Address → t.Slice
  -- `Stack.Push` and `Stack.ToCell`; `SerializeStackValue` into a new cell
  pub stack_cell : Values t → Fallible t.Cell
  pub value_cell : Values t → Fallible t.Cell
  -- `tlb.ToCell` and `ToBOCWithFlags(false)`
  pub params_cell : RunMethodParams t → Fallible t.Cell
  pub boc : t.Cell → Bytes
  -- `tvm_emulator_emulate`: the memory at the pointer that it returns, nothing for NULL
  pub tvm_emulator_emulate : Bytes → (max_gas : ℕ) → Option Bytes
  -- `cell.FromBOC`, and `tlb.LoadFromCell` into a `RunResult` and into a `tlb.AccountState`
  pub from_boc : Bytes → Fallible t.Cell
  pub load_result : t.Cell → Fallible (RunResult t)
  pub load_account : t.Slice → Fallible (LoadedAccount t)
  -- the references of a cell, whether it is a library cell, and `Cell.Depth`
  pub cell_refs : t.Cell → List t.Cell
  pub is_library : t.Cell → Bool
  pub depth : t.Cell → ℕ
  -- `ton.ErrCodeContractNotInitialized`, and the cell in which a request sends its parameters
  pub contract_not_initialized : ℤ
  pub params_of : Bytes → t.Cell

-- `Cell.Depth`: a cell is deeper than its references.
pub record TvmLaws (t : Ton) (vm : Tvm t) : Type 0 where
  pub refs_below : (c : t.Cell) → All (λ r. vm.depth r < vm.depth c) (vm.cell_refs c)

-- `*(*C.uint32_t)(res)`, on a little-endian machine
unfoldable pub read_uint32 : Bytes → Option (ℕ × Bytes)
read_uint32 (b0 ∷ b1 ∷ b2 ∷ b3 ∷ rest) = some (b0 + 2 ^ 8 * b1 + 2 ^ 16 * b2 + 2 ^ 24 * b3, rest)
read_uint32 _ = none

-- `C.GoBytes`, nothing if the memory ends before
unfoldable pub read_bytes : ℕ → Bytes → Option Bytes
read_bytes zero memory = some []
read_bytes (suc n) [] = none
read_bytes (suc n) (b ∷ memory) = elim (read_bytes n memory) [
  | none ↦ none
  | some bs ↦ some (b ∷ bs)
]

-- The answer of the emulator: its size and its bytes. Reading past the memory has no result, and
-- neither has a size that is negative as a `C.int`.
unfoldable pub read_answer : Bytes → Option Bytes
unfolding read_uint32 read_bytes
read_answer memory = elim (read_uint32 memory) [
  | none ↦ none
  | some (n, rest) ↦ if ltb n (2 ^ 31) then read_bytes n rest else none
]

-- `new(big.Int).SetBytes(seed)`
unfoldable pub big_endian : ℕ → Bytes → ℕ
big_endian acc [] = acc
big_endian acc (b ∷ bs) = big_endian (256 * acc + b) bs

module _ (t : Ton) (vm : Tvm t) where
  -- an optional cell as a stack value
  abbrev pub cell_or_null : Option t.Cell → Value t
  cell_or_null none = null
  cell_or_null (some c) = cell c

  -- the entries of the tuple from the configuration on
  unfoldable pub c7_tail : Option t.Dict → Option t.Cell → List (Value t)
  c7_tail none code = null ∷ []
  c7_tail (some cfg) code =
      cell_or_null (vm.dict_cell cfg)
      ∷ cell_or_null code
      ∷ tuple (values_of (int (pos 0) ∷ null ∷ []))
      ∷ int (pos 0)
      ∷ null
      ∷ []

  -- the entries of the tuple that `PrepareC7` builds, at a time in nanoseconds
  unfoldable pub c7_entries :
      t.Address → ℕ → Bytes → ℤ → Option t.Dict → Option t.Cell → List (Value t)
  unfolding big_endian c7_tail
  c7_entries addr now seed balance cfg code =
      int (pos 0x076ef1ea)
      ∷ int (pos 0)
      ∷ int (pos 0)
      ∷ int (pos (unix now % 2 ^ 32))
      ∷ int (pos 0)
      ∷ int (pos 0)
      ∷ int (pos (big_endian 0 seed))
      ∷ tuple (values_of (int balance ∷ null ∷ []))
      ∷ slice (vm.address_slice addr)
      ∷ c7_tail cfg code

  -- `PrepareC7`: a list of one tuple
  unfoldable pub prepare_c7 :
      t.Address → ℕ → Bytes → ℤ → Option t.Dict → Option t.Cell → Fallible (Values t)
  unfolding c7_entries
  prepare_c7 addr now seed balance cfg code =
      if not (nat_eq (length seed) 32)
      then bad (plain "seed len is not 32")
      else good (values_of (tuple (values_of (c7_entries addr now seed balance cfg code)) ∷ []))

  -- the part of `RunGetMethod` after the emulator has returned
  unfoldable pub result_of : Option Bytes → Option (Fallible (RunResult t))
  unfolding read_answer
  result_of none = some (bad (plain "failed to execute tvm"))
  result_of (some memory) = elim (read_answer memory) [
    | none ↦ none
    | some answer ↦ elim (vm.from_boc answer) [
      | bad e ↦ some (bad e)
      | good c ↦ some (vm.load_result c)
    ]
  ]

  -- `RunGetMethod`; nothing if the emulator's memory ends before its answer
  unfoldable pub run_get_method : RunMethodParams t → ℕ → Option (Fallible (RunResult t))
  unfolding result_of
  run_get_method params max_gas = elim (vm.params_cell params) [
    | bad e ↦ some (bad e)
    | good req ↦ result_of (vm.tvm_emulator_emulate (vm.boc req) max_gas)
  ]
