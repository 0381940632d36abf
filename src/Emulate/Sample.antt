-- ===== src/Emulate/Sample.antt =====
-- A concrete emulator for the examples. Each cell refers to the one before it, and the cell 0 is a library.
use tonutils_liteserver_prox.Base.{ℕ, zero, suc, none, some, List, [], ◌∷◌, nat_eq, All, ◌<◌, arith}
use tonutils_liteserver_prox.Base.Int.{pos}
use tonutils_liteserver_prox.Base.Action.{good}
use tonutils_liteserver_prox.Ton.Sample.{sample}
use tonutils_liteserver_prox.Emulate.{Tvm, TvmLaws}

abbrev pub refs : ℕ → List ℕ
refs zero = []
refs (suc n) = n ∷ []

-- The emulator answers with four zero bytes, an empty answer.
abbrev pub sample_tvm : Tvm sample
sample_tvm = record {
  dict_cell = λ d. none;
  empty_cell = 0;
  address_slice = λ a. a;
  stack_cell = λ vs. good 1;
  value_cell = λ vs. good 2;
  params_cell = λ p. good p.code;
  boc = λ c. c ∷ [];
  tvm_emulator_emulate = λ boc gas. some (0 ∷ 0 ∷ 0 ∷ 0 ∷ []);
  from_boc = λ bytes. good 3;
  load_result = λ c. good (record { exit_code = pos 0; gas_used = pos 1; stack = c });
  load_account = λ s. good (record { state_init = some (some s, none); balance = pos 5 });
  cell_refs = refs;
  is_library = λ c. nat_eq c 0;
  depth = λ c. c;
  contract_not_initialized = pos 256;
  params_of = λ bytes. 4;
}

refs-below : (c : ℕ) → All (λ r. r < c) (refs c)
refs-below zero = tt
refs-below (suc n) = (omega arith, tt)

pub sample_tvm-TvmLaws : TvmLaws sample sample_tvm
sample_tvm-TvmLaws = record { refs_below = refs-below }
