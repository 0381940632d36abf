-- ===== src/Server/RunMethod/Tests.antt =====
-- Get methods on concrete cells, and on a block that the cache lacks.
use tonutils_liteserver_prox.Base.{Bytes, List, ◌↔◌, Memᴰ, ◌≡◌, refl, [], ◌∷◌, arith}
use tonutils_liteserver_prox.Base.Int.{pos}
use tonutils_liteserver_prox.Base.Action.{good, panic}
use tonutils_liteserver_prox.Ton.{AccountId}
use tonutils_liteserver_prox.Ton.Sample.{sample, unbounded}
use tonutils_liteserver_prox.Emulate.Sample.{sample_tvm, sample_tvm-TvmLaws}
use tonutils_liteserver_prox.Base.Maps.{lookup}
use tonutils_liteserver_prox.Cache.Shard.{need_master}
use tonutils_liteserver_prox.Server.Sample.{block_101, no_wait, no_bytes, start}
use tonutils_liteserver_prox.Server.Services.{services}
use tonutils_liteserver_prox.Server.RunMethod.{find_libs, handle_run_smc_method}
use tonutils_liteserver_prox.Server.RunMethod.Libraries.{LibrariesFit, Uses, find_libs_terminates}
use tonutils_liteserver_prox.Server.RunMethod.Missing.{missing_block_panics}

-- The library cell lies three references below the code.
finds_library : find_libs sample sample_tvm 3 ≡ good ((0 ∷ []) ∷ [])
unfolding find_libs
finds_library = refl

-- each cell gives its own number as the hash
fits : LibrariesFit sample sample_tvm
fits c library =
    (c ∷ [], record { tag = c ∷ []; behind = c; rest = c; tagged = refl; hashed = refl })

find_libs_terminates_example :
    (hashes : List Bytes) × (find_libs sample sample_tvm 3 ≡ good hashes)
    × ((h : Bytes) → Memᴰ h hashes ↔ Uses sample sample_tvm 3 h)
find_libs_terminates_example = find_libs_terminates sample sample_tvm sample_tvm-TvmLaws fits 3

abbrev account : AccountId
account = record { workchain = pos 0; id = 1 ∷ [] }

missing_block_panics_example :
    handle_run_smc_method sample unbounded sample_tvm
      (services sample unbounded no_wait no_bytes)
      7
      0
      block_101
      account
      85143
      []
      (start [])
    ≡ panic "invalid memory address or nil pointer dereference" (start [])
unfolding lookup need_master
missing_block_panics_example =
    missing_block_panics sample unbounded sample_tvm no_wait no_bytes 7 0 block_101 block_101
      account 85143 [] (start []) refl (omega arith) refl refl refl
