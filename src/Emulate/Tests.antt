-- ===== src/Emulate/Tests.antt =====
-- The memory of the emulator at a concrete answer.
use tonutils_liteserver_prox.Base.{Bytes, ◌≡◌, some, [], ◌∷◌, ◌++◌, length, arith}
use tonutils_liteserver_prox.Emulate.{read_answer}
use tonutils_liteserver_prox.Emulate.Memory.{uint32_bytes, read_answer-memory}

abbrev two_bytes : Bytes
two_bytes = 7 ∷ 8 ∷ []

read_answer-memory_example :
    read_answer (uint32_bytes (length two_bytes) ++ two_bytes ++ 9 ∷ []) ≡ some two_bytes
read_answer-memory_example = read_answer-memory two_bytes (9 ∷ []) (omega arith)
