-- ===== src/Emulate/Memory.antt =====
-- How an answer of the emulator is read from its memory.
use tonutils_liteserver_prox.Base.{
  ℕ, ◌+◌, ◌*◌, ◌/◌, ◌%◌, ◌^◌, ◌<◌, Bytes, ◌≡◌, refl, some, [], ◌∷◌, ◌++◌, length, arith, ltb, true,
}
use tonutils_liteserver_prox.Emulate.{read_bytes, read_answer}

-- a number as it stands in the memory of a little-endian machine
abbrev pub uint32_bytes : ℕ → Bytes
uint32_bytes n = n % 256 ∷ n / 256 % 256 ∷ n / 65536 % 256 ∷ n / 16777216 % 256 ∷ []

read_bytes-append : (bs rest : Bytes) → read_bytes (length bs) (bs ++ rest) ≡ some bs
unfolding read_bytes
read_bytes-append [] rest = refl
read_bytes-append (b ∷ bs) rest = rw (read_bytes-append bs rest) refl

-- An answer of less than 2 ^ 31 bytes that stands in memory behind its size is read back exactly,
-- whatever follows it.
pub read_answer-memory :
    (answer rest : Bytes)
    → length answer < 2 ^ 31
    → read_answer (uint32_bytes (length answer) ++ answer ++ rest) ≡ some answer
unfolding read_answer
read_answer-memory answer rest small =
    let n = length answer in
    let size : n % 256
          + 256 * (n / 256 % 256)
          + 65536 * (n / 65536 % 256)
          + 16777216 * (n / 16777216 % 256)
        ≡ n =
      omega arith in
    let bounded : ltb n (2 ^ 31) ≡ true = ground arith in
    rw (size, bounded) (read_bytes-append answer rest)
