-- ===== src/Server/Checksum.antt =====
-- `crc64.Checksum(data, crc64.MakeTable(crc64.ECMA))`, the key of the cache of answers.
mod Tests
use Prim.Native.Nat.{bit_xor}
use tonutils_liteserver_prox.Base.{
  ℕ, zero, suc, ◌-◌, ◌/◌, ◌%◌, ◌^◌, Bytes, [], ◌∷◌, nat_eq, if◌then◌else◌,
}

abbrev ecma : ℕ
ecma = 0xC96C5795D7870F42

-- `^crc` of a uint64
abbrev complement : ℕ → ℕ
complement c = 2 ^ 64 - 1 - c

-- the register after that many bits
shift : ℕ → ℕ → ℕ
shift zero c = c
shift (suc n) c = shift n (if nat_eq (c % 2) 1 then bit_xor (c / 2) ecma else c / 2)

update : ℕ → Bytes → ℕ
unfolding shift
update c [] = c
update c (b ∷ bs) = update (shift 8 (bit_xor c b)) bs

unfoldable pub checksum : Bytes → ℕ
unfolding update
checksum bs = complement (update (complement 0) bs)
