-- ===== src/Server/Checksum/Tests.antt =====
-- The checksum of known bytes, and two texts of nine bytes with one checksum.
use tonutils_liteserver_prox.Base.{◌≡◌, refl, [], ◌∷◌}
use tonutils_liteserver_prox.Server.Checksum.{checksum}

digits_checksum :
    checksum (b'1' ∷ b'2' ∷ b'3' ∷ b'4' ∷ b'5' ∷ b'6' ∷ b'7' ∷ b'8' ∷ b'9' ∷ [])
    ≡ 0x995DC9BBDF1939FA
unfolding checksum
digits_checksum = refl

collision :
    checksum (1 ∷ 0 ∷ 0 ∷ 0 ∷ 0 ∷ 0 ∷ 0 ∷ 0 ∷ 0 ∷ [])
    ≡ checksum (0 ∷ 111 ∷ 95 ∷ 167 ∷ 3 ∷ 190 ∷ 76 ∷ 46 ∷ 179 ∷ [])
unfolding checksum
collision = refl
