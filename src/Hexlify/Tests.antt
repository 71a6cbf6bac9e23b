-- ===== src/Hexlify/Tests.antt =====
-- src/hexlify.c: runs on bytes.
use appimagetool.Base.{◌≡◌, refl, some, [], ◌∷◌, arith, length, Bytes, codes}
use appimagetool.Hexlify.{hexlify, hexlify_loop, hex_pair, hex_digit}
use appimagetool.Hexlify.Laws.{unhex, unhex-hexlify}

hexlify_three : hexlify (0 ∷ 171 ∷ 255 ∷ []) 3 ≡ some (codes "00abff")
unfolding hexlify hexlify_loop hex_pair hex_digit
hexlify_three = refl

unhex-hexlify_example :
    (out : Bytes) × (hexlify (222 ∷ 173 ∷ 9 ∷ []) 3 ≡ some out)
    × (length out ≡ 6)
    × (unhex out ≡ some (222 ∷ 173 ∷ 9 ∷ []))
unhex-hexlify_example =
    unhex-hexlify (222 ∷ 173 ∷ 9 ∷ []) (omega arith, (omega arith, (omega arith, tt)))
