-- ===== src/Hexlify/Laws.antt =====
-- src/hexlify.c: the digits say what the bytes are, and fit the buffer.
use appimagetool.Base.{
  ℕ, zero, suc, ◌+◌, ◌-◌, ◌*◌, ◌/◌, ◌%◌, ◌<◌, ◌≡◌, refl, sym, ap, ◌∙◌, ◌&&◌, Option, none, some, [],
  ◌∷◌, ◌++◌, append_assoc, append-nil, arith, leb, if◌then◌else◌, length, get_elem?, All,
  length-append, get_elem?-append_length, Bytes,
}
use appimagetool.Hexlify.{hex_digit, hex_pair, hexlify_loop, hexlify}

-- The value of a lower-case hexadecimal digit.
abbrev pub digit_value : ℕ → Option ℕ
digit_value c =
    if leb b'0' c && leb c b'9'
    then some (c - b'0')
    else if leb b'a' c && leb c b'f'
    then some (c - b'a' + 10)
    else none

abbrev pub byte_of : Option ℕ → Option ℕ → Option Bytes → Option Bytes
byte_of (some h) (some l) (some rest) = some ((16 * h + l) ∷ rest)
byte_of _ _ _ = none

-- The bytes that a string of pairs of digits stands for.
unfoldable pub unhex : Bytes → Option Bytes
unhex [] = some []
unhex (h ∷ []) = none
unhex (h ∷ l ∷ rest) = byte_of (digit_value h) (digit_value l) (unhex rest)

pub digit_value-hex_digit : (d : ℕ) → d < 16 → digit_value (hex_digit d) ≡ some d
unfolding hex_digit
digit_value-hex_digit d h = ground arith

-- The digits of all bytes.
pairs : Bytes → Bytes
unfolding hex_pair
pairs [] = []
pairs (b ∷ bytes) = hex_digit (b / 16) ∷ hex_digit (b % 16) ∷ pairs bytes

loop-eq-pairs :
    (done rest : Bytes) (n i : ℕ) (out : Bytes)
    → i ≡ length done
    → n ≡ length rest
    → hexlify_loop (done ++ rest) n i out ≡ some (out ++ pairs rest)
unfolding hexlify_loop pairs hex_pair
loop-eq-pairs done [] zero i out at len = ap some (sym (append-nil out))
loop-eq-pairs done [] (suc n) i out at len = absurd (omega arith)
loop-eq-pairs done (b ∷ rest) zero i out at len = absurd (omega arith)
loop-eq-pairs done (b ∷ rest) (suc n) i out at len =
    let e : (done ++ (b ∷ [])) ++ rest ≡ done ++ (b ∷ rest) = append_assoc done (b ∷ []) rest in
    let e' : (out ++ hex_pair b) ++ pairs rest ≡ out ++ (hex_pair b ++ pairs rest) =
      append_assoc out (hex_pair b) (pairs rest) in
    let got : get_elem? (done ++ (b ∷ rest)) i ≡ some b =
      rw at (get_elem?-append_length done b rest) in
    rw got (
      ap (λ (t : Bytes). hexlify_loop t n (i + 1) (out ++ hex_pair b)) (sym e)
      ∙ loop-eq-pairs (done ++ (b ∷ [])) rest n (i + 1) (out ++ hex_pair b)
          (omega (arith, length-append done (b ∷ []))) (omega arith)
      ∙ ap some e')

unhex-pairs : (bytes : Bytes) → All (λ b. b < 256) bytes → unhex (pairs bytes) ≡ some bytes
unfolding unhex pairs
unhex-pairs [] h = refl
unhex-pairs (b ∷ bytes) h =
    rw
      (
        digit_value-hex_digit (b / 16) (omega arith),
        digit_value-hex_digit (b % 16) (omega arith),
        unhex-pairs bytes h.1,
      )
      (ap (λ (t : ℕ). some (t ∷ bytes)) (omega arith))

length-pairs : (bytes : Bytes) → length (pairs bytes) ≡ 2 * length bytes
unfolding pairs
length-pairs [] = refl
length-pairs (b ∷ bytes) = omega (arith, length-pairs bytes)

-- For numbers below 256, and all of them asked for, the function reads none behind them, and the
-- string that it returns has two digits for each, so that with its null it fills the buffer that
-- was allocated. Read as hexadecimal digits the string gives the bytes back.
pub unhex-hexlify :
    (bytes : Bytes)
    → All (λ b. b < 256) bytes
    → (out : Bytes) × (hexlify bytes (length bytes) ≡ some out)
      × (length out ≡ 2 * length bytes)
      × (unhex out ≡ some bytes)
unfolding hexlify
unhex-hexlify bytes h = (
  pairs bytes,
  loop-eq-pairs [] bytes (length bytes) 0 [] refl refl,
  length-pairs bytes,
  unhex-pairs bytes h,
)
