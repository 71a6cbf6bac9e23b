-- ===== src/Elf/Dump/Texts.antt =====
-- src/elf.c: what is printed of a section that holds a text, and of bytes with two digits.
use mathlib.Core.Path.{subst}
use appimagetool.Base.{
  ℕ, zero, suc, ◌+◌, ◌-◌, ◌*◌, ◌/◌, ◌%◌, ◌^◌, ◌≤◌, ◌<◌, ◌≡◌, refl, ap, ◌∙◌, Bool, true, false, some,
  [], ◌∷◌, ◌++◌, append_assoc, arith, ltb, ◌==◌, length, take, drop, replicate, All, length-take,
  length-drop, Bytes, codes, u64_mod, is_neg64,
}
use appimagetool.Hexlify.{hex_digit}
use appimagetool.Hexlify.Laws.{unhex, digit_value-hex_digit}
use appimagetool.Elf.Dump.{
  buffer, read_file_offset_length, c_string, hex_number, as_unsigned, print_loop,
  appimage_print_hex, appimage_print_binary,
}

c_string-append : (text rest : Bytes) → All (λ b. 0 < b) text → c_string (text ++ (0 ∷ rest)) ≡ text
unfolding c_string
c_string-append [] rest h = refl
c_string-append (b ∷ text) rest (some_byte, h) =
    let not_null : (b == 0) ≡ false = ground arith in rw (not_null, c_string-append text rest h)

-- The null that `calloc` leaves at the end.
abbrev last_null : Bytes
last_null = 0 ∷ []

replicate-last : (pad : ℕ) → replicate pad 0 ++ last_null ≡ last_null ++ replicate pad 0
replicate-last zero = refl
replicate-last (suc pad) = ap (λ (t : Bytes). 0 ∷ t) (replicate-last pad)

c_string-padded :
    (text : Bytes) (pad : ℕ)
    → All (λ b. 0 < b) text
    → c_string ((text ++ replicate pad 0) ++ (0 ∷ [])) ≡ text
c_string-padded text pad h =
    let moved : (text ++ replicate pad 0) ++ (0 ∷ []) ≡ text ++ (0 ∷ replicate pad 0) =
      append_assoc text (replicate pad 0) (0 ∷ []) ∙ ap (λ t. text ++ t) (replicate-last pad) in
    rw moved (c_string-append text (replicate pad 0) h)

-- The buffer of a part of a file that is there.
read_file-buffer :
    (file : Bytes) (allocates : ℕ → Bool) (offset size : ℕ)
    → allocates (size + 1) ≡ true
    → offset + size ≤ length file
    → length file < 2 ^ 63
    → read_file_offset_length (some file) allocates offset size
      ≡ buffer (take size (drop offset file) ++ (0 ∷ []))
unfolding read_file_offset_length
read_file-buffer file allocates offset size enough inside small =
    let positive : is_neg64 offset ≡ false = ground arith in
    let no_wrap : ltb (size + 1) u64_mod ≡ true = ground arith in
    let got = take size (drop offset file) in
    let one : size + 1 - length got ≡ 1 =
      omega (arith, length-take size (drop offset file), length-drop offset file) in
    rw (positive, enough, no_wrap, one)

-- A section that holds a text and null bytes behind it is printed as the text and a line feed.
pub appimage_print_binary_lem :
    (file text : Bytes) (allocates : ℕ → Bool) (offset size pad : ℕ)
    → allocates (size + 1) ≡ true
    → offset + size ≤ length file
    → length file < 2 ^ 63
    → All (λ b. 0 < b) text
    → take size (drop offset file) ≡ text ++ replicate pad 0
    → appimage_print_binary (some file) allocates offset size ≡ some (0, text ++ codes "\n")
unfolding appimage_print_binary
appimage_print_binary_lem file text allocates offset size pad enough inside small text_bytes holds =
    rw
      (
        read_file-buffer file allocates offset size enough inside small,
        appimage_print_binary,
        holds,
      )
      (ap (λ (t : Bytes). some (0, t ++ codes "\n")) (c_string-padded text pad text_bytes))

-- The bytes whose digits are two, and are printed without a sign.
abbrev pub HasTwoDigits : ℕ → Type 0
HasTwoDigits b = (16 ≤ b) × (b < 128)

hex_number-two :
    (b : ℕ)
    → HasTwoDigits b
    → hex_number 8 (as_unsigned b) ≡ hex_digit (b / 16) ∷ hex_digit (b % 16) ∷ []
unfolding hex_number
hex_number-two b (low, high) =
    let plain : ltb b 128 ≡ true = ground arith in
    let long : ltb b 16 ≡ false = ground arith in
    let short : ltb (b / 16) 16 ≡ true = ground arith in rw (plain, long, short)

unhex-print_loop :
    (bytes : Bytes)
    → All HasTwoDigits bytes
    → unhex (print_loop (length bytes) (bytes ++ (0 ∷ []))) ≡ some bytes
unfolding unhex print_loop
unhex-print_loop [] h = refl
unhex-print_loop (b ∷ bytes) ((low, high), h) =
    let not_null : (b == 0) ≡ false = ground arith in
    let same : 16 * (b / 16) + b % 16 ≡ b = omega arith in
    rw
      (
        not_null,
        hex_number-two b (low, high),
        digit_value-hex_digit (b / 16) (omega arith),
        digit_value-hex_digit (b % 16) (omega arith),
        unhex-print_loop bytes h,
        same,
      )
      refl

-- The digits that are printed of a section give its bytes back if these are all between 16 and 127.
pub appimage_print_hex_lem :
    (file : Bytes) (allocates : ℕ → Bool) (offset size : ℕ)
    → allocates (size + 1) ≡ true
    → offset + size ≤ length file
    → length file < 2 ^ 63
    → All HasTwoDigits (take size (drop offset file))
    → (digits : Bytes) × (appimage_print_hex (some file) allocates offset size
        ≡ some (0, digits ++ codes "\n"))
      × (unhex digits ≡ some (take size (drop offset file)))
unfolding appimage_print_hex
appimage_print_hex_lem file allocates offset size enough inside small two =
    let bytes = take size (drop offset file) in
    let long : length bytes ≡ size =
      omega (arith, length-take size (drop offset file), length-drop offset file) in
    (
      print_loop size (bytes ++ (0 ∷ [])),
      rw (read_file-buffer file allocates offset size enough inside small, appimage_print_hex) refl,
      subst (λ n. unhex (print_loop n (bytes ++ (0 ∷ []))) ≡ some bytes) long
          (unhex-print_loop bytes two),
    )
