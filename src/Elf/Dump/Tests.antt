-- ===== src/Elf/Dump/Tests.antt =====
-- src/elf.c: what is printed of small files.
use appimagetool.Base.{
  ℕ, ◌≡◌, refl, Bool, true, some, [], ◌∷◌, ◌++◌, arith, replicate, Bytes, codes,
}
use appimagetool.Hexlify.{hex_digit}
use appimagetool.Hexlify.Laws.{unhex}
use appimagetool.Elf.Dump.{
  read_file_offset_length, hex_number, print_loop, appimage_print_hex, appimage_print_binary,
}
use appimagetool.Elf.Dump.Texts.{appimage_print_binary_lem, appimage_print_hex_lem}

abbrev always : ℕ → Bool
always n = true

abbrev padded_text : Bytes
padded_text = codes "xx" ++ (codes "zsync" ++ replicate 3 0)

appimage_print_binary_lem_example :
    appimage_print_binary (some padded_text) always 2 8 ≡ some (0, codes "zsync" ++ codes "\n")
appimage_print_binary_lem_example =
    appimage_print_binary_lem padded_text (codes "zsync") always 2 8 3 refl (omega arith)
      (omega arith) (omega arith, (omega arith, (omega arith, (omega arith, (omega arith, tt)))))
      refl

appimage_print_hex_lem_example :
    (digits : Bytes) × (appimage_print_hex (some (codes "xxAZ")) always 2 2
      ≡ some (0, digits ++ codes "\n"))
    × (unhex digits ≡ some (codes "AZ"))
appimage_print_hex_lem_example =
    appimage_print_hex_lem (codes "xxAZ") always 2 2 refl (omega arith) (omega arith)
      ((omega arith, omega arith), ((omega arith, omega arith), tt))

-- Two contents that are printed alike: a byte below 16 has one digit.
one_digit :
    appimage_print_hex (some (1 ∷ 17 ∷ [])) always 0 2
    ≡ appimage_print_hex (some (17 ∷ 1 ∷ [])) always 0 2
unfolding appimage_print_hex read_file_offset_length print_loop hex_number hex_digit
one_digit = refl

-- A byte from 128 on is printed with its sign.
with_sign : appimage_print_hex (some (128 ∷ [])) always 0 1 ≡ some (0, codes "ffffff80\n")
unfolding appimage_print_hex read_file_offset_length print_loop hex_number hex_digit
with_sign = refl
