-- ===== src/Elf/Tests.antt =====
-- src/elf.c: lookups in a small file.
use appimagetool.Base.{
  ◌≡◌, refl, inl, Bool, true, ◌&&◌, some, List, [], ◌∷◌, ◌++◌, arith, ltb, length, replicate, Bytes,
  codes,
}
use appimagetool.Elf.{
  mapping, Extent, elf32, get_elf_section_offset_and_length, find_section, section_loop,
  read_extent, strcmp_at, read_le,
}
use appimagetool.Elf.Sample.{
  before_digest, no_digest_yet, digest_section, signature_section, key_section,
}
use appimagetool.Elf.Section.{
  first_named, or_else, section_table, IsName, get_elf_section_lem, string_at, entries, entry_at,
}
use appimagetool.Elf.Frame.{masked, get_elf_section_frame}
use mathlib.Core.List.{reverse}

abbrev unset : Extent
unset = record { offset = 0; size = 0 }

abbrev small_file : Bytes
small_file = before_digest ++ no_digest_yet

abbrev table : List (Bytes × Extent)
table =
    ([], record { offset = 212; size = 34 })
    ∷ (codes ".digest_md5", digest_section)
    ∷ (codes ".sha256_sig", signature_section)
    ∷ (codes ".sig_key", key_section)
    ∷ []

table_of_file : section_table elf32 40 (mapping small_file) ≡ some table
unfolding section_table entries entry_at string_at read_le read_extent
table_of_file = refl

abbrev is_plain : Bytes → Bool
is_plain [] = true
is_plain (c ∷ s) = ltb 0 c && is_plain s

plain : (s : Bytes) → is_plain s ≡ true → IsName s
plain [] h = tt
plain (c ∷ s) h = (ground arith, plain s (ground arith))

get_elf_section_lem_example :
    get_elf_section_offset_and_length (some (mapping small_file)) (codes ".sha256_sig") unset
    ≡ some (true, or_else (first_named (codes ".sha256_sig") (reverse table)) unset)
get_elf_section_lem_example =
    get_elf_section_lem 40 (mapping small_file) (codes ".sha256_sig") unset elf32 table
      (plain (codes ".sha256_sig") refl) (inl (refl, refl)) table_of_file

found_outside :
    get_elf_section_offset_and_length
      (some (masked (length before_digest) 16 (mapping (before_digest ++ (no_digest_yet ++ [])))))
      (codes ".sig_key")
      unset
    ≡ some (true, key_section)
unfolding get_elf_section_offset_and_length find_section section_loop read_extent strcmp_at read_le
found_outside = refl

get_elf_section_frame_example :
    (get_elf_section_offset_and_length
        (some (mapping (before_digest ++ (no_digest_yet ++ []))))
        (codes ".sig_key")
        unset
      ≡ some (true, key_section))
    × (get_elf_section_offset_and_length
          (some (mapping (before_digest ++ (replicate 16 255 ++ []))))
          (codes ".sig_key")
          unset
        ≡ some (true, key_section))
get_elf_section_frame_example =
    get_elf_section_frame before_digest no_digest_yet (replicate 16 255) [] (codes ".sig_key") unset
      (true, key_section) refl found_outside
