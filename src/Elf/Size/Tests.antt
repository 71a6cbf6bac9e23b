-- ===== src/Elf/Size/Tests.antt =====
-- src/elf.c: the ends of small files with one section, with the high byte first.
use appimagetool.Base.{
  ℕ, ◌+◌, ◌*◌, ◌%◌, ◌^◌, ◌≤◌, ◌≡◌, refl, ◌⊎◌, Bool, true, ◌&&◌, some, [], ◌∷◌, ◌++◌, arith, ltb,
  ltb→lt, replicate, All, Bytes,
}
use appimagetool.Elf.Size.{
  bswap_16, bswap_32, bswap_64, file16_to_cpu, file32_to_cpu, file64_to_cpu, field_of, shape32,
  read_table, last_shdr_offset, last_section_end, elf_end, read_elf, read_elf32, read_elf64,
}
use appimagetool.Elf.Size.Ends.{
  IsByte, be_table, be_section_end, last_section_end-foreign, table_end, read_elf64-ends,
}

-- A section of 8 bytes at 92, behind the header of the file and the one section header.
abbrev big_shdr : Bytes
big_shdr = replicate 16 0 ++ (0 ∷ 0 ∷ 0 ∷ 92 ∷ 0 ∷ 0 ∷ 0 ∷ 8 ∷ replicate 16 0)

abbrev big_ehdr : Bytes
big_ehdr =
    (0x7f ∷ b'E' ∷ b'L' ∷ b'F' ∷ 1 ∷ 2 ∷ 1 ∷ replicate 25 0)
    ++ (0 ∷ 0 ∷ 0 ∷ 52 ∷ (replicate 10 0 ++ (0 ∷ 40 ∷ 0 ∷ 1 ∷ 0 ∷ 0 ∷ [])))

abbrev big_file : Bytes
big_file = big_ehdr ++ (big_shdr ++ replicate 8 7)

-- The same with the structures for 64 bits, and the section at 128.
abbrev wide_shdr : Bytes
wide_shdr = replicate 24 0 ++ (replicate 7 0 ++ (128 ∷ replicate 7 0 ++ (8 ∷ replicate 24 0)))

abbrev wide_ehdr : Bytes
wide_ehdr =
    (0x7f ∷ b'E' ∷ b'L' ∷ b'F' ∷ 2 ∷ 2 ∷ 1 ∷ replicate 33 0)
    ++ (replicate 7 0 ++ (64 ∷ replicate 10 0 ++ (0 ∷ 64 ∷ 0 ∷ 1 ∷ 0 ∷ 0 ∷ [])))

abbrev wide_file : Bytes
wide_file = wide_ehdr ++ (wide_shdr ++ replicate 8 7)

abbrev are_bytes : Bytes → Bool
are_bytes [] = true
are_bytes (b ∷ bytes) = ltb b 256 && are_bytes bytes

are_bytes-All : (bytes : Bytes) → are_bytes bytes ≡ true → All IsByte bytes
are_bytes-All [] h = tt
are_bytes-All (b ∷ bytes) h =
    let (small, rest) = both (ltb b 256) (are_bytes bytes) h in
    (ltb→lt b 256 small, are_bytes-All bytes rest)
  where
    both : (x y : Bool) → (x && y) ≡ true → (x ≡ true) × (y ≡ true)
    both x y k = ground arith

read_elf64-ends_example :
    (result : ℕ) × (read_elf64 wide_file ≡ some result)
    × (table_end (be_table wide_ehdr) ≤ result)
    × (be_section_end wide_shdr ≤ result)
    × ((result ≡ table_end (be_table wide_ehdr)) ⊎ (result ≡ be_section_end wide_shdr))
read_elf64-ends_example =
    read_elf64-ends wide_file wide_ehdr wide_shdr refl refl (are_bytes-All wide_ehdr refl)
      (are_bytes-All wide_shdr refl) (omega arith) (omega arith) (omega arith) (omega arith)

-- The whole file is 136 bytes long.
wide_end : read_elf64 wide_file ≡ some 136
unfolding read_elf64 read_elf read_table file16_to_cpu file64_to_cpu last_shdr_offset elf_end
    last_section_end bswap_16 bswap_32 bswap_64
wide_end = refl

-- The 32-bit file is 100 bytes long.
big_end : read_elf32 big_file ≡ some (100 * 2 ^ 32)
unfolding read_elf32 read_elf read_table file16_to_cpu file32_to_cpu file64_to_cpu last_shdr_offset
    elf_end last_section_end bswap_16 bswap_32 bswap_64
big_end = refl

last_section_end-foreign_example :
    last_section_end shape32 2 big_shdr
    ≡ (bswap_32 (field_of 16 4 big_shdr) + bswap_32 (field_of 20 4 big_shdr)) % 2 ^ 32 * 2 ^ 32
last_section_end-foreign_example =
    last_section_end-foreign 2 big_shdr (λ same. omega arith) (omega arith) (omega arith)
