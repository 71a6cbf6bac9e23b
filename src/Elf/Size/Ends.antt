-- ===== src/Elf/Size/Ends.antt =====
-- src/light_byteswap.h and src/elf.c: the swaps reverse bytes, and the end that is computed.
use appimagetool.Base.{
  ℕ, zero, suc, ◌+◌, ◌-◌, ◌*◌, ◌/◌, ◌%◌, ◌^◌, ◌≤◌, ◌<◌, ◌≡◌, refl, ◌∙◌, ◌≢◌, ◌⊎◌, inl, inr, false,
  some, [], ◌∷◌, arith, ◌==◌, if◌then◌else◌, ltb→lt, lt→ltb, Bool-cases, length, take, drop, All,
  length-take, length-drop, Bytes, add64, is_neg64,
}
use native.Mathlib.Nat.{mul-le-mul_left}
use appimagetool.Elf.Size.{
  elf_data_native, static_ei_data, file16_to_cpu, shape64, read_elf64, bswap_16, bswap_32, bswap_64,
  file64_to_cpu, le_value, field_of, Shape, shape32, fread_all, Table, gt64, read_table,
  last_shdr_offset, last_section_end, elf_end, read_elf,
}

-- The swap of the first two bytes, as a number.
bswap_16-le_value : (a b : ℕ) → a < 256 → b < 256 → bswap_16 (a + 256 * b) ≡ b + 256 * a
unfolding bswap_16
bswap_16-le_value a b ha hb = omega arith

bswap_32-le_value :
    (a b : ℕ)
    → a < 2 ^ 16
    → b < 2 ^ 16
    → bswap_32 (a + 2 ^ 16 * b) ≡ bswap_16 b + 2 ^ 16 * bswap_16 a
unfolding bswap_32
bswap_32-le_value a b ha hb =
    let low : (a + 2 ^ 16 * b) % 2 ^ 16 ≡ a = omega arith in
    let high : (a + 2 ^ 16 * b) / 2 ^ 16 % 2 ^ 16 ≡ b = omega arith in rw (low, high) (omega arith)

bswap_64-le_value :
    (a b : ℕ)
    → a < 2 ^ 32
    → b < 2 ^ 32
    → bswap_64 (a + 2 ^ 32 * b) ≡ bswap_32 b + 2 ^ 32 * bswap_32 a
unfolding bswap_64
bswap_64-le_value a b ha hb =
    let low : (a + 2 ^ 32 * b) % 2 ^ 32 ≡ a = omega arith in
    let high : (a + 2 ^ 32 * b) / 2 ^ 32 % 2 ^ 32 ≡ b = omega arith in rw (low, high) (omega arith)

-- The swap of a 64-bit number reverses its eight bytes.
pub bswap_64-reverses :
    (a b c d e f g h : ℕ)
    → All (λ n. n < 256) (a ∷ b ∷ c ∷ d ∷ e ∷ f ∷ g ∷ h ∷ [])
    → bswap_64 (le_value (a ∷ b ∷ c ∷ d ∷ e ∷ f ∷ g ∷ h ∷ []))
      ≡ le_value (h ∷ g ∷ f ∷ e ∷ d ∷ c ∷ b ∷ a ∷ [])
bswap_64-reverses a b c d e f g h (la, (lb, (lc, (ld, (le, (lf, (lg, (lh, _)))))))) =
    let ab = a + 256 * b in
    let cd = c + 256 * d in
    let ef = e + 256 * f in
    let gh = g + 256 * h in
    let low = ab + 2 ^ 16 * cd in
    let high = ef + 2 ^ 16 * gh in
    let parts : le_value (a ∷ b ∷ c ∷ d ∷ e ∷ f ∷ g ∷ h ∷ []) ≡ low + 2 ^ 32 * high = omega arith in
    rw
      (
        parts,
        bswap_64-le_value low high (omega arith) (omega arith),
        bswap_32-le_value ab cd (omega arith) (omega arith),
        bswap_32-le_value ef gh (omega arith) (omega arith),
        bswap_16-le_value a b la lb,
        bswap_16-le_value c d lc ld,
        bswap_16-le_value e f le lf,
        bswap_16-le_value g h lg lh,
      )
      (omega arith)

-- The swap of a number below 2^32 as if it had 64 bits.
bswap_32-zero : bswap_32 0 ≡ 0
unfolding bswap_32 bswap_16
bswap_32-zero = refl

bswap_64-small : (v : ℕ) → v < 2 ^ 32 → bswap_64 v ≡ bswap_32 v * 2 ^ 32
unfolding bswap_64
bswap_64-small v small =
    let low : v % 2 ^ 32 ≡ v = omega arith in
    let high : v / 2 ^ 32 % 2 ^ 32 ≡ 0 = omega arith in rw (low, high, bswap_32-zero) (omega arith)

-- In the 32-bit structure of a file in the other byte order, the end of the last section is computed
-- as 2^32 times the sum of the offset and the size, which are swapped as if they had 64 bits: the
-- low half of the result is zero.
pub last_section_end-foreign :
    (ei_data : ℕ) (shdr : Bytes)
    → ei_data ≢ elf_data_native
    → field_of 16 4 shdr < 2 ^ 32
    → field_of 20 4 shdr < 2 ^ 32
    → last_section_end shape32 ei_data shdr
      ≡ (bswap_32 (field_of 16 4 shdr) + bswap_32 (field_of 20 4 shdr)) % 2 ^ 32 * 2 ^ 32
unfolding last_section_end file64_to_cpu
last_section_end-foreign ei_data shdr foreign first second =
    let no_native : (ei_data == elf_data_native) ≡ false = ground arith in
    rw
      (
        no_native,
        bswap_64-small (field_of 16 4 shdr) first,
        bswap_64-small (field_of 20 4 shdr) second,
      )
      (omega arith)

-- The larger of two ends, as the code chooses it.
gt64-larger :
    (a b : ℕ)
    → a < 2 ^ 63
    → b < 2 ^ 63
    → (a ≤ (if gt64 a b then a else b))
      × (b ≤ (if gt64 a b then a else b))
      × (((if gt64 a b then a else b) ≡ a) ⊎ ((if gt64 a b then a else b) ≡ b))
gt64-larger a b ha hb =
    let raised : add64 a 0x8000_0000_0000_0000 ≡ a + 0x8000_0000_0000_0000 = omega arith in
    let raised' : add64 b 0x8000_0000_0000_0000 ≡ b + 0x8000_0000_0000_0000 = omega arith in
    elim (Bool-cases (gt64 a b)) [
      | inl more ↦
          let less = ltb→lt (add64 b 0x8000_0000_0000_0000) (add64 a 0x8000_0000_0000_0000) more in
          rw more (omega arith, omega arith, inl refl)
      | inr less ↦ rw less (ground arith, omega arith, inr refl)
    ]

-- The ends of the table of section headers and of a section, without a wrap.
abbrev pub table_end : Table → ℕ
table_end t = t.shoff + t.shentsize * t.shnum

abbrev pub section_end : Shape → ℕ → Bytes → ℕ
section_end shape ei_data shdr =
    file64_to_cpu ei_data (field_of shape.sh_offset shape.width shdr)
    + file64_to_cpu ei_data (field_of shape.sh_size shape.width shdr)

-- Where the last section header stands.
abbrev pub last_header : Table → ℕ
last_header t = t.shoff + t.shentsize * (t.shnum - 1)

last_header-le : (t : Table) → last_header t ≤ table_end t
last_header-le t =
    let fewer : t.shnum - 1 ≤ t.shnum = omega arith in
    let product = mul-le-mul_left t.shentsize fewer in omega (arith, product)

-- The larger of the two ends, as the conversions give them.
read_elf-ends :
    (shape : Shape) (file ehdr shdr : Bytes)
    → fread_all 0 shape.ehdr_bytes file ≡ some ehdr
    → fread_all (last_header (read_table shape static_ei_data ehdr)) shape.shdr_bytes file
      ≡ some shdr
    → 0 < (read_table shape static_ei_data ehdr).shnum
    → (read_table shape static_ei_data ehdr).shentsize
        * (read_table shape static_ei_data ehdr).shnum
      < 2 ^ 31
    → table_end (read_table shape static_ei_data ehdr) < 2 ^ 63
    → section_end shape static_ei_data shdr < 2 ^ 63
    → (result : ℕ) × (read_elf shape file ≡ some result)
      × (table_end (read_table shape static_ei_data ehdr) ≤ result)
      × (section_end shape static_ei_data shdr ≤ result)
      × ((result ≡ table_end (read_table shape static_ei_data ehdr))
          ⊎ (result ≡ section_end shape static_ei_data shdr))
unfolding read_elf last_shdr_offset elf_end last_section_end
read_elf-ends shape file ehdr shdr head last has_sections no_overflow table_fits section_fits =
    let t = read_table shape static_ei_data ehdr in
    let a = table_end t in
    let b = section_end shape static_ei_data shdr in
    let below = last_header-le t in
    let first : t.shentsize * (t.shnum - 1) < 2 ^ 31 = omega (arith, below) in
    let (table_first, section_first, one) = gt64-larger a b table_fits section_fits in
    let some_sections : (t.shnum == 0) ≡ false = ground arith in
    let header : add64 t.shoff (t.shentsize * (t.shnum - 1)) ≡ last_header t = omega arith in
    let above : is_neg64 (last_header t) ≡ false = ground arith in
    let whole_table : add64 t.shoff (t.shentsize * t.shnum) ≡ a = omega arith in
    let whole_section : last_section_end shape static_ei_data shdr ≡ b = omega arith in
    (
      if gt64 a b then a else b,
      rw
          (
            head,
            read_elf,
            some_sections,
            header,
            above,
            last,
            lt→ltb (t.shentsize * (t.shnum - 1)) (2 ^ 31) first,
            lt→ltb (t.shentsize * t.shnum) (2 ^ 31) no_overflow,
            whole_table,
            whole_section,
          )
          refl,
      table_first,
      section_first,
      one,
    )

-- The value of a field with its high byte first.
abbrev pub be_onto : ℕ → Bytes → ℕ
be_onto n [] = n
be_onto n (b ∷ bytes) = be_onto (256 * n + b) bytes

abbrev pub be_field : ℕ → ℕ → Bytes → ℕ
be_field at n structure = be_onto 0 (take n (drop at structure))

abbrev pub IsByte : ℕ → Type 0
IsByte b = b < 256

All-take : (n : ℕ) (xs : Bytes) → All IsByte xs → All IsByte (take n xs)
All-take zero xs h = tt
All-take (suc n) [] h = tt
All-take (suc n) (x ∷ xs) h = (h.0, All-take n xs h.1)

All-drop : (n : ℕ) (xs : Bytes) → All IsByte xs → All IsByte (drop n xs)
All-drop zero xs h = h
All-drop (suc n) [] h = tt
All-drop (suc n) (x ∷ xs) h = All-drop n xs h.1

swapped_64 : (xs : Bytes) → length xs ≡ 8 → All IsByte xs → bswap_64 (le_value xs) ≡ be_onto 0 xs
swapped_64 (a ∷ b ∷ c ∷ d ∷ e ∷ f ∷ g ∷ h ∷ []) size bytes =
    bswap_64-reverses a b c d e f g h bytes ∙ omega arith
swapped_64 [] size bytes = absurd (omega arith)
swapped_64 (a ∷ []) size bytes = absurd (omega arith)
swapped_64 (a ∷ b ∷ []) size bytes = absurd (omega arith)
swapped_64 (a ∷ b ∷ c ∷ []) size bytes = absurd (omega arith)
swapped_64 (a ∷ b ∷ c ∷ d ∷ []) size bytes = absurd (omega arith)
swapped_64 (a ∷ b ∷ c ∷ d ∷ e ∷ []) size bytes = absurd (omega arith)
swapped_64 (a ∷ b ∷ c ∷ d ∷ e ∷ f ∷ []) size bytes = absurd (omega arith)
swapped_64 (a ∷ b ∷ c ∷ d ∷ e ∷ f ∷ g ∷ []) size bytes = absurd (omega arith)
swapped_64 (a ∷ b ∷ c ∷ d ∷ e ∷ f ∷ g ∷ h ∷ x ∷ xs) size bytes = absurd (omega arith)

swapped_16 : (xs : Bytes) → length xs ≡ 2 → All IsByte xs → bswap_16 (le_value xs) ≡ be_onto 0 xs
unfolding bswap_16
swapped_16 [] size bytes = absurd (omega arith)
swapped_16 (a ∷ []) size bytes = absurd (omega arith)
swapped_16 (a ∷ b ∷ []) size (la, (lb, _)) = omega arith
swapped_16 (a ∷ b ∷ x ∷ xs) size bytes = absurd (omega arith)

-- A field of a structure that is long enough.
module _ (at : ℕ) (structure : Bytes) (bytes : All IsByte structure) where
  file64_to_cpu-be_field :
      at + 8 ≤ length structure
      → file64_to_cpu static_ei_data (field_of at 8 structure) ≡ be_field at 8 structure
  unfolding file64_to_cpu
  file64_to_cpu-be_field inside =
      swapped_64 (take 8 (drop at structure))
        (omega (arith, length-take 8 (drop at structure), length-drop at structure))
        (All-take 8 (drop at structure) (All-drop at structure bytes))

  file16_to_cpu-be_field :
      at + 2 ≤ length structure
      → file16_to_cpu static_ei_data (field_of at 2 structure) ≡ be_field at 2 structure
  unfolding file16_to_cpu
  file16_to_cpu-be_field inside =
      swapped_16 (take 2 (drop at structure))
        (omega (arith, length-take 2 (drop at structure), length-drop at structure))
        (All-take 2 (drop at structure) (All-drop at structure bytes))

length-fread_all :
    (position n : ℕ) (file got : Bytes) → fread_all position n file ≡ some got → length got ≡ n
length-fread_all position n file got h = ground arith

-- The three fields of `Elf64_Ehdr`, and the end of the section of an `Elf64_Shdr`, with the high byte
-- first.
abbrev pub be_table : Bytes → Table
be_table ehdr = record {
  shoff = be_field 40 8 ehdr;
  shentsize = be_field 58 2 ehdr;
  shnum = be_field 60 2 ehdr;
}

abbrev pub be_section_end : Bytes → ℕ
be_section_end shdr = be_field 24 8 shdr + be_field 32 8 shdr

read_table-be_table :
    (ehdr : Bytes)
    → length ehdr ≡ 64
    → All IsByte ehdr
    → read_table shape64 static_ei_data ehdr ≡ be_table ehdr
unfolding read_table
read_table-be_table ehdr long bytes =
    let shoff = file64_to_cpu-be_field 40 ehdr bytes (omega arith) in
    let shentsize = file16_to_cpu-be_field 58 ehdr bytes (omega arith) in
    let shnum = file16_to_cpu-be_field 60 ehdr bytes (omega arith) in
    rw (shoff, shentsize, shnum) refl

-- For a 64-bit file with the high byte first, the result is the end of the table of section headers
-- or that of the last section, whichever is larger, if the header of the file and the last section
-- header can be read, there is a section, and the numbers do not overflow.
pub read_elf64-ends :
    (file ehdr shdr : Bytes)
    → fread_all 0 64 file ≡ some ehdr
    → fread_all (last_header (be_table ehdr)) 64 file ≡ some shdr
    → All IsByte ehdr
    → All IsByte shdr
    → 0 < (be_table ehdr).shnum
    → (be_table ehdr).shentsize * (be_table ehdr).shnum < 2 ^ 31
    → table_end (be_table ehdr) < 2 ^ 63
    → be_section_end shdr < 2 ^ 63
    → (result : ℕ) × (read_elf64 file ≡ some result)
      × (table_end (be_table ehdr) ≤ result)
      × (be_section_end shdr ≤ result)
      × ((result ≡ table_end (be_table ehdr)) ⊎ (result ≡ be_section_end shdr))
unfolding read_elf64
read_elf64-ends file ehdr shdr head last ehdr_bytes shdr_bytes has_sections no_overflow table_fits
      section_fits =
    let long = length-fread_all 0 64 file ehdr head in
    let long' = length-fread_all (last_header (be_table ehdr)) 64 file shdr last in
    let offset = file64_to_cpu-be_field 24 shdr shdr_bytes (omega arith) in
    let size = file64_to_cpu-be_field 32 shdr shdr_bytes (omega arith) in
    let t : read_table shape64 static_ei_data ehdr ≡ be_table ehdr =
      read_table-be_table ehdr long ehdr_bytes in
    let e : section_end shape64 static_ei_data shdr ≡ be_section_end shdr =
      rw (offset, size) refl in
    let whole =
      read_elf-ends shape64 file ehdr shdr head (rw t last) (rw t has_sections) (rw t no_overflow)
        (rw t table_fits) (rw e section_fits) in
    rw (t, e) at whole
