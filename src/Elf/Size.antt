-- ===== src/Elf/Size.antt =====
-- src/light_byteswap.h and src/elf.c, `read_elf32` and `read_elf64`: where an ELF file ends. The
-- host is little-endian.
pub mod Ends
mod Tests
use appimagetool.Base.{
  ℕ, ◌+◌, ◌-◌, ◌*◌, ◌/◌, ◌%◌, ◌^◌, Bool, Option, none, some, [], ◌∷◌, ltb, ◌==◌, if◌then◌else◌,
  length, take, drop, Bytes, u64_mod, add64, sub64, is_neg64,
}

-- The swaps. The two halves that `|` joins have no bit in common, so it is a sum.
unfoldable pub bswap_16 : ℕ → ℕ
bswap_16 value = value % 2 ^ 8 * 2 ^ 8 + value / 2 ^ 8

unfoldable pub bswap_32 : ℕ → ℕ
unfolding bswap_16
bswap_32 value = bswap_16 (value % 2 ^ 16) * 2 ^ 16 + bswap_16 (value / 2 ^ 16 % 2 ^ 16)

unfoldable pub bswap_64 : ℕ → ℕ
unfolding bswap_32
bswap_64 value = bswap_32 (value % 2 ^ 32) * 2 ^ 32 + bswap_32 (value / 2 ^ 32 % 2 ^ 32)

-- `ELFDATA2LSB`, the byte order of the host.
abbrev pub elf_data_native : ℕ
elf_data_native = 1

-- The conversions; the argument is `ehdr.e_ident[EI_DATA]`.
unfoldable pub file16_to_cpu : ℕ → ℕ → ℕ
file16_to_cpu ei_data val = if ei_data == elf_data_native then val else bswap_16 val

unfoldable pub file32_to_cpu : ℕ → ℕ → ℕ
file32_to_cpu ei_data val = if ei_data == elf_data_native then val else bswap_32 val

unfoldable pub file64_to_cpu : ℕ → ℕ → ℕ
file64_to_cpu ei_data val = if ei_data == elf_data_native then val else bswap_64 val

-- The value of a field, as the host reads it, and the field of a structure that has been read.
abbrev pub le_value : Bytes → ℕ
le_value [] = 0
le_value (b ∷ bytes) = b + 256 * le_value bytes

abbrev pub field_of : ℕ → ℕ → Bytes → ℕ
field_of at n structure = le_value (take n (drop at structure))

-- What the two functions differ in: the sizes of the structures, the places of their fields, and the
-- conversion of `e_shoff`.
pub record Shape : Type 0 where
  pub ehdr_bytes : ℕ
  pub shdr_bytes : ℕ
  pub width : ℕ
  pub e_shoff : ℕ
  pub e_shentsize : ℕ
  pub e_shnum : ℕ
  pub sh_offset : ℕ
  pub sh_size : ℕ
  pub shoff_to_cpu : ℕ → ℕ → ℕ

-- `fread(…, 1, n, fd)`, from a position; `none` if it gives fewer bytes.
abbrev pub fread_all : ℕ → ℕ → Bytes → Option Bytes
fread_all position n file =
    let got = take n (drop position file) in if length got == n then some got else none

-- `fseeko(fd, offset, SEEK_SET)` at a position: an offset below zero is refused, which nobody looks
-- at.
abbrev pub fseeko : ℕ → ℕ → ℕ
fseeko position offset = if is_neg64 offset then position else offset

-- The three fields that the functions keep, converted.
pub record Table : Type 0 where
  pub shoff : ℕ
  pub shentsize : ℕ
  pub shnum : ℕ

-- `a > b` for the patterns of two numbers of type `off_t`.
abbrev pub gt64 : ℕ → ℕ → Bool
gt64 a b = ltb (add64 b 0x8000_0000_0000_0000) (add64 a 0x8000_0000_0000_0000)

abbrev pub minus_one : ℕ
minus_one = u64_mod - 1

module _ (shape : Shape) (ei_data : ℕ) where
  unfoldable pub read_table : Bytes → Table
  read_table ehdr = record {
    shoff = shape.shoff_to_cpu ei_data (field_of shape.e_shoff shape.width ehdr);
    shentsize = file16_to_cpu ei_data (field_of shape.e_shentsize 2 ehdr);
    shnum = file16_to_cpu ei_data (field_of shape.e_shnum 2 ehdr);
  }

  -- `e_shoff + (e_shentsize * (e_shnum - 1))`: the product is an `int`, below zero where `e_shnum` is
  -- zero, and below 2^31 where it is used.
  unfoldable pub last_shdr_offset : Table → ℕ
  last_shdr_offset t =
      if t.shnum == 0
      then sub64 t.shoff t.shentsize
      else add64 t.shoff (t.shentsize * (t.shnum - 1))

  unfoldable pub last_section_end : Bytes → ℕ
  last_section_end shdr =
      add64 (file64_to_cpu ei_data (field_of shape.sh_offset shape.width shdr))
        (file64_to_cpu ei_data (field_of shape.sh_size shape.width shdr))

  -- From the read of the last section header on.
  unfoldable pub elf_end : Table → Option Bytes → Option ℕ
  elf_end t none = some minus_one
  elf_end t (some shdr) =
      let sht_end = add64 t.shoff (t.shentsize * t.shnum) in
      let section_end = last_section_end shdr in
      if ltb (t.shentsize * t.shnum) (2 ^ 31)
      then some (if gt64 sht_end section_end then sht_end else section_end)
      else none

abbrev pub shape32 : Shape
shape32 = record {
  ehdr_bytes = 52;
  shdr_bytes = 40;
  width = 4;
  e_shoff = 32;
  e_shentsize = 46;
  e_shnum = 48;
  sh_offset = 16;
  sh_size = 20;
  shoff_to_cpu = file32_to_cpu;
}

abbrev pub shape64 : Shape
shape64 = record {
  ehdr_bytes = 64;
  shdr_bytes = 64;
  width = 8;
  e_shoff = 40;
  e_shentsize = 58;
  e_shnum = 60;
  sh_offset = 24;
  sh_size = 32;
  shoff_to_cpu = file64_to_cpu;
}

-- `ehdr.e_ident[EI_DATA]` of the static variable, which nothing sets.
abbrev pub static_ei_data : ℕ
static_ei_data = 0

-- The pattern of what is returned; `none` where a product overflows an `int`, which C leaves
-- undefined.
unfoldable pub read_elf : Shape → Bytes → Option ℕ
read_elf shape file = elim (fread_all 0 shape.ehdr_bytes file) [
  | none ↦ some minus_one
  | some ehdr ↦
      let t = read_table shape static_ei_data ehdr in
      let position = fseeko shape.ehdr_bytes (last_shdr_offset shape static_ei_data t) in
      let shdr = fread_all position shape.shdr_bytes file in
      if ltb (t.shentsize * (t.shnum - 1)) (2 ^ 31)
      then elf_end shape static_ei_data t shdr
      else none
]

unfoldable pub read_elf32 : Bytes → Option ℕ
read_elf32 file = read_elf shape32 file

unfoldable pub read_elf64 : Bytes → Option ℕ
read_elf64 file = read_elf shape64 file
