-- ===== src/Elf.antt =====
-- src/elf.c and src/light_elf.h: the place of a section in an ELF file. The structures are read from
-- the mapped file in the byte order of the host, which is little-endian here. A mapping says for each
-- index which byte is read; `none` is a read outside, which the host does not allow.
pub mod Section
pub mod Frame
pub mod Size
pub mod Dump
pub mod Sample
mod Tests
use appimagetool.Base.{
  ℕ, zero, suc, ◌+◌, ◌-◌, ◌*◌, ◌/◌, Bool, true, false, Option, none, some, [], ◌∷◌, ltb, ◌==◌,
  if◌then◌else◌, length, get_elem?, Bytes, ◌>>=◌,
}

-- What the two out parameters hold: the offset and the length of a section.
pub record Extent : Type 0 where
  pub offset : ℕ
  pub size : ℕ

abbrev pub Memory : Type 0
Memory = ℕ → Option ℕ

abbrev pub page_size : ℕ
page_size = 4096

-- Behind the end of the file the host gives null bytes, up to the end of the last page.
abbrev pub padded : ℕ → ℕ → Option ℕ → Option ℕ
padded size i none =
    if ltb i ((size + (page_size - 1)) / page_size * page_size) then some 0 else none
padded size i (some b) = some b

-- The mapping of a file.
abbrev pub mapping : Bytes → Memory
mapping file i = padded (length file) i (get_elem? file i)

-- An unsigned field of `n` bytes at `at`.
unfoldable pub read_le : ℕ → ℕ → Memory → Option ℕ
read_le zero at file = some 0
read_le (suc n) at file = do low ← file at; high ← read_le n (at + 1) file; some (low + 256 * high)

-- Where `Elf32_Ehdr`, `Elf32_Shdr` and their 64-bit counterparts have the fields that are read, and
-- the width of the fields for offsets and sizes. `e_shnum` and `e_shstrndx` have 2 bytes, `sh_name`
-- has 4 and stands first.
pub record Class : Type 0 where
  pub width : ℕ
  pub e_shoff : ℕ
  pub e_shnum : ℕ
  pub e_shstrndx : ℕ
  pub sh_offset : ℕ
  pub sh_size : ℕ
  pub shdr_bytes : ℕ

abbrev pub elf32 : Class
elf32 = record {
  width = 4;
  e_shoff = 32;
  e_shnum = 48;
  e_shstrndx = 50;
  sh_offset = 16;
  sh_size = 20;
  shdr_bytes = 40;
}

abbrev pub elf64 : Class
elf64 = record {
  width = 8;
  e_shoff = 40;
  e_shnum = 60;
  e_shstrndx = 62;
  sh_offset = 24;
  sh_size = 32;
  shdr_bytes = 64;
}

abbrev pub ei_class : ℕ
ei_class = 4

-- `strcmp(data + at, name) == 0`, which reads up to the first byte that differs.
unfoldable pub strcmp_at : Memory → ℕ → Bytes → Option Bool
strcmp_at file at [] = do b ← file at; some (b == 0)
strcmp_at file at (c ∷ name) = elim (file at) [
  | none ↦ none
  | some b ↦ let rest = strcmp_at file (at + 1) name in if b == c then rest else some false
]

module _ (c : Class) (file : Memory) where
  -- `shdr[i]` stands at this place.
  abbrev pub shdr_at : ℕ → ℕ → ℕ
  shdr_at shoff i = shoff + i * c.shdr_bytes

  unfoldable pub read_extent : ℕ → Option Extent
  read_extent at = do
    offset ← read_le c.width (at + c.sh_offset) file
    size ← read_le c.width (at + c.sh_size) file
    some (record { offset = offset; size = size })

  module _ (shoff str_tab : ℕ) (name : Bytes) where
    -- The `for` loop from index `i` with `left` rounds left.
    unfoldable pub section_loop : ℕ → ℕ → Extent → Option Extent
    section_loop zero i out = some out
    section_loop (suc left) i out = do
      sh_name ← read_le 4 (shdr_at shoff i) file
      same ← strcmp_at file (str_tab + sh_name) name
      found ← if same then read_extent (shdr_at shoff i) else some out
      section_loop left (i + 1) found

  -- The branch for one class.
  unfoldable pub find_section : Bytes → Extent → Option Extent
  find_section name out = do
    shoff ← read_le c.width c.e_shoff file
    shstrndx ← read_le 2 c.e_shstrndx file
    str_tab ← read_le c.width (shdr_at shoff shstrndx + c.sh_offset) file
    shnum ← read_le 2 c.e_shnum file
    section_loop shoff str_tab name shnum 0 out

abbrev pub returns_true : Option Extent → Option (Bool × Extent)
returns_true none = none
returns_true (some out) = some (true, out)

-- The return value with the out parameters. The file is `none` if it cannot be opened: then the
-- mapping fails too, and the read of the class is a fault.
unfoldable pub get_elf_section_offset_and_length :
    Option Memory → Bytes → Extent → Option (Bool × Extent)
get_elf_section_offset_and_length none name out = none
get_elf_section_offset_and_length (some file) name out = elim (file ei_class) [
  | none ↦ none
  | some class ↦
      if class == 1
      then returns_true (find_section elf32 file name out)
      else if class == 2
      then returns_true (find_section elf64 file name out)
      else some (false, out)
]
