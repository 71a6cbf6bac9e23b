-- ===== src/Elf/Dump.antt =====
-- src/elf.c, `appimage_print_hex` and `appimage_print_binary`: the bytes of a section on the standard
-- output.
pub mod Texts
mod Tests
use appimagetool.Hexlify.{hex_digit}
use appimagetool.Base.{
  ℕ, zero, suc, ◌+◌, ◌-◌, ◌/◌, ◌%◌, ◌^◌, Bool, Option, none, some, [], ◌∷◌, ◌++◌, ltb, ◌==◌,
  if◌then◌else◌, length, take, drop, replicate, Bytes, codes, u64_mod, is_neg64,
}

-- The buffer that is read, a null pointer, or a fault.
pub data Read : Type 0 where
  buffer : Bytes → Read
  null : Read
  no_memory : Read

-- Bytes that are read to a null pointer: a fault, unless there are none.
abbrev pub to_null : Bytes → Read
to_null [] = null
to_null (b ∷ bytes) = no_memory

-- `fseek` takes the offset as a `long`: one below zero is refused, which nobody looks at, and the file
-- is read from its start. What `calloc` gives is not looked at either; a size that wraps to 0 leaves
-- no room for the null that is read. What the file does not give stays zero.
unfoldable pub read_file_offset_length : Option Bytes → (ℕ → Bool) → ℕ → ℕ → Read
read_file_offset_length none allocates offset size = null
read_file_offset_length (some file) allocates offset size =
    let position = if is_neg64 offset then 0 else offset in
    let bytes = take size (drop position file) in
    if ltb (size + 1) u64_mod
    then (if allocates (size + 1)
        then buffer (bytes ++ replicate (size + 1 - length bytes) 0)
        else to_null bytes)
    else no_memory

-- A string up to its null.
unfoldable pub c_string : Bytes → Bytes
c_string [] = []
c_string (b ∷ bytes) = if b == 0 then [] else b ∷ c_string bytes

-- The digits of `%x`, for a number of at most so many digits.
unfoldable pub hex_number : ℕ → ℕ → Bytes
hex_number zero n = []
hex_number (suc places) n =
    let front = hex_number places (n / 16) in
    if ltb n 16 then hex_digit n ∷ [] else front ++ (hex_digit (n % 16) ∷ [])

-- A `char`, which has a sign, as the `unsigned int` that `%x` takes.
abbrev pub as_unsigned : ℕ → ℕ
as_unsigned b = if ltb b 128 then b else 2 ^ 32 - (256 - b)

-- The loop from one index on, with so many bytes left.
unfoldable pub print_loop : ℕ → Bytes → Bytes
print_loop zero bytes = []
print_loop (suc left) [] = []
print_loop (suc left) (b ∷ bytes) =
    let rest = print_loop left bytes in if b == 0 then [] else hex_number 8 (as_unsigned b) ++ rest

-- What is returned and printed; `none` is a fault.
unfoldable pub appimage_print_hex : Option Bytes → (ℕ → Bool) → ℕ → ℕ → Option (ℕ × Bytes)
appimage_print_hex file allocates offset size =
    elim (read_file_offset_length file allocates offset size) [
      | null ↦ some (1, [])
      | no_memory ↦ none
      | buffer data_ ↦ some (0, print_loop size data_ ++ codes "\n")
    ]

unfoldable pub appimage_print_binary : Option Bytes → (ℕ → Bool) → ℕ → ℕ → Option (ℕ × Bytes)
appimage_print_binary file allocates offset size =
    elim (read_file_offset_length file allocates offset size) [
      | null ↦ some (1, [])
      | no_memory ↦ none
      | buffer data_ ↦ some (0, c_string data_ ++ codes "\n")
    ]
