-- ===== src/Sign/Pieces.antt =====
-- src/appimagetool_sign.c, `embed_data_in_elf_section`: data that arrive in two pieces.
use appimagetool.Base.{
  ℕ, zero, suc, ◌+◌, ◌≤◌, ◌<◌, ◌≡◌, refl, sym, ap, ◌∙◌, some, List, [], ◌∷◌, ◌++◌, arith, length,
  take, drop, length-take, write_at, length-write_at, take_all, Bytes,
}
use appimagetool.Digest.{Extent}
use appimagetool.Embed.{overwrite}
use appimagetool.Embed.Write.{take-drop-overwrite}
use appimagetool.Sign.{Data, Disk, succeeded, embed_data_in_elf_section}
use appimagetool.Sign.Write.{IsWell, delivered, read_twice}

module _ {ℓ} {A : Type ℓ} where
  -- The first part of a longer front.
  take-take_le : (n m : ℕ) (xs : List A) → n ≤ m → take n (take m xs) ≡ take n xs
  take-take_le zero m xs h = refl
  take-take_le (suc n) zero xs h = absurd (omega arith)
  take-take_le (suc n) (suc m) [] h = refl
  take-take_le (suc n) (suc m) (x ∷ xs) h = rw (take-take_le n m xs (omega arith))

  take-append_length : (xs ys : List A) → take (length xs) (xs ++ ys) ≡ xs
  take-append_length [] ys = refl
  take-append_length (x ∷ xs) ys = rw (take-append_length xs ys)

  take-drop-take :
      (n p m : ℕ) (xs : List A) → n ≤ m → take n (drop p xs) ≡ take n (take m (drop p xs))
  take-drop-take n p m xs h = sym (take-take_le n m (drop p xs) h)

-- Where the data object gives its data in two reads, of at least one byte each, and nothing
-- fails, the function returns true, but the second piece stands at the start of the section. The
-- section is found, has room for the data and lies in the file, which is smaller than 2^63 bytes;
-- three rounds of the loop are enough.
pub embed_data_in_elf_section_in_pieces :
    (object : Data) (disk : Disk) (file : Bytes) (fuel : ℕ) (elf_section stack front back : Bytes)
    (e : Extent)
    → IsWell object disk file elf_section e
    → object.read 0 object.end ≡ some front
    → object.read 1 object.end ≡ some back
    → object.read 2 object.end ≡ some []
    → 0 < length front
    → 0 < length back
    → length front + length back ≡ object.end
    → length stack ≡ object.end
    → (changed : Bytes) × (embed_data_in_elf_section object disk file
          (suc (suc (suc fuel)))
          elf_section
          stack
        ≡ some (succeeded changed))
      × (take (length back) (drop e.offset changed) ≡ back)
embed_data_in_elf_section_in_pieces object disk file fuel elf_section stack front back e well first
      second third some_bytes more all size =
    let room = well.room in
    let inside = well.inside in
    let small = well.small in
    let buffer = write_at 0 back (write_at 0 front stack) in
    let one : length (write_at 0 front stack) ≡ length stack =
      length-write_at 0 front stack (omega arith) in
    let two : length buffer ≡ length (write_at 0 front stack) =
      length-write_at 0 back (write_at 0 front stack) (omega arith) in
    let bytes = take object.end buffer in
    let whole : bytes ≡ buffer = take_all object.end buffer (omega arith) in
    let full : length bytes ≡ object.end = omega (arith, length-take object.end buffer) in
    let changed = overwrite file e.offset bytes in
    (
      changed,
      delivered object disk file (suc (suc (suc fuel))) elf_section stack buffer e well (
          read_twice object fuel front back stack first second third some_bytes more all
            (omega arith)),
      take-drop-take (length back) e.offset (length bytes) changed (omega arith)
          ∙ ap (take (length back)) (take-drop-overwrite e.offset bytes file (omega arith))
          ∙ ap (take (length back)) whole
          ∙ take-append_length back (drop (0 + length back) (write_at 0 front stack)),
    )
