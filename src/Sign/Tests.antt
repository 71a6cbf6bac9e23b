-- ===== src/Sign/Tests.antt =====
-- src/appimagetool_sign.c: a signature of six bytes in one piece and in two, and the hash of a file.
use appimagetool.Base.{
  ℕ, zero, suc, ◌≡◌, refl, sym, true, Option, none, some, [], ◌∷◌, ◌++◌, append_assoc, arith, take,
  drop, replicate, length-take, Bytes, codes,
}
use appimagetool.Elf.{
  get_elf_section_offset_and_length, find_section, section_loop, read_extent, strcmp_at, read_le,
}
use appimagetool.Elf.Sample.{information_file, information_section}
use appimagetool.Digest.{lookup}
use appimagetool.Embed.{overwrite}
use appimagetool.Embed.Write.{OnlyInside}
use appimagetool.Hexlify.Laws.{unhex}
use appimagetool.Sign.{
  Data, Disk, failed, succeeded, read_loop, write_section, write_read, embed_data_in_elf_section,
}
use appimagetool.Sign.Write.{
  IsWell, ReadsWithin, embed_data_in_elf_section-OnlyInside, embed_data_in_elf_section_lem,
}
use appimagetool.Sign.Pieces.{embed_data_in_elf_section_in_pieces}
use appimagetool.Sign.Hash.{
  Gcrypt, Source, IsGcrypt, calculate_sha256_hex_digest, calculate_sha256_hex_digest_lem,
}

abbrev signature : Bytes
signature = codes "signed"

abbrev fresh_buffer : Bytes
fresh_buffer = replicate 6 0

abbrev in_one : ℕ → ℕ → Option Bytes
in_one zero n = some (take n signature)
in_one (suc i) n = some []

abbrev whole_object : Data
whole_object = record { end = 6; rewinds = true; read = in_one }

abbrev in_two : ℕ → ℕ → Option Bytes
in_two zero n = some (codes "sig")
in_two (suc zero) n = some (codes "ned")
in_two (suc (suc i)) n = some []

abbrev object_in_two : Data
object_in_two = record { end = 6; rewinds = true; read = in_two }

abbrev good_disk : Disk
good_disk = record { opens = true; written = 6; closes = true }

section_found : lookup information_file (codes ".upd_info") ≡ some (true, information_section)
unfolding get_elf_section_offset_and_length find_section section_loop read_extent strcmp_at read_le
section_found = refl

all_well :
    (object : Data)
    → object.end ≡ 6
    → object.rewinds ≡ true
    → IsWell object good_disk information_file (codes ".upd_info") information_section
all_well object six rewinds = record {
  found = section_found;
  placed = omega arith;
  room = omega arith;
  some_bytes = omega arith;
  inside = omega arith;
  small = omega arith;
  rewinds = rewinds;
  opens = refl;
  written = sym six;
  closes = refl;
}

embed_data_in_elf_section_lem_example :
    (changed : Bytes) × (embed_data_in_elf_section whole_object good_disk information_file 2
        (codes ".upd_info")
        fresh_buffer
      ≡ some (succeeded changed))
    × OnlyInside 143 64 information_file changed
    × (take 6 (drop 143 changed) ≡ signature)
embed_data_in_elf_section_lem_example =
    embed_data_in_elf_section_lem whole_object good_disk information_file 0 (codes ".upd_info")
      fresh_buffer signature information_section (all_well whole_object refl refl) refl refl
      (omega arith) refl refl

embed_data_in_elf_section_in_pieces_example :
    (changed : Bytes) × (embed_data_in_elf_section object_in_two good_disk information_file 3
        (codes ".upd_info")
        fresh_buffer
      ≡ some (succeeded changed))
    × (take 3 (drop 143 changed) ≡ codes "ned")
embed_data_in_elf_section_in_pieces_example =
    embed_data_in_elf_section_in_pieces object_in_two good_disk information_file 0
      (codes ".upd_info") fresh_buffer (codes "sig") (codes "ned") information_section
      (all_well object_in_two refl refl) refl refl refl (omega arith) (omega arith) refl refl

-- A disk that is full after four bytes.
abbrev full_disk : Disk
full_disk = record { opens = true; written = 4; closes = true }

abbrev half_written : Bytes
half_written = overwrite information_file 143 (codes "sign")

cut_short :
    embed_data_in_elf_section whole_object full_disk information_file 2
      (codes ".upd_info")
      fresh_buffer
    ≡ some (failed half_written)
unfolding embed_data_in_elf_section write_read write_section read_loop
    get_elf_section_offset_and_length find_section section_loop read_extent strcmp_at read_le
cut_short = refl

whole_object-ReadsWithin : ReadsWithin whole_object
whole_object-ReadsWithin zero n bytes h =
    let same : take n signature ≡ bytes = cc in rw (← same) (omega (arith, length-take n signature))
whole_object-ReadsWithin (suc i) n bytes h = let same : [] ≡ bytes = cc in rw (← same) (omega arith)

embed_data_in_elf_section-OnlyInside_example : OnlyInside 143 64 information_file half_written
embed_data_in_elf_section-OnlyInside_example =
    embed_data_in_elf_section-OnlyInside whole_object full_disk information_file 2
      (codes ".upd_info") fresh_buffer (failed half_written) true information_section section_found
      (omega arith) whole_object-ReadsWithin refl cut_short

-- A hash that keeps the first byte and the length.
abbrev recorder : Gcrypt
recorder = record {
  Handle = Bytes;
  check_version = true;
  open_handle = some [];
  write = λ h bytes. h ++ bytes;
  final = λ h. some h;
  read = λ h. some (take 2 h);
  digest_size = 2;
}

recorder-IsGcrypt : IsGcrypt recorder
recorder-IsGcrypt = record { write-append = λ h a b. append_assoc h a b }

abbrev good_source : Source
good_source = record { opens = true; error_at = none; closes = true }

calculate_sha256_hex_digest_lem_example :
    (text : Bytes) × (calculate_sha256_hex_digest recorder (replicate 5000 9) good_source
      ≡ some (some text))
    × (unhex text ≡ some (9 ∷ 9 ∷ []))
calculate_sha256_hex_digest_lem_example =
    calculate_sha256_hex_digest_lem recorder recorder-IsGcrypt (replicate 5000 9) good_source []
      (replicate 5000 9) (9 ∷ 9 ∷ []) refl refl refl refl refl refl refl
      (omega arith, (omega arith, tt))
