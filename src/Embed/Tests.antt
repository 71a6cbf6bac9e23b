-- ===== src/Embed/Tests.antt =====
-- src/appimagetool.c, `main`: the two steps on a small file.
use appimagetool.Base.{
  ℕ, ◌≤◌, ◌<◌, ◌≡◌, refl, inl, inr, Bool, true, false, some, [], ◌∷◌, ◌++◌, arith, ◌==◌,
  if◌then◌else◌, Bool-cases, length, take, drop, replicate, All, Bytes, codes,
}
use appimagetool.Elf.{
  get_elf_section_offset_and_length, find_section, section_loop, read_extent, strcmp_at, read_le,
}
use appimagetool.Elf.Sample.{
  before_digest, no_digest_yet, behind_digest, digest_section, signature_section, key_section,
  information_section, information_file,
}
use appimagetool.Glib.Sample.{sample}
use appimagetool.UpdateInfo.{is_recognised}
use appimagetool.Digest.{lookup, appimage_type2_digest_md5}
use appimagetool.Digest.Sample.{
  toy, fresh_stack, length-fresh_stack, length-toy, sample-IsPlaced, sample_small,
}
use appimagetool.Embed.{Io, embedded, overwrite, embed_update_information, embed_md5_digest}
use appimagetool.Elf.Dump.{appimage_print_binary}
use appimagetool.Embed.Shown.{appimage_print_binary-embed_update_information}
use appimagetool.Embed.Write.{
  OnlyInside, embed_update_information_lem, embed_update_information-OnlyInside,
}
use appimagetool.Embed.Stable.{IsSound, FoundOutside, embed_md5_digest_lem}

abbrev sample_file : Bytes
sample_file = before_digest ++ (no_digest_yet ++ behind_digest)

abbrev all_well : Io
all_well = record { opens = true; space = 100 }

digest_found : FoundOutside 246 16 sample_file (codes ".digest_md5") digest_section
unfolding get_elf_section_offset_and_length find_section section_loop read_extent strcmp_at read_le
digest_found = refl

signature_found : FoundOutside 246 16 sample_file (codes ".sha256_sig") signature_section
unfolding get_elf_section_offset_and_length find_section section_loop read_extent strcmp_at read_le
signature_found = refl

key_found : FoundOutside 246 16 sample_file (codes ".sig_key") key_section
unfolding get_elf_section_offset_and_length find_section section_loop read_extent strcmp_at read_le
key_found = refl

sample-IsSound :
    IsSound before_digest no_digest_yet behind_digest digest_section signature_section key_section
sample-IsSound = record {
  digest_found = digest_found;
  signature_found = signature_found;
  key_found = key_found;
  offset = refl;
  size = refl;
  room = omega arith;
  behind = omega arith;
  placed = sample-IsPlaced;
  small = sample_small;
}

embed_md5_digest_lem_example :
    (d changed : Bytes) × (embed_md5_digest toy fresh_stack all_well sample_file
      ≡ some (embedded changed))
    × (appimage_type2_digest_md5 toy changed fresh_stack ≡ some (some d))
    × (take 16 (drop 246 changed) ≡ d)
    × OnlyInside 246 16 sample_file changed
embed_md5_digest_lem_example =
    embed_md5_digest_lem toy fresh_stack all_well before_digest no_digest_yet behind_digest
      digest_section signature_section key_section sample-IsSound length-toy length-fresh_stack refl
      (omega arith)

abbrev information : Bytes
information = codes "zsync|https://example.org/A.zsync"

information_found : lookup information_file (codes ".upd_info") ≡ some (true, information_section)
unfolding get_elf_section_offset_and_length find_section section_loop read_extent strcmp_at read_le
information_found = refl

information_known : is_recognised sample information ≡ true
unfolding is_recognised
information_known = refl

embed_update_information_lem_example :
    (changed : Bytes) × (embed_update_information sample all_well information information_file
      ≡ some (embedded changed))
    × OnlyInside 143 (length information) information_file changed
    × (take (length information) (drop 143 changed) ≡ information)
embed_update_information_lem_example =
    embed_update_information_lem sample all_well information information_file information_section
      information_found (omega arith) (omega arith) (omega arith) (omega arith) (omega arith)
      (omega arith) information_known refl

abbrev with_information : Bytes
with_information = take 143 information_file ++ (information ++ replicate 47 0)

information_written :
    embed_update_information sample all_well information information_file
    ≡ some (embedded with_information)
unfolding embed_update_information is_recognised get_elf_section_offset_and_length find_section
    section_loop read_extent strcmp_at read_le overwrite
information_written = refl

embed_update_information-OnlyInside_example :
    OnlyInside 143 64 information_file with_information
    × (length information ≤ 64)
    × (is_recognised sample information ≡ true)
embed_update_information-OnlyInside_example =
    embed_update_information-OnlyInside sample all_well information information_file
      with_information true information_section information_found (omega arith) (omega arith)
      information_written

abbrev no_null : Bytes → Bool
no_null [] = true
no_null (b ∷ bytes) = if b == 0 then false else no_null bytes

no_null-All : (bytes : Bytes) → no_null bytes ≡ true → All (λ b. 0 < b) bytes
no_null-All [] h = tt
no_null-All (b ∷ bytes) h = elim (Bool-cases (b == 0)) [
  | inl null ↦ let bad : false ≡ true = rw null at h in cc
  | inr more ↦ (ground arith, no_null-All bytes (rw more at h))
]

abbrev has_memory : ℕ → Bool
has_memory n = true

appimage_print_binary-embed_update_information_example :
    (changed : Bytes) × (embed_update_information sample all_well information information_file
      ≡ some (embedded changed))
    × (appimage_print_binary (some changed) has_memory 143 64 ≡ some (0, information ++ codes "\n"))
appimage_print_binary-embed_update_information_example =
    appimage_print_binary-embed_update_information sample all_well information information_file
      information_section has_memory information_found refl (no_null-All information refl)
      (omega arith) (omega arith) (omega arith) (omega arith) (omega arith) (omega arith)
      information_known refl refl
