-- ===== src/Elf/Sample.antt =====
-- A small 32-bit ELF file, as src/light_elf.h lays it out: the header, four section headers, the
-- table of the sections' names, and three sections, each in a chunk of its own.
use appimagetool.Base.{ℕ, ◌/◌, ◌%◌, ◌≡◌, refl, [], ◌∷◌, ◌++◌, length, replicate, Bytes, codes}
use appimagetool.Elf.{Extent}

-- A field of 4 bytes, for a small number.
abbrev field : ℕ → Bytes
field n = n % 256 ∷ n / 256 ∷ 0 ∷ 0 ∷ []

-- `Elf32_Shdr`
abbrev section_header : ℕ → Extent → Bytes
section_header sh_name e =
    field sh_name ++ (replicate 12 0 ++ (field e.offset ++ (field e.size ++ replicate 16 0)))

abbrev pub digest_section : Extent
digest_section = record { offset = 246; size = 16 }

abbrev pub signature_section : Extent
signature_section = record { offset = 4200; size = 8 }

abbrev pub key_section : Extent
key_section = record { offset = 8300; size = 8 }

-- `Elf32_Ehdr`, with the section headers at 52.
abbrev header : ℕ → Bytes
header e_shnum =
    (0x7f ∷ b'E' ∷ b'L' ∷ b'F' ∷ 1 ∷ 1 ∷ 1 ∷ [])
    ++ (replicate 25 0 ++ (field 52 ++ (replicate 12 0 ++ (e_shnum ∷ 0 ∷ 0 ∷ 0 ∷ []))))

abbrev names : Bytes
names =
    (0 ∷ codes ".digest_md5") ++ ((0 ∷ codes ".sha256_sig") ++ ((0 ∷ codes ".sig_key") ++ (0 ∷ [])))

abbrev pub before_digest : Bytes
before_digest =
    header 4
    ++ (section_header 0 (record { offset = 212; size = 34 })
        ++ (section_header 1 digest_section
            ++ (section_header 13 signature_section ++ (section_header 25 key_section ++ names))))

abbrev pub behind_digest : Bytes
behind_digest = replicate 8100 7

abbrev pub no_digest_yet : Bytes
no_digest_yet = replicate 16 0

-- A file with a place for the update information.
abbrev pub information_section : Extent
information_section = record { offset = 143; size = 64 }

abbrev pub information_file : Bytes
information_file =
    header 2
    ++ (section_header 0 (record { offset = 132; size = 11 })
        ++ (section_header 1 information_section
            ++ ((0 ∷ codes ".upd_info") ++ (0 ∷ replicate 80 0))))

-- A runtime with all four sections, each behind the names.
abbrev pub update_place : Extent
update_place = record { offset = 296; size = 64 }

abbrev pub digest_place : Extent
digest_place = record { offset = 360; size = 16 }

abbrev all_names : Bytes
all_names =
    (0 ∷ codes ".upd_info")
    ++ ((0 ∷ codes ".digest_md5")
        ++ ((0 ∷ codes ".sha256_sig") ++ ((0 ∷ codes ".sig_key") ++ (0 ∷ []))))

abbrev pub runtime_file : Bytes
runtime_file =
    header 5
    ++ (section_header 0 (record { offset = 252; size = 44 })
        ++ (section_header 1 update_place
            ++ (section_header 11 digest_place
                ++ (section_header 23 signature_section
                    ++ (section_header 35 key_section ++ (all_names ++ replicate 8100 0))))))

length-runtime_file : length runtime_file ≡ 8396
length-runtime_file = refl

length-before_digest : length before_digest ≡ 246
length-before_digest = refl
