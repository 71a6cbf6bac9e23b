-- ===== src/Package/Sample/Runtime.antt =====
-- src/appimagetool.c, `main`: the small runtime is one.
use appimagetool.Base.{◌≡◌, refl, inr, [], ◌++◌, arith, length, codes}
use appimagetool.Package.Sample.{roomy_system, signing_options, sample_places}
use appimagetool.Elf.{
  get_elf_section_offset_and_length, find_section, section_loop, read_extent, strcmp_at, read_le,
}
use appimagetool.Elf.Sample.{
  update_place, digest_place, signature_section, key_section, runtime_file,
}
use appimagetool.Package.{next, load_runtime, read_file}
use appimagetool.Package.Runtime.{Finds, IsRuntime}

update_is : Finds sample_places runtime_file (codes ".upd_info") update_place
unfolding get_elf_section_offset_and_length find_section section_loop read_extent strcmp_at read_le
update_is = refl

digest_is : Finds sample_places runtime_file (codes ".digest_md5") digest_place
unfolding get_elf_section_offset_and_length find_section section_loop read_extent strcmp_at read_le
digest_is = refl

signature_is : Finds sample_places runtime_file (codes ".sha256_sig") signature_section
unfolding get_elf_section_offset_and_length find_section section_loop read_extent strcmp_at read_le
signature_is = refl

key_is : Finds sample_places runtime_file (codes ".sig_key") key_section
unfolding get_elf_section_offset_and_length find_section section_loop read_extent strcmp_at read_le
key_is = refl

pub runtime_file-IsRuntime : IsRuntime sample_places runtime_file
runtime_file-IsRuntime = record {
  update_found = update_is;
  digest_found = digest_is;
  signature_found = signature_is;
  key_found = key_is;
  placed = record {
    digest_ends = (omega arith, omega arith);
    signature_ends = (omega arith, omega arith);
    key_ends = (omega arith, omega arith);
    digest_signature = inr (inr (λ e. omega arith));
    digest_key = inr (inr (λ e. omega arith));
    signature_key = inr (inr (λ e. omega arith));
  };
  update_inside = omega arith;
  digest_inside = omega arith;
  signature_inside = omega arith;
  key_inside = omega arith;
  digest_behind = omega arith;
  signature_behind = omega arith;
  key_behind = omega arith;
  room = omega arith;
  signature_bytes = omega arith;
  key_bytes = omega arith;
}

pub runtime_loaded :
    load_runtime signing_options.runtime_file roomy_system.download
    ≡ next (length runtime_file, runtime_file ++ [])
unfolding load_runtime read_file
runtime_loaded = refl
