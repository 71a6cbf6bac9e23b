-- ===== src/Sign/Sealed/Tests.antt =====
-- src/appimagetool_sign.c, `sign_appimage`: a run that signs a small file.
use appimagetool.Base.{
  ℕ, ◌≡◌, refl, true, false, none, some, [], ◌∷◌, arith, length-replicate, Bytes, codes,
}
use appimagetool.Sign.Sealed.Sample.{
  sample_file, object_of, constant, agreeable, good_source, disk_of, buffer_of, settings0,
  agreeable-IsGpgme, summing, binding, binding-IsGpgme, binding-IsGenerous,
}
use appimagetool.Elf.{
  get_elf_section_offset_and_length, find_section, section_loop, read_extent, strcmp_at, read_le,
}
use appimagetool.Elf.Sample.{digest_section, signature_section, key_section}
use appimagetool.Digest.{nowhere, appimage_type2_digest_md5}
use appimagetool.Digest.Sample.{toy, fresh_stack, length-fresh_stack, sample-IsPlaced}
use appimagetool.Embed.{overwrite}
use appimagetool.Hexlify.{hexlify, hexlify_loop, hex_pair, hex_digit}
use appimagetool.Sign.Agreed.{IsAgreed, sign_appimage-IsAgreed}
use appimagetool.Sign.Branches.{final_settings}
use appimagetool.Sign.{succeeded, read_loop, write_section, write_read, embed_data_in_elf_section}
use appimagetool.Sign.Hash.{hash_loop, calculate_sha256_hex_digest}
use appimagetool.Sign.Run.{World, init_gcrypt, gpg_release_resources, Outcome, returned}
use appimagetool.Sign.Steps.{
  unparsed, parsed, check_engine, find_key, add_signers, check_sign_result, hash_step,
  context_steps, signature_steps, embed_step, export_step, sign_appimage,
}
use appimagetool.Sign.Done.{HoldsNothing}
use appimagetool.Sign.Complete.{nothing_held, sign_appimage-releases}
use appimagetool.Sign.Stands.{IsSigned, sign_appimage-IsSigned}
use appimagetool.Sign.Sealed.{IsSealable, without, sign_appimage-digest}

abbrev sample_run : Outcome (Unit {0}) × World
sample_run =
    sign_appimage constant good_source agreeable 9 none false none (disk_of 4) buffer_of (disk_of 5)
      buffer_of (nothing_held sample_file settings0)

run_returns :
    sign_appimage constant good_source agreeable 9 none false none
      (disk_of 4)
      buffer_of
      (disk_of 5)
      buffer_of
      (nothing_held sample_file settings0)
    ≡ (returned true, sample_run.1)
unfolding sign_appimage hash_step context_steps signature_steps embed_step export_step check_engine
    find_key add_signers check_sign_result gpg_release_resources init_gcrypt
    calculate_sha256_hex_digest hash_loop hexlify hexlify_loop hex_pair hex_digit
    embed_data_in_elf_section read_loop write_section write_read get_elf_section_offset_and_length
    find_section section_loop read_extent strcmp_at read_le overwrite
run_returns = refl

sign_appimage-releases_example : HoldsNothing sample_run.1
sign_appimage-releases_example =
    sign_appimage-releases constant good_source agreeable 9 none false none (disk_of 4) buffer_of
      (disk_of 5) buffer_of sample_file settings0 true sample_run.1 run_returns

digest_is :
    get_elf_section_offset_and_length
      (some (without signature_section key_section sample_file))
      (codes ".digest_md5")
      nowhere
    ≡ some (true, digest_section)
unfolding get_elf_section_offset_and_length find_section section_loop read_extent strcmp_at read_le
digest_is = refl

signature_is :
    get_elf_section_offset_and_length
      (some (without signature_section key_section sample_file))
      (codes ".sha256_sig")
      nowhere
    ≡ some (true, signature_section)
unfolding get_elf_section_offset_and_length find_section section_loop read_extent strcmp_at read_le
signature_is = refl

key_is :
    get_elf_section_offset_and_length
      (some (without signature_section key_section sample_file))
      (codes ".sig_key")
      nowhere
    ≡ some (true, key_section)
unfolding get_elf_section_offset_and_length find_section section_loop read_extent strcmp_at read_le
key_is = refl

sample-IsSealable : IsSealable sample_file digest_section signature_section key_section
sample-IsSealable = record {
  digest_found = digest_is;
  signature_found = signature_is;
  key_found = key_is;
  placed = sample-IsPlaced;
  signature_inside = omega arith;
  key_inside = omega arith;
  signature_behind = omega arith;
  key_behind = omega arith;
  signature_bytes = omega arith;
  key_bytes = omega arith;
  small = omega (arith, length-replicate {A = ℕ} 8100 7);
}

sign_appimage-digest_example :
    appimage_type2_digest_md5 toy sample_run.1.file fresh_stack
    ≡ appimage_type2_digest_md5 toy sample_file fresh_stack
sign_appimage-digest_example =
    sign_appimage-digest constant good_source agreeable 9 none false none (disk_of 4) buffer_of
      (disk_of 5) buffer_of sample_file settings0 sample_run.1 toy fresh_stack digest_section
      signature_section key_section agreeable-IsGpgme length-fresh_stack sample-IsSealable
      run_returns

abbrev bound_run : Outcome (Unit {0}) × World
bound_run =
    sign_appimage summing good_source binding 9 none false none (disk_of 7) buffer_of (disk_of 6)
      buffer_of (nothing_held sample_file settings0)

bound_run_returns :
    sign_appimage summing good_source binding 9 none false none
      (disk_of 7)
      buffer_of
      (disk_of 6)
      buffer_of
      (nothing_held sample_file settings0)
    ≡ (returned true, bound_run.1)
unfolding sign_appimage hash_step context_steps signature_steps embed_step export_step check_engine
    find_key add_signers check_sign_result gpg_release_resources init_gcrypt
    calculate_sha256_hex_digest hash_loop hexlify hexlify_loop hex_pair hex_digit
    embed_data_in_elf_section read_loop write_section write_read get_elf_section_offset_and_length
    find_section section_loop read_extent strcmp_at read_le overwrite
bound_run_returns = refl

sign_appimage-IsSigned_example :
    IsSigned summing good_source binding
      (final_settings false none)
      signature_section
      key_section
      sample_file
      bound_run.1.file
sign_appimage-IsSigned_example =
    sign_appimage-IsSigned summing good_source binding 9 none false none (disk_of 7) buffer_of
      (disk_of 6) buffer_of sample_file settings0 bound_run.1 digest_section signature_section
      key_section binding-IsGpgme binding-IsGenerous sample-IsSealable bound_run_returns

agreeable-IsAgreed :
    IsAgreed agreeable none
      (codes "first")
      (record { matches = false; version = unparsed }
        ∷ record { matches = true; version = parsed 2 4 }
        ∷ [])
      (record { matches = true; version = parsed 2 4 })
      4
agreeable-IsAgreed = record {
  is_new_enough = refl;
  has_context = refl;
  has_engines = refl;
  has_engine = refl;
  has_version = refl;
  has_flag = refl;
  has_key = (refl, refl);
  has_signer = refl;
  has_text = λ text. refl;
  has_sig_data = refl;
  has_one = refl;
  has_key_data = refl;
}

abbrev with_sample_signature : Bytes
with_sample_signature = overwrite sample_file signature_section.offset (codes "abcd")

abbrev sealed_sample : Bytes
sealed_sample = overwrite with_sample_signature key_section.offset (codes "first")

sample_digits :
    calculate_sha256_hex_digest constant sample_file good_source ≡ some (some (codes "abcd"))
unfolding calculate_sha256_hex_digest hash_loop hexlify hexlify_loop hex_pair hex_digit
sample_digits = refl

signature_written :
    embed_data_in_elf_section
      (object_of (codes "abcd"))
      (disk_of 4)
      sample_file
      9
      (codes ".sha256_sig")
      (buffer_of 4)
    ≡ some (succeeded with_sample_signature)
unfolding embed_data_in_elf_section read_loop write_section write_read
    get_elf_section_offset_and_length find_section section_loop read_extent strcmp_at read_le
    overwrite
signature_written = refl

key_written :
    embed_data_in_elf_section
      (object_of (codes "first"))
      (disk_of 5)
      with_sample_signature
      9
      (codes ".sig_key")
      (buffer_of 5)
    ≡ some (succeeded sealed_sample)
unfolding embed_data_in_elf_section read_loop write_section write_read
    get_elf_section_offset_and_length find_section section_loop read_extent strcmp_at read_le
    overwrite
key_written = refl

sign_appimage-IsAgreed_example :
    sign_appimage constant good_source agreeable 9 none false none
      (disk_of 4)
      buffer_of
      (disk_of 5)
      buffer_of
      (nothing_held sample_file settings0)
    ≡ (
      returned true,
      record (nothing_held sealed_sample (final_settings false none)) { gcrypt_initialized = true },
    )
sign_appimage-IsAgreed_example =
    sign_appimage-IsAgreed constant good_source agreeable 9 none (codes "first")
      (record { matches = false; version = unparsed }
        ∷ record { matches = true; version = parsed 2 4 }
        ∷ [])
      (record { matches = true; version = parsed 2 4 }) 4 agreeable-IsAgreed false none (disk_of 4)
      buffer_of (disk_of 5) buffer_of sample_file settings0 (codes "abcd")
      (object_of (codes "abcd")) (object_of (codes "first")) with_sample_signature sealed_sample
      sample_digits refl signature_written refl key_written
