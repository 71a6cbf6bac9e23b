-- ===== src/Package/Tests.antt =====
-- src/appimagetool.c, `main`: an AppImage of a small runtime and four bytes behind it is signed.
use appimagetool.Base.{
  ◌≡◌, refl, inl, true, false, none, some, [], arith, length, take, drop, Bytes, codes,
}
use appimagetool.Package.Sample.Runtime.{runtime_file-IsRuntime, runtime_loaded}
use appimagetool.Package.Sample.{key_owner, roomy_system, signing_options, sample_places}
use appimagetool.Elf.{
  get_elf_section_offset_and_length, find_section, section_loop, read_extent, strcmp_at, read_le,
}
use appimagetool.Elf.Sample.{signature_section, key_section, runtime_file}
use appimagetool.UpdateInfo.{is_recognised}
use appimagetool.Digest.{
  appimage_type2_digest_md5, digest_md5, digest_loop, round, read_rest, skip_section, read_into,
  pass_section, begins_here, skip_pending,
}
use appimagetool.Digest.Sample.{length-fresh_stack, length-toy}
use appimagetool.Embed.{overwrite, embed_update_information, embed_md5_digest, write_digest}
use appimagetool.Squashfs.{
  decimal, print_int, compression_args, ignore_args, exclude_args, time_args, mksquashfs_args,
  parent_succeeds, sfs_mksquashfs,
}
use appimagetool.Sign.Sealed.Sample.{binding-IsGpgme, binding-IsGenerous}
use appimagetool.Hexlify.{hexlify, hexlify_loop, hex_pair, hex_digit}
use appimagetool.Sign.{read_loop, write_section, write_read, embed_data_in_elf_section}
use appimagetool.Sign.Hash.{hash_loop, calculate_sha256_hex_digest}
use appimagetool.Sign.Run.{init_gcrypt, gpg_release_resources}
use appimagetool.Sign.Steps.{
  check_engine, find_key, add_signers, check_sign_result, hash_step, context_steps, signature_steps,
  embed_step, export_step, sign_appimage,
}
use appimagetool.Package.{
  Progress, dies, crashes, next, squashfs_request, make_image, decide_update_information,
  embed_info, embed_digest, sign_step, make_zsync, package_app_dir, load_runtime, read_file,
  embed_elf,
}
use appimagetool.Sign.Branches.{final_settings}
use appimagetool.Sign.Verified.{emptied}
use appimagetool.Sign.Stands.{IsSigned}
use appimagetool.Package.Checked.{
  IsApart, package_app_dir-IsSigned, package_app_dir-update_information,
}
use appimagetool.Package.Finished.{IsFinished, package_app_dir-IsFinished}

abbrev bytes_of : Progress Bytes → Bytes
bytes_of (next file) = file
bytes_of dies = []
bytes_of crashes = []

abbrev finished : Bytes
finished = bytes_of (
    package_app_dir roomy_system signing_options (codes "AppDir") (codes "App.AppImage")
      (codes "App") (codes "x86_64"))

package_done :
    package_app_dir roomy_system signing_options
      (codes "AppDir")
      (codes "App.AppImage")
      (codes "App")
      (codes "x86_64")
    ≡ next finished
unfolding package_app_dir make_image load_runtime read_file embed_elf parent_succeeds sfs_mksquashfs
    mksquashfs_args squashfs_request print_int decimal compression_args ignore_args exclude_args
    time_args decide_update_information embed_info embed_update_information is_recognised make_zsync
    embed_digest embed_md5_digest write_digest appimage_type2_digest_md5 digest_md5 digest_loop
    round read_rest skip_section read_into pass_section begins_here skip_pending overwrite
    get_elf_section_offset_and_length find_section section_loop read_extent strcmp_at read_le
    sign_step sign_appimage hash_step context_steps signature_steps embed_step export_step
    check_engine find_key add_signers check_sign_result gpg_release_resources init_gcrypt
    calculate_sha256_hex_digest hash_loop hexlify hexlify_loop hex_pair hex_digit
    embed_data_in_elf_section read_loop write_section write_read
package_done = refl

package_app_dir-IsFinished_example :
    IsFinished roomy_system signing_options
      (codes "AppDir")
      (codes "App.AppImage")
      (codes "App")
      (codes "x86_64")
      sample_places
      runtime_file
      finished
package_app_dir-IsFinished_example =
    package_app_dir-IsFinished roomy_system signing_options (codes "AppDir") (codes "App.AppImage")
      (codes "App") (codes "x86_64") sample_places runtime_file [] length-toy length-fresh_stack
      binding-IsGpgme runtime_file-IsRuntime (omega arith) (omega arith) runtime_loaded
      (λ args. omega arith) finished package_done

places-IsApart : IsApart sample_places
places-IsApart = record {
  update_digest = inl (omega arith);
  update_signature = inl (omega arith);
  update_key = inl (omega arith);
}

package_app_dir-IsSigned_example :
    IsSigned key_owner.gcrypt key_owner.source key_owner.gpgme
      (final_settings false none)
      signature_section
      key_section
      (emptied signature_section (emptied key_section finished))
      finished
package_app_dir-IsSigned_example =
    package_app_dir-IsSigned roomy_system signing_options (codes "AppDir") (codes "App.AppImage")
      (codes "App") (codes "x86_64") sample_places runtime_file [] length-toy length-fresh_stack
      binding-IsGpgme runtime_file-IsRuntime places-IsApart (omega arith) (omega arith)
      runtime_loaded (λ args. omega arith) finished refl binding-IsGenerous refl refl package_done

abbrev wanted : Bytes
wanted = codes "zsync|https://a.b/App.zsync"

wanted_decided :
    decide_update_information roomy_system signing_options
      (codes "AppDir")
      (codes "App.AppImage")
      (codes "App")
      (codes "x86_64")
    ≡ next (some wanted)
unfolding decide_update_information
wanted_decided = refl

package_app_dir-update_information_example :
    (is_recognised roomy_system.glib wanted ≡ true)
    × (take (length wanted) (drop 296 finished) ≡ wanted)
package_app_dir-update_information_example =
    package_app_dir-update_information roomy_system signing_options (codes "AppDir")
      (codes "App.AppImage") (codes "App") (codes "x86_64") sample_places runtime_file [] length-toy
      length-fresh_stack binding-IsGpgme runtime_file-IsRuntime places-IsApart (omega arith)
      (omega arith) runtime_loaded (λ args. omega arith) wanted finished wanted_decided
      (omega arith) package_done
