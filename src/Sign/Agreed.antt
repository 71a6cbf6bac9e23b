-- ===== src/Sign/Agreed.antt =====
-- src/appimagetool_sign.c, `sign_appimage`: the run in which no call fails.
use appimagetool.Base.{ℕ, ◌≡◌, refl, Bool, true, false, Option, none, some, List, Bytes, codes}
use appimagetool.Sign.{Data, Disk, succeeded, embed_data_in_elf_section}
use appimagetool.Sign.Hash.{Gcrypt, Source, calculate_sha256_hex_digest}
use appimagetool.Sign.Run.{
  acquire, Settings, World, ok, returned, init_gcrypt, gpg_release_resources, gpg_check_call,
}
use appimagetool.Sign.Steps.{
  parsed, Engine, Gpgme, find_engine, check_engine, find_key, add_signers, called, finish_signing,
  check_sign_result, hash_step, context_steps, signature_steps, embed_step, export_step,
  sign_appimage,
}
use appimagetool.Sign.Done.{slot}
use appimagetool.Sign.Branches.{final_settings}
use appimagetool.Sign.Complete.{nothing_held}

-- The key that `add_signers` looks for is there.
abbrev IsGiven : (gpg : Gpgme) → gpg.Key → Option Bytes → Type 0
IsGiven gpg key (some key_id) = gpg.get_key key_id ≡ some key
IsGiven gpg key none = (gpg.keylist_start ≡ true) × (gpg.keylist_next ≡ some key)

-- GPGME answers every call, its engine has the version 2 and the key has an object of its own.
pub record IsAgreed (gpg : Gpgme) (key_id : Option Bytes) (key : gpg.Key) (engines : List Engine)
    (engine : Engine) (minor : ℕ) : Type 0 where
  pub is_new_enough : gpg.check_version ≡ true
  pub has_context : gpg.new ≡ true
  pub has_engines : gpg.get_engine_info ≡ some engines
  pub has_engine : find_engine engines ≡ some engine
  pub has_version : engine.version ≡ parsed 2 minor
  pub has_flag : gpg.set_ctx_flag ≡ true
  pub has_key : IsGiven gpg key key_id
  pub has_signer : gpg.signers_add key ≡ true
  pub has_text : (text : Bytes) → gpg.data_new_from_mem text ≡ true
  pub has_sig_data : gpg.sig_data_new ≡ true
  pub has_one : gpg.sign_result ≡ some 1
  pub has_key_data : gpg.key_data_new ≡ true

gpg_check_call-true : (b : Bool) (w : World) → b ≡ true → gpg_check_call b w ≡ (ok tt, w)
gpg_check_call-true b w e = rw e

-- The first call of `init_gcrypt`, with nothing to release.
initialized :
    (check_version : Bool) (file : Bytes) (s : Settings)
    → init_gcrypt check_version (nothing_held file s)
      ≡ (check_version, record (nothing_held file s) { gcrypt_initialized = check_version })
unfolding init_gcrypt gpg_release_resources
initialized true file s = refl
initialized false file s = refl

module _ (g : Gcrypt) (source : Source) (gpg : Gpgme) (fuel : ℕ) (key_id : Option Bytes)
    (key : gpg.Key) (engines : List Engine) (engine : Engine) (minor : ℕ)
    (agreed : IsAgreed gpg key_id key engines engine minor) where
  find_key-IsGiven :
      (k : Option Bytes) (w : World)
      → IsGiven gpg key k
      → find_key gpg k w ≡ (ok key, record w { gpgme_key = acquire w.gpgme_key })
  unfolding find_key
  find_key-IsGiven none w (starts, next) = rw (starts, next)
  find_key-IsGiven (some id) w gives = rw gives

  context_steps-IsAgreed :
      (verbose : Bool) (passphrase : Option Bytes) (w : World)
      → context_steps g source gpg fuel verbose passphrase w ≡ (
        ok tt,
        record w { gpgme_ctx = acquire w.gpgme_ctx; settings = final_settings verbose passphrase },
      )
  unfolding context_steps check_engine
  context_steps-IsAgreed true passphrase w = rw (
    agreed.has_context, agreed.has_engines, agreed.has_engine, agreed.has_version, agreed.has_flag,
  )
  context_steps-IsAgreed false passphrase w =
      rw (agreed.has_context, agreed.has_engines, agreed.has_engine, agreed.has_version)

  hash_step-some :
      (file : Bytes) (s : Settings) (hex_digest : Bytes)
      → calculate_sha256_hex_digest g file source ≡ some (some hex_digest)
      → hash_step g source gpg fuel (nothing_held file s)
        ≡ (ok hex_digest, record (nothing_held file s) { gcrypt_initialized = g.check_version })
  unfolding hash_step
  hash_step-some file s hex_digest e = rw (initialized g.check_version file s, hash_step, e) refl

  called-add_signers :
      (w : World)
      → called (add_signers gpg key_id) w ≡ (ok key, record w { gpgme_key = acquire w.gpgme_key })
  unfolding add_signers
  called-add_signers w = rw (find_key-IsGiven key_id w agreed.has_key, agreed.has_signer)

  signature_steps-IsAgreed :
      (hex_digest : Bytes) (signature : Data) (w : World)
      → w.gpgme_key.held ≡ true
      → gpg.op_sign w.settings key hex_digest ≡ some signature
      → signature_steps g source gpg fuel key hex_digest w ≡ (
        ok signature,
        record w {
          gpgme_appimage_file_data = acquire w.gpgme_appimage_file_data;
          gpgme_sig_data = acquire w.gpgme_sig_data;
        },
      )
  unfolding signature_steps check_sign_result
  signature_steps-IsAgreed hex_digest signature w held signs =
      simp (held, agreed.has_text hex_digest, agreed.has_sig_data, signs, agreed.has_one)

  embed_step-succeeded :
      (name : Bytes) (object : Data) (disk : Disk) (stack : ℕ → Bytes) (changed : Bytes) (w : World)
      → embed_data_in_elf_section object disk w.file fuel name (stack object.end)
        ≡ some (succeeded changed)
      → embed_step g source gpg fuel name object disk stack w ≡ (ok tt, record w { file = changed })
  unfolding embed_step
  embed_step-succeeded name object disk stack changed w e = rw e

  export_step-IsAgreed :
      (exported : Data) (w : World)
      → gpg.op_export_keys key true ≡ some exported
      → export_step g source gpg fuel key w
        ≡ (ok exported, record w { gpgme_key_data = acquire w.gpgme_key_data })
  unfolding export_step
  export_step-IsAgreed exported w e = simp (agreed.has_key_data, e)

  finish_signing-nothing_held :
      (w : World) (signed : Bytes) (settings : Settings)
      → w ≡ record (nothing_held signed settings) { gcrypt_initialized = g.check_version }
      → finish_signing (record w {
        gpgme_ctx = acquire w.gpgme_ctx;
        gpgme_key = acquire w.gpgme_key;
        gpgme_appimage_file_data = acquire w.gpgme_appimage_file_data;
        gpgme_sig_data = acquire w.gpgme_sig_data;
        gpgme_key_data = acquire w.gpgme_key_data;
      })
        ≡ (returned true, w)
  unfolding gpg_release_resources
  finish_signing-nothing_held w signed settings e = rw e refl

  -- When no call of GPGME fails, its engine has the major version 2 and it makes one signature, the
  -- file can be hashed and the two sections can be written, the function does return, with true, the
  -- file is the one in which the sections are written, and nothing is held.
  pub sign_appimage-IsAgreed :
      (verbose : Bool) (passphrase : Option Bytes) (sig_disk : Disk) (sig_stack : ℕ → Bytes)
      (key_disk : Disk) (key_stack : ℕ → Bytes) (file : Bytes) (s : Settings) (hex_digest : Bytes)
      (signature exported : Data) (with_signature signed : Bytes)
      → calculate_sha256_hex_digest g file source ≡ some (some hex_digest)
      → gpg.op_sign (final_settings verbose passphrase) key hex_digest ≡ some signature
      → embed_data_in_elf_section signature sig_disk file fuel
          (codes ".sha256_sig")
          (sig_stack signature.end)
        ≡ some (succeeded with_signature)
      → gpg.op_export_keys key true ≡ some exported
      → embed_data_in_elf_section exported key_disk with_signature fuel
          (codes ".sig_key")
          (key_stack exported.end)
        ≡ some (succeeded signed)
      → sign_appimage g source gpg fuel key_id verbose passphrase sig_disk sig_stack key_disk
          key_stack
          (nothing_held file s)
        ≡ (
          returned true,
          record (nothing_held signed (final_settings verbose passphrase)) {
            gcrypt_initialized = g.check_version;
          },
        )
  unfolding sign_appimage
  sign_appimage-IsAgreed verbose passphrase sig_disk sig_stack key_disk key_stack file s hex_digest
        signature exported with_signature signed hashed signs first exports second =
      let settings = final_settings verbose passphrase in
      let ready : World = record (nothing_held file s) { gcrypt_initialized = g.check_version } in
      let with_context : World = record ready { settings = settings; gpgme_ctx = slot true } in
      let last : World = record ready { settings = settings; file = signed } in
      let with_key : World = record with_context { gpgme_key = slot true } in
      let with_data : World = record with_key {
        gpgme_appimage_file_data = slot true;
        gpgme_sig_data = slot true;
      } in
      let half : World = record with_data { file = with_signature } in
      let with_key_data : World = record half { gpgme_key_data = slot true } in
      simp (
        gpg_check_call-true gpg.check_version (nothing_held file s) agreed.is_new_enough,
        hash_step-some file s hex_digest hashed,
        context_steps-IsAgreed verbose passphrase ready,
        called-add_signers with_context,
        signature_steps-IsAgreed hex_digest signature with_key refl signs,
        embed_step-succeeded (codes ".sha256_sig") signature sig_disk sig_stack with_signature
            with_data first,
        export_step-IsAgreed exported half exports,
        embed_step-succeeded (codes ".sig_key") exported key_disk key_stack signed with_key_data
            second,
        finish_signing-nothing_held last signed settings refl,
      )
