-- ===== src/Sign/Complete.antt =====
-- src/appimagetool_sign.c, `sign_appimage`: the resources at its end, and the two sections.
use appimagetool.Base.{ℕ, ◌≡◌, refl, Bool, true, false, Option, some, Bytes, codes}
use mathlib.Core.Path.{subst}
use appimagetool.Sign.{Data, Disk, succeeded, embed_data_in_elf_section}
use appimagetool.Sign.Hash.{Gcrypt, Source, calculate_sha256_hex_digest}
use appimagetool.Sign.Run.{Settings, World, gpg_release_resources, returned, ◌>>=◌, ◌>>◌}
use appimagetool.Sign.Steps.{
  Gpgme, add_signers, called, hash_step, context_steps, signature_steps, embed_step, export_step,
  sign_appimage, finish_signing,
}
use appimagetool.Sign.Done.{
  HoldsNothing, At, Ends, Ends->>=, gpg_check_call-then, gpg_release_resources-HoldsNothing,
}
use appimagetool.Sign.Branches.{
  final_settings, hash_step-Ends, context_steps-Ends, called-Ends, signature_steps-Ends,
  embed_step-Ends, export_step-Ends,
}
use appimagetool.Sign.Signers.{add_signers-Ends}

module _ (g : Gcrypt) (source : Source) (gpg : Gpgme) (fuel : ℕ) (key_id : Option Bytes)
    (verbose : Bool) (passphrase : Option Bytes) (sig_disk : Disk) (sig_stack : ℕ → Bytes)
    (key_disk : Disk) (key_stack : ℕ → Bytes) (file : Bytes) where
  -- How a file was signed: a signature of the digits of the old file's hash was made and given to the
  -- step that embeds it, and then the key with which it was made.
  pub record Signed (signed : Bytes) : Type 0 where
    pub key : gpg.Key
    pub hex_digest : Bytes
    pub hashed : calculate_sha256_hex_digest g file source ≡ some (some hex_digest)
    pub signature : Data
    pub signs : gpg.op_sign (final_settings verbose passphrase) key hex_digest ≡ some signature
    pub with_signature : Bytes
    pub signature_embedded :
        embed_data_in_elf_section signature sig_disk file fuel
          (codes ".sha256_sig")
          (sig_stack signature.end)
        ≡ some (succeeded with_signature)
    pub exported : Data
    pub exports : gpg.op_export_keys key gpg.key_data_new ≡ some exported
    pub key_embedded :
        embed_data_in_elf_section exported key_disk with_signature fuel
          (codes ".sig_key")
          (key_stack exported.end)
        ≡ some (succeeded signed)

  -- What holds at a return.
  abbrev Returns : Bool → World → Type 0
  Returns true w = HoldsNothing w × Signed w.file
  Returns false w = HoldsNothing w

  gives_up : (w : World) → HoldsNothing w → Returns false w
  gives_up w h = h

  sign_appimage-Ends :
      (s : Settings) (w : World)
      → At false false false false false file s w
      → Ends Returns
          (λ _ _. Unit {0})
          (sign_appimage g source gpg fuel key_id verbose passphrase sig_disk sig_stack key_disk
            key_stack w)
  unfolding sign_appimage gpg_release_resources
  sign_appimage-Ends s w at =
      let settings = final_settings verbose passphrase in
      gpg_check_call-then Returns gives_up _ gpg.check_version _ false false false false false w
        at.holds
        (Ends->>= Returns _ _ (hash_step g source gpg fuel) _ w
          (hash_step-Ends Returns gives_up g source gpg fuel file s w at)
          (λ hex w1 (at1, hashed).
            Ends->>= Returns _ _ (context_steps g source gpg fuel verbose passphrase) _ w1
              (context_steps-Ends Returns gives_up g source gpg fuel verbose passphrase file s w1
                at1)
              (λ _ w2 at2.
                Ends->>= Returns _ _ (called (add_signers gpg key_id)) _ w2
                  (called-Ends Returns gives_up g source gpg fuel _ (add_signers gpg key_id) w2
                    (add_signers-Ends gpg file settings key_id w2 at2))
                  (λ key w3 at3. with_key key hex hashed w3 at3))))
    where
      with_key :
          (key : gpg.Key) (hex : Bytes)
          → calculate_sha256_hex_digest g file source ≡ some (some hex)
          → (w3 : World)
          → At true false false true false file (final_settings verbose passphrase) w3
          → Ends Returns
              (λ _ _. Unit {0})
              ((signature_steps g source gpg fuel key hex >>= λ signature.
                  embed_step g source gpg fuel (codes ".sha256_sig") signature sig_disk sig_stack
                  >> (export_step g source gpg fuel key >>= λ exported.
                      embed_step g source gpg fuel (codes ".sig_key") exported key_disk key_stack
                      >> finish_signing))
                w3)
      with_key key hex hashed w3 at3 =
          let settings = final_settings verbose passphrase in
          Ends->>= Returns _ _ (signature_steps g source gpg fuel key hex) _ w3
            (signature_steps-Ends Returns gives_up g source gpg fuel key hex file settings w3 at3)
            (λ signature w4 (at4, signs).
              Ends->>= Returns _ _
                (embed_step g source gpg fuel (codes ".sha256_sig") signature sig_disk sig_stack) _
                w4
                (embed_step-Ends Returns gives_up g source gpg fuel (codes ".sha256_sig") signature
                  sig_disk sig_stack true true true true false file settings w4 at4)
                (λ _ w5 (file1, at5, embedded1).
                  Ends->>= Returns _ _ (export_step g source gpg fuel key) _ w5
                    (export_step-Ends Returns gives_up g source gpg fuel key file1 settings w5 at5)
                    (λ exported w6 (at6, exports).
                      Ends->>= Returns _ _
                        (embed_step g source gpg fuel (codes ".sig_key") exported key_disk
                          key_stack)
                        _ w6
                        (embed_step-Ends Returns gives_up g source gpg fuel (codes ".sig_key")
                          exported key_disk key_stack true true true true gpg.key_data_new file1
                          settings w6 at6)
                        (λ _ w7 (file2, at7, embedded2). (
                          gpg_release_resources-HoldsNothing true true true true gpg.key_data_new w7
                              at7.holds,
                          rw at7.file_is (record {
                            key = key;
                            hex_digest = hex;
                            hashed = hashed;
                            signature = signature;
                            signs = signs;
                            with_signature = file1;
                            signature_embedded = embedded1;
                            exported = exported;
                            exports = exports;
                            key_embedded = embedded2;
                          }),
                        )))))

-- The globals at the start of the program.
abbrev pub nothing_held : Bytes → Settings → World
nothing_held file settings = record {
  gpgme_ctx = record { held = false; live = 0; broken = false };
  gpgme_appimage_file_data = record { held = false; live = 0; broken = false };
  gpgme_sig_data = record { held = false; live = 0; broken = false };
  gpgme_key = record { held = false; live = 0; broken = false };
  gpgme_key_data = record { held = false; live = 0; broken = false };
  gcrypt_initialized = false;
  settings = settings;
  file = file;
}

nothing_held-At :
    (file : Bytes) (s : Settings) → At false false false false false file s (nothing_held file s)
nothing_held-At file s = record {
  holds = record {
    ctx_slot = refl;
    file_data_slot = refl;
    sig_data_slot = refl;
    key_slot = refl;
    key_data_slot = refl;
  };
  file_is = refl;
  settings_are = refl;
}

module _ (g : Gcrypt) (source : Source) (gpg : Gpgme) (fuel : ℕ) (key_id : Option Bytes)
    (verbose : Bool) (passphrase : Option Bytes) (sig_disk : Disk) (sig_stack : ℕ → Bytes)
    (key_disk : Disk) (key_stack : ℕ → Bytes) (file : Bytes) where
  by_return :
      (s : Settings) (b : Bool) (w : World)
      → sign_appimage g source gpg fuel key_id verbose passphrase sig_disk sig_stack key_disk
          key_stack
          (nothing_held file s)
        ≡ (returned b, w)
      → Returns g source gpg fuel key_id verbose passphrase sig_disk sig_stack key_disk key_stack
          file b w
  by_return s b w h =
      subst
        (Ends
          (Returns g source gpg fuel key_id verbose passphrase sig_disk sig_stack key_disk key_stack
            file)
          (λ _ _. Unit {0}))
        h
        (sign_appimage-Ends g source gpg fuel key_id verbose passphrase sig_disk sig_stack key_disk
          key_stack file s (nothing_held file s) (nothing_held-At file s))

  -- Whatever fails on the way: when the function returns, true or false, each resource of GPGME that
  -- it made has been released, exactly once, and the five pointers are null again, if they were at
  -- the start.
  pub sign_appimage-releases :
      (s : Settings) (b : Bool) (w : World)
      → sign_appimage g source gpg fuel key_id verbose passphrase sig_disk sig_stack key_disk
          key_stack
          (nothing_held file s)
        ≡ (returned b, w)
      → HoldsNothing w
  sign_appimage-releases s true w h = (by_return s true w h).0
  sign_appimage-releases s false w h = by_return s false w h

  -- When the function returns true, the file has been signed: a signature of the digits of the hash
  -- of the file as it was, in text mode and with armor, was embedded in the section `.sha256_sig`,
  -- and then the exported key with which it was made in `.sig_key`.
  pub sign_appimage-Signed :
      (s : Settings) (w : World)
      → sign_appimage g source gpg fuel key_id verbose passphrase sig_disk sig_stack key_disk
          key_stack
          (nothing_held file s)
        ≡ (returned true, w)
      → Signed g source gpg fuel key_id verbose passphrase sig_disk sig_stack key_disk key_stack
          file w.file
  sign_appimage-Signed s w h = (by_return s true w h).1
