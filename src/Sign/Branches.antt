-- ===== src/Sign/Branches.antt =====
-- src/appimagetool_sign.c, `sign_appimage`: what is held and what is written when it returns.
use appimagetool.Base.{
  ℕ, ◌≡◌, refl, ap, inl, inr, Bool, true, false, not, ◌||◌, Option, none, some, Bool-cases,
  Option-cases, Bytes,
}
use appimagetool.Sign.{Data, Disk, succeeded, embed_data_in_elf_section}
use appimagetool.Sign.Write.{embed_data_in_elf_section-releases}
use appimagetool.Sign.Hash.{Gcrypt, Source, calculate_sha256_hex_digest}
use appimagetool.Sign.Run.{
  Slot, acquire, gpgme_passphrase_callback, init_gcrypt, Settings, World, Outcome, ok, returned,
  exited, faulted, Run,
}
use appimagetool.Sign.Steps.{
  Gpgme, find_engine, or_release, called, is_some, after_embedding, hashing, hash_step,
  context_steps, signature_steps, embed_step, export_step,
}
use appimagetool.Sign.Done.{
  Holds, HoldsNothing, At, Ends, released, gpg_check_call-then, checked-then, check_engine-then,
  check_sign_result-then, checked-Ends, assert_key-then, after_embedding-Ends,
}
use appimagetool.Sign.Initialized.{init_gcrypt-At}

abbrev pub final_settings : Bool → Option Bytes → Settings
final_settings verbose passphrase = record {
  full_status = verbose;
  textmode = true;
  armor = true;
  loopback = is_some passphrase;
  answer = gpgme_passphrase_callback passphrase;
}

module _ (F : Bool → World → Type 0) (gives_up : (w : World) → HoldsNothing w → F false w)
    (g : Gcrypt) (source : Source) (gpg : Gpgme) (fuel : ℕ) where
  pub hash_step-Ends :
      (file : Bytes) (s : Settings) (w : World)
      → At false false false false false file s w
      → Ends F
          (λ hex w'.
            At false false false false false file s w'
            × (calculate_sha256_hex_digest g file source ≡ some (some hex)))
          (hash_step g source gpg fuel w)
  unfolding hash_step
  hash_step-Ends file s w at = by_hash (calculate_sha256_hex_digest g ready.file source) refl
    where
      ready : World
      ready = (init_gcrypt g.check_version w).1

      ready_at : At false false false false false file s ready
      ready_at = init_gcrypt-At g.check_version file s w at

      by_hash :
          (o : Option (Option Bytes))
          → calculate_sha256_hex_digest g ready.file source ≡ o
          → Ends F
              (λ hex w'.
                At false false false false false file s w'
                × (calculate_sha256_hex_digest g file source ≡ some (some hex)))
              (hashing g source gpg fuel o ready)
      by_hash none e = tt
      by_hash (some none) e = released F gives_up false false false false false ready ready_at.holds
      by_hash (some (some hex)) e = (ready_at, rw (← ready_at.file_is) e)

  pub context_steps-Ends :
      (verbose : Bool) (passphrase : Option Bytes) (file : Bytes) (s : Settings) (w : World)
      → At false false false false false file s w
      → Ends F
          (λ _ w'. At true false false false false file (final_settings verbose passphrase) w')
          (context_steps g source gpg fuel verbose passphrase w)
  unfolding context_steps
  context_steps-Ends verbose passphrase file s w at =
      let h = at.holds in
      let w1 : World = record w { gpgme_ctx = acquire w.gpgme_ctx } in
      let h1 : Holds true false false false false w1 = record {
        ctx_slot = ap acquire h.ctx_slot;
        file_data_slot = h.file_data_slot;
        sig_data_slot = h.sig_data_slot;
        key_slot = h.key_slot;
        key_data_slot = h.key_data_slot;
      } in
      gpg_check_call-then F gives_up _ gpg.new _ false false false false false w h (
        checked-then F gives_up _ gpg.get_engine_info _ true false false false false w1 h1
          (λ engines _. check_engine-then F gives_up _ (find_engine engines) _ w1 (
            gpg_check_call-then F gives_up _ (not verbose || gpg.set_ctx_flag) _ true false false
              false false w1 h1
              (record {
                holds = record {
                  ctx_slot = h1.ctx_slot;
                  file_data_slot = h1.file_data_slot;
                  sig_data_slot = h1.sig_data_slot;
                  key_slot = h1.key_slot;
                  key_data_slot = h1.key_data_slot;
                };
                file_is = at.file_is;
                settings_are = refl;
              }))))

  pub called-Ends :
      {A : Type 0} (Q : A → World → Type 0) (m : Run A) (w : World)
      → Ends (λ _. HoldsNothing) Q (m w)
      → Ends F Q (called m w)
  called-Ends {A = A} Q m w h = by_outcome ((m w).0) ((m w).1) h
    where
      by_outcome :
          (r : Outcome A) (w' : World)
          → Ends (λ _. HoldsNothing) Q (r, w')
          → Ends F Q (or_release r w')
      by_outcome (ok a) w' h = h
      by_outcome (returned b) w' h = released F gives_up false false false false false w' h
      by_outcome exited w' h = tt
      by_outcome faulted w' h = tt

  pub signature_steps-Ends :
      (key : gpg.Key) (hex : Bytes) (file : Bytes) (s : Settings) (w : World)
      → At true false false true false file s w
      → Ends F
          (λ signature w'.
            At true true true true false file s w' × (gpg.op_sign s key hex ≡ some signature))
          (signature_steps g source gpg fuel key hex w)
  unfolding signature_steps
  signature_steps-Ends key hex file s w at =
      let h = at.holds in
      let w1 : World = record w { gpgme_appimage_file_data = acquire w.gpgme_appimage_file_data } in
      let w2 : World = record w1 { gpgme_sig_data = acquire w.gpgme_sig_data } in
      let h1 : Holds true true false true false w1 = record {
        ctx_slot = h.ctx_slot;
        file_data_slot = ap acquire h.file_data_slot;
        sig_data_slot = h.sig_data_slot;
        key_slot = h.key_slot;
        key_data_slot = h.key_data_slot;
      } in
      let h2 : Holds true true true true false w2 = record {
        ctx_slot = h1.ctx_slot;
        file_data_slot = h1.file_data_slot;
        sig_data_slot = ap acquire h.sig_data_slot;
        key_slot = h1.key_slot;
        key_data_slot = h1.key_data_slot;
      } in
      assert_key-then F gives_up _ _ w (
        gpg_check_call-then F gives_up _ (gpg.data_new_from_mem hex) _ true false false true false w
          h
          (gpg_check_call-then F gives_up _ gpg.sig_data_new _ true true false true false w1 h1 (
            checked-then F gives_up _ (gpg.op_sign w.settings key hex) _ true true true true false
              w2 h2
              (λ signature e. check_sign_result-then F gives_up _ gpg.sign_result _ w2 (
                record { holds = h2; file_is = at.file_is; settings_are = at.settings_are },
                rw (← at.settings_are) e,
              )))))

  pub export_step-Ends :
      (key : gpg.Key) (file : Bytes) (s : Settings) (w : World)
      → At true true true true false file s w
      → Ends F
          (λ object w'.
            At true true true true gpg.key_data_new file s w'
            × (gpg.op_export_keys key gpg.key_data_new ≡ some object))
          (export_step g source gpg fuel key w)
  unfolding export_step
  export_step-Ends key file s w at = elim (Bool-cases gpg.key_data_new) [
    | inl new ↦
        let w1 : World = record w { gpgme_key_data = acquire w.gpgme_key_data } in
        let h1 : Holds true true true true true w1 = record {
          ctx_slot = h.ctx_slot;
          file_data_slot = h.file_data_slot;
          sig_data_slot = h.sig_data_slot;
          key_slot = h.key_slot;
          key_data_slot = ap acquire h.key_data_slot;
        } in
        rw new (
          checked-Ends F gives_up _ (gpg.op_export_keys key true) true true true true true w1 h1
            (λ object e.
              (record { holds = h1; file_is = at.file_is; settings_are = at.settings_are }, e)))
    | inr old ↦ rw old (
        checked-Ends F gives_up _ (gpg.op_export_keys key w.gpgme_key_data.held) true true true true
          false w h (λ object e. (at, rw (← ap (λ (t : Slot). t.held) h.key_data_slot) e)))
  ]
    where
      h : Holds true true true true false w
      h = at.holds

  pub embed_step-Ends :
      (elf_section : Bytes) (object : Data) (disk : Disk) (stack : ℕ → Bytes) (a b c d e : Bool)
      (file : Bytes) (s : Settings) (w : World)
      → At a b c d e file s w
      → Ends F
          (λ _ w'.
            (file' : Bytes) × At a b c d e file' s w'
            × (embed_data_in_elf_section object disk file fuel elf_section (stack object.end)
                ≡ some (succeeded file')))
          (embed_step g source gpg fuel elf_section object disk stack w)
  unfolding embed_step
  embed_step-Ends elf_section object disk stack a b c d e file s w at =
      elim (Option-cases
        (embed_data_in_elf_section object disk w.file fuel elf_section (stack object.end))) [
          | inl fault ↦ rw (fault, after_embedding) tt
          | inr (r, done) ↦
              rw (done, after_embedding)
                (after_embedding-Ends F gives_up _ a b c d e r w
                  (embed_data_in_elf_section-releases object disk w.file fuel elf_section
                    (stack object.end) r done)
                  at.holds (λ good. (r.file, kept r.file, rw (← at.file_is, ← good) done)))
        ]
    where
      kept : (f : Bytes) → At a b c d e f s (record w { file = f })
      kept f = record {
        holds = record {
          ctx_slot = at.holds.ctx_slot;
          file_data_slot = at.holds.file_data_slot;
          sig_data_slot = at.holds.sig_data_slot;
          key_slot = at.holds.key_slot;
          key_data_slot = at.holds.key_data_slot;
        };
        file_is = refl;
        settings_are = at.settings_are;
      }
