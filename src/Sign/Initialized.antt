-- ===== src/Sign/Initialized.antt =====
-- src/appimagetool_sign.c, `init_gcrypt`: what it leaves of the global variables.
use appimagetool.Base.{◌≡◌, refl, ◌∙◌, Bool, true, false, if◌then◌else◌, Bytes}
use appimagetool.Sign.Run.{gpg_release_resources, init_gcrypt, Settings, World}
use appimagetool.Sign.Done.{At, gpg_release_resources-HoldsNothing}

gpg_release_resources-file : (w : World) → (gpg_release_resources w).file ≡ w.file
unfolding gpg_release_resources
gpg_release_resources-file w = refl

gpg_release_resources-settings : (w : World) → (gpg_release_resources w).settings ≡ w.settings
unfolding gpg_release_resources
gpg_release_resources-settings w = refl

-- Where nothing is held, nothing is lost when libgcrypt is too old.
pub init_gcrypt-At :
    (check_version : Bool) (file : Bytes) (s : Settings) (w : World)
    → At false false false false false file s w
    → At false false false false false file s (init_gcrypt check_version w).1
unfolding init_gcrypt
init_gcrypt-At check_version file s w at = by_tests w.gcrypt_initialized check_version
  where
    by_tests :
        (before found : Bool)
        → let r : Bool × World =
            if before
            then (true, w)
            else if found
            then (true, record w { gcrypt_initialized = true })
            else (false, gpg_release_resources w) in
          At false false false false false file s r.1
    by_tests true found = at
    by_tests false true = record {
      holds = record {
        ctx_slot = at.holds.ctx_slot;
        file_data_slot = at.holds.file_data_slot;
        sig_data_slot = at.holds.sig_data_slot;
        key_slot = at.holds.key_slot;
        key_data_slot = at.holds.key_data_slot;
      };
      file_is = at.file_is;
      settings_are = at.settings_are;
    }
    by_tests false false = record {
      holds = gpg_release_resources-HoldsNothing false false false false false w at.holds;
      file_is = gpg_release_resources-file w ∙ at.file_is;
      settings_are = gpg_release_resources-settings w ∙ at.settings_are;
    }
