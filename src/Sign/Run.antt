-- ===== src/Sign/Run.antt =====
-- src/appimagetool_sign.c: the global variables that hold resources of GPGME, and runs of code that
-- may return early, end the process, or fault.
use appimagetool.Base.{
  ℕ, ◌+◌, ◌-◌, Bool, true, false, ◌||◌, Option, none, some, ◌++◌, ◌==◌, if◌then◌else◌, Bytes, codes,
}

-- A global pointer: whether it is not null, how many objects were made for it and not released, and
-- whether an object was released that was not there.
pub record Slot : Type 0 where
  pub held : Bool
  pub live : ℕ
  pub broken : Bool

abbrev pub acquire : Slot → Slot
acquire s = record { held = true; live = s.live + 1; broken = s.broken }

-- One of the tests of `gpg_release_resources` with its body.
abbrev pub release : Slot → Slot
release s =
    if s.held
    then record { held = false; live = s.live - 1; broken = s.broken || s.live == 0 }
    else s

-- The settings of `gpgme_ctx`; `answer` is what GPGME reads when it calls for the passphrase, with
-- `none` where it has no callback to call or the callback returns an error.
pub record Settings : Type 0 where
  pub full_status : Bool
  pub textmode : Bool
  pub armor : Bool
  pub loopback : Bool
  pub answer : Option Bytes

-- `gpgme_passphrase_callback` with the text of the environment variable: what it writes for GPGME,
-- or an error.
unfoldable pub gpgme_passphrase_callback : Option Bytes → Option Bytes
gpgme_passphrase_callback none = none
gpgme_passphrase_callback (some passphrase_from_env) = some (passphrase_from_env ++ codes "\n")

-- The global variables, with the static one of `init_gcrypt`, and the file of the AppImage.
pub record World : Type 0 where
  pub gpgme_ctx : Slot
  pub gpgme_appimage_file_data : Slot
  pub gpgme_sig_data : Slot
  pub gpgme_key : Slot
  pub gpgme_key_data : Slot
  pub gcrypt_initialized : Bool
  pub settings : Settings
  pub file : Bytes

unfoldable pub gpg_release_resources : World → World
gpg_release_resources w = record w {
  gpgme_appimage_file_data = release w.gpgme_appimage_file_data;
  gpgme_sig_data = release w.gpgme_sig_data;
  gpgme_ctx = release w.gpgme_ctx;
  gpgme_key = release w.gpgme_key;
  gpgme_key_data = release w.gpgme_key_data;
}

-- With whether libgcrypt has the version that is asked for.
unfoldable pub init_gcrypt : Bool → World → Bool × World
init_gcrypt check_version w =
    if w.gcrypt_initialized
    then (true, w)
    else if check_version
    then (true, record w { gcrypt_initialized = true })
    else (false, gpg_release_resources w)

-- How code ends: with a value, with an early return, with `exit(1)`, or with a fault, such as a read
-- through a null pointer or an assertion that fails.
pub data Outcome (A : Type 0) : Type 0 where
  ok : A → Outcome A
  returned : Bool → Outcome A
  exited : Outcome A
  faulted : Outcome A

abbrev pub Run : Type 0 → Type 0
Run A = World → Outcome A × World

abbrev pub pure : {A : Type 0} → A → Run A
pure a w = (ok a, w)

abbrev pub continue_with : {A B : Type 0} → (A → Run B) → Outcome A → Run B
continue_with f (ok a) w = f a w
continue_with f (returned b) w = (returned b, w)
continue_with f exited w = (exited, w)
continue_with f faulted w = (faulted, w)

infixl 5 ◌>>=◌ ◌>>◌
abbrev pub ◌>>=◌ : {A B : Type 0} → Run A → (A → Run B) → Run B
◌>>=◌ m f w = let (r, w') = m w in continue_with f r w'

abbrev pub ◌>>◌ : {A B : Type 0} → Run A → Run B → Run B
m >> k = m >>= λ _. k

abbrev pub modify : (World → World) → Run (Unit {0})
modify f w = (ok tt, f w)

-- `gpg_release_resources(); return false;`
abbrev pub give_up : {A : Type 0} → Run A
give_up w = (returned false, gpg_release_resources w)

-- `gpg_check_call`
abbrev pub gpg_check_call : Bool → Run (Unit {0})
gpg_check_call true w = (ok tt, w)
gpg_check_call false w = give_up w

-- A call with a result, which is there if the call succeeds.
abbrev pub checked : {A : Type 0} → Option A → Run A
checked none w = give_up w
checked (some a) w = (ok a, w)
