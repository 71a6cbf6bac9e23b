-- ===== src/Sign/Steps.antt =====
-- src/appimagetool_sign.c, `sign_appimage`: the steps from the digest to the two sections.
use appimagetool.Base.{
  ℕ, Bool, true, false, not, ◌||◌, Option, none, some, List, [], ◌∷◌, ◌==◌, if◌then◌else◌, Bytes,
  codes,
}
use appimagetool.Sign.{Data, Disk, Report, embed_data_in_elf_section}
use appimagetool.Sign.Hash.{Gcrypt, Source, calculate_sha256_hex_digest}
use appimagetool.Sign.Run.{
  acquire, Settings, gpgme_passphrase_callback, init_gcrypt, gpg_release_resources, Outcome, ok,
  returned, exited, faulted, Run, pure, ◌>>=◌, ◌>>◌, modify, give_up, gpg_check_call, checked,
}

-- The text of an engine's version: a null pointer, one from which `sscanf` does not read two numbers,
-- or the two numbers.
pub data EngineVersion : Type 0 where
  null_version : EngineVersion
  unparsed : EngineVersion
  parsed : ℕ → ℕ → EngineVersion

-- One entry of the list of engines: whether its protocol is that of the context, and its version.
pub record Engine : Type 0 where
  pub matches : Bool
  pub version : EngineVersion

-- What the functions of GPGME answer. `none` and `false` are errors; `sign_result` is the number of
-- signatures, and `export` is told whether the object for the key is there.
pub record Gpgme : Type 1 where
  pub Key : Type 0
  pub check_version : Bool
  pub new : Bool
  pub get_engine_info : Option (List Engine)
  pub set_ctx_flag : Bool
  pub get_key : Bytes → Option Key
  pub keylist_start : Bool
  pub keylist_next : Option Key
  pub signers_add : Key → Bool
  pub data_new_from_mem : Bytes → Bool
  pub sig_data_new : Bool
  pub op_sign : Settings → Key → Bytes → Option Data
  pub sign_result : Option ℕ
  pub key_data_new : Bool
  pub op_export_keys : Key → Bool → Option Data

-- The `while` loop over the engines.
abbrev pub find_engine : List Engine → Option Engine
find_engine [] = none
find_engine (e ∷ engines) = if e.matches then some e else find_engine engines

-- Behind the loop: without an engine the message reads through the null pointer, and `sscanf` through
-- that of a version that is not there. A major version other than 2 ends the process.
abbrev pub check_engine_version : EngineVersion → Run (Unit {0})
check_engine_version null_version w = (faulted, w)
check_engine_version unparsed w = (ok tt, w)
check_engine_version (parsed major minor) w = if major == 2 then (ok tt, w) else (exited, w)

unfoldable pub check_engine : Option Engine → Run (Unit {0})
check_engine none w = (faulted, w)
check_engine (some e) w = check_engine_version e.version w

module _ (gpg : Gpgme) where
  abbrev pub hold_key : gpg.Key → Run gpg.Key
  hold_key k w = (ok k, record w { gpgme_key = acquire w.gpgme_key })

  unfoldable pub find_key : Option Bytes → Run gpg.Key
  find_key (some key_id) = checked (gpg.get_key key_id) >>= hold_key
  find_key none = gpg_check_call gpg.keylist_start >> (checked gpg.keylist_next >>= hold_key)

  -- The function; where it does not end with a key it has returned false.
  unfoldable pub add_signers : Option Bytes → Run gpg.Key
  add_signers key_id = do key ← find_key key_id; gpg_check_call (gpg.signers_add key); pure key

-- `if (!f(…)) { gpg_release_resources(); return false; }`
abbrev pub or_release : {A : Type 0} → Outcome A → Run A
or_release (ok a) w = (ok a, w)
or_release (returned b) w = give_up w
or_release exited w = (exited, w)
or_release faulted w = (faulted, w)

abbrev pub called : {A : Type 0} → Run A → Run A
called m w = let (r, w') = m w in or_release r w'

abbrev pub is_some : Option Bytes → Bool
is_some none = false
is_some (some _) = true

-- What the call leaves behind, and the test of its result.
abbrev pub after_embedding : Option Report → Run (Unit {0})
after_embedding none w = (faulted, w)
after_embedding (some r) w =
    let written = record w { file = r.file } in
    let w' = if r.released then gpg_release_resources written else written in
    if r.returns then (ok tt, w') else give_up w'

-- The assertions about the key and the result.
abbrev pub assert_key : Run (Unit {0})
assert_key w = if w.gpgme_key.held then (ok tt, w) else (faulted, w)

unfoldable pub check_sign_result : Option ℕ → Run (Unit {0})
check_sign_result none w = (exited, gpg_release_resources w)
check_sign_result (some n) w = if n == 1 then (ok tt, w) else (faulted, w)

-- `gpg_release_resources(); return true;`
abbrev pub finish_signing : Run (Unit {0})
finish_signing w = (returned true, gpg_release_resources w)

module _ (g : Gcrypt) (source : Source) (gpg : Gpgme) (fuel : ℕ) where
  -- What becomes of the result.
  abbrev pub hashing : Option (Option Bytes) → Run Bytes
  hashing none w = (faulted, w)
  hashing (some none) w = give_up w
  hashing (some (some hex_digest)) w = (ok hex_digest, w)

  -- The hash of the file as it is, as digits. `calculate_sha256_hex_digest` calls `init_gcrypt` first,
  -- and does not look at what it returns.
  unfoldable pub hash_step : Run Bytes
  hash_step w =
      let (_, w') = init_gcrypt g.check_version w in
      hashing (calculate_sha256_hex_digest g w'.file source) w'

  -- The context, its engine and its settings.
  unfoldable pub context_steps : Bool → Option Bytes → Run (Unit {0})
  context_steps verbose passphrase = do
    gpg_check_call gpg.new
    modify (λ w. record w { gpgme_ctx = acquire w.gpgme_ctx })
    engines ← checked gpg.get_engine_info
    check_engine (find_engine engines)
    gpg_check_call (not verbose || gpg.set_ctx_flag)
    modify (λ w. record w {
      settings = record {
        full_status = verbose;
        textmode = true;
        armor = true;
        loopback = is_some passphrase;
        answer = gpgme_passphrase_callback passphrase;
      };
    })

  -- The two data objects, and the signature.
  unfoldable pub signature_steps : gpg.Key → Bytes → Run Data
  signature_steps key hex_digest = do
    assert_key
    gpg_check_call (gpg.data_new_from_mem hex_digest)
    modify (λ w. record w { gpgme_appimage_file_data = acquire w.gpgme_appimage_file_data })
    gpg_check_call gpg.sig_data_new
    modify (λ w. record w { gpgme_sig_data = acquire w.gpgme_sig_data })
    signature ← (λ w. checked (gpg.op_sign w.settings key hex_digest) w)
    check_sign_result gpg.sign_result
    pure signature

  -- The buffer is as long as the object.
  unfoldable pub embed_step : Bytes → Data → Disk → (ℕ → Bytes) → Run (Unit {0})
  embed_step elf_section object disk stack w =
      after_embedding
        (embed_data_in_elf_section object disk w.file fuel elf_section (stack object.end)) w

  -- The export of the key; the result of `gpgme_data_new` is not looked at.
  unfoldable pub export_step : gpg.Key → Run Data
  export_step key = do
    modify (λ w. record w {
      gpgme_key_data = if gpg.key_data_new then acquire w.gpgme_key_data else w.gpgme_key_data;
    })
    λ w. checked (gpg.op_export_keys key w.gpgme_key_data.held) w

  -- The whole function. `sig_disk` and `key_disk` are the disk at the two writes, `sig_stack` and
  -- `key_stack` what the two buffers of some size hold at first.
  unfoldable pub sign_appimage :
      Option Bytes → Bool → Option Bytes → Disk → (ℕ → Bytes) → Disk → (ℕ → Bytes) → Run (Unit {0})
  sign_appimage key_id verbose passphrase sig_disk sig_stack key_disk key_stack = do
    gpg_check_call gpg.check_version
    hex_digest ← hash_step
    context_steps verbose passphrase
    key ← called (add_signers gpg key_id)
    signature ← signature_steps key hex_digest
    embed_step (codes ".sha256_sig") signature sig_disk sig_stack
    exported ← export_step key
    embed_step (codes ".sig_key") exported key_disk key_stack
    finish_signing
