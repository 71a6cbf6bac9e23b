-- ===== src/Sign/Sealed/Sample.antt =====
-- src/appimagetool_sign.c, `sign_appimage`: a small file and answers of GPGME for the tests.
use appimagetool.Base.{
  ℕ, zero, suc, ◌+◌, ◌/◌, ◌%◌, ◌≡◌, refl, ap, true, false, Option, none, some, [], ◌∷◌, ◌++◌, arith,
  length, take, replicate, length-take, length-replicate, take_all, Bytes, codes,
}
use appimagetool.Elf.Sample.{before_digest, no_digest_yet, behind_digest}
use appimagetool.Sign.{Data, Disk}
use appimagetool.Sign.Hash.{Gcrypt, Source}
use appimagetool.Sign.Run.{Settings}
use appimagetool.Sign.Steps.{unparsed, parsed, Gpgme}
use appimagetool.Sign.Sealed.{IsGpgme}
use mathlib.Core.List.{foldl}
use appimagetool.Sign.Stands.{IsWhole, IsGenerous}
use appimagetool.Sign.Write.{ReadsWithin}

abbrev pub sample_file : Bytes
sample_file = before_digest ++ (no_digest_yet ++ behind_digest)

abbrev in_one : Bytes → ℕ → ℕ → Option Bytes
in_one text zero n = some (take n text)
in_one text (suc i) n = some []

abbrev pub object_of : Bytes → Data
object_of text = record { end = length text; rewinds = true; read = in_one text }

-- A hash that is always the same, and a signature that is the start of the text.
abbrev pub constant : Gcrypt
constant = record {
  Handle = Unit {0};
  check_version = true;
  open_handle = some tt;
  write = λ h bytes. h;
  final = λ h. some h;
  read = λ h. some (171 ∷ 205 ∷ []);
  digest_size = 2;
}

abbrev pub agreeable : Gpgme
agreeable = record {
  Key = Bytes;
  check_version = true;
  new = true;
  get_engine_info = some (
      record { matches = false; version = unparsed }
      ∷ record { matches = true; version = parsed 2 4 }
      ∷ []);
  set_ctx_flag = true;
  get_key = λ key_id. some key_id;
  keylist_start = true;
  keylist_next = some (codes "first");
  signers_add = λ k. true;
  data_new_from_mem = λ text. true;
  sig_data_new = true;
  op_sign = λ s k text. some (object_of text);
  sign_result = some 1;
  key_data_new = true;
  op_export_keys = λ k b. some (object_of k);
}

abbrev pub good_source : Source
good_source = record { opens = true; error_at = none; closes = true }

abbrev pub disk_of : ℕ → Disk
disk_of n = record { opens = true; written = n; closes = true }

abbrev pub buffer_of : ℕ → Bytes
buffer_of n = replicate n 0

abbrev pub settings0 : Settings
settings0 = record {
  full_status = false;
  textmode = false;
  armor = false;
  loopback = false;
  answer = none;
}

object_of-ReadsWithin : (text : Bytes) → ReadsWithin (object_of text)
object_of-ReadsWithin text zero n bytes h =
    let same : take n text ≡ bytes = cc in rw (← same) (omega (arith, length-take n text))
object_of-ReadsWithin text (suc i) n bytes h =
    let same : [] ≡ bytes = cc in rw (← same) (omega arith)

signs-ReadsWithin :
    (text : Bytes) (object : Data) → some (object_of text) ≡ some object → ReadsWithin object
signs-ReadsWithin text object h =
    let same : object_of text ≡ object = cc in rw (← same) (object_of-ReadsWithin text)

pub agreeable-IsGpgme : IsGpgme agreeable buffer_of buffer_of
agreeable-IsGpgme = record {
  signs_within = λ s k text object h. signs-ReadsWithin text object h;
  exports_within = λ k b object h. signs-ReadsWithin k object h;
  sig_buffer = λ n. length-replicate {A = ℕ} n 0;
  key_buffer = λ n. length-replicate {A = ℕ} n 0;
}

-- A hash of all bytes: their sum, in two bytes.
abbrev pub summing : Gcrypt
summing = record {
  Handle = ℕ;
  check_version = true;
  open_handle = some 0;
  write = λ h bytes. foldl (λ sum byte. (sum + byte) % 65536) h bytes;
  final = λ h. some h;
  read = λ h. some (h / 256 % 256 ∷ h % 256 ∷ []);
  digest_size = 2;
}

-- A signature that is made of the text and the start of the key, and a key that is exported with a mark.
abbrev pub binding : Gpgme
binding = record agreeable {
  op_sign = λ s k text. some (object_of (b'=' ∷ text ++ take 2 k));
  op_export_keys = λ k b. some (object_of (b'+' ∷ k));
}

pub binding-IsGpgme : IsGpgme binding buffer_of buffer_of
binding-IsGpgme = record {
  signs_within = λ s k text object h. signs-ReadsWithin (b'=' ∷ text ++ take 2 k) object h;
  exports_within = λ k b object h. signs-ReadsWithin (b'+' ∷ k) object h;
  sig_buffer = λ n. length-replicate {A = ℕ} n 0;
  key_buffer = λ n. length-replicate {A = ℕ} n 0;
}

marked-IsWhole :
    (mark : ℕ) (text : Bytes) (object : Data)
    → some (object_of (mark ∷ text)) ≡ some object
    → (content : Bytes) × IsWhole object content
marked-IsWhole mark text object h =
    let same : object_of (mark ∷ text) ≡ object = cc in
    rw (← same) (
      (mark ∷ text),
      record {
        first = ap some (take_all (length (mark ∷ text)) (mark ∷ text) (omega arith));
        second = refl;
        some_bytes = omega arith;
        all = refl;
      },
    )

pub binding-IsGenerous : IsGenerous binding
binding-IsGenerous = record {
  signs_whole = λ s k text object h. marked-IsWhole b'=' (text ++ take 2 k) object h;
  exports_whole = λ k b object h. marked-IsWhole b'+' k object h;
}
