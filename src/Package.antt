-- ===== src/Package.antt =====
-- src/appimagetool.c, `main`: the steps from the runtime to the finished AppImage.
pub mod Layout
pub mod Runtime
pub mod Digest
pub mod Image
pub mod Built
pub mod Finished
pub mod Checked
pub mod Passed
pub mod Able
pub mod Succeeds
pub mod Sample
mod Tests
use appimagetool.Base.{
  ℕ, ◌-◌, ◌%◌, ◌^◌, Bool, true, false, Option, none, some, List, [], ltb, if◌then◌else◌, length,
  take, Bytes, codes,
}
use appimagetool.Glib.{Glib}
use appimagetool.Squashfs.{Request, print_int, sfs_mksquashfs}
use appimagetool.UpdateInfo.{
  Environment, Guess, keep, guessed, overflow, fault, guess_update_information,
}
use appimagetool.Digest.{Md5}
use appimagetool.Embed.{
  overwrite, Io, Embedded, embedded, embed_update_information, embed_md5_digest,
}
use appimagetool.Fetch.{Thrown, fine, curl_exception, runtime_error, faulted, Fetched}
use appimagetool.Sign.{Disk}
use appimagetool.Sign.Hash.{Gcrypt, Source}
use appimagetool.Sign.Run.{Settings, World, Outcome, ok, returned, exited}
use appimagetool.Sign.Steps.{Gpgme, sign_appimage}
use appimagetool.Sign.Complete.{nothing_held}

-- How a step ends: with a value, with `die` or `exit(1)`, or with a fault or an uncaught exception.
pub data Progress (A : Type 0) : Type 0 where
  next : A → Progress A
  dies : Progress A
  crashes : Progress A

infixl 5 ◌>>=◌
abbrev pub ◌>>=◌ : {A B : Type 0} → Progress A → (A → Progress B) → Progress B
◌>>=◌ (next a) f = f a
◌>>=◌ dies f = dies
◌>>=◌ crashes f = crashes

-- `if (!b) die(…)`
abbrev pub or_die : {A : Type 0} → Bool → Progress A → Progress A
or_die true p = p
or_die false p = dies

abbrev pub or_exit : {A : Type 0} → Option A → Progress A
or_exit none = dies
or_exit (some a) = next a

-- `(int) fsize` as a `size_t`: the low 32 bits with their sign.
abbrev pub as_int : ℕ → ℕ
as_int n = if ltb (n % 2 ^ 32) (2 ^ 31) then n % 2 ^ 32 else 2 ^ 64 - (2 ^ 32 - n % 2 ^ 32)

-- `readFile` for a file with some bytes, or one that cannot be opened: its size and its bytes.
unfoldable pub read_file : Option Bytes → Option (ℕ × Bytes)
read_file none = none
read_file (some bytes) = some (as_int (length bytes), bytes)

abbrev pub provided : Option (ℕ × Bytes) → Progress (ℕ × Bytes)
provided none = dies
provided (some runtime) = next runtime

-- What `fetch_runtime` left in `size` and `data`, which were zero and a null pointer.
unfoldable pub downloaded : Thrown Fetched → Progress (ℕ × Bytes)
downloaded (fine f) = or_die f.returns (elim f.size [
  | none ↦ next (0, [])
  | some n ↦ elim f.buffer [ none ↦ next (n, []) | some bytes ↦ next (n, bytes) ]
])
downloaded curl_exception = crashes
downloaded runtime_error = crashes
downloaded faulted = crashes

-- The runtime from `--runtime-file`, if that is given, or from the network.
unfoldable pub load_runtime : Option (Option Bytes) → Thrown Fetched → Progress (ℕ × Bytes)
load_runtime (some runtime_file) download = provided (read_file runtime_file)
load_runtime none download = downloaded download

-- `fwrite(data, size, 1, fpdst)` at the start of the file, of which the disk takes `space` bytes,
-- and the result is not looked at. More than there is in memory is a fault.
unfoldable pub embed_elf : ℕ → ℕ × Bytes → Bytes → Progress Bytes
embed_elf space (size, data_) file =
    if ltb (length data_) size
    then crashes
    else next (overwrite file 0 (take space (take size data_)))

-- What signing needs beside the file.
pub record Signer : Type 1 where
  pub gcrypt : Gcrypt
  pub source : Source
  pub gpgme : Gpgme
  pub fuel : ℕ
  pub sign_key : Option Bytes
  pub passphrase : Option Bytes
  pub sig_disk : Disk
  pub sig_stack : ℕ → Bytes
  pub key_disk : Disk
  pub key_stack : ℕ → Bytes
  pub settings : Settings

abbrev pub run_sign_appimage : Signer → Bool → Bytes → Outcome (Unit {0}) × World
run_sign_appimage s verbose file =
    sign_appimage s.gcrypt s.source s.gpgme s.fuel s.sign_key verbose s.passphrase s.sig_disk
      s.sig_stack s.key_disk s.key_stack (nothing_held file s.settings)

-- The options of the command line that these steps read.
pub record Options : Type 0 where
  pub verbose : Bool
  pub guess : Bool
  pub sign : Bool
  pub updateinformation : Option Bytes
  pub runtime_file : Option (Option Bytes)
  pub sqfs_comp : Option Bytes
  pub sqfs_opts : List Bytes
  pub exclude_file : Option Bytes

-- What the system answers: `mksquashfs` gets its arguments, and gives the status of the child and the
-- file that it leaves; `left_behind` is the text that is read of a buffer with some text behind
-- the end of its block, or a fault.
pub record System : Type 1 where
  pub glib : Glib
  pub environment : Environment
  pub download : Thrown Fetched
  pub mksquashfs : List (Option Bytes) → Option ℕ × Bytes
  pub ignore_file_exists : Bool
  pub exclude_file_exists : Bool
  pub source_date_epoch : Option Bytes
  pub opens : Bool
  pub space : ℕ
  pub chmods : Bool
  pub has_zsyncmake : Bool
  pub left_behind : Bytes → Option Bytes
  pub update_io : Io
  pub md5 : Md5
  pub stack : ℕ → Bytes
  pub digest_io : Io
  pub signer : Signer
  pub zsyncmake_starts : Bool
  pub zsyncmake_succeeds : Bool

abbrev pub embedding : Option Embedded → Progress Bytes
embedding none = crashes
embedding (some (embedded file)) = next file
embedding (some _) = dies

-- The guessed text stands in `buf`, whose block has ended when it is read: the text that is then
-- found there is what the system answers, or a fault.
abbrev pub use_guess : (Bytes → Option Bytes) → Option Bytes → Guess → Progress (Option Bytes)
use_guess left_behind info keep = next info
use_guess left_behind info (guessed text) = elim (left_behind text) [
  | none ↦ crashes
  | some found ↦ next (some found)
]
use_guess left_behind info overflow = dies
use_guess left_behind info fault = crashes

abbrev pub signing : Outcome (Unit {0}) × World → Progress Bytes
signing (ok a, w) = crashes
signing (returned b, w) = or_die b (next w.file)
signing (exited, w) = dies
signing (_, w) = crashes

module _ (sys : System) (o : Options) (source dest app_name arch : Bytes) where
  -- What `sfs_mksquashfs` is called with; its parameter for the offset is an `int`.
  unfoldable pub squashfs_request : ℕ → Request
  squashfs_request size = record {
    program = codes "mksquashfs";
    source = source;
    destination = dest;
    offset_string = print_int (size % 2 ^ 32);
    sqfs_comp = o.sqfs_comp;
    sqfs_opts = o.sqfs_opts;
    ignore_file_exists = sys.ignore_file_exists;
    exclude_file = o.exclude_file;
    exclude_file_exists = sys.exclude_file_exists;
    source_date_epoch = sys.source_date_epoch;
  }

  -- The runtime in front of the file system image.
  unfoldable pub make_image : Progress Bytes
  make_image = do
    runtime ← load_runtime o.runtime_file sys.download
    squashed ← or_exit (sfs_mksquashfs sys.mksquashfs (squashfs_request runtime.0))
    image ← or_die sys.opens (embed_elf sys.space runtime squashed)
    or_die sys.chmods (next image)

  unfoldable pub decide_update_information : Progress (Option Bytes)
  decide_update_information =
      if o.guess
      then use_guess sys.left_behind o.updateinformation
          (guess_update_information sys.glib sys.environment sys.has_zsyncmake app_name arch)
      else next o.updateinformation

  unfoldable pub embed_info : Option Bytes → Bytes → Progress Bytes
  embed_info none file = next file
  embed_info (some info) file =
      embedding (embed_update_information sys.glib sys.update_io info file)

  unfoldable pub embed_digest : Bytes → Progress Bytes
  embed_digest file = embedding (embed_md5_digest sys.md5 sys.stack sys.digest_io file)

  unfoldable pub sign_step : Bytes → Progress Bytes
  sign_step file =
      if o.sign then signing (run_sign_appimage sys.signer o.verbose file) else next file

  -- The zsync file; where zsyncmake is missing the step is skipped.
  unfoldable pub make_zsync : Option Bytes → Progress (Unit {0})
  make_zsync none = next tt
  make_zsync (some info) =
      if sys.has_zsyncmake
      then or_die sys.zsyncmake_starts (or_die sys.zsyncmake_succeeds (next tt))
      else next tt

  -- All of them; the value is the AppImage with which the program says that it succeeded.
  unfoldable pub package_app_dir : Progress Bytes
  package_app_dir = do
    image ← make_image
    info ← decide_update_information
    informed ← embed_info info image
    hashed ← embed_digest informed
    signed ← sign_step hashed
    _ ← make_zsync info
    next signed
