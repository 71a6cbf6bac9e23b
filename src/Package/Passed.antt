-- ===== src/Package/Passed.antt =====
-- src/appimagetool.c, `main`: what the end of the last step says of the answers of the system.
use mathlib.Core.Path.{subst}
use appimagetool.Base.{
  ℕ, ◌/◌, ◌%◌, ◌≡◌, refl, ap, ◌∙◌, inl, inr, Bool, true, false, Option, none, some, List, arith,
  Option-cases, Bytes, codes,
}
use appimagetool.Digest.{lookup}
use appimagetool.UpdateInfo.{is_recognised}
use appimagetool.Squashfs.{Request, mksquashfs_args, parent_succeeds, sfs_mksquashfs}
use appimagetool.Fetch.{Thrown, fine, curl_exception, runtime_error, faulted, Fetched}
use appimagetool.Glib.{Glib}
use appimagetool.Embed.{Io, embedded, embed_update_information, embed_md5_digest}
use appimagetool.Embed.Written.{HasTaken, embed_md5_digest-HasTaken}
use appimagetool.Sign.Run.{World}
use appimagetool.Sign.Done.{HoldsNothing}
use appimagetool.Sign.Complete.{Signed, sign_appimage-Signed, sign_appimage-releases}
use appimagetool.Package.{
  Progress, next, or_die, or_exit, Signer, Options, System, run_sign_appimage, read_file,
  downloaded, load_runtime, squashfs_request, make_image, decide_update_information, embed_info,
  embed_digest, sign_step, make_zsync, signing, embed_elf, package_app_dir,
}
use appimagetool.Package.Digest.{
  >>=-eq-next, embedding-next, signing-next, or_die-next, or_exit-next,
}

-- The runtime was there: a file that could be opened, or a download that returned true.
abbrev pub HasRuntime : Option (Option Bytes) → Thrown Fetched → Type 0
HasRuntime none download = (f : Fetched) × (download ≡ fine f) × (f.returns ≡ true)
HasRuntime (some runtime_file) download = (bytes : Bytes) × (runtime_file ≡ some bytes)

-- The child with mksquashfs could be waited for, and its exit status is 0.
abbrev pub HasSquashed : (List (Option Bytes) → Option ℕ × Bytes) → Request → Type 0
HasSquashed run r =
    (args : List (Option Bytes)) × (status : ℕ) × (mksquashfs_args r ≡ some args)
    × ((run args).0 ≡ some status)
    × (status / 256 % 256 ≡ 0)

-- The signature of a file was made and embedded, with the key, and no resource of GPGME is held.
pub record HasSigned (s : Signer) (verbose : Bool) (hashed final : Bytes) : Type 0 where
  pub world : World
  pub signed :
      Signed s.gcrypt s.source s.gpgme s.fuel s.sign_key verbose s.passphrase s.sig_disk s.sig_stack
        s.key_disk s.key_stack hashed final
  pub released : HoldsNothing world
  pub left : world.file ≡ final

-- What the system has answered, step by step.
pub record HasPassed (sys : System) (o : Options) (source dest app_name arch final : Bytes)
    : Type 0 where
  pub has_runtime : HasRuntime o.runtime_file sys.download
  pub size : ℕ
  pub squashed : HasSquashed sys.mksquashfs (squashfs_request sys o source dest app_name arch size)
  pub opened : sys.opens ≡ true
  pub executable : sys.chmods ≡ true
  pub info : Option Bytes
  pub decided : decide_update_information sys o source dest app_name arch ≡ next info
  pub informed :
      (text : Bytes)
      → info ≡ some text
      → (is_recognised sys.glib text ≡ true) × (sys.update_io.opens ≡ true)
  pub informed_file : Bytes
  pub uninformed : info ≡ none → make_image sys o source dest app_name arch ≡ next informed_file
  pub hashed_file : Bytes
  pub digest_embedded :
      embed_md5_digest sys.md5 sys.stack sys.digest_io informed_file ≡ some (embedded hashed_file)
  pub digest_taken : HasTaken sys.digest_io
  pub signed : o.sign ≡ true → HasSigned sys.signer o.verbose hashed_file final
  pub unsigned : o.sign ≡ false → hashed_file ≡ final
  pub zsynced :
      (text : Bytes)
      → info ≡ some text
      → sys.has_zsyncmake ≡ true
      → (sys.zsyncmake_starts ≡ true) × (sys.zsyncmake_succeeds ≡ true)

load_runtime-HasRuntime :
    (runtime_file : Option (Option Bytes)) (download : Thrown Fetched) (r : ℕ × Bytes)
    → load_runtime runtime_file download ≡ next r
    → HasRuntime runtime_file download
unfolding load_runtime read_file downloaded
load_runtime-HasRuntime (some none) download r h = cc
load_runtime-HasRuntime (some (some bytes)) download r h = (bytes, refl)
load_runtime-HasRuntime none (fine f) r h = (f, refl, (or_die-next f.returns _ r h).0)
load_runtime-HasRuntime none curl_exception r h = cc
load_runtime-HasRuntime none runtime_error r h = cc
load_runtime-HasRuntime none faulted r h = cc

parent_succeeds-status :
    (answer : Option ℕ)
    → parent_succeeds answer ≡ true
    → (status : ℕ) × (answer ≡ some status) × (status / 256 % 256 ≡ 0)
unfolding parent_succeeds
parent_succeeds-status none h = cc
parent_succeeds-status (some status) h = (status, refl, ground arith)

sfs_mksquashfs-HasSquashed :
    (run : List (Option Bytes) → Option ℕ × Bytes) (r : Request) (squashed : Bytes)
    → sfs_mksquashfs run r ≡ some squashed
    → HasSquashed run r
unfolding sfs_mksquashfs
sfs_mksquashfs-HasSquashed run r squashed h = elim (Option-cases (mksquashfs_args r)) [
  | inl missing ↦ let never = rw (missing, sfs_mksquashfs) at h in cc
  | inr (args, made) ↦
      let run_child = rw (made, sfs_mksquashfs) at h in
      let passes : parent_succeeds (run args).0 ≡ true = ground arith in
      let (status, is, exits) = parent_succeeds-status (run args).0 passes in
      (args, status, made, is, exits)
]

embed_update_information-embedded :
    (g : Glib) (io : Io) (text file changed : Bytes)
    → embed_update_information g io text file ≡ some (embedded changed)
    → (is_recognised g text ≡ true) × (io.opens ≡ true)
unfolding embed_update_information
embed_update_information-embedded g io text file changed h =
    elim (Option-cases (lookup file (codes ".upd_info"))) [
      | inl missing ↦ let h' = rw missing at h in ground arith
      | inr ((rv, e), found) ↦ let h' = rw found at h in ground arith
    ]

module _ (sys : System) (o : Options) (source dest app_name arch : Bytes) where
  embed_info-informed :
      (info : Option Bytes) (file changed : Bytes)
      → embed_info sys o source dest app_name arch info file ≡ next changed
      → (text : Bytes) → info ≡ some text
      → (is_recognised sys.glib text ≡ true) × (sys.update_io.opens ≡ true)
  unfolding embed_info
  embed_info-informed none file changed h text e = cc
  embed_info-informed (some given) file changed h text e =
      let same : given ≡ text = cc in
      subst (λ t. (is_recognised sys.glib t ≡ true) × (sys.update_io.opens ≡ true)) same
        (embed_update_information-embedded sys.glib sys.update_io given file changed
          (embedding-next (embed_update_information sys.glib sys.update_io given file) changed h))

  sign_step-HasSigned :
      (hashed final : Bytes)
      → sign_step sys o source dest app_name arch hashed ≡ next final
      → o.sign ≡ true
      → HasSigned sys.signer o.verbose hashed final
  unfolding sign_step
  sign_step-HasSigned hashed final h signs =
      let s = sys.signer in
      let run : signing (run_sign_appimage s o.verbose hashed) ≡ next final = rw signs at h in
      let (w, returns, is_final) = signing-next _ final run in
      record {
        world = w;
        signed =
            subst
              (Signed s.gcrypt s.source s.gpgme s.fuel s.sign_key o.verbose s.passphrase s.sig_disk
                s.sig_stack s.key_disk s.key_stack hashed)
              is_final
              (sign_appimage-Signed s.gcrypt s.source s.gpgme s.fuel s.sign_key o.verbose
                s.passphrase s.sig_disk s.sig_stack s.key_disk s.key_stack hashed s.settings w
                returns);
        released =
            sign_appimage-releases s.gcrypt s.source s.gpgme s.fuel s.sign_key o.verbose
              s.passphrase s.sig_disk s.sig_stack s.key_disk s.key_stack hashed s.settings true w
              returns;
        left = is_final;
      }

  sign_step-unsigned :
      (hashed final : Bytes)
      → sign_step sys o source dest app_name arch hashed ≡ next final
      → o.sign ≡ false
      → hashed ≡ final
  unfolding sign_step
  sign_step-unsigned hashed final h off =
      let same : ◌≡◌ {A = Progress Bytes} (next hashed) (next final) = rw off at h in cc

  embed_info-uninformed :
      (info : Option Bytes) (image changed : Bytes)
      → embed_info sys o source dest app_name arch info image ≡ next changed
      → info ≡ none
      → image ≡ changed
  unfolding embed_info
  embed_info-uninformed none image changed h e = cc
  embed_info-uninformed (some text) image changed h e = cc

  make_zsync-zsynced :
      (info : Option Bytes) (u : Unit {0})
      → make_zsync sys o source dest app_name arch info ≡ next u
      → (text : Bytes) → info ≡ some text
      → sys.has_zsyncmake ≡ true
      → (sys.zsyncmake_starts ≡ true) × (sys.zsyncmake_succeeds ≡ true)
  unfolding make_zsync
  make_zsync-zsynced none u h text e installed = cc
  make_zsync-zsynced (some given) u h text e installed =
      let h' = rw installed at h in
      let (starts, h1) = or_die-next sys.zsyncmake_starts _ u h' in
      (starts, (or_die-next sys.zsyncmake_succeeds _ u h1).0)

  -- What the answers were if the steps come to their end.
  pub package_app_dir-HasPassed :
      (final : Bytes)
      → package_app_dir sys o source dest app_name arch ≡ next final
      → HasPassed sys o source dest app_name arch final
  unfolding package_app_dir make_image embed_digest
  package_app_dir-HasPassed final h =
      let (image, makes, h1) = >>=-eq-next (make_image sys o source dest app_name arch) _ final h in
      let (info, decides, h2) =
        >>=-eq-next (decide_update_information sys o source dest app_name arch) _ final h1 in
      let (informed, embeds, h3) =
        >>=-eq-next (embed_info sys o source dest app_name arch info image) _ final h2 in
      let (hashed, hashes, h4) =
        >>=-eq-next (embed_digest sys o source dest app_name arch informed) _ final h3 in
      let (signed, signs, h5) =
        >>=-eq-next (sign_step sys o source dest app_name arch hashed) _ final h4 in
      let (u, zsyncs, same) =
        >>=-eq-next (make_zsync sys o source dest app_name arch info) _ final h5 in
      let is_final : signed ≡ final = cc in
      let digests =
        embedding-next (embed_md5_digest sys.md5 sys.stack sys.digest_io informed) hashed hashes in
      let (runtime, loads, m1) =
        >>=-eq-next (load_runtime o.runtime_file sys.download) _ image makes in
      let request = squashfs_request sys o source dest app_name arch runtime.0 in
      let (squashed, squashes, m2) =
        >>=-eq-next (or_exit (sfs_mksquashfs sys.mksquashfs request)) _ image m1 in
      let (image0, opens, m3) =
        >>=-eq-next (or_die sys.opens (embed_elf sys.space runtime squashed)) _ image m2 in
      record {
        has_runtime = load_runtime-HasRuntime o.runtime_file sys.download runtime loads;
        size = runtime.0;
        squashed =
            sfs_mksquashfs-HasSquashed sys.mksquashfs request squashed
              (or_exit-next (sfs_mksquashfs sys.mksquashfs request) squashed squashes);
        opened = (or_die-next sys.opens _ image0 opens).0;
        executable = (or_die-next sys.chmods (next image0) image m3).0;
        info = info;
        decided = decides;
        informed = embed_info-informed info image informed embeds;
        informed_file = informed;
        uninformed = λ e. makes ∙ ap next (embed_info-uninformed info image informed embeds e);
        hashed_file = hashed;
        digest_embedded = digests;
        digest_taken =
            embed_md5_digest-HasTaken sys.md5 sys.stack sys.digest_io informed hashed digests;
        signed = λ on.
            subst (HasSigned sys.signer o.verbose hashed) is_final
              (sign_step-HasSigned hashed signed signs on);
        unsigned = λ off. sign_step-unsigned hashed signed signs off ∙ is_final;
        zsynced = make_zsync-zsynced info u zsyncs;
      }
