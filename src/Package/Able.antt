-- ===== src/Package/Able.antt =====
-- src/appimagetool.c, `main`: what must not fail outside of the program, and the steps before the
-- sections are written.
use appimagetool.Base.{
  ℕ, suc, ◌^◌, ◌≤◌, ◌<◌, ◌≡◌, refl, inl, inr, Bool, true, Option, none, some, List, [], ◌∷◌, ◌++◌,
  map, arith, Bool-cases, length, All, Bytes,
}
use appimagetool.UpdateInfo.{is_recognised}
use appimagetool.Squashfs.{exclude_args, parent_succeeds, sfs_mksquashfs, Request}
use appimagetool.Squashfs.Laws.{mksquashfs_args_lem}
use appimagetool.Embed.{section_size}
use appimagetool.Sign.{Data}
use appimagetool.Sign.Hash.{
  Gcrypt, Source, IsGcrypt, calculate_sha256_hex_digest, calculate_sha256_hex_digest_lem,
}
use appimagetool.Sign.Branches.{final_settings}
use appimagetool.Sign.Agreed.{IsAgreed}
use appimagetool.Sign.Succeeds.{Delivers}
use appimagetool.Sign.Steps.{Engine}
use appimagetool.Package.{
  next, Signer, Options, System, load_runtime, squashfs_request, make_image, make_zsync,
}
use appimagetool.Package.Runtime.{Places}
use appimagetool.Package.Image.{image_of, embed_elf-image}

-- libgcrypt hashes every file, and the file can be read.
pub record Hashes (g : Gcrypt) (source : Source) : Type 0 where
  pub law : IsGcrypt g
  pub handle : g.Handle
  pub opened : g.open_handle ≡ some handle
  pub done : g.Handle → g.Handle
  pub finals : (h : g.Handle) → g.final h ≡ some (done h)
  pub digest : g.Handle → Bytes
  pub reads : (h : g.Handle) → g.read (done h) ≡ some (digest h)
  pub sized : (h : g.Handle) → length (digest h) ≡ g.digest_size
  pub bytes : (h : g.Handle) → All (λ b. b < 256) (digest h)
  pub opens : source.opens ≡ true
  pub well : source.error_at ≡ none
  pub closes : source.closes ≡ true

pub hash_of :
    (g : Gcrypt) (source : Source)
    → Hashes g source
    → (file : Bytes)
    → (text : Bytes) × (calculate_sha256_hex_digest g file source ≡ some (some text))
hash_of g source h file =
    let handle = g.write h.handle file in
    let (text, hashed, _) =
      calculate_sha256_hex_digest_lem g h.law file source h.handle (h.done handle) (h.digest handle)
        h.opens h.well h.closes h.opened (h.finals handle) (h.reads handle) (h.sized handle)
        (h.bytes handle) in
    (text, hashed)

-- The owner of a key: every text is signed, and the signature and the key fit their sections.
pub record Signs (s : Signer) (verbose : Bool) (p : Places) : Type 0 where
  pub key : s.gpgme.Key
  pub engines : List Engine
  pub engine : Engine
  pub minor : ℕ
  pub agreed : IsAgreed s.gpgme s.sign_key key engines engine minor
  pub fuel : ℕ
  pub enough : s.fuel ≡ suc (suc fuel)
  pub hashes : Hashes s.gcrypt s.source
  pub made : Bytes → Data
  pub signs :
      (text : Bytes)
      → s.gpgme.op_sign (final_settings verbose s.passphrase) key text ≡ some (made text)
  pub delivers : (text : Bytes) → Delivers (made text) s.sig_disk s.sig_stack p.signature
  pub exported : Data
  pub exports : s.gpgme.op_export_keys key true ≡ some exported
  pub delivers_key : Delivers exported s.key_disk s.key_stack p.key

-- The update information, if there is one, is in a known format and has room.
abbrev pub Fits : System → Places → Option Bytes → Type 0
Fits sys p none = Unit
Fits sys p (some info) =
    (is_recognised sys.glib info ≡ true)
    × (length info ≤ p.update.size)
    × (length info ≤ sys.update_io.space)
    × (0 < p.update.offset)
    × (0 < p.update.size)

-- The disk takes what is written, and the programs that are called succeed.
pub record IsAble (sys : System) (o : Options) (size : ℕ) : Type 0 where
  pub exclude : List Bytes
  pub exclude_known : exclude_args o.exclude_file sys.exclude_file_exists ≡ some exclude
  pub squashes : (args : List (Option Bytes)) → (sys.mksquashfs args).0 ≡ some 0
  pub bounded : (args : List (Option Bytes)) → length (sys.mksquashfs args).1 < 2 ^ 61
  pub opens : sys.opens ≡ true
  pub room : size ≤ sys.space
  pub chmods : sys.chmods ≡ true
  pub update_opens : sys.update_io.opens ≡ true
  pub digest_opens : sys.digest_io.opens ≡ true
  pub digest_space : section_size ≤ sys.digest_io.space
  pub zsyncmake_starts : sys.zsyncmake_starts ≡ true
  pub zsyncmake_succeeds : sys.zsyncmake_succeeds ≡ true

module _ (sys : System) (o : Options) (source dest app_name arch : Bytes) (size : ℕ)
    (able : IsAble sys o size) where
  pub sfs_mksquashfs-IsAble :
      (r : Request)
      → r.exclude_file ≡ o.exclude_file
      → r.exclude_file_exists ≡ sys.exclude_file_exists
      → (squashed : Bytes) × (sfs_mksquashfs sys.mksquashfs r ≡ some squashed)
        × (length squashed < 2 ^ 61)
  unfolding sfs_mksquashfs parent_succeeds
  sfs_mksquashfs-IsAble r e1 e2 =
      let (front, args, _) = mksquashfs_args_lem r able.exclude (rw (e1, e2) able.exclude_known) in
      let all = map some (front ++ r.sqfs_opts) ++ (none ∷ []) in
      ((sys.mksquashfs all).1, rw (args, sfs_mksquashfs, able.squashes all) refl, able.bounded all)

  pub make_zsync-IsAble :
      (info : Option Bytes) → make_zsync sys o source dest app_name arch info ≡ next tt
  unfolding make_zsync
  make_zsync-IsAble none = refl
  make_zsync-IsAble (some info) = elim (Bool-cases sys.has_zsyncmake) [
    | inl has ↦ rw (has, able.zsyncmake_starts, able.zsyncmake_succeeds) refl
    | inr missing ↦ rw missing refl
  ]

  pub make_image-IsAble :
      (data_ rest squashed : Bytes)
      → length data_ ≡ size
      → 0 < length data_
      → load_runtime o.runtime_file sys.download ≡ next (length data_, data_ ++ rest)
      → sfs_mksquashfs sys.mksquashfs
          (squashfs_request sys o source dest app_name arch (length data_))
        ≡ some squashed
      → make_image sys o source dest app_name arch ≡ next (image_of data_ squashed)
  unfolding make_image
  make_image-IsAble data_ rest squashed same some_bytes loads made =
      let room = able.room in
      rw
        (
          loads,
          made,
          able.opens,
          embed_elf-image sys.space data_ rest squashed some_bytes (omega arith),
          able.chmods,
        )
        refl
