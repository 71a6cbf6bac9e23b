-- ===== src/Package/Checked.antt =====
-- src/appimagetool.c, `main`: what a reader of the finished AppImage finds in the sections.
use mathlib.Core.Path.{subst}
use appimagetool.Base.{
  ℕ, ◌+◌, ◌^◌, ◌≤◌, ◌<◌, ◌≡◌, sym, ◌∙◌, ◌⊎◌, inl, inr, true, Option, some, List, ◌++◌, arith,
  length, take, drop, drop-append_left, Bytes,
}
use appimagetool.UpdateInfo.{is_recognised}
use appimagetool.Elf.{Extent}
use appimagetool.Digest.{chunk_size}
use appimagetool.Digest.Placed.{Beside, Beside-front, Apart-Beside}
use appimagetool.Embed.{section_size}
use appimagetool.Embed.Write.{take-drop-OnlyInside}
use appimagetool.Sign.Branches.{final_settings}
use appimagetool.Sign.Sealed.{IsGpgme}
use appimagetool.Sign.Verified.{IsEmpty, emptied, emptied-IsSigned}
use appimagetool.Sign.Stands.{IsGenerous, IsSigned}
use appimagetool.Package.{
  Progress, next, signing, Options, System, run_sign_appimage, load_runtime,
  decide_update_information, embed_info, sign_step, package_app_dir,
}
use appimagetool.Package.Runtime.{Places, IsRuntime}
use appimagetool.Package.Layout.{IsLaidOut-IsSealable}
use appimagetool.Package.Image.{image_of}
use appimagetool.Package.Digest.{signing-next}
use appimagetool.Package.Built.{IsBuilt, package_app_dir-IsBuilt, take-drop-embed_info}

-- The section for the update information lies beside the other three.
pub record IsApart (p : Places) : Type 0 where
  pub update_digest : Beside p.update p.digest
  pub update_signature : Beside p.update p.signature
  pub update_key : Beside p.update p.key

Beside-comm : (e f : Extent) → Beside e f → Beside f e
Beside-comm e f (inl h) = inr h
Beside-comm e f (inr h) = inl h

next-inj : {A : Type 0} (a b : A) → ◌≡◌ {A = Progress A} (next a) (next b) → a ≡ b
next-inj a b h = cc

sign_step-next :
    (sys : System) (o : Options) (source dest app_name arch hashed final : Bytes)
    → o.sign ≡ true
    → sign_step sys o source dest app_name arch hashed ≡ next final
    → signing (run_sign_appimage sys.signer o.verbose hashed) ≡ next final
unfolding sign_step
sign_step-next sys o source dest app_name arch hashed final signs h = rw signs at h

module _ (sys : System) (o : Options) (source dest app_name arch : Bytes) (p : Places)
    (data_ rest : Bytes)
    (of_16 : (ctx : sys.md5.Context) → length (sys.md5.finalise ctx) ≡ section_size)
    (whole : (i : ℕ) → length (sys.stack i) ≡ chunk_size)
    (law : IsGpgme sys.signer.gpgme sys.signer.sig_stack sys.signer.key_stack)
    (runtime : IsRuntime p data_) (apart : IsApart p) (short : length data_ < 2 ^ 31)
    (room : length data_ ≤ sys.space)
    (loads : load_runtime o.runtime_file sys.download ≡ next (length data_, data_ ++ rest))
    (bounded : (args : List (Option Bytes)) → length (sys.mksquashfs args).1 < 2 ^ 61) where
  -- A section of the runtime that the steps before leave empty.
  still-IsEmpty :
      (final : Bytes) (b : IsBuilt sys o source dest app_name arch p data_ final) (e : Extent)
      → e.offset + e.size ≤ length data_
      → Beside e p.update
      → Beside e p.digest
      → IsEmpty e data_
      → IsEmpty e b.hashed
  still-IsEmpty final b e inside update digest empty =
      take-drop-OnlyInside p.digest.offset p.digest.size e.offset e.size b.informed b.hashed
        b.digest_only digest
      ∙ take-drop-OnlyInside p.update.offset p.update.size e.offset e.size
          (image_of data_ b.squashed) b.informed b.update_only update
      ∙ drop-append_left e.offset e.size data_ (drop (length data_) b.squashed) inside
      ∙ empty

  -- When the program reports success and was asked to sign, the section `.sha256_sig` of the finished
  -- AppImage holds all bytes of a signature, `.sig_key` all bytes that GPGME exports of the key that
  -- made it, and the signature is that of the digits of the hash of the finished AppImage with these
  -- two sections emptied, where they held null bytes in the runtime. The sections of
  -- the runtime are found and placed as `IsRuntime` says: those of the digest, the signature and the
  -- key each lie in one chunk of 4096 bytes, behind its first byte, and no two in the same one; the
  -- section of the update information lies beside them. The runtime is smaller than 2^31 bytes and
  -- fits on the disk, which the program does not find out, mksquashfs leaves less than 2^61 bytes,
  -- MD5 gives 16, GPGME gives an object's bytes in one read and no more than is asked for, the
  -- buffers are as large as they are declared, and the uninitialised one of the digest holds the
  -- same at both computations.
  pub package_app_dir-IsSigned :
      (final : Bytes)
      → o.sign ≡ true
      → IsGenerous sys.signer.gpgme
      → IsEmpty p.signature data_
      → IsEmpty p.key data_
      → package_app_dir sys o source dest app_name arch ≡ next final
      → IsSigned sys.signer.gcrypt sys.signer.source sys.signer.gpgme
          (final_settings o.verbose sys.signer.passphrase)
          p.signature
          p.key
          (emptied p.signature (emptied p.key final))
          final
  package_app_dir-IsSigned final signs generous empty_signature empty_key h =
      let b =
        package_app_dir-IsBuilt sys o source dest app_name arch p data_ rest of_16 whole law runtime
          short room loads bounded final h in
      let s = sys.signer in
      let placed = runtime.placed in
      let wide = runtime.room in
      let digest_bytes : 0 < p.digest.size = omega arith in
      let beside_signature =
        Apart-Beside p.digest p.signature placed.digest_ends placed.signature_ends
          placed.digest_signature digest_bytes runtime.signature_bytes in
      let beside_key =
        Apart-Beside p.digest p.key placed.digest_ends placed.key_ends placed.digest_key
          digest_bytes runtime.key_bytes in
      let (w, run, is_final) =
        signing-next _ final
          (sign_step-next sys o source dest app_name arch b.hashed final signs b.signs) in
      rw (sym is_final) (
        emptied-IsSigned s.gcrypt s.source s.gpgme s.fuel s.sign_key o.verbose s.passphrase
          s.sig_disk s.sig_stack s.key_disk s.key_stack b.hashed s.settings w p.digest p.signature
          p.key law generous
          (IsLaidOut-IsSealable b.informed p.digest p.signature p.key b.laid b.hashed b.digest_only)
          (still-IsEmpty final b p.signature runtime.signature_inside
            (Beside-comm p.update p.signature apart.update_signature)
            (Beside-comm p.digest p.signature beside_signature) empty_signature)
          (still-IsEmpty final b p.key runtime.key_inside
            (Beside-comm p.update p.key apart.update_key) (Beside-comm p.digest p.key beside_key)
            empty_key)
          run)

  Beside-update :
      (info : Bytes) (e : Extent)
      → length info ≤ p.update.size
      → Beside p.update e
      → (p.update.offset + length info ≤ e.offset) ⊎ (e.offset + e.size ≤ p.update.offset)
  Beside-update info e fits beside = Beside-front p.update e (length info) fits beside

  -- When the program reports success and the disk took all of the update information, which the
  -- program does not find out, the text is in a known format and stands in the finished AppImage,
  -- signed or not, at the start of its section. The text is what was decided on: for a guessed one
  -- what is read of its buffer behind the end of the block that declares it. The sections of
  -- the runtime are found and placed as `IsRuntime` says: those of the digest, the signature and the
  -- key each lie in one chunk of 4096 bytes, behind its first byte, and no two in the same one; the
  -- section of the update information lies beside them. The runtime is smaller than 2^31 bytes and
  -- fits on the disk, mksquashfs leaves less than 2^61 bytes, MD5 gives 16, GPGME gives no more than
  -- is asked for, and the buffers are as large as they are declared.
  pub package_app_dir-update_information :
      (info final : Bytes)
      → decide_update_information sys o source dest app_name arch ≡ next (some info)
      → length info ≤ sys.update_io.space
      → package_app_dir sys o source dest app_name arch ≡ next final
      → (is_recognised sys.glib info ≡ true)
        × (take (length info) (drop p.update.offset final) ≡ info)
  package_app_dir-update_information info final decides space h =
      let b =
        package_app_dir-IsBuilt sys o source dest app_name arch p data_ rest of_16 whole law runtime
          short room loads bounded final h in
      let same : b.info ≡ some info = next-inj b.info (some info) (sym b.decides ∙ decides) in
      let (stands, fits, known) =
        take-drop-embed_info sys o source dest app_name arch p data_
          (drop (length data_) b.squashed) runtime b.small info b.informed space
          (subst
            (λ i.
              embed_info sys o source dest app_name arch i (image_of data_ b.squashed)
              ≡ next b.informed)
            same b.embeds) in
      let at = p.update.offset in
      let n = length info in
      (
        known,
        take-drop-OnlyInside p.key.offset p.key.size at n b.sealed.middle final b.sealed.second
              (Beside-update info p.key fits apart.update_key)
            ∙ take-drop-OnlyInside p.signature.offset p.signature.size at n b.hashed b.sealed.middle
                b.sealed.first (Beside-update info p.signature fits apart.update_signature)
            ∙ take-drop-OnlyInside p.digest.offset p.digest.size at n b.informed b.hashed
                b.digest_only (Beside-update info p.digest fits apart.update_digest)
            ∙ stands,
      )
