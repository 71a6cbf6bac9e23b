-- ===== src/Package/Succeeds.antt =====
-- src/appimagetool.c, `main`: the steps from the runtime on succeed when nothing outside of the program
-- fails.
pub mod Sample
mod Tests
use mathlib.Core.Path.{subst}
use appimagetool.Base.{
  ℕ, ◌^◌, ◌<◌, ◌≡◌, refl, sym, ap, ◌∙◌, ◌⊎◌, inl, inr, true, false, Option, none, some, ◌++◌, arith,
  Bool-cases, length, take, drop, length-append, length-take, length-drop, Bytes,
}
use appimagetool.Sign.Run.{returned}
use appimagetool.Digest.{chunk_size}
use appimagetool.Embed.{section_size, embed_md5_digest}
use appimagetool.Embed.Write.{OnlyInside, file_parts, widened, embed_update_information_lem}
use appimagetool.Embed.Stable.{embed_md5_digest_lem}
use appimagetool.Sign.Sealed.{IsSealable}
use appimagetool.Sign.Succeeds.{sign_appimage-IsSealable}
use appimagetool.Package.{
  next, Options, System, run_sign_appimage, load_runtime, squashfs_request,
  decide_update_information, embed_info, embed_digest, embedding, sign_step, package_app_dir,
}
use appimagetool.Package.Runtime.{
  Places, IsRuntime, IsLike-refl, IsLike-OnlyInside, IsRuntime-IsLaidOut,
}
use appimagetool.Package.Layout.{IsLaidOut, IsLaidOut-IsSound, IsLaidOut-IsSealable}
use appimagetool.Package.Image.{image_of}
use appimagetool.Package.Built.{update_found_in}
use appimagetool.Package.Able.{
  hash_of, Signs, Fits, IsAble, sfs_mksquashfs-IsAble, make_zsync-IsAble, make_image-IsAble,
}

module _ (sys : System) (o : Options) (source dest app_name arch : Bytes) (p : Places)
    (data_ payload : Bytes) (able : IsAble sys o (length data_)) (runtime : IsRuntime p data_)
    (small : length (data_ ++ payload) < 0x4000_0000_0000_0000) where
  embed_info-Fits :
      (info : Option Bytes)
      → Fits sys p info
      → (informed : Bytes) × (embed_info sys o source dest app_name arch info (data_ ++ payload)
          ≡ next informed)
        × OnlyInside p.update.offset p.update.size (data_ ++ payload) informed
  unfolding embed_info
  embed_info-Fits none fits = (data_ ++ payload, refl, (refl, λ i outside. refl))
  embed_info-Fits (some info) (known, fits, space, placed, some_bytes) =
      let inside = runtime.update_inside in
      let (informed, done, only, _) =
        embed_update_information_lem sys.glib sys.update_io info (data_ ++ payload) p.update
          (update_found_in sys o source dest app_name arch p data_ payload runtime small)
          (omega (arith, length-append data_ payload)) placed some_bytes fits space (omega arith)
          known able.update_opens in
      (informed, ap embedding done, widened (data_ ++ payload) informed fits only)

  embed_digest-IsLaidOut :
      ((ctx : sys.md5.Context) → length (sys.md5.finalise ctx) ≡ section_size)
      → ((i : ℕ) → length (sys.stack i) ≡ chunk_size)
      → (informed : Bytes) → IsLaidOut informed p.digest p.signature p.key
      → (hashed : Bytes) × (embed_digest sys o source dest app_name arch informed ≡ next hashed)
        × OnlyInside p.digest.offset p.digest.size informed hashed
  unfolding embed_digest
  embed_digest-IsLaidOut of_16 whole informed laid =
      let before = take p.digest.offset informed in
      let old = take p.digest.size (drop p.digest.offset informed) in
      let after = drop p.digest.size (drop p.digest.offset informed) in
      let inside = laid.digest_inside in
      let parts = file_parts p.digest.offset p.digest.size informed in
      let at_length : length before ≡ p.digest.offset =
        omega (arith, length-take p.digest.offset informed) in
      let old_length : length old ≡ p.digest.size = omega (
        arith,
        length-take p.digest.size (drop p.digest.offset informed),
        length-drop p.digest.offset informed,
      ) in
      let sound =
        IsLaidOut-IsSound informed p.digest p.signature p.key laid before old after at_length
          old_length (sym parts) in
      let (d, hashed, done, stable, there, only) =
        embed_md5_digest_lem sys.md5 sys.stack sys.digest_io before old after p.digest p.signature
          p.key sound of_16 whole able.digest_opens able.digest_space in
      (
        hashed,
        ap (λ f. embedding (embed_md5_digest sys.md5 sys.stack sys.digest_io f)) parts
            ∙ ap embedding done,
        subst (λ f. OnlyInside p.digest.offset p.digest.size f hashed) (sym parts) only,
      )

-- A file that can be signed is, or is left as it is.
sign_step-Signs :
    (sys : System) (o : Options) (source dest app_name arch : Bytes) (p : Places) (hashed : Bytes)
    → (o.sign ≡ false) ⊎ Signs sys.signer o.verbose p
    → IsSealable hashed p.digest p.signature p.key
    → (final : Bytes) × (sign_step sys o source dest app_name arch hashed ≡ next final)
unfolding sign_step
sign_step-Signs sys o source dest app_name arch p hashed (inl unsigned) seal =
    (hashed, rw unsigned refl)
sign_step-Signs sys o source dest app_name arch p hashed (inr signs) seal =
    let s = sys.signer in
    let (text, is_hash) = hash_of s.gcrypt s.source signs.hashes hashed in
    let (w, run) =
      sign_appimage-IsSealable s.gcrypt s.source s.gpgme signs.fuel s.sign_key signs.key
        signs.engines signs.engine signs.minor o.verbose s.passphrase s.sig_disk s.sig_stack
        s.key_disk s.key_stack hashed s.settings p.digest p.signature p.key text (signs.made text)
        signs.exported signs.agreed seal is_hash (signs.signs text) (signs.delivers text)
        signs.exports signs.delivers_key in
    let run' : run_sign_appimage s o.verbose hashed ≡ (returned true, w) = rw signs.enough run in
    elim (Bool-cases o.sign) [
      | inl wanted ↦ (w.file, rw (wanted, run') refl)
      | inr unwanted ↦ (hashed, rw unwanted refl)
    ]

module _ (sys : System) (o : Options) (source dest app_name arch : Bytes) (p : Places)
    (data_ rest : Bytes)
    (of_16 : (ctx : sys.md5.Context) → length (sys.md5.finalise ctx) ≡ section_size)
    (whole : (i : ℕ) → length (sys.stack i) ≡ chunk_size) (runtime : IsRuntime p data_)
    (short : length data_ < 2 ^ 31)
    (loads : load_runtime o.runtime_file sys.download ≡ next (length data_, data_ ++ rest)) where
  -- When nothing outside of the program fails, as `IsAble` and, where it is to sign, `Signs` say, the
  -- runtime has its sections as `IsRuntime` says, and the update information that was decided on, if
  -- there is one, is in a known format and has room, the steps from the runtime on end with an
  -- AppImage. MD5 gives 16 bytes, the stack is as large as it is declared, and the runtime is smaller
  -- than 2^31 bytes.
  pub package_app_dir-IsAble :
      (info : Option Bytes)
      → IsAble sys o (length data_)
      → decide_update_information sys o source dest app_name arch ≡ next info
      → Fits sys p info
      → (o.sign ≡ false) ⊎ Signs sys.signer o.verbose p
      → (final : Bytes) × (package_app_dir sys o source dest app_name arch ≡ next final)
  unfolding package_app_dir squashfs_request
  package_app_dir-IsAble info able decides fits signs =
      let inside = runtime.key_inside in
      let some_bytes = runtime.key_bytes in
      let (squashed, made, size) =
        sfs_mksquashfs-IsAble sys o source dest app_name arch (length data_) able
          (squashfs_request sys o source dest app_name arch (length data_)) refl refl in
      let behind = drop (length data_) squashed in
      let image = image_of data_ squashed in
      let small : length image < 0x4000_0000_0000_0000 =
        omega (arith, length-append data_ behind, length-drop (length data_) squashed) in
      let makes =
        make_image-IsAble sys o source dest app_name arch (length data_) able data_ rest squashed
          refl (omega arith) loads made in
      let (informed, embeds, update_only) =
        embed_info-Fits sys o source dest app_name arch p data_ behind able runtime small info
          fits in
      let like =
        IsLike-OnlyInside p image image informed p.update (λ i free. free.of_update)
          (IsLike-refl p image) update_only in
      let laid = IsRuntime-IsLaidOut p data_ behind informed like runtime small in
      let (hashed, hashes, only) =
        embed_digest-IsLaidOut sys o source dest app_name arch p data_ behind able runtime small
          of_16 whole informed laid in
      let (final, seals) =
        sign_step-Signs sys o source dest app_name arch p hashed signs
          (IsLaidOut-IsSealable informed p.digest p.signature p.key laid hashed only) in
      let zsync = make_zsync-IsAble sys o source dest app_name arch (length data_) able info in
      (final, simp (makes, decides, embeds, hashes, seals, zsync))
