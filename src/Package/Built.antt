-- ===== src/Package/Built.antt =====
-- src/appimagetool.c, `main`: the files between the steps.
use mathlib.Core.Path.{subst}
use appimagetool.Base.{
  ℕ, ◌+◌, ◌^◌, ◌≤◌, ◌<◌, ◌≡◌, refl, true, Option, none, some, List, ◌++◌, arith, if◌then◌else◌,
  length, take, drop, length-append, length-drop, Bytes, codes,
}
use appimagetool.Squashfs.{Request, mksquashfs_args, parent_succeeds, sfs_mksquashfs}
use appimagetool.Digest.{chunk_size, lookup}
use appimagetool.UpdateInfo.{is_recognised}
use appimagetool.Embed.{section_size, embed_update_information}
use appimagetool.Embed.Write.{
  OnlyInside, embed_update_information-OnlyInside, take-drop-embed_update_information,
}
use appimagetool.Sign.Sealed.{IsGpgme}
use appimagetool.Package.Layout.{IsLaidOut}
use appimagetool.Package.{
  sign_step, next, Options, System, load_runtime, squashfs_request, make_image, embed_info,
  package_app_dir, decide_update_information,
}
use appimagetool.Package.Runtime.{
  Places, IsRuntime, IsLike, IsLike-refl, IsLike-OnlyInside, found_in_file, IsRuntime-IsLaidOut,
}
use appimagetool.Package.Image.{image_of, make_image-image}
use appimagetool.Package.Digest.{
  HoldsItsDigest, OnlySigned, >>=-eq-next, embedding-next, seal_steps-HoldsItsDigest,
}

module _ (p : Places) (image informed hashed final : Bytes) where
  -- What the digest and the signature change lies in their sections.
  pub IsLike-OnlySigned :
      IsLike p image informed
      → OnlyInside p.digest.offset p.digest.size informed hashed
      → OnlySigned p.signature p.key hashed final
      → IsLike p image final
  IsLike-OnlySigned like only sealed =
      let like1 =
        IsLike-OnlyInside p image informed hashed p.digest (λ i free. free.of_digest) like only in
      let like2 =
        IsLike-OnlyInside p image hashed sealed.middle p.signature (λ i free. free.of_signature)
          like1 sealed.first in
      IsLike-OnlyInside p image sealed.middle final p.key (λ i free. free.of_key) like2
        sealed.second

module _ (sys : System) (o : Options) (source dest app_name arch : Bytes) where
  module _ (p : Places) (data_ payload : Bytes) (runtime : IsRuntime p data_)
      (small : length (data_ ++ payload) < 0x4000_0000_0000_0000) where
    pub update_found_in : lookup (data_ ++ payload) (codes ".upd_info") ≡ some (true, p.update)
    update_found_in =
        let image = data_ ++ payload in
        found_in_file p data_ payload image (IsLike-refl p image) (codes ".upd_info") p.update
          runtime.update_found

    embed_info-OnlyInside :
        (info : Option Bytes) (informed : Bytes)
        → embed_info sys o source dest app_name arch info (data_ ++ payload) ≡ next informed
        → OnlyInside p.update.offset p.update.size (data_ ++ payload) informed
    unfolding embed_info
    embed_info-OnlyInside none informed h =
        let same : data_ ++ payload ≡ informed = cc in
        subst (OnlyInside p.update.offset p.update.size (data_ ++ payload)) same
          (refl, λ i outside. refl)
    embed_info-OnlyInside (some info) informed h =
        let image = data_ ++ payload in
        let inside = runtime.update_inside in
        (embed_update_information-OnlyInside sys.glib sys.update_io info image informed true
          p.update update_found_in (omega (arith, length-append data_ payload)) (omega arith)
          (embedding-next (embed_update_information sys.glib sys.update_io info image) informed
            h)).0

    pub take-drop-embed_info :
        (info informed : Bytes)
        → length info ≤ sys.update_io.space
        → embed_info sys o source dest app_name arch (some info) (data_ ++ payload) ≡ next informed
        → (take (length info) (drop p.update.offset informed) ≡ info)
          × (length info ≤ p.update.size)
          × (is_recognised sys.glib info ≡ true)
    unfolding embed_info
    take-drop-embed_info info informed space h =
        let image = data_ ++ payload in
        let inside = runtime.update_inside in
        let within : p.update.offset + p.update.size ≤ length image =
          omega (arith, length-append data_ payload) in
        let small' : length image < 0x8000_0000_0000_0000 = omega arith in
        let done =
          embedding-next (embed_update_information sys.glib sys.update_io info image) informed h in
        let (only, fits, known) =
          embed_update_information-OnlyInside sys.glib sys.update_io info image informed true
            p.update update_found_in within small' done in
        (
          take-drop-embed_update_information sys.glib sys.update_io info image informed true
              p.update update_found_in within small' space done,
          fits,
          known,
        )

-- The steps from the runtime to the AppImage with the files between them.
pub record IsBuilt (sys : System) (o : Options) (source dest app_name arch : Bytes) (p : Places)
    (data_ final : Bytes) : Type 0 where
  pub squashed : Bytes
  pub made :
      sfs_mksquashfs sys.mksquashfs
        (squashfs_request sys o source dest app_name arch (length data_))
      ≡ some squashed
  pub info : Option Bytes
  pub decides : decide_update_information sys o source dest app_name arch ≡ next info
  pub informed : Bytes
  pub embeds :
      embed_info sys o source dest app_name arch info (image_of data_ squashed) ≡ next informed
  pub small : length (image_of data_ squashed) < 0x4000_0000_0000_0000
  pub update_only : OnlyInside p.update.offset p.update.size (image_of data_ squashed) informed
  pub like : IsLike p (image_of data_ squashed) informed
  pub laid : IsLaidOut informed p.digest p.signature p.key
  pub hashed : Bytes
  pub digest_only : OnlyInside p.digest.offset p.digest.size informed hashed
  pub sealed : OnlySigned p.signature p.key hashed final
  pub signs : sign_step sys o source dest app_name arch hashed ≡ next final
  pub holds : HoldsItsDigest sys p.digest final

module _ (sys : System) (o : Options) (source dest app_name arch : Bytes) (p : Places)
    (data_ rest : Bytes)
    (of_16 : (ctx : sys.md5.Context) → length (sys.md5.finalise ctx) ≡ section_size)
    (whole : (i : ℕ) → length (sys.stack i) ≡ chunk_size)
    (law : IsGpgme sys.signer.gpgme sys.signer.sig_stack sys.signer.key_stack)
    (runtime : IsRuntime p data_) (short : length data_ < 2 ^ 31) (room : length data_ ≤ sys.space)
    (loads : load_runtime o.runtime_file sys.download ≡ next (length data_, data_ ++ rest))
    (bounded : (args : List (Option Bytes)) → length (sys.mksquashfs args).1 < 2 ^ 61) where
  sfs_mksquashfs-bounded :
      (r : Request) (squashed : Bytes)
      → sfs_mksquashfs sys.mksquashfs r ≡ some squashed
      → length squashed < 2 ^ 61
  unfolding sfs_mksquashfs
  sfs_mksquashfs-bounded r squashed h = left_by_child (mksquashfs_args r) h
    where
      left_by_child :
          (m : Option (List (Option Bytes)))
          → elim m [
            | none ↦ none
            | some args ↦
                if parent_succeeds (sys.mksquashfs args).0
                then some (sys.mksquashfs args).1
                else none
          ]
            ≡ some squashed
          → length squashed < 2 ^ 61
      left_by_child none k = cc
      left_by_child (some args) k = let left = bounded args in ground arith

  pub package_app_dir-IsBuilt :
      (final : Bytes)
      → package_app_dir sys o source dest app_name arch ≡ next final
      → IsBuilt sys o source dest app_name arch p data_ final
  unfolding package_app_dir
  package_app_dir-IsBuilt final h =
      let inside = runtime.key_inside in
      let some_bytes = runtime.key_bytes in
      let (image, makes, h1) = >>=-eq-next (make_image sys o source dest app_name arch) _ final h in
      let (info, decides, h2) =
        >>=-eq-next (decide_update_information sys o source dest app_name arch) _ final h1 in
      let (informed, embeds, h3) =
        >>=-eq-next (embed_info sys o source dest app_name arch info image) _ final h2 in
      let (squashed, made, same) =
        make_image-image sys o source dest app_name arch data_ rest image loads (omega arith) room
          makes in
      let behind = drop (length data_) squashed in
      let size = sfs_mksquashfs-bounded _ squashed made in
      let small : length (data_ ++ behind) < 0x4000_0000_0000_0000 =
        omega (arith, length-append data_ behind, length-drop (length data_) squashed) in
      let only_update =
        embed_info-OnlyInside sys o source dest app_name arch p data_ behind runtime small info
          informed
          (subst (λ f. embed_info sys o source dest app_name arch info f ≡ next informed) same
            embeds) in
      let like =
        IsLike-OnlyInside p (data_ ++ behind) (data_ ++ behind) informed p.update
          (λ i free. free.of_update) (IsLike-refl p (data_ ++ behind)) only_update in
      let laid = IsRuntime-IsLaidOut p data_ behind informed like runtime small in
      let (holds, hashed, only, sealed, signs) =
        seal_steps-HoldsItsDigest sys o source dest app_name arch p.digest p.signature p.key of_16
          whole law image informed info laid final h3 in
      record {
        squashed = squashed;
        made = made;
        info = info;
        decides = decides;
        informed = informed;
        embeds =
            subst (λ f. embed_info sys o source dest app_name arch info f ≡ next informed) same
              embeds;
        small = small;
        update_only = only_update;
        like = like;
        laid = laid;
        hashed = hashed;
        digest_only = only;
        sealed = sealed;
        signs = signs;
        holds = holds;
      }
