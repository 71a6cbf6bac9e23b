-- ===== src/Package/Finished.antt =====
-- src/appimagetool.c, `main`: what the finished AppImage is made of.

use appimagetool.Base.{
  ℕ, ◌+◌, ◌-◌, ◌^◌, ◌≤◌, ◌<◌, ◌≡◌, ◌∙◌, inr, Option, some, List, ◌++◌, arith, length, get_elem?,
  drop, length-append, length-drop, get_elem?-append_left, drop-eq_of_get_elem?, Bytes,
}
use appimagetool.Squashfs.{sfs_mksquashfs}
use appimagetool.Squashfs.Offset.{number_of, number_of-print_int}
use appimagetool.Digest.{chunk_size}
use appimagetool.Embed.{section_size}
use appimagetool.Sign.Sealed.{IsGpgme}
use appimagetool.Package.{next, Options, System, load_runtime, squashfs_request, package_app_dir}
use appimagetool.Package.Runtime.{Places, Free, IsRuntime, IsLike}
use appimagetool.Package.Image.{image_of, drop-image_of}
use appimagetool.Package.Built.{IsLike-OnlySigned, package_app_dir-IsBuilt}
use appimagetool.Package.Digest.{HoldsItsDigest}

-- What the finished AppImage is made of. `mksquashfs` was told to leave room for the runtime, and
-- left the file `squashed`. The AppImage is as long as the runtime with what stands behind it in that
-- file, which it holds unchanged, and it holds the runtime's bytes but for those of the four
-- sections, and its own digest.
pub record IsFinished (sys : System) (o : Options) (source dest app_name arch : Bytes) (p : Places)
    (data_ final : Bytes) : Type 0 where
  pub squashed : Bytes
  pub made :
      sfs_mksquashfs sys.mksquashfs
        (squashfs_request sys o source dest app_name arch (length data_))
      ≡ some squashed
  pub offset :
      number_of 0 (squashfs_request sys o source dest app_name arch (length data_)).offset_string
      ≡ length data_
  pub size : length final ≡ length data_ + (length squashed - length data_)
  pub runtime : (i : ℕ) → i < length data_ → Free p i → get_elem? final i ≡ get_elem? data_ i
  pub payload : drop (length data_) final ≡ drop (length data_) squashed
  pub holds : HoldsItsDigest sys p.digest final

-- Behind the runtime no section is.
IsRuntime-Free :
    (p : Places) (data_ : Bytes) → IsRuntime p data_ → (i : ℕ) → length data_ ≤ i → Free p i
IsRuntime-Free p data_ runtime i h =
    let u = runtime.update_inside in
    let d = runtime.digest_inside in
    let s = runtime.signature_inside in
    let k = runtime.key_inside in
    record {
      of_update = inr (omega arith);
      of_digest = inr (omega arith);
      of_signature = inr (omega arith);
      of_key = inr (omega arith);
    }

module _ (sys : System) (o : Options) (source dest app_name arch : Bytes) (p : Places)
    (data_ rest : Bytes)
    (of_16 : (ctx : sys.md5.Context) → length (sys.md5.finalise ctx) ≡ section_size)
    (whole : (i : ℕ) → length (sys.stack i) ≡ chunk_size)
    (law : IsGpgme sys.signer.gpgme sys.signer.sig_stack sys.signer.key_stack)
    (runtime : IsRuntime p data_) (short : length data_ < 2 ^ 31) (room : length data_ ≤ sys.space)
    (loads : load_runtime o.runtime_file sys.download ≡ next (length data_, data_ ++ rest))
    (bounded : (args : List (Option Bytes)) → length (sys.mksquashfs args).1 < 2 ^ 61) where
  IsLike-IsFinished :
      (squashed final : Bytes)
      → sfs_mksquashfs sys.mksquashfs
          (squashfs_request sys o source dest app_name arch (length data_))
        ≡ some squashed
      → IsLike p (image_of data_ squashed) final
      → HoldsItsDigest sys p.digest final
      → IsFinished sys o source dest app_name arch p data_ final
  unfolding squashfs_request
  IsLike-IsFinished squashed final made like holds =
      let behind = drop (length data_) squashed in
      record {
        squashed = squashed;
        made = made;
        offset = number_of-print_int (length data_) short;
        size =
            like.same_length
            ∙ omega (arith, length-append data_ behind, length-drop (length data_) squashed);
        runtime = λ i lt free. like.same_byte i free ∙ get_elem?-append_left data_ behind i lt;
        payload =
            drop-eq_of_get_elem? (length data_) final (image_of data_ squashed) like.same_length
              (λ i h. like.same_byte i (IsRuntime-Free p data_ runtime i h))
            ∙ drop-image_of data_ squashed;
        holds = holds;
      }

  -- When the program reports success, the AppImage is finished as `IsFinished` says: it is the runtime
  -- and behind it, unchanged, what mksquashfs left behind as many bytes, which is the offset that it
  -- was called with; the runtime's bytes are changed in its four sections alone; and the digest that
  -- is computed from the finished file, signed or not, is the one in the section `.digest_md5`. The
  -- sections of the runtime are found and placed as `IsRuntime` says: those of the digest, the
  -- signature and the key each lie in one chunk of 4096 bytes, behind its first byte, and no two in
  -- the same one, so that a `.sig_key` of 8192 bytes is not covered. The runtime is smaller than
  -- 2^31 bytes and fits on the disk, which the program does not find out, and mksquashfs leaves less
  -- than 2^61 bytes. MD5 gives 16 bytes, GPGME no more than is asked for, the buffers are as large
  -- as they are declared, and the uninitialised one of the digest holds the same at both
  -- computations.
  pub package_app_dir-IsFinished :
      (final : Bytes)
      → package_app_dir sys o source dest app_name arch ≡ next final
      → IsFinished sys o source dest app_name arch p data_ final
  package_app_dir-IsFinished final h =
      let b =
        package_app_dir-IsBuilt sys o source dest app_name arch p data_ rest of_16 whole law runtime
          short room loads bounded final h in
      IsLike-IsFinished b.squashed final b.made
        (IsLike-OnlySigned p (image_of data_ b.squashed) b.informed b.hashed final b.like
          b.digest_only b.sealed)
        b.holds
