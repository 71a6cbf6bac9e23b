-- ===== src/Package/Image.antt =====
-- src/appimagetool.c, `main`: the runtime in front of what mksquashfs left.
use appimagetool.Base.{
  ℕ, ◌+◌, ◌-◌, ◌≤◌, ◌<◌, ◌≡◌, refl, ap, ◌∙◌, false, some, [], ◌∷◌, ◌++◌, append-nil, arith, ltb,
  le→ltb, length, take, drop, length-append, take_all, drop-append_right, Bytes,
}
use appimagetool.Squashfs.{sfs_mksquashfs}
use appimagetool.Embed.{overwrite}
use appimagetool.Package.{
  next, or_exit, or_die, Options, System, load_runtime, embed_elf, squashfs_request, make_image,
}
use appimagetool.Package.Digest.{>>=-eq-next, or_die-next, or_exit-next}

-- The runtime over the start of the file system image.
abbrev pub image_of : Bytes → Bytes → Bytes
image_of data_ squashed = data_ ++ drop (length data_) squashed

overwrite_start :
    (data_ squashed : Bytes)
    → 0 < length data_
    → overwrite squashed 0 data_ ≡ image_of data_ squashed
unfolding overwrite
overwrite_start [] squashed h = absurd (omega arith)
overwrite_start (b ∷ data_) squashed h =
    let no_gap : 0 - length squashed ≡ 0 = omega arith in
    let start : 0 + length (b ∷ data_) ≡ length (b ∷ data_) = omega arith in
    rw (no_gap, append-nil squashed, start)

take-append : (xs ys : Bytes) → take (length xs) (xs ++ ys) ≡ xs
take-append [] ys = refl
take-append (x ∷ xs) ys = ap (λ t. x ∷ t) (take-append xs ys)

pub embed_elf-image :
    (space : ℕ) (data_ rest squashed : Bytes)
    → 0 < length data_
    → length data_ ≤ space
    → embed_elf space (length data_, data_ ++ rest) squashed ≡ next (image_of data_ squashed)
unfolding embed_elf
embed_elf-image space data_ rest squashed some_bytes room =
    let enough : ltb (length (data_ ++ rest)) (length data_) ≡ false =
      le→ltb (length (data_ ++ rest)) (length data_) (omega (arith, length-append data_ rest)) in
    rw (
      enough,
      take-append data_ rest,
      take_all space data_ room,
      overwrite_start data_ squashed some_bytes,
    )

pub drop-image_of :
    (data_ squashed : Bytes)
    → drop (length data_) (image_of data_ squashed) ≡ drop (length data_) squashed
drop-image_of data_ squashed =
    let all : length data_ - length data_ ≡ 0 = omega arith in
    drop-append_right (length data_) data_ (drop (length data_) squashed) (omega arith)
    ∙ ap (λ n. drop n (drop (length data_) squashed)) all

-- Where the image was made, it is the runtime over the start of the file that mksquashfs left.
module _ (sys : System) (o : Options) (source dest app_name arch : Bytes) where
  pub make_image-image :
      (data_ rest image : Bytes)
      → load_runtime o.runtime_file sys.download ≡ next (length data_, data_ ++ rest)
      → 0 < length data_
      → length data_ ≤ sys.space
      → make_image sys o source dest app_name arch ≡ next image
      → (squashed : Bytes) × (sfs_mksquashfs sys.mksquashfs
            (squashfs_request sys o source dest app_name arch (length data_))
          ≡ some squashed)
        × (image ≡ image_of data_ squashed)
  unfolding make_image
  make_image-image data_ rest image loads some_bytes room h =
      let h1 = rw loads at h in
      let (squashed, made, h2) =
        >>=-eq-next
          (or_exit (
            sfs_mksquashfs sys.mksquashfs
              (squashfs_request sys o source dest app_name arch (length data_))))
          _ image h1 in
      let (embedded_image, embeds, h3) =
        >>=-eq-next (or_die sys.opens (embed_elf sys.space (length data_, data_ ++ rest) squashed))
          _ image h2 in
      let written =
        (or_die-next sys.opens (embed_elf sys.space (length data_, data_ ++ rest) squashed)
          embedded_image embeds).1 in
      let same = (or_die-next sys.chmods (next embedded_image) image h3).1 in
      let is_image = embed_elf-image sys.space data_ rest squashed some_bytes room in
      (squashed, or_exit-next _ squashed made, cc)
