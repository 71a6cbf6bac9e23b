-- ===== src/Embed/Stable.antt =====
-- src/appimagetool.c, `main`, and src/digest.c: the digest written into the AppImage is the digest
-- of the AppImage that it is written into.
use appimagetool.Base.{
  ℕ, ◌%◌, ◌≤◌, ◌<◌, ◌≡◌, refl, sym, ap, ◌∙◌, inl, true, false, some, ◌++◌, append_assoc, arith, ltb,
  ◌==◌, le→ltb, length, take, drop, length-append, take-append-drop, length-take, length-drop,
  Bytes, codes, count, is_neg64,
}
use mathlib.Core.List.{foldl}
use appimagetool.Digest.{
  Md5, Extent, chunk_size, nowhere, lookup, digest_md5, appimage_type2_digest_md5,
}
use appimagetool.Digest.Bounds.{digest_md5_total}
use appimagetool.Digest.Ignores.{digest_md5_ignores}
use appimagetool.Digest.Placed.{IsPlaced}
use appimagetool.Elf.{mapping, get_elf_section_offset_and_length}
use appimagetool.Elf.Frame.{masked, get_elf_section_frame}
use appimagetool.Embed.{overwrite, Io, embedded, embed_md5_digest, write_digest, section_size}
use appimagetool.Embed.Write.{
  overwrite_lem, OnlyInside, overwrite-OnlyInside, take-drop-overwrite, widened,
}

-- The lookup of a section in the file succeeds without a read of the `n` bytes from `at` on.
abbrev pub FoundOutside : ℕ → ℕ → Bytes → Bytes → Extent → Type 0
FoundOutside at n file name e =
    get_elf_section_offset_and_length (some (masked at n (mapping file))) name nowhere
    ≡ some (true, e)

-- The function on a file whose three sections are found.
digest_md5_found :
    (md5 : Md5) (file : Bytes) (stack : ℕ → Bytes) (digest signature key : Extent) (d : Bytes)
    → lookup file (codes ".digest_md5") ≡ some (true, digest)
    → lookup file (codes ".sha256_sig") ≡ some (true, signature)
    → lookup file (codes ".sig_key") ≡ some (true, key)
    → digest_md5 md5 file digest signature key stack ≡ some (some d)
    → appimage_type2_digest_md5 md5 file stack ≡ some (some d)
unfolding appimage_type2_digest_md5
digest_md5_found md5 file stack digest signature key d a b c h = rw (a, b, c, h)

embed_found :
    (md5 : Md5) (stack : ℕ → Bytes) (io : Io) (file d : Bytes) (e : Extent)
    → lookup file (codes ".digest_md5") ≡ some (true, e)
    → appimage_type2_digest_md5 md5 file stack ≡ some (some d)
    → 0 < e.offset
    → e.offset < 0x4000_0000_0000_0000
    → section_size ≤ e.size
    → io.opens ≡ true
    → section_size ≤ io.space
    → embed_md5_digest md5 stack io file ≡ some (embedded (overwrite file e.offset d))
unfolding embed_md5_digest write_digest
embed_found md5 stack io file d e found computed placed low fits opens room_left =
    let zero_offset : (e.offset == 0) ≡ false = ground arith in
    let zero_size : (e.size == 0) ≡ false = ground arith in
    let sign_bit : is_neg64 e.offset ≡ false = ground arith in
    let roomy : ltb e.size section_size ≡ false = le→ltb e.size section_size fits in
    let space : ltb io.space section_size ≡ false = le→ltb io.space section_size room_left in
    rw (found, embed_md5_digest)
      (rw (zero_offset, zero_size, roomy, computed, opens, sign_bit, space))

-- A write at the start of a stretch exchanges the stretch.
overwrite-stretch :
    (before old after d : Bytes)
    → length d ≤ length old
    → overwrite (before ++ (old ++ after)) (length before) d
      ≡ before ++ ((d ++ drop (length d) old) ++ after)
overwrite-stretch before old after d fits =
    let head = take (length d) old in
    let tail = drop (length d) old in
    let size : length head ≡ length d = omega (arith, length-take (length d) old) in
    ap (λ o. overwrite (before ++ (o ++ after)) (length before) d)
      (sym (take-append-drop (length d) old))
    ∙ ap (λ o. overwrite (before ++ o) (length before) d) (append_assoc head tail after)
    ∙ overwrite_lem before head d (tail ++ after) size
    ∙ ap (λ o. before ++ o) (sym (append_assoc d tail after))

-- The three sections are found without a read of the digest's own bytes. The digest's section is
-- `old`, has room for the digest and begins behind the first byte of a chunk.
pub record IsSound (before old after : Bytes) (digest signature key : Extent) : Type 0 where
  pub digest_found :
      FoundOutside
        (length before)
        (length old)
        (before ++ (old ++ after))
        (codes ".digest_md5")
        digest
  pub signature_found :
      FoundOutside
        (length before)
        (length old)
        (before ++ (old ++ after))
        (codes ".sha256_sig")
        signature
  pub key_found :
      FoundOutside (length before) (length old) (before ++ (old ++ after)) (codes ".sig_key") key
  pub offset : digest.offset ≡ length before
  pub size : digest.size ≡ length old
  pub room : section_size ≤ length old
  pub behind : 0 < length before % chunk_size
  pub placed : IsPlaced digest signature key
  pub small : length (before ++ (old ++ after)) < 0x4000_0000_0000_0000

digest_embedded :
    (md5 : Md5) (stack : ℕ → Bytes) (io : Io) (before old after : Bytes)
    (digest signature key : Extent) (d : Bytes)
    → IsSound before old after digest signature key
    → ((i : ℕ) → length (stack i) ≡ chunk_size)
    → io.opens ≡ true
    → section_size ≤ io.space
    → digest_md5 md5 (before ++ (old ++ after)) digest signature key stack ≡ some (some d)
    → length d ≡ section_size
    → (embed_md5_digest md5 stack io (before ++ (old ++ after))
        ≡ some (embedded (overwrite (before ++ (old ++ after)) (length before) d)))
      × (appimage_type2_digest_md5 md5
            (overwrite (before ++ (old ++ after)) (length before) d)
            stack
          ≡ some (some d))
digest_embedded md5 stack io before old after digest signature key d sound whole opens room_left
      computed of_16 =
    let offset = sound.offset in
    let size = sound.size in
    let room = sound.room in
    let behind = sound.behind in
    let ends = sound.placed.digest_ends in
    let new = d ++ drop (length d) old in
    let same : length old ≡ length new =
      omega (arith, length-append d (drop (length d) old), length-drop (length d) old) in
    let f1 =
      get_elf_section_frame before old new after (codes ".digest_md5") nowhere (true, digest) same
        sound.digest_found in
    let f2 =
      get_elf_section_frame before old new after (codes ".sha256_sig") nowhere (true, signature)
        same sound.signature_found in
    let f3 =
      get_elf_section_frame before old new after (codes ".sig_key") nowhere (true, key) same
        sound.key_found in
    let ignored =
      digest_md5_ignores md5 before old new after same digest digest signature key stack
        sound.placed (inl refl) offset size behind (omega arith) (omega arith) whole sound.small in
    (
      rw (sym offset) (
          embed_found md5 stack io (before ++ (old ++ after)) d digest (f1.0)
            (digest_md5_found md5 (before ++ (old ++ after)) stack digest signature key d f1.0 f2.0
              f3.0 computed)
            (omega arith) (ends.1) (omega arith) opens room_left),
      rw (overwrite-stretch before old after d (omega arith)) (
          digest_md5_found md5 (before ++ (new ++ after)) stack digest signature key d f1.1 f2.1
            f3.1 (sym ignored ∙ computed)),
    )

overwrite_digest :
    (before old after d : Bytes) (e : Extent)
    → e.offset ≡ length before
    → e.size ≡ length old
    → section_size ≤ length old
    → length d ≡ section_size
    → (take section_size (drop e.offset (overwrite (before ++ (old ++ after)) (length before) d))
        ≡ d)
      × OnlyInside e.offset e.size
          (before ++ (old ++ after))
          (overwrite (before ++ (old ++ after)) (length before) d)
overwrite_digest before old after d e offset size room of_16 =
    let file = before ++ (old ++ after) in
    let all = length-append before (old ++ after) in
    let all' = length-append old after in
    (
      rw offset (
          ap (λ n. take n (drop (length before) (overwrite file (length before) d))) (sym of_16)
          ∙ take-drop-overwrite (length before) d file (omega arith)),
      rw offset (
          widened {at = length before} {n = length d} {m = e.size} file
            (overwrite file (length before) d) (omega arith)
            (overwrite-OnlyInside (length before) d file (omega arith))),
    )

-- The step for the digest succeeds, writes 16 bytes at the offset of its section and changes
-- nothing outside of it, and the function then computes from the changed file the very digest
-- that stands there. This holds for a file below 2^62 bytes in which the three sections are found
-- without a read of the digest's own bytes, each section ends in the chunk in which it begins, no
-- two that are not empty begin in the same one, and the section for the digest has at least 16
-- bytes and begins behind the first byte of a chunk. A digest has 16 bytes, both runs find the
-- same bytes on the stack, the file opens and the disk takes 16 bytes.
pub embed_md5_digest_lem :
    (md5 : Md5) (stack : ℕ → Bytes) (io : Io) (before old after : Bytes)
    (digest signature key : Extent)
    → IsSound before old after digest signature key
    → ((ctx : md5.Context) → length (md5.finalise ctx) ≡ section_size)
    → ((i : ℕ) → length (stack i) ≡ chunk_size)
    → io.opens ≡ true
    → section_size ≤ io.space
    → (d changed : Bytes) × (embed_md5_digest md5 stack io (before ++ (old ++ after))
        ≡ some (embedded changed))
      × (appimage_type2_digest_md5 md5 changed stack ≡ some (some d))
      × (take section_size (drop digest.offset changed) ≡ d)
      × OnlyInside digest.offset digest.size (before ++ (old ++ after)) changed
embed_md5_digest_lem md5 stack io before old after digest signature key sound of_16 whole opens
      room_left =
    let ends = sound.placed.digest_ends.0 in
    let ends' = sound.placed.signature_ends.0 in
    let ends'' = sound.placed.key_ends.0 in
    let offset = sound.offset in
    let size = sound.size in
    let room = sound.room in
    let file = before ++ (old ++ after) in
    let (blocks, computed, sized, count) =
      digest_md5_total md5 file digest signature key stack (omega arith) (omega arith) (omega arith)
        whole in
    let d = md5.finalise (foldl md5.update md5.initialise blocks) in
    let d_16 = of_16 (foldl md5.update md5.initialise blocks) in
    let (done, stable) =
      digest_embedded md5 stack io before old after digest signature key d sound whole opens
        room_left computed d_16 in
    let (there, only) = overwrite_digest before old after d digest offset size room d_16 in
    (d, overwrite file (length before) d, done, stable, there, only)
