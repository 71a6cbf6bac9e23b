-- ===== src/Package/Runtime.antt =====
-- src/appimagetool.c, `main`: what a runtime must be like, and the files that are made of it.
use appimagetool.Base.{
  ℕ, zero, suc, ◌+◌, ◌%◌, ◌≤◌, ◌<◌, ◌≡◌, refl, ◌∙◌, ◌⊎◌, true, some, [], ◌∷◌, ◌++◌, arith, length,
  get_elem?, length-append, Bytes, codes,
}
use appimagetool.Elf.{Memory, mapping, Extent, get_elf_section_offset_and_length}
use appimagetool.Elf.Frame.{Within, get_elf_section_within, masked, masked-eq-some}
use appimagetool.Digest.{chunk_size, nowhere}
use appimagetool.Digest.Placed.{IsPlaced}
use appimagetool.Embed.{section_size}
use appimagetool.Embed.Write.{OnlyInside}
use appimagetool.Sign.Sealed.{masked_outside, without}
use appimagetool.Package.Layout.{apart, IsLaidOut}

-- The four sections of a runtime.
pub record Places : Type 0 where
  pub update : Extent
  pub digest : Extent
  pub signature : Extent
  pub key : Extent

-- An index outside of a section, and outside of all four.
abbrev pub Outside : Extent → ℕ → Type 0
Outside e i = (i < e.offset) ⊎ (e.offset + e.size ≤ i)

pub record Free (p : Places) (i : ℕ) : Type 0 where
  pub of_update : Outside p.update i
  pub of_digest : Outside p.digest i
  pub of_signature : Outside p.signature i
  pub of_key : Outside p.key i

-- The bytes of the runtime itself, but for those of the four sections.
abbrev pub bare : Places → Bytes → Memory
bare p data_ = masked p.update.offset p.update.size (
    masked p.digest.offset p.digest.size (
      masked p.signature.offset p.signature.size
        (masked p.key.offset p.key.size (λ i. get_elem? data_ i))))

abbrev pub Finds : Places → Bytes → Bytes → Extent → Type 0
Finds p data_ name e =
    get_elf_section_offset_and_length (some (bare p data_)) name nowhere ≡ some (true, e)

-- The four sections are found in the runtime without a read of their bytes, or of a byte that is not
-- in the runtime, and lie in it. Those for the digest, the signature and the key lie behind the
-- first byte of a chunk, each in one chunk and no two in the same; the digest has room, and the
-- other two are not empty.
pub record IsRuntime (p : Places) (data_ : Bytes) : Type 0 where
  pub update_found : Finds p data_ (codes ".upd_info") p.update
  pub digest_found : Finds p data_ (codes ".digest_md5") p.digest
  pub signature_found : Finds p data_ (codes ".sha256_sig") p.signature
  pub key_found : Finds p data_ (codes ".sig_key") p.key
  pub placed : IsPlaced p.digest p.signature p.key
  pub update_inside : p.update.offset + p.update.size ≤ length data_
  pub digest_inside : p.digest.offset + p.digest.size ≤ length data_
  pub signature_inside : p.signature.offset + p.signature.size ≤ length data_
  pub key_inside : p.key.offset + p.key.size ≤ length data_
  pub digest_behind : 0 < p.digest.offset % chunk_size
  pub signature_behind : 0 < p.signature.offset % chunk_size
  pub key_behind : 0 < p.key.offset % chunk_size
  pub room : section_size ≤ p.digest.size
  pub signature_bytes : 0 < p.signature.size
  pub key_bytes : 0 < p.key.size

-- A file as long as the image that the runtime begins, and like it outside of the four sections.
pub record IsLike (p : Places) (image file : Bytes) : Type 0 where
  pub same_length : length file ≡ length image
  pub same_byte : (i : ℕ) → Free p i → get_elem? file i ≡ get_elem? image i

pub IsLike-refl : (p : Places) (image : Bytes) → IsLike p image image
IsLike-refl p image = record { same_length = refl; same_byte = λ i free. refl }

-- A change inside of one of the sections.
pub IsLike-OnlyInside :
    (p : Places) (image file changed : Bytes) (e : Extent)
    → ((i : ℕ) → Free p i → Outside e i)
    → IsLike p image file
    → OnlyInside e.offset e.size file changed
    → IsLike p image changed
IsLike-OnlyInside p image file changed e one like (size, same) = record {
  same_length = size ∙ like.same_length;
  same_byte = λ i free. same i (one i free) ∙ like.same_byte i free;
}

-- What can be read of the runtime's bytes outside of the sections.
bare-eq-some :
    (p : Places) (data_ : Bytes) (i b : ℕ)
    → bare p data_ i ≡ some b
    → Free p i × (get_elem? data_ i ≡ some b)
bare-eq-some p data_ i b e =
    let m3 = λ (j : ℕ). get_elem? data_ j in
    let m2 = masked p.key.offset p.key.size m3 in
    let m1 = masked p.signature.offset p.signature.size m2 in
    let (u, e1) =
      masked-eq-some p.update.offset p.update.size (masked p.digest.offset p.digest.size m1) i b
        e in
    let (d, e2) = masked-eq-some p.digest.offset p.digest.size m1 i b e1 in
    let (s, e3) = masked-eq-some p.signature.offset p.signature.size m2 i b e2 in
    let (k, read) = masked-eq-some p.key.offset p.key.size m3 i b e3 in
    (record { of_update = u; of_digest = d; of_signature = s; of_key = k }, read)

get_elem?-append_some :
    (xs ys : Bytes) (i b : ℕ) → get_elem? xs i ≡ some b → get_elem? (xs ++ ys) i ≡ some b
get_elem?-append_some [] ys i b h = cc
get_elem?-append_some (x ∷ xs) ys zero b h = h
get_elem?-append_some (x ∷ xs) ys (suc i) b h = get_elem?-append_some xs ys i b h

module _ (p : Places) (data_ payload file : Bytes) (like : IsLike p (data_ ++ payload) file) where
  read_through : (i b : ℕ) → bare p data_ i ≡ some b → Free p i × (mapping file i ≡ some b)
  read_through i b e =
      let (free, read) = bare-eq-some p data_ i b e in
      let there : get_elem? file i ≡ some b =
        like.same_byte i free ∙ get_elem?-append_some data_ payload i b read in
      (free, rw there refl)

  pub bare-mapping : Within (bare p data_) (mapping file)
  bare-mapping i b e = (read_through i b e).1

  bare-apart : Within (bare p data_) (apart p.digest p.signature p.key file)
  bare-apart i b e =
      let (free, read) = read_through i b e in
      masked_outside p.digest.offset p.digest.size (without p.signature p.key file) i b
        free.of_digest
        (masked_outside p.signature.offset p.signature.size
          (masked p.key.offset p.key.size (mapping file)) i b free.of_signature
          (masked_outside p.key.offset p.key.size (mapping file) i b free.of_key read))

  -- A section that is found in the runtime is found in the file, whatever its bytes are.
  pub found_in_file :
      (name : Bytes) (e : Extent)
      → Finds p data_ name e
      → get_elf_section_offset_and_length (some (mapping file)) name nowhere ≡ some (true, e)
  found_in_file name e h =
      get_elf_section_within (bare p data_) (mapping file) bare-mapping name nowhere (true, e) h

  found_apart :
      (name : Bytes) (e : Extent)
      → Finds p data_ name e
      → get_elf_section_offset_and_length
          (some (apart p.digest p.signature p.key file))
          name
          nowhere
        ≡ some (true, e)
  found_apart name e h =
      get_elf_section_within (bare p data_) (apart p.digest p.signature p.key file) bare-apart name
        nowhere (true, e) h

  module _ (runtime : IsRuntime p data_)
      (small : length (data_ ++ payload) < 0x4000_0000_0000_0000) where
    reaches : length data_ ≤ length file
    reaches = let same = like.same_length in omega (arith, length-append data_ payload)

    pub IsRuntime-IsLaidOut : IsLaidOut file p.digest p.signature p.key
    IsRuntime-IsLaidOut =
        let reach = reaches in
        let same = like.same_length in
        let a = runtime.digest_inside in
        let b = runtime.signature_inside in
        let c = runtime.key_inside in
        record {
          digest_found = found_apart (codes ".digest_md5") p.digest runtime.digest_found;
          signature_found = found_apart (codes ".sha256_sig") p.signature runtime.signature_found;
          key_found = found_apart (codes ".sig_key") p.key runtime.key_found;
          placed = runtime.placed;
          digest_inside = omega arith;
          signature_inside = omega arith;
          key_inside = omega arith;
          digest_behind = runtime.digest_behind;
          signature_behind = runtime.signature_behind;
          key_behind = runtime.key_behind;
          room = runtime.room;
          signature_bytes = runtime.signature_bytes;
          key_bytes = runtime.key_bytes;
          small = omega arith;
        }
