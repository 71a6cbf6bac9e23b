-- ===== src/Package/Layout.antt =====
-- src/appimagetool.c, `main`: where the sections of the runtime lie, before and after the digest.
use appimagetool.Base.{
  ℕ, ◌+◌, ◌%◌, ◌≤◌, ◌<◌, ◌≡◌, sym, ◌⊎◌, true, some, ◌++◌, arith, length, Bytes, codes,
}
use appimagetool.Elf.{Memory, mapping, Extent, get_elf_section_offset_and_length}
use appimagetool.Elf.Frame.{Within, get_elf_section_within, masked, masked-eq-some}
use appimagetool.Digest.{chunk_size, nowhere}
use appimagetool.Digest.Placed.{IsPlaced}
use appimagetool.Embed.{section_size}
use appimagetool.Embed.Write.{OnlyInside}
use appimagetool.Embed.Changed.{OnlyInside-Within}
use appimagetool.Embed.Stable.{FoundOutside, IsSound}
use appimagetool.Sign.Sealed.{masked_outside, without, IsSealable}

-- The file without the bytes of three sections.
abbrev pub apart : Extent → Extent → Extent → Bytes → Memory
apart digest signature key file = masked digest.offset digest.size (without signature key file)

-- The three sections are found without a read of their own bytes. They lie in the file behind the
-- first byte of a chunk, each in one chunk and no two in the same, the digest has room in its
-- section and the other two are not empty.
pub record IsLaidOut (file : Bytes) (digest signature key : Extent) : Type 0 where
  pub digest_found :
      get_elf_section_offset_and_length
        (some (apart digest signature key file))
        (codes ".digest_md5")
        nowhere
      ≡ some (true, digest)
  pub signature_found :
      get_elf_section_offset_and_length
        (some (apart digest signature key file))
        (codes ".sha256_sig")
        nowhere
      ≡ some (true, signature)
  pub key_found :
      get_elf_section_offset_and_length
        (some (apart digest signature key file))
        (codes ".sig_key")
        nowhere
      ≡ some (true, key)
  pub placed : IsPlaced digest signature key
  pub digest_inside : digest.offset + digest.size ≤ length file
  pub signature_inside : signature.offset + signature.size ≤ length file
  pub key_inside : key.offset + key.size ≤ length file
  pub digest_behind : 0 < digest.offset % chunk_size
  pub signature_behind : 0 < signature.offset % chunk_size
  pub key_behind : 0 < key.offset % chunk_size
  pub room : section_size ≤ digest.size
  pub signature_bytes : 0 < signature.size
  pub key_bytes : 0 < key.size
  pub small : length file < 0x4000_0000_0000_0000

module _ (file : Bytes) (digest signature key : Extent) where
  -- What is read stands outside of all three.
  apart-eq-some :
      (i b : ℕ)
      → apart digest signature key file i ≡ some b
      → ((i < digest.offset) ⊎ (digest.offset + digest.size ≤ i))
        × ((i < signature.offset) ⊎ (signature.offset + signature.size ≤ i))
        × ((i < key.offset) ⊎ (key.offset + key.size ≤ i))
        × (mapping file i ≡ some b)
  apart-eq-some i b e =
      let inner = masked key.offset key.size (mapping file) in
      let (d, e1) = masked-eq-some digest.offset digest.size (without signature key file) i b e in
      let (s, e2) = masked-eq-some signature.offset signature.size inner i b e1 in
      let (k, e3) = masked-eq-some key.offset key.size (mapping file) i b e2 in (d, s, k, e3)

  apart-Within :
      Within (apart digest signature key file) (masked digest.offset digest.size (mapping file))
  apart-Within i b e =
      let (d, s, k, read) = apart-eq-some i b e in
      masked_outside digest.offset digest.size (mapping file) i b d read

  found_outside :
      (before old after name : Bytes) (e : Extent)
      → length before ≡ digest.offset
      → length old ≡ digest.size
      → before ++ (old ++ after) ≡ file
      → get_elf_section_offset_and_length (some (apart digest signature key file)) name nowhere
        ≡ some (true, e)
      → FoundOutside (length before) (length old) (before ++ (old ++ after)) name e
  found_outside before old after name e at_length old_length whole h =
      rw (at_length, old_length, whole)
        (get_elf_section_within (apart digest signature key file)
          (masked digest.offset digest.size (mapping file)) apart-Within name nowhere (true, e) h)

  module _ (laid : IsLaidOut file digest signature key) where
    -- The file in three parts, around the section of the digest.
    pub IsLaidOut-IsSound :
        (before old after : Bytes)
        → length before ≡ digest.offset
        → length old ≡ digest.size
        → before ++ (old ++ after) ≡ file
        → IsSound before old after digest signature key
    IsLaidOut-IsSound before old after at_length old_length whole =
        let room = laid.room in
        let behind = laid.digest_behind in
        let small = laid.small in
        record {
          digest_found =
              found_outside before old after (codes ".digest_md5") digest at_length old_length whole
                laid.digest_found;
          signature_found =
              found_outside before old after (codes ".sha256_sig") signature at_length old_length
                whole laid.signature_found;
          key_found =
              found_outside before old after (codes ".sig_key") key at_length old_length whole
                laid.key_found;
          offset = sym at_length;
          size = sym old_length;
          room = omega arith;
          behind = rw at_length behind;
          placed = laid.placed;
          small = rw whole small;
        }

    module _ (changed : Bytes) (only : OnlyInside digest.offset digest.size file changed) where
      still_there : Within (apart digest signature key file) (without signature key changed)
      still_there i b e =
          let (d, s, k, read) = apart-eq-some i b e in
          masked_outside signature.offset signature.size
            (masked key.offset key.size (mapping changed)) i b s
            (masked_outside key.offset key.size (mapping changed) i b k (
              OnlyInside-Within digest.offset digest.size file changed
                (apart digest signature key file) only apart-Within i b e))

      found_again :
          (name : Bytes) (e : Extent)
          → get_elf_section_offset_and_length (some (apart digest signature key file)) name nowhere
            ≡ some (true, e)
          → get_elf_section_offset_and_length (some (without signature key changed)) name nowhere
            ≡ some (true, e)
      found_again name e h =
          get_elf_section_within (apart digest signature key file) (without signature key changed)
            still_there name nowhere (true, e) h

      pub IsLaidOut-IsSealable : IsSealable changed digest signature key
      IsLaidOut-IsSealable =
          let same = only.0 in
          let signature_inside = laid.signature_inside in
          let key_inside = laid.key_inside in
          let small = laid.small in
          record {
            digest_found = found_again (codes ".digest_md5") digest laid.digest_found;
            signature_found = found_again (codes ".sha256_sig") signature laid.signature_found;
            key_found = found_again (codes ".sig_key") key laid.key_found;
            placed = laid.placed;
            signature_inside = omega arith;
            key_inside = omega arith;
            signature_behind = laid.signature_behind;
            key_behind = laid.key_behind;
            signature_bytes = laid.signature_bytes;
            key_bytes = laid.key_bytes;
            small = omega arith;
          }
