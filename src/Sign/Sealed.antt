-- ===== src/Sign/Sealed.antt =====
-- src/appimagetool_sign.c and src/digest.c: signing an AppImage leaves its digest as it is.
pub mod Sample
mod Tests
use appimagetool.Base.{
  ℕ, ◌+◌, ◌%◌, ◌≤◌, ◌<◌, ◌≡◌, refl, sym, ap, ◌∙◌, ◌⊎◌, inl, inr, Bool, true, Option, some, arith,
  length, Bytes, codes,
}
use appimagetool.Elf.{Memory, mapping, Extent, get_elf_section_offset_and_length}
use appimagetool.Elf.Frame.{Within, get_elf_section_within, masked, masked-eq-some}
use appimagetool.Digest.{
  Md5, chunk_size, lookup, nowhere, no_fuel_left, digest_md5, appimage_type2_digest_md5,
}
use appimagetool.Digest.Placed.{IsPlaced}
use appimagetool.Embed.Write.{OnlyInside}
use appimagetool.Embed.Changed.{OnlyInside-Within, digest_md5-OnlyInside}
use appimagetool.Sign.{Data, Disk, succeeded, embed_data_in_elf_section}
use appimagetool.Sign.Write.{ReadsWithin, embed_data_in_elf_section-OnlyInside}
use appimagetool.Sign.Hash.{Gcrypt, Source}
use appimagetool.Sign.Run.{Settings, World, returned}
use appimagetool.Sign.Steps.{Gpgme, sign_appimage}
use appimagetool.Sign.Branches.{final_settings}
use appimagetool.Sign.Complete.{Signed, nothing_held, sign_appimage-Signed}

pub masked-Within : (lo n : ℕ) (m : Memory) → Within (masked lo n m) m
masked-Within lo n m i b e = (masked-eq-some lo n m i b e).1

pub masked_outside :
    (lo n : ℕ) (m : Memory) (i b : ℕ)
    → (i < lo) ⊎ (lo + n ≤ i)
    → m i ≡ some b
    → masked lo n m i ≡ some b
masked_outside lo n m i b (inl h) e = ground arith
masked_outside lo n m i b (inr h) e = ground arith

-- The file without the bytes of two sections.
abbrev pub without : Extent → Extent → Bytes → Memory
without signature key file =
    masked signature.offset signature.size (masked key.offset key.size (mapping file))

-- The three sections are found without a read of the bytes of the signature or the key, these two
-- lie in the file, hold some bytes and begin behind the first byte of a chunk.
pub record IsSealable (file : Bytes) (digest signature key : Extent) : Type 0 where
  pub digest_found :
      get_elf_section_offset_and_length
        (some (without signature key file))
        (codes ".digest_md5")
        nowhere
      ≡ some (true, digest)
  pub signature_found :
      get_elf_section_offset_and_length
        (some (without signature key file))
        (codes ".sha256_sig")
        nowhere
      ≡ some (true, signature)
  pub key_found :
      get_elf_section_offset_and_length
        (some (without signature key file))
        (codes ".sig_key")
        nowhere
      ≡ some (true, key)
  pub placed : IsPlaced digest signature key
  pub signature_inside : signature.offset + signature.size ≤ length file
  pub key_inside : key.offset + key.size ≤ length file
  pub signature_behind : 0 < signature.offset % chunk_size
  pub key_behind : 0 < key.offset % chunk_size
  pub signature_bytes : 0 < signature.size
  pub key_bytes : 0 < key.size
  pub small : length file < 0x4000_0000_0000_0000

module _ (file : Bytes) (signature key : Extent) where
  pub unread_own : Within (without signature key file) (mapping file)
  unread_own i b e = masked-Within key.offset key.size (mapping file) i b (
      masked-Within signature.offset signature.size (masked key.offset key.size (mapping file)) i b
        e)

  pub unread_first :
      (file1 : Bytes)
      → OnlyInside signature.offset signature.size file file1
      → Within (without signature key file) (mapping file1)
  unread_first file1 first =
      OnlyInside-Within signature.offset signature.size file file1 (without signature key file)
        first
        (λ i b e.
          let (outside, read) =
            masked-eq-some signature.offset signature.size
              (masked key.offset key.size (mapping file)) i b e in
          masked_outside signature.offset signature.size (mapping file) i b outside
            (masked-Within key.offset key.size (mapping file) i b read))

digest_found_in :
    (md5 : Md5) (file : Bytes) (stack : ℕ → Bytes) (digest signature key : Extent)
    → lookup file (codes ".digest_md5") ≡ some (true, digest)
    → lookup file (codes ".sha256_sig") ≡ some (true, signature)
    → lookup file (codes ".sig_key") ≡ some (true, key)
    → appimage_type2_digest_md5 md5 file stack
      ≡ no_fuel_left (digest_md5 md5 file digest signature key stack)
unfolding appimage_type2_digest_md5
digest_found_in md5 file stack digest signature key a b c = rw (a, b, c)

module _ (md5 : Md5) (stack : ℕ → Bytes) (whole : (i : ℕ) → length (stack i) ≡ chunk_size)
    (file : Bytes) (digest signature key : Extent)
    (seal : IsSealable file digest signature key) where
  -- A changed file in which what is read outside of the two sections is the same.
  digest_of_changed :
      (changed : Bytes)
      → Within (without signature key file) (mapping changed)
      → digest_md5 md5 file digest signature key stack
        ≡ digest_md5 md5 changed digest signature key stack
      → appimage_type2_digest_md5 md5 changed stack ≡ appimage_type2_digest_md5 md5 file stack
  digest_of_changed changed w same =
      let m = without signature key file in
      digest_found_in md5 changed stack digest signature key
        (get_elf_section_within m (mapping changed) w (codes ".digest_md5") nowhere (true, digest)
          seal.digest_found)
        (get_elf_section_within m (mapping changed) w (codes ".sha256_sig") nowhere
          (true, signature) seal.signature_found)
        (get_elf_section_within m (mapping changed) w (codes ".sig_key") nowhere (true, key)
          seal.key_found)
      ∙ ap no_fuel_left (sym same)
      ∙ sym (
          digest_found_in md5 file stack digest signature key
            (get_elf_section_within m (mapping file) (unread_own file signature key)
              (codes ".digest_md5") nowhere (true, digest) seal.digest_found)
            (get_elf_section_within m (mapping file) (unread_own file signature key)
              (codes ".sha256_sig") nowhere (true, signature) seal.signature_found)
            (get_elf_section_within m (mapping file) (unread_own file signature key)
              (codes ".sig_key") nowhere (true, key) seal.key_found))

  -- Two changes, the first inside the signature's section and the second inside the key's.
  digest_of_both :
      (file1 file2 : Bytes)
      → OnlyInside signature.offset signature.size file file1
      → OnlyInside key.offset key.size file1 file2
      → appimage_type2_digest_md5 md5 file2 stack ≡ appimage_type2_digest_md5 md5 file stack
  digest_of_both file1 file2 first second =
      let m = without signature key file in
      let inner = masked key.offset key.size (mapping file) in
      let to_second : Within m (mapping file2) =
        OnlyInside-Within key.offset key.size file1 file2 m second (λ i b e.
          let read = masked-Within signature.offset signature.size inner i b e in
          masked_outside key.offset key.size (mapping file1) i b
            ((masked-eq-some key.offset key.size (mapping file) i b read).0)
            (unread_first file signature key file1 first i b e)) in
      let size = first.0 in
      let inside = seal.key_inside in
      let small = seal.small in
      digest_of_changed file2 to_second (
        digest_md5-OnlyInside md5 file file1 signature digest signature key stack first
          seal.signature_inside seal.placed (inr (inl refl)) seal.signature_behind
          seal.placed.signature_ends.0 seal.signature_bytes whole seal.small
        ∙ digest_md5-OnlyInside md5 file1 file2 key digest signature key stack second (omega arith)
            seal.placed (inr (inr refl)) seal.key_behind seal.placed.key_ends.0 seal.key_bytes whole
            (omega arith))

-- What GPGME is documented to give: no read of more than was asked for. A buffer of the size that is
-- asked for has that size.
pub record IsGpgme (gpg : Gpgme) (sig_stack key_stack : ℕ → Bytes) : Type 0 where
  pub signs_within :
      (s : Settings) (k : gpg.Key) (text : Bytes) (object : Data)
      → gpg.op_sign s k text ≡ some object
      → ReadsWithin object
  pub exports_within :
      (k : gpg.Key) (b : Bool) (object : Data)
      → gpg.op_export_keys k b ≡ some object
      → ReadsWithin object
  pub sig_buffer : (n : ℕ) → length (sig_stack n) ≡ n
  pub key_buffer : (n : ℕ) → length (key_stack n) ≡ n

-- The two embeddings.
pub Signed-OnlyInside :
    (g : Gcrypt) (source : Source) (gpg : Gpgme) (fuel : ℕ) (key_id : Option Bytes) (verbose : Bool)
    (passphrase : Option Bytes) (sig_disk : Disk) (sig_stack : ℕ → Bytes) (key_disk : Disk)
    (key_stack : ℕ → Bytes) (file final : Bytes) (digest signature key : Extent)
    → IsGpgme gpg sig_stack key_stack
    → IsSealable file digest signature key
    → (signed : Signed g source gpg fuel key_id verbose passphrase sig_disk sig_stack key_disk
        key_stack file final)
    → OnlyInside signature.offset signature.size file signed.with_signature
      × OnlyInside key.offset key.size signed.with_signature final
Signed-OnlyInside g source gpg fuel key_id verbose passphrase sig_disk sig_stack key_disk key_stack
      file final digest signature key law seal signed =
    let m = without signature key file in
    let file1 = signed.with_signature in
    let first : OnlyInside signature.offset signature.size file file1 =
      embed_data_in_elf_section-OnlyInside signed.signature sig_disk file fuel (codes ".sha256_sig")
        (sig_stack signed.signature.end) (succeeded file1) true signature
        (get_elf_section_within m (mapping file) (unread_own file signature key)
          (codes ".sha256_sig") nowhere (true, signature) seal.signature_found)
        seal.signature_inside
        (law.signs_within (final_settings verbose passphrase) signed.key signed.hex_digest
          signed.signature signed.signs)
        (law.sig_buffer signed.signature.end) signed.signature_embedded in
    let size = first.0 in
    let inside = seal.key_inside in
    let second : OnlyInside key.offset key.size file1 final =
      embed_data_in_elf_section-OnlyInside signed.exported key_disk file1 fuel (codes ".sig_key")
        (key_stack signed.exported.end) (succeeded final) true key
        (get_elf_section_within m (mapping file1) (unread_first file signature key file1 first)
          (codes ".sig_key") nowhere (true, key) seal.key_found)
        (omega arith)
        (law.exports_within signed.key gpg.key_data_new signed.exported signed.exports)
        (law.key_buffer signed.exported.end) signed.key_embedded in
    (first, second)

Signed-digest :
    (g : Gcrypt) (source : Source) (gpg : Gpgme) (fuel : ℕ) (key_id : Option Bytes) (verbose : Bool)
    (passphrase : Option Bytes) (sig_disk : Disk) (sig_stack : ℕ → Bytes) (key_disk : Disk)
    (key_stack : ℕ → Bytes) (file final : Bytes) (md5 : Md5) (stack : ℕ → Bytes)
    (digest signature key : Extent)
    → IsGpgme gpg sig_stack key_stack
    → ((i : ℕ) → length (stack i) ≡ chunk_size)
    → IsSealable file digest signature key
    → Signed g source gpg fuel key_id verbose passphrase sig_disk sig_stack key_disk key_stack file
        final
    → appimage_type2_digest_md5 md5 final stack ≡ appimage_type2_digest_md5 md5 file stack
Signed-digest g source gpg fuel key_id verbose passphrase sig_disk sig_stack key_disk key_stack file
      final md5 stack digest signature key law whole seal signed =
    let (first, second) =
      Signed-OnlyInside g source gpg fuel key_id verbose passphrase sig_disk sig_stack key_disk
        key_stack file final digest signature key law seal signed in
    digest_of_both md5 stack whole file digest signature key seal signed.with_signature final first
      second

-- Where the sections of the signature and the key each end in the chunk in which they begin, behind
-- its first byte, and no two sections begin in the same one, signing leaves the digest of the
-- AppImage as it is: what was computed and embedded before is still the digest after the function
-- returned true. The sections are found without a read of the bytes of these two, which lie in the
-- file, and the file is smaller than 2^62 bytes.
pub sign_appimage-digest :
    (g : Gcrypt) (source : Source) (gpg : Gpgme) (fuel : ℕ) (key_id : Option Bytes) (verbose : Bool)
    (passphrase : Option Bytes) (sig_disk : Disk) (sig_stack : ℕ → Bytes) (key_disk : Disk)
    (key_stack : ℕ → Bytes) (file : Bytes) (s : Settings) (w : World) (md5 : Md5)
    (stack : ℕ → Bytes) (digest signature key : Extent)
    → IsGpgme gpg sig_stack key_stack
    → ((i : ℕ) → length (stack i) ≡ chunk_size)
    → IsSealable file digest signature key
    → sign_appimage g source gpg fuel key_id verbose passphrase sig_disk sig_stack key_disk
        key_stack
        (nothing_held file s)
      ≡ (returned true, w)
    → appimage_type2_digest_md5 md5 w.file stack ≡ appimage_type2_digest_md5 md5 file stack
sign_appimage-digest g source gpg fuel key_id verbose passphrase sig_disk sig_stack key_disk
      key_stack file s w md5 stack digest signature key law whole seal h =
    Signed-digest g source gpg fuel key_id verbose passphrase sig_disk sig_stack key_disk key_stack
      file w.file md5 stack digest signature key law whole seal
      (sign_appimage-Signed g source gpg fuel key_id verbose passphrase sig_disk sig_stack key_disk
        key_stack file s w h)
