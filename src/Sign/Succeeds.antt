-- ===== src/Sign/Succeeds.antt =====
-- src/appimagetool_sign.c, `sign_appimage`: a file with its sections in place is signed when nothing
-- outside of the program fails.
use appimagetool.Base.{
  ℕ, suc, ◌+◌, ◌%◌, ◌≤◌, ◌<◌, ◌≡◌, Bool, true, Option, some, List, [], arith, length, Bytes, codes,
}
use appimagetool.Elf.{Extent, mapping}
use appimagetool.Elf.Frame.{get_elf_section_within}
use appimagetool.Digest.{chunk_size, lookup, nowhere}
use appimagetool.Embed.Write.{OnlyInside}
use appimagetool.Sign.{Data, Disk, succeeded, embed_data_in_elf_section}
use appimagetool.Sign.Write.{IsWell, embed_data_in_elf_section_lem}
use appimagetool.Sign.Hash.{Gcrypt, Source, calculate_sha256_hex_digest}
use appimagetool.Sign.Run.{Settings, World, returned}
use appimagetool.Sign.Steps.{Engine, Gpgme, sign_appimage}
use appimagetool.Sign.Branches.{final_settings}
use appimagetool.Sign.Complete.{nothing_held}
use appimagetool.Sign.Agreed.{IsAgreed, sign_appimage-IsAgreed}
use appimagetool.Sign.Sealed.{IsSealable, without, unread_own, unread_first}

-- GPGME gives all of an object, which fits a section, in one read, and the disk takes it.
pub record Delivers (object : Data) (disk : Disk) (stack : ℕ → Bytes) (e : Extent) : Type 0 where
  pub content : Bytes
  pub first : object.read 0 object.end ≡ some content
  pub second : object.read 1 object.end ≡ some []
  pub some_bytes : 0 < length content
  pub all : length content ≡ object.end
  pub room : object.end ≤ e.size
  pub stack_size : length (stack object.end) ≡ object.end
  pub rewinds : object.rewinds ≡ true
  pub opens : disk.opens ≡ true
  pub written : disk.written ≡ object.end
  pub closes : disk.closes ≡ true

module _ (object : Data) (disk : Disk) (stack : ℕ → Bytes) (e : Extent) (file name : Bytes)
    (fuel : ℕ) (delivers : Delivers object disk stack e) (found : lookup file name ≡ some (true, e))
    (behind : 0 < e.offset % chunk_size) (inside : e.offset + e.size ≤ length file)
    (small : length file < 0x4000_0000_0000_0000) where
  Delivers-succeeded :
      (changed : Bytes) × (embed_data_in_elf_section object disk file
          (suc (suc fuel))
          name
          (stack object.end)
        ≡ some (succeeded changed))
      × OnlyInside e.offset e.size file changed
  Delivers-succeeded =
      let some_bytes = delivers.some_bytes in
      let all = delivers.all in
      let room = delivers.room in
      let well : IsWell object disk file name e = record {
        found = found;
        placed = omega arith;
        room = room;
        some_bytes = omega arith;
        inside = inside;
        small = omega arith;
        rewinds = delivers.rewinds;
        opens = delivers.opens;
        written = delivers.written;
        closes = delivers.closes;
      } in
      let (changed, done, only, _) =
        embed_data_in_elf_section_lem object disk file fuel name (stack object.end) delivers.content
          e well delivers.first delivers.second some_bytes all delivers.stack_size in
      (changed, done, only)

-- With a file that can be hashed, a GPGME that agrees, and a signature and a key that are delivered,
-- the function returns true.
pub sign_appimage-IsSealable :
    (g : Gcrypt) (source : Source) (gpg : Gpgme) (fuel : ℕ) (key_id : Option Bytes) (key : gpg.Key)
    (engines : List Engine) (engine : Engine) (minor : ℕ) (verbose : Bool)
    (passphrase : Option Bytes) (sig_disk : Disk) (sig_stack : ℕ → Bytes) (key_disk : Disk)
    (key_stack : ℕ → Bytes) (file : Bytes) (s : Settings) (digest signature key_section : Extent)
    (hex_digest : Bytes) (made exported : Data)
    → IsAgreed gpg key_id key engines engine minor
    → IsSealable file digest signature key_section
    → calculate_sha256_hex_digest g file source ≡ some (some hex_digest)
    → gpg.op_sign (final_settings verbose passphrase) key hex_digest ≡ some made
    → Delivers made sig_disk sig_stack signature
    → gpg.op_export_keys key true ≡ some exported
    → Delivers exported key_disk key_stack key_section
    → (w : World) × (sign_appimage g source gpg
          (suc (suc fuel))
          key_id
          verbose
          passphrase
          sig_disk
          sig_stack
          key_disk
          key_stack
          (nothing_held file s)
        ≡ (returned true, w))
sign_appimage-IsSealable g source gpg fuel key_id key engines engine minor verbose passphrase
      sig_disk sig_stack key_disk key_stack file s digest signature key_section hex_digest made
      exported agreed seal hashed signs delivers exports delivers_key =
    let m = without signature key_section file in
    let (file1, embedded, first) =
      Delivers-succeeded made sig_disk sig_stack signature file (codes ".sha256_sig") fuel delivers
        (get_elf_section_within m (mapping file) (unread_own file signature key_section)
          (codes ".sha256_sig") nowhere (true, signature) seal.signature_found)
        seal.signature_behind seal.signature_inside seal.small in
    let size = first.0 in
    let inside = seal.key_inside in
    let small = seal.small in
    let (signed, embedded_key, second) =
      Delivers-succeeded exported key_disk key_stack key_section file1 (codes ".sig_key") fuel
        delivers_key
        (get_elf_section_within m (mapping file1)
          (unread_first file signature key_section file1 first) (codes ".sig_key") nowhere
          (true, key_section) seal.key_found)
        seal.key_behind (omega arith) (omega arith) in
    (
      _,
      sign_appimage-IsAgreed g source gpg (suc (suc fuel)) key_id key engines engine minor agreed
          verbose passphrase sig_disk sig_stack key_disk key_stack file s hex_digest made exported
          file1 signed hashed signs embedded exports embedded_key,
    )
