-- ===== src/Sign/Stands.antt =====
-- src/appimagetool_sign.c, `sign_appimage`: the signature and the key in the signed file.
use appimagetool.Base.{
  ℕ, zero, suc, ◌+◌, ◌≤◌, ◌<◌, ◌≡◌, refl, sym, ◌∙◌, inl, inr, Bool, true, Option, none, some, [],
  ◌∷◌, append-nil, arith, Option-cases, length, take, drop, write_at, take_all, drop_all, Bytes,
  codes,
}
use appimagetool.Elf.{Extent, mapping}
use appimagetool.Elf.Frame.{get_elf_section_within}
use appimagetool.Digest.{lookup, nowhere}
use appimagetool.Digest.Placed.{Beside, Beside-front, Apart-Beside}
use appimagetool.Embed.{overwrite}
use appimagetool.Embed.Write.{OnlyInside, take-drop-overwrite, take-drop-OnlyInside}
use appimagetool.Sign.{
  Data, Disk, Report, succeeded, read_loop, write_read, write_section, embed_data_in_elf_section,
}
use appimagetool.Sign.Hash.{Gcrypt, Source, calculate_sha256_hex_digest}
use appimagetool.Sign.Run.{Settings, World, returned}
use appimagetool.Sign.Steps.{Gpgme, sign_appimage}
use appimagetool.Sign.Branches.{final_settings}
use appimagetool.Sign.Complete.{nothing_held, sign_appimage-Signed}
use appimagetool.Sign.Sealed.{
  IsGpgme, IsSealable, without, unread_own, unread_first, Signed-OnlyInside,
}

-- An object of GPGME that gives all its bytes, at least one, in the first read, and then its end.
pub record IsWhole (object : Data) (content : Bytes) : Type 0 where
  pub first : object.read 0 object.end ≡ some content
  pub second : object.read 1 object.end ≡ some []
  pub some_bytes : 0 < length content
  pub all : length content ≡ object.end

-- Every signature and every key is such an object.
pub record IsGenerous (gpg : Gpgme) : Type 0 where
  pub signs_whole :
      (s : Settings) (k : gpg.Key) (text : Bytes) (object : Data)
      → gpg.op_sign s k text ≡ some object
      → (content : Bytes) × IsWhole object content
  pub exports_whole :
      (k : gpg.Key) (b : Bool) (object : Data)
      → gpg.op_export_keys k b ≡ some object
      → (content : Bytes) × IsWhole object content

-- All bytes of an object stand in the file from the start of a section on, and end in it.
pub record Holds (object : Data) (e : Extent) (file : Bytes) : Type 0 where
  pub content : Bytes
  pub given : object.read 0 object.end ≡ some content
  pub all : length content ≡ object.end
  pub fits : length content ≤ e.size
  pub stands : take (length content) (drop e.offset file) ≡ content

-- What the loop reads of such an object, whatever the fuel with which it ends.
read_loop-IsWhole :
    (object : Data) (fuel : ℕ) (stack content buffer : Bytes) (total : ℕ)
    → IsWhole object content
    → length stack ≡ object.end
    → object.end < 0x8000_0000_0000_0000
    → read_loop object fuel 0 0 stack ≡ some (total, buffer)
    → buffer ≡ content
unfolding read_loop
read_loop-IsWhole object zero stack content buffer total whole size small h = cc
read_loop-IsWhole object (suc fuel) stack [] buffer total whole size small h =
    let no_bytes = whole.some_bytes in absurd (omega arith)
read_loop-IsWhole object (suc zero) stack (b ∷ content) buffer total whole size small h =
    let first = whole.first in let never = rw (first, read_loop) at h in cc
read_loop-IsWhole object (suc (suc fuel)) stack (b ∷ content) buffer total whole size small h =
    let all = whole.all in
    let rest : drop (0 + length (b ∷ content)) stack ≡ [] =
      drop_all (0 + length (b ∷ content)) stack (omega arith) in
    let ended = rw (whole.first, read_loop) at h in
    let ended' = rw (whole.second, read_loop) at ended in
    let same : write_at 0 (b ∷ content) stack ≡ b ∷ content = rw (rest, append-nil content) refl in
    let is_buffer : write_at 0 (b ∷ content) stack ≡ buffer = cc in sym is_buffer ∙ same

-- What is behind the answer true: the section has room and what was read was written into it.
returned_true :
    (object : Data) (disk : Disk) (file : Bytes) (e : Extent) (total : ℕ) (buffer : Bytes)
    (r : Report)
    → r.returns ≡ true
    → write_read object disk file e (some (total, buffer)) ≡ some r
    → (disk.written ≡ object.end) × (r.file ≡ overwrite file e.offset (take disk.written buffer))
unfolding write_read write_section
returned_true object disk file e total buffer r true_ h = ground arith

not_refused :
    (object : Data) (disk : Disk) (file : Bytes) (fuel : ℕ) (elf_section stack : Bytes) (r : Report)
    (rv : Bool) (e : Extent)
    → lookup file elf_section ≡ some (rv, e)
    → r.returns ≡ true
    → embed_data_in_elf_section object disk file fuel elf_section stack ≡ some r
    → (object.end ≤ e.size)
      × (write_read object disk file e (read_loop object fuel 0 0 stack) ≡ some r)
unfolding embed_data_in_elf_section
not_refused object disk file fuel elf_section stack r rv e found true_ h =
    let h' = rw (found, embed_data_in_elf_section) at h in ground arith

never_read :
    (object : Data) (disk : Disk) (file : Bytes) (e : Extent) (r : Report)
    → write_read object disk file e none ≡ some r
    → ⊥
unfolding write_read
never_read object disk file e r h = cc

-- Where the function returned true, all that the object gives stands in the section.
embed_data_in_elf_section-Holds :
    (object : Data) (disk : Disk) (file changed : Bytes) (fuel : ℕ) (elf_section stack : Bytes)
    (e : Extent)
    → (content : Bytes) × IsWhole object content
    → lookup file elf_section ≡ some (true, e)
    → e.offset + e.size ≤ length file
    → length file < 0x4000_0000_0000_0000
    → length stack ≡ object.end
    → embed_data_in_elf_section object disk file fuel elf_section stack ≡ some (succeeded changed)
    → Holds object e changed
embed_data_in_elf_section-Holds object disk file changed fuel elf_section stack e (content, whole)
      found inside small size h =
    let (room, done) =
      not_refused object disk file fuel elf_section stack (succeeded changed) true e found refl h in
    elim (Option-cases (read_loop object fuel 0 0 stack)) [
      | inl never ↦ absurd (never_read object disk file e (succeeded changed) (rw never at done))
      | inr ((total, buffer), read) ↦
          let (written, is_changed) =
            returned_true object disk file e total buffer (succeeded changed) refl
              (rw read at done) in
          let all = whole.all in
          let same =
            read_loop-IsWhole object fuel stack content buffer total whole size (omega arith)
              read in
          let taken : take disk.written buffer ≡ content =
            rw (same, take_all disk.written content (omega arith)) refl in
          record {
            content = content;
            given = whole.first;
            all = all;
            fits = omega arith;
            stands =
                rw (is_changed, taken) (take-drop-overwrite e.offset content file (omega arith));
          }
    ]

-- A signed file: the signature that the key makes of the digits of the hash of a file stands in the
-- section of the signature, and what GPGME exports of that key stands in the section of the key.
pub record IsSigned (g : Gcrypt) (source : Source) (gpg : Gpgme) (settings : Settings)
    (signature key : Extent) (hashed_file final : Bytes) : Type 0 where
  pub signing_key : gpg.Key
  pub hex_digest : Bytes
  pub hashed : calculate_sha256_hex_digest g hashed_file source ≡ some (some hex_digest)
  pub made : Data
  pub signs : gpg.op_sign settings signing_key hex_digest ≡ some made
  pub holds_signature : Holds made signature final
  pub exported : Data
  pub exports : gpg.op_export_keys signing_key gpg.key_data_new ≡ some exported
  pub holds_key : Holds exported key final

-- What stands in one section stays there when the other is written.
Holds-OnlyInside :
    (object : Data) (e f : Extent) (file changed : Bytes)
    → Beside e f
    → Holds object e file
    → OnlyInside f.offset f.size file changed
    → Holds object e changed
Holds-OnlyInside object e f file changed beside holds only = record {
  content = holds.content;
  given = holds.given;
  all = holds.all;
  fits = holds.fits;
  stands =
      take-drop-OnlyInside f.offset f.size e.offset (length holds.content) file changed only
        (Beside-front e f (length holds.content) holds.fits beside)
      ∙ holds.stands;
}

-- When the function returns true, all bytes of the signature that the key makes of the digits of the
-- hash of the old file stand in the section `.sha256_sig` of the new one, and all bytes that GPGME
-- exports of the same key in the section `.sig_key`, each from the start of the section on and
-- within it. The sections are found and placed as `IsSealable` says, the buffers are as large as
-- is asked for, and GPGME gives an object's bytes in one read, no more than is asked for.
pub sign_appimage-IsSigned :
    (g : Gcrypt) (source : Source) (gpg : Gpgme) (fuel : ℕ) (key_id : Option Bytes) (verbose : Bool)
    (passphrase : Option Bytes) (sig_disk : Disk) (sig_stack : ℕ → Bytes) (key_disk : Disk)
    (key_stack : ℕ → Bytes) (file : Bytes) (s : Settings) (w : World)
    (digest signature key : Extent)
    → IsGpgme gpg sig_stack key_stack
    → IsGenerous gpg
    → IsSealable file digest signature key
    → sign_appimage g source gpg fuel key_id verbose passphrase sig_disk sig_stack key_disk
        key_stack
        (nothing_held file s)
      ≡ (returned true, w)
    → IsSigned g source gpg (final_settings verbose passphrase) signature key file w.file
sign_appimage-IsSigned g source gpg fuel key_id verbose passphrase sig_disk sig_stack key_disk
      key_stack file s w digest signature key law generous seal h =
    let signed =
      sign_appimage-Signed g source gpg fuel key_id verbose passphrase sig_disk sig_stack key_disk
        key_stack file s w h in
    let (first, second) =
      Signed-OnlyInside g source gpg fuel key_id verbose passphrase sig_disk sig_stack key_disk
        key_stack file w.file digest signature key law seal signed in
    let file1 = signed.with_signature in
    let settings = final_settings verbose passphrase in
    let size = first.0 in
    let small = seal.small in
    let inside = seal.key_inside in
    let placed = seal.placed in
    let m = without signature key file in
    let made_holds =
      embed_data_in_elf_section-Holds signed.signature sig_disk file file1 fuel
        (codes ".sha256_sig") (sig_stack signed.signature.end) signature
        (generous.signs_whole settings signed.key signed.hex_digest signed.signature signed.signs)
        (get_elf_section_within m (mapping file) (unread_own file signature key)
          (codes ".sha256_sig") nowhere (true, signature) seal.signature_found)
        seal.signature_inside small (law.sig_buffer signed.signature.end)
        signed.signature_embedded in
    let key_holds =
      embed_data_in_elf_section-Holds signed.exported key_disk file1 w.file fuel (codes ".sig_key")
        (key_stack signed.exported.end) key
        (generous.exports_whole signed.key gpg.key_data_new signed.exported signed.exports)
        (get_elf_section_within m (mapping file1) (unread_first file signature key file1 first)
          (codes ".sig_key") nowhere (true, key) seal.key_found)
        (omega arith) (omega arith) (law.key_buffer signed.exported.end) signed.key_embedded in
    record {
      signing_key = signed.key;
      hex_digest = signed.hex_digest;
      hashed = signed.hashed;
      made = signed.signature;
      signs = signed.signs;
      holds_signature =
          Holds-OnlyInside signed.signature signature key file1 w.file
            (Apart-Beside signature key placed.signature_ends placed.key_ends placed.signature_key
              seal.signature_bytes seal.key_bytes)
            made_holds second;
      exported = signed.exported;
      exports = signed.exports;
      holds_key = key_holds;
    }
