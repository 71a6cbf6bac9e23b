-- ===== src/Sign/Verified.antt =====
-- src/appimagetool_sign.c: what a reader of a signed AppImage can check. The signature is that of the
-- file as it is with its two sections empty.
use mathlib.Core.Path.{subst}
use appimagetool.Base.{
  ℕ, ◌+◌, ◌≤◌, ◌≡◌, sym, ap, ap₂, ◌∙◌, inl, inr, Bool, true, Option, ◌++◌, arith, length, take,
  drop, replicate, length-replicate, drop-drop, take-eq_of_get_elem?, drop-eq_of_get_elem?, Bytes,
}
use appimagetool.Elf.{Extent}
use appimagetool.Digest.Placed.{Beside, Apart-Beside}
use appimagetool.Embed.{overwrite}
use appimagetool.Embed.Write.{
  OnlyInside, file_parts, overwrite-OnlyInside, take-drop-overwrite, take-drop-OnlyInside,
}
use appimagetool.Sign.{Disk}
use appimagetool.Sign.Hash.{Gcrypt, Source}
use appimagetool.Sign.Run.{Settings, World, returned}
use appimagetool.Sign.Steps.{Gpgme, sign_appimage}
use appimagetool.Sign.Branches.{final_settings}
use appimagetool.Sign.Complete.{nothing_held, sign_appimage-Signed}
use appimagetool.Sign.Stands.{IsGenerous, IsSigned, sign_appimage-IsSigned}
use appimagetool.Sign.Sealed.{IsGpgme, IsSealable, Signed-OnlyInside}

-- A section of null bytes, and a file with a section emptied.
abbrev pub IsEmpty : Extent → Bytes → Type 0
IsEmpty e file = take e.size (drop e.offset file) ≡ replicate e.size 0

abbrev pub emptied : Extent → Bytes → Bytes
emptied e file = overwrite file e.offset (replicate e.size 0)

-- Two files that differ at most in a stretch, and not there either.
OnlyInside-eq :
    (at n : ℕ) (file changed : Bytes)
    → OnlyInside at n file changed
    → take n (drop at changed) ≡ take n (drop at file)
    → changed ≡ file
OnlyInside-eq at n file changed (size, same) inner =
    let before = take-eq_of_get_elem? at changed file size (λ i lt. same i (inl lt)) in
    let after =
      drop-drop n at changed
      ∙ drop-eq_of_get_elem? (at + n) changed file size (λ i le. same i (inr le))
      ∙ sym (drop-drop n at file) in
    file_parts at n changed
    ∙ ap₂ (λ (a b : Bytes). a ++ b) before (ap₂ (λ (a b : Bytes). a ++ b) inner after)
    ∙ sym (file_parts at n file)

-- A section that was empty is emptied again.
emptied-OnlyInside :
    (e : Extent) (file changed : Bytes)
    → IsEmpty e file
    → e.offset + e.size ≤ length file
    → OnlyInside e.offset e.size file changed
    → emptied e changed ≡ file
emptied-OnlyInside e file changed empty inside (size, same) =
    let zeros : Bytes = replicate e.size 0 in
    let long : length zeros ≡ e.size = length-replicate {A = ℕ} e.size 0 in
    let (size', same') = overwrite-OnlyInside e.offset zeros changed (omega arith) in
    let back = take-drop-overwrite e.offset zeros changed (omega arith) in
    let inner : take e.size (drop e.offset (emptied e changed)) ≡ take e.size (drop e.offset file) =
      subst (λ n. take n (drop e.offset (emptied e changed)) ≡ zeros) long back ∙ sym empty in
    OnlyInside-eq e.offset e.size file (emptied e changed)
      (
        size' ∙ size,
        λ i outside.
            same' i (elim outside [ inl h ↦ inl h | inr h ↦ inr (omega arith) ]) ∙ same i outside,
      )
      inner

-- Both sections of a signed file, the key's first.
pub emptied-both :
    (file middle final : Bytes) (signature key : Extent)
    → IsEmpty signature file
    → IsEmpty key file
    → Beside key signature
    → signature.offset + signature.size ≤ length file
    → key.offset + key.size ≤ length file
    → OnlyInside signature.offset signature.size file middle
    → OnlyInside key.offset key.size middle final
    → emptied signature (emptied key final) ≡ file
emptied-both file middle final signature key empty_signature empty_key beside in_signature in_key
      first second =
    let still =
      take-drop-OnlyInside signature.offset signature.size key.offset key.size file middle first
        beside
      ∙ empty_key in
    let size = first.0 in
    ap (emptied signature) (emptied-OnlyInside key middle final still (omega arith) second)
    ∙ emptied-OnlyInside signature file middle empty_signature in_signature first

-- When the function returns true, the sections of the signed file hold all bytes of a signature and
-- of the key that made it, and the signature is that of the hash of the signed file with these two
-- sections emptied, if they held null bytes before, which is what a reader of the AppImage can
-- compute. The sections are placed as `IsSealable` says, the buffers are as large as is asked for,
-- and GPGME gives an object's bytes in one read, no more than is asked for.
pub emptied-IsSigned :
    (g : Gcrypt) (source : Source) (gpg : Gpgme) (fuel : ℕ) (key_id : Option Bytes) (verbose : Bool)
    (passphrase : Option Bytes) (sig_disk : Disk) (sig_stack : ℕ → Bytes) (key_disk : Disk)
    (key_stack : ℕ → Bytes) (file : Bytes) (s : Settings) (w : World)
    (digest signature key : Extent)
    → IsGpgme gpg sig_stack key_stack
    → IsGenerous gpg
    → IsSealable file digest signature key
    → IsEmpty signature file
    → IsEmpty key file
    → sign_appimage g source gpg fuel key_id verbose passphrase sig_disk sig_stack key_disk
        key_stack
        (nothing_held file s)
      ≡ (returned true, w)
    → IsSigned g source gpg
        (final_settings verbose passphrase)
        signature
        key
        (emptied signature (emptied key w.file))
        w.file
emptied-IsSigned g source gpg fuel key_id verbose passphrase sig_disk sig_stack key_disk key_stack
      file s w digest signature key law generous seal empty_signature empty_key h =
    let signed =
      sign_appimage-Signed g source gpg fuel key_id verbose passphrase sig_disk sig_stack key_disk
        key_stack file s w h in
    let (first, second) =
      Signed-OnlyInside g source gpg fuel key_id verbose passphrase sig_disk sig_stack key_disk
        key_stack file w.file digest signature key law seal signed in
    let placed = seal.placed in
    let beside : Beside key signature =
      elim (Apart-Beside signature key placed.signature_ends placed.key_ends placed.signature_key
        seal.signature_bytes seal.key_bytes) [ inl h ↦ inr h | inr h ↦ inl h ] in
    let whole =
      emptied-both file signed.with_signature w.file signature key empty_signature empty_key beside
        seal.signature_inside seal.key_inside first second in
    rw whole (
      sign_appimage-IsSigned g source gpg fuel key_id verbose passphrase sig_disk sig_stack key_disk
        key_stack file s w digest signature key law generous seal h)
