-- ===== src/Package/Digest.antt =====
-- src/appimagetool.c, `main`: the digest in the AppImage that the program is done with.
use mathlib.Core.Path.{subst}
use appimagetool.Base.{
  ℕ, ◌<◌, ◌≡◌, refl, sym, ap, ◌∙◌, ◌⊎◌, inl, inr, Bool, true, false, Option, none, some, arith,
  if◌then◌else◌, length, take, drop, length-take, length-drop, Bytes,
}
use appimagetool.Elf.{Extent}
use appimagetool.Digest.{chunk_size, appimage_type2_digest_md5}
use appimagetool.Digest.Placed.{Beside-front, Apart-Beside}
use appimagetool.Embed.{
  embedded, embed_md5_digest, section_size, Embedded, not_recognised, no_section, too_small,
  not_opened, no_digest, not_sought, not_written,
}
use appimagetool.Embed.Written.{embed_md5_digest-HasTaken}
use appimagetool.Embed.Write.{OnlyInside, file_parts, take-drop-OnlyInside}
use appimagetool.Embed.Stable.{embed_md5_digest_lem}
use appimagetool.Sign.Run.{World, Outcome, ok, returned, exited, faulted}
use appimagetool.Sign.Complete.{sign_appimage-Signed}
use appimagetool.Sign.Sealed.{IsGpgme, IsSealable, Signed-OnlyInside, sign_appimage-digest}
use appimagetool.Package.{
  Progress, next, dies, crashes, or_die, or_exit, embedding, signing, Options, System,
  run_sign_appimage, embed_digest, sign_step, make_zsync, ◌>>=◌,
}
use appimagetool.Package.Layout.{IsLaidOut, IsLaidOut-IsSound, IsLaidOut-IsSealable}

-- The digest that is computed from a file is the one that stands in its section.
pub record HoldsItsDigest (sys : System) (e : Extent) (file : Bytes) : Type 0 where
  pub value : Bytes
  pub computed : appimage_type2_digest_md5 sys.md5 file sys.stack ≡ some (some value)
  pub stands : take section_size (drop e.offset file) ≡ value

pub >>=-eq-next :
    {A B : Type 0} (m : Progress A) (f : A → Progress B) (b : B)
    → (m >>= f) ≡ next b
    → (a : A) × (m ≡ next a) × (f a ≡ next b)
>>=-eq-next (next a) f b h = (a, refl, h)
>>=-eq-next dies f b h = cc
>>=-eq-next crashes f b h = cc

pub or_die-next :
    {A : Type 0} (b : Bool) (p : Progress A) (a : A)
    → or_die b p ≡ next a
    → (b ≡ true) × (p ≡ next a)
or_die-next true p a h = (refl, h)
or_die-next false p a h = cc

pub or_exit-next : {A : Type 0} (o : Option A) (a : A) → or_exit o ≡ next a → o ≡ some a
or_exit-next none a h = cc
or_exit-next (some b) a h = cc

pub embedding-next :
    (o : Option Embedded) (file : Bytes) → embedding o ≡ next file → o ≡ some (embedded file)
embedding-next none file h = cc
embedding-next (some (embedded changed)) file h = cc
embedding-next (some not_recognised) file h = cc
embedding-next (some no_section) file h = cc
embedding-next (some too_small) file h = cc
embedding-next (some not_opened) file h = cc
embedding-next (some no_digest) file h = cc
embedding-next (some not_sought) file h = cc
embedding-next (some not_written) file h = cc

pub signing-next :
    (r : Outcome (Unit {0}) × World) (file : Bytes)
    → signing r ≡ next file
    → (w : World) × (r ≡ (returned true, w)) × (w.file ≡ file)
signing-next (ok a, w) file h = cc
signing-next (returned true, w) file h = (w, refl, cc)
signing-next (returned false, w) file h = cc
signing-next (exited, w) file h = cc
signing-next (faulted, w) file h = cc

signed_or_not :
    (b : Bool) (r : Outcome (Unit {0}) × World) (hashed final : Bytes)
    → (if b then signing r else next hashed) ≡ next final
    → (hashed ≡ final) ⊎ ((w : World) × (r ≡ (returned true, w)) × (w.file ≡ final))
signed_or_not true r hashed final h = inr (signing-next r final h)
signed_or_not false r hashed final h = inl cc

-- What signing may change.
pub record OnlySigned (signature key : Extent) (hashed final : Bytes) : Type 0 where
  pub middle : Bytes
  pub first : OnlyInside signature.offset signature.size hashed middle
  pub second : OnlyInside key.offset key.size middle final

OnlySigned-refl : (signature key : Extent) (file : Bytes) → OnlySigned signature key file file
OnlySigned-refl signature key file = record {
  middle = file;
  first = (refl, λ i outside. refl);
  second = (refl, λ i outside. refl);
}

module _ (sys : System) (o : Options) (source dest app_name arch : Bytes)
    (digest signature key : Extent)
    (of_16 : (ctx : sys.md5.Context) → length (sys.md5.finalise ctx) ≡ section_size)
    (whole : (i : ℕ) → length (sys.stack i) ≡ chunk_size)
    (law : IsGpgme sys.signer.gpgme sys.signer.sig_stack sys.signer.key_stack)
    (image informed : Bytes) (info : Option Bytes)
    (laid : IsLaidOut informed digest signature key) where
  embed_digest-HoldsItsDigest :
      (hashed : Bytes)
      → embed_digest sys o source dest app_name arch informed ≡ next hashed
      → HoldsItsDigest sys digest hashed × OnlyInside digest.offset digest.size informed hashed
  unfolding embed_digest
  embed_digest-HoldsItsDigest hashed h =
      let (opens, space) =
        embed_md5_digest-HasTaken sys.md5 sys.stack sys.digest_io informed hashed
          (embedding-next (embed_md5_digest sys.md5 sys.stack sys.digest_io informed) hashed h) in
      let before = take digest.offset informed in
      let old = take digest.size (drop digest.offset informed) in
      let after = drop digest.size (drop digest.offset informed) in
      let inside = laid.digest_inside in
      let parts = file_parts digest.offset digest.size informed in
      let at_length : length before ≡ digest.offset =
        omega (arith, length-take digest.offset informed) in
      let old_length : length old ≡ digest.size = omega (
        arith,
        length-take digest.size (drop digest.offset informed),
        length-drop digest.offset informed,
      ) in
      let sound =
        IsLaidOut-IsSound informed digest signature key laid before old after at_length old_length
          (sym parts) in
      let (d, changed, done, stable, there, only) =
        embed_md5_digest_lem sys.md5 sys.stack sys.digest_io before old after digest signature key
          sound of_16 whole opens space in
      let embeds : embed_digest sys o source dest app_name arch informed ≡ next changed =
        ap (λ f. embedding (embed_md5_digest sys.md5 sys.stack sys.digest_io f)) parts
        ∙ ap embedding done in
      let same : changed ≡ hashed = cc in
      subst (λ f. HoldsItsDigest sys digest f × OnlyInside digest.offset digest.size informed f)
        same
        (
          record { value = d; computed = stable; stands = there },
          subst (λ f. OnlyInside digest.offset digest.size f changed) (sym parts) only,
        )

  signed-HoldsItsDigest :
      (hashed : Bytes) (w : World)
      → IsSealable hashed digest signature key
      → HoldsItsDigest sys digest hashed
      → run_sign_appimage sys.signer o.verbose hashed ≡ (returned true, w)
      → HoldsItsDigest sys digest w.file × OnlySigned signature key hashed w.file
  signed-HoldsItsDigest hashed w seal holds run =
      let s = sys.signer in
      let placed = laid.placed in
      let room = laid.room in
      let some_bytes : 0 < digest.size = omega arith in
      let (first, second) =
        Signed-OnlyInside s.gcrypt s.source s.gpgme s.fuel s.sign_key o.verbose s.passphrase
          s.sig_disk s.sig_stack s.key_disk s.key_stack hashed w.file digest signature key law seal
          (sign_appimage-Signed s.gcrypt s.source s.gpgme s.fuel s.sign_key o.verbose s.passphrase
            s.sig_disk s.sig_stack s.key_disk s.key_stack hashed s.settings w run) in
      (
        record {
          value = holds.value;
          computed =
              sign_appimage-digest s.gcrypt s.source s.gpgme s.fuel s.sign_key o.verbose
                s.passphrase s.sig_disk s.sig_stack s.key_disk s.key_stack hashed s.settings w
                sys.md5 sys.stack digest signature key law whole seal run
              ∙ holds.computed;
          stands =
              take-drop-OnlyInside key.offset key.size digest.offset section_size _ w.file second (
                Beside-front digest key section_size laid.room (
                  Apart-Beside digest key placed.digest_ends placed.key_ends placed.digest_key
                    some_bytes laid.key_bytes))
              ∙ take-drop-OnlyInside signature.offset signature.size digest.offset section_size
                  hashed _ first
                  (Beside-front digest signature section_size laid.room (
                    Apart-Beside digest signature placed.digest_ends placed.signature_ends
                      placed.digest_signature some_bytes laid.signature_bytes))
              ∙ holds.stands;
        },
        record { middle = _; first = first; second = second },
      )

  sign_step-HoldsItsDigest :
      (hashed final : Bytes)
      → IsSealable hashed digest signature key
      → HoldsItsDigest sys digest hashed
      → sign_step sys o source dest app_name arch hashed ≡ next final
      → HoldsItsDigest sys digest final × OnlySigned signature key hashed final
  unfolding sign_step
  sign_step-HoldsItsDigest hashed final seal holds h =
      elim (signed_or_not o.sign _ hashed final h) [
        | inl same ↦
            subst (λ f. HoldsItsDigest sys digest f × OnlySigned signature key hashed f) same
              (holds, OnlySigned-refl signature key hashed)
        | inr (w, run, same) ↦
            subst (λ f. HoldsItsDigest sys digest f × OnlySigned signature key hashed f) same
              (signed-HoldsItsDigest hashed w seal holds run)
      ]

  -- The file behind the last three steps is the informed one but for the digest and the signature.
  pub seal_steps-HoldsItsDigest :
      (final : Bytes)
      → (embed_digest sys o source dest app_name arch informed >>= (λ hashed.
          sign_step sys o source dest app_name arch hashed
          >>= (λ signed. make_zsync sys o source dest app_name arch info >>= (λ _. next signed))))
        ≡ next final
      → HoldsItsDigest sys digest final
        × (hashed : Bytes) × OnlyInside digest.offset digest.size informed hashed
        × OnlySigned signature key hashed final
        × (sign_step sys o source dest app_name arch hashed ≡ next final)
  seal_steps-HoldsItsDigest final h =
      let (hashed, is_hashed, h2) =
        >>=-eq-next (embed_digest sys o source dest app_name arch informed) _ final h in
      let (signed, is_signed, h3) =
        >>=-eq-next (sign_step sys o source dest app_name arch hashed) _ final h2 in
      let (done, _, same) =
        >>=-eq-next (make_zsync sys o source dest app_name arch info) _ final h3 in
      let (before, only) = embed_digest-HoldsItsDigest hashed is_hashed in
      let is_final : signed ≡ final = cc in
      let (holds, sealed) =
        sign_step-HoldsItsDigest hashed signed
          (IsLaidOut-IsSealable informed digest signature key laid hashed only) before is_signed in
      subst
        (λ f.
          HoldsItsDigest sys digest f
          × (g : Bytes) × OnlyInside digest.offset digest.size informed g
          × OnlySigned signature key g f
          × (sign_step sys o source dest app_name arch g ≡ next f))
        is_final (holds, hashed, only, sealed, is_signed)
