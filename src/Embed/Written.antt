-- ===== src/Embed/Written.antt =====
-- src/appimagetool.c, `main`: what a digest that was written says of the system.
use appimagetool.Base.{
  ℕ, ◌≤◌, ◌≡◌, ◌≢◌, Bool, true, false, Option, none, some, arith, ltb, if◌then◌else◌, Bytes, codes,
}
use appimagetool.Digest.{Md5, Extent, lookup, appimage_type2_digest_md5}
use appimagetool.Embed.{
  Io, Embedded, embedded, no_section, too_small, is_missing, section_size, write_digest,
  with_digest, embed_md5_digest,
}

-- The file was opened, and the disk took the digest.
abbrev pub HasTaken : Io → Type 0
HasTaken io = (io.opens ≡ true) × (section_size ≤ io.space)

write_digest-HasTaken :
    (io : Io) (e : Extent) (d file changed : Bytes)
    → write_digest io e d file ≡ embedded changed
    → HasTaken io
unfolding write_digest
write_digest-HasTaken io e d file changed h = ground arith

with_digest-HasTaken :
    (io : Io) (e : Extent) (file changed : Bytes) (o : Option (Option Bytes))
    → with_digest o (λ d. write_digest io e d file) ≡ some (embedded changed)
    → HasTaken io
with_digest-HasTaken io e file changed none h = cc
with_digest-HasTaken io e file changed (some none) h = cc
with_digest-HasTaken io e file changed (some (some d)) h =
    let written : write_digest io e d file ≡ embedded changed = cc in
    write_digest-HasTaken io e d file changed written

-- A test that ends the step.
if-embedded :
    (b : Bool) (failed : Embedded) (rest : Option Embedded) (changed : Bytes)
    → failed ≢ embedded changed
    → (if b then some failed else rest) ≡ some (embedded changed)
    → rest ≡ some (embedded changed)
if-embedded true failed rest changed not_that h =
    let same : failed ≡ embedded changed = cc in absurd (not_that same)
if-embedded false failed rest changed not_that h = h

pub embed_md5_digest-HasTaken :
    (md5 : Md5) (stack : ℕ → Bytes) (io : Io) (file changed : Bytes)
    → embed_md5_digest md5 stack io file ≡ some (embedded changed)
    → HasTaken io
unfolding embed_md5_digest
embed_md5_digest-HasTaken md5 stack io file changed h = found (lookup file (codes ".digest_md5")) h
  where
    found :
        (r : Option (Bool × Extent))
        → elim r [
          | none ↦ none
          | some (rv, e) ↦
              if is_missing rv e
              then some no_section
              else if ltb e.size section_size
              then some too_small
              else with_digest
                  (appimage_type2_digest_md5 md5 file stack)
                  (λ d. write_digest io e d file)
        ]
          ≡ some (embedded changed)
        → HasTaken io
    found none k = cc
    found (some (rv, e)) k =
        with_digest-HasTaken io e file changed (appimage_type2_digest_md5 md5 file stack) (
          if-embedded (ltb e.size section_size) too_small _ changed (λ same. cc)
            (if-embedded (is_missing rv e) no_section _ changed (λ same. cc) k))
