-- ===== src/Embed.antt =====
-- src/appimagetool.c, `main`: the update information and the MD5 digest are written into their
-- sections of the AppImage.
use appimagetool.Base.{
  ℕ, ◌-◌, Bool, not, ◌||◌, Option, none, some, [], ◌∷◌, ◌++◌, ltb, ◌==◌, if◌then◌else◌, length,
  take, replicate, write_at, Bytes, codes, is_neg64,
}
use appimagetool.Glib.{Glib}
use appimagetool.UpdateInfo.{is_recognised}
use appimagetool.Digest.{Md5, Extent, lookup, appimage_type2_digest_md5}
pub mod Write
pub mod Stable
pub mod Written
pub mod Shown
pub mod Changed
mod Tests

-- `fseek` to an index and `fwrite` from there on: behind the end of the file the gap is filled with
-- zeros. Without a byte to write nothing happens.
unfoldable pub overwrite : Bytes → ℕ → Bytes → Bytes
overwrite file at [] = file
overwrite file at (b ∷ bytes) = write_at at (b ∷ bytes) (file ++ replicate (at - length file) 0)

-- What the system answers: whether the file can be opened for writing, and how many bytes the disk
-- takes.
pub record Io : Type 0 where
  pub opens : Bool
  pub space : ℕ

-- The AppImage behind the step, or the message with which the program dies.
pub data Embedded : Type 0 where
  embedded : Bytes → Embedded
  not_recognised : Embedded
  no_section : Embedded
  too_small : Embedded
  not_opened : Embedded
  no_digest : Embedded
  not_sought : Embedded
  not_written : Embedded

-- `!rv || offset == 0 || length == 0`
abbrev pub is_missing : Bool → Extent → Bool
is_missing rv e = not rv || e.offset == 0 || e.size == 0

-- Where `fwrite` writes if the result of `fseek` is not looked at: a negative offset is refused.
abbrev pub sought : ℕ → ℕ
sought offset = if is_neg64 offset then 0 else offset

-- The step for the update information; the results of `fseek` and `fwrite` are not looked at.
unfoldable pub embed_update_information : Glib → Io → Bytes → Bytes → Option Embedded
embed_update_information g io info file =
    if is_recognised g info
    then elim (lookup file (codes ".upd_info")) [
      | none ↦ none
      | some (rv, e) ↦ some (
          if is_missing rv e
          then no_section
          else if ltb e.size (length info)
          then too_small
          else if io.opens
          then embedded (overwrite file (sought e.offset) (take io.space info))
          else not_opened)
    ]
    else some not_recognised

abbrev pub section_size : ℕ
section_size = 16

-- The bytes of a digest written at the offset of its section.
unfoldable pub write_digest : Io → Extent → Bytes → Bytes → Embedded
write_digest io e digest file =
    if io.opens
    then (if is_neg64 e.offset
        then not_sought
        else if ltb io.space section_size
        then not_written
        else embedded (overwrite file e.offset digest))
    else not_opened

abbrev pub with_digest : Option (Option Bytes) → (Bytes → Embedded) → Option Embedded
with_digest none k = none
with_digest (some none) k = some no_digest
with_digest (some (some d)) k = some (k d)

-- The step for the digest.
unfoldable pub embed_md5_digest : Md5 → (ℕ → Bytes) → Io → Bytes → Option Embedded
embed_md5_digest md5 stack io file = elim (lookup file (codes ".digest_md5")) [
  | none ↦ none
  | some (rv, e) ↦
      if is_missing rv e
      then some no_section
      else if ltb e.size section_size
      then some too_small
      else with_digest (appimage_type2_digest_md5 md5 file stack) (λ d. write_digest io e d file)
]
