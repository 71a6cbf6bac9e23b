-- ===== src/Sign.antt =====
-- src/appimagetool_sign.c, `embed_data_in_elf_section`: the signature or the key is read from a data
-- object of GPGME and written into its section.
pub mod Write
pub mod Pieces
pub mod Hash
pub mod Run
pub mod Steps
pub mod Done
pub mod Initialized
pub mod Signers
pub mod Branches
pub mod Complete
pub mod Agreed
pub mod Sealed
pub mod Stands
pub mod Verified
pub mod Succeeds
mod Tests
use appimagetool.Base.{
  ℕ, zero, suc, ◌+◌, Bool, true, false, not, ◌||◌, Option, none, some, [], ◌∷◌, ltb, ◌==◌,
  if◌then◌else◌, length, take, write_at, Bytes, add64, is_neg64,
}
use appimagetool.Digest.{Extent, lookup}
use appimagetool.Embed.{overwrite, is_missing}

-- What `gpgme_data_seek` to the end gives, an `off_t` as a 64-bit pattern; whether the seek to the
-- start succeeds; and what call `i` of `gpgme_data_read` for so many bytes gives: `none` is the
-- result -1.
pub record Data : Type 0 where
  pub end : ℕ
  pub rewinds : Bool
  pub read : ℕ → ℕ → Option Bytes

-- Whether the file opens for writing, how many bytes `fwrite` writes, and whether it closes.
pub record Disk : Type 0 where
  pub opens : Bool
  pub written : ℕ
  pub closes : Bool

-- The return value, whether `gpg_release_resources` was called, and the file behind the call.
pub record Report : Type 0 where
  pub returns : Bool
  pub released : Bool
  pub file : Bytes

abbrev pub failed : Bytes → Report
failed file = record { returns = false; released = true; file = file }

abbrev pub succeeded : Bytes → Report
succeeded file = record { returns = true; released = false; file = file }

-- The loop over the reads, with fuel for its rounds; `i` counts them. `bytes_read` is unsigned, so
-- that it is never below 0, and -1 is added to the total like any other number. Each read fills the
-- buffer from its start.
unfoldable pub read_loop : Data → ℕ → ℕ → ℕ → Bytes → Option (ℕ × Bytes)
read_loop object zero i total buffer = none
read_loop object (suc fuel) i total buffer = elim (object.read i object.end) [
  | none ↦ read_loop object fuel (i + 1) (add64 total 0xffff_ffff_ffff_ffff) buffer
  | some [] ↦ some (total, buffer)
  | some (b ∷ bytes) ↦
      read_loop object fuel (i + 1) (add64 total (length (b ∷ bytes)))
        (write_at 0 (b ∷ bytes) buffer)
]

module _ (object : Data) (disk : Disk) (file : Bytes) where
  -- From the opening of the file on.
  unfoldable pub write_section : Extent → Bytes → Report
  write_section e buffer =
      if disk.opens
      then (if is_neg64 e.offset
          then failed file
          else if disk.written == object.end
          then (if disk.closes
              then succeeded (overwrite file e.offset (take disk.written buffer))
              else failed (overwrite file e.offset (take disk.written buffer)))
          else failed (overwrite file e.offset (take disk.written buffer)))
      else failed file

  -- The test of the total behind the loop.
  unfoldable pub write_read : Extent → Option (ℕ × Bytes) → Option Report
  write_read e none = none
  write_read e (some (total, buffer)) =
      some (if total == object.end then write_section e buffer else failed file)

  -- The whole function. `stack` is what the uninitialised buffer holds. `none` is a fault of the
  -- lookup, or a loop that does not end with this fuel.
  unfoldable pub embed_data_in_elf_section : ℕ → Bytes → Bytes → Option Report
  embed_data_in_elf_section fuel elf_section stack = elim (lookup file elf_section) [
    | none ↦ none
    | some (rv, e) ↦
        let result = write_read e (read_loop object fuel 0 0 stack) in
        if is_missing rv e || is_neg64 object.end || not object.rewinds || ltb e.size object.end
        then some (failed file)
        else result
  ]
