-- ===== src/Digest.antt =====
-- src/digest.c, `appimage_type2_digest_md5`: the MD5 digest of an AppImage, read in chunks with
-- the sections of the digest, the signature and the key left out.
pub mod Bounds
pub mod Chunks
pub mod Sections
pub mod Changed
pub mod Placed
pub mod Ignores
pub mod Sample
mod Tests
pub use appimagetool.Elf.{Extent}
use appimagetool.Elf.{Memory, mapping, get_elf_section_offset_and_length}
use appimagetool.Base.{
  ℕ, zero, suc, ◌+◌, ◌-◌, ◌%◌, Bool, true, false, not, ◌&&◌, Option, none, some, ltb, ◌==◌,
  if◌then◌else◌, length, take, drop, write_at, Bytes, codes, add64, sub64, is_neg64, ◌>>=◌,
}

abbrev pub chunk_size : ℕ
chunk_size = 4096

-- The functions of md5.h, which come from another library.
pub record Md5 : Type 1 where
  pub Context : Type 0
  pub initialise : Context
  pub update : Context → Bytes → Context
  pub finalise : Context → Bytes

-- The file position and the variables of the loop body. `left` is `bytes_left_this_chunk` and
-- `skip` is `bytes_skip_following_chunks`, both as 64-bit patterns of an `ssize_t`.
pub record Round : Type 0 where
  pub position : ℕ
  pub left : ℕ
  pub skip : ℕ
  pub buffer : Bytes

-- Whether an `ssize_t` is above 0.
abbrev pub is_positive : ℕ → Bool
is_positive a = not (is_neg64 a) && not (a == 0)

-- `fseek(fp, by, SEEK_CUR)`, which fails and moves nothing where the position would be negative.
abbrev pub seek_by : ℕ → Round → Round
seek_by by r =
    let to = add64 r.position by in record r { position = if is_neg64 to then r.position else to }

-- Bytes left over from a section that began in an earlier chunk.
unfoldable pub skip_pending : Round → Round
skip_pending r =
    if is_positive r.skip
    then (let rest = r.skip % chunk_size in
        let this = if rest == 0 then chunk_size else rest in
        seek_by this (record r { left = sub64 r.left this; skip = sub64 r.skip this }))
    else r

-- The test whether a section begins in the chunk at `current`, behind its first byte.
unfoldable pub begins_here : Extent → ℕ → Bool
begins_here s current =
    let distance = sub64 s.offset current in
    not (s.offset == 0) && not (s.size == 0) && ltb 0 distance && ltb distance chunk_size

-- What follows the read of the `begin` bytes before a section: count them and the section, note
-- what of it lies in later chunks, and move behind it.
unfoldable pub pass_section : Extent → ℕ → Round → Round
pass_section s begin r =
    let left = sub64 (sub64 r.left begin) s.size in
    let over = is_neg64 left in
    let left' = if over then 0 else left in
    let skip' = if over then sub64 0 left else r.skip in
    seek_by (sub64 (sub64 chunk_size left') begin) (record r { left = left'; skip = skip' })

module _ (file : Bytes) where
  -- `fread(buffer + at, 1, n, fp)`: at the end of the file it reads less. A write outside the
  -- buffer is a fault.
  unfoldable pub read_into : ℕ → ℕ → Round → Option Round
  read_into at n r =
      let got = take n (drop r.position file) in
      if ltb chunk_size (at + length got)
      then none
      else some (record r { position = r.position + length got; buffer = write_at at got r.buffer })

  -- The part of the body for one section, the same text three times in the source. `current` is
  -- `current_position`, taken at the start of the round; the difference is unsigned.
  unfoldable pub skip_section : Extent → ℕ → Round → Option Round
  unfolding begins_here pass_section
  skip_section s current r =
      if begins_here s current
      then (do
        let begin = sub64 s.offset current % chunk_size
        r' ← read_into 0 begin r
        some (pass_section s begin r'))
      else some r

  -- The read behind the sections.
  unfoldable pub read_rest : Round → Option Round
  read_rest r = if is_positive r.left then read_into (sub64 chunk_size r.left) r.left r else some r

  -- The body of the loop up to the call of `Md5Update`. `stack` is what the uninitialised
  -- buffer holds.
  unfoldable pub round : Extent → Extent → Extent → Bytes → ℕ → ℕ → Option Round
  round digest signature key stack position skip = do
    let r =
        skip_pending
          (record { position = position; left = chunk_size; skip = skip; buffer = stack })
    r1 ← skip_section digest position r
    r2 ← skip_section signature position r1
    r3 ← skip_section key position r2
    read_rest r3

-- `Md5Finalise` behind the loop.
abbrev pub finish : (md5 : Md5) → Option (Option md5.Context) → Option (Option Bytes)
finish md5 none = none
finish md5 (some none) = some none
finish md5 (some (some ctx)) = some (some (md5.finalise ctx))

module _ (md5 : Md5) (file : Bytes) (digest signature key : Extent) (stack : ℕ → Bytes) where
  -- The loop, with fuel for its rounds; `i` counts them. The outer `none` means that the fuel ran
  -- out, the inner one a fault. `bytes_left` below 0 ends the loop as 0 does.
  unfoldable pub digest_loop : ℕ → ℕ → ℕ → ℕ → ℕ → md5.Context → Option (Option md5.Context)
  digest_loop zero i bytes_left position skip ctx = none
  digest_loop (suc fuel) i bytes_left position skip ctx = elim (ltb 0 bytes_left) [
    | false ↦ some (some ctx)
    | true ↦ elim (round file digest signature key (stack i) position skip) [
      | none ↦ some none
      | some r ↦
          digest_loop fuel (i + 1) (bytes_left - chunk_size) r.position r.skip
            (md5.update ctx r.buffer)
    ]
  ]

  -- The digest of the file, once the sections are found.
  unfoldable pub digest_md5 : Option (Option Bytes)
  unfolding digest_loop round read_rest skip_section skip_pending read_into
  digest_md5 = finish md5 (digest_loop (length file + 1) 0 (length file) 0 0 md5.initialise)

abbrev pub nowhere : Extent
nowhere = record { offset = 0; size = 0 }

abbrev pub lookup : Bytes → Bytes → Option (Bool × Extent)
lookup file name = get_elf_section_offset_and_length (some (mapping file)) name nowhere

-- A call of the function on a section, and what the caller goes on with if it returns true.
abbrev pub with_section :
    Option (Bool × Extent) → (Extent → Option (Option Bytes)) → Option (Option Bytes)
with_section none k = none
with_section (some (false, e)) k = some none
with_section (some (true, e)) k = k e

abbrev pub no_fuel_left : Option (Option Bytes) → Option (Option Bytes)
no_fuel_left none = none
no_fuel_left (some none) = none
no_fuel_left (some (some d)) = some (some d)

-- The whole function: `none` is a fault, `some none` is the return of false. That the fuel does not
-- run out is part of `digest_md5_total`.
unfoldable pub appimage_type2_digest_md5 : Md5 → Bytes → (ℕ → Bytes) → Option (Option Bytes)
appimage_type2_digest_md5 md5 file stack =
    with_section (lookup file (codes ".digest_md5")) λ digest.
      with_section (lookup file (codes ".sha256_sig")) λ signature.
        with_section (lookup file (codes ".sig_key"))
          λ key. no_fuel_left (digest_md5 md5 file digest signature key stack)
