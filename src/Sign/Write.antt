-- ===== src/Sign/Write.antt =====
-- src/appimagetool_sign.c, `embed_data_in_elf_section`: what is written, and what is not.
use appimagetool.Base.{
  ℕ, zero, suc, ◌+◌, ◌≤◌, ◌<◌, ◌≡◌, refl, ◌∙◌, ◌⊎◌, inl, inr, Bool, true, false, not, Option, none,
  some, [], ◌∷◌, append-nil, arith, ◌==◌, le→ltb, Option-cases, length, take, drop, length-take,
  write_at, length-write_at, take_all, drop_all, Bytes, add64, is_neg64,
}
use appimagetool.Digest.{Extent, lookup}
use appimagetool.Embed.{overwrite}
use appimagetool.Embed.Write.{OnlyInside, overwrite-OnlyInside, take-drop-overwrite, widened}
use appimagetool.Sign.{
  Data, Disk, Report, succeeded, read_loop, write_section, write_read, embed_data_in_elf_section,
}

-- Whenever the function returns, it has released the resources of GPGME exactly if it returns false.
pub embed_data_in_elf_section-releases :
    (object : Data) (disk : Disk) (file : Bytes) (fuel : ℕ) (elf_section stack : Bytes) (r : Report)
    → embed_data_in_elf_section object disk file fuel elf_section stack ≡ some r
    → r.released ≡ not r.returns
unfolding embed_data_in_elf_section write_read write_section
embed_data_in_elf_section-releases object disk file fuel elf_section stack r h = ground arith

-- A read gives no more than is asked for.
abbrev pub ReadsWithin : Data → Type 0
ReadsWithin object = (i n : ℕ) (bytes : Bytes) → object.read i n ≡ some bytes → length bytes ≤ n

length-read_loop :
    (object : Data) (fuel i total : ℕ) (buffer : Bytes) (sum : ℕ) (out : Bytes)
    → ReadsWithin object
    → length buffer ≡ object.end
    → read_loop object fuel i total buffer ≡ some (sum, out)
    → length out ≡ object.end
unfolding read_loop
length-read_loop object zero i total buffer sum out within size h = cc
length-read_loop object (suc f) i total buffer sum out within size h =
    elim (Option-cases (object.read i object.end)) [
      | inl e ↦
          length-read_loop object f (i + 1) (add64 total 0xffff_ffff_ffff_ffff) buffer sum out
            within size (rw (e, read_loop) at h)
      | inr ([], e) ↦ let same : buffer ≡ out = cc in rw (← same) size
      | inr (b ∷ bytes, e) ↦
          length-read_loop object f (i + 1) (add64 total (length (b ∷ bytes)))
            (write_at 0 (b ∷ bytes) buffer) sum out within
            (length-write_at 0 (b ∷ bytes) buffer
                (omega (arith, within i object.end (b ∷ bytes) e, size))
              ∙ size)
            (rw (e, read_loop) at h)
    ]

-- The file behind the call is the old one, or has bytes of the buffer in the section.
written_or_not :
    (object : Data) (disk : Disk) (file : Bytes) (e : Extent) (total : ℕ) (buffer : Bytes)
    (r : Report)
    → write_read object disk file e (some (total, buffer)) ≡ some r
    → (r.file ≡ file) ⊎ (r.file ≡ overwrite file e.offset (take disk.written buffer))
unfolding write_read write_section
written_or_not object disk file e total buffer r h = grind arith

refused_or_read :
    (object : Data) (disk : Disk) (file : Bytes) (fuel : ℕ) (elf_section stack : Bytes) (r : Report)
    (rv : Bool) (e : Extent)
    → lookup file elf_section ≡ some (rv, e)
    → embed_data_in_elf_section object disk file fuel elf_section stack ≡ some r
    → (r.file ≡ file)
      ⊎ ((object.end ≤ e.size)
          × (write_read object disk file e (read_loop object fuel 0 0 stack) ≡ some r))
unfolding embed_data_in_elf_section
refused_or_read object disk file fuel elf_section stack r rv e found h =
    let h' = rw (found, embed_data_in_elf_section) at h in ground arith

none_written : {r : Report} → ◌≡◌ {A = Option Report} none (some r) → ⊥
none_written h = cc

-- Whenever the function returns, whatever the reads give and whatever fails on the way, the file
-- that it leaves behind differs from the old one only inside the section that was found, if that
-- lies in the file and no read gives more than is asked for.
pub embed_data_in_elf_section-OnlyInside :
    (object : Data) (disk : Disk) (file : Bytes) (fuel : ℕ) (elf_section stack : Bytes) (r : Report)
    (rv : Bool) (e : Extent)
    → lookup file elf_section ≡ some (rv, e)
    → e.offset + e.size ≤ length file
    → ReadsWithin object
    → length stack ≡ object.end
    → embed_data_in_elf_section object disk file fuel elf_section stack ≡ some r
    → OnlyInside e.offset e.size file r.file
unfolding write_read
embed_data_in_elf_section-OnlyInside object disk file fuel elf_section stack r rv e found inside
      within size h =
    elim (refused_or_read object disk file fuel elf_section stack r rv e found h) [
      | inl same ↦ rw same (refl, λ i outside. refl)
      | inr (fits, done) ↦
          read_and_written (Option-cases (read_loop object fuel 0 0 stack)) fits done
    ]
  where
    read_and_written :
        (read_loop object fuel 0 0 stack ≡ none)
          ⊎ ((out : ℕ × Bytes) × (read_loop object fuel 0 0 stack ≡ some out))
        → object.end ≤ e.size
        → write_read object disk file e (read_loop object fuel 0 0 stack) ≡ some r
        → OnlyInside e.offset e.size file r.file
    read_and_written (inl never) fits done = absurd (none_written (rw (never, write_read) at done))
    read_and_written (inr ((total, buffer), read)) fits done =
        elim (written_or_not object disk file e total buffer r (rw read at done)) [
          | inl same ↦ rw same (refl, λ i outside. refl)
          | inr changed ↦
              let bytes = take disk.written buffer in
              let full = length-read_loop object fuel 0 0 stack total buffer within size read in
              let fit : length bytes ≤ e.size = omega (arith, length-take disk.written buffer) in
              rw changed (
                widened file (overwrite file e.offset bytes) fit
                  (overwrite-OnlyInside e.offset bytes file (omega arith)))
        ]

-- The section is found, has room for the data, lies in the file, and nothing fails.
pub record IsWell (object : Data) (disk : Disk) (file elf_section : Bytes) (e : Extent)
    : Type 0 where
  pub found : lookup file elf_section ≡ some (true, e)
  pub placed : 0 < e.offset
  pub room : object.end ≤ e.size
  pub some_bytes : 0 < e.size
  pub inside : e.offset + e.size ≤ length file
  pub small : length file < 0x8000_0000_0000_0000
  pub rewinds : object.rewinds ≡ true
  pub opens : disk.opens ≡ true
  pub written : disk.written ≡ object.end
  pub closes : disk.closes ≡ true

pub delivered :
    (object : Data) (disk : Disk) (file : Bytes) (fuel : ℕ) (elf_section stack buffer : Bytes)
    (e : Extent)
    → IsWell object disk file elf_section e
    → read_loop object fuel 0 0 stack ≡ some (object.end, buffer)
    → embed_data_in_elf_section object disk file fuel elf_section stack
      ≡ some (succeeded (overwrite file e.offset (take object.end buffer)))
unfolding embed_data_in_elf_section write_read write_section
delivered object disk file fuel elf_section stack buffer e well read =
    let placed = well.placed in
    let some_bytes = well.some_bytes in
    let inside = well.inside in
    let small = well.small in
    let room = well.room in
    let zero_offset : (e.offset == 0) ≡ false = ground arith in
    let zero_size : (e.size == 0) ≡ false = ground arith in
    let sign_bit : is_neg64 e.offset ≡ false = ground arith in
    let sign_bit' : is_neg64 object.end ≡ false = ground arith in
    let same : (object.end == object.end) ≡ true = ground arith in
    rw (well.found, embed_data_in_elf_section)
      (rw (
        read,
        zero_offset,
        zero_size,
        sign_bit',
        well.rewinds,
        le→ltb e.size object.end room,
        well.opens,
        sign_bit,
        well.written,
        same,
        well.closes,
      ))

-- One read of all the data.
read_once :
    (object : Data) (fuel : ℕ) (content stack : Bytes)
    → object.read 0 object.end ≡ some content
    → object.read 1 object.end ≡ some []
    → 0 < length content
    → length content ≡ object.end
    → length stack ≡ object.end
    → object.end < 0x8000_0000_0000_0000
    → read_loop object (suc (suc fuel)) 0 0 stack ≡ some (object.end, content)
unfolding read_loop
read_once object fuel [] stack first second some_bytes all size small = absurd (omega arith)
read_once object fuel (b ∷ content) stack first second some_bytes all size small =
    let total : add64 0 (length (b ∷ content)) ≡ object.end = omega arith in
    let rest : drop (0 + length (b ∷ content)) stack ≡ [] =
      drop_all (0 + length (b ∷ content)) stack (omega arith) in
    rw (first, read_loop) (rw (second, read_loop) (rw (total, rest, append-nil content)))

-- Where the data object gives all its data, at least one byte, in one read and nothing fails, the
-- function returns true and changes the file only inside the section, in which the data then
-- stand from its start on. The section is found, has room for the data and lies in the file,
-- which is smaller than 2^63 bytes; two rounds of the loop are enough.
pub embed_data_in_elf_section_lem :
    (object : Data) (disk : Disk) (file : Bytes) (fuel : ℕ) (elf_section stack content : Bytes)
    (e : Extent)
    → IsWell object disk file elf_section e
    → object.read 0 object.end ≡ some content
    → object.read 1 object.end ≡ some []
    → 0 < length content
    → length content ≡ object.end
    → length stack ≡ object.end
    → (changed : Bytes) × (embed_data_in_elf_section object disk file
          (suc (suc fuel))
          elf_section
          stack
        ≡ some (succeeded changed))
      × OnlyInside e.offset e.size file changed
      × (take (length content) (drop e.offset changed) ≡ content)
embed_data_in_elf_section_lem object disk file fuel elf_section stack content e well first second
      some_bytes all size =
    let room = well.room in
    let inside = well.inside in
    let small = well.small in
    let whole : take object.end content ≡ content = take_all object.end content (omega arith) in
    (
      overwrite file e.offset content,
      delivered object disk file (suc (suc fuel)) elf_section stack content e well
            (read_once object fuel content stack first second some_bytes all size (omega arith))
          ∙ rw whole,
      widened file (overwrite file e.offset content) (omega arith)
          (overwrite-OnlyInside e.offset content file (omega arith)),
      take-drop-overwrite e.offset content file (omega arith),
    )

-- The same data in two reads: the second lands on the first.
pub read_twice :
    (object : Data) (fuel : ℕ) (front back stack : Bytes)
    → object.read 0 object.end ≡ some front
    → object.read 1 object.end ≡ some back
    → object.read 2 object.end ≡ some []
    → 0 < length front
    → 0 < length back
    → length front + length back ≡ object.end
    → object.end < 0x8000_0000_0000_0000
    → read_loop object (suc (suc (suc fuel))) 0 0 stack
      ≡ some (object.end, write_at 0 back (write_at 0 front stack))
unfolding read_loop
read_twice object fuel [] back stack first second third some_bytes more all small =
    absurd (omega arith)
read_twice object fuel (a ∷ front) [] stack first second third some_bytes more all small =
    absurd (omega arith)
read_twice object fuel (a ∷ front) (b ∷ back) stack first second third some_bytes more all small =
    let total : add64 (add64 0 (length (a ∷ front))) (length (b ∷ back)) ≡ object.end =
      omega arith in
    rw (first, read_loop) (rw (second, read_loop) (rw (third, read_loop) (rw total)))
