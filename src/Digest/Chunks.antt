-- ===== src/Digest/Chunks.antt =====
-- src/digest.c: what a chunk holds when it is fed to the checksum, in a file that reaches to the
-- chunk's end.
use appimagetool.Base.{
  ℕ, ◌+◌, ◌-◌, ◌%◌, ◌≤◌, ◌<◌, ◌≡◌, refl, ap, ◌∙◌, inl, inr, true, false, some, [], ◌++◌, append-nil,
  arith, ◌==◌, if◌then◌else◌, le→ltb, Bool-cases, length, take, drop, length-take, length-drop,
  take_all, drop_all, Bytes, sub64,
}
use native.Mathlib.Nat.{add-zero}
use appimagetool.Digest.{
  chunk_size, Extent, Round, begins_here, pass_section, is_positive, read_into, skip_pending,
  skip_section, read_rest, round,
}

-- A read that does not meet the end of the file.
pub read_into_whole :
    (file : Bytes) (at n : ℕ) (r : Round)
    → at + n ≤ chunk_size
    → r.position + n ≤ length file
    → read_into file at n r
      ≡ some (record r {
        position = r.position + n;
        buffer = take at r.buffer ++ (take n (drop r.position file) ++ drop (at + n) r.buffer);
      })
unfolding read_into
read_into_whole file at n r fits whole =
    let got = take n (drop r.position file) in
    let e : length got ≡ n =
      omega (arith, length-take n (drop r.position file), length-drop r.position file) in
    rw (e, le→ltb chunk_size (at + n) fits)

pub skip_section_elsewhere :
    (file : Bytes) (s : Extent) (current : ℕ) (r : Round)
    → begins_here s current ≡ false
    → skip_section file s current r ≡ some r
unfolding skip_section
skip_section_elsewhere file s current r e = rw e

-- The number of bytes that a round passes over because of a section from an earlier chunk.
abbrev pub skipped : ℕ → ℕ
skipped skip = if skip % chunk_size == 0 then chunk_size else skip % chunk_size

pub read_rest_whole :
    (file : Bytes) (r : Round)
    → r.left ≤ chunk_size
    → length r.buffer ≡ chunk_size
    → r.position + r.left ≤ length file
    → read_rest file r
      ≡ some (record r {
        position = r.position + r.left;
        buffer = take (chunk_size - r.left) r.buffer ++ take r.left (drop r.position file);
      })
unfolding read_rest
read_rest_whole file r low full whole = elim (Bool-cases (is_positive r.left)) [
  | inl e ↦
      let at : sub64 chunk_size r.left ≡ chunk_size - r.left = ground arith in
      let end : drop (chunk_size - r.left + r.left) r.buffer ≡ [] =
        drop_all (chunk_size - r.left + r.left) r.buffer (omega arith) in
      rw (e, at)
        (read_into_whole file (chunk_size - r.left) r.left r (omega arith) whole
          ∙ rw (end, append-nil))
  | inr e ↦ let zero_left : r.left ≡ 0 = ground arith in rw e (nothing r.left zero_left)
]
  where
    nothing :
        (l : ℕ)
        → l ≡ 0
        → some r
          ≡ some (record r {
            position = r.position + l;
            buffer = take (chunk_size - l) r.buffer ++ take l (drop r.position file);
          })
    nothing l z = rw (z, take_all chunk_size r.buffer (omega arith), append-nil, add-zero)

skip_pending_lem :
    (r : Round)
    → r.left ≡ chunk_size
    → 0 < r.skip
    → r.skip < 0x8000_0000_0000_0000
    → r.position < 0x7fff_ffff_ffff_f000
    → let m = skipped r.skip in
      skip_pending r
      ≡ record r { position = r.position + m; left = chunk_size - m; skip = r.skip - m }
unfolding skip_pending
skip_pending_lem r full some_left small low = ground arith

-- A round in which bytes of an earlier section are left and no section begins: the chunk is what
-- the stack held, and from index `skipped skip` on the bytes of the file at the same place. The
-- file holds the whole chunk and is smaller than 2^63 bytes.
pub round_pending :
    (file : Bytes) (digest signature key : Extent) (stack : Bytes) (position skip : ℕ)
    → begins_here digest position ≡ false
    → begins_here signature position ≡ false
    → begins_here key position ≡ false
    → 0 < skip
    → skip < 0x8000_0000_0000_0000
    → length stack ≡ chunk_size
    → length file < 0x8000_0000_0000_0000
    → position + chunk_size ≤ length file
    → let m = skipped skip in
      round file digest signature key stack position skip
      ≡ some (record {
        position = position + chunk_size;
        left = chunk_size - m;
        skip = skip - m;
        buffer = take m stack ++ take (chunk_size - m) (drop (position + m) file);
      })
unfolding round
round_pending file digest signature key stack position skip e1 e2 e3 some_left small whole_stack
      small_file whole =
    let m = skipped skip in
    let low : m ≤ chunk_size = ground arith in
    let r0 : Round = record {
      position = position;
      left = chunk_size;
      skip = skip;
      buffer = stack;
    } in
    let end : position + m + (chunk_size - m) ≡ position + chunk_size = omega arith in
    let keep : chunk_size - (chunk_size - m) ≡ m = omega arith in
    let r : Round = record {
      position = position + m;
      left = chunk_size - m;
      skip = skip - m;
      buffer = stack;
    } in
    rw
      (
        skip_pending_lem r0 refl some_left small (omega arith),
        skip_section_elsewhere file digest position r e1,
        skip_section_elsewhere file signature position r e2,
        skip_section_elsewhere file key position r e3,
      )
      (read_rest_whole file r (omega arith) whole_stack (omega arith) ∙ rw (end, keep))

-- A round in which nothing is left to pass over and no section begins feeds the bytes of the file.
pub round_plain :
    (file : Bytes) (digest signature key : Extent) (stack : Bytes) (position : ℕ)
    → begins_here digest position ≡ false
    → begins_here signature position ≡ false
    → begins_here key position ≡ false
    → length stack ≡ chunk_size
    → position + chunk_size ≤ length file
    → round file digest signature key stack position 0
      ≡ some (record {
        position = position + chunk_size;
        left = chunk_size;
        skip = 0;
        buffer = take chunk_size (drop position file);
      })
unfolding round skip_pending
round_plain file digest signature key stack position e1 e2 e3 whole_stack whole =
    let r : Round = record { position = position; left = chunk_size; skip = 0; buffer = stack } in
    rw
      (
        skip_section_elsewhere file digest position r e1,
        skip_section_elsewhere file signature position r e2,
        skip_section_elsewhere file key position r e3,
      )
      (read_rest_whole file r (omega arith) whole_stack whole)

pub begins_here_at :
    (s : Extent) (position d : ℕ)
    → s.offset ≡ position + d
    → 0 < d
    → d < chunk_size
    → 0 < s.size
    → position < 0x8000_0000_0000_0000
    → (begins_here s position ≡ true) × (sub64 s.offset position % chunk_size ≡ d)
unfolding begins_here
begins_here_at s position d at after before some_bytes low = (ground arith, omega arith)

pub pass_section_inside :
    (s : Extent) (d : ℕ) (r : Round)
    → r.left ≡ chunk_size
    → d + s.size ≤ chunk_size
    → r.position < 0x7fff_ffff_ffff_f000
    → pass_section s d r
      ≡ record r { position = r.position + s.size; left = chunk_size - (d + s.size) }
unfolding pass_section
pass_section_inside s d r full inside low = ground arith

pub pass_section_beyond :
    (s : Extent) (d : ℕ) (r : Round)
    → r.left ≡ chunk_size
    → d ≤ chunk_size
    → chunk_size < d + s.size
    → s.size < 0x4000_0000_0000_0000
    → r.position < 0x7fff_ffff_ffff_e000
    → pass_section s d r ≡ record r {
      position = r.position + (chunk_size - d);
      left = 0;
      skip = d + s.size - chunk_size;
    }
unfolding pass_section
pass_section_beyond s d r full before beyond small low = ground arith

-- The read up to a section that begins `d` bytes behind the start of the chunk.
pub read_before :
    (file : Bytes) (stack : Bytes) (position d : ℕ)
    → d ≤ chunk_size
    → position + d ≤ length file
    → read_into file 0 d
        (record { position = position; left = chunk_size; skip = 0; buffer = stack })
      ≡ some (record {
        position = position + d;
        left = chunk_size;
        skip = 0;
        buffer = take d (drop position file) ++ drop d stack;
      })
read_before file stack position d before whole =
    let e : 0 + d ≡ d = omega arith in
    read_into_whole file 0 d
      (record { position = position; left = chunk_size; skip = 0; buffer = stack }) (omega arith)
      whole
    ∙ rw e

-- Where a section begins `d` bytes behind the start of the chunk, the variables behind its part.
pub skip_section_here :
    (file : Bytes) (s : Extent) (stack : Bytes) (position d : ℕ)
    → s.offset ≡ position + d
    → 0 < d
    → d < chunk_size
    → 0 < s.size
    → length file < 0x8000_0000_0000_0000
    → position + chunk_size ≤ length file
    → skip_section file s position
        (record { position = position; left = chunk_size; skip = 0; buffer = stack })
      ≡ some (
          pass_section s d (record {
            position = position + d;
            left = chunk_size;
            skip = 0;
            buffer = take d (drop position file) ++ drop d stack;
          }))
unfolding skip_section
skip_section_here file s stack position d at after before some_bytes small whole =
    let (here, begin) = begins_here_at s position d at after before some_bytes (omega arith) in
    rw (here, begin, read_before file stack position d (omega arith) (omega arith))

pub skip_section_inside :
    (file : Bytes) (s : Extent) (stack : Bytes) (position d : ℕ)
    → s.offset ≡ position + d
    → 0 < d
    → 0 < s.size
    → d + s.size ≤ chunk_size
    → length file < 0x7fff_ffff_ffff_e000
    → position + chunk_size ≤ length file
    → skip_section file s position
        (record { position = position; left = chunk_size; skip = 0; buffer = stack })
      ≡ some (record {
        position = position + d + s.size;
        left = chunk_size - (d + s.size);
        skip = 0;
        buffer = take d (drop position file) ++ drop d stack;
      })
skip_section_inside file s stack position d at after some_bytes inside small whole =
    skip_section_here file s stack position d at after (omega arith) some_bytes (omega arith) whole
    ∙ ap some (
        pass_section_inside s d
          (record {
            position = position + d;
            left = chunk_size;
            skip = 0;
            buffer = take d (drop position file) ++ drop d stack;
          })
          refl inside (omega arith))
