-- ===== src/Digest/Sections.antt =====
-- src/digest.c: what a chunk holds in which one section begins.
use appimagetool.Base.{
  ℕ, ◌+◌, ◌-◌, ◌≤◌, ◌<◌, ◌≡◌, refl, ap, ◌∙◌, ◌⊎◌, inl, inr, false, some, ◌++◌, append_assoc,
  append-nil, arith, length, take, drop, length-append, length-take, length-drop, take_all,
  take-append_add, Bytes,
}
use native.Mathlib.Nat.{add-zero}
use appimagetool.Digest.{
  chunk_size, Extent, Round, begins_here, pass_section, skip_pending, skip_section, read_rest,
  round,
}
use appimagetool.Digest.Chunks.{
  read_rest_whole, skip_section_elsewhere, skip_section_inside, skip_section_here,
  pass_section_beyond,
}

-- The section `s` is one of the three, and the other two do not begin in the chunk at `position`.
abbrev pub OnlyBegins : ℕ → Extent → Extent → Extent → Extent → Type 0
OnlyBegins position s digest signature key =
    ((digest ≡ s) × (begins_here signature position ≡ false) × (begins_here key position ≡ false))
    ⊎ ((begins_here digest position ≡ false) × (signature ≡ s) × (begins_here key position ≡ false))
    ⊎ ((begins_here digest position ≡ false) × (begins_here signature position ≡ false) × (key ≡ s))

pub round_only :
    (file : Bytes) (s digest signature key : Extent) (stack : Bytes) (position : ℕ) (r : Round)
    → OnlyBegins position s digest signature key
    → skip_section file s position
        (record { position = position; left = chunk_size; skip = 0; buffer = stack })
      ≡ some r
    → round file digest signature key stack position 0 ≡ read_rest file r
unfolding round skip_pending
round_only file s digest signature key stack position r (inl (e, b, c)) h = rw (
  e,
  h,
  skip_section_elsewhere file signature position r b,
  skip_section_elsewhere file key position r c,
)
round_only file s digest signature key stack position r (inr (inl (a, e, c))) h = rw (
  skip_section_elsewhere file digest position
      (record { position = position; left = chunk_size; skip = 0; buffer = stack }) a,
  e,
  h,
  skip_section_elsewhere file key position r c,
)
round_only file s digest signature key stack position r (inr (inr (a, b, e))) h =
    let r0 : Round = record { position = position; left = chunk_size; skip = 0; buffer = stack } in
    rw (
      skip_section_elsewhere file digest position r0 a,
      skip_section_elsewhere file signature position r0 b,
      e,
      h,
    )

module _ (file : Bytes) (s digest signature key : Extent) (stack : Bytes) (position d : ℕ)
    (only : OnlyBegins position s digest signature key) (at : s.offset ≡ position + d)
    (after : 0 < d) (some_bytes : 0 < s.size) (whole_stack : length stack ≡ chunk_size)
    (small : length file < 0x7fff_ffff_ffff_e000)
    (whole : position + chunk_size ≤ length file) where
  abbrev head : Bytes
  head = take d (drop position file)

  length-head : d ≤ chunk_size → length head ≡ d
  length-head within = omega (arith, length-take d (drop position file), length-drop position file)

  length-buffer : d ≤ chunk_size → length (head ++ drop d stack) ≡ chunk_size
  length-buffer within =
      omega (arith, length-append head (drop d stack), length-head within, length-drop d stack)

  -- A section that begins behind the first byte of the chunk and ends in it, while nothing is
  -- left of an earlier one and no other begins there: the chunk holds the bytes before the
  -- section, then what the stack held there, then the bytes behind the section. The file holds
  -- the whole chunk and is smaller than 2^63 - 8192 bytes.
  pub round_inside :
      d + s.size ≤ chunk_size
      → round file digest signature key stack position 0
        ≡ some (record {
          position = position + chunk_size;
          left = chunk_size - (d + s.size);
          skip = 0;
          buffer =
              take d (drop position file)
              ++ (take s.size (drop d stack)
                  ++ take (chunk_size - (d + s.size)) (drop (position + d + s.size) file));
        })
  round_inside inside =
      let tail = take (chunk_size - (d + s.size)) (drop (position + d + s.size) file) in
      let r : Round = record {
        position = position + d + s.size;
        left = chunk_size - (d + s.size);
        skip = 0;
        buffer = head ++ drop d stack;
      } in
      let keep : chunk_size - (chunk_size - (d + s.size)) ≡ d + s.size = omega arith in
      let end : position + d + s.size + (chunk_size - (d + s.size)) ≡ position + chunk_size =
        omega arith in
      let hole : take (d + s.size) (head ++ drop d stack) ≡ head ++ take s.size (drop d stack) =
        take-append_add d s.size head (drop d stack) (length-head (omega arith)) in
      round_only file s digest signature key stack position r only
        (skip_section_inside file s stack position d at after some_bytes inside small whole)
      ∙ read_rest_whole file r (omega arith) (length-buffer (omega arith)) (omega arith)
      ∙ rw (keep, end, hole, append_assoc)

  -- A section of less than 2^62 bytes that begins behind the first byte of the chunk and reaches
  -- into later ones, while nothing is left of an earlier one and no other begins there: the chunk
  -- holds the bytes before it and then what the stack held, and the rest of the section is noted.
  -- The file holds the whole chunk and is smaller than 2^63 - 8192 bytes.
  pub round_beyond :
      d < chunk_size
      → chunk_size < d + s.size
      → s.size < 0x4000_0000_0000_0000
      → round file digest signature key stack position 0
        ≡ some (record {
          position = position + chunk_size;
          left = 0;
          skip = d + s.size - chunk_size;
          buffer = take d (drop position file) ++ drop d stack;
        })
  round_beyond before beyond sized =
      let r : Round = record {
        position = position + chunk_size;
        left = 0;
        skip = d + s.size - chunk_size;
        buffer = head ++ drop d stack;
      } in
      let r1 : Round = record {
        position = position + d;
        left = chunk_size;
        skip = 0;
        buffer = head ++ drop d stack;
      } in
      let end : position + d + (chunk_size - d) ≡ position + chunk_size = omega arith in
      let full : take chunk_size (head ++ drop d stack) ≡ head ++ drop d stack =
        take_all chunk_size (head ++ drop d stack) (omega (arith, length-buffer (omega arith))) in
      let passed : pass_section s d r1 ≡ r =
        pass_section_beyond s d r1 refl (omega arith) beyond sized (omega arith) ∙ rw end in
      round_only file s digest signature key stack position r only (
        skip_section_here file s stack position d at after before some_bytes (omega arith) whole
        ∙ ap some passed)
      ∙ read_rest_whole file r (omega arith) (length-buffer (omega arith)) (omega arith)
      ∙ rw (full, append-nil, add-zero)
