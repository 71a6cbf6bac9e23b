-- ===== src/Digest/Changed.antt =====
-- src/digest.c: rounds over two files that differ in one stretch of bytes only.
use appimagetool.Base.{
  ℕ, ◌+◌, ◌-◌, ◌≤◌, ◌<◌, ◌≡◌, refl, sym, ap, ◌∙◌, ◌⊎◌, inl, inr, false, some, ◌++◌, arith, ltb,
  le→ltb, length, take, drop, length-take, write_at, drop-append_left, drop-append_right, Bytes,
  sub64,
}
use appimagetool.Digest.{chunk_size, Extent, Round, read_into, skip_section, read_rest, round}
use appimagetool.Digest.Chunks.{begins_here_at, pass_section_inside}
use appimagetool.Digest.Sections.{OnlyBegins, round_only}

-- The variables behind a section that begins `d` bytes behind the start of the chunk and ends in
-- the chunk, where `got` was read before it.
abbrev passed : Extent → ℕ → ℕ → Bytes → Bytes → Round
passed s position d got stack = record {
  position = position + length got + s.size;
  left = chunk_size - (d + s.size);
  skip = 0;
  buffer = write_at 0 got stack;
}

skip_section-passed :
    (file : Bytes) (s : Extent) (stack : Bytes) (position d : ℕ)
    → s.offset ≡ position + d
    → 0 < d
    → 0 < s.size
    → d + s.size ≤ chunk_size
    → position < 0x7fff_ffff_ffff_d000
    → skip_section file s position
        (record { position = position; left = chunk_size; skip = 0; buffer = stack })
      ≡ some (passed s position d (take d (drop position file)) stack)
unfolding skip_section read_into
skip_section-passed file s stack position d at pos some_bytes inside low =
    let got = take d (drop position file) in
    let (here, begin) = begins_here_at s position d at pos (omega arith) some_bytes (omega arith) in
    let short : length got ≤ d = omega (arith, length-take d (drop position file)) in
    let fits : ltb chunk_size (0 + length got) ≡ false =
      le→ltb chunk_size (0 + length got) (omega arith) in
    rw (here, begin, fits)
      (ap some (
        pass_section_inside s d
          (record {
            position = position + length got;
            left = chunk_size;
            skip = 0;
            buffer = write_at 0 got stack;
          })
          refl inside (omega arith)))

module _ (before old new after : Bytes) (same : length old ≡ length new) where
  abbrev pub with_old : Bytes
  with_old = before ++ (old ++ after)

  abbrev pub with_new : Bytes
  with_new = before ++ (new ++ after)

  -- The `n` bytes from `p` on lie before or behind the stretch.
  abbrev pub Misses : ℕ → ℕ → Type 0
  Misses p n = (p + n ≤ length before) ⊎ (length before + length old ≤ p)

  take-drop_same : (p n : ℕ) → Misses p n → take n (drop p with_old) ≡ take n (drop p with_new)
  take-drop_same p n (inl h) =
      drop-append_left p n before (old ++ after) h
      ∙ sym (drop-append_left p n before (new ++ after) h)
  take-drop_same p n (inr h) = rw (
    drop-append_right p before (old ++ after) (omega arith),
    drop-append_right p before (new ++ after) (omega arith),
    drop-append_right (p - length before) old after (omega arith),
    drop-append_right (p - length before) new after (omega arith),
    same,
  )

  read_into_same :
      (at n : ℕ) (r : Round)
      → Misses r.position n
      → read_into with_old at n r ≡ read_into with_new at n r
  unfolding read_into
  read_into_same at n r h = rw (take-drop_same r.position n h)

  pub read_rest_same :
      (r : Round) → Misses r.position r.left → read_rest with_old r ≡ read_rest with_new r
  unfolding read_rest
  read_rest_same r h = rw (read_into_same (sub64 chunk_size r.left) r.left r h)

  -- A round in which one section begins and ends, whatever the length of the file: the two reads
  -- lie where the section has `d` bytes of the chunk before it.
  pub round_only_same :
      (s digest signature key : Extent) (stack : Bytes) (position d : ℕ)
      → OnlyBegins position s digest signature key
      → s.offset ≡ position + d
      → 0 < d
      → 0 < s.size
      → d + s.size ≤ chunk_size
      → position < 0x7fff_ffff_ffff_d000
      → Misses position d
      → Misses
          (position + length (take d (drop position with_old)) + s.size)
          (chunk_size - (d + s.size))
      → round with_old digest signature key stack position 0
        ≡ round with_new digest signature key stack position 0
  round_only_same s digest signature key stack position d only at pos some_bytes inside low first
        second =
      round_only with_old s digest signature key stack position _ only
        (skip_section-passed with_old s stack position d at pos some_bytes inside low)
      ∙ read_rest_same (passed s position d (take d (drop position with_old)) stack) second
      ∙ ap (λ (got : Bytes). read_rest with_new (passed s position d got stack))
          (take-drop_same position d first)
      ∙ sym (
          round_only with_new s digest signature key stack position _ only
            (skip_section-passed with_new s stack position d at pos some_bytes inside low))
