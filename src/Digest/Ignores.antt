-- ===== src/Digest/Ignores.antt =====
-- src/digest.c: the digest does not see the bytes of a section that lies in one chunk, behind the
-- chunk's first byte and with no other section beginning there.
use appimagetool.Base.{
  ℕ, zero, suc, ◌+◌, ◌-◌, ◌*◌, ◌%◌, ◌≤◌, ◌<◌, ◌≡◌, refl, sym, ap, ◌∙◌, inl, inr, true, false,
  Option, none, some, ◌++◌, arith, lt→ltb, Bool-cases, Option-cases, Returns, length, take, drop,
  length-append, length-take, length-drop, Bytes,
}
use native.Mathlib.Decide.{dec_lt}
use appimagetool.Digest.{
  Md5, chunk_size, Extent, Round, begins_here, round, digest_loop, digest_md5, finish,
}
use appimagetool.Digest.Chunks.{round_plain}
use appimagetool.Digest.Sections.{OnlyBegins, round_inside}
use appimagetool.Digest.Changed.{with_old, with_new, Misses, read_rest_same, round_only_same}
use appimagetool.Digest.Placed.{
  EndsInChunk, IsPlaced, IsOneOf, begins_here→offset, offset→begins_here, which_begins,
  true-ne-false, only-eq, none_begins, round_none,
}

module _ (before old new after : Bytes) (same : length old ≡ length new)
    (x digest signature key : Extent) (placed : IsPlaced digest signature key)
    (one : IsOneOf x digest signature key) (x_offset : x.offset ≡ length before)
    (x_size : x.size ≡ length old) (inside : 0 < length before % chunk_size)
    (fits : length before % chunk_size + length old ≤ chunk_size) where
  Misses-chunk :
      (i : ℕ)
      → begins_here x (chunk_size * i) ≡ false
      → 0 < length old
      → Misses before old new after same (chunk_size * i) chunk_size
  Misses-chunk i h some_bytes = elim (dec_lt (chunk_size * i) (length before)) [
    | yes a ↦ elim (dec_lt (length before) (chunk_size * i + chunk_size)) [
      | yes b ↦ absurd (
          true-ne-false x (chunk_size * i)
            (offset→begins_here x (chunk_size * i) (omega arith) (omega arith) (omega arith)) h)
      | no b ↦ inl (omega arith)
    ]
    | no a ↦ inr (omega arith)
  ]

  -- The two reads of a round in which the section `s` begins miss the changed stretch.
  Misses-section :
      (i : ℕ) (s : Extent)
      → chunk_size * i < 0x4000_0000_0000_0000
      → OnlyBegins (chunk_size * i) s digest signature key
      → begins_here s (chunk_size * i) ≡ true
      → EndsInChunk s
      → 0 < length old
      → let d = s.offset - chunk_size * i in
        Misses before old new after same (chunk_size * i) d
        × Misses before old new after same
            (chunk_size * i
              + length (take d (drop (chunk_size * i) (with_old before old new after same)))
              + s.size)
            (chunk_size - (d + s.size))
  Misses-section i s small only h ends some_bytes =
      let p = chunk_size * i in
      let file = with_old before old new after same in
      let near = begins_here→offset s p h ends.1 small in
      let room : s.offset - p + s.size ≤ chunk_size = omega arith in
      let short = length-take (s.offset - p) (drop p file) in
      elim (Bool-cases (begins_here x p)) [
        | inl hx ↦
            let e = only-eq p s x digest signature key only one hx in
            let at : s.offset ≡ length before = ap (λ (t : Extent). t.offset) e ∙ x_offset in
            let size : s.size ≡ length old = ap (λ (t : Extent). t.size) e ∙ x_size in
            let got : length (take (s.offset - p) (drop p file)) ≡ s.offset - p = omega (
              arith,
              length-drop p file,
              length-append before (old ++ after),
              length-append old after,
            ) in
            (inl (omega arith), inr (omega arith))
        | inr hx ↦ elim (Misses-chunk i hx some_bytes) [
          | inl a ↦ (inl (omega arith), inl (omega arith))
          | inr a ↦ (inr (omega arith), inr (omega arith))
        ]
      ]

  round_same :
      (i : ℕ) (stack : Bytes)
      → chunk_size * i < 0x4000_0000_0000_0000
      → 0 < length old
      → round (with_old before old new after same) digest signature key stack (chunk_size * i) 0
        ≡ round (with_new before old new after same) digest signature key stack (chunk_size * i) 0
  round_same i stack small some_bytes =
      let p = chunk_size * i in
      let f = with_old before old new after same in
      let f' = with_new before old new after same in
      elim (which_begins digest signature key placed i small) [
        | inl (a, b, c) ↦
            round_none f digest signature key stack p a b c
            ∙ read_rest_same before old new after same
                (record { position = p; left = chunk_size; skip = 0; buffer = stack })
                (Misses-chunk i (none_begins p x digest signature key a b c one) some_bytes)
            ∙ sym (round_none f' digest signature key stack p a b c)
        | inr (s, only, h, ends) ↦
            let near = begins_here→offset s p h ends.1 small in
            let (first, second) = Misses-section i s small only h ends some_bytes in
            round_only_same before old new after same s digest signature key stack p (s.offset - p)
              only (omega arith) (omega arith) (omega arith) (omega arith) (omega arith) first
              second
      ]

-- The position behind a round that the file reaches to the end of.
round_next :
    (file : Bytes) (digest signature key : Extent) (placed : IsPlaced digest signature key) (i : ℕ)
    (stack : Bytes)
    → chunk_size * i + chunk_size ≤ length file
    → length file < 0x4000_0000_0000_0000
    → length stack ≡ chunk_size
    → Returns
        (λ r. (r.position ≡ chunk_size * (i + 1)) × (r.skip ≡ 0))
        (round file digest signature key stack (chunk_size * i) 0)
round_next file digest signature key placed i stack whole small whole_stack =
    let p = chunk_size * i in
    elim (which_begins digest signature key placed i (omega arith)) [
      | inl (a, b, c) ↦
          rw (round_plain file digest signature key stack p a b c whole_stack whole)
            (omega arith, refl)
      | inr (s, only, h, ends) ↦
          let near = begins_here→offset s p h ends.1 (omega arith) in
          rw
            (round_inside file s digest signature key stack p (s.offset - p) only (omega arith)
              (omega arith) (omega arith) whole_stack (omega arith) whole (omega arith))
            (omega arith, refl)
    ]

module _ (md5 : Md5) (digest signature key : Extent) (stack : ℕ → Bytes) where
  loop_step :
      (file : Bytes) (f i n position skip : ℕ) (ctx : md5.Context) (o : Option Round)
      → round file digest signature key (stack i) position skip ≡ o
      → digest_loop md5 file digest signature key stack (suc f) i (suc n) position skip ctx
        ≡ elim o [
          | none ↦ some none
          | some r ↦
              digest_loop md5 file digest signature key stack f
                (i + 1)
                (suc n - chunk_size)
                r.position
                r.skip
                (md5.update ctx r.buffer)
        ]
  unfolding digest_loop
  loop_step file f i n position skip ctx o e =
      rw (lt→ltb 0 (suc n) (omega arith), digest_loop) (rw (e, digest_loop))

  loop_done :
      (file file' : Bytes) (f i position skip : ℕ) (ctx : md5.Context)
      → digest_loop md5 file digest signature key stack f i 0 position skip ctx
        ≡ digest_loop md5 file' digest signature key stack f i 0 position skip ctx
  unfolding digest_loop
  loop_done file file' zero i position skip ctx = refl
  loop_done file file' (suc f) i position skip ctx = refl

module _ (md5 : Md5) (before old new after : Bytes) (same : length old ≡ length new)
    (x digest signature key : Extent) (stack : ℕ → Bytes) (placed : IsPlaced digest signature key)
    (one : IsOneOf x digest signature key) (x_offset : x.offset ≡ length before)
    (x_size : x.size ≡ length old) (inside : 0 < length before % chunk_size)
    (fits : length before % chunk_size + length old ≤ chunk_size) (some_bytes : 0 < length old)
    (whole : (i : ℕ) → length (stack i) ≡ chunk_size)
    (small : length (with_old before old new after same) < 0x4000_0000_0000_0000) where
  abbrev f_old : Bytes
  f_old = with_old before old new after same

  abbrev f_new : Bytes
  f_new = with_new before old new after same

  loop_same :
      (fuel i n : ℕ) (ctx : md5.Context)
      → n ≡ length f_old - chunk_size * i
      → digest_loop md5 f_old digest signature key stack fuel i n (chunk_size * i) 0 ctx
        ≡ digest_loop md5 f_new digest signature key stack fuel i n (chunk_size * i) 0 ctx
  loop_same zero i n ctx left = unfold digest_loop in refl
  loop_same (suc f) i zero ctx left =
      loop_done md5 digest signature key stack f_old f_new (suc f) i (chunk_size * i) 0 ctx
  loop_same (suc f) i (suc n) ctx left =
      elim (Option-cases (round f_old digest signature key (stack i) (chunk_size * i) 0)) [
        | inl e ↦
            loop_step md5 digest signature key stack f_old f i n (chunk_size * i) 0 ctx none e
            ∙ sym (
                loop_step md5 digest signature key stack f_new f i n (chunk_size * i) 0 ctx none
                  (sym rounds ∙ e))
        | inr (r, e) ↦
            loop_step md5 digest signature key stack f_old f i n (chunk_size * i) 0 ctx (some r) e
            ∙ rest r e (loop_same f (i + 1) (suc n - chunk_size) (md5.update ctx r.buffer))
            ∙ sym (
                loop_step md5 digest signature key stack f_new f i n (chunk_size * i) 0 ctx (some r)
                  (sym rounds ∙ e))
      ]
    where
      moved :
          (position skip : ℕ) (c : md5.Context)
          → position ≡ chunk_size * (i + 1)
          → skip ≡ 0
          → digest_loop md5 f_old digest signature key stack f
              (i + 1)
              (suc n - chunk_size)
              (chunk_size * (i + 1))
              0
              c
            ≡ digest_loop md5 f_new digest signature key stack f
                (i + 1)
                (suc n - chunk_size)
                (chunk_size * (i + 1))
                0
                c
          → digest_loop md5 f_old digest signature key stack f
              (i + 1)
              (suc n - chunk_size)
              position
              skip
              c
            ≡ digest_loop md5 f_new digest signature key stack f
                (i + 1)
                (suc n - chunk_size)
                position
                skip
                c
      moved position skip c at none_left h = rw (at, none_left) h

      rounds :
          round f_old digest signature key (stack i) (chunk_size * i) 0
          ≡ round f_new digest signature key (stack i) (chunk_size * i) 0
      rounds =
          round_same before old new after same x digest signature key placed one x_offset x_size
            inside fits i (stack i) (omega arith) some_bytes

      rest :
          (r : Round)
          → round f_old digest signature key (stack i) (chunk_size * i) 0 ≡ some r
          → (suc n - chunk_size ≡ length f_old - chunk_size * (i + 1)
              → digest_loop md5 f_old digest signature key stack f
                  (i + 1)
                  (suc n - chunk_size)
                  (chunk_size * (i + 1))
                  0
                  (md5.update ctx r.buffer)
                ≡ digest_loop md5 f_new digest signature key stack f
                    (i + 1)
                    (suc n - chunk_size)
                    (chunk_size * (i + 1))
                    0
                    (md5.update ctx r.buffer))
          → digest_loop md5 f_old digest signature key stack f
              (i + 1)
              (suc n - chunk_size)
              r.position
              r.skip
              (md5.update ctx r.buffer)
            ≡ digest_loop md5 f_new digest signature key stack f
                (i + 1)
                (suc n - chunk_size)
                r.position
                r.skip
                (md5.update ctx r.buffer)
      rest r e ih = elim (dec_lt (length f_old) (chunk_size * i + chunk_size)) [
        | yes short ↦
            let z : suc n - chunk_size ≡ 0 = omega arith in
            rw z (
              loop_done md5 digest signature key stack f_old f_new f (i + 1) r.position r.skip
                (md5.update ctx r.buffer))
        | no long ↦
            let (at, none_left) = rw e at (
              round_next f_old digest signature key placed i (stack i) (omega arith) small
                (whole i)) in
            moved r.position r.skip (md5.update ctx r.buffer) at none_left (ih (omega arith))
      ]

  -- The digest of a file stays the same when the bytes of one of its three sections are exchanged
  -- for as many others, at least one: where each section ends in the chunk in which it begins, no
  -- two sections that are not empty begin in the same chunk, and the section does not begin with
  -- the first byte of a chunk. The file is smaller than 2^62 bytes, and both runs find the same
  -- bytes on the stack, 4096 for each round.
  pub digest_md5_ignores :
      digest_md5 md5 f_old digest signature key stack
      ≡ digest_md5 md5 f_new digest signature key stack
  unfolding digest_md5
  digest_md5_ignores =
      let e : length f_old ≡ length f_new = omega (
        arith,
        length-append before (old ++ after),
        length-append before (new ++ after),
        length-append old after,
        length-append new after,
      ) in
      let h = loop_same (length f_old + 1) 0 (length f_old) md5.initialise (omega arith) in
      ap (finish md5) (
        h
        ∙ ap
            (λ (n : ℕ).
              digest_loop md5 f_new digest signature key stack (n + 1) 0 n 0 0 md5.initialise)
            e)
