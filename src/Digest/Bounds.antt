-- ===== src/Digest/Bounds.antt =====
-- src/digest.c: no read leaves the chunk buffer, and every round feeds a whole chunk.
use appimagetool.Base.{
  ℕ, zero, suc, ◌+◌, ◌-◌, ◌/◌, ◌%◌, ◌≤◌, ◌<◌, ◌≡◌, refl, ◌∙◌, inl, inr, some, List, [], ◌∷◌, arith,
  lt→ltb, le→ltb, Bool-cases, ◌>>=◌, Returns, Returns->>=, Returns→some, Returns-mono, length, take,
  drop, All, length-take, length-write_at, Bytes, sub64,
}
use mathlib.Core.List.{foldl}
use appimagetool.Digest.{
  Md5, digest_loop, digest_md5, begins_here, pass_section, chunk_size, Extent, Round, is_positive,
  read_into, skip_pending, skip_section, read_rest, round,
}

-- What holds between the parts of a round.
abbrev pub IsRound : Round → Type 0
IsRound r =
    (r.left ≤ chunk_size) × (r.skip < 0x8000_0000_0000_0000) × (length r.buffer ≡ chunk_size)

-- A section whose length is far from the limit of the type.
abbrev pub IsSized : Extent → Type 0
IsSized s = s.size < 0x4000_0000_0000_0000

skip_pending-IsRound : (r : Round) → IsRound r → r.left ≡ chunk_size → IsRound (skip_pending r)
unfolding skip_pending
skip_pending-IsRound r (a, b, c) full = (ground arith, ground arith, ground arith)

pass_section-IsRound :
    (s : Extent) (begin : ℕ) (r : Round)
    → IsSized s
    → begin < chunk_size
    → IsRound r
    → IsRound (pass_section s begin r)
unfolding pass_section
pass_section-IsRound s begin r sized less (a, b, c) = (ground arith, ground arith, c)

module _ (file : Bytes) where
  read_into-Returns :
      (at n : ℕ) (r : Round)
      → at + n ≤ chunk_size
      → IsRound r
      → Returns (λ r'. IsRound r' × (r'.left ≡ r.left) × (r'.skip ≡ r.skip)) (read_into file at n r)
  unfolding read_into
  read_into-Returns at n r fits (a, b, c) =
      let got = take n (drop r.position file) in
      let small : at + length got ≤ chunk_size =
        omega (arith, length-take n (drop r.position file)) in
      rw (le→ltb chunk_size (at + length got) small)
        ((a, b, length-write_at at got r.buffer (omega arith) ∙ c), refl, refl)

  skip_section-IsRound :
      (s : Extent) (current : ℕ) (r : Round)
      → IsSized s
      → IsRound r
      → Returns IsRound (skip_section file s current r)
  unfolding skip_section
  skip_section-IsRound s current r sized inv = elim (Bool-cases (begins_here s current)) [
    | inl e ↦
        let begin = sub64 s.offset current % chunk_size in
        rw (e, ◌>>=◌)
          (Returns->>= _ IsRound (read_into file 0 begin r) _
            (read_into-Returns 0 begin r (omega arith) inv)
            (λ r' h. pass_section-IsRound s begin r' sized (omega arith) h.0))
    | inr e ↦ rw e inv
  ]

  read_rest-IsRound : (r : Round) → IsRound r → Returns IsRound (read_rest file r)
  unfolding read_rest
  read_rest-IsRound r inv = elim (Bool-cases (is_positive r.left)) [
    | inl e ↦ rw e (
        Returns-mono _ IsRound (read_into file (sub64 chunk_size r.left) r.left r)
          (read_into-Returns (sub64 chunk_size r.left) r.left r (omega arith) inv) (λ r' h. h.0))
    | inr e ↦ rw e inv
  ]

  module _ (digest signature key : Extent) (a : IsSized digest) (b : IsSized signature)
      (c : IsSized key) where
    -- A round reads without a fault and fills a whole chunk.
    pub round-IsRound :
        (stack : Bytes) (position skip : ℕ)
        → length stack ≡ chunk_size
        → skip < 0x8000_0000_0000_0000
        → Returns IsRound (round file digest signature key stack position skip)
    unfolding round
    round-IsRound stack position skip whole small =
        let r0 : Round = record {
          position = position;
          left = chunk_size;
          skip = skip;
          buffer = stack;
        } in
        let r = skip_pending r0 in
        let inv = skip_pending-IsRound r0 (omega arith, small, whole) refl in
        Returns->>= IsRound IsRound (skip_section file digest position r) _
          (skip_section-IsRound digest position r a inv)
          (λ r1 h1.
            Returns->>= IsRound IsRound (skip_section file signature position r1) _
              (skip_section-IsRound signature position r1 b h1)
              (λ r2 h2.
                Returns->>= IsRound IsRound (skip_section file key position r2) _
                  (skip_section-IsRound key position r2 c h2) (λ r3 h3. read_rest-IsRound r3 h3)))

    module _ (md5 : Md5) (stack : ℕ → Bytes) (whole : (i : ℕ) → length (stack i) ≡ chunk_size) where
      step :
          (f i n position skip : ℕ) (ctx : md5.Context) (r : Round)
          → round file digest signature key (stack i) position skip ≡ some r
          → digest_loop md5 file digest signature key stack (suc f) i (suc n) position skip ctx
            ≡ digest_loop md5 file digest signature key stack f
                (i + 1)
                (suc n - chunk_size)
                r.position
                r.skip
                (md5.update ctx r.buffer)
      unfolding digest_loop
      step f i n position skip ctx r e =
          rw (lt→ltb 0 (suc n) (omega arith), digest_loop) (rw (e, digest_loop))

      digest_loop_total :
          (fuel i bytes_left position skip : ℕ) (ctx : md5.Context)
          → bytes_left < fuel
          → skip < 0x8000_0000_0000_0000
          → (blocks : List Bytes) × (digest_loop md5 file digest signature key stack fuel i
                bytes_left position skip ctx
              ≡ some (some (foldl md5.update ctx blocks)))
            × All (λ block. length block ≡ chunk_size) blocks
            × (length blocks ≡ (bytes_left + 4095) / chunk_size)
      unfolding digest_loop
      digest_loop_total zero i left position skip ctx enough small = absurd (omega arith)
      digest_loop_total (suc f) i zero position skip ctx enough small = ([], refl, tt, omega arith)
      digest_loop_total (suc f) i (suc n) position skip ctx enough small =
          let less : suc n - chunk_size < f = omega arith in
          let (r, e, inv) =
            Returns→some IsRound _ (round-IsRound (stack i) position skip (whole i) small) in
          let (blocks, p, q, l) =
            digest_loop_total f (i + 1) (suc n - chunk_size) r.position r.skip
              (md5.update ctx r.buffer) less inv.1 in
          (r.buffer ∷ blocks, step f i n position skip ctx r e ∙ p, (inv.2, q), omega arith)

module _ (md5 : Md5) (file : Bytes) (digest signature key : Extent) (stack : ℕ → Bytes) where
  pub digest_md5_of_loop :
      {ctx : md5.Context}
      → digest_loop md5 file digest signature key stack
          (length file + 1)
          0
          (length file)
          0
          0
          md5.initialise
        ≡ some (some ctx)
      → digest_md5 md5 file digest signature key stack ≡ some (some (md5.finalise ctx))
  unfolding digest_md5
  digest_md5_of_loop p = rw (p, digest_md5)

-- Whatever the sections are, if their lengths are below 2^62, the digest of a file is computed with
-- no read outside the chunk buffer, from chunks of 4096 bytes each: as many as the file's length
-- divided by 4096, rounded up.
pub digest_md5_total :
    (md5 : Md5) (file : Bytes) (digest signature key : Extent) (stack : ℕ → Bytes)
    → IsSized digest
    → IsSized signature
    → IsSized key
    → ((i : ℕ) → length (stack i) ≡ chunk_size)
    → (blocks : List Bytes) × (digest_md5 md5 file digest signature key stack
        ≡ some (some (md5.finalise (foldl md5.update md5.initialise blocks))))
      × All (λ block. length block ≡ chunk_size) blocks
      × (length blocks ≡ (length file + 4095) / chunk_size)
digest_md5_total md5 file digest signature key stack a b c whole =
    let (blocks, p, q, l) =
      digest_loop_total file digest signature key a b c md5 stack whole (length file + 1) 0
        (length file) 0 0 md5.initialise (omega arith) (omega arith) in
    (blocks, digest_md5_of_loop md5 file digest signature key stack p, q, l)
