-- ===== src/Digest/Placed.antt =====
-- src/digest.c: where the sections of an AppImage may lie so that at most one begins in a chunk.
use appimagetool.Base.{
  ℕ, ◌+◌, ◌*◌, ◌/◌, ◌%◌, ◌≤◌, ◌<◌, ◌≡◌, refl, sym, ◌∙◌, ◌≢◌, ◌⊎◌, inl, inr, true, false, arith, ltb,
  ltb→lt, Bool-cases, Bytes,
}
use appimagetool.Digest.{Extent, Round, chunk_size, begins_here, skip_pending, round, read_rest}
use appimagetool.Digest.Chunks.{skip_section_elsewhere}
use appimagetool.Digest.Sections.{OnlyBegins}

-- The section ends in the chunk in which it begins.
abbrev pub EndsInChunk : Extent → Type 0
EndsInChunk e = (e.offset % chunk_size + e.size ≤ chunk_size) × (e.offset < 0x4000_0000_0000_0000)

-- One of the two sections is empty, or they begin in different chunks.
abbrev pub Apart : Extent → Extent → Type 0
Apart e f = (e.size ≡ 0) ⊎ (f.size ≡ 0) ⊎ (e.offset / chunk_size ≢ f.offset / chunk_size)

-- Two sections that lie beside each other.
abbrev pub Beside : Extent → Extent → Type 0
Beside e f = (e.offset + e.size ≤ f.offset) ⊎ (f.offset + f.size ≤ e.offset)

-- The first bytes of a section that lies beside another.
pub Beside-front :
    (e f : Extent) (n : ℕ)
    → n ≤ e.size
    → Beside e f
    → (e.offset + n ≤ f.offset) ⊎ (f.offset + f.size ≤ e.offset)
Beside-front e f n fewer (inl h) = inl (omega arith)
Beside-front e f n fewer (inr h) = inr h

-- Sections that begin in different chunks and do not leave them lie beside each other.
pub Apart-Beside :
    (e f : Extent)
    → EndsInChunk e
    → EndsInChunk f
    → Apart e f
    → 0 < e.size
    → 0 < f.size
    → Beside e f
Apart-Beside e f (ends, low) (ends', low') (inl empty) some_bytes more = absurd (omega arith)
Apart-Beside e f (ends, low) (ends', low') (inr (inl empty)) some_bytes more = absurd (omega arith)
Apart-Beside e f (ends, low) (ends', low') (inr (inr differ)) some_bytes more =
    elim (Bool-cases (ltb e.offset f.offset)) [
      | inl before ↦ let lt = ltb→lt e.offset f.offset before in inl (omega arith)
      | inr behind ↦ inr (ground arith)
    ]

pub record IsPlaced (digest signature key : Extent) : Type 0 where
  pub digest_ends : EndsInChunk digest
  pub signature_ends : EndsInChunk signature
  pub key_ends : EndsInChunk key
  pub digest_signature : Apart digest signature
  pub digest_key : Apart digest key
  pub signature_key : Apart signature key

pub begins_here→offset :
    (e : Extent) (p : ℕ)
    → begins_here e p ≡ true
    → e.offset < 0x4000_0000_0000_0000
    → p < 0x4000_0000_0000_0000
    → (p < e.offset) × (e.offset < p + chunk_size) × (0 < e.size)
unfolding begins_here
begins_here→offset e p h low small = (ground arith, ground arith, ground arith)

pub offset→begins_here :
    (e : Extent) (p : ℕ)
    → p < e.offset
    → e.offset < p + chunk_size
    → 0 < e.size
    → begins_here e p ≡ true
unfolding begins_here
offset→begins_here e p a b c = ground arith

module _ (digest signature key : Extent) (placed : IsPlaced digest signature key) (i : ℕ)
    (small : chunk_size * i < 0x4000_0000_0000_0000) where
  -- At most one section begins in a chunk.
  pub which_begins :
      ((begins_here digest (chunk_size * i) ≡ false)
        × (begins_here signature (chunk_size * i) ≡ false)
        × (begins_here key (chunk_size * i) ≡ false))
      ⊎ ((s : Extent) × OnlyBegins (chunk_size * i) s digest signature key
          × (begins_here s (chunk_size * i) ≡ true)
          × EndsInChunk s)
  which_begins =
      let p = chunk_size * i in
      elim (Bool-cases (begins_here digest p)) [
        | inl a ↦ inr (
          digest,
          inl (
            refl,
            not_both digest signature placed.digest_signature a placed.digest_ends
                placed.signature_ends,
            not_both digest key placed.digest_key a placed.digest_ends placed.key_ends,
          ),
          a,
          placed.digest_ends,
        )
        | inr a ↦ elim (Bool-cases (begins_here signature p)) [
          | inl b ↦ inr (
            signature,
            inr (
                inl (
                  a,
                  refl,
                  not_both signature key placed.signature_key b placed.signature_ends
                      placed.key_ends,
                )),
            b,
            placed.signature_ends,
          )
          | inr b ↦ elim (Bool-cases (begins_here key p)) [
            | inl c ↦ inr (key, inr (inr (a, b, refl)), c, placed.key_ends)
            | inr c ↦ inl (a, b, c)
          ]
        ]
      ]
    where
      not_both :
          (e f : Extent)
          → Apart e f
          → begins_here e (chunk_size * i) ≡ true
          → EndsInChunk e
          → EndsInChunk f
          → begins_here f (chunk_size * i) ≡ false
      not_both e f apart h ends ends' = elim (Bool-cases (begins_here f (chunk_size * i))) [
        | inl h' ↦ absurd (
            omega (
              arith,
              begins_here→offset e (chunk_size * i) h ends.1 small,
              begins_here→offset f (chunk_size * i) h' ends'.1 small,
            ))
        | inr h' ↦ h'
      ]

-- `x` is one of the three sections.
abbrev pub IsOneOf : Extent → Extent → Extent → Extent → Type 0
IsOneOf x digest signature key = (digest ≡ x) ⊎ (signature ≡ x) ⊎ (key ≡ x)

pub true-ne-false : (e : Extent) (p : ℕ) → begins_here e p ≡ true → begins_here e p ≡ false → ⊥
true-ne-false e p h h' = cc

pub only-eq :
    (p : ℕ) (s x digest signature key : Extent)
    → OnlyBegins p s digest signature key
    → IsOneOf x digest signature key
    → begins_here x p ≡ true
    → s ≡ x
only-eq p s x d g k (inl (e, b, c)) (inl q) h = sym e ∙ q
only-eq p s x d g k (inl (e, b, c)) (inr (inl q)) h = cc
only-eq p s x d g k (inl (e, b, c)) (inr (inr q)) h = cc
only-eq p s x d g k (inr (inl (a, e, c))) (inl q) h = cc
only-eq p s x d g k (inr (inl (a, e, c))) (inr (inl q)) h = sym e ∙ q
only-eq p s x d g k (inr (inl (a, e, c))) (inr (inr q)) h = cc
only-eq p s x d g k (inr (inr (a, b, e))) (inl q) h = cc
only-eq p s x d g k (inr (inr (a, b, e))) (inr (inl q)) h = cc
only-eq p s x d g k (inr (inr (a, b, e))) (inr (inr q)) h = sym e ∙ q

pub none_begins :
    (p : ℕ) (x digest signature key : Extent)
    → begins_here digest p ≡ false
    → begins_here signature p ≡ false
    → begins_here key p ≡ false
    → IsOneOf x digest signature key
    → begins_here x p ≡ false
none_begins p x d g k a b c (inl q) = cc
none_begins p x d g k a b c (inr (inl q)) = cc
none_begins p x d g k a b c (inr (inr q)) = cc

pub round_none :
    (file : Bytes) (digest signature key : Extent) (stack : Bytes) (position : ℕ)
    → begins_here digest position ≡ false
    → begins_here signature position ≡ false
    → begins_here key position ≡ false
    → round file digest signature key stack position 0
      ≡ read_rest file (record { position = position; left = chunk_size; skip = 0; buffer = stack })
unfolding round skip_pending
round_none file digest signature key stack position e1 e2 e3 =
    let r : Round = record { position = position; left = chunk_size; skip = 0; buffer = stack } in
    rw (
      skip_section_elsewhere file digest position r e1,
      skip_section_elsewhere file signature position r e2,
      skip_section_elsewhere file key position r e3,
    )
