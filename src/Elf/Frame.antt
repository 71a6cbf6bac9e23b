-- ===== src/Elf/Frame.antt =====
-- src/elf.c: a lookup depends on the bytes that it reads and on no others.
use appimagetool.Base.{
  ℕ, zero, suc, ◌+◌, ◌≤◌, ◌<◌, ◌≡◌, refl, ◌⊎◌, inl, inr, Bool, true, false, ◌&&◌, Option, none,
  some, [], ◌∷◌, ◌++◌, arith, ltb, leb, ◌==◌, if◌then◌else◌, Bool-cases, Option-cases, >>=-eq-some,
  length, length-append, get_elem?-exchange, Bytes,
}
use appimagetool.Elf.{
  Memory, mapping, Extent, Class, read_le, strcmp_at, shdr_at, read_extent, section_loop,
  find_section, get_elf_section_offset_and_length, elf32, elf64, ei_class, returns_true,
}

-- What can be read of `m` is read of `m'` alike.
abbrev pub Within : Memory → Memory → Type 0
Within m m' = (i b : ℕ) → m i ≡ some b → m' i ≡ some b

none-ne-some : {r : Bool × Extent} → ◌≡◌ {A = Option (Bool × Extent)} none (some r) → ⊥
none-ne-some h = cc

returns_true_within :
    (o o' : Option Extent) (r : Bool × Extent)
    → ((e : Extent) → o ≡ some e → o' ≡ some e)
    → returns_true o ≡ some r
    → returns_true o' ≡ some r
returns_true_within none o' r k h = cc
returns_true_within (some e) o' r k h = rw (k e refl) h

module _ (m m' : Memory) (w : Within m m') where
  read_le_within : (n at k : ℕ) → read_le n at m ≡ some k → read_le n at m' ≡ some k
  unfolding read_le
  read_le_within zero at k h = h
  read_le_within (suc n) at k h =
      let (low, p, h1) = >>=-eq-some (m at) _ h in
      let (high, q, h2) = >>=-eq-some (read_le n (at + 1) m) _ h1 in
      rw (w at low p, read_le_within n (at + 1) high q) h2

  strcmp_at_within :
      (at : ℕ) (name : Bytes) (b : Bool)
      → strcmp_at m at name ≡ some b
      → strcmp_at m' at name ≡ some b
  unfolding strcmp_at
  strcmp_at_within at [] b h = let (x, p, h1) = >>=-eq-some (m at) _ h in rw (w at x p) h1
  strcmp_at_within at (c ∷ name) b h = elim (Option-cases (m at)) [
    | inl e ↦ ground arith
    | inr (x, e) ↦ ground (arith, w at x e, strcmp_at_within (at + 1) name b)
  ]

  module _ (c : Class) where
    read_extent_within :
        (at : ℕ) (e : Extent) → read_extent c m at ≡ some e → read_extent c m' at ≡ some e
    unfolding read_extent
    read_extent_within at e h =
        let (o, p, h1) = >>=-eq-some (read_le c.width (at + c.sh_offset) m) _ h in
        let (s, q, h2) = >>=-eq-some (read_le c.width (at + c.sh_size) m) _ h1 in
        rw
          (
            read_le_within c.width (at + c.sh_offset) o p,
            read_le_within c.width (at + c.sh_size) s q,
          )
          h2

    found_within :
        (same : Bool) (at : ℕ) (out e : Extent)
        → (if same then read_extent c m at else some out) ≡ some e
        → (if same then read_extent c m' at else some out) ≡ some e
    found_within true at out e h = read_extent_within at e h
    found_within false at out e h = h

    section_loop_within :
        (shoff str_tab : ℕ) (name : Bytes) (left i : ℕ) (out e : Extent)
        → section_loop c m shoff str_tab name left i out ≡ some e
        → section_loop c m' shoff str_tab name left i out ≡ some e
    unfolding section_loop
    section_loop_within shoff str_tab name zero i out e h = h
    section_loop_within shoff str_tab name (suc left) i out e h =
        let at = shdr_at c m shoff i in
        let (n, p, h1) = >>=-eq-some (read_le 4 at m) _ h in
        let (same, q, h2) = >>=-eq-some (strcmp_at m (str_tab + n) name) _ h1 in
        let (found, r, h3) = >>=-eq-some (if same then read_extent c m at else some out) _ h2 in
        step n same found (read_le_within 4 at n p) (strcmp_at_within (str_tab + n) name same q)
          (found_within same at out found r)
          (section_loop_within shoff str_tab name left (i + 1) found e h3)
      where
        step :
            (n : ℕ) (same : Bool) (found : Extent)
            → read_le 4 (shdr_at c m shoff i) m' ≡ some n
            → strcmp_at m' (str_tab + n) name ≡ some same
            → (if same then read_extent c m' (shdr_at c m shoff i) else some out) ≡ some found
            → section_loop c m' shoff str_tab name left (i + 1) found ≡ some e
            → section_loop c m' shoff str_tab name (suc left) i out ≡ some e
        step n same found p q r h = rw (p, q, r) h

    find_section_within :
        (name : Bytes) (out e : Extent)
        → find_section c m name out ≡ some e
        → find_section c m' name out ≡ some e
    unfolding find_section
    find_section_within name out e h =
        let (shoff, p, h1) = >>=-eq-some (read_le c.width c.e_shoff m) _ h in
        let (ndx, q, h2) = >>=-eq-some (read_le 2 c.e_shstrndx m) _ h1 in
        let (tab, r, h3) =
          >>=-eq-some (read_le c.width (shdr_at c m shoff ndx + c.sh_offset) m) _ h2 in
        let (num, t, h4) = >>=-eq-some (read_le 2 c.e_shnum m) _ h3 in
        header shoff ndx tab num (read_le_within c.width c.e_shoff shoff p)
          (read_le_within 2 c.e_shstrndx ndx q)
          (read_le_within c.width (shdr_at c m shoff ndx + c.sh_offset) tab r)
          (read_le_within 2 c.e_shnum num t) (section_loop_within shoff tab name num 0 out e h4)
      where
        header :
            (shoff ndx tab num : ℕ)
            → read_le c.width c.e_shoff m' ≡ some shoff
            → read_le 2 c.e_shstrndx m' ≡ some ndx
            → read_le c.width (shdr_at c m shoff ndx + c.sh_offset) m' ≡ some tab
            → read_le 2 c.e_shnum m' ≡ some num
            → section_loop c m' shoff tab name num 0 out ≡ some e
            → find_section c m' name out ≡ some e
        header shoff ndx tab num p q r t h = rw (p, q, r, t) h

  by_class :
      (class : ℕ) (name : Bytes) (out : Extent) (r : Bool × Extent)
      → (if class == 1
          then returns_true (find_section elf32 m name out)
          else if class == 2
          then returns_true (find_section elf64 m name out)
          else some (false, out))
        ≡ some r
      → (if class == 1
          then returns_true (find_section elf32 m' name out)
          else if class == 2
          then returns_true (find_section elf64 m' name out)
          else some (false, out))
        ≡ some r
  by_class class name out r h = elim (Bool-cases (class == 1)) [
    | inl a ↦ rw a (returns_true_within _ _ r (find_section_within elf32 name out) (rw a at h))
    | inr a ↦ elim (Bool-cases (class == 2)) [
      | inl b ↦
          rw (a, b)
            (returns_true_within _ _ r (find_section_within elf64 name out) (rw (a, b) at h))
      | inr b ↦ rw (a, b) (rw (a, b) at h)
    ]
  ]

  pub get_elf_section_within :
      (name : Bytes) (out : Extent) (r : Bool × Extent)
      → get_elf_section_offset_and_length (some m) name out ≡ some r
      → get_elf_section_offset_and_length (some m') name out ≡ some r
  unfolding get_elf_section_offset_and_length
  get_elf_section_within name out r h = elim (Option-cases (m ei_class)) [
    | inl e ↦ absurd (none-ne-some (rw (e, get_elf_section_offset_and_length) at h))
    | inr (class, e) ↦
        rw (w ei_class class e, get_elf_section_offset_and_length)
          (by_class class name out r (rw (e, get_elf_section_offset_and_length) at h))
  ]

-- The memory without the `n` bytes from `lo` on.
abbrev pub masked : ℕ → ℕ → Memory → Memory
masked lo n m i = if leb lo i && ltb i (lo + n) then none else m i

pub masked-eq-some :
    (lo n : ℕ) (m : Memory) (i b : ℕ)
    → masked lo n m i ≡ some b
    → ((i < lo) ⊎ (lo + n ≤ i)) × (m i ≡ some b)
masked-eq-some lo n m i b h = elim (Bool-cases (leb lo i && ltb i (lo + n))) [
  | inl e ↦ let impossible : none ≡ some b = rw e at h in cc
  | inr e ↦ (ground arith, rw e at h)
]

-- If a lookup succeeds without reading a stretch of bytes, then it has the same result in the file
-- with these bytes and in the file with as many others in their place.
pub get_elf_section_frame :
    (before old new after name : Bytes) (out : Extent) (r : Bool × Extent)
    → length old ≡ length new
    → get_elf_section_offset_and_length
        (some (masked (length before) (length old) (mapping (before ++ (old ++ after)))))
        name
        out
      ≡ some r
    → (get_elf_section_offset_and_length (some (mapping (before ++ (old ++ after)))) name out
        ≡ some r)
      × (get_elf_section_offset_and_length (some (mapping (before ++ (new ++ after)))) name out
          ≡ some r)
get_elf_section_frame before old new after name out r same h = (
  get_elf_section_within (masked lo n m) m (λ i b e. (masked-eq-some lo n m i b e).1) name out r h,
  get_elf_section_within (masked lo n m) m' moved name out r h,
)
  where
    lo : ℕ
    lo = length before

    n : ℕ
    n = length old

    m : Memory
    m = mapping (before ++ (old ++ after))

    m' : Memory
    m' = mapping (before ++ (new ++ after))

    size : length (before ++ (old ++ after)) ≡ length (before ++ (new ++ after))
    size = omega (
      arith,
      length-append before (old ++ after),
      length-append before (new ++ after),
      length-append old after,
      length-append new after,
    )

    moved : Within (masked lo n m) m'
    moved i b e =
        let (outside, read) = masked-eq-some lo n m i b e in
        rw (← size, ← get_elem?-exchange before old new after i same outside) read
