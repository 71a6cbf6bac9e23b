-- ===== src/Elf/Section.antt =====
-- src/elf.c, `appimage_get_elf_section_offset_and_length` against a table of the sections' names.
use appimagetool.Base.{
  ℕ, zero, suc, ◌+◌, ◌<◌, ◌≡◌, refl, sym, ap, ◌∙◌, ◌≢◌, ◌⊎◌, inl, inr, Bool, true, false, Option,
  none, some, List, [], ◌∷◌, ◌++◌, arith, ◌==◌, if◌then◌else◌, >>=-eq-some, All, Bytes, str_eq,
  ◌>>=◌,
}
use mathlib.Core.List.{reverse, reverse-append}
use appimagetool.Elf.{
  Memory, Extent, Class, read_le, strcmp_at, shdr_at, read_extent, section_loop, find_section,
  get_elf_section_offset_and_length, elf32, elf64, ei_class,
}

abbrev pub cons_to {ℓ} : {A : Type ℓ} → A → Option (List A) → Option (List A)
cons_to b none = none
cons_to b (some rest) = some (b ∷ rest)

-- The string that begins at `at`, up to a null in the file.
unfoldable pub string_at : ℕ → ℕ → Memory → Option Bytes
string_at zero at file = none
string_at (suc fuel) at file = elim (file at) [
  | none ↦ none
  | some b ↦ if b == 0 then some [] else cons_to b (string_at fuel (at + 1) file)
]

-- A name holds no null.
abbrev pub IsName : Bytes → Type 0
IsName = All (λ c. 0 < c)

-- Comparing in the file and comparing the string that stands there are the same.
pub strcmp_at-string_at :
    (fuel at : ℕ) (file : Memory) (name s : Bytes)
    → IsName name
    → string_at fuel at file ≡ some s
    → strcmp_at file at name ≡ some (str_eq s name)
unfolding string_at strcmp_at
strcmp_at-string_at zero at file name s named h = cc
strcmp_at-string_at (suc fuel) at file [] s named h = ground arith
strcmp_at-string_at (suc fuel) at file (c ∷ name) [] named h = ground arith
strcmp_at-string_at (suc fuel) at file (c ∷ name) (b ∷ s) named h =
    ground (arith, strcmp_at-string_at fuel (at + 1) file name s named.1)

cons_to-ne-nil {ℓ} : {A : Type ℓ} (e : A) (o : Option (List A)) → cons_to e o ≢ some []
cons_to-ne-nil e none h = cc
cons_to-ne-nil e (some rest) h = cc

cons_to-eq-some {ℓ} :
    {A : Type ℓ} (e e' : A) (o : Option (List A)) (t : List A)
    → cons_to e o ≡ some (e' ∷ t)
    → (o ≡ some t) × (e ≡ e')
cons_to-eq-some e e' none t h = cc
cons_to-eq-some e e' (some rest) t h = ((cc), (cc))

-- A section header with its name, for a string table at `str_tab`.
-- `limit` bounds the length of a name.
module _ (c : Class) (limit : ℕ) (file : Memory) (shoff str_tab : ℕ) where
  unfoldable pub entry_at : ℕ → Option (Bytes × Extent)
  entry_at i = do
    sh_name ← read_le 4 (shdr_at c file shoff i) file
    s ← string_at (limit) (str_tab + sh_name) file
    e ← read_extent c file (shdr_at c file shoff i)
    some (s, e)

  -- The entries from index `i` on, `left` of them.
  unfoldable pub entries : ℕ → ℕ → Option (List (Bytes × Extent))
  entries zero i = some []
  entries (suc left) i = do e ← entry_at i; cons_to e (entries left (i + 1))

-- The section table of a file as a list.
unfoldable pub section_table : Class → ℕ → Memory → Option (List (Bytes × Extent))
section_table c limit file = do
  shoff ← read_le c.width c.e_shoff file
  shstrndx ← read_le 2 c.e_shstrndx file
  str_tab ← read_le c.width (shdr_at c file shoff shstrndx + c.sh_offset) file
  shnum ← read_le 2 c.e_shnum file
  entries c limit file shoff str_tab shnum 0

-- The first entry with a name.
unfoldable pub first_named : Bytes → List (Bytes × Extent) → Option Extent
first_named name [] = none
first_named name ((s, e) ∷ rest) = if str_eq s name then some e else first_named name rest

abbrev pub or_else : Option Extent → Extent → Extent
or_else none out = out
or_else (some e) out = e

module _ (c : Class) (limit : ℕ) (file : Memory) (shoff str_tab : ℕ) (name : Bytes)
    (named : IsName name) where
  loop_parts :
      (left i n : ℕ) (out e : Extent) (same : Bool)
      → read_le 4 (shdr_at c file shoff i) file ≡ some n
      → strcmp_at file (str_tab + n) name ≡ some same
      → read_extent c file (shdr_at c file shoff i) ≡ some e
      → section_loop c file shoff str_tab name (suc left) i out
        ≡ section_loop c file shoff str_tab name left (i + 1) (if same then e else out)
  unfolding section_loop
  loop_parts left i n out e true p q r = rw (p, q, r)
  loop_parts left i n out e false p q r = rw (p, q)

  loop_entry :
      (left i : ℕ) (out : Extent) (s : Bytes) (e : Extent)
      → entry_at c limit file shoff str_tab i ≡ some (s, e)
      → section_loop c file shoff str_tab name (suc left) i out
        ≡ section_loop c file shoff str_tab name left (i + 1) (if str_eq s name then e else out)
  unfolding entry_at
  loop_entry left i out s e h =
      let (n, p, h1) = >>=-eq-some (read_le 4 (shdr_at c file shoff i) file) _ h in
      let (s', q, h2) = >>=-eq-some (string_at (limit) (str_tab + n) file) _ h1 in
      let (e', r, h3) = >>=-eq-some (read_extent c file (shdr_at c file shoff i)) _ h2 in
      let q' : string_at (limit) (str_tab + n) file ≡ some s = cc in
      let r' : read_extent c file (shdr_at c file shoff i) ≡ some e = cc in
      loop_parts left i n out e (str_eq s name) p
        (strcmp_at-string_at (limit) (str_tab + n) file name s named q') r'

first_named-append :
    (name : Bytes) (xs ys : List (Bytes × Extent)) (out : Extent)
    → or_else (first_named name (xs ++ ys)) out
      ≡ or_else (first_named name xs) (or_else (first_named name ys) out)
unfolding first_named
first_named-append name [] ys out = refl
first_named-append name ((s, e) ∷ xs) ys out = ground (arith, first_named-append name xs ys out)

last_named-cons :
    (name s : Bytes) (e : Extent) (table : List (Bytes × Extent)) (out : Extent)
    → or_else (first_named name (reverse ((s, e) ∷ table))) out
      ≡ or_else (first_named name (reverse table)) (if str_eq s name then e else out)
last_named-cons name s e table out =
    ap (λ (t : List (Bytes × Extent)). or_else (first_named name t) out)
      (reverse-append ((s, e) ∷ []) table)
    ∙ first_named-append name (reverse table) ((s, e) ∷ []) out
    ∙ ap (or_else (first_named name (reverse table))) one
  where
    one : or_else (first_named name ((s, e) ∷ [])) out ≡ (if str_eq s name then e else out)
    one = unfold first_named in (ground arith)

module _ (c : Class) (limit : ℕ) (file : Memory) (shoff str_tab : ℕ) (name : Bytes)
    (named : IsName name) where
  loop_entries :
      (left i : ℕ) (out : Extent) (table : List (Bytes × Extent))
      → entries c limit file shoff str_tab left i ≡ some table
      → section_loop c file shoff str_tab name left i out
        ≡ some (or_else (first_named name (reverse table)) out)
  unfolding entries
  loop_entries zero i out [] h = unfold section_loop first_named in refl
  loop_entries zero i out (e ∷ table) h = cc
  loop_entries (suc left) i out [] h =
      let (e, p, h1) = >>=-eq-some (entry_at c limit file shoff str_tab i) _ h in
      absurd (cons_to-ne-nil e (entries c limit file shoff str_tab left (i + 1)) h1)
  loop_entries (suc left) i out ((s, e) ∷ table) h =
      let (e', p, h1) = >>=-eq-some (entry_at c limit file shoff str_tab i) _ h in
      let (rest, same) =
        cons_to-eq-some e' (s, e) (entries c limit file shoff str_tab left (i + 1)) table h1 in
      loop_entry c limit file shoff str_tab name named left i out s e (p ∙ ap some same)
      ∙ loop_entries left (i + 1) (if str_eq s name then e else out) table rest
      ∙ ap some (sym (last_named-cons name s e table out))

find_section_lem :
    (c : Class) (limit : ℕ) (file : Memory) (name : Bytes)
    → IsName name
    → (out : Extent) (table : List (Bytes × Extent)) → section_table c limit file ≡ some table
    → find_section c file name out ≡ some (or_else (first_named name (reverse table)) out)
unfolding section_table find_section
find_section_lem c limit file name named out table h =
    let (shoff, p, h1) = >>=-eq-some (read_le c.width c.e_shoff file) _ h in
    let (shstrndx, q, h2) = >>=-eq-some (read_le 2 c.e_shstrndx file) _ h1 in
    let (str_tab, r, h3) =
      >>=-eq-some (read_le c.width (shdr_at c file shoff shstrndx + c.sh_offset) file) _ h2 in
    let (shnum, t, h4) = >>=-eq-some (read_le 2 c.e_shnum file) _ h3 in
    header shoff shstrndx str_tab shnum p q r t h4
  where
    header :
        (shoff shstrndx str_tab shnum : ℕ)
        → read_le c.width c.e_shoff file ≡ some shoff
        → read_le 2 c.e_shstrndx file ≡ some shstrndx
        → read_le c.width (shdr_at c file shoff shstrndx + c.sh_offset) file ≡ some str_tab
        → read_le 2 c.e_shnum file ≡ some shnum
        → entries c limit file shoff str_tab shnum 0 ≡ some table
        → find_section c file name out ≡ some (or_else (first_named name (reverse table)) out)
    header shoff shstrndx str_tab shnum p q r t h4 =
        rw (p, q, r, t) (loop_entries c limit file shoff str_tab name named shnum 0 out table h4)

-- The loop over the section headers finds the last section with the name, which holds no null:
-- where the class is one of the two and the whole section table can be read, the function returns
-- true, and the out parameters hold the offset and the length of the last entry with the name, or
-- what they held before if there is none.
pub get_elf_section_lem :
    (limit : ℕ) (file : Memory) (name : Bytes) (out : Extent) (c : Class)
    (table : List (Bytes × Extent))
    → IsName name
    → ((file ei_class ≡ some 1) × (c ≡ elf32)) ⊎ ((file ei_class ≡ some 2) × (c ≡ elf64))
    → section_table c limit file ≡ some table
    → get_elf_section_offset_and_length (some file) name out
      ≡ some (true, or_else (first_named name (reverse table)) out)
unfolding get_elf_section_offset_and_length
get_elf_section_lem limit file name out c table named (inl (class, e)) h =
    rw (class, get_elf_section_offset_and_length)
      (rw (find_section_lem elf32 limit file name named out table (rw e at h)))
get_elf_section_lem limit file name out c table named (inr (class, e)) h =
    rw (class, get_elf_section_offset_and_length)
      (rw (find_section_lem elf64 limit file name named out table (rw e at h)))
