-- ===== src/Embed/Write.antt =====
-- src/appimagetool.c, `main`: what a write into a section does to the file.
use appimagetool.Base.{
  ℕ, ◌+◌, ◌-◌, ◌≤◌, ◌<◌, ◌≡◌, refl, sym, ap, ◌∙◌, ◌⊎◌, inl, inr, Bool, true, false, some, [], ◌∷◌,
  ◌++◌, append-nil, arith, ltb, ◌==◌, if◌then◌else◌, le→ltb, length, get_elem?, take, drop,
  length-append, take-append-drop, length-take, length-drop, take_all, take-append_add,
  drop-append_right, get_elem?-exchange, get_elem?-drop, take-eq_of_get_elem?, Bytes, codes,
  is_neg64,
}
use appimagetool.Glib.{Glib}
use appimagetool.UpdateInfo.{is_recognised}
use appimagetool.Digest.{Extent, lookup}
use appimagetool.Embed.{
  overwrite, Io, embedded, not_recognised, no_section, too_small, not_opened, is_missing,
  embed_update_information,
}

-- A write inside the file exchanges a stretch of it.
pub overwrite_lem :
    (before old new after : Bytes)
    → length old ≡ length new
    → overwrite (before ++ (old ++ after)) (length before) new ≡ before ++ (new ++ after)
unfolding overwrite
overwrite_lem before [] [] after same = refl
overwrite_lem before (o ∷ old) [] after same = absurd (omega arith)
overwrite_lem before old (b ∷ new) after same =
    let all = length-append before (old ++ after) in
    let none_left : length before - length (before ++ (old ++ after)) ≡ 0 = omega arith in
    let at : length before ≡ length before + 0 = omega arith in
    let kept : take (length before) (before ++ (old ++ after)) ≡ before =
      ap (λ n. take n (before ++ (old ++ after))) at
      ∙ take-append_add (length before) 0 before (old ++ after) refl
      ∙ append-nil before in
    let no_more : length before + length (b ∷ new) - length before - length old ≡ 0 = omega arith in
    let gone : drop (length before + length (b ∷ new)) (before ++ (old ++ after)) ≡ after =
      drop-append_right (length before + length (b ∷ new)) before (old ++ after) (omega arith)
      ∙ drop-append_right (length before + length (b ∷ new) - length before) old after (omega arith)
      ∙ ap (λ n. drop n after) no_more in
    rw (none_left, append-nil (before ++ (old ++ after)), kept, gone)

-- A file taken apart at a stretch that lies inside.
pub file_parts :
    (at n : ℕ) (file : Bytes)
    → file ≡ take at file ++ (take n (drop at file) ++ drop n (drop at file))
file_parts at n file = rw (take-append-drop n (drop at file), take-append-drop at file)

-- The length of the file and the bytes outside of the stretch.
abbrev pub OnlyInside : ℕ → ℕ → Bytes → Bytes → Type 0
OnlyInside at n file changed =
    (length changed ≡ length file)
    × ((i : ℕ) → (i < at) ⊎ (at + n ≤ i) → get_elem? changed i ≡ get_elem? file i)

-- Bytes that a write beside them leaves alone.
pub take-drop-OnlyInside :
    (at n p m : ℕ) (file changed : Bytes)
    → OnlyInside at n file changed
    → (p + m ≤ at) ⊎ (at + n ≤ p)
    → take m (drop p changed) ≡ take m (drop p file)
take-drop-OnlyInside at n p m file changed (size, same) beside =
    take-eq_of_get_elem? m (drop p changed) (drop p file)
      (omega (arith, length-drop p changed, length-drop p file))
      (λ i lt.
        get_elem?-drop p changed i
        ∙ same (p + i) (elim beside [ inl h ↦ inl (omega arith) | inr h ↦ inr (omega arith) ])
        ∙ sym (get_elem?-drop p file i))

outside_same : {i at n p m : ℕ} → (i < at) ⊎ (at + n ≤ i) → p ≡ at → m ≡ n → (i < p) ⊎ (p + m ≤ i)
outside_same (inl h) hp hm = inl (omega arith)
outside_same (inr h) hp hm = inr (omega arith)

overwrite-parts :
    (at : ℕ) (new file : Bytes)
    → at + length new ≤ length file
    → overwrite file at new ≡ take at file ++ (new ++ drop (length new) (drop at file))
overwrite-parts at new file h =
    let before = take at file in
    let old = take (length new) (drop at file) in
    let after = drop (length new) (drop at file) in
    let at_length : length before ≡ at = omega (arith, length-take at file) in
    let same : length old ≡ length new =
      omega (arith, length-take (length new) (drop at file), length-drop at file) in
    ap (λ f. overwrite f at new) (file_parts at (length new) file)
    ∙ ap (λ p. overwrite (before ++ (old ++ after)) p new) (sym at_length)
    ∙ overwrite_lem before old new after same

-- What was written is read back.
pub take-drop-overwrite :
    (at : ℕ) (new file : Bytes)
    → at + length new ≤ length file
    → take (length new) (drop at (overwrite file at new)) ≡ new
take-drop-overwrite at new file h =
    let at_length : length (take at file) ≡ at = omega (arith, length-take at file) in
    let none_left : at - length (take at file) ≡ 0 = omega arith in
    let all : length new ≡ length new + 0 = omega arith in
    let after = drop (length new) (drop at file) in
    ap (λ f. take (length new) (drop at f)) (overwrite-parts at new file h)
    ∙ ap (take (length new)) (drop-append_right at (take at file) (new ++ after) (omega arith))
    ∙ ap (λ n. take (length new) (drop n (new ++ after))) none_left
    ∙ ap (λ n. take n (new ++ after)) all
    ∙ take-append_add (length new) 0 new after refl
    ∙ append-nil new

pub overwrite-OnlyInside :
    (at : ℕ) (new file : Bytes)
    → at + length new ≤ length file
    → OnlyInside at (length new) file (overwrite file at new)
overwrite-OnlyInside at new file h =
    let before = take at file in
    let old = take (length new) (drop at file) in
    let after = drop (length new) (drop at file) in
    let at_length : length before ≡ at = omega (arith, length-take at file) in
    let same : length old ≡ length new =
      omega (arith, length-take (length new) (drop at file), length-drop at file) in
    let done = overwrite-parts at new file h in
    let whole = file_parts at (length new) file in
    (
      (ap length done)
          ∙ omega (
            arith,
            length-append before (new ++ after),
            length-append new after,
            length-drop (length new) (drop at file),
            length-drop at file,
            at_length,
          ),
      λ i outside.
          ap (λ f. get_elem? f i) done
          ∙ sym
              (get_elem?-exchange before old new after i same (outside_same outside at_length same))
          ∙ ap (λ f. get_elem? f i) (sym whole),
    )

further : {i at n m : ℕ} → n ≤ m → (i < at) ⊎ (at + m ≤ i) → (i < at) ⊎ (at + n ≤ i)
further h (inl p) = inl p
further h (inr p) = inr (omega arith)

pub widened :
    {at n m : ℕ} (file changed : Bytes)
    → n ≤ m
    → OnlyInside at n file changed
    → OnlyInside at m file changed
widened file changed h (same, kept) = (same, λ i outside. kept i (further h outside))

-- With a section that is found, that has room for the text, and lies in the file, a text in a known
-- format, a file that opens and a disk that takes the text, the step ends with a file of the same
-- length that differs only in the bytes of the section that the text takes, from the offset on,
-- where it stands. The file is smaller than 2^63 bytes.
pub embed_update_information_lem :
    (g : Glib) (io : Io) (info file : Bytes) (e : Extent)
    → lookup file (codes ".upd_info") ≡ some (true, e)
    → e.offset + e.size ≤ length file
    → 0 < e.offset
    → 0 < e.size
    → length info ≤ e.size
    → length info ≤ io.space
    → length file < 0x8000_0000_0000_0000
    → is_recognised g info ≡ true
    → io.opens ≡ true
    → (changed : Bytes) × (embed_update_information g io info file ≡ some (embedded changed))
      × OnlyInside e.offset (length info) file changed
      × (take (length info) (drop e.offset changed) ≡ info)
unfolding embed_update_information
embed_update_information_lem g io info file e found inside placed some_bytes fits space small known
      opens =
    let sign_bit : is_neg64 e.offset ≡ false = ground arith in
    let whole : take io.space info ≡ info = take_all io.space info space in
    let zero_offset : (e.offset == 0) ≡ false = ground arith in
    let zero_size : (e.size == 0) ≡ false = ground arith in
    (
      overwrite file e.offset info,
      rw (
        known,
        found,
        zero_offset,
        zero_size,
        le→ltb e.size (length info) fits,
        opens,
        sign_bit,
        whole,
      ),
      overwrite-OnlyInside e.offset info file (omega arith),
      take-drop-overwrite e.offset info file (omega arith),
    )

embedded_when :
    (known missing small opens : Bool) (done changed : Bytes)
    → (if known
        then some (
            if missing
            then no_section
            else if small
            then too_small
            else if opens
            then embedded done
            else not_opened)
        else some not_recognised)
      ≡ some (embedded changed)
    → (known ≡ true) × (small ≡ false) × (done ≡ changed)
embedded_when false missing small opens done changed h = absurd cc
embedded_when true true small opens done changed h = absurd cc
embedded_when true false true opens done changed h = absurd cc
embedded_when true false false false done changed h = absurd cc
embedded_when true false false true done changed h = (refl, refl, cc)

-- Whatever the text and the system: where the section that was found lies in the file, and this is
-- smaller than 2^63 bytes, the step changes nothing outside of the section, also if the disk takes
-- only a part of the text, and the text was in a known format and fits.
pub embed_update_information-OnlyInside :
    (g : Glib) (io : Io) (info file changed : Bytes) (rv : Bool) (e : Extent)
    → lookup file (codes ".upd_info") ≡ some (rv, e)
    → e.offset + e.size ≤ length file
    → length file < 0x8000_0000_0000_0000
    → embed_update_information g io info file ≡ some (embedded changed)
    → OnlyInside e.offset e.size file changed
      × (length info ≤ e.size)
      × (is_recognised g info ≡ true)
unfolding embed_update_information
embed_update_information-OnlyInside g io info file changed rv e found inside small h =
    let sign_bit : is_neg64 e.offset ≡ false = ground arith in
    let bytes = take io.space info in
    let (known, roomy, e_done) =
      embedded_when (is_recognised g info) (is_missing rv e) (ltb e.size (length info)) io.opens
        (overwrite file e.offset bytes) changed (rw (found, sign_bit) at h) in
    let fits : length info ≤ e.size = ground arith in
    let fit : length bytes ≤ e.size = omega (arith, length-take io.space info) in
    (
      rw (sym e_done) (
          widened file (overwrite file e.offset bytes) fit
            (overwrite-OnlyInside e.offset bytes file (omega arith))),
      fits,
      known,
    )

-- Where the disk takes the whole text, it stands at the offset of the section.
pub take-drop-embed_update_information :
    (g : Glib) (io : Io) (info file changed : Bytes) (rv : Bool) (e : Extent)
    → lookup file (codes ".upd_info") ≡ some (rv, e)
    → e.offset + e.size ≤ length file
    → length file < 0x8000_0000_0000_0000
    → length info ≤ io.space
    → embed_update_information g io info file ≡ some (embedded changed)
    → take (length info) (drop e.offset changed) ≡ info
unfolding embed_update_information
take-drop-embed_update_information g io info file changed rv e found inside small space h =
    let sign_bit : is_neg64 e.offset ≡ false = ground arith in
    let whole : take io.space info ≡ info = take_all io.space info space in
    let (known, roomy, e_done) =
      embedded_when (is_recognised g info) (is_missing rv e) (ltb e.size (length info)) io.opens
        (overwrite file e.offset info) changed (rw (found, sign_bit, whole) at h) in
    let fits : length info ≤ e.size = ground arith in
    rw (sym e_done) (take-drop-overwrite e.offset info file (omega arith))
