-- ===== src/Embed/Shown.antt =====
-- src/appimagetool.c, `main`, and src/elf.c: the update information is shown as it was embedded.
use appimagetool.Base.{
  ℕ, zero, suc, ◌+◌, ◌-◌, ◌≤◌, ◌<◌, ◌≡◌, refl, sym, ap, ap₂, ◌∙◌, inl, inr, Bool, true, none, some,
  [], ◌∷◌, ◌++◌, arith, ltb, ltb→lt, Bool-cases, length, get_elem?, take, drop, replicate, All,
  take-append-drop, length-take, length-drop, get_elem?-drop, drop-eq_of_get_elem?, Bytes, codes,
}
use appimagetool.Glib.{Glib}
use appimagetool.UpdateInfo.{is_recognised}
use appimagetool.Elf.Dump.{appimage_print_binary}
use appimagetool.Elf.Dump.Texts.{appimage_print_binary_lem}
use appimagetool.Digest.{Extent, lookup}
use appimagetool.Embed.{Io, embedded, embed_update_information}
use appimagetool.Embed.Write.{OnlyInside, embed_update_information_lem}

get_elem?-take : (n : ℕ) (xs : Bytes) (i : ℕ) → i < n → get_elem? (take n xs) i ≡ get_elem? xs i
get_elem?-take zero xs i h = absurd (omega arith)
get_elem?-take (suc n) [] i h = refl
get_elem?-take (suc n) (x ∷ xs) zero h = refl
get_elem?-take (suc n) (x ∷ xs) (suc i) h = get_elem?-take n xs i (omega arith)

get_elem?-take-none : (n : ℕ) (xs : Bytes) (i : ℕ) → n ≤ i → get_elem? (take n xs) i ≡ none
get_elem?-take-none zero xs i h = refl
get_elem?-take-none (suc n) [] i h = refl
get_elem?-take-none (suc n) (x ∷ xs) zero h = absurd (omega arith)
get_elem?-take-none (suc n) (x ∷ xs) (suc i) h = get_elem?-take-none n xs i (omega arith)

take-take : (n m : ℕ) (xs : Bytes) → n ≤ m → take n (take m xs) ≡ take n xs
take-take zero m xs h = refl
take-take (suc n) zero xs h = absurd (omega arith)
take-take (suc n) (suc m) [] h = refl
take-take (suc n) (suc m) (x ∷ xs) h = ap (λ t. x ∷ t) (take-take n m xs (omega arith))

drop-replicate : (n m b : ℕ) → drop n (replicate m b) ≡ replicate (m - n) b
drop-replicate zero m b = let e : m - 0 ≡ m = omega arith in rw e
drop-replicate (suc n) zero b = let e : 0 - suc n ≡ 0 = omega arith in rw e
drop-replicate (suc n) (suc m) b =
    let e : suc m - suc n ≡ m - n = omega arith in rw e (drop-replicate n m b)

-- The section behind the text is as it was.
section-OnlyInside :
    (at size : ℕ) (text file changed : Bytes)
    → length text ≤ size
    → at + size ≤ length file
    → OnlyInside at (length text) file changed
    → take (length text) (drop at changed) ≡ text
    → take size (drop at changed) ≡ text ++ drop (length text) (take size (drop at file))
section-OnlyInside at size text file changed fits inside (same, kept) stands =
    let new = take size (drop at changed) in
    let old = take size (drop at file) in
    let front = take-take (length text) size (drop at changed) fits ∙ stands in
    let lengths : length new ≡ length old = omega (
      arith,
      length-take size (drop at changed),
      length-take size (drop at file),
      length-drop at changed,
      length-drop at file,
    ) in
    let back = drop-eq_of_get_elem? (length text) new old lengths (λ i le.
      elim (Bool-cases (ltb i size)) [
        | inl inner ↦
            let lt = ltb→lt i size inner in
            get_elem?-take size (drop at changed) i lt
            ∙ get_elem?-drop at changed i
            ∙ kept (at + i) (inr (omega arith))
            ∙ sym (get_elem?-drop at file i)
            ∙ sym (get_elem?-take size (drop at file) i lt)
        | inr outer ↦
            get_elem?-take-none size (drop at changed) i (ground arith)
            ∙ sym (get_elem?-take-none size (drop at file) i (ground arith))
      ]) in
    sym (take-append-drop (length text) new) ∙ ap₂ (λ (a b : Bytes). a ++ b) front back

-- A text without a null byte that is embedded in a section of null bytes, as `embed_update_information`
-- does it in a file that has room for it, is what is printed of that section.
pub appimage_print_binary-embed_update_information :
    (g : Glib) (io : Io) (info file : Bytes) (e : Extent) (allocates : ℕ → Bool)
    → lookup file (codes ".upd_info") ≡ some (true, e)
    → take e.size (drop e.offset file) ≡ replicate e.size 0
    → All (λ b. 0 < b) info
    → e.offset + e.size ≤ length file
    → 0 < e.offset
    → 0 < e.size
    → length info ≤ e.size
    → length info ≤ io.space
    → length file < 0x8000_0000_0000_0000
    → is_recognised g info ≡ true
    → io.opens ≡ true
    → allocates (e.size + 1) ≡ true
    → (changed : Bytes) × (embed_update_information g io info file ≡ some (embedded changed))
      × (appimage_print_binary (some changed) allocates e.offset e.size
          ≡ some (0, info ++ codes "\n"))
appimage_print_binary-embed_update_information g io info file e allocates found empty no_null inside
      placed some_bytes fits space small known opens enough =
    let (changed, done, (same, kept), stands) =
      embed_update_information_lem g io info file e found inside placed some_bytes fits space small
        known opens in
    let section =
      section-OnlyInside e.offset e.size info file changed fits inside (same, kept) stands
      ∙ ap (λ (t : Bytes). info ++ drop (length info) t) empty
      ∙ ap (λ (t : Bytes). info ++ t) (drop-replicate (length info) e.size 0) in
    (
      changed,
      done,
      appimage_print_binary_lem changed info allocates e.offset e.size (e.size - length info) enough
          (omega arith) (omega arith) no_null section,
    )
