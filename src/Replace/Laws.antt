-- ===== src/Replace/Laws.antt =====
-- src/appimagetool.c, `replacestr`: when the recursion ends, and with what.
use appimagetool.Base.{
  ℕ, zero, suc, ◌+◌, ◌≤◌, ◌<◌, ◌≡◌, refl, sym, ap, ◌∙◌, ◌≢◌, inl, inr, none, some, [], ◌∷◌, ◌++◌,
  map, append_assoc, arith, ◌==◌, if◌then◌else◌, Option-cases, length, take, drop, Bytes, strstr,
  count, count-append, strstr-eq-some, strstr-append-ne-none,
}
use mathlib.Core.Path.{◌≡⟨◌⟩◌, ◌∎}
use mathlib.Core.List.{map-append}
use appimagetool.Replace.{splice, replacestr}

-- If the recursion ends, the text that it leaves holds the search text nowhere.
pub strstr-replacestr :
    (fuel : ℕ) (line search replace out : Bytes)
    → replacestr fuel line search replace ≡ some out
    → strstr out search ≡ none
unfolding replacestr
strstr-replacestr zero line s r out h = cc
strstr-replacestr (suc f) line s r out h = elim (Option-cases (strstr line s)) [
  | inl e ↦ ground arith
  | inr (k, e) ↦ ground (arith, strstr-replacestr f (splice line k s r) s r out)
]

-- Every replacement takes a byte away that the search text has and the replacement has not.
count-splice-lt :
    (c : ℕ) (line s r : Bytes) (k : ℕ)
    → strstr line s ≡ some k
    → 0 < count c s
    → count c r ≡ 0
    → count c (splice line k s r) < count c line
unfolding splice
count-splice-lt c line s r k found has lacks = omega (
  arith,
  ap (count c) (strstr-eq-some line s k found),
  count-append c (take k line) (s ++ drop (k + length s) line),
  count-append c s (drop (k + length s) line),
  count-append c (take k line) (r ++ drop (k + length s) line),
  count-append c r (drop (k + length s) line),
)

-- If some byte stands in the search text and not in the replacement, the recursion ends, when the
-- fuel is above the number of such bytes in the line.
pub replacestr_total :
    (c fuel : ℕ) (line search replace : Bytes)
    → 0 < count c search
    → count c replace ≡ 0
    → count c line < fuel
    → (out : Bytes) × (replacestr fuel line search replace ≡ some out)
unfolding replacestr
replacestr_total c zero line s r has lacks enough = absurd (omega arith)
replacestr_total c (suc f) line s r has lacks enough = elim (Option-cases (strstr line s)) [
  | inl e ↦ (line, ground arith)
  | inr (k, e) ↦ elim (Option-cases (strstr (splice line k s r) s)) [
    | inl e' ↦ (splice line k s r, ground arith)
    | inr (k', e') ↦
        let (out, p) =
          replacestr_total c f (splice line k s r) s r has lacks
            (omega (arith, count-splice-lt c line s r k e has lacks)) in
        (out, ground arith)
  ]
]

strstr-splice-ne-none :
    (line s before after : Bytes) (k : ℕ)
    → strstr (splice line k s (before ++ (s ++ after))) s ≢ none
unfolding splice
strstr-splice-ne-none line s b a k =
    let e : (take k line ++ b) ++ (s ++ (a ++ drop (k + length s) line))
        ≡ take k line ++ ((b ++ (s ++ a)) ++ drop (k + length s) line) =
      simp append_assoc in
    rw (← e) (strstr-append-ne-none (take k line ++ b) s (a ++ drop (k + length s) line))

-- If the line holds the search text and the replacement holds it too, then the recursion never ends,
-- with whatever fuel.
pub replacestr_diverges :
    (fuel : ℕ) (line search before after : Bytes)
    → strstr line search ≢ none
    → replacestr fuel line search (before ++ (search ++ after)) ≡ none
unfolding replacestr
replacestr_diverges zero line s b a h = refl
replacestr_diverges (suc f) line s b a h = elim (Option-cases (strstr line s)) [
  | inl e ↦ absurd (h e)
  | inr (k, e) ↦
      let again = strstr-splice-ne-none line s b a k in
      ground (arith, again, replacestr_diverges f (splice line k s (b ++ (s ++ a))) s b a again)
]

-- What a replacement of byte `c` by byte `d` means for one byte.
abbrev pub swap_byte : ℕ → ℕ → ℕ → ℕ
swap_byte c d x = if x == c then d else x

map-splice :
    (c d : ℕ) (line : Bytes) (k : ℕ)
    → c ≢ d
    → strstr line (c ∷ []) ≡ some k
    → map (swap_byte c d) (splice line k (c ∷ []) (d ∷ [])) ≡ map (swap_byte c d) line
unfolding splice
map-splice c d line k ne found =
    map sw (take k line ++ (d ∷ rest))
    ≡⟨ map-append sw (take k line) (d ∷ rest) ⟩ map sw (take k line) ++ (sw d ∷ map sw rest)
    ≡⟨ ap (λ (t : ℕ). map sw (take k line) ++ (t ∷ map sw rest)) same ⟩
      map sw (take k line) ++ (sw c ∷ map sw rest)
    ≡⟨ sym (map-append sw (take k line) (c ∷ rest)) ⟩ map sw (take k line ++ (c ∷ rest))
    ≡⟨ ap (map sw) (sym (strstr-eq-some line (c ∷ []) k found)) ⟩ map sw line ∎
  where
    sw : ℕ → ℕ
    sw = swap_byte c d

    rest : Bytes
    rest = drop (k + 1) line

    same : sw d ≡ sw c
    same = ground arith

map_of_absent :
    (c d : ℕ) (line : Bytes) → strstr line (c ∷ []) ≡ none → map (swap_byte c d) line ≡ line
unfolding strstr
map_of_absent c d [] h = refl
map_of_absent c d (x ∷ line) h = ground (arith, map_of_absent c d line)

map-replacestr :
    (fuel c d : ℕ) (line out : Bytes)
    → c ≢ d
    → replacestr fuel line (c ∷ []) (d ∷ []) ≡ some out
    → map (swap_byte c d) out ≡ map (swap_byte c d) line
unfolding replacestr
map-replacestr zero c d line out ne h = cc
map-replacestr (suc f) c d line out ne h = elim (Option-cases (strstr line (c ∷ []))) [
  | inl e ↦ ground arith
  | inr (k, e) ↦
      let line' = splice line k (c ∷ []) (d ∷ []) in
      elim (Option-cases (strstr line' (c ∷ []))) [
        | inl e' ↦ ground (arith, map-splice c d line k ne e)
        | inr (k', e') ↦
            ground (arith, map-splice c d line k ne e, map-replacestr f c d line' out ne)
      ]
]

count-le-length : (c : ℕ) (line : Bytes) → count c line ≤ length line
count-le-length c [] = omega arith
count-le-length c (x ∷ line) = ground (arith, count-le-length c line)

-- Replacing one byte by another one ends, when the fuel is above the length of the line, and
-- exchanges every such byte and no other.
pub replacestr-eq-map :
    (fuel c d : ℕ) (line : Bytes)
    → c ≢ d
    → length line < fuel
    → replacestr fuel line (c ∷ []) (d ∷ []) ≡ some (map (swap_byte c d) line)
replacestr-eq-map fuel c d line ne enough =
    let (out, p) =
      replacestr_total c fuel line (c ∷ []) (d ∷ []) (ground arith) (ground arith)
        (omega (arith, count-le-length c line)) in
    p
    ∙ ap some (
        sym (map_of_absent c d out (strstr-replacestr fuel line _ _ out p))
        ∙ map-replacestr fuel c d line out ne p)
