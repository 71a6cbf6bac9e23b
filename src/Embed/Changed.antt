-- ===== src/Embed/Changed.antt =====
-- src/elf.c and src/digest.c on a file that is changed inside one stretch only.
use appimagetool.Base.{
  ℕ, ◌+◌, ◌%◌, ◌≤◌, ◌<◌, ◌≡◌, sym, ap, ap₂, ◌∙◌, inl, inr, ◌++◌, arith, length, take, drop,
  length-take, length-drop, drop-drop, take-eq_of_get_elem?, drop-eq_of_get_elem?, Bytes,
}
use appimagetool.Elf.{Memory, mapping, Extent}
use appimagetool.Elf.Frame.{Within, masked, masked-eq-some}
use appimagetool.Digest.{Md5, chunk_size, digest_md5}
use appimagetool.Digest.Placed.{IsPlaced, IsOneOf}
use appimagetool.Digest.Ignores.{digest_md5_ignores}
use appimagetool.Embed.Write.{OnlyInside, file_parts}

-- What is read outside of the stretch is read of the changed file alike.
pub OnlyInside-Within :
    (at n : ℕ) (file changed : Bytes) (m : Memory)
    → OnlyInside at n file changed
    → Within m (masked at n (mapping file))
    → Within m (mapping changed)
OnlyInside-Within at n file changed m (size, same) w i b e =
    let (outside, read) = masked-eq-some at n (mapping file) i b (w i b e) in
    rw (size, same i outside) read

-- The digest of a file does not see a change inside one of the sections.
pub digest_md5-OnlyInside :
    (md5 : Md5) (file changed : Bytes) (x digest signature key : Extent) (stack : ℕ → Bytes)
    → OnlyInside x.offset x.size file changed
    → x.offset + x.size ≤ length file
    → IsPlaced digest signature key
    → IsOneOf x digest signature key
    → 0 < x.offset % chunk_size
    → x.offset % chunk_size + x.size ≤ chunk_size
    → 0 < x.size
    → ((i : ℕ) → length (stack i) ≡ chunk_size)
    → length file < 0x4000_0000_0000_0000
    → digest_md5 md5 file digest signature key stack
      ≡ digest_md5 md5 changed digest signature key stack
digest_md5-OnlyInside md5 file changed x digest signature key stack (size, same) inside placed one
      behind fits some_bytes whole small =
    let at = x.offset in
    let n = x.size in
    let before = take at file in
    let old = take n (drop at file) in
    let new = take n (drop at changed) in
    let after = drop n (drop at file) in
    let front : take at changed ≡ before =
      take-eq_of_get_elem? at changed file size (λ i lt. same i (inl lt)) in
    let back : drop n (drop at changed) ≡ after =
      drop-drop n at changed
      ∙ drop-eq_of_get_elem? (at + n) changed file size (λ i le. same i (inr le))
      ∙ sym (drop-drop n at file) in
    let parts : changed ≡ before ++ (new ++ after) =
      file_parts at n changed ∙ ap₂ (λ (a b : Bytes). a ++ (new ++ b)) front back in
    let at_length : length before ≡ at = omega (arith, length-take at file) in
    let old_length : length old ≡ n =
      omega (arith, length-take n (drop at file), length-drop at file) in
    let same_length : length old ≡ length new =
      omega (arith, length-take n (drop at changed), length-drop at changed) in
    let whole_file = file_parts at n file in
    ap (λ f. digest_md5 md5 f digest signature key stack) whole_file
    ∙ digest_md5_ignores md5 before old new after same_length x digest signature key stack placed
        one (sym at_length) (sym old_length) (omega arith) (omega arith) (omega arith) whole
        (rw (← whole_file) small)
    ∙ ap (λ f. digest_md5 md5 f digest signature key stack) (sym parts)
