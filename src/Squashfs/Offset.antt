-- ===== src/Squashfs/Offset.antt =====
-- src/appimagetool.c, `sfs_mksquashfs`: the offset that the child reads is the size of the runtime.
use appimagetool.Base.{
  ℕ, zero, suc, ◌+◌, ◌-◌, ◌*◌, ◌/◌, ◌%◌, ◌^◌, ◌<◌, ◌≡◌, refl, inl, inr, true, [], ◌∷◌, ◌++◌, arith,
  ltb, Bool-cases, Bytes,
}
use appimagetool.Squashfs.{decimal, print_int}

-- The number that a decimal text writes, behind one that was read before.
abbrev pub number_of : ℕ → Bytes → ℕ
number_of n [] = n
number_of n (c ∷ text) = number_of (n * 10 + (c - b'0')) text

number_of-append : (n : ℕ) (xs ys : Bytes) → number_of n (xs ++ ys) ≡ number_of (number_of n xs) ys
number_of-append n [] ys = refl
number_of-append n (x ∷ xs) ys = number_of-append (n * 10 + (x - b'0')) xs ys

-- The numbers with at most so many digits.
abbrev tens : ℕ → ℕ
tens zero = 1
tens (suc places) = 10 * tens places

number_of-decimal : (places n : ℕ) → n < tens places → number_of 0 (decimal places n) ≡ n
unfolding decimal
number_of-decimal zero n h = omega arith
number_of-decimal (suc places) n h = elim (Bool-cases (ltb n 10)) [
  | inl one ↦ rw one (omega arith)
  | inr more ↦
      let front = number_of-decimal places (n / 10) (omega arith) in
      let read = number_of-append 0 (decimal places (n / 10)) ((b'0' + n % 10) ∷ []) in
      rw (more, read, front) (omega arith)
]

-- For a size below 2^31 the text of the offset, as its decimal digits are read, is the size itself.
pub number_of-print_int :
    (size : ℕ) → size < 2 ^ 31 → number_of 0 (print_int (size % 2 ^ 32)) ≡ size
unfolding print_int
number_of-print_int size small =
    let whole : size % 2 ^ 32 ≡ size = omega arith in
    let positive : ltb size (2 ^ 31) ≡ true = ground arith in
    rw (whole, positive) (number_of-decimal 10 size (omega arith))
