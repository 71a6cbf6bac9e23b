-- ===== src/Base/Lists.antt =====
-- Lists measured and indexed by native numbers, under the library's names.

use Prim.Native.Nat.{ℕ, zero, suc, ◌+◌, ◌-◌, ◌≤◌, ◌<◌, min}
use mathlib.Core.Path.{◌≡◌, refl, sym, ap, ◌∙◌}
use mathlib.Core.Logic.{◌⊎◌, inl, inr}
use mathlib.Core.List.{List, [], ◌∷◌, ◌++◌}
use mathlib.Core.Option.{Option, none, some}
use native.Mathlib.Omega.{arith}

module _ {ℓ} {A : Type ℓ} where
  abbrev pub length : List A → ℕ
  length [] = 0
  length (x ∷ xs) = suc (length xs)

  abbrev pub get_elem? : List A → ℕ → Option A
  get_elem? [] i = none
  get_elem? (x ∷ xs) zero = some x
  get_elem? (x ∷ xs) (suc i) = get_elem? xs i

  abbrev pub take : ℕ → List A → List A
  take zero xs = []
  take (suc n) [] = []
  take (suc n) (x ∷ xs) = x ∷ take n xs

  abbrev pub drop : ℕ → List A → List A
  drop zero xs = xs
  drop (suc n) [] = []
  drop (suc n) (x ∷ xs) = drop n xs

  abbrev pub replicate : ℕ → A → List A
  replicate zero a = []
  replicate (suc n) a = a ∷ replicate n a

  abbrev pub All {κ} : (A → Type κ) → List A → Type κ
  All P [] = Unit
  All P (x ∷ xs) = P x × All P xs

  pub length-append : (xs ys : List A) → length (xs ++ ys) ≡ length xs + length ys
  length-append [] ys = omega arith
  length-append (x ∷ xs) ys = omega (arith, length-append xs ys)

  pub take-append-drop : (n : ℕ) (xs : List A) → take n xs ++ drop n xs ≡ xs
  take-append-drop zero xs = refl
  take-append-drop (suc n) [] = refl
  take-append-drop (suc n) (x ∷ xs) = rw (take-append-drop n xs)

  pub length-take : (n : ℕ) (xs : List A) → length (take n xs) ≡ min n (length xs)
  length-take zero xs = omega arith
  length-take (suc n) [] = omega arith
  length-take (suc n) (x ∷ xs) = omega (arith, length-take n xs)

  pub length-drop : (n : ℕ) (xs : List A) → length (drop n xs) ≡ length xs - n
  length-drop zero xs = omega arith
  length-drop (suc n) [] = omega arith
  length-drop (suc n) (x ∷ xs) = omega (arith, length-drop n xs)

  pub length-replicate : (n : ℕ) (a : A) → length (replicate n a) ≡ n
  length-replicate zero a = refl
  length-replicate (suc n) a = ap suc (length-replicate n a)

  -- Bytes copied over part of a buffer or file, from index `at` on.
  abbrev pub write_at : ℕ → List A → List A → List A
  write_at at bytes xs = take at xs ++ (bytes ++ drop (at + length bytes) xs)

  pub length-write_at :
      (at : ℕ) (bytes xs : List A)
      → at + length bytes ≤ length xs
      → length (write_at at bytes xs) ≡ length xs
  length-write_at at bytes xs h = omega (
    arith,
    length-append (take at xs) (bytes ++ drop (at + length bytes) xs),
    length-append bytes (drop (at + length bytes) xs),
    length-take at xs,
    length-drop (at + length bytes) xs,
  )

  pub take_all : (n : ℕ) (xs : List A) → length xs ≤ n → take n xs ≡ xs
  take_all zero [] h = refl
  take_all zero (x ∷ xs) h = absurd (omega arith)
  take_all (suc n) [] h = refl
  take_all (suc n) (x ∷ xs) h = rw (take_all n xs (omega arith))

  pub drop_all : (n : ℕ) (xs : List A) → length xs ≤ n → drop n xs ≡ []
  drop_all zero [] h = refl
  drop_all zero (x ∷ xs) h = absurd (omega arith)
  drop_all (suc n) [] h = refl
  drop_all (suc n) (x ∷ xs) h = drop_all n xs (omega arith)

  pub take-append_add :
      (n k : ℕ) (xs ys : List A) → length xs ≡ n → take (n + k) (xs ++ ys) ≡ xs ++ take k ys
  take-append_add zero k [] ys h = let e : 0 + k ≡ k = omega arith in rw e
  take-append_add zero k (x ∷ xs) ys h = absurd (omega arith)
  take-append_add (suc n) k [] ys h = absurd (omega arith)
  take-append_add (suc n) k (x ∷ xs) ys h =
      let e : suc n + k ≡ suc (n + k) = omega arith in
      rw (e, take-append_add n k xs ys (omega arith))

  pub drop-append_left :
      (p n : ℕ) (a y : List A) → p + n ≤ length a → take n (drop p (a ++ y)) ≡ take n (drop p a)
  drop-append_left zero zero a y h = refl
  drop-append_left zero (suc n) [] y h = absurd (omega arith)
  drop-append_left zero (suc n) (x ∷ a) y h = rw (drop-append_left zero n a y (omega arith))
  drop-append_left (suc p) zero a y h = refl
  drop-append_left (suc p) (suc n) [] y h = absurd (omega arith)
  drop-append_left (suc p) (suc n) (x ∷ a) y h = drop-append_left p (suc n) a y (omega arith)

  pub drop-append_right :
      (p : ℕ) (a y : List A) → length a ≤ p → drop p (a ++ y) ≡ drop (p - length a) y
  drop-append_right p [] y h = let e : p - 0 ≡ p = omega arith in rw e
  drop-append_right zero (x ∷ a) y h = absurd (omega arith)
  drop-append_right (suc p) (x ∷ a) y h =
      let e : suc p - suc (length a) ≡ p - length a = omega arith in
      rw e (drop-append_right p a y (omega arith))

  pub get_elem?-append_length :
      (xs : List A) (y : A) (ys : List A) → get_elem? (xs ++ (y ∷ ys)) (length xs) ≡ some y
  get_elem?-append_length [] y ys = refl
  get_elem?-append_length (x ∷ xs) y ys = get_elem?-append_length xs y ys

  pub get_elem?-append_left :
      (xs ys : List A) (i : ℕ) → i < length xs → get_elem? (xs ++ ys) i ≡ get_elem? xs i
  get_elem?-append_left [] ys i h = absurd (omega arith)
  get_elem?-append_left (x ∷ xs) ys zero h = refl
  get_elem?-append_left (x ∷ xs) ys (suc i) h = get_elem?-append_left xs ys i (omega arith)

  pub get_elem?-append_right :
      (xs ys : List A) (i : ℕ)
      → length xs ≤ i
      → get_elem? (xs ++ ys) i ≡ get_elem? ys (i - length xs)
  get_elem?-append_right [] ys i h = let e : i - 0 ≡ i = omega arith in rw e
  get_elem?-append_right (x ∷ xs) ys zero h = absurd (omega arith)
  get_elem?-append_right (x ∷ xs) ys (suc i) h =
      let e : suc i - suc (length xs) ≡ i - length xs = omega arith in
      rw e (get_elem?-append_right xs ys i (omega arith))

  -- Outside of a stretch that is exchanged for one of the same length, nothing changes.
  pub get_elem?-exchange :
      (before old new after : List A) (i : ℕ)
      → length old ≡ length new
      → (i < length before) ⊎ (length before + length old ≤ i)
      → get_elem? (before ++ (old ++ after)) i ≡ get_elem? (before ++ (new ++ after)) i
  get_elem?-exchange before old new after i same (inl h) =
      get_elem?-append_left before (old ++ after) i h
      ∙ sym (get_elem?-append_left before (new ++ after) i h)
  get_elem?-exchange before old new after i same (inr h) = rw (
    get_elem?-append_right before (old ++ after) i (omega arith),
    get_elem?-append_right before (new ++ after) i (omega arith),
    get_elem?-append_right old after (i - length before) (omega arith),
    get_elem?-append_right new after (i - length before) (omega arith),
    same,
  )

  pub get_elem?-drop :
      (p : ℕ) (xs : List A) (i : ℕ) → get_elem? (drop p xs) i ≡ get_elem? xs (p + i)
  get_elem?-drop zero xs i = ap (get_elem? xs) (omega arith)
  get_elem?-drop (suc p) [] i = refl
  get_elem?-drop (suc p) (x ∷ xs) i =
      get_elem?-drop p xs i
      ∙ (let step : suc (p + i) ≡ suc p + i = omega arith in ap (get_elem? (x ∷ xs)) step)

  pub drop-drop : (n m : ℕ) (xs : List A) → drop n (drop m xs) ≡ drop (m + n) xs
  drop-drop n zero xs = let e : 0 + n ≡ n = omega arith in rw e
  drop-drop zero (suc m) [] = let e : suc m + 0 ≡ suc (m + 0) = omega arith in rw e
  drop-drop (suc n) (suc m) [] = let e : suc m + suc n ≡ suc (m + suc n) = omega arith in rw e
  drop-drop n (suc m) (x ∷ xs) =
      let e : suc m + n ≡ suc (m + n) = omega arith in rw e (drop-drop n m xs)

  heads : (x y : A) → ◌≡◌ {A = Option A} (some x) (some y) → x ≡ y
  heads x y h = cc

  -- Lists that have the same elements at the same places.
  pub take-eq_of_get_elem? :
      (n : ℕ) (xs ys : List A)
      → length xs ≡ length ys
      → ((i : ℕ) → i < n → get_elem? xs i ≡ get_elem? ys i)
      → take n xs ≡ take n ys
  take-eq_of_get_elem? zero xs ys size h = refl
  take-eq_of_get_elem? (suc n) [] [] size h = refl
  take-eq_of_get_elem? (suc n) [] (y ∷ ys) size h = absurd (omega arith)
  take-eq_of_get_elem? (suc n) (x ∷ xs) [] size h = absurd (omega arith)
  take-eq_of_get_elem? (suc n) (x ∷ xs) (y ∷ ys) size h =
      let front = heads x y (h 0 (omega arith)) in
      let rest = take-eq_of_get_elem? n xs ys (omega arith) (λ i lt. h (suc i) (omega arith)) in cc

  pub drop-eq_of_get_elem? :
      (n : ℕ) (xs ys : List A)
      → length xs ≡ length ys
      → ((i : ℕ) → n ≤ i → get_elem? xs i ≡ get_elem? ys i)
      → drop n xs ≡ drop n ys
  drop-eq_of_get_elem? zero xs ys size h =
      sym (take_all (length xs) xs (omega arith))
      ∙ take-eq_of_get_elem? (length xs) xs ys size (λ i lt. h i (omega arith))
      ∙ take_all (length xs) ys (omega arith)
  drop-eq_of_get_elem? (suc n) [] [] size h = refl
  drop-eq_of_get_elem? (suc n) [] (y ∷ ys) size h = absurd (omega arith)
  drop-eq_of_get_elem? (suc n) (x ∷ xs) [] size h = absurd (omega arith)
  drop-eq_of_get_elem? (suc n) (x ∷ xs) (y ∷ ys) size h =
      drop-eq_of_get_elem? n xs ys (omega arith) (λ i le. h (suc i) (omega arith))
