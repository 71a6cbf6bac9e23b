-- ===== src/Base/Strings.antt =====
-- C strings as the bytes before their terminating null, and the functions of string.h on them.

use Prim.Native.Nat.{ℕ, zero, suc, ◌+◌}
use Prim.Native.Char.{code}
use Prim.Native.String.{String}
use mathlib.Core.Path.{◌≡◌, refl}
use mathlib.Core.Logic.{◌≢◌}
use mathlib.Core.Bool.{Bool, true, false, ◌&&◌}
use mathlib.Core.Option.{Option, none, some}
use mathlib.Core.List.{List, [], ◌∷◌, ◌++◌}
use native.Mathlib.Omega.{arith}
use appimagetool.Base.Tests.{◌==◌, if◌then◌else◌}
use appimagetool.Base.Lists.{take, drop, length}

abbrev pub Bytes : Type 0
Bytes = List ℕ

-- The bytes of a literal, which is ASCII in this program.
abbrev pub codes : String → Bytes
codes String.[] = []
codes (String.◌∷◌ c s) = code c ∷ codes s

-- `strcmp(s, t) == 0`
abbrev pub str_eq : Bytes → Bytes → Bool
str_eq [] [] = true
str_eq [] (y ∷ ys) = false
str_eq (x ∷ xs) [] = false
str_eq (x ∷ xs) (y ∷ ys) = x == y && str_eq xs ys

-- `strncmp(hay, needle, strlen(needle)) == 0`
abbrev pub is_prefix : Bytes → Bytes → Bool
is_prefix [] hay = true
is_prefix (x ∷ xs) [] = false
is_prefix (x ∷ xs) (y ∷ ys) = x == y && is_prefix xs ys

abbrev pub next_index : Option ℕ → Option ℕ
next_index none = none
next_index (some k) = some (suc k)

-- `strstr(hay, needle) - hay`, or `none` for NULL.
unfoldable pub strstr : Bytes → Bytes → Option ℕ
strstr [] needle = if is_prefix needle [] then some 0 else none
strstr (x ∷ hay) needle =
    if is_prefix needle (x ∷ hay) then some 0 else next_index (strstr hay needle)

abbrev pub count : ℕ → Bytes → ℕ
count c [] = 0
count c (x ∷ xs) = (if x == c then 1 else 0) + count c xs

pub count-append : (c : ℕ) (xs ys : Bytes) → count c (xs ++ ys) ≡ count c xs + count c ys
count-append c [] ys = omega arith
count-append c (x ∷ xs) ys = omega (arith, count-append c xs ys)

pub str_eq→eq : (s t : Bytes) → str_eq s t ≡ true → s ≡ t
str_eq→eq [] [] h = refl
str_eq→eq [] (y ∷ ys) h = cc
str_eq→eq (x ∷ xs) [] h = cc
str_eq→eq (x ∷ xs) (y ∷ ys) h = ground (arith, str_eq→eq xs ys)

pub str_eq_refl : (s : Bytes) → str_eq s s ≡ true
str_eq_refl [] = refl
str_eq_refl (x ∷ xs) = ground (arith, str_eq_refl xs)

pub is_prefix→eq :
    (needle hay : Bytes) → is_prefix needle hay ≡ true → hay ≡ needle ++ drop (length needle) hay
is_prefix→eq [] hay h = refl
is_prefix→eq (x ∷ xs) [] h = cc
is_prefix→eq (x ∷ xs) (y ∷ ys) h = ground (arith, is_prefix→eq xs ys)

pub is_prefix-append : (needle rest : Bytes) → is_prefix needle (needle ++ rest) ≡ true
is_prefix-append [] rest = refl
is_prefix-append (x ∷ xs) rest = ground (arith, is_prefix-append xs rest)

-- Where the text is found, the string falls into what is before it, the text and the rest.
pub strstr-eq-some :
    (hay needle : Bytes) (k : ℕ)
    → strstr hay needle ≡ some k
    → hay ≡ take k hay ++ (needle ++ drop (k + length needle) hay)
unfolding strstr
strstr-eq-some [] [] zero h = refl
strstr-eq-some [] [] (suc k) h = cc
strstr-eq-some [] (n ∷ needle) k h = cc
strstr-eq-some (x ∷ hay) needle zero h = ground (arith, is_prefix→eq needle (x ∷ hay))
strstr-eq-some (x ∷ hay) needle (suc k) h =
    let e : suc k + length needle ≡ suc (k + length needle) = omega arith in
    rw e (ground (arith, strstr-eq-some hay needle k))

-- A text that stands in the string is found.
pub strstr-append-ne-none :
    (before needle after : Bytes) → strstr (before ++ (needle ++ after)) needle ≢ none
unfolding strstr
strstr-append-ne-none [] [] [] h = cc
strstr-append-ne-none [] [] (x ∷ after) h = cc
strstr-append-ne-none [] (n ∷ needle) after h = ground (arith, is_prefix-append needle after)
strstr-append-ne-none (x ∷ before) needle after h =
    ground (arith, strstr-append-ne-none before needle after)
