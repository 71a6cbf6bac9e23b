-- ===== src/Arch.antt =====
-- src/appimagetool.c: the architecture of an AppDir, from the variable ARCH or from the machine field
-- of the ELF files in it.
pub mod Tree
pub mod Choose
pub mod Laws
mod Tests
use appimagetool.Base.{
  ℕ, ◌+◌, ◌-◌, Bool, true, false, ◌||◌, Option, none, some, ◌==◌, if◌then◌else◌, length, Bytes,
  codes, ◌>>=◌,
}
use Prim.Native.String.{String}
use appimagetool.Glib.{Glib}
use appimagetool.Replace.{replacestr}

-- `fARCH`
pub data FArch : Type 0 where
  i686 x86_64 armhf aarch64 : FArch

-- `bool archs[4]`
pub record Archs : Type 0 where
  pub has_i686 : Bool
  pub has_x86_64 : Bool
  pub has_armhf : Bool
  pub has_aarch64 : Bool

-- `archs[x]` and `archs[x] = 1`
abbrev pub marked : FArch → Archs → Bool
marked i686 a = a.has_i686
marked x86_64 a = a.has_x86_64
marked armhf a = a.has_armhf
marked aarch64 a = a.has_aarch64

abbrev pub mark : FArch → Archs → Archs
mark i686 a = record a { has_i686 = true }
mark x86_64 a = record a { has_x86_64 = true }
mark armhf a = record a { has_armhf = true }
mark aarch64 a = record a { has_aarch64 = true }

-- `bool archs[4] = {0, 0, 0, 0}`
abbrev pub no_archs : Archs
no_archs = record { has_i686 = false; has_x86_64 = false; has_armhf = false; has_aarch64 = false }

abbrev pub bit : Bool → ℕ
bit true = 1
bit false = 0

unfoldable pub count_archs : Archs → ℕ
count_archs a = bit a.has_i686 + bit a.has_x86_64 + bit a.has_armhf + bit a.has_aarch64

unfoldable pub arch_to_name : FArch → Bytes
arch_to_name aarch64 = codes "aarch64"
arch_to_name armhf = codes "armhf"
arch_to_name i686 = codes "i686"
arch_to_name x86_64 = codes "x86_64"

unfoldable pub get_arch_name : Archs → Bytes
get_arch_name a =
    if a.has_i686
    then arch_to_name i686
    else if a.has_x86_64
    then arch_to_name x86_64
    else if a.has_armhf
    then arch_to_name armhf
    else if a.has_aarch64
    then arch_to_name aarch64
    else codes "all"

-- The field is a 16-bit pattern.
unfoldable pub extract_arch_from_e_machine_field : ℕ → Archs → Archs
extract_arch_from_e_machine_field e_machine a =
    let a1 = if e_machine == 3 then mark i686 a else a in
    let a2 = if e_machine == 62 then mark x86_64 a1 else a1 in
    let a3 = if e_machine == 40 then mark armhf a2 else a2 in
    if e_machine == 183 then mark aarch64 a3 else a3

module _ (g : Glib) where
  -- The two replacements; `none` would mean that they do not end.
  unfoldable pub normalise : Bytes → Option Bytes
  normalise text = do
    a ← replacestr (length text + 1) text (codes "-") (codes "_")
    replacestr (length a + 1) a (codes " ") (codes "_")

  abbrev pub is : String → ℕ → Bytes → Bool
  is text n name = g.same_caseless (codes text) name n

  -- The ladder of tests, for the name after the replacements.
  unfoldable pub arch_of_text : Bytes → Option FArch
  arch_of_text name =
      if is "i386" 5 name
        || is "i486" 5 name
        || is "i586" 5 name
        || is "i686" 5 name
        || is "intel_80386" 12 name
        || is "intel_80486" 12 name
        || is "intel_80586" 12 name
        || is "intel_80686" 12 name
      then some i686
      else if is "x86_64" 7 name
      then some x86_64
      else if is "arm" 4 name || is "armhf" 6 name
      then some armhf
      else if is "arm_aarch64" 12 name || is "aarch64" 8 name
      then some aarch64
      else none

  abbrev pub mark_found : Option FArch → Archs → Archs
  mark_found none a = a
  mark_found (some x) a = mark x a

  -- `none` is a variable that is not set. The outer `none` is a replacement that does not end.
  unfoldable pub extract_arch_from_text : Option Bytes → Archs → Option Archs
  extract_arch_from_text none a = some a
  extract_arch_from_text (some text) a = do
    name ← normalise (g.strip text)
    some (mark_found (arch_of_text name) a)
