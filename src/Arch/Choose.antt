-- ===== src/Arch/Choose.antt =====
-- src/appimagetool.c, `main`: the choice of the architecture, from ARCH first and from the files of
-- the AppDir where ARCH names none.
use appimagetool.Base.{
  ◌+◌, ◌≡◌, refl, ap, ◌∙◌, Bool, true, false, Option, none, some, arith, ltb, ◌==◌, if◌then◌else◌,
  length, Bytes, codes, ◌>>=◌,
}
use mathlib.Core.List.{map}
use appimagetool.Replace.Laws.{swap_byte, replacestr-eq-map}
use appimagetool.Glib.{Glib, IsGlib, HasNoBlank}
use appimagetool.Arch.{
  FArch, i686, x86_64, armhf, aarch64, Archs, mark, no_archs, count_archs, arch_to_name,
  get_arch_name, normalise, arch_of_text, mark_found, extract_arch_from_text,
}
use appimagetool.Arch.Tree.{Listing, find_arch}
use appimagetool.Arch.Laws.{any_of, candidates, marked-find_arch}

-- The name of the one architecture, or the message with which the program dies.
pub data Choice : Type 0 where
  chosen : Bytes → Choice
  unable : Choice
  more_than_one : Choice

module _ (g : Glib) where
  -- The search of the AppDir, which `none` says cannot be opened.
  abbrev pub search_app_dir : Option Listing → Archs → Archs
  search_app_dir none a = a
  search_app_dir (some l) a = find_arch g (codes "*.so.*") l a

  abbrev pub choose_from : Option Listing → Archs → Choice
  choose_from root a =
      if count_archs a == 1
      then chosen (get_arch_name a)
      else (let found = search_app_dir root a in
          if count_archs found == 1
          then chosen (get_arch_name found)
          else if ltb (count_archs found) 1
          then unable
          else more_than_one)

  -- `none` would be a replacement in the value of ARCH that does not end.
  unfoldable pub determine_arch : Option Bytes → Option Listing → Option Choice
  determine_arch arch root = do
    a ← extract_arch_from_text g arch no_archs
    some (choose_from root a)

  -- The architecture that the value of ARCH names, with every `-` and every blank read as `_`.
  abbrev pub named_arch : Option Bytes → Option FArch
  named_arch none = none
  named_arch (some text) =
      arch_of_text g (map (swap_byte b' ' b'_') (map (swap_byte b'-' b'_') (g.strip text)))

  -- Some file of the AppDir is of the architecture.
  abbrev pub holds : Option Listing → FArch → Bool
  holds none x = false
  holds (some l) x = any_of x (candidates g (codes "*.so.*") l)

-- The choice from what was found: i686, x86_64, armhf and aarch64.
abbrev pub only_one : Bool → Bool → Bool → Bool → Choice
only_one true false false false = chosen (codes "i686")
only_one false true false false = chosen (codes "x86_64")
only_one false false true false = chosen (codes "armhf")
only_one false false false true = chosen (codes "aarch64")
only_one false false false false = unable
only_one _ _ _ _ = more_than_one

normalise_lem :
    (g : Glib) (text : Bytes)
    → normalise g text ≡ some (map (swap_byte b' ' b'_') (map (swap_byte b'-' b'_') text))
unfolding normalise
normalise_lem g text =
    rw (replacestr-eq-map (length text + 1) b'-' b'_' text (omega arith) (omega arith)) (
      replacestr-eq-map (length (map (swap_byte b'-' b'_') text) + 1) b' ' b'_'
        (map (swap_byte b'-' b'_') text) (omega arith) (omega arith))

choose_from-mark :
    (g : Glib) (root : Option Listing) (x : FArch)
    → choose_from g root (mark x no_archs) ≡ chosen (arch_to_name x)
unfolding count_archs get_arch_name
choose_from-mark g root i686 = refl
choose_from-mark g root x86_64 = refl
choose_from-mark g root armhf = refl
choose_from-mark g root aarch64 = refl

choose_one :
    (a : Archs)
    → (if count_archs a == 1
        then chosen (get_arch_name a)
        else if ltb (count_archs a) 1
        then unable
        else more_than_one)
      ≡ only_one a.has_i686 a.has_x86_64 a.has_armhf a.has_aarch64
unfolding count_archs get_arch_name arch_to_name
choose_one a = ground arith

count_none : count_archs no_archs ≡ 0
unfolding count_archs
count_none = refl

choose_from_none :
    (g : Glib) (root : Option Listing)
    → choose_from g root no_archs
      ≡ only_one
          (holds g root i686)
          (holds g root x86_64)
          (holds g root armhf)
          (holds g root aarch64)
choose_from_none g none = unfold count_archs in refl
choose_from_none g (some l) =
    let found = find_arch g (codes "*.so.*") l no_archs in
    first
    ∙ choose_one found
    ∙ rw (
      marked-find_arch g (codes "*.so.*") i686 l no_archs,
      marked-find_arch g (codes "*.so.*") x86_64 l no_archs,
      marked-find_arch g (codes "*.so.*") armhf l no_archs,
      marked-find_arch g (codes "*.so.*") aarch64 l no_archs,
    )
  where
    first : choose_from g (some l) no_archs ≡ (
        let found = find_arch g (codes "*.so.*") l no_archs in
        if count_archs found == 1
        then chosen (get_arch_name found)
        else if ltb (count_archs found) 1
        then unable
        else more_than_one)
    first = rw count_none

-- What the program decides, for every value of ARCH and every AppDir: the architecture that ARCH
-- names, whatever the files are; else the one architecture of which the AppDir holds a file. The
-- program dies where it holds files of none or of more than one. It never uses the name `all`, and
-- the replacements in the value of ARCH end.
pub determine_arch_lem :
    (g : Glib) (arch : Option Bytes) (root : Option Listing)
    → determine_arch g arch root
      ≡ some (elim (named_arch g arch) [
        | some x ↦ chosen (arch_to_name x)
        | none ↦
            only_one
              (holds g root i686)
              (holds g root x86_64)
              (holds g root armhf)
              (holds g root aarch64)
      ])
unfolding determine_arch extract_arch_from_text
determine_arch_lem g none root = ap some (choose_from_none g root)
determine_arch_lem g (some text) root =
    rw (normalise_lem g (g.strip text)) (by_name (named_arch g (some text)))
  where
    by_name :
        (t : Option FArch)
        → some (choose_from g root (mark_found g t no_archs))
          ≡ some (elim t [
            | some x ↦ chosen (arch_to_name x)
            | none ↦
                only_one
                  (holds g root i686)
                  (holds g root x86_64)
                  (holds g root armhf)
                  (holds g root aarch64)
          ])
    by_name none = ap some (choose_from_none g root)
    by_name (some x) = ap some (choose_from-mark g root x)

arch_of_text-arch_to_name :
    (g : Glib) → IsGlib g → (x : FArch) → arch_of_text g (arch_to_name x) ≡ some x
unfolding arch_to_name arch_of_text
arch_of_text-arch_to_name g law i686 = simp law.same_caseless_lem
arch_of_text-arch_to_name g law x86_64 = simp law.same_caseless_lem
arch_of_text-arch_to_name g law armhf = simp law.same_caseless_lem
arch_of_text-arch_to_name g law aarch64 = simp law.same_caseless_lem

arch_to_name-plain :
    (x : FArch)
    → HasNoBlank (arch_to_name x)
      × (map (swap_byte b' ' b'_') (map (swap_byte b'-' b'_') (arch_to_name x)) ≡ arch_to_name x)
unfolding arch_to_name
arch_to_name-plain i686 = ((refl, (refl, (refl, (refl, tt)))), refl)
arch_to_name-plain x86_64 = ((refl, (refl, (refl, (refl, (refl, (refl, tt)))))), refl)
arch_to_name-plain armhf = ((refl, (refl, (refl, (refl, (refl, tt))))), refl)
arch_to_name-plain aarch64 = ((refl, (refl, (refl, (refl, (refl, (refl, (refl, tt))))))), refl)

-- The name of an architecture is read back as that architecture, so ARCH can be set to any name
-- that the program prints: if the functions of GLib do what is documented, and whatever the AppDir
-- holds.
pub determine_arch-arch_to_name :
    (g : Glib)
    → IsGlib g
    → (x : FArch) (root : Option Listing)
    → determine_arch g (some (arch_to_name x)) root ≡ some (chosen (arch_to_name x))
determine_arch-arch_to_name g law x root =
    let (plain, same) = arch_to_name-plain x in
    determine_arch_lem g (some (arch_to_name x)) root
    ∙ rw (law.strip_plain (arch_to_name x) plain, same, arch_of_text-arch_to_name g law x)
