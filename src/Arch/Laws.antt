-- ===== src/Arch/Laws.antt =====
-- src/appimagetool.c, `find_arch`: which architectures a directory tree marks.
use appimagetool.Base.{
  ℕ, ◌≡◌, refl, Bool, false, ◌||◌, Option, List, [], ◌∷◌, ◌++◌, arith, ◌==◌, if◌then◌else◌, Bytes,
}
use appimagetool.Glib.{Glib}
use appimagetool.Arch.{
  FArch, i686, x86_64, armhf, aarch64, Archs, marked, extract_arch_from_e_machine_field,
}
use appimagetool.Arch.Tree.{
  Node, Listing, symlink, unreadable, directory, file, end, entry, read_elf_e_machine_field,
  guess_arch_of_file, visit, find_arch,
}

-- The number of an architecture in the ELF header.
abbrev pub machine : FArch → ℕ
machine i686 = 3
machine x86_64 = 62
machine armhf = 40
machine aarch64 = 183

-- Some file of the list is of an architecture.
abbrev pub any_of : FArch → List (Option Bytes) → Bool
any_of x [] = false
any_of x (f ∷ files) = read_elf_e_machine_field f == machine x || any_of x files

module _ (g : Glib) (pattern_ : Bytes) where
  -- The files of a tree that are executable or match the pattern, behind no symbolic link.
  unfoldable mutual
    pub candidates_at : Bytes → Node → List (Option Bytes)
    candidates_at name symlink = []
    candidates_at name unreadable = []
    candidates_at name (directory l) = candidates l
    candidates_at name (file executable f) =
        if executable || g.pattern_match pattern_ name then f ∷ [] else []

    pub candidates : Listing → List (Option Bytes)
    candidates end = []
    candidates (entry name node rest) = candidates_at name node ++ candidates rest

any_of-append :
    (x : FArch) (xs ys : List (Option Bytes)) → any_of x (xs ++ ys) ≡ (any_of x xs || any_of x ys)
any_of-append x [] ys = refl
any_of-append x (f ∷ xs) ys = ground (arith, any_of-append x xs ys)

marked-guess :
    (x : FArch) (f : Option Bytes) (a : Archs)
    → marked x (guess_arch_of_file f a) ≡ (marked x a || read_elf_e_machine_field f == machine x)
unfolding guess_arch_of_file extract_arch_from_e_machine_field
marked-guess i686 f a = ground arith
marked-guess x86_64 f a = ground arith
marked-guess armhf f a = ground arith
marked-guess aarch64 f a = ground arith

module _ (g : Glib) (pattern_ : Bytes) (x : FArch) where
  mutual
    unfolding visit find_arch candidates_at candidates

    marked-visit :
        (name : Bytes) (node : Node) (a : Archs)
        → marked x (visit g pattern_ name node a)
          ≡ (marked x a || any_of x (candidates_at g pattern_ name node))
    marked-visit name symlink a = ground arith
    marked-visit name unreadable a = ground arith
    marked-visit name (directory l) a = marked-find l a
    marked-visit name (file executable f) a = ground (arith, marked-guess x f a)

    marked-find :
        (l : Listing) (a : Archs)
        → marked x (find_arch g pattern_ l a) ≡ (marked x a || any_of x (candidates g pattern_ l))
    marked-find end a = ground arith
    marked-find (entry name node rest) a = ground (
      arith,
      marked-find rest (visit g pattern_ name node a),
      marked-visit name node a,
      any_of-append x (candidates_at g pattern_ name node) (candidates g pattern_ rest),
    )

-- A search of a directory tree marks an architecture exactly if it was marked before or some file
-- of the tree is of it: an executable file or one whose name matches the pattern, not behind a
-- symbolic link or in a directory that cannot be read.
pub marked-find_arch :
    (g : Glib) (pattern_ : Bytes) (x : FArch) (l : Listing) (a : Archs)
    → marked x (find_arch g pattern_ l a) ≡ (marked x a || any_of x (candidates g pattern_ l))
marked-find_arch g pattern_ x l a = marked-find g pattern_ x l a
