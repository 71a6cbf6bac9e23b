-- ===== src/Arch/Tree.antt =====
-- src/appimagetool.c, `find_arch`: every file of a directory tree that may be a program or a library.
use appimagetool.Base.{ℕ, ◌+◌, ◌*◌, Bool, ◌||◌, Option, none, some, if◌then◌else◌, get_elem?, Bytes}
use appimagetool.Glib.{Glib}
use appimagetool.Arch.{Archs, extract_arch_from_e_machine_field}

-- What `g_file_test`, `g_dir_open` and `fopen` find behind a name. A file is executable or not, and
-- holds bytes if it can be opened.
mutual
  pub data Node : Type 0 where
    symlink : Node
    unreadable : Node
    directory : Listing → Node
    file : Bool → Option Bytes → Node

  pub data Listing : Type 0 where
    end : Listing
    entry : Bytes → Node → Listing → Listing

-- `fread` of the 2 bytes at 0x12 into a variable that holds 0. Bytes that are there are stored, also
-- where the second is missing, as glibc does.
unfoldable pub read_elf_e_machine_field : Option Bytes → ℕ
read_elf_e_machine_field none = 0
read_elf_e_machine_field (some bytes) = elim (get_elem? bytes 0x12) [
  | none ↦ 0
  | some low ↦ elim (get_elem? bytes 0x13) [ none ↦ low | some high ↦ low + 256 * high ]
]

unfoldable pub guess_arch_of_file : Option Bytes → Archs → Archs
guess_arch_of_file f a = extract_arch_from_e_machine_field (read_elf_e_machine_field f) a

module _ (g : Glib) (pattern_ : Bytes) where
  unfoldable mutual
    -- The body of the loop for one entry of the directory.
    pub visit : Bytes → Node → Archs → Archs
    visit name symlink a = a
    visit name unreadable a = a
    visit name (directory l) a = find_arch l a
    visit name (file executable f) a =
        if executable || g.pattern_match pattern_ name then guess_arch_of_file f a else a

    pub find_arch : Listing → Archs → Archs
    find_arch end a = a
    find_arch (entry name node rest) a = find_arch rest (visit name node a)
