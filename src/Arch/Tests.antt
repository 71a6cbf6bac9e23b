-- ===== src/Arch/Tests.antt =====
-- src/appimagetool.c: the architecture of small AppDirs.
use appimagetool.Base.{
  ℕ, ◌≡◌, true, false, ◌||◌, Option, none, some, [], ◌∷◌, ◌++◌, replicate, Bytes, codes,
}
use appimagetool.Glib.Sample.{sample}
use appimagetool.Arch.{i686, x86_64, armhf, aarch64, marked, no_archs}
use appimagetool.Arch.Tree.{Listing, directory, symlink, file, end, entry, find_arch}
use appimagetool.Arch.Laws.{any_of, candidates, marked-find_arch}
use appimagetool.Arch.Choose.{determine_arch, determine_arch_lem, holds, only_one}

-- The start of an ELF file for a machine.
abbrev elf_of : ℕ → Option Bytes
elf_of e_machine = some (0x7f ∷ b'E' ∷ b'L' ∷ b'F' ∷ (replicate 14 0 ++ (e_machine ∷ 0 ∷ [])))

abbrev app_dir : Listing
app_dir = entry (codes "AppRun") (file true (elf_of 62)) (
    entry (codes "lib") (directory (entry (codes "liba.so.1") (file false (elf_of 62)) end))
      (entry (codes "notes") (file false (elf_of 40)) (entry (codes "link") symlink end)))

abbrev mixed : Listing
mixed = entry (codes "old") (file true (elf_of 3)) app_dir

marked-find_arch_example :
    marked armhf (find_arch sample (codes "*.so.*") app_dir no_archs)
    ≡ (false || any_of armhf (candidates sample (codes "*.so.*") app_dir))
marked-find_arch_example = marked-find_arch sample (codes "*.so.*") armhf app_dir no_archs

determine_arch_lem_example :
    determine_arch sample none (some mixed)
    ≡ some (
        only_one
          (holds sample (some mixed) i686)
          (holds sample (some mixed) x86_64)
          (holds sample (some mixed) armhf)
          (holds sample (some mixed) aarch64))
determine_arch_lem_example = determine_arch_lem sample none (some mixed)
