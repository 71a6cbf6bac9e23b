-- ===== src/Main/Laws.antt =====
-- src/appimagetool.c, `main`: what the exit code 0 means.
use appimagetool.Base.{◌≡◌, refl, ◌⊎◌, inl, inr, true, false, some, Bytes, codes}
use appimagetool.Package.{next, Options, System, package_app_dir}
use appimagetool.Package.Passed.{HasPassed}
use appimagetool.Prepare.{
  Startup, packs, ends_with, start, a_directory, chdir_fails, is_empty_url, Wishes, AppDir,
  Prepared, prepare,
}
use appimagetool.Prepare.Laws.{IsPrepared}
use appimagetool.Main.{exit_code, pack, main}

-- The program has started to pack: its tools are there and its argument is a directory.
pub record HasStarted (s : Startup) : Type 0 where
  pub found_owd : chdir_fails s.owd ≡ false
  pub parsed : s.options_parsed ≡ true
  pub has_url : is_empty_url s.file_url ≡ false
  pub file_tool : s.finds (codes "file") ≡ true
  pub mksquashfs : s.finds (codes "mksquashfs") ≡ true
  pub validator : s.finds (codes "desktop-file-validate") ≡ true
  pub is_directory : s.argument ≡ a_directory
  pub not_only_version : s.show_version_only ≡ false

-- The program only shows its version: the options were fine, and asked for it.
pub record ShowsVersion (s : Startup) : Type 0 where
  pub found_owd : chdir_fails s.owd ≡ false
  pub parsed : s.options_parsed ≡ true
  pub has_url : is_empty_url s.file_url ≡ false
  pub only_version : s.show_version_only ≡ true

-- A packed AppDir: the program had its tools and a directory, all that `IsPrepared` says was made
-- sure of, the system answered as `HasPassed` says, and the steps from the runtime on came to
-- their end.
pub record HasPacked (s : Startup) (w : Wishes) (a : AppDir) (o : Options) (sys : System)
    : Type 1 where
  pub started : HasStarted s
  pub prepared : Prepared
  pub prepares : prepare sys.glib s.finds w a ≡ next prepared
  pub is_prepared : IsPrepared sys.glib s.finds w a prepared
  pub final : Bytes
  pub packed :
      package_app_dir sys o a.source prepared.destination prepared.app_name prepared.arch
      ≡ next final
  pub passed : HasPassed sys o a.source prepared.destination prepared.app_name prepared.arch final

start-packs : (s : Startup) → HasStarted s → start s ≡ packs
unfolding start
start-packs s h = simp (
  h.found_owd, h.parsed, h.has_url, h.file_tool, h.mksquashfs, h.validator, h.is_directory,
  h.not_only_version,
)

start-shows : (s : Startup) → ShowsVersion s → start s ≡ ends_with 0
unfolding start
start-shows s h = simp (h.found_owd, h.parsed, h.has_url, h.only_version)

-- Where the options are fine and ask for the version, or the AppDir is packed as `HasPacked` says,
-- the exit code is 0.
pub HasPacked-main :
    (s : Startup) (w : Wishes) (a : AppDir) (o : Options) (sys : System)
    → ShowsVersion s ⊎ HasPacked s w a o sys
    → main s w a o sys ≡ some 0
unfolding main pack exit_code
HasPacked-main s w a o sys (inl shows) = rw (start-shows s shows, main) refl
HasPacked-main s w a o sys (inr done) =
    rw (start-packs s done.started, main, done.prepares, pack, done.packed) refl
