-- ===== src/Main.antt =====
-- src/appimagetool.c, `main`: the whole program, from its start to its exit code.
pub mod Laws
pub mod Succeeds
mod Tests
use appimagetool.Base.{ℕ, Option, none, some, Bytes}
use appimagetool.Package.{Progress, next, dies, crashes, Options, System, package_app_dir, ◌>>=◌}
use appimagetool.Prepare.{
  Startup, Start, packs, ends_with, start, Wishes, AppDir, Prepared, prepare,
}

-- `return 0` at the end, `exit(1)` in `die`; `none` is a process that ends with a fault.
unfoldable pub exit_code : Progress Bytes → Option ℕ
exit_code (next file) = some 0
exit_code dies = some 1
exit_code crashes = none

-- The AppDir is prepared, and packed under the name of its app and its architecture.
unfoldable pub pack : Startup → Wishes → AppDir → Options → System → Progress Bytes
pack s w a o sys = do
  p ← prepare sys.glib s.finds w a
  package_app_dir sys o a.source p.destination p.app_name p.arch

unfoldable pub main : Startup → Wishes → AppDir → Options → System → Option ℕ
main s w a o sys = elim (start s) [
  | ends_with code ↦ some code
  | packs ↦ exit_code (pack s w a o sys)
]
