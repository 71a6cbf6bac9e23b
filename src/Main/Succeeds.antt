-- ===== src/Main/Succeeds.antt =====
-- src/appimagetool.c, `main`: the program succeeds when nothing outside of it fails.
use appimagetool.Base.{ℕ, ◌^◌, ◌<◌, ◌≡◌, ◌⊎◌, inr, false, Option, some, ◌++◌, length, Bytes}
use appimagetool.Digest.{chunk_size}
use appimagetool.Embed.{section_size}
use appimagetool.Prepare.{Startup, Wishes, AppDir, Prepared, prepare}
use appimagetool.Prepare.Laws.{prepare-IsPrepared}
use appimagetool.Package.{next, Options, System, load_runtime, decide_update_information}
use appimagetool.Package.Runtime.{Places, IsRuntime}
use appimagetool.Package.Passed.{package_app_dir-HasPassed}
use appimagetool.Package.Able.{Signs, Fits, IsAble}
use appimagetool.Package.Succeeds.{package_app_dir-IsAble}
use appimagetool.Main.{main}
use appimagetool.Main.Laws.{HasStarted, HasPacked-main}

-- The exit code is 0 when the tools are there and the argument is a directory, the checks of the AppDir
-- pass, the runtime has its sections as `IsRuntime` says, the update information that was decided on, if
-- there is one, is in a known format and has room, and nothing outside of the program fails, as
-- `IsAble` and, where it is to sign, `Signs` say. MD5 gives 16 bytes, the stack is as large as it is
-- declared, and the runtime is smaller than 2^31 bytes.
pub main-IsAble :
    (s : Startup) (w : Wishes) (a : AppDir) (o : Options) (sys : System) (p : Places)
    (data_ rest : Bytes) (prepared : Prepared) (info : Option Bytes)
    → HasStarted s
    → prepare sys.glib s.finds w a ≡ next prepared
    → ((ctx : sys.md5.Context) → length (sys.md5.finalise ctx) ≡ section_size)
    → ((i : ℕ) → length (sys.stack i) ≡ chunk_size)
    → IsRuntime p data_
    → length data_ < 2 ^ 31
    → load_runtime o.runtime_file sys.download ≡ next (length data_, data_ ++ rest)
    → IsAble sys o (length data_)
    → decide_update_information sys o a.source prepared.destination prepared.app_name prepared.arch
      ≡ next info
    → Fits sys p info
    → (o.sign ≡ false) ⊎ Signs sys.signer o.verbose p
    → main s w a o sys ≡ some 0
main-IsAble s w a o sys p data_ rest prepared info started prepares of_16 whole runtime short loads
      able decides fits signs =
    let (final, packed) =
      package_app_dir-IsAble sys o a.source prepared.destination prepared.app_name prepared.arch p
        data_ rest of_16 whole runtime short loads info able decides fits signs in
    HasPacked-main s w a o sys (
      inr (record {
        started = started;
        prepared = prepared;
        prepares = prepares;
        is_prepared = prepare-IsPrepared sys.glib s.finds w a prepared prepares;
        final = final;
        packed = packed;
        passed =
            package_app_dir-HasPassed sys o a.source prepared.destination prepared.app_name
              prepared.arch final packed;
      }))
