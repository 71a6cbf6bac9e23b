-- ===== src/Package/Succeeds/Tests.antt =====
-- src/appimagetool.c, `main`: the steps end with an AppImage on a system on which all succeeds.
use appimagetool.Base.{◌≡◌, inr, some, [], arith, Bytes, codes}
use appimagetool.Elf.Sample.{runtime_file}
use appimagetool.Digest.Sample.{length-fresh_stack, length-toy}
use appimagetool.Package.{next, package_app_dir}
use appimagetool.Package.Sample.{signing_options, sample_places}
use appimagetool.Package.Sample.Runtime.{runtime_file-IsRuntime, runtime_loaded}
use appimagetool.Package.Succeeds.Sample.{
  owned_system, owned_system-IsAble, owner-Signs, given, given_decided, given-Fits,
}
use appimagetool.Package.Succeeds.{package_app_dir-IsAble}

package_app_dir-IsAble_example :
    (final : Bytes) × (package_app_dir owned_system signing_options
        (codes "AppDir")
        (codes "App.AppImage")
        (codes "App")
        (codes "x86_64")
      ≡ next final)
package_app_dir-IsAble_example =
    package_app_dir-IsAble owned_system signing_options (codes "AppDir") (codes "App.AppImage")
      (codes "App") (codes "x86_64") sample_places runtime_file [] length-toy length-fresh_stack
      runtime_file-IsRuntime (omega arith) runtime_loaded (some given) owned_system-IsAble
      given_decided given-Fits (inr owner-Signs)
