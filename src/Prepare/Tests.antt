-- ===== src/Prepare/Tests.antt =====
-- src/appimagetool.c, `main`: the checks of a small AppDir, and ends of programs that are started.
use appimagetool.Base.{◌≡◌, refl, true, codes, str_eq, strstr}
use appimagetool.Prepare.Sample.{all_tools, small_app_dir, for_x86_64, small_prepared}
use appimagetool.Glib.Sample.{sample}
use appimagetool.Arch.{
  extract_arch_from_text, normalise, arch_of_text, count_archs, get_arch_name, arch_to_name,
}
use appimagetool.Arch.Choose.{determine_arch}
use appimagetool.Naming.{app_name_for_filename, destination, icon_file_path}
use appimagetool.Replace.{replacestr, splice}
use appimagetool.Package.{next}
use appimagetool.Prepare.{
  decide_version, find_first_matching_file_nonrecursive, validate_desktop_file, check_desktop_file,
  unlink_dir_icon, link_dir_icon, basename, missing, dangling, check_appstream, application_id,
  prepare,
}

prepared_small : prepare sample all_tools for_x86_64 small_app_dir ≡ next small_prepared
unfolding prepare decide_version find_first_matching_file_nonrecursive check_desktop_file
    validate_desktop_file determine_arch extract_arch_from_text normalise arch_of_text count_archs
    get_arch_name arch_to_name app_name_for_filename destination icon_file_path replacestr splice
    unlink_dir_icon link_dir_icon basename check_appstream application_id strstr
prepared_small = refl

-- An icon in a subdirectory: the link leads to its last part, which is not there.
link_dangles :
    link_dir_icon true
      (λ path. str_eq path (codes "App/icons/app.svg"))
      (codes "App")
      (codes "App/icons/app.svg")
      missing
    ≡ next dangling
unfolding link_dir_icon basename
link_dangles = refl
