-- ===== src/Main/Tests.antt =====
-- src/appimagetool.c, `main`: a run that packs and signs a small AppDir, and runs that end before.
use appimagetool.Base.{◌≡◌, refl, inr, true, false, none, some, [], arith, strstr}
use appimagetool.Package.Sample.{signing_options, sample_places}
use appimagetool.Package.{next, decide_update_information}
use appimagetool.Elf.Sample.{runtime_file}
use appimagetool.Digest.Sample.{length-fresh_stack, length-toy}
use appimagetool.Package.Sample.Runtime.{runtime_file-IsRuntime, runtime_loaded}
use appimagetool.Package.Succeeds.Sample.{
  owned_system, owned_system-IsAble, owner-Signs, given, given-Fits,
}
use appimagetool.Main.Succeeds.{main-IsAble}
use appimagetool.Prepare.Sample.{small_prepared, all_tools, small_app_dir, for_x86_64}
use appimagetool.Arch.{
  extract_arch_from_text, normalise, arch_of_text, count_archs, get_arch_name, arch_to_name,
}
use appimagetool.Arch.Choose.{determine_arch}
use appimagetool.Naming.{app_name_for_filename, destination, icon_file_path}
use appimagetool.Replace.{replacestr, splice}
use appimagetool.Prepare.{
  Startup, a_directory, a_file, ends_with, start, decide_version,
  find_first_matching_file_nonrecursive, validate_desktop_file, check_desktop_file, unlink_dir_icon,
  link_dir_icon, basename, check_appstream, application_id, prepare,
}
use appimagetool.Main.{main}
use appimagetool.Main.Laws.{HasStarted}

abbrev from_shell : Startup
from_shell = record {
  owd = none;
  options_parsed = true;
  file_url = none;
  show_version_only = false;
  finds = all_tools;
  argument = a_directory;
}

from_shell-HasStarted : HasStarted from_shell
from_shell-HasStarted = record {
  found_owd = refl;
  parsed = refl;
  has_url = refl;
  file_tool = refl;
  mksquashfs = refl;
  validator = refl;
  is_directory = refl;
  not_only_version = refl;
}

is_prepared :
    prepare owned_system.glib from_shell.finds for_x86_64 small_app_dir ≡ next small_prepared
unfolding prepare decide_version find_first_matching_file_nonrecursive check_desktop_file
    validate_desktop_file determine_arch extract_arch_from_text normalise arch_of_text count_archs
    get_arch_name arch_to_name app_name_for_filename destination icon_file_path replacestr splice
    unlink_dir_icon link_dir_icon basename check_appstream application_id strstr
is_prepared = refl

info_decided :
    decide_update_information owned_system signing_options small_app_dir.source
      small_prepared.destination small_prepared.app_name small_prepared.arch
    ≡ next (some given)
unfolding decide_update_information
info_decided = refl

main-IsAble_example : main from_shell for_x86_64 small_app_dir signing_options owned_system ≡ some 0
main-IsAble_example =
    main-IsAble from_shell for_x86_64 small_app_dir signing_options owned_system sample_places
      runtime_file [] small_prepared (some given) from_shell-HasStarted is_prepared length-toy
      length-fresh_stack runtime_file-IsRuntime (omega arith) runtime_loaded owned_system-IsAble
      info_decided given-Fits (inr owner-Signs)

-- The option for the version ends the program before the tools are looked for.
only_version :
    start (record from_shell { show_version_only = true; finds = λ name. false }) ≡ ends_with 0
unfolding start
only_version = refl

-- A regular file as the argument is refused.
no_unpacking : start (record from_shell { argument = a_file }) ≡ ends_with 1
unfolding start
no_unpacking = refl
