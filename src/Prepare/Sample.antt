-- ===== src/Prepare/Sample.antt =====
-- src/appimagetool.c, `main`: a small AppDir.
use appimagetool.Base.{Bool, true, false, none, some, [], ◌∷◌, Bytes, codes, str_eq}
use appimagetool.Prepare.{ended, Desktop, dangling, regular, AppDir, Wishes, Prepared}

abbrev pub all_tools : Bytes → Bool
all_tools name = true

abbrev pub good_desktop : Desktop
good_desktop = record {
  validated = ended 0;
  parsed = true;
  categories = some (codes "Utility;");
  app_name = some (codes "My App");
  icon = some (codes "app");
  saved = true;
}

abbrev pub small_app_dir : AppDir
small_app_dir = record {
  source = codes "/App.AppDir";
  entries = (codes "usr", false) ∷ (codes "app.desktop", true) ∷ [];
  tree = none;
  is_regular = λ path. str_eq path (codes "/App.AppDir/app.svg");
  desktop = λ name. good_desktop;
  dir_icon = dangling;
  symlinks = true;
  appstreamcli = ended 0;
  appstream_util = ended 0;
}

abbrev pub for_x86_64 : Wishes
for_x86_64 = record {
  arch = some (codes "x86_64");
  version = some (codes "1.0");
  app_name = none;
  guess = false;
  no_appstream = false;
  destination = none;
  git_printed = none;
}

abbrev pub small_prepared : Prepared
small_prepared = record {
  arch = codes "x86_64";
  app_name = codes "My_App";
  destination = codes "My_App-1.0-x86_64.AppImage";
  icon = codes "/App.AppDir/app.svg";
  dir_icon = regular (codes "/App.AppDir/app.svg");
}
