-- ===== src/Naming/Tests.antt =====
-- src/appimagetool.c, `main`: names and icons.
use appimagetool.Base.{◌≡◌, none, some, arith, codes, strstr}
use appimagetool.Naming.{destination}
use appimagetool.Naming.Laws.{destination_lem}

destination_lem_example :
    (destination none (codes "My App") (some (codes "1 2")) (codes "x86_64")
      ≡ some (codes "My_App-1_2-x86_64.AppImage"))
    × (strstr (codes "My_App-1_2-x86_64.AppImage") (codes " ") ≡ none)
destination_lem_example =
    destination_lem (codes "My App") (some (codes "1 2")) (codes "x86_64") (omega arith)
