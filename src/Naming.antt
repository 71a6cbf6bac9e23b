-- ===== src/Naming.antt =====
-- src/appimagetool.c, `main`: the name of the AppImage, and which icon file is taken.
pub mod Laws
mod Tests
use appimagetool.Base.{
  ℕ, ◌+◌, ◌-◌, ◌/◌, Bool, Option, none, some, ◌++◌, ltb, if◌then◌else◌, length, Bytes, codes, ◌>>=◌,
}
use appimagetool.Replace.{replacestr}
use appimagetool.UpdateInfo.{shown}

-- `PATH_MAX`, the size of the buffers for names.
abbrev pub path_max : ℕ
path_max = 4096

-- `replacestr(text, " ", "_")`
abbrev pub without_spaces : Bytes → Option Bytes
without_spaces text = replacestr (length text + 1) text (codes " ") (codes "_")

-- A text and its null in a buffer of `PATH_MAX` bytes; `none` is a write or a later read outside.
abbrev pub in_buffer : Bytes → Option Bytes
in_buffer text = if ltb (length text) path_max then some text else none

-- The name of the app, from APPIMAGETOOL_APP_NAME or from the desktop file.
unfoldable pub app_name_for_filename : Option Bytes → Option Bytes → Option Bytes
app_name_for_filename (some env_app_name) desktop_file_app_name = in_buffer env_app_name
app_name_for_filename none desktop_file_app_name = do
  name ← in_buffer (shown desktop_file_app_name)
  without_spaces name

-- What the two calls of `sprintf` write into `dest_path`.
abbrev pub dest_path : Bytes → Option Bytes → Bytes → Bytes
dest_path app_name (some version) arch =
    app_name ++ (codes "-" ++ (version ++ (codes "-" ++ (arch ++ codes ".AppImage"))))
dest_path app_name none arch = app_name ++ (codes "-" ++ (arch ++ codes ".AppImage"))

-- The destination: the second argument of the command line, or a name that is made up.
unfoldable pub destination : Option Bytes → Bytes → Option Bytes → Bytes → Option Bytes
destination (some argument) app_name version arch = some argument
destination none app_name version arch = do
  path ← in_buffer (dest_path app_name version arch)
  without_spaces path

-- The icon file, from which of the files is a regular one; `none` ends the program with an error.
unfoldable pub icon_file_path : (Bytes → Bool) → Bytes → Bytes → Option Bytes
icon_file_path is_regular source icon_name =
    if is_regular (source ++ (codes "/" ++ (icon_name ++ codes ".png")))
    then some (source ++ (codes "/" ++ (icon_name ++ codes ".png")))
    else if is_regular (source ++ (codes "/" ++ (icon_name ++ codes ".svg")))
    then some (source ++ (codes "/" ++ (icon_name ++ codes ".svg")))
    else if is_regular (source ++ (codes "/" ++ (icon_name ++ codes ".xpm")))
    then some (source ++ (codes "/" ++ (icon_name ++ codes ".xpm")))
    else none
