-- ===== src/Prepare.antt =====
-- src/appimagetool.c, `main`: what is checked and decided before the AppDir is packed.
pub mod Laws
pub mod Sample
mod Tests
use appimagetool.Base.{
  ℕ, ◌+◌, ◌*◌, ◌/◌, ◌%◌, Bool, true, false, not, ◌&&◌, ◌||◌, Option, none, some, List, [], ◌∷◌,
  ◌++◌, ◌==◌, if◌then◌else◌, length, Bytes, codes,
}
use appimagetool.Glib.{Glib}
use appimagetool.Arch.Tree.{Listing}
use appimagetool.Arch.Choose.{Choice, chosen, unable, more_than_one, determine_arch}
use appimagetool.Naming.{app_name_for_filename, destination, icon_file_path}
use appimagetool.Replace.{replacestr}
use appimagetool.UpdateInfo.{shown}
use appimagetool.Package.{Progress, next, dies, crashes, or_die, or_exit, ◌>>=◌}

-- What the first argument is.
pub data Argument : Type 0 where
  no_argument : Argument
  a_directory : Argument
  a_file : Argument
  nothing_there : Argument

-- What is known when the program starts; `owd` is whether `chdir` to $OWD succeeds, if that is set,
-- and `finds` is `g_find_program_in_path`.
pub record Startup : Type 0 where
  pub owd : Option Bool
  pub options_parsed : Bool
  pub file_url : Option Bytes
  pub show_version_only : Bool
  pub finds : Bytes → Bool
  pub argument : Argument

-- The program goes on with the AppDir, or ends with an exit code.
pub data Start : Type 0 where
  packs : Start
  ends_with : ℕ → Start

abbrev pub chdir_fails : Option Bool → Bool
chdir_fails none = false
chdir_fails (some succeeds) = not succeeds

abbrev pub is_empty_url : Option Bytes → Bool
is_empty_url none = false
is_empty_url (some []) = true
is_empty_url (some (c ∷ rest)) = false

abbrev pub by_argument : Argument → Start
by_argument a_directory = packs
by_argument _ = ends_with 1

unfoldable pub start : Startup → Start
start s =
    if chdir_fails s.owd
    then ends_with 1
    else if not s.options_parsed
    then ends_with 1
    else if is_empty_url s.file_url
    then ends_with 1
    else if s.show_version_only
    then ends_with 0
    else if not (s.finds (codes "file"))
    then ends_with 1
    else if not (s.finds (codes "mksquashfs"))
    then ends_with 1
    else if not (s.finds (codes "desktop-file-validate"))
    then ends_with 1
    else by_argument s.argument

-- The version: $VERSION, or with `-g` and without $VERSION what git prints, if it is there and
-- succeeds.
unfoldable pub decide_version : Glib → Option Bytes → Bool → Bool → Option Bytes → Option Bytes
decide_version g (some v) guess has_git printed = some v
decide_version g none true true none = none
decide_version g none true true (some printed) = some (g.strip printed)
decide_version g none _ _ printed = none

-- What is in the AppDir itself: names, and whether they are regular files.
unfoldable pub find_first_matching_file_nonrecursive :
    Glib → List (Bytes × Bool) → Bytes → Option Bytes
find_first_matching_file_nonrecursive g [] pattern = none
find_first_matching_file_nonrecursive g ((entry, is_regular) ∷ entries) pattern =
    if is_regular && g.pattern_match pattern entry
    then some entry
    else find_first_matching_file_nonrecursive g entries pattern

-- What becomes of a child: no child, no answer from `waitpid` but what the variable for the
-- status held before, or the status.
pub data Child : Type 0 where
  no_fork : Child
  no_wait : ℕ → Child
  ended : ℕ → Child

-- `WIFEXITED` and `WEXITSTATUS`.
abbrev pub if_exited : ℕ → Bool
if_exited status = status % 128 == 0

abbrev pub exit_status : ℕ → ℕ
exit_status status = status / 256 % 256

-- `validate_desktop_file(…) == 0`; the result of `waitpid` is not looked at.
unfoldable pub validate_desktop_file : Child → Bool
validate_desktop_file no_fork = false
validate_desktop_file (no_wait held) = if_exited held && exit_status held == 0
validate_desktop_file (ended status) = if_exited status && exit_status status == 0

-- `run_external(…) == 0`, with the `exit(1)` where `fork` fails.
unfoldable pub run_external : Child → Progress Bool
run_external no_fork = dies
run_external (no_wait held) = next false
run_external (ended status) = next (if_exited status && exit_status status == 0)

-- The desktop file: its checks, and its entries that are read.
pub record Desktop : Type 0 where
  pub validated : Child
  pub parsed : Bool
  pub categories : Option Bytes
  pub app_name : Option Bytes
  pub icon : Option Bytes
  pub saved : Bool

abbrev pub has : Option Bytes → Bool
has none = false
has (some _) = true

-- The checks of the desktop file.
unfoldable pub check_desktop_file : (Bytes → Bool) → Desktop → Progress (Unit {0})
check_desktop_file finds d =
    or_die (not (finds (codes "desktop-file-validate")) || validate_desktop_file d.validated)
      (or_die d.parsed (or_die (has d.categories) (next tt)))

abbrev pub by_choice : Option Choice → Progress Bytes
by_choice none = crashes
by_choice (some (chosen arch)) = next arch
by_choice (some unable) = dies
by_choice (some more_than_one) = dies

abbrev pub or_crash : {A : Type 0} → Option A → Progress A
or_crash none = crashes
or_crash (some a) = next a

-- The version is written into the desktop file, which must be saved.
abbrev pub save_version : Option Bytes → Desktop → Progress (Unit {0})
save_version none d = next tt
save_version (some v) d = or_die d.saved (next tt)

-- The name `.DirIcon` in the AppDir: nothing, a link that leads nowhere, a regular file or a link to
-- one, which is behind the name, or anything else.
pub data DirIcon : Type 0 where
  missing : DirIcon
  dangling : DirIcon
  regular : Bytes → DirIcon
  other : DirIcon

-- The first test is negated in the source: what is there is kept, and `g_unlink` is called where
-- nothing, or a link that leads nowhere, is.
unfoldable pub unlink_dir_icon : DirIcon → DirIcon
unlink_dir_icon dangling = missing
unlink_dir_icon i = i

abbrev pub after_slash : Bytes → Bytes → Bytes
after_slash current [] = current
after_slash current (c ∷ rest) = after_slash (if c == b'/' then rest else current) rest

-- The part behind the last slash, for a path that does not end with one.
unfoldable pub basename : Bytes → Bytes
basename path = after_slash path path

-- Where a link in the directory leads whose text is a name in that directory.
abbrev pub leads : (Bytes → Bool) → Bytes → DirIcon
leads is_regular target = if is_regular target then regular target else dangling

-- The link, unless a regular file is there; `symlinks` is whether the system makes one where
-- nothing is. The text of the link is the last part of the path of the icon, so that the link leads
-- to a file of that name in the directory itself.
unfoldable pub link_dir_icon : Bool → (Bytes → Bool) → Bytes → Bytes → DirIcon → Progress DirIcon
link_dir_icon symlinks is_regular source icon (regular target) = next (regular target)
link_dir_icon symlinks is_regular source icon missing =
    or_die symlinks (next (leads is_regular (source ++ (codes "/" ++ basename icon))))
link_dir_icon symlinks is_regular source icon dangling = dies
link_dir_icon symlinks is_regular source icon other = dies

-- AppStream: the name of the file with the metadata, from that of the desktop file.
unfoldable pub application_id : Bytes → Option Bytes
application_id desktop_file =
    replacestr (length desktop_file + 1) desktop_file (codes ".desktop") (codes ".appdata.xml")

-- One of the two tools, if it is there.
abbrev pub run_tool : Bool → Child → Progress (Unit {0})
run_tool false child = next tt
run_tool true child = run_external child >>= λ succeeds. or_die succeeds (next tt)

-- The AppDir and its surroundings.
pub record AppDir : Type 0 where
  pub source : Bytes
  pub entries : List (Bytes × Bool)
  pub tree : Option Listing
  pub is_regular : Bytes → Bool
  pub desktop : Bytes → Desktop
  pub dir_icon : DirIcon
  pub symlinks : Bool
  pub appstreamcli : Child
  pub appstream_util : Child

-- The tools run where the metadata are there.
abbrev pub run_tools : (Bytes → Bool) → AppDir → Bool → Progress (Unit {0})
run_tools finds a false = next tt
run_tools finds a true = run_tool (finds (codes "appstreamcli")) a.appstreamcli >>= λ _.
    run_tool (finds (codes "appstream-util")) a.appstream_util

unfoldable pub check_appstream : (Bytes → Bool) → AppDir → Bytes → Progress (Unit {0})
check_appstream finds a desktop_file = do
  id ← or_crash (application_id desktop_file)
  run_tools finds a (a.is_regular (a.source ++ (codes "/usr/share/metainfo/" ++ id)))

-- The variables of the environment and the options that these steps read.
pub record Wishes : Type 0 where
  pub arch : Option Bytes
  pub version : Option Bytes
  pub app_name : Option Bytes
  pub guess : Bool
  pub no_appstream : Bool
  pub destination : Option Bytes
  pub git_printed : Option Bytes

-- What the steps decide.
pub record Prepared : Type 0 where
  pub arch : Bytes
  pub app_name : Bytes
  pub destination : Bytes
  pub icon : Bytes
  pub dir_icon : DirIcon

unfoldable pub prepare : Glib → (Bytes → Bool) → Wishes → AppDir → Progress Prepared
prepare g finds w a = do
  let version_env = decide_version g w.version w.guess (finds (codes "git")) w.git_printed
  desktop_file ← or_exit (find_first_matching_file_nonrecursive g a.entries (codes "*.desktop"))
  let d = a.desktop desktop_file
  _ ← check_desktop_file finds d
  arch ← by_choice (determine_arch g w.arch a.tree)
  app_name ← or_crash (app_name_for_filename w.app_name d.app_name)
  dest ← or_crash (destination w.destination app_name version_env arch)
  _ ← save_version version_env d
  icon ← or_exit (icon_file_path a.is_regular a.source (shown d.icon))
  dir_icon ← link_dir_icon a.symlinks a.is_regular a.source icon (unlink_dir_icon a.dir_icon)
  _ ← (if w.no_appstream then next tt else check_appstream finds a desktop_file)
  next (record {
    arch = arch;
    app_name = app_name;
    destination = dest;
    icon = icon;
    dir_icon = dir_icon;
  })
