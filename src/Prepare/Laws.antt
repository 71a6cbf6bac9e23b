-- ===== src/Prepare/Laws.antt =====
-- src/appimagetool.c, `main`: what holds once the program packs the AppDir.
use mathlib.Core.List.{Mem, mem-cons_self, mem-cons_of_mem}
use mathlib.Core.Path.{subst}
use appimagetool.Base.{
  ℕ, ◌≡◌, refl, sym, ◌⊎◌, inl, inr, Bool, true, false, not, ◌&&◌, ◌||◌, Option, none, some, List,
  [], ◌∷◌, ◌++◌, arith, ◌==◌, if◌then◌else◌, Bool-cases, Bytes, codes,
}
use appimagetool.Glib.{Glib}
use appimagetool.Arch.Choose.{Choice, chosen, unable, more_than_one, determine_arch}
use appimagetool.Naming.{app_name_for_filename, destination, icon_file_path}
use appimagetool.Naming.Laws.{icon_file_path_lem, icon_names}
use appimagetool.UpdateInfo.{shown}
use appimagetool.Package.{or_exit, next}
use appimagetool.Package.Digest.{>>=-eq-next, or_die-next, or_exit-next}
use appimagetool.Prepare.{
  decide_version, find_first_matching_file_nonrecursive, validate_desktop_file, Desktop, has,
  check_desktop_file, by_choice, or_crash, save_version, DirIcon, missing, dangling, regular, other,
  unlink_dir_icon, link_dir_icon, leads, basename, Child, no_fork, no_wait, ended, if_exited,
  exit_status, run_external, run_tool, run_tools, application_id, AppDir, check_appstream, Wishes,
  Prepared, prepare,
}

-- `.DirIcon` after its step: the regular file, or the link to one, that was there, or, where nothing
-- or a dangling link was, a link to the name of the icon in the directory itself.
abbrev pub DirIconFrom : (Bytes → Bool) → Bytes → Bytes → DirIcon → DirIcon → Type 0
DirIconFrom is_regular source icon i j =
    ((target : Bytes) × (i ≡ regular target) × (j ≡ regular target))
    ⊎ (((i ≡ missing) ⊎ (i ≡ dangling))
        × (j ≡ leads is_regular (source ++ (codes "/" ++ basename icon))))

-- A tool that is not there, or whose child ended with the status 0.
abbrev pub ToolPassed : Bool → Child → Type 0
ToolPassed installed child =
    (installed ≡ false)
    ⊎ ((status : ℕ) × (child ≡ ended status) × (if_exited status ≡ true) × (exit_status status ≡ 0))

-- The checks with AppStream are switched off, the metadata that belong to the desktop file are not
-- there, or the tools passed.
abbrev pub AppStreamPassed : (Bytes → Bool) → Wishes → AppDir → Bytes → Type 0
AppStreamPassed finds w a desktop_file =
    (w.no_appstream ≡ true)
    ⊎ ((id : Bytes) × (application_id desktop_file ≡ some id)
        × ((a.is_regular (a.source ++ (codes "/usr/share/metainfo/" ++ id)) ≡ false)
            ⊎ (ToolPassed (finds (codes "appstreamcli")) a.appstreamcli
                × ToolPassed (finds (codes "appstream-util")) a.appstream_util)))

-- What the program has made sure of: there is a desktop file, which is a regular file with the right
-- ending, validated where the tool is there, parsed and with its categories, and saved if a version
-- is set; the architecture is the one that is determined; the icon is a regular file of one of the
-- three names that belong to the desktop file; `.DirIcon` is what was there or a link that was made
-- for the icon; and the checks with AppStream passed, where they are made.
pub record IsPrepared (g : Glib) (finds : Bytes → Bool) (w : Wishes) (a : AppDir) (p : Prepared)
    : Type 0 where
  pub desktop_file : Bytes
  pub listed : Mem (desktop_file, true) a.entries
  pub is_desktop : g.pattern_match (codes "*.desktop") desktop_file ≡ true
  pub validated :
      finds (codes "desktop-file-validate") ≡ true
      → validate_desktop_file (a.desktop desktop_file).validated ≡ true
  pub parsed : (a.desktop desktop_file).parsed ≡ true
  pub categories : (b : Bytes) × ((a.desktop desktop_file).categories ≡ some b)
  pub saved :
      (v : Bytes)
      → decide_version g w.version w.guess (finds (codes "git")) w.git_printed ≡ some v
      → (a.desktop desktop_file).saved ≡ true
  pub determined : determine_arch g w.arch a.tree ≡ some (chosen p.arch)
  pub named : app_name_for_filename w.app_name (a.desktop desktop_file).app_name ≡ some p.app_name
  pub destined :
      destination w.destination p.app_name
        (decide_version g w.version w.guess (finds (codes "git")) w.git_printed)
        p.arch
      ≡ some p.destination
  pub icon_is_regular : a.is_regular p.icon ≡ true
  pub icon_is_named : Mem p.icon (icon_names a.source (shown (a.desktop desktop_file).icon))
  pub dir_icon_is : DirIconFrom a.is_regular a.source p.icon a.dir_icon p.dir_icon
  pub appstream : AppStreamPassed finds w a desktop_file

&&-true : (a b : Bool) → (a && b) ≡ true → (a ≡ true) × (b ≡ true)
&&-true a b h = ground arith

next-inj : {A : Type 0} {a b : A} → next a ≡ next b → a ≡ b
next-inj h = cc

or-true : (a b : Bool) → a ≡ true → (not a || b) ≡ true → b ≡ true
or-true a b h k = ground arith

or_crash-next : {A : Type 0} (o : Option A) (a : A) → or_crash o ≡ next a → o ≡ some a
or_crash-next none a h = cc
or_crash-next (some b) a h = cc

by_choice-next :
    (c : Option Choice) (arch : Bytes) → by_choice c ≡ next arch → c ≡ some (chosen arch)
by_choice-next none arch h = cc
by_choice-next (some (chosen b)) arch h = cc
by_choice-next (some unable) arch h = cc
by_choice-next (some more_than_one) arch h = cc

has-some : (o : Option Bytes) → has o ≡ true → (b : Bytes) × (o ≡ some b)
has-some none h = cc
has-some (some b) h = (b, refl)

save_version-next :
    (v : Option Bytes) (d : Desktop) (u : Unit {0})
    → save_version v d ≡ next u
    → (text : Bytes) → v ≡ some text
    → d.saved ≡ true
save_version-next none d u h text e = cc
save_version-next (some v) d u h text e = (or_die-next d.saved (next tt) u h).0

-- `.DirIcon` is a regular file that was there, or the new link.
link_dir_icon-next :
    (symlinks : Bool) (is_regular : Bytes → Bool) (source icon : Bytes) (i j : DirIcon)
    → link_dir_icon symlinks is_regular source icon (unlink_dir_icon i) ≡ next j
    → DirIconFrom is_regular source icon i j
unfolding link_dir_icon unlink_dir_icon
link_dir_icon-next symlinks is_regular source icon missing j h =
    inr (inl refl, sym (next-inj (or_die-next symlinks _ j h).1))
link_dir_icon-next symlinks is_regular source icon dangling j h =
    inr (inr refl, sym (next-inj (or_die-next symlinks _ j h).1))
link_dir_icon-next symlinks is_regular source icon (regular target) j h =
    inl (target, refl, sym (next-inj h))
link_dir_icon-next symlinks is_regular source icon other j h = cc

-- The desktop file that is found.
find_first_matching_file_nonrecursive-some :
    (g : Glib) (entries : List (Bytes × Bool)) (pattern name : Bytes)
    → find_first_matching_file_nonrecursive g entries pattern ≡ some name
    → Mem (name, true) entries × (g.pattern_match pattern name ≡ true)
unfolding find_first_matching_file_nonrecursive
find_first_matching_file_nonrecursive-some g [] pattern name h = cc
find_first_matching_file_nonrecursive-some g ((entry, is_regular) ∷ entries) pattern name h =
    elim (Bool-cases (is_regular && g.pattern_match pattern entry)) [
      | inl both ↦
          let found : some entry ≡ some name = rw both at h in
          let same : entry ≡ name = cc in
          let (is_file, matches) = &&-true is_regular (g.pattern_match pattern entry) both in
          (
            subst (λ n. Mem (n, true) ((entry, is_regular) ∷ entries)) same
                (subst (λ b. Mem (entry, true) ((entry, b) ∷ entries)) (sym is_file) mem-cons_self),
            subst (λ n. g.pattern_match pattern n ≡ true) same matches,
          )
      | inr not_both ↦
          let rest =
            find_first_matching_file_nonrecursive-some g entries pattern name (rw not_both at h) in
          (mem-cons_of_mem (entry, is_regular) rest.0, rest.1)
    ]

icon_file_path-some :
    (is_regular : Bytes → Bool) (source icon_name path : Bytes)
    → icon_file_path is_regular source icon_name ≡ some path
    → (is_regular path ≡ true) × Mem path (icon_names source icon_name)
icon_file_path-some is_regular source icon_name path h =
    elim (icon_file_path_lem is_regular source icon_name) [
      | inl (found, is, regular_file, named) ↦
          let same : found ≡ path = cc in
          (
            subst (λ f. is_regular f ≡ true) same regular_file,
            subst (λ f. Mem f (icon_names source icon_name)) same named,
          )
      | inr (is_none, _, _, _) ↦ cc
    ]

eqb-eq : (n m : ℕ) → (n == m) ≡ true → n ≡ m
eqb-eq n m h = ground arith

run_tool-next :
    (installed : Bool) (child : Child) (u : Unit {0})
    → run_tool installed child ≡ next u
    → ToolPassed installed child
unfolding run_external
run_tool-next false child u h = inl refl
run_tool-next true no_fork u h = cc
run_tool-next true (no_wait held) u h = cc
run_tool-next true (ended status) u h =
    let (both, _) = or_die-next (if_exited status && exit_status status == 0) (next tt) u h in
    let (exited, zero_status) = &&-true (if_exited status) (exit_status status == 0) both in
    inr (status, refl, exited, eqb-eq (exit_status status) 0 zero_status)

check_appstream-next :
    (finds : Bytes → Bool) (w : Wishes) (a : AppDir) (desktop_file : Bytes) (u : Unit {0})
    → (if w.no_appstream then next tt else check_appstream finds a desktop_file) ≡ next u
    → AppStreamPassed finds w a desktop_file
unfolding check_appstream
check_appstream-next finds w a desktop_file u h = elim (Bool-cases w.no_appstream) [
  | inl off ↦ inl off
  | inr on ↦
      let h' : check_appstream finds a desktop_file ≡ next u = rw on at h in
      let (id, named, k) = >>=-eq-next (or_crash (application_id desktop_file)) _ u h' in
      let metadata = a.is_regular (a.source ++ (codes "/usr/share/metainfo/" ++ id)) in
      inr (
        id,
        or_crash-next _ id named,
        elim (Bool-cases metadata) [
          | inl there ↦
              let k' : run_tools finds a true ≡ next u = rw there at k in
              let (v, first, second) =
                >>=-eq-next (run_tool (finds (codes "appstreamcli")) a.appstreamcli) _ u k' in
              inr (run_tool-next _ _ v first, run_tool-next _ _ u second)
          | inr missing_file ↦ inl missing_file
        ],
      )
]

check_desktop_file-next :
    (finds : Bytes → Bool) (d : Desktop) (u : Unit {0})
    → check_desktop_file finds d ≡ next u
    → (finds (codes "desktop-file-validate") ≡ true → validate_desktop_file d.validated ≡ true)
      × (d.parsed ≡ true)
      × ((b : Bytes) × (d.categories ≡ some b))
unfolding check_desktop_file
check_desktop_file-next finds d u h =
    let (valid, h1) = or_die-next _ _ u h in
    let (parsed, h2) = or_die-next d.parsed _ u h1 in
    let (there, _) = or_die-next (has d.categories) _ u h2 in
    (λ tool. or-true _ _ tool valid, parsed, has-some d.categories there)

-- When the program comes to pack the AppDir, it has found a regular file in it with the ending of a
-- desktop file, which is valid where the tool is there, could be parsed, has its categories, and was
-- saved if a version is set. The architecture is the one that is determined, app and destination are
-- named accordingly, the icon is a regular file of one of its names, `.DirIcon` is what was there or a
-- link to the last part of the path of the icon, and the AppStream tools that are there passed,
-- where there are metadata and the checks are not switched off.
pub prepare-IsPrepared :
    (g : Glib) (finds : Bytes → Bool) (w : Wishes) (a : AppDir) (p : Prepared)
    → prepare g finds w a ≡ next p
    → IsPrepared g finds w a p
unfolding prepare
prepare-IsPrepared g finds w a p h =
    let v = decide_version g w.version w.guess (finds (codes "git")) w.git_printed in
    let (desktop_file, h1, k1) =
      >>=-eq-next (or_exit (find_first_matching_file_nonrecursive g a.entries (codes "*.desktop")))
        _ p h in
    let d = a.desktop desktop_file in
    let (u2, h2, k2) = >>=-eq-next (check_desktop_file finds d) _ p k1 in
    let (arch, h3, k3) = >>=-eq-next (by_choice (determine_arch g w.arch a.tree)) _ p k2 in
    let (app_name, h4, k4) =
      >>=-eq-next (or_crash (app_name_for_filename w.app_name d.app_name)) _ p k3 in
    let (dest, h5, k5) =
      >>=-eq-next (or_crash (destination w.destination app_name v arch)) _ p k4 in
    let (u6, h6, k6) = >>=-eq-next (save_version v d) _ p k5 in
    let (icon, h7, k7) =
      >>=-eq-next (or_exit (icon_file_path a.is_regular a.source (shown d.icon))) _ p k6 in
    let (dir_icon, h8, k8) =
      >>=-eq-next (link_dir_icon a.symlinks a.is_regular a.source icon (unlink_dir_icon a.dir_icon))
        _ p k7 in
    let (u9, h9, k9) =
      >>=-eq-next (if w.no_appstream then next tt else check_appstream finds a desktop_file) _ p
        k8 in
    let same = next-inj k9 in
    let (icon_regular, icon_named) =
      icon_file_path-some a.is_regular a.source (shown d.icon) icon (or_exit-next _ icon h7) in
    let (listed, is_desktop) =
      find_first_matching_file_nonrecursive-some g a.entries (codes "*.desktop") desktop_file
        (or_exit-next _ desktop_file h1) in
    let (validated, parsed, categories) = check_desktop_file-next finds d u2 h2 in
    subst (IsPrepared g finds w a) same (record {
      desktop_file = desktop_file;
      listed = listed;
      is_desktop = is_desktop;
      validated = validated;
      parsed = parsed;
      categories = categories;
      saved = save_version-next v d u6 h6;
      determined = by_choice-next _ arch h3;
      named = or_crash-next _ app_name h4;
      destined = or_crash-next _ dest h5;
      icon_is_regular = icon_regular;
      icon_is_named = icon_named;
      dir_icon_is = link_dir_icon-next a.symlinks a.is_regular a.source icon a.dir_icon dir_icon h8;
      appstream = check_appstream-next finds w a desktop_file u9 h9;
    })
