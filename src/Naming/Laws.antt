-- ===== src/Naming/Laws.antt =====
-- src/appimagetool.c, `main`: what the names hold.
use mathlib.Core.List.{Mem, map-append, mem-cons_self, mem-cons_of_mem}
use appimagetool.Base.{
  ◌+◌, ◌<◌, ◌≡◌, ap, ◌∙◌, ◌⊎◌, inl, inr, Bool, true, false, Option, none, some, List, [], ◌∷◌, ◌++◌,
  map, append_assoc, arith, lt→ltb, Bool-cases, length, length-append, Bytes, codes, strstr,
}
use appimagetool.Replace.Laws.{swap_byte, replacestr-eq-map, strstr-replacestr}
use appimagetool.Naming.{path_max, without_spaces, dest_path, destination, icon_file_path}

without_spaces_lem :
    (text : Bytes)
    → (without_spaces text ≡ some (map (swap_byte b' ' b'_') text))
      × (strstr (map (swap_byte b' ' b'_') text) (codes " ") ≡ none)
without_spaces_lem text =
    let same = replacestr-eq-map (length text + 1) b' ' b'_' text (omega arith) (omega arith) in
    (
      same,
      strstr-replacestr (length text + 1) text (codes " ") (codes "_")
          (map (swap_byte b' ' b'_') text) same,
    )

-- The parts of a name: the app, the version where there is one, and the architecture.
abbrev pub name_parts : Bytes → Option Bytes → Bytes → List Bytes
name_parts app_name none arch = app_name ∷ arch ∷ []
name_parts app_name (some version) arch = app_name ∷ version ∷ arch ∷ []

-- Texts with a dash between one and the next.
abbrev pub dashed : List Bytes → Bytes
dashed [] = []
dashed (text ∷ []) = text
dashed (text ∷ other ∷ texts) = text ++ (b'-' ∷ dashed (other ∷ texts))

abbrev pub underscored : Bytes → Bytes
underscored = map (swap_byte b' ' b'_')

dest_path-name_parts :
    (app_name : Bytes) (version : Option Bytes) (arch : Bytes)
    → dest_path app_name version arch
      ≡ dashed (name_parts app_name version arch) ++ codes ".AppImage"
dest_path-name_parts app_name none arch = simp append_assoc
dest_path-name_parts app_name (some version) arch = simp append_assoc

underscored-name_parts :
    (app_name : Bytes) (version : Option Bytes) (arch : Bytes)
    → underscored (dashed (name_parts app_name version arch) ++ codes ".AppImage")
      ≡ dashed (map underscored (name_parts app_name version arch)) ++ codes ".AppImage"
underscored-name_parts app_name none arch = simp (map-append)
underscored-name_parts app_name (some version) arch = simp (map-append)

-- Where no destination is given, the name is that of the app, the version, if there is one, and the
-- architecture, each with `_` for every blank, with dashes between them and `.AppImage` behind
-- them, and no blank stands in it. The name and its null have room in the buffer of `PATH_MAX`
-- bytes.
pub destination_lem :
    (app_name : Bytes) (version : Option Bytes) (arch : Bytes)
    → length (dashed (name_parts app_name version arch)) + 9 < path_max
    → (destination none app_name version arch
        ≡ some (dashed (map underscored (name_parts app_name version arch)) ++ codes ".AppImage"))
      × (strstr
            (dashed (map underscored (name_parts app_name version arch)) ++ codes ".AppImage")
            (codes " ")
          ≡ none)
unfolding destination
destination_lem app_name version arch fits =
    let name = dashed (name_parts app_name version arch) in
    let long : length (name ++ codes ".AppImage") < path_max =
      omega (arith, length-append name (codes ".AppImage")) in
    let (swapped, no_blank) = without_spaces_lem (name ++ codes ".AppImage") in
    let same = underscored-name_parts app_name version arch in
    (
      rw
          (
            dest_path-name_parts app_name version arch,
            lt→ltb (length (name ++ codes ".AppImage")) path_max long,
          )
          (swapped ∙ ap some same),
      rw same at no_blank,
    )

-- The names under which the icon is looked for.
abbrev pub icon_names : Bytes → Bytes → List Bytes
icon_names source icon_name =
    (source ++ (codes "/" ++ (icon_name ++ codes ".png")))
    ∷ (source ++ (codes "/" ++ (icon_name ++ codes ".svg")))
    ∷ (source ++ (codes "/" ++ (icon_name ++ codes ".xpm")))
    ∷ []

-- The icon is a regular file of one of the three names; where none of them is one the program ends
-- with an error, and only then.
pub icon_file_path_lem :
    (is_regular : Bytes → Bool) (source icon_name : Bytes)
    → ((path : Bytes) × (icon_file_path is_regular source icon_name ≡ some path)
        × (is_regular path ≡ true)
        × Mem path (icon_names source icon_name))
      ⊎ ((icon_file_path is_regular source icon_name ≡ none)
          × (is_regular (source ++ (codes "/" ++ (icon_name ++ codes ".png"))) ≡ false)
          × (is_regular (source ++ (codes "/" ++ (icon_name ++ codes ".svg"))) ≡ false)
          × (is_regular (source ++ (codes "/" ++ (icon_name ++ codes ".xpm"))) ≡ false))
unfolding icon_file_path
icon_file_path_lem is_regular source icon_name =
    let png = source ++ (codes "/" ++ (icon_name ++ codes ".png")) in
    let svg = source ++ (codes "/" ++ (icon_name ++ codes ".svg")) in
    let xpm = source ++ (codes "/" ++ (icon_name ++ codes ".xpm")) in
    elim (Bool-cases (is_regular png)) [
      | inl a ↦ inl (png, rw a, a, mem-cons_self)
      | inr a ↦ elim (Bool-cases (is_regular svg)) [
        | inl b ↦ inl (svg, rw (a, b), b, mem-cons_of_mem png mem-cons_self)
        | inr b ↦ elim (Bool-cases (is_regular xpm)) [
          | inl c ↦
              inl (xpm, rw (a, b, c), c, mem-cons_of_mem png (mem-cons_of_mem svg mem-cons_self))
          | inr c ↦ inr (rw (a, b, c), a, b, c)
        ]
      ]
    ]
