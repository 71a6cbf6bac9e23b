-- ===== src/Replace/Tests.antt =====
-- src/appimagetool.c, `replacestr`: runs on texts.
use appimagetool.Base.{
  ◌≡◌, refl, ◌≢◌, none, some, ◌++◌, map, arith, Bytes, codes, is_prefix, strstr,
}
use appimagetool.Replace.{splice, replacestr}
use appimagetool.Replace.Laws.{
  swap_byte, strstr-replacestr, replacestr_total, replacestr_diverges, replacestr-eq-map,
}

-- A replacement whose seams hold the search text again goes on.
replace_again : replacestr 9 (codes "aab-aabb") (codes "ab") (codes "") ≡ some (codes "a-")
unfolding replacestr splice strstr is_prefix
replace_again = refl

one_dash : replacestr 3 (codes "x86-64") (codes "-") (codes "_") ≡ some (codes "x86_64")
unfolding replacestr splice strstr is_prefix
one_dash = refl

strstr-replacestr_example : strstr (codes "x86_64") (codes "-") ≡ none
strstr-replacestr_example =
    strstr-replacestr 3 (codes "x86-64") (codes "-") (codes "_") (codes "x86_64") one_dash

replacestr_total_example :
    (out : Bytes) × (replacestr 4 (codes "intel 80 386") (codes " ") (codes "_") ≡ some out)
replacestr_total_example =
    replacestr_total b' ' 4 (codes "intel 80 386") (codes " ") (codes "_") (omega arith) refl
      (omega arith)

has_dash : strstr (codes "a-b") (codes "-") ≢ none
unfolding strstr is_prefix
has_dash h = cc

replacestr_diverges_example :
    replacestr 7 (codes "a-b") (codes "-") (codes "<" ++ (codes "-" ++ codes ">")) ≡ none
replacestr_diverges_example =
    replacestr_diverges 7 (codes "a-b") (codes "-") (codes "<") (codes ">") has_dash

replacestr-eq-map_example :
    replacestr 12 (codes "arm-aarch64") (codes "-") (codes "_")
    ≡ some (map (swap_byte b'-' b'_') (codes "arm-aarch64"))
replacestr-eq-map_example =
    replacestr-eq-map 12 b'-' b'_' (codes "arm-aarch64") (omega arith) (omega arith)
