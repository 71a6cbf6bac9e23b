-- ===== src/Glib.antt =====
-- The functions of GLib that src/appimagetool.c calls on texts, and what their documentation says.
pub mod Sample
use appimagetool.Base.{
  ℕ, ◌+◌, ◌≡◌, Bool, false, ◌&&◌, ◌||◌, List, leb, ◌==◌, if◌then◌else◌, take, All, Bytes, str_eq,
  is_prefix,
}
use mathlib.Core.List.{map}

-- `g_strstrip`, `g_ascii_strncasecmp(s, t, n) == 0`, `g_pattern_match_simple(pattern, text)`,
-- `g_str_has_prefix(text, prefix)`, and the strings of `g_strsplit(text, "/", 2)`.
pub record Glib : Type 0 where
  pub strip : Bytes → Bytes
  pub same_caseless : Bytes → Bytes → ℕ → Bool
  pub pattern_match : Bytes → Bytes → Bool
  pub has_prefix : Bytes → Bytes → Bool
  pub split_slash : Bytes → List Bytes

-- `g_ascii_strncasecmp` as it is documented: up to `n` characters, with ASCII letters taken in lower
-- case. `g_strstrip` takes nothing from a text that has no white space at its ends.
abbrev pub lower : ℕ → ℕ
lower c = if leb b'A' c && leb c b'Z' then c + 32 else c

abbrev pub is_blank : ℕ → Bool
is_blank c = c == b' ' || (leb 9 c && leb c 13)

abbrev pub HasNoBlank : Bytes → Type 0
HasNoBlank = All (λ c. is_blank c ≡ false)

pub record IsGlib (g : Glib) : Type 0 where
  pub strip_plain : (text : Bytes) → HasNoBlank text → g.strip text ≡ text
  pub same_caseless_lem :
      (s t : Bytes) (n : ℕ)
      → g.same_caseless s t n ≡ str_eq (map lower (take n s)) (map lower (take n t))
  pub has_prefix_lem : (text prefix : Bytes) → g.has_prefix text prefix ≡ is_prefix prefix text
