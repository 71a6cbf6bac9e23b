-- ===== src/Glib/Sample.antt =====
-- The functions of GLib as src/appimagetool.c uses them, written out for ASCII texts: an instance of
-- the record `Glib` on which the tests run.
use appimagetool.Base.{
  ℕ, ◌≡◌, refl, ap, ◌∙◌, Bool, true, false, ◌&&◌, ◌||◌, List, [], ◌∷◌, map, ◌==◌, if◌then◌else◌,
  take, Bytes, str_eq, is_prefix,
}
use appimagetool.Glib.{Glib, IsGlib, lower, is_blank, HasNoBlank}

abbrev trim_start : Bytes → Bytes
trim_start [] = []
trim_start (c ∷ t) = if is_blank c then trim_start t else c ∷ t

-- One byte before a text whose end is trimmed already.
abbrev before_trimmed : ℕ → Bytes → Bytes
before_trimmed c [] = if is_blank c then [] else c ∷ []
before_trimmed c (d ∷ t) = c ∷ d ∷ t

abbrev trim_end : Bytes → Bytes
trim_end [] = []
trim_end (c ∷ t) = before_trimmed c (trim_end t)

abbrev any_suffix : (Bytes → Bool) → Bytes → Bool
any_suffix f [] = f []
any_suffix f (c ∷ t) = f (c ∷ t) || any_suffix f t

abbrev one_byte : ℕ → (Bytes → Bool) → Bytes → Bool
one_byte c f [] = false
one_byte c f (d ∷ t) = (c == b'?' || c == d) && f t

abbrev is_empty : Bytes → Bool
is_empty [] = true
is_empty (c ∷ t) = false

abbrev glob : Bytes → Bytes → Bool
glob [] t = is_empty t
glob (c ∷ pattern_) t =
    if c == b'*' then any_suffix (glob pattern_) t else one_byte c (glob pattern_) t

abbrev onto_first : ℕ → List Bytes → List Bytes
onto_first c [] = (c ∷ []) ∷ []
onto_first c (part ∷ parts) = (c ∷ part) ∷ parts

-- `g_strsplit` of a text that is not empty, into at most two strings.
abbrev split_once : Bytes → List Bytes
split_once [] = [] ∷ []
split_once (c ∷ t) = if c == b'/' then [] ∷ t ∷ [] else onto_first c (split_once t)

abbrev split : Bytes → List Bytes
split [] = []
split (c ∷ t) = split_once (c ∷ t)

abbrev pub sample : Glib
sample = record {
  strip = λ t. trim_end (trim_start t);
  same_caseless = λ s t n. str_eq (map lower (take n s)) (map lower (take n t));
  pattern_match = glob;
  has_prefix = λ text prefix. is_prefix prefix text;
  split_slash = split;
}

trim_start_plain : (t : Bytes) → HasNoBlank t → trim_start t ≡ t
trim_start_plain [] h = refl
trim_start_plain (c ∷ t) (h, _) = rw h

before_trimmed_plain : (c : ℕ) (t : Bytes) → is_blank c ≡ false → before_trimmed c t ≡ c ∷ t
before_trimmed_plain c [] h = rw h
before_trimmed_plain c (d ∷ t) h = refl

trim_end_plain : (t : Bytes) → HasNoBlank t → trim_end t ≡ t
trim_end_plain [] h = refl
trim_end_plain (c ∷ t) (h, k) = rw (trim_end_plain t k) (before_trimmed_plain c t h)

pub sample-IsGlib : IsGlib sample
sample-IsGlib = record {
  strip_plain = λ t h. ap trim_end (trim_start_plain t h) ∙ trim_end_plain t h;
  same_caseless_lem = λ s t n. refl;
  has_prefix_lem = λ text prefix. refl;
}
