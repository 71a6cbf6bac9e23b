-- ===== src/UpdateInfo/Laws.antt =====
-- src/appimagetool.c, `main`: what a guess of the update information looks like, and when there is one.
use appimagetool.Base.{
  ◌+◌, ◌-◌, ◌<◌, ◌≡◌, refl, ◌∙◌, ◌≢◌, ◌⊎◌, inl, inr, Bool, true, none, some, List, [], ◌∷◌, ◌++◌,
  arith, ltb, if◌then◌else◌, ltb→lt, Bool-cases, Option-cases, length, drop, drop-append_right,
  Bytes, codes, strstr, count, count-append, is_prefix-append,
}
use appimagetool.Glib.{Glib, IsGlib}
use mathlib.Core.Path.{subst}
use appimagetool.UpdateInfo.{
  Environment, github_repository_name, Guess, keep, guessed, overflow, fault, print_buf,
  github_text, travis_text, gitlab_text, travis_channel, travis_guess, guess_github, guess_travis,
  guess_gitlab, guess_update_information, is_recognised,
}

-- A guess that is made has the property.
abbrev Makes : (Bytes → Type 0) → Guess → Type 0
Makes P keep = Unit {0}
Makes P (guessed text) = P text
Makes P overflow = Unit {0}
Makes P fault = Unit {0}

Makes→ :
    (P : Bytes → Type 0) (guess : Guess) (text : Bytes)
    → Makes P guess
    → guess ≡ guessed text
    → P text
Makes→ P keep text h e = cc
Makes→ P (guessed t) text h e = let same : t ≡ text = cc in subst P same h
Makes→ P overflow text h e = cc
Makes→ P fault text h e = cc

module _ (g : Glib) (law : IsGlib g) where
  abbrev IsUsable : Bytes → Type 0
  IsUsable text = (is_recognised g text ≡ true) × (length text < 1024)

  print_buf-IsUsable :
      (text : Bytes) → is_recognised g text ≡ true → Makes IsUsable (print_buf text)
  unfolding print_buf
  print_buf-IsUsable text h = elim (Bool-cases (ltb (length text) 1024)) [
    | inl e ↦ rw e (h, ltb→lt (length text) 1024 e)
    | inr e ↦ rw e tt
  ]

  github_usable : (rest : Bytes) → is_recognised g (codes "gh-releases-zsync|" ++ rest) ≡ true
  unfolding is_recognised
  github_usable rest = rw law.has_prefix_lem (
      ground (
        arith,
        law.has_prefix_lem (codes "gh-releases-zsync|" ++ rest) (codes "gh-releases-zsync|"),
      ))

  gitlab_usable : (rest : Bytes) → is_recognised g (codes "zsync|" ++ rest) ≡ true
  unfolding is_recognised
  gitlab_usable rest = rw (law.has_prefix_lem (codes "zsync|" ++ rest) (codes "zsync|"))

  module _ (env : Environment) (zsyncmake : Bool) (app_name arch : Bytes) where
    travis_parts-IsUsable :
        (parts : List Bytes) (channel : Bytes)
        → Makes IsUsable (travis_guess parts channel app_name arch)
    unfolding travis_guess travis_text
    travis_parts-IsUsable [] channel = tt
    travis_parts-IsUsable (owner ∷ []) channel = print_buf-IsUsable _ (github_usable _)
    travis_parts-IsUsable (owner ∷ name ∷ rest) channel = print_buf-IsUsable _ (github_usable _)

    if_zsyncmake :
        (guess : Guess) → Makes IsUsable guess → Makes IsUsable (if zsyncmake then guess else keep)
    if_zsyncmake guess h = elim (Bool-cases zsyncmake) [ inl e ↦ rw e h | inr e ↦ rw e tt ]

    Makes-github : (name : Bytes) → Makes IsUsable (guess_github g env zsyncmake app_name arch name)
    unfolding guess_github github_text
    Makes-github name = elim (Option-cases env.github_token) [
      | inl e ↦ rw e tt
      | inr (token, e) ↦ rw e (if_zsyncmake _ (print_buf-IsUsable _ (github_usable _)))
    ]

    Makes-travis : (slug : Bytes) → Makes IsUsable (guess_travis g env zsyncmake app_name arch slug)
    unfolding guess_travis
    Makes-travis slug = elim (Option-cases env.github_token) [
      | inl e ↦ rw e (elim (Option-cases env.travis_pull_request) [
        | inl e' ↦ rw e' tt
        | inr (p, e') ↦ rw e' tt
      ])
      | inr (token, e) ↦ rw e (
          if_zsyncmake _
            (travis_parts-IsUsable (g.split_slash slug) (travis_channel env.travis_tag)))
    ]

    Makes-gitlab : (ref : Bytes) → Makes IsUsable (guess_gitlab g env zsyncmake app_name arch ref)
    unfolding guess_gitlab gitlab_text
    Makes-gitlab ref = if_zsyncmake _ (print_buf-IsUsable _ (gitlab_usable _))

    Makes-IsUsable : Makes IsUsable (guess_update_information g env zsyncmake app_name arch)
    unfolding guess_update_information
    Makes-IsUsable =
        elim (Option-cases
          (github_repository_name env.github_repository env.github_repository_owner)) [
            | inr (name, e) ↦ rw (e, guess_update_information) (Makes-github name)
            | inl e ↦
                rw (e, guess_update_information)
                  (elim (Option-cases env.travis_repo_slug) [
                    | inr (slug, e') ↦ rw e' (Makes-travis slug)
                    | inl e' ↦ rw e' (elim (Option-cases env.ci_commit_ref_name) [
                      | inr (ref, e'') ↦ rw e'' (Makes-gitlab ref)
                      | inl e'' ↦ rw e'' tt
                    ])
                  ])
          ]

-- Every update information that is guessed passes the program's own test of the format, and fits
-- the buffer with its null, whatever the environment: if `g_str_has_prefix` does what is documented.
pub guess_usable :
    (g : Glib)
    → IsGlib g
    → (env : Environment) (zsyncmake : Bool) (app_name arch text : Bytes)
    → guess_update_information g env zsyncmake app_name arch ≡ guessed text
    → (is_recognised g text ≡ true) × (length text < 1024)
guess_usable g law env zsyncmake app_name arch text h =
    Makes→ (IsUsable g law) (guess_update_information g env zsyncmake app_name arch) text
      (Makes-IsUsable g law env zsyncmake app_name arch) h

-- A guess is only made if zsyncmake is installed. On GitHub and on Travis it needs a token as well:
-- without one, a guess is made only from the variables of GitLab, and only if neither the repository
-- on GitHub nor the one on Travis is known.
pub guess_requires :
    (g : Glib) (env : Environment) (zsyncmake : Bool) (app_name arch text : Bytes)
    → guess_update_information g env zsyncmake app_name arch ≡ guessed text
    → (zsyncmake ≡ true)
      × ((env.github_token ≢ none)
          ⊎ ((github_repository_name env.github_repository env.github_repository_owner ≡ none)
              × (env.travis_repo_slug ≡ none)
              × (env.ci_commit_ref_name ≢ none)))
unfolding guess_update_information guess_github guess_travis guess_gitlab
guess_requires g env zsyncmake app_name arch text h = ground arith

strstr_self : (owner rest : Bytes) → strstr (owner ++ rest) owner ≡ some 0
unfolding strstr
strstr_self [] [] = refl
strstr_self [] (x ∷ rest) = refl
strstr_self (c ∷ owner) rest = rw (is_prefix-append (c ∷ owner) rest)

drop-append_length : (xs ys : Bytes) → drop (0 + length xs) (xs ++ ys) ≡ ys
drop-append_length xs ys =
    let e : 0 + length xs - length xs ≡ 0 = omega arith in
    drop-append_right (0 + length xs) xs ys (omega arith) ∙ rw e

-- From a repository `owner/name` and its owner the name is recovered.
pub github_repository_name_lem :
    (owner name : Bytes)
    → github_repository_name (some (owner ++ (b'/' ∷ name))) (some owner) ≡ some name
unfolding github_repository_name
github_repository_name_lem owner name =
    rw (strstr_self owner (b'/' ∷ name), github_repository_name)
      (rw (drop-append_length owner (b'/' ∷ name)))

-- No bar in a text.
abbrev pub HasNoBar : Bytes → Type 0
HasNoBar s = count b'|' s ≡ 0

-- The update information for GitHub releases has the four bars that separate its five fields, if no
-- text that is put in holds one.
pub count-github_text :
    (owner name app_name arch : Bytes)
    → HasNoBar owner
    → HasNoBar name
    → HasNoBar app_name
    → HasNoBar arch
    → (count b'|' (github_text owner name app_name arch) ≡ 4)
unfolding github_text
count-github_text owner name app_name arch a b c d = simp count-append (omega arith)
