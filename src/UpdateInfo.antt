-- ===== src/UpdateInfo.antt =====
-- src/appimagetool.c, `main`: the update information that is guessed from the variables of CI
-- systems, and the test of its format.
use appimagetool.Base.{
  ◌+◌, ◌-◌, Bool, not, ◌&&◌, ◌||◌, Option, none, some, List, [], ◌∷◌, ◌++◌, ltb, ◌==◌,
  if◌then◌else◌, length, drop, Bytes, codes, str_eq, strstr,
}
use appimagetool.Glib.{Glib}
pub mod Laws
mod Tests

-- The environment variables, as `getenv` gives them.
pub record Environment : Type 0 where
  pub github_token : Option Bytes
  pub github_repository : Option Bytes
  pub github_repository_owner : Option Bytes
  pub travis_repo_slug : Option Bytes
  pub travis_tag : Option Bytes
  pub travis_pull_request : Option Bytes
  pub ci_project_url : Option Bytes
  pub ci_commit_ref_name : Option Bytes
  pub ci_job_name : Option Bytes

-- The text behind the first place where the owner stands, less one slash.
abbrev pub behind_slash : Bytes → Bytes
behind_slash [] = []
behind_slash (c ∷ rest) = if c == b'/' then rest else c ∷ rest

unfoldable pub github_repository_name : Option Bytes → Option Bytes → Option Bytes
github_repository_name (some repository) (some owner) = elim (strstr repository owner) [
  | none ↦ none
  | some k ↦ some (behind_slash (drop (k + length owner) repository))
]
github_repository_name _ _ = none

-- What `%s` prints; for a null pointer it is what glibc prints.
abbrev pub shown : Option Bytes → Bytes
shown none = codes "(null)"
shown (some s) = s

-- What the guess comes to: the update information stays as it was, it is replaced, the program dies
-- of an overflow of `buf`, or it reads through a null pointer or behind an array.
pub data Guess : Type 0 where
  keep : Guess
  guessed : Bytes → Guess
  overflow : Guess
  fault : Guess

-- `snprintf` into `char buf[1024]`, and the test of its result.
unfoldable pub print_buf : Bytes → Guess
print_buf text = if ltb (length text) 1024 then guessed text else overflow

unfoldable pub github_text : Bytes → Bytes → Bytes → Bytes → Bytes
github_text owner repository_name app_name arch =
    codes "gh-releases-zsync|"
    ++ (owner
        ++ (codes "|"
            ++ (repository_name
                ++ (codes "|latest|"
                    ++ (app_name ++ (codes "*-" ++ (arch ++ codes ".AppImage.zsync")))))))

unfoldable pub travis_text : Bytes → Bytes → Bytes → Bytes → Bytes → Bytes
travis_text owner repository_name channel app_name arch =
    codes "gh-releases-zsync|"
    ++ (owner
        ++ (codes "|"
            ++ (repository_name
                ++ (codes "|"
                    ++ (channel
                        ++ (codes "|"
                            ++ (app_name ++ (codes "*-" ++ (arch ++ codes ".AppImage.zsync")))))))))

unfoldable pub gitlab_text : Bytes → Bytes → Bytes → Bytes → Bytes → Bytes
gitlab_text url ref app_name arch job =
    codes "zsync|"
    ++ (url
        ++ (codes "/-/jobs/artifacts/"
            ++ (ref
                ++ (codes "/raw/"
                    ++ (app_name
                        ++ (codes "-" ++ (arch ++ (codes ".AppImage.zsync?job=" ++ job))))))))

-- The release channel on Travis: `latest` for a tag that is neither empty nor `continuous`.
unfoldable pub travis_channel : Option Bytes → Bytes
travis_channel none = codes "continuous"
travis_channel (some tag) =
    if not (str_eq tag []) && not (str_eq tag (codes "continuous"))
    then codes "latest"
    else codes "continuous"

-- `parts[0]` and `parts[1]` of the null-terminated array; without a part, `parts[1]` is behind it.
unfoldable pub travis_guess : List Bytes → Bytes → Bytes → Bytes → Guess
travis_guess [] channel app_name arch = fault
travis_guess (owner ∷ []) channel app_name arch =
    print_buf (travis_text owner (shown none) channel app_name arch)
travis_guess (owner ∷ repository_name ∷ _) channel app_name arch =
    print_buf (travis_text owner repository_name channel app_name arch)

-- The branch for Travis without a token: `strcmp` reads through `travis_pull_request`.
abbrev pub travis_without_token : Option Bytes → Guess
travis_without_token none = fault
travis_without_token (some _) = keep

module _ (g : Glib) (env : Environment) (zsyncmake : Bool) (app_name arch : Bytes) where
  unfoldable pub guess_github : Bytes → Guess
  guess_github repository_name = elim env.github_token [
    | none ↦ keep
    | some _ ↦
        if zsyncmake
        then print_buf
            (github_text (shown env.github_repository_owner) repository_name app_name arch)
        else keep
  ]

  unfoldable pub guess_travis : Bytes → Guess
  guess_travis slug = elim env.github_token [
    | none ↦ travis_without_token env.travis_pull_request
    | some _ ↦
        if zsyncmake
        then travis_guess (g.split_slash slug) (travis_channel env.travis_tag) app_name arch
        else keep
  ]

  unfoldable pub guess_gitlab : Bytes → Guess
  guess_gitlab ref =
      if zsyncmake
      then print_buf
          (gitlab_text (shown env.ci_project_url) ref app_name arch (shown env.ci_job_name))
      else keep

  -- The ladder over the CI systems.
  unfoldable pub guess_update_information : Guess
  guess_update_information =
      elim (github_repository_name env.github_repository env.github_repository_owner) [
        | some name ↦ guess_github name
        | none ↦ elim env.travis_repo_slug [
          | some slug ↦ guess_travis slug
          | none ↦ elim env.ci_commit_ref_name [ some ref ↦ guess_gitlab ref | none ↦ keep ]
        ]
      ]

-- The test of the format.
unfoldable pub is_recognised : Glib → Bytes → Bool
is_recognised g info =
    g.has_prefix info (codes "zsync|")
    || g.has_prefix info (codes "gh-releases-zsync|")
    || g.has_prefix info (codes "pling-v1-zsync|")
