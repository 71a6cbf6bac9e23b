-- ===== src/UpdateInfo/Tests.antt =====
-- src/appimagetool.c, `main`: guesses from environments.
use appimagetool.Base.{◌<◌, ◌≡◌, refl, true, none, some, length, Bytes, codes, is_prefix, strstr}
use appimagetool.Glib.Sample.{sample, sample-IsGlib}
use appimagetool.UpdateInfo.{
  Environment, guessed, github_repository_name, github_text, print_buf, guess_github,
  guess_update_information, is_recognised,
}
use appimagetool.UpdateInfo.Laws.{guess_usable, github_repository_name_lem}

abbrev no_environment : Environment
no_environment = record {
  github_token = none;
  github_repository = none;
  github_repository_owner = none;
  travis_repo_slug = none;
  travis_tag = none;
  travis_pull_request = none;
  ci_project_url = none;
  ci_commit_ref_name = none;
  ci_job_name = none;
}

abbrev on_github : Environment
on_github = record no_environment {
  github_token = some (codes "t");
  github_repository = some (codes "me/tool");
  github_repository_owner = some (codes "me");
}

abbrev on_github_text : Bytes
on_github_text = codes "gh-releases-zsync|me|tool|latest|Tool*-x86_64.AppImage.zsync"

github_guess :
    guess_update_information sample on_github true (codes "Tool") (codes "x86_64")
    ≡ guessed on_github_text
unfolding guess_update_information guess_github github_repository_name strstr is_prefix github_text
    print_buf
github_guess = refl

guess_usable_example : (is_recognised sample on_github_text ≡ true) × (length on_github_text < 1024)
guess_usable_example =
    guess_usable sample sample-IsGlib on_github true (codes "Tool") (codes "x86_64") on_github_text
      github_guess

github_repository_name_lem_example :
    github_repository_name (some (codes "me/tool")) (some (codes "me")) ≡ some (codes "tool")
github_repository_name_lem_example = github_repository_name_lem (codes "me") (codes "tool")
