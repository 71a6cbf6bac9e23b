-- ===== src/Package/Sample.antt =====
-- src/appimagetool.c, `main`: a system on which a small runtime is packed and signed.
pub mod Runtime
use appimagetool.Base.{true, false, none, some, [], ◌++◌, replicate, Bytes, codes}
use appimagetool.Elf.Sample.{
  update_place, digest_place, signature_section, key_section, runtime_file,
}
use appimagetool.Digest.Sample.{toy, fresh_stack}
use appimagetool.Fetch.{fine, not_fetched}
use appimagetool.Glib.Sample.{sample}
use appimagetool.UpdateInfo.{Environment}
use appimagetool.Sign.Sealed.Sample.{summing, binding, good_source, disk_of, buffer_of, settings0}
use appimagetool.Package.{Options, System, Signer}
use appimagetool.Package.Runtime.{Places}

abbrev pub key_owner : Signer
key_owner = record {
  gcrypt = summing;
  source = good_source;
  gpgme = binding;
  fuel = 9;
  sign_key = none;
  passphrase = none;
  sig_disk = disk_of 7;
  sig_stack = buffer_of;
  key_disk = disk_of 6;
  key_stack = buffer_of;
  settings = settings0;
}

abbrev pub nobody : Environment
nobody = record {
  github_token = none;
  github_repository = none;
  github_repository_owner = none;
  travis_repo_slug = none;
  travis_tag = none;
  travis_pull_request = none;
  ci_project_url = none;
  ci_commit_ref_name = none;
  ci_job_name = none;
}

-- Room for the runtime, and four bytes.
abbrev pub squashed_sample : Bytes
squashed_sample = replicate 8396 0 ++ codes "hsqs"

abbrev pub roomy_system : System
roomy_system = record {
  glib = sample;
  environment = nobody;
  download = fine not_fetched;
  mksquashfs = λ args. (some 0, squashed_sample);
  ignore_file_exists = true;
  exclude_file_exists = false;
  source_date_epoch = none;
  opens = true;
  space = 100000;
  chmods = true;
  has_zsyncmake = true;
  left_behind = λ text. some text;
  update_io = record { opens = true; space = 1000 };
  md5 = toy;
  stack = fresh_stack;
  digest_io = record { opens = true; space = 16 };
  signer = key_owner;
  zsyncmake_starts = true;
  zsyncmake_succeeds = true;
}

abbrev pub signing_options : Options
signing_options = record {
  verbose = false;
  guess = false;
  sign = true;
  updateinformation = some (codes "zsync|https://a.b/App.zsync");
  runtime_file = some (some runtime_file);
  sqfs_comp = none;
  sqfs_opts = [];
  exclude_file = none;
}

abbrev pub sample_places : Places
sample_places = record {
  update = update_place;
  digest = digest_place;
  signature = signature_section;
  key = key_section;
}
