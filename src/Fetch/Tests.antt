-- ===== src/Fetch/Tests.antt =====
-- src/appimagetool_fetch_runtime.cpp: a runtime of five bytes that arrives in two pieces.
use appimagetool.Base.{
  ◌≡◌, refl, true, false, none, some, List, [], ◌∷◌, ◌++◌, arith, Bytes, codes, str_eq,
}
use appimagetool.Fetch.{
  Paths, Curl, Session, Fetched, Thrown, fine, fetch_runtime, catch, with_request, perform,
  get_option, take_response, copy_into, write_stuff, get_request, set_option, query_default,
  query_defaults, detect, set_up_tls_ca_chain_compatibility, first_of,
}
use appimagetool.Fetch.Downloaded.{IsDownloaded, IsBalanced, fetch_runtime-IsDownloaded}
use appimagetool.Fetch.Agreed.{IsAgreed, fetch_runtime-IsAgreed}

-- A system like Fedora, where libcurl looks for its certificates in another place.
abbrev fedora : Paths
fedora = record {
  exists = λ path. false;
  is_regular_file = λ path. str_eq path (codes "/etc/pki/tls/certs/ca-bundle.crt");
  is_symlink = λ path. false;
  is_directory = λ path. str_eq path (codes "/etc/pki/tls/certs");
}

abbrev two_pieces : List Bytes
two_pieces = codes "\u{7f}EL" ∷ codes "Fx" ∷ []

abbrev server : Curl
server = record {
  is_recent = true;
  easy_init = true;
  setopt = λ o. true;
  default_ca_info = some (some (codes "/etc/ssl/certs/ca-certificates.crt"));
  default_ca_path = some none;
  perform = λ settings. (true, two_pieces);
  response_code = some 200;
  content_length_download = some 5;
}

abbrev at_rest : Session
at_rest = record { inits = 0; handles = 0; settings = []; buffer = []; warned = false }

abbrev five_bytes : Fetched
five_bytes = record {
  returns = true;
  size = some 5;
  buffer = some (codes "\u{7f}ELFx" ++ (0 ∷ []));
}

server-IsAgreed : IsAgreed fedora server (codes "x86_64") true two_pieces
server-IsAgreed = record {
  made = refl;
  agrees = λ o. refl;
  file = some (codes "/etc/ssl/certs/ca-certificates.crt");
  has_file = refl;
  directory = none;
  has_directory = refl;
  answers = refl;
  status = refl;
  announced = refl;
}

fetch_runtime-IsAgreed_example :
    (s' : Session) × (fetch_runtime fedora server (λ n. true) (codes "x86_64") true at_rest
      ≡ (fine five_bytes, s'))
    × (s'.warned ≡ false)
    × (s'.inits ≡ 0)
    × (s'.handles ≡ 0)
fetch_runtime-IsAgreed_example =
    fetch_runtime-IsAgreed fedora server (λ n. true) (codes "x86_64") true at_rest two_pieces
      server-IsAgreed (omega arith) refl

abbrev fetched : Thrown Fetched × Session
fetched = fetch_runtime fedora server (λ n. true) (codes "x86_64") true at_rest

fetched-fine : fetched ≡ (fine five_bytes, fetched.1)
unfolding fetch_runtime catch with_request perform get_option take_response copy_into write_stuff
    get_request set_option query_default query_defaults detect set_up_tls_ca_chain_compatibility
    first_of
fetched-fine = refl

fetch_runtime-IsDownloaded_example :
    IsDownloaded server (codes "x86_64") five_bytes × IsBalanced at_rest fetched.1
fetch_runtime-IsDownloaded_example =
    fetch_runtime-IsDownloaded server (λ n. true) (codes "x86_64") at_rest (λ settings. omega arith)
      fedora true five_bytes fetched.1 fetched-fine refl
