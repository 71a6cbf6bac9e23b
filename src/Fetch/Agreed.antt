-- ===== src/Fetch/Agreed.antt =====
-- src/appimagetool_fetch_runtime.cpp, `fetch_runtime`: the run in which nothing fails.
use appimagetool.Base.{
  ℕ, ◌+◌, ◌-◌, ◌%◌, ◌^◌, ◌<◌, ◌≡◌, refl, ap, ◌∙◌, Bool, true, Option, some, List, [], ◌∷◌, ◌++◌,
  arith, ◌==◌, ==_iff, length, Bytes,
}
use appimagetool.Fetch.{
  Paths, Setting, Curl, Session, fine, get_option, write_stuff, take_response, perform, catch,
  with_request, runtime_url, fetch_runtime,
}
use appimagetool.Fetch.Settings.{request_settings, get_request-settings}
use appimagetool.Fetch.Laws.{joined, write_stuff_lem, copy_into_lem}

-- libcurl agrees to everything, and the server answers with the whole runtime.
pub record IsAgreed (p : Paths) (c : Curl) (arch : Bytes) (verbose : Bool) (pieces : List Bytes)
    : Type 0 where
  pub made : c.easy_init ≡ true
  pub agrees : (o : Setting) → c.setopt o ≡ true
  pub file : Option Bytes
  pub has_file : c.default_ca_info ≡ some file
  pub directory : Option Bytes
  pub has_directory : c.default_ca_path ≡ some directory
  pub answers :
      c.perform (request_settings p c file directory (runtime_url arch) verbose) ≡ (true, pieces)
  pub status : c.response_code ≡ some 200
  pub announced : c.content_length_download ≡ some (length (joined pieces))

with_request-fine :
    (allocates : ℕ → Bool) (c : Curl) (s : Session) (pieces : List Bytes)
    → s.buffer ≡ []
    → c.perform s.settings ≡ (true, pieces)
    → c.response_code ≡ some 200
    → c.content_length_download ≡ some (length (joined pieces))
    → length (joined pieces) + 1 < 2 ^ 64
    → allocates (length (joined pieces) + 1) ≡ true
    → with_request allocates c s ≡ (
      fine (record {
        returns = true;
        size = some (length (joined pieces));
        buffer = some (joined pieces ++ (0 ∷ []));
      }),
      record s { inits = s.inits - 1; handles = s.handles - 1; buffer = joined pieces },
    )
unfolding with_request perform get_option take_response
with_request-fine allocates c s pieces empty answers status announced small allocated =
    let received : write_stuff pieces s.buffer ≡ joined pieces =
      write_stuff_lem pieces s.buffer ∙ ap (λ b. b ++ joined pieces) empty in
    let whole : (length (joined pieces) == length (joined pieces)) ≡ true = (==_iff _ _).1 refl in
    let exact : (length (joined pieces) + 1) % 2 ^ 64 ≡ length (joined pieces) + 1 = omega arith in
    let copy = rw exact at (copy_into_lem (joined pieces) small) in
    simp (answers, status, announced, received, whole, copy, exact, allocated)

-- When libcurl agrees to all settings, the transfer succeeds with the status 200, all that was
-- announced arrives and there is memory, the function does return true, with the data and a null byte
-- behind them. The request is for the runtime of the architecture, with the certificates of the
-- system where libcurl's own are not there. No warning is printed, and the session is left as it was.
pub fetch_runtime-IsAgreed :
    (p : Paths) (c : Curl) (allocates : ℕ → Bool) (arch : Bytes) (verbose : Bool) (s : Session)
    (pieces : List Bytes)
    → IsAgreed p c arch verbose pieces
    → length (joined pieces) + 1 < 2 ^ 64
    → allocates (length (joined pieces) + 1) ≡ true
    → (s' : Session) × (fetch_runtime p c allocates arch verbose s ≡ (
      fine (record {
        returns = true;
        size = some (length (joined pieces));
        buffer = some (joined pieces ++ (0 ∷ []));
      }),
      s',
    ))
      × (s'.warned ≡ s.warned)
      × (s'.inits ≡ s.inits)
      × (s'.handles ≡ s.handles)
unfolding fetch_runtime catch
fetch_runtime-IsAgreed p c allocates arch verbose s pieces agreed small allocated =
    let made =
      get_request-settings p c agreed.agrees agreed.file agreed.directory agreed.has_file
        agreed.has_directory (runtime_url arch) verbose s agreed.made in
    let s1 : Session = record {
      inits = s.inits + 1;
      handles = s.handles + 1;
      settings = request_settings p c agreed.file agreed.directory (runtime_url arch) verbose;
      buffer = [];
      warned = s.warned;
    } in
    let served =
      with_request-fine allocates c s1 pieces refl agreed.answers agreed.status agreed.announced
        small allocated in
    (
      record s1 { inits = s1.inits - 1; handles = s1.handles - 1; buffer = joined pieces },
      simp (made, served),
      refl,
      omega arith,
      omega arith,
    )
