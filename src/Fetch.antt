-- ===== src/Fetch.antt =====
-- src/appimagetool_fetch_runtime.cpp: the request with libcurl, and `fetch_runtime`.
pub mod Settings
pub mod Ready
pub mod Laws
pub mod Downloaded
pub mod Agreed
mod Tests
use appimagetool.Base.{
  ℕ, ◌+◌, ◌-◌, ◌%◌, ◌^◌, Bool, true, false, not, ◌&&◌, ◌||◌, Option, none, some, List, [], ◌∷◌,
  ◌++◌, ltb, ◌==◌, if◌then◌else◌, length, drop, replicate, Bytes, codes,
}

-- What the file system says of a path.
pub record Paths : Type 0 where
  pub exists : Bytes → Bool
  pub is_regular_file : Bytes → Bool
  pub is_symlink : Bytes → Bool
  pub is_directory : Bytes → Bool

-- `std::find_if` on the places, and the empty text if there is none.
unfoldable pub first_of : (Bytes → Bool) → List Bytes → Bytes
first_of found [] = []
first_of found (path ∷ paths) = if found path then path else first_of found paths

abbrev pub bundle_files : List Bytes
bundle_files =
    codes "/etc/ssl/certs/ca-certificates.crt"
    ∷ codes "/etc/pki/tls/certs/ca-bundle.crt"
    ∷ codes "/etc/ssl/ca-bundle.pem"
    ∷ codes "/etc/pki/tls/cacert.pem"
    ∷ codes "/etc/pki/ca-trust/extracted/pem/tls-ca-bundle.pem"
    ∷ codes "/etc/ssl/cert.pem"
    ∷ []

abbrev pub bundle_directories : List Bytes
bundle_directories =
    codes "/etc/ssl/certs" ∷ codes "/etc/pki/tls/certs" ∷ codes "/system/etc/security/cacerts" ∷ []

abbrev pub find_ca_bundle_file : Paths → Bytes
find_ca_bundle_file p = first_of (λ path. p.is_regular_file path || p.is_symlink path) bundle_files

abbrev pub find_ca_bundle_directory : Paths → Bytes
find_ca_bundle_directory p = first_of p.is_directory bundle_directories

-- An option with its value, as `curl_easy_setopt` gets it.
pub data Setting : Type 0 where
  url : Bytes → Setting
  follow_location : ℕ → Setting
  max_redirs : ℕ → Setting
  verbosely : ℕ → Setting
  ca_info : Bytes → Setting
  ca_path : Bytes → Setting
  write_function : Setting
  write_data : Setting
  error_buffer : Setting

-- What libcurl answers. `none` and `false` are errors, a null pointer is `some none`. `perform`
-- gives for the settings, the last one first, whether the result is CURLE_OK, and the pieces that
-- the write function is called with. `is_recent` is `querying_supported`.
pub record Curl : Type 0 where
  pub is_recent : Bool
  pub easy_init : Bool
  pub setopt : Setting → Bool
  pub default_ca_info : Option (Option Bytes)
  pub default_ca_path : Option (Option Bytes)
  pub perform : List Setting → Bool × List Bytes
  pub response_code : Option ℕ
  pub content_length_download : Option ℕ

-- The process: initialisations of libcurl without their clean-up, handles that live, the settings
-- of the handle, the last one first, the data received, and whether the warning was printed.
pub record Session : Type 0 where
  pub inits : ℕ
  pub handles : ℕ
  pub settings : List Setting
  pub buffer : Bytes
  pub warned : Bool

-- A value, an exception of libcurl's, the `std::runtime_error` of the constructor, or a fault.
pub data Thrown (A : Type 0) : Type 0 where
  fine : A → Thrown A
  curl_exception : Thrown A
  runtime_error : Thrown A
  faulted : Thrown A

abbrev pub Action : Type 0 → Type 0
Action A = Session → Thrown A × Session

abbrev pub pure : {A : Type 0} → A → Action A
pure a s = (fine a, s)

abbrev pub pass_on : {A B : Type 0} → (A → Action B) → Thrown A → Action B
pass_on f (fine a) s = f a s
pass_on f curl_exception s = (curl_exception, s)
pass_on f runtime_error s = (runtime_error, s)
pass_on f faulted s = (faulted, s)

infixl 5 ◌>>=◌ ◌>>◌
abbrev pub ◌>>=◌ : {A B : Type 0} → Action A → (A → Action B) → Action B
◌>>=◌ m f s = let (r, s') = m s in pass_on f r s'

abbrev pub ◌>>◌ : {A B : Type 0} → Action A → Action B → Action B
m >> k = m >>= λ _. k

-- `getOption`
unfoldable pub get_option : {A : Type 0} → Option A → Action A
get_option none s = (curl_exception, s)
get_option (some a) s = (fine a, s)

abbrev pub when : Bool → Action (Unit {0}) → Action (Unit {0})
when true m = m
when false m = pure tt

-- `caInfo != nullptr && std::filesystem::exists(caInfo)`
abbrev pub is_there : (Bytes → Bool) → Option Bytes → Bool
is_there found none = false
is_there found (some path) = found path

abbrev pub is_blank_text : Bytes → Bool
is_blank_text [] = true
is_blank_text (b ∷ bytes) = false

module _ (p : Paths) (c : Curl) where
  -- `setOption`
  unfoldable pub set_option : Setting → Action (Unit {0})
  set_option o s =
      if c.setopt o then (fine tt, record s { settings = o ∷ s.settings }) else (curl_exception, s)

  -- The blocks under `querying_supported`: whether the default is there, or nulled.
  unfoldable pub query_default :
      Option (Option Bytes) → (Bytes → Bool) → (Bytes → Setting) → Action Bool
  query_default default found option = do
    path ← get_option default
    when (not (is_there found path)) (set_option (option []))
    pure (is_there found path)

  unfoldable pub query_defaults : Bool → Action (Bool × Bool)
  query_defaults true = do
    found_file ← query_default c.default_ca_info p.exists ca_info
    found_dir ← query_default c.default_ca_path p.is_directory ca_path
    pure (found_file, found_dir)
  query_defaults false = pure (false, false)

  -- `if (!foundFile)` and `if (!foundDir)`: whether it is found afterwards.
  unfoldable pub detect : Bool → Bytes → (Bytes → Setting) → Action Bool
  detect true path option = pure true
  detect false path option = do
    when (not (is_blank_text path)) (set_option (option path))
    pure true

  abbrev pub warn : Action (Unit {0})
  warn s = (fine tt, record s { warned = true })

  unfoldable pub set_up_tls_ca_chain_compatibility : Action (Unit {0})
  set_up_tls_ca_chain_compatibility = do
    found ← query_defaults c.is_recent
    found_file ← detect found.0 (find_ca_bundle_file p) ca_info
    found_dir ← detect found.1 (find_ca_bundle_directory p) ca_path
    when (not found_file && not found_dir) warn

  abbrev pub global_init : Action (Unit {0})
  global_init s = (fine tt, record s { inits = s.inits + 1 })

  abbrev pub make_handle : Action (Unit {0})
  make_handle s =
      if c.easy_init
      then (fine tt, record s { handles = s.handles + 1; settings = []; buffer = [] })
      else (runtime_error, s)

  -- The constructor of `GetRequest`. If it throws, the destructor does not run.
  unfoldable pub get_request : Bytes → Bool → Action (Unit {0})
  get_request address verbose = do
    global_init
    make_handle
    set_option (url address)
    set_option (follow_location 1)
    set_option (max_redirs 12)
    when verbose (set_option (verbosely 1))
    set_up_tls_ca_chain_compatibility
    set_option write_function
    set_option write_data
    set_option error_buffer

-- `writeStuff`, called with each of the pieces.
unfoldable pub write_stuff : List Bytes → Bytes → Bytes
write_stuff [] buffer = buffer
write_stuff (piece ∷ pieces) buffer = write_stuff pieces (buffer ++ piece)

pub record CurlResponse : Type 0 where
  pub success : Bool
  pub status_code : ℕ
  pub content_length : ℕ
  pub received : Bytes

-- What `fetch_runtime` returns, and what it writes to `*size` and `*buffer`.
pub record Fetched : Type 0 where
  pub returns : Bool
  pub size : Option ℕ
  pub buffer : Option Bytes

abbrev pub not_fetched : Fetched
not_fetched = record { returns = false; size = none; buffer = none }

-- `std::copy` into the buffer. A copy beyond its end is a fault.
unfoldable pub copy_into : Bytes → Bytes → Option Bytes
copy_into bytes buffer =
    if ltb (length buffer) (length bytes) then none else some (bytes ++ drop (length bytes) buffer)

-- The end of the function, with what is in the buffer.
abbrev pub give_copy : ℕ → Option Bytes → Thrown Fetched
give_copy n none = faulted
give_copy n (some bytes) = fine (record { returns = true; size = some n; buffer = some bytes })

-- The lines behind the answer. The length is a 64-bit pattern, and `calloc` gives null bytes or,
-- where `allocates` is false, a null pointer.
unfoldable pub take_response : (ℕ → Bool) → CurlResponse → Thrown Fetched
take_response allocates r =
    if not (r.status_code == 200)
    then fine not_fetched
    else if not r.success
    then fine not_fetched
    else if not (length r.received == r.content_length)
    then fine not_fetched
    else if not (allocates ((r.content_length + 1) % 2 ^ 64))
    then fine (record { returns = false; size = some r.content_length; buffer = none })
    else give_copy r.content_length
        (copy_into r.received (replicate ((r.content_length + 1) % 2 ^ 64) 0))

module _ (c : Curl) where
  unfoldable pub perform : Action CurlResponse
  perform s = got (c.perform s.settings)
    where
      got : Bool × List Bytes → Thrown CurlResponse × Session
      got (success, pieces) =
          let s' = record s { buffer = write_stuff pieces s.buffer } in
          (do
            status ← get_option c.response_code
            content ← get_option c.content_length_download
            pure (record {
              success = success;
              status_code = status;
              content_length = content;
              received = s'.buffer;
            }))
            s'

-- The destructor of `GetRequest`.
abbrev pub destroy : Session → Session
destroy s = record s { inits = s.inits - 1; handles = s.handles - 1 }

abbrev pub runtime_url : Bytes → Bytes
runtime_url arch =
    codes "https://github.com/AppImage/type2-runtime/releases/download/continuous/runtime-" ++ arch

-- `catch (const CurlException& e)`
unfoldable pub catch : Thrown Fetched → Thrown Fetched
catch (fine r) = fine r
catch curl_exception = fine not_fetched
catch runtime_error = runtime_error
catch faulted = faulted

-- What is left of the `try` block once there is a request, which is destroyed at its end.
unfoldable pub with_request : (ℕ → Bool) → Curl → Session → Thrown Fetched × Session
with_request allocates c s =
    let (r, s') = (perform c >>= λ response s1. (take_response allocates response, s1)) s in
    (r, destroy s')

unfoldable pub fetch_runtime :
    Paths → Curl → (ℕ → Bool) → Bytes → Bool → Session → Thrown Fetched × Session
fetch_runtime p c allocates arch verbose s =
    let (r, s') =
      (get_request p c (runtime_url arch) verbose >>= λ _. with_request allocates c) s in
    (catch r, s')
