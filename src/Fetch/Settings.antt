-- ===== src/Fetch/Settings.antt =====
-- src/appimagetool_fetch_runtime.cpp: the settings of a request to which libcurl agrees.
use appimagetool.Base.{
  ◌+◌, ◌≡◌, refl, inl, inr, Bool, true, false, ◌&&◌, ◌||◌, Option, some, List, [], ◌∷◌, ◌++◌,
  if◌then◌else◌, Bool-cases, Bytes,
}
use appimagetool.Fetch.{
  Paths, find_ca_bundle_file, find_ca_bundle_directory, Setting, url, follow_location, max_redirs,
  verbosely, ca_info, ca_path, write_function, write_data, error_buffer, Curl, Session, fine,
  get_option, is_there, is_blank_text, set_option, query_default, query_defaults, detect,
  set_up_tls_ca_chain_compatibility, get_request,
}

-- A default that is not there is nulled.
abbrev pub nulled : Bool → (Bytes → Setting) → List Setting → List Setting
nulled found option rest = if found then rest else option [] ∷ rest

-- A place for the certificates is set where there is no default and the place exists.
abbrev pub bundled : Bool → Bytes → (Bytes → Setting) → List Setting → List Setting
bundled found path option rest = if found || is_blank_text path then rest else option path ∷ rest

module _ (p : Paths) (c : Curl) where
  -- The certificates of the system, where libcurl's own places for the file and the directory are
  -- not there, or not known.
  abbrev pub tls_settings : Option Bytes → Option Bytes → List Setting → List Setting
  tls_settings file directory rest =
      let found_file = c.is_recent && is_there p.exists file in
      let found_directory = c.is_recent && is_there p.is_directory directory in
      bundled found_directory (find_ca_bundle_directory p) ca_path (
        bundled found_file (find_ca_bundle_file p) ca_info (
          if c.is_recent
          then nulled found_directory ca_path (nulled found_file ca_info rest)
          else rest))

  -- All settings of a request, the last one first.
  abbrev pub request_settings : Option Bytes → Option Bytes → Bytes → Bool → List Setting
  request_settings file directory address verbose =
      error_buffer
      ∷ write_data
      ∷ write_function
      ∷ tls_settings file directory (
          (if verbose then verbosely 1 ∷ [] else [])
          ++ (max_redirs 12 ∷ follow_location 1 ∷ url address ∷ []))

  module _ (agrees : (o : Setting) → c.setopt o ≡ true) (file directory : Option Bytes)
      (has_file : c.default_ca_info ≡ some file)
      (has_directory : c.default_ca_path ≡ some directory) where
    set_option-true :
        (o : Setting) (s : Session)
        → set_option p c o s ≡ (fine tt, record s { settings = o ∷ s.settings })
    unfolding set_option
    set_option-true o s = simp (agrees o)

    query_default-some :
        (default : Option (Option Bytes)) (path : Option Bytes) (found : Bytes → Bool)
        (option : Bytes → Setting) (s : Session)
        → default ≡ some path
        → query_default p c default found option s ≡ (
          fine (is_there found path),
          record s { settings = nulled (is_there found path) option s.settings },
        )
    unfolding query_default get_option
    query_default-some default path found option s h =
        let set = set_option-true (option []) s in
        elim (Bool-cases (is_there found path)) [ inl e ↦ simp (h, e) | inr e ↦ simp (h, e, set) ]

    detect_lem :
        (found : Bool) (path : Bytes) (option : Bytes → Setting) (s : Session)
        → detect p c found path option s
          ≡ (fine true, record s { settings = bundled found path option s.settings })
    unfolding detect
    detect_lem true path option s = refl
    detect_lem false [] option s = refl
    detect_lem false (b ∷ path) option s = simp (set_option-true (option (b ∷ path)) s)

    query_defaults_lem :
        (recent : Bool) (s : Session)
        → query_defaults p c recent s ≡ (
          fine (recent && is_there p.exists file, recent && is_there p.is_directory directory),
          record s {
            settings =
                if recent
                then nulled
                    (recent && is_there p.is_directory directory)
                    ca_path
                    (nulled (recent && is_there p.exists file) ca_info s.settings)
                else s.settings;
          },
        )
    unfolding query_defaults
    query_defaults_lem true s =
        let after_file : Session = record s {
          settings = nulled (is_there p.exists file) ca_info s.settings;
        } in
        simp (
          query_default-some c.default_ca_info file p.exists ca_info s has_file,
          query_default-some c.default_ca_path directory p.is_directory ca_path after_file
              has_directory,
        )
    query_defaults_lem false s = refl

    -- The warning is not printed, whatever is found.
    set_up_tls_ca_chain_compatibility_lem :
        (s : Session)
        → set_up_tls_ca_chain_compatibility p c s
          ≡ (fine tt, record s { settings = tls_settings file directory s.settings })
    unfolding set_up_tls_ca_chain_compatibility
    set_up_tls_ca_chain_compatibility_lem s = simp (query_defaults_lem c.is_recent s, detect_lem)

    pub get_request-settings :
        (address : Bytes) (verbose : Bool) (s : Session)
        → c.easy_init ≡ true
        → get_request p c address verbose s ≡ (
          fine tt,
          record {
            inits = s.inits + 1;
            handles = s.handles + 1;
            settings = request_settings file directory address verbose;
            buffer = [];
            warned = s.warned;
          },
        )
    unfolding get_request
    get_request-settings address true s made =
        simp (made, set_option-true, set_up_tls_ca_chain_compatibility_lem)
    get_request-settings address false s made =
        simp (made, set_option-true, set_up_tls_ca_chain_compatibility_lem)
