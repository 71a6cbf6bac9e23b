-- ===== src/Fetch/Ready.antt =====
-- src/appimagetool_fetch_runtime.cpp: the request once its constructor is done, or has thrown.
use appimagetool.Base.{
  ℕ, ◌+◌, ◌≡◌, refl, ap, inl, inr, Bool, true, false, not, ◌&&◌, Option, none, some, List, [], ◌∷◌,
  ◌++◌, Bool-cases, Bytes,
}
use appimagetool.Fetch.{
  Paths, find_ca_bundle_file, find_ca_bundle_directory, Setting, url, follow_location, max_redirs,
  verbosely, ca_info, ca_path, write_function, write_data, error_buffer, Curl, Session, Thrown,
  fine, curl_exception, runtime_error, faulted, Action, get_option, pass_on, when, is_there,
  is_blank_text, set_option, query_default, query_defaults, detect,
  set_up_tls_ca_chain_compatibility, get_request, make_handle, warn, pure, ◌>>=◌, ◌>>◌,
}

-- A value comes with `Q`, an exception of libcurl's with `X`.
abbrev pub Ends :
    {A : Type 0} → (A → Session → Type 0) → (Session → Type 0) → Thrown A × Session → Type 0
Ends Q X (fine a, s) = Q a s
Ends Q X (curl_exception, s) = X s
Ends Q X (runtime_error, s) = Unit {0}
Ends Q X (faulted, s) = Unit {0}

Ends-pass_on :
    {A B : Type 0} (Q : A → Session → Type 0) (R : B → Session → Type 0) (X : Session → Type 0)
    (f : A → Action B) (r : Thrown A) (s : Session)
    → Ends Q X (r, s)
    → ((a : A) (s' : Session) → Q a s' → Ends R X (f a s'))
    → Ends R X (pass_on f r s)
Ends-pass_on Q R X f (fine a) s h k = k a s h
Ends-pass_on Q R X f curl_exception s h k = h
Ends-pass_on Q R X f runtime_error s h k = tt
Ends-pass_on Q R X f faulted s h k = tt

pub Ends->>= :
    {A B : Type 0} (Q : A → Session → Type 0) (R : B → Session → Type 0) (X : Session → Type 0)
    (m : Action A) (f : A → Action B) (s : Session)
    → Ends Q X (m s)
    → ((a : A) (s' : Session) → Q a s' → Ends R X (f a s'))
    → Ends R X ((m >>= f) s)
Ends->>= Q R X m f s h k = Ends-pass_on Q R X f ((m s).0) ((m s).1) h k

-- A handle for the address, and nothing received so far.
pub record IsReady (address : Bytes) (inits handles : ℕ) (s : Session) : Type 0 where
  pub initialised : s.inits ≡ inits
  pub lives : s.handles ≡ handles
  pub nothing_received : s.buffer ≡ []
  pub later : List Setting
  pub addressed : s.settings ≡ later ++ (url address ∷ [])

module _ (p : Paths) (c : Curl) (address : Bytes) (inits handles : ℕ) where
  abbrev I : Session → Type 0
  I = IsReady address inits handles

  -- Code that keeps the request ready, also where it throws.
  abbrev Keeps : {A : Type 0} → Action A → Type 0
  Keeps m = (s : Session) → I s → Ends (λ _. I) I (m s)

  Keeps->>= :
      {A B : Type 0} (m : Action A) (f : A → Action B)
      → Keeps m
      → ((a : A) → Keeps (f a))
      → Keeps (m >>= f)
  Keeps->>= m f h k s i = Ends->>= (λ _. I) (λ _. I) I m f s (h s i) (λ a s' i'. k a s' i')

  Keeps-set_option : (o : Setting) → Keeps (set_option p c o)
  unfolding set_option
  Keeps-set_option o s i = elim (Bool-cases (c.setopt o)) [
    | inl agrees ↦
        rw (set_option, agrees)
          (record {
            initialised = i.initialised;
            lives = i.lives;
            nothing_received = i.nothing_received;
            later = o ∷ i.later;
            addressed = ap (λ rest. o ∷ rest) i.addressed;
          })
    | inr refuses ↦ rw (set_option, refuses) i
  ]

  Keeps-pure : {A : Type 0} (a : A) → Keeps (pure a)
  Keeps-pure a s i = i

  Keeps-when : (b : Bool) (m : Action (Unit {0})) → Keeps m → Keeps (when b m)
  Keeps-when true m h = h
  Keeps-when false m h = Keeps-pure tt

  Keeps-get_option : {A : Type 0} (o : Option A) → Keeps (get_option o)
  unfolding get_option
  Keeps-get_option none s i = i
  Keeps-get_option (some a) s i = i

  Keeps-warn : Keeps (warn p c)
  Keeps-warn s i = record {
    initialised = i.initialised;
    lives = i.lives;
    nothing_received = i.nothing_received;
    later = i.later;
    addressed = i.addressed;
  }

  Keeps-query_default :
      (default : Option (Option Bytes)) (found : Bytes → Bool) (option : Bytes → Setting)
      → Keeps (query_default p c default found option)
  unfolding query_default
  Keeps-query_default default found option =
      Keeps->>= (get_option default) _ (Keeps-get_option default) (λ path.
        Keeps->>= (when (not (is_there found path)) (set_option p c (option []))) _
          (Keeps-when _ _ (Keeps-set_option (option []))) (λ _. Keeps-pure (is_there found path)))

  Keeps-query_defaults : (recent : Bool) → Keeps (query_defaults p c recent)
  unfolding query_defaults
  Keeps-query_defaults true =
      Keeps->>= (query_default p c c.default_ca_info p.exists ca_info) _
        (Keeps-query_default c.default_ca_info p.exists ca_info)
        (λ found_file.
          Keeps->>= (query_default p c c.default_ca_path p.is_directory ca_path) _
            (Keeps-query_default c.default_ca_path p.is_directory ca_path) (λ found_dir s i. i))
  Keeps-query_defaults false = λ s i. i

  Keeps-detect :
      (found : Bool) (path : Bytes) (option : Bytes → Setting)
      → Keeps (detect p c found path option)
  unfolding detect
  Keeps-detect true path option = Keeps-pure true
  Keeps-detect false path option =
      Keeps->>= (when (not (is_blank_text path)) (set_option p c (option path))) _
        (Keeps-when _ _ (Keeps-set_option (option path))) (λ _. Keeps-pure true)

  Keeps-set_up_tls_ca_chain_compatibility : Keeps (set_up_tls_ca_chain_compatibility p c)
  unfolding set_up_tls_ca_chain_compatibility
  Keeps-set_up_tls_ca_chain_compatibility =
      Keeps->>= (query_defaults p c c.is_recent) _ (Keeps-query_defaults c.is_recent) (λ found.
        Keeps->>= (detect p c found.0 (find_ca_bundle_file p) ca_info) _
          (Keeps-detect found.0 (find_ca_bundle_file p) ca_info)
          (λ found_file.
            Keeps->>= (detect p c found.1 (find_ca_bundle_directory p) ca_path) _
              (Keeps-detect found.1 (find_ca_bundle_directory p) ca_path)
              (λ found_dir. Keeps-when (not found_file && not found_dir) (warn p c) Keeps-warn)))

  -- The steps of the constructor behind the address.
  Keeps-later_steps :
      (verbose : Bool)
      → Keeps (
          set_option p c (follow_location 1)
          >> (set_option p c (max_redirs 12)
              >> (when verbose (set_option p c (verbosely 1))
                  >> (set_up_tls_ca_chain_compatibility p c
                      >> (set_option p c write_function
                          >> (set_option p c write_data >> set_option p c error_buffer))))))
  Keeps-later_steps verbose =
      Keeps->>= (set_option p c (follow_location 1)) _ (Keeps-set_option (follow_location 1)) (λ _.
        Keeps->>= (set_option p c (max_redirs 12)) _ (Keeps-set_option (max_redirs 12)) (λ _.
          Keeps->>= (when verbose (set_option p c (verbosely 1))) _
            (Keeps-when verbose _ (Keeps-set_option (verbosely 1)))
            (λ _.
              Keeps->>= (set_up_tls_ca_chain_compatibility p c) _
                Keeps-set_up_tls_ca_chain_compatibility
                (λ _.
                  Keeps->>= (set_option p c write_function) _ (Keeps-set_option write_function)
                    (λ _.
                      Keeps->>= (set_option p c write_data) _ (Keeps-set_option write_data)
                        (λ _. Keeps-set_option error_buffer))))))

pub Ends-mono :
    {A : Type 0} (Q : A → Session → Type 0) (X Y : Session → Type 0) (r : Thrown A × Session)
    → ((s : Session) → X s → Y s)
    → Ends Q X r
    → Ends Q Y r
Ends-mono Q X Y (fine a, s) f h = h
Ends-mono Q X Y (curl_exception, s) f h = f s h
Ends-mono Q X Y (runtime_error, s) f h = tt
Ends-mono Q X Y (faulted, s) f h = tt

-- What a constructor that throws an exception of libcurl's leaves behind: a handle that nothing
-- releases.
abbrev pub IsLeft : ℕ → ℕ → Session → Type 0
IsLeft inits handles s = (s.inits ≡ inits) × (s.handles ≡ handles)

module _ (p : Paths) (c : Curl) (address : Bytes) where
  make_handle-Ends :
      (s : Session) (X : Session → Type 0)
      → Ends
          (λ _ s'. s' ≡ record s { handles = s.handles + 1; settings = []; buffer = [] })
          X
          (make_handle p c s)
  make_handle-Ends s X = elim (Bool-cases c.easy_init) [
    | inl made ↦ rw (make_handle, made) refl
    | inr fails ↦ rw (make_handle, fails) tt
  ]

  set_url-Ends :
      (s : Session) (inits handles : ℕ)
      → s.inits ≡ inits
      → s.handles ≡ handles
      → s.settings ≡ []
      → s.buffer ≡ []
      → Ends
          (λ _. IsReady address inits handles)
          (IsLeft inits handles)
          (set_option p c (url address) s)
  unfolding set_option
  set_url-Ends s inits handles i h none_set empty = elim (Bool-cases (c.setopt (url address))) [
    | inl agrees ↦
        rw (set_option, agrees)
          (record {
            initialised = i;
            lives = h;
            nothing_received = empty;
            later = [];
            addressed = ap (λ rest. url address ∷ rest) none_set;
          })
    | inr refuses ↦ rw (set_option, refuses) (i, h)
  ]

  -- After the constructor there is a new handle with the address and no data, or it has thrown and
  -- the handle is left behind.
  pub get_request-IsReady :
      (verbose : Bool) (s : Session)
      → Ends
          (λ _. IsReady address (s.inits + 1) (s.handles + 1))
          (IsLeft (s.inits + 1) (s.handles + 1))
          (get_request p c address verbose s)
  unfolding get_request
  get_request-IsReady verbose s =
      let I = IsReady address (s.inits + 1) (s.handles + 1) in
      let X = IsLeft (s.inits + 1) (s.handles + 1) in
      let s1 : Session = record s { inits = s.inits + 1 } in
      let s2 : Session = record s1 { handles = s.handles + 1; settings = []; buffer = [] } in
      Ends->>= (λ _ s'. s' ≡ s2) (λ _. I) X (make_handle p c) _ s1 (make_handle-Ends s1 X)
        (λ _ s' same.
          Ends->>= (λ _. I) (λ _. I) X (set_option p c (url address)) _ s'
            (set_url-Ends s' (s.inits + 1) (s.handles + 1) (ap (λ t. t.inits) same)
              (ap (λ t. t.handles) same) (ap (λ t. t.settings) same) (ap (λ t. t.buffer) same))
            (λ _ s3 ready.
              Ends-mono (λ _. I) I X _ (λ t i. (i.initialised, i.lives))
                (Keeps-later_steps p c address (s.inits + 1) (s.handles + 1) verbose s3 ready)))
