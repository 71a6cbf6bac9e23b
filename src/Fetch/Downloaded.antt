-- ===== src/Fetch/Downloaded.antt =====
-- src/appimagetool_fetch_runtime.cpp, `fetch_runtime`: what it returns, and what it leaves behind.
use mathlib.Core.Path.{subst}
use appimagetool.Base.{
  ℕ, ◌+◌, ◌^◌, ◌<◌, ◌≡◌, sym, ap, ◌∙◌, Bool, true, some, List, [], ◌∷◌, ◌++◌, arith, length, Bytes,
}
use appimagetool.Fetch.{
  Paths, Setting, url, Curl, Session, Thrown, fine, curl_exception, runtime_error, faulted,
  get_request, CurlResponse, Fetched, take_response, perform, destroy, runtime_url, catch,
  with_request, fetch_runtime,
}
use appimagetool.Fetch.Ready.{Ends, Ends->>=, Ends-mono, IsReady, IsLeft, get_request-IsReady}
use appimagetool.Fetch.Laws.{
  joined, write_stuff_lem, IsTaken, Taken, take_response-Taken, IsAnswer, perform-IsAnswer,
}

-- What `fetch_runtime` got where it returns true: a request for the runtime of the architecture
-- succeeded with the status 200, the data are as long as announced, and they stand in the buffer
-- with a null byte behind them.
pub record IsDownloaded (c : Curl) (arch : Bytes) (f : Fetched) : Type 0 where
  pub later : List Setting
  pub pieces : List Bytes
  pub performed : c.perform (later ++ (url (runtime_url arch) ∷ [])) ≡ (true, pieces)
  pub status : c.response_code ≡ some 200
  pub announced : c.content_length_download ≡ some (length (joined pieces))
  pub size : f.size ≡ some (length (joined pieces))
  pub content : f.buffer ≡ some (joined pieces ++ (0 ∷ []))

-- The session after the function, as far as it lasts.
abbrev pub IsBalanced : Session → Session → Type 0
IsBalanced s s' = (s'.inits ≡ s.inits) × (s'.handles ≡ s.handles)

abbrev IsFetched : Curl → Bytes → Session → Fetched → Session → Type 0
IsFetched c arch s f s' = f.returns ≡ true → IsDownloaded c arch f × IsBalanced s s'

Taken-Ends :
    (Q : Fetched → Session → Type 0) (r : CurlResponse) (t : Thrown Fetched) (s : Session)
    → Taken r t
    → ((f : Fetched) → (f.returns ≡ true → IsTaken r f) → Q f s)
    → Ends Q (λ _. Unit {0}) (t, s)
Taken-Ends Q r (fine f) s h k = k f h
Taken-Ends Q r curl_exception s h k = tt
Taken-Ends Q r runtime_error s h k = tt
Taken-Ends Q r faulted s h k = tt

destroy-Ends :
    (Q R : Fetched → Session → Type 0) (t : Thrown Fetched × Session)
    → Ends Q (λ _. Unit {0}) t
    → ((f : Fetched) (s : Session) → Q f s → R f (destroy s))
    → Ends R (λ _. Unit {0}) (t.0, destroy t.1)
destroy-Ends Q R (fine f, s) h k = k f s h
destroy-Ends Q R (curl_exception, s) h k = tt
destroy-Ends Q R (runtime_error, s) h k = tt
destroy-Ends Q R (faulted, s) h k = tt

module _ (c : Curl) (allocates : ℕ → Bool) (arch : Bytes) (s : Session)
    (small : (settings : List Setting) → length (joined (c.perform settings).1) + 1 < 2 ^ 64) where
  received-joined :
      (s1 s2 : Session) (r : CurlResponse)
      → IsReady (runtime_url arch) (s.inits + 1) (s.handles + 1) s1
      → IsAnswer c s1 r s2
      → r.received ≡ joined (c.perform s1.settings).1
  received-joined s1 s2 r ready answer =
      let pieces = (c.perform s1.settings).1 in
      answer.pieces_joined
      ∙ write_stuff_lem pieces s1.buffer
      ∙ ap (λ b. b ++ joined pieces) ready.nothing_received

  IsAnswer-IsDownloaded :
      (s1 s2 : Session) (r : CurlResponse) (f : Fetched)
      (ready : IsReady (runtime_url arch) (s.inits + 1) (s.handles + 1) s1)
      → IsAnswer c s1 r s2
      → IsTaken r f
      → IsDownloaded c arch f
  IsAnswer-IsDownloaded s1 s2 r f ready answer taken =
      let pieces = (c.perform s1.settings).1 in
      let all : r.received ≡ joined pieces = received-joined s1 s2 r ready answer in
      record {
        later = ready.later;
        pieces = pieces;
        performed =
            ap c.perform (sym ready.addressed)
            ∙ answer.result
            ∙ ap (λ b. (b, pieces)) taken.success;
        status = answer.answered ∙ ap some taken.status;
        announced = answer.lengthy ∙ ap some (taken.announced ∙ ap length all);
        size = taken.size ∙ ap (λ b. some (length b)) all;
        content = taken.content ∙ ap (λ b. some (b ++ (0 ∷ []))) all;
      }

  with_request-IsFetched :
      (s1 : Session)
      → IsReady (runtime_url arch) (s.inits + 1) (s.handles + 1) s1
      → Ends (IsFetched c arch s) (λ _. Unit {0}) (with_request allocates c s1)
  unfolding with_request
  with_request-IsFetched s1 ready =
      let Q : Fetched → Session → Type 0 = λ f s2.
        f.returns ≡ true
        → IsDownloaded c arch f × (s2.inits ≡ s.inits + 1) × (s2.handles ≡ s.handles + 1) in
      destroy-Ends Q (IsFetched c arch s) _
        (Ends->>= (IsAnswer c s1) Q (λ _. Unit {0}) (perform c) _ s1
          (Ends-mono (IsAnswer c s1) (IsLeft s1.inits s1.handles) (λ _. Unit {0}) _ (λ _ _. tt)
            (perform-IsAnswer c s1))
          (λ r s2 answer.
            let all = received-joined s1 s2 r ready answer in
            let fits : length r.received + 1 < 2 ^ 64 = rw all (small s1.settings) in
            Taken-Ends Q r (take_response allocates r) s2 (take_response-Taken allocates r fits)
              (λ f taken h. (
                IsAnswer-IsDownloaded s1 s2 r f ready answer (taken h),
                answer.same_inits ∙ ready.initialised,
                answer.same_handles ∙ ready.lives,
              ))))
        (λ f s2 q h. let (downloaded, i, j) = q h in (downloaded, (omega arith, omega arith)))

  catch-Ends :
      (t : Thrown Fetched × Session)
      → Ends (IsFetched c arch s) (λ _. Unit {0}) t
      → Ends (IsFetched c arch s) (λ _. Unit {0}) (catch t.0, t.1)
  unfolding catch
  catch-Ends (fine f, s1) h = h
  catch-Ends (curl_exception, s1) h = λ e. ground arith
  catch-Ends (runtime_error, s1) h = tt
  catch-Ends (faulted, s1) h = tt

  fetch_runtime-Ends :
      (p : Paths) (verbose : Bool)
      → Ends (IsFetched c arch s) (λ _. Unit {0}) (fetch_runtime p c allocates arch verbose s)
  unfolding fetch_runtime
  fetch_runtime-Ends p verbose = catch-Ends _ (
      Ends->>= (λ _. IsReady (runtime_url arch) (s.inits + 1) (s.handles + 1)) (IsFetched c arch s)
        (λ _. Unit {0}) (get_request p c (runtime_url arch) verbose) _ s
        (Ends-mono {A = Unit {0}} (λ _. IsReady (runtime_url arch) (s.inits + 1) (s.handles + 1))
          (IsLeft (s.inits + 1) (s.handles + 1)) (λ _. Unit {0})
          (get_request p c (runtime_url arch) verbose s) (λ _ _. tt)
          (get_request-IsReady p c (runtime_url arch) verbose s))
        (λ _ s1 ready. with_request-IsFetched s1 ready))

  -- When the function returns true, a request for the runtime of the architecture succeeded with the
  -- status 200, all that was received stands in the buffer with a null byte behind it, and the size
  -- is its length, which is also what the server announced. The handle is released, and libcurl
  -- cleaned up. No transfer is as long as 2^64 - 1 bytes.
  pub fetch_runtime-IsDownloaded :
      (p : Paths) (verbose : Bool) (f : Fetched) (s' : Session)
      → fetch_runtime p c allocates arch verbose s ≡ (fine f, s')
      → f.returns ≡ true
      → IsDownloaded c arch f × IsBalanced s s'
  fetch_runtime-IsDownloaded p verbose f s' h returns =
      subst (Ends (IsFetched c arch s) (λ _. Unit {0})) h (fetch_runtime-Ends p verbose) returns
