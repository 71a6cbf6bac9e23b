-- ===== src/Fetch/Laws.antt =====
-- src/appimagetool_fetch_runtime.cpp, the response, and what is taken of it.
use native.Mathlib.Nat.{suc-add}
use appimagetool.Base.{
  ℕ, zero, suc, ◌+◌, ◌%◌, ◌^◌, ◌<◌, ◌≡◌, refl, sym, ap, ◌∙◌, Bool, true, false, not, Option, none,
  some, List, [], ◌∷◌, ◌++◌, append_assoc, append-nil, arith, ◌==◌, if◌then◌else◌, le→ltb, ==_iff,
  length, drop, replicate, length-replicate, Bytes,
}
use appimagetool.Fetch.{
  Curl, Session, Thrown, fine, curl_exception, runtime_error, faulted, get_option, write_stuff,
  CurlResponse, Fetched, not_fetched, copy_into, give_copy, take_response, perform,
}
use appimagetool.Fetch.Ready.{Ends, Ends->>=, IsLeft}

-- The pieces one behind the other.
abbrev pub joined : List Bytes → Bytes
joined [] = []
joined (piece ∷ pieces) = piece ++ joined pieces

pub write_stuff_lem :
    (pieces : List Bytes) (buffer : Bytes) → write_stuff pieces buffer ≡ buffer ++ joined pieces
unfolding write_stuff
write_stuff_lem [] buffer = sym (append-nil buffer)
write_stuff_lem (piece ∷ pieces) buffer =
    write_stuff_lem pieces (buffer ++ piece) ∙ append_assoc buffer piece (joined pieces)

drop-replicate : (n : ℕ) → drop n (replicate {A = ℕ} (n + 1) 0) ≡ 0 ∷ []
drop-replicate zero = refl
drop-replicate (suc n) = rw (suc-add n 1) (drop-replicate n)

-- The copy of the data in a buffer that is one byte longer.
pub copy_into_lem :
    (bytes : Bytes)
    → length bytes + 1 < 2 ^ 64
    → copy_into bytes (replicate ((length bytes + 1) % 2 ^ 64) 0) ≡ some (bytes ++ (0 ∷ []))
unfolding copy_into
copy_into_lem bytes small =
    let n = length bytes in
    let exact : (n + 1) % 2 ^ 64 ≡ n + 1 = omega arith in
    let room : length (replicate {A = ℕ} (n + 1) 0) ≡ n + 1 = length-replicate {A = ℕ} (n + 1) 0 in
    rw exact (rw (room, le→ltb (n + 1) n (omega arith), drop-replicate n) refl)

-- A response that is taken.
pub record IsTaken (r : CurlResponse) (f : Fetched) : Type 0 where
  pub success : r.success ≡ true
  pub status : r.status_code ≡ 200
  pub announced : r.content_length ≡ length r.received
  pub size : f.size ≡ some (length r.received)
  pub content : f.buffer ≡ some (r.received ++ (0 ∷ []))

abbrev pub Taken : CurlResponse → Thrown Fetched → Type 0
Taken r (fine f) = f.returns ≡ true → IsTaken r f
Taken r curl_exception = Unit {0}
Taken r runtime_error = Unit {0}
Taken r faulted = ⊥

-- A test that ends the function with false.
Taken-if :
    (r : CurlResponse) (b : Bool) (f : Fetched) (t : Thrown Fetched)
    → f.returns ≡ false
    → (b ≡ true → Taken r t)
    → Taken r (if not b then fine f else t)
Taken-if r true f t is_no k = k refl
Taken-if r false f t is_no k = λ h. ground arith

give_copy-Taken :
    (r : CurlResponse) (n : ℕ) (copy : Option Bytes)
    → r.status_code ≡ 200
    → r.success ≡ true
    → r.content_length ≡ length r.received
    → copy ≡ some (r.received ++ (0 ∷ []))
    → n ≡ r.content_length
    → Taken r (give_copy n copy)
give_copy-Taken r n none status success announced e same = ground arith
give_copy-Taken r n (some bytes) status success announced e same = λ h. record {
  success = success;
  status = status;
  announced = announced;
  size = ap some (same ∙ announced);
  content = e;
}

pub take_response-Taken :
    (allocates : ℕ → Bool) (r : CurlResponse)
    → length r.received + 1 < 2 ^ 64
    → Taken r (take_response allocates r)
unfolding take_response
take_response-Taken allocates r small =
    Taken-if r (r.status_code == 200) not_fetched _ refl (λ status.
      Taken-if r r.success not_fetched _ refl (λ success.
        Taken-if r (length r.received == r.content_length) not_fetched _ refl (λ announced.
          Taken-if r (allocates ((r.content_length + 1) % 2 ^ 64))
            (record { returns = false; size = some r.content_length; buffer = none }) _ refl
            (λ allocated.
              let same : r.content_length ≡ length r.received =
                sym ((==_iff (length r.received) r.content_length).0 announced) in
              give_copy-Taken r r.content_length _ ((==_iff r.status_code 200).0 status) success
                same
                (ap (λ n. copy_into r.received (replicate ((n + 1) % 2 ^ 64) 0)) same
                  ∙ copy_into_lem r.received small)
                refl))))

-- What `perform` makes of the answers of libcurl.
pub record IsAnswer (c : Curl) (s : Session) (r : CurlResponse) (s' : Session) : Type 0 where
  pub answered : c.response_code ≡ some r.status_code
  pub lengthy : c.content_length_download ≡ some r.content_length
  pub result : c.perform s.settings ≡ (r.success, (c.perform s.settings).1)
  pub pieces_joined : r.received ≡ write_stuff (c.perform s.settings).1 s.buffer
  pub same_inits : s'.inits ≡ s.inits
  pub same_handles : s'.handles ≡ s.handles

get_option-Ends :
    {A : Type 0} (o : Option A) (s : Session) (X : Session → Type 0)
    → X s
    → Ends (λ a s'. (o ≡ some a) × (s' ≡ s)) X (get_option o s)
unfolding get_option
get_option-Ends none s X x = x
get_option-Ends (some a) s X x = (refl, refl)

pub perform-IsAnswer :
    (c : Curl) (s : Session) → Ends (IsAnswer c s) (IsLeft s.inits s.handles) (perform c s)
unfolding perform
perform-IsAnswer c s =
    let s1 : Session = record s { buffer = write_stuff (c.perform s.settings).1 s.buffer } in
    let X = IsLeft s.inits s.handles in
    Ends->>= (λ status s'. (c.response_code ≡ some status) × (s' ≡ s1)) (IsAnswer c s) X
      (get_option c.response_code) _ s1 (get_option-Ends c.response_code s1 X (refl, refl))
      (λ status s2 (answered, same).
        Ends->>= (λ n s'. (c.content_length_download ≡ some n) × (s' ≡ s2)) (IsAnswer c s) X
          (get_option c.content_length_download) _ s2
          (get_option-Ends c.content_length_download s2 X
            (ap (λ t. t.inits) same, ap (λ t. t.handles) same))
          (λ n s3 (lengthy, same3). record {
            answered = answered;
            lengthy = lengthy;
            result = refl;
            pieces_joined = refl;
            same_inits = ap (λ t. t.inits) (same3 ∙ same);
            same_handles = ap (λ t. t.handles) (same3 ∙ same);
          }))
