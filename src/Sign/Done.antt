-- ===== src/Sign/Done.antt =====
-- src/appimagetool_sign.c, `sign_appimage`: what holds when the function returns.
use appimagetool.Base.{
  ℕ, ◌≡◌, refl, ap, ◌∙◌, inl, inr, Bool, true, false, not, Option, none, some, ◌==◌, if◌then◌else◌,
  Bool-cases, Bytes,
}
use appimagetool.Sign.{Report, succeeded}
use appimagetool.Sign.Run.{
  Slot, release, Settings, World, gpg_release_resources, Outcome, ok, returned, exited, faulted,
  Run, continue_with, ◌>>=◌, ◌>>◌, gpg_check_call, checked,
}
use appimagetool.Sign.Steps.{
  EngineVersion, null_version, unparsed, parsed, Engine, check_engine_version, check_engine,
  after_embedding, assert_key, check_sign_result,
}

-- A slot that nothing went wrong with, held or not.
abbrev pub slot : Bool → Slot
slot true = record { held = true; live = 1; broken = false }
slot false = record { held = false; live = 0; broken = false }

-- Which of the five resources are held; none is lost, and none was released twice.
pub record Holds (ctx file_data sig_data key key_data : Bool) (w : World) : Type 0 where
  pub ctx_slot : w.gpgme_ctx ≡ slot ctx
  pub file_data_slot : w.gpgme_appimage_file_data ≡ slot file_data
  pub sig_data_slot : w.gpgme_sig_data ≡ slot sig_data
  pub key_slot : w.gpgme_key ≡ slot key
  pub key_data_slot : w.gpgme_key_data ≡ slot key_data

abbrev pub HoldsNothing : World → Type 0
HoldsNothing = Holds false false false false false

release-slot : (b : Bool) → release (slot b) ≡ slot false
release-slot true = refl
release-slot false = refl

-- `gpg_release_resources` releases what is held, whatever that is.
pub gpg_release_resources-HoldsNothing :
    (a b c d e : Bool) (w : World) → Holds a b c d e w → HoldsNothing (gpg_release_resources w)
unfolding gpg_release_resources
gpg_release_resources-HoldsNothing a b c d e w h = record {
  ctx_slot = ap release h.ctx_slot ∙ release-slot a;
  file_data_slot = ap release h.file_data_slot ∙ release-slot b;
  sig_data_slot = ap release h.sig_data_slot ∙ release-slot c;
  key_slot = ap release h.key_slot ∙ release-slot d;
  key_data_slot = ap release h.key_data_slot ∙ release-slot e;
}

module _ (F : Bool → World → Type 0) where
  -- A value comes with `Q`, an early return with `F`.
  abbrev pub Ends : {A : Type 0} → (A → World → Type 0) → Outcome A × World → Type 0
  Ends Q (ok a, w) = Q a w
  Ends Q (returned b, w) = F b w
  Ends Q (exited, w) = Unit {0}
  Ends Q (faulted, w) = Unit {0}

  Ends-continue_with :
      {A B : Type 0} (Q : A → World → Type 0) (R : B → World → Type 0) (f : A → Run B)
      (r : Outcome A) (w : World)
      → Ends Q (r, w)
      → ((a : A) (w' : World) → Q a w' → Ends R (f a w'))
      → Ends R (continue_with f r w)
  Ends-continue_with Q R f (ok a) w h k = k a w h
  Ends-continue_with Q R f (returned b) w h k = h
  Ends-continue_with Q R f exited w h k = tt
  Ends-continue_with Q R f faulted w h k = tt

  pub Ends->>= :
      {A B : Type 0} (Q : A → World → Type 0) (R : B → World → Type 0) (m : Run A) (f : A → Run B)
      (w : World)
      → Ends Q (m w)
      → ((a : A) (w' : World) → Q a w' → Ends R (f a w'))
      → Ends R ((m >>= f) w)
  Ends->>= Q R m f w h k = Ends-continue_with Q R f ((m w).0) ((m w).1) h k

-- The resources that are held, the file, and the settings.
pub record At (ctx file_data sig_data key key_data : Bool) (file : Bytes) (settings : Settings)
    (w : World) : Type 0 where
  pub holds : Holds ctx file_data sig_data key key_data w
  pub file_is : w.file ≡ file
  pub settings_are : w.settings ≡ settings

module _ (F : Bool → World → Type 0) (gives_up : (w : World) → HoldsNothing w → F false w) where
  pub released :
      (a b c d e : Bool) (w : World) → Holds a b c d e w → F false (gpg_release_resources w)
  released a b c d e w h =
      gives_up (gpg_release_resources w) (gpg_release_resources-HoldsNothing a b c d e w h)

  -- A step of the function and then the rest of it.
  pub gpg_check_call-then :
      {B : Type 0} (R : B → World → Type 0) (test : Bool) (k : Run B) (a b c d e : Bool) (w : World)
      → Holds a b c d e w
      → Ends F R (k w)
      → Ends F R ((gpg_check_call test >> k) w)
  gpg_check_call-then R true k a b c d e w h q = q
  gpg_check_call-then R false k a b c d e w h q = released a b c d e w h

  pub checked-then :
      {A B : Type 0} (R : B → World → Type 0) (o : Option A) (k : A → Run B) (a b c d e : Bool)
      (w : World)
      → Holds a b c d e w
      → ((x : A) → o ≡ some x → Ends F R (k x w))
      → Ends F R ((checked o >>= k) w)
  checked-then R (some x) k a b c d e w h q = q x refl
  checked-then R none k a b c d e w h q = released a b c d e w h

  pub check_engine-then :
      {B : Type 0} (R : B → World → Type 0) (o : Option Engine) (k : Run B) (w : World)
      → Ends F R (k w)
      → Ends F R ((check_engine o >> k) w)
  unfolding check_engine
  check_engine-then R none k w q = tt
  check_engine-then R (some e) k w q = by_version e.version
    where
      by_version : (v : EngineVersion) → Ends F R ((check_engine_version v >> k) w)
      by_version null_version = tt
      by_version unparsed = q
      by_version (parsed major minor) = elim (Bool-cases (major == 2)) [
        | inl two ↦ rw two q
        | inr other ↦ rw other tt
      ]

  pub check_sign_result-then :
      {B : Type 0} (R : B → World → Type 0) (o : Option ℕ) (k : Run B) (w : World)
      → Ends F R (k w)
      → Ends F R ((check_sign_result o >> k) w)
  unfolding check_sign_result
  check_sign_result-then R none k w q = tt
  check_sign_result-then R (some n) k w q = elim (Bool-cases (n == 1)) [
    | inl one ↦ rw one q
    | inr other ↦ rw other tt
  ]

  pub checked-Ends :
      {A : Type 0} (Q : A → World → Type 0) (o : Option A) (a b c d e : Bool) (w : World)
      → Holds a b c d e w
      → ((x : A) → o ≡ some x → Q x w)
      → Ends F Q (checked o w)
  checked-Ends Q (some x) a b c d e w h q = q x refl
  checked-Ends Q none a b c d e w h q = released a b c d e w h

  pub assert_key-then :
      {B : Type 0} (R : B → World → Type 0) (k : Run B) (w : World)
      → Ends F R (k w)
      → Ends F R ((assert_key >> k) w)
  assert_key-then R k w q = by_held (w.gpgme_key.held)
    where
      by_held : (b : Bool) → Ends F R (((λ v. if b then (ok tt, v) else (faulted, v)) >> k) w)
      by_held true = q
      by_held false = tt

  -- The result of an embedding that released what was held exactly if it failed.
  pub after_embedding-Ends :
      (Q : Unit {0} → World → Type 0) (a b c d e : Bool) (r : Report) (w : World)
      → r.released ≡ not r.returns
      → Holds a b c d e w
      → (r ≡ succeeded r.file → Q tt (record w { file = r.file }))
      → Ends F Q (after_embedding (some r) w)
  after_embedding-Ends Q a b c d e r w balanced h q =
      by_report r.returns r.released r.file balanced q
    where
      by_report :
          (returns released : Bool) (f : Bytes)
          → released ≡ not returns
          → (◌≡◌ {A = Report}
                (record { returns = returns; released = released; file = f })
                (succeeded f)
              → Q tt (record w { file = f }))
          → Ends F Q (
              after_embedding
                (some (record { returns = returns; released = released; file = f }))
                w)
      by_report true false f balanced q = q refl
      by_report false true f balanced q =
          let written : World = record w { file = f } in
          let same : Holds a b c d e written = record {
            ctx_slot = h.ctx_slot;
            file_data_slot = h.file_data_slot;
            sig_data_slot = h.sig_data_slot;
            key_slot = h.key_slot;
            key_data_slot = h.key_data_slot;
          } in
          released false false false false false (gpg_release_resources written)
            (gpg_release_resources-HoldsNothing a b c d e written same)
      by_report true true f balanced q = absurd cc
      by_report false false f balanced q = absurd cc
