-- ===== src/Sign/Signers.antt =====
-- src/appimagetool_sign.c, `add_signers`: what is held when it returns.
use appimagetool.Base.{ap, true, false, Option, none, some, Bytes}
use appimagetool.Sign.Run.{acquire, Settings, World}
use appimagetool.Sign.Steps.{Gpgme, hold_key, find_key, add_signers}
use appimagetool.Sign.Done.{HoldsNothing, At, Ends, Ends->>=, gpg_check_call-then, checked-then}

module _ (gpg : Gpgme) (file : Bytes) (s : Settings) where
  hold_key-At :
      (k : gpg.Key) (w : World)
      → At true false false false false file s w
      → At true false false true false file s (record w { gpgme_key = acquire w.gpgme_key })
  hold_key-At k w at = record {
    holds = record {
      ctx_slot = at.holds.ctx_slot;
      file_data_slot = at.holds.file_data_slot;
      sig_data_slot = at.holds.sig_data_slot;
      key_slot = ap acquire at.holds.key_slot;
      key_data_slot = at.holds.key_data_slot;
    };
    file_is = at.file_is;
    settings_are = at.settings_are;
  }

  find_key-Ends :
      (key_id : Option Bytes) (w : World)
      → At true false false false false file s w
      → Ends
          (λ _. HoldsNothing)
          (λ _ w'. At true false false true false file s w')
          (find_key gpg key_id w)
  unfolding find_key
  find_key-Ends (some key_id) w at =
      checked-then (λ _. HoldsNothing) (λ w' h. h) _ (gpg.get_key key_id) (hold_key gpg) true false
        false false false w at.holds (λ k _. hold_key-At k w at)
  find_key-Ends none w at =
      gpg_check_call-then (λ _. HoldsNothing) (λ w' h. h) _ gpg.keylist_start _ true false false
        false false w at.holds
        (checked-then (λ _. HoldsNothing) (λ w' h. h) _ gpg.keylist_next (hold_key gpg) true false
          false false false w at.holds (λ k _. hold_key-At k w at))

  -- The function finds a key, or returns false with nothing held.
  pub add_signers-Ends :
      (key_id : Option Bytes) (w : World)
      → At true false false false false file s w
      → Ends
          (λ _. HoldsNothing)
          (λ _ w'. At true false false true false file s w')
          (add_signers gpg key_id w)
  unfolding add_signers
  add_signers-Ends key_id w at =
      Ends->>= (λ _. HoldsNothing) (λ _ w'. At true false false true false file s w')
        (λ _ w'. At true false false true false file s w') (find_key gpg key_id) _ w
        (find_key-Ends key_id w at)
        (λ k w' at'.
          gpg_check_call-then (λ _. HoldsNothing) (λ w' h. h) _ (gpg.signers_add k) _ true false
            false true false w' at'.holds at')
