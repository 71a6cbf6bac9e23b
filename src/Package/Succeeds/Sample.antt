-- ===== src/Package/Succeeds/Sample.antt =====
-- src/appimagetool.c, `main`: a system on which all succeeds, with a key whose
-- signatures are all alike.
use appimagetool.Base.{◌≡◌, refl, true, false, none, some, [], ◌∷◌, arith, Bytes, codes}
use appimagetool.UpdateInfo.{is_recognised}
use appimagetool.Squashfs.{exclude_args}
use appimagetool.Sign.Steps.{unparsed, parsed, Gpgme}
use appimagetool.Sign.Agreed.{IsAgreed}
use appimagetool.Sign.Sealed.Sample.{object_of, constant, agreeable, good_source, disk_of}
use appimagetool.Package.{next, Signer, System, decide_update_information}
use appimagetool.Package.Sample.{key_owner, roomy_system, signing_options, sample_places}
use appimagetool.Package.Able.{Hashes, Signs, Fits, IsAble}

abbrev pub always_alike : Gpgme
always_alike = record agreeable { op_sign = λ s k text. some (object_of (codes "abcd")) }

abbrev pub owner : Signer
owner = record key_owner {
  gcrypt = constant;
  gpgme = always_alike;
  sig_disk = disk_of 4;
  key_disk = disk_of 5;
}

abbrev pub owned_system : System
owned_system = record roomy_system { signer = owner }

pub always_alike-IsAgreed :
    IsAgreed always_alike none
      (codes "first")
      (record { matches = false; version = unparsed }
        ∷ record { matches = true; version = parsed 2 4 }
        ∷ [])
      (record { matches = true; version = parsed 2 4 })
      4
always_alike-IsAgreed = record {
  is_new_enough = refl;
  has_context = refl;
  has_engines = refl;
  has_engine = refl;
  has_version = refl;
  has_flag = refl;
  has_key = (refl, refl);
  has_signer = refl;
  has_text = λ text. refl;
  has_sig_data = refl;
  has_one = refl;
  has_key_data = refl;
}

constant-Hashes : Hashes constant good_source
constant-Hashes = record {
  law = record { write-append = λ h a b. refl };
  handle = tt;
  opened = refl;
  done = λ h. h;
  finals = λ h. refl;
  digest = λ h. 171 ∷ 205 ∷ [];
  reads = λ h. refl;
  sized = λ h. refl;
  bytes = λ h. (omega arith, (omega arith, tt));
  opens = refl;
  well = refl;
  closes = refl;
}

pub owner-Signs : Signs owner false sample_places
owner-Signs = record {
  key = codes "first";
  engines =
      record { matches = false; version = unparsed }
      ∷ record { matches = true; version = parsed 2 4 }
      ∷ [];
  engine = record { matches = true; version = parsed 2 4 };
  minor = 4;
  agreed = always_alike-IsAgreed;
  fuel = 7;
  enough = refl;
  hashes = constant-Hashes;
  made = λ text. object_of (codes "abcd");
  signs = λ text. refl;
  delivers = λ text. record {
    content = codes "abcd";
    first = refl;
    second = refl;
    some_bytes = omega arith;
    all = refl;
    room = omega arith;
    stack_size = refl;
    rewinds = refl;
    opens = refl;
    written = refl;
    closes = refl;
  };
  exported = object_of (codes "first");
  exports = refl;
  delivers_key = record {
    content = codes "first";
    first = refl;
    second = refl;
    some_bytes = omega arith;
    all = refl;
    room = omega arith;
    stack_size = refl;
    rewinds = refl;
    opens = refl;
    written = refl;
    closes = refl;
  };
}

none_excluded : exclude_args none false ≡ some []
unfolding exclude_args
none_excluded = refl

pub owned_system-IsAble : IsAble owned_system signing_options 8396
owned_system-IsAble = record {
  exclude = [];
  exclude_known = none_excluded;
  squashes = λ args. refl;
  bounded = λ args. omega arith;
  opens = refl;
  room = omega arith;
  chmods = refl;
  update_opens = refl;
  digest_opens = refl;
  digest_space = omega arith;
  zsyncmake_starts = refl;
  zsyncmake_succeeds = refl;
}

abbrev pub given : Bytes
given = codes "zsync|https://a.b/App.zsync"

pub given_decided :
    decide_update_information owned_system signing_options
      (codes "AppDir")
      (codes "App.AppImage")
      (codes "App")
      (codes "x86_64")
    ≡ next (some given)
unfolding decide_update_information
given_decided = refl

pub given-Fits : Fits owned_system sample_places (some given)
unfolding is_recognised
given-Fits = (refl, omega arith, omega arith, omega arith, omega arith)
