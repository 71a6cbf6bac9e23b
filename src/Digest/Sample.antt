-- ===== src/Digest/Sample.antt =====
-- What the tests of src/digest.c run on: a checksum in the place of MD5, the stack, and the sections
-- of a small file.
use appimagetool.Base.{
  ℕ, ◌+◌, ◌%◌, ◌<◌, ◌≡◌, refl, inr, [], ◌∷◌, ◌++◌, arith, length, replicate, length-replicate,
  Bytes,
}
use appimagetool.Elf.Sample.{
  before_digest, no_digest_yet, behind_digest, digest_section, signature_section, key_section,
}
use appimagetool.Digest.{Md5, chunk_size}
use appimagetool.Digest.Placed.{IsPlaced}

abbrev sum : ℕ → Bytes → ℕ
sum total [] = total
sum total (b ∷ bytes) = sum ((total + b) % 256) bytes

abbrev pub toy : Md5
toy = record { Context = ℕ; initialise = 0; update = sum; finalise = λ total. replicate 16 total }

abbrev pub fresh_stack : ℕ → Bytes
fresh_stack i = replicate chunk_size 0

pub length-fresh_stack : (i : ℕ) → length (fresh_stack i) ≡ chunk_size
length-fresh_stack i = length-replicate {A = ℕ} chunk_size 0

pub length-toy : (ctx : ℕ) → length (toy.finalise ctx) ≡ 16
length-toy ctx = refl

pub sample-IsPlaced : IsPlaced digest_section signature_section key_section
sample-IsPlaced = record {
  digest_ends = (omega arith, omega arith);
  signature_ends = (omega arith, omega arith);
  key_ends = (omega arith, omega arith);
  digest_signature = inr (inr (λ e. omega arith));
  digest_key = inr (inr (λ e. omega arith));
  signature_key = inr (inr (λ e. omega arith));
}

pub sample_small :
    length (before_digest ++ (no_digest_yet ++ behind_digest)) < 0x4000_0000_0000_0000
sample_small = omega (arith, length-replicate {A = ℕ} 8100 7)
