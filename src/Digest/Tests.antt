-- ===== src/Digest/Tests.antt =====
-- src/digest.c: runs on a small file of three chunks.
use appimagetool.Base.{
  ◌+◌, ◌/◌, ◌≡◌, refl, inl, some, List, ◌++◌, arith, length, replicate, All, Bytes,
}
use mathlib.Core.List.{foldl}
use appimagetool.Elf.Sample.{
  before_digest, no_digest_yet, behind_digest, digest_section, signature_section, key_section,
}
use appimagetool.Digest.{chunk_size, digest_md5}
use appimagetool.Digest.Sample.{toy, fresh_stack, length-fresh_stack, sample-IsPlaced, sample_small}
use appimagetool.Digest.Bounds.{digest_md5_total}
use appimagetool.Digest.Changed.{with_old, with_new}
use appimagetool.Digest.Ignores.{digest_md5_ignores}

abbrev sample_file : Bytes
sample_file = before_digest ++ (no_digest_yet ++ behind_digest)

digest_md5_total_example :
    (blocks : List Bytes) × (digest_md5 toy sample_file digest_section signature_section key_section
        fresh_stack
      ≡ some (some (toy.finalise (foldl toy.update toy.initialise blocks))))
    × All (λ block. length block ≡ chunk_size) blocks
    × (length blocks ≡ (length sample_file + 4095) / chunk_size)
digest_md5_total_example =
    digest_md5_total toy sample_file digest_section signature_section key_section fresh_stack
      (omega arith) (omega arith) (omega arith) length-fresh_stack

digest_md5_ignores_example :
    digest_md5 toy
      (with_old before_digest no_digest_yet (replicate 16 255) behind_digest refl)
      digest_section
      signature_section
      key_section
      fresh_stack
    ≡ digest_md5 toy
        (with_new before_digest no_digest_yet (replicate 16 255) behind_digest refl)
        digest_section
        signature_section
        key_section
        fresh_stack
digest_md5_ignores_example =
    digest_md5_ignores toy before_digest no_digest_yet (replicate 16 255) behind_digest refl
      digest_section digest_section signature_section key_section fresh_stack sample-IsPlaced
      (inl refl) refl refl (omega arith) (omega arith) (omega arith) length-fresh_stack sample_small
