-- ===== src/Sign/Hash.antt =====
-- src/appimagetool_sign.c, `calculate_sha256_hex_digest`: the hash of a file, read in chunks of 4096
-- bytes, as a string of hexadecimal digits.
use appimagetool.Base.{
  ℕ, zero, suc, ◌+◌, ◌-◌, ◌*◌, ◌/◌, ◌≤◌, ◌<◌, ◌≡◌, sym, ap, ◌∙◌, inl, inr, Bool, true, false,
  Option, none, some, ◌++◌, arith, ltb, ◌==◌, if◌then◌else◌, ltb→lt, Bool-cases, length, take, drop,
  All, take-append-drop, length-take, length-drop, take_all, drop-drop, Bytes,
}
use appimagetool.Hexlify.{hexlify}
use appimagetool.Hexlify.Laws.{unhex, unhex-hexlify}

-- The functions of libgcrypt: whether its version is high enough, and those on a handle for SHA-256.
-- `open` and `final` are `none` where
-- `gpg_check_call` returns false, `read` is `none` for a null pointer.
pub record Gcrypt : Type 1 where
  pub Handle : Type 0
  pub check_version : Bool
  pub open_handle : Option Handle
  pub write : Handle → Bytes → Handle
  pub final : Handle → Option Handle
  pub read : Handle → Option Bytes
  pub digest_size : ℕ

-- Whether the file opens, at which read of it an error occurs, if one does, and whether it closes.
pub record Source : Type 0 where
  pub opens : Bool
  pub error_at : Option ℕ
  pub closes : Bool

abbrev pub read_size : ℕ
read_size = 4096

abbrev pub fails_at : Option ℕ → ℕ → Bool
fails_at none i = false
fails_at (some n) i = i == n

module _ (g : Gcrypt) (file : Bytes) (source : Source) where
  -- The loop: `feof` holds behind a read that gives fewer bytes than it asks for. The outer `none`
  -- means that the fuel ran out, the inner one that a read failed.
  unfoldable pub hash_loop : ℕ → ℕ → ℕ → g.Handle → Option (Option g.Handle)
  hash_loop zero i position handle = none
  hash_loop (suc fuel) i position handle =
      let got = take read_size (drop position file) in
      let handle' = g.write handle got in
      let rest = hash_loop fuel (i + 1) (position + length got) handle' in
      if fails_at source.error_at i
      then some none
      else if ltb (length got) read_size
      then some (some handle')
      else rest

  abbrev pub finish_hash : Option (Option g.Handle) → Option (Option Bytes)
  finish_hash none = none
  finish_hash (some none) = some none
  finish_hash (some (some handle)) =
      if source.closes
      then (elim (g.final handle) [
        | none ↦ some none
        | some final_handle ↦ elim (g.read final_handle) [
          | none ↦ some none
          | some digest ↦ elim (hexlify digest g.digest_size) [
            | none ↦ none
            | some text ↦ some (some text)
          ]
        ]
      ])
      else some none

  -- The whole function behind its first call, of `init_gcrypt`, which changes nothing that is read here.
  -- `none` is a fault, `some none` is the return of a null pointer.
  unfoldable pub calculate_sha256_hex_digest : Option (Option Bytes)
  calculate_sha256_hex_digest =
      if source.opens
      then (elim g.open_handle [
        | none ↦ some none
        | some handle ↦ finish_hash (hash_loop (length file / read_size + 1) 0 0 handle)
      ])
      else some none

-- Hashing piece by piece is hashing the whole.
pub record IsGcrypt (g : Gcrypt) : Type 0 where
  pub write-append : (h : g.Handle) (a b : Bytes) → g.write (g.write h a) b ≡ g.write h (a ++ b)

chunk_and_rest :
    (position n : ℕ) (file : Bytes)
    → n ≡ read_size
    → take read_size (drop position file) ++ drop (position + n) file ≡ drop position file
chunk_and_rest position n file e =
    let behind : drop (position + n) file ≡ drop n (drop position file) =
      sym (drop-drop n position file) in
    rw (behind, ← e) (take-append-drop n (drop position file))

-- Without an error of the disk the loop ends, having written every byte of the file from the position
-- on, in order.
hash_loop_total :
    (g : Gcrypt)
    → IsGcrypt g
    → (file : Bytes) (source : Source) (fuel i position : ℕ) (handle : g.Handle)
    → source.error_at ≡ none
    → position ≤ length file
    → length file - position < fuel * read_size
    → hash_loop g file source fuel i position handle
      ≡ some (some (g.write handle (drop position file)))
unfolding hash_loop
hash_loop_total g law file source zero i position handle well inside enough = absurd (omega arith)
hash_loop_total g law file source (suc f) i position handle well inside enough =
    let rest = drop position file in
    let got = take read_size rest in
    let size = length-take read_size rest in
    let size' = length-drop position file in
    elim (Bool-cases (ltb (length got) read_size)) [
      | inl short ↦
          let low : length got < read_size = ltb→lt (length got) read_size short in
          rw (well, short, take_all read_size rest (omega arith))
      | inr long ↦
          let high : length got ≡ read_size = ground arith in
          rw (well, long)
            (hash_loop_total g law file source f (i + 1) (position + length got)
                (g.write handle got) well (omega arith) (omega arith)
              ∙ ap some (
                  ap some (
                    law.write-append handle got (drop (position + length got) file)
                    ∙ ap (g.write handle) (chunk_and_rest position (length got) file high))))
    ]

-- If the file opens, no read of it fails and it closes, and the functions of libgcrypt work, the
-- function returns the digits of the hash of the whole file.
pub calculate_sha256_hex_digest_lem :
    (g : Gcrypt)
    → IsGcrypt g
    → (file : Bytes) (source : Source) (handle done : g.Handle) (digest : Bytes)
    → source.opens ≡ true
    → source.error_at ≡ none
    → source.closes ≡ true
    → g.open_handle ≡ some handle
    → g.final (g.write handle file) ≡ some done
    → g.read done ≡ some digest
    → length digest ≡ g.digest_size
    → All (λ b. b < 256) digest
    → (text : Bytes) × (calculate_sha256_hex_digest g file source ≡ some (some text))
      × (unhex text ≡ some digest)
unfolding calculate_sha256_hex_digest
calculate_sha256_hex_digest_lem g law file source handle done digest opens well closes opened
      final_ok read_ok size bytes =
    let (text, hexlified, long, back) = unhex-hexlify digest bytes in
    let loop =
      hash_loop_total g law file source (length file / read_size + 1) 0 0 handle well (omega arith)
        (omega arith) in
    (text, rw (opens, opened, loop, closes, final_ok, read_ok, ← size, hexlified), back)
