-- ===== src/Squashfs.antt =====
-- src/appimagetool.c, `sfs_mksquashfs`: the command line of the child process, and what the parent
-- makes of the child's exit status.
pub mod Laws
pub mod Offset
mod Tests
use appimagetool.Base.{
  ℕ, zero, suc, ◌+◌, ◌-◌, ◌/◌, ◌%◌, ◌^◌, Bool, true, false, Option, none, some, List, [], ◌∷◌, ◌++◌,
  map, ltb, ◌==◌, if◌then◌else◌, length, Bytes, codes, str_eq, ◌>>=◌,
}

-- The decimal digits of a number that has at most so many.
unfoldable pub decimal : ℕ → ℕ → Bytes
decimal zero n = []
decimal (suc places) n =
    let front = decimal places (n / 10) in
    if ltb n 10 then (b'0' + n) ∷ [] else front ++ ((b'0' + n % 10) ∷ [])

-- `g_strdup_printf("%i", offset)` for an `int`, whose 32-bit pattern is the argument.
unfoldable pub print_int : ℕ → Bytes
print_int n = if ltb n (2 ^ 31) then decimal 10 n else b'-' ∷ decimal 10 (2 ^ 32 - n)

-- What the function reads from its arguments, the options of the command line and the system.
pub record Request : Type 0 where
  pub program : Bytes
  pub source : Bytes
  pub destination : Bytes
  pub offset_string : Bytes
  pub sqfs_comp : Option Bytes
  pub sqfs_opts : List Bytes
  pub ignore_file_exists : Bool
  pub exclude_file : Option Bytes
  pub exclude_file_exists : Bool
  pub source_date_epoch : Option Bytes

-- The compression, `zstd` if none is given.
abbrev pub compression : Option Bytes → Bytes
compression none = codes "zstd"
compression (some comp) = comp

-- The arguments for one compression.
unfoldable pub compression_args : Bytes → List Bytes
compression_args comp =
    if str_eq comp (codes "xz")
    then codes "-Xdict-size" ∷ codes "100%" ∷ codes "-b" ∷ codes "16384" ∷ []
    else if str_eq comp (codes "zstd")
    then codes "-b" ∷ codes "128K" ∷ []
    else []

unfoldable pub ignore_args : Bool → List Bytes
ignore_args true = codes "-wildcards" ∷ codes "-ef" ∷ codes ".appimageignore" ∷ []
ignore_args false = []

-- `none` is the early `return -1` of the child.
unfoldable pub exclude_args : Option Bytes → Bool → Option (List Bytes)
exclude_args none exists = some []
exclude_args (some []) exists = some []
exclude_args (some (c ∷ file)) true = some (codes "-wildcards" ∷ codes "-ef" ∷ (c ∷ file) ∷ [])
exclude_args (some (c ∷ file)) false = none

unfoldable pub time_args : Option Bytes → List Bytes
time_args none = codes "-mkfs-time" ∷ codes "0" ∷ []
time_args (some _) = []

-- The array `args` with its null at the end; the index `i` is always the length so far.
unfoldable pub mksquashfs_args : Request → Option (List (Option Bytes))
mksquashfs_args r = do
  let comp = compression r.sqfs_comp
  let start =
      r.program
      ∷ r.source
      ∷ r.destination
      ∷ codes "-offset"
      ∷ r.offset_string
      ∷ codes "-comp"
      ∷ comp
      ∷ codes "-root-owned"
      ∷ codes "-noappend"
      ∷ []
  exclude ← exclude_args r.exclude_file r.exclude_file_exists
  some (
      map some (
        start
        ++ (compression_args comp
            ++ (ignore_args r.ignore_file_exists
                ++ (exclude ++ (time_args r.source_date_epoch ++ r.sqfs_opts)))))
      ++ (none ∷ []))

-- `max_num_args`
unfoldable pub max_num_args : Request → ℕ
max_num_args r = length r.sqfs_opts + 22

-- What `waitpid` gives the parent: an error, or the child's status.
unfoldable pub parent_succeeds : Option ℕ → Bool
parent_succeeds none = false
parent_succeeds (some status) = status / 256 % 256 == 0

-- The whole function: `run` executes the command in the child, and gives what the parent's `waitpid`
-- gives, with `none` where that or `fork` fails, and the file that is left. A child that finds the exclude file missing returns to `main` and
-- dies there with exit code 1. The result is the file where the function returns 0.
unfoldable pub sfs_mksquashfs : (List (Option Bytes) → Option ℕ × Bytes) → Request → Option Bytes
sfs_mksquashfs run r = elim (mksquashfs_args r) [
  | none ↦ none
  | some args ↦ if parent_succeeds (run args).0 then some (run args).1 else none
]
