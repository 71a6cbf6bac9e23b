-- ===== src/Squashfs/Laws.antt =====
-- src/appimagetool.c, `sfs_mksquashfs`: the argument array is large enough, and what it holds.
use appimagetool.Base.{
  ℕ, suc, ◌+◌, ◌*◌, ◌/◌, ◌%◌, ◌≤◌, ◌<◌, ◌≡◌, refl, ap, Bool, true, false, Option, none, some, List,
  [], ◌∷◌, ◌++◌, map, append_assoc, arith, ◌==◌, length, length-append, Bytes, codes,
}
use appimagetool.Squashfs.{
  Request, compression, compression_args, ignore_args, exclude_args, time_args, mksquashfs_args,
  max_num_args, parent_succeeds,
}

length-map {ℓ κ} :
    {A : Type ℓ} {B : Type κ} (f : A → B) (xs : List A) → length (map f xs) ≡ length xs
length-map f [] = refl
length-map f (x ∷ xs) = ap suc (length-map f xs)

length-compression_args : (comp : Bytes) → length (compression_args comp) ≤ 4
unfolding compression_args
length-compression_args comp = ground arith

length-ignore_args : (b : Bool) → length (ignore_args b) ≤ 3
unfolding ignore_args
length-ignore_args true = omega arith
length-ignore_args false = omega arith

length-time_args : (e : Option Bytes) → length (time_args e) ≤ 2
unfolding time_args
length-time_args none = omega arith
length-time_args (some _) = omega arith

length-exclude_args :
    (e : Option Bytes) (b : Bool) (xs : List Bytes) → exclude_args e b ≡ some xs → length xs ≤ 3
unfolding exclude_args
length-exclude_args none b xs h = ground arith
length-exclude_args (some []) b xs h = ground arith
length-exclude_args (some (c ∷ file)) true xs h = ground arith
length-exclude_args (some (c ∷ file)) false xs h = ground arith

-- What stands before the options of the user.
abbrev fixed_part : Request → List Bytes → List Bytes
fixed_part r exclude =
    (r.program
      ∷ r.source
      ∷ r.destination
      ∷ codes "-offset"
      ∷ r.offset_string
      ∷ codes "-comp"
      ∷ compression r.sqfs_comp
      ∷ codes "-root-owned"
      ∷ codes "-noappend"
      ∷ [])
    ++ (compression_args (compression r.sqfs_comp)
        ++ (ignore_args r.ignore_file_exists ++ (exclude ++ time_args r.source_date_epoch)))

length-fixed_part :
    (r : Request) (exclude : List Bytes) → length exclude ≤ 3 → length (fixed_part r exclude) ≤ 21
length-fixed_part r exclude h =
    let comp = compression_args (compression r.sqfs_comp) in
    let ignore = ignore_args r.ignore_file_exists in
    let time = time_args r.source_date_epoch in
    omega (
      arith,
      length-append comp (ignore ++ (exclude ++ time)),
      length-append ignore (exclude ++ time),
      length-append exclude time,
      length-compression_args (compression r.sqfs_comp),
      length-ignore_args r.ignore_file_exists,
      length-time_args r.source_date_epoch,
    )

args-eq-fixed :
    (r : Request) (exclude : List Bytes)
    → exclude_args r.exclude_file r.exclude_file_exists ≡ some exclude
    → mksquashfs_args r ≡ some (map some (fixed_part r exclude ++ r.sqfs_opts) ++ (none ∷ []))
unfolding mksquashfs_args
args-eq-fixed r exclude h = rw h (simp append_assoc)

-- Unless the exclude file is missing, the arguments are at most as many as the array `args` has
-- room for, its null included; the options that the user passes through stand last, in their order,
-- and the one null stands behind them.
pub mksquashfs_args_lem :
    (r : Request) (exclude : List Bytes)
    → exclude_args r.exclude_file r.exclude_file_exists ≡ some exclude
    → (front : List Bytes) × (mksquashfs_args r
        ≡ some (map some (front ++ r.sqfs_opts) ++ (none ∷ [])))
      × (length (map some (front ++ r.sqfs_opts) ++ (none ∷ [])) ≤ max_num_args r)
unfolding max_num_args
mksquashfs_args_lem r exclude h =
    let front = fixed_part r exclude in
    (
      front,
      args-eq-fixed r exclude h,
      omega (
        arith,
        length-append (map some (front ++ r.sqfs_opts)) (none ∷ []),
        length-map {A = Bytes} some (front ++ r.sqfs_opts),
        length-append front r.sqfs_opts,
        length-fixed_part r exclude
            (length-exclude_args r.exclude_file r.exclude_file_exists exclude h),
      ),
    )

-- The parent looks at the exit code alone: it takes the child for successful exactly if the code is
-- 0, whatever signal ended the child. The status has the code in its second byte and the signal in
-- its first.
pub parent_ignores_signal :
    (code signal : ℕ)
    → code < 256
    → signal < 256
    → parent_succeeds (some (code * 256 + signal)) ≡ (code == 0)
unfolding parent_succeeds
parent_ignores_signal code signal a b =
    let e : (code * 256 + signal) / 256 % 256 ≡ code = omega arith in rw e
