-- ===== src/Squashfs/Tests.antt =====
-- src/appimagetool.c, `sfs_mksquashfs`: a command line.
use appimagetool.Base.{
  ◌%◌, ◌^◌, ◌≤◌, ◌≡◌, refl, true, none, some, List, [], ◌∷◌, ◌++◌, map, arith, length, Bytes, codes,
}
use appimagetool.Squashfs.{decimal, print_int, Request, exclude_args, mksquashfs_args, max_num_args}
use appimagetool.Squashfs.Offset.{number_of, number_of-print_int}
use appimagetool.Squashfs.Laws.{mksquashfs_args_lem}

-- Every option at once: the array is full.
abbrev full_request : Request
full_request = record {
  program = codes "mksquashfs";
  source = codes "App.AppDir";
  destination = codes "App.AppImage";
  offset_string = codes "944632";
  sqfs_comp = some (codes "xz");
  sqfs_opts = codes "-no-xattrs" ∷ [];
  ignore_file_exists = true;
  exclude_file = some (codes "exclude.list");
  exclude_file_exists = true;
  source_date_epoch = none;
}

mksquashfs_args_lem_example :
    (front : List Bytes) × (mksquashfs_args full_request
      ≡ some (map some (front ++ full_request.sqfs_opts) ++ (none ∷ [])))
    × (length (map some (front ++ full_request.sqfs_opts) ++ (none ∷ []))
        ≤ max_num_args full_request)
mksquashfs_args_lem_example =
    mksquashfs_args_lem full_request (codes "-wildcards" ∷ codes "-ef" ∷ codes "exclude.list" ∷ [])
      (unfold exclude_args in refl)

number_of-print_int_example : number_of 0 (print_int (193728 % 2 ^ 32)) ≡ 193728
number_of-print_int_example = number_of-print_int 193728 (omega arith)

-- A size from 2^31 on is given as a negative number.
negative_offset : print_int (2 ^ 31 % 2 ^ 32) ≡ codes "-2147483648"
unfolding print_int decimal
negative_offset = refl
