-- ===== src/Replace.antt =====
-- src/appimagetool.c, `replacestr`: replace a text in a string in place, again and again.
pub mod Laws
mod Tests
use appimagetool.Base.{
  ℕ, zero, suc, ◌+◌, Option, none, some, ◌++◌, length, take, drop, Bytes, strstr,
}

-- One replacement at index `k`: the `memmove` of the tail and the `memcpy` of the replacement.
unfoldable pub splice : Bytes → ℕ → Bytes → Bytes → Bytes
splice line k search replace = take k line ++ (replace ++ drop (k + length search) line)

-- The recursion, with fuel for its depth; `none` means that it has not ended by then.
unfoldable pub replacestr : ℕ → Bytes → Bytes → Bytes → Option Bytes
unfolding splice
replacestr zero line search replace = none
replacestr (suc fuel) line search replace = elim (strstr line search) [
  | none ↦ some line
  | some k ↦
      let line' = splice line k search replace in
      elim (strstr line' search) [
        | none ↦ some line'
        | some _ ↦ replacestr fuel line' search replace
      ]
]
