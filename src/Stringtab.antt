-- ===== src/Stringtab.antt =====
-- stirc/stringtab.c: the table sttable of strings and their search. The table is the list of its
-- strings in use; the hash values and search trees over it are an index. Growing the table succeeds.
pub mod Laws
mod Tests
use stirmake.Prelude.{
  ℕ, suc, if◌then◌else◌, Bool, true, false, Option, none, some, List, [], ◌∷◌, ◌++◌, length, str_eq,
}
use stirmake.Canon.{Bytes}

-- The index of a string, counted from `i`.
unfoldable pub find_string : List Bytes → Bytes → ℕ → Option ℕ
unfolding str_eq
find_string [] s i = none
find_string (t ∷ ts) s i = if str_eq t s then some i else find_string ts s (suc i)

-- `none` stands for (mysize_t)-1.
unfoldable pub stringtab_get : List Bytes → Bytes → Option ℕ
unfolding find_string
stringtab_get sttable symbol = find_string sttable symbol 0

-- The index and the table after the call.
unfoldable pub stringtab_add_len : List Bytes → Bytes → ℕ × List Bytes
unfolding find_string
stringtab_add_len sttable symbol = elim (find_string sttable symbol 0) [
  | some i ↦ (i, sttable)
  | none ↦ (length sttable, sttable ++ symbol ∷ [])
]
