-- ===== src/Stringtab/Tests.antt =====
-- Runs at small tables.
use stirmake.Prelude.{zero, suc, ◌≡◌, refl, List, [], ◌∷◌, arith}
use stirmake.Canon.{Bytes}
use stirmake.Stringtab.{stringtab_get, stringtab_add_len}
use stirmake.Stringtab.Laws.{
  IsAdded, IsDistinct, stringtab_add_len-IsAdded, stringtab_add_len-IsDistinct,
}

abbrev table : List Bytes
table = (b'a' ∷ []) ∷ (b'a' ∷ b'b' ∷ []) ∷ []

table-IsDistinct : IsDistinct table
unfolding stringtab_get
table-IsDistinct zero l = refl
table-IsDistinct (suc zero) l = refl
table-IsDistinct (suc (suc k)) l = absurd (omega arith)

stringtab_add_len-IsAdded_example : IsAdded table (b'b' ∷ []) (stringtab_add_len table (b'b' ∷ []))
stringtab_add_len-IsAdded_example = stringtab_add_len-IsAdded table (b'b' ∷ [])

stringtab_add_len-IsDistinct_example : IsDistinct (stringtab_add_len table (b'b' ∷ [])).1
stringtab_add_len-IsDistinct_example =
    stringtab_add_len-IsDistinct table (b'b' ∷ []) table-IsDistinct

-- A string that is there keeps its index.
add_again : stringtab_add_len table (b'a' ∷ b'b' ∷ []) ≡ (1, table)
unfolding stringtab_add_len
add_again = refl
