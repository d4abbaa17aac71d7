-- ===== src/Db.antt =====
-- stirc/db.c and its users in stirc/stirmake.c: the records of the commands that were run, and of
-- the times and sizes of files. A database is the list of its records in the order of its linked
-- list; the search trees of the abce library index the records of that list by their key.
pub mod Laws
mod Tests
use stirmake.Prelude.{
  ℕ, ◌==◌, if◌then◌else◌, Bool, true, false, not, ◌&&◌, ◌||◌, Option, none, some, List, [], ◌∷◌,
  ◌++◌, str_eq,
}
use stirmake.Canon.{Bytes}
use stirmake.Time.{Timespec, Sign, none_of_both, ts_cmp}

-- The commands of a rule, each with its arguments.
abbrev pub Cmd : Type 0
Cmd = List (List Bytes)

pub record Dbe : Type 0 where
  pub tgtidx : ℕ
  pub diridx : ℕ
  pub cmds : Cmd

pub record Tsdbe : Type 0 where
  pub stringtabidx : ℕ
  pub ts : Timespec
  pub tsnew : Timespec
  pub sz : ℕ
  pub sznew : ℕ
  pub seen : Bool

args_equal : List Bytes → List Bytes → Bool
unfolding str_eq
args_equal [] [] = true
args_equal [] (b ∷ bs) = false
args_equal (a ∷ as') [] = false
args_equal (a ∷ as') (b ∷ bs) = str_eq a b && args_equal as' bs

unfoldable pub cmd_equal : Cmd → Cmd → Bool
unfolding args_equal
cmd_equal [] [] = true
cmd_equal [] (b ∷ bs) = false
cmd_equal (a ∷ as') [] = false
cmd_equal (a ∷ as') (b ∷ bs) = args_equal a b && cmd_equal as' bs

unfoldable pub get_dbe : List Dbe → ℕ → Option Dbe
get_dbe [] k = none
get_dbe (e ∷ es) k = if e.tgtidx == k then some e else get_dbe es k

unfoldable pub maybe_del_dbe : List Dbe → ℕ → List Dbe
maybe_del_dbe [] k = []
maybe_del_dbe (e ∷ es) k = if e.tgtidx == k then es else e ∷ maybe_del_dbe es k

-- A record with the key is replaced; the new one goes to the tail.
unfoldable pub ins_dbe : List Dbe → Dbe → List Dbe
unfolding maybe_del_dbe
ins_dbe db dbe = maybe_del_dbe db dbe.tgtidx ++ dbe ∷ []

unfoldable pub cmdequal_db : List Dbe → ℕ → Cmd → ℕ → Bool
unfolding get_dbe cmd_equal
cmdequal_db db tgtidx cmd diridx = elim (get_dbe db tgtidx) [
  | none ↦ false
  | some dbe ↦ if not (dbe.diridx == diridx) then false else cmd_equal cmd dbe.cmds
]

unfoldable pub get_tsdbe : List Tsdbe → ℕ → Option Tsdbe
get_tsdbe [] k = none
get_tsdbe (e ∷ es) k = if e.stringtabidx == k then some e else get_tsdbe es k

unfoldable pub maybe_del_tsdbe : List Tsdbe → ℕ → List Tsdbe
maybe_del_tsdbe [] k = []
maybe_del_tsdbe (e ∷ es) k = if e.stringtabidx == k then es else e ∷ maybe_del_tsdbe es k

unfoldable pub ins_tsdbe : List Tsdbe → Tsdbe → List Tsdbe
unfolding maybe_del_tsdbe
ins_tsdbe db tsdbe = maybe_del_tsdbe db tsdbe.stringtabidx ++ tsdbe ∷ []

-- A write through the pointer that a lookup returned.
unfoldable pub update_tsdbe : List Tsdbe → ℕ → (Tsdbe → Tsdbe) → List Tsdbe
update_tsdbe [] k f = []
update_tsdbe (e ∷ es) k f = if e.stringtabidx == k then f e ∷ es else e ∷ update_tsdbe es k f

-- tsszstoresource and tsszstoretarget, which have the same effect, and the result 0 for a record
-- that is new.
unfoldable pub tsszstore : List Tsdbe → ℕ → Timespec → ℕ → List Tsdbe × Bool
unfolding get_tsdbe ins_tsdbe update_tsdbe
tsszstore db stringtabidx ts sz = elim (get_tsdbe db stringtabidx) [
  | none ↦ (
    ins_tsdbe db (record {
      stringtabidx = stringtabidx;
      ts = ts;
      tsnew = ts;
      sz = sz;
      sznew = sz;
      seen = true;
    }),
    false,
  )
  | some _ ↦ (
    update_tsdbe db stringtabidx
        (λ e. record e { ts = ts; tsnew = ts; sz = sz; sznew = sz; seen = true }),
    true,
  )
]

is_same_time : Timespec → Timespec → Bool
unfolding ts_cmp
is_same_time a b = elim (ts_cmp a b) [ none_of_both ↦ true | _ ↦ false ]

tssz_equal : Tsdbe → Timespec → ℕ → Bool
unfolding is_same_time
tssz_equal e ts sz =
    if not (e.sz == sz) then false else if not (is_same_time e.ts ts) then false else true

-- What a comparison of a source leaves in its record.
note_seen : Timespec → ℕ → Tsdbe → Tsdbe
note_seen ts sz e = record e { tsnew = ts; sznew = sz; seen = true }

-- The database after the call, and whether the record of the file has its time and its size.
unfoldable pub tsszequal_db : List Tsdbe → ℕ → Timespec → ℕ → Bool → List Tsdbe × Bool
unfolding get_tsdbe update_tsdbe tssz_equal note_seen
tsszequal_db db stringtabidx ts sz istarget = elim (get_tsdbe db stringtabidx) [
  | none ↦ (db, false)
  | some e ↦
      (if istarget then db else update_tsdbe db stringtabidx (note_seen ts sz), tssz_equal e ts sz)
]
