-- ===== src/DbText/Merge.antt =====
-- merge_db_v2 of stirc/stirmake.c: the commands of the rules that ran go to the database, which is then
-- printed.
use stirmake.Prelude.{ℕ, if◌then◌else◌, Bool, true, false, not, ◌&&◌, List, [], ◌∷◌}
use stirmake.Prelude.Int.{ℤ}
use stirmake.Canon.{Bytes}
use stirmake.Db.{Cmd, Dbe, Tsdbe, ins_dbe, maybe_del_dbe}
use stirmake.DbText.Writer.{print_dbs}

-- What merge_db_v2 takes of a rule.
pub record Ran : Type 0 where
  pub is_actually_executed : Bool
  pub is_forked : Bool
  pub tgtlist : List ℕ
  pub diridx : ℕ
  pub cmd : Cmd

unfoldable pub del_targets : List Dbe → List ℕ → List Dbe
del_targets db [] = db
del_targets db (t ∷ ts) = del_targets (maybe_del_dbe db t) ts

unfoldable pub ins_targets : List Dbe → List ℕ → ℕ → Cmd → List Dbe
ins_targets db [] diridx cmd = db
ins_targets db (t ∷ ts) diridx cmd =
    ins_targets (ins_dbe db (record { tgtidx = t; diridx = diridx; cmds = cmd })) ts diridx cmd

unfoldable pub merge_rule : Ran → List Dbe → List Dbe
unfolding del_targets ins_targets
merge_rule r db =
    if not r.is_actually_executed
    then (if r.is_forked then del_targets db r.tgtlist else db)
    else ins_targets db r.tgtlist r.diridx r.cmd

unfoldable pub merge_rules : List Ran → List Dbe → List Dbe
unfolding merge_rule
merge_rules [] db = db
merge_rules (r ∷ rs) db = merge_rules rs (merge_rule r db)

pub is_empty : {A : Type 0} → List A → Bool
is_empty [] = true
is_empty (x ∷ xs) = false

-- The file is left alone, removed, or written.
pub data Merged : Type 0 where
  kept removed : Merged
  written : Bytes → Merged

unfoldable pub merge_db_v2 :
    (ℕ → Bytes) → (ℤ → Bytes) → Bool → Bool → List Ran → List Dbe → List Tsdbe → Merged
unfolding merge_rules is_empty
merge_db_v2 sttable lld test dbf_did_exist rules db tsdb =
    if test
    then kept
    else if is_empty (merge_rules rules db) && is_empty tsdb && not dbf_did_exist
    then removed
    else written (print_dbs sttable lld (merge_rules rules db) tsdb)
