-- ===== src/DbText/Load.antt =====
-- load_db_part2 of stirc/stirmake.c with its callbacks dbyy_cmdfn and dbyy_tsfn: the databases that a
-- text stands for. tsnew and sznew are not set in C, and not read before a record is seen.
use stirmake.Prelude.{ℕ, false, Option, none, some, List, [], ◌∷◌}
use stirmake.Prelude.Int.{pos}
use stirmake.Prelude.Results.{Outcome, done, and_then}
use stirmake.Canon.{Bytes}
use stirmake.Time.{Timespec}
use stirmake.Db.{Cmd, Dbe, Tsdbe, ins_dbe, ins_tsdbe}
use stirmake.Stringtab.{stringtab_add_len}
use stirmake.DbText.Reader.{Entry, of_rule, of_file, dbyymineparse}

-- The table of strings and the two databases.
pub record Loaded : Type 0 where
  pub sttable : List Bytes
  pub db : List Dbe
  pub tsdb : List Tsdbe

unfoldable pub dbyy_cmdfn : Loaded → Bytes → Bytes → Cmd → Loaded
dbyy_cmdfn l dir tgt cmds =
    let (tgtidx, sttable) = stringtab_add_len l.sttable tgt in
    let (diridx, sttable') = stringtab_add_len sttable dir in
    record l {
      sttable = sttable';
      db = ins_dbe l.db (record { tgtidx = tgtidx; diridx = diridx; cmds = cmds });
    }

unfoldable pub dbyy_tsfn : Loaded → Bytes → ℕ → Timespec → Loaded
dbyy_tsfn l tgt sz ts =
    let (idx, sttable) = stringtab_add_len l.sttable tgt in
    record l {
      sttable = sttable;
      tsdb =
          ins_tsdbe l.tsdb
            (record { stringtabidx = idx; ts = ts; tsnew = ts; sz = sz; sznew = sz; seen = false });
    }

unfoldable pub load_entries : Loaded → List Entry → Loaded
unfolding dbyy_cmdfn dbyy_tsfn
load_entries l [] = l
load_entries l (of_rule dir tgt cmds ∷ es) = load_entries (dbyy_cmdfn l dir tgt cmds) es
load_entries l (of_file tgt sz sec nsec ∷ es) =
    load_entries (dbyy_tsfn l tgt sz (record { tv_sec = pos sec; tv_nsec = nsec })) es

-- The databases are empty before the call; `none` where the text is refused, and both are emptied.
unfoldable pub load_db_part2 :
    (Bytes → Option ℕ) → (Bytes → ℕ × Bytes) → List Bytes → Bytes → Outcome (Option Loaded)
unfolding load_entries
load_db_part2 strtol strtoll sttable s = and_then (dbyymineparse strtol strtoll s) (λ o. elim o [
  | none ↦ done none
  | some r ↦ done (some (load_entries (record { sttable = sttable; db = []; tsdb = [] }) r.called))
])
