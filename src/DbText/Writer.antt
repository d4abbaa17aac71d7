-- ===== src/DbText/Writer.antt =====
-- What merge_db_v2 of stirc/stirmake.c prints. `sttable` is the table of strings; `lld` is what
-- fprintf prints for %lld.
use stirmake.Prelude.{ℕ, if◌then◌else◌, Bool, true, false, List, [], ◌∷◌, ◌++◌}
use stirmake.Prelude.Int.{ℤ, pos}
use stirmake.Canon.{Bytes}
use stirmake.Time.{Timespec}
use stirmake.Db.{Cmd, Dbe, Tsdbe}
use stirmake.DbText.{file_escape_string}
use stirmake.DbText.Reader.{v2}

-- The end of a string in quotes.
unfoldable pub print_string : Bytes → Bytes → Bytes
unfolding file_escape_string
print_string s rest = b'"' ∷ file_escape_string s ++ b'"' ∷ rest

unfoldable pub print_args : List Bytes → Bytes → Bytes
unfolding print_string
print_args [] rest = rest
print_args (arg ∷ args) rest = b' ' ∷ print_string arg (print_args args rest)

unfoldable pub print_cmd : List Bytes → Bytes → Bytes
unfolding print_args print_string
print_cmd [] rest = b'\t' ∷ b'\n' ∷ rest
print_cmd (arg ∷ args) rest = b'\t' ∷ print_string arg (print_args args (b'\n' ∷ rest))

unfoldable pub print_cmds : Cmd → Bytes → Bytes
unfolding print_cmd
print_cmds [] rest = rest
print_cmds (cmd ∷ cmds) rest = print_cmd cmd (print_cmds cmds rest)

-- The empty line between two records: `firstrule` stands for none printed yet.
unfoldable pub print_gap : Bool → Bytes → Bytes
print_gap true rest = rest
print_gap false rest = b'\n' ∷ rest

module _ (sttable : ℕ → Bytes) (lld : ℤ → Bytes) where
  unfoldable pub print_dbe : Dbe → Bytes → Bytes
  unfolding print_string print_cmds
  print_dbe dbe rest =
      print_string (sttable dbe.diridx)
        (b' ' ∷ print_string (sttable dbe.tgtidx) (b':' ∷ b'\n' ∷ print_cmds dbe.cmds rest))

  unfoldable pub print_numbers : Bytes → ℕ → Timespec → Bytes → Bytes
  unfolding print_string
  print_numbers tgt sz ts rest = print_string tgt (
      b' '
      ∷ b'='
      ∷ b' '
      ∷ (lld (pos sz)
          ++ (b' ' ∷ (lld ts.tv_sec ++ (b' ' ∷ (lld (pos ts.tv_nsec) ++ b'\n' ∷ rest))))))

  unfoldable pub print_tsdbe : Tsdbe → Bytes → Bytes
  unfolding print_numbers
  print_tsdbe e rest =
      if e.seen
      then print_numbers (sttable e.stringtabidx) e.sznew e.tsnew rest
      else print_numbers (sttable e.stringtabidx) e.sz e.ts rest

  unfoldable pub print_tsdb : Bool → List Tsdbe → Bytes
  unfolding print_gap print_tsdbe
  print_tsdb firstrule [] = []
  print_tsdb firstrule (e ∷ es) = print_gap firstrule (print_tsdbe e (print_tsdb false es))

  unfoldable pub print_db : Bool → List Dbe → List Tsdbe → Bytes
  unfolding print_gap print_dbe print_tsdb
  print_db firstrule [] tsdb = print_tsdb firstrule tsdb
  print_db firstrule (dbe ∷ db) tsdb = print_gap firstrule (print_dbe dbe (print_db false db tsdb))

  -- The text of the file.
  unfoldable pub print_dbs : List Dbe → List Tsdbe → Bytes
  unfolding print_db
  print_dbs db tsdb = v2 ++ b'\n' ∷ print_db true db tsdb
