-- ===== src/DbText/Tests.antt =====
-- Runs at small files.
use stirmake.Prelude.{
  ℕ, zero, suc, ◌<◌, ◌≡◌, refl, true, false, none, some, List, [], ◌∷◌, ◌++◌, map, get_or, All,
  arith,
}
use stirmake.Prelude.Int.{pos, negsuc}
use stirmake.Prelude.Results.{aborted, done}
use stirmake.Canon.{Bytes}
use stirmake.Db.{Dbe, Tsdbe, get_dbe, get_tsdbe}
use stirmake.Stringtab.{stringtab_get}
use stirmake.Stringtab.Laws.{IsDistinct}
use stirmake.Db.Laws.{HasKeys}
use stirmake.DbText.Merge.{Ran, merge_rules}
use stirmake.DbText.Recorded.{merge_rules-recorded}
use stirmake.DbText.ReaderEnds.{HasEnded, dbyymineparse-HasEnded}
use stirmake.DbText.Decimal.{
  read_hex, read_decimal, print_decimal, read_hex-ReadsHex, read_decimal-Numerals,
  read_decimal-ReadsDigit,
}
use stirmake.DbText.Load.{load_db_part2}
use stirmake.DbText.Restart.{unseen, load_db_part2-print_dbs}
use stirmake.DbText.{file_escape_string, unescape}
use stirmake.DbText.Unescape.{unescape_escaped}
use stirmake.DbText.Reader.{dbyymineparse, of_rule, of_file}
use stirmake.DbText.Writer.{print_dbs}
use stirmake.DbText.Records.{Calls}
use stirmake.DbText.RoundTrip.{dbyymineparse-print_dbs}

abbrev names : ℕ → Bytes
names zero = b'.' ∷ []
names (suc zero) = b'a' ∷ b' ' ∷ b'\n' ∷ []
names (suc (suc n)) = b'"' ∷ 200 ∷ b'/' ∷ []

names-IsBytes : (i : ℕ) → All (λ c. c < 256) (names i)
names-IsBytes zero = (omega arith, tt)
names-IsBytes (suc zero) = (omega arith, (omega arith, (omega arith, tt)))
names-IsBytes (suc (suc n)) = (omega arith, (omega arith, (omega arith, tt)))

abbrev some_db : List Dbe
some_db =
    record { tgtidx = 1; diridx = 0; cmds = ((b'c' ∷ []) ∷ [] ∷ []) ∷ [] ∷ [] }
    ∷ record { tgtidx = 2; diridx = 0; cmds = [] }
    ∷ []

abbrev some_tsdb : List Tsdbe
some_tsdb =
    record {
      stringtabidx = 2;
      ts = record { tv_sec = pos 17; tv_nsec = 3 };
      tsnew = record { tv_sec = pos 18; tv_nsec = 0 };
      sz = 120;
      sznew = 121;
      seen = true;
    }
    ∷ []

unescape_escaped_example :
    unescape read_hex 9 0 (file_escape_string (names 2) ++ b'"' ∷ b':' ∷ [])
    ≡ done (some (names 2, b':' ∷ []))
unescape_escaped_example =
    unescape_escaped read_hex read_hex-ReadsHex (names 2) 9 0 (b':' ∷ []) (names-IsBytes 2)
      (omega arith)

dbyymineparse-print_dbs_example :
    Calls (dbyymineparse read_hex read_decimal (print_dbs names print_decimal some_db some_tsdb)) (
      of_rule (names 0) (names 1) (((b'c' ∷ []) ∷ [] ∷ []) ∷ [] ∷ [])
      ∷ of_file (names 2) 121 18 0
      ∷ [])
dbyymineparse-print_dbs_example =
    dbyymineparse-print_dbs read_hex read_decimal print_decimal names read_hex-ReadsHex
      read_decimal-Numerals names-IsBytes some_db some_tsdb
      ((((omega arith, tt), (tt, tt)), (tt, tt)), (tt, tt))
      ((omega arith, refl, omega arith, omega arith), tt)

-- A time before 1970 is printed with a sign, and the whole file is refused.
negative_refused :
    dbyymineparse read_hex read_decimal (
      print_dbs names print_decimal [] (
        record {
          stringtabidx = 0;
          ts = record { tv_sec = negsuc 0; tv_nsec = 0 };
          tsnew = record { tv_sec = pos 0; tv_nsec = 0 };
          sz = 1;
          sznew = 0;
          seen = false;
        }
        ∷ []))
    ≡ done none
unfolding dbyymineparse print_dbs print_decimal read_decimal read_hex unescape
negative_refused = refl

-- A string that is not closed is read past the end of its line.
unclosed_aborted : unescape read_hex 9 0 (b'a' ∷ []) ≡ aborted
unfolding unescape
unclosed_aborted = refl

-- A command before the first rule.
command_first_aborted :
    dbyymineparse read_hex read_decimal (b'\t' ∷ b'"' ∷ b'a' ∷ b'"' ∷ b'\n' ∷ []) ≡ aborted
unfolding dbyymineparse read_hex unescape
command_first_aborted = refl

-- Two strings without a colon are accepted as a rule.
no_colon_accepted :
    Calls
      (dbyymineparse read_hex read_decimal
        (b'"' ∷ b'a' ∷ b'"' ∷ b' ' ∷ b'"' ∷ b'b' ∷ b'"' ∷ b'\n' ∷ []))
      []
unfolding dbyymineparse read_hex unescape
no_colon_accepted = (_, refl, refl)

abbrev some_table : List Bytes
some_table = names 0 ∷ names 1 ∷ names 2 ∷ []

some_table-IsDistinct : IsDistinct some_table
unfolding stringtab_get
some_table-IsDistinct zero l = refl
some_table-IsDistinct (suc zero) l = refl
some_table-IsDistinct (suc (suc zero)) l = refl
some_table-IsDistinct (suc (suc (suc k))) l = absurd (omega arith)

abbrev one_rule : List Dbe
one_rule = record { tgtidx = 1; diridx = 0; cmds = ((b'c' ∷ []) ∷ [] ∷ []) ∷ [] ∷ [] } ∷ []

load_db_part2-print_dbs_example :
    load_db_part2 read_hex read_decimal some_table
      (print_dbs (λ i. get_or some_table i []) print_decimal one_rule some_tsdb)
    ≡ done (some (record { sttable = some_table; db = one_rule; tsdb = map unseen some_tsdb }))
unfolding get_dbe get_tsdbe
load_db_part2-print_dbs_example =
    load_db_part2-print_dbs read_hex read_decimal print_decimal some_table one_rule some_tsdb
      read_hex-ReadsHex read_decimal-Numerals some_table-IsDistinct
      (names-IsBytes 0, (names-IsBytes 1, (names-IsBytes 2, tt))) (refl, tt) (refl, tt)
      (((omega arith, omega arith, refl), (((omega arith, tt), (tt, tt)), (tt, tt))), tt)
      ((omega arith, (omega arith, refl, omega arith, omega arith)), tt)

-- The rule of the files 1 and 2 ran, then one of file 2 was started and failed.
abbrev two_rules : List Ran
two_rules =
    record {
      is_actually_executed = true;
      is_forked = true;
      tgtlist = 1 ∷ 2 ∷ [];
      diridx = 0;
      cmd = [] ∷ [];
    }
    ∷ record {
      is_actually_executed = false;
      is_forked = true;
      tgtlist = 2 ∷ [];
      diridx = 0;
      cmd = [];
    }
    ∷ []

merge_rules-recorded_example :
    HasKeys (merge_rules two_rules one_rule) × (get_dbe (merge_rules two_rules one_rule) 2 ≡ none)
unfolding get_dbe
merge_rules-recorded_example = merge_rules-recorded two_rules one_rule 2 (refl, tt)

dbyymineparse-HasEnded_example :
    HasEnded (dbyymineparse read_hex read_decimal (b'"' ∷ b'a' ∷ b'\\' ∷ []))
dbyymineparse-HasEnded_example =
    dbyymineparse-HasEnded read_hex read_decimal read_decimal-ReadsDigit (b'"' ∷ b'a' ∷ b'\\' ∷ [])
