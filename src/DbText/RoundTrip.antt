-- ===== src/DbText/RoundTrip.antt =====
-- The text that merge_db_v2 prints, read back by dbyymineparse.
use stirmake.Prelude.{
  ℕ, ◌≡◌, refl, sym, ap, ◌∙◌, if◌then◌else◌, Bool, true, false, ◌||◌, Option, none, some, List, [],
  ◌∷◌, ◌++◌, append-nil, append_assoc, All,
}
use stirmake.Prelude.Int.{ℤ, pos_part}
use stirmake.Prelude.Results.{Outcome}
use stirmake.Canon.{Bytes}
use stirmake.Time.{Timespec}
use stirmake.Db.{Cmd, Dbe, Tsdbe}
use stirmake.DbText.Unescape.{ReadsHex}
use stirmake.DbText.Reader.{Reader, Entry, of_rule, of_file, read_lines, getlines, dbyymineparse}
use stirmake.DbText.Writer.{
  print_cmds, print_gap, print_dbe, print_numbers, print_tsdbe, print_tsdb, print_db, print_dbs,
}
use stirmake.DbText.Items.{IsBytes}
use stirmake.DbText.Numbers.{Numerals}
use stirmake.DbText.Records.{
  reader, reads, closed, has_commands, Calls, HasNumbers, rule_line, cmd_lines, empty_line,
  first_empty_line, at_end,
}
use stirmake.DbText.Files.{file_line}

-- The time and the size that a record is printed with.
abbrev pub printed_size : Tsdbe → ℕ
printed_size e = if e.seen then e.sznew else e.sz

abbrev pub printed_time : Tsdbe → Timespec
printed_time e = if e.seen then e.tsnew else e.ts

abbrev pub file_entry : (ℕ → Bytes) → Tsdbe → Entry
file_entry sttable e =
    of_file (sttable e.stringtabidx) (printed_size e) (pos_part (printed_time e).tv_sec)
      (printed_time e).tv_nsec

abbrev pub file_entries : (ℕ → Bytes) → List Tsdbe → List Entry
file_entries sttable [] = []
file_entries sttable (e ∷ es) = file_entry sttable e ∷ file_entries sttable es

-- The records of rules without commands are dropped.
abbrev pub rule_entries : (ℕ → Bytes) → List Dbe → List Entry
rule_entries sttable [] = []
rule_entries sttable (e ∷ es) =
    if has_commands e.cmds
    then of_rule (sttable e.diridx) (sttable e.tgtidx) e.cmds ∷ rule_entries sttable es
    else rule_entries sttable es

or_false : (b : Bool) → (b || false) ≡ b
or_false true = refl
or_false false = refl

Calls-by :
    (o o' : Outcome (Option Reader)) (entries entries' : List Entry)
    → o ≡ o'
    → entries ≡ entries'
    → Calls o' entries
    → Calls o entries'
Calls-by o o' entries entries' h k c = (c.0, h ∙ c.1, c.2 ∙ k)

closed-if :
    (w : Bool) (dir tgt : Bytes) (cmds : Cmd) (called entries more : List Entry)
    → closed w dir tgt cmds called ++ (entries ++ more)
      ≡ called ++ ((if w then of_rule dir tgt cmds ∷ entries else entries) ++ more)
closed-if true dir tgt cmds called entries more =
    append_assoc called (of_rule dir tgt cmds ∷ []) (entries ++ more)
closed-if false dir tgt cmds called entries more = refl

module _ (strtol : Bytes → Option ℕ) (strtoll : Bytes → ℕ × Bytes) (lld : ℤ → Bytes)
    (sttable : ℕ → Bytes) (reads_hex : ReadsHex strtol) (numerals : Numerals strtoll lld)
    (table : (i : ℕ) → IsBytes (sttable i)) where
  numbers_if :
      (b : Bool) (tgt : Bytes) (sz sz' : ℕ) (ts ts' : Timespec) (rest : Bytes)
      → (if b
          then print_numbers sttable lld tgt sz ts rest
          else print_numbers sttable lld tgt sz' ts' rest)
        ≡ print_numbers sttable lld tgt (if b then sz else sz') (if b then ts else ts') rest
  numbers_if true tgt sz sz' ts ts' rest = refl
  numbers_if false tgt sz sz' ts ts' rest = refl

  tsdbe_line :
      (e : Tsdbe) (rest : Bytes) (rule : Option (Bytes × Bytes)) (cmds : Cmd) (called : List Entry)
      → HasNumbers (printed_size e) (printed_time e)
      → reads strtol strtoll reads_hex
          (reader false rule cmds called)
          (print_tsdbe sttable lld e rest)
        ≡ reads strtol strtoll reads_hex
            (reader false rule cmds (called ++ file_entry sttable e ∷ []))
            rest
  unfolding print_tsdbe
  tsdbe_line e rest rule cmds called h =
      ap (reads strtol strtoll reads_hex (reader false rule cmds called))
        (numbers_if e.seen (sttable e.stringtabidx) e.sznew e.sz e.tsnew e.ts rest)
      ∙ file_line strtol strtoll reads_hex lld numerals sttable (sttable e.stringtabidx)
          (printed_size e) (printed_time e) rest rule cmds called (table e.stringtabidx) h

  rest_of_tsdb :
      (es : List Tsdbe) (rule : Option (Bytes × Bytes)) (cmds : Cmd) (called : List Entry)
      → All (λ e. HasNumbers (printed_size e) (printed_time e)) es
      → Calls
          (reads strtol strtoll reads_hex
            (reader false rule cmds called)
            (print_tsdb sttable lld false es))
          (called ++ file_entries sttable es)
  unfolding print_tsdb print_gap read_lines getlines
  rest_of_tsdb [] rule cmds called h = (_, refl, sym (append-nil called))
  rest_of_tsdb (e ∷ es) rule cmds called h =
      Calls-by _ _ _ _
        (first_empty_line strtol strtoll reads_hex rule cmds called
            (print_tsdbe sttable lld e (print_tsdb sttable lld false es))
          ∙ tsdbe_line e (print_tsdb sttable lld false es) rule cmds called h.0)
        (append_assoc called (file_entry sttable e ∷ []) (file_entries sttable es))
        (rest_of_tsdb es rule cmds (called ++ file_entry sttable e ∷ []) h.1)

  closing_tsdb :
      (es : List Tsdbe) (w : Bool) (dir tgt : Bytes) (cmds : Cmd) (called : List Entry)
      → All (λ e. HasNumbers (printed_size e) (printed_time e)) es
      → Calls
          (reads strtol strtoll reads_hex
            (reader w (some (dir, tgt)) cmds called)
            (print_tsdb sttable lld false es))
          (closed w dir tgt cmds called ++ file_entries sttable es)
  unfolding print_tsdb print_gap
  closing_tsdb [] w dir tgt cmds called h =
      let c = at_end strtol strtoll reads_hex w dir tgt cmds called in
      (c.0, c.1, c.2 ∙ sym (append-nil (closed w dir tgt cmds called)))
  closing_tsdb (e ∷ es) w dir tgt cmds called h =
      let called' = closed w dir tgt cmds called in
      Calls-by _ _ _ _
        (empty_line strtol strtoll reads_hex w dir tgt cmds called
            (print_tsdbe sttable lld e (print_tsdb sttable lld false es))
          ∙ tsdbe_line e (print_tsdb sttable lld false es) (some (dir, tgt)) cmds called' h.0)
        (append_assoc called' (file_entry sttable e ∷ []) (file_entries sttable es))
        (rest_of_tsdb es (some (dir, tgt)) cmds (called' ++ file_entry sttable e ∷ []) h.1)

  dbe_lines :
      (e : Dbe) (rest : Bytes) (rule : Option (Bytes × Bytes)) (cmds : Cmd) (called : List Entry)
      → All (All IsBytes) e.cmds
      → reads strtol strtoll reads_hex
          (reader false rule cmds called)
          (print_dbe sttable lld e rest)
        ≡ reads strtol strtoll reads_hex
            (reader (has_commands e.cmds) (some (sttable e.diridx, sttable e.tgtidx)) e.cmds called)
            rest
  unfolding print_dbe
  dbe_lines e rest rule cmds called h =
      let dir = sttable e.diridx in
      let tgt = sttable e.tgtidx in
      rule_line strtol strtoll reads_hex dir tgt (print_cmds e.cmds rest) rule cmds called
        (table e.diridx) (table e.tgtidx)
      ∙ cmd_lines strtol strtoll reads_hex e.cmds rest false (some (dir, tgt)) [] called h
      ∙ ap (λ w. reads strtol strtoll reads_hex (reader w (some (dir, tgt)) e.cmds called) rest)
          (or_false (has_commands e.cmds))

  closing_db :
      (db : List Dbe) (tsdb : List Tsdbe) (w : Bool) (dir tgt : Bytes) (cmds : Cmd)
      (called : List Entry)
      → All (λ e. All (All IsBytes) e.cmds) db
      → All (λ e. HasNumbers (printed_size e) (printed_time e)) tsdb
      → Calls
          (reads strtol strtoll reads_hex
            (reader w (some (dir, tgt)) cmds called)
            (print_db sttable lld false db tsdb))
          (closed w dir tgt cmds called ++ (rule_entries sttable db ++ file_entries sttable tsdb))
  unfolding print_db print_gap
  closing_db [] tsdb w dir tgt cmds called h k = closing_tsdb tsdb w dir tgt cmds called k
  closing_db (e ∷ db) tsdb w dir tgt cmds called h k =
      let called' = closed w dir tgt cmds called in
      Calls-by _ _ _ _
        (empty_line strtol strtoll reads_hex w dir tgt cmds called
            (print_dbe sttable lld e (print_db sttable lld false db tsdb))
          ∙ dbe_lines e (print_db sttable lld false db tsdb) (some (dir, tgt)) cmds called' h.0)
        (closed-if (has_commands e.cmds) _ _ e.cmds called' (rule_entries sttable db)
          (file_entries sttable tsdb))
        (closing_db db tsdb (has_commands e.cmds) (sttable e.diridx) (sttable e.tgtidx) e.cmds
          called' h.1 k)

  first_record :
      (db : List Dbe) (tsdb : List Tsdbe)
      → All (λ e. All (All IsBytes) e.cmds) db
      → All (λ e. HasNumbers (printed_size e) (printed_time e)) tsdb
      → Calls
          (reads strtol strtoll reads_hex
            (reader false none [] [])
            (print_db sttable lld true db tsdb))
          (rule_entries sttable db ++ file_entries sttable tsdb)
  unfolding print_db print_tsdb print_gap read_lines getlines
  first_record [] [] h k = (_, refl, refl)
  first_record [] (e ∷ es) h k =
      Calls-by _ _ _ _ (tsdbe_line e (print_tsdb sttable lld false es) none [] [] k.0) refl
        (rest_of_tsdb es none [] (file_entry sttable e ∷ []) k.1)
  first_record (e ∷ db) tsdb h k =
      Calls-by _ _ _ _ (dbe_lines e (print_db sttable lld false db tsdb) none [] [] h.0)
        (closed-if (has_commands e.cmds) _ _ e.cmds [] (rule_entries sttable db)
          (file_entries sttable tsdb))
        (closing_db db tsdb (has_commands e.cmds) (sttable e.diridx) (sttable e.tgtidx) e.cmds []
          h.1 k)

  -- The text that merge_db_v2 prints of two databases is accepted by dbyymineparse, which hands on their
  -- records in order: each rule with its commands, unless it has none, and each file with its size and
  -- time. Strings are bytes; sizes and times are not negative and below 2^63.
  pub dbyymineparse-print_dbs :
      (db : List Dbe) (tsdb : List Tsdbe)
      → All (λ e. All (All IsBytes) e.cmds) db
      → All (λ e. HasNumbers (printed_size e) (printed_time e)) tsdb
      → Calls
          (dbyymineparse strtol strtoll (print_dbs sttable lld db tsdb))
          (rule_entries sttable db ++ file_entries sttable tsdb)
  unfolding dbyymineparse print_dbs read_lines getlines
  dbyymineparse-print_dbs db tsdb h k =
      let c = first_record db tsdb h k in
      (
        c.0,
        first_empty_line strtol strtoll reads_hex none [] [] (print_db sttable lld true db tsdb)
            ∙ c.1,
        c.2,
      )
