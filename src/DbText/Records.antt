-- ===== src/DbText/Records.antt =====
-- The records that merge_db_v2 prints, read back line by line.
use stirmake.Prelude.{
  ℕ, suc, ◌+◌, ◌-◌, ◌^◌, ◌≤◌, ◌<◌, ◌≡◌, refl, sym, ap, ◌∙◌, Bool, true, false, ◌||◌, Option, some,
  List, [], ◌∷◌, ◌++◌, append-nil, append_assoc, length, length-append, All, arith,
}
use stirmake.Prelude.Int.{ℤ, pos, negsuc, pos_part, neg_part}
use stirmake.Prelude.Results.{Outcome, done}
use stirmake.Canon.{Bytes}
use stirmake.Time.{Timespec}
use stirmake.Db.{Cmd}
use stirmake.DbText.{file_escape_string}
use stirmake.DbText.Unescape.{ReadsHex}
use stirmake.DbText.Reader.{
  Reader, Entry, of_rule, items, fresh_line, begin_line, read_line, read_lines, go_on_lines,
  getlines, dbyy_emplace_rule, whitespacespn, is_command, dbyy_add_cmd,
}
use stirmake.DbText.Writer.{print_string, print_args, print_cmd, print_cmds}
use stirmake.DbText.Items.{IsBytes, add_args-snoc, items_args, items_rule}
use stirmake.DbText.Lines.{
  Prints, Prints-comp, Prints-byte, Prints-string, Prints-args, getlines-Prints,
}

-- A reader of a file of version 2.
abbrev pub reader : Bool → Option (Bytes × Bytes) → Cmd → List Entry → Reader
reader was_is_cmd rule cmds called = record {
  is_v2 = true;
  was_is_cmd = was_is_cmd;
  rule = rule;
  cmds = cmds;
  called = called;
}

abbrev pub has_commands : Cmd → Bool
has_commands [] = false
has_commands (c ∷ cs) = true

or_true : (b : Bool) → (b || true) ≡ true
or_true true = refl
or_true false = refl

pub length-print_string : (s rest : Bytes) → suc (suc (length rest)) ≤ length (print_string s rest)
unfolding print_string
length-print_string s rest = omega (arith, length-append (file_escape_string s) (b'"' ∷ rest))

length-print_args :
    (args : List Bytes) (rest : Bytes) → length args + length rest ≤ length (print_args args rest)
unfolding print_args
length-print_args [] rest = omega arith
length-print_args (arg ∷ args) rest =
    omega (arith, length-print_string arg (print_args args rest), length-print_args args rest)

pub not_negative : (z : ℤ) → neg_part z ≡ 0 → z ≡ pos (pos_part z)
not_negative (pos n) h = refl
not_negative (negsuc n) h = absurd (omega arith)

-- Numbers that fprintf prints without a sign and strtoll reads: a time is not before 1970.
abbrev pub HasNumbers : ℕ → Timespec → Type 0
HasNumbers sz ts =
    (sz < 2 ^ 63) × (neg_part ts.tv_sec ≡ 0) × (pos_part ts.tv_sec < 2 ^ 63) × (ts.tv_nsec < 2 ^ 63)

-- The calls of a rule whose commands have been read.
abbrev pub closed : Bool → Bytes → Bytes → Cmd → List Entry → List Entry
closed false dir tgt cmds called = called
closed true dir tgt cmds called = called ++ of_rule dir tgt cmds ∷ []

-- dbyymineparse returns 0 after these calls.
abbrev pub Calls : Outcome (Option Reader) → List Entry → Type 0
Calls o entries = (r : Reader) × (o ≡ done (some r)) × (r.called ≡ entries)

module _ (strtol : Bytes → Option ℕ) (strtoll : Bytes → ℕ × Bytes)
    (reads_hex : ReadsHex strtol) where
  abbrev pub reads : Reader → Bytes → Outcome (Option Reader)
  reads r s = read_lines strtol strtoll r (getlines s)

  pub reads_line :
      (f : Bytes → Bytes) (rest : Bytes) (r r' : Reader)
      → Prints f
      → read_line strtol strtoll r (f (b'\n' ∷ [])) ≡ done (some r')
      → reads r (f (b'\n' ∷ rest)) ≡ reads r' rest
  unfolding read_lines
  reads_line f rest r r' p h =
      ap (read_lines strtol strtoll r) (getlines-Prints f rest p)
      ∙ ap (go_on_lines (λ r''. reads r'' rest)) h

  read_rule_line :
      (dir tgt : Bytes) (rule : Option (Bytes × Bytes)) (cmds : Cmd) (called : List Entry)
      → IsBytes dir
      → IsBytes tgt
      → read_line strtol strtoll
          (reader false rule cmds called)
          (print_string dir (b' ' ∷ print_string tgt (b':' ∷ b'\n' ∷ [])))
        ≡ done (some (reader false (some (dir, tgt)) [] called))
  unfolding read_line print_string begin_line is_command whitespacespn dbyy_emplace_rule
  read_rule_line dir tgt rule cmds called b b' =
      let text = print_string dir (b' ' ∷ print_string tgt (b':' ∷ b'\n' ∷ [])) in
      let len : 3 ≤ length text = omega (
        arith,
        length-print_string dir (b' ' ∷ print_string tgt (b':' ∷ b'\n' ∷ [])),
        length-print_string tgt (b':' ∷ b'\n' ∷ []),
      ) in
      let fuel : suc (length text) ≡ suc (suc (suc (suc (length text - 3)))) = omega arith in
      ap (λ n. items strtol strtoll n false fresh_line (reader false rule cmds called) text) fuel
      ∙ items_rule strtol strtoll reads_hex dir tgt (length text - 3)
          (reader false rule cmds called) b b'

  pub rule_line :
      (dir tgt rest : Bytes) (rule : Option (Bytes × Bytes)) (cmds : Cmd) (called : List Entry)
      → IsBytes dir
      → IsBytes tgt
      → reads
          (reader false rule cmds called)
          (print_string dir (b' ' ∷ print_string tgt (b':' ∷ b'\n' ∷ rest)))
        ≡ reads (reader false (some (dir, tgt)) [] called) rest
  rule_line dir tgt rest rule cmds called b b' =
      reads_line (λ x. print_string dir (b' ' ∷ print_string tgt (b':' ∷ x))) rest _ _
        (Prints-comp (print_string dir) (λ x. b' ' ∷ print_string tgt (b':' ∷ x))
          (Prints-string dir b)
          (Prints-comp (λ x. b' ' ∷ x) (λ x. print_string tgt (b':' ∷ x)) (Prints-byte b' ' refl)
            (Prints-comp (print_string tgt) (λ x. b':' ∷ x) (Prints-string tgt b')
              (Prints-byte b':' refl))))
        (read_rule_line dir tgt rule cmds called b b')

  read_cmd_line :
      (arg : Bytes) (args : List Bytes) (w : Bool) (rule : Option (Bytes × Bytes)) (cmds : Cmd)
      (called : List Entry)
      → All IsBytes (arg ∷ args)
      → read_line strtol strtoll
          (reader w rule cmds called)
          (b'\t' ∷ print_string arg (print_args args (b'\n' ∷ [])))
        ≡ done (some (reader true rule (cmds ++ (arg ∷ args) ∷ []) called))
  unfolding read_line print_string begin_line is_command whitespacespn dbyy_add_cmd
  read_cmd_line arg args w rule cmds called b =
      let text = print_string arg (print_args args (b'\n' ∷ [])) in
      let len : suc (length args) < suc (suc (length text)) = omega (
        arith,
        length-print_string arg (print_args args (b'\n' ∷ [])),
        length-print_args args (b'\n' ∷ []),
      ) in
      items_args strtol strtoll reads_hex arg args (suc (suc (length text)))
        (reader true rule (cmds ++ [] ∷ []) called) b.0 b.1 len
      ∙ ap (λ c. done (some (reader true rule c called)))
          (add_args-snoc strtol strtoll reads_hex cmds [] (arg ∷ args))

  read_empty_cmd_line :
      (w : Bool) (rule : Option (Bytes × Bytes)) (cmds : Cmd) (called : List Entry)
      → read_line strtol strtoll (reader w rule cmds called) (b'\t' ∷ b'\n' ∷ [])
        ≡ done (some (reader true rule (cmds ++ [] ∷ []) called))
  unfolding read_line
  read_empty_cmd_line w rule cmds called = refl

  cmd_line :
      (args : List Bytes) (rest : Bytes) (w : Bool) (rule : Option (Bytes × Bytes)) (cmds : Cmd)
      (called : List Entry)
      → All IsBytes args
      → reads (reader w rule cmds called) (print_cmd args rest)
        ≡ reads (reader true rule (cmds ++ args ∷ []) called) rest
  unfolding print_cmd
  cmd_line [] rest w rule cmds called b =
      reads_line (λ x. b'\t' ∷ x) rest _ _ (Prints-byte b'\t' refl)
        (read_empty_cmd_line w rule cmds called)
  cmd_line (arg ∷ args) rest w rule cmds called b =
      reads_line (λ x. b'\t' ∷ print_string arg (print_args args x)) rest _ _
        (Prints-comp (λ x. b'\t' ∷ x) (λ x. print_string arg (print_args args x))
          (Prints-byte b'\t' refl)
          (Prints-comp (print_string arg) (print_args args) (Prints-string arg b.0)
            (Prints-args args b.1)))
        (read_cmd_line arg args w rule cmds called b)

  pub cmd_lines :
      (cmds' : Cmd) (rest : Bytes) (w : Bool) (rule : Option (Bytes × Bytes)) (cmds : Cmd)
      (called : List Entry)
      → All (All IsBytes) cmds'
      → reads (reader w rule cmds called) (print_cmds cmds' rest)
        ≡ reads (reader (has_commands cmds' || w) rule (cmds ++ cmds') called) rest
  unfolding print_cmds
  cmd_lines [] rest w rule cmds called b =
      ap (λ c. reads (reader w rule c called) rest) (sym (append-nil cmds))
  cmd_lines (c ∷ cmds') rest w rule cmds called b =
      cmd_line c (print_cmds cmds' rest) w rule cmds called b.0
      ∙ cmd_lines cmds' rest true rule (cmds ++ c ∷ []) called b.1
      ∙ ap (λ x. reads (reader x rule (cmds ++ c ∷ [] ++ cmds') called) rest)
          (or_true (has_commands cmds'))
      ∙ ap (λ x. reads (reader true rule x called) rest) (append_assoc cmds (c ∷ []) cmds')

  pub empty_line :
      (w : Bool) (dir tgt : Bytes) (cmds : Cmd) (called : List Entry) (rest : Bytes)
      → reads (reader w (some (dir, tgt)) cmds called) (b'\n' ∷ rest)
        ≡ reads (reader false (some (dir, tgt)) cmds (closed w dir tgt cmds called)) rest
  unfolding read_lines getlines
  empty_line true dir tgt cmds called rest = refl
  empty_line false dir tgt cmds called rest = refl

  pub first_empty_line :
      (rule : Option (Bytes × Bytes)) (cmds : Cmd) (called : List Entry) (rest : Bytes)
      → reads (reader false rule cmds called) (b'\n' ∷ rest)
        ≡ reads (reader false rule cmds called) rest
  unfolding read_lines getlines
  first_empty_line rule cmds called rest = refl

  pub at_end :
      (w : Bool) (dir tgt : Bytes) (cmds : Cmd) (called : List Entry)
      → Calls (reads (reader w (some (dir, tgt)) cmds called) []) (closed w dir tgt cmds called)
  unfolding read_lines getlines
  at_end true dir tgt cmds called = (_, refl, refl)
  at_end false dir tgt cmds called = (_, refl, refl)
