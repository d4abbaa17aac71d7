-- ===== src/DbText/Items.antt =====
-- The pieces of a line as merge_db_v2 prints them, read back.
use stirmake.Prelude.{
  ℕ, zero, suc, ◌<◌, ◌≡◌, refl, ap, ◌∙◌, Bool, true, false, Option, some, List, [], ◌∷◌, ◌++◌,
  append-nil, append_assoc, length, length-append, All, arith,
}
use stirmake.Prelude.Results.{done}
use stirmake.Canon.{Bytes}
use stirmake.Db.{Cmd}
use stirmake.DbText.{file_escape_string}
use stirmake.DbText.Unescape.{ReadsHex, unescape_escaped, length-file_escape_string}
use stirmake.DbText.Reader.{
  Reader, Line, line_ends, goes_on, dbyy_add_arg, dbyy_emplace_rule, read_string, end_line, item,
  items, go_on, fresh_line,
}
use stirmake.DbText.Writer.{print_string, print_args}

abbrev pub IsBytes : Bytes → Type 0
IsBytes s = All (λ c. c < 256) s

dbyy_add_arg-snoc :
    (cmds : Cmd) (cmd : List Bytes) (arg : Bytes)
    → dbyy_add_arg (cmds ++ cmd ∷ []) arg ≡ cmds ++ (cmd ++ arg ∷ []) ∷ []
unfolding dbyy_add_arg
dbyy_add_arg-snoc [] cmd arg = refl
dbyy_add_arg-snoc (c ∷ []) cmd arg = refl
dbyy_add_arg-snoc (c ∷ d ∷ cs) cmd arg = ap (λ x. c ∷ x) (dbyy_add_arg-snoc (d ∷ cs) cmd arg)

module _ (strtol : Bytes → Option ℕ) (strtoll : Bytes → ℕ × Bytes)
    (reads_hex : ReadsHex strtol) where
  pub string_item :
      (is_cmd : Bool) (l : Line) (r : Reader) (s rest : Bytes)
      → IsBytes s
      → l.two_strings_already ≡ false
      → item strtol strtoll is_cmd l r (print_string s rest) ≡ read_string is_cmd l r s rest
  unfolding item print_string
  string_item is_cmd l r s rest bytes two =
      let len = length-append (file_escape_string s) (b'"' ∷ rest) in
      let enough : length s < suc (length (file_escape_string s ++ b'"' ∷ rest)) =
        omega (arith, len, length-file_escape_string s) in
      let read = unescape_escaped strtol reads_hex s _ 0 rest bytes enough in simp (two, read)

  pub add_args : Cmd → List Bytes → Cmd
  add_args cmds [] = cmds
  add_args cmds (arg ∷ args) = add_args (dbyy_add_arg cmds arg) args

  pub items_go :
      (is_cmd : Bool) (l : Line) (r : Reader) (s : Bytes) (fuel : ℕ) {l' : Line} {r' : Reader}
      {s' : Bytes}
      → item strtol strtoll is_cmd l r s ≡ done (goes_on l' r' s')
      → items strtol strtoll (suc fuel) is_cmd l r s ≡ items strtol strtoll fuel is_cmd l' r' s'
  unfolding items
  items_go is_cmd l r s fuel h = ap (go_on (items strtol strtoll fuel is_cmd)) h

  pub items_end :
      (is_cmd : Bool) (l : Line) (r : Reader) (s : Bytes) (fuel : ℕ) {r' : Reader}
      → item strtol strtoll is_cmd l r s ≡ done (line_ends r')
      → items strtol strtoll (suc fuel) is_cmd l r s ≡ done (some r')
  unfolding items
  items_end is_cmd l r s fuel h = ap (go_on (items strtol strtoll fuel is_cmd)) h

  pub newline_item :
      (is_cmd : Bool) (l : Line) (r : Reader)
      → item strtol strtoll is_cmd l r (b'\n' ∷ []) ≡ end_line is_cmd l r
  unfolding item
  newline_item is_cmd l r = refl

  read_arg_last :
      (r : Reader) (arg : Bytes)
      → read_string true fresh_line r arg (b'\n' ∷ [])
        ≡ done (goes_on fresh_line (record r { cmds = dbyy_add_arg r.cmds arg }) (b'\n' ∷ []))
  unfolding read_string
  read_arg_last r arg = refl

  read_arg_space :
      (r : Reader) (arg rest : Bytes)
      → read_string true fresh_line r arg (b' ' ∷ b'"' ∷ rest)
        ≡ done (goes_on fresh_line (record r { cmds = dbyy_add_arg r.cmds arg }) (b'"' ∷ rest))
  unfolding read_string
  read_arg_space r arg rest = refl

  pub items_args :
      (arg : Bytes) (args : List Bytes) (fuel : ℕ) (r : Reader)
      → IsBytes arg
      → All IsBytes args
      → suc (length args) < fuel
      → items strtol strtoll fuel true fresh_line r
          (print_string arg (print_args args (b'\n' ∷ [])))
        ≡ done (some (record r { cmds = add_args r.cmds (arg ∷ args) }))
  unfolding print_args print_string add_args end_line
  items_args arg args zero r b bs l = absurd (omega arith)
  items_args arg args (suc zero) r b bs l = absurd (omega arith)
  items_args arg [] (suc (suc fuel)) r b bs l =
      items_go true fresh_line r _ (suc fuel)
        (string_item true fresh_line r arg (b'\n' ∷ []) b refl ∙ read_arg_last r arg)
      ∙ items_end _ _ _ _ fuel (newline_item true fresh_line _)
  items_args arg (arg' ∷ args) (suc fuel) r b bs l =
      items_go true fresh_line r _ fuel
        (string_item true fresh_line r arg _ b refl ∙ read_arg_space r arg _)
      ∙ items_args arg' args fuel (record r { cmds = dbyy_add_arg r.cmds arg }) bs.0 bs.1
          (omega arith)

  read_first :
      (r : Reader) (dir rest : Bytes)
      → read_string false fresh_line r dir (b' ' ∷ b'"' ∷ rest)
        ≡ done (goes_on (record fresh_line { first_string = some dir }) r (b'"' ∷ rest))
  unfolding read_string
  read_first r dir rest = refl

  read_second :
      (r : Reader) (dir tgt : Bytes)
      → read_string false (record fresh_line { first_string = some dir }) r tgt (b':' ∷ b'\n' ∷ [])
        ≡ done (
            goes_on
              (record fresh_line { two_strings_already = true })
              (dbyy_emplace_rule r dir tgt)
              (b':' ∷ b'\n' ∷ []))
  unfolding read_string
  read_second r dir tgt = refl

  colon_item :
      (l : Line) (r : Reader)
      → l.two_strings_already ≡ true
      → item strtol strtoll false l r (b':' ∷ b'\n' ∷ [])
        ≡ done (goes_on (record l { colon = true }) r (b'\n' ∷ []))
  unfolding item
  colon_item l r two = simp two

  pub add_args-snoc :
      (cmds : Cmd) (cmd args : List Bytes)
      → add_args (cmds ++ cmd ∷ []) args ≡ cmds ++ (cmd ++ args) ∷ []
  unfolding add_args
  add_args-snoc cmds cmd [] = rw (append-nil cmd)
  add_args-snoc cmds cmd (arg ∷ args) =
      ap (λ c. add_args c args) (dbyy_add_arg-snoc cmds cmd arg)
      ∙ add_args-snoc cmds (cmd ++ arg ∷ []) args
      ∙ ap (λ c. cmds ++ c ∷ []) (append_assoc cmd (arg ∷ []) args)

  -- The line of a rule.
  pub items_rule :
      (dir tgt : Bytes) (fuel : ℕ) (r : Reader)
      → IsBytes dir
      → IsBytes tgt
      → items strtol strtoll
          (suc (suc (suc (suc fuel))))
          false
          fresh_line
          r
          (print_string dir (b' ' ∷ print_string tgt (b':' ∷ b'\n' ∷ [])))
        ≡ done (some (dbyy_emplace_rule r dir tgt))
  unfolding print_string dbyy_emplace_rule end_line
  items_rule dir tgt fuel r b b' =
      items_go false fresh_line r _ _
        (string_item false fresh_line r dir _ b refl ∙ read_first r dir _)
      ∙ items_go false _ r _ _ (string_item false _ r tgt _ b' refl ∙ read_second r dir tgt)
      ∙ items_go false _ _ _ _ (colon_item _ _ refl)
      ∙ items_end _ _ _ _ fuel (newline_item false _ _)
