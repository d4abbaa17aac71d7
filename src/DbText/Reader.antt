-- ===== src/DbText/Reader.antt =====
-- dbyymineparse of stirc/dbnonyy.c with the functions of stirc/dbyy.h, and mygetline of
-- stirc/mygetline.c. The strings lie in the line's buffer in C, which dbyy_escape_string shortens in
-- place; here they are values.
use stirmake.Prelude.{
  ℕ, zero, suc, ◌==◌, leb, if◌then◌else◌, Bool, true, false, not, ◌&&◌, ◌||◌, Option, none, some,
  List, [], ◌∷◌, ◌++◌, length, drop, str_eq,
}
use stirmake.Prelude.Results.{Outcome, out_of_fuel, aborted, exited, done, and_then}
use stirmake.Canon.{Bytes}
use stirmake.Db.{Cmd}
use stirmake.DbText.{unescape}

-- A call of cmdfn with the directory, the target and the commands, or of tsfn with the file, its size,
-- the seconds and the nanoseconds.
pub data Entry : Type 0 where
  of_rule : Bytes → Bytes → Cmd → Entry
  of_file : Bytes → ℕ → ℕ → ℕ → Entry

-- struct dbyy and the variables of dbyymineparse that outlive a line; `called` has the calls so far.
pub record Reader : Type 0 where
  pub is_v2 : Bool
  pub was_is_cmd : Bool
  pub rule : Option (Bytes × Bytes)
  pub cmds : Cmd
  pub called : List Entry

-- The variables of a line.
pub record Line : Type 0 where
  pub first_string : Option Bytes
  pub two_strings_already : Bool
  pub colon : Bool
  pub nums : List ℕ

-- A round of the loop over a line: the line ends, the loop goes on, or dbyymineparse returns -1.
pub data Next : Type 0 where
  line_ends : Reader → Next
  goes_on : Line → Reader → Bytes → Next
  refused : Next

unfoldable pub whitespacespn : Bytes → ℕ
whitespacespn [] = 0
whitespacespn (c ∷ cs) = let n = whitespacespn cs in if c == b' ' || c == b'\t' then suc n else 0

unfoldable pub isdigit : ℕ → Bool
isdigit c = leb b'0' c && leb c b'9'

-- cmdsbuf[cmdssz - 1] gets one more argument.
unfoldable pub dbyy_add_arg : Cmd → Bytes → Cmd
dbyy_add_arg [] arg = []
dbyy_add_arg (c ∷ []) arg = (c ++ arg ∷ []) ∷ []
dbyy_add_arg (c ∷ d ∷ cs) arg = c ∷ dbyy_add_arg (d ∷ cs) arg

unfoldable pub dbyy_add_cmd : Reader → Reader
dbyy_add_cmd r = record r { cmds = r.cmds ++ [] ∷ [] }

-- Without a rule it takes rules[-1], which is `aborted`.
unfoldable pub dbyy_post_cmds : Reader → Outcome Reader
dbyy_post_cmds r = elim r.rule [
  | none ↦ aborted
  | some rule ↦ done (record r { called = r.called ++ of_rule rule.0 rule.1 r.cmds ∷ [] })
]

unfoldable pub dbyy_emplace_rule : Reader → Bytes → Bytes → Reader
dbyy_emplace_rule r dir tgt = record r { cmds = []; rule = some (dir, tgt) }

-- Without a string it copies from a null pointer, which is `aborted`.
unfoldable pub dbyy_emplace_tsdb : Reader → Option Bytes → ℕ → ℕ → ℕ → Outcome Next
dbyy_emplace_tsdb r none sz sec nsec = aborted
dbyy_emplace_tsdb r (some tgt) sz sec nsec =
    done (line_ends (record r { called = r.called ++ of_file tgt sz sec nsec ∷ [] }))

-- What follows a piece of the line, behind white space.
unfoldable pub resume : Line → Reader → Bytes → Outcome Next
resume l r [] = done (line_ends r)
resume l r (c ∷ cs) = done (goes_on l r (c ∷ cs))

unfoldable pub may_follow : Bytes → Bool
may_follow [] = true
may_follow (c ∷ cs) = c == b'\n' || c == b'=' || c == b':'

unfoldable pub take_string : Bool → Line → Reader → Bytes → Bytes → Outcome Next
unfolding dbyy_add_arg dbyy_emplace_rule resume
take_string true l r es rest = resume l (record r { cmds = dbyy_add_arg r.cmds es }) rest
take_string false l r es rest = elim l.first_string [
  | none ↦ resume (record l { first_string = some es }) r rest
  | some first ↦
      resume (record l { first_string = none; two_strings_already = true })
        (dbyy_emplace_rule r first es) rest
]

unfoldable pub read_string : Bool → Line → Reader → Bytes → Bytes → Outcome Next
unfolding take_string whitespacespn may_follow
read_string is_cmd l r es [] = done (line_ends r)
read_string is_cmd l r es (c ∷ cs) =
    let len2 = whitespacespn (c ∷ cs) in
    if len2 == 0 && not (may_follow (c ∷ cs)) then done refused else elim (drop len2 (c ∷ cs)) [
      | [] ↦ done (line_ends r)
      | d ∷ ds ↦ take_string is_cmd l r es (d ∷ ds)
    ]

unfoldable pub end_line : Bool → Line → Reader → Outcome Next
unfolding dbyy_emplace_tsdb
end_line true l r = done (line_ends r)
end_line false l r = elim l.nums [
  | [] ↦ elim l.first_string [
    | none ↦ done (line_ends r)
    | some _ ↦ if not l.two_strings_already || not l.colon then done refused else done (line_ends r)
  ]
  | sz ∷ sec ∷ nsec ∷ [] ↦ dbyy_emplace_tsdb r l.first_string sz sec nsec
  | _ ↦ if not l.two_strings_already || not l.colon then done refused else done (line_ends r)
]

abbrev pub fresh_line : Line
fresh_line = record { first_string = none; two_strings_already = false; colon = false; nums = [] }

-- The end of a round with the rounds that follow.
unfoldable pub go_on :
    (Line → Reader → Bytes → Outcome (Option Reader)) → Outcome Next → Outcome (Option Reader)
go_on rounds out_of_fuel = out_of_fuel
go_on rounds aborted = aborted
go_on rounds exited = exited
go_on rounds (done (line_ends r)) = done (some r)
go_on rounds (done (goes_on l r s)) = rounds l r s
go_on rounds (done refused) = done none

-- The end of a line with the lines that follow.
unfoldable pub go_on_lines :
    (Reader → Outcome (Option Reader)) → Outcome (Option Reader) → Outcome (Option Reader)
go_on_lines lines out_of_fuel = out_of_fuel
go_on_lines lines aborted = aborted
go_on_lines lines exited = exited
go_on_lines lines (done none) = done none
go_on_lines lines (done (some r)) = lines r

unfoldable pub is_command : Bytes → Bool
is_command [] = false
is_command (c ∷ cs) = c == b'\t'

unfoldable pub begin_line : Bool → Reader → Outcome Reader
unfolding dbyy_add_cmd dbyy_post_cmds
begin_line true r = done (record (dbyy_add_cmd r) { was_is_cmd = true })
begin_line false r =
    and_then (if r.was_is_cmd then dbyy_post_cmds r else done r)
      (λ r'. done (record r' { was_is_cmd = false }))

module _ (strtol : Bytes → Option ℕ) (strtoll : Bytes → ℕ × Bytes) where
  -- A round of the loop at the byte lineptr[len], and what stands from there on.
  unfoldable pub item : Bool → Line → Reader → Bytes → Outcome Next
  unfolding read_string end_line resume whitespacespn isdigit
  item is_cmd l r [] = end_line is_cmd l r
  item is_cmd l r (c ∷ cs) =
      if c == b'"'
      then (if l.two_strings_already
          then done refused
          else elim (unescape strtol (suc (length cs)) 0 cs) [
            | out_of_fuel ↦ out_of_fuel
            | aborted ↦ aborted
            | exited ↦ exited
            | done none ↦ done refused
            | done (some (es, rest)) ↦ read_string is_cmd l r es rest
          ])
      else if c == b':'
      then (if not l.two_strings_already
          then done refused
          else resume (record l { colon = true }) r (drop (whitespacespn cs) cs))
      else if c == b'='
      then (if not r.is_v2 then done refused else resume l r (drop (whitespacespn cs) cs))
      else if isdigit c
      then (if not r.is_v2
          then done refused
          else if leb 3 (length l.nums)
          then done refused
          else (let read = strtoll (c ∷ cs) in
              resume (record l { nums = l.nums ++ read.0 ∷ [] }) r
                (drop (whitespacespn read.1) read.1)))
      else if c == b'\n'
      then end_line is_cmd l r
      else done refused

  -- The loop over a line on fuel; `none` where dbyymineparse returns -1.
  unfoldable pub items : ℕ → Bool → Line → Reader → Bytes → Outcome (Option Reader)
  unfolding item go_on
  items zero is_cmd l r s = out_of_fuel
  items (suc fuel) is_cmd l r s = go_on (items fuel is_cmd) (item is_cmd l r s)

  unfoldable pub read_line : Reader → Bytes → Outcome (Option Reader)
  unfolding is_command begin_line items whitespacespn
  read_line r s =
      and_then (begin_line (is_command s) r)
        (λ r'. items (suc (length s)) (is_command s) fresh_line r' (drop (whitespacespn s) s))

  unfoldable pub read_lines : Reader → List Bytes → Outcome (Option Reader)
  unfolding read_line dbyy_post_cmds go_on_lines
  read_lines r [] =
      and_then (if r.was_is_cmd then dbyy_post_cmds r else done r) (λ r'. done (some r'))
  read_lines r (s ∷ lines) = go_on_lines (λ r'. read_lines r' lines) (read_line r s)

-- mygetline until the end of the file: the lines with their '\n'.
unfoldable pub getlines : Bytes → List Bytes
getlines [] = []
getlines (c ∷ cs) =
    let lines = getlines cs in
    if c == b'\n'
    then (c ∷ []) ∷ lines
    else elim lines [ [] ↦ (c ∷ []) ∷ [] | line ∷ more ↦ (c ∷ line) ∷ more ]

abbrev pub fresh_reader : Bool → Reader
fresh_reader is_v2 = record {
  is_v2 = is_v2;
  was_is_cmd = false;
  rule = none;
  cmds = [];
  called = [];
}

abbrev pub v1 : Bytes
v1 = b'@' ∷ b'v' ∷ b'1' ∷ b'@' ∷ b'\n' ∷ []

abbrev pub v2 : Bytes
v2 = b'@' ∷ b'v' ∷ b'2' ∷ b'@' ∷ b'\n' ∷ []

unfoldable pub dbyymineparse :
    (Bytes → Option ℕ) → (Bytes → ℕ × Bytes) → Bytes → Outcome (Option Reader)
unfolding read_lines getlines str_eq
dbyymineparse strtol strtoll s = elim (getlines s) [
  | [] ↦ read_lines strtol strtoll (fresh_reader false) []
  | line ∷ lines ↦
      if str_eq line v2
      then read_lines strtol strtoll (fresh_reader true) lines
      else if str_eq line v1
      then read_lines strtol strtoll (fresh_reader false) lines
      else read_lines strtol strtoll (fresh_reader false) (line ∷ lines)
]
