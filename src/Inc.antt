-- ===== src/Inc.antt =====
-- The reader of dependency files: stirc/incnonyy.c with the functions of stirc/incyy.h, for a caller
-- that gives the functions fnrule, fntarget and fndep. The text of a line is the list of its bytes
-- from `start` on: the reader puts back a space where it has cut the line. Behind the NUL of a line
-- without '\n' it reads on, which has no effect here.
pub mod Sets
pub mod Words
pub mod RoundTrip
pub mod Files
pub mod Ends
pub mod Refusals
mod Tests
use stirmake.Prelude.{
  ℕ, zero, suc, ◌+◌, ◌^◌, ◌/◌, ◌%◌, ◌==◌, leb, if◌then◌else◌, Bool, true, false, not, ◌&&◌, ◌||◌,
  Option, none, some, List, [], ◌∷◌, ◌++◌, length, get_or, set, foldl, str_eq,
}
use stirmake.Prelude.Results.{Outcome, out_of_fuel, aborted, exited, done, and_then}
use stirmake.Canon.{Bytes, pathcat2, canon, starts_with_slash}
use stirmake.DbText.Reader.{getlines}

-- A call of fnrule, fntarget or fndep.
pub data Item : Type 0 where
  for_rule : Item
  for_target for_dep : Bytes → Item

-- struct incyy; `called` has the calls so far.
pub record Incyy : Type 0 where
  pub prefix : Bytes
  pub fnamenodir : Bytes
  pub auto_target : Bool
  pub called : List Item

-- (set >> uch) & 1
unfoldable pub has_bit : ℕ → ℕ → Bool
has_bit w k = w / (2 ^ k) % 2 == 1

unfoldable pub inset_ascii : ℕ → Bool
unfolding has_bit
inset_ascii ch =
    if ch == b'\\' then true else if leb 64 ch then false else has_bit 288230449166157313 ch

unfoldable pub inset_set : List ℕ → ℕ → Bool
unfolding has_bit
inset_set words ch = has_bit (get_or words (ch / 64) 0) (ch % 64)

-- set[ch/64] |= 1ULL<<(ch%64)
unfoldable pub add_bit : List ℕ → ℕ → List ℕ
unfolding has_bit
add_bit words ch =
    let w = get_or words (ch / 64) 0 in
    if has_bit w (ch % 64) then words else set words (ch / 64) (w + 2 ^ (ch % 64))

-- The set that incyymineparse makes.
unfoldable pub line_set : List ℕ
unfolding add_bit
line_set = foldl add_bit (0 ∷ 0 ∷ 0 ∷ 0 ∷ []) (b'\\' ∷ b'\t' ∷ b'\n' ∷ b' ' ∷ b':' ∷ b'$' ∷ 0 ∷ [])

unfoldable pub is_space : ℕ → Bool
is_space c = c == b' ' || c == b'\t'

-- What is behind the white space, where `some_before` tells that there was some already.
unfoldable pub myspn_from : Bool → Bytes → Bytes
unfolding is_space
myspn_from some_before [] = []
myspn_from some_before (c ∷ []) = if is_space c then [] else c ∷ []
myspn_from some_before (c ∷ d ∷ ds) = elim (is_space c) [
  | true ↦ myspn_from true (d ∷ ds)
  | false ↦ elim (some_before && c == b'\\' && d == b'\n') [
    | true ↦ myspn_from true ds
    | false ↦ c ∷ d ∷ ds
  ]
]

unfoldable pub myspn : Bytes → Bytes
unfolding myspn_from
myspn s = myspn_from false s

-- The text before the end of the word, had_escapes, and the text from there on.
pub record Word : Type 0 where
  pub word : Bytes
  pub had_escapes : Bool
  pub rest : Bytes

abbrev pub longer : Bytes → Bool → Word → Word
longer s escapes w = record {
  word = s ++ w.word;
  had_escapes = escapes || w.had_escapes;
  rest = w.rest;
}

-- mycspn_ascii and mycspn_set, with the test for the end of a word.
unfoldable pub mycspn : (ℕ → Bool) → Bytes → Word
mycspn inset [] = record { word = []; had_escapes = false; rest = [] }
mycspn inset (c ∷ []) =
    if inset c
    then record { word = []; had_escapes = false; rest = c ∷ [] }
    else record { word = c ∷ []; had_escapes = false; rest = [] }
mycspn inset (c ∷ d ∷ ds) = elim (inset c) [
  | false ↦ longer (c ∷ []) false (mycspn inset (d ∷ ds))
  | true ↦ elim (c == b'\\' || c == b'$') [
    | true ↦ longer (c ∷ d ∷ []) true (mycspn inset ds)
    | false ↦ record { word = []; had_escapes = false; rest = c ∷ d ∷ ds }
  ]
]

abbrev pub cons_to : ℕ → Option Bytes → Option Bytes
cons_to c none = none
cons_to c (some w) = some (c ∷ w)

-- The loop that takes the escapes out of a word; `none` is the return of -1.
unfoldable pub unescape_word : Bytes → Option Bytes
unescape_word [] = some []
unescape_word (c ∷ []) = if c == b'\\' || c == b'$' then none else some (c ∷ [])
unescape_word (c ∷ d ∷ ds) = elim (c == b'\\') [
  | true ↦ cons_to d (unescape_word ds)
  | false ↦ elim (c == b'$') [
    | true ↦ elim (d == b'$') [ true ↦ cons_to d (unescape_word ds) | false ↦ none ]
    | false ↦ cons_to c (unescape_word (d ∷ ds))
  ]
]

-- The name that incyy_set_tgt and incyy_set_dep give to canon.
unfoldable pub path_of : Incyy → Bytes → Bytes
unfolding starts_with_slash str_eq
path_of y name =
    if starts_with_slash name || str_eq y.prefix (b'.' ∷ []) then name else pathcat2 y.prefix name

unfoldable pub incyy_set_tgt : Incyy → Bytes → Outcome Incyy
unfolding path_of
incyy_set_tgt y tgt = elim (canon (path_of y tgt)) [
  | none ↦ aborted
  | some can ↦ done (record y { called = y.called ++ for_target can ∷ [] })
]

unfoldable pub incyy_set_dep : Incyy → Bytes → Outcome Incyy
unfolding path_of
incyy_set_dep y dep = elim (canon (path_of y dep)) [
  | none ↦ aborted
  | some can ↦ done (record y { called = y.called ++ for_dep can ∷ [] })
]

unfoldable pub incyy_emplace_rule : Incyy → Outcome Incyy
unfolding incyy_set_tgt
incyy_emplace_rule y =
    let called = record y { called = y.called ++ for_rule ∷ [] } in
    if y.auto_target then incyy_set_tgt called y.fnamenodir else done called

-- A word that is not empty is given to incyy_set_tgt or incyy_set_dep. `exited` is the return of -1,
-- where the callers call errxit.
unfoldable pub take_word : (Incyy → Bytes → Outcome Incyy) → Word → Incyy → Outcome Incyy
unfolding unescape_word
take_word set_name w y = elim w.word [
  | [] ↦ done y
  | c ∷ cs ↦ elim w.had_escapes [
    | false ↦ set_name y (c ∷ cs)
    | true ↦ elim (unescape_word (c ∷ cs)) [ none ↦ exited | some name ↦ set_name y name ]
  ]
]

-- A round of `while (!had_colon)`: had_colon, and the text from the next `start` on.
unfoldable pub target_round : Word → Incyy → Outcome (Bool × Bytes × Incyy)
unfolding take_word incyy_set_tgt myspn
target_round w y = elim w.rest [
  | [] ↦ exited
  | c ∷ cs ↦ elim (c == b'\n') [
    | true ↦ exited
    | false ↦ and_then (take_word incyy_set_tgt w y) (λ z. done (c == b':', myspn (b' ' ∷ cs), z))
  ]
]

-- On fuel.
unfoldable pub target_loop : ℕ → Bytes → Incyy → Outcome (Bytes × Incyy)
unfolding mycspn inset_ascii target_round
target_loop zero s y = out_of_fuel
target_loop (suc fuel) s y =
    and_then (target_round (mycspn inset_ascii s) y) (λ (had_colon, next, z). elim had_colon [
      | true ↦ done (next, z)
      | false ↦ target_loop fuel next z
    ])

-- A round of `while (!had_end)`.
unfoldable pub dep_round : Word → Incyy → Outcome (Bool × Bytes × Incyy)
unfolding take_word incyy_set_dep myspn
dep_round w y = elim w.rest [
  | [] ↦ and_then (take_word incyy_set_dep w y) (λ z. done (true, [], z))
  | c ∷ cs ↦ elim (c == b':') [
    | true ↦ exited
    | false ↦ and_then (take_word incyy_set_dep w y) (λ z. done (c == b'\n', myspn (b' ' ∷ cs), z))
  ]
]

unfoldable pub dep_loop : ℕ → Bytes → Incyy → Outcome Incyy
unfolding mycspn inset_ascii dep_round
dep_loop zero s y = out_of_fuel
dep_loop (suc fuel) s y =
    and_then (dep_round (mycspn inset_ascii s) y)
      (λ (had_end, next, z). elim had_end [ true ↦ done z | false ↦ dep_loop fuel next z ])

-- Each round of the loops takes a byte at least.
unfoldable pub handle_line : Bytes → Incyy → Outcome Incyy
unfolding myspn incyy_emplace_rule target_loop dep_loop
handle_line line y = elim (myspn line) [
  | [] ↦ done y
  | c ∷ cs ↦ elim (c == b'\n') [
    | true ↦ done y
    | false ↦ and_then (incyy_emplace_rule y) (λ z.
        and_then (target_loop (suc (length (c ∷ cs))) (c ∷ cs) z)
          (λ (s, u). dep_loop (suc (length s)) s u))
  ]
]

-- Whether the line without its '\n' ends in a backslash that is not escaped.
unfoldable pub ends_escaped : Bool → Bytes → Bool
ends_escaped escape [] = false
ends_escaped escape (c ∷ []) = escape && c == b'\n'
ends_escaped escape (c ∷ d ∷ ds) = ends_escaped (not escape && c == b'\\') (d ∷ ds)

-- The loop over the lines; `pending` is what was read of a line that goes on.
unfoldable pub parse_lines : Option Bytes → List Bytes → Incyy → Outcome Incyy
unfolding ends_escaped handle_line
parse_lines none [] y = done y
parse_lines (some line) [] y = exited
parse_lines pending (l ∷ ls) y =
    let line : Bytes = elim pending [ none ↦ l | some before ↦ before ++ l ] in
    elim (ends_escaped false l) [
      | true ↦ parse_lines (some line) ls y
      | false ↦ and_then (handle_line line y) (λ z. parse_lines none ls z)
    ]

unfoldable pub incyymineparse : Bytes → Incyy → Outcome Incyy
unfolding getlines parse_lines
incyymineparse text y = parse_lines none (getlines text) y
