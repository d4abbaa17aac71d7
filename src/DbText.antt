-- ===== src/DbText.antt =====
-- The text of the database .stir.db: file_escape_string of stirc/yyutils.c and merge_db_v2 of
-- stirc/stirmake.c write it, dbyymineparse of stirc/dbnonyy.c reads it. strtol and strtoll are those
-- of the C library.
pub mod Unescape
pub mod Reader
pub mod Writer
pub mod Items
pub mod Numbers
pub mod Lines
pub mod Records
pub mod Files
pub mod RoundTrip
pub mod Load
pub mod Reload
pub mod Restart
pub mod Merge
pub mod Recorded
pub mod Ends
pub mod ReaderEnds
mod Decimal
mod Tests
use stirmake.Prelude.{
  ℕ, zero, suc, ◌+◌, ◌-◌, ◌/◌, ◌%◌, ◌==◌, ltb, leb, if◌then◌else◌, Bool, true, false, not, ◌&&◌,
  ◌||◌, Option, none, some, List, [], ◌∷◌, ◌++◌, length,
}
use stirmake.Prelude.Results.{Outcome, out_of_fuel, aborted, exited, done, and_then}
use stirmake.Canon.{Bytes}

-- acceptchars, as acceptchars_init leaves it where the character set is ASCII
pub accepts : ℕ → Bool
accepts c = leb 32 c && ltb c 127 && not (c == b'"') && not (c == b'\'') && not (c == b'\\')

pub hexdigit : ℕ → ℕ
hexdigit d = if ltb d 10 then d + b'0' else d - 10 + b'a'

-- rejectchars
pub rejectchar : ℕ → Bytes
unfolding hexdigit
rejectchar c =
    if c == b'"' || c == b'\'' || c == b'\\'
    then b'\\' ∷ c ∷ []
    else if c == b'\n'
    then b'\\' ∷ b'n' ∷ []
    else if c == b'\r'
    then b'\\' ∷ b'r' ∷ []
    else if c == b'\t'
    then b'\\' ∷ b't' ∷ []
    else b'\\' ∷ b'x' ∷ hexdigit (c / 16) ∷ hexdigit (c % 16) ∷ []

pub file_escape_string : Bytes → Bytes
unfolding accepts rejectchar
file_escape_string [] = []
file_escape_string (c ∷ cs) = (if accepts c then c ∷ [] else rejectchar c) ++ file_escape_string cs

pub utf8 : ℕ → Bytes
utf8 u =
    if leb u 127
    then u ∷ []
    else if leb u 2047
    then (192 + u / 64) ∷ (128 + u % 64) ∷ []
    else (224 + u / 4096) ∷ (128 + u / 64 % 64) ∷ (128 + u % 64) ∷ []

-- The string and what follows its closing quote; `none` where the string is not closed.
abbrev pub Unescaped : Type 0
Unescaped = Outcome (Option (Bytes × Bytes))

pub prepend : Bytes → Unescaped → Unescaped
prepend bs (done (some (s, rest))) = done (some (bs ++ s, rest))
prepend bs u = u

pub plain : ℕ → ℕ
plain d = if d == b't' then b'\t' else if d == b'r' then b'\r' else if d == b'n' then b'\n' else d

-- `strtol` is strtol(..., 16) of a whole text, `none` where it does not read all of it.
module _ (strtol : Bytes → Option ℕ) where
  -- Behind \x and \u; `go` reads what follows.
  pub escape_x : (Bytes → Unescaped) → Bytes → Unescaped
  unfolding prepend
  escape_x go (h ∷ l ∷ rest) = elim (strtol (h ∷ l ∷ [])) [
    | none ↦ exited
    | some n ↦ prepend (n % 256 ∷ []) (go rest)
  ]
  escape_x go (h ∷ []) = exited
  escape_x go [] = exited

  pub escape_u : (Bytes → Unescaped) → Bytes → Unescaped
  unfolding prepend utf8
  escape_u go (a ∷ b ∷ h ∷ l ∷ rest) = elim (strtol (a ∷ b ∷ h ∷ l ∷ [])) [
    | none ↦ exited
    | some n ↦ prepend (utf8 (n % 65536)) (go rest)
  ]
  escape_u go (a ∷ b ∷ h ∷ []) = exited
  escape_u go (a ∷ b ∷ []) = exited
  escape_u go (a ∷ []) = exited
  escape_u go [] = exited

  -- Behind a backslash.
  pub escape : (Bytes → Unescaped) → Bytes → Unescaped
  unfolding escape_x escape_u plain prepend
  escape go [] = aborted
  escape go (d ∷ ds) =
      if d == b'x'
      then escape_x go ds
      else if d == b'u'
      then escape_u go ds
      else prepend (plain d ∷ []) (go ds)

  -- dbyy_escape_string behind the opening quote, on fuel. `more` counts the copies that may follow in a
  -- round of the loop without a test for the end of the line: the end among them is read over, and so
  -- is one behind a backslash, which is `aborted`.
  pub unescape : ℕ → ℕ → Bytes → Unescaped
  unfolding prepend escape
  unescape zero more s = out_of_fuel
  unescape (suc fuel) more [] = if more == 0 then done none else aborted
  unescape (suc fuel) more (c ∷ cs) =
      let copied = prepend (c ∷ []) (unescape fuel (if more == 0 then 7 else more - 1) cs) in
      if c == b'"'
      then done (some ([], cs))
      else if not (c == b'\\')
      then copied
      else escape (unescape fuel 0) cs
