-- ===== src/DbText/ReaderEnds.antt =====
-- dbyymineparse comes to an end on every text.
use stirmake.Prelude.{
  ℕ, zero, suc, ◌≤◌, ◌<◌, ◌≡◌, refl, ◌==◌, leb, if◌then◌else◌, Bool, true, false, not, ◌&&◌, ◌||◌,
  Option, none, some, List, [], ◌∷◌, ◌++◌, length, drop, str_eq, arith,
}
use stirmake.Prelude.Results.{Outcome, out_of_fuel, aborted, exited, done, and_then}
use stirmake.Canon.{Bytes}
use stirmake.DbText.{Unescaped, unescape}
use stirmake.DbText.Ends.{Ends, if_both, unescape-Ends}
use stirmake.DbText.Reader.{
  of_rule, Reader, Line, Next, line_ends, goes_on, refused, whitespacespn, isdigit,
  dbyy_emplace_tsdb, dbyy_post_cmds, resume, may_follow, fresh_line, fresh_reader, v1, v2,
  is_command, begin_line, take_string, read_string, end_line, item, items, go_on, go_on_lines,
  read_line, read_lines, getlines, dbyymineparse,
}

-- A round ends without running out of fuel, and leaves fewer than `n` bytes of the line.
abbrev Shorter : ℕ → Outcome Next → Type 0
Shorter n out_of_fuel = ⊥
Shorter n aborted = Unit
Shorter n exited = Unit
Shorter n (done (line_ends r)) = Unit
Shorter n (done (goes_on l r s)) = length s < n
Shorter n (done refused) = Unit

abbrev pub HasEnded : {A : Type 0} → Outcome A → Type 0
HasEnded out_of_fuel = ⊥
HasEnded _ = Unit

-- strtoll reads one byte at least of a text that begins with a digit.
abbrev pub ReadsDigit : (Bytes → ℕ × Bytes) → Type 0
ReadsDigit strtoll =
    (c : ℕ) (cs : Bytes) → isdigit c ≡ true → length (strtoll (c ∷ cs)).1 < suc (length cs)

if_cases :
    {A : Type 0} (P : A → Type 0) (b : Bool) (x y : A)
    → (b ≡ true → P x)
    → P y
    → P (if b then x else y)
if_cases P true x y h k = h refl
if_cases P false x y h k = k

length-drop : (k : ℕ) (s : Bytes) → length (drop k s) ≤ length s
length-drop zero s = omega arith
length-drop (suc k) [] = omega arith
length-drop (suc k) (c ∷ s) = omega (arith, length-drop k s)

Shorter-resume :
    (n : ℕ) (l : Line) (r : Reader) (s : Bytes) → length s < n → Shorter n (resume l r s)
unfolding resume
Shorter-resume n l r [] h = tt
Shorter-resume n l r (c ∷ s) h = h

Shorter-skip :
    (n k : ℕ) (l : Line) (r : Reader) (s : Bytes) → length s < n → Shorter n (resume l r (drop k s))
Shorter-skip n k l r s h = Shorter-resume n l r (drop k s) (omega (arith, length-drop k s))

option_both :
    {A : Type 0} (n : ℕ) (o : Option A) (x : Outcome Next) (f : A → Outcome Next)
    → Shorter n x
    → ((a : A) → Shorter n (f a))
    → Shorter n (elim o as (λ _. Outcome Next) [ none ↦ x | some a ↦ f a ])
option_both n none x f h k = h
option_both n (some a) x f h k = k a

Shorter-take_string :
    (n : ℕ) (is_cmd : Bool) (l : Line) (r : Reader) (es s : Bytes)
    → length s < n
    → Shorter n (take_string is_cmd l r es s)
unfolding take_string
Shorter-take_string n true l r es s h = Shorter-resume n l _ s h
Shorter-take_string n false l r es s h =
    option_both n l.first_string _ _ (Shorter-resume n _ r s h) (λ a. Shorter-resume n _ _ s h)

Shorter-read_string :
    (n : ℕ) (is_cmd : Bool) (l : Line) (r : Reader) (es s : Bytes)
    → length s < n
    → Shorter n (read_string is_cmd l r es s)
unfolding read_string
Shorter-read_string n is_cmd l r es [] h = tt
Shorter-read_string n is_cmd l r es (c ∷ s) h =
    let k = whitespacespn (c ∷ s) in
    if_both (Shorter n) (k == 0 && not (may_follow (c ∷ s))) (done refused) _ tt
      (after (drop k (c ∷ s)) (omega (arith, length-drop k (c ∷ s))))
  where
    after :
        (t : Bytes)
        → length t < n
        → Shorter n (elim t as (λ _. Outcome Next) [
          | [] ↦ done (line_ends r)
          | d ∷ ds ↦ take_string is_cmd l r es (d ∷ ds)
        ])
    after [] m = tt
    after (d ∷ ds) m = Shorter-take_string n is_cmd l r es (d ∷ ds) m

Shorter-end_line :
    (n : ℕ) (first : Option Bytes) (two colon : Bool) (nums : List ℕ) (r : Reader)
    → Shorter n (
        end_line false
          (record { first_string = first; two_strings_already = two; colon = colon; nums = nums })
          r)
unfolding end_line dbyy_emplace_tsdb
Shorter-end_line n none two colon [] r = tt
Shorter-end_line n (some x) two colon [] r = if_both (Shorter n) (not two || not colon) _ _ tt tt
Shorter-end_line n first two colon (a ∷ []) r = if_both (Shorter n) (not two || not colon) _ _ tt tt
Shorter-end_line n first two colon (a ∷ b ∷ []) r =
    if_both (Shorter n) (not two || not colon) _ _ tt tt
Shorter-end_line n none two colon (a ∷ b ∷ c ∷ []) r = tt
Shorter-end_line n (some x) two colon (a ∷ b ∷ c ∷ []) r = tt
Shorter-end_line n first two colon (a ∷ b ∷ c ∷ d ∷ ns) r =
    if_both (Shorter n) (not two || not colon) _ _ tt tt

Shorter-end : (n : ℕ) (is_cmd : Bool) (l : Line) (r : Reader) → Shorter n (end_line is_cmd l r)
unfolding end_line
Shorter-end n true l r = tt
Shorter-end n false l r = Shorter-end_line n l.first_string l.two_strings_already l.colon l.nums r

-- What is done with the string that was read.
Shorter-unescaped :
    (n : ℕ) (is_cmd : Bool) (l : Line) (r : Reader) (u : Unescaped)
    → Ends n u
    → Shorter (suc n) (elim u as (λ _. Outcome Next) [
      | out_of_fuel ↦ out_of_fuel
      | aborted ↦ aborted
      | exited ↦ exited
      | done none ↦ done refused
      | done (some (es, rest)) ↦ read_string is_cmd l r es rest
    ])
Shorter-unescaped n is_cmd l r out_of_fuel h = h
Shorter-unescaped n is_cmd l r aborted h = tt
Shorter-unescaped n is_cmd l r exited h = tt
Shorter-unescaped n is_cmd l r (done none) h = tt
Shorter-unescaped n is_cmd l r (done (some (es, rest))) h =
    Shorter-read_string (suc n) is_cmd l r es rest (omega arith)

HasEnded-go_on :
    (n : ℕ) (rounds : Line → Reader → Bytes → Outcome (Option Reader)) (o : Outcome Next)
    → Shorter n o
    → ((l : Line) (r : Reader) (s : Bytes) → length s < n → HasEnded (rounds l r s))
    → HasEnded (go_on rounds o)
unfolding go_on
HasEnded-go_on n rounds out_of_fuel h k = h
HasEnded-go_on n rounds aborted h k = tt
HasEnded-go_on n rounds exited h k = tt
HasEnded-go_on n rounds (done (line_ends r)) h k = tt
HasEnded-go_on n rounds (done (goes_on l r s)) h k = k l r s h
HasEnded-go_on n rounds (done refused) h k = tt

HasEnded-go_on_lines :
    (lines : Reader → Outcome (Option Reader)) (o : Outcome (Option Reader))
    → HasEnded o
    → ((r : Reader) → HasEnded (lines r))
    → HasEnded (go_on_lines lines o)
unfolding go_on_lines
HasEnded-go_on_lines lines out_of_fuel h k = h
HasEnded-go_on_lines lines aborted h k = tt
HasEnded-go_on_lines lines exited h k = tt
HasEnded-go_on_lines lines (done none) h k = tt
HasEnded-go_on_lines lines (done (some r)) h k = k r

HasEnded-and_then :
    {A B : Type 0} (o : Outcome A) (f : A → Outcome B)
    → HasEnded o
    → ((a : A) → HasEnded (f a))
    → HasEnded (and_then o f)
HasEnded-and_then out_of_fuel f h k = h
HasEnded-and_then aborted f h k = tt
HasEnded-and_then exited f h k = tt
HasEnded-and_then (done a) f h k = k a

HasEnded-post_cmds : (w : Bool) (r : Reader) → HasEnded (if w then dbyy_post_cmds r else done r)
unfolding dbyy_post_cmds
HasEnded-post_cmds false r = tt
HasEnded-post_cmds true r = posted r.rule
  where
    posted :
        (o : Option (Bytes × Bytes))
        → HasEnded (elim o as (λ _. Outcome Reader) [
          | none ↦ aborted
          | some rule ↦ done (record r { called = r.called ++ of_rule rule.0 rule.1 r.cmds ∷ [] })
        ])
    posted none = tt
    posted (some rule) = tt

HasEnded-begin_line : (is_cmd : Bool) (r : Reader) → HasEnded (begin_line is_cmd r)
unfolding begin_line
HasEnded-begin_line true r = tt
HasEnded-begin_line false r =
    HasEnded-and_then (if r.was_is_cmd then dbyy_post_cmds r else done r) _
      (HasEnded-post_cmds r.was_is_cmd r) (λ r'. tt)

module _ (strtol : Bytes → Option ℕ) (strtoll : Bytes → ℕ × Bytes)
    (reads_digit : ReadsDigit strtoll) where
  Shorter-item :
      (is_cmd : Bool) (l : Line) (r : Reader) (s : Bytes)
      → Shorter (length s) (item strtol strtoll is_cmd l r s)
  unfolding item
  Shorter-item is_cmd l r [] = Shorter-end 0 is_cmd l r
  Shorter-item is_cmd l r (c ∷ cs) =
      let n = suc (length cs) in
      let P = Shorter n in
      let below : length cs < n = omega arith in
      if_both P (c == b'"') _ _
        (if_both P l.two_strings_already (done refused) _ tt (
          Shorter-unescaped (length cs) is_cmd l r (unescape strtol (suc (length cs)) 0 cs)
            (unescape-Ends strtol (suc (length cs)) 0 cs below)))
        (if_both P (c == b':') _ _
          (if_both P (not l.two_strings_already) (done refused) _ tt
            (Shorter-skip n (whitespacespn cs) _ r cs below))
          (if_both P (c == b'=') _ _
            (if_both P (not r.is_v2) (done refused) _ tt
              (Shorter-skip n (whitespacespn cs) l r cs below))
            (if_cases P (isdigit c) _ _
              (λ digit. if_both P (not r.is_v2) (done refused) _ tt (
                if_both P (leb 3 (length l.nums)) (done refused) _ tt (
                  Shorter-skip n (whitespacespn (strtoll (c ∷ cs)).1) _ r (strtoll (c ∷ cs)).1
                    (reads_digit c cs digit))))
              (if_both P (c == b'\n') _ (done refused) (Shorter-end n is_cmd l r) tt))))

  HasEnded-items :
      (fuel : ℕ) (is_cmd : Bool) (l : Line) (r : Reader) (s : Bytes)
      → length s < fuel
      → HasEnded (items strtol strtoll fuel is_cmd l r s)
  unfolding items
  HasEnded-items zero is_cmd l r s h = absurd (omega arith)
  HasEnded-items (suc fuel) is_cmd l r s h =
      HasEnded-go_on (length s) (items strtol strtoll fuel is_cmd)
        (item strtol strtoll is_cmd l r s) (Shorter-item is_cmd l r s)
        (λ l' r' s' k. HasEnded-items fuel is_cmd l' r' s' (omega arith))

  HasEnded-read_line : (r : Reader) (s : Bytes) → HasEnded (read_line strtol strtoll r s)
  unfolding read_line
  HasEnded-read_line r s =
      HasEnded-and_then (begin_line (is_command s) r) _ (HasEnded-begin_line (is_command s) r)
        (λ r'.
          HasEnded-items (suc (length s)) (is_command s) fresh_line r' (drop (whitespacespn s) s)
            (omega (arith, length-drop (whitespacespn s) s)))

  HasEnded-read_lines :
      (r : Reader) (lines : List Bytes) → HasEnded (read_lines strtol strtoll r lines)
  unfolding read_lines
  HasEnded-read_lines r [] =
      HasEnded-and_then (if r.was_is_cmd then dbyy_post_cmds r else done r) _
        (HasEnded-post_cmds r.was_is_cmd r) (λ r'. tt)
  HasEnded-read_lines r (s ∷ lines) =
      HasEnded-go_on_lines (λ r'. read_lines strtol strtoll r' lines) (read_line strtol strtoll r s)
        (HasEnded-read_line r s) (λ r'. HasEnded-read_lines r' lines)

  -- dbyymineparse comes to an end on every text, if strtoll reads one byte at least where a digit
  -- stands: it returns, exits or reads out of bounds, and the fuel of its loops is enough.
  pub dbyymineparse-HasEnded : (s : Bytes) → HasEnded (dbyymineparse strtol strtoll s)
  unfolding dbyymineparse
  dbyymineparse-HasEnded s = after (getlines s)
    where
      after :
          (lines : List Bytes)
          → HasEnded (elim lines as (λ _. Outcome (Option Reader)) [
            | [] ↦ read_lines strtol strtoll (fresh_reader false) []
            | line ∷ more ↦
                if str_eq line v2
                then read_lines strtol strtoll (fresh_reader true) more
                else if str_eq line v1
                then read_lines strtol strtoll (fresh_reader false) more
                else read_lines strtol strtoll (fresh_reader false) (line ∷ more)
          ])
      after [] = HasEnded-read_lines (fresh_reader false) []
      after (line ∷ more) =
          if_both HasEnded (str_eq line v2) _ _ (HasEnded-read_lines (fresh_reader true) more) (
            if_both HasEnded (str_eq line v1) _ _ (HasEnded-read_lines (fresh_reader false) more)
              (HasEnded-read_lines (fresh_reader false) (line ∷ more)))
