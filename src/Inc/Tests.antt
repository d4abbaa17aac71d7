-- ===== src/Inc/Tests.antt =====
-- Small dependency files.
use stirmake.Prelude.{◌≡◌, refl, false, List, [], ◌∷◌, if◌then◌else◌, arith}
use stirmake.Prelude.Results.{Outcome, exited, done, Returns}
use stirmake.Canon.{Bytes}
use stirmake.Inc.{
  Incyy, Item, for_rule, for_target, for_dep, inset_ascii, inset_set, line_set, mycspn, handle_line,
  incyymineparse,
}
use stirmake.Inc.Sets.{mycspn-inset_set}
use stirmake.Inc.Files.{Printed, print_rules, call_all, incyymineparse-print_rules}
use stirmake.Inc.Ends.{IsReady, incyymineparse-Returns}
use stirmake.Inc.Refusals.{is_blank, handle_line-NoColon}

abbrev in_dir : Incyy
in_dir = record { prefix = b'.' ∷ []; fnamenodir = b'x' ∷ []; auto_target = false; called = [] }

-- "a\ b: c \<newline> d<newline>"
abbrev continued : Bytes
continued =
    b'a' ∷ b'\\' ∷ b' ' ∷ b'b' ∷ b':' ∷ b' ' ∷ b'c' ∷ b' ' ∷ b'\\' ∷ b'\n' ∷ b' ' ∷ b'd' ∷ b'\n'
    ∷ []

called_of : Outcome Incyy → List Item
called_of (done y) = y.called
called_of _ = []

continued_lem :
    called_of (incyymineparse continued in_dir)
    ≡ for_rule
      ∷ for_target (b'a' ∷ b' ' ∷ b'b' ∷ [])
      ∷ for_dep (b'c' ∷ [])
      ∷ for_dep (b'd' ∷ [])
      ∷ []
unfolding called_of incyymineparse stirmake.Canon.canon
continued_lem = refl

-- A dollar sign that is not doubled.
dollar_refused : handle_line (b'a' ∷ b':' ∷ b'$' ∷ b'x' ∷ b'\n' ∷ []) in_dir ≡ exited
unfolding handle_line stirmake.Canon.canon
dollar_refused = refl

abbrev some_rules : List Printed
some_rules = ((b'a' ∷ b' ' ∷ []) ∷ [], (b'c' ∷ b':' ∷ []) ∷ (b'$' ∷ []) ∷ []) ∷ []

incyymineparse-print_rules_example :
    incyymineparse (print_rules some_rules) in_dir ≡ call_all some_rules in_dir
incyymineparse-print_rules_example = incyymineparse-print_rules some_rules in_dir (
  (
    (((λ e. cc e), ((refl, refl), ((refl, refl), tt))), tt),
    (((λ e. cc e), ((refl, refl), ((refl, refl), tt))), (((λ e. cc e), ((refl, refl), tt)), tt)),
  ),
  tt,
)

mycspn-inset_set_example :
    mycspn (inset_set line_set) (b'a' ∷ b'\\' ∷ b':' ∷ b':' ∷ [])
    ≡ mycspn inset_ascii (b'a' ∷ b'\\' ∷ b':' ∷ b':' ∷ [])
mycspn-inset_set_example =
    mycspn-inset_set (b'a' ∷ b'\\' ∷ b':' ∷ b':' ∷ [])
      (omega arith, (omega arith, (omega arith, (omega arith, tt))))

incyymineparse-Returns_example : Returns IsReady (incyymineparse continued in_dir)
incyymineparse-Returns_example = incyymineparse-Returns continued in_dir (λ e. cc e)

handle_line-NoColon_example :
    handle_line (b'a' ∷ b'\n' ∷ []) in_dir
    ≡ (if is_blank (b'a' ∷ b'\n' ∷ []) then done in_dir else exited)
handle_line-NoColon_example =
    handle_line-NoColon (b'a' ∷ b'\n' ∷ []) in_dir (λ e. cc e) (refl, (refl, tt))
