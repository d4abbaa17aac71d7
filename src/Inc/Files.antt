-- ===== src/Inc/Files.antt =====
-- A file of rules that are written with escapes is read back.
use stirmake.Prelude.{
  ℕ, ◌≡◌, refl, sym, ap, subst, ◌∙◌, ◌==◌, Bool, true, false, not, ◌&&◌, Bool-cases, inl, inr, none,
  List, [], ◌∷◌, ◌++◌, append_assoc, All, arith,
}
use stirmake.Prelude.Results.{Outcome, done, and_then, and_then_cong}
use stirmake.Canon.{Bytes}
use stirmake.DbText.Reader.{getlines}
use stirmake.DbText.Lines.{NoNewline, getlines-line, NoNewline-append}
use stirmake.Inc.{
  Incyy, incyy_set_tgt, incyy_set_dep, incyy_emplace_rule, handle_line, ends_escaped, parse_lines,
  incyymineparse,
}
use stirmake.Inc.Words.{is_quoted, escape_byte, escape_name, IsPart, quoted, dollar, other}
use stirmake.Inc.RoundTrip.{
  IsName, print_targets, print_deps, print_rule, set_all, handle_line-print_rule,
}

-- The targets and the dependencies of a rule.
abbrev pub Printed : Type 0
Printed = List Bytes × List Bytes

pub print_rules : List Printed → Bytes
print_rules [] = []
print_rules ((ts, ds) ∷ rs) = print_rule ts ds ++ print_rules rs

-- The calls for the rules of a file.
abbrev pub call_all : List Printed → Incyy → Outcome Incyy
call_all [] y = done y
call_all ((ts, ds) ∷ rs) y =
    and_then
      (and_then (incyy_emplace_rule y)
        (λ z. and_then (set_all incyy_set_tgt ts z) (set_all incyy_set_dep ds)))
      (call_all rs)

ends_step :
    (e : Bool) (c : ℕ) (s : Bytes) (x : ℕ) (xs : Bytes)
    → ends_escaped e (c ∷ (s ++ x ∷ xs)) ≡ ends_escaped (not e && c == b'\\') (s ++ x ∷ xs)
unfolding ends_escaped
ends_step e c [] x xs = refl
ends_step e c (d ∷ ds) x xs = refl

ends_name :
    (s : Bytes) (x : ℕ) (xs : Bytes)
    → ends_escaped false (escape_name s ++ x ∷ xs) ≡ ends_escaped false (x ∷ xs)
unfolding escape_name
ends_name [] x xs = refl
ends_name (c ∷ cs) x xs =
    let IsEven : Bytes → Type 0 =
      λ b. ends_escaped false ((b ++ escape_name cs) ++ x ∷ xs) ≡ ends_escaped false (x ∷ xs) in
    elim (Bool-cases (is_quoted c)) [
      | inl q ↦ subst IsEven (sym (quoted c q)) (
          ends_step false b'\\' (c ∷ escape_name cs) x xs
          ∙ ends_step true c (escape_name cs) x xs
          ∙ ends_name cs x xs)
      | inr q ↦ elim (Bool-cases (c == b'$')) [
        | inl d ↦ subst IsEven (sym (dollar c q d)) (
            ends_step false b'$' (b'$' ∷ escape_name cs) x xs
            ∙ ends_step false b'$' (escape_name cs) x xs
            ∙ ends_name cs x xs)
        | inr d ↦ subst IsEven (sym (other c q d)) (
            ends_step false c (escape_name cs) x xs
            ∙ ap (λ e. ends_escaped e (escape_name cs ++ x ∷ xs)) (plain q)
            ∙ ends_name cs x xs)
      ]
    ]
  where
    plain : is_quoted c ≡ false → (c == b'\\') ≡ false
    plain q = ground arith

ends_targets :
    (ts : List Bytes) (x : ℕ) (xs : Bytes)
    → ends_escaped false (print_targets ts ++ x ∷ xs) ≡ ends_escaped false (x ∷ xs)
unfolding print_targets
ends_targets [] x xs = refl
ends_targets (t ∷ ts) x xs =
    ap (ends_escaped false) (append_assoc (escape_name t) (b' ' ∷ print_targets ts) (x ∷ xs))
    ∙ ends_name t b' ' (print_targets ts ++ x ∷ xs)
    ∙ ends_step false b' ' (print_targets ts) x xs
    ∙ ends_targets ts x xs

ends_deps :
    (ds : List Bytes) (x : ℕ) (xs : Bytes)
    → ends_escaped false (print_deps ds ++ x ∷ xs) ≡ ends_escaped false (x ∷ xs)
unfolding print_deps
ends_deps [] x xs = refl
ends_deps (d ∷ ds) x xs =
    ends_step false b' ' (escape_name d ++ print_deps ds) x xs
    ∙ ap (ends_escaped false) (append_assoc (escape_name d) (print_deps ds) (x ∷ xs))
    ∙ behind ds (ends_deps ds x xs)
  where
    behind :
        (ds : List Bytes)
        → ends_escaped false (print_deps ds ++ x ∷ xs) ≡ ends_escaped false (x ∷ xs)
        → ends_escaped false (escape_name d ++ (print_deps ds ++ x ∷ xs))
          ≡ ends_escaped false (x ∷ xs)
    behind [] ih = ends_name d x xs
    behind (e ∷ es) ih = ends_name d b' ' ((escape_name e ++ print_deps es) ++ x ∷ xs) ∙ ih

NoNewline-escape_byte : (c : ℕ) → (c == b'\n') ≡ false → NoNewline (escape_byte c)
NoNewline-escape_byte c h = elim (Bool-cases (is_quoted c)) [
  | inl q ↦ subst NoNewline (sym (quoted c q)) (refl, (h, tt))
  | inr q ↦ elim (Bool-cases (c == b'$')) [
    | inl d ↦ subst NoNewline (sym (dollar c q d)) (refl, (refl, tt))
    | inr d ↦ subst NoNewline (sym (other c q d)) (h, tt)
  ]
]

NoNewline-escape_name : (s : Bytes) → IsPart s → NoNewline (escape_name s)
unfolding escape_name
NoNewline-escape_name [] h = tt
NoNewline-escape_name (c ∷ cs) ((z, n), h) =
    NoNewline-append (escape_byte c) (escape_name cs) (NoNewline-escape_byte c n)
      (NoNewline-escape_name cs h)

NoNewline-print_targets : (ts : List Bytes) → All IsName ts → NoNewline (print_targets ts)
unfolding print_targets
NoNewline-print_targets [] h = tt
NoNewline-print_targets (t ∷ ts) (h, hs) =
    NoNewline-append (escape_name t) (b' ' ∷ print_targets ts) (NoNewline-escape_name t h.1)
      (refl, NoNewline-print_targets ts hs)

NoNewline-print_deps : (ds : List Bytes) → All IsName ds → NoNewline (print_deps ds)
unfolding print_deps
NoNewline-print_deps [] h = tt
NoNewline-print_deps (d ∷ ds) (h, hs) = (
  refl,
  NoNewline-append (escape_name d) (print_deps ds) (NoNewline-escape_name d h.1)
      (NoNewline-print_deps ds hs),
)

-- A rule before the end of its line.
abbrev body : List Bytes → List Bytes → Bytes
body ts ds = print_targets ts ++ b':' ∷ print_deps ds

print_rule_lem : (ts ds : List Bytes) → print_rule ts ds ≡ body ts ds ++ b'\n' ∷ []
unfolding print_rule
print_rule_lem ts ds = sym (append_assoc (print_targets ts) (b':' ∷ print_deps ds) (b'\n' ∷ []))

getlines-print_rule :
    (ts ds : List Bytes) (rest : Bytes)
    → All IsName ts
    → All IsName ds
    → getlines (print_rule ts ds ++ rest) ≡ print_rule ts ds ∷ getlines rest
getlines-print_rule ts ds rest hs ks =
    let one = print_rule_lem ts ds in
    ap (λ s. getlines (s ++ rest)) one
    ∙ ap getlines (append_assoc (body ts ds) (b'\n' ∷ []) rest)
    ∙ getlines-line (body ts ds) rest (
        NoNewline-append (print_targets ts) (b':' ∷ print_deps ds) (NoNewline-print_targets ts hs)
          (refl, NoNewline-print_deps ds ks))
    ∙ ap (λ s. s ∷ getlines rest) (sym one)

ends_rule : (ts ds : List Bytes) → ends_escaped false (print_rule ts ds) ≡ false
unfolding print_rule ends_escaped
ends_rule ts ds =
    ends_targets ts b':' (print_deps ds ++ b'\n' ∷ [])
    ∙ ends_step false b':' (print_deps ds) b'\n' []
    ∙ ends_deps ds b'\n' []

parse_lines-rule :
    (l : Bytes) (ls : List Bytes) (y : Incyy)
    → ends_escaped false l ≡ false
    → parse_lines none (l ∷ ls) y ≡ and_then (handle_line l y) (parse_lines none ls)
unfolding parse_lines
parse_lines-rule l ls y e = rw (e, parse_lines) refl

-- The text of a list of rules, one on a line with its names escaped, is read back: for each rule the
-- function for a new rule is called, then that for targets with each of its targets and that for
-- dependencies with each of its dependencies, in order. The names are not empty and have neither NUL
-- nor line breaks; they may have white space, colons, backslashes and dollar signs.
pub incyymineparse-print_rules :
    (rs : List Printed) (y : Incyy)
    → All (λ r. All IsName r.0 × All IsName r.1) rs
    → incyymineparse (print_rules rs) y ≡ call_all rs y
unfolding incyymineparse print_rules getlines parse_lines
incyymineparse-print_rules [] y h = refl
incyymineparse-print_rules ((ts, ds) ∷ rs) y ((hs, ks), h) =
    ap (λ ls. parse_lines none ls y) (getlines-print_rule ts ds (print_rules rs) hs ks)
    ∙ parse_lines-rule (print_rule ts ds) (getlines (print_rules rs)) y (ends_rule ts ds)
    ∙ ap (λ m. and_then m (parse_lines none (getlines (print_rules rs))))
        (handle_line-print_rule ts ds y hs ks)
    ∙ and_then_cong
        (and_then (incyy_emplace_rule y)
          (λ z. and_then (set_all incyy_set_tgt ts z) (set_all incyy_set_dep ds)))
        (parse_lines none (getlines (print_rules rs))) (call_all rs)
        (λ z. incyymineparse-print_rules rs z h)
