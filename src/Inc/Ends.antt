-- ===== src/Inc/Ends.antt =====
-- The reader of dependency files comes to an end on each text.
use stirmake.Prelude.{
  ℕ, zero, suc, ◌<◌, ◌≤◌, ◌≡◌, ◌≢◌, refl, sym, ap, ◌∙◌, ◌==◌, Bool, true, false, ◌&&◌, ◌||◌,
  Bool-cases, Option-cases, List-cases, inl, inr, Option, none, some, List, [], ◌∷◌, ◌++◌, length,
  str_eq, if◌then◌else◌, arith,
}
use stirmake.Prelude.Results.{Outcome, done, Returns, Returns-and_then}
use stirmake.Canon.{Bytes, canon, pathcat2, starts_with_slash, slash}
use stirmake.DbText.Reader.{getlines}
use stirmake.Inc.{
  Incyy, for_rule, Word, inset_ascii, mycspn, is_space, myspn_from, myspn, cons_to, unescape_word,
  path_of, take_word, incyy_set_tgt, incyy_set_dep, incyy_emplace_rule, target_round, target_loop,
  dep_round, dep_loop, handle_line, ends_escaped, parse_lines, incyymineparse,
}

length-mycspn : (inset : ℕ → Bool) (s : Bytes) → length (mycspn inset s).rest ≤ length s
unfolding mycspn
length-mycspn inset [] = omega arith
length-mycspn inset (c ∷ []) = elim (Bool-cases (inset c)) [
  | inl e ↦ rw (e, mycspn) (omega arith)
  | inr e ↦ rw (e, mycspn) (omega arith)
]
length-mycspn inset (c ∷ d ∷ ds) = elim (Bool-cases (inset c)) [
  | inr e ↦ rw (e, mycspn) (omega (arith, length-mycspn inset (d ∷ ds)))
  | inl e ↦ elim (Bool-cases (c == b'\\' || c == b'$')) [
    | inl k ↦ rw (e, mycspn, k) (omega (arith, length-mycspn inset ds))
    | inr k ↦ rw (e, mycspn, k) (omega arith)
  ]
]

length-myspn_from : (b : Bool) (s : Bytes) → length (myspn_from b s) ≤ length s
unfolding myspn_from
length-myspn_from b [] = omega arith
length-myspn_from b (c ∷ []) = elim (Bool-cases (is_space c)) [
  | inl e ↦ rw (e, myspn_from) (omega arith)
  | inr e ↦ rw (e, myspn_from) (omega arith)
]
length-myspn_from b (c ∷ d ∷ ds) = elim (Bool-cases (is_space c)) [
  | inl e ↦ rw (e, myspn_from) (omega (arith, length-myspn_from true (d ∷ ds)))
  | inr e ↦ elim (Bool-cases (b && c == b'\\' && d == b'\n')) [
    | inl k ↦ rw (e, myspn_from, k) (omega (arith, length-myspn_from true ds))
    | inr k ↦ rw (e, myspn_from, k) (omega arith)
  ]
]

length-myspn_space : (s : Bytes) → length (myspn (b' ' ∷ s)) ≤ length s
unfolding myspn myspn_from is_space
length-myspn_space [] = omega arith
length-myspn_space (c ∷ cs) = length-myspn_from true (c ∷ cs)

canon_total : (s : Bytes) → s ≢ [] → (can : Bytes) × (canon s ≡ some can)
unfolding canon
canon_total s ne = elim (Option-cases (canon s)) [
  | inl e ↦ absurd (ne (canon_none s e))
  | inr (can, e) ↦ (can, e)
]
  where
    canon_none : (s : Bytes) → canon s ≡ none → s ≡ []
    canon_none [] e = refl
    canon_none (c ∷ cs) e = absurd (ground arith)

path_of-nonempty : (y : Incyy) (n : Bytes) → n ≢ [] → path_of y n ≢ []
unfolding path_of pathcat2
path_of-nonempty y n ne e = elim (Bool-cases (starts_with_slash n || str_eq y.prefix (b'.' ∷ []))) [
  | inl k ↦ ne (sym (rw (k, path_of) refl) ∙ e)
  | inr k ↦ joined y.prefix (sym (rw (k, path_of) refl) ∙ e)
]
  where
    joined : (p : Bytes) → p ++ slash ∷ n ≢ []
    joined [] q = cc q
    joined (x ∷ xs) q = cc q

cons_to_nonempty : (c : ℕ) (m : Option Bytes) (w : Bytes) → cons_to c m ≡ some w → w ≢ []
cons_to_nonempty c none w e z = cc e
cons_to_nonempty c (some v) w e z = cc (e, z)

unescape_nonempty : (c : ℕ) (s w : Bytes) → unescape_word (c ∷ s) ≡ some w → w ≢ []
unfolding unescape_word
unescape_nonempty c [] w e = elim (Bool-cases (c == b'\\' || c == b'$')) [
  | inl k ↦ absurd (cc (sym (escaped k) ∙ e))
  | inr k ↦ cons_to_nonempty c (some []) w (sym (plain k) ∙ e)
]
  where
    escaped : (c == b'\\' || c == b'$') ≡ true → unescape_word (c ∷ []) ≡ none
    escaped k = rw k refl

    plain : (c == b'\\' || c == b'$') ≡ false → unescape_word (c ∷ []) ≡ some (c ∷ [])
    plain k = rw k refl
unescape_nonempty c (d ∷ ds) w e = elim (Bool-cases (c == b'\\')) [
  | inl k ↦ cons_to_nonempty d (unescape_word ds) w (sym (quoted k) ∙ e)
  | inr k ↦ elim (Bool-cases (c == b'$')) [
    | inr l ↦ cons_to_nonempty c (unescape_word (d ∷ ds)) w (sym (plain k l) ∙ e)
    | inl l ↦ elim (Bool-cases (d == b'$')) [
      | inl m ↦ cons_to_nonempty d (unescape_word ds) w (sym (dollar k l m) ∙ e)
      | inr m ↦ absurd (cc (sym (refused k l m) ∙ e))
    ]
  ]
]
  where
    quoted : (c == b'\\') ≡ true → unescape_word (c ∷ d ∷ ds) ≡ cons_to d (unescape_word ds)
    quoted k = rw (k, unescape_word) refl

    plain :
        (c == b'\\') ≡ false
        → (c == b'$') ≡ false
        → unescape_word (c ∷ d ∷ ds) ≡ cons_to c (unescape_word (d ∷ ds))
    plain k l = rw (k, unescape_word, l) refl

    dollar :
        (c == b'\\') ≡ false
        → (c == b'$') ≡ true
        → (d == b'$') ≡ true
        → unescape_word (c ∷ d ∷ ds) ≡ cons_to d (unescape_word ds)
    dollar k l m = rw (k, unescape_word, l, m) refl

    refused :
        (c == b'\\') ≡ false
        → (c == b'$') ≡ true
        → (d == b'$') ≡ false
        → unescape_word (c ∷ d ∷ ds) ≡ none
    refused k l m = rw (k, unescape_word, l, m) refl

-- Where a target is added to each rule, it has a name.
abbrev pub IsReady : Incyy → Type 0
IsReady y = y.auto_target ≡ true → y.fnamenodir ≢ []

set_tgt-IsReady : (y : Incyy) (n : Bytes) → n ≢ [] → IsReady y → Returns IsReady (incyy_set_tgt y n)
unfolding incyy_set_tgt
set_tgt-IsReady y n ne r =
    let (can, e) = canon_total (path_of y n) (path_of-nonempty y n ne) in rw (e, incyy_set_tgt) r

set_dep-IsReady : (y : Incyy) (n : Bytes) → n ≢ [] → IsReady y → Returns IsReady (incyy_set_dep y n)
unfolding incyy_set_dep
set_dep-IsReady y n ne r =
    let (can, e) = canon_total (path_of y n) (path_of-nonempty y n ne) in rw (e, incyy_set_dep) r

-- Of a function that takes a name that is not empty.
abbrev Keeps : (Incyy → Bytes → Outcome Incyy) → Type 0
Keeps f = (y : Incyy) (n : Bytes) → n ≢ [] → IsReady y → Returns IsReady (f y n)

take_word-IsReady :
    (f : Incyy → Bytes → Outcome Incyy) (w : Word) (y : Incyy)
    → Keeps f
    → IsReady y
    → Returns IsReady (take_word f w y)
unfolding take_word
take_word-IsReady f w y keeps r = elim (List-cases w.word) [
  | inl e ↦ rw (e, take_word) r
  | inr (c, cs, e) ↦ elim (Bool-cases w.had_escapes) [
    | inr k ↦ rw (e, take_word, k) (keeps y (c ∷ cs) (λ z. cc z) r)
    | inl k ↦ elim (Option-cases (unescape_word (c ∷ cs))) [
      | inl u ↦ rw (e, take_word, k, u) tt
      | inr (n, u) ↦ rw (e, take_word, k, u) (keeps y n (unescape_nonempty c cs n u) r)
    ]
  ]
]

Returns-if :
    {A : Type 0} (P : A → Type 0) (b : Bool) (x z : Outcome A)
    → (b ≡ true → Returns P x)
    → Returns P z
    → Returns P (if b then x else z)
Returns-if P true x z h k = h refl
Returns-if P false x z h k = k

emplace_rule-IsReady : (y : Incyy) → IsReady y → Returns IsReady (incyy_emplace_rule y)
unfolding incyy_emplace_rule
emplace_rule-IsReady y r =
    let called : Incyy = record y { called = y.called ++ for_rule ∷ [] } in
    Returns-if IsReady y.auto_target (incyy_set_tgt called y.fnamenodir) (done called)
      (λ e. set_tgt-IsReady called y.fnamenodir (r e) r) r

-- A round that does not end the loop goes on behind a byte at least.
abbrev Goes : Bytes → Bool × Bytes × Incyy → Type 0
Goes s (stops, next, z) = IsReady z × (stops ≡ false → length next < length s)

target_round-IsReady :
    (s : Bytes) (y : Incyy) → IsReady y → Returns (Goes s) (target_round (mycspn inset_ascii s) y)
unfolding target_round
target_round-IsReady s y r = elim (List-cases (mycspn inset_ascii s).rest) [
  | inl e ↦ rw (e, target_round) tt
  | inr (c, cs, e) ↦ elim (Bool-cases (c == b'\n')) [
    | inl k ↦ rw (e, target_round, k) tt
    | inr k ↦
        rw (e, target_round, k)
          (Returns-and_then IsReady (Goes s) _ _
            (take_word-IsReady incyy_set_tgt (mycspn inset_ascii s) y set_tgt-IsReady r)
            (λ z rz. (
              rz,
              λ _. omega (arith, length-myspn_space cs, ap length e, length-mycspn inset_ascii s),
            )))
  ]
]

dep_round-IsReady :
    (s : Bytes) (y : Incyy) → IsReady y → Returns (Goes s) (dep_round (mycspn inset_ascii s) y)
unfolding dep_round
dep_round-IsReady s y r =
    let taken = take_word-IsReady incyy_set_dep (mycspn inset_ascii s) y set_dep-IsReady r in
    elim (List-cases (mycspn inset_ascii s).rest) [
      | inl e ↦
          rw (e, dep_round)
            (Returns-and_then IsReady (Goes s) _ _ taken (λ z rz. (rz, λ no. absurd (cc no))))
      | inr (c, cs, e) ↦ elim (Bool-cases (c == b':')) [
        | inl k ↦ rw (e, dep_round, k) tt
        | inr k ↦
            rw (e, dep_round, k)
              (Returns-and_then IsReady (Goes s) _ _ taken (λ z rz. (
                rz,
                λ _. omega (arith, length-myspn_space cs, ap length e, length-mycspn inset_ascii s),
              )))
      ]
    ]

target_loop-IsReady :
    (fuel : ℕ) (s : Bytes) (y : Incyy)
    → length s < fuel
    → IsReady y
    → Returns (λ (s', z). IsReady z) (target_loop fuel s y)
unfolding target_loop
target_loop-IsReady zero s y l r = absurd (omega arith)
target_loop-IsReady (suc fuel) s y l r =
    Returns-and_then (Goes s) (λ (s', z). IsReady z) _ _ (target_round-IsReady s y r)
      (λ (stops, next, z) (rz, less). elim (Bool-cases stops) [
        | inl e ↦ rw e rz
        | inr e ↦ rw e (target_loop-IsReady fuel next z (omega (arith, less e)) rz)
      ])

dep_loop-IsReady :
    (fuel : ℕ) (s : Bytes) (y : Incyy)
    → length s < fuel
    → IsReady y
    → Returns IsReady (dep_loop fuel s y)
unfolding dep_loop
dep_loop-IsReady zero s y l r = absurd (omega arith)
dep_loop-IsReady (suc fuel) s y l r =
    Returns-and_then (Goes s) IsReady _ _ (dep_round-IsReady s y r) (λ (stops, next, z) (rz, less).
      elim (Bool-cases stops) [
        | inl e ↦ rw e rz
        | inr e ↦ rw e (dep_loop-IsReady fuel next z (omega (arith, less e)) rz)
      ])

pub handle_line-IsReady :
    (line : Bytes) (y : Incyy) → IsReady y → Returns IsReady (handle_line line y)
unfolding handle_line
handle_line-IsReady line y r = elim (List-cases (myspn line)) [
  | inl e ↦ rw (e, handle_line) r
  | inr (c, cs, e) ↦ elim (Bool-cases (c == b'\n')) [
    | inl k ↦ rw (e, handle_line, k) r
    | inr k ↦
        rw (e, handle_line, k)
          (Returns-and_then IsReady IsReady (incyy_emplace_rule y) _ (emplace_rule-IsReady y r)
            (λ z rz.
              Returns-and_then (λ (s, u). IsReady u) IsReady
                (target_loop (suc (length (c ∷ cs))) (c ∷ cs) z) _
                (target_loop-IsReady (suc (length (c ∷ cs))) (c ∷ cs) z (omega arith) rz)
                (λ (s, u) ru. dep_loop-IsReady (suc (length s)) s u (omega arith) ru)))
  ]
]

parse_lines-IsReady :
    (pending : Option Bytes) (ls : List Bytes) (y : Incyy)
    → IsReady y
    → Returns IsReady (parse_lines pending ls y)
unfolding parse_lines
parse_lines-IsReady none [] y r = r
parse_lines-IsReady (some line) [] y r = tt
parse_lines-IsReady none (l ∷ ls) y r = elim (Bool-cases (ends_escaped false l)) [
  | inl e ↦ rw (e, parse_lines) (parse_lines-IsReady (some l) ls y r)
  | inr e ↦
      rw (e, parse_lines)
        (Returns-and_then IsReady IsReady (handle_line l y) _ (handle_line-IsReady l y r)
          (λ z rz. parse_lines-IsReady none ls z rz))
]
parse_lines-IsReady (some line) (l ∷ ls) y r = elim (Bool-cases (ends_escaped false l)) [
  | inl e ↦ rw (e, parse_lines) (parse_lines-IsReady (some (line ++ l)) ls y r)
  | inr e ↦
      rw (e, parse_lines)
        (Returns-and_then IsReady IsReady (handle_line (line ++ l) y) _
          (handle_line-IsReady (line ++ l) y r) (λ z rz. parse_lines-IsReady none ls z rz))
]

-- Where a target that is added to each rule has a name, the reader comes to an end on every text and
-- does not abort: it reads all lines, or it refuses one.
pub incyymineparse-Returns :
    (text : Bytes) (y : Incyy) → IsReady y → Returns IsReady (incyymineparse text y)
unfolding incyymineparse
incyymineparse-Returns text y r = parse_lines-IsReady none (getlines text) y r
