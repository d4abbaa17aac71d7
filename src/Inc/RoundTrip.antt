-- ===== src/Inc/RoundTrip.antt =====
-- A rule that is written with escapes is read back.
use stirmake.Prelude.{
  ℕ, zero, suc, ◌<◌, ◌≤◌, ◌≡◌, ◌≢◌, refl, sym, ap, subst, ◌∙◌, ◌==◌, Bool, true, false, ◌||◌, List,
  [], ◌∷◌, ◌++◌, append_assoc, length, length-append, All, arith,
}
use stirmake.Prelude.Results.{Outcome, done, and_then, and_then_assoc, and_then_cong}
use stirmake.Canon.{Bytes}
use stirmake.Inc.{
  Incyy, has_bit, inset_ascii, mycspn, is_space, myspn_from, myspn, take_word, incyy_set_tgt,
  incyy_set_dep, incyy_emplace_rule, target_round, target_loop, dep_round, dep_loop, handle_line,
}
use stirmake.Inc.Sets.{mycspn-end, inset_ascii_lem}
use stirmake.Inc.Words.{
  escape_name, IsPart, IsBack-escape, take_word-IsBack, IsSolid, IsSolid-escape, myspn-solid,
}

-- A name is not empty, and has neither NUL nor '\n'.
abbrev pub IsName : Bytes → Type 0
IsName s = (s ≢ []) × IsPart s

unfoldable pub print_targets : List Bytes → Bytes
print_targets [] = []
print_targets (t ∷ ts) = escape_name t ++ b' ' ∷ print_targets ts

unfoldable pub print_deps : List Bytes → Bytes
print_deps [] = []
print_deps (d ∷ ds) = b' ' ∷ (escape_name d ++ print_deps ds)

-- "a b : c d\n"
unfoldable pub print_rule : List Bytes → List Bytes → Bytes
unfolding print_targets print_deps
print_rule ts ds = print_targets ts ++ b':' ∷ (print_deps ds ++ b'\n' ∷ [])

-- incyy_set_tgt or incyy_set_dep, called for each name.
abbrev pub set_all : (Incyy → Bytes → Outcome Incyy) → List Bytes → Incyy → Outcome Incyy
set_all set_name [] y = done y
set_all set_name (n ∷ ns) y = and_then (set_name y n) (set_all set_name ns)

-- One name with what follows it.
record IsRead (n : Bytes) (t : ℕ) (rest : Bytes) : Type 0 where
  esc : Bool
  cut :
      mycspn inset_ascii (escape_name n ++ t ∷ rest)
      ≡ record { word = escape_name n; had_escapes = esc; rest = t ∷ rest }
  taken :
      (set_name : Incyy → Bytes → Outcome Incyy) (y : Incyy)
      → take_word set_name (record { word = escape_name n; had_escapes = esc; rest = t ∷ rest }) y
        ≡ set_name y n

IsRead-name :
    (n : Bytes) (t : ℕ) (rest : Bytes)
    → (t == b' ' || t == b':' || t == b'\n') ≡ true
    → IsName n
    → IsRead n t rest
IsRead-name [] t rest ends (ne, h) = absurd (ne refl)
IsRead-name (c ∷ cs) t rest ends (ne, h) =
    let x = IsBack-escape t rest ends (c ∷ cs) h in
    record {
      esc = x.esc;
      cut = x.cut;
      taken = λ set_name y. take_word-IsBack set_name c cs (escape_name (c ∷ cs)) (t ∷ rest) y x;
    }

IsSolid-name : (n : Bytes) → IsName n → IsSolid (escape_name n)
IsSolid-name [] (ne, h) = absurd (ne refl)
IsSolid-name (c ∷ cs) (ne, h) = IsSolid-escape c cs h

solid_stays :
    (b : Bool) (n tail : Bytes)
    → IsName n
    → myspn_from b (escape_name n ++ tail) ≡ escape_name n ++ tail
solid_stays b n tail h =
    let x = IsSolid-name n h in
    subst (λ text. myspn_from b (text ++ tail) ≡ text ++ tail) (sym x.begins) (x.stays b tail)

targets_stay :
    (b : Bool) (ts : List Bytes) (tail : Bytes)
    → All IsName ts
    → myspn_from b (print_targets ts ++ b':' ∷ tail) ≡ print_targets ts ++ b':' ∷ tail
unfolding print_targets is_space
targets_stay b [] tail h = myspn-solid b b':' tail refl refl
targets_stay b (t ∷ ts) tail (h, hs) =
    let same = append_assoc (escape_name t) (b' ' ∷ print_targets ts) (b':' ∷ tail) in
    subst (λ s. myspn_from b s ≡ s) (sym same)
      (solid_stays b t (b' ' ∷ (print_targets ts ++ b':' ∷ tail)) h)

space_skip : (b : Bool) (s : Bytes) → myspn_from b (b' ' ∷ s) ≡ myspn_from true s
unfolding myspn_from is_space
space_skip b [] = refl
space_skip b (c ∷ cs) = refl

myspn-space : (s : Bytes) → myspn (b' ' ∷ s) ≡ myspn_from true s
unfolding myspn
myspn-space s = space_skip false s

-- What target_loop does behind a round.
abbrev after_target : ℕ → Bool × Bytes × Incyy → Outcome (Bytes × Incyy)
after_target fuel (had_colon, next, z) = elim had_colon [
  | true ↦ done (next, z)
  | false ↦ target_loop fuel next z
]

target_loop-print :
    (fuel : ℕ) (ts : List Bytes) (tail : Bytes) (y : Incyy)
    → All IsName ts
    → length ts < fuel
    → target_loop fuel (print_targets ts ++ b':' ∷ tail) y
      ≡ and_then (set_all incyy_set_tgt ts y) (λ z. done (myspn (b' ' ∷ tail), z))
unfolding target_loop target_round take_word print_targets myspn myspn_from is_space
target_loop-print zero ts tail y h l = absurd (omega arith)
target_loop-print (suc fuel) [] tail y h l =
    ap (λ w. and_then (target_round w y) (after_target fuel))
      (mycspn-end inset_ascii b':' tail (inset_ascii_lem b':') refl)
target_loop-print (suc fuel) (t ∷ ts) tail y (h, hs) l =
    let rest = print_targets ts ++ b':' ∷ tail in
    let same = append_assoc (escape_name t) (b' ' ∷ print_targets ts) (b':' ∷ tail) in
    let x = IsRead-name t b' ' rest refl h in
    ap (λ s. target_loop (suc fuel) s y) same
    ∙ ap (λ w. and_then (target_round w y) (after_target fuel)) x.cut
    ∙ ap
        (λ m. and_then (and_then m (λ z. done (false, myspn (b' ' ∷ rest), z))) (after_target fuel))
        (x.taken incyy_set_tgt y)
    ∙ and_then_assoc (incyy_set_tgt y t) (λ z. done (false, myspn (b' ' ∷ rest), z))
        (after_target fuel)
    ∙ and_then_cong (incyy_set_tgt y t)
        (λ z. and_then (done (false, myspn (b' ' ∷ rest), z)) (after_target fuel))
        (λ z. and_then (set_all incyy_set_tgt ts z) (λ u. done (myspn (b' ' ∷ tail), u)))
        (λ z.
          ap (λ s. target_loop fuel s z) (myspn-space rest ∙ targets_stay true ts tail hs)
          ∙ target_loop-print fuel ts tail z hs (omega (arith, l)))
    ∙ sym (
        and_then_assoc (incyy_set_tgt y t) (set_all incyy_set_tgt ts)
          (λ z. done (myspn (b' ' ∷ tail), z)))

-- The dependencies from the first on, and the end of the line.
abbrev dep_text : Bytes → List Bytes → Bytes
dep_text d ds = escape_name d ++ (print_deps ds ++ b'\n' ∷ [])

abbrev after_dep : ℕ → Bool × Bytes × Incyy → Outcome Incyy
after_dep fuel (had_end, next, z) = elim had_end [ true ↦ done z | false ↦ dep_loop fuel next z ]

dep_loop-print :
    (fuel : ℕ) (d : Bytes) (ds : List Bytes) (y : Incyy)
    → IsName d
    → All IsName ds
    → length ds < fuel
    → dep_loop fuel (dep_text d ds) y ≡ set_all incyy_set_dep (d ∷ ds) y
unfolding dep_loop dep_round take_word print_deps myspn myspn_from is_space
dep_loop-print zero d ds y h hs l = absurd (omega arith)
dep_loop-print (suc fuel) d [] y h hs l =
    let x = IsRead-name d b'\n' [] refl h in
    let round : Incyy → Outcome (Bool × Bytes × Incyy) = λ z. done (true, myspn (b' ' ∷ []), z) in
    ap (λ w. and_then (dep_round w y) (after_dep fuel)) x.cut
    ∙ ap (λ m. and_then (and_then m round) (after_dep fuel)) (x.taken incyy_set_dep y)
    ∙ and_then_assoc (incyy_set_dep y d) round (after_dep fuel)
dep_loop-print (suc fuel) d (e ∷ es) y h (k, hs) l =
    let rest = dep_text e es in
    let same = append_assoc (escape_name e) (print_deps es) (b'\n' ∷ []) in
    let x = IsRead-name d b' ' rest refl h in
    let round : Incyy → Outcome (Bool × Bytes × Incyy) =
      λ z. done (false, myspn (b' ' ∷ rest), z) in
    ap (λ s. dep_loop (suc fuel) (escape_name d ++ b' ' ∷ s) y) same
    ∙ ap (λ w. and_then (dep_round w y) (after_dep fuel)) x.cut
    ∙ ap (λ m. and_then (and_then m round) (after_dep fuel)) (x.taken incyy_set_dep y)
    ∙ and_then_assoc (incyy_set_dep y d) round (after_dep fuel)
    ∙ and_then_cong (incyy_set_dep y d) (λ z. and_then (round z) (after_dep fuel))
        (set_all incyy_set_dep (e ∷ es))
        (λ z.
          ap (λ s. dep_loop fuel s z)
            (myspn-space rest ∙ solid_stays true e (print_deps es ++ b'\n' ∷ []) k)
          ∙ dep_loop-print fuel e es z k hs (omega (arith, l)))

length-print_targets : (ts : List Bytes) → length ts ≤ length (print_targets ts)
unfolding print_targets
length-print_targets [] = omega arith
length-print_targets (t ∷ ts) =
    omega (arith, length-append (escape_name t) (b' ' ∷ print_targets ts), length-print_targets ts)

length-print_deps : (ds : List Bytes) → length ds ≤ length (print_deps ds)
unfolding print_deps
length-print_deps [] = omega arith
length-print_deps (d ∷ ds) =
    omega (arith, length-append (escape_name d) (print_deps ds), length-print_deps ds)

-- The text behind the colon, and the loop over it.
deps_back :
    (ds : List Bytes) (y : Incyy)
    → All IsName ds
    → (let s = myspn (b' ' ∷ (print_deps ds ++ b'\n' ∷ [])) in dep_loop (suc (length s)) s y)
      ≡ set_all incyy_set_dep ds y
unfolding print_deps
deps_back [] y h =
    unfold dep_loop dep_round take_word mycspn inset_ascii has_bit myspn myspn_from is_space in refl
deps_back (d ∷ ds) y (h, hs) =
    let rest = dep_text d ds in
    let same =
      myspn-space (b' ' ∷ (escape_name d ++ print_deps ds) ++ b'\n' ∷ [])
      ∙ ap (λ s. myspn_from true (b' ' ∷ s))
          (append_assoc (escape_name d) (print_deps ds) (b'\n' ∷ []))
      ∙ space_skip true rest
      ∙ solid_stays true d (print_deps ds ++ b'\n' ∷ []) h in
    ap (λ s. dep_loop (suc (length s)) s y) same
    ∙ dep_loop-print (suc (length rest)) d ds y h hs (
        omega (
          arith,
          length-append (escape_name d) (print_deps ds ++ b'\n' ∷ []),
          length-append (print_deps ds) (b'\n' ∷ []),
          length-print_deps ds,
        ))

-- handle_line, behind the white space of a line that is not empty.
abbrev pub handle_text : Bytes → Incyy → Outcome Incyy
handle_text text y = and_then (incyy_emplace_rule y) (λ z.
    and_then (target_loop (suc (length text)) text z) (λ (s, u). dep_loop (suc (length s)) s u))

pub handle_line-begins :
    (line : Bytes) (c : ℕ) (cs : Bytes) (y : Incyy)
    → myspn line ≡ c ∷ cs
    → (c == b'\n') ≡ false
    → handle_line line y ≡ handle_text (c ∷ cs) y
unfolding handle_line
handle_line-begins line c cs y e ne = rw (e, handle_line, ne) refl

targets_begin :
    (ts : List Bytes) (tail : Bytes)
    → All IsName ts
    → (c : ℕ) × (cs : Bytes) × (print_targets ts ++ b':' ∷ tail ≡ c ∷ cs) × ((c == b'\n') ≡ false)
unfolding print_targets
targets_begin [] tail h = (b':', tail, refl, refl)
targets_begin (t ∷ ts) tail (h, hs) =
    let x = IsSolid-name t h in
    (
      x.first,
      (x.more ++ b' ' ∷ print_targets ts) ++ b':' ∷ tail,
      ap (λ s. (s ++ b' ' ∷ print_targets ts) ++ b':' ∷ tail) x.begins,
      x.no_newline,
    )

-- A printed rule that is read calls the function for a new rule, the function for targets with each of
-- its targets, and the function for dependencies with each of its dependencies, in order: the names
-- are without NUL and without line breaks, and not empty; they may have white space, colons,
-- backslashes and dollar signs.
pub handle_line-print_rule :
    (ts ds : List Bytes) (y : Incyy)
    → All IsName ts
    → All IsName ds
    → handle_line (print_rule ts ds) y
      ≡ and_then
          (incyy_emplace_rule y)
          (λ z. and_then (set_all incyy_set_tgt ts z) (set_all incyy_set_dep ds))
unfolding print_rule myspn
handle_line-print_rule ts ds y hs ks =
    let tail = print_deps ds ++ b'\n' ∷ [] in
    let line = print_rule ts ds in
    let (c, cs, begins, ne) = targets_begin ts tail hs in
    let after : Bytes × Incyy → Outcome Incyy = λ (s, u). dep_loop (suc (length s)) s u in
    handle_line-begins line c cs y (targets_stay false ts tail hs ∙ begins) ne
    ∙ ap (λ s. handle_text s y) (sym begins)
    ∙ and_then_cong (incyy_emplace_rule y)
        (λ z. and_then (target_loop (suc (length line)) line z) after)
        (λ z. and_then (set_all incyy_set_tgt ts z) (set_all incyy_set_dep ds))
        (λ z.
          ap (λ m. and_then m after)
            (target_loop-print (suc (length line)) ts tail z hs (long ts tail))
          ∙ and_then_assoc (set_all incyy_set_tgt ts z) (λ u. done (myspn (b' ' ∷ tail), u)) after
          ∙ and_then_cong (set_all incyy_set_tgt ts z)
              (λ u. dep_loop (suc (length (myspn (b' ' ∷ tail)))) (myspn (b' ' ∷ tail)) u)
              (set_all incyy_set_dep ds) (λ u. deps_back ds u ks))
  where
    long :
        (ts : List Bytes) (tail : Bytes)
        → length ts < suc (length (print_targets ts ++ b':' ∷ tail))
    long ts tail =
        omega (arith, length-append (print_targets ts) (b':' ∷ tail), length-print_targets ts)
