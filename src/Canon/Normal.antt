-- ===== src/Canon/Normal.antt =====
-- Lexical normalisation as a path name is read: ".." takes back the element before it; it is kept
-- where there is none, and dropped at the root. The result of `canon` is compared with it.
use stirmake.Prelude.{
  ◌≤◌, ◌≡◌, ◌≢◌, refl, sym, ap, ◌∙◌, Bool, true, false, ◌||◌, inl, inr, List-cases, List, [], ◌∷◌,
  foldl, some, if◌then◌else◌, arith, All, Bool-cases, str_eq, str_eq_iff,
}
use stirmake.Canon.{Bytes, slash, dot, dot_dot, IsFlat, starts_with_slash, canon_end, canon}
use stirmake.Canon.Stack.{elements, join, IsStack, IsElement, dot_dot-IsElement, step-IsStack, push}
use stirmake.Canon.Final.{final, canon-eq}
use stirmake.Canon.Elements.{climb, elements-IsFlat, elements_of_slash, join-ne-nil}

-- What ".." does.
go_up : Bool → List Bytes → List Bytes
unfolding str_eq
go_up is_abspath [] = if is_abspath then [] else dot_dot ∷ []
go_up is_abspath (c ∷ cs) = if str_eq c dot_dot then dot_dot ∷ c ∷ cs else cs

enter : Bool → List Bytes → Bytes → List Bytes
unfolding go_up str_eq
enter is_abspath st c =
    if str_eq c []
    then st
    else if str_eq c dot
    then st
    else if str_eq c dot_dot
    then go_up is_abspath st
    else c ∷ st

-- The elements that are left, the last one first.
unfoldable pub normal_form : Bytes → List Bytes
unfolding enter elements starts_with_slash
normal_form old = foldl (enter (starts_with_slash old)) [] (elements old)

-- The string of the elements: behind a slash where the path is absolute, "." where none is left.
rooted : Bool → List Bytes → Bytes
unfolding join
rooted true st = slash ∷ join st
rooted false [] = dot
rooted false (c ∷ cs) = join (c ∷ cs)

unfoldable pub normalize : Bytes → Bytes
unfolding normal_form rooted starts_with_slash
normalize old = rooted (starts_with_slash old) (normal_form old)

canon_end-join : (b : Bool) (st : List Bytes) → IsStack st → canon_end b (join st) ≡ rooted b st
unfolding canon_end rooted
canon_end-join true st h = refl
canon_end-join false [] h = unfold join in refl
canon_end-join false (c ∷ cs) h = elim (List-cases (join (c ∷ cs))) [
  | inl e ↦ absurd (join-ne-nil c cs h e)
  | inr (x, xs, e) ↦ rw e refl
]

go_up-IsStack : (b : Bool) (st : List Bytes) → IsStack st → IsStack (go_up b st)
unfolding go_up
go_up-IsStack true [] h = tt
go_up-IsStack false [] h = (dot_dot-IsElement, tt)
go_up-IsStack b (c ∷ cs) h = elim (Bool-cases (str_eq c dot_dot)) [
  | inl e ↦ rw e (dot_dot-IsElement, h)
  | inr e ↦ rw e h.1
]

enter-IsStack :
    (b : Bool) (st : List Bytes) (c : Bytes) → IsStack st → IsFlat c → IsStack (enter b st c)
unfolding enter
enter-IsStack b st c h flat = step-IsStack (go_up b st) st c (go_up-IsStack b st h) h flat

foldl-enter-IsStack :
    (b : Bool) (es st : List Bytes) → All IsFlat es → IsStack st → IsStack (foldl (enter b) st es)
foldl-enter-IsStack b [] st flat h = h
foldl-enter-IsStack b (e ∷ es) st flat h =
    foldl-enter-IsStack b es (enter b st e) flat.1 (enter-IsStack b st e h flat.0)

pub normal_form-IsStack : (old : Bytes) → IsStack (normal_form old)
unfolding normal_form
normal_form-IsStack old =
    foldl-enter-IsStack (starts_with_slash old) (elements old) [] (elements-IsFlat old) tt

pub normalize-eq :
    (old : Bytes) → normalize old ≡ canon_end (starts_with_slash old) (join (normal_form old))
unfolding normalize
normalize-eq old =
    sym (canon_end-join (starts_with_slash old) (normal_form old) (normal_form-IsStack old))

-- A ".." on the stack stands on nothing but "..".
abbrev UpsBelow : List Bytes → Type 0
UpsBelow [] = Unit
UpsBelow (c ∷ []) = Unit
UpsBelow (c ∷ d ∷ cs) = (c ≡ dot_dot → d ≡ dot_dot) × UpsBelow (d ∷ cs)

module _ (b : Bool) where
  UpsBelow-enter : (st : List Bytes) (c : Bytes) → UpsBelow st → UpsBelow (enter b st c)
  unfolding enter
  UpsBelow-enter [] c h = ground arith
  UpsBelow-enter (d ∷ []) c h = ground (arith, str_eq_iff c dot_dot, str_eq_iff d dot_dot)
  UpsBelow-enter (d ∷ e ∷ st) c h = ground (arith, str_eq_iff c dot_dot, str_eq_iff d dot_dot)

  climb-enter : (st : List Bytes) (c : Bytes) → climb st ≤ climb (enter b st c)
  unfolding enter climb
  climb-enter [] c = omega arith
  climb-enter (d ∷ st) c = ground (arith, str_eq_iff c dot_dot, str_eq_iff d dot_dot)

  climb-foldl : (es st : List Bytes) → climb st ≤ climb (foldl (enter b) st es)
  climb-foldl [] st = omega arith
  climb-foldl (e ∷ es) st = omega (arith, climb-enter st e, climb-foldl es (enter b st e))

  -- Up to two ".." the source's stack moves as it should.
  push-eq-enter :
      (st : List Bytes) (c : Bytes)
      → UpsBelow st
      → climb (enter b st c) ≤ 2
      → push b st c ≡ enter b st c
  unfolding push enter climb
  push-eq-enter [] c h few = refl
  push-eq-enter (d ∷ []) c h few = ground (arith, str_eq_iff d dot_dot)
  push-eq-enter (d ∷ e ∷ st) c h few = ground (arith, str_eq_iff d dot_dot, str_eq_iff e dot_dot)

  foldl-push-eq-enter :
      (es st : List Bytes)
      → UpsBelow st
      → climb (foldl (enter b) st es) ≤ 2
      → foldl (push b) st es ≡ foldl (enter b) st es
  foldl-push-eq-enter [] st h few = refl
  foldl-push-eq-enter (e ∷ es) st h few =
      rw (push-eq-enter st e h (omega (arith, climb-foldl es (enter b st e))))
        (foldl-push-eq-enter es (enter b st e) (UpsBelow-enter st e h) few)

climb-enter_absolute : (st : List Bytes) (c : Bytes) → climb st ≡ 0 → climb (enter true st c) ≡ 0
unfolding enter climb
climb-enter_absolute [] c h = ground (arith, str_eq_iff c dot_dot)
climb-enter_absolute (d ∷ st) c h = ground (arith, str_eq_iff c dot_dot, str_eq_iff d dot_dot)

climb-absolute : (es st : List Bytes) → climb st ≡ 0 → climb (foldl (enter true) st es) ≡ 0
climb-absolute [] st h = h
climb-absolute (e ∷ es) st h = climb-absolute es (enter true st e) (climb-enter_absolute st e h)

-- Of a path that is not empty and whose normal form has at most two "..", `canon` returns the
-- lexically normalized path.
pub canon_normalizes :
    (old : Bytes) → old ≢ [] → climb (normal_form old) ≤ 2 → canon old ≡ some (normalize old)
unfolding normalize normal_form final
canon_normalizes old h few =
    let b = starts_with_slash old in
    canon-eq old h
    ∙ ap (λ (st : List Bytes). some (canon_end b (join st)))
        (foldl-push-eq-enter b (elements old) [] tt few)
    ∙ ap some (canon_end-join b (normal_form old) (normal_form-IsStack old))

-- The rule for absolute paths: empty elements and "." are left out, ".." takes back the element
-- before it, if there is one.
pub resolve : List Bytes → Bytes → List Bytes
unfolding str_eq
resolve st c =
    if str_eq c [] || str_eq c dot
    then st
    else if str_eq c dot_dot
    then (elim st [ [] ↦ [] | d ∷ ds ↦ ds ])
    else c ∷ st

-- An element that names a file: not empty, without a slash, and neither "." nor "..".
pub record IsPlain (c : Bytes) : Type 0 where
  pub element : IsElement c
  pub not_dot_dot : c ≢ dot_dot

resolve-eq-enter : (st : List Bytes) (c : Bytes) → All IsPlain st → enter true st c ≡ resolve st c
unfolding enter resolve
resolve-eq-enter [] c h = ground arith
resolve-eq-enter (d ∷ ds) c h = ground (arith, str_eq_iff d dot_dot, h.0.not_dot_dot)

IsPlain-resolve :
    (st : List Bytes) (c : Bytes) → All IsPlain st → IsFlat c → All IsPlain (resolve st c)
unfolding resolve
IsPlain-resolve st c h flat = elim (Bool-cases (str_eq c [] || str_eq c dot)) [
  | inl e ↦ rw e h
  | inr e ↦ elim (Bool-cases (str_eq c dot_dot)) [
    | inl k ↦ rw (e, k) (below st h)
    | inr k ↦
        rw (e, k)
          (
            record {
              element = record {
                flat = flat;
                not_empty = λ p. ground (arith, str_eq_iff c []);
                not_dot = λ p. ground (arith, str_eq_iff c dot);
              };
              not_dot_dot = λ p. ground (arith, str_eq_iff c dot_dot);
            },
            h,
          )
  ]
]
  where
    below : (st : List Bytes) → All IsPlain st → All IsPlain (elim st [ [] ↦ [] | d ∷ ds ↦ ds ])
    below [] h = tt
    below (d ∷ ds) h = h.1

foldl-resolve :
    (es st : List Bytes)
    → All IsFlat es
    → All IsPlain st
    → (foldl (enter true) st es ≡ foldl resolve st es) × All IsPlain (foldl resolve st es)
foldl-resolve [] st flat h = (refl, h)
foldl-resolve (e ∷ es) st flat h =
    let (same, plain) = foldl-resolve es (resolve st e) flat.1 (IsPlain-resolve st e h flat.0) in
    (ap (λ t. foldl (enter true) t es) (resolve-eq-enter st e h) ∙ same, plain)

normal_form-resolve : (rest : Bytes) → normal_form (slash ∷ rest) ≡ foldl resolve [] (elements rest)
unfolding normal_form enter starts_with_slash str_eq
normal_form-resolve rest =
    ap (foldl (enter true) []) (elements_of_slash rest)
    ∙ (foldl-resolve (elements rest) [] (elements-IsFlat rest) tt).0

climb-absolute_path : (rest : Bytes) → climb (normal_form (slash ∷ rest)) ≡ 0
unfolding normal_form starts_with_slash climb
climb-absolute_path rest = climb-absolute (elements (slash ∷ rest)) [] refl

-- Of every absolute path, however many ".." it has, `canon` returns a slash and the elements that are
-- left when empty ones and "." are left out and each ".." takes back the element before it, if there
-- is one; none of these is empty, "." or "..", or has a slash.
pub canon_absolute :
    (rest : Bytes)
    → (canon (slash ∷ rest) ≡ some (slash ∷ join (foldl resolve [] (elements rest))))
      × All IsPlain (foldl resolve [] (elements rest))
unfolding normalize rooted starts_with_slash
canon_absolute rest = (
  canon_normalizes (slash ∷ rest) (λ e. cc) (omega (arith, climb-absolute_path rest))
      ∙ ap (λ (st : List Bytes). some (slash ∷ join st)) (normal_form-resolve rest),
  (foldl-resolve (elements rest) [] (elements-IsFlat rest) tt).1,
)
