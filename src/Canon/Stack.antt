-- ===== src/Canon/Stack.antt =====
-- The view of a path as a list of elements, and of the buffer of `canon_buflen` as a stack of
-- elements, the last one first: the rounds of its loop act on that stack.
use stirmake.Prelude.{
  ◌≡◌, ◌≢◌, refl, Bool, true, false, inl, inr, List, [], ◌∷◌, ◌++◌, ◌==◌, if◌then◌else◌, arith, All,
  Bool-cases, str_eq, str_eq_iff,
}
use stirmake.Canon.{Bytes, slash, dot, dot_dot, IsFlat}

-- The elements of a path, empty ones included.
unfoldable pub elements : Bytes → List Bytes
elements [] = [] ∷ []
elements (x ∷ xs) = elim (elements xs) [
  | [] ↦ []
  | e ∷ es ↦ if x == slash then [] ∷ e ∷ es else (x ∷ e) ∷ es
]

-- The string that a stack of elements stands for.
unfoldable pub join : List Bytes → Bytes
join [] = []
join (c ∷ []) = c
join (c ∷ d ∷ cs) = join (d ∷ cs) ++ slash ∷ c

-- An element that can stand on the stack.
pub record IsElement (c : Bytes) : Type 0 where
  pub flat : IsFlat c
  pub not_empty : c ≢ []
  pub not_dot : c ≢ dot

abbrev pub IsStack : List Bytes → Type 0
IsStack = All IsElement

-- What a ".." does to the stack.
unfoldable pub pop : Bool → List Bytes → List Bytes
pop is_abspath [] = if is_abspath then [] else dot_dot ∷ []
pop is_abspath (c ∷ []) = if str_eq c dot_dot then dot_dot ∷ dot_dot ∷ [] else []
pop is_abspath (c ∷ d ∷ cs) = d ∷ cs

unfoldable pub push : Bool → List Bytes → Bytes → List Bytes
unfolding pop
push is_abspath st c =
    if str_eq c []
    then st
    else if str_eq c dot
    then st
    else if str_eq c dot_dot
    then pop is_abspath st
    else c ∷ st

pub dot_dot-IsElement : IsElement dot_dot
dot_dot-IsElement = record {
  flat = (ground arith, (ground arith, tt));
  not_empty = λ e. cc;
  not_dot = λ e. cc;
}

pop-IsStack : (b : Bool) (st : List Bytes) → IsStack st → IsStack (pop b st)
unfolding pop
pop-IsStack true [] h = tt
pop-IsStack false [] h = (dot_dot-IsElement, tt)
pop-IsStack b (c ∷ []) h = elim (Bool-cases (str_eq c dot_dot)) [
  | inl e ↦ rw e (dot_dot-IsElement, (dot_dot-IsElement, tt))
  | inr e ↦ rw e tt
]
pop-IsStack b (c ∷ d ∷ cs) h = h.1

-- A round keeps a stack, if its way to take a ".." does.
pub step-IsStack :
    (up st : List Bytes) (c : Bytes)
    → IsStack up
    → IsStack st
    → IsFlat c
    → IsStack (
        if str_eq c []
        then st
        else if str_eq c dot
        then st
        else if str_eq c dot_dot
        then up
        else c ∷ st)
step-IsStack up st c hup h flat = elim (Bool-cases (str_eq c [])) [
  | inl e ↦ rw e h
  | inr e ↦ rw e (elim (Bool-cases (str_eq c dot)) [
    | inl e1 ↦ rw e1 h
    | inr e1 ↦ rw e1 (elim (Bool-cases (str_eq c dot_dot)) [
      | inl e2 ↦ rw e2 hup
      | inr e2 ↦ rw e2 (
        record {
          flat = flat;
          not_empty = λ p. ground (arith, str_eq_iff c []);
          not_dot = λ p. ground (arith, str_eq_iff c dot);
        },
        h,
      )
    ])
  ])
]

pub push-IsStack :
    (b : Bool) (st : List Bytes) (c : Bytes) → IsStack st → IsFlat c → IsStack (push b st c)
unfolding push
push-IsStack b st c h flat = step-IsStack (pop b st) st c (pop-IsStack b st h) h flat

pub push-nil : (b : Bool) (st : List Bytes) → push b st [] ≡ st
unfolding push str_eq
push-nil b st = refl
