-- ===== src/Canon/Idempotent.antt =====
-- A path that `canon` returned is returned unchanged.
use mathlib.Core.List.{foldl-append}
use stirmake.Prelude.{
  ◌≡◌, ◌≢◌, refl, sym, ap, ◌∙◌, subst, Bool, true, false, inl, inr, List, [], ◌∷◌, foldl, some,
  arith, Bool-cases, str_eq, str_eq_iff,
}
use stirmake.Canon.{Bytes, slash, dot, dot_dot, starts_with_slash, canon_end, canon}
use stirmake.Canon.Stack.{elements, join, IsElement, IsStack, pop, push, push-nil}
use stirmake.Canon.Elements.{
  elements-append_slash, elements-flat, elements_of_slash, join-ne-nil, starts_with_slash-join,
}
use stirmake.Canon.Final.{final, final-eq, stack_of, stack_of-IsStack, canon-eq, canon-eq-some}

-- A ".." stands on the stack of a relative path only, and on nothing or on one "..".
abbrev pub IsSettled : Bool → List Bytes → Type 0
IsSettled b [] = Unit
IsSettled b (c ∷ []) = c ≡ dot_dot → b ≡ false
IsSettled b (c ∷ d ∷ cs) =
    (c ≡ dot_dot → (d ≡ dot_dot) × (cs ≡ []) × (b ≡ false)) × IsSettled b (d ∷ cs)

module _ (b : Bool) where
  IsSettled-pop : (st : List Bytes) → IsSettled b st → IsSettled b (pop b st)
  unfolding pop
  IsSettled-pop [] h = ground arith
  IsSettled-pop (c ∷ []) h = ground (arith, str_eq_iff c dot_dot)
  IsSettled-pop (c ∷ d ∷ cs) h = h.1

  IsSettled-cons :
      (st : List Bytes) (c : Bytes) → c ≢ dot_dot → IsSettled b st → IsSettled b (c ∷ st)
  IsSettled-cons [] c n h = λ e. absurd (n e)
  IsSettled-cons (d ∷ cs) c n h = (λ e. absurd (n e), h)

  IsSettled-push : (st : List Bytes) (c : Bytes) → IsSettled b st → IsSettled b (push b st c)
  unfolding push
  IsSettled-push st c h = elim (Bool-cases (str_eq c [])) [
    | inl e ↦ rw e h
    | inr e ↦ rw e (elim (Bool-cases (str_eq c dot)) [
      | inl e1 ↦ rw e1 h
      | inr e1 ↦ rw e1 (elim (Bool-cases (str_eq c dot_dot)) [
        | inl e2 ↦ rw e2 (IsSettled-pop st h)
        | inr e2 ↦ rw e2 (IsSettled-cons st c (λ p. ground (arith, str_eq_iff c dot_dot)) h)
      ])
    ])
  ]

  IsSettled-foldl : (es st : List Bytes) → IsSettled b st → IsSettled b (foldl (push b) st es)
  IsSettled-foldl [] st h = h
  IsSettled-foldl (e ∷ es) st h = IsSettled-foldl es (push b st e) (IsSettled-push st e h)

  -- One more element comes back.
  push_top :
      (c : Bytes) (st : List Bytes) → IsElement c → IsSettled b (c ∷ st) → push b st c ≡ c ∷ st
  unfolding push
  push_top c [] h s =
      ground
        (arith, str_eq_iff c [], str_eq_iff c dot, str_eq_iff c dot_dot, h.not_empty, h.not_dot)
  push_top c (d ∷ cs) h s = ground (
    arith,
    str_eq_iff c [],
    str_eq_iff c dot,
    str_eq_iff c dot_dot,
    str_eq_iff d dot_dot,
    h.not_empty,
    h.not_dot,
  )

  IsSettled-tail : (c : Bytes) (st : List Bytes) → IsSettled b (c ∷ st) → IsSettled b st
  IsSettled-tail c [] h = tt
  IsSettled-tail c (d ∷ cs) h = h.1

  -- The elements of the string of a settled stack build the stack again.
  foldl-elements-join :
      (st : List Bytes) → IsStack st → IsSettled b st → foldl (push b) [] (elements (join st)) ≡ st
  unfolding join
  foldl-elements-join [] h s = unfold elements push str_eq in refl
  foldl-elements-join (c ∷ []) h s = rw (elements-flat c h.0.flat) (push_top c [] h.0 s)
  foldl-elements-join (c ∷ d ∷ cs) h s =
      rw (elements-append_slash (join (d ∷ cs)) c, elements-flat c h.0.flat, foldl-append)
        (rw (foldl-elements-join (d ∷ cs) h.1 s.1) (push_top c (d ∷ cs) h.0 s))

pub canon_end-join :
    (c : Bytes) (cs : List Bytes)
    → IsStack (c ∷ cs)
    → canon_end false (join (c ∷ cs)) ≡ join (c ∷ cs)
unfolding canon_end
canon_end-join c cs h = ground (arith, join-ne-nil c cs h)

pub stack_of-IsSettled : (old : Bytes) → IsSettled (starts_with_slash old) (stack_of old)
unfolding stack_of
stack_of-IsSettled old = IsSettled-foldl (starts_with_slash old) (elements old) [] tt

canon_end-ne-nil : (b : Bool) (s : Bytes) → canon_end b s ≢ []
unfolding canon_end
canon_end-ne-nil true s e = cc
canon_end-ne-nil false [] e = cc
canon_end-ne-nil false (x ∷ xs) e = cc

final_of_end :
    (b : Bool) (st : List Bytes)
    → IsStack st
    → IsSettled b st
    → final (canon_end b (join st)) ≡ canon_end b (join st)
unfolding canon_end
final_of_end true st h s =
    final-eq true (slash ∷ join st) (unfold starts_with_slash in refl)
    ∙ ap (λ es. slash ∷ join (foldl (push true) [] es)) (elements_of_slash (join st))
    ∙ ap (λ es. slash ∷ join (foldl (push true) es (elements (join st)))) (push-nil true [])
    ∙ ap (λ t. slash ∷ join t) (foldl-elements-join true st h s)
final_of_end false [] h s = unfold final elements join push str_eq in refl
final_of_end false (c ∷ cs) h s =
    ap final (canon_end-join c cs h)
    ∙ final-eq false (join (c ∷ cs)) (starts_with_slash-join (c ∷ cs) h)
    ∙ ap (λ t. canon_end false (join t)) (foldl-elements-join false (c ∷ cs) h s)

-- `canon` is idempotent: a path that it returned it returns unchanged.
pub canon-canon : (old r : Bytes) → canon old ≡ some r → canon r ≡ some r
canon-canon old r h =
    let b = starts_with_slash old in
    let e = (canon-eq-some old r h).1 in
    subst (λ s. canon s ≡ some s) (sym e)
      (canon-eq (final old) (unfold final in canon_end-ne-nil b (join (stack_of old)))
        ∙ ap some (
            unfold final in
            final_of_end b (stack_of old) (stack_of-IsStack old) (stack_of-IsSettled old)))
