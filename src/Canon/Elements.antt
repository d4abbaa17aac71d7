-- ===== src/Canon/Elements.antt =====
-- The elements of the string of a stack.
use stirmake.Prelude.{
  ℕ, ◌+◌, ◌≡◌, ◌≢◌, refl, false, List, [], ◌∷◌, ◌++◌, subst, inl, inr, All, Bool-cases, List-cases,
  ◌==◌, if◌then◌else◌, arith, str_eq,
}
use stirmake.Canon.{Bytes, slash, dot_dot, IsFlat, starts_with_slash}
use stirmake.Canon.Stack.{elements, join, IsStack}

elements-ne-nil : (s : Bytes) → elements s ≢ []
unfolding elements
elements-ne-nil [] e = cc
elements-ne-nil (x ∷ xs) e = ground (arith, elements-ne-nil xs)

pub elements-append_slash : (s t : Bytes) → elements (s ++ slash ∷ t) ≡ elements s ++ elements t
unfolding elements
elements-append_slash [] t = ground (arith, elements-ne-nil t)
elements-append_slash (x ∷ xs) t =
    ground (arith, elements-append_slash xs t, elements-ne-nil xs, elements-ne-nil t)

pub elements-flat : (c : Bytes) → IsFlat c → elements c ≡ c ∷ []
unfolding elements
elements-flat [] h = refl
elements-flat (x ∷ xs) h = ground (arith, elements-flat xs h.1)

-- How many elements are "..".
unfoldable pub climb : List Bytes → ℕ
unfolding str_eq
climb [] = 0
climb (c ∷ cs) = (if str_eq c dot_dot then 1 else 0) + climb cs

pub climb-append : (xs ys : List Bytes) → climb (xs ++ ys) ≡ climb xs + climb ys
unfolding climb
climb-append [] ys = omega arith
climb-append (x ∷ xs) ys = omega (arith, climb-append xs ys)

-- The string of a stack has the elements of the stack.
pub climb-elements-join : (st : List Bytes) → IsStack st → climb (elements (join st)) ≡ climb st
unfolding join climb
climb-elements-join [] h = unfold elements in refl
climb-elements-join (c ∷ []) h = rw (elements-flat c h.0.flat)
climb-elements-join (c ∷ d ∷ cs) h =
    rw (elements-append_slash (join (d ∷ cs)) c, elements-flat c h.0.flat)
      (omega
        (arith, climb-append (elements (join (d ∷ cs))) (c ∷ []), climb-elements-join (d ∷ cs) h.1))

pub join-ne-nil : (c : Bytes) (cs : List Bytes) → IsStack (c ∷ cs) → join (c ∷ cs) ≢ []
unfolding join
join-ne-nil [] [] h e = absurd (h.0.not_empty refl)
join-ne-nil (x ∷ c) [] h e = cc
join-ne-nil c (d ∷ cs) h e = ground (arith, join-ne-nil d cs h.1)

-- The string of a stack does not start with a slash.
pub starts_with_slash-join : (st : List Bytes) → IsStack st → starts_with_slash (join st) ≡ false
unfolding starts_with_slash join
starts_with_slash-join [] h = refl
starts_with_slash-join ([] ∷ []) h = absurd (h.0.not_empty refl)
starts_with_slash-join ((x ∷ c) ∷ []) h = ground (arith, h.0.flat.0)
starts_with_slash-join (c ∷ d ∷ cs) h =
    ground (arith, starts_with_slash-join (d ∷ cs) h.1, join-ne-nil d cs h.1)

pub elements-IsFlat : (s : Bytes) → All IsFlat (elements s)
unfolding elements
elements-IsFlat [] = (tt, tt)
elements-IsFlat (x ∷ xs) = elim (List-cases (elements xs)) [
  | inl e ↦ absurd (elements-ne-nil xs e)
  | inr (e, es, p) ↦
      let flat : All IsFlat (e ∷ es) = subst (All IsFlat) p (elements-IsFlat xs) in
      rw p (elim (Bool-cases (x == slash)) [
        | inl here ↦ rw here (tt, flat)
        | inr other ↦ rw other ((ground arith, flat.0), flat.1)
      ])
]

pub elements_of_slash : (s : Bytes) → elements (slash ∷ s) ≡ [] ∷ elements s
unfolding elements
elements_of_slash s = ground (arith, elements-ne-nil s)
