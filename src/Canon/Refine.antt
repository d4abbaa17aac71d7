-- ===== src/Canon/Refine.antt =====
-- The buffer of `canon_buflen` holds the string of its stack, round by round.
use stirmake.Prelude.{
  ℕ, zero, suc, ◌-◌, ◌≤◌, ◌≡◌, refl, sym, ap, ◌∙◌, Bool, false, not, ◌&&◌, ◌||◌, ◌⊎◌, inl, inr,
  List, [], ◌∷◌, ◌++◌, foldl, ◌==◌, if◌then◌else◌, arith, length, str_eq, str_eq_iff, length-append,
  take-append_length, get_or-append_length,
}
use stirmake.Canon.{
  Bytes, slash, dot_dot, before, behind, strrchr, strrchr-flat, strrchr-append_slash, before-IsFlat,
  ends_in_dots, canon_up, canon_step, canon_loop,
}
use stirmake.Canon.Stack.{elements, join, IsStack, pop, push, push-IsStack}

-- The test of the source for a buffer that is "..".
two_dots : (c : Bytes) → (not (length c == 2) || not (ends_in_dots c)) ≡ not (str_eq c dot_dot)
unfolding ends_in_dots str_eq
two_dots [] = refl
two_dots (x ∷ []) = ground arith
two_dots (x ∷ y ∷ []) = ground arith
two_dots (x ∷ y ∷ z ∷ r) = ground arith

length-join-slash : (s c : Bytes) → length (s ++ slash ∷ c) - length s ≡ suc (length c)
length-join-slash s c = omega (arith, length-append s (slash ∷ c))

-- Behind a slash the test of the source for a last element ".." never holds.
no_dots_behind_slash :
    (s c : Bytes)
    → (length (s ++ slash ∷ c) - length s == 2 && ends_in_dots (s ++ slash ∷ c)) ≡ false
unfolding ends_in_dots
no_dots_behind_slash s [] = rw (length-join-slash s []) refl
no_dots_behind_slash s (x ∷ []) =
    let e : length (s ++ slash ∷ x ∷ []) - 2 ≡ length s =
      omega (arith, length-append s (slash ∷ x ∷ [])) in
    rw (e, get_or-append_length s slash (x ∷ []) 0) (ground arith)
no_dots_behind_slash s (x ∷ y ∷ c) = rw (length-join-slash s (x ∷ y ∷ c)) (ground arith)

length_eq_zero : (c : Bytes) → (length c == 0) ≡ str_eq c []
unfolding str_eq
length_eq_zero [] = refl
length_eq_zero (x ∷ xs) = ground arith

-- The string of a stack is empty only if the stack is.
length-join-eq-zero : (st : List Bytes) → IsStack st → (length (join st) == 0) ≡ (length st == 0)
unfolding join
length-join-eq-zero [] h = refl
length-join-eq-zero ([] ∷ []) h = absurd (h.0.not_empty refl)
length-join-eq-zero ((x ∷ c) ∷ []) h = ground arith
length-join-eq-zero (c ∷ d ∷ cs) h = ground (arith, length-append (join (d ∷ cs)) (slash ∷ c))

join-cons :
    (c : Bytes) (st : List Bytes)
    → join (c ∷ st) ≡ (if length st == 0 then c else join st ++ slash ∷ c)
unfolding join
join-cons c [] = refl
join-cons c (d ∷ cs) = ground arith

length-behind_le : (s : Bytes) → length (behind slash s) ≤ length s
unfolding behind
length-behind_le [] = omega arith
length-behind_le (x ∷ xs) = ground (arith, length-behind_le xs)

pub length-behind_lt : (x : ℕ) (xs : Bytes) → length (behind slash (x ∷ xs)) ≤ length xs
unfolding behind
length-behind_lt x xs = ground (arith, length-behind_le xs)

-- The first round of the loop takes the first element.
elements-cases :
    (s : Bytes)
    → (elements s ≡ before slash s ∷ elements (behind slash s))
      ⊎ (elements s ≡ before slash s ∷ []) × (behind slash s ≡ [])
unfolding elements before behind
elements-cases [] = inr (refl, refl)
elements-cases (x ∷ xs) = ground (arith, elements-cases xs)

module _ (b : Bool) where
  foldl-elements :
      (st : List Bytes) (s : Bytes)
      → foldl (push b) st (elements s)
        ≡ foldl (push b) (push b st (before slash s)) (elements (behind slash s))
  unfolding push elements str_eq
  foldl-elements st s = elim (elements-cases s) [
    | inl e ↦ rw e
    | inr (e, none_left) ↦ rw (e, none_left)
  ]

  canon_up-join : (st : List Bytes) → IsStack st → canon_up b (join st) ≡ join (pop b st)
  unfolding canon_up join pop strrchr
  canon_up-join [] h = ground arith
  canon_up-join ([] ∷ []) h = absurd (h.0.not_empty refl)
  canon_up-join ((x ∷ c) ∷ []) h =
      ground (arith, strrchr-flat (x ∷ c) h.0.flat, two_dots (x ∷ c), str_eq_iff (x ∷ c) dot_dot)
  canon_up-join (c ∷ d ∷ cs) h = ground (
    arith,
    strrchr-append_slash (join (d ∷ cs)) c h.0.flat,
    no_dots_behind_slash (join (d ∷ cs)) c,
    take-append_length (join (d ∷ cs)) (slash ∷ c),
  )

  pub canon_step-join :
      (st : List Bytes) (c : Bytes) → IsStack st → canon_step b (join st) c ≡ join (push b st c)
  unfolding canon_step push
  canon_step-join st c h = ground (
    arith,
    canon_up-join st h,
    str_eq_iff c [],
    length-join-eq-zero st h,
    join-cons c st,
    length_eq_zero c,
  )

  -- The loop, from a buffer that holds a stack.
  pub canon_loop-join :
      (fuel : ℕ) (st : List Bytes) (old : Bytes)
      → length old ≤ fuel
      → IsStack st
      → canon_loop fuel b (join st) old ≡ join (foldl (push b) st (elements old))
  unfolding canon_loop elements push
  canon_loop-join zero st [] enough h = refl
  canon_loop-join zero st (x ∷ xs) enough h = absurd (omega arith)
  canon_loop-join (suc fuel) st [] enough h = refl
  canon_loop-join (suc fuel) st (x ∷ xs) enough h =
      let c = before slash (x ∷ xs) in
      let later = behind slash (x ∷ xs) in
      rw (canon_step-join st c h) (
        canon_loop-join fuel (push b st c) later (omega (arith, length-behind_lt x xs))
          (push-IsStack b st c h (before-IsFlat (x ∷ xs)))
        ∙ ap join (sym (foldl-elements st (x ∷ xs))))
