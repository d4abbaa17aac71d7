-- ===== src/Canon/Bounds.antt =====
-- The output of `canon` fits the buffer that canon_buflen takes for it.
use stirmake.Prelude.{
  ℕ, suc, ◌+◌, ◌-◌, ◌≤◌, ◌≡◌, ◌≢◌, refl, sym, subst, Bool, true, false, List, [], ◌∷◌, foldl, some,
  arith, length, length-append, str_eq_iff, ==_iff, Bool-cases, inl, inr, ◌==◌,
}
use stirmake.Canon.{Bytes, slash, dot_dot, starts_with_slash, canon_end, canon}
use stirmake.Canon.Stack.{elements, join, push, push-nil}
use stirmake.Canon.Elements.{elements_of_slash}
use stirmake.Canon.Final.{final, final-eq, canon-eq-some}

-- The bytes of the elements, with one more byte for each.
weight : List Bytes → ℕ
weight [] = 0
weight (c ∷ cs) = suc (length c) + weight cs

weight-elements : (s : Bytes) → weight (elements s) ≡ suc (length s)
unfolding weight elements
weight-elements [] = omega arith
weight-elements (x ∷ xs) = ground (arith, weight-elements xs)

weight-nil : weight [] ≡ 0
unfolding weight
weight-nil = refl

length-join : (st : List Bytes) → length (join st) ≤ weight st - 1
unfolding weight join
length-join [] = omega arith
length-join (c ∷ []) = omega arith
length-join (c ∷ d ∷ cs) =
    omega (arith, length-join (d ∷ cs), length-append (join (d ∷ cs)) (slash ∷ c))

weight-push :
    (b : Bool) (st : List Bytes) (c : Bytes) → weight (push b st c) ≤ weight st + suc (length c)
unfolding push weight
weight-push b [] c = ground (arith, str_eq_iff c dot_dot)
weight-push b (d ∷ []) c = ground (arith, str_eq_iff c dot_dot, str_eq_iff d dot_dot)
weight-push b (d ∷ e ∷ st) c = ground (arith, str_eq_iff c dot_dot)

weight-foldl :
    (b : Bool) (es st : List Bytes) → weight (foldl (push b) st es) ≤ weight st + weight es
unfolding weight
weight-foldl b [] st = omega arith
weight-foldl b (e ∷ es) st = omega (arith, weight-foldl b es (push b st e), weight-push b st e)

length-stack : (b : Bool) (s : Bytes) → length (join (foldl (push b) [] (elements s))) ≤ length s
length-stack b s = omega (
  arith,
  length-join (foldl (push b) [] (elements s)),
  weight-foldl b (elements s) [],
  weight-elements s,
  weight-nil,
)

length-stack_absolute :
    (rest : Bytes) → length (join (foldl (push true) [] ([] ∷ elements rest))) ≤ length rest
length-stack_absolute rest =
    subst (λ st. length (join (foldl (push true) st (elements rest))) ≤ length rest)
      (sym (push-nil true [])) (length-stack true rest)

length-canon_end-false : (s : Bytes) (n : ℕ) → length s ≤ suc n → length (canon_end false s) ≤ suc n
unfolding canon_end
length-canon_end-false [] n h = omega arith
length-canon_end-false (x ∷ xs) n h = h

length-final : (old : Bytes) → old ≢ [] → length (final old) ≤ length old
length-final [] h = absurd (h refl)
length-final (x ∷ xs) h = elim (Bool-cases (x == slash)) [
  | inl e ↦ rw ((==_iff x slash).0 e) (absolute xs)
  | inr e ↦
      rw (final-eq false (x ∷ xs) (unfold starts_with_slash in e))
        (length-canon_end-false _ (length xs) (length-stack false (x ∷ xs)))
]
  where
    absolute : (rest : Bytes) → length (final (slash ∷ rest)) ≤ suc (length rest)
    absolute rest =
        rw (final-eq true (slash ∷ rest) (unfold starts_with_slash in refl), elements_of_slash rest)
          (unfold canon_end in omega (arith, length-stack_absolute rest))

-- What `canon` returns is no longer than its argument, so that with the NUL it fits the
-- strlen(old) + 1 bytes of the buffer.
pub length-canon : (old r : Bytes) → canon old ≡ some r → length r ≤ length old
length-canon old r h = let (ne, e) = canon-eq-some old r h in rw e (length-final old ne)
