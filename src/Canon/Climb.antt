-- ===== src/Canon/Climb.antt =====
-- A path that `canon` returns climbs two directories at most.
use stirmake.Prelude.{
  ◌≤◌, ◌≡◌, ◌≢◌, refl, sym, ap, List-cases, ◌∙◌, Bool, true, false, List, [], ◌∷◌, foldl, some,
  arith, str_eq_iff, inl, inr,
}
use stirmake.Canon.{Bytes, dot_dot, starts_with_slash, canon_end, canon}
use stirmake.Canon.Stack.{elements, join, IsStack, push}
use stirmake.Canon.Elements.{climb, climb-elements-join, elements_of_slash, join-ne-nil}
use stirmake.Canon.Normal.{normal_form, normalize, normalize-eq, normal_form-IsStack}
use stirmake.Canon.Final.{final, stack_of, stack_of-IsStack, canon-eq-some}

climb-push : (b : Bool) (st : List Bytes) (c : Bytes) → climb st ≤ 2 → climb (push b st c) ≤ 2
unfolding push climb
climb-push b [] c h = ground (arith, str_eq_iff c dot_dot)
climb-push b (d ∷ []) c h = ground (arith, str_eq_iff c dot_dot)
climb-push b (d ∷ e ∷ st) c h = ground (arith, str_eq_iff c dot_dot)

climb-foldl-push : (b : Bool) (es st : List Bytes) → climb st ≤ 2 → climb (foldl (push b) st es) ≤ 2
climb-foldl-push b [] st h = h
climb-foldl-push b (e ∷ es) st h = climb-foldl-push b es (push b st e) (climb-push b st e h)

-- The end of canon_buflen adds no "..".
climb-canon_end :
    (b : Bool) (st : List Bytes) → IsStack st → climb (elements (canon_end b (join st))) ≡ climb st
unfolding canon_end
climb-canon_end true st h =
    rw (elements_of_slash (join st)) (unfold climb in omega (arith, climb-elements-join st h))
climb-canon_end false [] h = unfold climb elements join in refl
climb-canon_end false (c ∷ cs) h = elim (List-cases (join (c ∷ cs))) [
  | inl e ↦ absurd (join-ne-nil c cs h e)
  | inr (x, xs, e) ↦ rw e (ap (λ s. climb (elements s)) (sym e) ∙ climb-elements-join (c ∷ cs) h)
]

climb-final : (old : Bytes) → climb (elements (final old)) ≡ climb (stack_of old)
unfolding final
climb-final old = climb-canon_end (starts_with_slash old) (stack_of old) (stack_of-IsStack old)

-- A path that `canon` returns has at most two elements "..".
pub climb-canon : (old r : Bytes) → canon old ≡ some r → climb (elements r) ≤ 2
unfolding stack_of
climb-canon old r h =
    let few =
      climb-foldl-push (starts_with_slash old) (elements old) [] (unfold climb in omega arith) in
    rw (canon-eq-some old r h).1 (omega (arith, climb-final old))

climb-normalize : (old : Bytes) → climb (elements (normalize old)) ≡ climb (normal_form old)
climb-normalize old =
    ap (λ s. climb (elements s)) (normalize-eq old)
    ∙ climb-canon_end (starts_with_slash old) (normal_form old) (normal_form-IsStack old)

-- Where the normal form of a path has three ".." or more, `canon` does not return the lexically
-- normalized path.
pub canon_three_ups : (old : Bytes) → 3 ≤ climb (normal_form old) → canon old ≢ some (normalize old)
canon_three_ups old many e =
    absurd (omega (arith, climb-canon old (normalize old) e, climb-normalize old))
