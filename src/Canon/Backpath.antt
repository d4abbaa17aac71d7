-- ===== src/Canon/Backpath.antt =====
-- construct_backpath leads back from where the path leads.
use mathlib.Core.List.{foldl-append}
use native.Mathlib.Numerals.{add-one}
use stirmake.Prelude.{
  ℕ, suc, ◌+◌, ◌≤◌, ◌≡◌, ◌≢◌, refl, sym, ap, ◌∙◌, Bool, true, false, inl, inr, List, [], ◌∷◌, ◌++◌,
  foldl, some, arith, length, length-append, All, Bool-cases, str_eq, str_eq_iff,
}
use stirmake.Canon.{
  Bytes, slash, dot, dot_dot, IsFlat, starts_with_slash, starts_with_up, canon_end, canon, strcnt,
  ups, pathcat2, backpath_of, construct_backpath,
}
use stirmake.Canon.Stack.{elements, join, IsStack, pop, push}
use stirmake.Canon.Elements.{elements-append_slash, elements-flat, join-ne-nil}
use stirmake.Canon.Final.{final, final-eq, stack_of, stack_of-eq, stack_of-IsStack, canon-eq}
use stirmake.Canon.Idempotent.{IsSettled, stack_of-IsSettled, canon_end-join}

strcnt-flat : (s : Bytes) → IsFlat s → strcnt s slash ≡ 0
unfolding strcnt
strcnt-flat [] h = refl
strcnt-flat (x ∷ xs) h = ground (arith, strcnt-flat xs h.1)

strcnt-append : (s t : Bytes) → strcnt (s ++ t) slash ≡ strcnt s slash + strcnt t slash
unfolding strcnt
strcnt-append [] t = omega arith
strcnt-append (x ∷ xs) t = omega (arith, strcnt-append xs t)

-- The slashes of the string of a stack are one less than its elements.
strcnt-join :
    (c : Bytes) (cs : List Bytes) → IsStack (c ∷ cs) → strcnt (join (c ∷ cs)) slash ≡ length cs
unfolding join strcnt
strcnt-join c [] h = strcnt-flat c h.0.flat
strcnt-join c (d ∷ cs) h =
    ground (
      arith,
      strcnt-append (join (d ∷ cs)) (slash ∷ c),
      strcnt-join d cs h.1,
      strcnt-flat c h.0.flat,
    )

elements-ups : (cnt : ℕ) → elements (ups (suc (suc cnt))) ≡ dot_dot ∷ elements (ups (suc cnt))
unfolding ups
elements-ups cnt =
    elements-append_slash dot_dot (ups (suc cnt))
    ∙ ap (λ es. es ++ elements (ups (suc cnt)))
        (elements-flat dot_dot (ground arith, (ground arith, tt)))

elements-ups_one : elements (ups 1) ≡ dot_dot ∷ []
unfolding elements ups
elements-ups_one = refl

push-dot_dot : (st : List Bytes) → push false st dot_dot ≡ pop false st
unfolding push str_eq
push-dot_dot st = refl

-- As many ".." as there are elements empty the stack.
foldl-ups :
    (c : Bytes) (cs : List Bytes)
    → All (λ e. e ≢ dot_dot) (c ∷ cs)
    → foldl (push false) (c ∷ cs) (elements (ups (suc (length cs)))) ≡ []
unfolding pop
foldl-ups c [] h =
    rw elements-ups_one (push-dot_dot (c ∷ []) ∙ ground (arith, h.0, str_eq_iff c dot_dot))
foldl-ups c (d ∷ cs) h = rw (elements-ups (length cs)) (
    ap (λ st. foldl (push false) st (elements (ups (suc (length cs))))) (push-dot_dot (c ∷ d ∷ cs))
    ∙ foldl-ups d cs h.1)

starts_with_up-append :
    (s t : Bytes) → starts_with_up s ≡ true → starts_with_up (s ++ slash ∷ t) ≡ true
unfolding starts_with_up
starts_with_up-append [] t h = ground arith
starts_with_up-append (x ∷ []) t h = ground arith
starts_with_up-append (x ∷ y ∷ []) t h = ground arith
starts_with_up-append (x ∷ y ∷ z ∷ s) t h = ground arith

up_dots : starts_with_up dot_dot ≡ true
unfolding starts_with_up
up_dots = refl

starts_with_up-join :
    (c d : Bytes) (cs : List Bytes)
    → starts_with_up (join (d ∷ cs)) ≡ true
    → starts_with_up (join (c ∷ d ∷ cs)) ≡ true
unfolding join
starts_with_up-join c d cs e = starts_with_up-append (join (d ∷ cs)) c e

starts_with_up-join_one : (c : Bytes) → starts_with_up (join (c ∷ [])) ≡ starts_with_up c
unfolding join
starts_with_up-join_one c = refl

-- If the string of a settled stack does not start with "..", no element is "..".
no_ups :
    (c : Bytes) (cs : List Bytes)
    → IsSettled false (c ∷ cs)
    → starts_with_up (join (c ∷ cs)) ≡ false
    → All (λ e. e ≢ dot_dot) (c ∷ cs)
no_ups c [] s h = (λ e. cc (ap starts_with_up e, up_dots, starts_with_up-join_one c), tt)
no_ups c (d ∷ cs) s h = elim (Bool-cases (starts_with_up (join (d ∷ cs)))) [
  | inl e ↦ absurd (cc (starts_with_up-join c d cs e))
  | inr e ↦ let rest = no_ups d cs s.1 e in (λ p. rest.0 (s.0 p).0, rest)
]

backpath-eq-some :
    (can b : Bytes)
    → can ≢ dot
    → backpath_of can ≡ some b
    → (starts_with_up can ≡ false) × (b ≡ ups (strcnt can slash + 1))
unfolding backpath_of
backpath-eq-some can b ne h = ground (arith, str_eq_iff can dot)

way_back_from_dot : (b : Bytes) → backpath_of (canon_end false (join [])) ≡ some b → dot ≡ b
unfolding backpath_of canon_end join str_eq
way_back_from_dot b e = cc e

length-join_pos : (c : Bytes) (cs : List Bytes) → IsStack (c ∷ cs) → 1 ≤ length (join (c ∷ cs))
length-join_pos c cs h = ground (arith, join-ne-nil c cs h)

join-ne-dot : (c : Bytes) (cs : List Bytes) → IsStack (c ∷ cs) → join (c ∷ cs) ≢ dot
join-ne-dot c [] h e = h.0.not_dot (unfold join in e)
join-ne-dot c (d ∷ cs) h e = absurd (
    unfold join in
    omega (arith, ap length e, length-append (join (d ∷ cs)) (slash ∷ c), length-join_pos d cs h.1))

-- On the stack of the path, the way back ends at the empty stack.
way_back :
    (st : List Bytes) (b : Bytes)
    → IsStack st
    → IsSettled false st
    → backpath_of (canon_end false (join st)) ≡ some b
    → foldl (push false) st (elements b) ≡ []
way_back [] b h s e =
    ap (λ t. foldl (push false) [] (elements t)) (sym (way_back_from_dot b e))
    ∙ (unfold elements push str_eq in refl)
way_back (c ∷ cs) b h s e =
    let (none_up, eb) =
      backpath-eq-some (join (c ∷ cs)) b (join-ne-dot c cs h)
        (ap backpath_of (sym (canon_end-join c cs h)) ∙ e) in
    ap (λ t. foldl (push false) (c ∷ cs) (elements t))
      (eb ∙ ap (λ n. ups (n + 1)) (strcnt-join c cs h))
    ∙ ap (λ n. foldl (push false) (c ∷ cs) (elements (ups n))) (add-one (length cs))
    ∙ foldl-ups c cs (no_ups c cs s none_up)

construct_backpath-eq :
    (p b : Bytes) → construct_backpath p ≡ some b → (p ≢ []) × (backpath_of (final p) ≡ some b)
unfolding construct_backpath
construct_backpath-eq [] b h = absurd (unfold canon in cc)
construct_backpath-eq (x ∷ xs) b h = (λ e. cc, ground (arith, canon-eq (x ∷ xs)))

backpath_of-absolute : (s b : Bytes) → backpath_of (canon_end true s) ≢ some b
unfolding backpath_of canon_end
backpath_of-absolute s b e = ground (arith, str_eq_iff (slash ∷ s) dot)

-- The way back from the stack of a path for which construct_backpath returns.
way_back_of :
    (p b : Bytes) (abs : Bool)
    → starts_with_slash p ≡ abs
    → backpath_of (canon_end abs (join (stack_of p))) ≡ some b
    → IsSettled abs (stack_of p)
    → (abs ≡ false) × (foldl (push false) (stack_of p) (elements b) ≡ [])
way_back_of p b true a e s = absurd (backpath_of-absolute (join (stack_of p)) b e)
way_back_of p b false a e s = (refl, way_back (stack_of p) b (stack_of-IsStack p) s e)

starts_with_slash-append : (p t : Bytes) → p ≢ [] → starts_with_slash (p ++ t) ≡ starts_with_slash p
unfolding starts_with_slash
starts_with_slash-append [] t h = absurd (h refl)
starts_with_slash-append (x ∷ xs) t h = refl

final-append :
    (p b : Bytes)
    → p ≢ []
    → starts_with_slash p ≡ false
    → foldl (push false) (stack_of p) (elements b) ≡ []
    → final (p ++ slash ∷ b) ≡ dot
final-append p b ne rel back =
    final-eq false (p ++ slash ∷ b) (starts_with_slash-append p (slash ∷ b) ne ∙ rel)
    ∙ ap (λ es. canon_end false (join (foldl (push false) [] es))) (elements-append_slash p b)
    ∙ ap (λ t. canon_end false (join t)) (foldl-append (push false) [] (elements p) (elements b))
    ∙ ap (λ t. canon_end false (join (foldl (push false) t (elements b)))) (sym (stack_of-eq p rel))
    ∙ ap (λ t. canon_end false (join t)) back
    ∙ (unfold canon_end join in refl)

-- Behind a path for which construct_backpath returns, its result leads back to where the path
-- started: the two joined by a slash are normalized to ".".
pub canon-construct_backpath :
    (p b : Bytes) → construct_backpath p ≡ some b → canon (pathcat2 p b) ≡ some dot
unfolding pathcat2
canon-construct_backpath p b h =
    let (ne, e) = construct_backpath-eq p b h in
    let (rel, back) =
      way_back_of p b (starts_with_slash p) refl (unfold final in e) (stack_of-IsSettled p) in
    canon-eq (p ++ slash ∷ b) (λ z. ground (arith, ne)) ∙ ap some (final-append p b ne rel back)
