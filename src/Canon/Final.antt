-- ===== src/Canon/Final.antt =====
-- `canon` in terms of the stack that its loop leaves.
use stirmake.Prelude.{
  ℕ, ◌≡◌, ◌≢◌, suc-==-zero, refl, sym, ap, ◌∙◌, subst, Bool, false, inl, inr, List, [], ◌∷◌, foldl,
  some, arith, length, All, Bool-cases, str_eq, str_eq_iff,
}
use stirmake.Canon.{Bytes, dot, IsFlat, starts_with_slash, canon_end, canon_loop, canon}
use stirmake.Canon.Stack.{elements, join, IsStack, push, push-IsStack}
use stirmake.Canon.Refine.{canon_loop-join}
use stirmake.Canon.Elements.{elements-IsFlat}

-- The stack behind the loop.
unfoldable pub stack_of : Bytes → List Bytes
unfolding push elements starts_with_slash
stack_of old = foldl (push (starts_with_slash old)) [] (elements old)

foldl-push-IsStack :
    (b : Bool) (es st : List Bytes) → All IsFlat es → IsStack st → IsStack (foldl (push b) st es)
foldl-push-IsStack b [] st flat h = h
foldl-push-IsStack b (e ∷ es) st flat h =
    foldl-push-IsStack b es (push b st e) flat.1 (push-IsStack b st e h flat.0)

pub stack_of-IsStack : (old : Bytes) → IsStack (stack_of old)
unfolding stack_of
stack_of-IsStack old =
    foldl-push-IsStack (starts_with_slash old) (elements old) [] (elements-IsFlat old) tt

-- What `canon` returns of a path that is not empty.
unfoldable pub final : Bytes → Bytes
unfolding canon_end starts_with_slash join stack_of
final old = canon_end (starts_with_slash old) (join (stack_of old))

pub final-eq :
    (b : Bool) (s : Bytes)
    → starts_with_slash s ≡ b
    → final s ≡ canon_end b (join (foldl (push b) [] (elements s)))
unfolding final stack_of
final-eq b s e = subst (λ a. final s ≡ canon_end a (join (foldl (push a) [] (elements s)))) e refl

pub stack_of-eq :
    (s : Bytes) → starts_with_slash s ≡ false → stack_of s ≡ foldl (push false) [] (elements s)
unfolding stack_of
stack_of-eq s e = ap (λ a. foldl (push a) [] (elements s)) e

loop_of_nil :
    (b : Bool) (old : Bytes)
    → canon_loop (length old) b [] old ≡ join (foldl (push b) [] (elements old))
unfolding join
loop_of_nil b old = canon_loop-join b (length old) [] old (omega arith) tt

canon-eq-loop :
    (x : ℕ) (xs : Bytes)
    → str_eq (x ∷ xs) dot ≡ false
    → canon (x ∷ xs)
      ≡ some (
          canon_end
            (starts_with_slash (x ∷ xs))
            (canon_loop (length (x ∷ xs)) (starts_with_slash (x ∷ xs)) [] (x ∷ xs)))
unfolding canon
canon-eq-loop x xs e = rw (suc-==-zero (length xs), e)

canon-dot : canon dot ≡ some (final dot)
unfolding canon final
canon-dot = refl

pub canon-eq : (old : Bytes) → old ≢ [] → canon old ≡ some (final old)
unfolding final
canon-eq [] h = absurd (h refl)
canon-eq (x ∷ xs) h = elim (Bool-cases (str_eq (x ∷ xs) dot)) [
  | inl e ↦ subst (λ s. canon s ≡ some (final s)) (sym ((str_eq_iff (x ∷ xs) dot).0 e)) canon-dot
  | inr e ↦
      canon-eq-loop x xs e
      ∙ ap (λ (neu : Bytes). some (canon_end (starts_with_slash (x ∷ xs)) neu))
          (loop_of_nil (starts_with_slash (x ∷ xs)) (x ∷ xs))
]

pub canon-eq-some : (old r : Bytes) → canon old ≡ some r → (old ≢ []) × (r ≡ final old)
canon-eq-some [] r h = absurd (unfold canon in cc)
canon-eq-some (x ∷ xs) r h = (λ e. cc, cc (canon-eq (x ∷ xs) (λ e. cc)))
