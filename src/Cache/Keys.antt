-- ===== src/Cache/Keys.antt =====
-- Lists of entries with one entry for each name.
use mathlib.Core.Option.{some-injective}
use stirmake.Prelude.{
  ℕ, suc, ◌≡◌, refl, ap, subst, ◌∙◌, ◌==◌, true, inl, inr, Bool-cases, none, some, List, [], ◌∷◌,
  length, All, arith,
}
use stirmake.Cache.{find, delete, without_last}

module _ {V : Type 0} where
  abbrev pub IsKeyed : List (ℕ × V) → Type 0
  IsKeyed [] = Unit
  IsKeyed (e ∷ es) = (find es e.0 ≡ none) × IsKeyed es

  find-delete_other : (es : List (ℕ × V)) (j k : ℕ) → find es k ≡ none → find (delete es j) k ≡ none
  unfolding find delete
  find-delete_other [] j k h = refl
  find-delete_other (e ∷ es) j k h = ground (arith, find-delete_other es j k)

  pub find-delete : (es : List (ℕ × V)) (k : ℕ) → IsKeyed es → find (delete es k) k ≡ none
  unfolding find delete
  find-delete [] k h = refl
  find-delete (e ∷ es) k h = ground (arith, h.0, find-delete es k h.1)

  pub IsKeyed-delete : (es : List (ℕ × V)) (k : ℕ) → IsKeyed es → IsKeyed (delete es k)
  unfolding delete
  IsKeyed-delete [] k h = tt
  IsKeyed-delete (e ∷ es) k h = elim (Bool-cases (e.0 == k)) [
    | inl q ↦ rw q h.1
    | inr q ↦ rw q (find-delete_other es k e.0 h.0, IsKeyed-delete es k h.1)
  ]

  pub length-delete :
      (es : List (ℕ × V)) (k : ℕ) (v : V)
      → find es k ≡ some v
      → suc (length (delete es k)) ≡ length es
  unfolding find delete
  length-delete [] k v h = absurd (cc)
  length-delete (e ∷ es) k v h = ground (arith, length-delete es k v)

  pub find-without_last :
      (es : List (ℕ × V)) (k : ℕ) → find es k ≡ none → find (without_last es) k ≡ none
  unfolding find without_last
  find-without_last [] k h = refl
  find-without_last (e ∷ []) k h = refl
  find-without_last (e ∷ f ∷ es) k h = ground (arith, find-without_last (f ∷ es) k)

  pub IsKeyed-without_last : (es : List (ℕ × V)) → IsKeyed es → IsKeyed (without_last es)
  unfolding without_last
  IsKeyed-without_last [] h = tt
  IsKeyed-without_last (e ∷ []) h = tt
  IsKeyed-without_last (e ∷ f ∷ es) h =
      (find-without_last (f ∷ es) e.0 h.0, IsKeyed-without_last (f ∷ es) h.1)

  pub length-without_last :
      (e : ℕ × V) (es : List (ℕ × V)) → length (without_last (e ∷ es)) ≡ length es
  unfolding without_last
  length-without_last e [] = refl
  length-without_last e (f ∷ es) = ap suc (length-without_last f es)

  module _ (P : ℕ × V → Type 0) where
    pub All-delete : (es : List (ℕ × V)) (k : ℕ) → All P es → All P (delete es k)
    unfolding delete
    All-delete [] k h = tt
    All-delete (e ∷ es) k h = elim (Bool-cases (e.0 == k)) [
      | inl q ↦ rw q h.1
      | inr q ↦ rw q (h.0, All-delete es k h.1)
    ]

    pub All-without_last : (es : List (ℕ × V)) → All P es → All P (without_last es)
    unfolding without_last
    All-without_last [] h = tt
    All-without_last (e ∷ []) h = tt
    All-without_last (e ∷ f ∷ es) h = (h.0, All-without_last (f ∷ es) h.1)

    pub All-find : (es : List (ℕ × V)) (k : ℕ) (v : V) → find es k ≡ some v → All P es → P (k, v)
    unfolding find
    All-find [] k v q h = absurd (cc)
    All-find (e ∷ es) k v q h = elim (Bool-cases (e.0 == k)) [
      | inl same ↦
          subst P
            (ap (λ x. (x, e.1)) (key_is same)
              ∙ ap (λ x. (k, x)) (some-injective e.1 v (value_is same)))
            h.0
      | inr other ↦ All-find es k v (ground arith) h.1
    ]
      where
        key_is : (e.0 == k) ≡ true → e.0 ≡ k
        key_is same = ground arith

        value_is : (e.0 == k) ≡ true → some e.1 ≡ some v
        value_is same = ground arith
