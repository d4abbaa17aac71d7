-- ===== src/Cycle/Arrays.antt =====
-- Arrays of flags: what a write does to the reads, and the count of the flags that are not set.
use stirmake.Prelude.{
  ℕ, zero, suc, ◌<◌, ◌≡◌, refl, ap, ◌==◌, if◌then◌else◌, Bool, true, false, List, [], ◌∷◌, get_or,
  set, length, arith,
}
use stirmake.Cycle.{zeros}

abbrev pub unset : List Bool → ℕ
unset [] = 0
unset (false ∷ bs) = suc (unset bs)
unset (true ∷ bs) = unset bs

pub get_or-set :
    (bs : List Bool) (i j : ℕ) (v : Bool)
    → i < length bs
    → get_or (set bs i v) j false ≡ (if i == j then v else get_or bs j false)
get_or-set [] i j v h = absurd (omega arith)
get_or-set (b ∷ bs) zero zero v h = ground arith
get_or-set (b ∷ bs) zero (suc j) v h = ground arith
get_or-set (b ∷ bs) (suc i) zero v h = ground arith
get_or-set (b ∷ bs) (suc i) (suc j) v h = ground (arith, get_or-set bs i j v)

pub unset-set :
    (bs : List Bool) (i : ℕ)
    → i < length bs
    → get_or bs i false ≡ false
    → suc (unset (set bs i true)) ≡ unset bs
unset-set [] i h e = absurd (omega arith)
unset-set (true ∷ bs) zero h e = absurd (cc)
unset-set (false ∷ bs) zero h e = refl
unset-set (false ∷ bs) (suc i) h e = ap suc (unset-set bs i (omega arith) e)
unset-set (true ∷ bs) (suc i) h e = unset-set bs i (omega arith) e

-- A flag that is set and taken back.
pub set-set :
    (bs : List Bool) (i : ℕ) → get_or bs i false ≡ false → set (set bs i true) i false ≡ bs
set-set [] i e = refl
set-set (b ∷ bs) zero e = ap (λ x. x ∷ bs) (ground arith)
set-set (b ∷ bs) (suc i) e = ap (λ xs. b ∷ xs) (set-set bs i e)

module _ {A : Type 0} where
  pub length-zeros : (xs : List A) → length (zeros xs) ≡ length xs
  unfolding zeros
  length-zeros [] = refl
  length-zeros (x ∷ xs) = ap suc (length-zeros xs)

  pub get_or-zeros : (xs : List A) (i : ℕ) → get_or (zeros xs) i false ≡ false
  unfolding zeros
  get_or-zeros [] i = refl
  get_or-zeros (x ∷ xs) zero = refl
  get_or-zeros (x ∷ xs) (suc i) = get_or-zeros xs i

  pub unset-zeros : (xs : List A) → unset (zeros xs) ≡ length xs
  unfolding zeros
  unset-zeros [] = refl
  unset-zeros (x ∷ xs) = ap suc (unset-zeros xs)
