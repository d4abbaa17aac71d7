-- ===== src/Sched/Measure.antt =====
-- The calls that can still do something: rules that are not executing, and rules that are not
-- executed.
use stirmake.Prelude.{
  ℕ, zero, suc, ◌+◌, ◌≤◌, ◌<◌, ◌≡◌, refl, subst, ◌==◌, if◌then◌else◌, Bool, true, false, inl, inr,
  Bool-cases, arith,
}
use stirmake.Sched.{State}
use stirmake.Sched.Invariant.{AllGrow}

-- The numbers below `n` for which a test fails.
missing : ℕ → (ℕ → Bool) → ℕ
missing zero p = 0
missing (suc n) p = (if p n then 0 else 1) + missing n p

missing_le :
    (n : ℕ) (p q : ℕ → Bool) → ((i : ℕ) → p i ≡ true → q i ≡ true) → missing n q ≤ missing n p
unfolding missing
missing_le zero p q h = omega arith
missing_le (suc n) p q h = ground (arith, h n, missing_le n p q h)

missing_lt :
    (n i : ℕ) (p q : ℕ → Bool)
    → ((i : ℕ) → p i ≡ true → q i ≡ true)
    → i < n
    → p i ≡ false
    → q i ≡ true
    → missing n q < missing n p
unfolding missing
missing_lt zero i p q h l a b = absurd (omega arith)
missing_lt (suc n) i p q h l a b = elim (Bool-cases (i == n)) [
  | inl e ↦
      let is_last : i ≡ n = ground arith in
      let off : p n ≡ false = subst (λ j. p j ≡ false) is_last a in
      let on : q n ≡ true = subst (λ j. q j ≡ true) is_last b in
      rw (off, on) (omega (arith, missing_le n p q h))
  | inr e ↦ ground (arith, h n, missing_lt n i p q h)
]

missing_bound : (n : ℕ) (p : ℕ → Bool) → missing n p ≤ n
unfolding missing
missing_bound zero p = omega arith
missing_bound (suc n) p = ground (arith, missing_bound n p)

module _ {W : Type 0} (n : ℕ) where
  pub measure : State W → ℕ
  unfolding missing
  measure s = missing n (λ i. (s.rule i).is_executing) + missing n (λ i. (s.rule i).is_executed)

  pub measure_le : (s t : State W) → AllGrow s t → measure t ≤ measure s
  unfolding measure
  measure_le s t g = omega (
    arith,
    missing_le n (λ i. (s.rule i).is_executing) (λ i. (t.rule i).is_executing)
        (λ i. (g i).executing),
    missing_le n (λ i. (s.rule i).is_executed) (λ i. (t.rule i).is_executed) (λ i. (g i).executed),
  )

  pub measure_executing :
      (s t : State W) (i : ℕ)
      → AllGrow s t
      → i < n
      → (s.rule i).is_executing ≡ false
      → (t.rule i).is_executing ≡ true
      → measure t < measure s
  unfolding measure
  measure_executing s t i g l a b = omega (
    arith,
    missing_lt n i (λ i. (s.rule i).is_executing) (λ i. (t.rule i).is_executing)
        (λ i. (g i).executing) l a b,
    missing_le n (λ i. (s.rule i).is_executed) (λ i. (t.rule i).is_executed) (λ i. (g i).executed),
  )

  pub measure_executed :
      (s t : State W) (i : ℕ)
      → AllGrow s t
      → i < n
      → (s.rule i).is_executed ≡ false
      → (t.rule i).is_executed ≡ true
      → measure t < measure s
  unfolding measure
  measure_executed s t i g l a b = omega (
    arith,
    missing_le n (λ i. (s.rule i).is_executing) (λ i. (t.rule i).is_executing)
        (λ i. (g i).executing),
    missing_lt n i (λ i. (s.rule i).is_executed) (λ i. (t.rule i).is_executed) (λ i. (g i).executed)
        l a b,
  )

  pub measure_bound : (s : State W) → measure s ≤ n + n
  unfolding measure
  measure_bound s = omega (
    arith,
    missing_bound n (λ i. (s.rule i).is_executing),
    missing_bound n (λ i. (s.rule i).is_executed),
  )

  pub measure_positive :
      (s : State W) (i : ℕ) → i < n → (s.rule i).is_executed ≡ false → 0 < measure s
  unfolding measure
  measure_positive s i l a =
      omega (arith, missing_lt n i (λ i. (s.rule i).is_executed) (λ i. true) (λ i k. refl) l a refl)
