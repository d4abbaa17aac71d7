-- ===== src/Remain/Counts.antt =====
-- The two counts of a rule are those of its entries.
use mathlib.Core.Option.{some-injective}
use stirmake.Prelude.{
  ℕ, suc, ◌+◌, ◌-◌, ◌≤◌, ◌≡◌, ◌≢◌, ◌⊎◌, ◌↔◌, refl, sym, ap, ◌∙◌, ◌==◌, ==-refl, ltb, if◌then◌else◌,
  true, false, ◌||◌, inl, inr, Bool-cases, Option-cases, List-cases, none, some, List, [], ◌∷◌,
  length, arith,
}
use stirmake.UpToDate.{Stirdep}
use stirmake.Remain.{
  DepRemain, Remain, has_entry, deps_remain_has, wait_entry, deps_remain_forwait, find_entry,
  without, deps_remain_erase, deps_remain_insert, insert_dep, calc_deps_remain,
}

abbrev pub waits : List DepRemain → ℕ
waits [] = 0
waits (e ∷ es) = e.waitcnt + waits es

abbrev pub IsKeyed : List DepRemain → Type 0
IsKeyed [] = Unit
IsKeyed (e ∷ es) = (has_entry es e.ruleid ≡ false) × IsKeyed es

-- One entry for each rule, and counts that agree with the entries.
pub record IsCounted (r : Remain) : Type 0 where
  pub keyed : IsKeyed r.deps_remain
  pub deps : length r.deps_remain ≡ r.deps_remain_cnt
  pub waits_of : waits r.deps_remain ≡ r.wait_remain_cnt

-- An entry that is taken out.
without_lem :
    (es : List DepRemain) (k : ℕ) (e : DepRemain)
    → find_entry es k ≡ some e
    → (suc (length (without es k)) ≡ length es) × (waits (without es k) + e.waitcnt ≡ waits es)
unfolding find_entry without
without_lem [] k e h = absurd (cc)
without_lem (x ∷ es) k e h = elim (Bool-cases (x.ruleid == k)) [
  | inl q ↦ rw q (refl, omega (arith, ap DepRemain.waitcnt (some-injective x e (first q))))
  | inr q ↦ let (l, w) = without_lem es k e (ground arith) in rw q (ap suc l, omega (arith, w))
]
  where
    first : (x.ruleid == k) ≡ true → some x ≡ some e
    first q = ground arith

has-without :
    (es : List DepRemain) (k j : ℕ)
    → IsKeyed es
    → has_entry (without es k) j ≡ (if k == j then false else has_entry es j)
unfolding has_entry without
has-without [] k j h = ground arith
has-without (e ∷ es) k j h = ground (arith, h.0, has-without es k j h.1)

IsKeyed-without : (es : List DepRemain) (k : ℕ) → IsKeyed es → IsKeyed (without es k)
unfolding without
IsKeyed-without [] k h = tt
IsKeyed-without (e ∷ es) k h = elim (Bool-cases (e.ruleid == k)) [
  | inl q ↦ rw q h.1
  | inr q ↦ rw q (ground (arith, h.0, has-without es k e.ruleid h.1), IsKeyed-without es k h.1)
]

find_none : (es : List DepRemain) (k : ℕ) → find_entry es k ≡ none → has_entry es k ≡ false
unfolding find_entry has_entry
find_none [] k h = refl
find_none (e ∷ es) k h = ground (arith, find_none es k)

-- Of a rule whose counts are right, deps_remain_erase does not abort; the rule then waits for the
-- other dependencies only, and the counts are right.
pub deps_remain_erase-IsCounted :
    (r : Remain) (k : ℕ)
    → IsCounted r
    → (after : Remain) × (deps_remain_erase r k ≡ some after)
      × IsCounted after
      × ((j : ℕ) → deps_remain_has after j ≡ (if k == j then false else deps_remain_has r j))
unfolding deps_remain_erase deps_remain_has
deps_remain_erase-IsCounted r k h = elim (Option-cases (find_entry r.deps_remain k)) [
  | inl q ↦
      (r, (rw (q, deps_remain_erase) refl), h, λ j. ground (arith, find_none r.deps_remain k q))
  | inr (e, q) ↦
      let (l, w) = without_lem r.deps_remain k e q in
      let enough : ltb r.wait_remain_cnt e.waitcnt ≡ false = ground (arith, w, h.waits_of) in
      (
        record {
          deps_remain = without r.deps_remain k;
          deps_remain_cnt = r.deps_remain_cnt - 1;
          wait_remain_cnt = r.wait_remain_cnt - e.waitcnt;
        },
        (rw (q, deps_remain_erase, enough) refl),
        record {
          keyed = IsKeyed-without r.deps_remain k h.keyed;
          deps = omega (arith, l, h.deps);
          waits_of = omega (arith, w, h.waits_of);
        },
        λ j. has-without r.deps_remain k j h.keyed,
      )
]

-- The count of what is waited for does not grow.
pub wait_remain_cnt-deps_remain_erase :
    (r after : Remain) (k : ℕ)
    → deps_remain_erase r k ≡ some after
    → after.wait_remain_cnt ≤ r.wait_remain_cnt
unfolding deps_remain_erase
wait_remain_cnt-deps_remain_erase r after k h = ground arith

deps_remain_insert-IsCounted :
    (r : Remain) (k : ℕ)
    → IsCounted r
    → IsCounted (deps_remain_insert r k)
      × ((j : ℕ) → deps_remain_has (deps_remain_insert r k) j ≡ (k == j || deps_remain_has r j))
unfolding deps_remain_insert deps_remain_has has_entry
deps_remain_insert-IsCounted r k h = elim (Bool-cases (has_entry r.deps_remain k)) [
  | inl q ↦ rw q (h, λ j. same j q)
  | inr q ↦ rw q (
    record { keyed = (q, h.keyed); deps = ap suc h.deps; waits_of = omega (arith, h.waits_of) },
    λ j. refl,
  )
]
  where
    same :
        (j : ℕ)
        → has_entry r.deps_remain k ≡ true
        → has_entry r.deps_remain j ≡ (k == j || has_entry r.deps_remain j)
    same j q = elim (Bool-cases (k == j)) [
      | inl e ↦ rw e (ap (has_entry r.deps_remain) (sym (is_same e)) ∙ q)
      | inr e ↦ rw e refl
    ]
      where
        is_same : (k == j) ≡ true → k ≡ j
        is_same e = ground arith

abbrev pub Names : ℕ → List Stirdep → Type 0
Names j [] = ⊥
Names j (e ∷ es) = (e.ruleid ≡ some j) ⊎ Names j es

insert_dep-IsCounted :
    (r : Remain) (e : Stirdep)
    → IsCounted r
    → IsCounted (insert_dep r e)
      × ((j : ℕ)
          → (deps_remain_has (insert_dep r e) j ≡ true)
            ↔ ((deps_remain_has r j ≡ true) ⊎ (e.ruleid ≡ some j)))
unfolding insert_dep
insert_dep-IsCounted r e h = elim (Option-cases e.ruleid) [
  | inl q ↦ rw q (h, λ j. (inl, λ x. elim x [ inl p ↦ p | inr n ↦ absurd (cc) ]))
  | inr (k, q) ↦
      let (c, has) = deps_remain_insert-IsCounted r k h in rw q (c, λ j. ground (arith, has j))
]

-- After calc_deps_remain a rule whose counts were right waits for what it waited for before and for
-- each rule among its dependencies, duplicates counted once, and its counts are right.
pub calc_deps_remain-IsCounted :
    (r : Remain) (deplist : List Stirdep)
    → IsCounted r
    → IsCounted (calc_deps_remain r deplist)
      × ((j : ℕ)
          → (deps_remain_has (calc_deps_remain r deplist) j ≡ true)
            ↔ ((deps_remain_has r j ≡ true) ⊎ Names j deplist))
unfolding calc_deps_remain
calc_deps_remain-IsCounted r [] h = (h, λ j. (inl, λ x. elim x [ inl p ↦ p | inr n ↦ absurd n ]))
calc_deps_remain-IsCounted r (e ∷ es) h =
    let (first, has) = insert_dep-IsCounted r e h in
    let (rest, all) = calc_deps_remain-IsCounted (insert_dep r e) es first in
    (rest, λ j. ground (arith, all j, has j))

-- calc_deps_remain waits for nothing.
pub wait_remain_cnt-calc_deps_remain :
    (r : Remain) (deplist : List Stirdep)
    → (calc_deps_remain r deplist).wait_remain_cnt ≡ r.wait_remain_cnt
unfolding calc_deps_remain insert_dep deps_remain_insert
wait_remain_cnt-calc_deps_remain r [] = refl
wait_remain_cnt-calc_deps_remain r (e ∷ es) =
    wait_remain_cnt-calc_deps_remain (insert_dep r e) es ∙ ground arith

has-wait_entry : (es : List DepRemain) (k j : ℕ) → has_entry (wait_entry es k) j ≡ has_entry es j
unfolding has_entry wait_entry
has-wait_entry [] k j = refl
has-wait_entry (e ∷ es) k j = ground (arith, has-wait_entry es k j)

IsKeyed-wait_entry : (es : List DepRemain) (k : ℕ) → IsKeyed es → IsKeyed (wait_entry es k)
unfolding wait_entry
IsKeyed-wait_entry [] k h = tt
IsKeyed-wait_entry (e ∷ es) k h = elim (Bool-cases (e.ruleid == k)) [
  | inl q ↦ rw q h
  | inr q ↦ rw q (has-wait_entry es k e.ruleid ∙ h.0, IsKeyed-wait_entry es k h.1)
]

wait_entry_counts :
    (es : List DepRemain) (k : ℕ)
    → has_entry es k ≡ true
    → (length (wait_entry es k) ≡ length es) × (waits (wait_entry es k) ≡ suc (waits es))
unfolding has_entry wait_entry
wait_entry_counts [] k h = absurd (cc)
wait_entry_counts (e ∷ es) k h = elim (Bool-cases (e.ruleid == k)) [
  | inl q ↦ rw q (refl, omega arith)
  | inr q ↦ let (l, w) = wait_entry_counts es k (ground arith) in rw q (ap suc l, omega (arith, w))
]

-- Of a rule whose counts are right and a dependency that it waits for, deps_remain_forwait does not
-- abort; the counts stay right, and the rule waits for the same dependencies.
pub deps_remain_forwait-IsCounted :
    (r : Remain) (k : ℕ)
    → IsCounted r
    → deps_remain_has r k ≡ true
    → (after : Remain) × (deps_remain_forwait r k ≡ some after)
      × IsCounted after
      × ((j : ℕ) → deps_remain_has after j ≡ deps_remain_has r j)
unfolding deps_remain_forwait deps_remain_has
deps_remain_forwait-IsCounted r k h q =
    let (l, w) = wait_entry_counts r.deps_remain k q in
    (
      record r {
        deps_remain = wait_entry r.deps_remain k;
        wait_remain_cnt = suc r.wait_remain_cnt;
      },
      (rw q refl),
      record {
        keyed = IsKeyed-wait_entry r.deps_remain k h.keyed;
        deps = l ∙ h.deps;
        waits_of = w ∙ ap suc h.waits_of;
      },
      λ j. has-wait_entry r.deps_remain k j,
    )

pub has-deps_remain_forwait :
    (r after : Remain) (k : ℕ)
    → deps_remain_forwait r k ≡ some after
    → (j : ℕ) → deps_remain_has after j ≡ deps_remain_has r j
unfolding deps_remain_forwait deps_remain_has
has-deps_remain_forwait r after k h j = elim (Bool-cases (has_entry r.deps_remain k)) [
  | inl q ↦
      let e : some (record r {
        deps_remain = wait_entry r.deps_remain k;
        wait_remain_cnt = suc r.wait_remain_cnt;
      })
          ≡ some after =
        ground arith in
      ap (λ m. has_entry (Remain.deps_remain m) j) (sym (some-injective _ after e))
      ∙ has-wait_entry r.deps_remain k j
  | inr q ↦ absurd (ground arith)
]

-- The count of the remaining dependencies of a rule whose counts are right is 0 exactly if none
-- remains.
pub deps_remain_cnt_iff :
    (r : Remain) → IsCounted r → (r.deps_remain_cnt ≡ 0) ↔ ((j : ℕ) → deps_remain_has r j ≡ false)
unfolding deps_remain_has has_entry
deps_remain_cnt_iff r h = elim (List-cases r.deps_remain) [
  | inl q ↦ (λ z j. ap (λ es. has_entry es j) q, λ n. sym h.deps ∙ ap length q)
  | inr (e, es, q) ↦ (
    λ z j. absurd (omega (arith, ap length q, h.deps, z)),
    λ n. absurd (held e es (sym (ap (λ l. has_entry l e.ruleid) q) ∙ n e.ruleid)),
  )
]
  where
    held : (e : DepRemain) (es : List DepRemain) → has_entry (e ∷ es) e.ruleid ≡ false → ⊥
    held e es f = ground (arith, ==-refl e.ruleid)

pub deps_remain_some :
    (r : Remain) → IsCounted r → r.deps_remain_cnt ≢ 0 → (d : ℕ) × (deps_remain_has r d ≡ true)
unfolding deps_remain_has has_entry
deps_remain_some r h n = elim (List-cases r.deps_remain) [
  | inl q ↦ absurd (n (sym h.deps ∙ ap length q))
  | inr (e, es, q) ↦ (e.ruleid, ap (λ l. has_entry l e.ruleid) q ∙ ground (arith, ==-refl e.ruleid))
]
