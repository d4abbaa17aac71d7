-- ===== src/Sched/Invariant.antt =====
-- What holds of the rules whenever the scheduler calls one of its functions.
use stirmake.Prelude.{
  ℕ, ◌≤◌, ◌≡◌, ◌≢◌, refl, sym, subst, ◌∙◌, ◌==◌, ==-refl, Bool, true, false, inl, inr, Bool-cases,
  List, [], arith,
}
use stirmake.UpToDate.{Stirdep}
use stirmake.Cycle.Graph.{Leads}
use stirmake.Remain.{deps_remain_has}
use stirmake.Remain.Counts.{IsCounted}
use stirmake.Sched.{RuleState, State, Env, update}

-- Of a rule with dependencies `deps`, where `ex` are the executed rules: what is not executed
-- remains, and a rule that was queued has no dependency that is not executed.
pub record IsRegular (deps : List Stirdep) (ex : ℕ → Bool) (r : RuleState) : Type 0 where
  pub counted : IsCounted r.remain
  pub waits : (d : ℕ) → Leads d deps → ex d ≡ false → deps_remain_has r.remain d ≡ true
  pub ran : r.is_queued ≡ true → (d : ℕ) → Leads d deps → ex d ≡ true
  pub executed_queued : r.is_executed ≡ true → r.is_queued ≡ true
  pub queued_executing : r.is_queued ≡ true → r.is_executing ≡ true
  pub under_executing : r.is_under_consideration ≡ true → r.is_executing ≡ true
  pub calm : r.is_executing ≡ false → r.remain.wait_remain_cnt ≡ 0
  pub located : (d : ℕ) → Leads d r.waitloc → Leads d deps
  pub waiting :
      r.is_executing ≡ true
      → r.is_under_consideration ≡ false
      → (d : ℕ) → Leads d deps
      → r.waitloc ≢ []

-- What no call takes back.
pub record Grows (r r' : RuleState) : Type 0 where
  pub executed : r.is_executed ≡ true → r'.is_executed ≡ true
  pub executing : r.is_executing ≡ true → r'.is_executing ≡ true
  pub queued : r.is_queued ≡ true → r'.is_queued ≡ true
  pub waitloc : r.waitloc ≢ [] → r'.waitloc ≢ []

-- What a call leaves of a rule that is under consideration.
pub record IsFramed (r r' : RuleState) : Type 0 where
  pub under : r'.is_under_consideration ≡ r.is_under_consideration
  pub wait : r.is_under_consideration ≡ true → r'.remain.wait_remain_cnt ≤ r.remain.wait_remain_cnt

module _ {W : Type 0} where
  abbrev pub executed : State W → ℕ → Bool
  executed s i = (s.rule i).is_executed

  abbrev pub Inv : Env W → State W → Type 0
  Inv env s = (i : ℕ) → IsRegular (env.deplist i) (executed s) (s.rule i)

  abbrev pub AllGrow : State W → State W → Type 0
  AllGrow s t = (i : ℕ) → Grows (s.rule i) (t.rule i)

  abbrev pub AllFramed : State W → State W → Type 0
  AllFramed s t = (i : ℕ) → IsFramed (s.rule i) (t.rule i)

  -- The same, but for the count of rule `k`.
  abbrev pub OthersFramed : ℕ → State W → State W → Type 0
  OthersFramed k s t =
      (i : ℕ)
      → ((t.rule i).is_under_consideration ≡ (s.rule i).is_under_consideration)
        × (k ≢ i → IsFramed (s.rule i) (t.rule i))

pub Grows-refl : (r : RuleState) → Grows r r
Grows-refl r = record { executed = λ h. h; executing = λ h. h; queued = λ h. h; waitloc = λ h. h }

pub Grows-trans : {r r' r'' : RuleState} → Grows r r' → Grows r' r'' → Grows r r''
Grows-trans a b = record {
  executed = λ h. b.executed (a.executed h);
  executing = λ h. b.executing (a.executing h);
  queued = λ h. b.queued (a.queued h);
  waitloc = λ h. b.waitloc (a.waitloc h);
}

pub IsFramed-refl : (r : RuleState) → IsFramed r r
IsFramed-refl r = record { under = refl; wait = λ h. omega arith }

pub IsFramed-trans : {r r' r'' : RuleState} → IsFramed r r' → IsFramed r' r'' → IsFramed r r''
IsFramed-trans a b = record {
  under = b.under ∙ a.under;
  wait = λ h. omega (arith, a.wait h, b.wait (a.under ∙ h));
}

-- More executed rules keep a rule regular.
pub IsRegular-more :
    (deps : List Stirdep) (ex ex' : ℕ → Bool) (r : RuleState)
    → ((i : ℕ) → ex i ≡ true → ex' i ≡ true)
    → IsRegular deps ex r
    → IsRegular deps ex' r
IsRegular-more deps ex ex' r more h = record {
  counted = h.counted;
  waits = λ d l n. h.waits d l (back d n);
  ran = λ q d l. more d (h.ran q d l);
  executed_queued = h.executed_queued;
  queued_executing = h.queued_executing;
  under_executing = h.under_executing;
  calm = h.calm;
  located = h.located;
  waiting = h.waiting;
}
  where
    back : (d : ℕ) → ex' d ≡ false → ex d ≡ false
    back d n = elim (Bool-cases (ex d)) [ inl e ↦ absurd (cc (more d e)) | inr e ↦ e ]

module _ {W : Type 0} (s : State W) (k : ℕ) (f : RuleState → RuleState) where
  pub rule-update : (update s k f).rule k ≡ f (s.rule k)
  unfolding update
  rule-update = rw (==-refl k) refl

  pub rule-update_other : (i : ℕ) → (k == i) ≡ false → (update s k f).rule i ≡ s.rule i
  unfolding update
  rule-update_other i e = rw e refl

  pub AllGrow-update : Grows (s.rule k) (f (s.rule k)) → AllGrow s (update s k f)
  unfolding update
  AllGrow-update g i = elim (Bool-cases (k == i)) [
    | inl e ↦ rw e (subst (λ j. Grows (s.rule j) (f (s.rule j))) (ground arith) g)
    | inr e ↦ rw e (Grows-refl (s.rule i))
  ]

  pub AllFramed-update : IsFramed (s.rule k) (f (s.rule k)) → AllFramed s (update s k f)
  unfolding update
  AllFramed-update g i = elim (Bool-cases (k == i)) [
    | inl e ↦ rw e (subst (λ j. IsFramed (s.rule j) (f (s.rule j))) (ground arith) g)
    | inr e ↦ rw e (IsFramed-refl (s.rule i))
  ]

  pub OthersFramed-update :
      (f (s.rule k)).is_under_consideration ≡ (s.rule k).is_under_consideration
      → OthersFramed k s (update s k f)
  unfolding update
  OthersFramed-update g i = elim (Bool-cases (k == i)) [
    | inl e ↦ (
      rw e (
          subst (λ j. (f (s.rule j)).is_under_consideration ≡ (s.rule j).is_under_consideration)
            (ground arith) g),
      λ ne. absurd (ne (ground arith)),
    )
    | inr e ↦ rw e (refl, λ _. IsFramed-refl (s.rule i))
  ]

  -- A rule that changes, and is no less executed, is to be regular again.
  pub Inv-update :
      (env : Env W)
      → Inv env s
      → Grows (s.rule k) (f (s.rule k))
      → IsRegular (env.deplist k) (executed (update s k f)) (f (s.rule k))
      → Inv env (update s k f)
  Inv-update env h g new i = elim (Bool-cases (k == i)) [
    | inl e ↦
        subst (λ j. IsRegular (env.deplist j) (executed (update s k f)) ((update s k f).rule j))
          (ground arith)
          (subst (IsRegular (env.deplist k) (executed (update s k f))) (sym rule-update) new)
    | inr e ↦
        subst (IsRegular (env.deplist i) (executed (update s k f))) (sym (rule-update_other i e)) (
          IsRegular-more (env.deplist i) (executed s) (executed (update s k f)) (s.rule i)
            (λ j. (AllGrow-update g j).executed) (h i))
  ]
