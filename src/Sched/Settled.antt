-- ===== src/Sched/Settled.antt =====
-- What a call leaves of the rules, where rules are compared one by one.
use stirmake.Prelude.{
  ℕ, ◌≡◌, refl, sym, ap, subst, ◌∙◌, ◌==◌, true, false, Bool-cases, inl, inr, List, [], ◌∷◌, ◌⊎◌,
  ◌<◌, All, arith,
}
use stirmake.Cycle.Graph.{Leads}
use stirmake.Remain.{deps_remain_has}
use stirmake.Remain.Counts.{Names}
use stirmake.Sched.{RuleState, State, Env, update}
use stirmake.Sched.Invariant.{executed, AllGrow}

abbrev pub In : ℕ → List ℕ → Type 0
In j [] = ⊥
In j (x ∷ xs) = (x ≡ j) ⊎ In j xs

-- The graph has no cycle and no @wait; a rule is among the dependents of its dependencies, and a
-- dependency that is named again is one of the others.
pub record IsPlain {W : Type 0} (env : Env W) : Type 0 where
  pub dependents : (i j : ℕ) → Leads i (env.deplist j) → In j (env.dependents i)
  pub again : (j d : ℕ) → Names d (env.deplist j) → Leads d (env.deplist j)
  pub no_wait : (j : ℕ) → All (λ e. e.is_wait ≡ false) (env.deplist j)
  pub rank : ℕ → ℕ
  pub lower : (i d : ℕ) → Leads d (env.deplist i) → rank d < rank i

-- The same flags, and no more dependencies that remain.
pub record Slims (r r' : RuleState) : Type 0 where
  pub executed : r'.is_executed ≡ r.is_executed
  pub executing : r'.is_executing ≡ r.is_executing
  pub queued : r'.is_queued ≡ r.is_queued
  pub under : r'.is_under_consideration ≡ r.is_under_consideration
  pub has : (d : ℕ) → deps_remain_has r'.remain d ≡ true → deps_remain_has r.remain d ≡ true

-- A rule that executes is no more executed than before; one that is not under consideration stays as
-- it is.
pub record Stays (r r' : RuleState) : Type 0 where
  pub executed : r.is_executing ≡ true → r'.is_executed ≡ r.is_executed
  pub settled : r.is_executing ≡ true → r.is_under_consideration ≡ false → r' ≡ r

pub Slims-refl : (r : RuleState) → Slims r r
Slims-refl r = record {
  executed = refl;
  executing = refl;
  queued = refl;
  under = refl;
  has = λ d h. h;
}

pub Slims-trans : {r r' r'' : RuleState} → Slims r r' → Slims r' r'' → Slims r r''
Slims-trans a b = record {
  executed = b.executed ∙ a.executed;
  executing = b.executing ∙ a.executing;
  queued = b.queued ∙ a.queued;
  under = b.under ∙ a.under;
  has = λ d h. a.has d (b.has d h);
}

pub Stays-refl : (r : RuleState) → Stays r r
Stays-refl r = record { executed = λ _. refl; settled = λ _ _. refl }

pub Stays-trans :
    {r r' r'' : RuleState}
    → (r.is_executing ≡ true → r'.is_executing ≡ true)
    → r'.is_under_consideration ≡ r.is_under_consideration
    → Stays r r'
    → Stays r' r''
    → Stays r r''
Stays-trans on under a b = record {
  executed = λ e. b.executed (on e) ∙ a.executed e;
  settled = λ e u. b.settled (on e) (under ∙ u) ∙ a.settled e u;
}

module _ {W : Type 0} where
  abbrev pub AllSlim : State W → State W → Type 0
  AllSlim s t = (j : ℕ) → Slims (s.rule j) (t.rule j)

  abbrev pub AllStay : State W → State W → Type 0
  AllStay s t = (j : ℕ) → Stays (s.rule j) (t.rule j)

  -- What remains of a rule that is not queued remained before, and was executed before if it is.
  abbrev pub Sheds : State W → State W → Type 0
  Sheds s t =
      (j d : ℕ)
      → (t.rule j).is_queued ≡ false
      → deps_remain_has (t.rule j).remain d ≡ true
      → (deps_remain_has (s.rule j).remain d ≡ true) × (executed t d ≡ true → executed s d ≡ true)

  -- A rule that is not queued was not queued before.
  abbrev pub Unqueued : State W → State W → Type 0
  Unqueued s t = (j : ℕ) → (t.rule j).is_queued ≡ false → (s.rule j).is_queued ≡ false

  pub Unqueued-AllGrow : (s t : State W) → AllGrow s t → Unqueued s t
  Unqueued-AllGrow s t g j q = elim (Bool-cases (s.rule j).is_queued) [
    | inl x ↦ absurd (cc ((g j).queued x))
    | inr x ↦ x
  ]

  pub Sheds-trans : (s t u : State W) → Unqueued t u → Sheds s t → Sheds t u → Sheds s u
  Sheds-trans s t u back a b j d q h =
      let (h', e') = b j d q h in let (h'', e'') = a j d (back j q) h' in (h'', λ e. e'' (e' e))

  pub Sheds-AllSlim : (s t : State W) → AllSlim s t → Sheds s t
  Sheds-AllSlim s t a j d q h = ((a j).has d h, λ e. sym (a d).executed ∙ e)

  -- What remains of a rule that is not queued is a dependency.
  abbrev pub HasEdges : Env W → State W → Type 0
  HasEdges env s =
      (j d : ℕ)
      → (s.rule j).is_queued ≡ false
      → deps_remain_has (s.rule j).remain d ≡ true
      → Leads d (env.deplist j)

  pub HasEdges-Sheds :
      (env : Env W) (s t : State W) → Unqueued s t → Sheds s t → HasEdges env s → HasEdges env t
  HasEdges-Sheds env s t back sheds edges j d q h = edges j d (back j q) (sheds j d q h).0

  -- A relation that every rule has to itself and the changed rule has to the old one.
  pub pointwise-update :
      (R : RuleState → RuleState → Type 0) (s : State W) (k : ℕ) (f : RuleState → RuleState)
      → ((r : RuleState) → R r r)
      → R (s.rule k) (f (s.rule k))
      → (j : ℕ) → R (s.rule j) ((update s k f).rule j)
  unfolding update
  pointwise-update R s k f same new j = elim (Bool-cases (k == j)) [
    | inl e ↦ rw e (subst (λ i. R (s.rule i) (f (s.rule i))) (ground arith) new)
    | inr e ↦ rw e (same (s.rule j))
  ]

  pub Sheds-update :
      (s : State W) (k : ℕ) (f : RuleState → RuleState)
      → (f (s.rule k)).remain ≡ (s.rule k).remain
      → (f (s.rule k)).is_executed ≡ (s.rule k).is_executed
      → Sheds s (update s k f)
  Sheds-update s k f remain ran j d q h = (
    ap (λ r. deps_remain_has r d)
          (sym (pointwise-update (λ r r'. r'.remain ≡ r.remain) s k f (λ r. refl) remain j))
        ∙ h,
    λ e.
        sym (pointwise-update (λ r r'. r'.is_executed ≡ r.is_executed) s k f (λ r. refl) ran d) ∙ e,
  )
