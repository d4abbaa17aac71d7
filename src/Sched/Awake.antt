-- ===== src/Sched/Awake.antt =====
-- The calls of mark_executed and reconsider, where the rules of all dependencies of the rules that
-- execute are executing: consider does nothing, and a rule that waits keeps a dependency that remains.
use stirmake.Prelude.{
  ℕ, zero, suc, ◌≡◌, refl, sym, subst, ◌∙◌, ◌==◌, Bool, true, false, ◌||◌, Bool-cases, Option-cases,
  inl, inr, some, List, [], ◌∷◌, arith,
}
use stirmake.UpToDate.{Stirdep}
use stirmake.Cycle.{dep_rule}
use stirmake.Cycle.Graph.{Leads}
use stirmake.Remain.{deps_remain_has, deps_remain_forwait}
use stirmake.Remain.Counts.{has-deps_remain_forwait}
use stirmake.Sched.{
  RuleState, State, Env, call_consider, update, must_wait, at_dep, forwait, visit, reconsider_loop,
  consider, handle, run,
}
use stirmake.Prelude.Results.{Gives, Gives-bind, Gives-imp}
use stirmake.Sched.Invariant.{rule-update, rule-update_other}
use stirmake.Sched.Updates.{set_remain}
use stirmake.Sched.Settled.{
  Slims, Slims-refl, Slims-trans, Sheds, Unqueued, Sheds-trans, Sheds-AllSlim, pointwise-update,
}

-- The same flags, and the same dependencies that remain.
pub record Same (r r' : RuleState) : Type 0 where
  pub slim : Slims r r'
  pub back : (d : ℕ) → deps_remain_has r.remain d ≡ true → deps_remain_has r'.remain d ≡ true

Same-refl : (r : RuleState) → Same r r
Same-refl r = record { slim = Slims-refl r; back = λ d h. h }

Same-trans : {r r' r'' : RuleState} → Same r r' → Same r' r'' → Same r r''
Same-trans a b = record { slim = Slims-trans a.slim b.slim; back = λ d h. b.back d (a.back d h) }

-- If it executes, is not under consideration and not queued, it has a dependency that remains.
abbrev pub IsFed : RuleState → Type 0
IsFed r =
    r.is_executing ≡ true
    → r.is_under_consideration ≡ false
    → r.is_queued ≡ false
    → (d : ℕ) × (deps_remain_has r.remain d ≡ true)

module _ {W : Type 0} where
  abbrev pub AllSame : State W → State W → Type 0
  AllSame s t = (j : ℕ) → Same (s.rule j) (t.rule j)

  abbrev pub Fed : State W → Type 0
  Fed s = (j : ℕ) → IsFed (s.rule j)

  -- The other rules.
  abbrev pub FedBut : ℕ → State W → Type 0
  FedBut k s = (j : ℕ) → (k == j) ≡ false → IsFed (s.rule j)

  pub FedBut-update :
      (s : State W) (k : ℕ) (f : RuleState → RuleState) → FedBut k s → FedBut k (update s k f)
  FedBut-update s k f fed j e = subst IsFed (sym (rule-update_other s k f j e)) (fed j e)

  pub Fed-update :
      (s : State W) (k : ℕ) (f : RuleState → RuleState)
      → FedBut k s
      → IsFed (f (s.rule k))
      → Fed (update s k f)
  Fed-update s k f fed here j = elim (Bool-cases (k == j)) [
    | inl e ↦
        subst (λ i. IsFed ((update s k f).rule i)) (is_same e)
          (subst IsFed (sym (rule-update s k f)) here)
    | inr e ↦ FedBut-update s k f fed j e
  ]
    where
      is_same : (k == j) ≡ true → k ≡ j
      is_same e = ground arith

  pub record Woken (s t : State W) : Type 0 where
    pub executing : (j : ℕ) → (t.rule j).is_executing ≡ (s.rule j).is_executing
    pub sheds : Sheds s t
    pub fed : Fed t

  pub Woken-refl : (s : State W) → Fed s → Woken s s
  Woken-refl s fed = record {
    executing = λ j. refl;
    sheds = Sheds-AllSlim s s (λ j. Slims-refl (s.rule j));
    fed = fed;
  }

  pub Woken-trans : (s t u : State W) → Unqueued t u → Woken s t → Woken t u → Woken s u
  Woken-trans s t u back a b = record {
    executing = λ j. b.executing j ∙ a.executing j;
    sheds = Sheds-trans s t u back a.sheds b.sheds;
    fed = b.fed;
  }

  pub Fed-AllSame : (s t : State W) → AllSame s t → Fed s → Fed t
  Fed-AllSame s t a fed j on out q =
      let x = (a j).slim in
      let (d, h) = fed j (sym x.executing ∙ on) (sym x.under ∙ out) (sym x.queued ∙ q) in
      (d, (a j).back d h)

  pub Woken-AllSame : (s t : State W) → AllSame s t → Fed s → Woken s t
  Woken-AllSame s t a fed = record {
    executing = λ j. (a j).slim.executing;
    sheds = Sheds-AllSlim s t (λ j. (a j).slim);
    fed = Fed-AllSame s t a fed;
  }

module _ {W : Type 0} (env : Env W) where
  -- The dependencies of a rule that executes are executing.
  abbrev pub Full : State W → Type 0
  Full s =
      (j d : ℕ)
      → (s.rule j).is_executing ≡ true
      → Leads d (env.deplist j)
      → (s.rule d).is_executing ≡ true

  pub Full-Woken : (s t : State W) → Woken s t → Full s → Full t
  Full-Woken s t w full j d on l = w.executing d ∙ full j d (sym (w.executing j) ∙ on) l

  -- A rule that executes is not considered again.
  considers_nothing :
      (fuel d : ℕ) (s : State W)
      → (s.rule d).is_executing ≡ true
      → Gives (λ (b, t). t ≡ s) (run env fuel (call_consider d) s)
  unfolding run handle consider
  considers_nothing zero d s on = tt
  considers_nothing (suc fuel) d s on =
      elim (Bool-cases ((s.rule d).is_executed || (s.rule d).is_executing)) [
        | inl e ↦ rw (e, consider) refl
        | inr e ↦ absurd (ground arith)
      ]

  module _ (fuel i : ℕ) where
    abbrev SameAfter : State W → Bool × Bool × State W → Type 0
    SameAfter s (execed, waits, t) = AllSame s t

    forwait_same :
        (d : ℕ) (execed : Bool) (s : State W)
        → Gives (SameAfter s) (forwait env (run env fuel) i d execed s)
    unfolding forwait
    forwait_same d execed s = elim (Bool-cases (s.rule d).is_executed) [
      | inl ran ↦ rw (ran, forwait) (λ j. Same-refl (s.rule j))
      | inr ran ↦ elim (Option-cases (deps_remain_forwait (s.rule i).remain d)) [
        | inl q ↦ rw (ran, forwait, q) tt
        | inr (m, q) ↦
            let has = has-deps_remain_forwait (s.rule i).remain m d q in
            rw (ran, forwait, q)
              (pointwise-update Same s i (set_remain m) Same-refl (record {
                slim = record {
                  executed = refl;
                  executing = refl;
                  queued = refl;
                  under = refl;
                  has = λ k h. sym (has k) ∙ h;
                };
                back = λ k h. has k ∙ h;
              }))
      ]
    ]

    visit_same :
        (e : Stirdep) (s : State W)
        → ((d : ℕ) → e.ruleid ≡ some d → (s.rule d).is_executing ≡ true)
        → Gives (SameAfter s) (visit env (run env fuel) i e s)
    unfolding visit
    visit_same e s on = elim (Option-cases e.ruleid) [
      | inl q ↦ elim (Bool-cases e.is_inc) [
        | inl inc ↦ simp (q, visit, inc) (λ j. Same-refl (s.rule j))
        | inr real ↦ elim (Bool-cases (env.access_fails s.world e.nameidx).0) [
          | inl fails ↦ simp (q, visit, real, fails) tt
          | inr there ↦ simp (q, visit, real, there) (λ j. Same-refl (s.rule j))
        ]
      ]
      | inr (d, q) ↦
          simp (q, visit)
            (Gives-bind (λ (b, t). t ≡ s) (SameAfter s) _ _ (considers_nothing fuel d s (on d q))
              (λ (b, t) p.
                subst (λ x. Gives (SameAfter s) (forwait env (run env fuel) i d b x)) (sym p)
                  (forwait_same d b s)))
    ]

    pub loop_same :
        (es : List Stirdep) (s : State W)
        → ((d : ℕ) → Leads d es → (s.rule d).is_executing ≡ true)
        → Gives (λ t. AllSame s t) (reconsider_loop env (run env fuel) i es s)
    unfolding reconsider_loop dep_rule
    loop_same [] s on = λ j. Same-refl (s.rule j)
    loop_same (e ∷ es) s on =
        let t = at_dep i (e ∷ es) s in
        let here : AllSame s t =
          pointwise-update Same s i (λ r. record r { waitloc = e ∷ es }) Same-refl
            (record {
              slim = record {
                executed = refl;
                executing = refl;
                queued = refl;
                under = refl;
                has = λ k h. h;
              };
              back = λ k h. h;
            }) in
        let below : (u : State W)
            → AllSame t u
            → Gives (λ w. AllSame s w) (reconsider_loop env (run env fuel) i es u) =
          λ u a.
            let su : AllSame s u = λ j. Same-trans (here j) (a j) in
            Gives-imp (λ w. AllSame u w) (λ w. AllSame s w) _ (λ w b j. Same-trans (su j) (b j))
              (loop_same es u (λ d l. (su d).slim.executing ∙ on d (inr l))) in
        elim (Bool-cases (must_wait i e t)) [
          | inl waits ↦ rw (waits, reconsider_loop) here
          | inr free ↦ elim (Bool-cases e.is_dupe) [
            | inl dupe ↦
                rw (free, reconsider_loop) (simp dupe (below t (λ j. Same-refl (t.rule j))))
            | inr single ↦
                rw (free, reconsider_loop)
                  (simp single (
                    Gives-bind (SameAfter t) (λ w. AllSame s w) (visit env (run env fuel) i e t) _
                      (visit_same e t (λ d q. (here d).slim.executing ∙ on d (inl (rw single q))))
                      (λ (b, waits, u) a. below u a)))
          ]
        ]
