-- ===== src/Sched/Explore.antt =====
-- consider, where no rule is under consideration but those on the way: what it leaves of the rules
-- that execute already, and why each rule that it leaves waits.
pub mod Visit
pub mod Loop
pub mod Leave
pub mod Consider
use stirmake.Prelude.{
  ℕ, suc, ◌*◌, ◌<◌, ◌≤◌, ◌≡◌, ◌⊎◌, refl, sym, ap, subst, ◌∙◌, Bool, true, false, ◌||◌, Bool-cases,
  Option-cases, inl, inr, none, some, List, [], ◌∷◌, All, arith,
}
use stirmake.UpToDate.{Stirdep}
use stirmake.Cycle.{dep_rule}
use stirmake.Cycle.Graph.{Leads}
use stirmake.Remain.{deps_remain_forwait}
use stirmake.Remain.Counts.{has-deps_remain_forwait}
use stirmake.Sched.{
  RuleState, State, Env, call_consider, update, must_wait, at_dep, forwait, visit, consider_loop,
  run,
}
use stirmake.Prelude.Results.{Gives, Gives-and_then, Gives-imp}
use stirmake.Sched.Invariant.{Grows, executed, Inv, AllGrow, AllGrow-update}
use stirmake.Sched.Updates.{set_remain}
use stirmake.Sched.Measure.{measure}
use stirmake.Sched.Visit.{
  Good, need, IsVisited, IsVisited-refl, IsVisited-trans, Answer, visit_lem, dep_rule_of,
}
use stirmake.Sched.Loops.{IsOpen, IsOpen-IsVisited, at_dep-IsVisited, dep_rule_dupe}
use stirmake.Sched.Safe.{IsGraph, run-Works}
use stirmake.Sched.Settled.{
  IsPlain, Slims, Stays, Slims-refl, Stays-refl, Stays-trans, AllSlim, AllStay, HasEdges,
  HasEdges-Sheds, Sheds, Sheds-trans, Sheds-AllSlim, Unqueued-AllGrow, pointwise-update,
}

-- The rule has been considered.
abbrev pub Done : {W : Type 0} → ℕ → State W → Type 0
Done d s = ((s.rule d).is_executing ≡ true) × ((s.rule d).is_under_consideration ≡ false)

module _ {W : Type 0} (env : Env W) where
  -- A dependency of the rule executes, and is not executed.
  abbrev pub Holds : ℕ → State W → Type 0
  Holds j s =
      (d : ℕ) × Leads d (env.deplist j) × (executed s d ≡ false) × ((s.rule d).is_executing ≡ true)

  -- A dependency of the rule is not executed.
  abbrev pub Pends : ℕ → State W → Type 0
  Pends j s = (d : ℕ) × Leads d (env.deplist j) × (executed s d ≡ false)

  -- A rule that executes and is not under consideration is queued or has a dependency that is not
  -- executed, and the rules of its dependencies have been considered.
  pub record Fine (s : State W) (j : ℕ) : Type 0 where
    pub deps : (d : ℕ) → Leads d (env.deplist j) → Done d s
    pub reason : ((s.rule j).is_queued ≡ true) ⊎ Pends j s

  abbrev pub AllFine : State W → Type 0
  AllFine s =
      (j : ℕ)
      → (s.rule j).is_executing ≡ true
      → (s.rule j).is_under_consideration ≡ false
      → Fine s j

  pub record Explored (s t : State W) : Type 0 where
    pub stay : AllStay s t
    pub sheds : Sheds s t
    pub fine : AllFine t

  AllFine-AllSlim : (s t : State W) → AllSlim s t → AllFine s → AllFine t
  AllFine-AllSlim s t a f j on off =
      let x = f j (sym (a j).executing ∙ on) (sym (a j).under ∙ off) in
      record {
        deps = λ d l. ((a d).executing ∙ (x.deps d l).0, (a d).under ∙ (x.deps d l).1);
        reason = elim x.reason [
          | inl q ↦ inl ((a j).queued ∙ q)
          | inr (d, l, e) ↦ inr (d, l, (a d).executed ∙ e)
        ];
      }

  pub Explored-refl : (s : State W) → AllFine s → Explored s s
  Explored-refl s f = record {
    stay = λ j. Stays-refl (s.rule j);
    sheds = Sheds-AllSlim s s (λ j. Slims-refl (s.rule j));
    fine = f;
  }

  pub Explored-trans :
      (s t u : State W)
      → AllGrow s t
      → ((j : ℕ) → (t.rule j).is_under_consideration ≡ (s.rule j).is_under_consideration)
      → AllGrow t u
      → Explored s t
      → Explored t u
      → Explored s u
  Explored-trans s t u g under g' a b = record {
    stay = λ j. Stays-trans (g j).executing (under j) (a.stay j) (b.stay j);
    sheds = Sheds-trans s t u (Unqueued-AllGrow t u g') a.sheds b.sheds;
    fine = b.fine;
  }

  -- A rule that is under consideration changes, and its flags do not.
  pub Explored-update :
      (s : State W) (k : ℕ) (f : RuleState → RuleState)
      → AllFine s
      → (s.rule k).is_under_consideration ≡ true
      → Slims (s.rule k) (f (s.rule k))
      → Explored s (update s k f)
  Explored-update s k f fine under slim =
      let a : AllSlim s (update s k f) = pointwise-update Slims s k f Slims-refl slim in
      record {
        stay =
            pointwise-update Stays s k f Stays-refl (record {
              executed = λ _. slim.executed;
              settled = λ _ off. absurd (cc (under, off));
            });
        sheds = Sheds-AllSlim s (update s k f) a;
        fine = AllFine-AllSlim s (update s k f) a fine;
      }
