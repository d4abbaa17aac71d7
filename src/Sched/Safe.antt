-- ===== src/Sched/Safe.antt =====
-- The scheduler neither aborts nor runs on, and queues no rule before its dependencies are done.
use stirmake.Prelude.{
  ℕ, zero, suc, ◌≤◌, ◌<◌, ◌≡◌, refl, subst, true, false, inl, inr, List, [], ◌∷◌, arith, All,
}
use stirmake.UpToDate.{Stirdep}
use stirmake.Cycle.{dep_rule}
use stirmake.Cycle.Graph.{Leads}
use stirmake.Remain.{Remain}
use stirmake.Remain.Counts.{Names, calc_deps_remain-IsCounted, wait_remain_cnt-calc_deps_remain}
use stirmake.Sched.{
  State, Env, Call, call_consider, call_reconsider, call_mark_executed, handle, run, enough, Step,
  considers, forks, finishes, Reach, here, next, fresh_rule, fresh,
}
use stirmake.Prelude.Results.{Returns, Returns-imp}
use stirmake.Sched.Invariant.{Inv}
use stirmake.Sched.Measure.{measure_bound, measure_positive}
use stirmake.Sched.Visit.{Good, Ready, Works, need}
use stirmake.Sched.Calls.{consider_lem}
use stirmake.Sched.Reconsider.{reconsider_lem, mark_executed_lem}

-- The graph names the rules below `n` only, and every dependent has the dependency.
pub record IsGraph {W : Type 0} (env : Env W) (n : ℕ) : Type 0 where
  pub inside : (i d : ℕ) → Leads d (env.deplist i) → d < n
  pub dependent : (i : ℕ) → All (λ j. (j < n) × Leads i (env.deplist j)) (env.dependents i)

module _ {W : Type 0} (env : Env W) (n : ℕ) (graph : IsGraph env n) where
  pub run-Works : (fuel : ℕ) → Works env n fuel (run env fuel)
  unfolding run handle need
  run-Works zero (call_consider i) s h l m = absurd (omega arith)
  run-Works zero (call_reconsider i k) s h l m = absurd (omega arith)
  run-Works zero (call_mark_executed i was) s h (l, e, q) m =
      absurd (omega (arith, m, measure_positive n s i l e))
  run-Works (suc fuel) (call_consider i) s h l m =
      consider_lem env n (run env fuel) fuel (run-Works fuel) graph.inside i s h l m
  run-Works (suc fuel) (call_reconsider i k) s h (l, edge, ran) m =
      reconsider_lem env n (run env fuel) fuel (run-Works fuel) graph.inside i k s h l edge ran m
  run-Works (suc fuel) (call_mark_executed i was) s h (l, e, q) m =
      mark_executed_lem env n (run env fuel) fuel (run-Works fuel) graph.inside i was s
        (graph.dependent i) h l e q m

  pub need-enough : (c : Call) (s : State W) → need env n c s ≤ enough n
  unfolding need enough
  need-enough (call_consider i) s = omega (arith, measure_bound n s)
  need-enough (call_reconsider i k) s = omega (arith, measure_bound n s)
  need-enough (call_mark_executed i was) s = omega (arith, measure_bound n s)

  -- A call of the scheduler that is in order comes to an end and does not abort: it returns, or the
  -- program exits with a message. What it returns is in order again, and the flags that are set and
  -- the rules that are under consideration are kept.
  pub run-Good :
      (c : Call) (s : State W)
      → Inv env s
      → Ready env n c s
      → Returns (Good env n s) (run env (enough n) c s)
  run-Good c s h r = run-Works (enough n) c s h r (need-enough c s)

  Inv-Step : {s t : State W} → Step env n s t → Inv env s → Inv env t
  Inv-Step {s} (considers i b t l e) h =
      (subst (Returns (Good env n s)) e (run-Good (call_consider i) s h l)).0
  Inv-Step (forks js i e) h = h
  Inv-Step {s} (finishes i b t l q x e) h =
      (subst (Returns (Good env n s)) e (run-Good (call_mark_executed i true) s h (l, x, q))).0

  Inv-Reach : {s t : State W} → Inv env s → Reach env n s t → Inv env t
  Inv-Reach h here = h
  Inv-Reach h (next r st) = Inv-Step st (Inv-Reach h r)

Leads-Names : (d : ℕ) (es : List Stirdep) → Leads d es → Names d es
unfolding dep_rule
Leads-Names d [] l = l
Leads-Names d (e ∷ es) (inl x) = inl (ground arith)
Leads-Names d (e ∷ es) (inr l) = inr (Leads-Names d es l)

pub Inv-fresh : {W : Type 0} (env : Env W) (js : List ℕ) (world : W) → Inv env (fresh env js world)
unfolding fresh fresh_rule
Inv-fresh env js world i =
    let empty : Remain = record { deps_remain = []; deps_remain_cnt = 0; wait_remain_cnt = 0 } in
    let (counted, has) =
      calc_deps_remain-IsCounted empty (env.deplist i)
        (record { keyed = tt; deps = refl; waits_of = refl }) in
    record {
      counted = counted;
      waits = λ d l _. (has d).1 (inr (Leads-Names d (env.deplist i) l));
      ran = λ q. absurd (cc);
      executed_queued = λ q. absurd (cc);
      queued_executing = λ q. absurd (cc);
      under_executing = λ q. absurd (cc);
      calm = λ q. wait_remain_cnt-calc_deps_remain empty (env.deplist i);
      located = λ d l. absurd l;
      waiting = λ q. absurd (cc);
    }

-- However run_loop considers rules and the commands of queued rules come to an end: in no state that
-- is reached is a rule queued while the rule of one of its dependencies is not executed, a rule that
-- is executed was queued, and each call of consider, and of mark_executed for a queued rule that is
-- not executed, comes to an end without an abort.
pub Reach-safe :
    {W : Type 0} (env : Env W) (n : ℕ) (js : List ℕ) (world : W) (s : State W)
    → IsGraph env n
    → Reach env n (fresh env js world) s
    → ((i d : ℕ)
        → (s.rule i).is_queued ≡ true
        → Leads d (env.deplist i)
        → (s.rule d).is_executed ≡ true)
      × ((i : ℕ) → (s.rule i).is_executed ≡ true → (s.rule i).is_queued ≡ true)
      × ((i : ℕ) → i < n → Returns (λ _. Unit) (run env (enough n) (call_consider i) s))
      × ((i : ℕ)
          → i < n
          → (s.rule i).is_queued ≡ true
          → (s.rule i).is_executed ≡ false
          → Returns (λ _. Unit) (run env (enough n) (call_mark_executed i true) s))
Reach-safe env n js world s graph r =
    let h = Inv-Reach env n graph (Inv-fresh env js world) r in
    let ends : (c : Call) → Ready env n c s → Returns (λ _. Unit) (run env (enough n) c s) =
      λ c ready.
        Returns-imp (Good env n s) (λ _. Unit) _ (λ _ _. tt) (run-Good env n graph c s h ready) in
    (
      (λ i d q l. (h i).ran q d l),
      (λ i. (h i).executed_queued),
      (λ i l. ends (call_consider i) l),
      λ i l q x. ends (call_mark_executed i true) (l, x, q),
    )
