-- ===== src/Sched/Tests.antt =====
-- A rule with a dependency behind @wait.
use stirmake.Prelude.{
  ℕ, zero, suc, ◌<◌, ◌≡◌, refl, ◌==◌, Bool, true, false, inl, inr, some, List, [], ◌∷◌, arith, All,
  subst,
}
use stirmake.UpToDate.{Stirdep}
use stirmake.Cycle.{dep_rule}
use stirmake.Cycle.Graph.{Leads}
use stirmake.Remain.{deps_remain_forwait, deps_remain_erase}
use stirmake.Sched.{
  State, Env, call_consider, call_mark_executed, update, run, enough, considers, Reach, here, next,
  fresh, handle, mark_executed, consider, reconsider, fresh_rule, consider_loop, must_wait, visit,
  considered, do_exec, forwait, reconsider_all, wake, reconsider_loop, reconsidered,
}
use stirmake.Prelude.Results.{Outcome, done, Returns}
use stirmake.Sched.Safe.{IsGraph, Reach-safe}
use stirmake.Sched.Settled.{In, IsPlain}
use stirmake.Remain.Counts.{Names}
use mathlib.Core.Option.{some-injective}

abbrev dep : Bool → ℕ → Stirdep
dep wait i = record {
  nameidx = i;
  is_recursive = false;
  is_orderonly = false;
  is_wait = wait;
  is_dupe = false;
  is_inc = false;
  ruleid = some i;
}

-- Rule 0 depends on rule 1 and, behind @wait, on rule 2. Only rule 1 has to run.
abbrev deps_of : ℕ → List Stirdep
deps_of zero = dep false 1 ∷ dep true 2 ∷ []
deps_of (suc i) = []

abbrev dependents_of : ℕ → List ℕ
dependents_of (suc zero) = 0 ∷ []
dependents_of (suc (suc zero)) = 0 ∷ []
dependents_of i = []

abbrev env : Env Unit
env = record {
  deplist = deps_of;
  dependents = dependents_of;
  access_fails = λ w i. (false, w);
  decide = λ w i. (i == 1, w);
  store = λ w i b. some w;
}

view : Outcome (Bool × State Unit) → List ℕ × List (Bool × Bool)
view (done (b, s)) = (
  s.ruleids_to_run,
  ((s.rule 0).is_executed, (s.rule 0).is_queued)
      ∷ ((s.rule 1).is_executed, (s.rule 1).is_queued)
      ∷ ((s.rule 2).is_executed, (s.rule 2).is_queued)
      ∷ [],
)
view _ = ([], [])

abbrev start : State Unit
start = fresh env (0 ∷ []) tt

considered_first :
    view (run env (enough 3) (call_consider 0) start)
    ≡ (1 ∷ [], (false, false) ∷ (false, true) ∷ (false, false) ∷ [])
unfolding view fresh run enough handle consider fresh_rule consider_loop must_wait update visit
    considered do_exec forwait deps_remain_forwait
considered_first = refl

-- The state that a call returns.
state_of : Outcome (Bool × State Unit) → State Unit
state_of (done (b, s)) = s
state_of _ = start

abbrev waiting : State Unit
waiting = state_of (run env (enough 3) (call_consider 0) start)

abbrev forked : State Unit
forked = record waiting { ruleids_to_run = [] }

-- The commands of rule 1 have run: rule 2 is done at once, rule 0 is left as it was.
finished : State Unit
unfolding state_of fresh run enough handle consider fresh_rule consider_loop must_wait update visit
    considered do_exec forwait deps_remain_forwait mark_executed reconsider_all reconsider wake
    reconsider_loop reconsidered deps_remain_erase
finished = state_of (run env (enough 3) (call_mark_executed 1 true) forked)

finished_stuck :
    view (done (false, finished)) ≡ ([], (false, false) ∷ (true, true) ∷ (true, true) ∷ [])
unfolding view finished
finished_stuck = refl

considered_again :
    view (run env (enough 3) (call_consider 0) finished)
    ≡ ([], (false, false) ∷ (true, true) ∷ (true, true) ∷ [])
unfolding view fresh run enough handle consider fresh_rule consider_loop must_wait update visit
    considered do_exec forwait deps_remain_forwait finished
considered_again = refl

inside : (i d : ℕ) → Leads d (env.deplist i) → d < 3
unfolding dep_rule
inside zero d (inl e) = ground arith
inside zero d (inr (inl e)) = ground arith
inside zero d (inr (inr e)) = absurd e
inside (suc i) d l = absurd l

dependent : (i : ℕ) → All (λ j. (j < 3) × Leads i (env.deplist j)) (env.dependents i)
unfolding dep_rule
dependent zero = tt
dependent (suc zero) = ((omega arith, inl refl), tt)
dependent (suc (suc zero)) = ((omega arith, inr (inl refl)), tt)
dependent (suc (suc (suc i))) = tt

graph : IsGraph env 3
graph = record { inside = inside; dependent = dependent }

first_step : Reach env 3 start waiting
unfolding run enough handle consider fresh_rule consider_loop must_wait update visit considered
    do_exec forwait deps_remain_forwait fresh state_of
first_step = next here (considers 0 false waiting (omega arith) refl)

Reach-safe_example :
    ((i d : ℕ)
      → (waiting.rule i).is_queued ≡ true
      → Leads d (env.deplist i)
      → (waiting.rule d).is_executed ≡ true)
    × ((i : ℕ) → (waiting.rule i).is_executed ≡ true → (waiting.rule i).is_queued ≡ true)
    × ((i : ℕ) → i < 3 → Returns (λ _. Unit) (run env (enough 3) (call_consider i) waiting))
    × ((i : ℕ)
        → i < 3
        → (waiting.rule i).is_queued ≡ true
        → (waiting.rule i).is_executed ≡ false
        → Returns (λ _. Unit) (run env (enough 3) (call_mark_executed i true) waiting))
Reach-safe_example = Reach-safe env 3 (0 ∷ []) tt waiting graph first_step

-- Rule 0 depends on rule 1, which has to run.
abbrev plain_deps_of : ℕ → List Stirdep
plain_deps_of zero = dep false 1 ∷ []
plain_deps_of (suc i) = []

abbrev plain_dependents_of : ℕ → List ℕ
plain_dependents_of (suc zero) = 0 ∷ []
plain_dependents_of i = []

abbrev plain_env : Env Unit
plain_env = record env { deplist = plain_deps_of; dependents = plain_dependents_of }

abbrev rank_of : ℕ → ℕ
rank_of zero = 1
rank_of (suc i) = 0

plain_lower : (i d : ℕ) → Leads d (plain_env.deplist i) → rank_of d < rank_of i
unfolding dep_rule
plain_lower zero zero (inl e) = absurd (ground arith)
plain_lower zero zero (inr e) = absurd e
plain_lower zero (suc d) l = omega arith
plain_lower (suc i) d l = absurd l

plain_dependents : (i j : ℕ) → Leads i (plain_env.deplist j) → In j (plain_env.dependents i)
unfolding dep_rule
plain_dependents i zero (inl e) =
    subst (λ k. In 0 (plain_env.dependents k)) (some-injective 1 i e) (inl refl)
plain_dependents i zero (inr e) = absurd e
plain_dependents i (suc j) l = absurd l

plain_again : (j d : ℕ) → Names d (plain_env.deplist j) → Leads d (plain_env.deplist j)
unfolding dep_rule
plain_again zero d (inl e) = inl e
plain_again zero d (inr e) = absurd e
plain_again (suc j) d l = absurd l

no_wait : (j : ℕ) → All (λ e. e.is_wait ≡ false) (plain_env.deplist j)
no_wait zero = (refl, tt)
no_wait (suc j) = tt

plain : IsPlain plain_env
plain = record {
  dependents = plain_dependents;
  again = plain_again;
  no_wait = no_wait;
  rank = rank_of;
  lower = plain_lower;
}

abbrev plain_start : State Unit
plain_start = fresh plain_env (0 ∷ []) tt

abbrev plain_waiting : State Unit
plain_waiting = state_of (run plain_env (enough 2) (call_consider 0) plain_start)

plain_finished :
    view (run plain_env (enough 2) (call_mark_executed 1 true) plain_waiting)
    ≡ (1 ∷ [], (true, true) ∷ (true, true) ∷ (false, false) ∷ [])
unfolding view run enough handle consider fresh_rule consider_loop must_wait update visit considered
    do_exec forwait deps_remain_forwait fresh state_of mark_executed reconsider_all reconsider wake
    reconsider_loop reconsidered deps_remain_erase
plain_finished = refl
