-- ===== src/Sched/Live.antt =====
-- Where nothing is left to run, every rule that executes is executed.
use stirmake.Prelude.{ℕ, ◌≡◌, true, false}
use stirmake.Cycle.Graph.{Leads}
use stirmake.Remain.{Remain, deps_remain_has}
use stirmake.Sched.{State, Env}
use stirmake.Sched.Invariant.{executed}
use stirmake.Sched.Safe.{IsGraph}
use stirmake.Sched.Settled.{IsPlain}
use stirmake.Sched.Wakes.{Lively}

-- The rule `i` waits for the rule `j`, along rules that are not executed.
pub data Awaits {W : Type 0} (env : Env W) (s : State W) (j : ℕ) : ℕ → Type 0 where
  itself : Awaits env s j j
  through :
      {i : ℕ} (d : ℕ)
      → Leads d (env.deplist i)
      → executed s d ≡ false
      → Awaits env s j d
      → Awaits env s j i

module _ {W : Type 0} (env : Env W) (n : ℕ) (graph : IsGraph env n) (plain : IsPlain env) where
  -- What remains of a rule that is not queued is not executed.
  abbrev IsFresh : State W → Type 0
  IsFresh s =
      (j d : ℕ)
      → (s.rule j).is_queued ≡ false
      → deps_remain_has (s.rule j).remain d ≡ true
      → executed s d ≡ false

  -- Between the calls of run_loop.
  record IsIdle (s : State W) : Type 0 where
    lively : Lively env n graph plain s
    old : IsFresh s
    outside : (j : ℕ) → (s.rule j).is_under_consideration ≡ false
