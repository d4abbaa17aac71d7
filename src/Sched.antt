-- ===== src/Sched.antt =====
-- The scheduler of stirc/stirmake.c: consider, reconsider, mark_executed, and the calls of do_exec.
-- Rules are numbers, `State.rule` is the array of their flags. The functions call each other through
-- `self`, and `run` ties the knot, on fuel for the depth of the calls.
pub mod Invariant
pub mod Updates
pub mod Settled
pub mod Branches
pub mod Quiet
pub mod Measure
pub mod Visit
pub mod Loops
pub mod Calls
pub mod Reconsider
pub mod Safe
pub mod Explore
pub mod Awake
pub mod Wakes
pub mod Runs
pub mod Live
mod Tests
use stirmake.Prelude.{
  ℕ, zero, suc, ◌+◌, ◌*◌, ◌<◌, ◌≡◌, ◌==◌, ltb, if◌then◌else◌, Bool, true, false, not, ◌&&◌, ◌||◌,
  Option, none, some, List, [], ◌∷◌, ◌++◌,
}
use stirmake.UpToDate.{Stirdep}
use stirmake.Remain.{Remain, deps_remain_forwait, deps_remain_erase, calc_deps_remain}
use stirmake.Prelude.Results.{Outcome, out_of_fuel, aborted, exited, done, and_then}

-- The flags of a rule. `waitloc` is the list of dependencies from that node on, [] for NULL.
pub record RuleState : Type 0 where
  pub is_executed : Bool
  pub is_actually_executed : Bool
  pub is_executing : Bool
  pub is_queued : Bool
  pub is_under_consideration : Bool
  pub remain : Remain
  pub waitloc : List Stirdep

pub record State (W : Type 0) : Type 0 where
  pub rule : ℕ → RuleState
  pub ruleids_to_run : List ℕ
  pub rules_remain_list : List ℕ
  pub world : W

-- What the scheduler works with: the graph, the cached access(), the tests of do_exec with their
-- answer whether the rule is to be queued, and what mark_executed stores, `none` where it exits.
-- `dependents` are the rules of the list firstdepblock.
pub record Env (W : Type 0) : Type 0 where
  pub deplist : ℕ → List Stirdep
  pub dependents : ℕ → List ℕ
  pub access_fails : W → ℕ → Bool × W
  pub decide : W → ℕ → Bool × W
  pub store : W → ℕ → Bool → Option W

pub data Call : Type 0 where
  call_consider : ℕ → Call
  call_reconsider : ℕ → ℕ → Call
  call_mark_executed : ℕ → Bool → Call

abbrev pub enter : RuleState → RuleState
enter r = record r { is_executing = true; is_under_consideration = true }

module _ {W : Type 0} where
  unfoldable pub update : State W → ℕ → (RuleState → RuleState) → State W
  update s i f = record s { rule = λ j. if i == j then f (s.rule j) else s.rule j }

  pub must_wait : ℕ → Stirdep → State W → Bool
  must_wait i e s = ltb 0 (s.rule i).remain.wait_remain_cnt && e.is_wait

  abbrev pub at_dep : ℕ → List Stirdep → State W → State W
  at_dep i es s = update s i (λ r. record r { waitloc = es })

  abbrev pub leave : ℕ → State W → State W
  leave i s = update s i (λ r. record r { is_under_consideration = false })

-- ruleremain_rm
pub ruleremain_rm : List ℕ → ℕ → List ℕ
ruleremain_rm [] i = []
ruleremain_rm (j ∷ js) i = if i == j then js else j ∷ ruleremain_rm js i

module _ {W : Type 0} (env : Env W) (self : Call → State W → Outcome (Bool × State W)) where
  -- Behind the tests of do_exec. The result is its return value.
  pub do_exec : ℕ → State W → Outcome (Bool × State W)
  do_exec i s = elim (s.rule i).is_queued [
    | true ↦ done (false, s)
    | false ↦
        let (queue, world) = env.decide s.world i in
        let queued = record (update s i (λ r. record r { is_queued = true })) { world = world } in
        elim queue [
          | true ↦ done (false, record queued { ruleids_to_run = queued.ruleids_to_run ++ i ∷ [] })
          | false ↦ and_then (self (call_mark_executed i false) queued) (λ (_, t). done (true, t))
        ]
  ]

  -- deps_remain_forwait, if the rule of a dependency that was considered is not executed.
  pub forwait : ℕ → ℕ → Bool → State W → Outcome (Bool × Bool × State W)
  forwait i d execed t = elim (t.rule d).is_executed [
    | true ↦ done (execed, false, t)
    | false ↦ elim (deps_remain_forwait (t.rule i).remain d) [
      | none ↦ aborted
      | some m ↦ done (execed, true, update t i (λ r. record r { remain = m }))
    ]
  ]

  -- What the loops do with a dependency: whether consider returned 1, and whether the dependency is
  -- not executed.
  pub visit : ℕ → Stirdep → State W → Outcome (Bool × Bool × State W)
  visit i e s = elim e.ruleid [
    | some d ↦ and_then (self (call_consider d) s) (λ (execed, t). forwait i d execed t)
    | none ↦ elim e.is_inc [
      | true ↦ done (false, false, s)
      | false ↦
          let (fails, world) = env.access_fails s.world e.nameidx in
          elim fails [ true ↦ exited | false ↦ done (false, false, record s { world = world }) ]
    ]
  ]

  -- The loop of consider, with toexecute and execed_some.
  pub consider_loop : ℕ → List Stirdep → Bool → Bool → State W → Outcome (Bool × Bool × State W)
  consider_loop i [] toexecute execed_some s = done (toexecute, execed_some, s)
  consider_loop i (e ∷ es) toexecute execed_some s = elim e.is_dupe [
    | true ↦ consider_loop i es toexecute execed_some s
    | false ↦
        let t = at_dep i (e ∷ es) s in
        elim (must_wait i e t) [
          | true ↦ done (toexecute, execed_some, t)
          | false ↦ and_then (visit i e t) (λ (execed, waits, u).
              consider_loop i es (toexecute || waits) (execed_some || execed) u)
        ]
  ]

  pub considered : ℕ → Bool × Bool × State W → Outcome (Bool × State W)
  considered i (toexecute, execed_some, t) = elim (not toexecute && not (t.rule i).is_queued) [
    | true ↦ and_then (do_exec i t) (λ (ret, u). done (ret, leave i u))
    | false ↦ done (execed_some, leave i t)
  ]

  pub consider : ℕ → State W → Outcome (Bool × State W)
  consider i s = elim ((s.rule i).is_executed || (s.rule i).is_executing) [
    | true ↦ done (false, s)
    | false ↦
        and_then (consider_loop i (env.deplist i) false false (update s i enter)) (considered i)
  ]

  -- The loop of reconsider, from waitloc.
  pub reconsider_loop : ℕ → List Stirdep → State W → Outcome (State W)
  reconsider_loop i [] s = done s
  reconsider_loop i (e ∷ es) s =
      let t = at_dep i (e ∷ es) s in
      elim (must_wait i e t) [
        | true ↦ done t
        | false ↦ elim e.is_dupe [
          | true ↦ reconsider_loop i es t
          | false ↦ and_then (visit i e t) (λ (_, _, u). reconsider_loop i es u)
        ]
      ]

  pub reconsidered : ℕ → Bool → State W → Outcome (Bool × State W)
  reconsidered i toexecute t = elim (not toexecute && not (t.rule i).is_queued) [
    | true ↦ and_then (do_exec i t) (λ (_, u). done (false, leave i u))
    | false ↦ done (false, leave i t)
  ]

  -- A rule that executes and is not under consideration, with its dependency taken out.
  pub wake : ℕ → State W → Outcome (Bool × State W)
  wake i s =
      let toexecute = ltb 0 (s.rule i).remain.deps_remain_cnt in
      let t = update s i (λ r. record r { is_under_consideration = true }) in
      elim (s.rule i).waitloc [
        | [] ↦ aborted
        | e ∷ es ↦ and_then (reconsider_loop i (e ∷ es) t) (reconsidered i toexecute)
      ]

  pub reconsider : ℕ → ℕ → State W → Outcome (Bool × State W)
  reconsider i executed s = elim (s.rule i).is_executed [
    | true ↦ done (false, s)
    | false ↦ elim (deps_remain_erase (s.rule i).remain executed) [
      | none ↦ aborted
      | some m ↦
          let t = update s i (λ r. record r { remain = m }) in
          elim (not (s.rule i).is_executing || (s.rule i).is_under_consideration) [
            | true ↦ done (false, t)
            | false ↦ wake i t
          ]
    ]
  ]

  pub reconsider_all : ℕ → List ℕ → State W → Outcome (Bool × State W)
  reconsider_all i [] s = done (false, s)
  reconsider_all i (j ∷ js) s =
      and_then (self (call_reconsider j i) s) (λ (_, t). reconsider_all i js t)

  pub mark_executed : ℕ → Bool → State W → Outcome (Bool × State W)
  mark_executed i was_actually_executed s = elim (s.rule i).is_executed [
    | true ↦ aborted
    | false ↦ elim (s.rule i).is_executing [
      | false ↦ aborted
      | true ↦
          let t =
            update s i (λ r. record r {
              is_executed = true;
              is_actually_executed = was_actually_executed;
            }) in
          elim (env.store t.world i was_actually_executed) [
            | none ↦ exited
            | some world ↦ reconsider_all i (env.dependents i) (record t {
              world = world;
              rules_remain_list = ruleremain_rm t.rules_remain_list i;
            })
          ]
    ]
  ]

  pub handle : Call → State W → Outcome (Bool × State W)
  handle (call_consider i) s = consider i s
  handle (call_reconsider i executed) s = reconsider i executed s
  handle (call_mark_executed i was) s = mark_executed i was s

unfoldable pub run : {W : Type 0} → Env W → ℕ → Call → State W → Outcome (Bool × State W)
run env zero c s = out_of_fuel
run env (suc fuel) c s = handle env (run env fuel) c s

-- zero_rule and calc_deps_remain
pub fresh_rule : List Stirdep → RuleState
unfolding calc_deps_remain
fresh_rule deplist = record {
  is_executed = false;
  is_actually_executed = false;
  is_executing = false;
  is_queued = false;
  is_under_consideration = false;
  remain =
      calc_deps_remain (record { deps_remain = []; deps_remain_cnt = 0; wait_remain_cnt = 0 })
        deplist;
  waitloc = [];
}

-- The state before run_loop, with the rules that are to be made.
pub fresh : {W : Type 0} → Env W → List ℕ → W → State W
fresh env rules_remain_list world = record {
  rule = λ i. fresh_rule (env.deplist i);
  ruleids_to_run = [];
  rules_remain_list = rules_remain_list;
  world = world;
}

-- Of `n` rules each starts to execute once and is executed once, and between two of these calls there
-- is one of reconsider at most.
pub enough : ℕ → ℕ
enough n = 6 * n + 2

module _ {W : Type 0} (env : Env W) (n : ℕ) where
  -- What run_loop does to the rules: it calls consider, takes a rule from the queue to run its
  -- commands, and calls mark_executed when these have run. The order is not fixed.
  pub data Step (s : State W) : State W → Type 0 where
    considers :
        (i : ℕ) (b : Bool) (t : State W)
        → i < n
        → run env (enough n) (call_consider i) s ≡ done (b, t)
        → Step s t
    forks :
        (js : List ℕ) (i : ℕ)
        → s.ruleids_to_run ≡ js ++ i ∷ []
        → Step s (record s { ruleids_to_run = js })
    finishes :
        (i : ℕ) (b : Bool) (t : State W)
        → i < n
        → (s.rule i).is_queued ≡ true
        → (s.rule i).is_executed ≡ false
        → run env (enough n) (call_mark_executed i true) s ≡ done (b, t)
        → Step s t

  pub data Reach (s : State W) : State W → Type 0 where
    here : Reach s s
    next : {t u : State W} → Reach s t → Step t u → Reach s u
