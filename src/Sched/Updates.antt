-- ===== src/Sched/Updates.antt =====
-- Each write to a rule keeps the invariant.
use stirmake.Prelude.{
  ℕ, ◌≡◌, refl, ap, ◌∙◌, ◌==◌, if◌then◌else◌, Bool, true, false, Bool-cases, inl, inr, some, arith,
}
use stirmake.Cycle.Graph.{Leads}
use stirmake.Remain.{Remain, deps_remain_has, deps_remain_erase}
use stirmake.Remain.Counts.{IsCounted, wait_remain_cnt-deps_remain_erase, deps_remain_cnt_iff}
use stirmake.Sched.{RuleState, State, Env, update}
use stirmake.Sched.Invariant.{Grows, executed, Inv, IsRegular-more, AllGrow-update, Inv-update}

abbrev pub queue_rule : RuleState → RuleState
queue_rule r = record r { is_queued = true }

abbrev pub open_rule : RuleState → RuleState
open_rule r = record r { is_under_consideration = true }

abbrev pub mark_rule : Bool → RuleState → RuleState
mark_rule was r = record r { is_executed = true; is_actually_executed = was }

abbrev pub set_remain : Remain → RuleState → RuleState
set_remain m r = record r { remain = m }

module _ {W : Type 0} (env : Env W) (s : State W) (h : Inv env s) (i : ℕ) where
  pub Grows-queue : Grows (s.rule i) (queue_rule (s.rule i))
  Grows-queue = record {
    executed = λ k. k;
    executing = λ k. k;
    queued = λ k. refl;
    waitloc = λ k. k;
  }

  pub Inv-queue :
      (s.rule i).is_executing ≡ true
      → ((d : ℕ) → Leads d (env.deplist i) → executed s d ≡ true)
      → Inv env (update s i queue_rule)
  Inv-queue ex all = Inv-update s i queue_rule env h Grows-queue (
      IsRegular-more (env.deplist i) (executed s) (executed (update s i queue_rule))
        (queue_rule (s.rule i)) (λ j. (AllGrow-update s i queue_rule Grows-queue j).executed)
        (record {
          counted = (h i).counted;
          waits = (h i).waits;
          ran = λ k. all;
          executed_queued = λ k. refl;
          queued_executing = λ k. ex;
          under_executing = (h i).under_executing;
          calm = (h i).calm;
          located = (h i).located;
          waiting = (h i).waiting;
        }))

  pub Grows-open : Grows (s.rule i) (open_rule (s.rule i))
  Grows-open = record { executed = λ k. k; executing = λ k. k; queued = λ k. k; waitloc = λ k. k }

  pub Inv-open : (s.rule i).is_executing ≡ true → Inv env (update s i open_rule)
  Inv-open ex = Inv-update s i open_rule env h Grows-open (
      IsRegular-more (env.deplist i) (executed s) (executed (update s i open_rule))
        (open_rule (s.rule i)) (λ j. (AllGrow-update s i open_rule Grows-open j).executed)
        (record {
          counted = (h i).counted;
          waits = (h i).waits;
          ran = (h i).ran;
          executed_queued = (h i).executed_queued;
          queued_executing = (h i).queued_executing;
          under_executing = λ k. ex;
          calm = (h i).calm;
          located = (h i).located;
          waiting = λ a c. absurd (cc);
        }))

  pub Grows-mark : (was : Bool) → Grows (s.rule i) (mark_rule was (s.rule i))
  Grows-mark was = record {
    executed = λ k. refl;
    executing = λ k. k;
    queued = λ k. k;
    waitloc = λ k. k;
  }

  pub Inv-mark : (was : Bool) → (s.rule i).is_queued ≡ true → Inv env (update s i (mark_rule was))
  Inv-mark was queued = Inv-update s i (mark_rule was) env h (Grows-mark was) (
      IsRegular-more (env.deplist i) (executed s) (executed (update s i (mark_rule was)))
        (mark_rule was (s.rule i))
        (λ j. (AllGrow-update s i (mark_rule was) (Grows-mark was) j).executed)
        (record {
          counted = (h i).counted;
          waits = (h i).waits;
          ran = (h i).ran;
          executed_queued = λ _. queued;
          queued_executing = (h i).queued_executing;
          under_executing = (h i).under_executing;
          calm = (h i).calm;
          located = (h i).located;
          waiting = (h i).waiting;
        }))

  pub Grows-set_remain : (m : Remain) → Grows (s.rule i) (set_remain m (s.rule i))
  Grows-set_remain m = record {
    executed = λ k. k;
    executing = λ k. k;
    queued = λ k. k;
    waitloc = λ k. k;
  }

  same : (k d : ℕ) → (k == d) ≡ true → k ≡ d
  same k d e = ground arith

  keep :
      (k d : ℕ) {x : Bool}
      → executed s k ≡ true
      → executed s d ≡ false
      → x ≡ true
      → (if k == d then false else x) ≡ true
  keep k d ran off on = elim (Bool-cases (k == d)) [
    | inl e ↦ absurd (cc (ap (executed s) (same k d e)))
    | inr e ↦ rw e on
  ]

  -- Taking out a dependency that is executed.
  pub Inv-erase :
      (k : ℕ) (m : Remain)
      → deps_remain_erase (s.rule i).remain k ≡ some m
      → executed s k ≡ true
      → ((d : ℕ)
          → deps_remain_has m d ≡ (if k == d then false else deps_remain_has (s.rule i).remain d))
      → IsCounted m
      → Inv env (update s i (set_remain m))
  Inv-erase k m q ran has counted =
      let less = wait_remain_cnt-deps_remain_erase (s.rule i).remain m k q in
      Inv-update s i (set_remain m) env h (Grows-set_remain m) (
        IsRegular-more (env.deplist i) (executed s) (executed (update s i (set_remain m)))
          (set_remain m (s.rule i))
          (λ j. (AllGrow-update s i (set_remain m) (Grows-set_remain m) j).executed)
          (record {
            counted = counted;
            waits = λ d a b. has d ∙ keep k d ran b ((h i).waits d a b);
            ran = (h i).ran;
            executed_queued = (h i).executed_queued;
            queued_executing = (h i).queued_executing;
            under_executing = (h i).under_executing;
            calm = λ c. omega (arith, less, (h i).calm c);
            located = (h i).located;
            waiting = (h i).waiting;
          }))

  -- Where no dependency remains, all are executed.
  pub none_remain :
      (s.rule i).remain.deps_remain_cnt ≡ 0
      → (d : ℕ) → Leads d (env.deplist i)
      → executed s d ≡ true
  none_remain z d k = elim (Bool-cases (executed s d)) [
    | inl x ↦ x
    | inr x ↦
        absurd (cc ((h i).waits d k x, (deps_remain_cnt_iff (s.rule i).remain (h i).counted).0 z d))
  ]
