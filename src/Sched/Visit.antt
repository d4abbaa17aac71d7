-- ===== src/Sched/Visit.antt =====
-- do_exec, and what the loops do with one dependency.
use mathlib.Core.Option.{some-injective}
use stirmake.Prelude.{
  ℕ, suc, ◌*◌, ◌≤◌, ◌<◌, ◌≡◌, refl, sym, ap, subst, ◌∙◌, Bool, true, false, Bool-cases,
  Option-cases, inl, inr, none, some, arith,
}
use stirmake.UpToDate.{Stirdep}
use stirmake.Cycle.{dep_rule}
use stirmake.Cycle.Graph.{Leads}
use stirmake.Remain.Counts.{deps_remain_forwait-IsCounted}
use stirmake.Sched.{
  RuleState, State, Env, Call, call_consider, call_reconsider, call_mark_executed, update, do_exec,
  forwait, visit,
}
use stirmake.Prelude.Results.{Outcome, Returns, Returns-and_then}
use stirmake.Sched.Invariant.{
  Grows, executed, Inv, AllGrow, AllFramed, OthersFramed, Grows-refl, Grows-trans, IsFramed-refl,
  IsFramed-trans, IsRegular-more, rule-update, AllGrow-update, AllFramed-update,
  OthersFramed-update, Inv-update,
}
use stirmake.Sched.Updates.{queue_rule, Grows-queue, Inv-queue}
use stirmake.Sched.Measure.{measure, measure_le}

module _ {W : Type 0} (env : Env W) (n : ℕ) where
  -- What a call leaves.
  abbrev pub Good : State W → Bool × State W → Type 0
  Good s (b, t) = Inv env t × AllGrow s t × AllFramed s t

  -- When a function may be called.
  abbrev pub Ready : Call → State W → Type 0
  Ready (call_consider i) s = i < n
  Ready (call_reconsider i k) s =
      (i < n) × Leads k (env.deplist i) × ((s.rule k).is_executed ≡ true)
  Ready (call_mark_executed i was) s =
      (i < n) × ((s.rule i).is_executed ≡ false) × ((s.rule i).is_queued ≡ true)

  -- The depth of the calls below.
  unfoldable pub need : Call → State W → ℕ
  need (call_consider i) s = suc (3 * measure n s)
  need (call_reconsider i k) s = suc (suc (3 * measure n s))
  need (call_mark_executed i was) s = 3 * measure n s

  abbrev pub Works : ℕ → (Call → State W → Outcome (Bool × State W)) → Type 0
  Works bound self =
      (c : Call) (s : State W)
      → Inv env s
      → Ready c s
      → need c s ≤ bound
      → Returns (Good s) (self c s)

module _ {W : Type 0} (env : Env W) (n : ℕ) where
  -- What a loop leaves of a rule `i` and the others.
  pub record IsVisited (i : ℕ) (s t : State W) : Type 0 where
    pub inv : Inv env t
    pub grown : AllGrow s t
    pub framed : OthersFramed i s t

  pub IsVisited-refl : (i : ℕ) (s : State W) → Inv env s → IsVisited i s s
  IsVisited-refl i s h = record {
    inv = h;
    grown = λ j. Grows-refl (s.rule j);
    framed = λ j. (refl, λ _. IsFramed-refl (s.rule j));
  }

  pub IsVisited-trans :
      (i : ℕ) (s t u : State W) → IsVisited i s t → IsVisited i t u → IsVisited i s u
  IsVisited-trans i s t u a b = record {
    inv = b.inv;
    grown = λ j. Grows-trans (a.grown j) (b.grown j);
    framed = λ j. (
      (b.framed j).0 ∙ (a.framed j).0,
      λ ne. IsFramed-trans ((a.framed j).1 ne) ((b.framed j).1 ne),
    );
  }

  -- The answer of `visit`: where it is not to be waited for, the rule of the dependency is executed.
  abbrev pub Answer : ℕ → Stirdep → State W → Bool × Bool × State W → Type 0
  Answer i e s (execed, waits, t) =
      IsVisited i s t
      × (waits ≡ false
          → ((t.rule i).remain.wait_remain_cnt ≤ (s.rule i).remain.wait_remain_cnt)
            × ((d : ℕ) → dep_rule e ≡ some d → executed t d ≡ true))

module _ {W : Type 0} (env : Env W) (n : ℕ) (self : Call → State W → Outcome (Bool × State W))
    (bound : ℕ) (works : Works env n bound self) where
  -- Of a rule whose dependencies are executed.
  pub do_exec_lem :
      (i : ℕ) (s : State W)
      → Inv env s
      → i < n
      → (s.rule i).is_executing ≡ true
      → ((d : ℕ) → Leads d (env.deplist i) → executed s d ≡ true)
      → 3 * measure n s ≤ bound
      → Returns (Good env n s) (do_exec env self i s)
  unfolding do_exec
  do_exec_lem i s h l ex all m = elim (Bool-cases (s.rule i).is_queued) [
    | inl e ↦ rw (e, do_exec) (h, (λ j. Grows-refl (s.rule j)), (λ j. IsFramed-refl (s.rule j)))
    | inr e ↦
        let q = update s i queue_rule in
        let q' : State W = record q { world = (env.decide s.world i).1 } in
        let g = Grows-queue env s h i in
        let grown : AllGrow s q = AllGrow-update s i queue_rule g in
        let framed : AllFramed s q =
          AllFramed-update s i queue_rule (record { under = refl; wait = λ k. omega arith }) in
        let regular : Inv env q = Inv-queue env s h i ex all in
        elim (Bool-cases (env.decide s.world i).0) [
          | inl queue ↦ rw (e, do_exec, queue) (regular, grown, framed)
          | inr runs ↦
              rw (e, do_exec, runs)
                (Returns-and_then (Good env n q) (Good env n s) _ _
                  (works (call_mark_executed i false) q' regular
                    (
                      l,
                      ap RuleState.is_executed (rule-update s i queue_rule) ∙ not_executed e,
                      ap RuleState.is_queued (rule-update s i queue_rule),
                    )
                    (unfold need in omega (arith, m, measure_le n s q' grown)))
                  (λ (b, t) (ht, gt, ft). (
                    ht,
                    (λ j. Grows-trans (grown j) (gt j)),
                    (λ j. IsFramed-trans (framed j) (ft j)),
                  )))
        ]
  ]
    where
      not_executed : (s.rule i).is_queued ≡ false → (s.rule i).is_executed ≡ false
      not_executed e = elim (Bool-cases (s.rule i).is_executed) [
        | inl x ↦ absurd (cc ((h i).executed_queued x))
        | inr x ↦ x
      ]

  forwait_lem :
      (i d : ℕ) (e : Stirdep) (execed : Bool) (s t : State W)
      → Leads d (env.deplist i)
      → ((k : ℕ) → dep_rule e ≡ some k → d ≡ k)
      → (s.rule i).is_executing ≡ true
      → (s.rule i).is_under_consideration ≡ true
      → Good env n s (execed, t)
      → Returns (Answer env n i e s) (forwait env self i d execed t)
  unfolding forwait
  forwait_lem i d e execed s t l names ex under (ht, g, f) =
      elim (Bool-cases (t.rule d).is_executed) [
        | inl x ↦
            rw (x, forwait)
              (
                passed,
                λ _. ((f i).wait under, λ k q. subst (λ j. executed t j ≡ true) (names k q) x),
              )
        | inr x ↦
            let (m, q, counted, has) =
              deps_remain_forwait-IsCounted (t.rule i).remain d (ht i).counted
                ((ht i).waits d l x) in
            let w : RuleState → RuleState = λ r. record r { remain = m } in
            let grows : Grows (t.rule i) (w (t.rule i)) = record {
              executed = λ k. k;
              executing = λ k. k;
              queued = λ k. k;
              waitloc = λ k. k;
            } in
            let grown : AllGrow t (update t i w) = AllGrow-update t i w grows in
            rw (x, forwait, q)
              (
                IsVisited-trans env n i s t (update t i w) passed (record {
                  inv = Inv-update t i w env ht grows (
                      IsRegular-more (env.deplist i) (executed t) (executed (update t i w))
                        (w (t.rule i)) (λ j. (grown j).executed)
                        (record {
                          counted = counted;
                          waits = λ k lk nk. has k ∙ (ht i).waits k lk nk;
                          ran = (ht i).ran;
                          executed_queued = (ht i).executed_queued;
                          queued_executing = (ht i).queued_executing;
                          under_executing = (ht i).under_executing;
                          calm = λ no. absurd (cc ((g i).executing ex));
                          located = (ht i).located;
                          waiting = (ht i).waiting;
                        }));
                  grown = grown;
                  framed = OthersFramed-update t i w refl;
                }),
                λ no. absurd (cc),
              )
      ]
    where
      passed : IsVisited env n i s t
      passed = record { inv = ht; grown = g; framed = λ j. ((f j).under, λ _. f j) }

  pub dep_rule_of : (e : Stirdep) → e.is_dupe ≡ false → dep_rule e ≡ e.ruleid
  unfolding dep_rule
  dep_rule_of e plain = rw plain refl

  pub visit_lem :
      (i : ℕ) (e : Stirdep) (s : State W)
      → Inv env s
      → e.is_dupe ≡ false
      → ((d : ℕ) → dep_rule e ≡ some d → Leads d (env.deplist i))
      → ((d : ℕ) → Leads d (env.deplist i) → d < n)
      → (s.rule i).is_executing ≡ true
      → (s.rule i).is_under_consideration ≡ true
      → suc (3 * measure n s) ≤ bound
      → Returns (Answer env n i e s) (visit env self i e s)
  unfolding visit
  visit_lem i e s h plain sub inside ex under m = elim (Option-cases e.ruleid) [
    | inl none_there ↦ elim (Bool-cases e.is_inc) [
      | inl inc ↦
          simp (none_there, visit, inc)
            (
              IsVisited-refl env n i s h,
              λ _. (omega arith, λ d q. absurd (none_such none_there d q)),
            )
      | inr real ↦ elim (Bool-cases (env.access_fails s.world e.nameidx).0) [
        | inl fails ↦ simp (none_there, visit, real, fails) tt
        | inr there ↦
            simp (none_there, visit, real, there)
              (
                record {
                  inv = h;
                  grown = λ j. Grows-refl (s.rule j);
                  framed = λ j. (refl, λ _. IsFramed-refl (s.rule j));
                },
                λ _. (omega arith, λ d q. absurd (none_such none_there d q)),
              )
      ]
    ]
    | inr (d, leads) ↦
        let edge : Leads d (env.deplist i) = sub d (dep_rule_of e plain ∙ leads) in
        simp (leads, visit)
          (Returns-and_then (Good env n s) (Answer env n i e s) _ _
            (works (call_consider d) s h (inside d edge) (unfold need in m))
            (λ (execed, t) good.
              forwait_lem i d e execed s t edge
                (λ k q. some-injective d k (sym leads ∙ sym (dep_rule_of e plain) ∙ q)) ex under
                good))
  ]
    where
      none_such : e.ruleid ≡ none → (d : ℕ) → dep_rule e ≡ some d → ⊥
      none_such x d q = cc (dep_rule_of e plain)
