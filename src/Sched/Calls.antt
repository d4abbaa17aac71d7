-- ===== src/Sched/Calls.antt =====
-- consider, where the calls that it makes are right.
use stirmake.Prelude.{
  ℕ, suc, ◌*◌, ◌≤◌, ◌<◌, ◌≡◌, ◌≢◌, refl, sym, ap, subst, ◌∙◌, ◌==◌, Bool, true, false, not, ◌&&◌,
  ◌||◌, Bool-cases, inl, inr, [], arith,
}
use stirmake.Cycle.Graph.{Leads}
use stirmake.Sched.{
  RuleState, State, Env, Call, update, consider_loop, considered, enter, leave, consider,
}
use stirmake.Prelude.Results.{Outcome, and_then, Returns, Returns-and_then}
use stirmake.Sched.Invariant.{
  Grows, IsFramed, executed, Inv, AllGrow, AllFramed, Grows-refl, Grows-trans, IsFramed-refl,
  IsFramed-trans, IsRegular-more, rule-update, rule-update_other, AllGrow-update, Inv-update,
}
use stirmake.Sched.Measure.{measure, measure_executing}
use stirmake.Sched.Visit.{Good, Works, IsVisited, do_exec_lem}
use stirmake.Sched.Loops.{Walked, IsOpen, IsOpen-IsVisited, consider_loop_lem}

module _ {W : Type 0} (env : Env W) (n : ℕ) where
  pub Good-trans :
      (s t : State W) (x : Bool × State W)
      → AllGrow s t
      → AllFramed s t
      → Good env n t x
      → Good env n s x
  Good-trans s t (b, u) g f (h, g', f') =
      (h, (λ j. Grows-trans (g j) (g' j)), λ j. IsFramed-trans (f j) (f' j))

  -- A rule stops being under consideration.
  pub Good-leave :
      (i : ℕ) (b : Bool) (s t : State W)
      → (s.rule i).is_under_consideration ≡ false
      → Inv env t
      → AllGrow s t
      → (t.rule i).is_executing ≡ true
      → ((d : ℕ) → Leads d (env.deplist i) → (t.rule i).waitloc ≢ [])
      → ((j : ℕ) → i ≢ j → IsFramed (s.rule j) (t.rule j))
      → Good env n s (b, leave i t)
  Good-leave i b s t outside h g ex loc others =
      let w : RuleState → RuleState = λ r. record r { is_under_consideration = false } in
      let grows : Grows (t.rule i) (w (t.rule i)) = record {
        executed = λ k. k;
        executing = λ k. k;
        queued = λ k. k;
        waitloc = λ k. k;
      } in
      let grown : AllGrow t (update t i w) = AllGrow-update t i w grows in
      (
        Inv-update t i w env h grows (
            IsRegular-more (env.deplist i) (executed t) (executed (update t i w)) (w (t.rule i))
              (λ j. (grown j).executed)
              (record {
                counted = (h i).counted;
                waits = (h i).waits;
                ran = (h i).ran;
                executed_queued = (h i).executed_queued;
                queued_executing = (h i).queued_executing;
                under_executing = λ k. absurd (cc);
                calm = (h i).calm;
                located = (h i).located;
                waiting = λ a c d l. loc d l;
              })),
        (λ j. Grows-trans (g j) (grown j)),
        λ j. elim (Bool-cases (i == j)) [
          | inl e ↦
              subst (λ k. IsFramed (s.rule k) ((leave i t).rule k)) (same j e)
                (record {
                  under = ap RuleState.is_under_consideration (rule-update t i w) ∙ sym outside;
                  wait = λ k. absurd (cc);
                })
          | inr e ↦
              subst (IsFramed (s.rule j)) (sym (rule-update_other t i w j e))
                (others j (differs j e))
        ],
      )
    where
      same : (j : ℕ) → (i == j) ≡ true → i ≡ j
      same j e = ground arith

      differs : (j : ℕ) → (i == j) ≡ false → i ≢ j
      differs j e = ground arith

module _ {W : Type 0} (env : Env W) (n : ℕ) (self : Call → State W → Outcome (Bool × State W))
    (bound : ℕ) (works : Works env n bound self)
    (inside : (i d : ℕ) → Leads d (env.deplist i) → d < n) where
  pub entered :
      (i : ℕ) (s : State W)
      → Inv env s
      → (s.rule i).is_executing ≡ false
      → Inv env (update s i enter) × AllGrow s (update s i enter)
  entered i s h idle =
      let grows : Grows (s.rule i) (enter (s.rule i)) = record {
        executed = λ k. k;
        executing = λ k. refl;
        queued = λ k. k;
        waitloc = λ k. k;
      } in
      let grown : AllGrow s (update s i enter) = AllGrow-update s i enter grows in
      (
        Inv-update s i enter env h grows (
            IsRegular-more (env.deplist i) (executed s) (executed (update s i enter))
              (enter (s.rule i)) (λ j. (grown j).executed)
              (record {
                counted = (h i).counted;
                waits = (h i).waits;
                ran = (h i).ran;
                executed_queued = (h i).executed_queued;
                queued_executing = λ k. refl;
                under_executing = λ k. refl;
                calm = λ k. absurd (cc);
                located = (h i).located;
                waiting = λ a c. absurd (cc);
              })),
        grown,
      )

  pub enter-IsOpen :
      (i : ℕ) (s : State W)
      → Inv env s
      → i < n
      → (s.rule i).is_executing ≡ false
      → suc (3 * measure n s) ≤ suc bound
      → IsOpen env n self bound works inside i (update s i enter)
  enter-IsOpen i s h l off m =
      let (h1, g1) = entered i s h off in
      let on = ap RuleState.is_executing (rule-update s i enter) in
      record {
        inv = h1;
        executing = on;
        under = ap RuleState.is_under_consideration (rule-update s i enter);
        fuel = omega (arith, m, measure_executing n s (update s i enter) i g1 l off on);
      }

  pub consider_lem :
      (i : ℕ) (s : State W)
      → Inv env s
      → i < n
      → suc (3 * measure n s) ≤ suc bound
      → Returns (Good env n s) (consider env self i s)
  unfolding consider considered
  consider_lem i s h l m = elim (Bool-cases ((s.rule i).is_executed || (s.rule i).is_executing)) [
    | inl e ↦ rw (e, consider) (h, (λ j. Grows-refl (s.rule j)), (λ j. IsFramed-refl (s.rule j)))
    | inr e ↦ rw (e, consider) (fresh (idle e))
  ]
    where
      idle :
          ((s.rule i).is_executed || (s.rule i).is_executing) ≡ false
          → (s.rule i).is_executing ≡ false
      idle e = ground arith

      outside : (s.rule i).is_executing ≡ false → (s.rule i).is_under_consideration ≡ false
      outside e = elim (Bool-cases (s.rule i).is_under_consideration) [
        | inl x ↦ absurd (cc ((h i).under_executing x))
        | inr x ↦ x
      ]

      others :
          (t : State W)
          → IsVisited env n i (update s i enter) t
          → (j : ℕ) → i ≢ j
          → IsFramed (s.rule j) (t.rule j)
      others t v j ne =
          subst (λ r. IsFramed r (t.rule j)) (rule-update_other s i enter j (ground arith))
            ((v.framed j).1 ne)

      both : (te q : Bool) → (not te && not q) ≡ true → te ≡ false
      both te q e = ground arith

      fresh :
          (s.rule i).is_executing ≡ false
          → Returns (Good env n s) (
              and_then
                (consider_loop env self i (env.deplist i) false false (update s i enter))
                (considered env self i))
      fresh off =
          let s1 = update s i enter in
          let (h1, g1) = entered i s h off in
          let o = enter-IsOpen i s h l off m in
          Returns-and_then (Walked env n i (env.deplist i) false s1) (Good env n s) _ _
            (consider_loop_lem env n self bound works inside i (env.deplist i) false false s1 o
              (λ d k. k)
              (λ _.
                ap (λ r. (RuleState.remain r).wait_remain_cnt) (rule-update s i enter)
                ∙ (h i).calm off))
            (λ (te, b, t) (v, all, loc).
              let ot = IsOpen-IsVisited env n self bound works inside i s1 t o v in
              let g : AllGrow s t = λ j. Grows-trans (g1 j) (v.grown j) in
              elim (Bool-cases (not te && not (t.rule i).is_queued)) [
                | inr x ↦
                    rw (x, considered)
                      (Good-leave env n i b s t (outside off) v.inv g ot.executing loc (others t v))
                | inl x ↦
                    rw (x, considered)
                      (Returns-and_then (Good env n t) (Good env n s) _ _
                        (do_exec_lem env n self bound works i t v.inv l ot.executing
                          (all (both te (t.rule i).is_queued x)).1 (omega (arith, ot.fuel)))
                        (λ (ret, u) (hu, gu, fu).
                          Good-leave env n i ret s u (outside off) hu
                            (λ j. Grows-trans (g j) (gu j)) ((gu i).executing ot.executing)
                            (λ d k. (gu i).waitloc (loc d k))
                            (λ j ne. IsFramed-trans (others t v j ne) (fu j))))
              ])
