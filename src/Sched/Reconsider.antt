-- ===== src/Sched/Reconsider.antt =====
-- reconsider and mark_executed, where the calls that they make are right.
use stirmake.Prelude.{
  ℕ, suc, ◌*◌, ◌≤◌, ◌<◌, ◌≡◌, ◌≢◌, refl, sym, ap, subst, ◌∙◌, ltb, Bool, true, false, not, ◌&&◌,
  ◌||◌, Bool-cases, Option-cases, List-cases, inl, inr, List, [], ◌∷◌, arith, All,
}
use stirmake.Cycle.Graph.{Leads}
use stirmake.Remain.Counts.{deps_remain_erase-IsCounted, wait_remain_cnt-deps_remain_erase}
use stirmake.Sched.{
  RuleState, State, Env, Call, call_reconsider, update, reconsidered, wake, reconsider,
  reconsider_all, mark_executed, ruleremain_rm,
}
use stirmake.Prelude.Results.{Outcome, Returns, Returns-and_then, Returns-imp}
use stirmake.Sched.Invariant.{
  IsFramed, executed, Inv, AllGrow, AllFramed, Grows-refl, Grows-trans, IsFramed-refl,
  IsFramed-trans, rule-update, rule-update_other, AllGrow-update, AllFramed-update,
}
use stirmake.Sched.Updates.{
  open_rule, mark_rule, set_remain, Grows-open, Grows-mark, Grows-set_remain, Inv-open, Inv-mark,
  Inv-erase, none_remain,
}
use stirmake.Sched.Measure.{measure, measure_le, measure_executed}
use stirmake.Sched.Visit.{Good, Works, need, IsVisited, do_exec_lem}
use stirmake.Sched.Loops.{IsOpen, IsOpen-IsVisited, reconsider_loop_lem}
use stirmake.Sched.Calls.{Good-trans, Good-leave}

module _ {W : Type 0} (env : Env W) (n : ℕ) (self : Call → State W → Outcome (Bool × State W))
    (bound : ℕ) (works : Works env n bound self)
    (inside : (i d : ℕ) → Leads d (env.deplist i) → d < n) where
  pub wake_lem :
      (i : ℕ) (s : State W)
      → Inv env s
      → i < n
      → (s.rule i).is_executing ≡ true
      → (s.rule i).is_under_consideration ≡ false
      → (s.rule i).waitloc ≢ []
      → suc (3 * measure n s) ≤ bound
      → Returns (Good env n s) (wake env self i s)
  unfolding wake reconsidered
  wake_lem i s h l ex outside somewhere m = elim (List-cases (s.rule i).waitloc) [
    | inl e ↦ absurd (somewhere e)
    | inr (x, xs, e) ↦
        rw (e, wake)
          (Returns-and_then (IsVisited env n i s1) (Good env n s) _ _
            (reconsider_loop_lem env n self bound works inside i (x ∷ xs) s1 o
              (λ d k. (h i).located d (subst (Leads d) (sym e) k)))
            after)
  ]
    where
      s1 : State W
      s1 = update s i open_rule

      g1 : AllGrow s s1
      g1 = AllGrow-update s i open_rule (Grows-open env s h i)

      h1 : Inv env s1
      h1 = Inv-open env s h i ex

      o : IsOpen env n self bound works inside i s1
      o = record {
        inv = h1;
        executing = (g1 i).executing ex;
        under = ap RuleState.is_under_consideration (rule-update s i open_rule);
        fuel = omega (arith, m, measure_le n s s1 g1);
      }

      others :
          (t : State W) → IsVisited env n i s1 t → (j : ℕ) → i ≢ j → IsFramed (s.rule j) (t.rule j)
      others t v j ne =
          subst (λ r. IsFramed r (t.rule j)) (rule-update_other s i open_rule j (ground arith))
            ((v.framed j).1 ne)

      none_left : (te q : Bool) → (not te && not q) ≡ true → te ≡ false
      none_left te q e = ground arith

      all :
          ltb 0 (s.rule i).remain.deps_remain_cnt ≡ false
          → (d : ℕ) → Leads d (env.deplist i)
          → executed s d ≡ true
      all e d k = none_remain env s h i (ground arith) d k

      after :
          (t : State W)
          → IsVisited env n i s1 t
          → Returns
              (Good env n s)
              (reconsidered env self i (ltb 0 (s.rule i).remain.deps_remain_cnt) t)
      after t v =
          let ot = IsOpen-IsVisited env n self bound works inside i s1 t o v in
          let g : AllGrow s t = λ j. Grows-trans (g1 j) (v.grown j) in
          let loc : (t.rule i).waitloc ≢ [] = (g i).waitloc somewhere in
          elim (Bool-cases
            (not (ltb 0 (s.rule i).remain.deps_remain_cnt) && not (t.rule i).is_queued)) [
              | inr x ↦
                  rw (x, reconsidered)
                    (Good-leave env n i false s t outside v.inv g ot.executing (λ d k. loc)
                      (others t v))
              | inl x ↦
                  rw (x, reconsidered)
                    (Returns-and_then (Good env n t) (Good env n s) _ _
                      (do_exec_lem env n self bound works i t v.inv l ot.executing
                        (λ d k. (g d).executed (all (none_left _ (t.rule i).is_queued x) d k))
                        (omega (arith, ot.fuel)))
                      (λ (ret, u) (hu, gu, fu).
                        Good-leave env n i false s u outside hu (λ j. Grows-trans (g j) (gu j))
                          ((gu i).executing ot.executing) (λ d k. (gu i).waitloc loc)
                          (λ j ne. IsFramed-trans (others t v j ne) (fu j))))
            ]

  pub reconsider_lem :
      (i k : ℕ) (s : State W)
      → Inv env s
      → i < n
      → Leads k (env.deplist i)
      → executed s k ≡ true
      → suc (suc (3 * measure n s)) ≤ suc bound
      → Returns (Good env n s) (reconsider env self i k s)
  unfolding reconsider
  reconsider_lem i k s h l edge ran m = elim (Bool-cases (s.rule i).is_executed) [
    | inl e ↦ rw (e, reconsider) (h, (λ j. Grows-refl (s.rule j)), (λ j. IsFramed-refl (s.rule j)))
    | inr e ↦
        let (r, q, counted, has) = deps_remain_erase-IsCounted (s.rule i).remain k (h i).counted in
        let less = wait_remain_cnt-deps_remain_erase (s.rule i).remain r k q in
        let w = set_remain r in
        let t = update s i w in
        let g : AllGrow s t = AllGrow-update s i w (Grows-set_remain env s h i r) in
        let f : AllFramed s t =
          AllFramed-update s i w (record { under = refl; wait = λ _. less }) in
        let ht : Inv env t = Inv-erase env s h i k r q ran has counted in
        elim (Bool-cases (not (s.rule i).is_executing || (s.rule i).is_under_consideration)) [
          | inl x ↦ rw (e, q, reconsider, x) (ht, g, f)
          | inr x ↦
              rw (e, q, reconsider, x)
                (Returns-imp (Good env n t) (Good env n s) _ (λ y. Good-trans env n s t y g f)
                  (wake_lem i t ht l ((g i).executing (active x).0) ((f i).under ∙ (active x).1)
                    ((g i).waitloc ((h i).waiting (active x).0 (active x).1 k edge))
                    (omega (arith, m, measure_le n s t g))))
        ]
  ]
    where
      active :
          (not (s.rule i).is_executing || (s.rule i).is_under_consideration) ≡ false
          → ((s.rule i).is_executing ≡ true) × ((s.rule i).is_under_consideration ≡ false)
      active x = ground arith

  reconsider_all_lem :
      (i : ℕ) (js : List ℕ) (s : State W)
      → All (λ j. (j < n) × Leads i (env.deplist j)) js
      → Inv env s
      → executed s i ≡ true
      → suc (suc (3 * measure n s)) ≤ bound
      → Returns (Good env n s) (reconsider_all env self i js s)
  unfolding reconsider_all
  reconsider_all_lem i [] s a h ran m =
      (h, (λ j. Grows-refl (s.rule j)), (λ j. IsFramed-refl (s.rule j)))
  reconsider_all_lem i (j ∷ js) s ((l, edge), a) h ran m =
      Returns-and_then (Good env n s) (Good env n s) (self (call_reconsider j i) s) _
        (works (call_reconsider j i) s h (l, edge, ran) (unfold need in m))
        (λ (b, t) (ht, g, f).
          Returns-imp (Good env n t) (Good env n s) _ (λ y. Good-trans env n s t y g f)
            (reconsider_all_lem i js t a ht ((g i).executed ran)
              (omega (arith, m, measure_le n s t g))))

  pub mark_executed_lem :
      (i : ℕ) (was : Bool) (s : State W)
      → All (λ j. (j < n) × Leads i (env.deplist j)) (env.dependents i)
      → Inv env s
      → i < n
      → executed s i ≡ false
      → (s.rule i).is_queued ≡ true
      → 3 * measure n s ≤ suc bound
      → Returns (Good env n s) (mark_executed env self i was s)
  unfolding mark_executed
  mark_executed_lem i was s a h l fresh queued m =
      let w = mark_rule was in
      let t = update s i w in
      let g : AllGrow s t = AllGrow-update s i w (Grows-mark env s h i was) in
      let f : AllFramed s t =
        AllFramed-update s i w (record { under = refl; wait = λ _. omega arith }) in
      let on : executed t i ≡ true = ap RuleState.is_executed (rule-update s i w) in
      let ht : Inv env t = Inv-mark env s h i was queued in
      elim (Option-cases (env.store t.world i was)) [
        | inl e ↦ rw (fresh, mark_executed, (h i).queued_executing queued, e) tt
        | inr (world, e) ↦
            rw (fresh, mark_executed, (h i).queued_executing queued, e)
              (Returns-imp (Good env n t) (Good env n s) _ (λ y. Good-trans env n s t y g f)
                (reconsider_all_lem i (env.dependents i)
                  (record t {
                    world = world;
                    rules_remain_list = ruleremain_rm t.rules_remain_list i;
                  })
                  a ht on
                  (omega (
                    arith,
                    m,
                    measure_executed n s
                        (record t {
                          world = world;
                          rules_remain_list = ruleremain_rm t.rules_remain_list i;
                        })
                        i g l fresh on,
                  ))))
      ]
