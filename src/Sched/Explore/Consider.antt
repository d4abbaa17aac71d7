-- ===== src/Sched/Explore/Consider.antt =====
-- consider itself, to any depth of calls.
use stirmake.Prelude.{
  ℕ, zero, suc, ◌*◌, ◌<◌, ◌≤◌, ◌≡◌, ◌⊎◌, refl, sym, ap, ◌∙◌, ◌==◌, Bool, true, false, not, ◌||◌,
  ◌&&◌, Bool-cases, inl, inr, All, All-imp, arith,
}
use stirmake.Cycle.Graph.{Leads}
use stirmake.Sched.{RuleState, State, Env, update, enter, leave, considered, consider, handle, run}
use stirmake.Prelude.Results.{Gives, Gives-and_then}
use stirmake.Sched.Invariant.{executed, Inv, Grows-refl, rule-update, rule-update_other}
use stirmake.Sched.Measure.{measure}
use stirmake.Sched.Visit.{Good, IsVisited, do_exec_lem}
use stirmake.Sched.Loops.{IsOpen, IsOpen-IsVisited, Walked, consider_loop_lem}
use stirmake.Sched.Calls.{entered, enter-IsOpen}
use stirmake.Sched.Safe.{IsGraph, run-Works}
use stirmake.Sched.Settled.{
  IsPlain, Stays, Slims-refl, Stays-refl, HasEdges, HasEdges-Sheds, Sheds-AllSlim, Sheds-update,
  Unqueued-AllGrow, pointwise-update,
}
use stirmake.Sched.Quiet.{Did, do_exec_quiet}
use stirmake.Sched.Explore.{AllFine, Explored, Explored-refl}
use stirmake.Sched.Explore.Visit.{Above, Explores}
use stirmake.Sched.Explore.Loop.{Looped, loop_explore}
use stirmake.Sched.Explore.Leave.{Leaves, is_same, executing_leave, Explored-Leaves}

module _ {W : Type 0} (env : Env W) (n : ℕ) (graph : IsGraph env n) (plain : IsPlain env) where
  edge_of : (i : ℕ) → All (λ j. Leads i (env.deplist j)) (env.dependents i)
  edge_of i =
      All-imp (λ j. (j < n) × Leads i (env.deplist j)) (λ j. Leads i (env.deplist j))
        (env.dependents i) (λ j x. x.1) (graph.dependent i)

  module _ (fuel : ℕ) (explores : Explores env n graph plain fuel) (i : ℕ) (s : State W)
      (h : Inv env s) (fine : AllFine env s) (edges : HasEdges env s)
      (above : Above env n graph plain i s) (l : i < n) (m : suc (3 * measure n s) ≤ suc fuel) where
    abbrev Leaving : Bool × State W → Type 0
    Leaving (b, t) = Explored env s t × ((t.rule i).is_executing ≡ true)

    entered_explore : (s.rule i).is_executing ≡ false → Explored env s (update s i enter)
    entered_explore off = record {
      stay = pointwise-update Stays s i enter Stays-refl (record {
        executed = λ on. absurd (cc (on, off));
        settled = λ on. absurd (cc (on, off));
      });
      sheds = Sheds-update s i enter refl refl;
      fine = λ j on out. elim (Bool-cases (i == j)) [
        | inl e ↦ absurd (
            cc (
              ap RuleState.is_under_consideration (rule-update s i enter),
              ap (λ k. ((update s i enter).rule k).is_under_consideration) (is_same env i j e),
              out,
            ))
        | inr e ↦
            let same = rule-update_other s i enter j e in
            let x =
              fine j (sym (ap RuleState.is_executing same) ∙ on)
                (sym (ap RuleState.is_under_consideration same) ∙ out) in
            record {
              deps = λ d k.
                  let (on_d, off_d) = x.deps d k in
                  let same_d = rule-update_other s i enter d (apart d on_d) in
                  (
                    ap RuleState.is_executing same_d ∙ on_d,
                    ap RuleState.is_under_consideration same_d ∙ off_d,
                  );
              reason = elim x.reason [
                | inl q ↦ inl (ap RuleState.is_queued same ∙ q)
                | inr (d, k, ran) ↦ inr (d, k, kept d ∙ ran)
              ];
            }
      ];
    }
      where
        apart : (d : ℕ) → (s.rule d).is_executing ≡ true → (i == d) ≡ false
        apart d on = elim (Bool-cases (i == d)) [
          | inl x ↦ absurd (cc (ap (λ k. (s.rule k).is_executing) (is_same env i d x), on, off))
          | inr x ↦ x
        ]

        kept : (d : ℕ) → executed (update s i enter) d ≡ executed s d
        kept = pointwise-update (λ r r'. r'.is_executed ≡ r.is_executed) s i enter (λ r. refl) refl

    leaving :
        (t u : State W)
        → (b : Bool) → (s.rule i).is_executing ≡ false
        → IsVisited env n i (update s i enter) t
        → Explored env (update s i enter) t
        → Leaves env i t u
        → Leaving (b, leave i u)
    leaving t u b off v x w = (
      Explored-Leaves env i s t u off (x, (λ j. (v.framed j).0), v.grown) w,
      executing_leave env i u i
          ∙ (w.grown i).executing
              ((v.grown i).executing (ap RuleState.is_executing (rule-update s i enter))),
    )

    o1 :
        (s.rule i).is_executing ≡ false
        → IsOpen env n
            (run env fuel)
            fuel
            (run-Works env n graph fuel)
            graph.inside
            i
            (update s i enter)
    o1 off =
        enter-IsOpen env n (run env fuel) fuel (run-Works env n graph fuel) graph.inside i s h l off
          m

    edges1 : (s.rule i).is_executing ≡ false → HasEdges env (update s i enter)
    edges1 off =
        HasEdges-Sheds env s (update s i enter)
          (Unqueued-AllGrow s (update s i enter)
            (entered env n (run env fuel) fuel (run-Works env n graph fuel) graph.inside i s h
              off).1)
          (Sheds-update s i enter refl refl) edges

    considered_explore :
        (x : Bool × Bool × State W)
        → (s.rule i).is_executing ≡ false
        → Walked env n i (env.deplist i) false (update s i enter) x
        → Looped env n graph plain fuel explores i (env.deplist i) false (update s i enter) x
        → Gives Leaving (considered env (run env fuel) i x)
    unfolding considered
    considered_explore (te, b, t) off (v, all, loc) (_, x, hold, done_all) =
        let o =
          IsOpen-IsVisited env n (run env fuel) fuel (run-Works env n graph fuel) graph.inside i s1
            t (o1 off) v in
        elim (Bool-cases (not te && not (t.rule i).is_queued)) [
          | inr e ↦
              rw (e, considered)
                (leaving t t b off v x (record {
                  under = o.under;
                  fine = x.fine;
                  deps = done_all;
                  grown = λ j. Grows-refl (t.rule j);
                  kept = λ j. refl;
                  others = λ j _. (Slims-refl (t.rule j), Stays-refl (t.rule j));
                  sheds = Sheds-AllSlim t t (λ j. Slims-refl (t.rule j));
                  reason = elim (Bool-cases (t.rule i).is_queued) [
                    | inl q ↦ inl q
                    | inr q ↦ elim (hold (ground arith)) [
                      | inl on ↦ absurd cc
                      | inr (d, k, ran, on) ↦ inr (d, k, ran)
                    ]
                  ];
                }))
          | inl e ↦
              rw (e, considered)
                (Gives-and_then (Good env n t) (λ (b', u). Did env plain i t u) Leaving _ _
                  (do_exec_lem env n (run env fuel) fuel (run-Works env n graph fuel) i t v.inv l
                    o.executing (all (te_off te (t.rule i).is_queued e)).1 (omega (arith, o.fuel)))
                  (do_exec_quiet env plain fuel i t v.inv
                    (HasEdges-Sheds env s1 t (Unqueued-AllGrow s1 t v.grown) x.sheds (edges1 off))
                    (λ j on out edge. cc (((x.fine j on out).deps i edge).1, o.under)) o.executing
                    (all (te_off te (t.rule i).is_queued e)).1 (edge_of i))
                  (λ (ret, u) (hu, gu, fu) did. leaving t u ret off v x (record {
                    under = o.under;
                    fine = x.fine;
                    deps = done_all;
                    grown = gu;
                    kept = λ j. (fu j).under;
                    others = did.others;
                    sheds = did.sheds;
                    reason = inl did.queued;
                  })))
        ]
      where
        s1 : State W
        s1 = update s i enter

        te_off : (te q : Bool) → (not te && not q) ≡ true → te ≡ false
        te_off te q e = ground arith

    consider_explore : Gives Leaving (consider env (run env fuel) i s)
    unfolding consider
    consider_explore = elim (Bool-cases ((s.rule i).is_executed || (s.rule i).is_executing)) [
      | inl e ↦ rw (e, consider) (Explored-refl env s fine, on e)
      | inr e ↦
          let off = idle e in
          rw (e, consider)
            (Gives-and_then (Walked env n i (env.deplist i) false s1)
              (Looped env n graph plain fuel explores i (env.deplist i) false s1) Leaving _ _
              (consider_loop_lem env n (run env fuel) fuel (run-Works env n graph fuel) graph.inside
                i (env.deplist i) false false s1 (o1 off) (λ d k. k)
                (λ _.
                  ap (λ r. (RuleState.remain r).wait_remain_cnt) (rule-update s i enter)
                  ∙ (h i).calm off))
              (loop_explore env n graph plain fuel explores i (env.deplist i) false false s1
                (o1 off) (entered_explore off).fine (edges1 off) around (λ d k. k)
                (plain.no_wait i))
              (λ x walked looped. considered_explore x off walked looped))
    ]
      where
        on :
            ((s.rule i).is_executed || (s.rule i).is_executing) ≡ true
            → (s.rule i).is_executing ≡ true
        on e = elim (Bool-cases (s.rule i).is_executing) [
          | inl x ↦ x
          | inr x ↦ absurd (cc ((h i).queued_executing ((h i).executed_queued (ground arith)), x))
        ]

        idle :
            ((s.rule i).is_executed || (s.rule i).is_executing) ≡ false
            → (s.rule i).is_executing ≡ false
        idle e = ground arith

        s1 : State W
        s1 = update s i enter

        around :
            (u : ℕ)
            → (s1.rule u).is_under_consideration ≡ true
            → (i ≡ u) ⊎ (plain.rank i < plain.rank u)
        around u under = elim (Bool-cases (i == u)) [
          | inl e ↦ inl (is_same env i u e)
          | inr e ↦ inr (
              above u (
                sym (ap RuleState.is_under_consideration (rule-update_other s i enter u e))
                ∙ under))
        ]

  pub run_explore : (fuel : ℕ) → Explores env n graph plain fuel
  unfolding run handle
  run_explore zero i s h fine edges above l m = tt
  run_explore (suc fuel) i s h fine edges above l m =
      consider_explore fuel (run_explore fuel) i s h fine edges above l m
