-- ===== src/Sched/Wakes.antt =====
-- mark_executed and reconsider, called while no rule that executes lacks a reason to wait.
use stirmake.Prelude.{
  ℕ, suc, ◌*◌, ◌<◌, ◌≤◌, ◌≡◌, ◌⊎◌, refl, sym, ap, subst, ◌∙◌, ltb, Bool, true, false, not, ◌&&◌,
  Bool-cases, List-cases, inl, inr, ◌∷◌, arith,
}
use stirmake.Cycle.Graph.{Leads}
use stirmake.Remain.{deps_remain_has}
use stirmake.Remain.Counts.{deps_remain_some}
use stirmake.Sched.{
  RuleState, State, Env, call_reconsider, call_mark_executed, update, leave, do_exec, reconsidered,
  wake, run,
}
use stirmake.Prelude.Results.{Gives, Gives-and_then, Gives-imp, Gives-both}
use stirmake.Sched.Invariant.{executed, Inv, AllGrow, AllGrow-update, rule-update}
use stirmake.Sched.Updates.{
  queue_rule, open_rule, Grows-queue, Grows-open, Inv-queue, Inv-open, none_remain,
}
use stirmake.Sched.Measure.{measure, measure_le}
use stirmake.Sched.Visit.{Good, need, IsVisited, do_exec_lem}
use stirmake.Sched.Loops.{IsOpen, IsOpen-IsVisited, reconsider_loop_lem}
use stirmake.Sched.Safe.{IsGraph, run-Works}
use stirmake.Sched.Settled.{
  IsPlain, HasEdges, HasEdges-Sheds, Sheds, Sheds-trans, Sheds-update, Unqueued, Unqueued-AllGrow,
  pointwise-update,
}
use stirmake.Sched.Branches.{IsGone, do_exec-Gives}
use stirmake.Sched.Explore.Leave.{close, queued_leave, executing_leave}
use stirmake.Sched.Awake.{
  AllSame, Fed, Fed-update, Full, Woken, Woken-refl, Woken-trans, Full-Woken, Woken-AllSame,
  loop_same,
}

module _ {W : Type 0} (env : Env W) (n : ℕ) (graph : IsGraph env n) (plain : IsPlain env) where
  -- What a state has for these calls.
  pub record Lively (s : State W) : Type 0 where
    pub inv : Inv env s
    pub full : Full env s
    pub edges : HasEdges env s
    pub fed : Fed s

  pub Lively-Woken : (s t : State W) → Inv env t → AllGrow s t → Woken s t → Lively s → Lively t
  Lively-Woken s t h g w o = record {
    inv = h;
    full = Full-Woken env s t w o.full;
    edges = HasEdges-Sheds env s t (Unqueued-AllGrow s t g) w.sheds o.edges;
    fed = w.fed;
  }

  abbrev pub Marks : ℕ → Type 0
  Marks fuel =
      (i : ℕ) (was : Bool) (s : State W)
      → Lively s
      → i < n
      → executed s i ≡ false
      → (s.rule i).is_queued ≡ true
      → 3 * measure n s ≤ fuel
      → Gives (λ (b, t). Woken s t) (run env fuel (call_mark_executed i was) s)

  abbrev pub Reconsiders : ℕ → Type 0
  Reconsiders fuel =
      (j i : ℕ) (s : State W)
      → Lively s
      → j < n
      → Leads i (env.deplist j)
      → executed s i ≡ true
      → suc (suc (3 * measure n s)) ≤ fuel
      → Gives (λ (b, t). Woken s t × IsGone j i t) (run env fuel (call_reconsider j i) s)

  module _ (fuel : ℕ) (marks : Marks fuel) where
    do_exec_awake :
        (i : ℕ) (s : State W)
        → Lively s
        → i < n
        → (s.rule i).is_executing ≡ true
        → ((d : ℕ) → Leads d (env.deplist i) → executed s d ≡ true)
        → 3 * measure n s ≤ fuel
        → Gives
            (λ (b, t). Woken s t × ((t.rule i).is_queued ≡ true))
            (do_exec env (run env fuel) i s)
    do_exec_awake i s o l on all m =
        do_exec-Gives env (run env fuel) (λ t. Woken s t × ((t.rule i).is_queued ≡ true)) i s
          (λ q. (Woken-refl s o.fed, q))
          (λ js world e. (
            record { executing = woken_q.executing; sheds = woken_q.sheds; fed = woken_q.fed },
            queued_q,
          ))
          (λ world e.
            let q' : State W = record q { world = world } in
            let lq : Lively q' = record {
              inv = lively_q.inv;
              full = lively_q.full;
              edges = lively_q.edges;
              fed = lively_q.fed;
            } in
            let fresh = not_executed e in
            let m' : 3 * measure n q' ≤ fuel = omega (arith, m, measure_le n s q' grown) in
            Gives-imp (λ x. Good env n q' x × Woken q' x.1)
              (λ (b, t). Woken s t × ((t.rule i).is_queued ≡ true)) _
              (λ (b, t) ((ht, gt, ft), w). (
                Woken-trans s q t (Unqueued-AllGrow q t gt) woken_q
                    (record { executing = w.executing; sheds = w.sheds; fed = w.fed }),
                (gt i).queued queued_q,
              ))
              (Gives-both (Good env n q') (λ x. Woken q' x.1) _
                (run-Works env n graph fuel (call_mark_executed i false) q' lq.inv
                  (l, fresh, queued_q) (unfold need in m'))
                (marks i false q' lq l fresh queued_q m')))
      where
        q : State W
        q = update s i queue_rule

        grown : AllGrow s q
        grown = AllGrow-update s i queue_rule (Grows-queue env s o.inv i)

        queued_q : (q.rule i).is_queued ≡ true
        queued_q = ap RuleState.is_queued (rule-update s i queue_rule)

        executing_q : (j : ℕ) → (q.rule j).is_executing ≡ (s.rule j).is_executing
        executing_q =
            pointwise-update (λ r r'. r'.is_executing ≡ r.is_executing) s i queue_rule (λ r. refl)
              refl

        not_executed : (s.rule i).is_queued ≡ false → executed q i ≡ false
        not_executed e = elim (Bool-cases (s.rule i).is_executed) [
          | inl x ↦ absurd (cc ((o.inv i).executed_queued x))
          | inr x ↦ ap RuleState.is_executed (rule-update s i queue_rule) ∙ x
        ]

        woken_q : Woken s q
        woken_q = record {
          executing = executing_q;
          sheds = Sheds-update s i queue_rule refl refl;
          fed = Fed-update s i queue_rule (λ j _. o.fed j) (λ on_j out fresh. absurd cc);
        }

        lively_q : Lively q
        lively_q = Lively-Woken s q (Inv-queue env s o.inv i on all) grown woken_q o

    module _ (i : ℕ) (s : State W) (h : Inv env s) (full : Full env s) (edges : HasEdges env s)
        (fed : Fed (update s i open_rule)) (l : i < n) (on : (s.rule i).is_executing ≡ true)
        (m : suc (3 * measure n s) ≤ fuel) where
      abbrev opened : State W
      opened = update s i open_rule

      grown_opened : AllGrow s opened
      grown_opened = AllGrow-update s i open_rule (Grows-open env s h i)

      Sheds-opened : Sheds s opened
      Sheds-opened = Sheds-update s i open_rule refl refl

      executing_opened : (j : ℕ) → (opened.rule j).is_executing ≡ (s.rule j).is_executing
      executing_opened =
          pointwise-update (λ r r'. r'.is_executing ≡ r.is_executing) s i open_rule (λ r. refl) refl

      Lively-opened : Lively opened
      Lively-opened = record {
        inv = Inv-open env s h i on;
        full = λ j d k e. executing_opened d ∙ full j d (sym (executing_opened j) ∙ k) e;
        edges =
            HasEdges-Sheds env s opened (Unqueued-AllGrow s opened grown_opened) Sheds-opened edges;
        fed = fed;
      }

      IsOpen-opened :
          IsOpen env n (run env fuel) fuel (run-Works env n graph fuel) graph.inside i opened
      IsOpen-opened = record {
        inv = Lively-opened.inv;
        executing = executing_opened i ∙ on;
        under = ap RuleState.is_under_consideration (rule-update s i open_rule);
        fuel = omega (arith, m, measure_le n s opened grown_opened);
      }

      -- The rule stops being under consideration.
      closing :
          (u : State W)
          → Unqueued opened u
          → Woken opened u
          → ((u.rule i).is_queued ≡ true) ⊎ ((d : ℕ) × (deps_remain_has (u.rule i).remain d ≡ true))
          → Woken s (leave i u)
      closing u back w reason = record {
        executing = λ j. executing_leave env i u j ∙ w.executing j ∙ executing_opened j;
        sheds =
            Sheds-trans s u (leave i u) (λ j q. sym (queued_leave env i u j) ∙ q)
              (Sheds-trans s opened u back Sheds-opened w.sheds) (Sheds-update u i close refl refl);
        fed =
            Fed-update u i close (λ j _. w.fed j)
              (λ on_i out fresh. elim reason [ inl q ↦ absurd (cc (q, fresh)) | inr x ↦ x ]);
      }

      reconsidered_awake :
          (t : State W)
          → IsVisited env n i opened t
          → AllSame opened t
          → Gives
              (λ (b, u). Woken s u)
              (reconsidered env (run env fuel) i (ltb 0 (s.rule i).remain.deps_remain_cnt) t)
      unfolding reconsidered
      reconsidered_awake t v a =
          let o =
            IsOpen-IsVisited env n (run env fuel) fuel (run-Works env n graph fuel) graph.inside i
              opened t IsOpen-opened v in
          let w = Woken-AllSame opened t a fed in
          let back = Unqueued-AllGrow opened t v.grown in
          elim (Bool-cases
            (not (ltb 0 (s.rule i).remain.deps_remain_cnt) && not (t.rule i).is_queued)) [
              | inr e ↦ rw (e, reconsidered) (closing t back w (reason t a e))
              | inl e ↦
                  let all : (d : ℕ) → Leads d (env.deplist i) → executed t d ≡ true = λ d k.
                    (v.grown d).executed (
                      (grown_opened d).executed
                        (none_remain env s h i (no_more _ (t.rule i).is_queued e) d k)) in
                  rw (e, reconsidered)
                    (Gives-and_then (Good env n t)
                      (λ (b, u). Woken t u × ((u.rule i).is_queued ≡ true)) (λ (b, u). Woken s u) _
                      _
                      (do_exec_lem env n (run env fuel) fuel (run-Works env n graph fuel) i t v.inv
                        l o.executing all (omega (arith, o.fuel)))
                      (do_exec_awake i t (Lively-Woken opened t v.inv v.grown w Lively-opened) l
                        o.executing all (omega (arith, o.fuel)))
                      (λ (b, u) (hu, gu, fu) (w', q).
                        closing u (λ j e. back j (Unqueued-AllGrow t u gu j e))
                          (Woken-trans opened t u (Unqueued-AllGrow t u gu) w w') (inl q)))
            ]
        where
          no_more : (c : ℕ) (q : Bool) → (not (ltb 0 c) && not q) ≡ true → c ≡ 0
          no_more c q e = ground arith

          reason :
              (t : State W)
              → AllSame opened t
              → (not (ltb 0 (s.rule i).remain.deps_remain_cnt) && not (t.rule i).is_queued) ≡ false
              → ((t.rule i).is_queued ≡ true)
                ⊎ ((d : ℕ) × (deps_remain_has (t.rule i).remain d ≡ true))
          reason t a e = elim (Bool-cases (t.rule i).is_queued) [
            | inl q ↦ inl q
            | inr q ↦
                let (d, has) = deps_remain_some (s.rule i).remain (h i).counted (ground arith) in
                inr (
                  d,
                  (a i).back d (
                      ap (λ r. deps_remain_has (RuleState.remain r) d) (rule-update s i open_rule)
                      ∙ has),
                )
          ]

      pub wake_awake : Gives (λ (b, u). Woken s u) (wake env (run env fuel) i s)
      unfolding wake
      wake_awake = elim (List-cases (s.rule i).waitloc) [
        | inl e ↦ rw (e, wake) tt
        | inr (x, xs, e) ↦
            let sub : (d : ℕ) → Leads d (x ∷ xs) → Leads d (env.deplist i) =
              λ d k. (h i).located d (subst (Leads d) (sym e) k) in
            rw (e, wake)
              (Gives-and_then (IsVisited env n i opened) (λ t. AllSame opened t)
                (λ (b, u). Woken s u) _ _
                (reconsider_loop_lem env n (run env fuel) fuel (run-Works env n graph fuel)
                  graph.inside i (x ∷ xs) opened IsOpen-opened sub)
                (loop_same env fuel i (x ∷ xs) opened
                  (λ d k. executing_opened d ∙ full i d on (sub d k)))
                (λ t v a. reconsidered_awake t v a))
      ]
