-- ===== src/Sched/Runs.antt =====
-- mark_executed and reconsider, to any depth of calls.
use stirmake.Prelude.{
  ℕ, zero, suc, ◌*◌, ◌<◌, ◌≤◌, ◌≡◌, refl, sym, ap, ◌∙◌, ◌==◌, ==-refl, if◌then◌else◌, Bool, true,
  false, not, ◌||◌, Bool-cases, inl, inr, arith,
}
use stirmake.Cycle.Graph.{Leads}
use stirmake.Remain.{deps_remain_has}
use stirmake.Remain.Counts.{deps_remain_erase-IsCounted}
use stirmake.Sched.{
  RuleState, State, Env, call_reconsider, update, reconsider, mark_executed, handle, run,
}
use stirmake.Prelude.Results.{Gives, Gives-both, Gives-imp}
use stirmake.Sched.Invariant.{
  executed, Inv, AllGrow, Grows-refl, Grows-trans, AllGrow-update, rule-update,
}
use stirmake.Sched.Updates.{
  open_rule, mark_rule, set_remain, Grows-mark, Grows-set_remain, Inv-mark, Inv-erase,
}
use stirmake.Sched.Measure.{measure, measure_le, measure_executed}
use stirmake.Sched.Visit.{Good, need}
use stirmake.Sched.Reconsider.{wake_lem}
use stirmake.Sched.Safe.{IsGraph, run-Works}
use stirmake.Sched.Settled.{
  In, IsPlain, Slims, Slims-refl, AllSlim, HasEdges, HasEdges-Sheds, Sheds, Sheds-AllSlim,
  Sheds-trans, Unqueued, Unqueued-AllGrow, pointwise-update,
}
use stirmake.Sched.Branches.{IsGone, reconsider_all-Gives, mark_executed-Gives, Sheds-mark}
use stirmake.Sched.Awake.{Fed, Fed-update, FedBut-update, Full, Woken, Woken-refl, Woken-trans}
use stirmake.Sched.Wakes.{Lively, Lively-Woken, Marks, Reconsiders, wake_awake}

IsGone-Sheds :
    {W : Type 0} (j i : ℕ) (t u : State W) → Unqueued t u → Sheds t u → IsGone j i t → IsGone j i u
IsGone-Sheds j i t u back sheds gone q = elim (Bool-cases (deps_remain_has (u.rule j).remain i)) [
  | inl x ↦ absurd (cc (gone (back j q), (sheds j i q x).0))
  | inr x ↦ x
]

module _ {W : Type 0} (env : Env W) (n : ℕ) (graph : IsGraph env n) (plain : IsPlain env)
    (fuel : ℕ) where
  mark_executed_awake :
      Reconsiders env n graph plain fuel
      → (i : ℕ) (was : Bool) (s : State W) → Lively env n graph plain s
      → i < n
      → executed s i ≡ false
      → (s.rule i).is_queued ≡ true
      → 3 * measure n s ≤ suc fuel
      → Gives (λ (b, t). Woken s t) (mark_executed env (run env fuel) i was s)
  mark_executed_awake wakes i was s o l fresh queued m =
      mark_executed-Gives env (run env fuel) (λ t. Woken s t) i was s
        (λ js world off.
          let s2 : State W = record s1 { world = world; rules_remain_list = js } in
          Gives-imp (λ (b, t). R s2 t × ((j : ℕ) → In j (env.dependents i) → IsGone j i t))
            (λ (b, t). Woken s t) _
            (λ (b, t) ((g, w), gone). record {
              executing = λ j. w.executing j ∙ executing_s1 j;
              sheds =
                  Sheds-mark env plain i was s t o.edges
                    (λ j q. sym (queued_s1 j) ∙ Unqueued-AllGrow s1 t g j q) w.sheds gone;
              fed = w.fed;
            })
            (reconsider_all-Gives env (run env fuel) E C R i (env.dependents i) s2
              (λ t c. ((λ j. Grows-refl (t.rule j)), Woken-refl t c.0.fed))
              (λ t u v (g, w) (g', w').
                ((λ j. Grows-trans (g j) (g' j)), Woken-trans t u v (Unqueued-AllGrow u v g') w w'))
              (λ j t u (g, w) gone. IsGone-Sheds j i t u (Unqueued-AllGrow t u g) w.sheds gone)
              (λ j t (ot, on, mt) (lj, edge).
                Gives-imp (λ x. Good env n t x × (Woken t x.1 × IsGone j i x.1))
                  (λ (b, u). C u × R t u × IsGone j i u) _
                  (λ (b, u) ((hu, gu, fu), (w, gone)). (
                    (
                      Lively-Woken env n graph plain t u hu gu w ot,
                      (gu i).executed on,
                      omega (arith, mt, measure_le n t u gu),
                    ),
                    (gu, w),
                    gone,
                  ))
                  (Gives-both (Good env n t) (λ x. Woken t x.1 × IsGone j i x.1) _
                    (run-Works env n graph fuel (call_reconsider j i) t ot.inv (lj, edge, on)
                      (unfold need in mt))
                    (wakes j i t ot lj edge on mt)))
              (
                record {
                  inv = Inv-mark env s o.inv i was queued;
                  full = full_s1;
                  edges = edges_s1;
                  fed = fed_s1;
                },
                ran,
                omega (arith, m, measure_executed n s s2 i grown l fresh ran),
              )
              (graph.dependent i)))
    where
      s1 : State W
      s1 = update s i (mark_rule was)

      E : ℕ → Type 0
      E j = (j < n) × Leads i (env.deplist j)

      C : State W → Type 0
      C t =
          Lively env n graph plain t × (executed t i ≡ true) × (suc (suc (3 * measure n t)) ≤ fuel)

      R : State W → State W → Type 0
      R t u = AllGrow t u × Woken t u

      grown : AllGrow s s1
      grown = AllGrow-update s i (mark_rule was) (Grows-mark env s o.inv i was)

      ran : executed s1 i ≡ true
      ran = ap RuleState.is_executed (rule-update s i (mark_rule was))

      executing_s1 : (j : ℕ) → (s1.rule j).is_executing ≡ (s.rule j).is_executing
      executing_s1 =
          pointwise-update (λ r r'. r'.is_executing ≡ r.is_executing) s i (mark_rule was)
            (λ r. refl) refl

      queued_s1 : (j : ℕ) → (s1.rule j).is_queued ≡ (s.rule j).is_queued
      queued_s1 =
          pointwise-update (λ r r'. r'.is_queued ≡ r.is_queued) s i (mark_rule was) (λ r. refl) refl

      under_s1 : (j : ℕ) → (s1.rule j).is_under_consideration ≡ (s.rule j).is_under_consideration
      under_s1 =
          pointwise-update (λ r r'. r'.is_under_consideration ≡ r.is_under_consideration) s i
            (mark_rule was) (λ r. refl) refl

      remain_s1 : (j : ℕ) → (s1.rule j).remain ≡ (s.rule j).remain
      remain_s1 =
          pointwise-update (λ r r'. r'.remain ≡ r.remain) s i (mark_rule was) (λ r. refl) refl

      full_s1 : Full env s1
      full_s1 j d on e = executing_s1 d ∙ o.full j d (sym (executing_s1 j) ∙ on) e

      edges_s1 : HasEdges env s1
      edges_s1 j d q has =
          o.edges j d (sym (queued_s1 j) ∙ q)
            (ap (λ r. deps_remain_has r d) (sym (remain_s1 j)) ∙ has)

      fed_s1 : Fed s1
      fed_s1 j on out q =
          let (d, has) =
            o.fed j (sym (executing_s1 j) ∙ on) (sym (under_s1 j) ∙ out) (sym (queued_s1 j) ∙ q) in
          (d, ap (λ r. deps_remain_has r d) (remain_s1 j) ∙ has)

  reconsider_awake :
      Marks env n graph plain fuel
      → (j i : ℕ) (s : State W) → Lively env n graph plain s
      → j < n
      → Leads i (env.deplist j)
      → executed s i ≡ true
      → suc (suc (3 * measure n s)) ≤ suc fuel
      → Gives (λ (b, t). Woken s t × IsGone j i t) (reconsider env (run env fuel) j i s)
  unfolding reconsider
  reconsider_awake marks j i s o l edge ran m = elim (Bool-cases (s.rule j).is_executed) [
    | inl e ↦
        rw (e, reconsider) (Woken-refl s o.fed, λ q. absurd (cc ((o.inv j).executed_queued e)))
    | inr e ↦
        let (r, q, counted, has) =
          deps_remain_erase-IsCounted (s.rule j).remain i (o.inv j).counted in
        let w = set_remain r in
        let t = update s j w in
        let g : AllGrow s t = AllGrow-update s j w (Grows-set_remain env s o.inv j r) in
        let slim : AllSlim s t = pointwise-update Slims s j w Slims-refl (record {
          executed = refl;
          executing = refl;
          queued = refl;
          under = refl;
          has = λ d k. kept d (has d) k;
        }) in
        let ht : Inv env t = Inv-erase env s o.inv j i r q ran has counted in
        let sheds : Sheds s t = Sheds-AllSlim s t slim in
        let gone : IsGone j i t = λ _.
          ap (λ x. deps_remain_has (RuleState.remain x) i) (rule-update s j w)
          ∙ has i
          ∙ ap (λ b. if b then false else deps_remain_has (s.rule j).remain i) (==-refl i) in
        elim (Bool-cases (not (s.rule j).is_executing || (s.rule j).is_under_consideration)) [
          | inl x ↦
              let fed : Fed t =
                Fed-update s j w (λ k _. o.fed k) (λ on out fresh. absurd (idle x on out)) in
              rw (e, q, reconsider, x)
                (record { executing = λ k. (slim k).executing; sheds = sheds; fed = fed }, gone)
          | inr x ↦
              let (on, out) = active x in
              let mt : suc (3 * measure n t) ≤ fuel = omega (arith, m, measure_le n s t g) in
              let fed : Fed (update t j open_rule) =
                Fed-update t j open_rule (FedBut-update s j w (λ k _. o.fed k))
                  (λ on_j off fresh. absurd cc) in
              let edges = HasEdges-Sheds env s t (Unqueued-AllGrow s t g) sheds o.edges in
              let full : Full env t =
                λ k d on_k l. (slim d).executing ∙ o.full k d (sym (slim k).executing ∙ on_k) l in
              rw (e, q, reconsider, x)
                (Gives-imp (λ y. Good env n t y × Woken t y.1) (λ (b, u). Woken s u × IsGone j i u)
                  _
                  (λ (b, u) ((hu, gu, fu), v). (
                    record {
                      executing = λ k. v.executing k ∙ (slim k).executing;
                      sheds = Sheds-trans s t u (Unqueued-AllGrow t u gu) sheds v.sheds;
                      fed = v.fed;
                    },
                    IsGone-Sheds j i t u (Unqueued-AllGrow t u gu) v.sheds gone,
                  ))
                  (Gives-both (Good env n t) (λ y. Woken t y.1) _
                    (wake_lem env n (run env fuel) fuel (run-Works env n graph fuel) graph.inside j
                      t ht l ((slim j).executing ∙ on) ((slim j).under ∙ out)
                      ((g j).waitloc ((o.inv j).waiting on out i edge)) mt)
                    (wake_awake env n graph plain fuel marks j t ht full edges fed l
                      ((slim j).executing ∙ on) mt)))
        ]
  ]
    where
      idle :
          (not (s.rule j).is_executing || (s.rule j).is_under_consideration) ≡ true
          → (s.rule j).is_executing ≡ true
          → (s.rule j).is_under_consideration ≡ false
          → ⊥
      idle x on out = ground arith

      active :
          (not (s.rule j).is_executing || (s.rule j).is_under_consideration) ≡ false
          → ((s.rule j).is_executing ≡ true) × ((s.rule j).is_under_consideration ≡ false)
      active x = ground arith

      kept : (d : ℕ) {a c : Bool} → a ≡ (if i == d then false else c) → a ≡ true → c ≡ true
      kept d p k = ground arith

module _ {W : Type 0} (env : Env W) (n : ℕ) (graph : IsGraph env n) (plain : IsPlain env) where
  pub run_awake : (fuel : ℕ) → Marks env n graph plain fuel × Reconsiders env n graph plain fuel
  unfolding run handle
  run_awake zero = ((λ i was s o l fresh queued m. tt), λ j i s o l edge ran m. tt)
  run_awake (suc fuel) =
      let (marks, wakes) = run_awake fuel in
      (
        mark_executed_awake env n graph plain fuel wakes,
        reconsider_awake env n graph plain fuel marks,
      )
