-- ===== src/Sched/Quiet.antt =====
-- mark_executed, where no rule waits for the one that is marked: nothing is woken.
use stirmake.Prelude.{
  ℕ, zero, suc, ◌≡◌, refl, sym, ap, subst, ◌∙◌, ◌==◌, ==-refl, if◌then◌else◌, Bool, true, false,
  not, ◌||◌, Bool-cases, inl, inr, All, arith,
}
use stirmake.Cycle.Graph.{Leads}
use stirmake.Remain.{deps_remain_has}
use stirmake.Remain.Counts.{deps_remain_erase-IsCounted}
use stirmake.Sched.{
  RuleState, State, Env, Call, call_reconsider, call_mark_executed, update, reconsider, do_exec,
  handle, run,
}
use stirmake.Prelude.Results.{Outcome, Gives, Gives-imp}
use stirmake.Sched.Invariant.{executed, Inv, AllGrow-update, rule-update, rule-update_other}
use stirmake.Sched.Updates.{
  set_remain, queue_rule, mark_rule, Grows-queue, Inv-queue, Inv-erase, Inv-mark,
}
use stirmake.Sched.Branches.{
  IsGone, do_exec-Gives, reconsider_all-Gives, mark_executed-Gives, Sheds-mark,
}
use stirmake.Sched.Settled.{
  IsPlain, Sheds, Sheds-AllSlim, In, Slims, Stays, Slims-refl, Slims-trans, Stays-refl, Stays-trans,
  AllSlim, AllStay, HasEdges, HasEdges-Sheds, Sheds-trans, Sheds-update, Unqueued-AllGrow,
  pointwise-update,
}

module _ {W : Type 0} (env : Env W) where
  -- No settled rule depends on `i`.
  abbrev pub IsQuiet : ℕ → State W → Type 0
  IsQuiet i s =
      (j : ℕ)
      → (s.rule j).is_executing ≡ true
      → (s.rule j).is_under_consideration ≡ false
      → Leads i (env.deplist j)
      → ⊥

  pub record Thinned (s t : State W) : Type 0 where
    pub inv : Inv env t
    pub slim : AllSlim s t
    pub stay : AllStay s t

  Thinned-refl : (s : State W) → Inv env s → Thinned s s
  Thinned-refl s h = record {
    inv = h;
    slim = λ j. Slims-refl (s.rule j);
    stay = λ j. Stays-refl (s.rule j);
  }

  Thinned-trans : (s t u : State W) → Thinned s t → Thinned t u → Thinned s u
  Thinned-trans s t u a b = record {
    inv = b.inv;
    slim = λ j. Slims-trans (a.slim j) (b.slim j);
    stay = λ j. Stays-trans (λ e. (a.slim j).executing ∙ e) (a.slim j).under (a.stay j) (b.stay j);
  }

  IsGone-Thinned : (j i : ℕ) (t u : State W) → Thinned t u → IsGone j i t → IsGone j i u
  IsGone-Thinned j i t u a gone q = elim (Bool-cases (deps_remain_has (u.rule j).remain i)) [
    | inl x ↦ absurd (cc (gone (sym (a.slim j).queued ∙ q), (a.slim j).has i x))
    | inr x ↦ x
  ]

  reconsider_quiet :
      (self : Call → State W → Outcome (Bool × State W)) (j i : ℕ) (s : State W)
      → Inv env s
      → executed s i ≡ true
      → Leads i (env.deplist j)
      → IsQuiet i s
      → Gives (λ (b, t). Thinned s t × IsGone j i t) (reconsider env self j i s)
  unfolding reconsider
  reconsider_quiet self j i s h ran edge quiet = elim (Bool-cases (s.rule j).is_executed) [
    | inl e ↦ rw (e, reconsider) (Thinned-refl s h, λ q. absurd (cc ((h j).executed_queued e)))
    | inr e ↦
        let (m, q, counted, has) = deps_remain_erase-IsCounted (s.rule j).remain i (h j).counted in
        let t = update s j (set_remain m) in
        elim (Bool-cases (not (s.rule j).is_executing || (s.rule j).is_under_consideration)) [
          | inr x ↦ absurd (quiet j (active x).0 (active x).1 edge)
          | inl x ↦
              rw (e, q, reconsider, x)
                (
                  record {
                    inv = Inv-erase env s h j i m q ran has counted;
                    slim = pointwise-update Slims s j (set_remain m) Slims-refl (record {
                      executed = refl;
                      executing = refl;
                      queued = refl;
                      under = refl;
                      has = λ d k. kept d (has d) k;
                    });
                    stay = pointwise-update Stays s j (set_remain m) Stays-refl (record {
                      executed = λ _. refl;
                      settled = λ on off. absurd (quiet j on off edge);
                    });
                  },
                  λ _.
                      ap (λ r. deps_remain_has (RuleState.remain r) i)
                        (rule-update s j (set_remain m))
                      ∙ has i
                      ∙ ap (λ b. if b then false else deps_remain_has (s.rule j).remain i)
                          (==-refl i),
                )
        ]
  ]
    where
      active :
          (not (s.rule j).is_executing || (s.rule j).is_under_consideration) ≡ false
          → ((s.rule j).is_executing ≡ true) × ((s.rule j).is_under_consideration ≡ false)
      active x = ground arith

      kept : (d : ℕ) {a c : Bool} → a ≡ (if i == d then false else c) → a ≡ true → c ≡ true
      kept d p k = ground arith

  run_quiet :
      (fuel j i : ℕ) (s : State W)
      → Inv env s
      → executed s i ≡ true
      → Leads i (env.deplist j)
      → IsQuiet i s
      → Gives (λ (b, t). Thinned s t × IsGone j i t) (run env fuel (call_reconsider j i) s)
  unfolding run handle
  run_quiet zero j i s h ran edge quiet = tt
  run_quiet (suc fuel) j i s h ran edge quiet =
      reconsider_quiet (run env fuel) j i s h ran edge quiet

  module _ (plain : IsPlain env) where
    mark_executed_quiet :
        (fuel i : ℕ) (s : State W)
        → Inv env s
        → HasEdges env s
        → IsQuiet i s
        → (s.rule i).is_queued ≡ true
        → All (λ j. Leads i (env.deplist j)) (env.dependents i)
        → Gives
            (λ (b, t). Thinned (update s i (mark_rule false)) t × Sheds s t)
            (run env fuel (call_mark_executed i false) s)
    unfolding run handle
    mark_executed_quiet zero i s h edges quiet q a = tt
    mark_executed_quiet (suc fuel) i s h edges quiet q a =
        mark_executed-Gives env (run env fuel) (λ t. Thinned s1 t × Sheds s t) i false s
          (λ js world off.
            let s2 : State W = record s1 { world = world; rules_remain_list = js } in
            Gives-imp (λ (b, t). Thinned s2 t × ((j : ℕ) → In j (env.dependents i) → IsGone j i t))
              (λ (b, t). Thinned s1 t × Sheds s t) _
              (λ (b, t) (thin, gone). (
                record { inv = thin.inv; slim = thin.slim; stay = thin.stay },
                Sheds-mark env plain i false s t edges
                    (λ j e. sym (queued_s1 j) ∙ sym (thin.slim j).queued ∙ e)
                    (Sheds-AllSlim s1 t thin.slim) gone,
              ))
              (reconsider_all-Gives env (run env fuel) (λ j. Leads i (env.deplist j)) C Thinned i
                (env.dependents i) s2 (λ t c. Thinned-refl t c.0) Thinned-trans
                (λ j t u. IsGone-Thinned j i t u)
                (λ j t (ht, on, calm) edge.
                  Gives-imp (λ (b, u). Thinned t u × IsGone j i u)
                    (λ (b, u). C u × Thinned t u × IsGone j i u) _
                    (λ (b, u) (thin, gone). (
                      (
                        thin.inv,
                        (thin.slim i).executed ∙ on,
                        λ k e f.
                            calm k (sym (thin.slim k).executing ∙ e) (sym (thin.slim k).under ∙ f),
                      ),
                      thin,
                      gone,
                    ))
                    (run_quiet fuel j i t ht on edge calm))
                (
                  Inv-mark env s h i false q,
                  ap RuleState.is_executed (rule-update s i (mark_rule false)),
                  λ k e f. quiet k (sym (executing_s1 k) ∙ e) (sym (under_s1 k) ∙ f),
                )
                a))
      where
        s1 : State W
        s1 = update s i (mark_rule false)

        C : State W → Type 0
        C t = Inv env t × (executed t i ≡ true) × IsQuiet i t

        queued_s1 : (j : ℕ) → (s1.rule j).is_queued ≡ (s.rule j).is_queued
        queued_s1 =
            pointwise-update (λ r r'. r'.is_queued ≡ r.is_queued) s i (mark_rule false) (λ r. refl)
              refl

        executing_s1 : (j : ℕ) → (s1.rule j).is_executing ≡ (s.rule j).is_executing
        executing_s1 =
            pointwise-update (λ r r'. r'.is_executing ≡ r.is_executing) s i (mark_rule false)
              (λ r. refl) refl

        under_s1 : (j : ℕ) → (s1.rule j).is_under_consideration ≡ (s.rule j).is_under_consideration
        under_s1 =
            pointwise-update (λ r r'. r'.is_under_consideration ≡ r.is_under_consideration) s i
              (mark_rule false) (λ r. refl) refl

    -- What do_exec leaves of the other rules; the rule itself is queued.
    pub record Did (i : ℕ) (s t : State W) : Type 0 where
      pub others :
          (j : ℕ) → (i == j) ≡ false → Slims (s.rule j) (t.rule j) × Stays (s.rule j) (t.rule j)
      pub queued : (t.rule i).is_queued ≡ true
      pub sheds : Sheds s t

    pub do_exec_quiet :
        (fuel i : ℕ) (s : State W)
        → Inv env s
        → HasEdges env s
        → IsQuiet i s
        → (s.rule i).is_executing ≡ true
        → ((d : ℕ) → Leads d (env.deplist i) → executed s d ≡ true)
        → All (λ j. Leads i (env.deplist j)) (env.dependents i)
        → Gives (λ (b, t). Did i s t) (do_exec env (run env fuel) i s)
    do_exec_quiet fuel i s h edges quiet on all a =
        do_exec-Gives env (run env fuel) (Did i s) i s
          (λ q. record {
            others = λ j ne. (Slims-refl (s.rule j), Stays-refl (s.rule j));
            queued = q;
            sheds = Sheds-AllSlim s s (λ j. Slims-refl (s.rule j));
          })
          (λ js world e. record {
            others = λ j ne. (
              subst (Slims (s.rule j)) (sym (rule-update_other s i queue_rule j ne))
                  (Slims-refl (s.rule j)),
              subst (Stays (s.rule j)) (sym (rule-update_other s i queue_rule j ne))
                  (Stays-refl (s.rule j)),
            );
            queued = queued_q;
            sheds = sheds_q;
          })
          (λ world e.
            let q' = at world in
            Gives-imp (λ (b, t). Thinned (update q' i (mark_rule false)) t × Sheds q' t)
              (λ (b, t). Did i s t) _
              (λ (b, t) (thin, sheds). record {
                others = λ j ne. (
                  subst (λ r. Slims r (t.rule j)) (both world j ne) (thin.slim j),
                  subst (λ r. Stays r (t.rule j)) (both world j ne) (thin.stay j),
                );
                queued = (thin.slim i).queued ∙ kept_queued world i ∙ queued_q;
                sheds =
                    Sheds-trans s q t
                      (λ j e. sym (kept_queued world j) ∙ sym (thin.slim j).queued ∙ e) sheds_q
                      sheds;
              })
              (mark_executed_quiet fuel i q' (Inv-queue env s h i on all)
                (HasEdges-Sheds env s q
                  (Unqueued-AllGrow s q (AllGrow-update s i queue_rule (Grows-queue env s h i)))
                  sheds_q edges)
                (λ j e f. quiet j (sym (executing_q j) ∙ e) (sym (under_q j) ∙ f)) queued_q a))
      where
        q : State W
        q = update s i queue_rule

        queued_q : (q.rule i).is_queued ≡ true
        queued_q = ap RuleState.is_queued (rule-update s i queue_rule)

        sheds_q : Sheds s q
        sheds_q = Sheds-update s i queue_rule refl refl

        at : W → State W
        at world = record q { world = world }

        both :
            (world : W) (j : ℕ)
            → (i == j) ≡ false
            → (update (at world) i (mark_rule false)).rule j ≡ s.rule j
        both world j ne =
            rule-update_other (at world) i (mark_rule false) j ne
            ∙ rule-update_other s i queue_rule j ne

        kept_queued :
            (world : W) (j : ℕ)
            → ((update (at world) i (mark_rule false)).rule j).is_queued ≡ (q.rule j).is_queued
        kept_queued world =
            pointwise-update (λ r r'. r'.is_queued ≡ r.is_queued) (at world) i (mark_rule false)
              (λ r. refl) refl

        executing_q : (j : ℕ) → (q.rule j).is_executing ≡ (s.rule j).is_executing
        executing_q =
            pointwise-update (λ r r'. r'.is_executing ≡ r.is_executing) s i queue_rule (λ r. refl)
              refl

        under_q : (j : ℕ) → (q.rule j).is_under_consideration ≡ (s.rule j).is_under_consideration
        under_q =
            pointwise-update (λ r r'. r'.is_under_consideration ≡ r.is_under_consideration) s i
              queue_rule (λ r. refl) refl
