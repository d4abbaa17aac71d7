-- ===== src/Sched/Explore/Leave.antt =====
-- The end of consider: what it leaves of the rules, from the loop and the call of do_exec.
use stirmake.Prelude.{
  ℕ, ◌≡◌, ◌⊎◌, refl, sym, ap, subst, ◌∙◌, ◌==◌, true, false, Bool-cases, inl, inr, arith,
}
use stirmake.Cycle.Graph.{Leads}
use stirmake.Sched.{RuleState, State, Env, update, enter, leave}
use stirmake.Sched.Invariant.{executed, AllGrow, rule-update, rule-update_other}
use stirmake.Sched.Settled.{
  Slims, Stays, Stays-trans, Sheds, Sheds-trans, Sheds-update, Unqueued-AllGrow, pointwise-update,
}
use stirmake.Sched.Explore.{Done, Pends, Fine, AllFine, Explored}

abbrev pub close : RuleState → RuleState
close r = record r { is_under_consideration = false }

module _ {W : Type 0} (env : Env W) (i : ℕ) where
  -- The loop has come to `t`, and do_exec to `u`, if it was called.
  pub record Leaves (t u : State W) : Type 0 where
    pub under : (t.rule i).is_under_consideration ≡ true
    pub fine : AllFine env t
    pub deps : (d : ℕ) → Leads d (env.deplist i) → Done d t
    pub grown : AllGrow t u
    pub kept : (j : ℕ) → (u.rule j).is_under_consideration ≡ (t.rule j).is_under_consideration
    pub others :
        (j : ℕ) → (i == j) ≡ false → Slims (t.rule j) (u.rule j) × Stays (t.rule j) (u.rule j)
    pub sheds : Sheds t u
    pub reason : ((u.rule i).is_queued ≡ true) ⊎ Pends env i u

  pub is_same : (j : ℕ) → (i == j) ≡ true → i ≡ j
  is_same j e = ground arith

  pub executed_leave : (u : State W) (d : ℕ) → executed (leave i u) d ≡ executed u d
  executed_leave u =
      pointwise-update (λ r r'. r'.is_executed ≡ r.is_executed) u i close (λ r. refl) refl

  pub queued_leave : (u : State W) (j : ℕ) → ((leave i u).rule j).is_queued ≡ (u.rule j).is_queued
  queued_leave u = pointwise-update (λ r r'. r'.is_queued ≡ r.is_queued) u i close (λ r. refl) refl

  pub executing_leave :
      (u : State W) (j : ℕ) → ((leave i u).rule j).is_executing ≡ (u.rule j).is_executing
  executing_leave u =
      pointwise-update (λ r r'. r'.is_executing ≡ r.is_executing) u i close (λ r. refl) refl

  Done-Leaves : (t u : State W) (d : ℕ) → Leaves t u → Done d t → Done d (leave i u)
  Done-Leaves t u d v (on, off) = (
    executing_leave u d ∙ (v.grown d).executing on,
    elim (Bool-cases (i == d)) [
      | inl e ↦
          subst (λ k. ((leave i u).rule k).is_under_consideration ≡ false) (is_same d e)
            (ap RuleState.is_under_consideration (rule-update u i close))
      | inr e ↦
          ap RuleState.is_under_consideration (rule-update_other u i close d e) ∙ v.kept d ∙ off
    ],
  )

  Fine-Leaves : (t u : State W) → Leaves t u → AllFine env (leave i u)
  Fine-Leaves t u v j on off = elim (Bool-cases (i == j)) [
    | inl e ↦ subst (Fine env (leave i u)) (is_same j e) (record {
      deps = λ d l. Done-Leaves t u d v (v.deps d l);
      reason = elim v.reason [
        | inl q ↦ inl (queued_leave u i ∙ q)
        | inr (d, l, ran) ↦ inr (d, l, executed_leave u d ∙ ran)
      ];
    })
    | inr e ↦
        let slim = (v.others j e).0 in
        let same = rule-update_other u i close j e in
        let fine =
          v.fine j (sym slim.executing ∙ sym (ap RuleState.is_executing same) ∙ on)
            (sym slim.under ∙ sym (ap RuleState.is_under_consideration same) ∙ off) in
        record {
          deps = λ d l. Done-Leaves t u d v (fine.deps d l);
          reason = elim fine.reason [
            | inl q ↦ inl (queued_leave u j ∙ slim.queued ∙ q)
            | inr (d, l, ran) ↦ inr (
              d,
              l,
              executed_leave u d ∙ (v.others d (apart d (fine.deps d l).1)).0.executed ∙ ran,
            )
          ];
        }
  ]
    where
      apart : (d : ℕ) → (t.rule d).is_under_consideration ≡ false → (i == d) ≡ false
      apart d off = elim (Bool-cases (i == d)) [
        | inl x ↦
            absurd (cc (ap (λ k. (t.rule k).is_under_consideration) (is_same d x), off, v.under))
        | inr x ↦ x
      ]

  -- From the state before consider.
  pub Explored-Leaves :
      (s t u : State W)
      → (s.rule i).is_executing ≡ false
      → (let s1 = update s i enter in
          Explored env s1 t
          × ((j : ℕ) → (t.rule j).is_under_consideration ≡ (s1.rule j).is_under_consideration)
          × AllGrow s1 t)
      → Leaves t u
      → Explored env s (leave i u)
  Explored-Leaves s t u off (x, kept, g) v = record {
    stay = λ j. elim (Bool-cases (i == j)) [
      | inl e ↦
          subst (λ k. Stays (s.rule k) ((leave i u).rule k)) (is_same j e)
            (record {
              executed = λ on. absurd (cc (on, off));
              settled = λ on. absurd (cc (on, off));
            })
      | inr e ↦
          let first = rule-update_other s i enter j e in
          subst (Stays (s.rule j)) (sym (rule-update_other u i close j e)) (
            subst (λ r. Stays r (u.rule j)) first
              (Stays-trans (g j).executing (kept j) (x.stay j) (v.others j e).1))
    ];
    sheds =
        Sheds-trans s u (leave i u) (λ j q. sym (queued_leave u j) ∙ q)
          (Sheds-trans s t u (Unqueued-AllGrow t u v.grown)
            (Sheds-trans s (update s i enter) t (Unqueued-AllGrow (update s i enter) t g)
              (Sheds-update s i enter refl refl) x.sheds)
            v.sheds)
          (Sheds-update u i close refl refl);
    fine = Fine-Leaves t u v;
  }
