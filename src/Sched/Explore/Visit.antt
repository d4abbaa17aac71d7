-- ===== src/Sched/Explore/Visit.antt =====
-- The visit of a dependency, where the calls of consider below leave what Explored says.
use stirmake.Prelude.{
  ℕ, suc, ◌*◌, ◌<◌, ◌≤◌, ◌≡◌, ◌⊎◌, refl, sym, subst, ◌∙◌, Bool, true, false, Bool-cases,
  Option-cases, inl, inr, none, some, arith,
}
use stirmake.UpToDate.{Stirdep}
use stirmake.Cycle.{dep_rule}
use stirmake.Cycle.Graph.{Leads}
use stirmake.Remain.{deps_remain_forwait}
use stirmake.Remain.Counts.{has-deps_remain_forwait}
use stirmake.Sched.{State, Env, call_consider, update, forwait, visit, run}
use stirmake.Prelude.Results.{Gives, Gives-and_then}
use stirmake.Sched.Invariant.{Grows, Inv, AllGrow-update}
use stirmake.Sched.Updates.{set_remain}
use stirmake.Sched.Measure.{measure}
use stirmake.Sched.Visit.{Good, need, dep_rule_of}
use stirmake.Sched.Loops.{IsOpen}
use stirmake.Sched.Safe.{IsGraph, run-Works}
use stirmake.Sched.Settled.{
  IsPlain, Slims, Slims-refl, Stays-refl, AllSlim, HasEdges, Sheds-AllSlim, pointwise-update,
}
use stirmake.Sched.Explore.{
  Done, Holds, AllFine, Explored, Explored-refl, Explored-trans, Explored-update,
}

module _ {W : Type 0} (env : Env W) (n : ℕ) (graph : IsGraph env n) (plain : IsPlain env) where
  -- The rules under consideration are above the rule.
  abbrev pub Above : ℕ → State W → Type 0
  Above i s = (u : ℕ) → (s.rule u).is_under_consideration ≡ true → plain.rank i < plain.rank u

  abbrev pub Explores : ℕ → Type 0
  Explores fuel =
      (i : ℕ) (s : State W)
      → Inv env s
      → AllFine env s
      → HasEdges env s
      → Above i s
      → i < n
      → suc (3 * measure n s) ≤ fuel
      → Gives (λ (b, t). Explored env s t × ((t.rule i).is_executing ≡ true))
          (run env fuel (call_consider i) s)

  module _ (fuel : ℕ) (explores : Explores fuel) (i : ℕ) where
    abbrev pub Opens : State W → Type 0
    Opens = IsOpen env n (run env fuel) fuel (run-Works env n graph fuel) graph.inside i

    -- The rule itself may be under consideration, too.
    abbrev pub Around : State W → Type 0
    Around s =
        (u : ℕ) → (s.rule u).is_under_consideration ≡ true → (i ≡ u) ⊎ (plain.rank i < plain.rank u)

    pub Above-Around : (d : ℕ) (s : State W) → Leads d (env.deplist i) → Around s → Above d s
    Above-Around d s l around u under = elim (around u under) [
      | inl p ↦ subst (λ k. plain.rank d < plain.rank k) p (plain.lower i d l)
      | inr p ↦ omega (arith, p, plain.lower i d l)
    ]

    not_under : (d : ℕ) (s : State W) → Above d s → (s.rule d).is_under_consideration ≡ false
    not_under d s above = elim (Bool-cases (s.rule d).is_under_consideration) [
      | inl x ↦ absurd (omega (arith, above d x))
      | inr x ↦ x
    ]

    -- The visit of a dependency.
    abbrev pub Seen : Stirdep → State W → Bool × Bool × State W → Type 0
    Seen e s (execed, waits, t) =
        Explored env s t
        × (waits ≡ true → Holds env i t)
        × ((d : ℕ) → dep_rule e ≡ some d → Done d t)

    forwait_explore :
        (d : ℕ) (e : Stirdep) (execed : Bool) (s t : State W)
        → Opens s
        → Leads d (env.deplist i)
        → ((k : ℕ) → dep_rule e ≡ some k → d ≡ k)
        → Good env n s (execed, t)
        → Explored env s t
        → Done d t
        → Gives (Seen e s) (forwait env (run env fuel) i d execed t)
    unfolding forwait
    forwait_explore d e execed s t o l names (ht, g, f) x done_d =
        elim (Bool-cases (t.rule d).is_executed) [
          | inl ran ↦
              rw (ran, forwait)
                (x, (λ q. absurd cc), λ k q. subst (λ j. Done j t) (names k q) done_d)
          | inr ran ↦ elim (Option-cases (deps_remain_forwait (t.rule i).remain d)) [
            | inl q ↦ rw (ran, forwait, q) tt
            | inr (m, q) ↦
                let u = update t i (set_remain m) in
                let slim : Slims (t.rule i) (set_remain m (t.rule i)) = record {
                  executed = refl;
                  executing = refl;
                  queued = refl;
                  under = refl;
                  has = λ k h. sym (has-deps_remain_forwait (t.rule i).remain m d q k) ∙ h;
                } in
                let all : AllSlim t u = pointwise-update Slims t i (set_remain m) Slims-refl slim in
                let grows : Grows (t.rule i) (set_remain m (t.rule i)) = record {
                  executed = λ k. k;
                  executing = λ k. k;
                  queued = λ k. k;
                  waitloc = λ k. k;
                } in
                rw (ran, forwait, q)
                  (
                    Explored-trans env s t u g (λ j. (f j).under)
                        (AllGrow-update t i (set_remain m) grows) x
                        (Explored-update env t i (set_remain m) x.fine ((f i).under ∙ o.under)
                          slim),
                    (λ _. (d, l, (all d).executed ∙ ran, (all d).executing ∙ done_d.0)),
                    λ k p.
                        subst (λ j. Done j u) (names k p)
                          ((all d).executing ∙ done_d.0, (all d).under ∙ done_d.1),
                  )
          ]
        ]

    pub visit_explore :
        (e : Stirdep) (s : State W)
        → Opens s
        → AllFine env s
        → HasEdges env s
        → Around s
        → e.is_dupe ≡ false
        → ((d : ℕ) → dep_rule e ≡ some d → Leads d (env.deplist i))
        → Gives (Seen e s) (visit env (run env fuel) i e s)
    unfolding visit
    visit_explore e s o fine edges around single sub = elim (Option-cases e.ruleid) [
      | inl none_there ↦ elim (Bool-cases e.is_inc) [
        | inl inc ↦ simp (none_there, visit, inc) (nothing none_there s (Explored-refl env s fine))
        | inr real ↦ elim (Bool-cases (env.access_fails s.world e.nameidx).0) [
          | inl fails ↦ simp (none_there, visit, real, fails) tt
          | inr there ↦
              simp (none_there, visit, real, there)
                (nothing none_there (record s { world = (env.access_fails s.world e.nameidx).1 })
                  (record {
                    stay = λ j. Stays-refl (s.rule j);
                    sheds = Sheds-AllSlim s s (λ j. Slims-refl (s.rule j));
                    fine = λ j on off.
                        let x = fine j on off in record { deps = x.deps; reason = x.reason };
                  }))
        ]
      ]
      | inr (d, leads) ↦
          let edge : Leads d (env.deplist i) =
            sub d (
              dep_rule_of env n (run env fuel) fuel (run-Works env n graph fuel) e single
              ∙ leads) in
          let above = Above-Around d s edge around in
          simp (leads, visit)
            (Gives-and_then (Good env n s)
              (λ (b, t). Explored env s t × ((t.rule d).is_executing ≡ true)) (Seen e s) _ _
              (run-Works env n graph fuel (call_consider d) s o.inv (graph.inside i d edge)
                (unfold need in o.fuel))
              (explores d s o.inv fine edges above (graph.inside i d edge) o.fuel)
              (λ (execed, t) good (x, on).
                forwait_explore d e execed s t o edge
                  (λ k q. ground (
                    arith,
                    leads,
                    q,
                    dep_rule_of env n (run env fuel) fuel (run-Works env n graph fuel) e single,
                  ))
                  good x (on, (good.2 d).under ∙ not_under d s above)))
    ]
      where
        nothing : e.ruleid ≡ none → (t : State W) → Explored env s t → Seen e s (false, false, t)
        nothing q t x = (
          x,
          (λ p. absurd cc),
          λ d p.
              absurd
                (cc (dep_rule_of env n (run env fuel) fuel (run-Works env n graph fuel) e single)),
        )
