-- ===== src/Sched/Explore/Loop.antt =====
-- The loop of consider over the dependencies.
use stirmake.Prelude.{
  ℕ, ◌≡◌, ◌⊎◌, refl, sym, ap, ◌∙◌, Bool, true, false, ◌||◌, Bool-cases, inl, inr, List, [], ◌∷◌,
  All, arith,
}
use stirmake.UpToDate.{Stirdep}
use stirmake.Cycle.Graph.{Leads}
use stirmake.Sched.{RuleState, State, Env, must_wait, at_dep, consider_loop, run}
use stirmake.Prelude.Results.{Gives, Gives-and_then, Gives-imp}
use stirmake.Sched.Invariant.{AllGrow}
use stirmake.Sched.Visit.{IsVisited, IsVisited-refl, IsVisited-trans, Answer, visit_lem}
use stirmake.Sched.Loops.{IsOpen-IsVisited, at_dep-IsVisited, dep_rule_dupe}
use stirmake.Sched.Safe.{IsGraph, run-Works}
use stirmake.Sched.Settled.{IsPlain, HasEdges, HasEdges-Sheds, Unqueued-AllGrow}
use stirmake.Sched.Explore.{
  Done, Holds, AllFine, Explored, Explored-refl, Explored-trans, Explored-update,
}
use stirmake.Sched.Explore.Visit.{Explores, Opens, Around, Seen, visit_explore}

never_waits :
    {W : Type 0} (i : ℕ) (e : Stirdep) (t : State W) → e.is_wait ≡ false → must_wait i e t ≡ false
unfolding must_wait
never_waits i e t q = ground arith

module _ {W : Type 0} (env : Env W) (n : ℕ) (graph : IsGraph env n) (plain : IsPlain env) where
  module _ (fuel : ℕ) (explores : Explores env n graph plain fuel) (i : ℕ) where
    -- The loop over the dependencies `es`.
    abbrev pub Looped : List Stirdep → Bool → State W → Bool × Bool × State W → Type 0
    Looped es toexecute s (toexecute', execed, t) =
        IsVisited env n i s t
        × Explored env s t
        × (toexecute' ≡ true → (toexecute ≡ true) ⊎ Holds env i t)
        × ((d : ℕ) → Leads d es → Done d t)

    Holds-Explored :
        (s t : State W) → AllGrow s t → Explored env s t → Holds env i s → Holds env i t
    Holds-Explored s t g x (d, l, ran, on) =
        (d, l, (x.stay d).executed on ∙ ran, (g d).executing on)

    Done-Explored : (d : ℕ) (s t : State W) → Explored env s t → Done d s → Done d t
    Done-Explored d s t x (on, off) =
        let same = (x.stay d).settled on off in
        (ap RuleState.is_executing same ∙ on, ap RuleState.is_under_consideration same ∙ off)

    Around-IsVisited :
        (s t : State W)
        → IsVisited env n i s t
        → Around env n graph plain fuel explores i s
        → Around env n graph plain fuel explores i t
    Around-IsVisited s t v around u under = around u (sym (v.framed u).0 ∙ under)

    pub loop_explore :
        (es : List Stirdep) (toexecute execed : Bool) (s : State W)
        → Opens env n graph plain fuel explores i s
        → AllFine env s
        → HasEdges env s
        → Around env n graph plain fuel explores i s
        → ((d : ℕ) → Leads d es → Leads d (env.deplist i))
        → All (λ e. e.is_wait ≡ false) es
        → Gives (Looped es toexecute s) (consider_loop env (run env fuel) i es toexecute execed s)
    unfolding consider_loop
    loop_explore [] toexecute execed s o fine edges around sub free =
        (IsVisited-refl env n i s o.inv, Explored-refl env s fine, (λ q. inl q), λ d l. absurd l)
    loop_explore (e ∷ es) toexecute execed s o fine edges around sub (no_wait, free) =
        elim (Bool-cases e.is_dupe) [
          | inl dupe ↦ simp dupe (
              Gives-imp (Looped es toexecute s) (Looped (e ∷ es) toexecute s) _
                (λ (te, b, t) (v, x, pend, done_all). (
                  v,
                  x,
                  pend,
                  λ d l. elim l [
                    | inl p ↦ absurd (dep_rule_dupe e d dupe p)
                    | inr l' ↦ done_all d l'
                  ],
                ))
                (loop_explore es toexecute execed s o fine edges around (λ d l. sub d (inr l))
                  free))
          | inr single ↦
              let t = at_dep i (e ∷ es) s in
              let v1 =
                at_dep-IsVisited env n (run env fuel) fuel (run-Works env n graph fuel) graph.inside
                  i e es s o sub in
              let x1 : Explored env s t = Explored-update env s i _ fine o.under (record {
                executed = refl;
                executing = refl;
                queued = refl;
                under = refl;
                has = λ d h. h;
              }) in
              let ot = opens s t o v1 in
              let around_t = Around-IsVisited s t v1 around in
              let edges_t = HasEdges-Sheds env s t (Unqueued-AllGrow s t v1.grown) x1.sheds edges in
              simp (single, never_waits i e t no_wait)
                (Gives-and_then (Answer env n i e t) (Seen env n graph plain fuel explores i e t)
                  (Looped (e ∷ es) toexecute s) _ _
                  (visit_lem env n (run env fuel) fuel (run-Works env n graph fuel) i e t ot.inv
                    single (λ d q. sub d (inl q)) (graph.inside i) ot.executing ot.under ot.fuel)
                  (visit_explore env n graph plain fuel explores i e t ot x1.fine edges_t around_t
                    single (λ d q. sub d (inl q)))
                  (λ (b, waits, u) (v2, _) (x2, hold, done_e).
                    let v12 = IsVisited-trans env n i s t u v1 v2 in
                    let x12 = step s t u v1 v2 x1 x2 in
                    Gives-imp (Looped es (toexecute || waits) u) (Looped (e ∷ es) toexecute s) _
                      (λ (te, b', w) (v3, x3, pend, done_all). (
                        IsVisited-trans env n i s u w v12 v3,
                        step s u w v12 v3 x12 x3,
                        (λ q. elim (pend q) [
                          | inl p ↦ elim (or_true toexecute waits p) [
                            | inl y ↦ inl y
                            | inr y ↦ inr (Holds-Explored u w v3.grown x3 (hold y))
                          ]
                          | inr y ↦ inr y
                        ]),
                        λ d l. elim l [
                          | inl p ↦ Done-Explored d u w x3 (done_e d p)
                          | inr l' ↦ done_all d l'
                        ],
                      ))
                      (loop_explore es (toexecute || waits) (execed || b) u (opens t u ot v2)
                        x2.fine
                        (HasEdges-Sheds env t u (Unqueued-AllGrow t u v2.grown) x2.sheds edges_t)
                        (Around-IsVisited t u v2 around_t) (λ d l. sub d (inr l)) free)))
        ]
      where
        opens :
            (s t : State W)
            → Opens env n graph plain fuel explores i s
            → IsVisited env n i s t
            → Opens env n graph plain fuel explores i t
        opens =
            IsOpen-IsVisited env n (run env fuel) fuel (run-Works env n graph fuel) graph.inside i

        or_true : (a b : Bool) → (a || b) ≡ true → (a ≡ true) ⊎ (b ≡ true)
        or_true a b h = ground arith

        step :
            (s t u : State W)
            → IsVisited env n i s t
            → IsVisited env n i t u
            → Explored env s t
            → Explored env t u
            → Explored env s u
        step s t u v w x y = Explored-trans env s t u v.grown (λ j. (v.framed j).0) w.grown x y
