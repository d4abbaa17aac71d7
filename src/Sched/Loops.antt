-- ===== src/Sched/Loops.antt =====
-- The loops of consider and reconsider over the dependencies.
use stirmake.Prelude.{
  ℕ, suc, ◌*◌, ◌≤◌, ◌<◌, ◌≡◌, ◌≢◌, refl, ap, ◌∙◌, Bool, true, false, ◌||◌, Bool-cases, inl, inr,
  some, List, [], ◌∷◌, arith,
}
use stirmake.UpToDate.{Stirdep}
use stirmake.Cycle.{dep_rule}
use stirmake.Cycle.Graph.{Leads}
use stirmake.Sched.{
  RuleState, State, Env, Call, update, visit, must_wait, at_dep, consider_loop, reconsider_loop,
}
use stirmake.Prelude.Results.{Outcome, Returns, Returns-and_then, Returns-imp}
use stirmake.Sched.Invariant.{
  Grows, executed, Inv, AllGrow, IsRegular-more, rule-update, AllGrow-update, OthersFramed-update,
  Inv-update,
}
use stirmake.Sched.Measure.{measure, measure_le}
use stirmake.Sched.Visit.{Works, IsVisited, IsVisited-refl, IsVisited-trans, Answer, visit_lem}

pub dep_rule_dupe : (e : Stirdep) (d : ℕ) → e.is_dupe ≡ true → dep_rule e ≡ some d → ⊥
unfolding dep_rule
dep_rule_dupe e d dupe q = absurd (ground arith)

pub or_false : (a b : Bool) → (a || b) ≡ false → (a ≡ false) × (b ≡ false)
or_false a b h = ground arith

module _ {W : Type 0} (env : Env W) (n : ℕ) where
  -- What the loop of consider leaves: without toexecute, the rules of all dependencies are executed.
  abbrev pub Walked : ℕ → List Stirdep → Bool → State W → Bool × Bool × State W → Type 0
  Walked i es toexecute s (toexecute', execed, t) =
      IsVisited env n i s t
      × (toexecute' ≡ false → (toexecute ≡ false) × ((d : ℕ) → Leads d es → executed t d ≡ true))
      × ((d : ℕ) → Leads d es → (t.rule i).waitloc ≢ [])

module _ {W : Type 0} (env : Env W) (n : ℕ) (self : Call → State W → Outcome (Bool × State W))
    (bound : ℕ) (works : Works env n bound self)
    (inside : (i d : ℕ) → Leads d (env.deplist i) → d < n) (i : ℕ) where
  -- The rule is under consideration, and fuel is left for its dependencies.
  pub record IsOpen (s : State W) : Type 0 where
    pub inv : Inv env s
    pub executing : (s.rule i).is_executing ≡ true
    pub under : (s.rule i).is_under_consideration ≡ true
    pub fuel : suc (3 * measure n s) ≤ bound

  pub IsOpen-IsVisited : (s t : State W) → IsOpen s → IsVisited env n i s t → IsOpen t
  IsOpen-IsVisited s t o v = record {
    inv = v.inv;
    executing = (v.grown i).executing o.executing;
    under = (v.framed i).0 ∙ o.under;
    fuel = omega (arith, o.fuel, measure_le n s t v.grown);
  }

  pub at_dep-IsVisited :
      (e : Stirdep) (es : List Stirdep) (s : State W)
      → IsOpen s
      → ((d : ℕ) → Leads d (e ∷ es) → Leads d (env.deplist i))
      → IsVisited env n i s (at_dep i (e ∷ es) s)
  at_dep-IsVisited e es s o sub =
      let w : RuleState → RuleState = λ r. record r { waitloc = e ∷ es } in
      let h = o.inv i in
      let grows : Grows (s.rule i) (w (s.rule i)) = record {
        executed = λ k. k;
        executing = λ k. k;
        queued = λ k. k;
        waitloc = λ k q. cc;
      } in
      let grown : AllGrow s (update s i w) = AllGrow-update s i w grows in
      record {
        inv = Inv-update s i w env o.inv grows (
            IsRegular-more (env.deplist i) (executed s) (executed (update s i w)) (w (s.rule i))
              (λ j. (grown j).executed)
              (record {
                counted = h.counted;
                waits = h.waits;
                ran = h.ran;
                executed_queued = h.executed_queued;
                queued_executing = h.queued_executing;
                under_executing = h.under_executing;
                calm = h.calm;
                located = sub;
                waiting = λ a b d l q. cc;
              }));
        grown = grown;
        framed = OthersFramed-update s i w refl;
      }

  waitloc_at_dep :
      (e : Stirdep) (es : List Stirdep) (s : State W) → ((at_dep i (e ∷ es) s).rule i).waitloc ≢ []
  waitloc_at_dep e es s q = cc (rule-update s i (λ r. record r { waitloc = e ∷ es }))

  wait_at_dep :
      (e : Stirdep) (es : List Stirdep) (s : State W)
      → ((at_dep i (e ∷ es) s).rule i).remain.wait_remain_cnt ≡ (s.rule i).remain.wait_remain_cnt
  wait_at_dep e es s =
      ap (λ r. (RuleState.remain r).wait_remain_cnt)
        (rule-update s i (λ r. record r { waitloc = e ∷ es }))

  must_wait_lem :
      (e : Stirdep) (s : State W) → must_wait i e s ≡ true → (s.rule i).remain.wait_remain_cnt ≢ 0
  unfolding must_wait
  must_wait_lem e s h q = ground arith

  pub consider_loop_lem :
      (es : List Stirdep) (toexecute execed : Bool) (s : State W)
      → IsOpen s
      → ((d : ℕ) → Leads d es → Leads d (env.deplist i))
      → (toexecute ≡ false → (s.rule i).remain.wait_remain_cnt ≡ 0)
      → Returns (Walked env n i es toexecute s) (consider_loop env self i es toexecute execed s)
  unfolding consider_loop
  consider_loop_lem [] toexecute execed s o sub calm =
      (IsVisited-refl env n i s o.inv, (λ q. (q, λ d l. absurd l)), λ d l. absurd l)
  consider_loop_lem (e ∷ es) toexecute execed s o sub calm = elim (Bool-cases e.is_dupe) [
    | inl dupe ↦ simp dupe (
        Returns-imp (Walked env n i es toexecute s) (Walked env n i (e ∷ es) toexecute s) _
          (λ (te, b, t) (v, all, loc). (
            v,
            λ q. (
              (all q).0,
              λ d l. elim l [ inl x ↦ absurd (no_rule dupe d x) | inr k ↦ (all q).1 d k ],
            ),
            λ d l. elim l [ inl x ↦ absurd (no_rule dupe d x) | inr k ↦ loc d k ],
          ))
          (consider_loop_lem es toexecute execed s o (λ d l. sub d (inr l)) calm))
    | inr plain ↦
        let t = at_dep i (e ∷ es) s in
        let there = at_dep-IsVisited e es s o sub in
        let ot = IsOpen-IsVisited s t o there in
        elim (Bool-cases (must_wait i e t)) [
          | inl waits ↦
              simp (plain, waits)
                (
                  there,
                  (λ q. absurd (must_wait_lem e t waits (wait_at_dep e es s ∙ calm q))),
                  λ d l. waitloc_at_dep e es s,
                )
          | inr free ↦
              simp (plain, free)
                (Returns-and_then (Answer env n i e t) (Walked env n i (e ∷ es) toexecute s)
                  (visit env self i e t) _
                  (visit_lem env n self bound works i e t ot.inv plain (λ d q. sub d (inl q))
                    (inside i) ot.executing ot.under ot.fuel)
                  (λ (b, waits, u) (v, answer).
                    Returns-imp (Walked env n i es (toexecute || waits) u)
                      (Walked env n i (e ∷ es) toexecute s) _
                      (λ (te, b', t') (v', all, loc). (
                        IsVisited-trans env n i s t t' there (IsVisited-trans env n i t u t' v v'),
                        λ q.
                            let (te_off, waits_off) = or_false toexecute waits (all q).0 in
                            (
                              te_off,
                              λ d l. elim l [
                                | inl x ↦ (v'.grown d).executed ((answer waits_off).1 d x)
                                | inr k ↦ (all q).1 d k
                              ],
                            ),
                        λ d l. (v'.grown i).waitloc ((v.grown i).waitloc (waitloc_at_dep e es s)),
                      ))
                      (consider_loop_lem es (toexecute || waits) (execed || b) u
                        (IsOpen-IsVisited t u ot v) (λ d l. sub d (inr l))
                        (λ q.
                          let (te_off, waits_off) = or_false toexecute waits q in
                          omega (arith, (answer waits_off).0, wait_at_dep e es s, calm te_off)))))
        ]
  ]
    where
      no_rule : e.is_dupe ≡ true → (d : ℕ) → dep_rule e ≡ some d → ⊥
      no_rule dupe d x = dep_rule_dupe e d dupe x

  pub reconsider_loop_lem :
      (es : List Stirdep) (s : State W)
      → IsOpen s
      → ((d : ℕ) → Leads d es → Leads d (env.deplist i))
      → Returns (IsVisited env n i s) (reconsider_loop env self i es s)
  unfolding reconsider_loop
  reconsider_loop_lem [] s o sub = IsVisited-refl env n i s o.inv
  reconsider_loop_lem (e ∷ es) s o sub =
      let t = at_dep i (e ∷ es) s in
      let there = at_dep-IsVisited e es s o sub in
      let ot = IsOpen-IsVisited s t o there in
      let below : (u : State W)
          → IsVisited env n i t u
          → Returns (IsVisited env n i s) (reconsider_loop env self i es u) =
        λ u v.
          Returns-imp (IsVisited env n i u) (IsVisited env n i s) _
            (λ t' v'. IsVisited-trans env n i s t t' there (IsVisited-trans env n i t u t' v v'))
            (reconsider_loop_lem es u (IsOpen-IsVisited t u ot v) (λ d l. sub d (inr l))) in
      elim (Bool-cases (must_wait i e t)) [
        | inl waits ↦ rw (waits, reconsider_loop) there
        | inr free ↦ elim (Bool-cases e.is_dupe) [
          | inl dupe ↦
              rw (free, reconsider_loop) (simp dupe (below t (IsVisited-refl env n i t ot.inv)))
          | inr plain ↦
              rw (free, reconsider_loop)
                (simp plain (
                  Returns-and_then (Answer env n i e t) (IsVisited env n i s) (visit env self i e t)
                    _
                    (visit_lem env n self bound works i e t ot.inv plain (λ d q. sub d (inl q))
                      (inside i) ot.executing ot.under ot.fuel)
                    (λ (b, waits, u) (v, _). below u v)))
        ]
      ]
