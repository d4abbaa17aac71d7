-- ===== src/Sched/Branches.antt =====
-- What do_exec and mark_executed give, from what the calls that they make give.
use stirmake.Prelude.{
  ℕ, ◌≡◌, refl, sym, ap, subst, ◌∙◌, ◌==◌, arith, Bool, true, false, Bool-cases, Option-cases, inl,
  inr, List, [], ◌∷◌, All,
}
use stirmake.Cycle.Graph.{Leads}
use stirmake.Remain.{deps_remain_has}
use stirmake.Sched.{
  RuleState, State, Env, Call, call_reconsider, call_mark_executed, update, do_exec, reconsider_all,
  mark_executed,
}
use stirmake.Prelude.Results.{Outcome, Gives, Gives-bind, Gives-imp}
use stirmake.Sched.Updates.{queue_rule, mark_rule}
use stirmake.Sched.Settled.{In, IsPlain, HasEdges, Sheds, Unqueued, pointwise-update}
use stirmake.Sched.Invariant.{rule-update_other}

-- The rule `j` does not wait for `i`, unless it is queued.
abbrev pub IsGone : {W : Type 0} → ℕ → ℕ → State W → Type 0
IsGone j i t = (t.rule j).is_queued ≡ false → deps_remain_has (t.rule j).remain i ≡ false

module _ {W : Type 0} (env : Env W) (self : Call → State W → Outcome (Bool × State W)) where
  pub do_exec-Gives :
      (R : State W → Type 0) (i : ℕ) (s : State W)
      → ((s.rule i).is_queued ≡ true → R s)
      → ((js : List ℕ) (world : W)
          → (s.rule i).is_queued ≡ false
          → R (record (update s i queue_rule) { world = world; ruleids_to_run = js }))
      → ((world : W)
          → (s.rule i).is_queued ≡ false
          → Gives
              (λ (b, t). R t)
              (self
                (call_mark_executed i false)
                (record (update s i queue_rule) { world = world })))
      → Gives (λ (b, t). R t) (do_exec env self i s)
  unfolding do_exec
  do_exec-Gives R i s was queues marks = elim (Bool-cases (s.rule i).is_queued) [
    | inl e ↦ rw (e, do_exec) (was e)
    | inr e ↦ elim (Bool-cases (env.decide s.world i).0) [
      | inl queue ↦ rw (e, do_exec, queue) (queues _ _ e)
      | inr runs ↦
          rw (e, do_exec, runs)
            (Gives-bind (λ (b, t). R t) (λ (b, t). R t) _ _ (marks (env.decide s.world i).1 e)
              (λ (b, t) r. r))
    ]
  ]

  -- `E` holds of the dependents, `C` of the state whenever one is woken, and `R` of the states before and after.
  pub reconsider_all-Gives :
      (E : ℕ → Type 0) (C : State W → Type 0) (R : State W → State W → Type 0) (i : ℕ) (js : List ℕ)
      (s : State W)
      → ((t : State W) → C t → R t t)
      → ((t u v : State W) → R t u → R u v → R t v)
      → ((j : ℕ) (t u : State W) → R t u → IsGone j i t → IsGone j i u)
      → ((j : ℕ) (t : State W)
          → C t
          → E j
          → Gives (λ (b, u). C u × R t u × IsGone j i u) (self (call_reconsider j i) t))
      → C s
      → All E js
      → Gives
          (λ (b, t). R s t × ((j : ℕ) → In j js → IsGone j i t))
          (reconsider_all env self i js s)
  unfolding reconsider_all
  reconsider_all-Gives E C R i [] s same trans keep calls c a = (same s c, λ j k. absurd k)
  reconsider_all-Gives E C R i (j ∷ js) s same trans keep calls c (edge, a) =
      Gives-bind (λ (b, t). C t × R s t × IsGone j i t)
        (λ (b, u). R s u × ((k : ℕ) → In k (j ∷ js) → IsGone k i u)) (self (call_reconsider j i) s)
        _ (calls j s c edge)
        (λ (b, t) (c', r, gone).
          Gives-imp (λ (b', u). R t u × ((k : ℕ) → In k js → IsGone k i u))
            (λ (b', u). R s u × ((k : ℕ) → In k (j ∷ js) → IsGone k i u)) _
            (λ (b', u) (r', all). (
              trans s t u r r',
              λ k l. elim l [
                | inl p ↦ subst (λ x. IsGone x i u) p (keep j t u r' gone)
                | inr l' ↦ all k l'
              ],
            ))
            (reconsider_all-Gives E C R i js t same trans keep calls c' a))

  pub mark_executed-Gives :
      (R : State W → Type 0) (i : ℕ) (was : Bool) (s : State W)
      → ((js : List ℕ) (world : W)
          → (s.rule i).is_executed ≡ false
          → Gives
              (λ (b, t). R t)
              (reconsider_all env self i
                (env.dependents i)
                (record (update s i (mark_rule was)) { world = world; rules_remain_list = js })))
      → Gives (λ (b, t). R t) (mark_executed env self i was s)
  unfolding mark_executed
  mark_executed-Gives R i was s wakes = elim (Bool-cases (s.rule i).is_executed) [
    | inl e ↦ rw (e, mark_executed) tt
    | inr e ↦ elim (Bool-cases (s.rule i).is_executing) [
      | inr off ↦ rw (e, mark_executed, off) tt
      | inl on ↦ elim (Option-cases (env.store (update s i (mark_rule was)).world i was)) [
        | inl x ↦ rw (e, mark_executed, on, x) tt
        | inr (world, x) ↦ rw (e, mark_executed, on, x) (wakes _ world e)
      ]
    ]
  ]

-- Rule `i` is marked, and in the end no rule that is not queued waits for it.
pub Sheds-mark :
    {W : Type 0} (env : Env W) (plain : IsPlain env) (i : ℕ) (was : Bool) (s t : State W)
    → HasEdges env s
    → Unqueued s t
    → Sheds (update s i (mark_rule was)) t
    → ((j : ℕ) → In j (env.dependents i) → IsGone j i t)
    → Sheds s t
Sheds-mark env plain i was s t edges back sheds gone j d q h =
    let s1 = update s i (mark_rule was) in
    let (h1, e1) = sheds j d q h in
    let h0 =
      ap (λ r. deps_remain_has r d)
        (sym
          (pointwise-update (λ r r'. r'.remain ≡ r.remain) s i (mark_rule was) (λ r. refl) refl j))
      ∙ h1 in
    (
      h0,
      λ e. elim (Bool-cases (i == d)) [
        | inl x ↦ absurd (
            left_over (same x) (
              gone j
                (plain.dependents i j
                  (subst (λ k. Leads k (env.deplist j)) (sym (same x)) (edges j d (back j q) h0)))
                q))
        | inr x ↦ sym (ap RuleState.is_executed (rule-update_other s i (mark_rule was) d x)) ∙ e1 e
      ],
    )
  where
    same : (i == d) ≡ true → i ≡ d
    same x = ground arith

    left_over : i ≡ d → deps_remain_has (t.rule j).remain i ≡ false → ⊥
    left_over p g = cc (ap (deps_remain_has (t.rule j).remain) p, g, h)
