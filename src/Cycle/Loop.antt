-- ===== src/Cycle/Loop.antt =====
-- The loop over the dependencies of a rule, for visits that keep the flags sound.
use mathlib.Core.Option.{some-injective}
use stirmake.Prelude.{
  ℕ, ◌≡◌, ◌⊎◌, inl, inr, refl, sym, ◌∙◌, subst, Bool, true, false, ◌||◌, ◌&&◌, Option-cases, none,
  some, List, [], ◌∷◌, get_or, length,
}
use stirmake.UpToDate.{Stirdep}
use stirmake.Cycle.{Flags, Detected, out_of_fuel, cycle_found, finished, dep_rule, visit_deps}
use stirmake.Cycle.Graph.{
  Leads, Edge, Chain, Reaches, HasCycle, IsSafe, reach_after, HasCycle-after,
}

abbrev pub clear : Flags → ℕ → Bool
clear s v = get_or s.no_cycles v false

abbrev pub parent : Flags → ℕ → Bool
parent s v = get_or s.parents v false

module _ (rules : List (List Stirdep)) (mark : Bool) (start : List Bool) where
  -- A rule whose flag no_cycles is set has no cycle below it, and neither have its dependencies.
  pub record IsSound (s : Flags) : Type 0 where
    pub no_cycles_size : length s.no_cycles ≡ length rules
    pub parents_size : length s.parents ≡ length rules
    pub traversed_size : length s.is_traversed ≡ length rules
    pub below : (v : ℕ) → clear s v ≡ true → IsSafe rules v
    pub closed : (v w : ℕ) → clear s v ≡ true → Edge rules v w → clear s w ≡ true
    pub traversed :
        (v : ℕ) → get_or s.is_traversed v false ≡ (get_or start v false || mark && clear s v)

  -- What a visit leaves: `From` are the rules that the visit reaches.
  pub record IsAfter (From : ℕ → Type 0) (s t : Flags) : Type 0 where
    pub sound : IsSound t
    pub same : t.parents ≡ s.parents
    pub kept : (v : ℕ) → clear s v ≡ true → clear t v ≡ true
    pub new : (v : ℕ) → clear t v ≡ true → (clear s v ≡ true) ⊎ From v

  -- The result of a visit of `cur`.
  abbrev pub Visited : ℕ → Flags → Detected → Type 0
  Visited cur s out_of_fuel = ⊥
  Visited cur s cycle_found = HasCycle rules cur
  Visited cur s (finished t) = IsAfter (Reaches rules cur) s t × (clear t cur ≡ true)

  -- The result of the loop over dependencies `es` of `cur`.
  abbrev pub Looped : ℕ → List Stirdep → Flags → Detected → Type 0
  Looped cur es s out_of_fuel = ⊥
  Looped cur es s cycle_found = HasCycle rules cur
  Looped cur es s (finished t) =
      IsAfter (Chain rules cur) s t × ((v : ℕ) → Leads v es → clear t v ≡ true)

  pub IsAfter-trans :
      {F : ℕ → Type 0} {s t u : Flags} → IsAfter F s t → IsAfter F t u → IsAfter F s u
  IsAfter-trans a b = record {
    sound = b.sound;
    same = b.same ∙ a.same;
    kept = λ v h. b.kept v (a.kept v h);
    new = λ v h. elim (b.new v h) [ inl k ↦ a.new v k | inr f ↦ inr f ];
  }

  pub widen :
      {F G : ℕ → Type 0} {s t : Flags} → ((v : ℕ) → F v → G v) → IsAfter F s t → IsAfter G s t
  widen f a = record {
    sound = a.sound;
    same = a.same;
    kept = a.kept;
    new = λ v h. elim (a.new v h) [ inl k ↦ inl k | inr r ↦ inr (f v r) ];
  }

  -- A dependency that leads to no rule.
  Looped-skip :
      (cur : ℕ) (e : Stirdep) (es : List Stirdep) (s : Flags) (x : Detected)
      → dep_rule e ≡ none
      → Looped cur es s x
      → Looped cur (e ∷ es) s x
  Looped-skip cur e es s out_of_fuel n h = h
  Looped-skip cur e es s cycle_found n h = h
  Looped-skip cur e es s (finished t) n (a, all) =
      (a, λ v l. elim l [ inl q ↦ absurd (cc) | inr k ↦ all v k ])

  -- A dependency that was visited before the others.
  Looped-step :
      (cur d : ℕ) (e : Stirdep) (es : List Stirdep) (s t : Flags) (x : Detected)
      → dep_rule e ≡ some d
      → Edge rules cur d
      → IsAfter (Reaches rules d) s t
      → clear t d ≡ true
      → Looped cur es t x
      → Looped cur (e ∷ es) s x
  Looped-step cur d e es s t out_of_fuel leads edge a c h = h
  Looped-step cur d e es s t cycle_found leads edge a c h = h
  Looped-step cur d e es s t (finished u) leads edge a c (b, all) = (
    IsAfter-trans (widen (λ v r. reach_after rules edge r) a) b,
    λ v l. elim l [
      | inl q ↦ subst (λ k. clear u k ≡ true) (some-injective d v (sym leads ∙ q)) (b.kept d c)
      | inr k ↦ all v k
    ],
  )

  module _ (visit : ℕ → Flags → Detected) (cur : ℕ) where
    -- What the loop needs of a visit.
    abbrev pub Works : List Bool → Type 0
    Works ps =
        (d : ℕ) (s : Flags)
        → Edge rules cur d
        → s.parents ≡ ps
        → IsSound s
        → Visited d s (visit d s)

    after_visit :
        (d : ℕ) (e : Stirdep) (es : List Stirdep) (s : Flags) (x : Detected)
        → dep_rule e ≡ some d
        → Edge rules cur d
        → Visited d s x
        → ((t : Flags) → IsAfter (Reaches rules d) s t → Looped cur es t (visit_deps visit es t))
        → Looped cur (e ∷ es) s (elim x [
          | out_of_fuel ↦ out_of_fuel
          | cycle_found ↦ cycle_found
          | finished t ↦ visit_deps visit es t
        ])
    after_visit d e es s out_of_fuel leads edge v rest = v
    after_visit d e es s cycle_found leads edge v rest = HasCycle-after rules edge v
    after_visit d e es s (finished t) leads edge (a, c) rest =
        Looped-step cur d e es s t (visit_deps visit es t) leads edge a c (rest t a)

    pub visit_deps-Looped :
        (ps : List Bool)
        → Works ps
        → (es : List Stirdep) → ((v : ℕ) → Leads v es → Edge rules cur v)
        → (s : Flags) → s.parents ≡ ps
        → IsSound s
        → Looped cur es s (visit_deps visit es s)
    unfolding visit_deps
    visit_deps-Looped ps works [] sub s p i =
        (record { sound = i; same = refl; kept = λ v h. h; new = λ v h. inl h }, λ v h. absurd h)
    visit_deps-Looped ps works (e ∷ es) sub s p i =
        let rest = visit_deps-Looped ps works es (λ v l. sub v (inr l)) in
        elim (Option-cases (dep_rule e)) [
          | inl no_rule ↦
              rw (no_rule, visit_deps)
                (Looped-skip cur e es s (visit_deps visit es s) no_rule (rest s p i))
          | inr (d, leads) ↦
              let edge = sub d (inl leads) in
              rw (leads, visit_deps)
                (after_visit d e es s (visit d s) leads edge (works d s edge p i)
                  (λ t a. rest t (a.same ∙ p) a.sound))
        ]
