-- ===== src/Cycle/Graph.antt =====
-- Chains of dependencies, cycles, and the rules below which there is none.
use stirmake.Prelude.{ℕ, ◌≡◌, ◌⊎◌, inl, inr, subst, some, List, [], ◌∷◌, get_or}
use stirmake.UpToDate.{Stirdep}
use stirmake.Cycle.{dep_rule}

-- One of the dependencies leads to the rule `v`.
abbrev pub Leads : ℕ → List Stirdep → Type 0
Leads v [] = ⊥
Leads v (e ∷ es) = (dep_rule e ≡ some v) ⊎ Leads v es

abbrev pub Edge : List (List Stirdep) → ℕ → ℕ → Type 0
Edge rules u v = Leads v (get_or rules u [])

module _ (rules : List (List Stirdep)) where
  pub data Chain : ℕ → ℕ → Type 0 where
    one : {u v : ℕ} → Edge rules u v → Chain u v
    link : {u v w : ℕ} → Edge rules u v → Chain v w → Chain u w

  abbrev pub Reaches : ℕ → ℕ → Type 0
  Reaches u v = (u ≡ v) ⊎ Chain u v

  abbrev pub HasCycle : ℕ → Type 0
  HasCycle u = (v : ℕ) × Reaches u v × Chain v v

  -- All chains from here end.
  pub data IsSafe : ℕ → Type 0 where
    safe : {u : ℕ} → ((v : ℕ) → Edge rules u v → IsSafe v) → IsSafe u

  pub snoc : {u v w : ℕ} → Chain u v → Edge rules v w → Chain u w
  snoc (one e) d = link e (one d)
  snoc (link e c) d = link e (snoc c d)

  pub reach_after : {u v w : ℕ} → Edge rules u v → Reaches v w → Chain u w
  reach_after {u} e (inl p) = subst (Chain u) p (one e)
  reach_after e (inr c) = link e c

  pub HasCycle-after : {u v : ℕ} → Edge rules u v → HasCycle v → HasCycle u
  HasCycle-after e (w, r, c) = (w, inr (reach_after e r), c)

  no_loop : {u : ℕ} → IsSafe u → Chain u u → ⊥
  no_loop (safe {u} f) (one e) = no_loop (f u e) (one e)
  no_loop (safe f) (link {u} {v} {w} e c) = no_loop (f v e) (snoc c e)

  safe_below : {u v : ℕ} → IsSafe u → Chain u v → IsSafe v
  safe_below (safe f) (one {u} {v} e) = f v e
  safe_below (safe f) (link {u} {v} {w} e c) = safe_below (f v e) c

  pub IsSafe-no_cycle : {u : ℕ} → IsSafe u → HasCycle u → ⊥
  IsSafe-no_cycle s (v, inl p, c) = no_loop (subst IsSafe p s) c
  IsSafe-no_cycle s (v, inr r, c) = no_loop (safe_below s r) c
