-- ===== src/Cycle/Tests.antt =====
-- The search on small graphs.
use stirmake.Prelude.{
  ℕ, zero, suc, ◌<◌, ◌≡◌, inl, inr, refl, true, false, some, List, [], ◌∷◌, length, arith,
}
use stirmake.UpToDate.{Stirdep}
use stirmake.Cycle.{better_cycle_detect, dep_rule, cycle_found}
use stirmake.Cycle.Graph.{Edge}
use stirmake.Cycle.Correct.{Decided, better_cycle_detect_lem}

abbrev dep : ℕ → Stirdep
dep i = record {
  nameidx = i;
  is_recursive = false;
  is_orderonly = false;
  is_wait = false;
  is_dupe = false;
  is_inc = false;
  ruleid = some i;
}

-- Rules 0 and 2 depend on rule 1.
abbrev shared : List (List Stirdep)
shared = (dep 1 ∷ []) ∷ [] ∷ (dep 1 ∷ dep 0 ∷ []) ∷ []

abbrev loop : List (List Stirdep)
loop = (dep 1 ∷ []) ∷ (dep 2 ∷ []) ∷ (dep 1 ∷ []) ∷ []

better_cycle_detect-loop :
    better_cycle_detect loop false (false ∷ false ∷ false ∷ []) 0 ≡ cycle_found
unfolding better_cycle_detect dep_rule
better_cycle_detect-loop = refl

shared_inside : (u v : ℕ) → Edge shared u v → v < length shared
unfolding dep_rule
shared_inside zero v (inr e) = absurd e
shared_inside (suc zero) v e = absurd e
shared_inside (suc (suc (suc _))) v e = absurd e
shared_inside (suc (suc zero)) v (inr (inr e)) = absurd e
shared_inside zero v (inl e) = ground arith
shared_inside (suc (suc zero)) v (inl e) = ground arith
shared_inside (suc (suc zero)) v (inr (inl e)) = ground arith

better_cycle_detect_example :
    Decided shared true
      (false ∷ false ∷ false ∷ [])
      2
      (better_cycle_detect shared true (false ∷ false ∷ false ∷ []) 2)
better_cycle_detect_example =
    better_cycle_detect_lem shared true (false ∷ false ∷ false ∷ []) 2 shared_inside (omega arith)
      refl
