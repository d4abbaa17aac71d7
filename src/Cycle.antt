-- ===== src/Cycle.antt =====
-- better_cycle_detect of stirc/stirmake.c: the search for a cycle among the rules. The rules are
-- the lists of their dependencies, numbered from 0; the program ends where a cycle is found.
pub mod Graph
pub mod Arrays
pub mod Loop
pub mod Correct
mod Tests
use stirmake.Prelude.{
  ℕ, zero, suc, if◌then◌else◌, Bool, true, false, Option, none, some, List, [], ◌∷◌, get_or, set,
  length,
}
use stirmake.UpToDate.{Stirdep}

-- One byte for each rule.
pub record Flags : Type 0 where
  pub no_cycles : List Bool
  pub parents : List Bool
  pub is_traversed : List Bool

pub data Detected : Type 0 where
  out_of_fuel cycle_found : Detected
  finished : Flags → Detected

-- The rule that the loop over the dependencies descends to.
unfoldable pub dep_rule : Stirdep → Option ℕ
dep_rule e = if e.is_dupe then none else e.ruleid

unfoldable pub enter : ℕ → Flags → Flags
enter cur s = record s { parents = set s.parents cur true }

unfoldable pub leave : Bool → ℕ → Flags → Flags
leave mark_traversed cur s = record {
  no_cycles = set s.no_cycles cur true;
  parents = set s.parents cur false;
  is_traversed = if mark_traversed then set s.is_traversed cur true else s.is_traversed;
}

unfoldable pub visit_deps : (ℕ → Flags → Detected) → List Stirdep → Flags → Detected
visit_deps visit [] s = finished s
visit_deps visit (e ∷ es) s = elim (dep_rule e) [
  | none ↦ visit_deps visit es s
  | some ruleid ↦ elim (visit ruleid s) [
    | out_of_fuel ↦ out_of_fuel
    | cycle_found ↦ cycle_found
    | finished t ↦ visit_deps visit es t
  ]
]

unfoldable pub left : Bool → ℕ → Detected → Detected
unfolding leave
left mark_traversed cur out_of_fuel = out_of_fuel
left mark_traversed cur cycle_found = cycle_found
left mark_traversed cur (finished t) = finished (leave mark_traversed cur t)

-- The fuel bounds the depth of the recursion.
unfoldable pub better_cycle_detect_impl : List (List Stirdep) → Bool → ℕ → ℕ → Flags → Detected
unfolding enter visit_deps left
better_cycle_detect_impl rules mark_traversed zero cur s = out_of_fuel
better_cycle_detect_impl rules mark_traversed (suc fuel) cur s =
    elim (get_or s.no_cycles cur false) [
      | true ↦ finished s
      | false ↦ elim (get_or s.parents cur false) [
        | true ↦ cycle_found
        | false ↦ left mark_traversed cur (
            visit_deps (better_cycle_detect_impl rules mark_traversed fuel) (get_or rules cur [])
              (enter cur s))
      ]
    ]

pub zeros : {A : Type 0} → List A → List Bool
zeros [] = []
zeros (_ ∷ xs) = false ∷ zeros xs

-- Every rule is entered once at most on the way down, so that one unit of fuel for each rule and one
-- for the test that stops the search are enough.
unfoldable pub better_cycle_detect : List (List Stirdep) → Bool → List Bool → ℕ → Detected
unfolding better_cycle_detect_impl zeros
better_cycle_detect rules mark_traversed is_traversed cur =
    better_cycle_detect_impl rules mark_traversed (suc (length rules)) cur
      (record { no_cycles = zeros rules; parents = zeros rules; is_traversed = is_traversed })
