-- ===== src/Remain/Tests.antt =====
-- A rule with two dependencies.
use stirmake.Prelude.{ℕ, ◌≡◌, ◌⊎◌, ◌↔◌, ◌==◌, if◌then◌else◌, refl, true, false, some, List, [], ◌∷◌}
use stirmake.UpToDate.{Stirdep}
use stirmake.Remain.{
  Remain, has_entry, deps_remain_has, deps_remain_erase, deps_remain_forwait, calc_deps_remain,
}
use stirmake.Remain.Counts.{
  IsCounted, Names, calc_deps_remain-IsCounted, deps_remain_erase-IsCounted,
  deps_remain_forwait-IsCounted,
}

abbrev dep : ℕ → Stirdep
dep i = record {
  nameidx = i;
  is_recursive = false;
  is_orderonly = false;
  is_wait = false;
  is_dupe = false;
  is_inc = false;
  ruleid = some i;
}

abbrev fresh : Remain
fresh = record { deps_remain = []; deps_remain_cnt = 0; wait_remain_cnt = 0 }

-- Rule 4 is named twice.
abbrev deps : List Stirdep
deps = dep 4 ∷ dep 5 ∷ dep 4 ∷ []

abbrev waiting : Remain
waiting = record {
  deps_remain = record { ruleid = 5; waitcnt = 1 } ∷ record { ruleid = 4; waitcnt = 0 } ∷ [];
  deps_remain_cnt = 2;
  wait_remain_cnt = 1;
}

calc_deps_remain-deps : calc_deps_remain fresh deps ≡ record waiting {
  deps_remain = record { ruleid = 5; waitcnt = 0 } ∷ record { ruleid = 4; waitcnt = 0 } ∷ [];
  wait_remain_cnt = 0;
}
unfolding calc_deps_remain
calc_deps_remain-deps = refl

fresh-IsCounted : IsCounted fresh
fresh-IsCounted = record { keyed = tt; deps = refl; waits_of = refl }

waiting-IsCounted : IsCounted waiting
unfolding has_entry
waiting-IsCounted = record { keyed = (refl, (refl, tt)); deps = refl; waits_of = refl }

waiting-has : deps_remain_has waiting 4 ≡ true
unfolding deps_remain_has
waiting-has = refl

calc_deps_remain-IsCounted_example :
    IsCounted (calc_deps_remain fresh deps)
    × ((j : ℕ)
        → (deps_remain_has (calc_deps_remain fresh deps) j ≡ true)
          ↔ ((deps_remain_has fresh j ≡ true) ⊎ Names j deps))
calc_deps_remain-IsCounted_example = calc_deps_remain-IsCounted fresh deps fresh-IsCounted

deps_remain_erase-IsCounted_example :
    (after : Remain) × (deps_remain_erase waiting 5 ≡ some after)
    × IsCounted after
    × ((j : ℕ) → deps_remain_has after j ≡ (if 5 == j then false else deps_remain_has waiting j))
deps_remain_erase-IsCounted_example = deps_remain_erase-IsCounted waiting 5 waiting-IsCounted

deps_remain_forwait-IsCounted_example :
    (after : Remain) × (deps_remain_forwait waiting 4 ≡ some after)
    × IsCounted after
    × ((j : ℕ) → deps_remain_has after j ≡ deps_remain_has waiting j)
deps_remain_forwait-IsCounted_example =
    deps_remain_forwait-IsCounted waiting 4 waiting-IsCounted waiting-has
