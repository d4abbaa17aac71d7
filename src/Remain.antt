-- ===== src/Remain.antt =====
-- The dependencies that a rule still waits for: deps_remain_has, _forwait, _erase and _insert of
-- stirc/rule.c, and calc_deps_remain. The search trees of a rule are the list of their entries.
pub mod Counts
mod Tests
use stirmake.Prelude.{
  ℕ, suc, ◌-◌, ◌==◌, ltb, if◌then◌else◌, Bool, true, false, ◌||◌, Option, none, some, List, [], ◌∷◌,
  foldl,
}
use stirmake.UpToDate.{Stirdep}

pub record DepRemain : Type 0 where
  pub ruleid : ℕ
  pub waitcnt : ℕ

pub record Remain : Type 0 where
  pub deps_remain : List DepRemain
  pub deps_remain_cnt : ℕ
  pub wait_remain_cnt : ℕ

pub has_entry : List DepRemain → ℕ → Bool
has_entry [] ruleid = false
has_entry (e ∷ es) ruleid = e.ruleid == ruleid || has_entry es ruleid

unfoldable pub deps_remain_has : Remain → ℕ → Bool
unfolding has_entry
deps_remain_has r ruleid = has_entry r.deps_remain ruleid

pub wait_entry : List DepRemain → ℕ → List DepRemain
wait_entry [] ruleid = []
wait_entry (e ∷ es) ruleid =
    if e.ruleid == ruleid
    then record e { waitcnt = suc e.waitcnt } ∷ es
    else e ∷ wait_entry es ruleid

-- deps_remain_forwait, with the count that its caller raises; `none` is the call of abort.
unfoldable pub deps_remain_forwait : Remain → ℕ → Option Remain
unfolding deps_remain_has wait_entry
deps_remain_forwait r ruleid =
    if deps_remain_has r ruleid
    then some (record r {
      deps_remain = wait_entry r.deps_remain ruleid;
      wait_remain_cnt = suc r.wait_remain_cnt;
    })
    else none

pub find_entry : List DepRemain → ℕ → Option DepRemain
find_entry [] ruleid = none
find_entry (e ∷ es) ruleid = if e.ruleid == ruleid then some e else find_entry es ruleid

pub without : List DepRemain → ℕ → List DepRemain
without [] ruleid = []
without (e ∷ es) ruleid = if e.ruleid == ruleid then es else e ∷ without es ruleid

-- `none` is the call of abort.
unfoldable pub deps_remain_erase : Remain → ℕ → Option Remain
unfolding find_entry without
deps_remain_erase r ruleid = elim (find_entry r.deps_remain ruleid) [
  | none ↦ some r
  | some dep_remain ↦
      if ltb r.wait_remain_cnt dep_remain.waitcnt
      then none
      else some (record {
        deps_remain = without r.deps_remain ruleid;
        deps_remain_cnt = r.deps_remain_cnt - 1;
        wait_remain_cnt = r.wait_remain_cnt - dep_remain.waitcnt;
      })
]

pub deps_remain_insert : Remain → ℕ → Remain
unfolding deps_remain_has
deps_remain_insert r ruleid = if deps_remain_has r ruleid then r else record r {
  deps_remain = record { ruleid = ruleid; waitcnt = 0 } ∷ r.deps_remain;
  deps_remain_cnt = suc r.deps_remain_cnt;
}

pub insert_dep : Remain → Stirdep → Remain
unfolding deps_remain_insert
insert_dep r e = elim e.ruleid [ none ↦ r | some ruleid ↦ deps_remain_insert r ruleid ]

unfoldable pub calc_deps_remain : Remain → List Stirdep → Remain
unfolding insert_dep
calc_deps_remain r deplist = foldl insert_dep r deplist
