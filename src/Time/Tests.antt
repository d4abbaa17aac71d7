-- ===== src/Time/Tests.antt =====
-- Time stamps and a small tree.
use stirmake.Prelude.{◌≡◌, ◌↔◌, refl, true, false}
use stirmake.Prelude.Int.{pos}
use stirmake.Time.{Timespec, ts_cmp, negative, none_of_both, positive}
use stirmake.Time.Order.{Earlier, ts_cmp_lem}
use stirmake.Time.Tree.{Tree, nil, file, sub, rec_mtim}
use stirmake.Time.TreeBound.{IsLatest, rec_mtim-IsLatest}

abbrev early : Timespec
early = record { tv_sec = pos 7; tv_nsec = 5 }

abbrev late : Timespec
late = record { tv_sec = pos 7; tv_nsec = 6 }

abbrev tree : Tree
tree = record {
  stat_mtim = early;
  lstat_mtim = early;
  entries = sub false early early (file false late early nil) (file true late late nil);
}

rec_mtim-tree : rec_mtim tree ≡ late
unfolding rec_mtim
rec_mtim-tree = refl

ts_cmp_example :
    ((ts_cmp early late ≡ negative) ↔ Earlier early late)
    × ((ts_cmp early late ≡ none_of_both) ↔ (early ≡ late))
    × ((ts_cmp early late ≡ positive) ↔ Earlier late early)
ts_cmp_example = ts_cmp_lem early late

rec_mtim-IsLatest_example : IsLatest (rec_mtim tree) tree
rec_mtim-IsLatest_example = rec_mtim-IsLatest tree
