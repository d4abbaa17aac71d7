-- ===== src/Time.antt =====
-- Time stamps: `struct timespec`, ts_cmp of stirc/stirmake.c, and rec_mtim over a directory tree.
pub mod Order
pub mod Tree
pub mod TreeBound
mod Tests
use stirmake.Prelude.{ℕ, Bool, true, false, ltb, if◌then◌else◌}
use stirmake.Prelude.Int.{ℤ, ltb_ℤ}

pub record Timespec : Type 0 where
  pub tv_sec : ℤ
  pub tv_nsec : ℕ

-- The sign of the int that ts_cmp returns.
pub data Sign : Type 0 where
  negative none_of_both positive : Sign

unfoldable pub ts_cmp : Timespec → Timespec → Sign
ts_cmp ta tb =
    if ltb_ℤ tb.tv_sec ta.tv_sec
    then positive
    else if ltb_ℤ ta.tv_sec tb.tv_sec
    then negative
    else if ltb tb.tv_nsec ta.tv_nsec
    then positive
    else if ltb ta.tv_nsec tb.tv_nsec
    then negative
    else none_of_both

-- ts_cmp(ta, tb) > 0 and ts_cmp(ta, tb) < 0
unfoldable pub is_newer : Timespec → Timespec → Bool
unfolding ts_cmp
is_newer ta tb = elim (ts_cmp ta tb) [ positive ↦ true | _ ↦ false ]

unfoldable pub is_older : Timespec → Timespec → Bool
unfolding ts_cmp
is_older ta tb = elim (ts_cmp ta tb) [ negative ↦ true | _ ↦ false ]
