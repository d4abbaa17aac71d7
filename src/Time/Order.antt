-- ===== src/Time/Order.antt =====
-- ts_cmp is a total order.
use stirmake.Prelude.{◌+◌, ◌<◌, ◌≡◌, ◌⊎◌, ◌↔◌, true, false, arith}
use stirmake.Prelude.Int.{ℤ, pos_part, neg_part, eq_of_parts}
use stirmake.Time.{Timespec, negative, none_of_both, positive, ts_cmp, is_newer, is_older}

abbrev ◌<ℤ◌ : ℤ → ℤ → Type 0
◌<ℤ◌ a b = pos_part a + neg_part b < pos_part b + neg_part a

-- Earlier, seconds first.
abbrev pub Earlier : Timespec → Timespec → Type 0
Earlier a b = (◌<ℤ◌ a.tv_sec b.tv_sec) ⊎ (a.tv_sec ≡ b.tv_sec) × (a.tv_nsec < b.tv_nsec)

-- ts_cmp decides the order of two times, seconds first: negative for the earlier, zero for the same,
-- positive for the later.
pub ts_cmp_lem :
    (a b : Timespec)
    → ((ts_cmp a b ≡ negative) ↔ Earlier a b)
      × ((ts_cmp a b ≡ none_of_both) ↔ (a ≡ b))
      × ((ts_cmp a b ≡ positive) ↔ Earlier b a)
unfolding ts_cmp
ts_cmp_lem a b = (
  ground (arith, eq_of_parts a.tv_sec b.tv_sec),
  ground (arith, eq_of_parts a.tv_sec b.tv_sec),
  ground (arith, eq_of_parts a.tv_sec b.tv_sec),
)

pub is_newer-eq-is_older : (a b : Timespec) → is_newer a b ≡ is_older b a
unfolding is_newer is_older
is_newer-eq-is_older a b = ground arith

pub is_older_trans :
    (a b c : Timespec) → is_older a b ≡ false → is_older b c ≡ false → is_older a c ≡ false
unfolding is_older
is_older_trans a b c h k = ground arith

pub is_older_refl : (a : Timespec) → is_older a a ≡ false
unfolding is_older
is_older_refl a = ground arith

pub is_older_total : (a b : Timespec) → is_older a b ≡ true → is_older b a ≡ false
unfolding is_older
is_older_total a b h = ground arith
