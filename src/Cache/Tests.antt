-- ===== src/Cache/Tests.antt =====
-- A cache with room for two names.
use stirmake.Prelude.{ℕ, ◌+◌, ◌≡◌, ◌≢◌, ◌==◌, if◌then◌else◌, refl, some, List, [], ◌∷◌, arith}
use stirmake.Cache.{Cache, find, cache_init, at_start, evict_all, cached, evict_named}
use stirmake.Cache.Coherent.{IsCoherent, cached-IsCoherent, evict_named-IsCoherent}
use stirmake.Cache.Runs.{Used, sets_up, changes, changes_all, cached-Used}

abbrev size_of : ℕ → ℕ
size_of i = i + 100

abbrev grown_file : ℕ → ℕ
grown_file i = if i == 7 then 200 else i + 100

abbrev full : Cache ℕ
full = record { lru = (8, 108) ∷ (7, 107) ∷ []; free = 0; count = 2; size = 2 }

-- The name that was used first is evicted.
cached-full :
    cached size_of full 9
    ≡ some (record { lru = (9, 109) ∷ (8, 108) ∷ []; free = 0; count = 2; size = 2 }, 109)
unfolding cached
cached-full = refl

full-IsCoherent : IsCoherent size_of full
unfolding find
full-IsCoherent = record {
  keyed = (refl, (refl, tt));
  agrees = (refl, (refl, tt));
  counted = refl;
  limited = omega arith;
  some_entry = omega arith;
}

cached-IsCoherent_example :
    (after : Cache ℕ) × (cached size_of full 9 ≡ some (after, 109))
    × IsCoherent size_of after
    × (names : List (ℕ × ℕ)) × (after.lru ≡ (9, 109) ∷ names)
cached-IsCoherent_example = cached-IsCoherent size_of full 9 full-IsCoherent

others_same : (j : ℕ) → ◌≢◌ {A = ℕ} 7 j → grown_file j ≡ size_of j
others_same j h = ground arith

evict_named-IsCoherent_example : IsCoherent grown_file (evict_named full 7)
evict_named-IsCoherent_example =
    evict_named-IsCoherent size_of grown_file full 7 others_same full-IsCoherent

-- The cache is set up and filled, a file grows, and then any file may have changed.
abbrev started : Cache ℕ
started = cache_init 256 (at_start 2)

used : (c : Cache ℕ) × Used 256 2 size_of c
used =
    let (c7, _, u7) =
      cached-Used 256 2 (omega arith) (omega arith) size_of started 7 (sets_up size_of) in
    let (c8, _, u8) = cached-Used 256 2 (omega arith) (omega arith) size_of c7 8 u7 in
    (evict_all 256 (evict_named c8 7), changes_all size_of (changes grown_file 7 u8 others_same))

cached-Used_example :
    (after : Cache ℕ) × (cached size_of used.0 9 ≡ some (after, 109)) × Used 256 2 size_of after
cached-Used_example = cached-Used 256 2 (omega arith) (omega arith) size_of used.0 9 used.1
