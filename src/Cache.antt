-- ===== src/Cache.antt =====
-- stirc/statcache.c and stirc/accesscache.c, which are one program for two system calls: what
-- lstat or access said of a name, with the least recently used name evicted from a full cache. The
-- entries in use are the list statlrulist in its order, with the search trees as an index of it; of
-- the free entries only the number counts.
pub mod Keys
pub mod Coherent
pub mod Runs
mod Tests
use stirmake.Prelude.{
  ℕ, suc, ◌+◌, ◌-◌, ◌*◌, ◌==◌, ltb, if◌then◌else◌, Bool, not, Option, none, some, List, [], ◌∷◌,
}

module _ {V : Type 0} where
  unfoldable pub find : List (ℕ × V) → ℕ → Option V
  find [] k = none
  find (e ∷ es) k = if e.0 == k then some e.1 else find es k

  unfoldable pub delete : List (ℕ × V) → ℕ → List (ℕ × V)
  delete [] k = []
  delete (e ∷ es) k = if e.0 == k then es else e ∷ delete es k

  unfoldable pub without_last : List (ℕ × V) → List (ℕ × V)
  without_last [] = []
  without_last (e ∷ []) = []
  without_last (e ∷ f ∷ es) = e ∷ without_last (f ∷ es)

-- `free` is the length of statfreelist, `count` stathashentriescnt and `size` statcache_size.
pub record Cache (V : Type 0) : Type 0 where
  pub lru : List (ℕ × V)
  pub free : ℕ
  pub count : ℕ
  pub size : ℕ

module _ {V : Type 0} where
  -- statcache_init, which adds its entries to the free list, where neither list has one; `initial`
  -- is STATHASH_SIZE_INIT.
  unfoldable pub cache_init : ℕ → Cache V → Cache V
  cache_init initial c =
      let n = if c.count == 0 then (if ltb c.size initial then c.size else initial) else c.count in
      record c { free = c.free + n; count = n }

  -- stathashentry_evict_all: both lists are emptied, then statcache_init adds new entries.
  unfoldable pub evict_all : ℕ → Cache V → Cache V
  unfolding cache_init
  evict_all initial c = cache_init initial (record c { lru = []; free = 0 })

  -- The static variables when the program starts, with the limit statcache_size.
  abbrev pub at_start : ℕ → Cache V
  at_start size = record { lru = []; free = 0; count = 0; size = size }

  pub cache_grow : Cache V → Cache V
  cache_grow c =
      let n = if ltb c.size (2 * c.count) then c.size else 2 * c.count in
      if n == c.count then c else record c { free = c.free + (n - c.count); count = n }

  -- `none` where there is no entry to evict.
  pub evict : Cache V → Option (Cache V)
  unfolding without_last
  evict c = elim c.lru [
    | [] ↦ none
    | e ∷ es ↦ some (record c { lru = without_last (e ∷ es); free = suc c.free })
  ]

  pub ensure_evict : Cache V → Option (Cache V)
  unfolding cache_grow evict
  ensure_evict c =
      if not (c.free == 0)
      then some c
      else (let g = cache_grow c in if not (g.free == 0) then some g else evict g)

  -- lstat_evict_named
  pub evict_named : Cache V → ℕ → Cache V
  unfolding find delete
  evict_named c k = elim (find c.lru k) [
    | none ↦ c
    | some _ ↦ record c { lru = delete c.lru k; free = suc c.free }
  ]

  -- An entry taken from the free list.
  pub put : (ℕ → V) → ℕ → Cache V → Cache V × V
  put ask k c = (record c { lru = (k, ask k) ∷ c.lru; free = c.free - 1 }, ask k)

  -- lstat_cached; `ask` is the system call.
  pub cached : (ℕ → V) → Cache V → ℕ → Option (Cache V × V)
  unfolding find delete ensure_evict put
  cached ask c k = elim (find c.lru k) [
    | some v ↦ some (record c { lru = (k, v) ∷ delete c.lru k }, v)
    | none ↦ elim (ensure_evict c) [ none ↦ none | some e ↦ some (put ask k e) ]
  ]
