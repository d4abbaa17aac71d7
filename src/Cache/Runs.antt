-- ===== src/Cache/Runs.antt =====
-- The cache over a run of the program, in which files change.
use mathlib.Core.Option.{some-injective}
use stirmake.Prelude.{ℕ, ◌<◌, ◌≡◌, ◌≢◌, sym, ap, ◌∙◌, subst, some}
use stirmake.Cache.{Cache, cache_init, evict_all, at_start, evict_named, cached}
use stirmake.Cache.Coherent.{
  IsCoherent, cached-IsCoherent, evict_named-IsCoherent, cache_init-IsCoherent,
  evict_all-IsCoherent,
}

module _ {V : Type 0} (initial size : ℕ) where
  -- The states of the cache with what the system call answers then: the program sets the cache up
  -- once, and evicts a name whose file it changes, or all names where any file may have changed.
  pub data Used : (ℕ → V) → Cache V → Type 0 where
    sets_up : (ask : ℕ → V) → Used ask (cache_init initial (at_start size))
    asks :
        {ask : ℕ → V} {c : Cache V} (k : ℕ) (v : V) (after : Cache V)
        → Used ask c
        → cached ask c k ≡ some (after, v)
        → Used ask after
    changes :
        {ask : ℕ → V} {c : Cache V} (now : ℕ → V) (k : ℕ)
        → Used ask c
        → ((j : ℕ) → k ≢ j → now j ≡ ask j)
        → Used now (evict_named c k)
    changes_all :
        {ask : ℕ → V} {c : Cache V} (now : ℕ → V) → Used ask c → Used now (evict_all initial c)

module _ {V : Type 0} (initial size : ℕ) (i : 0 < initial) (s : 0 < size) where
  IsCoherent-Used : {ask : ℕ → V} {c : Cache V} → Used initial size ask c → IsCoherent ask c
  IsCoherent-Used (sets_up ask) = cache_init-IsCoherent ask initial size i s
  IsCoherent-Used (asks {ask} {c} k v after u e) =
      let (c', q, coherent, _, _) = cached-IsCoherent ask c k (IsCoherent-Used u) in
      let same : c' ≡ after = ap (λ p. p.0) (some-injective _ _ (sym q ∙ e)) in
      subst (IsCoherent ask) same coherent
  IsCoherent-Used (changes {ask} {c} now k u same) =
      evict_named-IsCoherent ask now c k same (IsCoherent-Used u)
  IsCoherent-Used (changes_all {ask} {c} now u) =
      evict_all-IsCoherent ask now initial c (IsCoherent-Used u)

  -- Of a program that sets the cache up with a limit and a first size that are not 0, and that evicts
  -- each name whose file it changes, or all names, lstat_cached always answers, and what the system
  -- call answers then, however often the cache grew or evicted a name before.
  pub cached-Used :
      (ask : ℕ → V) (c : Cache V) (k : ℕ)
      → Used initial size ask c
      → (after : Cache V) × (cached ask c k ≡ some (after, ask k)) × Used initial size ask after
  cached-Used ask c k u =
      let (after, q, _, _, _) = cached-IsCoherent ask c k (IsCoherent-Used u) in
      (after, q, asks k (ask k) after u q)
