-- ===== src/Cache/Coherent.antt =====
-- The cache answers as the system call does.
use stirmake.Prelude.{
  ℕ, suc, ◌+◌, ◌*◌, ◌≤◌, ◌<◌, ◌≡◌, ◌≢◌, false, refl, ap, ◌∙◌, subst, ◌==◌, ==-refl, ltb,
  if◌then◌else◌, inl, inr, Bool-cases, Option-cases, List-cases, none, some, List, [], ◌∷◌, length,
  All, arith,
}
use stirmake.Cache.{
  find, delete, without_last, Cache, cache_init, evict_all, at_start, cache_grow, evict,
  ensure_evict, evict_named, put, cached,
}
use stirmake.Cache.Keys.{
  IsKeyed, find-delete, IsKeyed-delete, length-delete, IsKeyed-without_last, length-without_last,
  All-delete, All-without_last, All-find, find-without_last,
}

-- The number of entries behind statcache_grow.
grown : ℕ → ℕ → ℕ
grown count size = if ltb size (2 * count) then size else 2 * count

grown_bounds :
    (count size : ℕ) → count ≤ size → (count ≤ grown count size) × (grown count size ≤ size)
unfolding grown
grown_bounds count size h = (ground arith, ground arith)

module _ {V : Type 0} where
  abbrev Agrees : (ℕ → V) → ℕ × V → Type 0
  Agrees ask e = ask e.0 ≡ e.1

  -- One entry for a name, each with the present answer of the system call, and no more entries than
  -- the limit.
  pub record IsCoherent (ask : ℕ → V) (c : Cache V) : Type 0 where
    pub keyed : IsKeyed c.lru
    pub agrees : All (Agrees ask) c.lru
    pub counted : length c.lru + c.free ≡ c.count
    pub limited : c.count ≤ c.size
    pub some_entry : 0 < c.count

  cache_grow-IsCoherent :
      (ask : ℕ → V) (c : Cache V)
      → IsCoherent ask c
      → IsCoherent ask (cache_grow c) × ((cache_grow c).lru ≡ c.lru)
  unfolding cache_grow grown
  cache_grow-IsCoherent ask c h =
      let g = grown_bounds c.count c.size h.limited in
      elim (Bool-cases (grown c.count c.size == c.count)) [
        | inl e ↦ rw e (h, refl)
        | inr e ↦ rw e (
          record {
            keyed = h.keyed;
            agrees = h.agrees;
            counted = omega (arith, h.counted, g.0);
            limited = g.1;
            some_entry = omega (arith, h.some_entry, g.0);
          },
          refl,
        )
      ]

  evict-IsCoherent :
      (ask : ℕ → V) (c : Cache V) (k : ℕ)
      → IsCoherent ask c
      → c.free ≡ 0
      → find c.lru k ≡ none
      → (e : Cache V) × (evict c ≡ some e) × IsCoherent ask e × (find e.lru k ≡ none) × (0 < e.free)
  unfolding evict
  evict-IsCoherent ask c k h f n = elim (List-cases c.lru) [
    | inl q ↦ absurd (omega (arith, ap length q, f, h.counted, h.some_entry))
    | inr (x, xs, q) ↦ (
      record c { lru = without_last (x ∷ xs); free = suc c.free },
      (rw q refl),
      record {
        keyed = IsKeyed-without_last (x ∷ xs) (subst IsKeyed q h.keyed);
        agrees = All-without_last (Agrees ask) (x ∷ xs) (subst (All (Agrees ask)) q h.agrees);
        counted = omega (arith, ap length q, f, h.counted, length-without_last x xs);
        limited = h.limited;
        some_entry = h.some_entry;
      },
      find-without_last (x ∷ xs) k (subst (λ l. find l k ≡ none) q n),
      omega arith,
    )
  ]

  ensure_evict-IsCoherent :
      (ask : ℕ → V) (c : Cache V) (k : ℕ)
      → IsCoherent ask c
      → find c.lru k ≡ none
      → (e : Cache V) × (ensure_evict c ≡ some e)
        × IsCoherent ask e
        × (find e.lru k ≡ none)
        × (0 < e.free)
  unfolding ensure_evict
  ensure_evict-IsCoherent ask c k h n =
      let (grown_h, same) = cache_grow-IsCoherent ask c h in
      let g = cache_grow c in
      let here : find g.lru k ≡ none = ap (λ l. find l k) same ∙ n in
      elim (Bool-cases (c.free == 0)) [
        | inr room ↦ (c, (rw room refl), h, n, (ground arith))
        | inl full ↦ elim (Bool-cases (g.free == 0)) [
          | inr room ↦ (g, (rw (full, room) refl), grown_h, here, (ground arith))
          | inl still ↦
              let (e, q, coherent, absent, room) =
                evict-IsCoherent ask g k grown_h (ground arith) here in
              (e, (rw (full, still) q), coherent, absent, room)
        ]
      ]

  put-IsCoherent :
      (ask : ℕ → V) (c : Cache V) (k : ℕ)
      → IsCoherent ask c
      → find c.lru k ≡ none
      → 0 < c.free
      → IsCoherent ask (put ask k c).0
  unfolding put
  put-IsCoherent ask c k h n f = record {
    keyed = (n, h.keyed);
    agrees = (refl, h.agrees);
    counted = omega (arith, h.counted);
    limited = h.limited;
    some_entry = h.some_entry;
  }

  -- Of a coherent cache lstat_cached always answers, and what the system call would answer; the cache
  -- stays coherent, and the name is its most recently used one.
  pub cached-IsCoherent :
      (ask : ℕ → V) (c : Cache V) (k : ℕ)
      → IsCoherent ask c
      → (after : Cache V) × (cached ask c k ≡ some (after, ask k))
        × IsCoherent ask after
        × (names : List (ℕ × V)) × (after.lru ≡ (k, ask k) ∷ names)
  unfolding cached
  cached-IsCoherent ask c k h = elim (Option-cases (find c.lru k)) [
    | inl absent ↦
        let (e, q, coherent, n, room) = ensure_evict-IsCoherent ask c k h absent in
        (
          (put ask k e).0,
          (rw (absent, cached, q) (unfold put in refl)),
          put-IsCoherent ask e k coherent n room,
          e.lru,
          (unfold put in refl),
        )
    | inr (v, present) ↦
        let answer : ask k ≡ v = All-find (Agrees ask) c.lru k v present h.agrees in
        (
          record c { lru = (k, ask k) ∷ delete c.lru k },
          (rw (present, cached, answer) refl),
          record {
            keyed = (find-delete c.lru k h.keyed, IsKeyed-delete c.lru k h.keyed);
            agrees = (refl, All-delete (Agrees ask) c.lru k h.agrees);
            counted = omega (arith, h.counted, length-delete c.lru k v present);
            limited = h.limited;
            some_entry = h.some_entry;
          },
          delete c.lru k,
          refl,
        )
  ]

  Agrees-after :
      (ask now : ℕ → V) (k : ℕ) (es : List (ℕ × V))
      → ((j : ℕ) → k ≢ j → now j ≡ ask j)
      → find es k ≡ none
      → All (Agrees ask) es
      → All (Agrees now) es
  unfolding find
  Agrees-after ask now k [] same n h = tt
  Agrees-after ask now k (e ∷ es) same n h = (
    same e.0 (λ q. absurd (ground (arith, ==-refl k, n))) ∙ h.0,
    Agrees-after ask now k es same (ground arith) h.1,
  )

  -- Where the system call changes its answer for one name only, evicting that name makes a coherent
  -- cache coherent again.
  pub evict_named-IsCoherent :
      (ask now : ℕ → V) (c : Cache V) (k : ℕ)
      → ((j : ℕ) → k ≢ j → now j ≡ ask j)
      → IsCoherent ask c
      → IsCoherent now (evict_named c k)
  unfolding evict_named
  evict_named-IsCoherent ask now c k same h = elim (Option-cases (find c.lru k)) [
    | inl absent ↦
        rw (absent, evict_named)
          (record {
            keyed = h.keyed;
            agrees = Agrees-after ask now k c.lru same absent h.agrees;
            counted = h.counted;
            limited = h.limited;
            some_entry = h.some_entry;
          })
    | inr (v, present) ↦
        rw (present, evict_named)
          (record {
            keyed = IsKeyed-delete c.lru k h.keyed;
            agrees =
                Agrees-after ask now k (delete c.lru k) same (find-delete c.lru k h.keyed)
                  (All-delete (Agrees ask) c.lru k h.agrees);
            counted = omega (arith, h.counted, length-delete c.lru k v present);
            limited = h.limited;
            some_entry = h.some_entry;
          })
  ]

  -- The cache of the start of the program.
  pub cache_init-IsCoherent :
      (ask : ℕ → V) (initial size : ℕ)
      → 0 < initial
      → 0 < size
      → IsCoherent ask (cache_init initial (at_start size))
  unfolding cache_init
  cache_init-IsCoherent ask initial size i s = record {
    keyed = tt;
    agrees = tt;
    counted = omega arith;
    limited = ground arith;
    some_entry = ground arith;
  }

  -- Whatever the system call answers now.
  pub evict_all-IsCoherent :
      (ask now : ℕ → V) (initial : ℕ) (c : Cache V)
      → IsCoherent ask c
      → IsCoherent now (evict_all initial c)
  unfolding evict_all
  evict_all-IsCoherent ask now initial c h =
      let used : (c.count == 0) ≡ false = ground (arith, h.some_entry) in
      rw used (record {
        keyed = tt;
        agrees = tt;
        counted = omega arith;
        limited = h.limited;
        some_entry = h.some_entry;
      })
