-- ===== src/Cycle/Correct.antt =====
-- The search finds a cycle exactly where there is one.
use stirmake.Prelude.{
  ℕ, zero, suc, ◌<◌, ◌≡◌, ◌⊎◌, ◌↔◌, inl, inr, refl, sym, ap, ◌∙◌, subst, ◌==◌, ==-refl,
  if◌then◌else◌, Bool, true, false, ◌||◌, ◌&&◌, Bool-cases, List, [], get_or, set, length,
  length-set, arith,
}
use stirmake.UpToDate.{Stirdep}
use stirmake.Cycle.{
  Flags, Detected, out_of_fuel, cycle_found, finished, enter, leave, left, better_cycle_detect_impl,
  better_cycle_detect, zeros,
}
use stirmake.Cycle.Arrays.{
  unset, get_or-set, unset-set, set-set, length-zeros, get_or-zeros, unset-zeros,
}
use stirmake.Cycle.Graph.{
  Edge, Chain, one, link, Reaches, HasCycle, IsSafe, safe, snoc, IsSafe-no_cycle,
}
use stirmake.Cycle.Loop.{clear, parent, IsSound, Visited, Looped, visit_deps-Looped}

-- What the result of the search for a cycle below `cur` says.
abbrev pub Decided : List (List Stirdep) → Bool → List Bool → ℕ → Detected → Type 0
Decided rules mark start cur out_of_fuel = ⊥
Decided rules mark start cur cycle_found = HasCycle rules cur
Decided rules mark start cur (finished t) =
    ¬ HasCycle rules cur
    × ((v : ℕ) → (clear t v ≡ true) ↔ Reaches rules cur v)
    × ((v : ℕ) → get_or t.is_traversed v false ≡ (get_or start v false || mark && clear t v))

module _ (rules : List (List Stirdep)) (mark : Bool) (start : List Bool) where
  abbrev Sound : Flags → Type 0
  Sound = IsSound rules mark start

  entered_size : (cur : ℕ) (s : Flags) → Sound s → Sound (enter cur s)
  unfolding enter
  entered_size cur s i = record {
    no_cycles_size = i.no_cycles_size;
    parents_size = length-set s.parents cur true ∙ i.parents_size;
    traversed_size = i.traversed_size;
    below = i.below;
    closed = i.closed;
    traversed = i.traversed;
  }

  -- The flags after the loop over all dependencies of `cur`.
  clear-leave :
      (cur v : ℕ) (t : Flags)
      → Sound t
      → cur < length rules
      → clear (leave mark cur t) v ≡ (if cur == v then true else clear t v)
  unfolding leave
  clear-leave cur v t i h = get_or-set t.no_cycles cur v true (omega (arith, i.no_cycles_size))

  traversed-leave :
      (cur v : ℕ) (t : Flags)
      → Sound t
      → cur < length rules
      → get_or (leave mark cur t).is_traversed v false
        ≡ (if mark && cur == v then true else get_or t.is_traversed v false)
  unfolding leave
  traversed-leave cur v t i h = by_mark mark
    where
      by_mark :
          (b : Bool)
          → get_or (if b then set t.is_traversed cur true else t.is_traversed) v false
            ≡ (if b && cur == v then true else get_or t.is_traversed v false)
      by_mark true = get_or-set t.is_traversed cur v true (omega (arith, i.traversed_size))
      by_mark false = refl

  IsSound-leave :
      (cur : ℕ) (t : Flags)
      → Sound t
      → cur < length rules
      → ((v : ℕ) → Edge rules cur v → clear t v ≡ true)
      → Sound (leave mark cur t)
  IsSound-leave cur t i h all = record {
    no_cycles_size = unfold leave in length-set t.no_cycles cur true ∙ i.no_cycles_size;
    parents_size = unfold leave in length-set t.parents cur false ∙ i.parents_size;
    traversed_size = (unfold leave in size mark);
    below = λ v c. below v (sym (clear-leave cur v t i h) ∙ c);
    closed = λ v w c e. closed v w (sym (clear-leave cur v t i h) ∙ c) e;
    traversed =
        λ v. ground (arith, traversed-leave cur v t i h, clear-leave cur v t i h, i.traversed v);
  }
    where
      still : (w : ℕ) → clear t w ≡ true → (if cur == w then true else clear t w) ≡ true
      still w c = ground arith

      cur_is : (v : ℕ) → (cur == v) ≡ true → cur ≡ v
      cur_is v e = ground arith

      size :
          (b : Bool)
          → length (if b then set t.is_traversed cur true else t.is_traversed) ≡ length rules
      size true = length-set t.is_traversed cur true ∙ i.traversed_size
      size false = i.traversed_size

      below : (v : ℕ) → (if cur == v then true else clear t v) ≡ true → IsSafe rules v
      below v c = elim (Bool-cases (cur == v)) [
        | inl e ↦ subst (IsSafe rules) (cur_is v e) (safe (λ w k. i.below w (all w k)))
        | inr e ↦ i.below v (ground arith)
      ]

      closed :
          (v w : ℕ)
          → (if cur == v then true else clear t v) ≡ true
          → Edge rules v w
          → clear (leave mark cur t) w ≡ true
      closed v w c e =
          clear-leave cur w t i h
          ∙ still w (elim (Bool-cases (cur == v)) [
            | inl q ↦ all w (subst (λ k. Edge rules k w) (sym (cur_is v q)) e)
            | inr q ↦ i.closed v w (ground arith) e
          ])

  -- Every rule that a dependency names is there.
  module _ (inside : (u v : ℕ) → Edge rules u v → v < length rules) where
    -- The rules that are being visited lead to the one that is entered.
    left-Visited :
        (cur : ℕ) (s : Flags) (x : Detected)
        → cur < length rules
        → parent s cur ≡ false
        → Looped rules mark start cur (get_or rules cur []) (enter cur s) x
        → Visited rules mark start cur s (left mark cur x)
    unfolding left enter
    left-Visited cur s out_of_fuel h p v = v
    left-Visited cur s cycle_found h p v = v
    left-Visited cur s (finished t) h p (a, all) = (
      record {
        sound = IsSound-leave cur t a.sound h all;
        same = (unfold leave enter in ap (λ ps. set ps cur false) a.same ∙ set-set s.parents cur p);
        kept = λ v c. clear-leave cur v t a.sound h ∙ kept v (a.kept v (unfold enter in c));
        new = λ v c. new v (sym (clear-leave cur v t a.sound h) ∙ c);
      },
      clear-leave cur cur t a.sound h ∙ here,
    )
      where
        kept : (v : ℕ) → clear t v ≡ true → (if cur == v then true else clear t v) ≡ true
        kept v c = ground arith

        here : (if cur == cur then true else clear t cur) ≡ true
        here = ground (arith, ==-refl cur)

        new :
            (v : ℕ)
            → (if cur == v then true else clear t v) ≡ true
            → (clear s v ≡ true) ⊎ Reaches rules cur v
        new v c = elim (Bool-cases (cur == v)) [
          | inl e ↦ inr (inl (ground arith))
          | inr e ↦ elim (a.new v (ground arith)) [ inl k ↦ inl k | inr r ↦ inr (inr r) ]
        ]

    -- The rules that are being visited, `cur` with them, lead to each dependency of `cur`.
    still_up :
        (cur d : ℕ) (s : Flags)
        → cur < length s.parents
        → Edge rules cur d
        → ((v : ℕ) → parent s v ≡ true → Chain rules v cur)
        → (v : ℕ) → get_or (set s.parents cur true) v false ≡ true
        → Chain rules v d
    still_up cur d s h edge up v p = elim (Bool-cases (cur == v)) [
      | inl e ↦ subst (λ k. Chain rules k d) (ground arith) (one edge)
      | inr e ↦ snoc rules (up v (ground (arith, get_or-set s.parents cur v true h))) edge
    ]

    visited :
        (fuel cur : ℕ) (s : Flags)
        → cur < length rules
        → unset s.parents < fuel
        → Sound s
        → ((v : ℕ) → parent s v ≡ true → Chain rules v cur)
        → Visited rules mark start cur s (better_cycle_detect_impl rules mark fuel cur s)
    unfolding better_cycle_detect_impl
    visited zero cur s h f i up = absurd (omega arith)
    visited (suc fuel) cur s h f i up =
        let in_range : cur < length s.parents = omega (arith, i.parents_size) in
        elim (Bool-cases (clear s cur)) [
          | inl c ↦
              rw (c, better_cycle_detect_impl)
                (record { sound = i; same = refl; kept = λ v k. k; new = λ v k. inl k }, c)
          | inr c ↦ elim (Bool-cases (parent s cur)) [
            | inl p ↦ rw (c, p, better_cycle_detect_impl) (cur, inl refl, up cur p)
            | inr p ↦
                rw (c, p, better_cycle_detect_impl)
                  (left-Visited cur s _ h p (
                    visit_deps-Looped rules mark start (better_cycle_detect_impl rules mark fuel)
                      cur (enter cur s).parents
                      (λ d t edge same sound.
                        visited fuel d t (inside cur d edge)
                          (unfold enter in
                            omega (arith, ap unset same, unset-set s.parents cur in_range p))
                          sound
                          (λ v k.
                            still_up cur d s in_range edge up v
                              (unfold enter in (ap (λ ps. get_or ps v false) (sym same) ∙ k))))
                      (get_or rules cur []) (λ v l. l) (enter cur s) refl (entered_size cur s i)))
          ]
        ]

  reached : (a b : ℕ) (t : Flags) → Sound t → clear t a ≡ true → Chain rules a b → clear t b ≡ true
  reached a b t i c (one e) = i.closed a b c e
  reached a b t i c (link {v} e k) = reached v b t i (i.closed a v c e) k

  Decided-Visited :
      (cur : ℕ) (s : Flags) (x : Detected)
      → ((v : ℕ) → clear s v ≡ false)
      → Visited rules mark start cur s x
      → Decided rules mark start cur x
  Decided-Visited cur s out_of_fuel none_clear v = v
  Decided-Visited cur s cycle_found none_clear v = v
  Decided-Visited cur s (finished t) none_clear (a, c) =
      (IsSafe-no_cycle rules (a.sound.below cur c), λ v. (new v, back v), a.sound.traversed)
    where
      new : (v : ℕ) → clear t v ≡ true → Reaches rules cur v
      new v k = elim (a.new v k) [ inl old ↦ absurd (cc (none_clear v)) | inr r ↦ r ]

      back : (v : ℕ) → Reaches rules cur v → clear t v ≡ true
      back v (inl e) = subst (λ k. clear t k ≡ true) e c
      back v (inr k) = reached cur v t a.sound c k

-- Where all rules that dependencies name are there, better_cycle_detect comes to an end. It finds a
-- cycle only if the rule reaches one. If it returns, the rule reaches none; then just the rules that
-- the rule reaches have the flag no_cycles, and if rules are to be marked these are added to the
-- traversed ones.
pub better_cycle_detect_lem :
    (rules : List (List Stirdep)) (mark : Bool) (start : List Bool) (cur : ℕ)
    → ((u v : ℕ) → Edge rules u v → v < length rules)
    → cur < length rules
    → length start ≡ length rules
    → Decided rules mark start cur (better_cycle_detect rules mark start cur)
unfolding better_cycle_detect
better_cycle_detect_lem rules mark start cur inside h size =
    let s : Flags = record {
      no_cycles = zeros rules;
      parents = zeros rules;
      is_traversed = start;
    } in
    Decided-Visited rules mark start cur s _ (get_or-zeros rules) (
      visited rules mark start inside (suc (length rules)) cur s h
        (omega (arith, unset-zeros rules))
        (record {
          no_cycles_size = length-zeros rules;
          parents_size = length-zeros rules;
          traversed_size = size;
          below = λ v c. absurd (cc (get_or-zeros rules v));
          closed = λ v w c e. absurd (cc (get_or-zeros rules v));
          traversed = λ v. ground (arith, get_or-zeros rules v);
        })
        (λ v p. absurd (cc (get_or-zeros rules v))))
