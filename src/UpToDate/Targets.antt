-- ===== src/UpToDate/Targets.antt =====
-- The loop over the targets of a rule with dependencies: it finds the oldest target.
use stirmake.Prelude.{
  ℕ, ◌≡◌, ◌↔◌, sym, ◌∙◌, subst, true, false, not, ◌||◌, if◌then◌else◌, inl, inr, Bool-cases,
  Option-cases, some, List, [], ◌∷◌, foldl, arith, All,
}
use stirmake.Time.{Timespec, is_older}
use stirmake.Time.Order.{is_older_trans, is_older_refl, is_older_total}
use stirmake.Db.{Tsdbe, cmdequal_db}
use stirmake.UpToDate.{World, Rule, Stat, TgtScan, tgt_time, tsdb_differs, tgt_round}

module _ (w : World) (r : Rule) (tsdb : List Tsdbe) where
  -- A target by which the rule need not run.
  pub record IsKept (i : ℕ) : Type 0 where
    pub she : Stat
    pub exists : w.lstat_cached i ≡ some she
    pub recorded : cmdequal_db w.db i r.cmd r.diridx ≡ true
    pub unchanged : tsdb_differs w tsdb i she ≡ false

  abbrev round : TgtScan → ℕ → TgtScan
  round = tgt_round w r tsdb

  has-round :
      (s : TgtScan) (i : ℕ) → (round s i).has_to_exec ≡ false → (s.has_to_exec ≡ false) × IsKept i
  unfolding tgt_round tgt_time
  has-round s i h = elim (Option-cases (w.lstat_cached i)) [
    | inl none_there ↦ absurd (ground arith)
    | inr (she, there) ↦ (
      ground arith,
      record { she = she; exists = there; recorded = ground arith; unchanged = ground arith },
    )
  ]

  round-IsKept :
      (s : TgtScan) (i : ℕ) (k : IsKept i)
      → ((round s i).has_to_exec ≡ s.has_to_exec)
        × ((round s i).seen_tgt ≡ true)
        × ((round s i).st_mtimtgt ≡ (
            if not s.seen_tgt || is_older k.she.st_mtim s.st_mtimtgt
            then k.she.st_mtim
            else s.st_mtimtgt))
  unfolding tgt_round tgt_time
  round-IsKept s i k = ground (arith, k.exists, k.recorded, k.unchanged)

  pub tgts_has :
      (is : List ℕ) (s : TgtScan)
      → ((foldl round s is).has_to_exec ≡ false) ↔ ((s.has_to_exec ≡ false) × All IsKept is)
  tgts_has [] s = (λ p. (p, tt), λ p. p.0)
  tgts_has (i ∷ is) s = (
    λ p.
        let (here, rest) = (tgts_has is (round s i)).0 p in
        let (before, kept) = has-round s i here in (before, (kept, rest)),
    λ (p, (kept, rest)). (tgts_has is (round s i)).1 ((round-IsKept s i kept).0 ∙ p, rest),
  )

  -- `P` of the time of every kept target.
  abbrev pub AllTimes {ℓ} : (Timespec → Type ℓ) → (is : List ℕ) → All IsKept is → Type ℓ
  AllTimes P [] k = Unit
  AllTimes P (i ∷ is) k = P k.0.she.st_mtim × AllTimes P is k.1

  round_seen : (s : TgtScan) (i : ℕ) → IsKept i → (round s i).seen_tgt ≡ true
  round_seen s i k = (round-IsKept s i k).1

  fold_seen :
      (is : List ℕ) (s : TgtScan)
      → All IsKept is
      → s.seen_tgt ≡ true
      → (foldl round s is).seen_tgt ≡ true
  fold_seen [] s k h = h
  fold_seen (i ∷ is) s k h = fold_seen is (round s i) k.1 (round_seen s i k.0)

  pub tgts_seen :
      (i : ℕ) (is : List ℕ) (s : TgtScan)
      → All IsKept (i ∷ is)
      → (foldl round s (i ∷ is)).seen_tgt ≡ true
  tgts_seen i is s k = fold_seen is (round s i) k.1 (round_seen s i k.0)

  -- A target that was seen is not older than the oldest one.
  oldest_before :
      (is : List ℕ) (s : TgtScan)
      → All IsKept is
      → s.seen_tgt ≡ true
      → is_older s.st_mtimtgt (foldl round s is).st_mtimtgt ≡ false
  oldest_before [] s k h = is_older_refl s.st_mtimtgt
  oldest_before (i ∷ is) s k h =
      is_older_trans s.st_mtimtgt (round s i).st_mtimtgt (foldl round s (i ∷ is)).st_mtimtgt
        (rw (round-IsKept s i k.0).2
          (ground (arith, is_older_refl s.st_mtimtgt, is_older_total k.0.she.st_mtim s.st_mtimtgt)))
        (oldest_before is (round s i) k.1 (round_seen s i k.0))

  pub oldest-le :
      (is : List ℕ) (s : TgtScan) (k : All IsKept is)
      → AllTimes (λ t. is_older t (foldl round s is).st_mtimtgt ≡ false) is k
  oldest-le [] s k = tt
  oldest-le (i ∷ is) s k = (
    is_older_trans k.0.she.st_mtim (round s i).st_mtimtgt (foldl round s (i ∷ is)).st_mtimtgt
        (rw (round-IsKept s i k.0).2 (ground (arith, is_older_refl k.0.she.st_mtim)))
        (oldest_before is (round s i) k.1 (round_seen s i k.0)),
    oldest-le is (round s i) k.1,
  )

  -- What holds of every target holds of the oldest one.
  oldest_from {ℓ} :
      (P : Timespec → Type ℓ) (is : List ℕ) (s : TgtScan) (k : All IsKept is)
      → AllTimes P is k
      → P s.st_mtimtgt
      → s.seen_tgt ≡ true
      → P (foldl round s is).st_mtimtgt
  oldest_from P [] s k h p seen = p
  oldest_from P (i ∷ is) s k h p seen =
      oldest_from P is (round s i) k.1 h.1
        (subst P (sym (round-IsKept s i k.0).2)
          (elim (Bool-cases (not s.seen_tgt || is_older k.0.she.st_mtim s.st_mtimtgt)) [
            | inl e ↦ rw e h.0
            | inr e ↦ rw e p
          ]))
        (round_seen s i k.0)

  pub oldest_holds {ℓ} :
      (P : Timespec → Type ℓ) (i : ℕ) (is : List ℕ) (s : TgtScan) (k : All IsKept (i ∷ is))
      → AllTimes P (i ∷ is) k
      → s.seen_tgt ≡ false
      → P (foldl round s (i ∷ is)).st_mtimtgt
  oldest_holds P i is s k h unseen =
      oldest_from P is (round s i) k.1 h.1 (subst P (sym (round-IsKept s i k.0).2) (rw unseen h.0))
        (round_seen s i k.0)
