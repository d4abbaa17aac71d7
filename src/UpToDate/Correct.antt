-- ===== src/UpToDate/Correct.antt =====
-- do_exec queues exactly the rules that are not up to date.
use stirmake.Prelude.{
  ℕ, ◌≡◌, ◌≢◌, ◌↔◌, refl, sym, ◌∙◌, Bool, true, false, inl, inr, Bool-cases, some, List, [], ◌∷◌,
  foldl, arith, All,
}
use stirmake.Time.{Timespec, is_older}
use stirmake.Db.{Tsdbe}
use stirmake.UpToDate.{
  World, Rule, DepScan, TgtScan, Outcome, very_old, tgt_time, tgt_round, conclude, dep_loop,
  tgt_loop, with_deps, tests, has_deps, queued, epoch, do_exec,
}
use stirmake.UpToDate.Scan.{behind_latest}
use stirmake.UpToDate.Checks.{SameChecks}
use stirmake.UpToDate.Targets.{IsKept, AllTimes, tgts_has, tgts_seen, oldest-le, oldest_holds}
use stirmake.UpToDate.Decision.{
  IsYoung, IsUpToDate, IsQuiet, deps_has, deps_checks, deps_latest, All-IsQuiet, IsKept-from,
  times_from, younger_deps, queued-eq,
}

-- The conditions of `IsUpToDate`, for targets `is`.
record IsCurrent (w : World) (r : Rule) (tsdb : List Tsdbe) (is : List ℕ) : Type 0 where
  not_forced : w.unconditional ≡ false
  deps : All (IsQuiet w tsdb) r.deplist
  tgts : All (IsKept w r tsdb) is
  young : AllTimes w r tsdb (λ t. All (IsYoung w t) r.deplist) is tgts

module _ (w : World) (old : (i : ℕ) → very_old w i ≡ false) (r : Rule) (tsdb : List Tsdbe) where
  abbrev d : DepScan
  d = dep_loop w r tsdb

  abbrev start : TgtScan
  start = record {
    has_to_exec = d.has_to_exec;
    seen_no_remake = false;
    seen_tgt = false;
    st_mtimtgt = epoch;
  }

  abbrev scanned : List ℕ → TgtScan
  scanned is = foldl (tgt_round w r d.tsdb) start is

  abbrev d0 : DepScan
  d0 = record {
    has_to_exec = w.unconditional;
    latest = record { seen_nonphony = false; st_mtim = epoch };
    tsdb = tsdb;
  }

  same : SameChecks d.tsdb tsdb
  unfolding dep_loop
  same = deps_checks w old r.deplist d0

  back : SameChecks tsdb d.tsdb
  back k t sz c = sym (same k t sz c)

  quiet : (d.has_to_exec ≡ false) ↔ ((w.unconditional ≡ false) × All (IsQuiet w tsdb) r.deplist)
  unfolding dep_loop
  quiet =
      let h = deps_has w old r.deplist d0 tsdb (λ k t sz c. refl) in
      let q = All-IsQuiet w r tsdb r.deplist in
      (λ p. ((h.0 p).0, q.0 (h.0 p).1), λ (a, b). h.1 (a, q.1 b))

  latest : (t : Timespec) → (behind_latest t d.latest ≡ false) ↔ All (IsYoung w t) r.deplist
  unfolding dep_loop
  latest t = let h = deps_latest w old t r.deplist d0 in (λ p. (h.0 p).1, λ a. h.1 (refl, a))

  -- Where no target asks for a run, the times decide.
  concluded :
      (i : ℕ) (is : List ℕ)
      → (scanned (i ∷ is)).has_to_exec ≡ false
      → (behind_latest (scanned (i ∷ is)).st_mtimtgt d.latest ≡ false) ↔ IsCurrent w r tsdb (i ∷ is)
  concluded i is calm =
      let t = scanned (i ∷ is) in
      let (no_dep, kept) = (tgts_has w r d.tsdb (i ∷ is) start).0 calm in
      let (free, deps) = quiet.0 no_dep in
      let here = IsKept-from w r tsdb d.tsdb tsdb (i ∷ is) same kept in
      (
        λ p. record {
          not_forced = free;
          deps = deps;
          tgts = here;
          young =
              times_from w r tsdb (λ x. is_older x t.st_mtimtgt ≡ false)
                (λ x. All (IsYoung w x) r.deplist) d.tsdb tsdb (i ∷ is)
                (λ x h.
                  younger_deps w r tsdb x t.st_mtimtgt r.deplist h ((latest t.st_mtimtgt).0 p))
                kept here (oldest-le w r d.tsdb (i ∷ is) start kept);
        },
        λ u. (latest t.st_mtimtgt).1 (
            oldest_holds w r d.tsdb (λ x. All (IsYoung w x) r.deplist) i is start kept
              (times_from w r tsdb (λ x. All (IsYoung w x) r.deplist)
                (λ x. All (IsYoung w x) r.deplist) tsdb d.tsdb (i ∷ is) (λ x h. h) u.tgts kept
                u.young)
              refl),
      )

  -- An up-to-date rule has no target that asks for a run.
  current_has : (is : List ℕ) → IsCurrent w r tsdb is → (scanned is).has_to_exec ≡ false
  current_has is u =
      (tgts_has w r d.tsdb is start).1
        (quiet.1 (u.not_forced, u.deps), IsKept-from w r tsdb tsdb d.tsdb is back u.tgts)

  core :
      (i : ℕ) (is : List ℕ)
      → (o : Outcome) × (conclude d (scanned (i ∷ is)) ≡ some o)
        × ((o.has_to_exec ≡ false) ↔ IsCurrent w r tsdb (i ∷ is))
        × (o.seen_no_remake ≡ (scanned (i ∷ is)).seen_no_remake)
  core i is = elim (Bool-cases (scanned (i ∷ is)).has_to_exec) [
    | inl has ↦ (
      record {
        has_to_exec = true;
        seen_no_remake = (scanned (i ∷ is)).seen_no_remake;
        latest = some d.latest;
        tsdb = d.tsdb;
      },
      (unfold conclude in rw has refl),
      (λ h. cc, λ u. cc (current_has (i ∷ is) u)),
      refl,
    )
    | inr calm ↦
        let kept = ((tgts_has w r d.tsdb (i ∷ is) start).0 calm).1 in
        (
          record {
            has_to_exec = behind_latest (scanned (i ∷ is)).st_mtimtgt d.latest;
            seen_no_remake = (scanned (i ∷ is)).seen_no_remake;
            latest = some d.latest;
            tsdb = d.tsdb;
          },
          (unfold conclude in rw (calm, tgts_seen w r d.tsdb i is start kept) refl),
          concluded i is calm,
          refl,
        )
  ]

  remake_round :
      (s : TgtScan) (i : ℕ)
      → s.seen_no_remake ≡ false
      → (tgt_round w r d.tsdb s i).seen_no_remake ≡ false
  unfolding tgt_round tgt_time
  remake_round s i h = ground (arith, old i)

  remake_false :
      (is : List ℕ) (s : TgtScan)
      → s.seen_no_remake ≡ false
      → (foldl (tgt_round w r d.tsdb) s is).seen_no_remake ≡ false
  remake_false [] s h = h
  remake_false (i ∷ is) s h = remake_false is (tgt_round w r d.tsdb s i) (remake_round s i h)

  of_list :
      (is : List ℕ)
      → is ≢ []
      → (o : Outcome) × (conclude d (scanned is) ≡ some o)
        × ((o.has_to_exec ≡ false) ↔ IsCurrent w r tsdb is)
        × (o.seen_no_remake ≡ false)
  of_list [] h = absurd (h refl)
  of_list (i ∷ is) h =
      let (o, e, c, s) = core i is in (o, e, c, s ∙ remake_false (i ∷ is) start refl)

tests-eq :
    (w : World) (r : Rule) (tsdb : List Tsdbe)
    → r.is_phony ≡ false
    → r.is_inc ≡ false
    → r.deplist ≢ []
    → tests w r tsdb ≡ with_deps w r tsdb
unfolding tests has_deps
tests-eq w r tsdb plain not_inc deps = ground arith

-- Of a rule with targets, dependencies and commands that is not phony and not from a dependency
-- file, do_exec returns, where no file is pretended to be very old: it does not queue the rule
-- exactly if the rule is up to date.
pub do_exec-IsUpToDate :
    (w : World) (r : Rule) (tsdb : List Tsdbe)
    → ((i : ℕ) → very_old w i ≡ false)
    → r.is_phony ≡ false
    → r.is_inc ≡ false
    → r.deplist ≢ []
    → r.tgtlist ≢ []
    → r.cmd ≢ []
    → (queue : Bool) × (o : Outcome) × (do_exec w r tsdb ≡ some (queue, o))
      × ((queue ≡ false) ↔ IsUpToDate w r tsdb)
do_exec-IsUpToDate w r tsdb old plain not_inc deps tgts cmds =
    let (o, e, c, s) = of_list w old r tsdb r.tgtlist tgts in
    let t : tests w r tsdb ≡ some o =
      tests-eq w r tsdb plain not_inc deps ∙ (unfold with_deps tgt_loop in e) in
    let q : queued w r o ≡ o.has_to_exec = queued-eq w r o plain cmds s in
    (
      queued w r o,
      o,
      (unfold do_exec in rw (t, do_exec) refl),
      (
        λ h.
            let u = c.0 (sym q ∙ h) in
            record { not_forced = u.not_forced; deps = u.deps; tgts = u.tgts; young = u.young },
        λ u.
            q
            ∙ c.1 (record {
              not_forced = u.not_forced;
              deps = u.deps;
              tgts = u.tgts;
              young = u.young;
            }),
      ),
    )
