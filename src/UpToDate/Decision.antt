-- ===== src/UpToDate/Decision.antt =====
-- When do_exec lets a rule run.
use mathlib.Core.Option.{some-injective}
use stirmake.Prelude.{
  ℕ, ◌≡◌, ◌≢◌, ◌↔◌, refl, sym, ap, subst, ◌∙◌, true, false, ◌⊎◌, inl, inr, Bool-cases, Option-cases,
  some, List, [], ◌∷◌, foldl, arith, All,
}
use stirmake.Time.{Timespec, is_older}
use stirmake.Time.Order.{is_older_trans}
use stirmake.Db.{Tsdbe, tsszequal_db}
use stirmake.UpToDate.{
  World, Rule, Stirdep, Stat, DepScan, Outcome, very_old, dep_round, epoch, ispretend, modified,
  dep_is_phony, is_symlink, queued, has_cmd,
}
use stirmake.UpToDate.Scan.{
  behind_latest, any_older, dep_times, dep_marks, file_marks, link_marks, dep_round-eq,
}
use stirmake.UpToDate.Targets.{IsKept, AllTimes}
use stirmake.UpToDate.Checks.{
  SameChecks, dep_round-SameChecks, dep_marks-SameChecks, tsdb_differs-SameChecks,
}

-- A time is not older than any that a dependency counts with.
abbrev pub IsYoung : World → Timespec → Stirdep → Type 0
IsYoung w t e = All (λ x. is_older t x ≡ false) (dep_times w e)

-- The file of a dependency is there; if it is not order-only, with the time and the size of the
-- database, where that is used; and a symbolic link leads to a file.
pub record IsThere (w : World) (tsdb : List Tsdbe) (e : Stirdep) : Type 0 where
  pub she : Stat
  pub exists : w.lstat_cached e.nameidx ≡ some she
  pub unchanged :
      e.is_orderonly ≡ false
      → w.usetsdb ≡ true
      → (tsszequal_db tsdb e.nameidx she.st_mtim she.st_size false).1 ≡ true
  pub leads : is_symlink she ≡ true → (st : Stat) × (w.stat e.nameidx ≡ some st)

-- A dependency that by itself does not make the rule run.
abbrev pub IsQuiet : World → List Tsdbe → Stirdep → Type 0
IsQuiet w tsdb e =
    (e.is_dupe ≡ true)
    ⊎ ((ispretend w.pretend (w.name e.nameidx) modified ≡ false)
        × (w.is_remade e.nameidx ≡ false)
        × (dep_is_phony w e ≡ false)
        × ((e.is_recursive ≡ true) ⊎ (e.is_recursive ≡ false) × IsThere w tsdb e))

-- Nothing asks for a run: the dependencies are quiet, every target exists with the recorded command
-- and the recorded time and size, and no target is older than a dependency.
pub record IsUpToDate (w : World) (r : Rule) (tsdb : List Tsdbe) : Type 0 where
  pub not_forced : w.unconditional ≡ false
  pub deps : All (IsQuiet w tsdb) r.deplist
  pub tgts : All (IsKept w r tsdb) r.tgtlist
  pub young : AllTimes w r tsdb (λ t. All (IsYoung w t) r.deplist) r.tgtlist tgts

IsThere-iff :
    (w : World) (tsdb : List Tsdbe) (e : Stirdep)
    → (file_marks w tsdb e ≡ false)
      ↔ ((e.is_recursive ≡ true) ⊎ (e.is_recursive ≡ false) × IsThere w tsdb e)
unfolding file_marks link_marks
IsThere-iff w tsdb e = elim (Bool-cases e.is_recursive) [
  | inl rec ↦ (λ _. inl rec, λ _. ground arith)
  | inr plain ↦ (λ h. inr (plain, to h plain), λ h. from h plain)
]
  where
    to : file_marks w tsdb e ≡ false → e.is_recursive ≡ false → IsThere w tsdb e
    to h plain = elim (Option-cases (w.lstat_cached e.nameidx)) [
      | inl none_there ↦ absurd (ground arith)
      | inr (she, there) ↦ record {
        she = she;
        exists = there;
        unchanged = λ plain_dep used. ground arith;
        leads = λ link. elim (Option-cases (w.stat e.nameidx)) [
          | inl dangling ↦ absurd (ground arith)
          | inr found ↦ found
        ];
      }
    ]

    from :
        (e.is_recursive ≡ true) ⊎ (e.is_recursive ≡ false) × IsThere w tsdb e
        → e.is_recursive ≡ false
        → file_marks w tsdb e ≡ false
    from (inl r) plain = absurd (cc)
    from (inr (_, t)) plain = elim (Bool-cases (is_symlink t.she)) [
      | inl link ↦ let (st, found) = t.leads link in ground arith
      | inr no_link ↦ ground arith
    ]

IsQuiet-iff :
    (w : World) (tsdb : List Tsdbe) (e : Stirdep) → (dep_marks w tsdb e ≡ false) ↔ IsQuiet w tsdb e
unfolding dep_marks
IsQuiet-iff w tsdb e = ground (arith, IsThere-iff w tsdb e)

any_older_iff :
    (t : Timespec) (xs : List Timespec)
    → (any_older t xs ≡ false) ↔ All (λ x. is_older t x ≡ false) xs
unfolding any_older
any_older_iff t [] = (λ _. tt, λ _. refl)
any_older_iff t (x ∷ xs) = ground (arith, any_older_iff t xs)

module _ (w : World) (old : (i : ℕ) → very_old w i ≡ false) where
  -- The loop over the dependencies.
  pub deps_has :
      (es : List Stirdep) (s : DepScan) (tsdb : List Tsdbe)
      → SameChecks s.tsdb tsdb
      → ((foldl (dep_round w) s es).has_to_exec ≡ false)
        ↔ ((s.has_to_exec ≡ false) × All (λ e. dep_marks w tsdb e ≡ false) es)
  deps_has [] s tsdb h = (λ p. (p, tt), λ p. p.0)
  deps_has (e ∷ es) s tsdb h = ground (
    arith,
    deps_has es (dep_round w s e) tsdb
        (λ k t sz c. dep_round-SameChecks w s e k t sz c ∙ h k t sz c),
    (dep_round-eq w old epoch s e).0,
    dep_marks-SameChecks w s.tsdb tsdb e h,
  )

  pub deps_checks :
      (es : List Stirdep) (s : DepScan) → SameChecks (foldl (dep_round w) s es).tsdb s.tsdb
  deps_checks [] s k t sz c = refl
  deps_checks (e ∷ es) s k t sz c =
      deps_checks es (dep_round w s e) k t sz c ∙ dep_round-SameChecks w s e k t sz c

  pub deps_latest :
      (t : Timespec) (es : List Stirdep) (s : DepScan)
      → (behind_latest t (foldl (dep_round w) s es).latest ≡ false)
        ↔ ((behind_latest t s.latest ≡ false) × All (IsYoung w t) es)
  deps_latest t [] s = (λ p. (p, tt), λ p. p.0)
  deps_latest t (e ∷ es) s = ground (
    arith,
    deps_latest t es (dep_round w s e),
    (dep_round-eq w old t s e).1,
    any_older_iff t (dep_times w e),
  )

module _ (w : World) (r : Rule) (tsdb : List Tsdbe) where
  pub All-IsQuiet :
      (es : List Stirdep) → All (λ e. dep_marks w tsdb e ≡ false) es ↔ All (IsQuiet w tsdb) es
  All-IsQuiet [] = (λ _. tt, λ _. tt)
  All-IsQuiet (e ∷ es) = ground (arith, IsQuiet-iff w tsdb e, All-IsQuiet es)

  pub IsKept-from :
      (a b : List Tsdbe) (is : List ℕ)
      → SameChecks a b
      → All (IsKept w r a) is
      → All (IsKept w r b) is
  IsKept-from a b [] h k = tt
  IsKept-from a b (i ∷ is) h k = (
    record {
      she = k.0.she;
      exists = k.0.exists;
      recorded = k.0.recorded;
      unchanged = sym (tsdb_differs-SameChecks w a b i k.0.she h) ∙ k.0.unchanged;
    },
    IsKept-from a b is h k.1,
  )

  pub times_from {ℓ} :
      (P Q : Timespec → Type ℓ) (a b : List Tsdbe) (is : List ℕ)
      → ((t : Timespec) → P t → Q t)
      → (k : All (IsKept w r a) is) (k' : All (IsKept w r b) is) → AllTimes w r a P is k
      → AllTimes w r b Q is k'
  times_from P Q a b [] f k k' h = tt
  times_from P Q a b (i ∷ is) f k k' h = (
    subst Q (ap Stat.st_mtim (some-injective k.0.she k'.0.she (sym k.0.exists ∙ k'.0.exists)))
        (f k.0.she.st_mtim h.0),
    times_from P Q a b is f k.1 k'.1 h.1,
  )

  younger :
      (t x : Timespec) (xs : List Timespec)
      → is_older t x ≡ false
      → All (λ y. is_older x y ≡ false) xs
      → All (λ y. is_older t y ≡ false) xs
  younger t x [] h a = tt
  younger t x (y ∷ ys) h a = (is_older_trans t x y h a.0, younger t x ys h a.1)

  pub younger_deps :
      (t x : Timespec) (es : List Stirdep)
      → is_older t x ≡ false
      → All (IsYoung w x) es
      → All (IsYoung w t) es
  younger_deps t x [] h a = tt
  younger_deps t x (e ∷ es) h a = (younger t x (dep_times w e) h a.0, younger_deps t x es h a.1)

pub queued-eq :
    (w : World) (r : Rule) (o : Outcome)
    → r.is_phony ≡ false
    → r.cmd ≢ []
    → o.seen_no_remake ≡ false
    → queued w r o ≡ o.has_to_exec
unfolding queued has_cmd
queued-eq w r o plain cmds s = ground arith
