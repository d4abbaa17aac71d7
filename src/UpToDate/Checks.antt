-- ===== src/UpToDate/Checks.antt =====
-- The scan of the dependencies changes no comparison with the database of times.
use stirmake.Prelude.{ℕ, ◌≡◌, Bool, true, false, inl, inr, Option-cases, List, arith}
use stirmake.Time.{Timespec}
use stirmake.Db.{Tsdbe, tsszequal_db}
use stirmake.Db.Laws.{tsszequal_db-tsszequal_db}
use stirmake.UpToDate.{
  World, Stirdep, Stat, DepScan, dep_lstat, dep_stat, dep_file, dep_round, tsdb_differs,
}
use stirmake.UpToDate.Scan.{dep_marks, file_marks}

-- Every comparison has the same result.
abbrev pub SameChecks : List Tsdbe → List Tsdbe → Type 0
SameChecks a b =
    (k : ℕ) (t : Timespec) (sz : ℕ) (c : Bool)
    → (tsszequal_db a k t sz c).1 ≡ (tsszequal_db b k t sz c).1

module _ (w : World) where
  dep_lstat-SameChecks :
      (e : Stirdep) (she : Stat) (s : DepScan) → SameChecks (dep_lstat w e she s).tsdb s.tsdb
  unfolding dep_lstat
  dep_lstat-SameChecks e she s k t sz c =
      ground
        (arith, tsszequal_db-tsszequal_db s.tsdb e.nameidx k she.st_mtim t she.st_size sz false c)

  tsdb-dep_stat : (e : Stirdep) (s : DepScan) → (dep_stat w e s).tsdb ≡ s.tsdb
  unfolding dep_stat
  tsdb-dep_stat e s = ground arith

  dep_file-SameChecks : (e : Stirdep) (s : DepScan) → SameChecks (dep_file w e s).tsdb s.tsdb
  unfolding dep_file
  dep_file-SameChecks e s k t sz c = elim (Option-cases (w.lstat_cached e.nameidx)) [
    | inl none_there ↦ ground arith
    | inr (she, there) ↦
        ground (arith, dep_lstat-SameChecks e she s k t sz c, tsdb-dep_stat e (dep_lstat w e she s))
  ]

  pub dep_round-SameChecks : (s : DepScan) (e : Stirdep) → SameChecks (dep_round w s e).tsdb s.tsdb
  unfolding dep_round
  dep_round-SameChecks s e k t sz c = ground (
    arith,
    dep_file-SameChecks e s k t sz c,
    dep_file-SameChecks e (record s { has_to_exec = true }) k t sz c,
  )

  pub dep_marks-SameChecks :
      (a b : List Tsdbe) (e : Stirdep) → SameChecks a b → dep_marks w a e ≡ dep_marks w b e
  unfolding dep_marks file_marks
  dep_marks-SameChecks a b e h = elim (Option-cases (w.lstat_cached e.nameidx)) [
    | inl none_there ↦ ground arith
    | inr (she, there) ↦ ground (arith, h e.nameidx she.st_mtim she.st_size false)
  ]

  pub tsdb_differs-SameChecks :
      (a b : List Tsdbe) (i : ℕ) (she : Stat)
      → SameChecks a b
      → tsdb_differs w a i she ≡ tsdb_differs w b i she
  unfolding tsdb_differs
  tsdb_differs-SameChecks a b i she h = ground (arith, h i she.st_mtim she.st_size true)
