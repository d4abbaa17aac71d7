-- ===== src/UpToDate/Scan.antt =====
-- The loop over the dependencies, dependency by dependency: which ones mark the rule for running,
-- and which times they add.
use stirmake.Prelude.{
  ℕ, ◌≡◌, if◌then◌else◌, Bool, true, false, not, ◌&&◌, ◌||◌, inl, inr, Option-cases, none, some,
  List, [], ◌∷◌, arith,
}
use stirmake.Time.{Timespec, is_newer, is_older}
use stirmake.Time.Tree.{rec_mtim}
use stirmake.Db.{Tsdbe, tsszequal_db}
use stirmake.UpToDate.{
  World, Stirdep, Stat, Latest, DepScan, modified, ispretend, raise, is_symlink, very_old,
  dep_lstat, dep_stat, dep_file, dep_is_phony, dep_round,
}

-- Whether a time lies behind the latest time of the dependencies.
abbrev pub behind_latest : Timespec → Latest → Bool
behind_latest t l = l.seen_nonphony && is_older t l.st_mtim

pub behind_latest-raise :
    (t x : Timespec) (l : Latest)
    → behind_latest t (raise false l x) ≡ (behind_latest t l || is_older t x)
unfolding raise is_newer is_older
behind_latest-raise t x l = ground arith

unfoldable pub any_older : Timespec → List Timespec → Bool
any_older t [] = false
any_older t (x ∷ xs) = is_older t x || any_older t xs

module _ (w : World) where
  -- The times that a dependency counts with.
  unfoldable pub link_times : Stirdep → List Timespec
  link_times e = elim (w.stat e.nameidx) [ none ↦ [] | some s ↦ s.st_mtim ∷ [] ]

  unfoldable pub file_times : Stirdep → Stat → List Timespec
  file_times e she = she.st_mtim ∷ (if is_symlink she then link_times e else [])

  unfoldable pub all_file_times : Stirdep → List Timespec
  all_file_times e =
      if e.is_recursive then rec_mtim (w.tree e.nameidx) ∷ [] else elim (w.lstat_cached e.nameidx) [
        | none ↦ []
        | some she ↦ if e.is_orderonly then [] else file_times e she
      ]

  unfoldable pub dep_times : Stirdep → List Timespec
  dep_times e = if e.is_dupe || dep_is_phony w e then [] else all_file_times e

  unfoldable pub link_marks : Stirdep → Bool
  link_marks e = elim (w.stat e.nameidx) [ none ↦ true | some s ↦ false ]

  unfoldable pub file_marks : List Tsdbe → Stirdep → Bool
  file_marks tsdb e = if e.is_recursive then false else elim (w.lstat_cached e.nameidx) [
    | none ↦ true
    | some she ↦
        not e.is_orderonly
          && w.usetsdb
          && not (tsszequal_db tsdb e.nameidx she.st_mtim she.st_size false).1
        || is_symlink she && link_marks e
  ]

  -- Whether a dependency by itself makes the rule run.
  unfoldable pub dep_marks : List Tsdbe → Stirdep → Bool
  dep_marks tsdb e =
      if e.is_dupe
      then false
      else if ispretend w.pretend (w.name e.nameidx) modified || w.is_remade e.nameidx
      then true
      else if dep_is_phony w e
      then true
      else file_marks tsdb e

  module _ (young : (i : ℕ) → very_old w i ≡ false) (t : Timespec) where
    dep_lstat-eq :
        (e : Stirdep) (she : Stat) (s : DepScan)
        → ((dep_lstat w e she s).has_to_exec ≡ (
            s.has_to_exec
            || not e.is_orderonly
              && w.usetsdb
              && not (tsszequal_db s.tsdb e.nameidx she.st_mtim she.st_size false).1))
          × (behind_latest t (dep_lstat w e she s).latest
              ≡ (behind_latest t s.latest || not e.is_orderonly && is_older t she.st_mtim))
    unfolding dep_lstat
    dep_lstat-eq e she s =
        ground (arith, young e.nameidx, behind_latest-raise t she.st_mtim s.latest)

    dep_stat-eq :
        (e : Stirdep) (s : DepScan)
        → ((dep_stat w e s).has_to_exec ≡ (s.has_to_exec || link_marks e))
          × (behind_latest t (dep_stat w e s).latest
              ≡ (behind_latest t s.latest || not e.is_orderonly && any_older t (link_times e)))
    unfolding dep_stat link_marks link_times any_older
    dep_stat-eq e s = elim (Option-cases (w.stat e.nameidx)) [
      | inl none_there ↦ ground arith
      | inr (st, there) ↦ ground (arith, young e.nameidx, behind_latest-raise t st.st_mtim s.latest)
    ]

    dep_file-eq :
        (e : Stirdep) (s : DepScan)
        → ((dep_file w e s).has_to_exec ≡ (s.has_to_exec || file_marks s.tsdb e))
          × (behind_latest t (dep_file w e s).latest
              ≡ (behind_latest t s.latest || any_older t (all_file_times e)))
    unfolding dep_file file_marks all_file_times any_older file_times
    dep_file-eq e s = elim (Option-cases (w.lstat_cached e.nameidx)) [
      | inl none_there ↦
          ground (arith, behind_latest-raise t (rec_mtim (w.tree e.nameidx)) s.latest)
      | inr (she, there) ↦ ground (
        arith,
        behind_latest-raise t (rec_mtim (w.tree e.nameidx)) s.latest,
        dep_lstat-eq e she s,
        dep_stat-eq e (dep_lstat w e she s),
      )
    ]

    pub dep_round-eq :
        (s : DepScan) (e : Stirdep)
        → ((dep_round w s e).has_to_exec ≡ (s.has_to_exec || dep_marks s.tsdb e))
          × (behind_latest t (dep_round w s e).latest
              ≡ (behind_latest t s.latest || any_older t (dep_times e)))
    unfolding dep_round dep_marks dep_times any_older
    dep_round-eq s e =
        ground (arith, dep_file-eq e s, dep_file-eq e (record s { has_to_exec = true }))
