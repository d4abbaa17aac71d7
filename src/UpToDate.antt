-- ===== src/UpToDate.antt =====
-- do_exec of stirc/stirmake.c: whether the commands of a rule have to run. The file system, the
-- options of the command line and the flags of the other rules are a `World`; messages and traces
-- are left out.
pub mod Scan
pub mod Checks
pub mod Targets
pub mod Decision
pub mod Correct
pub mod Alone
mod Tests
use stirmake.Prelude.{
  ℕ, if◌then◌else◌, Bool, true, false, not, ◌&&◌, ◌||◌, Option, none, some, List, [], ◌∷◌, foldl,
  str_eq,
}
use stirmake.Canon.{Bytes}
use stirmake.Prelude.Int.{pos}
use stirmake.Time.{Timespec, is_newer, is_older}
use stirmake.Time.Tree.{Tree, rec_mtim}
use stirmake.Db.{Cmd, Dbe, Tsdbe, cmdequal_db, tsszequal_db}

pub data PretendType : Type 0 where
  modified very_old_no_remake : PretendType

pub record Pretend : Type 0 where
  pub fname : Bytes
  pub pretendtype : PretendType

pub same_type : PretendType → PretendType → Bool
same_type modified modified = true
same_type very_old_no_remake very_old_no_remake = true
same_type _ _ = false

pub ispretend : List Pretend → Bytes → PretendType → Bool
unfolding same_type str_eq
ispretend [] test typ = false
ispretend (iter ∷ rest) test typ =
    if str_eq iter.fname test && same_type iter.pretendtype typ
    then true
    else ispretend rest test typ

-- The bits of st_mode that are read.
pub data FileType : Type 0 where
  regular directory symlink : FileType

pub record Stat : Type 0 where
  pub st_mode : FileType
  pub st_mtim : Timespec
  pub st_size : ℕ

-- A call of lstat or stat that fails is `none`.
pub record World : Type 0 where
  pub name : ℕ → Bytes
  pub is_remade : ℕ → Bool
  pub is_phony_rule : ℕ → Bool
  pub pretend : List Pretend
  pub unconditional : Bool
  pub usetsdb : Bool
  pub touchmode : Bool
  pub lstat_cached : ℕ → Option Stat
  pub lstat : ℕ → Option Stat
  pub stat : ℕ → Option Stat
  pub tree : ℕ → Tree
  pub db : List Dbe

-- `ruleid` is the result of stirdep_ruleid.
pub record Stirdep : Type 0 where
  pub nameidx : ℕ
  pub is_recursive : Bool
  pub is_orderonly : Bool
  pub is_wait : Bool
  pub is_dupe : Bool
  pub is_inc : Bool
  pub ruleid : Option ℕ

pub record Rule : Type 0 where
  pub is_phony : Bool
  pub is_inc : Bool
  pub diridx : ℕ
  pub cmd : Cmd
  pub deplist : List Stirdep
  pub tgtlist : List ℕ

-- The latest time of a dependency so far: seen_nonphony and st_mtim.
pub record Latest : Type 0 where
  pub seen_nonphony : Bool
  pub st_mtim : Timespec

pub record DepScan : Type 0 where
  pub has_to_exec : Bool
  pub latest : Latest
  pub tsdb : List Tsdbe

pub record TgtScan : Type 0 where
  pub has_to_exec : Bool
  pub seen_no_remake : Bool
  pub seen_tgt : Bool
  pub st_mtimtgt : Timespec

-- `very_old` is ispretend(..., PRETEND_VERY_OLD_NO_REMAKE).
pub raise : Bool → Latest → Timespec → Latest
raise very_old l t = record {
  seen_nonphony = true;
  st_mtim = if (not l.seen_nonphony || is_newer t l.st_mtim) && not very_old then t else l.st_mtim;
}

pub is_directory : Stat → Bool
is_directory s = elim s.st_mode [ directory ↦ true | _ ↦ false ]

unfoldable pub is_symlink : Stat → Bool
is_symlink s = elim s.st_mode [ symlink ↦ true | _ ↦ false ]

module _ (w : World) where
  pub very_old : ℕ → Bool
  very_old i = ispretend w.pretend (w.name i) very_old_no_remake

  -- What the lstat of a dependency that is not order-only does to the scan.
  pub dep_lstat : Stirdep → Stat → DepScan → DepScan
  dep_lstat e she s =
      if e.is_orderonly
      then s
      else (let checked = tsszequal_db s.tsdb e.nameidx she.st_mtim she.st_size false in
          record {
            has_to_exec = s.has_to_exec || w.usetsdb && not checked.1;
            latest = raise (very_old e.nameidx) s.latest she.st_mtim;
            tsdb = if w.usetsdb then checked.0 else s.tsdb;
          })

  -- The file that a symbolic link leads to.
  pub dep_stat : Stirdep → DepScan → DepScan
  dep_stat e s = elim (w.stat e.nameidx) [
    | none ↦ record s { has_to_exec = true }
    | some statbuf ↦
        if e.is_orderonly
        then s
        else record s { latest = raise (very_old e.nameidx) s.latest statbuf.st_mtim }
  ]

  pub dep_file : Stirdep → DepScan → DepScan
  dep_file e s =
      if e.is_recursive
      then record s { latest = raise false s.latest (rec_mtim (w.tree e.nameidx)) }
      else elim (w.lstat_cached e.nameidx) [
        | none ↦ record s { has_to_exec = true }
        | some she ↦ if is_symlink she then dep_stat e (dep_lstat e she s) else dep_lstat e she s
      ]

  unfoldable pub dep_is_phony : Stirdep → Bool
  dep_is_phony e = elim e.ruleid [ none ↦ false | some depid ↦ w.is_phony_rule depid ]

  -- One round of the loop over the dependencies.
  pub dep_round : DepScan → Stirdep → DepScan
  dep_round s e =
      if e.is_dupe
      then s
      else (let marked =
            if ispretend w.pretend (w.name e.nameidx) modified || w.is_remade e.nameidx
            then record s { has_to_exec = true }
            else s in
          if dep_is_phony e then record marked { has_to_exec = true } else dep_file e marked)

  -- usetsdb && !S_ISDIR(st_mode) && !tsszequal_db(..., 1)
  pub tsdb_differs : List Tsdbe → ℕ → Stat → Bool
  tsdb_differs tsdb i she =
      w.usetsdb
      && not (is_directory she)
      && not (tsszequal_db tsdb i she.st_mtim she.st_size true).1

-- A target that exists, and that the database of times does not contradict.
pub tgt_time : Stat → TgtScan → TgtScan
tgt_time she s = record s {
  seen_tgt = true;
  st_mtimtgt =
      if not s.seen_tgt || is_older she.st_mtim s.st_mtimtgt then she.st_mtim else s.st_mtimtgt;
}

module _ (w : World) (r : Rule) where
  -- One round of the loop over the targets of a rule that has dependencies.
  pub tgt_round : List Tsdbe → TgtScan → ℕ → TgtScan
  tgt_round tsdb s i =
      let seen = record s { seen_no_remake = s.seen_no_remake || very_old w i } in
      let marked =
        if not (cmdequal_db w.db i r.cmd r.diridx)
        then record seen { has_to_exec = true }
        else seen in
      elim (w.lstat_cached i) [
        | none ↦ record marked { has_to_exec = true }
        | some she ↦
            if tsdb_differs w tsdb i she
            then record marked { has_to_exec = true }
            else tgt_time she marked
      ]

  -- The loop over the targets of a rule without dependencies.
  pub no_deps_loop : List Tsdbe → Bool → List ℕ → Bool
  no_deps_loop tsdb has_to_exec [] = has_to_exec
  no_deps_loop tsdb has_to_exec (i ∷ is) =
      let rest = λ (has : Bool). no_deps_loop tsdb has is in
      elim (w.lstat i) [
        | none ↦ true
        | some statbuf ↦
            if not (cmdequal_db w.db i r.cmd r.diridx)
            then true
            else rest (if tsdb_differs w tsdb i statbuf then true else has_to_exec)
      ]

-- What the tests of do_exec leave: `st_mtim` with st_mtim_valid of the rule, and the database.
pub record Outcome : Type 0 where
  pub has_to_exec : Bool
  pub seen_no_remake : Bool
  pub latest : Option Latest
  pub tsdb : List Tsdbe

-- The end of the tests on a rule with dependencies; `none` is the call of my_abort.
pub conclude : DepScan → TgtScan → Option Outcome
conclude d t =
    let result : Bool → Option Outcome = λ has. some (record {
      has_to_exec = has;
      seen_no_remake = t.seen_no_remake;
      latest = some d.latest;
      tsdb = d.tsdb;
    }) in
    if t.has_to_exec
    then result true
    else if not t.seen_tgt
    then none
    else result (d.latest.seen_nonphony && is_older t.st_mtimtgt d.latest.st_mtim)

pub epoch : Timespec
epoch = record { tv_sec = pos 0; tv_nsec = 0 }

module _ (w : World) (r : Rule) where
  pub dep_loop : List Tsdbe → DepScan
  dep_loop tsdb =
      foldl (dep_round w)
        (record {
          has_to_exec = w.unconditional;
          latest = record { seen_nonphony = false; st_mtim = epoch };
          tsdb = tsdb;
        })
        r.deplist

  pub tgt_loop : List Tsdbe → Bool → TgtScan
  tgt_loop tsdb has_to_exec =
      foldl (tgt_round w r tsdb)
        (record {
          has_to_exec = has_to_exec;
          seen_no_remake = false;
          seen_tgt = false;
          st_mtimtgt = epoch;
        })
        r.tgtlist

  pub with_deps : List Tsdbe → Option Outcome
  with_deps tsdb = let d = dep_loop tsdb in conclude d (tgt_loop d.tsdb d.has_to_exec)

  pub has_deps : Bool
  has_deps = elim r.deplist [ [] ↦ false | _ ∷ _ ↦ true ]

  pub tests : List Tsdbe → Option Outcome
  tests tsdb =
      if not r.is_phony && not r.is_inc && has_deps
      then with_deps tsdb
      else (let has =
            if r.is_phony || r.is_inc
            then true
            else no_deps_loop w r tsdb w.unconditional r.tgtlist in
          some (record { has_to_exec = has; seen_no_remake = false; latest = none; tsdb = tsdb }))

  pub has_cmd : Bool
  has_cmd = elim r.cmd [ [] ↦ false | _ ∷ _ ↦ true ]

  -- Whether the rule goes to the queue of rules to run; if not, do_exec calls mark_executed.
  pub queued : Outcome → Bool
  queued o = o.has_to_exec && has_cmd && not o.seen_no_remake && not (r.is_phony && w.touchmode)

  -- do_exec of a rule that is not queued yet.
  pub do_exec : List Tsdbe → Option (Bool × Outcome)
  do_exec tsdb = elim (tests tsdb) [ none ↦ none | some o ↦ some (queued o, o) ]
