-- ===== src/UpToDate/Tests.antt =====
-- do_exec on small worlds.
use stirmake.Prelude.{
  ℕ, ◌≡◌, ◌↔◌, ◌==◌, if◌then◌else◌, refl, Bool, true, false, Option, none, some, [], ◌∷◌, All,
}
use stirmake.Prelude.Int.{pos}
use stirmake.Time.{Timespec, is_older, is_newer}
use stirmake.Time.Tree.{nil}
use stirmake.Db.{Cmd, cmdequal_db}
use stirmake.UpToDate.{
  World, Rule, Stirdep, Outcome, regular, very_old, ispretend, do_exec, tests, with_deps, dep_loop,
  tgt_loop, conclude, dep_round, dep_file, dep_lstat, dep_stat, dep_is_phony, tgt_round, tgt_time,
  tsdb_differs, has_deps, has_cmd, queued, epoch, raise, is_symlink, is_directory,
}
use stirmake.UpToDate.Decision.{IsUpToDate}
use stirmake.UpToDate.Correct.{do_exec-IsUpToDate}
use stirmake.UpToDate.Alone.{StandsAlone, do_exec_alone}

abbrev at : ℕ → Timespec
at n = record { tv_sec = pos n; tv_nsec = 0 }

abbrev compile : Cmd
compile = ((b'c' ∷ b'c' ∷ []) ∷ []) ∷ []

-- File 1 is the target, made at 5 s, and file 2 the source.
abbrev world : ℕ → World
world source_time = record {
  name = λ i. i ∷ [];
  is_remade = λ i. false;
  is_phony_rule = λ i. false;
  pretend = [];
  unconditional = false;
  usetsdb = false;
  touchmode = false;
  lstat_cached = λ i. some (record {
    st_mode = regular;
    st_mtim = if i == 1 then at 5 else at source_time;
    st_size = 3;
  });
  lstat = λ i. some (record { st_mode = regular; st_mtim = at 5; st_size = 3 });
  stat = λ i. none;
  tree = λ i. record { stat_mtim = at 0; lstat_mtim = at 0; entries = nil };
  db = record { tgtidx = 1; diridx = 0; cmds = compile } ∷ [];
}

abbrev source : Stirdep
source = record {
  nameidx = 2;
  is_recursive = false;
  is_orderonly = false;
  is_wait = false;
  is_dupe = false;
  is_inc = false;
  ruleid = none;
}

abbrev rule : Rule
rule = record {
  is_phony = false;
  is_inc = false;
  diridx = 0;
  cmd = compile;
  deplist = source ∷ [];
  tgtlist = 1 ∷ [];
}

answer : Option (Bool × Outcome) → Option Bool
answer none = none
answer (some (b, o)) = some b

do_exec-old_source : answer (do_exec (world 4) rule []) ≡ some false
unfolding answer do_exec tests with_deps dep_loop tgt_loop conclude dep_round dep_file dep_lstat
    dep_stat dep_is_phony tgt_round tgt_time tsdb_differs has_deps has_cmd queued epoch raise
    is_symlink is_directory ispretend very_old cmdequal_db is_older is_newer
do_exec-old_source = refl

do_exec-new_source : answer (do_exec (world 6) rule []) ≡ some true
unfolding answer do_exec tests with_deps dep_loop tgt_loop conclude dep_round dep_file dep_lstat
    dep_stat dep_is_phony tgt_round tgt_time tsdb_differs has_deps has_cmd queued epoch raise
    is_symlink is_directory ispretend very_old cmdequal_db is_older is_newer
do_exec-new_source = refl

none_old : (i : ℕ) → very_old (world 4) i ≡ false
unfolding very_old ispretend
none_old i = refl

do_exec-IsUpToDate_example :
    (queue : Bool) × (o : Outcome) × (do_exec (world 4) rule [] ≡ some (queue, o))
    × ((queue ≡ false) ↔ IsUpToDate (world 4) rule [])
do_exec-IsUpToDate_example =
    do_exec-IsUpToDate (world 4) rule [] none_old refl refl (λ e. cc) (λ e. cc) (λ e. cc)

abbrev lone : Rule
lone = record rule { deplist = [] }

do_exec_alone_example :
    (queue : Bool) × (o : Outcome) × (do_exec (world 4) lone [] ≡ some (queue, o))
    × ((queue ≡ false)
        ↔ (((world 4).unconditional ≡ false) × All (StandsAlone (world 4) lone []) (1 ∷ [])))
do_exec_alone_example = do_exec_alone (world 4) lone [] refl refl refl (λ e. cc)
