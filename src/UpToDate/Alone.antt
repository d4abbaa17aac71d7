-- ===== src/UpToDate/Alone.antt =====
-- do_exec of rules without dependencies.
use mathlib.Core.Option.{some-injective}
use stirmake.Prelude.{
  ℕ, ◌≡◌, ◌≢◌, ◌↔◌, refl, sym, subst, ◌∙◌, if◌then◌else◌, Bool, true, false, inl, inr, Bool-cases,
  Option-cases, none, some, List, [], ◌∷◌, arith, All,
}
use stirmake.Db.{Tsdbe}
use stirmake.Db.Laws.{HasCommand, HasTime, cmdequal_db-HasCommand, tsszequal_db-HasTime}
use stirmake.UpToDate.{
  World, Rule, Stat, directory, is_directory, Outcome, tsdb_differs, no_deps_loop, tests, has_deps,
  queued, do_exec,
}
use stirmake.UpToDate.Decision.{queued-eq}

-- A target of a rule without dependencies that does not make it run: lstat finds it, its first record
-- among the commands has the command and the directory of the rule, and, if times are checked and it
-- is no directory, its first record among the times has its time and its size.
pub record StandsAlone (w : World) (r : Rule) (tsdb : List Tsdbe) (i : ℕ) : Type 0 where
  pub statbuf : Stat
  pub exists : w.lstat i ≡ some statbuf
  pub recorded : HasCommand w.db i r.cmd r.diridx
  pub unchanged :
      w.usetsdb ≡ true
      → statbuf.st_mode ≢ directory
      → HasTime tsdb i statbuf.st_mtim statbuf.st_size

is_directory_iff : (she : Stat) → (is_directory she ≡ true) ↔ (she.st_mode ≡ directory)
unfolding is_directory
is_directory_iff she = ground arith

-- What the test of a target's time says.
tsdb_differs_iff :
    (w : World) (tsdb : List Tsdbe) (i : ℕ) (she : Stat)
    → (tsdb_differs w tsdb i she ≡ false)
      ↔ (w.usetsdb ≡ true → she.st_mode ≢ directory → HasTime tsdb i she.st_mtim she.st_size)
unfolding tsdb_differs
tsdb_differs_iff w tsdb i she =
    let time = tsszequal_db-HasTime tsdb i she.st_mtim she.st_size true in
    let dir = is_directory_iff she in
    (
      λ h on no_dir. time.0 (ground (arith, dir)),
      λ h. elim (Bool-cases w.usetsdb) [
        | inr off ↦ rw off refl
        | inl on ↦ elim (Bool-cases (is_directory she)) [
          | inl d ↦ rw (on, d) refl
          | inr d ↦ rw (on, d, time.1 (h on (λ e. cc (dir.1 e, d)))) refl
        ]
      ],
    )

module _ (w : World) (r : Rule) (tsdb : List Tsdbe) where
  no_deps_loop-eq :
      (is : List ℕ) (has : Bool)
      → (no_deps_loop w r tsdb has is ≡ false) ↔ ((has ≡ false) × All (StandsAlone w r tsdb) is)
  unfolding no_deps_loop
  no_deps_loop-eq [] has = (λ p. (p, tt), λ p. p.0)
  no_deps_loop-eq (i ∷ is) has = elim (Option-cases (w.lstat i)) [
    | inl none_there ↦ (λ p. absurd (ground arith), λ (_, (t, _)). absurd (cc (t.exists)))
    | inr (she, there) ↦ (
      λ p.
          let ih =
            (no_deps_loop-eq is (if tsdb_differs w tsdb i she then true else has)).0
              (ground arith) in
          (
            ground (arith, ih.0),
            (
              record {
                statbuf = she;
                exists = there;
                recorded = (cmdequal_db-HasCommand w.db i r.cmd r.diridx).0 (ground arith);
                unchanged = (tsdb_differs_iff w tsdb i she).0 (ground (arith, ih.0));
              },
              ih.1,
            ),
          ),
      λ (p, (t, ts)).
          let same : t.statbuf ≡ she = some-injective _ _ (sym t.exists ∙ there) in
          let stays = (tsdb_differs_iff w tsdb i she).1 (
            subst
              (λ s. w.usetsdb ≡ true → s.st_mode ≢ directory → HasTime tsdb i s.st_mtim s.st_size)
              same t.unchanged) in
          let known = (cmdequal_db-HasCommand w.db i r.cmd r.diridx).1 t.recorded in
          ground (arith, stays, known, (no_deps_loop-eq is has).1 (p, ts)),
    )
  ]

  tests_alone :
      r.is_phony ≡ false
      → r.is_inc ≡ false
      → r.deplist ≡ []
      → tests w r tsdb
        ≡ some (record {
          has_to_exec = no_deps_loop w r tsdb w.unconditional r.tgtlist;
          seen_no_remake = false;
          latest = none;
          tsdb = tsdb;
        })
  unfolding tests has_deps
  tests_alone plain not_inc deps = ground arith

  -- Of a rule with commands and without dependencies that is not phony and not from a dependency
  -- file, do_exec returns; it does not queue the rule exactly if no build is forced and every target
  -- exists with the recorded command, and with the recorded time and size where these are checked.
  pub do_exec_alone :
      r.is_phony ≡ false
      → r.is_inc ≡ false
      → r.deplist ≡ []
      → r.cmd ≢ []
      → (queue : Bool) × (o : Outcome) × (do_exec w r tsdb ≡ some (queue, o))
        × ((queue ≡ false) ↔ ((w.unconditional ≡ false) × All (StandsAlone w r tsdb) r.tgtlist))
  do_exec_alone plain not_inc deps cmds =
      let t = tests_alone plain not_inc deps in
      let o : Outcome = record {
        has_to_exec = no_deps_loop w r tsdb w.unconditional r.tgtlist;
        seen_no_remake = false;
        latest = none;
        tsdb = tsdb;
      } in
      let q = queued-eq w r o plain cmds refl in
      let h = no_deps_loop-eq r.tgtlist w.unconditional in
      (
        queued w r o,
        o,
        (unfold do_exec in rw (t, do_exec) refl),
        (λ p. h.0 (sym q ∙ p), λ p. q ∙ h.1 p),
      )
