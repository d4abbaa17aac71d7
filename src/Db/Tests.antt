-- ===== src/Db/Tests.antt =====
-- The databases at small inputs.
use stirmake.Prelude.{ℕ, ◌≡◌, ◌≢◌, ◌↔◌, refl, true, [], ◌∷◌}
use stirmake.Prelude.Int.{pos}
use stirmake.Time.{Timespec}
use stirmake.Db.{Cmd, Dbe, get_dbe, cmd_equal, ins_dbe, cmdequal_db, tsszstore, tsszequal_db}
use stirmake.Db.Laws.{
  HasKeys, cmd_equal_iff, cmdequal_db-ins_dbe, HasKeys-ins_dbe, tsszequal_db-tsszstore,
}

abbrev compile : Cmd
compile = ((b'c' ∷ b'c' ∷ []) ∷ (b'a' ∷ []) ∷ []) ∷ []

abbrev entry : Dbe
entry = record { tgtidx = 4; diridx = 0; cmds = compile }

abbrev earlier_entry : Dbe
earlier_entry = record { tgtidx = 5; diridx = 0; cmds = [] }

abbrev now : Timespec
now = record { tv_sec = pos 9; tv_nsec = 1 }

keys : HasKeys (earlier_entry ∷ [])
keys = (unfold get_dbe in refl, tt)

cmd_equal_example : (cmd_equal compile [] ≡ true) ↔ (compile ≡ [])
cmd_equal_example = cmd_equal_iff compile []

cmdequal_db-ins_dbe_example :
    ((cmdequal_db (ins_dbe (earlier_entry ∷ []) entry) 4 compile 0 ≡ true)
      ↔ ((compile ≡ compile) × (◌≡◌ {A = ℕ} 0 0)))
    × (◌≢◌ {A = ℕ} 4 5
        → cmdequal_db (ins_dbe (earlier_entry ∷ []) entry) 5 compile 0
          ≡ cmdequal_db (earlier_entry ∷ []) 5 compile 0)
cmdequal_db-ins_dbe_example = cmdequal_db-ins_dbe (earlier_entry ∷ []) entry 5 compile 0 keys

HasKeys-ins_dbe_example : HasKeys (ins_dbe (earlier_entry ∷ []) entry)
HasKeys-ins_dbe_example = HasKeys-ins_dbe (earlier_entry ∷ []) entry keys

tsszequal_db-tsszstore_example :
    ((tsszequal_db (tsszstore [] 4 now 12).0 4 now 12 true).1 ≡ true
      ↔ ((now ≡ now) × (◌≡◌ {A = ℕ} 12 12)))
    × (◌≢◌ {A = ℕ} 4 5
        → (tsszequal_db (tsszstore [] 4 now 12).0 5 now 12 true).1 ≡ true
          ↔ ((tsszequal_db [] 5 now 12 true).1 ≡ true))
tsszequal_db-tsszstore_example = tsszequal_db-tsszstore [] 4 5 now now 12 12 true
