-- ===== src/Db/Laws.antt =====
-- Lookups in the databases after each operation on them.
use stirmake.Prelude.{
  ℕ, ◌≡◌, ◌≢◌, ◌↔◌, ◌⊎◌, refl, ◌==◌, ==-refl, if◌then◌else◌, Bool, true, inl, inr, Bool-cases,
  Option-cases, Option, none, some, List, [], ◌∷◌, ◌++◌, arith, str_eq_iff,
}
use stirmake.Canon.{Bytes}
use stirmake.Time.{Timespec}
use stirmake.Time.Order.{ts_cmp_lem}
use stirmake.Db.{
  Cmd, Dbe, Tsdbe, args_equal, cmd_equal, get_dbe, maybe_del_dbe, ins_dbe, cmdequal_db, get_tsdbe,
  maybe_del_tsdbe, ins_tsdbe, update_tsdbe, tsszstore, is_same_time, tssz_equal, note_seen,
  tsszequal_db,
}

args_equal_iff : (a b : List Bytes) → (args_equal a b ≡ true) ↔ (a ≡ b)
unfolding args_equal
args_equal_iff [] [] = (λ _. refl, λ _. refl)
args_equal_iff [] (b ∷ bs) = (λ h. cc, λ h. cc)
args_equal_iff (a ∷ x) [] = (λ h. cc, λ h. cc)
args_equal_iff (a ∷ x) (b ∷ bs) = ground (arith, str_eq_iff a b, args_equal_iff x bs)

-- cmd_equal decides that two commands have the same arguments.
pub cmd_equal_iff : (a b : Cmd) → (cmd_equal a b ≡ true) ↔ (a ≡ b)
unfolding cmd_equal
cmd_equal_iff [] [] = (λ _. refl, λ _. refl)
cmd_equal_iff [] (b ∷ bs) = (λ h. cc, λ h. cc)
cmd_equal_iff (a ∷ x) [] = (λ h. cc, λ h. cc)
cmd_equal_iff (a ∷ x) (b ∷ bs) = ground (arith, args_equal_iff a b, cmd_equal_iff x bs)

-- No two records have one key.
abbrev pub HasKeys : List Dbe → Type 0
HasKeys [] = Unit
HasKeys (e ∷ es) = (get_dbe es e.tgtidx ≡ none) × HasKeys es

get_dbe-append :
    (db : List Dbe) (e : Dbe) (k : ℕ)
    → get_dbe (db ++ e ∷ []) k
      ≡ elim (get_dbe db k) [ some x ↦ some x | none ↦ if e.tgtidx == k then some e else none ]
unfolding get_dbe
get_dbe-append [] e k = refl
get_dbe-append (x ∷ db) e k = ground (arith, get_dbe-append db e k)

pub get_dbe-maybe_del_dbe :
    (db : List Dbe) (j k : ℕ)
    → HasKeys db
    → get_dbe (maybe_del_dbe db j) k ≡ (if j == k then none else get_dbe db k)
unfolding get_dbe maybe_del_dbe
get_dbe-maybe_del_dbe [] j k h = ground arith
get_dbe-maybe_del_dbe (x ∷ db) j k h = ground (arith, h.0, get_dbe-maybe_del_dbe db j k)

-- After ins_dbe the key of the record has that record, and each other key what it had.
pub get_dbe-ins_dbe :
    (db : List Dbe) (e : Dbe) (k : ℕ)
    → HasKeys db
    → get_dbe (ins_dbe db e) k ≡ (if e.tgtidx == k then some e else get_dbe db k)
unfolding ins_dbe
get_dbe-ins_dbe db e k h =
    ground
      (arith, get_dbe-append (maybe_del_dbe db e.tgtidx) e k, get_dbe-maybe_del_dbe db e.tgtidx k h)

HasKeys-append :
    (db : List Dbe) (e : Dbe) → HasKeys db → get_dbe db e.tgtidx ≡ none → HasKeys (db ++ e ∷ [])
unfolding get_dbe
HasKeys-append [] e h n = (refl, tt)
HasKeys-append (x ∷ db) e h n =
    (ground (arith, h.0, get_dbe-append db e x.tgtidx), HasKeys-append db e h.1 (ground arith))

pub HasKeys-maybe_del_dbe : (db : List Dbe) (k : ℕ) → HasKeys db → HasKeys (maybe_del_dbe db k)
unfolding maybe_del_dbe
HasKeys-maybe_del_dbe [] k h = tt
HasKeys-maybe_del_dbe (x ∷ db) k h = elim (Bool-cases (x.tgtidx == k)) [
  | inl e ↦ rw e h.1
  | inr e ↦
      rw e (
        ground (arith, h.0, get_dbe-maybe_del_dbe db k x.tgtidx h.1),
        HasKeys-maybe_del_dbe db k h.1,
      )
]

-- ins_dbe keeps one record for each key.
pub HasKeys-ins_dbe : (db : List Dbe) (e : Dbe) → HasKeys db → HasKeys (ins_dbe db e)
unfolding ins_dbe
HasKeys-ins_dbe db e h =
    HasKeys-append (maybe_del_dbe db e.tgtidx) e (HasKeys-maybe_del_dbe db e.tgtidx h)
      (ground (arith, get_dbe-maybe_del_dbe db e.tgtidx e.tgtidx h))

-- In a database with one record for each key, a command that ins_dbe recorded compares equal to
-- itself in its directory and to nothing else; the comparisons of the other targets stay as they
-- were.
pub cmdequal_db-ins_dbe :
    (db : List Dbe) (e : Dbe) (k : ℕ) (cmd : Cmd) (diridx : ℕ)
    → HasKeys db
    → ((cmdequal_db (ins_dbe db e) e.tgtidx cmd diridx ≡ true)
        ↔ ((cmd ≡ e.cmds) × (e.diridx ≡ diridx)))
      × (e.tgtidx ≢ k → cmdequal_db (ins_dbe db e) k cmd diridx ≡ cmdequal_db db k cmd diridx)
unfolding cmdequal_db
cmdequal_db-ins_dbe db e k cmd diridx h = (
  ground (arith, get_dbe-ins_dbe db e e.tgtidx h, ==-refl e.tgtidx, cmd_equal_iff cmd e.cmds),
  λ ne. ground (arith, get_dbe-ins_dbe db e k h),
)

get_tsdbe-update_tsdbe :
    (db : List Tsdbe) (j k : ℕ) (f : Tsdbe → Tsdbe)
    → ((e : Tsdbe) → (f e).stringtabidx ≡ e.stringtabidx)
    → get_tsdbe (update_tsdbe db j f) k
      ≡ elim (get_tsdbe db k) [ none ↦ none | some e ↦ if j == k then some (f e) else some e ]
unfolding get_tsdbe update_tsdbe
get_tsdbe-update_tsdbe [] j k f h = refl
get_tsdbe-update_tsdbe (x ∷ db) j k f h = ground (arith, h x, get_tsdbe-update_tsdbe db j k f h)

get_tsdbe-append :
    (db : List Tsdbe) (e : Tsdbe) (k : ℕ)
    → get_tsdbe (db ++ e ∷ []) k ≡ elim (get_tsdbe db k) [
      | some x ↦ some x
      | none ↦ if e.stringtabidx == k then some e else none
    ]
unfolding get_tsdbe
get_tsdbe-append [] e k = refl
get_tsdbe-append (x ∷ db) e k = ground (arith, get_tsdbe-append db e k)

maybe_del_tsdbe-none : (db : List Tsdbe) (k : ℕ) → get_tsdbe db k ≡ none → maybe_del_tsdbe db k ≡ db
unfolding get_tsdbe maybe_del_tsdbe
maybe_del_tsdbe-none [] k h = refl
maybe_del_tsdbe-none (x ∷ db) k h = ground (arith, maybe_del_tsdbe-none db k)

is_same_time_iff : (a b : Timespec) → (is_same_time a b ≡ true) ↔ (a ≡ b)
unfolding is_same_time
is_same_time_iff a b = ground (arith, (ts_cmp_lem a b).1)

-- What a comparison reads of the record of a key.
time_and_size : List Tsdbe → ℕ → Option (Timespec × ℕ)
unfolding get_tsdbe
time_and_size db k = elim (get_tsdbe db k) [ none ↦ none | some e ↦ some (e.ts, e.sz) ]

time_and_size-tsszstore :
    (db : List Tsdbe) (i k : ℕ) (ts : Timespec) (sz : ℕ)
    → time_and_size (tsszstore db i ts sz).0 k
      ≡ (if i == k then some (ts, sz) else time_and_size db k)
unfolding tsszstore time_and_size ins_tsdbe
time_and_size-tsszstore db i k ts sz = elim (Option-cases (get_tsdbe db i)) [
  | inl e ↦
      rw (e, tsszstore, maybe_del_tsdbe-none db i e)
        (ground (
          arith,
          get_tsdbe-append db
              (record { stringtabidx = i; ts = ts; tsnew = ts; sz = sz; sznew = sz; seen = true })
              k,
        ))
  | inr (x, e) ↦
      rw (e, tsszstore)
        (ground (
          arith,
          get_tsdbe-update_tsdbe db i k
              (λ e. record e { ts = ts; tsnew = ts; sz = sz; sznew = sz; seen = true }) (λ e. refl),
        ))
]

time_and_size-tsszequal_db :
    (db : List Tsdbe) (i k : ℕ) (ts : Timespec) (sz : ℕ) (istarget : Bool)
    → time_and_size (tsszequal_db db i ts sz istarget).0 k ≡ time_and_size db k
unfolding tsszequal_db time_and_size
time_and_size-tsszequal_db db i k ts sz istarget =
    ground (arith, get_tsdbe-update_tsdbe db i k (note_seen ts sz) (λ e. refl))

tsszequal_db-eq :
    (db : List Tsdbe) (k : ℕ) (ts : Timespec) (sz : ℕ) (istarget : Bool)
    → ((tsszequal_db db k ts sz istarget).1 ≡ true) ↔ (time_and_size db k ≡ some (ts, sz))
unfolding tsszequal_db time_and_size tssz_equal
tsszequal_db-eq db k ts sz istarget = elim (Option-cases (get_tsdbe db k)) [
  | inl e ↦ rw (e, tsszequal_db, time_and_size) (λ h. cc, λ h. cc)
  | inr (x, e) ↦ rw (e, tsszequal_db, time_and_size) (ground (arith, is_same_time_iff x.ts ts))
]

-- After tsszstoresource or tsszstoretarget a comparison of that file succeeds just for the time and
-- the size that were stored; the comparisons of the other files succeed as before.
pub tsszequal_db-tsszstore :
    (db : List Tsdbe) (i k : ℕ) (ts now : Timespec) (sz size : ℕ) (istarget : Bool)
    → ((tsszequal_db (tsszstore db i ts sz).0 i now size istarget).1 ≡ true
        ↔ ((ts ≡ now) × (sz ≡ size)))
      × (i ≢ k
          → (tsszequal_db (tsszstore db i ts sz).0 k now size istarget).1 ≡ true
            ↔ ((tsszequal_db db k now size istarget).1 ≡ true))
tsszequal_db-tsszstore db i k ts now sz size istarget =
    let stored = (tsszstore db i ts sz).0 in
    (
      ground (
        arith,
        tsszequal_db-eq stored i now size istarget,
        time_and_size-tsszstore db i i ts sz,
        ==-refl i,
      ),
      λ ne. ground (
        arith,
        tsszequal_db-eq stored k now size istarget,
        tsszequal_db-eq db k now size istarget,
        time_and_size-tsszstore db i k ts sz,
      ),
    )

-- A comparison changes no later comparison.
pub tsszequal_db-tsszequal_db :
    (db : List Tsdbe) (i k : ℕ) (ts now : Timespec) (sz size : ℕ) (b c : Bool)
    → (tsszequal_db (tsszequal_db db i ts sz b).0 k now size c).1 ≡ (tsszequal_db db k now size c).1
tsszequal_db-tsszequal_db db i k ts now sz size b c =
    let later = (tsszequal_db db i ts sz b).0 in
    ground (
      arith,
      tsszequal_db-eq later k now size c,
      tsszequal_db-eq db k now size c,
      time_and_size-tsszequal_db db i k ts sz b,
    )

-- The first record of a target has this command and directory.
abbrev pub HasCommand : List Dbe → ℕ → Cmd → ℕ → Type 0
HasCommand [] i cmd dir = ⊥
HasCommand (e ∷ es) i cmd dir =
    ((e.tgtidx ≡ i) × (e.diridx ≡ dir) × (e.cmds ≡ cmd))
    ⊎ ((e.tgtidx ≢ i) × HasCommand es i cmd dir)

pub cmdequal_db-HasCommand :
    (db : List Dbe) (i : ℕ) (cmd : Cmd) (dir : ℕ)
    → (cmdequal_db db i cmd dir ≡ true) ↔ HasCommand db i cmd dir
unfolding cmdequal_db get_dbe
cmdequal_db-HasCommand [] i cmd dir = (λ h. cc, λ h. absurd h)
cmdequal_db-HasCommand (e ∷ es) i cmd dir =
    ground (arith, cmd_equal_iff cmd e.cmds, cmdequal_db-HasCommand es i cmd dir)

-- The first record of a file has this time and size.
abbrev pub HasTime : List Tsdbe → ℕ → Timespec → ℕ → Type 0
HasTime [] i ts sz = ⊥
HasTime (e ∷ es) i ts sz =
    ((e.stringtabidx ≡ i) × (e.ts ≡ ts) × (e.sz ≡ sz)) ⊎ ((e.stringtabidx ≢ i) × HasTime es i ts sz)

pub tsszequal_db-HasTime :
    (db : List Tsdbe) (i : ℕ) (ts : Timespec) (sz : ℕ) (istarget : Bool)
    → ((tsszequal_db db i ts sz istarget).1 ≡ true) ↔ HasTime db i ts sz
unfolding tsszequal_db get_tsdbe tssz_equal
tsszequal_db-HasTime [] i ts sz b = (λ h. cc, λ h. absurd h)
tsszequal_db-HasTime (e ∷ es) i ts sz b =
    ground (arith, is_same_time_iff e.ts ts, tsszequal_db-HasTime es i ts sz b)
