-- ===== src/DbText/Recorded.antt =====
-- The records after merge_db_v2 took up the rules.
use stirmake.Prelude.{
  ℕ, ◌≡◌, refl, ap, ◌∙◌, ◌==◌, if◌then◌else◌, Bool, true, false, not, ◌||◌, Bool-cases, inl, inr,
  Option, none, some, List, [], ◌∷◌, arith,
}
use stirmake.Db.{Cmd, Dbe, get_dbe, ins_dbe, maybe_del_dbe}
use stirmake.Db.Laws.{
  HasKeys, HasKeys-ins_dbe, HasKeys-maybe_del_dbe, get_dbe-ins_dbe, get_dbe-maybe_del_dbe,
}
use stirmake.DbText.Merge.{Ran, del_targets, ins_targets, merge_rule, merge_rules}

abbrev pub has_target : List ℕ → ℕ → Bool
has_target [] k = false
has_target (t ∷ ts) k = (t == k) || has_target ts k

-- The record of a target after the rules in order.
abbrev pub recorded : List Ran → ℕ → Option Dbe → Option Dbe
recorded [] k old = old
recorded (r ∷ rs) k old = recorded rs k (
    if has_target r.tgtlist k
    then (if r.is_actually_executed
        then some (record { tgtidx = k; diridx = r.diridx; cmds = r.cmd })
        else if r.is_forked
        then none
        else old)
    else old)

del_targets_lem :
    (db : List Dbe) (ts : List ℕ) (k : ℕ)
    → HasKeys db
    → HasKeys (del_targets db ts)
      × (get_dbe (del_targets db ts) k ≡ (if has_target ts k then none else get_dbe db k))
unfolding del_targets
del_targets_lem db [] k h = (h, refl)
del_targets_lem db (t ∷ ts) k h =
    let r = del_targets_lem (maybe_del_dbe db t) ts k (HasKeys-maybe_del_dbe db t h) in
    (r.0, ground (arith, r.1, get_dbe-maybe_del_dbe db t k h))

named_either :
    (t k : ℕ) (n : Bool) (f : ℕ → Option Dbe) (old : Option Dbe)
    → (if n then f k else if t == k then f t else old) ≡ (if (t == k) || n then f k else old)
named_either t k true f old = elim (Bool-cases (t == k)) [ inl e ↦ rw e refl | inr e ↦ rw e refl ]
named_either t k false f old = elim (Bool-cases (t == k)) [
  | inl e ↦ let s : t ≡ k = ground arith in rw e (ap f s)
  | inr e ↦ rw e refl
]

HasKeys-if :
    (b c : Bool) (old del ins : List Dbe)
    → HasKeys old
    → HasKeys del
    → HasKeys ins
    → HasKeys (if not b then (if c then del else old) else ins)
HasKeys-if true c old del ins o d i = i
HasKeys-if false true old del ins o d i = d
HasKeys-if false false old del ins o d i = o

ins_targets_lem :
    (db : List Dbe) (ts : List ℕ) (dir : ℕ) (cmd : Cmd) (k : ℕ)
    → HasKeys db
    → HasKeys (ins_targets db ts dir cmd)
      × (get_dbe (ins_targets db ts dir cmd) k ≡ (
          if has_target ts k
          then some (record { tgtidx = k; diridx = dir; cmds = cmd })
          else get_dbe db k))
unfolding ins_targets
ins_targets_lem db [] dir cmd k h = (h, refl)
ins_targets_lem db (t ∷ ts) dir cmd k h =
    let e : Dbe = record { tgtidx = t; diridx = dir; cmds = cmd } in
    let r = ins_targets_lem (ins_dbe db e) ts dir cmd k (HasKeys-ins_dbe db e h) in
    let g = get_dbe-ins_dbe db e k h in
    (
      r.0,
      r.1
          ∙ ap
              (λ x.
                if has_target ts k
                then some (record { tgtidx = k; diridx = dir; cmds = cmd })
                else x)
              g
          ∙ named_either t k (has_target ts k)
              (λ i. some (record { tgtidx = i; diridx = dir; cmds = cmd })) (get_dbe db k),
    )

merge_rule_lem :
    (r : Ran) (db : List Dbe) (k : ℕ)
    → HasKeys db
    → HasKeys (merge_rule r db) × (get_dbe (merge_rule r db) k ≡ recorded (r ∷ []) k (get_dbe db k))
unfolding merge_rule
merge_rule_lem r db k h =
    let d = del_targets_lem db r.tgtlist k h in
    let i = ins_targets_lem db r.tgtlist r.diridx r.cmd k h in
    (HasKeys-if r.is_actually_executed r.is_forked db _ _ h d.0 i.0, ground (arith, d.1, i.1))

-- In a database with one record for each key, merging the rules leaves one record for each key.
-- That of a target is what the rules that name it made of the old one, in order: a rule that ran
-- stores its commands, one that was started and failed drops the record, and any other leaves it.
pub merge_rules-recorded :
    (rs : List Ran) (db : List Dbe) (k : ℕ)
    → HasKeys db
    → HasKeys (merge_rules rs db) × (get_dbe (merge_rules rs db) k ≡ recorded rs k (get_dbe db k))
unfolding merge_rules
merge_rules-recorded [] db k h = (h, refl)
merge_rules-recorded (r ∷ rs) db k h =
    let one = merge_rule_lem r db k h in
    let all = merge_rules-recorded rs (merge_rule r db) k one.0 in
    (all.0, all.1 ∙ ap (recorded rs k) one.1)
