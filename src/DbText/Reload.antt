-- ===== src/DbText/Reload.antt =====
-- The records of rules that were printed, loaded again.
use stirmake.Prelude.{
  ℕ, ◌<◌, ◌≡◌, refl, sym, ap, subst, ◌∙◌, ◌==◌, if◌then◌else◌, true, false, none, some, List, [],
  ◌∷◌, ◌++◌, append-nil, append_assoc, length, get_or, All, arith,
}
use stirmake.Canon.{Bytes}
use stirmake.Db.{Cmd, Dbe, Tsdbe, get_dbe, maybe_del_dbe, ins_dbe}
use stirmake.Db.Laws.{HasKeys}
use stirmake.Stringtab.{stringtab_get, stringtab_add_len}
use stirmake.Stringtab.Laws.{IsDistinct}
use stirmake.DbText.Reader.{Entry, of_rule}
use stirmake.DbText.Records.{has_commands}
use stirmake.DbText.RoundTrip.{rule_entries}
use stirmake.DbText.Load.{Loaded, dbyy_cmdfn, load_entries}

abbrev pub name_of : List Bytes → ℕ → Bytes
name_of ts i = get_or ts i []

pub add_known :
    (ts : List Bytes) (i : ℕ)
    → IsDistinct ts
    → i < length ts
    → stringtab_add_len ts (name_of ts i) ≡ (i, ts)
unfolding stringtab_add_len stringtab_get
add_known ts i h l =
    ap
      (λ o. elim o as (λ _. ℕ × List Bytes) [
        | some j ↦ (j, ts)
        | none ↦ (length ts, ts ++ name_of ts i ∷ [])
      ])
      (h i l)

other_key :
    (d es : List Dbe) (e : Dbe) (k : ℕ) → get_dbe (d ++ e ∷ es) k ≡ none → (e.tgtidx == k) ≡ false
unfolding get_dbe
other_key [] es e k h = ground arith
other_key (x ∷ d) es e k h = ground (arith, other_key d es e k)

new_key : (d es : List Dbe) (e : Dbe) → HasKeys (d ++ e ∷ es) → maybe_del_dbe d e.tgtidx ≡ d
unfolding maybe_del_dbe
new_key [] es e h = refl
new_key (x ∷ d) es e h =
    let o = other_key d es e x.tgtidx h.0 in
    let ne : (x.tgtidx == e.tgtidx) ≡ false = ground arith in
    rw ne (ap (λ y. x ∷ y) (new_key d es e h.1))

abbrev pub loaded : List Bytes → List Dbe → List Tsdbe → Loaded
loaded ts d f = record { sttable = ts; db = d; tsdb = f }

abbrev rule_record : ℕ → ℕ → Cmd → Dbe
rule_record tgtidx diridx cmds = record { tgtidx = tgtidx; diridx = diridx; cmds = cmds }

cmdfn_known :
    (ts : List Bytes) (d : List Dbe) (e : Dbe)
    → IsDistinct ts
    → e.tgtidx < length ts
    → e.diridx < length ts
    → dbyy_cmdfn
        (record { sttable = ts; db = d; tsdb = [] })
        (name_of ts e.diridx)
        (name_of ts e.tgtidx)
        e.cmds
      ≡ record { sttable = ts; db = ins_dbe d e; tsdb = [] }
unfolding dbyy_cmdfn
cmdfn_known ts d e t l l' =
    ap
      (λ (r : ℕ × List Bytes).
        loaded (stringtab_add_len r.1 (name_of ts e.diridx)).1
          (ins_dbe d (rule_record r.0 (stringtab_add_len r.1 (name_of ts e.diridx)).0 e.cmds)) [])
      (add_known ts e.tgtidx t l)
    ∙ ap (λ (s : ℕ × List Bytes). loaded s.1 (ins_dbe d (rule_record e.tgtidx s.0 e.cmds)) [])
        (add_known ts e.diridx t l')

ins_dbe-new : (d es : List Dbe) (e : Dbe) → HasKeys (d ++ e ∷ es) → ins_dbe d e ≡ d ++ e ∷ []
unfolding ins_dbe
ins_dbe-new d es e h = ap (λ x. x ++ e ∷ []) (new_key d es e h)

abbrev pub HasNames : List Bytes → Dbe → Type 0
HasNames ts e = (e.tgtidx < length ts) × (e.diridx < length ts) × (has_commands e.cmds ≡ true)

pub load_rules :
    (ts : List Bytes) (d es : List Dbe) (more : List Entry)
    → IsDistinct ts
    → HasKeys (d ++ es)
    → All (HasNames ts) es
    → load_entries (loaded ts d []) (rule_entries (name_of ts) es ++ more)
      ≡ load_entries (loaded ts (d ++ es) []) more
unfolding load_entries
load_rules ts d [] more t h k = ap (λ x. load_entries (loaded ts x []) more) (sym (append-nil d))
load_rules ts d (e ∷ es) more t h k =
    let entries = rule_entries (name_of ts) es in
    ap
      (λ b. load_entries (loaded ts d []) (
        (if b
          then of_rule (name_of ts e.diridx) (name_of ts e.tgtidx) e.cmds ∷ entries
          else entries)
        ++ more))
      k.0.2
    ∙ ap (λ x. load_entries x (entries ++ more)) (cmdfn_known ts d e t k.0.0 k.0.1)
    ∙ ap (λ x. load_entries (loaded ts x []) (entries ++ more)) (ins_dbe-new d es e h)
    ∙ load_rules ts (d ++ e ∷ []) es more t (subst HasKeys (sym (append_assoc d (e ∷ []) es)) h) k.1
    ∙ ap (λ x. load_entries (loaded ts x []) more) (append_assoc d (e ∷ []) es)
