-- ===== src/DbText/Restart.antt =====
-- A database that is written and loaded again.
use stirmake.Prelude.{
  ℕ, suc, zero, ◌<◌, ◌≡◌, refl, sym, ap, subst, ◌∙◌, ◌==◌, false, Option, none, some, List, [], ◌∷◌,
  ◌++◌, append-nil, append_assoc, map, length, get_or, All, arith,
}
use stirmake.Prelude.Int.{ℤ, pos, pos_part, neg_part}
use stirmake.Prelude.Results.{Outcome, done, and_then}
use stirmake.Canon.{Bytes}
use stirmake.Time.{Timespec}
use stirmake.Db.{Dbe, Tsdbe, get_tsdbe, maybe_del_tsdbe, ins_tsdbe}
use stirmake.Db.Laws.{HasKeys}
use stirmake.Stringtab.Laws.{IsDistinct}
use stirmake.DbText.Unescape.{ReadsHex}
use stirmake.DbText.Writer.{print_dbs}
use stirmake.DbText.Items.{IsBytes}
use stirmake.DbText.Numbers.{Numerals}
use stirmake.DbText.Records.{not_negative, HasNumbers}
use stirmake.DbText.RoundTrip.{printed_size, printed_time, file_entries, dbyymineparse-print_dbs}
use stirmake.DbText.Load.{Loaded, dbyy_tsfn, load_entries, load_db_part2}
use stirmake.DbText.Reload.{name_of, loaded, HasNames, add_known, load_rules}

-- The records of files as they are when loaded.
abbrev pub unseen : Tsdbe → Tsdbe
unseen e = record {
  stringtabidx = e.stringtabidx;
  ts = printed_time e;
  tsnew = printed_time e;
  sz = printed_size e;
  sznew = printed_size e;
  seen = false;
}

abbrev pub HasFileKeys : List Tsdbe → Type 0
HasFileKeys [] = Unit
HasFileKeys (e ∷ es) = (get_tsdbe es e.stringtabidx ≡ none) × HasFileKeys es

other_file :
    (d es : List Tsdbe) (e : Tsdbe) (k : ℕ)
    → get_tsdbe (d ++ e ∷ es) k ≡ none
    → (e.stringtabidx == k) ≡ false
unfolding get_tsdbe
other_file [] es e k h = ground arith
other_file (x ∷ d) es e k h = ground (arith, other_file d es e k)

new_file :
    (d es : List Tsdbe) (e : Tsdbe)
    → HasFileKeys (d ++ e ∷ es)
    → maybe_del_tsdbe d e.stringtabidx ≡ d
unfolding maybe_del_tsdbe
new_file [] es e h = refl
new_file (x ∷ d) es e h =
    let o = other_file d es e x.stringtabidx h.0 in
    let ne : (x.stringtabidx == e.stringtabidx) ≡ false = ground arith in
    rw ne (ap (λ y. x ∷ y) (new_file d es e h.1))

abbrev file_record : ℕ → ℕ → Timespec → Tsdbe
file_record idx sz ts = record {
  stringtabidx = idx;
  ts = ts;
  tsnew = ts;
  sz = sz;
  sznew = sz;
  seen = false;
}

abbrev time_of : ℤ → ℕ → Timespec
time_of sec nsec = record { tv_sec = sec; tv_nsec = nsec }

tsfn_known :
    (ts : List Bytes) (db : List Dbe) (f : List Tsdbe) (e : Tsdbe)
    → IsDistinct ts
    → e.stringtabidx < length ts
    → neg_part (printed_time e).tv_sec ≡ 0
    → dbyy_tsfn (loaded ts db f) (name_of ts e.stringtabidx) (printed_size e) (record {
      tv_sec = pos (pos_part (printed_time e).tv_sec);
      tv_nsec = (printed_time e).tv_nsec;
    })
      ≡ loaded ts db (ins_tsdbe f (unseen e))
unfolding dbyy_tsfn
tsfn_known ts db f e t l p =
    ap
      (λ (r : ℕ × List Bytes). loaded r.1 db (
        ins_tsdbe f (
          file_record r.0 (printed_size e)
            (time_of (pos (pos_part (printed_time e).tv_sec)) (printed_time e).tv_nsec))))
      (add_known ts e.stringtabidx t l)
    ∙ ap
        (λ z. loaded ts db (
          ins_tsdbe f
            (file_record e.stringtabidx (printed_size e) (time_of z (printed_time e).tv_nsec))))
        (sym (not_negative (printed_time e).tv_sec p))

key_unseen : (es : List Tsdbe) (k : ℕ) → get_tsdbe es k ≡ none → get_tsdbe (map unseen es) k ≡ none
unfolding get_tsdbe
key_unseen [] k h = refl
key_unseen (e ∷ es) k h = ground (arith, key_unseen es k)

keys_unseen : (es : List Tsdbe) → HasFileKeys es → HasFileKeys (map unseen es)
keys_unseen [] h = tt
keys_unseen (e ∷ es) h = (key_unseen es e.stringtabidx h.0, keys_unseen es h.1)

abbrev pub IsStored : List Bytes → Tsdbe → Type 0
IsStored ts e = (e.stringtabidx < length ts) × HasNumbers (printed_size e) (printed_time e)

load_files :
    (ts : List Bytes) (db : List Dbe) (f es : List Tsdbe)
    → IsDistinct ts
    → HasFileKeys (f ++ map unseen es)
    → All (IsStored ts) es
    → load_entries (loaded ts db f) (file_entries (name_of ts) es)
      ≡ loaded ts db (f ++ map unseen es)
unfolding load_entries ins_tsdbe
load_files ts db f [] t h k = ap (loaded ts db) (sym (append-nil f))
load_files ts db f (e ∷ es) t h k =
    ap (λ x. load_entries x (file_entries (name_of ts) es)) (tsfn_known ts db f e t k.0.0 k.0.1.1)
    ∙ ap (λ x. load_entries (loaded ts db (x ++ unseen e ∷ [])) (file_entries (name_of ts) es))
        (new_file f (map unseen es) (unseen e) h)
    ∙ load_files ts db (f ++ unseen e ∷ []) es t
        (subst HasFileKeys (sym (append_assoc f (unseen e ∷ []) (map unseen es))) h) k.1
    ∙ ap (loaded ts db) (append_assoc f (unseen e ∷ []) (map unseen es))

All-imp :
    {A : Type 0} (P Q : A → Type 0) (xs : List A) → ((x : A) → P x → Q x) → All P xs → All Q xs
All-imp P Q [] f h = tt
All-imp P Q (x ∷ xs) f h = (f x h.0, All-imp P Q xs f h.1)

name-IsBytes : (ts : List Bytes) → All IsBytes ts → (i : ℕ) → IsBytes (name_of ts i)
name-IsBytes [] h i = tt
name-IsBytes (t ∷ ts) h zero = h.0
name-IsBytes (t ∷ ts) h (suc i) = name-IsBytes ts h.1 i

-- Databases that are printed and loaded again under the same table of strings are as they were, but
-- that no file is seen and each has the size and time that were printed. Each database has one record
-- for a key and each rule has commands; strings are bytes, and sizes and times are not negative and
-- below 2^63.
pub load_db_part2-print_dbs :
    (strtol : Bytes → Option ℕ) (strtoll : Bytes → ℕ × Bytes) (lld : ℤ → Bytes)
    (sttable : List Bytes) (db : List Dbe) (tsdb : List Tsdbe)
    → ReadsHex strtol
    → Numerals strtoll lld
    → IsDistinct sttable
    → All IsBytes sttable
    → HasKeys db
    → HasFileKeys tsdb
    → All (λ e. HasNames sttable e × All (All IsBytes) e.cmds) db
    → All (IsStored sttable) tsdb
    → load_db_part2 strtol strtoll sttable (print_dbs (λ i. get_or sttable i []) lld db tsdb)
      ≡ done (some (record { sttable = sttable; db = db; tsdb = map unseen tsdb }))
unfolding load_db_part2
load_db_part2-print_dbs strtol strtoll lld ts db tsdb reads numerals distinct bytes keys files rules
      stored =
    let names = All-imp _ (HasNames ts) db (λ e h. h.0) rules in
    let r =
      dbyymineparse-print_dbs strtol strtoll lld (name_of ts) reads numerals (name-IsBytes ts bytes)
        db tsdb (All-imp _ (λ e. All (All IsBytes) e.cmds) db (λ e h. h.1) rules)
        (All-imp _ (λ e. HasNumbers (printed_size e) (printed_time e)) tsdb (λ e h. h.1) stored) in
    let start = loaded ts [] [] in
    ap
      (λ o. and_then o (λ x. elim x as (λ _. Outcome (Option Loaded)) [
        | none ↦ done none
        | some s ↦ done (some (load_entries start s.called))
      ]))
      r.1
    ∙ ap (λ es. done (some (load_entries start es))) r.2
    ∙ ap (λ l. done (some l))
        (load_rules ts [] db (file_entries (name_of ts) tsdb) distinct keys names
          ∙ load_files ts db [] tsdb distinct (keys_unseen tsdb files) stored)
