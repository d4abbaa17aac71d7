-- ===== src/DbText/Numbers.antt =====
-- The line of a file's size and time, read back.
use stirmake.Prelude.{
  ℕ, suc, ◌^◌, ◌<◌, ◌≡◌, refl, sym, ap, subst, ◌∙◌, ◌==◌, leb, if◌then◌else◌, true, false, not,
  ◌||◌, Option, some, List, [], ◌∷◌, ◌++◌, length, drop, All, arith,
}
use stirmake.Prelude.Int.{ℤ, pos}
use stirmake.Prelude.Results.{done}
use stirmake.Canon.{Bytes}
use stirmake.DbText.Unescape.{ReadsHex}
use stirmake.DbText.Reader.{
  Reader, Line, goes_on, refused, whitespacespn, isdigit, resume, dbyy_emplace_tsdb, read_string,
  end_line, item, items, fresh_line, of_file,
}
use stirmake.DbText.Writer.{print_string}
use stirmake.DbText.Items.{IsBytes, string_item, items_go, items_end, newline_item}

-- What fprintf prints for %lld of a number that is not negative, and strtoll reads: digits, and the
-- number behind which a byte that is no digit ends it.
pub record Numerals (strtoll : Bytes → ℕ × Bytes) (lld : ℤ → Bytes) : Type 0 where
  pub digits :
      (n : ℕ)
      → (d : ℕ) × (ds : Bytes) × (lld (pos n) ≡ d ∷ ds) × All (λ c. isdigit c ≡ true) (d ∷ ds)
  pub reads :
      (n : ℕ) (c : ℕ) (rest : Bytes)
      → n < 2 ^ 63
      → isdigit c ≡ false
      → strtoll (lld (pos n) ++ c ∷ rest) ≡ (n, c ∷ rest)

module _ (strtol : Bytes → Option ℕ) (strtoll : Bytes → ℕ × Bytes) (lld : ℤ → Bytes)
    (reads_hex : ReadsHex strtol) (numerals : Numerals strtoll lld) where
  resume_digits :
      (l : Line) (r : Reader) (n : ℕ) (rest : Bytes)
      → resume l r (drop (whitespacespn (b' ' ∷ lld (pos n) ++ rest)) (b' ' ∷ lld (pos n) ++ rest))
        ≡ done (goes_on l r (lld (pos n) ++ rest))
  unfolding resume whitespacespn isdigit
  resume_digits l r n rest =
      let d = numerals.digits n in
      let digit = d.3.0 in
      let s : (d.0 == b' ' || d.0 == b'\t') ≡ false = ground arith in
      subst
        (λ x.
          resume l r (drop (whitespacespn (b' ' ∷ x ++ rest)) (b' ' ∷ x ++ rest))
          ≡ done (goes_on l r (x ++ rest)))
        (sym d.2) (simp s)

  digit_item :
      (l : Line) (r : Reader) (n d : ℕ) (ds rest : Bytes)
      → isdigit d ≡ true
      → strtoll (d ∷ ds) ≡ (n, rest)
      → r.is_v2 ≡ true
      → leb 3 (length l.nums) ≡ false
      → item strtol strtoll false l r (d ∷ ds)
        ≡ resume (record l { nums = l.nums ++ n ∷ [] }) r (drop (whitespacespn rest) rest)
  unfolding item
  digit_item l r n d ds rest digit read v2 few =
      let q : (d == b'"') ≡ false = unfold isdigit in ground arith in
      let o : (d == b':') ≡ false = unfold isdigit in ground arith in
      let e : (d == b'=') ≡ false = unfold isdigit in ground arith in
      simp (q, o, e, digit, read, v2, few)

  number_item :
      (l : Line) (r : Reader) (n : ℕ) (c : ℕ) (rest : Bytes)
      → n < 2 ^ 63
      → isdigit c ≡ false
      → r.is_v2 ≡ true
      → leb 3 (length l.nums) ≡ false
      → item strtol strtoll false l r (lld (pos n) ++ c ∷ rest)
        ≡ resume
            (record l { nums = l.nums ++ n ∷ [] })
            r
            (drop (whitespacespn (c ∷ rest)) (c ∷ rest))
  number_item l r n c rest small end v2 few =
      let d = numerals.digits n in
      let text : lld (pos n) ++ c ∷ rest ≡ d.0 ∷ d.1 ++ c ∷ rest = ap (λ x. x ++ c ∷ rest) d.2 in
      let read = numerals.reads n c rest small end in
      ap (item strtol strtoll false l r) text
      ∙ digit_item l r n d.0 (d.1 ++ c ∷ rest) (c ∷ rest) d.3.0 (ap strtoll (sym text) ∙ read) v2
          few

  read_file_name :
      (r : Reader) (tgt rest : Bytes)
      → read_string false fresh_line r tgt (b' ' ∷ b'=' ∷ rest)
        ≡ done (goes_on (record fresh_line { first_string = some tgt }) r (b'=' ∷ rest))
  unfolding read_string
  read_file_name r tgt rest = refl

  equals_item :
      (l : Line) (r : Reader) (n : ℕ) (rest : Bytes)
      → r.is_v2 ≡ true
      → item strtol strtoll false l r (b'=' ∷ b' ' ∷ lld (pos n) ++ rest)
        ≡ done (goes_on l r (lld (pos n) ++ rest))
  unfolding item
  equals_item l r n rest v2 =
      ap
        (λ b.
          if not b
          then done refused
          else resume l r
              (drop (whitespacespn (b' ' ∷ lld (pos n) ++ rest)) (b' ' ∷ lld (pos n) ++ rest)))
        v2
      ∙ resume_digits l r n rest

  abbrev numbered : Bytes → List ℕ → Line
  numbered tgt nums = record fresh_line { first_string = some tgt; nums = nums }

  last_number_item :
      (l : Line) (r : Reader) (n : ℕ)
      → n < 2 ^ 63
      → r.is_v2 ≡ true
      → leb 3 (length l.nums) ≡ false
      → item strtol strtoll false l r (lld (pos n) ++ b'\n' ∷ [])
        ≡ done (goes_on (record l { nums = l.nums ++ n ∷ [] }) r (b'\n' ∷ []))
  unfolding resume whitespacespn isdigit
  last_number_item l r n small v2 few = number_item l r n b'\n' [] small refl v2 few

  pub items_file :
      (tgt : Bytes) (sz sec nsec : ℕ) (fuel : ℕ) (r : Reader)
      → IsBytes tgt
      → sz < 2 ^ 63
      → sec < 2 ^ 63
      → nsec < 2 ^ 63
      → r.is_v2 ≡ true
      → items strtol strtoll (suc (suc (suc (suc (suc (suc fuel)))))) false fresh_line r (
          print_string tgt (
            b' '
            ∷ b'='
            ∷ b' '
            ∷ (lld (pos sz)
                ++ (b' ' ∷ (lld (pos sec) ++ (b' ' ∷ (lld (pos nsec) ++ b'\n' ∷ [])))))))
        ≡ done (some (record r { called = r.called ++ of_file tgt sz sec nsec ∷ [] }))
  unfolding end_line isdigit dbyy_emplace_tsdb
  items_file tgt sz sec nsec fuel r b small1 small2 small3 v2 =
      items_go strtol strtoll reads_hex false fresh_line r _ (suc (suc (suc (suc (suc fuel))))) (
        string_item strtol strtoll reads_hex false fresh_line r tgt _ b refl
        ∙ read_file_name r tgt _)
      ∙ items_go strtol strtoll reads_hex false (numbered tgt []) r _ (suc (suc (suc (suc fuel))))
          (equals_item (numbered tgt []) r sz _ v2)
      ∙ items_go strtol strtoll reads_hex false (numbered tgt []) r _ (suc (suc (suc fuel))) (
          number_item (numbered tgt []) r sz b' ' _ small1 refl v2 refl
          ∙ resume_digits (numbered tgt (sz ∷ [])) r sec _)
      ∙ items_go strtol strtoll reads_hex false (numbered tgt (sz ∷ [])) r _ (suc (suc fuel)) (
          number_item (numbered tgt (sz ∷ [])) r sec b' ' _ small2 refl v2 refl
          ∙ resume_digits (numbered tgt (sz ∷ sec ∷ [])) r nsec _)
      ∙ items_go strtol strtoll reads_hex false (numbered tgt (sz ∷ sec ∷ [])) r _ (suc fuel)
          (last_number_item (numbered tgt (sz ∷ sec ∷ [])) r nsec small3 v2 refl)
      ∙ items_end strtol strtoll reads_hex false (numbered tgt (sz ∷ sec ∷ nsec ∷ [])) r _ fuel
          (newline_item strtol strtoll reads_hex false _ r)
