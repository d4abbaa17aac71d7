-- ===== src/DbText/Files.antt =====
-- The records of files that merge_db_v2 prints, read back.
use stirmake.Prelude.{
  ℕ, suc, ◌-◌, ◌^◌, ◌≤◌, ◌<◌, ◌≡◌, refl, ap, ◌∙◌, false, Option, some, List, [], ◌∷◌, ◌++◌, length,
  arith,
}
use stirmake.Prelude.Int.{ℤ, pos, pos_part}
use stirmake.Prelude.Results.{done}
use stirmake.Canon.{Bytes}
use stirmake.Time.{Timespec}
use stirmake.Db.{Cmd}
use stirmake.DbText.Unescape.{ReadsHex}
use stirmake.DbText.Reader.{
  Entry, of_file, items, fresh_line, begin_line, read_line, whitespacespn, is_command,
}
use stirmake.DbText.Writer.{print_string, print_numbers}
use stirmake.DbText.Items.{IsBytes}
use stirmake.DbText.Numbers.{Numerals, items_file}
use stirmake.DbText.Lines.{Prints, Prints-comp, Prints-byte, Prints-string, Prints-number}
use stirmake.DbText.Records.{
  reader, reads, reads_line, HasNumbers, not_negative, length-print_string,
}

module _ (strtol : Bytes → Option ℕ) (strtoll : Bytes → ℕ × Bytes) (reads_hex : ReadsHex strtol)
    (lld : ℤ → Bytes) (numerals : Numerals strtoll lld) where
  abbrev numbers : ℕ → ℕ → ℕ → Bytes → Bytes
  numbers sz sec nsec rest =
      lld (pos sz) ++ (b' ' ∷ (lld (pos sec) ++ (b' ' ∷ (lld (pos nsec) ++ rest))))

  abbrev numbers_text : Bytes → ℕ → ℕ → ℕ → Bytes → Bytes
  numbers_text tgt sz sec nsec rest =
      print_string tgt (b' ' ∷ b'=' ∷ b' ' ∷ numbers sz sec nsec rest)

  read_file_line :
      (tgt : Bytes) (sz sec nsec : ℕ) (rule : Option (Bytes × Bytes)) (cmds : Cmd)
      (called : List Entry)
      → IsBytes tgt
      → sz < 2 ^ 63
      → sec < 2 ^ 63
      → nsec < 2 ^ 63
      → read_line strtol strtoll
          (reader false rule cmds called)
          (numbers_text tgt sz sec nsec (b'\n' ∷ []))
        ≡ done (some (reader false rule cmds (called ++ of_file tgt sz sec nsec ∷ [])))
  unfolding read_line print_string begin_line is_command whitespacespn
  read_file_line tgt sz sec nsec rule cmds called b h i j =
      let text = numbers_text tgt sz sec nsec (b'\n' ∷ []) in
      let len : 5 ≤ length text =
        omega (
          arith,
          length-print_string tgt (b' ' ∷ b'=' ∷ b' ' ∷ numbers sz sec nsec (b'\n' ∷ [])),
        ) in
      let fuel : suc (length text) ≡ suc (suc (suc (suc (suc (suc (length text - 5)))))) =
        omega arith in
      ap (λ n. items strtol strtoll n false fresh_line (reader false rule cmds called) text) fuel
      ∙ items_file strtol strtoll lld reads_hex numerals tgt sz sec nsec (length text - 5)
          (reader false rule cmds called) b h i j refl

  Prints-numbers : (sz sec nsec : ℕ) → Prints (numbers sz sec nsec)
  Prints-numbers sz sec nsec =
      let n = Prints-number strtoll lld numerals in
      let space = Prints-byte b' ' refl in
      Prints-comp (λ x. lld (pos sz) ++ x) _ (n sz)
        (Prints-comp (λ x. b' ' ∷ x) _ space
          (Prints-comp (λ x. lld (pos sec) ++ x) _ (n sec)
            (Prints-comp (λ x. b' ' ∷ x) (λ x. lld (pos nsec) ++ x) space (n nsec))))

  pub file_line :
      (sttable : ℕ → Bytes) (tgt : Bytes) (sz : ℕ) (ts : Timespec) (rest : Bytes)
      (rule : Option (Bytes × Bytes)) (cmds : Cmd) (called : List Entry)
      → IsBytes tgt
      → HasNumbers sz ts
      → reads strtol strtoll reads_hex
          (reader false rule cmds called)
          (print_numbers sttable lld tgt sz ts rest)
        ≡ reads strtol strtoll reads_hex
            (reader false rule cmds (called ++ of_file tgt sz (pos_part ts.tv_sec) ts.tv_nsec ∷ []))
            rest
  unfolding print_numbers
  file_line sttable tgt sz ts rest rule cmds called b h =
      let sec = pos_part ts.tv_sec in
      ap
        (λ z. reads strtol strtoll reads_hex (reader false rule cmds called) (
          print_string tgt (
            b' '
            ∷ b'='
            ∷ b' '
            ∷ (lld (pos sz)
                ++ (b' ' ∷ (lld z ++ (b' ' ∷ (lld (pos ts.tv_nsec) ++ b'\n' ∷ rest))))))))
        (not_negative ts.tv_sec h.1)
      ∙ reads_line strtol strtoll reads_hex (numbers_text tgt sz sec ts.tv_nsec) rest _ _
          (Prints-comp (print_string tgt) (λ x. b' ' ∷ b'=' ∷ b' ' ∷ numbers sz sec ts.tv_nsec x)
            (Prints-string tgt b)
            (Prints-comp (λ x. b' ' ∷ b'=' ∷ b' ' ∷ x) (numbers sz sec ts.tv_nsec)
              (b' ' ∷ b'=' ∷ b' ' ∷ [], (refl, (refl, (refl, tt))), (λ x. refl))
              (Prints-numbers sz sec ts.tv_nsec)))
          (read_file_line tgt sz sec ts.tv_nsec rule cmds called b h.0 h.2 h.3)
