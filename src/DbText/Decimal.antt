-- ===== src/DbText/Decimal.antt =====
-- Decimal and hexadecimal numbers, as examples of what the C library reads and prints.
use stirmake.Prelude.{
  ◌≤◌, length, ℕ, zero, suc, ◌+◌, ◌-◌, ◌*◌, ◌/◌, ◌%◌, ◌<◌, ◌≡◌, refl, ap, ◌∙◌, subst, ltb,
  if◌then◌else◌, Bool, true, false, Bool-cases, inl, inr, Option, none, some, [], ◌∷◌, ◌++◌,
  append_assoc, All, arith,
}
use stirmake.Prelude.Int.{ℤ, pos, negsuc}
use stirmake.Canon.{Bytes}
use stirmake.DbText.ReaderEnds.{ReadsDigit}
use stirmake.DbText.{hexdigit}
use stirmake.DbText.Unescape.{ReadsHex}
use stirmake.DbText.Reader.{isdigit}
use stirmake.DbText.Numbers.{Numerals}

hex_value : ℕ → ℕ
hex_value c = if isdigit c then c - 48 else c - 97 + 10

unfoldable pub read_hex : Bytes → Option ℕ
unfolding hex_value
read_hex [] = none
read_hex (a ∷ []) = some (hex_value a)
read_hex (a ∷ b ∷ cs) = some (hex_value a * 16 + hex_value b)

hex_value-hexdigit : (d : ℕ) → d < 16 → hex_value (hexdigit d) ≡ d
unfolding hex_value hexdigit isdigit
hex_value-hexdigit d l = ground arith

pub read_hex-ReadsHex : ReadsHex read_hex
unfolding read_hex
read_hex-ReadsHex c l =
    let a = hex_value-hexdigit (c / 16) (omega arith) in
    let b = hex_value-hexdigit (c % 16) (omega arith) in ap some (omega (arith, a, b))

read_digits : ℕ → Bytes → ℕ × Bytes
unfolding isdigit
read_digits acc [] = (acc, [])
read_digits acc (c ∷ cs) =
    let rest = read_digits (acc * 10 + (c - 48)) cs in if isdigit c then rest else (acc, c ∷ cs)

unfoldable pub read_decimal : Bytes → ℕ × Bytes
unfolding read_digits
read_decimal s = read_digits 0 s

digits : ℕ → ℕ → Bytes
digits zero n = []
digits (suc fuel) n =
    let more = digits fuel (n / 10) in
    if ltb n 10 then (48 + n) ∷ [] else more ++ (48 + n % 10) ∷ []

unfoldable pub print_decimal : ℤ → Bytes
unfolding digits
print_decimal (pos n) = digits (suc n) n
print_decimal (negsuc n) = 45 ∷ digits (suc (suc n)) (suc n)

abbrev IsDigits : Bytes → Type 0
IsDigits s = All (λ c. isdigit c ≡ true) s

IsDigits-snoc : (s : Bytes) (c : ℕ) → IsDigits s → isdigit c ≡ true → IsDigits (s ++ c ∷ [])
IsDigits-snoc [] c h k = (k, tt)
IsDigits-snoc (d ∷ s) c h k = (h.0, IsDigits-snoc s c h.1 k)

IsDigits-if :
    (b : Bool) (s t : Bytes)
    → (b ≡ true → IsDigits s)
    → (b ≡ false → IsDigits t)
    → IsDigits (if b then s else t)
IsDigits-if true s t h k = h refl
IsDigits-if false s t h k = k refl

IsDigits-digits : (fuel n : ℕ) → IsDigits (digits fuel n)
unfolding digits
IsDigits-digits zero n = tt
IsDigits-digits (suc fuel) n =
    IsDigits-if (ltb n 10) _ _ (λ l. (unfold isdigit in ground arith, tt))
      (λ _.
        IsDigits-snoc (digits fuel (n / 10)) (48 + n % 10) (IsDigits-digits fuel (n / 10))
          (unfold isdigit in ground arith))

nonempty_snoc : (s : Bytes) (c : ℕ) → (d : ℕ) × (ds : Bytes) × (s ++ c ∷ [] ≡ d ∷ ds)
nonempty_snoc [] c = (c, [], refl)
nonempty_snoc (d ∷ s) c = (d, s ++ c ∷ [], refl)

nonempty_digits : (fuel n : ℕ) → (d : ℕ) × (ds : Bytes) × (digits (suc fuel) n ≡ d ∷ ds)
unfolding digits
nonempty_digits fuel n = elim (Bool-cases (ltb n 10)) [
  | inl l ↦ (
    48 + n,
    [],
    ap (λ b. if b then (48 + n) ∷ [] else digits fuel (n / 10) ++ (48 + n % 10) ∷ []) l,
  )
  | inr l ↦
      let s = nonempty_snoc (digits fuel (n / 10)) (48 + n % 10) in
      (
        s.0,
        s.1,
        ap (λ b. if b then (48 + n) ∷ [] else digits fuel (n / 10) ++ (48 + n % 10) ∷ []) l ∙ s.2,
      )
]

read_digits-digit :
    (acc d : ℕ) (rest : Bytes)
    → d < 10
    → read_digits acc ((48 + d) ∷ rest) ≡ read_digits (acc * 10 + d) rest
unfolding read_digits
read_digits-digit acc d rest l =
    let digit : isdigit (48 + d) ≡ true = unfold isdigit in ground arith in
    let value : acc * 10 + (48 + d - 48) ≡ acc * 10 + d = omega arith in simp (digit, value)

read_digits-digits :
    (fuel n : ℕ) (rest : Bytes)
    → n < fuel
    → read_digits 0 (digits fuel n ++ rest) ≡ read_digits n rest
unfolding digits
read_digits-digits zero n rest l = absurd (omega arith)
read_digits-digits (suc fuel) n rest l = elim (Bool-cases (ltb n 10)) [
  | inl small ↦
      ap
        (λ b.
          read_digits 0
            ((if b then (48 + n) ∷ [] else digits fuel (n / 10) ++ (48 + n % 10) ∷ []) ++ rest))
        small
      ∙ read_digits-digit 0 n rest (ground arith)
      ∙ ap (λ m. read_digits m rest) (omega arith)
  | inr large ↦
      ap
        (λ b.
          read_digits 0
            ((if b then (48 + n) ∷ [] else digits fuel (n / 10) ++ (48 + n % 10) ∷ []) ++ rest))
        large
      ∙ ap (read_digits 0) (append_assoc (digits fuel (n / 10)) ((48 + n % 10) ∷ []) rest)
      ∙ read_digits-digits fuel (n / 10) ((48 + n % 10) ∷ rest) (ground arith)
      ∙ read_digits-digit (n / 10) (n % 10) rest (omega arith)
      ∙ ap (λ m. read_digits m rest) (omega arith)
]

pub read_decimal-Numerals : Numerals read_decimal print_decimal
unfolding read_decimal print_decimal
read_decimal-Numerals = record {
  digits = λ n.
      let d = nonempty_digits n n in
      (d.0, d.1, d.2, subst IsDigits d.2 (IsDigits-digits (suc n) n));
  reads = λ n c rest l e. read_digits-digits (suc n) n (c ∷ rest) (omega arith) ∙ rw e;
}

length-read_digits : (acc : ℕ) (s : Bytes) → length (read_digits acc s).1 ≤ length s
unfolding read_digits
length-read_digits acc [] = omega arith
length-read_digits acc (c ∷ s) =
    let r = length-read_digits (acc * 10 + (c - 48)) s in
    elim (Bool-cases (isdigit c)) [ inl d ↦ rw d (omega (arith, r)) | inr d ↦ rw d (omega arith) ]

pub read_decimal-ReadsDigit : ReadsDigit read_decimal
unfolding read_decimal read_digits
read_decimal-ReadsDigit c cs d = rw d (omega (arith, length-read_digits (0 * 10 + (c - 48)) cs))
