-- ===== src/DbText/Lines.antt =====
-- The text that merge_db_v2 prints, cut into its lines.
use stirmake.Prelude.{
  ℕ, ◌/◌, ◌%◌, ◌≡◌, refl, sym, ap, ◌∙◌, ◌==◌, if◌then◌else◌, Bool, true, false, ◌||◌, List, [], ◌∷◌,
  ◌++◌, append_assoc, All, arith,
}
use stirmake.Prelude.Int.{ℤ, pos}
use stirmake.Canon.{Bytes}
use stirmake.DbText.{accepts, rejectchar, hexdigit, file_escape_string}
use stirmake.DbText.Reader.{getlines, isdigit}
use stirmake.DbText.Writer.{print_string, print_args}
use stirmake.DbText.Items.{IsBytes}
use stirmake.DbText.Numbers.{Numerals}

abbrev pub NoNewline : Bytes → Type 0
NoNewline s = All (λ c. (c == b'\n') ≡ false) s

pub getlines-line :
    (s rest : Bytes)
    → NoNewline s
    → getlines (s ++ b'\n' ∷ rest) ≡ (s ++ b'\n' ∷ []) ∷ getlines rest
unfolding getlines
getlines-line [] rest h = refl
getlines-line (c ∷ s) rest h = let ih = getlines-line s rest h.1 in simp (h.0, ih)

pub NoNewline-append : (s t : Bytes) → NoNewline s → NoNewline t → NoNewline (s ++ t)
NoNewline-append [] t h k = k
NoNewline-append (c ∷ s) t h k = (h.0, NoNewline-append s t h.1 k)

NoNewline-if :
    (b : Bool) (s t : Bytes)
    → (b ≡ true → NoNewline s)
    → (b ≡ false → NoNewline t)
    → NoNewline (if b then s else t)
NoNewline-if true s t h k = h refl
NoNewline-if false s t h k = k refl

hexdigit-ne-newline : (d : ℕ) → (hexdigit d == b'\n') ≡ false
unfolding hexdigit
hexdigit-ne-newline d = ground arith

NoNewline-char : (c : ℕ) → NoNewline (if accepts c then c ∷ [] else rejectchar c)
unfolding rejectchar accepts
NoNewline-char c =
    NoNewline-if (accepts c) (c ∷ []) (rejectchar c) (λ a. (ground arith, tt))
      (λ a.
        NoNewline-if (c == b'"' || c == b'\'' || c == b'\\') (b'\\' ∷ c ∷ []) _
          (λ q. (refl, (ground arith, tt)))
          (λ q.
            NoNewline-if (c == b'\n') _ _ (λ n. (refl, (refl, tt)))
              (λ n.
                NoNewline-if (c == b'\r') _ _ (λ r. (refl, (refl, tt)))
                  (λ r.
                    NoNewline-if (c == b'\t') _ _ (λ t. (refl, (refl, tt)))
                      (λ t. (
                        refl,
                        (refl, (hexdigit-ne-newline (c / 16), (hexdigit-ne-newline (c % 16), tt))),
                      ))))))

NoNewline-escaped : (s : Bytes) → IsBytes s → NoNewline (file_escape_string s)
unfolding file_escape_string
NoNewline-escaped [] b = tt
NoNewline-escaped (c ∷ s) b =
    NoNewline-append (if accepts c then c ∷ [] else rejectchar c) (file_escape_string s)
      (NoNewline-char c) (NoNewline-escaped s b.1)

-- A printer of a text on one line.
abbrev pub Prints : (Bytes → Bytes) → Type 0
Prints f = (p : Bytes) × NoNewline p × ((rest : Bytes) → f rest ≡ p ++ rest)

pub Prints-comp : (f g : Bytes → Bytes) → Prints f → Prints g → Prints (λ x. f (g x))
Prints-comp f g pf pg = (
  pf.0 ++ pg.0,
  NoNewline-append pf.0 pg.0 pf.1 pg.1,
  (λ rest. pf.2 (g rest) ∙ ap (λ x. pf.0 ++ x) (pg.2 rest) ∙ sym (append_assoc pf.0 pg.0 rest)),
)

pub Prints-byte : (c : ℕ) → (c == b'\n') ≡ false → Prints (λ x. c ∷ x)
Prints-byte c h = (c ∷ [], (h, tt), (λ rest. refl))

pub Prints-string : (s : Bytes) → IsBytes s → Prints (print_string s)
unfolding print_string
Prints-string s b =
    Prints-comp (λ x. b'"' ∷ x) (λ x. file_escape_string s ++ b'"' ∷ x) (Prints-byte b'"' refl)
      (Prints-comp (λ x. file_escape_string s ++ x) (λ x. b'"' ∷ x)
        (file_escape_string s, NoNewline-escaped s b, (λ rest. refl)) (Prints-byte b'"' refl))

pub Prints-args : (args : List Bytes) → All IsBytes args → Prints (print_args args)
unfolding print_args
Prints-args [] b = ([], tt, (λ rest. refl))
Prints-args (arg ∷ args) b =
    Prints-comp (λ x. b' ' ∷ x) (λ x. print_string arg (print_args args x)) (Prints-byte b' ' refl)
      (Prints-comp (print_string arg) (print_args args) (Prints-string arg b.0)
        (Prints-args args b.1))

pub getlines-Prints :
    (f : Bytes → Bytes) (rest : Bytes)
    → Prints f
    → getlines (f (b'\n' ∷ rest)) ≡ f (b'\n' ∷ []) ∷ getlines rest
getlines-Prints f rest p =
    ap getlines (p.2 (b'\n' ∷ rest))
    ∙ getlines-line p.0 rest p.1
    ∙ ap (λ x. x ∷ getlines rest) (sym (p.2 (b'\n' ∷ [])))

module _ (strtoll : Bytes → ℕ × Bytes) (lld : ℤ → Bytes) (numerals : Numerals strtoll lld) where
  NoNewline-digits : (s : Bytes) → All (λ c. isdigit c ≡ true) s → NoNewline s
  unfolding isdigit
  NoNewline-digits [] h = tt
  NoNewline-digits (c ∷ s) h = (let d = h.0 in ground arith, NoNewline-digits s h.1)

  pub Prints-number : (n : ℕ) → Prints (λ x. lld (pos n) ++ x)
  Prints-number n =
      let d = numerals.digits n in
      (d.0 ∷ d.1, NoNewline-digits (d.0 ∷ d.1) d.3, (λ rest. ap (λ x. x ++ rest) d.2))
