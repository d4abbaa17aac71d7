-- ===== src/DbText/Unescape.antt =====
-- An escaped string is read back.
use stirmake.Prelude.{
  none, some, ℕ, zero, suc, ◌-◌, ◌/◌, ◌%◌, ◌≤◌, ◌<◌, ◌≡◌, refl, sym, ap, ◌∙◌, ◌==◌, if◌then◌else◌,
  true, false, Bool-cases, ==_iff, subst, inl, inr, Option, some, [], ◌∷◌, ◌++◌, append_assoc,
  length, length-append, All, arith,
}
use stirmake.Prelude.Results.{exited, done}
use stirmake.Canon.{Bytes}
use stirmake.DbText.{
  accepts, hexdigit, rejectchar, file_escape_string, prepend, unescape, Unescaped,
}

-- What strtol reads of two hexadecimal digits of a byte.
abbrev pub ReadsHex : (Bytes → Option ℕ) → Type 0
ReadsHex strtol = (c : ℕ) → c < 256 → strtol (hexdigit (c / 16) ∷ hexdigit (c % 16) ∷ []) ≡ some c

-- How one byte is written.
unfoldable escaped : ℕ → Bytes
escaped c = if accepts c then c ∷ [] else rejectchar c

module _ (strtol : Bytes → Option ℕ) (reads : ReadsHex strtol) where
  abbrev ReadsBack : ℕ → Type 0
  ReadsBack c =
      (fuel more : ℕ) (rest : Bytes)
      → (more' : ℕ) × (unescape strtol (suc fuel) more (escaped c ++ rest)
          ≡ prepend (c ∷ []) (unescape strtol fuel more' rest))

  ReadsBack-quote : ReadsBack 34
  unfolding unescape accepts rejectchar escaped
  ReadsBack-quote fuel more rest = (0, refl)

  ReadsBack-plain : (c : ℕ) → accepts c ≡ true → ReadsBack c
  unfolding unescape accepts escaped
  ReadsBack-plain c ok fuel more rest = (
    (if more == 0 then 7 else more - 1),
    (let q : (c == b'"') ≡ false = ground arith in
        let e : (c == b'\\') ≡ false = ground arith in
        let w : escaped c ≡ c ∷ [] = ap (λ b. if b then c ∷ [] else rejectchar c) ok in
        grind arith),
  )

  ReadsBack-hex :
      (c : ℕ)
      → c < 256
      → escaped c ≡ 92 ∷ 120 ∷ hexdigit (c / 16) ∷ hexdigit (c % 16) ∷ []
      → ReadsBack c
  unfolding unescape
  ReadsBack-hex c l e fuel more rest = (
    0,
    (let b : c % 256 ≡ c = omega arith in
        let tail = unescape strtol fuel 0 rest in
        ap (λ x. unescape strtol (suc fuel) more (x ++ rest)) e
        ∙ ap
            (λ o. elim o as (λ _. Unescaped) [
              | none ↦ exited
              | some n ↦ prepend (n % 256 ∷ []) tail
            ])
            (reads c l)
        ∙ ap (λ n. prepend (n ∷ []) tail) b),
  )

  ReadsBack-backslash : ReadsBack 92
  unfolding unescape accepts rejectchar escaped
  ReadsBack-backslash fuel more rest = (0, refl)

  ReadsBack-apostrophe : ReadsBack 39
  unfolding unescape accepts rejectchar escaped
  ReadsBack-apostrophe fuel more rest = (0, refl)

  ReadsBack-newline : ReadsBack 10
  unfolding unescape accepts rejectchar escaped
  ReadsBack-newline fuel more rest = (0, refl)

  ReadsBack-return : ReadsBack 13
  unfolding unescape accepts rejectchar escaped
  ReadsBack-return fuel more rest = (0, refl)

  ReadsBack-tab : ReadsBack 9
  unfolding unescape accepts rejectchar escaped
  ReadsBack-tab fuel more rest = (0, refl)

  unless : (c k : ℕ) → ReadsBack k → ((c == k) ≡ false → ReadsBack c) → ReadsBack c
  unless c k known otherwise = elim (Bool-cases (c == k)) [
    | inl e ↦ subst ReadsBack (sym ((==_iff c k).0 e)) known
    | inr e ↦ otherwise e
  ]

  escaped_hex :
      (c : ℕ)
      → accepts c ≡ false
      → (c == 34) ≡ false
      → (c == 39) ≡ false
      → (c == 92) ≡ false
      → (c == 10) ≡ false
      → (c == 13) ≡ false
      → (c == 9) ≡ false
      → escaped c ≡ 92 ∷ 120 ∷ hexdigit (c / 16) ∷ hexdigit (c % 16) ∷ []
  unfolding rejectchar escaped
  escaped_hex c refused q a b n r t = grind arith

  unescape_char : (c : ℕ) → c < 256 → ReadsBack c
  unescape_char c l = elim (Bool-cases (accepts c)) [
    | inl ok ↦ ReadsBack-plain c ok
    | inr refused ↦ unless c 34 ReadsBack-quote (λ q. unless c 39 ReadsBack-apostrophe (λ a.
        unless c 92 ReadsBack-backslash (λ b. unless c 10 ReadsBack-newline (λ n.
          unless c 13 ReadsBack-return (λ r.
            unless c 9 ReadsBack-tab
              (λ t. ReadsBack-hex c l (escaped_hex c refused q a b n r t)))))))
  ]

  -- Behind its opening quote a string that file_escape_string wrote is read back up to its closing quote,
  -- on more fuel than it has bytes.
  pub unescape_escaped :
      (s : Bytes) (fuel more : ℕ) (rest : Bytes)
      → All (λ c. c < 256) s
      → length s < fuel
      → unescape strtol fuel more (file_escape_string s ++ b'"' ∷ rest) ≡ done (some (s, rest))
  unfolding unescape file_escape_string escaped prepend
  unescape_escaped s zero more rest bytes l = absurd (omega arith)
  unescape_escaped [] (suc fuel) more rest bytes l = refl
  unescape_escaped (c ∷ s) (suc fuel) more rest (b, bytes) l =
      let step = unescape_char c b fuel more (file_escape_string s ++ b'"' ∷ rest) in
      let assoc =
        ap (unescape strtol (suc fuel) more)
          (append_assoc (escaped c) (file_escape_string s) (b'"' ∷ rest)) in
      let ih = unescape_escaped s fuel step.0 rest bytes (omega arith) in
      assoc ∙ step.1 ∙ ap (prepend (c ∷ [])) ih

pub length-file_escape_string : (s : Bytes) → length s ≤ length (file_escape_string s)
unfolding file_escape_string rejectchar
length-file_escape_string [] = omega arith
length-file_escape_string (c ∷ s) =
    let ih = length-file_escape_string s in
    let l = length-append (if accepts c then c ∷ [] else rejectchar c) (file_escape_string s) in
    grind (arith, ih, l)
