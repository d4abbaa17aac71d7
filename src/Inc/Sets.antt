-- ===== src/Inc/Sets.antt =====
-- The two tests for the end of a word.
use stirmake.Prelude.{
  ℕ, zero, suc, ◌<◌, ◌≡◌, refl, sym, ap, ◌∙◌, ◌==◌, leb, Bool, true, false, not, ◌&&◌, ◌||◌,
  Bool-cases, inl, inr, [], ◌∷◌, arith,
}
use stirmake.Canon.{Bytes}
use stirmake.DbText.Items.{IsBytes}
use stirmake.Inc.{has_bit, inset_ascii, inset_set, add_bit, line_set, mycspn, longer}

-- Equality of two answers.
abbrev agree : Bool → Bool → Bool
agree a b = (a && b) || (not a && not b)

all_below : ℕ → (ℕ → Bool) → Bool
all_below zero p = true
all_below (suc n) p = p n && all_below n p

all_below_lem : (n c : ℕ) (p : ℕ → Bool) → all_below n p ≡ true → c < n → p c ≡ true
unfolding all_below
all_below_lem zero c p h l = absurd (omega arith)
all_below_lem (suc n) c p h l = elim (Bool-cases (c == n)) [
  | inl e ↦ ap p (same e) ∙ (both h).0
  | inr e ↦ all_below_lem n c p (both h).1 (ground arith)
]
  where
    same : (c == n) ≡ true → c ≡ n
    same e = ground arith

    both : {a b : Bool} → (a && b) ≡ true → (a ≡ true) × (b ≡ true)
    both q = ground arith

agree_lem : (a b : Bool) → agree a b ≡ true → a ≡ b
agree_lem a b h = ground arith

-- The bytes at which a word ends or has an escape.
abbrev pub is_stop : ℕ → Bool
is_stop c = c == 0 || c == b'\t' || c == b'\n' || c == b' ' || c == b'$' || c == b':' || c == b'\\'

table_ascii : all_below 64 (λ c. agree (inset_ascii c) (is_stop c)) ≡ true
unfolding all_below inset_ascii has_bit
table_ascii = refl

table_set : all_below 256 (λ c. agree (inset_ascii c) (inset_set line_set c)) ≡ true
unfolding all_below inset_ascii inset_set has_bit line_set add_bit
table_set = refl

pub inset_ascii_lem : (c : ℕ) → inset_ascii c ≡ is_stop c
inset_ascii_lem c = elim (Bool-cases (leb 64 c)) [
  | inl e ↦ high e
  | inr e ↦
      agree_lem (inset_ascii c) (is_stop c)
        (all_below_lem 64 c (λ c. agree (inset_ascii c) (is_stop c)) table_ascii (ground arith))
]
  where
    high : leb 64 c ≡ true → inset_ascii c ≡ is_stop c
    high e = unfold inset_ascii in ground arith

inset_set_lem : (c : ℕ) → c < 256 → inset_set line_set c ≡ inset_ascii c
inset_set_lem c l = sym (
    agree_lem (inset_ascii c) (inset_set line_set c)
      (all_below_lem 256 c (λ c. agree (inset_ascii c) (inset_set line_set c)) table_set l))

module _ (inset : ℕ → Bool) (c : ℕ) where
  pub mycspn-plain :
      (s : Bytes) → inset c ≡ false → mycspn inset (c ∷ s) ≡ longer (c ∷ []) false (mycspn inset s)
  unfolding mycspn
  mycspn-plain [] e = rw (e, mycspn) refl
  mycspn-plain (d ∷ ds) e = rw (e, mycspn) refl

  pub mycspn-escape :
      (d : ℕ) (s : Bytes)
      → inset c ≡ true
      → (c == b'\\' || c == b'$') ≡ true
      → mycspn inset (c ∷ d ∷ s) ≡ longer (c ∷ d ∷ []) true (mycspn inset s)
  unfolding mycspn
  mycspn-escape d s e escape = rw (e, mycspn, escape) refl

  pub mycspn-end :
      (s : Bytes)
      → inset c ≡ true
      → (c == b'\\' || c == b'$') ≡ false
      → mycspn inset (c ∷ s) ≡ record { word = []; had_escapes = false; rest = c ∷ s }
  unfolding mycspn
  mycspn-end [] e ends = rw (e, mycspn) refl
  mycspn-end (d ∷ ds) e ends = rw (e, mycspn, ends) refl

-- On a string of bytes, mycspn_ascii and mycspn_set with the set of incyymineparse find the same end
-- of a word, and tell the same of escapes.
pub mycspn-inset_set :
    (s : Bytes) → IsBytes s → mycspn (inset_set line_set) s ≡ mycspn inset_ascii s
unfolding mycspn
mycspn-inset_set [] h = refl
mycspn-inset_set (c ∷ []) h = rw (inset_set_lem c h.0) refl
mycspn-inset_set (c ∷ d ∷ ds) h =
    let same = inset_set_lem c h.0 in
    elim (Bool-cases (inset_ascii c)) [
      | inr plain ↦
          mycspn-plain (inset_set line_set) c (d ∷ ds) (same ∙ plain)
          ∙ ap (longer (c ∷ []) false) (mycspn-inset_set (d ∷ ds) h.1)
          ∙ sym (mycspn-plain inset_ascii c (d ∷ ds) plain)
      | inl stop ↦ elim (Bool-cases (c == b'\\' || c == b'$')) [
        | inl escape ↦
            mycspn-escape (inset_set line_set) c d ds (same ∙ stop) escape
            ∙ ap (longer (c ∷ d ∷ []) true) (mycspn-inset_set ds h.1.1)
            ∙ sym (mycspn-escape inset_ascii c d ds stop escape)
        | inr ends ↦
            mycspn-end (inset_set line_set) c (d ∷ ds) (same ∙ stop) ends
            ∙ sym (mycspn-end inset_ascii c (d ∷ ds) stop ends)
      ]
    ]
