-- ===== src/Inc/Words.antt =====
-- A name that is written with escapes is read back as one word.
use stirmake.Prelude.{
  ℕ, ◌≡◌, refl, sym, ap, subst, ◌∙◌, ◌==◌, if◌then◌else◌, Bool, true, false, ◌&&◌, ◌||◌, Bool-cases,
  inl, inr, some, [], ◌∷◌, ◌++◌, All, arith,
}
use stirmake.Prelude.Results.{Outcome}
use stirmake.Canon.{Bytes}
use stirmake.Inc.{
  Incyy, inset_ascii, mycspn, longer, cons_to, unescape_word, take_word, is_space, myspn_from,
}
use stirmake.Inc.Sets.{inset_ascii_lem, mycspn-plain, mycspn-escape, mycspn-end}

-- As the programs that write dependency files do it.
abbrev pub is_quoted : ℕ → Bool
is_quoted c = c == b'\\' || c == b':' || c == b' ' || c == b'\t'

abbrev pub escape_byte : ℕ → Bytes
escape_byte c =
    if is_quoted c then b'\\' ∷ c ∷ [] else if c == b'$' then b'$' ∷ b'$' ∷ [] else c ∷ []

unfoldable pub escape_name : Bytes → Bytes
escape_name [] = []
escape_name (c ∷ cs) = escape_byte c ++ escape_name cs

abbrev pub IsPart : Bytes → Type 0
IsPart s = All (λ c. ((c == 0) ≡ false) × ((c == b'\n') ≡ false)) s

-- The bytes that may follow a name.
abbrev pub is_end : ℕ → Bool
is_end t = t == b' ' || t == b':' || t == b'\n'

unescape-plain :
    (c : ℕ) (s : Bytes)
    → (c == b'\\') ≡ false
    → (c == b'$') ≡ false
    → unescape_word (c ∷ s) ≡ cons_to c (unescape_word s)
unfolding unescape_word
unescape-plain c [] h k = rw (h, k) refl
unescape-plain c (d ∷ ds) h k = rw (h, unescape_word, k) refl

pub quoted : (c : ℕ) → is_quoted c ≡ true → escape_byte c ≡ b'\\' ∷ c ∷ []
quoted c q = rw q refl

pub dollar : (c : ℕ) → is_quoted c ≡ false → (c == b'$') ≡ true → escape_byte c ≡ b'$' ∷ b'$' ∷ []
dollar c q d = rw (q, d) refl

pub other : (c : ℕ) → is_quoted c ≡ false → (c == b'$') ≡ false → escape_byte c ≡ c ∷ []
other c q d = rw (q, d) refl

is_dollar : (c : ℕ) → (c == b'$') ≡ true → b'$' ≡ c
is_dollar c d = ground arith

pub record IsBack (s text tail : Bytes) : Type 0 where
  pub esc : Bool
  pub cut :
      mycspn inset_ascii (text ++ tail) ≡ record { word = text; had_escapes = esc; rest = tail }
  pub same : esc ≡ false → text ≡ s
  pub back : unescape_word text ≡ some s

module _ (t : ℕ) (rest : Bytes) (ends : is_end t ≡ true) where
  pub IsBack-escape : (s : Bytes) → IsPart s → IsBack s (escape_name s) (t ∷ rest)
  unfolding escape_name unescape_word
  IsBack-escape [] h = record {
    esc = false;
    cut = mycspn-end inset_ascii t rest (inset_ascii_lem t ∙ ground arith) (ground arith);
    same = λ _. refl;
    back = refl;
  }
  IsBack-escape (c ∷ cs) (p, h) =
      let ih = IsBack-escape cs h in
      elim (Bool-cases (is_quoted c)) [
        | inl q ↦
            subst (λ x. IsBack (c ∷ cs) (x ++ escape_name cs) (t ∷ rest)) (sym (quoted c q))
              (record {
                esc = true;
                cut =
                    mycspn-escape inset_ascii b'\\' c (escape_name cs ++ t ∷ rest)
                      (inset_ascii_lem b'\\') refl
                    ∙ ap (longer (b'\\' ∷ c ∷ []) true) ih.cut;
                same = λ e. absurd cc;
                back = ap (cons_to c) ih.back;
              })
        | inr q ↦ elim (Bool-cases (c == b'$')) [
          | inl d ↦
              subst (λ x. IsBack (c ∷ cs) (x ++ escape_name cs) (t ∷ rest)) (sym (dollar c q d))
                (record {
                  esc = true;
                  cut =
                      mycspn-escape inset_ascii b'$' b'$' (escape_name cs ++ t ∷ rest)
                        (inset_ascii_lem b'$') refl
                      ∙ ap (longer (b'$' ∷ b'$' ∷ []) true) ih.cut;
                  same = λ e. absurd cc;
                  back = ap (cons_to b'$') ih.back ∙ ap (λ k. some (k ∷ cs)) (is_dollar c d);
                })
          | inr d ↦
              subst (λ x. IsBack (c ∷ cs) (x ++ escape_name cs) (t ∷ rest)) (sym (other c q d))
                (record {
                  esc = ih.esc;
                  cut =
                      mycspn-plain inset_ascii c (escape_name cs ++ t ∷ rest)
                        (inset_ascii_lem c ∙ ground arith)
                      ∙ ap (longer (c ∷ []) false) ih.cut;
                  same = λ e. ap (◌∷◌ c) (ih.same e);
                  back =
                      unescape-plain c (escape_name cs) (ground arith) d ∙ ap (cons_to c) ih.back;
                })
        ]
      ]

-- The name is given to incyy_set_tgt or incyy_set_dep.
pub take_word-IsBack :
    (set_name : Incyy → Bytes → Outcome Incyy) (c : ℕ) (cs text tail : Bytes) (y : Incyy)
    (h : IsBack (c ∷ cs) text tail)
    → take_word set_name (record { word = text; had_escapes = h.esc; rest = tail }) y
      ≡ set_name y (c ∷ cs)
unfolding take_word unescape_word
take_word-IsBack set_name c cs [] tail y h = absurd (cc h.back)
take_word-IsBack set_name c cs (x ∷ xs) tail y h = elim (Bool-cases h.esc) [
  | inl e ↦ rw (e, take_word, h.back) refl
  | inr e ↦ rw (e, take_word) (ap (set_name y) (h.same e))
]

-- White space in front of a name ends where the name begins.
pub record IsSolid (text : Bytes) : Type 0 where
  pub first : ℕ
  pub more : Bytes
  pub begins : text ≡ first ∷ more
  pub no_newline : (first == b'\n') ≡ false
  pub stays :
      (b : Bool) (tail : Bytes) → myspn_from b (first ∷ (more ++ tail)) ≡ first ∷ (more ++ tail)

pub myspn-solid :
    (b : Bool) (c : ℕ) (s : Bytes)
    → is_space c ≡ false
    → (c == b'\\') ≡ false
    → myspn_from b (c ∷ s) ≡ c ∷ s
unfolding myspn_from
myspn-solid b c [] h k = rw (h, myspn_from) refl
myspn-solid b c (d ∷ ds) h k = rw (h, myspn_from, no_line b) refl
  where
    no_line : (b : Bool) → (b && c == b'\\' && d == b'\n') ≡ false
    no_line b = ground arith

pub IsSolid-escape : (c : ℕ) (cs : Bytes) → IsPart (c ∷ cs) → IsSolid (escape_name (c ∷ cs))
unfolding escape_name myspn_from is_space
IsSolid-escape c cs (p, h) = elim (Bool-cases (is_quoted c)) [
  | inl q ↦ record {
    first = b'\\';
    more = c ∷ escape_name cs;
    begins = ap (λ x. x ++ escape_name cs) (quoted c q);
    no_newline = refl;
    stays = λ b tail. rw (no_line b, myspn_from) refl;
  }
  | inr q ↦ elim (Bool-cases (c == b'$')) [
    | inl d ↦ record {
      first = b'$';
      more = b'$' ∷ escape_name cs;
      begins = ap (λ x. x ++ escape_name cs) (dollar c q d);
      no_newline = refl;
      stays = λ b tail. myspn-solid b b'$' (b'$' ∷ (escape_name cs ++ tail)) refl refl;
    }
    | inr d ↦ record {
      first = c;
      more = escape_name cs;
      begins = ap (λ x. x ++ escape_name cs) (other c q d);
      no_newline = p.1;
      stays = λ b tail. myspn-solid b c (escape_name cs ++ tail) (ground arith) (ground arith);
    }
  ]
]
  where
    no_line : (b : Bool) → (b && b'\\' == b'\\' && c == b'\n') ≡ false
    no_line b = ground (arith, p.1)
