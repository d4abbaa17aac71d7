-- ===== src/Inc/Refusals.antt =====
-- Lines that are refused.
use stirmake.Prelude.{
  ℕ, zero, suc, ◌≡◌, refl, sym, ◌∙◌, ◌==◌, Bool, true, false, ◌&&◌, ◌||◌, if◌then◌else◌, Bool-cases,
  List-cases, inl, inr, [], ◌∷◌, length, All, subst,
}
use stirmake.Prelude.Results.{
  Outcome, out_of_fuel, aborted, exited, done, Returns, Gives, Gives-bind,
}
use stirmake.Canon.{Bytes}
use stirmake.Inc.{
  Incyy, inset_ascii, mycspn, is_space, myspn_from, myspn, take_word, incyy_set_tgt,
  incyy_emplace_rule, target_round, target_loop, handle_line,
}
use stirmake.Inc.RoundTrip.{handle_text, handle_line-begins}
use stirmake.Inc.Ends.{IsReady, handle_line-IsReady}

abbrev pub NoColon : Bytes → Type 0
NoColon s = All (λ c. (c == b':') ≡ false) s

NoColon-mycspn : (inset : ℕ → Bool) (s : Bytes) → NoColon s → NoColon (mycspn inset s).rest
unfolding mycspn
NoColon-mycspn inset [] h = tt
NoColon-mycspn inset (c ∷ []) h = elim (Bool-cases (inset c)) [
  | inl e ↦ rw (e, mycspn) h
  | inr e ↦ rw (e, mycspn) tt
]
NoColon-mycspn inset (c ∷ d ∷ ds) h = elim (Bool-cases (inset c)) [
  | inr e ↦ rw (e, mycspn) (NoColon-mycspn inset (d ∷ ds) h.1)
  | inl e ↦ elim (Bool-cases (c == b'\\' || c == b'$')) [
    | inl k ↦ rw (e, mycspn, k) (NoColon-mycspn inset ds h.1.1)
    | inr k ↦ rw (e, mycspn, k) h
  ]
]

NoColon-myspn_from : (b : Bool) (s : Bytes) → NoColon s → NoColon (myspn_from b s)
unfolding myspn_from
NoColon-myspn_from b [] h = tt
NoColon-myspn_from b (c ∷ []) h = elim (Bool-cases (is_space c)) [
  | inl e ↦ rw (e, myspn_from) tt
  | inr e ↦ rw (e, myspn_from) h
]
NoColon-myspn_from b (c ∷ d ∷ ds) h = elim (Bool-cases (is_space c)) [
  | inl e ↦ rw (e, myspn_from) (NoColon-myspn_from true (d ∷ ds) h.1)
  | inr e ↦ elim (Bool-cases (b && c == b'\\' && d == b'\n')) [
    | inl k ↦ rw (e, myspn_from, k) (NoColon-myspn_from true ds h.1.1)
    | inr k ↦ rw (e, myspn_from, k) h
  ]
]

Gives-any : {A : Type 0} (x : Outcome A) → Gives (λ _. Unit) x
Gives-any out_of_fuel = tt
Gives-any aborted = tt
Gives-any exited = tt
Gives-any (done a) = tt

-- The loop goes on.
abbrev GoesOn : Bool × Bytes × Incyy → Type 0
GoesOn (had_colon, next, z) = (had_colon ≡ false) × NoColon next

target_round-NoColon :
    (s : Bytes) (y : Incyy) → NoColon s → Gives GoesOn (target_round (mycspn inset_ascii s) y)
unfolding target_round
target_round-NoColon s y h = elim (List-cases (mycspn inset_ascii s).rest) [
  | inl e ↦ rw (e, target_round) tt
  | inr (c, cs, e) ↦
      let (off, hs) = subst NoColon e (NoColon-mycspn inset_ascii s h) in
      elim (Bool-cases (c == b'\n')) [
        | inl k ↦ rw (e, target_round, k) tt
        | inr k ↦
            rw (e, target_round, k)
              (Gives-bind (λ z. Unit) GoesOn (take_word incyy_set_tgt (mycspn inset_ascii s) y) _
                (Gives-any (take_word incyy_set_tgt (mycspn inset_ascii s) y))
                (λ z _. (off, unfold myspn in NoColon-myspn_from false (b' ' ∷ cs) (refl, hs))))
      ]
]

target_loop-NoColon :
    (fuel : ℕ) (s : Bytes) (y : Incyy) → NoColon s → Gives (λ _. ⊥) (target_loop fuel s y)
unfolding target_loop
target_loop-NoColon zero s y h = tt
target_loop-NoColon (suc fuel) s y h =
    Gives-bind GoesOn (λ _. ⊥) _ _ (target_round-NoColon s y h)
      (λ (had_colon, next, z) (off, hs). rw off (target_loop-NoColon fuel next z hs))

exited_lem :
    {A : Type 0} (P : A → Type 0) (x : Outcome A) → Returns P x → Gives (λ _. ⊥) x → x ≡ exited
exited_lem P out_of_fuel h g = absurd h
exited_lem P aborted h g = absurd h
exited_lem P exited h g = refl
exited_lem P (done x) h g = absurd g

-- Whether nothing but white space stands on the line.
pub is_blank : Bytes → Bool
is_blank s = elim (myspn s) [ [] ↦ true | c ∷ cs ↦ c == b'\n' ]

-- Where a target that is added to each rule has a name, a line that has no colon is refused, or it is
-- blank and nothing is called.
pub handle_line-NoColon :
    (line : Bytes) (y : Incyy)
    → IsReady y
    → NoColon line
    → handle_line line y ≡ (if is_blank line then done y else exited)
unfolding handle_line is_blank
handle_line-NoColon line y r h = elim (List-cases (myspn line)) [
  | inl e ↦ rw (e, handle_line, is_blank) refl
  | inr (c, cs, e) ↦ elim (Bool-cases (c == b'\n')) [
    | inl k ↦ rw (e, handle_line, is_blank, k) refl
    | inr k ↦
        let same = handle_line-begins line c cs y e k in
        let text : NoColon (c ∷ cs) =
          subst NoColon e (unfold myspn in NoColon-myspn_from false line h) in
        let refused : handle_text (c ∷ cs) y ≡ exited =
          exited_lem IsReady (handle_text (c ∷ cs) y)
            (subst (Returns IsReady) same (handle_line-IsReady line y r))
            (Gives-bind (λ _. Unit) (λ _. ⊥) (incyy_emplace_rule y) _
              (Gives-any (incyy_emplace_rule y))
              (λ z _.
                Gives-bind (λ _. ⊥) (λ _. ⊥) (target_loop (suc (length (c ∷ cs))) (c ∷ cs) z) _
                  (target_loop-NoColon (suc (length (c ∷ cs))) (c ∷ cs) z text)
                  (λ x bad. absurd bad))) in
        same ∙ refused ∙ sym (not_blank e k)
  ]
]
  where
    not_blank :
        {c : ℕ} {cs : Bytes}
        → myspn line ≡ c ∷ cs
        → (c == b'\n') ≡ false
        → (if is_blank line then done y else exited) ≡ exited
    not_blank e k = rw (e, is_blank, k) refl
