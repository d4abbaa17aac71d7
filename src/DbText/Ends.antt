-- ===== src/DbText/Ends.antt =====
-- The reader comes to an end on every text.
use stirmake.Prelude.{
  ℕ, zero, suc, ◌-◌, ◌%◌, ◌≤◌, ◌<◌, ◌==◌, if◌then◌else◌, Bool, true, false, not, Option, none, some,
  [], ◌∷◌, length, arith,
}
use stirmake.Prelude.Results.{out_of_fuel, aborted, exited, done}
use stirmake.Canon.{Bytes}
use stirmake.DbText.{Unescaped, prepend, escape_x, escape_u, escape, plain, utf8, unescape}

-- The string is read without running out of fuel, and at most `n` bytes follow it.
abbrev pub Ends : ℕ → Unescaped → Type 0
Ends n out_of_fuel = ⊥
Ends n aborted = Unit
Ends n exited = Unit
Ends n (done none) = Unit
Ends n (done (some (s, rest))) = length rest ≤ n

pub if_both :
    {A : Type 0} (P : A → Type 0) (b : Bool) (x y : A) → P x → P y → P (if b then x else y)
if_both P true x y h k = h
if_both P false x y h k = k

Ends-mono : (n m : ℕ) (u : Unescaped) → n ≤ m → Ends n u → Ends m u
Ends-mono n m out_of_fuel l h = h
Ends-mono n m aborted l h = h
Ends-mono n m exited l h = h
Ends-mono n m (done none) l h = h
Ends-mono n m (done (some (s, rest))) l h = omega arith

Ends-prepend : (n : ℕ) (bs : Bytes) (u : Unescaped) → Ends n u → Ends n (prepend bs u)
unfolding prepend
Ends-prepend n bs out_of_fuel h = h
Ends-prepend n bs aborted h = h
Ends-prepend n bs exited h = h
Ends-prepend n bs (done none) h = h
Ends-prepend n bs (done (some (s, rest))) h = h

module _ (strtol : Bytes → Option ℕ) where
  Ends-number :
      (n : ℕ) (o : Option ℕ) (f : ℕ → Bytes) (u : Unescaped)
      → Ends n u
      → Ends n (elim o [ none ↦ exited | some x ↦ prepend (f x) u ])
  Ends-number n none f u h = tt
  Ends-number n (some x) f u h = Ends-prepend n (f x) u h

  Ends-x :
      (go : Bytes → Unescaped) (ds : Bytes) (n : ℕ)
      → length ds ≤ n
      → ((s : Bytes) → length s ≤ length ds → Ends (length s) (go s))
      → Ends n (escape_x strtol go ds)
  unfolding escape_x
  Ends-x go (h ∷ l ∷ rest) n le k =
      Ends-number n (strtol (h ∷ l ∷ [])) (λ x. x % 256 ∷ []) (go rest)
        (Ends-mono (length rest) n (go rest) (omega arith) (k rest (omega arith)))
  Ends-x go (h ∷ []) n le k = tt
  Ends-x go [] n le k = tt

  Ends-u :
      (go : Bytes → Unescaped) (ds : Bytes) (n : ℕ)
      → length ds ≤ n
      → ((s : Bytes) → length s ≤ length ds → Ends (length s) (go s))
      → Ends n (escape_u strtol go ds)
  unfolding escape_u
  Ends-u go (a ∷ b ∷ h ∷ l ∷ rest) n le k =
      Ends-number n (strtol (a ∷ b ∷ h ∷ l ∷ [])) (λ x. utf8 (x % 65536)) (go rest)
        (Ends-mono (length rest) n (go rest) (omega arith) (k rest (omega arith)))
  Ends-u go (a ∷ b ∷ h ∷ []) n le k = tt
  Ends-u go (a ∷ b ∷ []) n le k = tt
  Ends-u go (a ∷ []) n le k = tt
  Ends-u go [] n le k = tt

  Ends-escape :
      (go : Bytes → Unescaped) (cs : Bytes)
      → ((s : Bytes) → length s ≤ length cs → Ends (length s) (go s))
      → Ends (length cs) (escape strtol go cs)
  unfolding escape
  Ends-escape go [] k = tt
  Ends-escape go (d ∷ ds) k =
      let n = suc (length ds) in
      let below : length ds ≤ n = omega arith in
      if_both (Ends n) (d == b'x') _ _ (Ends-x go ds n below (λ s l. k s (omega arith))) (
        if_both (Ends n) (d == b'u') _ _ (Ends-u go ds n below (λ s l. k s (omega arith))) (
          Ends-prepend n (plain d ∷ []) (go ds)
            (Ends-mono (length ds) n (go ds) below (k ds below))))

  pub unescape-Ends :
      (fuel more : ℕ) (s : Bytes) → length s < fuel → Ends (length s) (unescape strtol fuel more s)
  unfolding unescape
  unescape-Ends zero more s l = absurd (omega arith)
  unescape-Ends (suc fuel) more [] l = if_both (Ends 0) (more == 0) _ _ tt tt
  unescape-Ends (suc fuel) more (c ∷ cs) l =
      let n = suc (length cs) in
      let below : length cs ≤ n = omega arith in
      let step = λ (m : ℕ).
        Ends-mono (length cs) n (unescape strtol fuel m cs) below
          (unescape-Ends fuel m cs (omega arith)) in
      if_both (Ends n) (c == b'"') _ _ below (
        if_both (Ends n) (not (c == b'\\')) _ _
          (Ends-prepend n (c ∷ []) _ (step (if more == 0 then 7 else more - 1)))
          (Ends-mono (length cs) n (escape strtol (unescape strtol fuel 0) cs) below (
            Ends-escape (unescape strtol fuel 0) cs (λ s k. unescape-Ends fuel 0 s (omega arith)))))
