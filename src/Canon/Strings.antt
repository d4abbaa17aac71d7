-- ===== src/Canon/Strings.antt =====
-- The library functions on C strings that stirc/canon.c calls, and the bytes that it tests for.
use stirmake.Prelude.{
  ℕ, suc, ◌-◌, ◌≤◌, ◌≡◌, ◌≢◌, inl, inr, refl, Option, none, some, List, [], ◌∷◌, ◌++◌, ◌==◌,
  if◌then◌else◌, arith, length, All, Bool-cases,
}

abbrev pub Bytes : Type 0
Bytes = List ℕ

abbrev pub slash : ℕ
slash = b'/'

abbrev pub dot_byte : ℕ
dot_byte = b'.'

-- "." and ".."
abbrev pub dot : Bytes
dot = dot_byte ∷ []

abbrev pub dot_dot : Bytes
dot_dot = dot_byte ∷ dot_byte ∷ []

-- The bytes before the first c: what lies between s and strchr(s, c), or the end of s.
unfoldable pub before : ℕ → Bytes → Bytes
before c [] = []
before c (x ∷ xs) = if x == c then [] else x ∷ before c xs

-- The bytes behind the first c, or none at the end of s: (*p == '\0') ? p : (p + 1) for that p.
unfoldable pub behind : ℕ → Bytes → Bytes
behind c [] = []
behind c (x ∷ xs) = if x == c then xs else behind c xs

-- strrchr: the index of the last c.
unfoldable pub strrchr : Bytes → ℕ → Option ℕ
strrchr [] c = none
strrchr (x ∷ xs) c = elim (strrchr xs c) [
  | some i ↦ some (suc i)
  | none ↦ if x == c then some 0 else none
]

-- No byte of the string is a slash.
abbrev pub IsFlat : Bytes → Type 0
IsFlat = All (λ x. x ≢ slash)

pub strrchr-flat : (s : Bytes) → IsFlat s → strrchr s slash ≡ none
unfolding strrchr
strrchr-flat [] h = refl
strrchr-flat (x ∷ xs) h = ground (arith, strrchr-flat xs h.1)

pub strrchr-append_slash :
    (s t : Bytes) → IsFlat t → strrchr (s ++ slash ∷ t) slash ≡ some (length s)
unfolding strrchr
strrchr-append_slash [] t h = ground (arith, strrchr-flat t h)
strrchr-append_slash (x ∷ xs) t h = ground (arith, strrchr-append_slash xs t h)

pub before-IsFlat : (s : Bytes) → IsFlat (before slash s)
unfolding before
before-IsFlat [] = tt
before-IsFlat (x ∷ xs) = elim (Bool-cases (x == slash)) [
  | inl e ↦ rw e tt
  | inr e ↦ rw e (ground arith, before-IsFlat xs)
]

pub length-behind : (c : ℕ) (s : Bytes) → length (behind c s) ≤ length s - length (before c s)
unfolding before behind
length-behind c [] = omega arith
length-behind c (x ∷ xs) = ground (arith, length-behind c xs)
