-- ===== src/Stringtab/Laws.antt =====
-- What the table has after a string was added.
use stirmake.Prelude.{
  ℕ, zero, suc, ◌+◌, ◌<◌, ◌≡◌, ◌≢◌, refl, sym, ap, ◌∙◌, if◌then◌else◌, false, Bool-cases, inl, inr,
  Option, none, some, List, [], ◌∷◌, ◌++◌, length, length-append, get_or, get_or-append_length, ltb,
  str_eq, str_eq_iff, str_eq_refl, str_eq-eq-false, arith,
}
use stirmake.Canon.{Bytes}
use stirmake.Stringtab.{find_string, stringtab_get, stringtab_add_len}

find_string-append :
    (ts : List Bytes) (t s : Bytes) (i : ℕ)
    → find_string (ts ++ t ∷ []) s i ≡ elim (find_string ts s i) [
      | some j ↦ some j
      | none ↦ if str_eq t s then some (i + length ts) else none
    ]
unfolding find_string
find_string-append [] t s i = ground arith
find_string-append (x ∷ ts) t s i = ground (arith, find_string-append ts t s (suc i))

find_string-found :
    (ts : List Bytes) (s : Bytes) (i j : ℕ)
    → find_string ts s i ≡ some j
    → (k : ℕ) × (j ≡ i + k) × (k < length ts) × (get_or ts k [] ≡ s)
unfolding find_string
find_string-found [] s i j h = absurd (cc)
find_string-found (t ∷ ts) s i j h = elim (Bool-cases (str_eq t s)) [
  | inl e ↦
      let c : j ≡ i + 0 = ground arith in
      let z : 0 < suc (length ts) = omega arith in (0, c, z, (str_eq_iff t s).0 e)
  | inr e ↦
      let g : find_string ts s (suc i) ≡ some j = ground arith in
      let r = find_string-found ts s (suc i) j g in
      let c : j ≡ i + suc r.0 = omega (arith, r.1) in
      let z : suc r.0 < suc (length ts) = omega (arith, r.2) in (suc r.0, c, z, r.3)
]

get_or-append :
    (ts : List Bytes) (t : Bytes) (k : ℕ)
    → k < length ts
    → get_or (ts ++ t ∷ []) k [] ≡ get_or ts k []
get_or-append [] t k l = absurd (omega arith)
get_or-append (x ∷ ts) t zero l = refl
get_or-append (x ∷ ts) t (suc k) l = get_or-append ts t k (omega arith)

-- The index `r.0` and the table `r.1` after `symbol` was added.
abbrev pub IsAdded : List Bytes → Bytes → ℕ × List Bytes → Type 0
IsAdded sttable symbol r =
    (get_or r.1 r.0 [] ≡ symbol)
    × (stringtab_get r.1 symbol ≡ some r.0)
    × ((k : ℕ) → k < length sttable → get_or r.1 k [] ≡ get_or sttable k [])
    × ((other : Bytes) → other ≢ symbol → stringtab_get r.1 other ≡ stringtab_get sttable other)

find_string-append_other :
    (ts : List Bytes) (t s : Bytes) (i : ℕ)
    → s ≢ t
    → find_string (ts ++ t ∷ []) s i ≡ find_string ts s i
find_string-append_other ts t s i ne =
    let d : str_eq t s ≡ false = str_eq-eq-false t s (λ e. ne (sym e)) in
    let a = find_string-append ts t s i in ground (arith, a, d)

find_string-append_same :
    (ts : List Bytes) (t : Bytes)
    → find_string ts t 0 ≡ none
    → find_string (ts ++ t ∷ []) t 0 ≡ some (length ts)
find_string-append_same ts t h =
    let d = str_eq_refl t in let a = find_string-append ts t t 0 in ground (arith, a, d)

find_string-append_found :
    (ts : List Bytes) (t s : Bytes) (j : ℕ)
    → find_string ts s 0 ≡ some j
    → find_string (ts ++ t ∷ []) s 0 ≡ some j
find_string-append_found ts t s j h = let a = find_string-append ts t s 0 in ground (arith, a)

added :
    (sttable : List Bytes) (symbol : Bytes) (o : Option ℕ)
    → find_string sttable symbol 0 ≡ o
    → IsAdded sttable symbol
        (elim o [ some i ↦ (i, sttable) | none ↦ (length sttable, sttable ++ symbol ∷ []) ])
unfolding stringtab_get
added sttable symbol none h = (
  get_or-append_length sttable symbol [] [],
  find_string-append_same sttable symbol h,
  (λ k l. get_or-append sttable symbol k l),
  (λ other ne. find_string-append_other sttable symbol other 0 ne),
)
added sttable symbol (some i) h =
    let r = find_string-found sttable symbol 0 i h in
    let at : i ≡ r.0 = omega (arith, r.1) in
    (ap (λ k. get_or sttable k []) at ∙ r.3, h, (λ k l. refl), (λ other ne. refl))

-- After a string was added the table has it at the index that is returned, where stringtab_get finds
-- it. Every index that was in use keeps its string, and every other string is found where it was.
pub stringtab_add_len-IsAdded :
    (sttable : List Bytes) (symbol : Bytes)
    → IsAdded sttable symbol (stringtab_add_len sttable symbol)
unfolding stringtab_add_len
stringtab_add_len-IsAdded sttable symbol = added sttable symbol (find_string sttable symbol 0) refl

-- The table names no string twice.
abbrev pub IsDistinct : List Bytes → Type 0
IsDistinct ts = (k : ℕ) → k < length ts → stringtab_get ts (get_or ts k []) ≡ some k

distinct :
    (sttable : List Bytes) (symbol : Bytes) (o : Option ℕ)
    → find_string sttable symbol 0 ≡ o
    → IsDistinct sttable
    → IsDistinct
        (elim o as (λ _. ℕ × List Bytes) [
          | some i ↦ (i, sttable)
          | none ↦ (length sttable, sttable ++ symbol ∷ [])
        ]).1
unfolding stringtab_get
distinct sttable symbol (some i) e h k l = h k l
distinct sttable symbol none e h k l = elim (Bool-cases (ltb k (length sttable))) [
  | inl below ↦
      let b : k < length sttable = ground arith in
      ap (λ s. find_string (sttable ++ symbol ∷ []) s 0) (get_or-append sttable symbol k b)
      ∙ find_string-append_found sttable symbol (get_or sttable k []) k (h k b)
  | inr above ↦
      let b : k ≡ length sttable = ground (arith, length-append sttable (symbol ∷ [])) in
      ap (λ j. find_string (sttable ++ symbol ∷ []) (get_or (sttable ++ symbol ∷ []) j []) 0) b
      ∙ ap (λ s. find_string (sttable ++ symbol ∷ []) s 0)
          (get_or-append_length sttable symbol [] [])
      ∙ find_string-append_same sttable symbol e
      ∙ ap some (sym b)
]

-- A table that names no string twice keeps to it when a string is added.
pub stringtab_add_len-IsDistinct :
    (sttable : List Bytes) (symbol : Bytes)
    → IsDistinct sttable
    → IsDistinct (stringtab_add_len sttable symbol).1
unfolding stringtab_add_len
stringtab_add_len-IsDistinct sttable symbol h =
    distinct sttable symbol (find_string sttable symbol 0) refl h
