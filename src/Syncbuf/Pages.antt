-- ===== src/Syncbuf/Pages.antt =====
-- The bytes of the pages of a buffer, and what syncbuf_append does to them.
use stirmake.Prelude.{
  ℕ, zero, suc, ◌-◌, ◌<◌, ◌≤◌, ◌≡◌, ◌≢◌, refl, sym, ap, subst, ◌∙◌, ◌==◌, if◌then◌else◌, true,
  false, inl, inr, Bool-cases, List, [], ◌∷◌, ◌++◌, append-nil, append_assoc, length, length-append,
  take, drop, arith,
}
use stirmake.Canon.{Bytes}
use stirmake.Syncbuf.{meat_size, is_full, tocopy, fill, append_loop}

abbrev pub bytes : List Bytes → Bytes
bytes [] = []
bytes (p ∷ ps) = p ++ bytes ps

-- No page is longer than its memory, and none but the last is empty.
abbrev pub IsPaged : List Bytes → Type 0
IsPaged [] = Unit
IsPaged (p ∷ []) = length p ≤ meat_size
IsPaged (p ∷ q ∷ ps) = (p ≢ []) × (length p ≤ meat_size) × IsPaged (q ∷ ps)

take-drop : (n : ℕ) (xs : Bytes) → take n xs ++ drop n xs ≡ xs
take-drop zero xs = refl
take-drop (suc n) [] = refl
take-drop (suc n) (x ∷ xs) = ap (λ ys. x ∷ ys) (take-drop n xs)

length-take : (n : ℕ) (xs : Bytes) → n ≤ length xs → length (take n xs) ≡ n
length-take zero xs h = refl
length-take (suc n) [] h = absurd (omega arith)
length-take (suc n) (x ∷ xs) h = ap suc (length-take n xs (omega arith))

length-drop : (n : ℕ) (xs : Bytes) → length (drop n xs) ≡ length xs - n
length-drop zero xs = omega arith
length-drop (suc n) [] = omega arith
length-drop (suc n) (x ∷ xs) = omega (arith, length-drop n xs)

bytes-append : (ps : List Bytes) (q : Bytes) → bytes (ps ++ q ∷ []) ≡ bytes ps ++ q
bytes-append [] q = append-nil q
bytes-append (p ∷ ps) q = ap (λ xs. p ++ xs) (bytes-append ps q) ∙ sym (append_assoc p (bytes ps) q)

-- The copy keeps the order of the bytes.
bytes-fill :
    (pages : List Bytes) (cdata : Bytes)
    → pages ≢ []
    → bytes (fill pages cdata).0 ++ (fill pages cdata).1 ≡ bytes pages ++ cdata
unfolding fill
bytes-fill [] cdata h = absurd (h refl)
bytes-fill (p ∷ []) cdata h =
    let n = tocopy p cdata in
    rw
      (
        append-nil (p ++ take n cdata),
        append-nil p,
        append_assoc p (take n cdata) (drop n cdata),
        take-drop n cdata,
      )
      refl
bytes-fill (p ∷ q ∷ ps) cdata h =
    append_assoc p (bytes (fill (q ∷ ps) cdata).0) (fill (q ∷ ps) cdata).1
    ∙ ap (λ xs. p ++ xs) (bytes-fill (q ∷ ps) cdata (λ e. cc))
    ∙ sym (append_assoc p (bytes (q ∷ ps)) cdata)

tocopy_bounds :
    (p cdata : Bytes)
    → (tocopy p cdata ≤ length cdata)
      × (tocopy p cdata ≤ meat_size - length p)
      × (0 < length cdata → length p < meat_size → 0 < tocopy p cdata)
unfolding tocopy
tocopy_bounds p cdata = (ground arith, ground arith, λ h k. ground arith)

IsPaged-cons :
    (p : Bytes) (ps : List Bytes) → p ≢ [] → length p ≤ meat_size → IsPaged ps → IsPaged (p ∷ ps)
IsPaged-cons p [] h l i = l
IsPaged-cons p (q ∷ ps) h l i = (h, l, i)

-- What the copy leaves: pages in order, and less data.
record IsFilled (pages : List Bytes) (cdata rest : Bytes) : Type 0 where
  paged : IsPaged pages
  some_page : pages ≢ []
  less : length rest < length cdata

room : (p : Bytes) → length p ≤ meat_size → (length p == meat_size) ≡ false → length p < meat_size
room p i f = ground arith

fill-IsFilled :
    (pages : List Bytes) (cdata : Bytes)
    → pages ≢ []
    → IsPaged pages
    → is_full pages ≡ false
    → 0 < length cdata
    → IsFilled (fill pages cdata).0 cdata (fill pages cdata).1
unfolding fill is_full tocopy
fill-IsFilled [] cdata h i f l = absurd (h refl)
fill-IsFilled (p ∷ []) cdata h i f l = record {
  paged = omega (
    arith,
    i,
    length-append p (take (tocopy p cdata) cdata),
    length-take (tocopy p cdata) cdata (tocopy_bounds p cdata).0,
    (tocopy_bounds p cdata).1,
  );
  some_page = λ e. cc;
  less =
      omega (arith, length-drop (tocopy p cdata) cdata, (tocopy_bounds p cdata).2 l (room p i f));
}
fill-IsFilled (p ∷ q ∷ ps) cdata h (ne, l, i) f d =
    let below = fill-IsFilled (q ∷ ps) cdata (λ e. cc) i f d in
    record { paged = IsPaged-cons p _ ne l below.paged; some_page = λ e. cc; less = below.less }

-- The pages of a round, with an empty one behind a full one.
abbrev ready : List Bytes → List Bytes
ready pages = if is_full pages then pages ++ [] ∷ [] else pages

record IsReady (pages with_room : List Bytes) : Type 0 where
  paged : IsPaged with_room
  some_page : with_room ≢ []
  room : is_full with_room ≡ false
  same : bytes with_room ≡ bytes pages

is_full-append : (pages : List Bytes) → is_full (pages ++ [] ∷ []) ≡ false
unfolding is_full meat_size
is_full-append [] = refl
is_full-append (p ∷ []) = refl
is_full-append (p ∷ q ∷ ps) = is_full-append (q ∷ ps)

full_nil : (0 == meat_size) ≡ true → ⊥
unfolding meat_size
full_nil h = cc

IsPaged-append :
    (pages : List Bytes) → IsPaged pages → is_full pages ≡ true → IsPaged (pages ++ [] ∷ [])
unfolding is_full meat_size
IsPaged-append [] i f = absurd (cc)
IsPaged-append (p ∷ []) i f =
    (λ e. absurd (full_nil (subst (λ q. (length q == meat_size) ≡ true) e f)), i, omega arith)
IsPaged-append (p ∷ q ∷ ps) (ne, l, i) f =
    IsPaged-cons p ((q ∷ ps) ++ [] ∷ []) ne l (IsPaged-append (q ∷ ps) i f)

append-ne-nil : (pages : List Bytes) → pages ++ [] ∷ [] ≢ []
append-ne-nil [] e = cc
append-ne-nil (p ∷ ps) e = cc

ready-IsReady : (pages : List Bytes) → pages ≢ [] → IsPaged pages → IsReady pages (ready pages)
ready-IsReady pages h i = elim (Bool-cases (is_full pages)) [
  | inl f ↦ rw f (record {
    paged = IsPaged-append pages i f;
    some_page = append-ne-nil pages;
    room = is_full-append pages;
    same = bytes-append pages [] ∙ append-nil (bytes pages);
  })
  | inr f ↦ rw f (record { paged = i; some_page = h; room = f; same = refl })
]

-- The loop ends with all data behind the bytes that were there.
pub append_loop_lem :
    (fuel : ℕ) (pages : List Bytes) (cdata : Bytes)
    → length cdata ≤ fuel
    → pages ≢ []
    → IsPaged pages
    → IsPaged (append_loop fuel pages cdata)
      × (bytes (append_loop fuel pages cdata) ≡ bytes pages ++ cdata)
unfolding append_loop
append_loop_lem zero pages [] l h i = (i, sym (append-nil (bytes pages)))
append_loop_lem zero pages (x ∷ xs) l h i = absurd (omega arith)
append_loop_lem (suc fuel) pages [] l h i = (i, sym (append-nil (bytes pages)))
append_loop_lem (suc fuel) pages (x ∷ xs) l h i =
    let r = ready-IsReady pages h i in
    let f = fill-IsFilled (ready pages) (x ∷ xs) r.some_page r.paged r.room (omega arith) in
    let filled = fill (ready pages) (x ∷ xs) in
    let (paged, same) =
      append_loop_lem fuel filled.0 filled.1 (omega (arith, f.less)) f.some_page f.paged in
    (paged, same ∙ bytes-fill (ready pages) (x ∷ xs) r.some_page ∙ ap (λ b. b ++ x ∷ xs) r.same)
