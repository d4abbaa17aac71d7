-- ===== src/Syncbuf/Strip.antt =====
-- Stripping page by page is stripping the whole.
use stirmake.Prelude.{
  ℕ, ◌≡◌, refl, ap, ◌∙◌, ◌==◌, if◌then◌else◌, Bool, true, false, not, ◌&&◌, inl, inr, Bool-cases,
  Option, none, some, List, [], ◌∷◌, ◌++◌, drop, arith,
}
use stirmake.Canon.{Bytes}
use stirmake.Syncbuf.{Stripped, is_final, opens, keep, strip_page, first_byte, strip_pages, memchr}
use stirmake.Syncbuf.Pages.{bytes, IsPaged}

-- The output without its escape sequences, ESC [ up to a final byte; `inside` one at the start.
unfoldable pub strip : Bool → Bytes → Bytes
unfolding is_final
strip inside [] = []
strip true (b ∷ []) = []
strip false (b ∷ []) = b ∷ []
strip inside (b ∷ c ∷ bs) =
    let sequence = strip true bs in
    let skipped = strip (not (is_final b)) (c ∷ bs) in
    let kept = strip false (c ∷ bs) in
    if b == 27 && c == 91 then sequence else if inside then skipped else b ∷ kept

-- The state behind a page, for what comes after it.
abbrev rest : Stripped → Bytes → Bytes
rest r bs = r.meat ++ strip r.escapemode (if r.toskip then drop 1 bs else bs)

first : Bytes → Option ℕ
first [] = none
first (b ∷ bs) = some b

-- A page and the bytes behind it.
strip_page-append :
    (inside : Bool) (p bs : Bytes)
    → rest (strip_page (first bs) inside p) bs ≡ strip inside (p ++ bs)
unfolding strip_page first opens keep strip
strip_page-append inside [] bs = refl
strip_page-append true (b ∷ []) [] = last (b == 27)
  where
    last :
        (e : Bool)
        → rest
            (if e && false
              then record { meat = []; escapemode = true; toskip = true }
              else record { meat = []; escapemode = not (is_final b); toskip = false })
            []
          ≡ []
    last true = refl
    last false = refl
strip_page-append false (b ∷ []) [] = last (b == 27)
  where
    last :
        (e : Bool)
        → rest
            (if e && false
              then record { meat = []; escapemode = true; toskip = true }
              else record { meat = b ∷ []; escapemode = false; toskip = false })
            []
          ≡ b ∷ []
    last true = refl
    last false = refl
strip_page-append inside (b ∷ []) (c ∷ bs) = elim (Bool-cases (b == 27 && c == 91)) [
  | inl e ↦ rw e refl
  | inr e ↦ rw e (plain inside)
]
  where
    plain :
        (i : Bool)
        → rest
            (if i
              then record { meat = []; escapemode = not (is_final b); toskip = false }
              else record { meat = b ∷ []; escapemode = false; toskip = false })
            (c ∷ bs)
          ≡ (if i then strip (not (is_final b)) (c ∷ bs) else b ∷ strip false (c ∷ bs))
    plain true = refl
    plain false = refl
strip_page-append inside (b ∷ c ∷ p) bs = elim (Bool-cases (b == 27 && c == 91)) [
  | inl e ↦ rw e (strip_page-append true p bs)
  | inr e ↦ rw e (
      plain inside (strip_page-append (not (is_final b)) (c ∷ p) bs)
        (strip_page-append false (c ∷ p) bs))
]
  where
    plain :
        (i : Bool)
        → rest (strip_page (first bs) (not (is_final b)) (c ∷ p)) bs
          ≡ strip (not (is_final b)) ((c ∷ p) ++ bs)
        → rest (strip_page (first bs) false (c ∷ p)) bs ≡ strip false ((c ∷ p) ++ bs)
        → rest
            (if i
              then strip_page (first bs) (not (is_final b)) (c ∷ p)
              else keep b (strip_page (first bs) false (c ∷ p)))
            bs
          ≡ (if i
              then strip (not (is_final b)) ((c ∷ p) ++ bs)
              else b ∷ strip false ((c ∷ p) ++ bs))
    plain true h k = h
    plain false h k = ap (λ xs. b ∷ xs) k

first-bytes : (ps : List Bytes) → IsPaged ps → first_byte ps ≡ first (bytes ps)
unfolding first_byte first
first-bytes [] h = refl
first-bytes ([] ∷ []) h = refl
first-bytes ([] ∷ q ∷ ps) h = absurd (h.0 refl)
first-bytes ((b ∷ bs) ∷ ps) h = refl

IsPaged-tail : (p : Bytes) (ps : List Bytes) → IsPaged (p ∷ ps) → IsPaged ps
IsPaged-tail p [] h = tt
IsPaged-tail p (q ∷ ps) h = h.2

-- The first byte of a buffer with two pages or more stands in its first page.
drop-bytes :
    (toskip : Bool) (p : Bytes) (ps : List Bytes)
    → IsPaged (p ∷ ps)
    → (if toskip then drop 1 p else p) ++ bytes ps
      ≡ (if toskip then drop 1 (p ++ bytes ps) else p ++ bytes ps)
drop-bytes false p ps h = refl
drop-bytes true (b ∷ bs) ps h = refl
drop-bytes true [] [] h = refl
drop-bytes true [] (q ∷ ps) h = absurd (h.0 refl)

pub strip_pages-bytes :
    (inside toskip : Bool) (ps : List Bytes)
    → IsPaged ps
    → bytes (strip_pages inside toskip ps)
      ≡ strip inside (if toskip then drop 1 (bytes ps) else bytes ps)
unfolding strip_pages strip
strip_pages-bytes inside true [] h = refl
strip_pages-bytes inside false [] h = refl
strip_pages-bytes inside toskip (p ∷ ps) h =
    let r = strip_page (first_byte ps) inside (if toskip then drop 1 p else p) in
    let tail = IsPaged-tail p ps h in
    ap (λ xs. r.meat ++ xs) (strip_pages-bytes r.escapemode r.toskip ps tail)
    ∙ ap (λ next. rest (strip_page next inside (if toskip then drop 1 p else p)) (bytes ps))
        (first-bytes ps tail)
    ∙ strip_page-append inside (if toskip then drop 1 p else p) (bytes ps)
    ∙ ap (strip inside) (drop-bytes toskip p ps h)

-- A text without the byte ESC stays as it is.
pub strip_without_escapes : (bs : Bytes) → memchr 27 bs ≡ false → strip false bs ≡ bs
unfolding memchr strip
strip_without_escapes [] h = refl
strip_without_escapes (b ∷ []) h = refl
strip_without_escapes (b ∷ c ∷ bs) h = let ih = strip_without_escapes (c ∷ bs) in ground (arith, ih)
