-- ===== src/Syncbuf/Output.antt =====
-- What a buffer writes, from the data that were appended to it.
use stirmake.Prelude.{
  ℕ, ◌≡◌, ◌≢◌, refl, sym, ap, subst, ◌∙◌, if◌then◌else◌, Bool, true, false, ◌&&◌, ◌||◌, inl, inr,
  Bool-cases, List, [], ◌∷◌, ◌++◌, append-nil, append_assoc, foldl, length, arith,
}
use stirmake.Canon.{Bytes}
use stirmake.Syncbuf.{
  Syncbuf, Terminal, memchr, first_page, syncbuf_init, syncbuf_append, strips, syncbuf_dump,
}
use stirmake.Syncbuf.Pages.{bytes, IsPaged, append_loop_lem}
use stirmake.Syncbuf.Strip.{strip, strip_pages-bytes, strip_without_escapes}

-- A buffer holds the bytes `bs`, and knows whether ESC is among them if the character set is ASCII.
pub record Holds (is_ascii_full : Bool) (buf : Syncbuf) (bs : Bytes) : Type 0 where
  pub paged : IsPaged buf.pages
  pub same : bytes buf.pages ≡ bs
  pub escapes : buf.has_escapes ≡ (is_ascii_full && memchr 27 bs)

memchr-append : (c : ℕ) (a b : Bytes) → memchr c (a ++ b) ≡ (memchr c a || memchr c b)
unfolding memchr
memchr-append c [] b = refl
memchr-append c (x ∷ a) b = ground (arith, memchr-append c a b)

first_page_lem :
    (ps : List Bytes)
    → IsPaged ps
    → IsPaged (first_page ps) × (bytes (first_page ps) ≡ bytes ps) × (first_page ps ≢ [])
unfolding first_page
first_page_lem [] h = (omega arith, refl, λ e. cc)
first_page_lem (p ∷ ps) h = (h, refl, λ e. cc)

Holds-init : (ascii : Bool) → Holds ascii syncbuf_init []
unfolding memchr
Holds-init ascii = record { paged = tt; same = refl; escapes = ground arith }

-- syncbuf_append puts all data behind what the buffer holds, and keeps the pages and the flag right.
pub Holds-syncbuf_append :
    (ascii : Bool) (buf : Syncbuf) (bs cdata : Bytes)
    → Holds ascii buf bs
    → Holds ascii (syncbuf_append ascii buf cdata) (bs ++ cdata)
unfolding syncbuf_append
Holds-syncbuf_append ascii buf bs [] h = rw (append-nil bs) h
Holds-syncbuf_append ascii buf bs (x ∷ xs) h =
    let (paged, same, some_page) = first_page_lem buf.pages h.paged in
    let (paged', same') =
      append_loop_lem (length (x ∷ xs)) (first_page buf.pages) (x ∷ xs) (omega arith) some_page
        paged in
    record {
      paged = paged';
      same = same' ∙ ap (λ b. b ++ x ∷ xs) (same ∙ h.same);
      escapes = ground (arith, h.escapes, memchr-append 27 bs (x ∷ xs));
    }

abbrev concat : Bytes → List Bytes → Bytes
concat bs [] = bs
concat bs (c ∷ cs) = concat (bs ++ c) cs

Holds-foldl :
    (ascii : Bool) (cs : List Bytes) (buf : Syncbuf) (bs : Bytes)
    → Holds ascii buf bs
    → Holds ascii (foldl (syncbuf_append ascii) buf cs) (concat bs cs)
Holds-foldl ascii [] buf bs h = h
Holds-foldl ascii (c ∷ cs) buf bs h =
    Holds-foldl ascii cs (syncbuf_append ascii buf c) (bs ++ c)
      (Holds-syncbuf_append ascii buf bs c h)

concat-bytes : (bs : Bytes) (cs : List Bytes) → concat bs cs ≡ bs ++ bytes cs
concat-bytes bs [] = sym (append-nil bs)
concat-bytes bs (c ∷ cs) = concat-bytes (bs ++ c) cs ∙ append_assoc bs c (bytes cs)

strips-ascii : (t : Terminal) → strips t ≡ true → t.is_ascii_full ≡ true
unfolding strips
strips-ascii t on = ground arith

-- Of a buffer that holds `bs`, syncbuf_dump writes `bs`, without the escape sequences if the output
-- goes where they are removed.
dump-Holds :
    (t : Terminal) (buf : Syncbuf) (bs : Bytes)
    → Holds t.is_ascii_full buf bs
    → bytes (syncbuf_dump t buf) ≡ (if strips t then strip false bs else bs)
unfolding syncbuf_dump
dump-Holds t buf bs h = elim (Bool-cases (strips t)) [
  | inr off ↦ rw off h.same
  | inl on ↦ elim (Bool-cases buf.has_escapes) [
    | inl esc ↦
        rw (on, esc) (strip_pages-bytes false false buf.pages h.paged ∙ ap (strip false) h.same)
    | inr none_there ↦
        rw (on, none_there) (h.same ∙ sym (strip_without_escapes bs (no_escape on none_there)))
  ]
]
  where
    no_escape : strips t ≡ true → buf.has_escapes ≡ false → memchr 27 bs ≡ false
    no_escape on none_there = ground (arith, h.escapes, strips-ascii t on)

-- Whatever the pieces in which data come to a new buffer, syncbuf_dump writes them in order, without
-- the escape sequences if the output goes where they are removed, also those that are split between
-- pieces or pages.
pub syncbuf_dump-syncbuf_append :
    (t : Terminal) (pieces : List Bytes)
    → bytes (syncbuf_dump t (foldl (syncbuf_append t.is_ascii_full) syncbuf_init pieces))
      ≡ (if strips t then strip false (bytes pieces) else bytes pieces)
syncbuf_dump-syncbuf_append t pieces =
    dump-Holds t (foldl (syncbuf_append t.is_ascii_full) syncbuf_init pieces) (bytes pieces) (
      subst (Holds t.is_ascii_full _) (concat-bytes [] pieces)
        (Holds-foldl t.is_ascii_full pieces syncbuf_init [] (Holds-init t.is_ascii_full)))
