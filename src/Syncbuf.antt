-- ===== src/Syncbuf.antt =====
-- stirc/syncbuf.c: the output of a command, collected in pages and written at once. A page is the
-- list of its bytes, its length is meatsz, and a buffer has its pages in order. The memory that
-- getbuf and putbuf recycle is left out.
pub mod Pages
pub mod Strip
pub mod Output
mod Tests
use stirmake.Prelude.{
  ℕ, zero, suc, ◌-◌, ◌==◌, ltb, leb, if◌then◌else◌, Bool, true, false, not, ◌&&◌, ◌||◌, Option,
  none, some, List, [], ◌∷◌, ◌++◌, length, take, drop,
}
use stirmake.Canon.{Bytes}

-- sizeof(page->meat)
pub meat_size : ℕ
meat_size = 4078

pub record Syncbuf : Type 0 where
  pub pages : List Bytes
  pub has_escapes : Bool

abbrev pub syncbuf_init : Syncbuf
syncbuf_init = record { pages = []; has_escapes = false }

pub memchr : ℕ → Bytes → Bool
memchr c [] = false
memchr c (b ∷ bs) = b == c || memchr c bs

-- page->meatsz == sizeof(page->meat), for the last page
pub is_full : List Bytes → Bool
unfolding meat_size
is_full [] = false
is_full (p ∷ []) = length p == meat_size
is_full (p ∷ q ∷ ps) = is_full (q ∷ ps)

pub tocopy : Bytes → Bytes → ℕ
unfolding meat_size
tocopy page cdata =
    if ltb (length cdata) (meat_size - length page) then length cdata else meat_size - length page

-- The memcpy to the last page: the pages, and the data that are left.
pub fill : List Bytes → Bytes → List Bytes × Bytes
unfolding tocopy
fill [] cdata = ([], cdata)
fill (p ∷ []) cdata = ((p ++ take (tocopy p cdata) cdata) ∷ [], drop (tocopy p cdata) cdata)
fill (p ∷ q ∷ ps) cdata = let rest = fill (q ∷ ps) cdata in (p ∷ rest.0, rest.1)

-- `while (sz > 0)`, on fuel.
pub append_loop : ℕ → List Bytes → Bytes → List Bytes
unfolding is_full fill
append_loop zero pages cdata = pages
append_loop (suc fuel) pages [] = pages
append_loop (suc fuel) pages (x ∷ xs) =
    let filled = fill (if is_full pages then pages ++ [] ∷ [] else pages) (x ∷ xs) in
    append_loop fuel filled.0 filled.1

pub first_page : List Bytes → List Bytes
first_page [] = [] ∷ []
first_page (p ∷ ps) = p ∷ ps

-- Each round copies a byte at least, so the length of the data is fuel enough.
pub syncbuf_append : Bool → Syncbuf → Bytes → Syncbuf
unfolding memchr append_loop first_page
syncbuf_append is_ascii_full buf [] = buf
syncbuf_append is_ascii_full buf (x ∷ xs) = record {
  pages = append_loop (length (x ∷ xs)) (first_page buf.pages) (x ∷ xs);
  has_escapes =
      if is_ascii_full && not buf.has_escapes && memchr 27 (x ∷ xs) then true else buf.has_escapes;
}

-- What the loop over a page leaves: the bytes kept, escapemode and toskip.
pub record Stripped : Type 0 where
  pub meat : Bytes
  pub escapemode : Bool
  pub toskip : Bool

-- Whether a byte ends an escape sequence.
pub is_final : ℕ → Bool
is_final b = leb 64 b && leb b 126

pub opens : Option ℕ → Bool
opens none = false
opens (some b) = b == 91

pub keep : ℕ → Stripped → Stripped
keep b r = record r { meat = b ∷ r.meat }

-- The loop over a page, from index i; `next` is the first byte of the next page.
pub strip_page : Option ℕ → Bool → Bytes → Stripped
unfolding is_final opens keep
strip_page next escapemode [] = record { meat = []; escapemode = escapemode; toskip = false }
strip_page next escapemode (b ∷ []) =
    if b == 27 && opens next
    then record { meat = []; escapemode = true; toskip = true }
    else if escapemode
    then record { meat = []; escapemode = not (is_final b); toskip = false }
    else record { meat = b ∷ []; escapemode = false; toskip = false }
strip_page next escapemode (b ∷ c ∷ bs) =
    let sequence = strip_page next true bs in
    let skipped = strip_page next (not (is_final b)) (c ∷ bs) in
    let kept = strip_page next false (c ∷ bs) in
    if b == 27 && c == 91 then sequence else if escapemode then skipped else keep b kept

pub first_byte : List Bytes → Option ℕ
first_byte [] = none
first_byte ([] ∷ ps) = none
first_byte ((b ∷ bs) ∷ ps) = some b

-- The loop over the pages.
pub strip_pages : Bool → Bool → List Bytes → List Bytes
unfolding strip_page first_byte
strip_pages escapemode toskip [] = []
strip_pages escapemode toskip (p ∷ ps) =
    let r = strip_page (first_byte ps) escapemode (if toskip then drop 1 p else p) in
    r.meat ∷ strip_pages r.escapemode r.toskip ps

-- Where the output goes: is_ascii_full(), isatty(fd), the two variables of a recursive call, and
-- fd == 1 with output_is_pipe.
pub record Terminal : Type 0 where
  pub is_ascii_full : Bool
  pub isatty : Bool
  pub was_recursive : Bool
  pub was_recursive_outsync : Bool
  pub fd_is_1 : Bool
  pub output_is_pipe : Bool

pub strips : Terminal → Bool
strips t =
    t.is_ascii_full
    && (not t.isatty
        && (not t.was_recursive
            || not t.was_recursive_outsync
            || (not t.fd_is_1 || not t.output_is_pipe)))

-- The arguments of writeall, in order.
pub syncbuf_dump : Terminal → Syncbuf → List Bytes
unfolding strips strip_pages
syncbuf_dump t buf =
    if strips t && buf.has_escapes then strip_pages false false buf.pages else buf.pages
