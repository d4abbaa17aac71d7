-- ===== src/Syncbuf/Tests.antt =====
-- Buffers with short outputs.
use stirmake.Prelude.{◌≡◌, refl, true, false, if◌then◌else◌, List, [], ◌∷◌, foldl}
use stirmake.Canon.{Bytes}
use stirmake.Syncbuf.{Terminal, syncbuf_init, syncbuf_append, strip_pages, strips, syncbuf_dump}
use stirmake.Syncbuf.Pages.{bytes}
use stirmake.Syncbuf.Strip.{strip}
use stirmake.Syncbuf.Output.{syncbuf_dump-syncbuf_append}

-- A file that is no terminal.
abbrev to_file : Terminal
to_file = record {
  is_ascii_full = true;
  isatty = false;
  was_recursive = false;
  was_recursive_outsync = false;
  fd_is_1 = true;
  output_is_pipe = false;
}

-- "a", then "b" in red, in pieces that split the escape sequence.
abbrev pieces : List Bytes
pieces = (b'a' ∷ 27 ∷ []) ∷ (91 ∷ b'3' ∷ b'1' ∷ []) ∷ (b'm' ∷ b'b' ∷ []) ∷ []

strip_pages-pieces : strip_pages false false pieces ≡ (b'a' ∷ []) ∷ [] ∷ (b'b' ∷ []) ∷ []
unfolding strip_pages
strip_pages-pieces = refl

strip-pieces : strip false (bytes pieces) ≡ b'a' ∷ b'b' ∷ []
unfolding strip
strip-pieces = refl

syncbuf_dump-pieces :
    bytes (syncbuf_dump to_file (foldl (syncbuf_append true) syncbuf_init pieces))
    ≡ b'a' ∷ b'b' ∷ []
unfolding syncbuf_dump syncbuf_append
syncbuf_dump-pieces = refl

syncbuf_dump-syncbuf_append_example :
    bytes (syncbuf_dump to_file (foldl (syncbuf_append true) syncbuf_init pieces))
    ≡ (if strips to_file then strip false (bytes pieces) else bytes pieces)
syncbuf_dump-syncbuf_append_example = syncbuf_dump-syncbuf_append to_file pieces
