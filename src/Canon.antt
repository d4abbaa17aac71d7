-- ===== src/Canon.antt =====
-- stirc/canon.c: lexical normalisation of path names.
-- A C string is the list of its bytes before the NUL. The output buffer `neu` of `canon_buflen` is
-- the list of the bytes written so far, so that `idx` is its length; behind the leading slash of an
-- absolute path `neu` starts one byte later, as the source's pointer does.
pub mod Strings
pub mod Stack
pub mod Refine
pub mod Elements
pub mod Final
pub mod Normal
pub mod Climb
pub mod Idempotent
pub mod Bounds
pub mod Backpath
mod Tests
unfoldable pub use Strings.*
use stirmake.Prelude.{
  ℕ, zero, suc, ◌+◌, ◌-◌, ◌==◌, if◌then◌else◌, Bool, true, false, not, ◌&&◌, ◌||◌, Option, none,
  some, List, [], ◌∷◌, ◌++◌, length, get_or, take, drop, str_eq,
}

-- pathcat1_buflen and pathcat1_buf: a copy.
pub pathcat1 : Bytes → Bytes
pathcat1 old = old

-- pathcat2_buflen and pathcat2_buf: the two names with a slash between them.
unfoldable pub pathcat2 : Bytes → Bytes → Bytes
pathcat2 old old2 = old ++ slash ∷ old2

-- neu[idx-1] == '.' && neu[idx-2] == '.'
ends_in_dots : Bytes → Bool
ends_in_dots neu =
    get_or neu (length neu - 1) 0 == dot_byte && get_or neu (length neu - 2) 0 == dot_byte

-- The handling of a ".." element: `neu` after it.
unfoldable pub canon_up : Bool → Bytes → Bytes
unfolding ends_in_dots strrchr
canon_up is_abspath neu = elim (strrchr neu slash) [
  | none ↦
      if not (length neu == 0) && (not (length neu == 2) || not (ends_in_dots neu))
      then []
      else if length neu == 0
      then (if is_abspath then neu else dot_dot)
      else neu ++ slash ∷ dot_dot
  | some neu2 ↦
      if length neu - neu2 == 2 && ends_in_dots neu then neu ++ slash ∷ dot_dot else take neu2 neu
]

-- One round of the while loop: `neu` after the element between two slashes.
unfoldable pub canon_step : Bool → Bytes → Bytes → Bytes
unfolding canon_up str_eq
canon_step is_abspath neu element =
    if length element == 0
    then neu
    else if str_eq element dot
    then neu
    else if str_eq element dot_dot
    then canon_up is_abspath neu
    else if length neu == 0
    then element
    else neu ++ slash ∷ element

-- `while (*old)`, on fuel.
unfoldable pub canon_loop : ℕ → Bool → Bytes → Bytes → Bytes
unfolding canon_step before behind
canon_loop zero is_abspath neu old = neu
canon_loop (suc fuel) is_abspath neu old = elim old [
  | [] ↦ neu
  | x ∷ xs ↦
      canon_loop fuel is_abspath (canon_step is_abspath neu (before slash (x ∷ xs)))
        (behind slash (x ∷ xs))
]

unfoldable pub starts_with_slash : Bytes → Bool
starts_with_slash [] = false
starts_with_slash (x ∷ xs) = x == slash

-- What canon_buflen returns behind its loop.
unfoldable pub canon_end : Bool → Bytes → Bytes
canon_end true neu = slash ∷ neu
canon_end false [] = dot
canon_end false (x ∷ xs) = x ∷ xs

-- canon_buflen, canon_buf and canon; `none` is the call of my_abort on an empty path. Each round of
-- the loop takes a byte at least, so the length of the path is fuel enough.
unfoldable pub canon : Bytes → Option Bytes
unfolding canon_loop canon_end starts_with_slash str_eq
canon old =
    if length old == 0
    then none
    else if str_eq old dot
    then some dot
    else some
        (canon_end (starts_with_slash old) (canon_loop (length old) (starts_with_slash old) [] old))

unfoldable pub strcnt : Bytes → ℕ → ℕ
strcnt [] needle = 0
strcnt (x ∷ xs) needle = (if x == needle then 1 else 0) + strcnt xs needle

-- The writes behind `ret = malloc(sz)`: "../" while cnt > 1, then "..".
unfoldable pub ups : ℕ → Bytes
ups zero = []
ups (suc zero) = dot_dot
ups (suc (suc cnt)) = dot_byte ∷ dot_byte ∷ slash ∷ ups (suc cnt)

-- can[0] == '.' && can[1] == '.' && (can[2] == '\0' || can[2] == '/')
starts_with_up : Bytes → Bool
starts_with_up can =
    get_or can 0 0 == dot_byte
    && get_or can 1 0 == dot_byte
    && (get_or can 2 0 == 0 || get_or can 2 0 == slash)

backpath_of : Bytes → Option Bytes
unfolding starts_with_up strcnt ups starts_with_slash str_eq
backpath_of can =
    if str_eq can dot
    then some dot
    else if starts_with_slash can
    then none
    else if starts_with_up can
    then none
    else some (ups (strcnt can slash + 1))

-- `none` is a call of my_abort.
unfoldable pub construct_backpath : Bytes → Option Bytes
unfolding canon backpath_of
construct_backpath frontpath = elim (canon frontpath) [ none ↦ none | some can ↦ backpath_of can ]

-- (*s) ? s : "."
or_dot : Bytes → Bytes
or_dot [] = dot
or_dot (x ∷ xs) = x ∷ xs

-- What neighpath and neighpath_buflen do where the two paths part.
neighpath_end : Bytes → Bytes → Option Bytes
unfolding construct_backpath or_dot canon pathcat2
neighpath_end path file = elim (construct_backpath (or_dot path)) [
  | none ↦ none
  | some bp ↦ canon (pathcat2 bp (or_dot file))
]

-- The for loop that drops common leading elements, on fuel; `none` at the end of the fuel.
neighpath_loop : ℕ → Bytes → Bytes → Option Bytes
unfolding neighpath_end before behind str_eq
neighpath_loop zero path file = none
neighpath_loop (suc fuel) path file =
    let rest = neighpath_loop fuel (behind slash path) (behind slash file) in
    if not (str_eq (before slash path) (before slash file)) || length (before slash path) == 0
    then neighpath_end path file
    else rest

-- strncmp(path, file, pathlen) == 0 && file[pathlen] == '/': then the rest of `file`.
below : Bytes → Bytes → Option Bytes
below [] [] = none
below [] (y ∷ ys) = if y == slash then some ys else none
below (x ∷ xs) [] = none
below (x ∷ xs) (y ∷ ys) = if x == y then below xs ys else none

-- neighpath and neighpath_buflen; `none` is a call of my_abort.
unfoldable pub neighpath : Bytes → Bytes → Option Bytes
unfolding neighpath_loop below starts_with_slash canon pathcat1 str_eq
neighpath path file =
    if starts_with_slash file || str_eq path dot
    then some (pathcat1 file)
    else elim (below path file) [
      | some rest ↦ some (pathcat1 rest)
      | none ↦ elim (canon file) [
        | none ↦ none
        | some filecanon ↦ elim (canon path) [
          | none ↦ none
          | some pathcanon ↦ neighpath_loop (suc (length pathcanon)) pathcanon filecanon
        ]
      ]
    ]
