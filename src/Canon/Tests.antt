-- ===== src/Canon/Tests.antt =====
-- Runs of the functions of stirc/canon.c on small inputs, and their theorems at such inputs.
use Prim.Native.String.{String}
use Prim.Native.Char.{code}
use stirmake.Prelude.{◌≡◌, ◌≢◌, ◌≤◌, refl, some, All, foldl, [], ◌∷◌, arith, length}
use stirmake.Canon.{Bytes, slash, dot, canon, construct_backpath, neighpath, pathcat2}
use stirmake.Canon.Elements.{climb}
use stirmake.Canon.Normal.{
  normal_form, normalize, canon_normalizes, resolve, IsPlain, canon_absolute,
}
use stirmake.Canon.Stack.{elements, join}
use stirmake.Canon.Climb.{canon_three_ups}
use stirmake.Canon.Idempotent.{canon-canon}
use stirmake.Canon.Bounds.{length-canon}
use stirmake.Canon.Backpath.{canon-construct_backpath}

abbrev codes : String → Bytes
codes String.[] = []
codes (String.◌∷◌ c s) = code c ∷ codes s

abbrev dirty : Bytes
dirty = codes "a/../../b//./c.txt"

abbrev clean : Bytes
clean = codes "../b/c.txt"

abbrev deep : Bytes
deep = codes "../../../a"

canon-dirty : canon dirty ≡ some clean
unfolding canon
canon-dirty = refl

canon-root : canon (codes "//../") ≡ some (codes "/")
unfolding canon
canon-root = refl

canon-deep : canon deep ≡ some (codes "../a")
unfolding canon
canon-deep = refl

construct_backpath-abc : construct_backpath (codes "a/b/c") ≡ some (codes "../../..")
unfolding construct_backpath
construct_backpath-abc = refl

-- From a/b/c the file x is ../../../x.
neighpath-abc : neighpath (codes "a/b/c") (codes "x") ≡ some (codes "../x")
unfolding neighpath
neighpath-abc = refl

neighpath-ab : neighpath (codes "a/b") (codes "a/x") ≡ some (codes "../x")
unfolding neighpath
neighpath-ab = refl

few : climb (normal_form dirty) ≤ 2
unfolding climb normal_form
few = omega arith

canon_normalizes_example : canon dirty ≡ some (normalize dirty)
canon_normalizes_example = canon_normalizes dirty (λ e. cc) few

canon_absolute_example :
    (canon (codes "/a/../../b")
      ≡ some (slash ∷ join (foldl resolve [] (elements (codes "a/../../b")))))
    × All IsPlain (foldl resolve [] (elements (codes "a/../../b")))
canon_absolute_example = canon_absolute (codes "a/../../b")

many : 3 ≤ climb (normal_form deep)
unfolding climb normal_form
many = omega arith

canon_three_ups_example : canon deep ≢ some (normalize deep)
canon_three_ups_example = canon_three_ups deep many

canon-canon_example : canon clean ≡ some clean
canon-canon_example = canon-canon dirty clean canon-dirty

length-canon_example : length clean ≤ length dirty
length-canon_example = length-canon dirty clean canon-dirty

canon-construct_backpath_example : canon (pathcat2 (codes "a/b/c") (codes "../../..")) ≡ some dot
canon-construct_backpath_example =
    canon-construct_backpath (codes "a/b/c") (codes "../../..") construct_backpath-abc
