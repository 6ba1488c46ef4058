-- ===== src/Files/Otb/Examples.antt =====
-- Runs of the loader, and its theorems at concrete inputs.
use tib.Common.{ℕ, ◌≡◌, refl, List, [], ◌∷◌, ◌++◌, none, some, arith}
use tib.Files.Otb.{Node, node, nil, cons, load, get_props}
use tib.Files.Otb.Printing.{file, raw, unescape_node, load-print}

-- A root with two properties, one of which is the escape, and two children.
abbrev small : Node
small = node 1 (7 ∷ 0xFD ∷ []) (cons (node 2 (9 ∷ []) nil) (cons (node 3 [] nil) nil))

abbrev small_file : List ℕ
small_file =
    0 ∷ 0 ∷ 0 ∷ 0 ∷ 0xFE ∷ 1 ∷ 7 ∷ 0xFD ∷ 0xFD ∷ 0xFE ∷ 2 ∷ 9 ∷ 0xFF ∷ 0xFE ∷ 3 ∷ 0xFF ∷ 0xFF ∷ []

small_run :
    load (b'O' ∷ b'T' ∷ b'B' ∷ b'I' ∷ []) small_file
    ≡ some (node 1 (7 ∷ 0xFD ∷ 0xFD ∷ []) (cons (node 2 (9 ∷ []) nil) (cons (node 3 [] nil) nil)))
unfolding load
small_run = refl

-- An end that closes nothing.
extra_run : load (0 ∷ 0 ∷ 0 ∷ 0 ∷ []) (small_file ++ 0xFF ∷ []) ≡ none
unfolding load
extra_run = refl

props_run : get_props (7 ∷ 0xFD ∷ 0xFD ∷ []) ≡ some (7 ∷ 0xFD ∷ [])
unfolding get_props
props_run = refl

-- Seven bytes hold a root and are refused.
smallest_run : load (0 ∷ 0 ∷ 0 ∷ 0 ∷ []) (file (0 ∷ 0 ∷ 0 ∷ 0 ∷ []) (node 1 [] nil)) ≡ none
unfolding load
smallest_run = refl

load-print_example :
    (load (0 ∷ 0 ∷ 0 ∷ 0 ∷ []) (file (0 ∷ 0 ∷ 0 ∷ 0 ∷ []) small) ≡ some (raw small))
    × (unescape_node (raw small) ≡ small)
load-print_example = load-print 0 0 0 0 small (omega arith)
