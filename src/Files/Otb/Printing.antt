-- ===== src/Files/Otb/Printing.antt =====
-- A tree that is written as the format asks is read back.
use tib.Common.{
  ℕ, ◌<◌, ◌≡◌, ◌∙◌, refl, sym, ap, true, false, List, [], ◌∷◌, ◌++◌, Option, none, some, arith, leb,
  if◌then◌else◌, length, Bool-cases, inl, inr, ==_refl,
}
use mathlib.Core.List.{append_assoc, append-nil}
use tib.Files.Otb.{
  escape_char, start_char, end_char, Node, node, Nodes, nil, cons, emplace_back, Frame, State,
  in_props, step, run, finish, load, unescape, parse_root, is_accepted, same_bytes,
}

-- Bytes from 0xFD on are written with an escape in front.
abbrev pub escape : List ℕ → List ℕ
escape [] = []
escape (b ∷ bs) = if leb escape_char b then escape_char ∷ b ∷ escape bs else b ∷ escape bs

-- A node whose properties are those of the file, and its bytes in front of a rest.
abbrev mutual
  pub print : Node → List ℕ → List ℕ
  print (node type props children) rest =
      start_char ∷ type ∷ escape props ++ print_all children (end_char ∷ rest)

  pub print_all : Nodes → List ℕ → List ℕ
  print_all nil rest = rest
  print_all (cons n ns) rest = print n (print_all ns rest)

-- The node as the file has it.
abbrev mutual
  pub raw : Node → Node
  raw (node type props children) = node type (escape props) (raw_all children)

  pub raw_all : Nodes → Nodes
  raw_all nil = nil
  raw_all (cons n ns) = cons (raw n) (raw_all ns)

-- All nodes with what `getProps` makes of their bytes.
unfoldable mutual
  pub unescape_node : Node → Node
  unescape_node (node type props children) =
      node type (unescape false props) (unescape_nodes children)

  pub unescape_nodes : Nodes → Nodes
  unescape_nodes nil = nil
  unescape_nodes (cons n ns) = cons (unescape_node n) (unescape_nodes ns)

unescape-escape : (bs : List ℕ) → unescape false (escape bs) ≡ bs
unfolding unescape
unescape-escape [] = refl
unescape-escape (b ∷ bs) = ground (arith, unescape-escape bs)

abbrev open_state : Frame → List Frame → Option Node → State
open_state f fs root = record { mode = in_props; stack = f ∷ fs; root = root }

run-step : (s s' : State) (b : ℕ) (bs : List ℕ) → step s b ≡ some s' → run s (b ∷ bs) ≡ run s' bs
unfolding run
run-step s s' b bs e = rw (run, e) refl

-- A node that has no children yet.
abbrev young : ℕ → List ℕ → Frame
young type props = record { type = type; props = props; children = nil }

step-plain :
    (b type : ℕ) (props : List ℕ) (fs : List Frame) (root : Option Node)
    → leb escape_char b ≡ false
    → step (open_state (young type props) fs root) b
      ≡ some (open_state (young type (props ++ b ∷ [])) fs root)
unfolding step
step-plain b type props fs root low = ground (arith, low)

run-escaped :
    (b type : ℕ) (props bs : List ℕ) (fs : List Frame) (root : Option Node)
    → run (open_state (young type props) fs root) (escape_char ∷ b ∷ bs)
      ≡ run (open_state (young type ((props ++ escape_char ∷ []) ++ b ∷ [])) fs root) bs
unfolding run step
run-escaped b type props bs fs root = refl

-- The bytes of a node that has no children yet.
run-escape :
    (bs rest : List ℕ) (type : ℕ) (props : List ℕ) (fs : List Frame) (root : Option Node)
    → run (open_state (young type props) fs root) (escape bs ++ rest)
      ≡ run (open_state (young type (props ++ escape bs)) fs root) rest
run-escape [] rest type props fs root =
    ap (λ ps. run (open_state (young type ps) fs root) rest) (sym (append-nil props))
run-escape (b ∷ bs) rest type props fs root = elim (Bool-cases (leb escape_char b)) [
  | inl high ↦ rw high (
      run-escaped b type props (escape bs ++ rest) fs root
      ∙ run-escape bs rest type ((props ++ escape_char ∷ []) ++ b ∷ []) fs root
      ∙ ap (λ ps. run (open_state (young type ps) fs root) rest)
          (append_assoc (props ++ escape_char ∷ []) (b ∷ []) (escape bs)
            ∙ append_assoc props (escape_char ∷ []) (b ∷ escape bs)))
  | inr low ↦ rw low (
      run-step _ _ b (escape bs ++ rest) (step-plain b type props fs root low)
      ∙ run-escape bs rest type (props ++ b ∷ []) fs root
      ∙ ap (λ ps. run (open_state (young type ps) fs root) rest)
          (append_assoc props (b ∷ []) (escape bs)))
]

-- Children in front of others.
append_nodes : Nodes → Nodes → Nodes
append_nodes nil ms = ms
append_nodes (cons n ns) ms = cons n (append_nodes ns ms)

append_nodes-nil : (ns : Nodes) → append_nodes ns nil ≡ ns
unfolding append_nodes
append_nodes-nil nil = refl
append_nodes-nil (cons n ns) = ap (cons n) (append_nodes-nil ns)

append_nodes-emplace_back :
    (ns ms : Nodes) (n : Node) → append_nodes (emplace_back ns n) ms ≡ append_nodes ns (cons n ms)
unfolding append_nodes emplace_back
append_nodes-emplace_back nil ms n = refl
append_nodes-emplace_back (cons m ns) ms n = ap (cons m) (append_nodes-emplace_back ns ms n)

abbrev with_child : Frame → Node → Frame
with_child f n = record f { children = emplace_back f.children n }

run-start :
    (f : Frame) (fs : List Frame) (root : Option Node) (type : ℕ) (bs : List ℕ)
    → run (open_state f fs root) (start_char ∷ type ∷ bs)
      ≡ run (open_state (young type []) (f ∷ fs) root) bs
unfolding run step
run-start f fs root type bs = refl

run-end :
    (type : ℕ) (props : List ℕ) (children : Nodes) (f : Frame) (fs : List Frame)
    (root : Option Node) (bs : List ℕ)
    → run
        (open_state (record { type = type; props = props; children = children }) (f ∷ fs) root)
        (end_char ∷ bs)
      ≡ run (open_state (with_child f (node type props children)) fs root) bs
unfolding run step
run-end type props children f fs root bs = refl

mutual
  unfolding append_nodes

  -- The bytes of a node add it to the children of the node that is open.
  run-print :
      (n : Node) (f : Frame) (fs : List Frame) (root : Option Node) (rest : List ℕ)
      → run (open_state f fs root) (print n rest)
        ≡ run (open_state (with_child f (raw n)) fs root) rest
  run-print (node type props children) f fs root rest =
      run-start f fs root type (escape props ++ print_all children (end_char ∷ rest))
      ∙ run-escape props (print_all children (end_char ∷ rest)) type [] (f ∷ fs) root
      ∙ run-print_all children nil type (escape props) (f ∷ fs) root (end_char ∷ rest)
      ∙ run-end type (escape props) (raw_all children) f fs root rest

  run-print_all :
      (ns before : Nodes) (type : ℕ) (props : List ℕ) (fs : List Frame) (root : Option Node)
      (rest : List ℕ)
      → run
          (open_state (record { type = type; props = props; children = before }) fs root)
          (print_all ns rest)
        ≡ run
            (open_state
              (record { type = type; props = props; children = append_nodes before (raw_all ns) })
              fs
              root)
            rest
  run-print_all nil before type props fs root rest =
      ap
        (λ cs. run (open_state (record { type = type; props = props; children = cs }) fs root) rest)
        (sym (append_nodes-nil before))
  run-print_all (cons n ns) before type props fs root rest =
      run-print n (record { type = type; props = props; children = before }) fs root
        (print_all ns rest)
      ∙ run-print_all ns (emplace_back before (raw n)) type props fs root rest
      ∙ ap
          (λ cs.
            run (open_state (record { type = type; props = props; children = cs }) fs root) rest)
          (append_nodes-emplace_back before (raw_all ns) (raw n))

mutual
  unfolding unescape_node

  unescape_node-raw : (n : Node) → unescape_node (raw n) ≡ n
  unescape_node-raw (node type props children) =
      λ i. node type (unescape-escape props i) (unescape_nodes-raw children i)

  unescape_nodes-raw : (ns : Nodes) → unescape_nodes (raw_all ns) ≡ ns
  unescape_nodes-raw nil = refl
  unescape_nodes-raw (cons n ns) = λ i. cons (unescape_node-raw n i) (unescape_nodes-raw ns i)

abbrev pub file : List ℕ → Node → List ℕ
file identifier n = identifier ++ print n []

finish-end :
    (type : ℕ) (props : List ℕ) (children : Nodes)
    → finish (
        run
          (open_state (record { type = type; props = props; children = children }) [] none)
          (end_char ∷ []))
      ≡ some (node type props children)
unfolding run step finish
finish-end type props children = refl

parse_root-print : (n : Node) → parse_root (print n []) ≡ some (raw n)
unfolding parse_root
parse_root-print (node type props children) =
    ap finish (
      run-escape props (print_all children (end_char ∷ [])) type [] [] none
      ∙ run-print_all children nil type (escape props) [] none (end_char ∷ []))
    ∙ unfold append_nodes in finish-end type (escape props) (raw_all children)

same_bytes_refl : (bs : List ℕ) → same_bytes bs bs ≡ true
unfolding same_bytes
same_bytes_refl [] = refl
same_bytes_refl (b ∷ bs) = rw (==_refl b, same_bytes_refl bs) refl

-- A file of more than seven bytes that holds an identifier of four bytes and a tree, with an escape
-- in front of every byte of the properties from 0xFD on, loads under this identifier: the result has
-- the tree's types and children, and each node's bytes without the escapes are its properties.
pub load-print :
    (a b c d : ℕ) (n : Node)
    → 7 < length (file (a ∷ b ∷ c ∷ d ∷ []) n)
    → (load (a ∷ b ∷ c ∷ d ∷ []) (file (a ∷ b ∷ c ∷ d ∷ []) n) ≡ some (raw n))
      × (unescape_node (raw n) ≡ n)
unfolding load is_accepted
load-print a b c d n h =
    let long : leb (length (file (a ∷ b ∷ c ∷ d ∷ []) n)) 7 ≡ false = ground (arith, h) in
    (rw (long, same_bytes_refl (a ∷ b ∷ c ∷ d ∷ [])) (parse_root-print n), unescape_node-raw n)
