-- ===== src/Files/Otb.antt =====
-- src/fileloader.h and src/fileloader.cpp: the tree of nodes in an OTB file. A node's `props` are the
-- bytes from `propsBegin` to `propsEnd`, as they stand in the file. A throw is `none`. The loop goes
-- byte by byte: what the code reads with a second `++it` is the byte that comes in another mode.
pub mod Printing
mod Examples
use tib.Common.{
  ℕ, Bool, true, false, not, ◌&&◌, ◌||◌, List, [], ◌∷◌, ◌++◌, Option, none, some, ◌==◌, leb,
  if◌then◌else◌, length, drop, take,
}

abbrev pub escape_char : ℕ
escape_char = 0xFD

abbrev pub start_char : ℕ
start_char = 0xFE

abbrev pub end_char : ℕ
end_char = 0xFF

mutual
  pub data Node : Type 0 where
    node : (type : ℕ) → (props : List ℕ) → Nodes → Node

  pub data Nodes : Type 0 where
    nil : Nodes
    cons : Node → Nodes → Nodes

-- `children.emplace_back`.
pub emplace_back : Nodes → Node → Nodes
emplace_back nil n = cons n nil
emplace_back (cons m ms) n = cons m (emplace_back ms n)

-- A node on the stack. It goes into its parent's children when it is closed: until then no code looks
-- at the parent.
pub record Frame : Type 0 where
  pub type : ℕ
  pub props : List ℕ
  pub children : Nodes

pub data Mode : Type 0 where
  in_props after_start after_escape : Mode

pub record State : Type 0 where
  pub mode : Mode
  pub stack : List Frame
  pub root : Option Node

-- The bytes before the first child are the node's.
add_prop : ℕ → Frame → Frame
add_prop b f = elim f.children [ nil ↦ record f { props = f.props ++ b ∷ [] } | cons c cs ↦ f ]

add_byte : ℕ → List Frame → List Frame
add_byte b [] = []
add_byte b (f ∷ fs) = add_prop b f ∷ fs

close : Frame → Node
close f = node f.type f.props f.children

start_node : State → List Frame → Option State
start_node s [] = none
start_node s (f ∷ fs) = some (record s { mode = after_start })

end_node : State → List Frame → Option State
end_node s [] = none
end_node s (f ∷ []) = some (record s { stack = []; root = some (close f) })
end_node s (f ∷ parent ∷ fs) =
    some (record s {
      stack = record parent { children = emplace_back parent.children (close f) } ∷ fs;
    })

in_mode : Mode → State → ℕ → Option State
in_mode in_props s b =
    if b == start_char
    then start_node s s.stack
    else if b == end_char
    then end_node s s.stack
    else some (record s {
      stack = add_byte b s.stack;
      mode = if b == escape_char then after_escape else in_props;
    })
in_mode after_start s b = some (record s {
  mode = in_props;
  stack = record { type = b; props = []; children = nil } ∷ s.stack;
})
in_mode after_escape s b = some (record s { mode = in_props; stack = add_byte b s.stack })

pub step : State → ℕ → Option State
unfolding in_mode start_node end_node add_byte add_prop close emplace_back
step s b = in_mode s.mode s b

pub run : State → List ℕ → Option State
unfolding step
run s [] = some s
run s (b ∷ bs) = elim (step s b) [ none ↦ none | some s' ↦ run s' bs ]

-- What is left at the end of the file.
in_end : Mode → List Frame → Option Node → Option Node
in_end in_props [] root = root
in_end in_props (f ∷ fs) root = none
in_end after_start stack root = none
in_end after_escape stack root = none

pub finish : Option State → Option Node
unfolding in_end
finish none = none
finish (some s) = in_end s.mode s.stack s.root

-- `parseTree` on the bytes behind the identifier.
parse_root : List ℕ → Option Node
unfolding run finish
parse_root [] = none
parse_root (b ∷ []) = none
parse_root (b ∷ type ∷ bs) =
    if b == start_char
    then finish (
        run
          (record {
            mode = in_props;
            stack = record { type = type; props = []; children = nil } ∷ [];
            root = none;
          })
          bs)
    else none

same_bytes : List ℕ → List ℕ → Bool
same_bytes [] [] = true
same_bytes [] (y ∷ ys) = false
same_bytes (x ∷ xs) [] = false
same_bytes (x ∷ xs) (y ∷ ys) = x == y && same_bytes xs ys

-- The constructor's tests: the size of the smallest file, and the identifier or the wildcard.
is_accepted : List ℕ → List ℕ → Bool
unfolding same_bytes
is_accepted identifier contents =
    not (leb (length contents) 7)
    && (same_bytes (take 4 contents) identifier
        || same_bytes (take 4 contents) (0 ∷ 0 ∷ 0 ∷ 0 ∷ []))

pub load : List ℕ → List ℕ → Option Node
unfolding is_accepted parse_root
load identifier contents =
    if is_accepted identifier contents then parse_root (drop 4 contents) else none

-- `copy_if` with the flag of the last byte.
pub unescape : Bool → List ℕ → List ℕ
unescape last_escaped [] = []
unescape last_escaped (b ∷ bs) =
    let escaped = b == escape_char && not last_escaped in
    let rest = unescape escaped bs in if escaped then rest else b ∷ rest

pub get_props : List ℕ → Option (List ℕ)
unfolding unescape
get_props [] = none
get_props (b ∷ bs) = some (unescape false (b ∷ bs))
