-- ===== src/Names/WildcardTree.antt =====
-- src/wildcardtree.h and src/wildcardtree.cpp: the tree of names. A name is a list of characters, as
-- numbers; `children` is a `std::map`, kept in the order of its keys. A walk with pointers into the
-- tree is the function that returns the changed tree.
pub mod Children
pub mod Members
pub mod Removal
pub mod Live
pub mod Search
mod Examples
use tib.Common.{
  ℕ, Bool, true, false, not, ◌&&◌, ◌||◌, List, [], ◌∷◌, ◌++◌, Option, none, some, ltb, ◌==◌,
  if◌then◌else◌,
}

mutual
  pub data WildcardTreeNode : Type 0 where
    node : Bool → ChildMap → WildcardTreeNode

  pub data ChildMap : Type 0 where
    nil : ChildMap
    child : ℕ → WildcardTreeNode → ChildMap → ChildMap

pub get_child : ChildMap → ℕ → Option WildcardTreeNode
get_child nil ch = none
get_child (child c n rest) ch = let later = get_child rest ch in if c == ch then some n else later

-- The write of a child, new or not.
pub put_child : ChildMap → ℕ → WildcardTreeNode → ChildMap
put_child nil ch new = child ch new nil
put_child (child c n rest) ch new =
    let later = put_child rest ch new in
    if c == ch
    then child ch new rest
    else if ltb ch c
    then child ch new (child c n rest)
    else child c n later

pub erase_child : ChildMap → ℕ → ChildMap
erase_child nil ch = nil
erase_child (child c n rest) ch =
    let later = erase_child rest ch in if c == ch then later else child c n later

mark : Bool → Option WildcardTreeNode → WildcardTreeNode
mark breakpoint none = node breakpoint nil
mark breakpoint (some (node b children)) = node (breakpoint || b) children

-- The child that `addChild` returns: the one that is there, marked if need be, or a new one.
pub add_child : ChildMap → ℕ → Bool → WildcardTreeNode
unfolding mark get_child
add_child children ch breakpoint = mark breakpoint (get_child children ch)

-- A name is not empty: its first character and the others. (`str.length() - 1` wraps for an empty
-- name, and the loop then reads past the end of the string.)
pub insert_chars : List ℕ → ℕ → WildcardTreeNode → WildcardTreeNode
insert_chars [] c (node b children) = node b (put_child children c (add_child children c true))
insert_chars (d ∷ ds) c (node b children) =
    node b (put_child children c (insert_chars ds d (add_child children c false)))

pub insert : ℕ × List ℕ → WildcardTreeNode → WildcardTreeNode
unfolding insert_chars add_child put_child
insert (c, cs) n = insert_chars cs c n

-- No children and no name that ends here: such a node is taken out on the way up.
pub is_dead : WildcardTreeNode → Bool
is_dead (node b nil) = not b
is_dead (node b (child c n rest)) = false

pub shrink : Bool → ChildMap → ℕ → WildcardTreeNode → WildcardTreeNode
unfolding is_dead put_child erase_child
shrink b children c n =
    node b (if is_dead n then erase_child children c else put_child children c n)

-- `none` where the path leaves the tree: then nothing is changed.
pub remove_chars : List ℕ → WildcardTreeNode → Option WildcardTreeNode
remove_chars [] (node b children) = some (node false children)
remove_chars (c ∷ cs) (node b children) = elim (get_child children c) [
  | none ↦ none
  | some n ↦ elim (remove_chars cs n) [ none ↦ none | some n' ↦ some (shrink b children c n') ]
]

or_same : Option WildcardTreeNode → WildcardTreeNode → WildcardTreeNode
or_same none n = n
or_same (some n') n = n'

pub remove : List ℕ → WildcardTreeNode → WildcardTreeNode
unfolding remove_chars get_child shrink or_same
remove str n = or_same (remove_chars str n) n

pub data ReturnValue : Type 0 where
  no_error player_with_this_name_is_not_online name_is_too_ambiguous : ReturnValue

-- The second loop: down an only child until there is none.
pub complete : WildcardTreeNode → List ℕ → ReturnValue × List ℕ
complete (node b nil) result = (no_error, result)
complete (node b (child c n nil)) result =
    let further = complete n (result ++ c ∷ []) in
    if b then (name_is_too_ambiguous, result) else further
complete (node b (child c n (child d m rest))) result = (name_is_too_ambiguous, result)

-- The first loop: down the characters of the query.
pub descend : List ℕ → WildcardTreeNode → Option WildcardTreeNode
descend [] n = some n
descend (c ∷ cs) (node b children) = elim (get_child children c) [
  | none ↦ none
  | some n ↦ descend cs n
]

found_at : Option WildcardTreeNode → List ℕ → List ℕ → ReturnValue × List ℕ
unfolding complete
found_at none query result = (player_with_this_name_is_not_online, result)
found_at (some n) query result = complete n query

-- The answer, and the caller's string after the call.
pub find_one : List ℕ → List ℕ → WildcardTreeNode → ReturnValue × List ℕ
unfolding descend get_child found_at
find_one query result n = found_at (descend query n) query result
