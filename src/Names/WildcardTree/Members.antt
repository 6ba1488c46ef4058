-- ===== src/Names/WildcardTree/Members.antt =====
-- The tree as a set of names, and what `insert` does to it.
use tib.Common.{
  ℕ, ◌≡◌, ◌∙◌, refl, ap, Bool, true, false, ◌&&◌, ◌||◌, List, [], ◌∷◌, Option, none, some, arith,
  ◌==◌, if◌then◌else◌, Bool-cases, inl, inr,
}
use tib.Names.WildcardTree.{
  WildcardTreeNode, node, ChildMap, get_child, put_child, erase_child, mark, add_child,
  insert_chars, insert,
}
use tib.Names.WildcardTree.Children.{get_child-put_child, get_child-erase_child}

abbrev pub within : (WildcardTreeNode → Bool) → Option WildcardTreeNode → Bool
within p none = false
within p (some n) = p n

-- Whether a name ends at the node that its characters lead to.
unfoldable pub member : List ℕ → WildcardTreeNode → Bool
member [] (node b children) = b
member (c ∷ cs) (node b children) = within (member cs) (get_child children c)

abbrev pub same : List ℕ → List ℕ → Bool
same [] [] = true
same [] (y ∷ ys) = false
same (x ∷ xs) [] = false
same (x ∷ xs) (y ∷ ys) = x == y && same xs ys

member-mark :
    (name : List ℕ) (breakpoint : Bool) (o : Option WildcardTreeNode)
    → member name (mark breakpoint o) ≡ (same [] name && breakpoint) || within (member name) o
unfolding member mark get_child
member-mark [] breakpoint none = ground arith
member-mark [] breakpoint (some (node b children)) = refl
member-mark (c ∷ cs) breakpoint none = refl
member-mark (c ∷ cs) breakpoint (some (node b children)) = refl

member-marked :
    (name : List ℕ) (o : Option WildcardTreeNode)
    → (member name (mark true o) ≡ same [] name || within (member name) o)
      × (member name (mark false o) ≡ within (member name) o)
member-marked name o =
    (ground (arith, member-mark name true o), ground (arith, member-mark name false o))

pub member-erase_child :
    (c d : ℕ) (ds : List ℕ) (b : Bool) (children : ChildMap)
    → member (d ∷ ds) (node b (erase_child children c))
      ≡ (if c == d then false else within (member ds) (get_child children d))
unfolding member
member-erase_child c d ds b children = elim (Bool-cases (c == d)) [
  | inl hit ↦ rw (get_child-erase_child children c d, hit)
  | inr miss ↦ rw (get_child-erase_child children c d, miss)
]

pub member-put_child :
    (c d : ℕ) (ds : List ℕ) (b : Bool) (children : ChildMap) (n : WildcardTreeNode)
    → member (d ∷ ds) (node b (put_child children c n))
      ≡ (if c == d then member ds n else within (member ds) (get_child children d))
unfolding member
member-put_child c d ds b children n = elim (Bool-cases (c == d)) [
  | inl hit ↦ rw (get_child-put_child children c d n, hit)
  | inr miss ↦ rw (get_child-put_child children c d n, miss)
]

-- A child that is written at `c`, and what it adds to the names below `c`.
member-write :
    (c d : ℕ) (ds : List ℕ) (b : Bool) (children : ChildMap) (n : WildcardTreeNode) (more : Bool)
    → member ds n ≡ more || within (member ds) (get_child children c)
    → member (d ∷ ds) (node b (put_child children c n))
      ≡ (c == d && more) || member (d ∷ ds) (node b children)
unfolding member
member-write c d ds b children n more h = elim (Bool-cases (c == d)) [
  | inl hit ↦
      let e : c ≡ d = ground arith in
      ground (
        arith,
        member-put_child c d ds b children n,
        ap (λ k. within (member ds) (get_child children k)) e,
      )
  | inr miss ↦ ground (arith, member-put_child c d ds b children n)
]

member-insert_chars :
    (cs : List ℕ) (c : ℕ) (n : WildcardTreeNode) (name : List ℕ)
    → member name (insert_chars cs c n) ≡ same (c ∷ cs) name || member name n
unfolding insert_chars add_child
member-insert_chars [] c (node b children) [] = unfold member in refl
member-insert_chars [] c (node b children) (d ∷ ds) =
    member-write c d ds b children (mark true (get_child children c)) (same [] ds)
      (member-marked ds (get_child children c)).0
member-insert_chars (x ∷ xs) c (node b children) [] = unfold member in refl
member-insert_chars (x ∷ xs) c (node b children) (d ∷ ds) =
    let old = mark false (get_child children c) in
    member-write c d ds b children (insert_chars xs x old) (same (x ∷ xs) ds) (
      member-insert_chars xs x old ds
      ∙ ap (λ s. same (x ∷ xs) ds || s) (member-marked ds (get_child children c)).1)

-- After a name is inserted, the tree holds it and the names that it held.
pub member-insert :
    (c : ℕ) (cs : List ℕ) (n : WildcardTreeNode) (name : List ℕ)
    → member name (insert (c, cs) n) ≡ same (c ∷ cs) name || member name n
unfolding insert
member-insert c cs n name = member-insert_chars cs c n name
