-- ===== src/Names/WildcardTree/Removal.antt =====
-- What `remove` does to the set of names.
use tib.Common.{
  ℕ, ◌≡◌, ◌∙◌, refl, sym, ap, Bool, true, false, not, ◌&&◌, List, [], ◌∷◌, none, some, arith, ◌==◌,
  if◌then◌else◌, Bool-cases, Option-cases, inl, inr,
}
use tib.Names.WildcardTree.{
  WildcardTreeNode, node, ChildMap, nil, child, get_child, is_dead, shrink, remove_chars, or_same,
  remove,
}
use tib.Names.WildcardTree.Members.{within, member, same, member-erase_child, member-put_child}

member-dead : (n : WildcardTreeNode) (name : List ℕ) → is_dead n ≡ true → member name n ≡ false
unfolding member is_dead get_child
member-dead (node b nil) [] h = ground arith
member-dead (node b nil) (c ∷ cs) h = refl
member-dead (node b (child d n rest)) name h = cc

member-shrink :
    (c d : ℕ) (ds : List ℕ) (b : Bool) (children : ChildMap) (n : WildcardTreeNode)
    → member (d ∷ ds) (shrink b children c n)
      ≡ (if c == d then member ds n else member (d ∷ ds) (node b children))
unfolding shrink
member-shrink c d ds b children n = elim (Bool-cases (is_dead n)) [
  | inl dead ↦
      rw dead (
        unfold member in
        ground (arith, member-erase_child c d ds b children, member-dead n ds dead))
  | inr live ↦ rw live (unfold member in ground (arith, member-put_child c d ds b children n))
]

-- The three ways of a removal below a character.
pub remove_chars-out :
    (c : ℕ) (cs : List ℕ) (b : Bool) (children : ChildMap)
    → get_child children c ≡ none
    → remove_chars (c ∷ cs) (node b children) ≡ none
unfolding remove_chars
remove_chars-out c cs b children out = rw (out, remove_chars)

pub remove_chars-lost :
    (c : ℕ) (cs : List ℕ) (b : Bool) (children : ChildMap) (m : WildcardTreeNode)
    → get_child children c ≡ some m
    → remove_chars cs m ≡ none
    → remove_chars (c ∷ cs) (node b children) ≡ none
unfolding remove_chars
remove_chars-lost c cs b children m into lost = rw (into, remove_chars) (rw (lost, remove_chars))

pub remove_chars-kept :
    (c : ℕ) (cs : List ℕ) (b : Bool) (children : ChildMap) (m m' : WildcardTreeNode)
    → get_child children c ≡ some m
    → remove_chars cs m ≡ some m'
    → remove_chars (c ∷ cs) (node b children) ≡ some (shrink b children c m')
unfolding remove_chars
remove_chars-kept c cs b children m m' into kept = rw (into, remove_chars) (rw (kept, remove_chars))

member-step :
    (c d : ℕ) (cs ds : List ℕ) (b : Bool) (children : ChildMap) (m m' : WildcardTreeNode)
    → get_child children c ≡ some m
    → member ds m' ≡ not (same cs ds) && member ds m
    → member (d ∷ ds) (shrink b children c m')
      ≡ not (same (c ∷ cs) (d ∷ ds)) && member (d ∷ ds) (node b children)
member-step c d cs ds b children m m' into ih = elim (Bool-cases (c == d)) [
  | inl hit ↦
      let e : c ≡ d = ground arith in
      let there : member (d ∷ ds) (node b children) ≡ member ds m =
        unfold member in
        ap (λ k. within (member ds) (get_child children k)) (sym e)
        ∙ ap (within (member ds)) into in
      ground (arith, member-shrink c d ds b children m')
  | inr miss ↦ ground (arith, member-shrink c d ds b children m')
]

member-step_any :
    (c : ℕ) (cs name : List ℕ) (b : Bool) (children : ChildMap) (m m' : WildcardTreeNode)
    → get_child children c ≡ some m
    → ((ds : List ℕ) → member ds m' ≡ not (same cs ds) && member ds m)
    → member name (shrink b children c m')
      ≡ not (same (c ∷ cs) name) && member name (node b children)
member-step_any c cs [] b children m m' into ih = unfold member shrink in refl
member-step_any c cs (d ∷ ds) b children m m' into ih =
    member-step c d cs ds b children m m' into (ih ds)

pub same→eq : (xs ys : List ℕ) → same xs ys ≡ true → xs ≡ ys
same→eq [] [] h = refl
same→eq [] (y ∷ ys) h = cc
same→eq (x ∷ xs) [] h = cc
same→eq (x ∷ xs) (y ∷ ys) h = ground (arith, same→eq xs ys)

-- What `remove` makes of the names below a node, if the path of the name stays in the tree.
member-remove_chars :
    (cs : List ℕ) (n n' : WildcardTreeNode) (name : List ℕ)
    → remove_chars cs n ≡ some n'
    → member name n' ≡ not (same cs name) && member name n
unfolding remove_chars member shrink
member-remove_chars [] (node b children) n' [] e = let now : n' ≡ node false children = cc in rw now
member-remove_chars [] (node b children) n' (d ∷ ds) e =
    let now : n' ≡ node false children = cc in rw now
member-remove_chars (c ∷ cs) (node b children) n' name e =
    elim (Option-cases (get_child children c)) [
      | inl out ↦ cc (remove_chars-out c cs b children out)
      | inr (m, into) ↦ elim (Option-cases (remove_chars cs m)) [
        | inl lost ↦ cc (remove_chars-lost c cs b children m into lost)
        | inr (m', kept) ↦
            let now : n' ≡ shrink b children c m' =
              cc (remove_chars-kept c cs b children m m' into kept) in
            ap (member name) now
            ∙ member-step_any c cs name b children m m' into
                (λ ds. member-remove_chars cs m m' ds kept)
      ]
    ]

-- A path that leaves the tree is no name of it.
pub member-no_path :
    (cs : List ℕ) (n : WildcardTreeNode) → remove_chars cs n ≡ none → member cs n ≡ false
unfolding member remove_chars
member-no_path [] (node b children) e = cc
member-no_path (c ∷ cs) (node b children) e = elim (Option-cases (get_child children c)) [
  | inl out ↦ rw out
  | inr (m, into) ↦ elim (Option-cases (remove_chars cs m)) [
    | inl lost ↦ rw into (member-no_path cs m lost)
    | inr (m', kept) ↦ cc (remove_chars-kept c cs b children m m' into kept)
  ]
]

-- After a name is removed, the tree holds the other names that it held, and not that one.
pub member-remove :
    (gone : List ℕ) (n : WildcardTreeNode) (name : List ℕ)
    → member name (remove gone n) ≡ not (same gone name) && member name n
unfolding remove or_same
member-remove gone n name = elim (Option-cases (remove_chars gone n)) [
  | inl lost ↦
      rw (lost, or_same)
        (elim (Bool-cases (same gone name)) [
          | inl hit ↦
              rw hit
                (ap (λ k. member k n) (sym (same→eq gone name hit)) ∙ member-no_path gone n lost)
          | inr miss ↦ rw miss
        ])
  | inr (n', kept) ↦ rw (kept, or_same) (member-remove_chars gone n n' name kept)
]
