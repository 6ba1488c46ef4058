-- ===== src/Names/WildcardTree/Live.antt =====
-- No dead node is left below the root, whatever names come and go.
use tib.Common.{
  ℕ, ◌≡◌, refl, Bool, true, false, List, [], ◌∷◌, Option, none, some, arith, Bool-cases,
  Option-cases, inl, inr,
}
use tib.Names.WildcardTree.{
  WildcardTreeNode, node, ChildMap, nil, child, get_child, put_child, is_dead, mark, add_child,
  insert_chars, insert, shrink, remove_chars, or_same, remove,
}
use tib.Names.WildcardTree.Removal.{remove_chars-out, remove_chars-lost, remove_chars-kept}
use tib.Names.WildcardTree.Children.{
  IsLive, AreLive, AreLive-put_child, AreLive-erase_child, AreLive-get_child,
}

put_child-is_dead :
    (b : Bool) (children : ChildMap) (c : ℕ) (n : WildcardTreeNode)
    → is_dead (node b (put_child children c n)) ≡ false
unfolding put_child is_dead
put_child-is_dead b nil c n = refl
put_child-is_dead b (child d m rest) c n = ground arith

mark-IsLive :
    (breakpoint : Bool) (o : Option WildcardTreeNode)
    → ((n : WildcardTreeNode) → o ≡ some n → IsLive n)
    → IsLive (mark breakpoint o)
unfolding mark IsLive AreLive
mark-IsLive breakpoint none h = tt
mark-IsLive breakpoint (some (node b children)) h = h (node b children) refl

mark-is_dead : (o : Option WildcardTreeNode) → is_dead (mark true o) ≡ false
unfolding mark is_dead
mark-is_dead none = refl
mark-is_dead (some (node b nil)) = refl
mark-is_dead (some (node b (child c n rest))) = refl

add_child-IsLive :
    (children : ChildMap) (c : ℕ) (breakpoint : Bool)
    → AreLive children
    → IsLive (add_child children c breakpoint)
unfolding add_child
add_child-IsLive children c breakpoint h =
    mark-IsLive breakpoint (get_child children c) (λ n e. (AreLive-get_child children c n h e).1)

insert_chars-is_dead :
    (cs : List ℕ) (c : ℕ) (n : WildcardTreeNode) → is_dead (insert_chars cs c n) ≡ false
unfolding insert_chars
insert_chars-is_dead [] c (node b children) = put_child-is_dead b children c _
insert_chars-is_dead (d ∷ ds) c (node b children) = put_child-is_dead b children c _

insert_chars-IsLive :
    (cs : List ℕ) (c : ℕ) (n : WildcardTreeNode) → IsLive n → IsLive (insert_chars cs c n)
unfolding insert_chars IsLive
insert_chars-IsLive [] c (node b children) h =
    AreLive-put_child children c _ h (unfold add_child in mark-is_dead (get_child children c))
      (add_child-IsLive children c true h)
insert_chars-IsLive (d ∷ ds) c (node b children) h =
    AreLive-put_child children c _ h (insert_chars-is_dead ds d _)
      (insert_chars-IsLive ds d (add_child children c false) (add_child-IsLive children c false h))

shrink-IsLive :
    (b : Bool) (children : ChildMap) (c : ℕ) (n : WildcardTreeNode)
    → AreLive children
    → IsLive n
    → IsLive (shrink b children c n)
unfolding shrink IsLive
shrink-IsLive b children c n h l = elim (Bool-cases (is_dead n)) [
  | inl dead ↦ rw dead (AreLive-erase_child children c h)
  | inr live ↦ rw live (AreLive-put_child children c n h live l)
]

remove_chars-IsLive :
    (cs : List ℕ) (n n' : WildcardTreeNode) → remove_chars cs n ≡ some n' → IsLive n → IsLive n'
unfolding IsLive remove_chars
remove_chars-IsLive [] (node b children) n' e h =
    let now : n' ≡ node false children = cc in rw now h
remove_chars-IsLive (c ∷ cs) (node b children) n' e h = elim (Option-cases (get_child children c)) [
  | inl out ↦ cc (remove_chars-out c cs b children out)
  | inr (m, into) ↦ elim (Option-cases (remove_chars cs m)) [
    | inl lost ↦ cc (remove_chars-lost c cs b children m into lost)
    | inr (m', kept) ↦
        let now : n' ≡ shrink b children c m' =
          cc (remove_chars-kept c cs b children m m' into kept) in
        rw now (
          shrink-IsLive b children c m' h
            (remove_chars-IsLive cs m m' kept (AreLive-get_child children c m h into).1))
  ]
]

-- Whatever name is inserted or removed, below the root every node still has a child or ends a name.
pub insert-remove-IsLive :
    (c : ℕ) (cs gone : List ℕ) (n : WildcardTreeNode)
    → IsLive n
    → IsLive (insert (c, cs) n) × IsLive (remove gone n)
unfolding insert remove or_same
insert-remove-IsLive c cs gone n h = (
  insert_chars-IsLive cs c n h,
  elim (Option-cases (remove_chars gone n)) [
    | inl lost ↦ rw (lost, or_same) h
    | inr (n', kept) ↦ rw (kept, or_same) (remove_chars-IsLive gone n n' kept h)
  ],
)
