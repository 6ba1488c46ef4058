-- ===== src/Names/WildcardTree/Children.antt =====
-- The children of a node: what stands under a character, and that no node is dead.
use tib.Common.{ℕ, ◌≡◌, refl, false, none, some, arith, ◌==◌, if◌then◌else◌, Bool-cases, inl, inr}
use mathlib.Core.Path.{subst}
use tib.Names.WildcardTree.{
  WildcardTreeNode, node, ChildMap, nil, child, get_child, put_child, erase_child, is_dead,
}

pub get_child-put_child :
    (children : ChildMap) (c d : ℕ) (n : WildcardTreeNode)
    → get_child (put_child children c n) d ≡ (if c == d then some n else get_child children d)
unfolding get_child put_child
get_child-put_child nil c d n = refl
get_child-put_child (child e m rest) c d n = ground (arith, get_child-put_child rest c d n)

pub get_child-erase_child :
    (children : ChildMap) (c d : ℕ)
    → get_child (erase_child children c) d ≡ (if c == d then none else get_child children d)
unfolding get_child erase_child
get_child-erase_child nil c d = ground arith
get_child-erase_child (child e m rest) c d = ground (arith, get_child-erase_child rest c d)

-- Below the root every node has a child or ends a name.
unfoldable mutual
  pub IsLive : WildcardTreeNode → Type 0
  IsLive (node b children) = AreLive children

  pub AreLive : ChildMap → Type 0
  AreLive nil = Unit {0}
  AreLive (child c n rest) = (is_dead n ≡ false) × IsLive n × AreLive rest

pub AreLive-put_child :
    (children : ChildMap) (c : ℕ) (n : WildcardTreeNode)
    → AreLive children
    → is_dead n ≡ false
    → IsLive n
    → AreLive (put_child children c n)
unfolding put_child AreLive
AreLive-put_child nil c n h k l = (k, l, tt)
AreLive-put_child (child e m rest) c n h k l = ground (arith, AreLive-put_child rest c n)

pub AreLive-erase_child :
    (children : ChildMap) (c : ℕ) → AreLive children → AreLive (erase_child children c)
unfolding erase_child AreLive
AreLive-erase_child nil c h = tt
AreLive-erase_child (child e m rest) c h = ground (arith, AreLive-erase_child rest c)

pub AreLive-get_child :
    (children : ChildMap) (c : ℕ) (n : WildcardTreeNode)
    → AreLive children
    → get_child children c ≡ some n
    → (is_dead n ≡ false) × IsLive n
unfolding get_child AreLive
AreLive-get_child nil c n h e = cc
AreLive-get_child (child d m rest) c n h e = elim (Bool-cases (d == c)) [
  | inl hit ↦
      let found : some m ≡ some n = rw hit at e in
      let here : m ≡ n = cc in subst (λ k. (is_dead k ≡ false) × IsLive k) here (h.0, h.1)
  | inr miss ↦ AreLive-get_child rest c n h.2 (rw miss at e)
]
