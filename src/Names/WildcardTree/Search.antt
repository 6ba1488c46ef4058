-- ===== src/Names/WildcardTree/Search.antt =====
-- What `findOne` answers, said of the set of names.
use tib.Common.{
  ℕ, ◌≡◌, ◌∙◌, refl, sym, ap, Bool, true, false, List, [], ◌∷◌, ◌++◌, none, some, arith, ◌==◌,
  ==_refl, Bool-cases, Option-cases, inl, inr,
}
use mathlib.Core.List.{append_assoc, append-nil}
use tib.Names.WildcardTree.{
  WildcardTreeNode, node, ChildMap, nil, child, get_child, is_dead, ReturnValue, no_error,
  player_with_this_name_is_not_online, complete, descend, found_at, find_one,
}
use tib.Names.WildcardTree.Children.{IsLive, AreLive-get_child}
use tib.Names.WildcardTree.Members.{member}

-- The one name that the node below `start` holds, if the completion succeeds.
record Completed (n : WildcardTreeNode) (start result : List ℕ) : Type 0 where
  more : List ℕ
  whole : result ≡ start ++ more
  held : member more n ≡ true
  only : (name : List ℕ) → member name n ≡ true → name ≡ more

-- The cases of the completion: a leaf, and a node with one child.
leaf-Completed : (start result : List ℕ) → start ≡ result → Completed (node true nil) start result
unfolding member get_child
leaf-Completed start result e = record {
  more = [];
  whole = sym e ∙ sym (append-nil start);
  held = refl;
  only = leaf_only;
}
  where
    leaf_only : (name : List ℕ) → member name (node true nil) ≡ true → name ≡ []
    leaf_only [] h = refl
    leaf_only (d ∷ ds) h = cc

under-Completed :
    (c : ℕ) (n : WildcardTreeNode) (start result : List ℕ)
    → Completed n (start ++ c ∷ []) result
    → Completed (node false (child c n nil)) start result
unfolding member get_child
under-Completed c n start result h = record {
  more = c ∷ h.more;
  whole = h.whole ∙ append_assoc start (c ∷ []) h.more;
  held = rw (==_refl c) h.held;
  only = only_under;
}
  where
    only_under :
        (name : List ℕ) → member name (node false (child c n nil)) ≡ true → name ≡ c ∷ h.more
    only_under [] e = cc
    only_under (d ∷ ds) e = elim (Bool-cases (c == d)) [
      | inl hit ↦
          let same_char : c ≡ d = ground arith in
          let rest : ds ≡ h.more = h.only ds (rw hit at e) in
          λ i. same_char_back same_char i ∷ rest i
      | inr miss ↦ cc (rw miss at e)
    ]
      where
        same_char_back : c ≡ d → d ≡ c
        same_char_back p = sym p

complete-Completed :
    (n : WildcardTreeNode) (start result : List ℕ)
    → IsLive n
    → is_dead n ≡ false
    → complete n start ≡ (no_error, result)
    → Completed n start result
unfolding complete IsLive is_dead
complete-Completed (node true nil) start result live alive e =
    leaf-Completed start result (ap (λ (r : ReturnValue × List ℕ). r.1) e)
complete-Completed (node false nil) start result live alive e = cc
complete-Completed (node true (child c n nil)) start result live alive e =
    absurd (ground (arith, ap (λ (r : ReturnValue × List ℕ). r.0) e))
complete-Completed (node false (child c n nil)) start result live alive e =
    under-Completed c n start result (complete-Completed n (start ++ c ∷ []) result live.1 live.0 e)
complete-Completed (node b (child c n (child d m rest))) start result live alive e =
    absurd (ground (arith, ap (λ (r : ReturnValue × List ℕ). r.0) e))

descend-out :
    (c : ℕ) (cs : List ℕ) (b : Bool) (children : ChildMap)
    → get_child children c ≡ none
    → descend (c ∷ cs) (node b children) ≡ none
unfolding descend
descend-out c cs b children out = rw (out, descend)

descend-into :
    (c : ℕ) (cs : List ℕ) (b : Bool) (children : ChildMap) (n : WildcardTreeNode)
    → get_child children c ≡ some n
    → descend (c ∷ cs) (node b children) ≡ descend cs n
unfolding descend
descend-into c cs b children n into = rw (into, descend)

-- The walk down leads to the node of the names that begin with the query.
member-descend :
    (query name : List ℕ) (n m : WildcardTreeNode)
    → descend query n ≡ some m
    → member (query ++ name) n ≡ member name m
unfolding descend member
member-descend [] name n m e = let same_node : n ≡ m = cc in ap (member name) same_node
member-descend (c ∷ cs) name (node b children) m e = elim (Option-cases (get_child children c)) [
  | inl out ↦ cc (descend-out c cs b children out)
  | inr (k, into) ↦
      rw into (member-descend cs name k m (sym (descend-into c cs b children k into) ∙ e))
]

member-no_descent :
    (query name : List ℕ) (n : WildcardTreeNode)
    → descend query n ≡ none
    → member (query ++ name) n ≡ false
unfolding descend member
member-no_descent [] name n e = cc
member-no_descent (c ∷ cs) name (node b children) e = elim (Option-cases (get_child children c)) [
  | inl out ↦ rw out
  | inr (k, into) ↦
      rw into (member-no_descent cs name k (sym (descend-into c cs b children k into) ∙ e))
]

descend-IsLive :
    (query : List ℕ) (n m : WildcardTreeNode)
    → descend query n ≡ some m
    → is_dead n ≡ false
    → IsLive n
    → (is_dead m ≡ false) × IsLive m
unfolding descend IsLive
descend-IsLive [] n m e k l = let same_node : n ≡ m = cc in rw (← same_node) (k, l)
descend-IsLive (c ∷ cs) (node b children) m e k l = elim (Option-cases (get_child children c)) [
  | inl out ↦ cc (descend-out c cs b children out)
  | inr (j, into) ↦
      let below = AreLive-get_child children c j l into in
      descend-IsLive cs j m (sym (descend-into c cs b children j into) ∙ e) below.0 below.1
]

descend_first-IsLive :
    (c : ℕ) (cs : List ℕ) (n m : WildcardTreeNode)
    → IsLive n
    → descend (c ∷ cs) n ≡ some m
    → (is_dead m ≡ false) × IsLive m
unfolding descend IsLive
descend_first-IsLive c cs (node b children) m l e = elim (Option-cases (get_child children c)) [
  | inl out ↦ cc (descend-out c cs b children out)
  | inr (j, into) ↦
      let below = AreLive-get_child children c j l into in
      descend-IsLive cs j m (sym (descend-into c cs b children j into) ∙ e) below.0 below.1
]

complete-online :
    (n : WildcardTreeNode) (start : List ℕ)
    → (complete n start).0 ≡ player_with_this_name_is_not_online
    → false ≡ true
unfolding complete
complete-online (node b nil) start e = cc
complete-online (node true (child c n nil)) start e = cc
complete-online (node false (child c n nil)) start e = complete-online n (start ++ c ∷ []) e
complete-online (node b (child c n (child d m rest))) start e = cc

-- In a tree without dead nodes, if a query that is not empty is answered without an error, the string is the name of a member, begins with the query, and is the only member that does.
pub find_one-no_error :
    (c : ℕ) (cs held result : List ℕ) (n : WildcardTreeNode)
    → IsLive n
    → find_one (c ∷ cs) held n ≡ (no_error, result)
    → (more : List ℕ) × (result ≡ (c ∷ cs) ++ more)
      × (member result n ≡ true)
      × ((name : List ℕ) → member ((c ∷ cs) ++ name) n ≡ true → name ≡ more)
unfolding find_one
find_one-no_error c cs held result n l e = elim (Option-cases (descend (c ∷ cs) n)) [
  | inl out ↦ cc (rw out at e)
  | inr (m, into) ↦
      let live = descend_first-IsLive c cs n m l into in
      let done = complete-Completed m (c ∷ cs) result live.1 live.0 (rw (into, found_at) at e) in
      (
        done.more,
        done.whole,
        ap (λ text. member text n) done.whole
            ∙ member-descend (c ∷ cs) done.more n m into
            ∙ done.held,
        λ name e'. done.only name (sym (member-descend (c ∷ cs) name n m into) ∙ e'),
      )
]

-- If a query is answered as of a player that is not online, the caller's string is left as it was, and no member begins with the query.
pub find_one-not_online :
    (query held : List ℕ) (n : WildcardTreeNode)
    → (find_one query held n).0 ≡ player_with_this_name_is_not_online
    → ((find_one query held n).1 ≡ held) × ((name : List ℕ) → member (query ++ name) n ≡ false)
unfolding find_one
find_one-not_online query held n e = elim (Option-cases (descend query n)) [
  | inl out ↦ (rw (out, found_at) refl, λ name. member-no_descent query name n out)
  | inr (m, into) ↦ cc (complete-online m query (rw (into, found_at) at e))
]
