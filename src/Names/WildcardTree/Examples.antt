-- ===== src/Names/WildcardTree/Examples.antt =====
-- Runs of the tree of names, and its theorems at concrete inputs.
use tib.Common.{ℕ, ◌≡◌, refl, true, false, List, [], ◌∷◌, ◌++◌, ◌||◌, ◌&&◌, not}
use tib.Names.WildcardTree.{
  WildcardTreeNode, node, nil, child, insert, remove, is_dead, find_one, no_error,
  name_is_too_ambiguous,
}
use tib.Names.WildcardTree.Children.{IsLive}
use tib.Names.WildcardTree.Members.{member, same, member-insert}
use tib.Names.WildcardTree.Removal.{member-remove}
use tib.Names.WildcardTree.Live.{insert-remove-IsLive}
use tib.Names.WildcardTree.Search.{find_one-no_error, find_one-not_online}

abbrev none_yet : WildcardTreeNode
none_yet = node false nil

-- "ab" and "acd".
abbrev two_names : WildcardTreeNode
two_names = node false (
    child 97
      (node false
        (child 98 (node true nil) (child 99 (node false (child 100 (node true nil) nil)) nil)))
      nil)

two_names_run : insert (97, 99 ∷ 100 ∷ []) (insert (97, 98 ∷ []) none_yet) ≡ two_names
unfolding insert
two_names_run = refl

remove_run :
    remove (97 ∷ 99 ∷ 100 ∷ []) two_names
    ≡ node false (child 97 (node false (child 98 (node true nil) nil)) nil)
unfolding remove
remove_run = refl

ambiguous_run : find_one (97 ∷ []) [] two_names ≡ (name_is_too_ambiguous, 97 ∷ [])
unfolding find_one
ambiguous_run = refl

found_run : find_one (97 ∷ 99 ∷ []) [] two_names ≡ (no_error, 97 ∷ 99 ∷ 100 ∷ [])
unfolding find_one
found_run = refl

two_names-IsLive : IsLive two_names
unfolding IsLive is_dead
two_names-IsLive = (refl, (refl, tt, (refl, (refl, tt, tt), tt)), tt)

member-insert_example :
    member (97 ∷ 98 ∷ []) (insert (97, 120 ∷ []) two_names)
    ≡ same (97 ∷ 120 ∷ []) (97 ∷ 98 ∷ []) || member (97 ∷ 98 ∷ []) two_names
member-insert_example = member-insert 97 (120 ∷ []) two_names (97 ∷ 98 ∷ [])

member-remove_example :
    member (97 ∷ 98 ∷ []) (remove (97 ∷ 99 ∷ 100 ∷ []) two_names)
    ≡ not (same (97 ∷ 99 ∷ 100 ∷ []) (97 ∷ 98 ∷ [])) && member (97 ∷ 98 ∷ []) two_names
member-remove_example = member-remove (97 ∷ 99 ∷ 100 ∷ []) two_names (97 ∷ 98 ∷ [])

insert-remove-IsLive_example :
    IsLive (insert (97, 120 ∷ []) two_names) × IsLive (remove (97 ∷ 98 ∷ []) two_names)
insert-remove-IsLive_example =
    insert-remove-IsLive 97 (120 ∷ []) (97 ∷ 98 ∷ []) two_names two_names-IsLive

find_one-no_error_example :
    (more : List ℕ) × (97 ∷ 99 ∷ 100 ∷ [] ≡ (97 ∷ 99 ∷ []) ++ more)
    × (member (97 ∷ 99 ∷ 100 ∷ []) two_names ≡ true)
    × ((name : List ℕ) → member ((97 ∷ 99 ∷ []) ++ name) two_names ≡ true → name ≡ more)
find_one-no_error_example =
    find_one-no_error 97 (99 ∷ []) [] (97 ∷ 99 ∷ 100 ∷ []) two_names two_names-IsLive found_run

find_one-not_online_example :
    ((find_one (98 ∷ []) (1 ∷ []) two_names).1 ≡ 1 ∷ [])
    × ((name : List ℕ) → member ((98 ∷ []) ++ name) two_names ≡ false)
unfolding find_one
find_one-not_online_example = find_one-not_online (98 ∷ []) (1 ∷ []) two_names refl
