-- ===== src/Common/Assoc.antt =====
-- `std::map` with a number for its key, as an association list: `find`, `operator[] =`, `erase`.
use Prim.Native.Nat.{ℕ}
use mathlib.Core.Path.{◌≡◌, refl, subst}
use mathlib.Core.Bool.{false}
use mathlib.Core.List.{List, [], ◌∷◌}
use mathlib.Core.Logic.{◌≢◌, inl, inr}
use mathlib.Core.Option.{Option, none, some, some-injective}
use native.Mathlib.Omega.{arith}
use tib.Common.Tests.{ltb, ◌==◌, if◌then◌else◌, Bool-cases}
use tib.Common.Lists.{All}

module _ {ℓ} {V : Type ℓ} where
  unfoldable pub lookup : ℕ → List (ℕ × V) → Option V
  lookup key [] = none
  lookup key ((at, held) ∷ rest) =
      let later = lookup key rest in if at == key then some held else later

  -- The entries stay in the order of their keys, as an iterator of the map sees them.
  unfoldable pub insert : ℕ → V → List (ℕ × V) → List (ℕ × V)
  insert key new [] = (key, new) ∷ []
  insert key new ((at, held) ∷ rest) =
      let later = insert key new rest in
      if at == key
      then (key, new) ∷ rest
      else if ltb key at
      then (key, new) ∷ (at, held) ∷ rest
      else (at, held) ∷ later

  -- Every entry of the key goes; a `std::map` has one at most.
  unfoldable pub remove : ℕ → List (ℕ × V) → List (ℕ × V)
  remove key [] = []
  remove key ((at, held) ∷ rest) =
      let later = remove key rest in if at == key then later else (at, held) ∷ later

  pub lookup-insert :
      (key other : ℕ) (new : V) (entries : List (ℕ × V))
      → lookup other (insert key new entries)
        ≡ (if key == other then some new else lookup other entries)
  unfolding lookup insert
  lookup-insert key other new [] = ground arith
  lookup-insert key other new ((at, held) ∷ rest) = ground (arith, lookup-insert key other new rest)

  pub lookup-insert_self : (k : ℕ) (v : V) (m : List (ℕ × V)) → lookup k (insert k v m) ≡ some v
  lookup-insert_self k v m = ground (arith, lookup-insert k k v m)

  pub lookup-insert_ne :
      (k j : ℕ) (v : V) (m : List (ℕ × V)) → k ≢ j → lookup j (insert k v m) ≡ lookup j m
  lookup-insert_ne k j v m h = ground (arith, lookup-insert k j v m)

  pub lookup-remove :
      (k j : ℕ) (m : List (ℕ × V)) → lookup j (remove k m) ≡ (if k == j then none else lookup j m)
  unfolding lookup remove
  lookup-remove k j [] = ground arith
  lookup-remove k j ((i, w) ∷ m) = ground (arith, lookup-remove k j m)

  pub All-insert {κ} :
      (P : ℕ × V → Type κ) (k : ℕ) (v : V) (m : List (ℕ × V))
      → P (k, v)
      → All P m
      → All P (insert k v m)
  unfolding insert
  All-insert P k v [] p h = (p, tt)
  All-insert P k v ((at, held) ∷ rest) p h = elim (Bool-cases (at == k)) [
    | inl hit ↦ rw hit (p, h.1)
    | inr miss ↦ elim (Bool-cases (ltb k at)) [
      | inl before ↦ rw (miss, before) (p, h)
      | inr behind ↦ rw (miss, behind) (h.0, All-insert P k v rest p h.1)
    ]
  ]

  -- What is left has other keys.
  pub All-remove {κ} :
      (P : ℕ × V → Type κ) (k : ℕ) (m : List (ℕ × V))
      → All P m
      → All (λ e. P e × ((e.0 == k) ≡ false)) (remove k m)
  unfolding remove
  All-remove P k [] h = tt
  All-remove P k ((at, held) ∷ rest) h = elim (Bool-cases (at == k)) [
    | inl hit ↦ rw hit (All-remove P k rest h.1)
    | inr miss ↦ rw miss ((h.0, miss), All-remove P k rest h.1)
  ]

  pub All-lookup {κ} :
      (P : ℕ × V → Type κ) (k : ℕ) (m : List (ℕ × V)) (v : V)
      → All P m
      → lookup k m ≡ some v
      → P (k, v)
  unfolding lookup
  All-lookup P k [] v h found = cc
  All-lookup P k ((at, held) ∷ rest) v h found = elim (Bool-cases (at == k)) [
    | inl hit ↦
        let here : at ≡ k = ground (arith, hit) in
        let same : held ≡ v = some-injective held v (rw hit at found) in
        subst (λ x. P (x, v)) here (subst (λ x. P (at, x)) same h.0)
    | inr miss ↦ All-lookup P k rest v h.1 (rw miss at found)
  ]

  pub remove-missing : (k : ℕ) (m : List (ℕ × V)) → lookup k m ≡ none → remove k m ≡ m
  unfolding lookup remove
  remove-missing k [] h = refl
  remove-missing k ((at, held) ∷ rest) h = elim (Bool-cases (at == k)) [
    | inl hit ↦ cc
    | inr miss ↦ rw (miss, remove-missing k rest (rw miss at h)) refl
  ]
