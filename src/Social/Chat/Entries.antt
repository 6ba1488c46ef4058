-- ===== src/Social/Chat/Entries.antt =====
-- The changes of maps that src/chat.cpp makes, and what holds of every entry.
use tib.Common.{
  ℕ, zero, suc, ◌+◌, ◌≤◌, ◌<◌, ◌≡◌, ◌∙◌, refl, sym, ap, List, [], ◌∷◌, none, some, arith, ◌==◌, All,
  Bool-cases, Option-cases, inl, inr,
}
use tib.Common.Assoc.{lookup}
use tib.Social.Chat.{PrivateChatChannel}
use tib.Social.Chat.Channels.{alter, free_slot}

pub All-alter {ℓ κ} :
    {V : Type ℓ} (P : ℕ × V → Type κ) (key : ℕ) (f : V → V) (m : List (ℕ × V))
    → ((v : V) → lookup key m ≡ some v → P (key, v) → P (key, f v))
    → All P m
    → All P (alter key f m)
unfolding alter lookup
All-alter P key f [] step h = tt
All-alter P key f ((at, held) ∷ rest) step h = elim (Bool-cases (at == key)) [
  | inl hit ↦
      let same : at ≡ key = ground (arith, hit) in
      let goes : P (at, held) → P (at, f held) = rw same (step held (rw hit refl)) in
      rw hit (goes h.0, h.1)
  | inr miss ↦ rw miss (h.0, All-alter P key f rest (λ v found. step v (rw miss found)) h.1)
]

-- The slot is in the range, and free.
pub free_slot-bounds :
    (i left key : ℕ) (m : List (ℕ × PrivateChatChannel))
    → free_slot i left m ≡ some key
    → i ≤ key × (key < i + left) × (lookup key m ≡ none)
unfolding free_slot
free_slot-bounds i zero key m h = cc
free_slot-bounds i (suc left) key m h = elim (Option-cases (lookup i m)) [
  | inl free ↦
      let same : i ≡ key = ground (arith, rw free at h) in
      (ground (arith, same), ground (arith, same), ap (λ k. lookup k m) (sym same) ∙ free)
  | inr (c, there) ↦
      let later = free_slot-bounds (i + 1) left key m (rw there at h) in
      (ground (arith, later.0), ground (arith, later.1), later.2)
]
