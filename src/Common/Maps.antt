-- ===== src/Common/Maps.antt =====
-- Fields of many objects as functions from their numbers, and pointers that may be null.
use Prim.Native.Nat.{ℕ}
use mathlib.Core.Path.{◌≡◌, refl}
use mathlib.Core.Bool.{Bool, false, true}
use mathlib.Core.Option.{Option, none, some}
use native.Mathlib.Omega.{arith}
use tib.Common.Tests.{◌==◌, if◌then◌else◌, ==_refl}

unfoldable pub set {ℓ} : {A : Type ℓ} → ℕ → A → (ℕ → A) → ℕ → A
set key new f k = if k == key then new else f k

-- Whether a pointer is to the object with a number.
unfoldable pub is_at : Option ℕ → ℕ → Bool
is_at none p = false
is_at (some q) p = q == p

pub set_self {ℓ} : {A : Type ℓ} (key : ℕ) (new : A) (f : ℕ → A) → set key new f key ≡ new
unfolding set
set_self key new f = rw (==_refl key) refl

pub set_other {ℓ} :
    {A : Type ℓ} (key k : ℕ) (new : A) (f : ℕ → A) → (k == key) ≡ false → set key new f k ≡ f k
unfolding set
set_other key k new f h = rw h refl

-- A pointer is to one object at most.
pub apart_at : (o : Option ℕ) (p q : ℕ) → (q == p) ≡ false → is_at o p ≡ true → is_at o q ≡ false
unfolding is_at
apart_at none p q other h = refl
apart_at (some r) p q other h = ground (arith, other, h)

pub is_at→eq : (o : Option ℕ) (p : ℕ) → is_at o p ≡ true → o ≡ some p
unfolding is_at
is_at→eq none p h = cc
is_at→eq (some q) p h = let same : q ≡ p = ground (arith, h) in rw same
