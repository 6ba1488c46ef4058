-- ===== src/Common/Bytes.antt =====
-- Byte buffers: `memcpy` into and out of one, and the little-endian bytes of a word, which is what
-- `memcpy` of an integer gives on the hosts that the server runs on.
use Prim.Native.Nat.{ℕ, zero, suc, ◌+◌, ◌*◌, ◌/◌, ◌%◌, ◌^◌, ◌≤◌, ◌<◌}
use native.Mathlib.Nat.{pow-suc, add-zero, zero-add, suc-add}
use mathlib.Core.Path.{◌≡◌, refl, ap, ◌∙◌}
use native.Mathlib.Decide.{dec_lt}
use mathlib.Core.List.{List, [], ◌∷◌, ◌++◌}
use native.Mathlib.Omega.{arith}
use tib.Common.Tests.{◌==◌, if◌then◌else◌}
use tib.Common.Lists.{length, All}

abbrev pub Buffer : Type 0
Buffer = ℕ → ℕ

unfoldable pub write_byte : Buffer → ℕ → ℕ → Buffer
write_byte buf pos b i = if i == pos then b else buf i

unfoldable pub write_bytes : Buffer → ℕ → List ℕ → Buffer
write_bytes buf pos [] = buf
write_bytes buf pos (b ∷ bs) = write_bytes (write_byte buf pos b) (pos + 1) bs

unfoldable pub read_bytes : Buffer → ℕ → ℕ → List ℕ
read_bytes buf pos zero = []
read_bytes buf pos (suc n) = buf pos ∷ read_bytes buf (pos + 1) n

-- The bytes of a word of `n` bytes, lowest first, and back.
unfoldable pub to_bytes : ℕ → ℕ → List ℕ
to_bytes zero v = []
to_bytes (suc n) v = v % 256 ∷ to_bytes n (v / 256)

unfoldable pub from_bytes : List ℕ → ℕ
from_bytes [] = 0
from_bytes (b ∷ bs) = b + 256 * from_bytes bs

abbrev pub IsByte : ℕ → Type 0
IsByte b = b < 256

pub length-to_bytes : (n v : ℕ) → length (to_bytes n v) ≡ n
unfolding to_bytes
length-to_bytes zero v = refl
length-to_bytes (suc n) v = ap suc (length-to_bytes n (v / 256))

pub to_bytes-IsByte : (n v : ℕ) → All IsByte (to_bytes n v)
unfolding to_bytes
to_bytes-IsByte zero v = tt
to_bytes-IsByte (suc n) v = (omega arith, to_bytes-IsByte n (v / 256))

pub from_bytes-to_bytes : (n v : ℕ) → v < 256 ^ n → from_bytes (to_bytes n v) ≡ v
unfolding to_bytes from_bytes
from_bytes-to_bytes zero v h = omega arith
from_bytes-to_bytes (suc n) v h =
    let small : v < 256 * 256 ^ n = omega (arith, h, pow-suc 256 n) in
    omega (arith, from_bytes-to_bytes n (v / 256) (omega arith))

pub to_bytes-from_bytes : (bs : List ℕ) → All IsByte bs → to_bytes (length bs) (from_bytes bs) ≡ bs
unfolding to_bytes from_bytes
to_bytes-from_bytes [] h = refl
to_bytes-from_bytes (b ∷ bs) h =
    let rest : (b + 256 * from_bytes bs) / 256 ≡ from_bytes bs = omega arith in
    let low : (b + 256 * from_bytes bs) % 256 ≡ b = omega arith in
    rw (rest, low, to_bytes-from_bytes bs h.1)

-- A write leaves what stands before it and behind it.
pub write_bytes-before :
    (buf : Buffer) (pos : ℕ) (bs : List ℕ) (i : ℕ) → i < pos → write_bytes buf pos bs i ≡ buf i
unfolding write_bytes write_byte
write_bytes-before buf pos [] i h = refl
write_bytes-before buf pos (b ∷ bs) i h =
    ground (arith, write_bytes-before (write_byte buf pos b) (pos + 1) bs i)

pub write_bytes-after :
    (buf : Buffer) (pos : ℕ) (bs : List ℕ) (i : ℕ)
    → pos + length bs ≤ i
    → write_bytes buf pos bs i ≡ buf i
unfolding write_bytes write_byte
write_bytes-after buf pos [] i h = refl
write_bytes-after buf pos (b ∷ bs) i h =
    ground (arith, write_bytes-after (write_byte buf pos b) (pos + 1) bs i)

-- Two buffers that agree on a range hold the same bytes there.
pub read_bytes-agree :
    (f g : Buffer) (pos n : ℕ)
    → ((i : ℕ) → pos ≤ i → i < pos + n → f i ≡ g i)
    → read_bytes f pos n ≡ read_bytes g pos n
unfolding read_bytes
read_bytes-agree f g pos zero h = refl
read_bytes-agree f g pos (suc n) h = rw (
  h pos (omega arith) (omega arith),
  read_bytes-agree f g (pos + 1) n (λ i lo hi. h i (omega arith) (omega arith)),
)

-- What was written is read back.
pub read_bytes-write_bytes :
    (buf : Buffer) (pos : ℕ) (bs : List ℕ)
    → read_bytes (write_bytes buf pos bs) pos (length bs) ≡ bs
unfolding read_bytes write_bytes
read_bytes-write_bytes buf pos [] = refl
read_bytes-write_bytes buf pos (b ∷ bs) =
    rw (head, read_bytes-write_bytes (write_byte buf pos b) (pos + 1) bs)
  where
    head : write_bytes (write_byte buf pos b) (pos + 1) bs pos ≡ b
    head = write_bytes-before (write_byte buf pos b) (pos + 1) bs pos (omega arith) ∙ hit
      where
        hit : write_byte buf pos b pos ≡ b
        hit = unfold write_byte in ground arith

pub write_bytes-append :
    (buf : Buffer) (pos : ℕ) (cs bs : List ℕ)
    → write_bytes buf pos (cs ++ bs) ≡ write_bytes (write_bytes buf pos cs) (pos + length cs) bs
unfolding write_bytes
write_bytes-append buf pos [] bs = ap (λ p. write_bytes buf p bs) (omega arith)
write_bytes-append buf pos (a ∷ cs) bs =
    write_bytes-append (write_byte buf pos a) (pos + 1) cs bs
    ∙ ap (λ p. write_bytes (write_bytes (write_byte buf pos a) (pos + 1) cs) p bs) (omega arith)

pub read_bytes-append :
    (buf : Buffer) (pos m n : ℕ)
    → read_bytes buf pos (m + n) ≡ read_bytes buf pos m ++ read_bytes buf (pos + m) n
unfolding read_bytes
read_bytes-append buf pos zero n = ground (
  arith,
  ap (λ k. read_bytes buf k n) (add-zero pos),
  ap (λ k. read_bytes buf pos k) (zero-add n),
)
read_bytes-append buf pos (suc m) n =
    let shift : pos + suc m ≡ pos + 1 + m = omega arith in
    rw (suc-add m n, shift, read_bytes-append buf (pos + 1) m n)

-- A range that holds two pieces in a row holds each of them.
pub read_bytes-split :
    (buf : Buffer) (pos : ℕ) (cs bs : List ℕ)
    → read_bytes buf pos (length (cs ++ bs)) ≡ cs ++ bs
    → (read_bytes buf pos (length cs) ≡ cs) × (read_bytes buf (pos + length cs) (length bs) ≡ bs)
unfolding read_bytes
read_bytes-split buf pos [] bs h = (refl, rw add-zero h)
read_bytes-split buf pos (c ∷ cs) bs h =
    let shift : pos + suc (length cs) ≡ pos + 1 + length cs = omega arith in
    let rest = read_bytes-split buf (pos + 1) cs bs (ground arith) in
    (ground (arith, rest.0), rw shift rest.1)

-- Ranges with the same bytes agree at each place.
pub read_bytes-at :
    (f g : Buffer) (pos n i : ℕ)
    → read_bytes f pos n ≡ read_bytes g pos n
    → pos ≤ i
    → i < pos + n
    → f i ≡ g i
unfolding read_bytes
read_bytes-at f g pos zero i h lo hi = absurd (omega arith)
read_bytes-at f g pos (suc n) i h lo hi = elim (dec_lt pos i) [
  | yes past ↦ read_bytes-at f g (pos + 1) n i (ground arith) (omega arith) (omega arith)
  | no here ↦ let same : i ≡ pos = omega arith in rw same (ground arith)
]

pub IsByte-write_bytes :
    (buf : Buffer) (pos : ℕ) (bs : List ℕ)
    → ((i : ℕ) → IsByte (buf i))
    → All IsByte bs
    → (i : ℕ) → IsByte (write_bytes buf pos bs i)
unfolding write_bytes write_byte
IsByte-write_bytes buf pos [] h k i = h i
IsByte-write_bytes buf pos (b ∷ bs) h k i =
    IsByte-write_bytes (write_byte buf pos b) (pos + 1) bs (λ j. ground (arith, h j, k.0)) k.1 i
