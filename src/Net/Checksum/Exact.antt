-- ===== src/Net/Checksum/Exact.antt =====
-- The sums never wrap within a chunk, so the late remainders give the checksum of the definition.
use Prim.Native.Nat.{bit_or}
use tib.Net.Message.{max_size}
use tib.Common.{
  ℕ, zero, suc, ◌+◌, ◌*◌, ◌/◌, ◌%◌, ◌≤◌, ◌<◌, ◌≡◌, ◌∙◌, refl, sym, ap, List, [], ◌∷◌, ◌++◌, arith,
  length, take, drop, All, ltb, ◌^◌, false, length-take, length-drop, take-append-drop,
  All-take-drop,
}
use tib.Common.Bytes.{IsByte}
use tib.Common.Word.{u32_mod, add_u32}
use tib.Net.Checksum.{adler, chunk, sum_bytes, sum_chunks, adler_checksum}

-- The definition of Adler-32: both sums are taken modulo 65521 at each byte.
pub reference : ℕ × ℕ → List ℕ → ℕ × ℕ
reference s [] = s
reference (a, b) (byte ∷ bytes) = reference ((a + byte) % adler, (b + (a + byte)) % adler) bytes

-- What the sums may be `k` bytes into a chunk.
record InChunk (k a b : ℕ) : Type 0 where
  low : a ≤ 65520 + 255 * k
  high : 2 * b ≤ 131040 + 131040 * k + 255 * (k * k) + 255 * k

InChunk-suc :
    (k a b byte : ℕ) → InChunk k a b → IsByte byte → InChunk (suc k) (a + byte) (b + (a + byte))
InChunk-suc k a b byte h small = record {
  low = omega (arith, h.low);
  high = omega (arith, h.low, h.high);
}

InChunk-fits : (k a b : ℕ) → InChunk k a b → k ≤ chunk → (a < u32_mod) × (b < u32_mod)
InChunk-fits k a b h le =
    let square : k * k ≤ 5552 * 5552 = grind arith in
    (omega (arith, h.low), omega (arith, h.high, square))

-- In a chunk the wrapping sums have the remainders of the reference.
sum_bytes-reference :
    (bytes : List ℕ) (k a b : ℕ)
    → All IsByte bytes
    → InChunk k a b
    → k + length bytes ≤ chunk
    → ((sum_bytes (a, b) bytes).0 % adler, (sum_bytes (a, b) bytes).1 % adler)
      ≡ reference (a % adler, b % adler) bytes
unfolding sum_bytes reference
sum_bytes-reference [] k a b small h le = refl
sum_bytes-reference (byte ∷ bytes) k a b small h le =
    let next = InChunk-suc k a b byte h small.0 in
    let fits = InChunk-fits (suc k) (a + byte) (b + (a + byte)) next (omega arith) in
    let ea : add_u32 a byte ≡ a + byte = omega (arith, fits.0) in
    let eb : add_u32 b (add_u32 a byte) ≡ b + (a + byte) = rw ea (omega (arith, fits.1)) in
    let ra : (a + byte) % adler ≡ (a % adler + byte) % adler = omega arith in
    let rb : (b + (a + byte)) % adler ≡ (b % adler + (a % adler + byte)) % adler = omega arith in
    ap (λ (s : ℕ × ℕ). ((sum_bytes s bytes).0 % adler, (sum_bytes s bytes).1 % adler))
      (λ i. (ea i, eb i))
    ∙ sum_bytes-reference bytes (suc k) (a + byte) (b + (a + byte)) small.1 next (omega arith)
    ∙ ap (λ (s : ℕ × ℕ). reference s bytes) (λ i. (ra i, rb i))

reference-append :
    (bytes more : List ℕ) (s : ℕ × ℕ)
    → reference s (bytes ++ more) ≡ reference (reference s bytes) more
unfolding reference
reference-append [] more s = refl
reference-append (byte ∷ bytes) more (a, b) = reference-append bytes more _

reference_bounds :
    (bytes : List ℕ) (a b : ℕ)
    → a < adler
    → b < adler
    → ((reference (a, b) bytes).0 < adler) × ((reference (a, b) bytes).1 < adler)
unfolding reference
reference_bounds [] a b h k = (h, k)
reference_bounds (byte ∷ bytes) a b h k = reference_bounds bytes _ _ (omega arith) (omega arith)

-- One chunk from remainders.
chunk-reference :
    (bytes : List ℕ) (a b : ℕ)
    → All IsByte bytes
    → a < adler
    → b < adler
    → length bytes ≤ chunk
    → ((sum_bytes (a, b) bytes).0 % adler, (sum_bytes (a, b) bytes).1 % adler)
      ≡ reference (a, b) bytes
chunk-reference bytes a b small ha hb le =
    let ra : a % adler ≡ a = omega arith in
    let rb : b % adler ≡ b = omega arith in
    sum_bytes-reference bytes 0 a b small (omega arith) (omega arith)
    ∙ ap (λ (s : ℕ × ℕ). reference s bytes) (λ i. (ra i, rb i))

sum_chunks-reference :
    (n : ℕ) (bytes : List ℕ) (a b : ℕ)
    → All IsByte bytes
    → a < adler
    → b < adler
    → length bytes ≤ chunk * n
    → sum_chunks n (a, b) bytes ≡ reference (a, b) bytes
unfolding sum_chunks reference
sum_chunks-reference zero [] a b small ha hb le = refl
sum_chunks-reference zero (byte ∷ bytes) a b small ha hb le = absurd (omega arith)
sum_chunks-reference (suc n) bytes a b small ha hb le =
    let first = take chunk bytes in
    let rest = drop chunk bytes in
    let parts = All-take-drop IsByte chunk bytes small in
    let s = reference (a, b) first in
    let bound = reference_bounds first a b ha hb in
    ap (λ (t : ℕ × ℕ). sum_chunks n t rest)
      (chunk-reference first a b parts.0 ha hb (omega (arith, length-take chunk bytes)))
    ∙ sum_chunks-reference n rest s.0 s.1 parts.1 bound.0 bound.1
        (omega (arith, length-drop chunk bytes))
    ∙ sym (reference-append first rest (a, b))
    ∙ ap (reference (a, b)) (take-append-drop chunk bytes)

-- For up to 24590 bytes the checksum with late remainders is Adler-32 as it is defined, with both
-- remainders taken at every byte: no sum of a chunk reaches 2 ^ 32.
pub adler_checksum-reference :
    (bytes : List ℕ)
    → All IsByte bytes
    → length bytes ≤ max_size
    → adler_checksum bytes ≡ bit_or ((reference (1, 0) bytes).1 * 2 ^ 16) (reference (1, 0) bytes).0
unfolding adler_checksum
adler_checksum-reference bytes small le =
    let s = reference (1, 0) bytes in
    let sums =
      sum_chunks-reference ((length bytes + 5551) / chunk) bytes 1 0 small (omega arith)
        (omega arith) (omega arith) in
    let bound = reference_bounds bytes 1 0 (omega arith) (omega arith) in
    let short : ltb max_size (length bytes) ≡ false = ground arith in
    let high : (s.1 * 2 ^ 16) % u32_mod ≡ s.1 * 2 ^ 16 = omega (arith, bound.1) in
    rw (short, sums) (ap (λ t. bit_or t s.0) high)
