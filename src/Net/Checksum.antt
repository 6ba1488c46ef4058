-- ===== src/Net/Checksum.antt =====
-- src/tools.cpp: `adlerChecksum`, which takes the remainders once in 5552 bytes. The sums are
-- `uint32_t`, so they wrap.
pub mod Exact
mod Examples
use Prim.Native.Nat.{bit_or}
use tib.Common.{
  ℕ, zero, suc, ◌+◌, ◌*◌, ◌/◌, ◌%◌, ◌^◌, List, [], ◌∷◌, length, take, drop, ltb, if◌then◌else◌,
}
use tib.Common.Word.{u32_mod, add_u32}
use tib.Net.Message.{max_size}

abbrev pub adler : ℕ
adler = 65521

abbrev pub chunk : ℕ
chunk = 5552

-- The inner loop, over the bytes of one chunk.
pub sum_bytes : ℕ × ℕ → List ℕ → ℕ × ℕ
sum_bytes s [] = s
sum_bytes (a, b) (byte ∷ bytes) = sum_bytes (add_u32 a byte, add_u32 b (add_u32 a byte)) bytes

-- The outer loop, with the rounds that are left.
pub sum_chunks : ℕ → ℕ × ℕ → List ℕ → ℕ × ℕ
sum_chunks zero s bytes = s
sum_chunks (suc n) s bytes =
    let (a, b) = sum_bytes s (take chunk bytes) in
    sum_chunks n (a % adler, b % adler) (drop chunk bytes)

-- `while (length > 0)` takes up to 5552 bytes a round.
pub adler_checksum : List ℕ → ℕ
unfolding sum_chunks
adler_checksum bytes =
    let (a, b) = sum_chunks ((length bytes + 5551) / chunk) (1, 0) bytes in
    if ltb max_size (length bytes) then 0 else bit_or ((b * 2 ^ 16) % u32_mod) a
