-- ===== src/Net/Checksum/Examples.antt =====
-- A run of the checksum, and its theorem at a concrete input.
use Prim.Native.Nat.{bit_or}
use tib.Common.{ℕ, ◌*◌, ◌^◌, ◌≡◌, refl, List, [], ◌∷◌, arith}
use tib.Net.Checksum.{sum_bytes, adler_checksum}
use tib.Net.Checksum.Exact.{reference, adler_checksum-reference}

-- The nine bytes of "Wikipedia", whose Adler-32 is well known.
abbrev wikipedia : List ℕ
wikipedia = b'W' ∷ b'i' ∷ b'k' ∷ b'i' ∷ b'p' ∷ b'e' ∷ b'd' ∷ b'i' ∷ b'a' ∷ []

checksum_run : adler_checksum wikipedia ≡ 0x11E60398
unfolding adler_checksum sum_bytes
checksum_run = refl

adler_checksum-reference_example :
    adler_checksum wikipedia
    ≡ bit_or ((reference (1, 0) wikipedia).1 * 2 ^ 16) (reference (1, 0) wikipedia).0
adler_checksum-reference_example = adler_checksum-reference wikipedia (omega arith) (omega arith)
