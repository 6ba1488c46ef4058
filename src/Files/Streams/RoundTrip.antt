-- ===== src/Files/Streams/RoundTrip.antt =====
-- What a stream that was written gives back.
use tib.Common.{
  ℕ, zero, suc, ◌^◌, ◌<◌, ◌≡◌, ◌∙◌, refl, sym, ap, false, List, [], ◌∷◌, ◌++◌, Option, none, some,
  arith, ltb, if◌then◌else◌, length, drop, take, Bool-cases, inl, inr, length-append, All,
}
use mathlib.Core.List.{append_assoc, append-nil}
use tib.Common.Bytes.{to_bytes, length-to_bytes, from_bytes-to_bytes}
use tib.Files.Streams.{read, read_text, read_string, write, write_string}

-- A word of some bytes, or a text.
pub data Prop : Type 0 where
  word : (size value : ℕ) → Prop
  text : List ℕ → Prop

abbrev pub write_prop : Prop → List ℕ → List ℕ
write_prop (word size value) buffer = write size value buffer
write_prop (text str) buffer = write_string str buffer

abbrev pub write_props : List Prop → List ℕ → List ℕ
write_props [] buffer = buffer
write_props (p ∷ ps) buffer = write_props ps (write_prop p buffer)

-- A word fits its size.
abbrev pub IsSized : Prop → Type 0
IsSized (word size value) = value < 256 ^ size
IsSized (text str) = Unit

-- What is kept: a text of more than 65535 bytes is written as the empty one.
abbrev pub kept : Prop → Prop
kept (word size value) = word size value
kept (text str) = if ltb 65535 (length str) then text [] else text str

abbrev as_word : ℕ → Option ℕ × List ℕ → Option Prop × List ℕ
as_word size (none, s) = (none, s)
as_word size (some v, s) = (some (word size v), s)

abbrev as_text : Option (List ℕ) × List ℕ → Option Prop × List ℕ
as_text (none, s) = (none, s)
as_text (some str, s) = (some (text str), s)

-- A read of the shape of a property.
abbrev pub read_prop : Prop → List ℕ → Option Prop × List ℕ
read_prop (word size value) s = as_word size (read size s)
read_prop (text str) s = as_text (read_string s)

abbrev pub read_props : List Prop → List ℕ → List (Option Prop) × List ℕ
read_props [] s = ([], s)
read_props (p ∷ ps) s =
    let (found, s') = read_prop p s in
    let (others, rest) = read_props ps s' in (found ∷ others, rest)

-- The bytes of a property.
abbrev bytes_of : Prop → List ℕ
bytes_of (word size value) = to_bytes size value
bytes_of (text str) =
    if ltb 65535 (length str) then to_bytes 2 0 else to_bytes 2 (length str) ++ str

take-length : (xs ys : List ℕ) (n : ℕ) → length xs ≡ n → take n (xs ++ ys) ≡ xs
take-length [] ys zero e = refl
take-length (x ∷ xs) ys (suc n) e = ap (λ zs. x ∷ zs) (take-length xs ys n (omega (arith, e)))
take-length [] ys (suc n) e = absurd (omega (arith, e))
take-length (x ∷ xs) ys zero e = absurd (omega (arith, e))

drop-length : (xs ys : List ℕ) (n : ℕ) → length xs ≡ n → drop n (xs ++ ys) ≡ ys
drop-length [] ys zero e = refl
drop-length (x ∷ xs) ys (suc n) e = drop-length xs ys n (omega (arith, e))
drop-length [] ys (suc n) e = absurd (omega (arith, e))
drop-length (x ∷ xs) ys zero e = absurd (omega (arith, e))

enough : (xs ys : List ℕ) (n : ℕ) → length xs ≡ n → ltb (length (xs ++ ys)) n ≡ false
enough xs ys n e = ground (arith, length-append xs ys, e)

read-to_bytes :
    (size value : ℕ) (rest : List ℕ)
    → value < 256 ^ size
    → read size (to_bytes size value ++ rest) ≡ (some value, rest)
unfolding read
read-to_bytes size value rest h =
    let n = length-to_bytes size value in
    rw
      (
        enough (to_bytes size value) rest size n,
        take-length (to_bytes size value) rest size n,
        drop-length (to_bytes size value) rest size n,
        from_bytes-to_bytes size value h,
      )
      refl

read_text-append :
    (str rest : List ℕ) → read_text (some (length str), str ++ rest) ≡ (some str, rest)
unfolding read_text
read_text-append str rest =
    rw
      (
        enough str rest (length str) refl,
        take-length str rest (length str) refl,
        drop-length str rest (length str) refl,
      )
      refl

read_prop-bytes_of :
    (p : Prop) (rest : List ℕ)
    → IsSized p
    → read_prop p (bytes_of p ++ rest) ≡ (some (kept p), rest)
unfolding read_string
read_prop-bytes_of (word size value) rest h = ap (as_word size) (read-to_bytes size value rest h)
read_prop-bytes_of (text str) rest h = elim (Bool-cases (ltb 65535 (length str))) [
  | inl long ↦ rw long (
      ap (λ r. as_text (read_text r)) (read-to_bytes 2 0 rest (omega arith))
      ∙ ap as_text (read_text-append [] rest))
  | inr fits ↦
      rw (fits, append_assoc (to_bytes 2 (length str)) str rest)
        (ap (λ r. as_text (read_text r))
            (read-to_bytes 2 (length str) (str ++ rest) (ground (arith, fits)))
          ∙ ap as_text (read_text-append str rest))
]

abbrev all_bytes : List Prop → List ℕ
all_bytes [] = []
all_bytes (p ∷ ps) = bytes_of p ++ all_bytes ps

write_prop-bytes_of : (p : Prop) (buffer : List ℕ) → write_prop p buffer ≡ buffer ++ bytes_of p
unfolding write write_string
write_prop-bytes_of (word size value) buffer = refl
write_prop-bytes_of (text str) buffer = elim (Bool-cases (ltb 65535 (length str))) [
  | inl long ↦ rw long refl
  | inr fits ↦ rw fits (append_assoc buffer (to_bytes 2 (length str)) str)
]

write_props-all_bytes :
    (ps : List Prop) (buffer : List ℕ) → write_props ps buffer ≡ buffer ++ all_bytes ps
write_props-all_bytes [] buffer = sym (append-nil buffer)
write_props-all_bytes (p ∷ ps) buffer =
    write_props-all_bytes ps (write_prop p buffer)
    ∙ ap (λ b. b ++ all_bytes ps) (write_prop-bytes_of p buffer)
    ∙ append_assoc buffer (bytes_of p) (all_bytes ps)

abbrev pub found : List Prop → List (Option Prop)
found [] = []
found (p ∷ ps) = some (kept p) ∷ found ps

read_props-all_bytes :
    (ps : List Prop) (rest : List ℕ)
    → All IsSized ps
    → read_props ps (all_bytes ps ++ rest) ≡ (found ps, rest)
read_props-all_bytes [] rest h = refl
read_props-all_bytes (p ∷ ps) rest h =
    rw
      (
        append_assoc (bytes_of p) (all_bytes ps) rest,
        read_prop-bytes_of p (all_bytes ps ++ rest) h.0,
        read_props-all_bytes ps rest h.1,
      )
      refl

-- Words that fit their sizes and texts, written one after the other and read in the same order, come back and leave the rest of the stream, with one exception: a text of more than 65535 bytes comes back empty.
pub read_props-write_props :
    (ps : List Prop) (rest : List ℕ)
    → All IsSized ps
    → read_props ps (write_props ps [] ++ rest) ≡ (found ps, rest)
read_props-write_props ps rest h = rw (write_props-all_bytes ps []) (read_props-all_bytes ps rest h)
