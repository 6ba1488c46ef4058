-- ===== src/Files/Streams.antt =====
-- src/fileloader.h: `PropStream` and `PropWriteStream`. A stream that is read is the bytes from `p` to
-- `end`; one that is written is its buffer. A read that fails leaves the stream where it is, save
-- that a text whose length was read stays behind the length.
pub mod RoundTrip
mod Examples
use tib.Common.{
  ℕ, Bool, true, false, List, [], ◌∷◌, ◌++◌, Option, none, some, ltb, if◌then◌else◌, length, drop,
  take,
}
use tib.Common.Bytes.{to_bytes, from_bytes}

abbrev pub PropStream : Type 0
PropStream = List ℕ

abbrev pub PropWriteStream : Type 0
PropWriteStream = List ℕ

-- `read<T>` with the size of T: what was read, if anything, and the stream.
unfoldable pub read : ℕ → PropStream → Option ℕ × PropStream
read size s =
    if ltb (length s) size then (none, s) else (some (from_bytes (take size s)), drop size s)

-- The text behind a length.
unfoldable pub read_text : Option ℕ × PropStream → Option (List ℕ) × PropStream
read_text (none, s) = (none, s)
read_text (some str_len, s) =
    if ltb (length s) str_len then (none, s) else (some (take str_len s), drop str_len s)

unfoldable pub read_string : PropStream → Option (List ℕ) × PropStream
read_string s = read_text (read 2 s)

unfoldable pub skip : ℕ → PropStream → Bool × PropStream
skip n s = if ltb (length s) n then (false, s) else (true, drop n s)

unfoldable pub write : ℕ → ℕ → PropWriteStream → PropWriteStream
write size add buffer = buffer ++ to_bytes size add

unfoldable pub write_string : List ℕ → PropWriteStream → PropWriteStream
write_string str buffer =
    if ltb 65535 (length str) then write 2 0 buffer else write 2 (length str) buffer ++ str
