-- ===== src/Net/Message.antt =====
-- src/networkmessage.h and src/networkmessage.cpp: the message buffer, its reads and its writes.
-- Positions and lengths are `uint16_t`, so their sums wrap; the checks are done in `int` and in
-- `size_t`, where these sums do not. Texts are lists of bytes.
pub mod Layout
pub mod Reading
pub mod RoundTrip
mod Examples
use tib.Common.{
  ℕ, ◌+◌, ◌*◌, ◌%◌, Bool, true, false, not, List, [], ◌∷◌, length, ltb, leb, ◌||◌, if◌then◌else◌,
  ◌==◌, replicate,
}
use tib.Common.Bytes.{Buffer, write_byte, write_bytes, read_bytes, to_bytes, from_bytes}
use tib.Common.Word.{u8_mod, u16_mod}

abbrev pub max_size : ℕ
max_size = 24590

abbrev pub initial_buffer_position : ℕ
initial_buffer_position = 8

-- The size less the header (2), the checksum (4) and the cipher's block (8).
abbrev pub max_body_length : ℕ
max_body_length = 24576

pub record NetworkMessage : Type 0 where
  pub buffer : Buffer
  pub length : ℕ
  pub position : ℕ
  pub overrun : Bool

pub reset : NetworkMessage → NetworkMessage
reset m = record m { length = 0; position = initial_buffer_position; overrun = false }

-- `sizeof` and string lengths are not negative, so the tests in `int` move no sign.
pub can_read : NetworkMessage → ℕ → Bool
can_read m size =
    if ltb (m.length + 8) (m.position + size) || leb max_size (size + m.position)
    then false
    else true

pub can_add : NetworkMessage → ℕ → Bool
can_add m size = ltb (size + m.position) max_body_length

-- The move of the position past `n` bytes that were read.
abbrev pub advance : NetworkMessage → ℕ → NetworkMessage
advance m n = record m { position = (m.position + n) % u16_mod }

-- The move of both past `n` bytes that were written.
abbrev pub extend : NetworkMessage → List ℕ → NetworkMessage
extend m bs = record m {
  buffer = write_bytes m.buffer m.position bs;
  length = (m.length + length bs) % u16_mod;
  position = (m.position + length bs) % u16_mod;
}

pub get_byte : NetworkMessage → ℕ × NetworkMessage
unfolding can_read
get_byte m =
    if can_read m 1 then (m.buffer m.position, advance m 1) else (0, record m { overrun = true })

-- `get<T>` for a type of `n` bytes.
pub get : ℕ → NetworkMessage → ℕ × NetworkMessage
unfolding can_read
get n m =
    if can_read m n
    then (from_bytes (read_bytes m.buffer m.position n), advance m n)
    else (0, record m { overrun = true })

take_string : ℕ → NetworkMessage → List ℕ × NetworkMessage
unfolding can_read
take_string n m =
    if can_read m n
    then (read_bytes m.buffer m.position n, advance m n)
    else ([], record m { overrun = true })

-- A length of 0 says that the length stands in the message.
pub get_string : ℕ → NetworkMessage → List ℕ × NetworkMessage
unfolding take_string get
get_string n m = if n == 0 then (let (len, m') = get 2 m in take_string len m') else take_string n m

pub record Position : Type 0 where
  pub x : ℕ
  pub y : ℕ
  pub z : ℕ

pub get_position : NetworkMessage → Position × NetworkMessage
unfolding get get_byte
get_position m =
    let (x, m₁) = get 2 m in
    let (y, m₂) = get 2 m₁ in let (z, m₃) = get_byte m₂ in (record { x = x; y = y; z = z }, m₃)

-- `count` is the 16-bit pattern of the `int16_t`.
pub skip_bytes : NetworkMessage → ℕ → NetworkMessage
skip_bytes m count = advance m count

pub add_byte : NetworkMessage → ℕ → NetworkMessage
unfolding can_add
add_byte m v = if can_add m 1 then extend m (v % u8_mod ∷ []) else m

-- `add<T>` for a type of `n` bytes.
pub add : ℕ → NetworkMessage → ℕ → NetworkMessage
unfolding can_add
add n m v = if can_add m n then extend m (to_bytes n v) else m

pub add_bytes : NetworkMessage → List ℕ → NetworkMessage
unfolding can_add
add_bytes m bs = if not (can_add m (length bs)) || ltb 8192 (length bs) then m else extend m bs

-- The position stays, so the next write goes over the padding.
pub add_padding_bytes : NetworkMessage → ℕ → NetworkMessage
unfolding can_add
add_padding_bytes m n =
    if can_add m n
    then record m {
      buffer = write_bytes m.buffer m.position (replicate n 0x33);
      length = (m.length + n) % u16_mod;
    }
    else m

pub add_string : NetworkMessage → List ℕ → NetworkMessage
unfolding can_add add
add_string m s =
    if not (can_add m (length s + 2)) || ltb 8192 (length s)
    then m
    else extend (add 2 m (length s % u16_mod)) s

pub add_position : NetworkMessage → Position → NetworkMessage
unfolding add add_byte
add_position m p = add_byte (add 2 (add 2 m p.x) p.y) p.z

unfoldable pub get_length_header : NetworkMessage → ℕ
get_length_header m = m.buffer 0 + 256 * m.buffer 1

unfoldable pub set_length : NetworkMessage → ℕ → NetworkMessage
set_length m n = record m { length = n % u16_mod }

pub decode_header : NetworkMessage → ℕ × NetworkMessage
unfolding get_length_header set_length
decode_header m = let m' = set_length m (get_length_header m) in (m'.length, m')
