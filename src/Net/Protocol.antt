-- ===== src/Net/Protocol.antt =====
-- src/outputmessage.h and src/protocol.cpp: headers in front of an outgoing message, its padding and
-- encryption, and what the receiving side makes of it. Buffers and words are those of
-- `Net.Message` and `Net.Xtea`; the RSA decryption of src/rsa.cpp, which a library does, is an
-- argument. The two flags of `Protocol` that choose the header are arguments too.
pub mod Padding
pub mod Headers
pub mod Decrypt
pub mod Loopback
mod Examples
use tib.Common.{
  ℕ, ◌+◌, ◌-◌, ◌*◌, ◌%◌, Bool, true, false, not, ◌||◌, List, Option, none, some, ltb, leb, ◌==◌,
  if◌then◌else◌,
}
use tib.Common.Bytes.{Buffer, write_bytes, read_bytes, to_bytes}
use tib.Common.Word.{u16_mod, u32_mod}
use tib.Net.Message.{
  NetworkMessage, max_size, initial_buffer_position, get, get_byte, set_length, add_padding_bytes,
  get_length_header,
}
use tib.Net.Xtea.{encrypt_block, decrypt_block, cipher_blocks, rounds_of}
use tib.Net.Checksum.{adler_checksum}

pub record OutputMessage : Type 0 where
  pub message : NetworkMessage
  pub open message use *
  pub sequence : ℕ
  pub is_broadcast : Bool
  pub output_buffer_start : ℕ

-- `add_header<T>` for a type of `n` bytes; the room in front is asserted in debug builds only.
pub add_header : ℕ → OutputMessage → ℕ → OutputMessage
add_header n m v =
    let start = (m.output_buffer_start + u16_mod - n) % u16_mod in
    record m {
      message = record (m.message) {
        buffer = write_bytes m.buffer start (to_bytes n v);
        length = (m.length + n) % u16_mod;
      };
      output_buffer_start = start;
    }

pub write_message_length : OutputMessage → OutputMessage
unfolding add_header
write_message_length m = add_header 2 m m.length

-- The bytes that are to be sent.
abbrev pub outgoing : OutputMessage → List ℕ
outgoing m = read_bytes m.buffer m.output_buffer_start m.length

pub add_crypto_header : OutputMessage → ℕ → OutputMessage
unfolding add_header write_message_length
add_crypto_header m add_checksum =
    let summed = add_header 4 m (adler_checksum (outgoing m)) in
    let counted = record (add_header 4 m m.sequence) { sequence = (m.sequence + 1) % u32_mod } in
    write_message_length
      (if add_checksum == 1 then summed else if add_checksum == 2 then counted else m)

-- `append`, of either kind of message.
pub append : OutputMessage → NetworkMessage → OutputMessage
append m n = record m {
  message = record (m.message) {
    buffer = write_bytes m.buffer m.position (read_bytes n.buffer 8 n.length);
    length = (m.length + n.length) % u16_mod;
    position = (m.position + n.length) % u16_mod;
  };
}

-- The padding to a multiple of 8, where there is room for it.
pub pad : OutputMessage → OutputMessage
pad m =
    let padding_bytes = m.length % 8 in
    if not (padding_bytes == 0)
    then record m { message = add_padding_bytes m.message (8 - padding_bytes) }
    else m

pub xtea_encrypt : (ℕ → ℕ) → OutputMessage → OutputMessage
unfolding pad
xtea_encrypt key m =
    let p = pad m in
    record p {
      message = record (p.message) {
        buffer =
            cipher_blocks (encrypt_block key) (rounds_of p.length) p.buffer p.output_buffer_start;
      };
    }

-- The cases of `(getLength() - 6) & 7`, where the difference is an `int` that may be negative.
abbrev pub is_whole_blocks : ℕ → Bool
is_whole_blocks length = (length + 2) % 8 == 0

-- The answer, and the message as it is left.
pub xtea_decrypt : (ℕ → ℕ) → NetworkMessage → Bool × NetworkMessage
xtea_decrypt key m =
    let plain = record m {
      buffer = cipher_blocks (decrypt_block key) (rounds_of (m.length - 6)) m.buffer m.position;
    } in
    let (inner, m') = get 2 plain in
    if not (is_whole_blocks m.length)
    then (false, m)
    else if ltb m'.length (inner + 8)
    then (false, m')
    else (true, set_length m' inner)

pub record Protocol : Type 0 where
  pub raw_messages : Bool
  pub encryption_enabled : Bool
  pub checksum_enabled : Bool
  pub compact_crypt : Bool
  pub key : ℕ → ℕ

pub on_send_message : Protocol → OutputMessage → OutputMessage
unfolding xtea_encrypt add_crypto_header
on_send_message p m =
    let headed = write_message_length m in
    let crypted = xtea_encrypt p.key headed in
    if p.raw_messages
    then m
    else if not p.encryption_enabled
    then headed
    else if not p.compact_crypt
    then add_crypto_header crypted (if p.checksum_enabled then 1 else 0)
    else add_crypto_header crypted 2

-- The message that goes to `parsePacket`, if any does.
pub on_recv_message : Protocol → NetworkMessage → Option NetworkMessage
unfolding xtea_decrypt
on_recv_message p m =
    let (done, m') = xtea_decrypt p.key m in
    if not p.encryption_enabled then some m else if done then some m' else none

-- `decrypt` is the library's decryption of the 128 bytes at the position.
pub rsa_decrypt : (Buffer → ℕ → Buffer) → NetworkMessage → Bool × NetworkMessage
rsa_decrypt decrypt m =
    let (b, m') = get_byte (record m { buffer = decrypt m.buffer m.position }) in
    if ltb m.length (m.position + 128) then (false, m) else (b == 0, m')

-- src/connection.cpp, `parseHeader` and `parsePacket`: the size that is read from the first two
-- bytes, its test, and the read of the four bytes in front of the encrypted part. `wire` is the
-- buffer as the socket fills it; `none` stands for a closed connection.
pub receive : Buffer → Option NetworkMessage
receive wire =
    let header : NetworkMessage = record {
      buffer = wire;
      length = 0;
      position = initial_buffer_position;
      overrun = false;
    } in
    let size = get_length_header header in
    let body = record (set_length header (size + 2)) { position = 2 } in
    if size == 0 || leb (max_size - 16) size then none else some (get 4 body).1
