-- ===== src/Net/Xtea.antt =====
-- src/protocol.cpp: the XTEA loops of `Protocol::XTEA_encrypt` and `Protocol::XTEA_decrypt`, on
-- words of 32 bits and on a byte buffer. `key[0]` to `key[3]` are a function of the index.
pub mod Blocks
pub mod Buffers
use Prim.Native.Nat.{bit_xor}
use tib.Common.{ℕ, zero, suc, ◌+◌, ◌*◌, ◌/◌, ◌%◌}
use tib.Common.Bytes.{Buffer, write_bytes, read_bytes, to_bytes, from_bytes}
use tib.Common.Word.{u32_mod, add_u32, sub_u32}

abbrev pub delta : ℕ
delta = 0x61C88647

abbrev pub last_sum : ℕ
last_sum = 0xC6EF3720

pub record Words : Type 0 where
  pub v0 : ℕ
  pub v1 : ℕ
  pub sum : ℕ

-- `((v << 4 ^ v >> 5) + v) ^ (sum + k)`.
pub scramble : ℕ → ℕ → ℕ → ℕ
scramble v sum k = bit_xor (add_u32 (bit_xor ((v * 16) % u32_mod) (v / 32)) v) (add_u32 sum k)

module _ (key : ℕ → ℕ) where
  pub encrypt_round : Words → Words
  encrypt_round w =
      let v0 = add_u32 w.v0 (scramble w.v1 w.sum (key (w.sum % 4))) in
      let sum = sub_u32 w.sum delta in
      record { v0 = v0; v1 = add_u32 w.v1 (scramble v0 sum (key ((sum / 2048) % 4))); sum = sum }

  pub decrypt_round : Words → Words
  decrypt_round w =
      let v1 = sub_u32 w.v1 (scramble w.v0 w.sum (key ((w.sum / 2048) % 4))) in
      let sum = add_u32 w.sum delta in
      record { v0 = sub_u32 w.v0 (scramble v1 sum (key (sum % 4))); v1 = v1; sum = sum }

  pub encrypt_rounds : ℕ → Words → Words
  encrypt_rounds zero w = w
  encrypt_rounds (suc n) w = encrypt_rounds n (encrypt_round w)

  pub decrypt_rounds : ℕ → Words → Words
  decrypt_rounds zero w = w
  decrypt_rounds (suc n) w = decrypt_rounds n (decrypt_round w)

  -- One block of two words.
  pub encrypt_block : ℕ × ℕ → ℕ × ℕ
  encrypt_block (v0, v1) =
      let w = encrypt_rounds 32 (record { v0 = v0; v1 = v1; sum = 0 }) in (w.v0, w.v1)

  pub decrypt_block : ℕ × ℕ → ℕ × ℕ
  decrypt_block (v0, v1) =
      let w = decrypt_rounds 32 (record { v0 = v0; v1 = v1; sum = last_sum }) in (w.v0, w.v1)

-- The body of the outer loop: two words are read, ciphered and written back in place.
pub cipher_at : (ℕ × ℕ → ℕ × ℕ) → Buffer → ℕ → Buffer
cipher_at f buf pos =
    let (w0, w1) = f (from_bytes (read_bytes buf pos 4), from_bytes (read_bytes buf (pos + 4) 4)) in
    write_bytes (write_bytes buf pos (to_bytes 4 w0)) (pos + 4) (to_bytes 4 w1)

-- The outer loop, with the rounds that are left.
pub cipher_blocks : (ℕ × ℕ → ℕ × ℕ) → ℕ → Buffer → ℕ → Buffer
cipher_blocks f zero buf pos = buf
cipher_blocks f (suc n) buf pos = cipher_blocks f n (cipher_at f buf pos) (pos + 8)

-- `while (readPos < messageLength) { ...; readPos += 8; }` makes that many rounds.
abbrev pub rounds_of : ℕ → ℕ
rounds_of message_length = (message_length + 7) / 8
