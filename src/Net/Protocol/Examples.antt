-- ===== src/Net/Protocol/Examples.antt =====
-- A run of the encryption, and the theorems at concrete inputs.
use tib.Common.{ℕ, ◌+◌, ◌≡◌, refl, true, false, arith}
use tib.Common.Bytes.{Buffer, read_bytes}
use tib.Net.Xtea.{encrypt_block, decrypt_block, cipher_blocks}
use tib.Net.Xtea.Blocks.{decrypt_block-encrypt_block}
use tib.Net.Xtea.Buffers.{
  IsBytes, cipher_list, cipher_blocks-cipher_list, decrypt_blocks-encrypt_blocks,
}
use tib.Net.Protocol.{OutputMessage, Protocol, on_send_message}
use tib.Net.Protocol.Loopback.{IsReady, CanTalk, Arrives, on_send_message-Arrives}

abbrev sample_key : ℕ → ℕ
sample_key i = 0x9e3779b9 + i

abbrev ones : Buffer
ones i = 1

decrypt_block-encrypt_block_example :
    decrypt_block sample_key (encrypt_block sample_key (0x01020304, 0xfffffffe))
    ≡ (0x01020304, 0xfffffffe)
decrypt_block-encrypt_block_example =
    decrypt_block-encrypt_block sample_key 0x01020304 0xfffffffe (omega arith) (omega arith)

ones-IsBytes : IsBytes ones 6
ones-IsBytes i h = omega arith

cipher_blocks-cipher_list_example :
    read_bytes (cipher_blocks (encrypt_block sample_key) 2 ones 6) 6 16
    ≡ cipher_list (encrypt_block sample_key) 2 ones 6
cipher_blocks-cipher_list_example = cipher_blocks-cipher_list (encrypt_block sample_key) 2 ones 6

decrypt_blocks-encrypt_blocks_example :
    read_bytes
      (cipher_blocks
        (decrypt_block sample_key)
        2
        (cipher_blocks (encrypt_block sample_key) 2 ones 6)
        6)
      6
      16
    ≡ read_bytes ones 6 16
decrypt_blocks-encrypt_blocks_example =
    decrypt_blocks-encrypt_blocks sample_key 2 ones 6 ones-IsBytes

abbrev hello : OutputMessage
hello = record {
  message = record { buffer = ones; length = 11; position = 19; overrun = false };
  sequence = 0;
  is_broadcast = false;
  output_buffer_start = 8;
}

abbrev server : Protocol
server = record {
  raw_messages = false;
  encryption_enabled = true;
  checksum_enabled = true;
  compact_crypt = false;
  key = sample_key;
}

hello-IsReady : IsReady hello
hello-IsReady = record {
  written = omega arith;
  start = refl;
  room = omega arith;
  bytes = λ i. omega arith;
}

server-CanTalk : CanTalk server server
server-CanTalk = record {
  wrapped = refl;
  encrypts = refl;
  heads = refl;
  decrypts = refl;
  same_key = refl;
}

on_send_message-Arrives_example : Arrives server hello (on_send_message server hello)
on_send_message-Arrives_example =
    on_send_message-Arrives server server hello server-CanTalk hello-IsReady
