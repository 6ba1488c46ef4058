-- ===== src/Net/Protocol/Headers.antt =====
-- The four bytes and the length in front of an encrypted message.
use tib.Common.{ℕ, ◌+◌, ◌≤◌, ◌<◌, ◌≡◌, ◌∙◌, sym, ap, ◌⊎◌, inl, inr, arith}
use tib.Common.Bytes.{read_bytes, to_bytes}
use tib.Common.Word.{u16_mod}
use tib.Net.Checksum.{adler_checksum}
use tib.Net.Protocol.Padding.{IsHeaded, add_header-IsHeaded}
use tib.Net.Protocol.{OutputMessage, add_header, write_message_length, add_crypto_header, outgoing}

-- A message that is encrypted and headed, as it goes out.
pub record IsSent (p out : OutputMessage) : Type 0 where
  pub start : out.output_buffer_start ≡ 0
  pub size : out.length ≡ p.length + 6
  pub header : read_bytes out.buffer 0 2 ≡ to_bytes 2 (p.length + 4)
  pub kept : (i : ℕ) → 6 ≤ i → out.buffer i ≡ p.buffer i

two_headers :
    (p q : OutputMessage) (v : ℕ)
    → IsHeaded p q 4 v
    → p.output_buffer_start ≡ 6
    → p.length + 6 < u16_mod
    → IsSent p (write_message_length q)
unfolding write_message_length
two_headers p q v h six room =
    let last =
      add_header-IsHeaded 2 q q.length (omega (arith, h.start)) (omega (arith, h.start))
        (omega (arith, h.size)) in
    let zero_start : (add_header 2 q q.length).output_buffer_start ≡ 0 =
      omega (arith, last.start, h.start) in
    record {
      start = zero_start;
      size = omega (arith, last.size, h.size);
      header =
          ap (λ s. read_bytes (add_header 2 q q.length).buffer s 2) (sym zero_start)
          ∙ last.header
          ∙ ap (to_bytes 2) h.size;
      kept = λ i le. last.kept i (omega (arith, h.start)) ∙ h.kept i (omega arith);
    }

pub add_crypto_header-IsSent :
    (p : OutputMessage) (add_checksum : ℕ)
    → (add_checksum ≡ 1) ⊎ (add_checksum ≡ 2)
    → p.output_buffer_start ≡ 6
    → p.length + 6 < u16_mod
    → IsSent p (add_crypto_header p add_checksum)
unfolding add_crypto_header
add_crypto_header-IsSent p add_checksum (inl e) six room =
    let h =
      add_header-IsHeaded 4 p (adler_checksum (outgoing p)) (omega arith) (omega arith)
        (omega arith) in
    rw e (two_headers p _ _ h six room)
add_crypto_header-IsSent p add_checksum (inr e) six room =
    let h = add_header-IsHeaded 4 p p.sequence (omega arith) (omega arith) (omega arith) in
    rw e (
      two_headers p _ p.sequence
        (record {
          start = h.start;
          size = h.size;
          header = h.header;
          kept = h.kept;
          position = h.position;
          bytes = h.bytes;
        })
        six room)
