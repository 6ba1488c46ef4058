-- ===== src/Net/Protocol/Loopback.antt =====
-- What one side sends encrypted, the other side receives with the same key.
use tib.Common.{
  ℕ, ◌+◌, ◌*◌, ◌/◌, ◌%◌, ◌<◌, ◌≡◌, ◌∙◌, refl, sym, ap, ◌⊎◌, true, false, not, ◌||◌, some, arith,
  leb, ◌==◌, if◌then◌else◌,
}
use tib.Common.Bytes.{
  Buffer, read_bytes, to_bytes, from_bytes, from_bytes-to_bytes, read_bytes-agree,
}
use tib.Common.Word.{u16_mod}
use tib.Net.Message.{NetworkMessage, max_body_length, advance, get, set_length, get_length_header}
use tib.Net.Message.Layout.{IsWriting, get-reads}
use tib.Net.Xtea.{encrypt_block, cipher_blocks, rounds_of}
use tib.Net.Protocol.Padding.{IsPadded, IsHeaded, AllBytes, pad-IsPadded, add_header-IsHeaded}
use tib.Net.Protocol.{
  OutputMessage, Protocol, write_message_length, add_crypto_header, pad, xtea_encrypt, xtea_decrypt,
  on_send_message, on_recv_message, receive,
}
use tib.Net.Protocol.Decrypt.{Sealed, Delivers, Sealed-Delivers}
use tib.Net.Protocol.Headers.{IsSent, add_crypto_header-IsSent}

arrived : Buffer → ℕ → NetworkMessage
arrived wire size = record { buffer = wire; length = size + 2; position = 6; overrun = false }

receive-arrived :
    (wire : Buffer) (size : ℕ)
    → read_bytes wire 0 2 ≡ to_bytes 2 size
    → 0 < size
    → size < 24574
    → receive wire ≡ some (arrived wire size)
unfolding receive get_length_header set_length arrived
receive-arrived wire size h lo hi = rw (header, zero_size, fits, whole, from_four) refl
  where
    unfolded : from_bytes (read_bytes wire 0 2) ≡ wire 0 + 256 * wire 1
    unfolded = unfold from_bytes read_bytes in omega arith

    header : wire 0 + 256 * wire 1 ≡ size
    header = sym unfolded ∙ ap from_bytes h ∙ from_bytes-to_bytes 2 size (omega arith)

    zero_size : (size == 0) ≡ false
    zero_size = ground arith

    fits : leb 24574 size ≡ false
    fits = ground arith

    whole : (size + 2) % u16_mod ≡ size + 2
    whole = omega arith

    body : NetworkMessage
    body = record { buffer = wire; length = size + 2; position = 2; overrun = false }

    from_four : get 4 body ≡ (from_bytes (read_bytes wire 2 4), advance body 4)
    from_four = get-reads 4 body _ (omega arith) (omega arith) refl

-- A message as it is when its fields have been written, with room for the headers and the padding.
pub record IsReady (m : OutputMessage) : Type 0 where
  pub written : IsWriting m.message
  pub start : m.output_buffer_start ≡ 8
  pub room : m.position + 8 < max_body_length
  pub bytes : AllBytes m.buffer

-- The two sides encrypt under one key, and the sender puts four bytes in front.
pub record CanTalk (p q : Protocol) : Type 0 where
  pub wrapped : p.raw_messages ≡ false
  pub encrypts : p.encryption_enabled ≡ true
  pub heads : (p.compact_crypt || p.checksum_enabled) ≡ true
  pub decrypts : q.encryption_enabled ≡ true
  pub same_key : q.key ≡ p.key

header_kind : Protocol → ℕ
header_kind p = if not p.compact_crypt then (if p.checksum_enabled then 1 else 0) else 2

header_kind-heads :
    (p : Protocol)
    → (p.compact_crypt || p.checksum_enabled) ≡ true
    → (header_kind p ≡ 1) ⊎ (header_kind p ≡ 2)
unfolding header_kind
header_kind-heads p h = ground arith

on_send_message-crypted :
    (p : Protocol) (m : OutputMessage)
    → p.raw_messages ≡ false
    → p.encryption_enabled ≡ true
    → on_send_message p m
      ≡ add_crypto_header (xtea_encrypt p.key (write_message_length m)) (header_kind p)
unfolding on_send_message header_kind
on_send_message-crypted p m h k = ground arith

module _ (key : ℕ → ℕ) (m : OutputMessage) (ready : IsReady m) where
  headed : OutputMessage
  headed = write_message_length m

  headed-IsHeaded : IsHeaded m headed 2 m.length
  unfolding headed write_message_length
  headed-IsHeaded =
      add_header-IsHeaded 2 m m.length (omega (arith, ready.start)) (omega (arith, ready.start))
        (omega (arith, ready.written, ready.room))

  pad-headed : IsPadded headed (pad headed)
  pad-headed =
      let h = headed-IsHeaded in
      pad-IsPadded headed (omega (arith, h.position, ready.room))
        (omega (arith, h.size, ready.written, ready.room)) (h.bytes ready.bytes)

  -- The encrypted message decrypts to the message with its length in front.
  crypted-Sealed :
      (out : OutputMessage)
      → IsSent (xtea_encrypt key headed) out
      → Sealed key
          (arrived out.buffer ((pad headed).length + 4))
          (pad headed).buffer
          ((pad headed).length / 8)
          m.length
  unfolding xtea_encrypt arrived
  crypted-Sealed out sent =
      let h = headed-IsHeaded in
      let p = pad-headed in
      let n = (pad headed).length / 8 in
      let rounds : rounds_of (pad headed).length ≡ n = omega (arith, p.whole) in
      let six : (pad headed).output_buffer_start ≡ 6 =
        omega (arith, p.start, h.start, ready.start) in
      record {
        bytes = λ i le. p.bytes i;
        same = λ i le.
            sent.kept i le
            ∙ ap
                (λ k.
                  cipher_blocks (encrypt_block key) k (pad headed).buffer
                    (pad headed).output_buffer_start i)
                rounds
            ∙ ap (λ s. cipher_blocks (encrypt_block key) n (pad headed).buffer s i) six;
        at_six = refl;
        size = omega (arith, p.whole);
        room = omega (arith, p.whole, p.longer, h.size);
        short = omega (arith, p.not_much, h.size, ready.written, ready.room);
        head =
            read_bytes-agree (pad headed).buffer headed.buffer 6 2
              (λ i lo hi. p.kept i (omega (arith, h.position, ready.written)))
            ∙ ap (λ s. read_bytes headed.buffer s 2) (omega (arith, h.start, ready.start))
            ∙ h.header;
      }

  body_kept : read_bytes (pad headed).buffer 8 m.length ≡ read_bytes m.buffer 8 m.length
  body_kept =
      let h = headed-IsHeaded in
      read_bytes-agree (pad headed).buffer m.buffer 8 m.length (λ i lo hi.
        pad-headed.kept i (omega (arith, h.position, ready.written))
        ∙ h.kept i (omega (arith, ready.start)))

  -- What the receiver gets out of the headed message.
  crypted-received :
      (out : OutputMessage)
      → IsSent (xtea_encrypt key headed) out
      → (receive out.buffer ≡ some (arrived out.buffer ((pad headed).length + 4)))
        × Delivers
            (xtea_decrypt key (arrived out.buffer ((pad headed).length + 4)))
            m.buffer
            m.length
  unfolding xtea_encrypt
  crypted-received out sent =
      let h = headed-IsHeaded in
      let p = pad-headed in
      let got = Sealed-Delivers key _ _ _ _ (crypted-Sealed out sent) in
      (
        receive-arrived out.buffer ((pad headed).length + 4) sent.header (omega arith)
            (omega (arith, p.not_much, h.size, ready.written, ready.room)),
        (got.0, got.1, got.2, got.3 ∙ body_kept),
      )

on_recv_message-accepts :
    (q : Protocol) (key : ℕ → ℕ) (m : NetworkMessage)
    → q.encryption_enabled ≡ true
    → q.key ≡ key
    → (xtea_decrypt key m).0 ≡ true
    → on_recv_message q m ≡ some (xtea_decrypt key m).1
unfolding on_recv_message
on_recv_message-accepts q key m e k done = rw (k, e, done)

-- The sent bytes start at the front of the buffer, the receiver reads a message from them, and what
-- goes to its parser has the length that was written, stands at the body, and has its bytes.
pub record Arrives (q : Protocol) (m out : OutputMessage) : Type 0 where
  pub front : out.output_buffer_start ≡ 0
  pub raw : NetworkMessage
  pub received : receive out.buffer ≡ some raw
  pub parsed : NetworkMessage
  pub accepted : on_recv_message q raw ≡ some parsed
  pub length : parsed.length ≡ m.length
  pub position : parsed.position ≡ 8
  pub body : read_bytes parsed.buffer 8 m.length ≡ read_bytes m.buffer 8 m.length

-- A message that is ready to be sent, between two sides that encrypt under one key and put four
-- bytes in front, arrives: it is received and decrypted, and the parser gets its length and bytes.
pub on_send_message-Arrives :
    (p q : Protocol) (m : OutputMessage)
    → CanTalk p q
    → IsReady m
    → Arrives q m (on_send_message p m)
on_send_message-Arrives p q m talk ready =
    let h = headed-IsHeaded p.key m ready in
    let pd = pad-headed p.key m ready in
    let crypted = xtea_encrypt p.key (headed p.key m ready) in
    let out = add_crypto_header crypted (header_kind p) in
    let sent : IsSent crypted out =
      unfold xtea_encrypt in
      add_crypto_header-IsSent crypted (header_kind p) (header_kind-heads p talk.heads)
        (omega (arith, pd.start, h.start, ready.start))
        (omega (arith, pd.not_much, h.size, ready.written, ready.room)) in
    let (received, got) = crypted-received p.key m ready out sent in
    rw (on_send_message-crypted p m talk.wrapped talk.encrypts) (
      unfold headed in
      record {
        front = sent.start;
        raw = _;
        received = received;
        parsed = _;
        accepted = on_recv_message-accepts q p.key _ talk.decrypts talk.same_key got.0;
        length = got.1;
        position = got.2;
        body = got.3;
      })
