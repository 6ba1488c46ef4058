-- ===== src/Net/Protocol/Decrypt.antt =====
-- A message whose encrypted blocks start with their length is accepted by the decryption.
use tib.Common.{ℕ, ◌+◌, ◌-◌, ◌*◌, ◌%◌, ◌≤◌, ◌<◌, ◌≡◌, ◌∙◌, refl, ap, Bool, true, false, arith, ltb}
use tib.Common.Bytes.{
  Buffer, read_bytes, to_bytes, from_bytes-to_bytes, read_bytes-agree, read_bytes-at,
}
use tib.Common.Word.{u16_mod}
use tib.Net.Message.{NetworkMessage, max_body_length, get, set_length}
use tib.Net.Message.Layout.{get-reads}
use tib.Net.Xtea.{encrypt_block, decrypt_block, cipher_blocks, rounds_of}
use tib.Net.Xtea.Buffers.{
  IsBytes, Agree, cipher_list_congr, cipher_list_undone, cipher_blocks-cipher_list,
}
use tib.Net.Protocol.{xtea_decrypt, is_whole_blocks}

-- Decryption sees through whatever stands in front of the encrypted blocks.
plain_again :
    (key : ℕ → ℕ) (n : ℕ) (plain crypted : Buffer) (i : ℕ)
    → IsBytes plain 6
    → Agree crypted (cipher_blocks (encrypt_block key) n plain 6) 6
    → 6 ≤ i
    → i < 6 + 8 * n
    → cipher_blocks (decrypt_block key) n crypted 6 i ≡ plain i
plain_again key n plain crypted i bytes same lo hi =
    read_bytes-at _ plain 6 (8 * n) i
      (cipher_blocks-cipher_list (decrypt_block key) n crypted 6
        ∙ cipher_list_congr (decrypt_block key) n crypted _ 6 same
        ∙ cipher_list_undone key n plain 6 bytes)
      lo hi

-- An encrypted message whose plain blocks start with their length is accepted.
pub record Sealed (key : ℕ → ℕ) (m : NetworkMessage) (plain : Buffer) (n inner : ℕ) : Type 0 where
  pub bytes : IsBytes plain 6
  pub same : Agree m.buffer (cipher_blocks (encrypt_block key) n plain 6) 6
  pub at_six : m.position ≡ 6
  pub size : m.length ≡ 8 * n + 6
  pub room : inner + 2 ≤ 8 * n
  pub short : 8 * n + 6 < max_body_length
  pub head : read_bytes plain 6 2 ≡ to_bytes 2 inner

abbrev pub Delivers : Bool × NetworkMessage → Buffer → ℕ → Type 0
Delivers r plain inner =
    (r.0 ≡ true)
    × (r.1.length ≡ inner)
    × (r.1.position ≡ 8)
    × (read_bytes r.1.buffer 8 inner ≡ read_bytes plain 8 inner)

abbrev plain_buffer : (ℕ → ℕ) → NetworkMessage → Buffer
plain_buffer key m =
    cipher_blocks (decrypt_block key) (rounds_of (m.length - 6)) m.buffer m.position

xtea_decrypt-accepts :
    (key : ℕ → ℕ) (m : NetworkMessage) (inner : ℕ) (m' : NetworkMessage)
    → is_whole_blocks m.length ≡ true
    → get 2 (record m { buffer = plain_buffer key m }) ≡ (inner, m')
    → ltb m'.length (inner + 8) ≡ false
    → xtea_decrypt key m ≡ (true, set_length m' inner)
unfolding xtea_decrypt
xtea_decrypt-accepts key m inner m' whole got short = rw (whole, got, short)

pub Sealed-Delivers :
    (key : ℕ → ℕ) (m : NetworkMessage) (plain : Buffer) (n inner : ℕ)
    → Sealed key m plain n inner
    → Delivers (xtea_decrypt key m) plain inner
unfolding set_length
Sealed-Delivers key m plain n inner s =
    rw (xtea_decrypt-accepts key m inner _ whole got fits)
      (refl, omega (arith, s.room, s.short), omega (arith, s.at_six), body)
  where
    whole : is_whole_blocks m.length ≡ true
    whole = ground (arith, s.size)

    rounds : rounds_of (m.length - 6) ≡ n
    rounds = omega (arith, s.size)

    seen : (i : ℕ) → 6 ≤ i → i < 6 + 8 * n → plain_buffer key m i ≡ plain i
    seen i lo hi =
        ap (λ k. cipher_blocks (decrypt_block key) k m.buffer m.position i) rounds
        ∙ ap (λ p. cipher_blocks (decrypt_block key) n m.buffer p i) s.at_six
        ∙ plain_again key n plain m.buffer i s.bytes s.same lo hi

    opened : NetworkMessage
    opened = record m { buffer = plain_buffer key m }

    first : read_bytes (plain_buffer key m) m.position 2 ≡ to_bytes 2 inner
    first =
        ap (λ p. read_bytes (plain_buffer key m) p 2) s.at_six
        ∙ read_bytes-agree (plain_buffer key m) plain 6 2
            (λ i lo hi. seen i lo (omega (arith, s.room)))
        ∙ s.head

    got : get 2 opened ≡ (inner, record opened { position = (m.position + 2) % u16_mod })
    got =
        get-reads 2 opened (to_bytes 2 inner) (omega (arith, s.at_six, s.size))
          (omega (arith, s.at_six)) first
        ∙ ap (λ v. (v, record opened { position = (m.position + 2) % u16_mod }))
            (from_bytes-to_bytes 2 inner (omega (arith, s.room, s.short)))

    fits : ltb m.length (inner + 8) ≡ false
    fits = ground (arith, s.size, s.room)

    body : read_bytes (plain_buffer key m) 8 inner ≡ read_bytes plain 8 inner
    body =
        read_bytes-agree (plain_buffer key m) plain 8 inner
          (λ i lo hi. seen i (omega arith) (omega (arith, s.room)))
