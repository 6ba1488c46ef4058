-- ===== src/Net/Message/RoundTrip.antt =====
-- A message that is written and then read from where the writing began gives its fields back.
use tib.Common.{
  ℕ, ◌+◌, ◌%◌, ◌≤◌, ◌<◌, ◌≡◌, ◌∙◌, sym, ap, List, [], ◌∷◌, ◌++◌, arith, length, length-append, All,
}
use tib.Common.Bytes.{
  write_bytes, to_bytes, length-to_bytes, write_bytes-append, read_bytes-write_bytes,
}
use tib.Common.Word.{u16_mod}
use tib.Net.Message.{
  NetworkMessage, Position, max_body_length, can_add, extend, add_byte, add, add_string,
  add_position,
}
use tib.Net.Message.Layout.{IsWriting, Field, byte, word, text, place, write, write_all, add-fits}
use tib.Net.Message.Reading.{encode, encode_all, Fits, read_all, read_all-Holds}

-- Two writes in a row are one.
extend-extend :
    (m : NetworkMessage) (cs bs : List ℕ)
    → length cs + m.position < max_body_length
    → extend (extend m cs) bs ≡ extend m (cs ++ bs)
extend-extend m cs bs h =
    λ i. record m { buffer = buffers i; length = lengths i; position = positions i }
  where
    moved : (m.position + length cs) % u16_mod ≡ m.position + length cs
    moved = omega arith

    buffers :
        write_bytes (write_bytes m.buffer m.position cs) ((m.position + length cs) % u16_mod) bs
        ≡ write_bytes m.buffer m.position (cs ++ bs)
    buffers = rw moved (sym (write_bytes-append m.buffer m.position cs bs))

    lengths :
        ((m.length + length cs) % u16_mod + length bs) % u16_mod
        ≡ (m.length + length (cs ++ bs)) % u16_mod
    lengths = rw (length-append cs bs) (omega arith)

    positions :
        ((m.position + length cs) % u16_mod + length bs) % u16_mod
        ≡ (m.position + length (cs ++ bs)) % u16_mod
    positions = rw (length-append cs bs) (omega arith)

add_byte-fits :
    (m : NetworkMessage) (v : ℕ)
    → 1 + m.position < max_body_length
    → add_byte m v ≡ extend m (v % 256 ∷ [])
unfolding add_byte can_add
add_byte-fits m v h = ground arith

add_string-fits :
    (m : NetworkMessage) (s : List ℕ)
    → length s ≤ 8192
    → length s + 2 + m.position < max_body_length
    → add_string m s ≡ extend (add 2 m (length s % u16_mod)) s
unfolding add_string can_add
add_string-fits m s short h = ground arith

add_position-fits :
    (m : NetworkMessage) (p : Position)
    → 5 + m.position < max_body_length
    → add_position m p ≡ extend m (encode (place p))
unfolding add_position to_bytes
add_position-fits m p h =
    let xs = to_bytes 2 p.x in
    let ys = to_bytes 2 p.y in
    let zs = p.z % 256 ∷ [] in
    ap (λ n. add_byte (add 2 n p.y) p.z) (add-fits 2 m p.x (omega arith))
    ∙ ap (λ n. add_byte n p.z) (add-fits 2 (extend m xs) p.y (omega arith))
    ∙ add_byte-fits (extend (extend m xs) ys) p.z (omega arith)
    ∙ extend-extend (extend m xs) ys zs (omega arith)
    ∙ extend-extend m xs (ys ++ zs) (omega arith)

-- A field that fits is written as its bytes.
write-extend :
    (m : NetworkMessage) (f : Field)
    → Fits f
    → length (encode f) + m.position < max_body_length
    → write m f ≡ extend m (encode f)
unfolding write
write-extend m (byte v) fits h = add_byte-fits m v h
write-extend m (word n v) fits h = add-fits n m v (omega (arith, h, length-to_bytes n v))
write-extend m (text s) fits h =
    let head = to_bytes 2 (length s % u16_mod) in
    let size = length-to_bytes 2 (length s % u16_mod) in
    let sum = length-append head s in
    add_string-fits m s fits (omega (arith, h, sum, size))
    ∙ ap (λ n. extend n s) (add-fits 2 m (length s % u16_mod) (omega (arith, h, sum, size)))
    ∙ extend-extend m head s (omega (arith, h, sum, size))
write-extend m (place p) fits h = add_position-fits m p (unfold to_bytes in omega (arith, h))

-- All fields that fit together are written as their bytes, one after the other.
write_all-extend :
    (fs : List Field) (m : NetworkMessage)
    → All Fits fs
    → length (encode_all fs) + m.position < max_body_length
    → length (encode_all fs) + m.length < u16_mod
    → write_all m fs ≡ extend m (encode_all fs)
unfolding write_all write_bytes
write_all-extend [] m fits h k = λ i. record m { length = lengths i; position = positions i }
  where
    lengths : m.length ≡ (m.length + 0) % u16_mod
    lengths = omega arith

    positions : m.position ≡ (m.position + 0) % u16_mod
    positions = omega arith
write_all-extend (f ∷ fs) m fits h k =
    let sum = length-append (encode f) (encode_all fs) in
    ap (λ n. write_all n fs) (write-extend m f fits.0 (omega (arith, h, sum)))
    ∙ write_all-extend fs (extend m (encode f)) fits.1 (omega (arith, h, sum))
        (omega (arith, k, sum))
    ∙ extend-extend m (encode f) (encode_all fs) (omega (arith, h, sum))

-- Fields that fit into the free part of a message that is being written are read back as they were
-- written: a reader that stands where the writing began finds the same values, in the same order.
pub read_all-write_all :
    (m : NetworkMessage) (fs : List Field)
    → IsWriting m
    → All Fits fs
    → length (encode_all fs) + m.position < max_body_length
    → (read_all (record (write_all m fs) { position = m.position }) fs).0 ≡ fs
read_all-write_all m fs w fits h =
    let done = write_all-extend fs m fits h (omega (arith, w, h)) in
    let bs = encode_all fs in
    ap (λ n. (read_all (record n { position = m.position }) fs).0) done
    ∙ read_all-Holds fs (record (extend m bs) { position = m.position }) fits
        (record {
          bytes = read_bytes-write_bytes m.buffer m.position bs;
          room = omega (arith, w, h);
          below = omega (arith, h);
        })
