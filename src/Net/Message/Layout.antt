-- ===== src/Net/Message/Layout.antt =====
-- Where the writes of a message go: a message that is being written keeps its position eight bytes
-- past its length and below the limit, and no write touches a byte outside the free part.
use tib.Common.{
  ℕ, ◌+◌, ◌%◌, ◌≤◌, ◌<◌, ◌≡◌, ◌∙◌, refl, inl, inr, true, List, [], ◌∷◌, arith, length, Bool-cases,
  ltb, replicate,
}
use tib.Common.Bytes.{
  write_bytes, read_bytes, from_bytes, to_bytes, length-to_bytes, write_bytes-before,
  write_bytes-after,
}
use tib.Common.Word.{u16_mod}
use tib.Net.Message.{
  NetworkMessage, Position, max_body_length, advance, can_read, get, can_add, extend, add_byte, add,
  add_string, add_position, add_padding_bytes,
}

pub record IsWriting (m : NetworkMessage) : Type 0 where
  pub aligned : m.length + 8 ≡ m.position
  pub within : m.position < max_body_length

-- A field of a message; `word n v` is a number of `n` bytes.
pub data Field : Type 0 where
  byte : ℕ → Field
  word : ℕ → ℕ → Field
  text : List ℕ → Field
  place : Position → Field

unfoldable pub write : NetworkMessage → Field → NetworkMessage
write m (byte v) = add_byte m v
write m (word n v) = add n m v
write m (text s) = add_string m s
write m (place p) = add_position m p

unfoldable pub write_all : NetworkMessage → List Field → NetworkMessage
write_all m [] = m
write_all m (f ∷ fs) = write_all (write m f) fs

pub extend-IsWriting :
    (m : NetworkMessage) (bs : List ℕ)
    → IsWriting m
    → length bs + m.position < max_body_length
    → IsWriting (extend m bs)
extend-IsWriting m bs v h = omega arith

-- What a write may do: nothing to the bytes below the old position or above the limit, and the
-- position does not go back.
pub record Confined (m n : NetworkMessage) : Type 0 where
  pub forward : m.position ≤ n.position
  pub below : (i : ℕ) → i < m.position → n.buffer i ≡ m.buffer i
  pub above : (i : ℕ) → max_body_length ≤ i → n.buffer i ≡ m.buffer i
  pub writing : IsWriting n

Confined-refl : (m : NetworkMessage) → IsWriting m → Confined m m
Confined-refl m v = record {
  forward = omega arith;
  below = λ i h. refl;
  above = λ i h. refl;
  writing = v;
}

pub Confined-trans : (l m n : NetworkMessage) → Confined l m → Confined m n → Confined l n
Confined-trans l m n c d = record {
  forward = omega (arith, c.forward, d.forward);
  below = λ i h. d.below i (omega (arith, c.forward)) ∙ c.below i h;
  above = λ i h. d.above i h ∙ c.above i h;
  writing = d.writing;
}

extend-Confined :
    (m : NetworkMessage) (bs : List ℕ)
    → IsWriting m
    → length bs + m.position < max_body_length
    → Confined m (extend m bs)
extend-Confined m bs v h = record {
  forward = omega arith;
  below = λ i lt. write_bytes-before m.buffer m.position bs i lt;
  above = λ i le. write_bytes-after m.buffer m.position bs i (omega arith);
  writing = extend-IsWriting m bs v h;
}

can_add→lt : (m : NetworkMessage) (n : ℕ) → can_add m n ≡ true → n + m.position < max_body_length
unfolding can_add
can_add→lt m n h = ground arith

add_byte-Confined : (m : NetworkMessage) (v : ℕ) → IsWriting m → Confined m (add_byte m v)
unfolding add_byte
add_byte-Confined m v w = elim (Bool-cases (can_add m 1)) [
  | inl fits ↦ rw fits (extend-Confined m (v % 256 ∷ []) w (can_add→lt m 1 fits))
  | inr full ↦ rw full (Confined-refl m w)
]

add-Confined : (n : ℕ) (m : NetworkMessage) (v : ℕ) → IsWriting m → Confined m (add n m v)
unfolding add
add-Confined n m v w = elim (Bool-cases (can_add m n)) [
  | inl fits ↦
      rw fits (
        extend-Confined m (to_bytes n v) w
          (omega (arith, length-to_bytes n v, can_add→lt m n fits)))
  | inr full ↦ rw full (Confined-refl m w)
]

add_position-Confined :
    (m : NetworkMessage) (p : Position) → IsWriting m → Confined m (add_position m p)
unfolding add_position
add_position-Confined m p w =
    let x = add-Confined 2 m p.x w in
    let y = add-Confined 2 (add 2 m p.x) p.y x.writing in
    let z = add_byte-Confined (add 2 (add 2 m p.x) p.y) p.z y.writing in
    Confined-trans _ _ _ x (Confined-trans _ _ _ y z)

-- A text that fits in is its length, in two bytes, and its bytes.
pub add-fits :
    (n : ℕ) (m : NetworkMessage) (v : ℕ)
    → n + m.position < max_body_length
    → add n m v ≡ extend m (to_bytes n v)
unfolding add can_add
add-fits n m v h = ground arith

add_string-Confined : (m : NetworkMessage) (s : List ℕ) → IsWriting m → Confined m (add_string m s)
unfolding add_string
add_string-Confined m s w = elim (Bool-cases (can_add m (length s + 2))) [
  | inr full ↦ rw full (Confined-refl m w)
  | inl fits ↦ elim (Bool-cases (ltb 8192 (length s))) [
    | inl long ↦ rw (fits, long) (Confined-refl m w)
    | inr short ↦
        let room = can_add→lt m (length s + 2) fits in
        let e = add-fits 2 m (length s % u16_mod) (omega (arith, room)) in
        let head = add-Confined 2 m (length s % u16_mod) w in
        let moved : (add 2 m (length s % u16_mod)).position ≡ m.position + 2 =
          rw e (omega (arith, room, length-to_bytes 2 (length s % u16_mod))) in
        rw (fits, short)
          (Confined-trans _ _ _ head (
            extend-Confined (add 2 m (length s % u16_mod)) s head.writing
              (omega (arith, room, moved))))
  ]
]

pub write-Confined : (m : NetworkMessage) (f : Field) → IsWriting m → Confined m (write m f)
unfolding write
write-Confined m (byte v) w = add_byte-Confined m v w
write-Confined m (word n v) w = add-Confined n m v w
write-Confined m (text s) w = add_string-Confined m s w
write-Confined m (place p) w = add_position-Confined m p w

-- Whatever fields are written to a message that is being written, whether they fit or not, it is
-- still being written: its position is below the limit and eight bytes past its length. No byte
-- below the old position changes, and none at or above the limit.
pub write_all-Confined :
    (m : NetworkMessage) (fs : List Field) → IsWriting m → Confined m (write_all m fs)
unfolding write_all
write_all-Confined m [] w = Confined-refl m w
write_all-Confined m (f ∷ fs) w =
    let c = write-Confined m f w in
    Confined-trans m (write m f) _ c (write_all-Confined (write m f) fs c.writing)

-- A read inside the message gives its bytes and moves past them.
pub get-reads :
    (n : ℕ) (m : NetworkMessage) (bs : List ℕ)
    → m.position + n ≤ m.length + 8
    → n + m.position < max_body_length
    → read_bytes m.buffer m.position n ≡ bs
    → get n m ≡ (from_bytes bs, advance m n)
unfolding get can_read
get-reads n m bs h k e = let ok : can_read m n ≡ true = ground arith in rw (ok, e)

pub add_padding_bytes-fits :
    (m : NetworkMessage) (n : ℕ)
    → n + m.position < max_body_length
    → add_padding_bytes m n ≡ record m {
      buffer = write_bytes m.buffer m.position (replicate n 0x33);
      length = (m.length + n) % u16_mod;
    }
unfolding add_padding_bytes can_add
add_padding_bytes-fits m n h = ground arith
