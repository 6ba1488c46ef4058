-- ===== src/Net/Message/Reading.antt =====
-- Fields and their bytes, and reading them from a message that holds those bytes.
use tib.Common.{
  ℕ, ◌+◌, ◌%◌, ◌^◌, ◌≤◌, ◌<◌, ◌≡◌, ◌∙◌, refl, ap, true, List, [], ◌∷◌, ◌++◌, arith, length,
  length-append, All,
}
use tib.Common.Bytes.{read_bytes, to_bytes, length-to_bytes, from_bytes-to_bytes, read_bytes-split}
use tib.Common.Word.{u16_mod}
use tib.Net.Message.{
  NetworkMessage, Position, max_body_length, can_read, advance, get_byte, get, take_string,
  get_string, get_position,
}
use tib.Net.Message.Layout.{Field, byte, word, text, place}

-- The bytes of a field.
abbrev pub encode : Field → List ℕ
encode (byte v) = v % 256 ∷ []
encode (word n v) = to_bytes n v
encode (text s) = to_bytes 2 (length s % u16_mod) ++ s
encode (place p) = to_bytes 2 p.x ++ (to_bytes 2 p.y ++ (p.z % 256 ∷ []))

abbrev pub encode_all : List Field → List ℕ
encode_all [] = []
encode_all (f ∷ fs) = encode f ++ encode_all fs

-- The values that a field can carry.
abbrev pub Fits : Field → Type 0
Fits (byte v) = v < 256
Fits (word n v) = v < 256 ^ n
Fits (text s) = length s ≤ 8192
Fits (place p) = (p.x < 65536) × (p.y < 65536) × (p.z < 256)

-- A read of the shape of the field `f`, with the value that was found.
pub read : NetworkMessage → Field → Field × NetworkMessage
read m (byte v) = let (w, m') = get_byte m in (byte w, m')
read m (word n v) = let (w, m') = get n m in (word n w, m')
read m (text s) = let (w, m') = get_string 0 m in (text w, m')
read m (place p) = let (w, m') = get_position m in (place w, m')

pub read_all : NetworkMessage → List Field → List Field × NetworkMessage
read_all m [] = ([], m)
read_all m (f ∷ fs) = let (g, m') = read m f in let (gs, m'') = read_all m' fs in (g ∷ gs, m'')

-- From its position on the message holds these bytes, and may read them.
pub record Holds (m : NetworkMessage) (bs : List ℕ) : Type 0 where
  pub bytes : read_bytes m.buffer m.position (length bs) ≡ bs
  pub room : m.position + length bs ≤ m.length + 8
  pub below : m.position + length bs < max_body_length

Holds-split :
    (m : NetworkMessage) (cs bs : List ℕ)
    → Holds m (cs ++ bs)
    → Holds m cs × Holds (advance m (length cs)) bs
Holds-split m cs bs h =
    let both = read_bytes-split m.buffer m.position cs bs h.bytes in
    let sum = length-append cs bs in
    let moved : (m.position + length cs) % u16_mod ≡ m.position + length cs =
      omega (arith, h.below, sum) in
    (
      record {
        bytes = both.0;
        room = omega (arith, h.room, sum);
        below = omega (arith, h.below, sum);
      },
      record {
        bytes = rw moved both.1;
        room = omega (arith, h.room, sum, moved);
        below = omega (arith, h.below, sum, moved);
      },
    )

can_read-Holds : (m : NetworkMessage) (bs : List ℕ) → Holds m bs → can_read m (length bs) ≡ true
unfolding can_read
can_read-Holds m bs h = ground (arith, h.room, h.below)

get-Holds :
    (n v : ℕ) (m : NetworkMessage)
    → v < 256 ^ n
    → Holds m (to_bytes n v)
    → get n m ≡ (v, advance m n)
unfolding get
get-Holds n v m small h =
    let len = length-to_bytes n v in
    let ok = rw len at (can_read-Holds m (to_bytes n v) h) in
    rw (ok, rw len at h.bytes, from_bytes-to_bytes n v small)

get_byte-Holds :
    (v : ℕ) (m : NetworkMessage) → v < 256 → Holds m (v % 256 ∷ []) → get_byte m ≡ (v, advance m 1)
unfolding get_byte read_bytes
get_byte-Holds v m small h =
    let ok = can_read-Holds m (v % 256 ∷ []) h in
    let found : m.buffer m.position ≡ v = ground (arith, h.bytes) in rw (ok, found)

take_string-Holds :
    (s : List ℕ) (m : NetworkMessage)
    → Holds m s
    → take_string (length s) m ≡ (s, advance m (length s))
unfolding take_string
take_string-Holds s m h = rw (can_read-Holds m s h, h.bytes)

advance-advance : (m : NetworkMessage) (j k : ℕ) → advance (advance m j) k ≡ advance m (j + k)
advance-advance m j k = λ i. record m { position = same i }
  where
    same : ((m.position + j) % u16_mod + k) % u16_mod ≡ (m.position + (j + k)) % u16_mod
    same = omega arith

get_string-Holds :
    (s : List ℕ) (m : NetworkMessage)
    → length s ≤ 8192
    → Holds m (encode (text s))
    → get_string 0 m ≡ (s, advance m (length (encode (text s))))
unfolding get_string
get_string-Holds s m short h =
    let parts = Holds-split m (to_bytes 2 (length s % u16_mod)) s h in
    let len : length s % u16_mod ≡ length s = omega arith in
    let size = length-to_bytes 2 (length s % u16_mod) in
    let first = get-Holds 2 (length s % u16_mod) m (omega arith) parts.0 in
    let second = take_string-Holds s (advance m 2) (rw size at parts.1) in
    rw (
      first,
      len,
      second,
      advance-advance m 2 (length s),
      length-append (to_bytes 2 (length s)) s,
      length-to_bytes 2 (length s),
    )

get_position-Holds :
    (p : Position) (m : NetworkMessage)
    → Fits (place p)
    → Holds m (encode (place p))
    → get_position m ≡ (p, advance m 5)
unfolding get_position
get_position-Holds p m fits h =
    let xs = Holds-split m (to_bytes 2 p.x) (to_bytes 2 p.y ++ (p.z % 256 ∷ [])) h in
    let ys =
      Holds-split (advance m 2) (to_bytes 2 p.y) (p.z % 256 ∷ [])
        (rw (length-to_bytes 2 p.x) at xs.1) in
    let x = get-Holds 2 p.x m (omega arith) xs.0 in
    let y = get-Holds 2 p.y (advance m 2) (omega arith) ys.0 in
    let z =
      get_byte-Holds p.z (advance (advance m 2) 2) fits.2 (rw (length-to_bytes 2 p.y) at ys.1) in
    rw (x, y, z)
      (ap (λ a. (p, a)) (ap (λ a. advance a 1) (advance-advance m 2 2) ∙ advance-advance m 4 1))

read-Holds :
    (m : NetworkMessage) (f : Field)
    → Fits f
    → Holds m (encode f)
    → read m f ≡ (f, advance m (length (encode f)))
unfolding read
read-Holds m (byte v) fits h = rw (get_byte-Holds v m fits h)
read-Holds m (word n v) fits h = rw (get-Holds n v m fits h, length-to_bytes n v)
read-Holds m (text s) fits h = rw (get_string-Holds s m fits h)
read-Holds m (place p) fits h = rw (
  get_position-Holds p m fits h,
  length-append (to_bytes 2 p.x) (to_bytes 2 p.y ++ (p.z % 256 ∷ [])),
  length-append (to_bytes 2 p.y) (p.z % 256 ∷ []),
  length-to_bytes 2 p.x,
  length-to_bytes 2 p.y,
)

pub read_all-Holds :
    (fs : List Field) (m : NetworkMessage)
    → All Fits fs
    → Holds m (encode_all fs)
    → (read_all m fs).0 ≡ fs
unfolding read_all
read_all-Holds [] m fits h = refl
read_all-Holds (f ∷ fs) m fits h =
    let parts = Holds-split m (encode f) (encode_all fs) h in
    rw (read-Holds m f fits.0 parts.0)
      (ap (λ gs. f ∷ gs) (read_all-Holds fs (advance m (length (encode f))) fits.1 parts.1))
