-- ===== src/Net/Protocol/Padding.antt =====
-- The outgoing message up to its encryption: the length in front, and the padding behind.
use tib.Common.{
  ℕ, ◌+◌, ◌-◌, ◌%◌, ◌≤◌, ◌<◌, ◌≡◌, ◌≢◌, refl, inl, inr, arith, replicate, All, ◌==◌, Bool-cases,
  zero, suc,
}
use tib.Common.Bytes.{
  Buffer, read_bytes, to_bytes, IsByte, length-to_bytes, to_bytes-IsByte, write_bytes-before,
  write_bytes-after, read_bytes-write_bytes, IsByte-write_bytes,
}
use tib.Common.Word.{u16_mod}
use tib.Net.Message.{max_body_length}
use tib.Net.Message.Layout.{add_padding_bytes-fits}
use tib.Net.Protocol.{OutputMessage, add_header, pad}

abbrev pub AllBytes : Buffer → Type 0
AllBytes buf = (i : ℕ) → IsByte (buf i)

-- What padding does to a message with room for it.
pub record IsPadded (m p : OutputMessage) : Type 0 where
  pub whole : p.length % 8 ≡ 0
  pub longer : m.length ≤ p.length
  pub not_much : p.length ≤ m.length + 7
  pub start : p.output_buffer_start ≡ m.output_buffer_start
  pub kept : (i : ℕ) → i < m.position → p.buffer i ≡ m.buffer i
  pub bytes : AllBytes p.buffer

filler-IsByte : (n : ℕ) → All IsByte (replicate n 0x33)
filler-IsByte zero = tt
filler-IsByte (suc n) = (omega arith, filler-IsByte n)

pub pad-IsPadded :
    (m : OutputMessage)
    → 8 + m.position < max_body_length
    → m.length + 8 < u16_mod
    → AllBytes m.buffer
    → IsPadded m (pad m)
unfolding pad
pad-IsPadded m h k bytes = elim (Bool-cases (m.length % 8 == 0)) [
  | inl e ↦ rw e (record {
    whole = ground arith;
    longer = omega arith;
    not_much = omega arith;
    start = refl;
    kept = λ i lt. refl;
    bytes = bytes;
  })
  | inr e ↦
      let fill = 8 - m.length % 8 in
      let short : m.length % 8 ≢ 0 = ground arith in
      rw (e, add_padding_bytes-fits m.message fill (omega arith))
        (record {
          whole = omega arith;
          longer = omega arith;
          not_much = omega arith;
          start = refl;
          kept = λ i lt. write_bytes-before m.buffer m.position (replicate fill 0x33) i lt;
          bytes =
              IsByte-write_bytes m.buffer m.position (replicate fill 0x33) bytes
                (filler-IsByte fill);
        })
]

-- A number in front of a message moves its start back and leaves what stands from the start on.
pub record IsHeaded (m h : OutputMessage) (n v : ℕ) : Type 0 where
  pub start : h.output_buffer_start + n ≡ m.output_buffer_start
  pub size : h.length ≡ m.length + n
  pub header : read_bytes h.buffer h.output_buffer_start n ≡ to_bytes n v
  pub kept : (i : ℕ) → m.output_buffer_start ≤ i → h.buffer i ≡ m.buffer i
  pub position : h.position ≡ m.position
  pub bytes : AllBytes m.buffer → AllBytes h.buffer

pub add_header-IsHeaded :
    (n : ℕ) (m : OutputMessage) (v : ℕ)
    → n ≤ m.output_buffer_start
    → m.output_buffer_start < u16_mod
    → m.length + n < u16_mod
    → IsHeaded m (add_header n m v) n v
unfolding add_header
add_header-IsHeaded n m v h k l =
    let back : (m.output_buffer_start + u16_mod - n) % u16_mod + n ≡ m.output_buffer_start =
      omega arith in
    let start = (m.output_buffer_start + u16_mod - n) % u16_mod in
    let size = length-to_bytes n v in
    record {
      start = back;
      size = omega arith;
      header = rw size at (read_bytes-write_bytes m.buffer start (to_bytes n v));
      kept = λ i le. write_bytes-after m.buffer start (to_bytes n v) i (omega (arith, size, back));
      position = refl;
      bytes = λ all. IsByte-write_bytes m.buffer start (to_bytes n v) all (to_bytes-IsByte n v);
    }
