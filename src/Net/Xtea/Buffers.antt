-- ===== src/Net/Xtea/Buffers.antt =====
-- The loop over a buffer: which bytes it changes, and that decryption undoes encryption in place.
use tib.Common.{
  ℕ, zero, suc, ◌+◌, ◌*◌, ◌≤◌, ◌<◌, ◌≡◌, ◌∙◌, refl, sym, ap, List, [], All, ◌++◌, arith,
}
use mathlib.Core.Path.{ap₂, subst}
use tib.Common.Bytes.{
  Buffer, write_bytes, read_bytes, to_bytes, from_bytes, IsByte, from_bytes-to_bytes,
  to_bytes-from_bytes, write_bytes-before, write_bytes-after, read_bytes-agree,
  read_bytes-write_bytes, read_bytes-append,
}
use tib.Common.Word.{u32_mod}
use tib.Net.Xtea.{cipher_at, cipher_blocks, encrypt_block, decrypt_block}
use tib.Net.Xtea.Blocks.{decrypt_block-encrypt_block, encrypt_block-IsWords}

module _ (f : ℕ × ℕ → ℕ × ℕ) where
  pub cipher_at-before : (buf : Buffer) (pos i : ℕ) → i < pos → cipher_at f buf pos i ≡ buf i
  unfolding cipher_at
  cipher_at-before buf pos i h =
      write_bytes-before _ (pos + 4) _ i (omega arith) ∙ write_bytes-before buf pos _ i h

  pub cipher_at-after : (buf : Buffer) (pos i : ℕ) → pos + 8 ≤ i → cipher_at f buf pos i ≡ buf i
  unfolding cipher_at to_bytes
  cipher_at-after buf pos i h =
      write_bytes-after _ (pos + 4) _ i (omega arith) ∙ write_bytes-after buf pos _ i (omega arith)

  pub cipher_blocks-before :
      (n : ℕ) (buf : Buffer) (pos i : ℕ) → i < pos → cipher_blocks f n buf pos i ≡ buf i
  unfolding cipher_blocks
  cipher_blocks-before zero buf pos i h = refl
  cipher_blocks-before (suc n) buf pos i h =
      cipher_blocks-before n (cipher_at f buf pos) (pos + 8) i (omega arith)
      ∙ cipher_at-before buf pos i h

  pub cipher_blocks-after :
      (n : ℕ) (buf : Buffer) (pos i : ℕ) → pos + 8 * n ≤ i → cipher_blocks f n buf pos i ≡ buf i
  unfolding cipher_blocks
  cipher_blocks-after zero buf pos i h = refl
  cipher_blocks-after (suc n) buf pos i h =
      cipher_blocks-after n (cipher_at f buf pos) (pos + 8) i (omega arith)
      ∙ cipher_at-after buf pos i (omega arith)

-- The two words at a position.
abbrev pub words_at : Buffer → ℕ → ℕ × ℕ
words_at buf pos = (from_bytes (read_bytes buf pos 4), from_bytes (read_bytes buf (pos + 4) 4))

abbrev pub bytes_of : ℕ × ℕ → List ℕ
bytes_of (w0, w1) = to_bytes 4 w0 ++ to_bytes 4 w1

-- From a position on the buffer holds bytes.
abbrev pub IsBytes : Buffer → ℕ → Type 0
IsBytes buf pos = (i : ℕ) → pos ≤ i → IsByte (buf i)

module _ (buf : Buffer) (pos w0 w1 : ℕ) where
  store_low :
      read_bytes (write_bytes (write_bytes buf pos (to_bytes 4 w0)) (pos + 4) (to_bytes 4 w1)) pos 4
      ≡ to_bytes 4 w0
  unfolding to_bytes
  store_low =
      read_bytes-agree _ (write_bytes buf pos (to_bytes 4 w0)) pos 4
        (λ i lo hi. write_bytes-before _ (pos + 4) (to_bytes 4 w1) i hi)
      ∙ read_bytes-write_bytes buf pos (to_bytes 4 w0)

  store_high :
      read_bytes
        (write_bytes (write_bytes buf pos (to_bytes 4 w0)) (pos + 4) (to_bytes 4 w1))
        (pos + 4)
        4
      ≡ to_bytes 4 w1
  unfolding to_bytes
  store_high = read_bytes-write_bytes _ (pos + 4) (to_bytes 4 w1)

module _ (f : ℕ × ℕ → ℕ × ℕ) (buf : Buffer) (pos : ℕ) where
  cipher_at-bytes : read_bytes (cipher_at f buf pos) pos 8 ≡ bytes_of (f (words_at buf pos))
  unfolding cipher_at
  cipher_at-bytes =
      let w = f (words_at buf pos) in
      read_bytes-append (cipher_at f buf pos) pos 4 4
      ∙ ap₂ ◌++◌ (store_low buf pos w.0 w.1) (store_high buf pos w.0 w.1)

  words_at-cipher_at :
      (f (words_at buf pos)).0 < u32_mod
      → (f (words_at buf pos)).1 < u32_mod
      → words_at (cipher_at f buf pos) pos ≡ f (words_at buf pos)
  unfolding cipher_at
  words_at-cipher_at h k =
      let w = f (words_at buf pos) in
      λ i. (
        (ap from_bytes (store_low buf pos w.0 w.1) ∙ from_bytes-to_bytes 4 w.0 h) i,
        (ap from_bytes (store_high buf pos w.0 w.1) ∙ from_bytes-to_bytes 4 w.1 k) i,
      )

word_at-bytes : (buf : Buffer) (pos : ℕ) → IsBytes buf pos → All IsByte (read_bytes buf pos 4)
unfolding read_bytes
word_at-bytes buf pos h = (
  h pos (omega arith),
  (
    h (pos + 1) (omega arith),
    (h (pos + 1 + 1) (omega arith), (h (pos + 1 + 1 + 1) (omega arith), tt)),
  ),
)

word_at-lt :
    (buf : Buffer) (pos : ℕ) → IsBytes buf pos → from_bytes (read_bytes buf pos 4) < u32_mod
unfolding read_bytes from_bytes
word_at-lt buf pos h = omega (arith, word_at-bytes buf pos h)

bytes_of-words_at :
    (buf : Buffer) (pos : ℕ) → IsBytes buf pos → bytes_of (words_at buf pos) ≡ read_bytes buf pos 8
unfolding read_bytes
bytes_of-words_at buf pos h =
    ap₂ ◌++◌ (to_bytes-from_bytes (read_bytes buf pos 4) (word_at-bytes buf pos h)) (
      to_bytes-from_bytes (read_bytes buf (pos + 4) 4)
        (word_at-bytes buf (pos + 4) (λ i le. h i (omega arith))))
    ∙ sym (read_bytes-append buf pos 4 4)

-- The reference: the ciphered blocks of the original buffer, one after the other.
pub cipher_list : (ℕ × ℕ → ℕ × ℕ) → ℕ → Buffer → ℕ → List ℕ
cipher_list f zero buf pos = []
cipher_list f (suc n) buf pos = bytes_of (f (words_at buf pos)) ++ cipher_list f n buf (pos + 8)

abbrev pub Agree : Buffer → Buffer → ℕ → Type 0
Agree g h pos = (i : ℕ) → pos ≤ i → g i ≡ h i

words_at-agree :
    (g h : Buffer) (pos : ℕ)
    → ((i : ℕ) → pos ≤ i → i < pos + 8 → g i ≡ h i)
    → words_at g pos ≡ words_at h pos
words_at-agree g h pos same = λ i. (
  from_bytes (read_bytes-agree g h pos 4 (λ j lo hi. same j lo (omega arith)) i),
  from_bytes (read_bytes-agree g h (pos + 4) 4 (λ j lo hi. same j (omega arith) (omega arith)) i),
)

pub cipher_list_congr :
    (f : ℕ × ℕ → ℕ × ℕ) (n : ℕ) (g h : Buffer) (pos : ℕ)
    → Agree g h pos
    → cipher_list f n g pos ≡ cipher_list f n h pos
unfolding cipher_list
cipher_list_congr f zero g h pos same = refl
cipher_list_congr f (suc n) g h pos same =
    ap₂ ◌++◌ (ap (λ w. bytes_of (f w)) (words_at-agree g h pos (λ i lo _. same i lo)))
      (cipher_list_congr f n g h (pos + 8) (λ i le. same i (omega arith)))

-- The first block of the run is final once the loop has passed it.
first_block :
    (f : ℕ × ℕ → ℕ × ℕ) (n : ℕ) (buf : Buffer) (pos i : ℕ)
    → i < pos + 8
    → cipher_blocks f (suc n) buf pos i ≡ cipher_at f buf pos i
unfolding cipher_blocks
first_block f n buf pos i h = cipher_blocks-before f n (cipher_at f buf pos) (pos + 8) i h

-- The loop in place leaves, in the range that it covers, what ciphering the blocks of the original
-- buffer one after the other gives.
pub cipher_blocks-cipher_list :
    (f : ℕ × ℕ → ℕ × ℕ) (n : ℕ) (buf : Buffer) (pos : ℕ)
    → read_bytes (cipher_blocks f n buf pos) pos (8 * n) ≡ cipher_list f n buf pos
unfolding cipher_list read_bytes cipher_blocks
cipher_blocks-cipher_list f zero buf pos = refl
cipher_blocks-cipher_list f (suc n) buf pos =
    let out = cipher_blocks f (suc n) buf pos in
    let e : 8 * suc n ≡ 8 + 8 * n = omega arith in
    ap (read_bytes out pos) e
    ∙ read_bytes-append out pos 8 (8 * n)
    ∙ ap₂ ◌++◌
        (read_bytes-agree out (cipher_at f buf pos) pos 8 (λ i lo hi. first_block f n buf pos i hi)
          ∙ cipher_at-bytes f buf pos)
        (cipher_blocks-cipher_list f n (cipher_at f buf pos) (pos + 8)
          ∙ cipher_list_congr f n (cipher_at f buf pos) buf (pos + 8)
              (λ i le. cipher_at-after f buf pos i le))

module _ (key : ℕ → ℕ) where
  block_undone :
      (n : ℕ) (buf : Buffer) (pos : ℕ)
      → IsBytes buf pos
      → bytes_of
          (decrypt_block key (words_at (cipher_blocks (encrypt_block key) (suc n) buf pos) pos))
        ≡ read_bytes buf pos 8
  block_undone n buf pos h =
      let e = encrypt_block key in
      let w = words_at buf pos in
      let small = encrypt_block-IsWords key w in
      ap (λ v. bytes_of (decrypt_block key v))
        (words_at-agree _ (cipher_at e buf pos) pos (λ i lo hi. first_block e n buf pos i hi)
          ∙ words_at-cipher_at e buf pos small.0 small.1)
      ∙ ap bytes_of (
          decrypt_block-encrypt_block key w.0 w.1 (word_at-lt buf pos h)
            (word_at-lt buf (pos + 4) (λ i le. h i (omega arith))))
      ∙ bytes_of-words_at buf pos h

  pub cipher_list_undone :
      (n : ℕ) (buf : Buffer) (pos : ℕ)
      → IsBytes buf pos
      → cipher_list (decrypt_block key) n (cipher_blocks (encrypt_block key) n buf pos) pos
        ≡ read_bytes buf pos (8 * n)
  unfolding cipher_list read_bytes cipher_blocks
  cipher_list_undone zero buf pos h = refl
  cipher_list_undone (suc n) buf pos h =
      let e = encrypt_block key in
      let after = cipher_at-after e buf pos in
      let e8 : 8 * suc n ≡ 8 + 8 * n = omega arith in
      let kept : IsBytes (cipher_at e buf pos) (pos + 8) =
        λ i le. subst IsByte (sym (after i le)) (h i (omega arith)) in
      ap₂ ◌++◌ (block_undone n buf pos h) (
        cipher_list_undone n (cipher_at e buf pos) (pos + 8) kept
        ∙ read_bytes-agree (cipher_at e buf pos) buf (pos + 8) (8 * n) (λ i lo hi. after i lo))
      ∙ sym (ap (read_bytes buf pos) e8 ∙ read_bytes-append buf pos 8 (8 * n))

  -- Under every key, decrypting in place the blocks that were encrypted in place gives back the
  -- bytes of the buffer, for every number of blocks at every position.
  pub decrypt_blocks-encrypt_blocks :
      (n : ℕ) (buf : Buffer) (pos : ℕ)
      → IsBytes buf pos
      → read_bytes
          (cipher_blocks (decrypt_block key) n (cipher_blocks (encrypt_block key) n buf pos) pos)
          pos
          (8 * n)
        ≡ read_bytes buf pos (8 * n)
  decrypt_blocks-encrypt_blocks n buf pos h =
      cipher_blocks-cipher_list (decrypt_block key) n (cipher_blocks (encrypt_block key) n buf pos)
        pos
      ∙ cipher_list_undone n buf pos h
