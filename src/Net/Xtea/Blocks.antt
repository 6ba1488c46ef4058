-- ===== src/Net/Xtea/Blocks.antt =====
-- One block: the rounds of the decryption undo those of the encryption.
use tib.Common.{ℕ, zero, suc, ◌%◌, ◌<◌, ◌≡◌, ◌∙◌, refl, sym, ap, arith}
use mathlib.Core.Path.{subst}
use tib.Common.Word.{u32_mod, add_u32, sub_u32}
use tib.Net.Xtea.{
  delta, last_sum, Words, scramble, encrypt_round, decrypt_round, encrypt_rounds, decrypt_rounds,
  encrypt_block, decrypt_block,
}

sub_u32-add_u32 : (a b : ℕ) → a < u32_mod → sub_u32 (add_u32 a b) b ≡ a
sub_u32-add_u32 a b h = omega arith

add_u32-sub_u32 : (a b : ℕ) → a < u32_mod → add_u32 (sub_u32 a b) b ≡ a
add_u32-sub_u32 a b h = omega arith

abbrev pub IsWords : Words → Type 0
IsWords w = (w.v0 < u32_mod) × (w.v1 < u32_mod) × (w.sum < u32_mod)

-- The sum after some rounds, which does not depend on the words.
sum_after : ℕ → ℕ → ℕ
sum_after zero sum = sum
sum_after (suc n) sum = sum_after n (sub_u32 sum delta)

sum_after_32 : sum_after 32 0 ≡ last_sum
unfolding sum_after
sum_after_32 = refl

module _ (key : ℕ → ℕ) where
  encrypt_round-IsWords : (w : Words) → IsWords (encrypt_round key w)
  unfolding encrypt_round
  encrypt_round-IsWords w = omega arith

  undo_v0 :
      (w : Words) (v1 sum : ℕ)
      → IsWords w
      → v1 ≡ w.v1
      → sum ≡ w.sum
      → sub_u32 (encrypt_round key w).v0 (scramble v1 sum (key (sum % 4))) ≡ w.v0
  unfolding encrypt_round
  undo_v0 w v1 sum h e s =
      rw (e, s) (sub_u32-add_u32 w.v0 (scramble w.v1 w.sum (key (w.sum % 4))) h.0)

  undo_v1 : (w : Words) → IsWords w → (decrypt_round key (encrypt_round key w)).v1 ≡ w.v1
  unfolding encrypt_round decrypt_round
  undo_v1 w h = sub_u32-add_u32 w.v1 _ h.1

  undo_sum : (w : Words) → IsWords w → (decrypt_round key (encrypt_round key w)).sum ≡ w.sum
  unfolding encrypt_round decrypt_round
  undo_sum w h = add_u32-sub_u32 w.sum delta h.2

  decrypt_round-encrypt_round :
      (w : Words) → IsWords w → decrypt_round key (encrypt_round key w) ≡ w
  unfolding decrypt_round
  decrypt_round-encrypt_round w h = λ i. record {
    v0 = undo_v0 w _ _ h (undo_v1 w h) (undo_sum w h) i;
    v1 = undo_v1 w h i;
    sum = undo_sum w h i;
  }

  encrypt_rounds-IsWords : (n : ℕ) (w : Words) → IsWords w → IsWords (encrypt_rounds key n w)
  unfolding encrypt_rounds
  encrypt_rounds-IsWords zero w h = h
  encrypt_rounds-IsWords (suc n) w h =
      encrypt_rounds-IsWords n (encrypt_round key w) (encrypt_round-IsWords w)

  -- The last round can be taken off at the end.
  encrypt_rounds-suc :
      (n : ℕ) (w : Words)
      → encrypt_rounds key (suc n) w ≡ encrypt_round key (encrypt_rounds key n w)
  unfolding encrypt_rounds
  encrypt_rounds-suc zero w = refl
  encrypt_rounds-suc (suc n) w = encrypt_rounds-suc n (encrypt_round key w)

  decrypt_rounds-encrypt_rounds :
      (n : ℕ) (w : Words) → IsWords w → decrypt_rounds key n (encrypt_rounds key n w) ≡ w
  unfolding encrypt_rounds decrypt_rounds
  decrypt_rounds-encrypt_rounds zero w h = refl
  decrypt_rounds-encrypt_rounds (suc n) w h =
      let undo =
        decrypt_round-encrypt_round (encrypt_rounds key n w) (encrypt_rounds-IsWords n w h) in
      ap (λ v. decrypt_rounds key n (decrypt_round key v)) (encrypt_rounds-suc n w)
      ∙ ap (decrypt_rounds key n) undo
      ∙ decrypt_rounds-encrypt_rounds n w h

  encrypt_rounds-sum : (n : ℕ) (w : Words) → (encrypt_rounds key n w).sum ≡ sum_after n w.sum
  unfolding encrypt_rounds sum_after encrypt_round
  encrypt_rounds-sum zero w = refl
  encrypt_rounds-sum (suc n) w = encrypt_rounds-sum n (encrypt_round key w)

  -- Under every key the decryption of an encrypted block of two 32-bit words is that block: the sum
  -- at which it starts is the one at which the encryption ended.
  pub decrypt_block-encrypt_block :
      (v0 v1 : ℕ)
      → v0 < u32_mod
      → v1 < u32_mod
      → decrypt_block key (encrypt_block key (v0, v1)) ≡ (v0, v1)
  unfolding decrypt_block encrypt_block
  decrypt_block-encrypt_block v0 v1 h k =
      let start : Words = record { v0 = v0; v1 = v1; sum = 0 } in
      let last = encrypt_rounds key 32 start in
      let sum : last_sum ≡ last.sum = sym sum_after_32 ∙ sym (encrypt_rounds-sum 32 start) in
      ap
        (λ s.
          let w = decrypt_rounds key 32 (record { v0 = last.v0; v1 = last.v1; sum = s }) in
          (w.v0, w.v1))
        sum
      ∙ ap (λ (w : Words). (w.v0, w.v1)) (decrypt_rounds-encrypt_rounds 32 start (omega arith))

  pub encrypt_block-IsWords :
      (v : ℕ × ℕ) → ((encrypt_block key v).0 < u32_mod) × ((encrypt_block key v).1 < u32_mod)
  unfolding encrypt_block
  encrypt_block-IsWords (v0, v1) =
      let w : Words = record { v0 = v0; v1 = v1; sum = 0 } in
      let h =
        subst IsWords (sym (encrypt_rounds-suc 31 w))
          (encrypt_round-IsWords (encrypt_rounds key 31 w)) in
      (h.0, h.1)
