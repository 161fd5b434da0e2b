-- ===== src/Network/Xtea/Inverse.antt =====
-- Decryption undoes encryption, round by round: the schedule of sums that `decrypt` walks down is
-- the one that `encrypt` walks up.
use Prim.Native.Nat.{bit_xor, bit_and}
use forgotten_land.Base.{
  ℕ, zero, suc, ◌*◌, ◌/◌, ◌^◌, ◌<◌, ◌≡◌, refl, sym, ap, ◌∙◌, List, Option, none, some, ◌>>=◌,
  length, arith,
}
use mathlib.Core.Path.{fun_ext}
use forgotten_land.Base.Words.{u32, add32, sub32, add32-lt, sub32-add32}
use forgotten_land.Network.Xtea.{
  Key, Halves, delta, mix, apply_rounds, encrypt_round, decrypt_round, encrypt_loop, decrypt_loop,
  encrypt, decrypt,
}
use forgotten_land.Network.Xtea.Blocks.{IsBlocks, IsHalves, apply_rounds-undo}

module _ (k : Key) where
  encrypt_round-IsHalves : (s n : ℕ) (p : Halves) → IsHalves (encrypt_round k s n p)
  unfolding encrypt_round
  encrypt_round-IsHalves s n p = (add32-lt _ _, add32-lt _ _)

  -- The two sums change places.
  pub decrypt_round-encrypt_round :
      (s n : ℕ) (p : Halves) → IsHalves p → decrypt_round k n s (encrypt_round k s n p) ≡ p
  unfolding encrypt_round decrypt_round
  decrypt_round-encrypt_round s n (left, right) h =
      let e = sub32-add32 left (bit_xor (mix right) (add32 s (k (bit_and s 3)))) h.0 in
      let left' = add32 left (bit_xor (mix right) (add32 s (k (bit_and s 3)))) in
      let d = sub32-add32 right (bit_xor (mix left') (add32 n (k (bit_and (n / 2 ^ 11) 3)))) h.1 in
      rw (d, e)

-- The sum after `r` more rounds.
sum_after : ℕ → ℕ → ℕ
sum_after zero s = s
sum_after (suc r) s = sum_after r (add32 s delta)

sum_after-lt : (r s : ℕ) → s < 2 ^ 32 → sum_after r s < 2 ^ 32
unfolding sum_after
sum_after-lt zero s h = h
sum_after-lt (suc r) s h = sum_after-lt r (add32 s delta) (add32-lt s delta)

sum_after_step : (r s : ℕ) → sum_after (suc r) s ≡ add32 (sum_after r s) delta
unfolding sum_after
sum_after_step zero s = refl
sum_after_step (suc r) s = sum_after_step r (add32 s delta)

sum_after-suc :
    (r s : ℕ) → (sum_after (suc r) s ≡ sum_after r (add32 s delta)) × (sum_after zero s ≡ s)
unfolding sum_after
sum_after-suc r s = (refl, refl)

sum_before : (r s : ℕ) → s < 2 ^ 32 → sub32 (sum_after (suc r) s) delta ≡ sum_after r s
sum_before r s h = rw (sum_after_step r s) (sub32-add32 (sum_after r s) delta (sum_after-lt r s h))

>>=-some {ℓ} : {A : Type ℓ} (m : Option A) → (m >>= some) ≡ m
>>=-some none = refl
>>=-some (some a) = refl

>>=-assoc {ℓ} :
    {A : Type ℓ} (m : Option A) (f g : A → Option A) → (m >>= f >>= g) ≡ (m >>= (λ a. f a >>= g))
>>=-assoc none f g = refl
>>=-assoc (some a) f g = refl

-- The loop of `decrypt` from the sum after `r` rounds.
abbrev undo_from : Key → ℕ → ℕ → List ℕ → Option (List ℕ)
undo_from k r sum bytes = decrypt_loop r sum (sub32 sum delta) k bytes

-- Its last round can be split off.
undo_from_last :
    (k : Key) (r s : ℕ) (bytes : List ℕ)
    → s < 2 ^ 32
    → undo_from k (suc r) (sum_after (suc r) s) bytes ≡ (
        undo_from k r (sum_after (suc r) s) bytes
        >>= apply_rounds (decrypt_round k (add32 s delta) s))
unfolding decrypt_loop
undo_from_last k zero s bytes h =
    let e : sub32 (sum_after 1 s) delta ≡ s = sum_before 0 s h ∙ (sum_after-suc 0 s).1 in
    let d : sum_after 1 s ≡ add32 s delta =
      (sum_after-suc 0 s).0 ∙ (sum_after-suc 0 (add32 s delta)).1 in
    rw (e, d) (>>=-some (apply_rounds (decrypt_round k (add32 s delta) s) bytes))
undo_from_last k (suc r) s bytes h =
    let e = sum_before (suc r) s h in
    let last = apply_rounds (decrypt_round k (add32 s delta) s) in
    let sum = sum_after (suc (suc r)) s in
    let first = apply_rounds (decrypt_round k sum (sum_after (suc r) s)) bytes in
    rw e (
      ap (λ g. first >>= g) (fun_ext (λ out. undo_from_last k r s out h))
      ∙ sym (>>=-assoc first (undo_from k r (sum_after (suc r) s)) last))

-- From any sum, on whole blocks: the rounds succeed, keep the length, and are undone.
undo_from-encrypt_loop :
    (k : Key) (r s : ℕ) (bytes : List ℕ)
    → s < 2 ^ 32
    → IsBlocks bytes
    → (out : List ℕ) × (encrypt_loop r s (add32 s delta) k bytes ≡ some out)
      × IsBlocks out
      × (length out ≡ length bytes)
      × (undo_from k r (sum_after r s) out ≡ some bytes)
unfolding encrypt_loop decrypt_loop
undo_from-encrypt_loop k zero s bytes h whole = (bytes, refl, whole, refl, refl)
undo_from-encrypt_loop k (suc r) s bytes h whole =
    let s' = add32 s delta in
    let (mid, to_mid, mid_whole, mid_same, back) =
      apply_rounds-undo (encrypt_round k s s') (decrypt_round k s' s)
        (encrypt_round-IsHalves k s s') (decrypt_round-encrypt_round k s s') bytes whole in
    let (out, to_out, out_whole, same, undone) =
      undo_from-encrypt_loop k r s' mid (add32-lt s delta) mid_whole in
    (
      out,
      rw to_mid to_out,
      out_whole,
      same ∙ mid_same,
      undo_from_last k r s out h ∙ rw ((sum_after-suc r s).0, undone) back,
    )

-- The schedule's end is `delta << 5` in 32 bits.
sum_after_rounds : sum_after 32 0 ≡ u32 (delta * 2 ^ 5)
unfolding sum_after add32
sum_after_rounds = refl

-- Under every key, encrypting any number of whole blocks of bytes succeeds, keeps the length and
-- yields whole blocks of bytes, and decrypting the result under the same key gives the data back.
pub decrypt-encrypt :
    (k : Key) (bytes : List ℕ)
    → IsBlocks bytes
    → (out : List ℕ) × (encrypt k bytes ≡ some out)
      × IsBlocks out
      × (length out ≡ length bytes)
      × (decrypt k out ≡ some bytes)
unfolding encrypt decrypt
decrypt-encrypt k bytes whole =
    let (out, done, blocks, same, undone) =
      undo_from-encrypt_loop k 32 0 bytes (omega arith) whole in
    (out, done, blocks, same, rw sum_after_rounds at undone)
