-- ===== src/Network/Xtea.antt =====
-- src/security/xtea.cpp: the XTEA cipher over a stretch of memory, 32 rounds, each over all
-- blocks of 8 bytes in place. The data is the list of its bytes. A stretch that is no multiple of
-- 8 would be read past its end: `none`.
pub mod Blocks
pub mod Inverse
use Prim.Native.Nat.{bit_or, bit_xor, bit_and}
use forgotten_land.Base.{ℕ, zero, suc, ◌+◌, ◌*◌, ◌/◌, ◌^◌, List, [], ◌∷◌, Option, none, some, ◌>>=◌}
use forgotten_land.Base.Words.{u8, u32, add32, sub32}

-- `std::array<uint32_t, 4>`, read at an index below 4.
abbrev pub Key : Type 0
Key = ℕ → ℕ

-- The two halves of a block.
abbrev pub Halves : Type 0
Halves = ℕ × ℕ

abbrev pub delta : ℕ
delta = 0x9E3779B9

-- `a | b << 8u | c << 16u | d << 24u`
unfoldable pub word_of : ℕ → ℕ → ℕ → ℕ → ℕ
word_of a b c d = bit_or (bit_or (bit_or a (b * 2 ^ 8)) (c * 2 ^ 16)) (d * 2 ^ 24)

-- The eight bytes written back, in front of those behind them.
abbrev pub store_block : Halves → List ℕ → List ℕ
store_block (left, right) rest =
    u8 left
    ∷ u8 (left / 2 ^ 8)
    ∷ u8 (left / 2 ^ 16)
    ∷ u8 (left / 2 ^ 24)
    ∷ u8 right
    ∷ u8 (right / 2 ^ 8)
    ∷ u8 (right / 2 ^ 16)
    ∷ u8 (right / 2 ^ 24)
    ∷ rest

-- The loop over the blocks.
unfoldable pub apply_rounds : (Halves → Halves) → List ℕ → Option (List ℕ)
apply_rounds round [] = some []
apply_rounds round (a ∷ b ∷ c ∷ d ∷ e ∷ f ∷ g ∷ h ∷ rest) = do
  out ← apply_rounds round rest
  some (store_block (round (word_of a b c d, word_of e f g h)) out)
apply_rounds round _ = none

-- `(v << 4 ^ v >> 5) + v`
unfoldable pub mix : ℕ → ℕ
unfolding add32
mix v = add32 (bit_xor (u32 (v * 2 ^ 4)) (v / 2 ^ 5)) v

unfoldable pub encrypt_round : Key → ℕ → ℕ → Halves → Halves
encrypt_round k sum next_sum (left, right) =
    let left' = add32 left (bit_xor (mix right) (add32 sum (k (bit_and sum 3)))) in
    let right' =
      add32 right (bit_xor (mix left') (add32 next_sum (k (bit_and (next_sum / 2 ^ 11) 3)))) in
    (left', right')

unfoldable pub decrypt_round : Key → ℕ → ℕ → Halves → Halves
decrypt_round k sum next_sum (left, right) =
    let right' = sub32 right (bit_xor (mix left) (add32 sum (k (bit_and (sum / 2 ^ 11) 3)))) in
    let left' = sub32 left (bit_xor (mix right') (add32 next_sum (k (bit_and next_sum 3)))) in
    (left', right')

-- `rounds` iterations are left of the `for` loop.
unfoldable pub encrypt_loop : ℕ → ℕ → ℕ → Key → List ℕ → Option (List ℕ)
encrypt_loop zero sum next_sum k bytes = some bytes
encrypt_loop (suc rounds) sum next_sum k bytes = do
  out ← apply_rounds (encrypt_round k sum next_sum) bytes
  encrypt_loop rounds next_sum (add32 next_sum delta) k out

unfoldable pub decrypt_loop : ℕ → ℕ → ℕ → Key → List ℕ → Option (List ℕ)
decrypt_loop zero sum next_sum k bytes = some bytes
decrypt_loop (suc rounds) sum next_sum k bytes = do
  out ← apply_rounds (decrypt_round k sum next_sum) bytes
  decrypt_loop rounds next_sum (sub32 next_sum delta) k out

unfoldable pub encrypt : Key → List ℕ → Option (List ℕ)
encrypt k bytes = encrypt_loop 32 0 (add32 0 delta) k bytes

-- The sum starts from `delta << 5`.
unfoldable pub decrypt : Key → List ℕ → Option (List ℕ)
decrypt k bytes = let sum = u32 (delta * 2 ^ 5) in decrypt_loop 32 sum (sub32 sum delta) k bytes
