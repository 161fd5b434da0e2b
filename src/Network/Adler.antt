-- ===== src/Network/Adler.antt =====
-- `adlerChecksum` of src/utils/tools.cpp: sums in 32-bit words, reduced after every 5552 bytes.
pub mod Reference
use Prim.Native.Nat.{bit_or}
use forgotten_land.Base.{
  ℕ, zero, suc, ◌+◌, ◌-◌, ◌*◌, ◌%◌, ◌^◌, List, [], ◌∷◌, ltb, ◌==◌, if◌then◌else◌, length,
}
use forgotten_land.Base.Words.{u32, add32}
use forgotten_land.Network.Message.{max_size}

abbrev pub adler : ℕ
adler = 65521

-- The loop's variables: the two sums and the bytes not read yet.
pub record Sums : Type 0 where
  pub a : ℕ
  pub b : ℕ
  pub rest : List ℕ

-- The inner `do … while (--tmp)`.
unfoldable pub sum_chunk : ℕ → ℕ → ℕ → List ℕ → Sums
sum_chunk (suc tmp) a b (x ∷ bytes) = let a' = add32 a x in sum_chunk tmp a' (add32 b a') bytes
sum_chunk _ a b bytes = record { a = a; b = b; rest = bytes }

-- The outer `while (length > 0)`. Each round takes a byte at least, so that the number of bytes
-- is fuel enough.
unfoldable pub sum_all : ℕ → ℕ → ℕ → List ℕ → Sums
sum_all zero a b bytes = record { a = a; b = b; rest = bytes }
sum_all (suc fuel) a b bytes =
    let tmp = if ltb 5552 (length bytes) then 5552 else length bytes in
    let s = sum_chunk tmp a b bytes in
    let next = sum_all fuel (s.a % adler) (s.b % adler) s.rest in
    if length bytes == 0 then record { a = a; b = b; rest = bytes } else next

unfoldable pub adler_checksum : List ℕ → ℕ
adler_checksum bytes =
    let s = sum_all (length bytes) 1 0 bytes in
    if ltb max_size (length bytes) then 0 else bit_or (u32 (s.b * 2 ^ 16)) s.a
