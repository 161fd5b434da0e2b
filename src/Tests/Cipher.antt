-- ===== src/Tests/Cipher.antt =====
-- Examples for XTEA and the checksum.
use forgotten_land.Base.{ℕ, ◌+◌, ◌*◌, ◌^◌, ◌%◌, ◌≡◌, refl, List, [], ◌∷◌, none, some, length, arith}
use forgotten_land.Base.Words.{add32, sub32}
use forgotten_land.Network.Xtea.{
  Key, word_of, apply_rounds, mix, encrypt_round, decrypt_round, encrypt_loop, decrypt_loop,
  encrypt, decrypt,
}
use forgotten_land.Network.Xtea.Blocks.{IsBlocks}
use forgotten_land.Network.Xtea.Inverse.{decrypt-encrypt}
use forgotten_land.Network.Adler.{adler_checksum, sum_all, sum_chunk}
use forgotten_land.Network.Adler.Reference.{adler_checksum_lem, sum_a, sum_b}

abbrev key : Key
key i = 0x01234567 + i

abbrev block : List ℕ
block = 0x41 ∷ 0x42 ∷ 0x43 ∷ 0x44 ∷ 0x45 ∷ 0x46 ∷ 0x47 ∷ 0x48 ∷ []

program : Unit {0}
unfolding add32 sub32 word_of apply_rounds mix encrypt_round decrypt_round encrypt_loop decrypt_loop
    encrypt decrypt adler_checksum sum_all sum_chunk sum_a sum_b
program = tt

-- A published test vector of the cipher: key 00 01 … 0f, data "ABCDEFGH", as big-endian words.
abbrev counting : Key
counting i = 0x00010203 + i * 0x04040404

encrypt_vector :
    encrypt counting (0x44 ∷ 0x43 ∷ 0x42 ∷ 0x41 ∷ 0x48 ∷ 0x47 ∷ 0x46 ∷ 0x45 ∷ [])
    ≡ some (0xd0 ∷ 0xf3 ∷ 0x7d ∷ 0x49 ∷ 0xb5 ∷ 0x2c ∷ 0x61 ∷ 0x72 ∷ [])
unfolding program
encrypt_vector = refl

encrypt_partial_block : encrypt key (7 ∷ []) ≡ none
unfolding program
encrypt_partial_block = refl

decrypt-encrypt_example :
    (out : List ℕ) × (encrypt key block ≡ some out)
    × IsBlocks out
    × (length out ≡ 8)
    × (decrypt key out ≡ some block)
decrypt-encrypt_example = decrypt-encrypt key block (omega arith)

-- "Wikipedia" has the checksum 0x11E60398.
abbrev wikipedia : List ℕ
wikipedia = b'W' ∷ b'i' ∷ b'k' ∷ b'i' ∷ b'p' ∷ b'e' ∷ b'd' ∷ b'i' ∷ b'a' ∷ []

adler_checksum-wikipedia : adler_checksum wikipedia ≡ 0x11E60398
unfolding program
adler_checksum-wikipedia = refl

adler_checksum_lem_example :
    adler_checksum wikipedia ≡ sum_b 1 0 wikipedia % 65521 * 2 ^ 16 + sum_a 1 wikipedia % 65521
adler_checksum_lem_example = adler_checksum_lem wikipedia (omega arith)
