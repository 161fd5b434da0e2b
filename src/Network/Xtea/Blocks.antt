-- ===== src/Network/Xtea/Blocks.antt =====
-- Whole blocks of bytes, and one pass over them.
use forgotten_land.Base.{ℕ, ◌+◌, ◌*◌, ◌/◌, ◌^◌, ◌<◌, ◌≡◌, refl, List, [], ◌∷◌, some, length, arith}
use forgotten_land.Base.Bits.{bit_or-shift}
use forgotten_land.Base.Words.{u8}
use forgotten_land.Network.Xtea.{Halves, word_of, store_block, apply_rounds}

abbrev IsWord : ℕ → ℕ → ℕ → ℕ → Type 0
IsWord a b c d = (a < 256) × (b < 256) × (c < 256) × (d < 256)

-- A list of bytes whose length is a multiple of 8.
abbrev pub IsBlocks : List ℕ → Type 0
IsBlocks [] = Unit
IsBlocks (a ∷ b ∷ c ∷ d ∷ e ∷ f ∷ g ∷ h ∷ rest) = IsWord a b c d × IsWord e f g h × IsBlocks rest
IsBlocks _ = ⊥

abbrev pub IsHalves : Halves → Type 0
IsHalves (l, r) = (l < 2 ^ 32) × (r < 2 ^ 32)

-- The words are the little-endian numbers of their bytes.
pub word_of_lem :
    (a b c d : ℕ) → IsWord a b c d → word_of a b c d ≡ a + b * 2 ^ 8 + c * 2 ^ 16 + d * 2 ^ 24
unfolding word_of
word_of_lem a b c d h =
    rw
      (
        bit_or-shift 8 a b (omega arith),
        bit_or-shift 16 (a + b * 2 ^ 8) c (omega arith),
        bit_or-shift 24 (a + b * 2 ^ 8 + c * 2 ^ 16) d (omega arith),
      )
      refl

word_of-lt : (a b c d : ℕ) → IsWord a b c d → word_of a b c d < 2 ^ 32
word_of-lt a b c d h = omega (arith, word_of_lem a b c d h)

-- A word is the word of its bytes, and bytes are the bytes of their word.
word_of-bytes :
    (w : ℕ) → w < 2 ^ 32 → word_of (u8 w) (u8 (w / 2 ^ 8)) (u8 (w / 2 ^ 16)) (u8 (w / 2 ^ 24)) ≡ w
word_of-bytes w h =
    omega
      (arith, word_of_lem (u8 w) (u8 (w / 2 ^ 8)) (u8 (w / 2 ^ 16)) (u8 (w / 2 ^ 24)) (omega arith))

bytes-word_of :
    (a b c d : ℕ)
    → IsWord a b c d
    → (u8 (word_of a b c d) ≡ a)
      × (u8 (word_of a b c d / 2 ^ 8) ≡ b)
      × (u8 (word_of a b c d / 2 ^ 16) ≡ c)
      × (u8 (word_of a b c d / 2 ^ 24) ≡ d)
bytes-word_of a b c d h = omega (arith, word_of_lem a b c d h)

module _ (round undo : Halves → Halves) (bounded : (p : Halves) → IsHalves (round p))
    (undoes : (p : Halves) → IsHalves p → undo (round p) ≡ p) where
  -- A pass over whole blocks returns whole blocks, and the pass of an inverse takes them back.
  pub apply_rounds-undo :
      (bytes : List ℕ)
      → IsBlocks bytes
      → (out : List ℕ) × (apply_rounds round bytes ≡ some out)
        × IsBlocks out
        × (length out ≡ length bytes)
        × (apply_rounds undo out ≡ some bytes)
  unfolding apply_rounds
  apply_rounds-undo [] h = ([], refl, tt, refl, refl)
  apply_rounds-undo (a ∷ b ∷ c ∷ d ∷ e ∷ f ∷ g ∷ h ∷ rest) whole =
      let (out, done, blocks, same, back) = apply_rounds-undo rest whole.2 in
      let p : Halves = (word_of a b c d, word_of e f g h) in
      let first = bytes-word_of a b c d whole.0 in
      let second = bytes-word_of e f g h whole.1 in
      let p< : IsHalves p = (word_of-lt a b c d whole.0, word_of-lt e f g h whole.1) in
      let q : Halves = round p in
      let left = word_of-bytes q.0 (bounded p).0 in
      let right = word_of-bytes q.1 (bounded p).1 in
      (
        store_block q out,
        rw done,
        (omega arith, omega arith, blocks),
        omega (arith, same),
        rw
            (
              back,
              left,
              right,
              undoes p p<,
              first.0,
              first.1,
              first.2,
              first.3,
              second.0,
              second.1,
              second.2,
              second.3,
            )
            refl,
      )
  apply_rounds-undo _ whole = absurd whole
