-- ===== src/Advancing/Sums.antt =====
-- What the vocation requires up to a level, summed up.
use forgotten_land.Base.{ℕ, zero, suc, ◌+◌, ◌≤◌, ◌<◌, ◌≡◌, inl, inr, arith, leb, Bool-cases}

unfoldable pub sum_to : (ℕ → ℕ) → ℕ → ℕ
sum_to f zero = f 0
sum_to f (suc n) = sum_to f n + f (suc n)

pub sum_to_mono : (f : ℕ → ℕ) (a b : ℕ) → a ≤ b → sum_to f a ≤ sum_to f b
unfolding sum_to
sum_to_mono f zero zero h = omega arith
sum_to_mono f (suc a) zero h = absurd (omega arith)
sum_to_mono f a (suc b) h = elim (Bool-cases (leb a b)) [
  | inl below ↦ let ih = sum_to_mono f a b (ground arith) in omega arith
  | inr above ↦ let e : a ≡ suc b = ground arith in rw e (omega arith)
]

-- A sum that is not reached shows a level that is not reached.
pub level-lt : (f : ℕ → ℕ) (l top x : ℕ) → sum_to f l + x < sum_to f top → l < top
level-lt f l top x h = elim (Bool-cases (leb top l)) [
  | inl over ↦ let le = sum_to_mono f top l (ground arith) in absurd (omega arith)
  | inr under ↦ ground arith
]
