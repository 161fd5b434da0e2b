-- ===== src/Advancing/ExpTable.antt =====
-- The experience for a level, `getExpForLevel` of src/creatures/players/player.h, as a sum over levels.
use forgotten_land.Base.{
  ℕ, zero, suc, ◌+◌, ◌-◌, ◌*◌, ◌/◌, ◌^◌, ◌≤◌, ◌<◌, ◌≡◌, inl, inr, arith, leb, Bool-cases,
}
use forgotten_land.Base.Words.{add64, sub64}
use forgotten_land.Advancing.Experience.{get_exp_for_level}

-- What one level more asks for, and all levels after the first, `l` of them.
abbrev pub exp_step : ℕ → ℕ
exp_step l = 50 * (l * l) + 100 - 50 * l

unfoldable pub exp_to : ℕ → ℕ
exp_to zero = 0
exp_to (suc l) = exp_to l + exp_step l

square_le : (l : ℕ) → l ≤ l * l
square_le zero = omega arith
square_le (suc l) = grind arith

closed_form : (l : ℕ) → 3 * exp_to l + 150 * (l * l) ≡ 50 * (l * l * l) + 400 * l
unfolding exp_to
closed_form zero = omega arith
closed_form (suc l) = let ih = closed_form l in let le = square_le l in grind arith

-- The levels for which all is exact in 64 bits.
abbrev pub limit : ℕ
limit = 131072

cube_le : (l : ℕ) → l ≤ limit + 1 → l * l * l ≤ (limit + 1) * (limit + 1) * (limit + 1)
cube_le l h = grind arith

exact_third : (x y z e : ℕ) → 3 * e + y ≡ x + z → x + z < 2 ^ 64 → add64 (sub64 x y) z / 3 ≡ e
unfolding add64 sub64
exact_third x y z e h fits = omega arith

pub get_exp_for_level-exp_to :
    (level l : ℕ) → level ≡ suc l → l ≤ limit + 1 → get_exp_for_level level ≡ exp_to l
unfolding get_exp_for_level
get_exp_for_level-exp_to level l e h =
    let down : sub64 level 1 ≡ l = unfold sub64 in omega arith in
    let x : 50 * l * l * l ≡ 50 * (l * l * l) = grind arith in
    let y : 150 * l * l ≡ 150 * (l * l) = grind arith in
    let cube = cube_le l h in
    let form = closed_form l in
    rw (get_exp_for_level, down, x, y)
      (exact_third (50 * (l * l * l)) (150 * (l * l)) (400 * l) (exp_to l) form (omega arith))

pub exp_step_pos : (l : ℕ) → 50 ≤ exp_step l
exp_step_pos l = let le = square_le l in omega arith

pub exp_to_mono : (a b : ℕ) → a ≤ b → exp_to a ≤ exp_to b
unfolding exp_to
exp_to_mono a zero h = let e : a ≡ 0 = omega arith in rw e (omega arith)
exp_to_mono a (suc b) h = elim (Bool-cases (leb a b)) [
  | inl below ↦ let ih = exp_to_mono a b (ground arith) in omega arith
  | inr above ↦ let e : a ≡ suc b = ground arith in rw e (omega arith)
]

pub exp_to-limit : exp_to limit < 2 ^ 62
exp_to-limit = let form = closed_form limit in omega arith

pub limit_reached : 2 ^ 54 ≤ exp_to limit
limit_reached = let form = closed_form limit in omega arith
