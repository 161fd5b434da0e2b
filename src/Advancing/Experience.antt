-- ===== src/Advancing/Experience.antt =====
-- The level and the experience of a player of src/creatures/players/player.cpp, with the values that grow
-- with the level. Signed fields are kept in two's complement. Messages, speed, percentages and the
-- events of scripts that change nothing here are left out.
use forgotten_land.Base.{ℕ, zero, suc, ◌*◌, ◌/◌, ◌&&◌, ◌||◌, not, leb, ltb, ◌==◌, if◌then◌else◌}
use forgotten_land.Base.Words.{add32, sub32, add64, sub64, not_below_zero, not_below_zero64}

-- `level` counts down to an `int32_t`, which is made a 64-bit word.
unfoldable pub get_exp_for_level : ℕ → ℕ
get_exp_for_level level =
    let l = sub64 level 1 in add64 (sub64 (50 * l * l * l) (150 * l * l)) (400 * l) / 3

pub record Gains : Type 0 where
  pub gain_hp : ℕ
  pub gain_mana : ℕ
  pub gain_cap : ℕ

pub record Player : Type 0 where
  pub level : ℕ
  pub experience : ℕ
  pub health : ℕ
  pub health_max : ℕ
  pub mana : ℕ
  pub mana_max : ℕ
  pub capacity : ℕ

-- The vocation of the player, and the one with the number 0, VOCATION_NONE.
pub record Vocations : Type 0 where
  pub id : ℕ
  pub own : Gains
  pub no_vocation : Gains

-- Which gains count at a level.
abbrev pub gains_at : Vocations → ℕ → Gains
gains_at v level = if not (v.id == 0) && leb level 8 then v.no_vocation else v.own

unfoldable pub gain_level : Vocations → Player → Player
gain_level v p =
    let level = add32 p.level 1 in
    let g = gains_at v level in
    record p {
      level = level;
      health_max = add32 p.health_max g.gain_hp;
      health = add32 p.health g.gain_hp;
      mana_max = add32 p.mana_max g.gain_mana;
      mana = add32 p.mana g.gain_mana;
      capacity = add32 p.capacity g.gain_cap;
    }

-- The level goes down by one, with the gains that are taken back.
unfoldable pub lose_level : (ℕ → Gains) → Player → Player
lose_level gains p =
    let level = sub32 p.level 1 in
    let g = gains level in
    record p {
      level = level;
      health_max = not_below_zero (sub32 p.health_max g.gain_hp);
      mana_max = not_below_zero (sub32 p.mana_max g.gain_mana);
      capacity = not_below_zero (sub32 p.capacity g.gain_cap);
    }

-- The loop of `addExperience`, with the experience for the next level. There are fewer rounds than
-- points of experience.
unfoldable pub gain_levels : Vocations → ℕ → ℕ → Player → Player
gain_levels v zero next p = p
gain_levels v (suc fuel) next p =
    let p' = gain_level v p in
    let after = get_exp_for_level (add32 p'.level 1) in
    let rest = gain_levels v fuel after p' in
    if ltb p.experience next then p else if leb after next then p' else rest

-- The loop of `removeExperience` and of a death, with the experience for the level.
unfoldable pub lose_levels : (ℕ → Gains) → ℕ → ℕ → Player → Player
lose_levels gains zero current p = p
lose_levels gains (suc fuel) current p =
    let p' = lose_level gains p in
    let rest = lose_levels gains fuel (get_exp_for_level p'.level) p' in
    if ltb 1 p.level && ltb p.experience current then rest else p

unfoldable pub restore : Player → Player → Player
restore before p =
    if p.level == before.level then p else record p { health = p.health_max; mana = p.mana_max }

-- `on_gain` and `on_lose` are what scripts make of an amount.
unfoldable pub add_experience : Vocations → (ℕ → ℕ) → ℕ → Player → Player
add_experience v on_gain exp p =
    let current = get_exp_for_level p.level in
    let next = get_exp_for_level (add32 p.level 1) in
    let amount = on_gain exp in
    let q : Player = record p { experience = add64 p.experience amount } in
    if leb next current
    then p
    else if amount == 0
    then p
    else restore p (gain_levels v (suc q.experience) next q)

unfoldable pub remove_experience : Vocations → (ℕ → ℕ) → ℕ → Player → Player
remove_experience v on_lose exp p =
    let amount = on_lose exp in
    let q : Player = record p { experience = not_below_zero64 (sub64 p.experience amount) } in
    if p.experience == 0 || exp == 0
    then p
    else if amount == 0
    then p
    else restore p (lose_levels (gains_at v) p.level (get_exp_for_level p.level) q)

-- What a death takes: `share` is the product with a floating point number. All levels that are lost
-- count with the gains of the vocation.
unfoldable pub lose_experience_by_death : Vocations → (ℕ → ℕ) → (ℕ → ℕ) → Player → Player
lose_experience_by_death v on_lose share p =
    let loss = on_lose (share p.experience) in
    let q : Player = record p {
      experience = if v.id == 0 || ltb 7 p.level then sub64 p.experience loss else p.experience;
    } in
    if loss == 0 then p else lose_levels (λ level. v.own) p.level (get_exp_for_level p.level) q
