-- ===== src/Tests/Advancing.antt =====
-- A magic level, a skill and an experience that rise and fall.
use forgotten_land.Base.{◌-◌, ◌*◌, ◌^◌, ◌/◌, ◌≡◌, refl, List, [], ◌∷◌, arith}
use forgotten_land.Base.Words.{u32, add32, sub32, add64, sub64}
use forgotten_land.Advancing.Vocation.{Formulas, find_level, get_req_mana, get_req_skill_tries}
use forgotten_land.Advancing.Tries.{
  Skill, climb, add_tries, add_mana_spent, add_offline_training_tries, sum_required, lose_mana,
  lose_magic_levels, lose_tries, lose_skill,
}
use forgotten_land.Advancing.Sums.{sum_to}
use forgotten_land.Advancing.Totals.{IsScale, IsNormal, total}
use forgotten_land.Advancing.Requirements.{mana_value, asked, get_req_skill_tries-asked}
use forgotten_land.Advancing.Ledger.{Op, ledger, run, step, run-total}
use forgotten_land.Advancing.Experience.{
  get_exp_for_level, Player, Vocations, gain_level, lose_level, gain_levels, lose_levels, restore,
  add_experience, remove_experience, lose_experience_by_death,
}
use forgotten_land.Advancing.ExpTable.{exp_to, limit_reached}
use forgotten_land.Advancing.Levels.{IsLeveled}
use forgotten_land.Advancing.Careers
use forgotten_land.Advancing.Careers.{run-IsLeveled}

program : Unit {0}
unfolding add32 sub32 add64 sub64 find_level get_req_mana get_req_skill_tries climb add_tries
    add_mana_spent add_offline_training_tries sum_required lose_mana lose_magic_levels lose_tries
    lose_skill sum_to asked ledger run step get_exp_for_level gain_level lose_level gain_levels
    lose_levels restore add_experience remove_experience lose_experience_by_death exp_to Careers.run
    Careers.step Careers.gained Careers.AllFair
program = tt

-- 100 mana for the first magic level, 200 more for the second; the tries of a skill double.
abbrev formulas : Formulas
formulas = record { mana = λ l. 100 * l; tries = λ skill l. 50 * 2 ^ (l - 11) }

abbrev novice : Skill
novice = record { level = 0; tries = 30 }

formulas-IsScale : IsScale (mana_value formulas) u32 0 5
formulas-IsScale = record {
  none_before = λ l h. ground arith;
  rises = λ l h k. ground arith;
  fits = unfold sum_to in omega arith;
  level_fits = λ l h. omega arith;
}

-- 330 of mana make magic level 2 with 60 left; a death that takes 130 leaves level 1 with 130.
abbrev spent : List Op
spent = Op.spend (λ n. n) 330 ∷ []

abbrev lost : List Op
lost = Op.spend (λ n. n) 330 ∷ Op.die (λ n. 130) ∷ []

two_levels : (run (get_req_mana formulas) u32 spent novice []).0 ≡ record { level = 2; tries = 60 }
unfolding program
two_levels = refl

one_level : (run (get_req_mana formulas) u32 lost novice []).0 ≡ record { level = 1; tries = 130 }
unfolding program
one_level = refl

run-total_example :
    let (s', c') = run (get_req_mana formulas) u32 lost novice [] in
    (total (mana_value formulas) s' ≡ 230) × IsNormal (mana_value formulas) 0 s'
run-total_example =
    run-total formulas 5 lost 230 novice [] formulas-IsScale (λ l v e. unfold find_level in cc)
      (record { at_least = omega arith; below_next = omega arith }) (unfold sum_to in omega arith)
      (unfold program in refl)

-- Level 38 asks for 50 * 2 ^ 27 tries, more than 32 bits hold.
get_req_skill_tries-asked_example :
    let (first, c') = get_req_skill_tries formulas 4 38 [] in
    (first ≡ 50 * 2 ^ (38 - 11))
    × ((get_req_skill_tries formulas 4 38 (asked formulas 4 (37 ∷ 39 ∷ []) c')).0
        ≡ u32 (50 * 2 ^ (38 - 11)))
get_req_skill_tries-asked_example =
    get_req_skill_tries-asked formulas 4 38 (37 ∷ 39 ∷ []) [] (omega arith) (omega arith)
      (unfold find_level in refl)

abbrev knight : Vocations
knight = record {
  id = 4;
  own = record { gain_hp = 15; gain_mana = 5; gain_cap = 2500 };
  no_vocation = record { gain_hp = 5; gain_mana = 5; gain_cap = 1000 };
}

abbrev level_eight : Player
level_eight = record {
  level = 8;
  experience = 4200;
  health = 185;
  health_max = 185;
  mana = 90;
  mana_max = 90;
  capacity = 47000;
}

table : get_exp_for_level 9 ≡ 6400
unfolding program
table = refl

-- A level is gained and lost again: the highest health is 10 more than before.
more_health :
    (Careers.run knight
      (Careers.Op.gain (λ n. n) 2200 ∷ Careers.Op.lose (λ n. n) 2200 ∷ [])
      level_eight).health_max
    ≡ 195
unfolding program
more_health = refl

run-IsLeveled_example : IsLeveled (
    Careers.run knight
      (Careers.Op.gain (λ n. n) 2200
        ∷ Careers.Op.lose (λ n. n) 300
        ∷ Careers.Op.die (λ n. n) (λ n. n / 10)
        ∷ [])
      level_eight)
run-IsLeveled_example =
    run-IsLeveled knight
      (Careers.Op.gain (λ n. n) 2200
        ∷ Careers.Op.lose (λ n. n) 300
        ∷ Careers.Op.die (λ n. n) (λ n. n / 10)
        ∷ [])
      level_eight
      (record {
        positive = omega arith;
        reached = unfold exp_to in omega arith;
        short = unfold exp_to in omega arith;
      })
      (unfold Careers.gained in omega (arith, limit_reached))
      (unfold program in (omega arith, (λ e. omega arith, tt)))
