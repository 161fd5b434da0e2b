-- ===== src/Advancing/Careers.antt =====
-- Histories of gains, losses and deaths of a player of src/creatures/players/player.cpp.
use forgotten_land.Base.{
  ℕ, suc, ◌+◌, ◌-◌, ◌^◌, ◌≤◌, ◌<◌, ◌≡◌, sym, ◌∙◌, inl, inr, arith, ltb, ◌==◌, Bool, true, false,
  ◌||◌, Bool-cases, if◌then◌else◌, List, [], ◌∷◌,
}
use mathlib.Core.Path.{subst}
use forgotten_land.Base.Words.{sub64, not_below_zero64}
use forgotten_land.Advancing.Experience.{
  get_exp_for_level, Gains, Player, Vocations, gains_at, lose_levels, add_experience,
  remove_experience, lose_experience_by_death,
}
use forgotten_land.Advancing.ExpTable.{exp_to, limit, exp_to-limit, get_exp_for_level-exp_to}
use forgotten_land.Advancing.Levels.{
  IsLeveled, level-le, restore-IsLeveled, restore-experience, add_experience-IsLeveled,
  lose_levels-IsLeveled,
}

-- What is left of the experience.
lost-le : (e a : ℕ) → e < 2 ^ 62 → a < 2 ^ 63 → not_below_zero64 (sub64 e a) ≤ e
lost-le e a h k = unfold sub64 in ground arith

-- Less experience, and the levels that go with it.
fallen :
    (gains : ℕ → Gains) (p : Player) (x : ℕ)
    → IsLeveled p
    → p.experience < exp_to limit
    → x ≤ p.experience
    → IsLeveled
        (lose_levels gains p.level (get_exp_for_level p.level) (record p { experience = x }))
      × ((lose_levels gains p.level
            (get_exp_for_level p.level)
            (record p { experience = x })).experience
          ≡ x)
fallen gains p x h below less =
    let l = p.level - 1 in
    let e : p.level ≡ suc l = let some_level = h.positive in omega arith in
    let under : l < limit = level-le l p.experience h.reached below in
    let current = get_exp_for_level-exp_to p.level l e (omega arith) in
    let short : x < exp_to (suc l) =
      let s = subst (λ k. p.experience < exp_to k) e h.short in omega arith in
    let q : Player = record p { experience = x } in
    rw current (lose_levels-IsLeveled gains p.level l q e (omega arith) (omega arith) short)

remove_experience-IsLeveled :
    (v : Vocations) (on_lose : ℕ → ℕ) (exp : ℕ) (p : Player)
    → IsLeveled p
    → p.experience < exp_to limit
    → on_lose exp < 2 ^ 63
    → IsLeveled (remove_experience v on_lose exp p)
      × ((remove_experience v on_lose exp p).experience ≤ p.experience)
unfolding remove_experience
remove_experience-IsLeveled v on_lose exp p h below fits =
    elim (Bool-cases (p.experience == 0 || exp == 0)) [
      | inl idle ↦ rw (remove_experience, idle) (h, omega arith)
      | inr busy ↦ elim (Bool-cases (on_lose exp == 0)) [
        | inl nothing ↦ rw (remove_experience, busy, nothing) (h, omega arith)
        | inr something ↦
            let bound = exp_to-limit in
            let x = not_below_zero64 (sub64 p.experience (on_lose exp)) in
            let less = lost-le p.experience (on_lose exp) (omega arith) fits in
            let (leveled, kept) = fallen (gains_at v) p x h below less in
            let r =
              lose_levels (gains_at v) p.level (get_exp_for_level p.level)
                (record p { experience = x }) in
            let same = restore-experience p r in
            rw (remove_experience, busy, something)
              (
                restore-IsLeveled p r leveled,
                subst (λ y. y ≤ p.experience) (sym (same ∙ kept)) less,
              )
      ]
    ]

taken-le : (b : Bool) (e a : ℕ) → e < 2 ^ 64 → a ≤ e → (if b then sub64 e a else e) ≤ e
taken-le true e a h k = unfold sub64 in omega arith
taken-le false e a h k = omega arith

lose_experience_by_death-IsLeveled :
    (v : Vocations) (on_lose share : ℕ → ℕ) (p : Player)
    → IsLeveled p
    → p.experience < exp_to limit
    → on_lose (share p.experience) ≤ p.experience
    → IsLeveled (lose_experience_by_death v on_lose share p)
      × ((lose_experience_by_death v on_lose share p).experience ≤ p.experience)
unfolding lose_experience_by_death
lose_experience_by_death-IsLeveled v on_lose share p h below part =
    elim (Bool-cases (on_lose (share p.experience) == 0)) [
      | inl nothing ↦ rw (lose_experience_by_death, nothing) (h, omega arith)
      | inr something ↦
          let bound = exp_to-limit in
          let x =
            if v.id == 0 || ltb 7 p.level
            then sub64 p.experience (on_lose (share p.experience))
            else p.experience in
          let less =
            taken-le (v.id == 0 || ltb 7 p.level) p.experience (on_lose (share p.experience))
              (omega arith) part in
          let (leveled, kept) = fallen (λ level. v.own) p x h below less in
          rw (lose_experience_by_death, something)
            (leveled, subst (λ y. y ≤ p.experience) (sym kept) less)
    ]

-- `gain` and `lose` are `addExperience` and `removeExperience` with what a script makes of the amount,
-- `die` a death with what a script makes of the loss, and the share that is lost.
pub data Op : Type 0 where
  gain lose : (ℕ → ℕ) → ℕ → Op
  die : (ℕ → ℕ) → (ℕ → ℕ) → Op

unfoldable pub step : Vocations → Op → Player → Player
step v (Op.gain on_gain exp) p = add_experience v on_gain exp p
step v (Op.lose on_lose exp) p = remove_experience v on_lose exp p
step v (Op.die on_lose share) p = lose_experience_by_death v on_lose share p

unfoldable pub run : Vocations → List Op → Player → Player
run v [] p = p
run v (op ∷ ops) p = run v ops (step v op p)

-- All that is gained.
unfoldable pub gained : List Op → ℕ
gained [] = 0
gained (Op.gain on_gain exp ∷ ops) = on_gain exp + gained ops
gained (Op.lose on_lose exp ∷ ops) = gained ops
gained (Op.die on_lose share ∷ ops) = gained ops

-- A loss is below 2 ^ 63, and no death takes more than there is.
unfoldable pub AllFair : List Op → Type 0
AllFair [] = Unit
AllFair (Op.gain on_gain exp ∷ ops) = AllFair ops
AllFair (Op.lose on_lose exp ∷ ops) = (on_lose exp < 2 ^ 63) × AllFair ops
AllFair (Op.die on_lose share ∷ ops) = ((e : ℕ) → on_lose (share e) ≤ e) × AllFair ops

-- In a history of gains, losses below 2 ^ 63 and deaths that take no more than there is, in which
-- the experience with all gains stays below that for the level 131073, a player whose experience
-- lies between that for the level and that for the next one has such a level again; the experience
-- for a level is the sum of what the levels before it ask for.
pub run-IsLeveled :
    (v : Vocations) (ops : List Op) (p : Player)
    → IsLeveled p
    → p.experience + gained ops < exp_to limit
    → AllFair ops
    → IsLeveled (run v ops p)
unfolding run step gained AllFair
run-IsLeveled v [] p h below fair = h
run-IsLeveled v (Op.gain on_gain exp ∷ ops) p h below fair =
    let (leveled, more) = add_experience-IsLeveled v on_gain exp p h (omega arith) in
    run-IsLeveled v ops (add_experience v on_gain exp p) leveled (omega arith) fair
run-IsLeveled v (Op.lose on_lose exp ∷ ops) p h below (fits, fair) =
    let (leveled, less) = remove_experience-IsLeveled v on_lose exp p h (omega arith) fits in
    run-IsLeveled v ops (remove_experience v on_lose exp p) leveled (omega arith) fair
run-IsLeveled v (Op.die on_lose share ∷ ops) p h below (part, fair) =
    let (leveled, less) =
      lose_experience_by_death-IsLeveled v on_lose share p h (omega arith) (part p.experience) in
    run-IsLeveled v ops (lose_experience_by_death v on_lose share p) leveled (omega arith) fair
