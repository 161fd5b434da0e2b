-- ===== src/Advancing/Levels.antt =====
-- The level of a player of src/creatures/players/player.cpp is always the one for the experience.
use forgotten_land.Base.{
  ℕ, zero, suc, ◌+◌, ◌-◌, ◌≤◌, ◌<◌, ◌≡◌, refl, sym, ◌∙◌, inl, inr, arith, leb, ltb, ◌==◌, true,
  false, Bool-cases,
}
use mathlib.Core.Path.{subst}
use forgotten_land.Base.Words.{add32, sub32, add64_exact}
use forgotten_land.Advancing.Experience.{
  get_exp_for_level, Gains, Player, Vocations, gain_level, lose_level, gain_levels, lose_levels,
  restore, add_experience,
}
use forgotten_land.Advancing.ExpTable.{
  exp_to, exp_step, exp_step_pos, exp_to_mono, limit, get_exp_for_level-exp_to, exp_to-limit,
}

-- The experience lies between that for the level and that for the next.
pub record IsLeveled (p : Player) : Type 0 where
  pub positive : 1 ≤ p.level
  pub reached : exp_to (p.level - 1) ≤ p.experience
  pub short : p.experience < exp_to p.level

-- An experience that is short of the limit is reached by no level beyond it.
pub level-le : (l x : ℕ) → exp_to l ≤ x → x < exp_to limit → l < limit
level-le l x h below = elim (Bool-cases (leb limit l)) [
  | inl over ↦ let le = exp_to_mono limit l (ground arith) in absurd (omega arith)
  | inr under ↦ ground arith
]

exp_to-suc : (l : ℕ) → exp_to (suc l) ≡ exp_to l + exp_step l
unfolding exp_to
exp_to-suc l = refl

level-IsLeveled :
    (p : Player) (l : ℕ)
    → p.level ≡ suc l
    → exp_to l ≤ p.experience
    → p.experience < exp_to (suc l)
    → IsLeveled p
level-IsLeveled p l e reached short =
    let e' : p.level - 1 ≡ l = omega arith in
    record {
      positive = omega arith;
      reached = subst (λ k. exp_to k ≤ p.experience) (sym e') reached;
      short = subst (λ k. p.experience < exp_to k) (sym e) short;
    }

gain_level-level :
    (v : Vocations) (p : Player) (l : ℕ)
    → p.level ≡ suc l
    → l < limit
    → (gain_level v p).level ≡ suc (suc l)
unfolding gain_level
gain_level-level v p l e h = unfold add32 in omega arith

gain_level-experience : (v : Vocations) (p : Player) → (gain_level v p).experience ≡ p.experience
unfolding gain_level
gain_level-experience v p = refl

-- The experience for the level after the one that is read from a field.
exp_for_next : (l k : ℕ) → k ≡ suc l → l ≤ limit → get_exp_for_level (add32 k 1) ≡ exp_to (suc l)
exp_for_next l k e h =
    let up : add32 k 1 ≡ suc (suc l) = unfold add32 in omega arith in
    get_exp_for_level-exp_to (add32 k 1) (suc l) up (omega arith)

-- The loop of gains, from a level `suc l` whose experience is reached.
gain_levels-IsLeveled :
    (v : Vocations) (fuel l : ℕ) (p : Player)
    → p.level ≡ suc l
    → exp_to l ≤ p.experience
    → p.experience < exp_to l + fuel
    → p.experience < exp_to limit
    → IsLeveled (gain_levels v fuel (exp_to (suc l)) p)
unfolding gain_levels
gain_levels-IsLeveled v zero l p e reached fuel below = absurd (omega arith)
gain_levels-IsLeveled v (suc fuel) l p e reached enough below =
    elim (Bool-cases (ltb p.experience (exp_to (suc l)))) [
      | inl stop ↦ rw (gain_levels, stop) (level-IsLeveled p l e reached (ground arith))
      | inr more ↦
          let over : exp_to (suc l) ≤ p.experience = ground arith in
          let under : suc l < limit = level-le (suc l) p.experience over below in
          let up = gain_level-level v p l e (omega arith) in
          let after = exp_for_next (suc l) (gain_level v p).level up (omega arith) in
          let grows = exp_to-suc (suc l) in
          let some_more = exp_step_pos (suc l) in
          let goes_on : leb (exp_to (suc (suc l))) (exp_to (suc l)) ≡ false = ground arith in
          let grew = exp_to-suc l in
          let some_before = exp_step_pos l in
          let same = gain_level-experience v p in
          rw (gain_levels, more, after, goes_on)
            (gain_levels-IsLeveled v fuel (suc l) (gain_level v p) up (omega arith) (omega arith)
              (omega arith))
    ]

pub restore-IsLeveled : (before p : Player) → IsLeveled p → IsLeveled (restore before p)
unfolding restore
restore-IsLeveled before p h = elim (Bool-cases (p.level == before.level)) [
  | inl same ↦ rw (restore, same) h
  | inr other ↦
      rw (restore, other) (record { positive = h.positive; reached = h.reached; short = h.short })
]

pub restore-experience : (before p : Player) → (restore before p).experience ≡ p.experience
unfolding restore
restore-experience before p = ground arith

gain_levels-experience :
    (v : Vocations) (fuel next : ℕ) (p : Player)
    → (gain_levels v fuel next p).experience ≡ p.experience
unfolding gain_levels
gain_levels-experience v zero next p = refl
gain_levels-experience v (suc fuel) next p = ground (
  arith,
  gain_level-experience v p,
  gain_levels-experience v fuel (get_exp_for_level (add32 (gain_level v p).level 1))
      (gain_level v p),
)

pub add_experience-IsLeveled :
    (v : Vocations) (on_gain : ℕ → ℕ) (exp : ℕ) (p : Player)
    → IsLeveled p
    → p.experience + on_gain exp < exp_to limit
    → IsLeveled (add_experience v on_gain exp p)
      × ((add_experience v on_gain exp p).experience ≡ p.experience + on_gain exp)
unfolding add_experience
add_experience-IsLeveled v on_gain exp p h below =
    let bound = exp_to-limit in
    let l = p.level - 1 in
    let e : p.level ≡ suc l = let some_level = h.positive in omega arith in
    let under : l < limit = level-le l p.experience h.reached (omega arith) in
    let current = get_exp_for_level-exp_to p.level l e (omega arith) in
    let next = exp_for_next l p.level e (omega arith) in
    let step = exp_to-suc l in
    let some_more = exp_step_pos l in
    let grows : leb (exp_to (suc l)) (exp_to l) ≡ false = ground arith in
    let exact = add64_exact p.experience (on_gain exp) (omega arith) in
    elim (Bool-cases (on_gain exp == 0)) [
      | inl nothing ↦ rw (add_experience, current, next, grows, nothing) (h, ground arith)
      | inr something ↦
          let q : Player = record p { experience = p.experience + on_gain exp } in
          let more = h.reached in
          rw (add_experience, current, next, grows, something, exact)
            (
              restore-IsLeveled p (gain_levels v (suc q.experience) (exp_to (suc l)) q) (
                  gain_levels-IsLeveled v (suc q.experience) l q e (omega arith) (omega arith)
                    below),
              restore-experience p (gain_levels v (suc q.experience) (exp_to (suc l)) q)
                  ∙ gain_levels-experience v (suc q.experience) (exp_to (suc l)) q,
            )
    ]

lose_level-level :
    (gains : ℕ → Gains) (p : Player) (l : ℕ)
    → p.level ≡ suc (suc l)
    → l < limit
    → (lose_level gains p).level ≡ suc l
unfolding lose_level
lose_level-level gains p l e h = unfold sub32 in omega arith

lose_level-experience :
    (gains : ℕ → Gains) (p : Player) → (lose_level gains p).experience ≡ p.experience
unfolding lose_level
lose_level-experience gains p = refl

exp_to-first : exp_to 0 ≡ 0
unfolding exp_to
exp_to-first = refl

-- The loop of losses, from a level `suc l` whose next is not reached.
pub lose_levels-IsLeveled :
    (gains : ℕ → Gains) (fuel l : ℕ) (p : Player)
    → p.level ≡ suc l
    → l < fuel
    → l ≤ limit
    → p.experience < exp_to (suc l)
    → IsLeveled (lose_levels gains fuel (exp_to l) p)
      × ((lose_levels gains fuel (exp_to l) p).experience ≡ p.experience)
unfolding lose_levels
lose_levels-IsLeveled gains zero l p e enough h short = absurd (omega arith)
lose_levels-IsLeveled gains (suc fuel) zero p e enough h short =
    let first : ltb 1 p.level ≡ false = ground arith in
    let start = exp_to-first in
    rw (lose_levels, first) (level-IsLeveled p 0 e (omega arith) short, refl)
lose_levels-IsLeveled gains (suc fuel) (suc l) p e enough h short =
    let later : ltb 1 p.level ≡ true = ground arith in
    elim (Bool-cases (ltb p.experience (exp_to (suc l)))) [
      | inl under ↦
          let down = lose_level-level gains p l e (omega arith) in
          let same = lose_level-experience gains p in
          let current = get_exp_for_level-exp_to (lose_level gains p).level l down (omega arith) in
          let less : (lose_level gains p).experience < exp_to (suc l) = ground arith in
          let (leveled, kept) =
            lose_levels-IsLeveled gains fuel l (lose_level gains p) down (omega arith) (omega arith)
              less in
          rw (lose_levels, later, under, current) (leveled, kept ∙ same)
      | inr reached ↦
          rw (lose_levels, later, reached) (level-IsLeveled p (suc l) e (ground arith) short, refl)
    ]
