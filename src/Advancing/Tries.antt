-- ===== src/Advancing/Tries.antt =====
-- The tries of a skill and the mana spent towards a magic level: the same loops of
-- src/creatures/players/player.cpp on `skills[skill]` and on `magLevel` with `manaSpent`. Percentages,
-- messages and the events of scripts that change nothing here are left out.
use forgotten_land.Base.{ℕ, zero, suc, ◌+◌, ◌-◌, Bool, not, leb, ltb, ◌==◌, if◌then◌else◌}
use forgotten_land.Base.Words.{u32, add64, sub64, not_below_zero}

pub record Skill : Type 0 where
  pub level : ℕ
  pub tries : ℕ

-- `ask` is what the vocation requires for a level, which it looks up in a cache; `word` wraps a level
-- to the width of its field.
module _ {Cache : Type 0} (ask : ℕ → Cache → ℕ × Cache) (word : ℕ → ℕ) where
  -- The loop over the levels that are gained, with the requirement of the next level. It returns what
  -- is left of the count. Every round takes at least one off the count, which is the fuel.
  unfoldable pub climb : ℕ → ℕ → ℕ → Skill → Cache → ℕ × Skill × Cache
  climb zero count next s c = (count, s, c)
  climb (suc fuel) count next s c =
      let left = sub64 count (sub64 next s.tries) in
      let up : Skill = record { level = word (s.level + 1); tries = 0 } in
      let (after, c') = ask (word (up.level + 1)) c in
      let rest = climb fuel left after up c' in
      if ltb (add64 s.tries count) next
      then (count, s, c)
      else if leb after next
      then (0, up, c')
      else rest

  -- `addSkillAdvance`, and `addManaSpent` but for its flag; `on_gain` is what a script makes of the count.
  unfoldable pub add_tries : (ℕ → ℕ) → ℕ → Skill → Cache → Skill × Cache
  add_tries on_gain count s c =
      let (current, c₁) = ask s.level c in
      let (next, c₂) = ask (word (s.level + 1)) c₁ in
      let amount = on_gain count in
      let (left, s', c₃) = climb (suc amount) amount next s c₂ in
      if leb next current
      then (s, c₂)
      else if amount == 0
      then (s, c₂)
      else (record s' { tries = add64 s'.tries left }, c₃)

  -- `addManaSpent`, with the flag of the group that gains no mana.
  unfoldable pub add_mana_spent : Bool → (ℕ → ℕ) → ℕ → Skill → Cache → Skill × Cache
  add_mana_spent not_gain_mana on_gain amount s c =
      if not_gain_mana then (s, c) else add_tries on_gain amount s c

  -- What `addOfflineTrainingTries` makes of a skill.
  unfoldable pub add_offline_training_tries : (ℕ → ℕ) → ℕ → Skill → Cache → Skill × Cache
  add_offline_training_tries on_gain count s c =
      let (current, c₁) = ask s.level c in
      let (next, c₂) = ask (word (s.level + 1)) c₁ in
      let amount = on_gain count in
      let (left, s', c₃) = climb (suc amount) amount next s c₂ in
      if count == 0
      then (s, c)
      else if leb next current
      then (s, c₂)
      else (record s' { tries = add64 s'.tries left }, c₃)

  -- The sum over the levels from one on, for as many levels.
  unfoldable pub sum_required : ℕ → ℕ → Cache → ℕ × Cache
  sum_required level zero c = (0, c)
  sum_required level (suc rounds) c =
      let (required, c') = ask level c in
      let (sum, c'') = sum_required (level + 1) rounds c' in (add64 required sum, c'')

  -- The loop of a death over the magic levels that are lost.
  unfoldable pub lose_mana : ℕ → ℕ → ℕ → Cache → Skill × Cache
  lose_mana zero lost spent c = (record { level = 0; tries = sub64 spent lost }, c)
  lose_mana (suc level) lost spent c =
      let (required, c') = ask (suc level) c in
      let rest = lose_mana level (sub64 lost spent) required c' in
      if ltb spent lost then rest else (record { level = suc level; tries = sub64 spent lost }, c)

  -- `share` is the part of a sum that is lost, a product with a floating point number.
  unfoldable pub lose_magic_levels : (ℕ → ℕ) → Skill → Cache → Skill × Cache
  lose_magic_levels share s c =
      let (sum, c') = sum_required 1 s.level c in
      lose_mana s.level (share (add64 sum s.tries)) s.tries c'

  unfoldable pub lose_tries : ℕ → ℕ → ℕ → Cache → Skill × Cache
  lose_tries zero lost tries c =
      if ltb tries lost
      then (record { level = 10; tries = 0 }, c)
      else (record { level = 0; tries = not_below_zero (sub64 tries lost) }, c)
  lose_tries (suc level) lost tries c =
      let (required, c') = ask (suc level) c in
      let rest = lose_tries level (u32 (sub64 lost tries)) required c' in
      if not (ltb tries lost)
      then (record { level = suc level; tries = not_below_zero (sub64 tries lost) }, c)
      else if leb (suc level) 10
      then (record { level = 10; tries = 0 }, c)
      else rest

  unfoldable pub lose_skill : (ℕ → ℕ) → Skill → Cache → Skill × Cache
  lose_skill share s c =
      let (sum, c') = sum_required 11 (s.level - 10) c in
      lose_tries s.level (u32 (share (add64 sum s.tries))) s.tries c'
