-- ===== src/Advancing/Vocation.antt =====
-- `Vocation` of src/creatures/players/vocations/vocation.cpp: what it requires for a level, with its
-- caches, each a map from levels. A cache of tries holds 32 bits.
use forgotten_land.Base.{ℕ, ◌||◌, List, [], ◌∷◌, Option, none, some, leb, ltb, ◌==◌, if◌then◌else◌}
use forgotten_land.Base.Words.{u32}

-- The values of the formulas, which are powers of floating point numbers.
pub record Formulas : Type 0 where
  pub mana : ℕ → ℕ
  pub tries : ℕ → ℕ → ℕ

abbrev pub Cache : Type 0
Cache = List (ℕ × ℕ)

unfoldable pub find_level : ℕ → Cache → Option ℕ
find_level level [] = none
find_level level ((l, v) ∷ c) = let rest = find_level level c in if l == level then some v else rest

-- SKILL_LAST
abbrev pub skill_last : ℕ
skill_last = 12

-- The base of the skills is part of the formula.
unfoldable pub get_req_skill_tries : Formulas → ℕ → ℕ → Cache → ℕ × Cache
get_req_skill_tries f skill level c =
    if ltb skill_last skill || leb level 10 then (0, c) else elim (find_level level c) [
      | some v ↦ (v, c)
      | none ↦ (f.tries skill level, (level, u32 (f.tries skill level)) ∷ c)
    ]

unfoldable pub get_req_mana : Formulas → ℕ → Cache → ℕ × Cache
get_req_mana f level c = if level == 0 then (0, c) else elim (find_level level c) [
  | some v ↦ (v, c)
  | none ↦ (f.mana level, (level, f.mana level) ∷ c)
]
