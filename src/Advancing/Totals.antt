-- ===== src/Advancing/Totals.antt =====
-- A skill of src/creatures/players/player.cpp is a number: all that was ever required for its level and
-- the tries since. Gains add to this number and losses take from it.
use forgotten_land.Base.{
  ℕ, zero, suc, ◌+◌, ◌^◌, ◌≤◌, ◌<◌, ◌≡◌, refl, ◌∙◌, inl, inr, arith, leb, ltb, ◌==◌, false,
  Bool-cases,
}
use mathlib.Core.Path.{subst}
use forgotten_land.Base.Words.{add64, sub64, add64_exact, sub64_exact}
use forgotten_land.Advancing.Tries.{Skill, climb, add_tries}
use forgotten_land.Advancing.Sums.{sum_to, level-lt}

-- The requirements: none up to the level `base`, then more for each level up to `top`, in 64 bits all
-- together. Levels up to `top` fit their field.
pub record IsScale (value word : ℕ → ℕ) (base top : ℕ) : Type 0 where
  pub none_before : (l : ℕ) → l ≤ base → value l ≡ 0
  pub rises : (l : ℕ) → base ≤ l → l < top → value l < value (suc l)
  pub fits : sum_to value top < 2 ^ 64
  pub level_fits : (l : ℕ) → l ≤ top → word l ≡ l

-- A vocation that answers with these requirements, however its cache was filled.
pub record Answers {Cache : Type 0} (ask : ℕ → Cache → ℕ × Cache) (Valid : Cache → Type 0)
    (value : ℕ → ℕ) : Type 0 where
  pub answer : (l : ℕ) (c : Cache) → Valid c → (ask l c).0 ≡ value l
  pub stays : (l : ℕ) (c : Cache) → Valid c → Valid (ask l c).1

abbrev pub total : (ℕ → ℕ) → Skill → ℕ
total value s = sum_to value s.level + s.tries

-- The level is the one that the total stands for.
pub record IsNormal (value : ℕ → ℕ) (base : ℕ) (s : Skill) : Type 0 where
  pub at_least : base ≤ s.level
  pub below_next : s.tries < value (suc s.level)

-- A skill whose total is a number, in its normal form, with a valid cache.
pub record Stands {Cache : Type 0} (Valid : Cache → Type 0) (value : ℕ → ℕ) (base t : ℕ) (s : Skill)
    (c : Cache) : Type 0 where
  pub valid : Valid c
  pub normal : IsNormal value base s
  pub amounts : total value s ≡ t

-- The arithmetic of one level that is gained.
gained :
    (sum next tries count top : ℕ)
    → tries < next
    → sum + (tries + count) < top
    → top < 2 ^ 64
    → ltb (add64 tries count) next ≡ false
    → (sub64 count (sub64 next tries) + next ≡ tries + count)
      × (sub64 count (sub64 next tries) < count)
gained sum next tries count top h enough bound over =
    let exact = add64_exact tries count (omega arith) in
    let over' : next ≤ tries + count = ground arith in
    let need = sub64_exact next tries (omega arith) (omega arith) in
    let left = sub64_exact count (sub64 next tries) (omega arith) (omega arith) in
    (omega arith, omega arith)

module _ {Cache : Type 0} (ask : ℕ → Cache → ℕ × Cache) (word : ℕ → ℕ) (Valid : Cache → Type 0)
    (value : ℕ → ℕ) (base top : ℕ) (answers : Answers ask Valid value)
    (scale : IsScale value word base top) where
  -- What a climb from a total leaves: the level for the total, and what is left of it.
  Climbed : ℕ → ℕ × Skill × Cache → Type 0
  Climbed t (left, s, c) =
      Valid c
      × (base ≤ s.level)
      × (total value s + left ≡ t)
      × (s.tries + left < value (suc s.level))

  next_word : (l : ℕ) → l < top → word (l + 1) ≡ suc l
  next_word l h = scale.level_fits (l + 1) (omega arith) ∙ omega arith

  climb-Climbed :
      (fuel count : ℕ) (s : Skill) (c : Cache)
      → Valid c
      → base ≤ s.level
      → s.tries < value (suc s.level)
      → count < fuel
      → total value s + count < sum_to value top
      → Climbed (total value s + count) (climb ask word fuel count (value (suc s.level)) s c)
  unfolding climb
  climb-Climbed zero count s c v at_least below h enough = absurd (omega arith)
  climb-Climbed (suc fuel) count s c v at_least below h enough =
      let bound = scale.fits in
      elim (Bool-cases (ltb (add64 s.tries count) (value (suc s.level)))) [
        | inl stop ↦
            let exact = add64_exact s.tries count (omega arith) in
            rw (climb, stop) (unfold Climbed in (v, at_least, refl, ground arith))
        | inr over ↦
            let (sum, smaller) =
              gained (sum_to value s.level) (value (suc s.level)) s.tries count (sum_to value top)
                below (omega arith) bound over in
            let left = sub64 count (sub64 (value (suc s.level)) s.tries) in
            let same : total value (record { level = suc s.level; tries = 0 }) + left
                ≡ total value s + count =
              unfold sum_to in omega arith in
            let higher : suc s.level < top =
              level-lt value (suc s.level) top left (unfold sum_to in omega arith) in
            let e₁ = next_word s.level (omega arith) in
            let e₂ = next_word (suc s.level) higher in
            let e₃ = answers.answer (suc (suc s.level)) c v in
            let rising = scale.rises (suc s.level) (omega arith) higher in
            let goes_on : leb (value (suc (suc s.level))) (value (suc s.level)) ≡ false =
              ground arith in
            let (_, c') = ask (suc (suc s.level)) c in
            let ih =
              climb-Climbed fuel left (record { level = suc s.level; tries = 0 }) c'
                (answers.stays (suc (suc s.level)) c v) (omega arith) (omega arith) (omega arith)
                (omega arith) in
            let rest =
              climb ask word fuel left (value (suc (suc s.level)))
                (record { level = suc s.level; tries = 0 }) c' in
            rw (climb, over, e₁, e₂, e₃, goes_on) (subst (λ t. Climbed t rest) same ih)
      ]

  Climbed-Stands :
      (t : ℕ) (r : ℕ × Skill × Cache)
      → t < sum_to value top
      → Climbed t r
      → Stands Valid value base t (record r.1 { tries = add64 r.1.tries r.0 }) r.2
  unfolding Climbed
  Climbed-Stands t (left, s, c) enough (v, at_least, sum, short) =
      let bound = scale.fits in
      let exact = add64_exact s.tries left (omega arith) in
      record {
        valid = v;
        normal = record { at_least = at_least; below_next = omega arith };
        amounts = omega arith;
      }

  -- A gain that stays below `top` adds to the total.
  pub add_tries-Stands :
      (on_gain : ℕ → ℕ) (count t : ℕ) (s : Skill) (c : Cache)
      → Stands Valid value base t s c
      → t + on_gain count < sum_to value top
      → let (s', c') = add_tries ask word on_gain count s c in
        Stands Valid value base (t + on_gain count) s' c'
  unfolding add_tries
  add_tries-Stands on_gain count t s c h enough =
      let bound = scale.fits in
      let low = h.amounts in
      let below = h.normal.below_next in
      let at_least = h.normal.at_least in
      let under : s.level < top =
        level-lt value s.level top (s.tries + on_gain count) (omega arith) in
      let rising = scale.rises s.level at_least under in
      let grows : leb (value (suc s.level)) (value s.level) ≡ false = ground arith in
      let e₁ = answers.answer s.level c h.valid in
      let e₂ = next_word s.level under in
      let (_, c₁) = ask s.level c in
      let v₁ = answers.stays s.level c h.valid in
      let e₃ = answers.answer (suc s.level) c₁ v₁ in
      let (_, c₂) = ask (suc s.level) c₁ in
      let v₂ = answers.stays (suc s.level) c₁ v₁ in
      let amount = on_gain count in
      elim (Bool-cases (amount == 0)) [
        | inl nothing ↦
            rw (add_tries, e₁, e₂, e₃, grows, nothing)
              (record { valid = v₂; normal = h.normal; amounts = ground arith })
        | inr something ↦
            let climbed =
              climb-Climbed (suc amount) amount s c₂ v₂ at_least below (omega arith)
                (omega arith) in
            let r = climb ask word (suc amount) amount (value (suc s.level)) s c₂ in
            let s' : Skill = record r.1 { tries = add64 r.1.tries r.0 } in
            rw (add_tries, e₁, e₂, e₃, grows, something)
              (subst (λ u. Stands Valid value base (u + amount) s' r.2) low
                (Climbed-Stands (total value s + amount) r (omega arith) climbed))
      ]
