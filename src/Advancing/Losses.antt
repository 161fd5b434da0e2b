-- ===== src/Advancing/Losses.antt =====
-- What a death of src/creatures/players/player.cpp takes from the magic level.
use forgotten_land.Base.{
  ℕ, zero, suc, ◌+◌, ◌-◌, ◌^◌, ◌≤◌, ◌<◌, ◌≡◌, refl, ap, ◌∙◌, inl, inr, arith, ltb, Bool-cases,
}
use mathlib.Core.Path.{subst}
use forgotten_land.Base.Words.{add64, sub64, add64_exact, sub64_exact}
use forgotten_land.Advancing.Tries.{Skill, sum_required, lose_mana, lose_magic_levels}
use forgotten_land.Advancing.Sums.{sum_to}
use forgotten_land.Advancing.Totals.{IsScale, Answers, Stands}

module _ {Cache : Type 0} (ask : ℕ → Cache → ℕ × Cache) (word : ℕ → ℕ) (Valid : Cache → Type 0)
    (value : ℕ → ℕ) (top : ℕ) (answers : Answers ask Valid value)
    (scale : IsScale value word 0 top) where
  -- The sum over the levels after `l`.
  sum_required-sum_to :
      (l k n : ℕ) (c : Cache)
      → k ≡ suc l
      → Valid c
      → sum_to value (l + n) < 2 ^ 64
      → Valid (sum_required ask word k n c).1
        × (sum_to value l + (sum_required ask word k n c).0 ≡ sum_to value (l + n))
  unfolding sum_required
  sum_required-sum_to l k zero c e v h =
      let same : l + 0 ≡ l = omega arith in (v, rw same (omega arith))
  sum_required-sum_to l k (suc n) c e v h =
      let same : l + suc n ≡ suc l + n = omega arith in
      let e₁ : (ask k c).0 ≡ value (suc l) = answers.answer k c v ∙ ap value e in
      let (v', sum) =
        sum_required-sum_to (suc l) (k + 1) n (ask k c).1 (omega arith) (answers.stays k c v)
          (rw same at h) in
      let here : sum_to value (suc l) ≡ sum_to value l + value (suc l) = unfold sum_to in refl in
      let bound : sum_to value (suc l + n) < 2 ^ 64 = rw same at h in
      let exact =
        add64_exact (value (suc l)) (sum_required ask word (k + 1) n (ask k c).1).0 (omega arith) in
      (v', rw (sum_required, e₁, same) (omega arith))

  -- The loop over the levels that are lost.
  lose_mana-Stands :
      (level lost spent : ℕ) (c : Cache)
      → Valid c
      → spent < value (suc level) + lost
      → sum_to value level + spent < 2 ^ 64
      → lost ≤ sum_to value level + spent
      → let (s', c') = lose_mana ask word level lost spent c in
        Stands Valid value 0 (sum_to value level + spent - lost) s' c'
  unfolding lose_mana
  lose_mana-Stands zero lost spent c v below fits enough =
      let nothing = scale.none_before 0 (omega arith) in
      let first : sum_to value 0 ≡ value 0 = unfold sum_to in refl in
      let exact = sub64_exact spent lost (omega arith) (omega arith) in
      record {
        valid = v;
        normal = record { at_least = omega arith; below_next = omega arith };
        amounts = omega arith;
      }
  lose_mana-Stands (suc level) lost spent c v below fits enough =
      let here : sum_to value (suc level) ≡ sum_to value level + value (suc level) =
        unfold sum_to in refl in
      elim (Bool-cases (ltb spent lost)) [
        | inl more ↦
            let e = answers.answer (suc level) c v in
            let over : spent < lost = ground arith in
            let exact = sub64_exact lost spent (omega arith) (omega arith) in
            let rest =
              lose_mana-Stands level (sub64 lost spent) (value (suc level)) (ask (suc level) c).1
                (answers.stays (suc level) c v) (omega arith) (omega arith) (omega arith) in
            let same : sum_to value level + value (suc level) - sub64 lost spent
                ≡ sum_to value (suc level) + spent - lost =
              omega arith in
            rw (lose_mana, more, e, ← same) rest
        | inr enough_here ↦
            let under : lost ≤ spent = ground arith in
            let exact = sub64_exact spent lost (omega arith) under in
            rw (lose_mana, enough_here)
              (record {
                valid = v;
                normal = record { at_least = omega arith; below_next = omega arith };
                amounts = omega arith;
              })
      ]

  -- A death takes its share of the total.
  pub lose_magic_levels-Stands :
      (share : ℕ → ℕ) (t : ℕ) (s : Skill) (c : Cache)
      → Stands Valid value 0 t s c
      → t < 2 ^ 64
      → share t ≤ t
      → let (s', c') = lose_magic_levels ask word share s c in
        Stands Valid value 0 (t - share t) s' c'
  unfolding lose_magic_levels
  lose_magic_levels-Stands share t s c h fits part =
      let amounts = h.amounts in
      let below = h.normal.below_next in
      let nothing = scale.none_before 0 (omega arith) in
      let first : sum_to value 0 ≡ value 0 = unfold sum_to in refl in
      let level : 0 + s.level ≡ s.level = omega arith in
      let (v', sum) =
        sum_required-sum_to 0 1 s.level c (omega arith) h.valid (rw level (omega arith)) in
      let sum' : sum_to value 0 + (sum_required ask word 1 s.level c).0 ≡ sum_to value s.level =
        sum ∙ ap (sum_to value) level in
      let exact = add64_exact (sum_required ask word 1 s.level c).0 s.tries (omega arith) in
      let whole : add64 (sum_required ask word 1 s.level c).0 s.tries ≡ t = omega arith in
      rw (lose_magic_levels, whole)
        (subst
          (λ u.
            Stands Valid value 0 (u - share t)
              (lose_mana ask word s.level (share t) s.tries (sum_required ask word 1 s.level c).1).0
              (lose_mana ask word s.level (share t) s.tries
                (sum_required ask word 1 s.level c).1).1)
          amounts
          (lose_mana-Stands s.level (share t) s.tries (sum_required ask word 1 s.level c).1 v'
            (omega arith) (omega arith) (omega arith)))
