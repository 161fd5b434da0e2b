-- ===== src/Advancing/Ledger.antt =====
-- Histories of a magic level in src/creatures/players/player.cpp against a ledger of mana.
use forgotten_land.Base.{
  ℕ, ◌+◌, ◌-◌, ◌^◌, ◌<◌, ◌≡◌, refl, inl, inr, arith, leb, ltb, false, Bool-cases, if◌then◌else◌,
  List, [], ◌∷◌, Option, none, some,
}
use mathlib.Core.Path.{subst}
use mathlib.Core.Option.{some-injective}
use forgotten_land.Advancing.Tries.{Skill, add_mana_spent, lose_magic_levels}
use forgotten_land.Advancing.Sums.{sum_to}
use forgotten_land.Advancing.Totals.{IsScale, Answers, IsNormal, Stands, total, add_tries-Stands}
use forgotten_land.Base.Words.{u32}
use forgotten_land.Advancing.Vocation.{Formulas, Cache, get_req_mana}
use forgotten_land.Advancing.Requirements.{Agrees, mana_value, get_req_mana-Answers}
use forgotten_land.Advancing.Losses.{lose_magic_levels-Stands}

-- `on_gain` is what a script makes of an amount, `share` the part that a death takes.
pub data Op : Type 0 where
  spend : (ℕ → ℕ) → ℕ → Op
  die : (ℕ → ℕ) → Op

-- The ledger. It has no entry where a gain reaches `limit`, or a share is more than the whole.
unfoldable pub ledger : ℕ → List Op → ℕ → Option ℕ
ledger limit [] t = some t
ledger limit (Op.spend on_gain amount ∷ ops) t =
    let rest = ledger limit ops (t + on_gain amount) in
    if ltb (t + on_gain amount) limit then rest else none
ledger limit (Op.die share ∷ ops) t =
    let rest = ledger limit ops (t - share t) in if leb (share t) t then rest else none

module _ {Cache : Type 0} (ask : ℕ → Cache → ℕ × Cache) (word : ℕ → ℕ) where
  unfoldable pub step : Op → Skill → Cache → Skill × Cache
  step (Op.spend on_gain amount) s c = add_mana_spent ask word false on_gain amount s c
  step (Op.die share) s c = lose_magic_levels ask word share s c

  unfoldable pub run : List Op → Skill → Cache → Skill × Cache
  run [] s c = (s, c)
  run (op ∷ ops) s c = let (s', c') = step op s c in run ops s' c'

  module _ (Valid : Cache → Type 0) (value : ℕ → ℕ) (top : ℕ) (answers : Answers ask Valid value)
      (scale : IsScale value word 0 top) where
    run-Stands :
        (ops : List Op) (t u : ℕ) (s : Skill) (c : Cache)
        → Stands Valid value 0 t s c
        → t < sum_to value top
        → ledger (sum_to value top) ops t ≡ some u
        → Stands Valid value 0 u (run ops s c).0 (run ops s c).1
    unfolding run ledger step add_mana_spent
    run-Stands [] t u s c h below e =
        subst (λ v. Stands Valid value 0 v s c) (some-injective _ _ e) h
    run-Stands (Op.spend on_gain amount ∷ ops) t u s c h below e =
        elim (Bool-cases (ltb (t + on_gain amount) (sum_to value top))) [
          | inl fits ↦
              let here : t + on_gain amount < sum_to value top = ground arith in
              run-Stands ops (t + on_gain amount) u _ _
                (add_tries-Stands ask word Valid value 0 top answers scale on_gain amount t s c h
                  here)
                here (rw fits at e)
          | inr over ↦ absurd (cc (rw (ledger, over) at e))
        ]
    run-Stands (Op.die share ∷ ops) t u s c h below e = elim (Bool-cases (leb (share t) t)) [
      | inl part ↦
          let whole : t < 2 ^ 64 = let bound = scale.fits in omega arith in
          let here : t - share t < sum_to value top = omega arith in
          run-Stands ops (t - share t) u _ _
            (lose_magic_levels-Stands ask word Valid value top answers scale share t s c h whole
              (ground arith))
            here (rw part at e)
      | inr over ↦ absurd (cc (rw (ledger, over) at e))
    ]

-- A magic level and the mana spent since, in their normal form, of a vocation that requires more mana
-- for each level up to `top`, all together in 64 bits. After a history of gains and deaths in which the
-- ledger has an entry for the whole, that is, the mana of all levels and since stays below that for
-- `top`, and no death takes more than there is: the mana of all levels and since is the entry of the
-- ledger, which adds what scripts make of the gains and takes off the shares of the deaths, and the
-- magic level is in its normal form again.
pub run-total :
    (f : Formulas) (top : ℕ) (ops : List Op) (u : ℕ) (s : Skill) (c : Cache)
    → IsScale (mana_value f) u32 0 top
    → Agrees (mana_value f) c
    → IsNormal (mana_value f) 0 s
    → total (mana_value f) s < sum_to (mana_value f) top
    → ledger (sum_to (mana_value f) top) ops (total (mana_value f) s) ≡ some u
    → let (s', c') = run (get_req_mana f) u32 ops s c in
      (total (mana_value f) s' ≡ u) × IsNormal (mana_value f) 0 s'
run-total f top ops u s c scale agrees normal below e =
    let h =
      run-Stands (get_req_mana f) u32 (Agrees (mana_value f)) (mana_value f) top
        (get_req_mana-Answers f) scale ops (total (mana_value f) s) u s c
        (record { valid = agrees; normal = normal; amounts = refl }) below e in
    (h.amounts, h.normal)
