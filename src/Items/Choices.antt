-- ===== src/Items/Choices.antt =====
-- The choice between an attribute that is loaded and the one that the item had, by the tests of
-- `serializeAttr` and of `setSubType` (src/items/item.cpp).
use forgotten_land.Base.{
  ℕ, ◌^◌, ◌<◌, ◌≡◌, refl, sym, ap, ◌⊎◌, inl, inr, Bool, true, false, not, ◌&&◌, ◌||◌, ◌==◌, ltb,
  if◌then◌else◌, Option, none, some, [], ◌∷◌, arith,
}
use forgotten_land.Base.Words.{u8, u16}
use forgotten_land.Items.Attributes.{
  Text, CustomAttributeMap, is_set, is_empty, number_or_zero, text_or_empty, custom_map,
}
use forgotten_land.Items.Customs.{more_custom}
use forgotten_land.Items.Effects.{raised}
use mathlib.Core.Bool.{true≢false}

abbrev pub or_else {ℓ} : {A : Type ℓ} → Option A → Option A → Option A
or_else none o = o
or_else (some a) o = some a

abbrev pub nonzero_or : Option ℕ → Option ℕ → Option ℕ
nonzero_or none o = o
nonzero_or (some v) o = if v == 0 then o else some v

pub set_or {ℓ} :
    {A : Type ℓ} (f : Option A → A) (o b : Option A)
    → ((a : A) → f (some a) ≡ a)
    → (if is_set o then some (f o) else b) ≡ or_else o b
set_or f none b h = refl
set_or f (some a) b h = ap some (h a)

pub nonzero_lem :
    (o b : Option ℕ)
    → (if not (number_or_zero o == 0) then some (number_or_zero o) else b) ≡ nonzero_or o b
nonzero_lem none b = refl
nonzero_lem (some v) b = ground arith

pub nonempty_lem :
    (o b : Option Text)
    → ((value : Text) → o ≡ some value → is_empty value ≡ false)
    → (if not (is_empty (text_or_empty o)) then some (text_or_empty o) else b) ≡ or_else o b
nonempty_lem none b h = refl
nonempty_lem (some v) b h = rw (h v refl)

-- An action of 1 to 99 is one of 100 once it is loaded.
abbrev pub action_or : Option ℕ → Option ℕ → Option ℕ
action_or none o = o
action_or (some v) o = if v == 0 then o else some (if ltb v 100 then 100 else v)

action_or_lem :
    (o b : Option ℕ)
    → (if not (number_or_zero o == 0) then some (raised (number_or_zero o)) else b) ≡ action_or o b
action_or_lem none b = refl
action_or_lem (some v) b = ground arith

pub action_lem :
    (m : Bool) (o b : Option ℕ)
    → number_or_zero o < 2 ^ 16
    → (if m && not (u16 (number_or_zero o) == 0) then some (raised (u16 (number_or_zero o))) else b)
      ≡ (if m then action_or o b else b)
action_lem false o b h = refl
action_lem true o b h =
    let same : u16 (number_or_zero o) ≡ number_or_zero o = omega arith in
    rw same (action_or_lem o b)

pub custom_lem :
    (o : Option CustomAttributeMap) (entries : CustomAttributeMap)
    → o ≡ none
    → custom_map (more_custom o entries) ≡ entries
custom_lem o [] e = rw e
custom_lem o (entry ∷ entries) e = rw e

-- The sub type of an item, from the tests on its type and where it may stand.
abbrev pub select : Bool → Bool → Bool → Option ℕ → ℕ → Option ℕ → ℕ
select f s c fluid count charges =
    if f
    then u16 (number_or_zero fluid)
    else if s
    then count
    else if not c
    then u16 (number_or_zero charges)
    else count

pub select_charged :
    (f s c : Bool) (fluid charges : Option ℕ) (count : ℕ)
    → (not f && (not s && not c)) ≡ true
    → select f s c fluid count charges ≡ u16 (number_or_zero charges)
select_charged false false false fluid charges count h = refl
select_charged false false true fluid charges count h = absurd (true≢false (sym h))
select_charged false true c fluid charges count h = absurd (true≢false (sym h))
select_charged true s c fluid charges count h = absurd (true≢false (sym h))

unless_charged : (z : Bool) → (false ≡ true) ⊎ (z ≡ false) → z ≡ false
unless_charged z either = elim either [ inl e ↦ absurd (true≢false (sym e)) | inr e ↦ e ]

-- The charges `ch` are loaded (`z`) over the sub type `n` over what the item had.
pub select_restored :
    (f s c z : Bool) (ch n count : ℕ) (fluid charges : Option ℕ)
    → let charged = not f && (not s && not c) in
      let counted = not f && (s || c) in
      ((charged ≡ true) ⊎ (z ≡ false))
      → (charged ≡ true → n ≡ ch)
      → ((s || f) ≡ true → n < 2 ^ 8)
      → ch < 2 ^ 16
      → select f s c
          (if z && f then some ch else if (s || f) && f then some n else fluid)
          (if z && counted then u8 ch else if (s || f) && counted then u8 n else count)
          (if z && charged then some ch else if (s || f) && charged then some n else charges)
        ≡ (if (s || f) || (charged && z) then n else select f s c fluid count charges)
select_restored true true c z ch n count fluid charges either same fits word =
    let e = unless_charged z either in rw e (omega (arith, fits refl))
select_restored true false c z ch n count fluid charges either same fits word =
    let e = unless_charged z either in rw e (omega (arith, fits refl))
select_restored false true c z ch n count fluid charges either same fits word =
    let e = unless_charged z either in rw e (omega (arith, fits refl))
select_restored false false true z ch n count fluid charges either same fits word =
    let e = unless_charged z either in rw e
select_restored false false false true ch n count fluid charges either same fits word =
    omega (arith, same refl)
select_restored false false false false ch n count fluid charges either same fits word = refl
