-- ===== src/Items/Restored.antt =====
-- What an item has after it was saved and loaded (src/items/item.cpp), attribute by attribute.
use forgotten_land.Base.{
  ℕ, ◌≡◌, refl, ◌⊎◌, inl, inr, Bool, true, false, not, ◌&&◌, ◌||◌, ◌==◌, if◌then◌else◌, none, some,
  [], ◌∷◌, All, arith,
}
use forgotten_land.Base.Words.{u16}
use forgotten_land.Items.ItemAttribute
use forgotten_land.Items.Attributes.{
  Item, ItemType, is_set, is_empty, number_or_zero, text_or_empty, custom_map, get_int_attr,
  get_str_attr, get_sub_type, get_decaying, get_duration, is_str_attr_type,
}
use forgotten_land.Items.Serialize.{unserialize_attr}
use forgotten_land.Items.Saving.{serialize_attr}
use forgotten_land.Items.Effects.{put_int, put_str, put_sub_type, is_fluid, is_charged}
use forgotten_land.Items.Customs.{put_custom}
use forgotten_land.Items.RoundTrip.{IsSavable, has_sub_type, restored, restored_lem}
use forgotten_land.Items.Choices.{
  or_else, nonzero_or, action_or, set_or, nonzero_lem, nonempty_lem, action_lem, custom_lem,
  select_charged, select_restored,
}

-- The attributes of `item`, and those of `base` where `item` has none that is saved.
pub record IsRestored (it : ItemType) (now : ℕ) (item base loaded : Item) : Type 0 where
  pub numbers :
      All
        (λ type. loaded.integers type ≡ or_else (item.integers type) (base.integers type))
        (ItemAttribute.weight ∷ ItemAttribute.attack ∷ ItemAttribute.defense
          ∷ ItemAttribute.extra_defense ∷ ItemAttribute.imbuement_slot
          ∷ ItemAttribute.open_container ∷ ItemAttribute.armor ∷ ItemAttribute.hit_chance
          ∷ ItemAttribute.shoot_range ∷ ItemAttribute.quickloot_container ∷ [])
  pub texts :
      All
        (λ type. loaded.strings type ≡ or_else (item.strings type) (base.strings type))
        (ItemAttribute.text ∷ ItemAttribute.writer ∷ ItemAttribute.description ∷ ItemAttribute.name
          ∷ ItemAttribute.article ∷ ItemAttribute.plural_name ∷ ItemAttribute.special ∷ [])
  pub date :
      loaded.integers ItemAttribute.date
      ≡ nonzero_or (item.integers ItemAttribute.date) (base.integers ItemAttribute.date)
  pub action_id : loaded.integers ItemAttribute.action_id ≡ (
      if it.moveable
      then action_or (item.integers ItemAttribute.action_id) (base.integers ItemAttribute.action_id)
      else base.integers ItemAttribute.action_id)
  pub duration : loaded.integers ItemAttribute.duration ≡ (
      if is_set (item.integers ItemAttribute.duration)
      then some (get_duration now item)
      else base.integers ItemAttribute.duration)
  pub decaying : loaded.integers ItemAttribute.decay_state ≡ (
      if get_decaying item == 1 || get_decaying item == 2
      then some 2
      else base.integers ItemAttribute.decay_state)
  pub custom : custom_map loaded.custom ≡ custom_map item.custom
  pub sub_type : get_sub_type it loaded ≡ (
      if has_sub_type it
        || (is_charged it && not (u16 (get_int_attr ItemAttribute.charges item) == 0))
      then get_sub_type it item
      else get_sub_type it base)

module _ (it : ItemType) (now : ℕ) (item base : Item) (h : IsSavable it now item) where
  number_restored :
      (type : ℕ)
      → (if is_set (item.integers type)
          then some (number_or_zero (item.integers type))
          else base.integers type)
        ≡ or_else (item.integers type) (base.integers type)
  number_restored type = set_or number_or_zero (item.integers type) (base.integers type) (λ a. refl)

  text_restored :
      (type : ℕ)
      → (if is_set (item.strings type)
          then some (text_or_empty (item.strings type))
          else base.strings type)
        ≡ or_else (item.strings type) (base.strings type)
  text_restored type = set_or text_or_empty (item.strings type) (base.strings type) (λ a. refl)

  kept_restored :
      (type : ℕ)
      → (if not (is_empty (text_or_empty (item.strings type)))
          then some (text_or_empty (item.strings type))
          else base.strings type)
        ≡ or_else (item.strings type) (base.strings type)
  kept_restored type = nonempty_lem (item.strings type) (base.strings type) (h.full type)

  sub_type_restored :
      (is_charged it ≡ true) ⊎ (u16 (get_int_attr ItemAttribute.charges item) ≡ 0)
      → get_sub_type it (restored it now item base) ≡ (
          if has_sub_type it
            || (is_charged it && not (u16 (get_int_attr ItemAttribute.charges item) == 0))
          then get_sub_type it item
          else get_sub_type it base)
  unfolding restored put_int put_str put_sub_type put_custom get_int_attr get_sub_type
  sub_type_restored charged =
      let ch = u16 (number_or_zero (item.integers ItemAttribute.charges)) in
      let z = not (ch == 0) in
      let either : (is_charged it ≡ true) ⊎ (z ≡ false) = elim charged [
        | inl e ↦ inl e
        | inr e ↦ inr (ground arith)
      ] in
      let owned =
        select_charged (is_fluid it) it.stackable (it.charges == 0)
          (item.integers ItemAttribute.fluid_type) (item.integers ItemAttribute.charges)
          item.count in
      select_restored (is_fluid it) it.stackable (it.charges == 0) z ch (get_sub_type it item)
        base.count (base.integers ItemAttribute.fluid_type) (base.integers ItemAttribute.charges)
        either owned h.sub_type (omega arith)

  restored-IsRestored :
      base.custom ≡ none
      → (is_charged it ≡ true) ⊎ (u16 (get_int_attr ItemAttribute.charges item) ≡ 0)
      → IsRestored it now item base (restored it now item base)
  unfolding restored put_int put_str put_sub_type put_custom get_int_attr get_str_attr
      is_str_attr_type
  restored-IsRestored plain charged = record {
    numbers = (
      number_restored _,
      (
        number_restored _,
        (
          number_restored _,
          (
            number_restored _,
            (
              number_restored _,
              (
                number_restored _,
                (
                  number_restored _,
                  (number_restored _, (number_restored _, (number_restored _, tt))),
                ),
              ),
            ),
          ),
        ),
      ),
    );
    texts = (
      kept_restored _,
      (
        kept_restored _,
        (
          kept_restored _,
          (text_restored _, (text_restored _, (text_restored _, (text_restored _, tt)))),
        ),
      ),
    );
    date = nonzero_lem (item.integers ItemAttribute.date) (base.integers ItemAttribute.date);
    action_id =
        action_lem it.moveable (item.integers ItemAttribute.action_id)
          (base.integers ItemAttribute.action_id) h.action_id;
    duration = refl;
    decaying = refl;
    custom = custom_lem base.custom (custom_map item.custom) plain;
    sub_type = sub_type_restored charged;
  }

-- An item whose values fit what they are saved as, whose charges are 0 or which is of a type with
-- charges and neither stackable nor a fluid, is loaded from what was saved without an error, into any
-- item of its type without custom attributes: that one then has all attributes that are saved as they
-- were, in strings, numbers and custom attributes, but an action of 1 to 99, which becomes 100, and its
-- own where there were none; the
-- duration that was left; a decay that waits where one ran or waited; and the sub type.
pub unserialize_attr-serialize_attr :
    (taken : ℕ → Bool) (it : ItemType) (now : ℕ) (item base : Item)
    → IsSavable it now item
    → base.custom ≡ none
    → (is_charged it ≡ true) ⊎ (u16 (get_int_attr ItemAttribute.charges item) ≡ 0)
    → (loaded : Item) × (unserialize_attr taken it (serialize_attr it now item) base ≡ some loaded)
      × IsRestored it now item base loaded
unserialize_attr-serialize_attr taken it now item base h plain charged = (
  restored it now item base,
  restored_lem taken it now item base h plain,
  restored-IsRestored it now item base h plain charged,
)
