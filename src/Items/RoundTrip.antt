-- ===== src/Items/RoundTrip.antt =====
-- An item that is saved and loaded again: `serializeAttr` and `unserializeAttr` of src/items/item.cpp.
use forgotten_land.Base.{
  ℕ, ◌^◌, ◌≤◌, ◌<◌, ◌≡◌, refl, sym, ◌∙◌, ap, inl, inr, Option-cases, Bool, true, false, not, ◌&&◌,
  ◌||◌, ◌==◌, none, some, List, [], ◌∷◌, length, All, arith,
}
use forgotten_land.Base.Words.{u16}
use forgotten_land.Items.ItemAttribute
use forgotten_land.Items.Attributes.{
  Text, Item, ItemType, is_set, is_empty, custom_map, is_str_attr_type, get_int_attr, get_str_attr,
  get_sub_type, get_decaying, get_duration,
}
use forgotten_land.Items.Serialize.{Case, case_of, sign_extend, unserialize_attr}
use forgotten_land.Items.Saving.{
  save_string, save_int_attr, save_str_attr, save_nonzero, save_nonempty, serialize_attr,
}
use forgotten_land.Items.Effects.{put_int, put_str, put_sub_type, raised}
use forgotten_land.Items.Loaded.{Loaded, Loaded-nil, unserialize_attr-Loaded}
use forgotten_land.Items.Fields.{
  IsSigned, IsSigned-byte, IsSigned-word, load_unsigned, load_signed, load_sub_type, load_action_id,
  load_duration, load_decaying, load_string,
}
use mathlib.Core.Bool.{true≢false}
use forgotten_land.Network.Message.Bytes.{le_bytes, from_le}
use forgotten_land.Items.Customs.{Storables, put_custom, load_custom}

abbrev pub has_sub_type : ItemType → Bool
has_sub_type it = it.stackable || (it.is_fluid_container || it.is_splash)

-- An item whose values fit what they are saved as. A string that is set is not empty, as `setStrAttr`
-- has it; a type of an imbuement is never set, as it refuses it.
pub record IsSavable (it : ItemType) (now : ℕ) (item : Item) : Type 0 where
  pub short : (type : ℕ) → length (get_str_attr type item) ≤ 65535
  pub full : (type : ℕ) (value : Text) → item.strings type ≡ some value → is_empty value ≡ false
  pub no_imbuement : item.strings ItemAttribute.imbuement_type ≡ none
  pub sub_type : has_sub_type it ≡ true → get_sub_type it item < 2 ^ 8
  pub duration : get_duration now item < 2 ^ 31
  pub words :
      All
        (λ type. get_int_attr type item < 2 ^ 32)
        (ItemAttribute.weight ∷ ItemAttribute.quickloot_container ∷ [])
  pub bytes :
      All
        (λ type. get_int_attr type item < 2 ^ 8)
        (ItemAttribute.open_container ∷ ItemAttribute.shoot_range ∷ [])
  pub action_id : get_int_attr ItemAttribute.action_id item < 2 ^ 16
  pub signed :
      All
        (λ type. IsSigned (2 ^ 31) (get_int_attr type item))
        (ItemAttribute.date ∷ ItemAttribute.attack ∷ ItemAttribute.defense
          ∷ ItemAttribute.extra_defense ∷ ItemAttribute.imbuement_slot ∷ ItemAttribute.armor ∷ [])
  pub signed_byte : IsSigned (2 ^ 7) (get_int_attr ItemAttribute.hit_chance item)
  pub custom : Storables (custom_map item.custom)
  pub custom_few : length (custom_map item.custom) < 2 ^ 64

-- The item that `base` is after the loading.
unfoldable pub restored : ItemType → ℕ → Item → Item → Item
unfolding put_int put_str put_sub_type put_custom get_int_attr get_str_attr get_sub_type
    get_decaying get_duration
restored it now item base =
    let keep_int =
      λ (type : ℕ). put_int (is_set (item.integers type)) type (get_int_attr type item) in
    let keep_str =
      λ (type : ℕ). put_str (is_set (item.strings type)) type (get_str_attr type item) in
    let keep_text = λ (type : ℕ).
      put_str (not (is_empty (get_str_attr type item))) type (get_str_attr type item) in
    let charges = u16 (get_int_attr ItemAttribute.charges item) in
    let action_id = u16 (get_int_attr ItemAttribute.action_id item) in
    let date = get_int_attr ItemAttribute.date item in
    let decaying = get_decaying item == 1 || get_decaying item == 2 in
    let x1 = put_sub_type (has_sub_type it) it (get_sub_type it item) base in
    let x2 = put_sub_type (true && not (charges == 0)) it charges x1 in
    let x3 =
      put_int (it.moveable && not (action_id == 0)) ItemAttribute.action_id (raised action_id) x2 in
    let x4 = keep_text ItemAttribute.text x3 in
    let x5 = put_int (true && not (date == 0)) ItemAttribute.date date x4 in
    let x6 = keep_text ItemAttribute.writer x5 in
    let x7 = keep_text ItemAttribute.description x6 in
    let x8 =
      put_int (is_set (item.integers ItemAttribute.duration)) ItemAttribute.duration
        (get_duration now item) x7 in
    let x9 = put_int decaying ItemAttribute.decay_state 2 x8 in
    let x10 = keep_str ItemAttribute.name x9 in
    let x11 = keep_str ItemAttribute.article x10 in
    let x12 = keep_str ItemAttribute.plural_name x11 in
    let x13 = keep_int ItemAttribute.weight x12 in
    let x14 = keep_int ItemAttribute.attack x13 in
    let x15 = keep_int ItemAttribute.defense x14 in
    let x16 = keep_int ItemAttribute.extra_defense x15 in
    let x17 = keep_int ItemAttribute.imbuement_slot x16 in
    let x18 = keep_int ItemAttribute.open_container x17 in
    let x19 = keep_int ItemAttribute.armor x18 in
    let x20 = keep_int ItemAttribute.hit_chance x19 in
    let x21 = keep_int ItemAttribute.shoot_range x20 in
    let x22 = keep_str ItemAttribute.special x21 in
    let x23 = put_custom (custom_map item.custom) x22 in
    keep_int ItemAttribute.quickloot_container x23

not-true : (b : Bool) → not b ≡ true → b ≡ false
not-true false e = refl
not-true true e = sym e

module _ (taken : ℕ → Bool) (it : ItemType) (now : ℕ) (item base : Item)
    (h : IsSavable it now item) where
  set_full :
      (type : ℕ)
      → is_str_attr_type type ≡ true
      → is_set (item.strings type) ≡ true
      → is_empty (get_str_attr type item) ≡ false
  unfolding get_str_attr
  set_full type string e = elim (Option-cases (item.strings type)) [
    | inl n ↦ absurd (true≢false (sym e ∙ ap is_set n))
    | inr (value, full) ↦ rw (string, full) (h.full type value full)
  ]

  string_lem :
      (code type : ℕ) {buffer : List ℕ} {x : Item}
      → (code == 0) ≡ false
      → code < 256
      → case_of code ≡ Case.string type
      → is_str_attr_type type ≡ true
      → Loaded taken it base buffer x
      → Loaded taken it base
          (save_str_attr code type item buffer)
          (put_str (is_set (item.strings type)) type (get_str_attr type item) x)
  unfolding save_str_attr
  string_lem code type nonzero byte found string l =
      load_string l (is_set (item.strings type)) code type (get_str_attr type item) nonzero byte
        found string (h.short type) (set_full type string)

  text_lem :
      (code type : ℕ) {buffer : List ℕ} {x : Item}
      → (code == 0) ≡ false
      → code < 256
      → case_of code ≡ Case.string type
      → is_str_attr_type type ≡ true
      → Loaded taken it base buffer x
      → Loaded taken it base
          (save_nonempty code type item buffer)
          (put_str (not (is_empty (get_str_attr type item))) type (get_str_attr type item) x)
  unfolding save_nonempty
  text_lem code type nonzero byte found string l =
      load_string l (not (is_empty (get_str_attr type item))) code type (get_str_attr type item)
        nonzero byte found string (h.short type) (not-true (is_empty (get_str_attr type item)))

  unsigned_lem :
      (code width type : ℕ) {buffer : List ℕ} {x : Item}
      → (code == 0) ≡ false
      → code < 256
      → case_of code ≡ Case.unsigned width type
      → get_int_attr type item < 256 ^ width
      → Loaded taken it base buffer x
      → Loaded taken it base
          (save_int_attr code width type item buffer)
          (put_int (is_set (item.integers type)) type (get_int_attr type item) x)
  unfolding save_int_attr
  unsigned_lem code width type nonzero byte found fits l =
      load_unsigned l (is_set (item.integers type)) code type (get_int_attr type item) nonzero byte
        width found fits

  signed_lem :
      (code width type : ℕ) {buffer : List ℕ} {x : Item}
      → (code == 0) ≡ false
      → code < 256
      → case_of code ≡ Case.signed width type
      → sign_extend width (from_le (le_bytes width (get_int_attr type item)))
        ≡ get_int_attr type item
      → Loaded taken it base buffer x
      → Loaded taken it base
          (save_int_attr code width type item buffer)
          (put_int (is_set (item.integers type)) type (get_int_attr type item) x)
  unfolding save_int_attr
  signed_lem code width type nonzero byte found fits l =
      load_signed l (is_set (item.integers type)) code type (get_int_attr type item) nonzero byte
        width found fits

  word_lem :
      (code type : ℕ) {buffer : List ℕ} {x : Item}
      → (code == 0) ≡ false
      → code < 256
      → case_of code ≡ Case.signed 4 type
      → IsSigned (2 ^ 31) (get_int_attr type item)
      → Loaded taken it base buffer x
      → Loaded taken it base
          (save_int_attr code 4 type item buffer)
          (put_int (is_set (item.integers type)) type (get_int_attr type item) x)
  word_lem code type nonzero byte found fits =
      signed_lem code 4 type nonzero byte found (IsSigned-word (get_int_attr type item) fits)

  imbuement_lem :
      {buffer : List ℕ} {x : Item}
      → Loaded taken it base buffer x
      → Loaded taken it base (save_str_attr 39 ItemAttribute.imbuement_type item buffer) x
  unfolding save_str_attr save_string
  imbuement_lem l = rw h.no_imbuement l

  -- What is saved makes the item that is to be restored.
  pub restored_lem :
      base.custom ≡ none
      → unserialize_attr taken it (serialize_attr it now item) base
        ≡ some (restored it now item base)
  unfolding serialize_attr restored save_nonzero case_of is_str_attr_type put_int put_str
      put_sub_type
  restored_lem plain =
      let charges = u16 (get_int_attr ItemAttribute.charges item) in
      let action_id = u16 (get_int_attr ItemAttribute.action_id item) in
      let date = get_int_attr ItemAttribute.date item in
      let l1 =
        load_sub_type (Loaded-nil taken it base) (has_sub_type it) 15 1 (get_sub_type it item) refl
          (omega arith) refl h.sub_type in
      let l2 =
        load_sub_type l1 (true && not (charges == 0)) 22 2 charges refl (omega arith) refl
          (λ e. omega arith) in
      let l3 = load_action_id l2 (it.moveable && not (action_id == 0)) action_id (omega arith) in
      let l4 = text_lem 6 ItemAttribute.text refl (omega arith) refl refl l3 in
      let l5 =
        load_signed l4 (true && not (date == 0)) 18 ItemAttribute.date date refl (omega arith) 4
          refl (IsSigned-word date h.signed.0) in
      let l6 = text_lem 19 ItemAttribute.writer refl (omega arith) refl refl l5 in
      let l7 = text_lem 7 ItemAttribute.description refl (omega arith) refl refl l6 in
      let l8 =
        load_duration l7 (is_set (item.integers ItemAttribute.duration)) (get_duration now item)
          h.duration in
      let l9 = load_decaying l8 (get_decaying item) (unfold get_decaying in omega arith) in
      let l10 = string_lem 24 ItemAttribute.name refl (omega arith) refl refl l9 in
      let l11 = string_lem 25 ItemAttribute.article refl (omega arith) refl refl l10 in
      let l12 = string_lem 26 ItemAttribute.plural_name refl (omega arith) refl refl l11 in
      let l13 = unsigned_lem 27 4 ItemAttribute.weight refl (omega arith) refl h.words.0 l12 in
      let l14 = word_lem 28 ItemAttribute.attack refl (omega arith) refl h.signed.1.0 l13 in
      let l15 = word_lem 29 ItemAttribute.defense refl (omega arith) refl h.signed.1.1.0 l14 in
      let l16 =
        word_lem 30 ItemAttribute.extra_defense refl (omega arith) refl h.signed.1.1.1.0 l15 in
      let l17 =
        word_lem 35 ItemAttribute.imbuement_slot refl (omega arith) refl h.signed.1.1.1.1.0 l16 in
      let l18 =
        unsigned_lem 36 1 ItemAttribute.open_container refl (omega arith) refl h.bytes.0 l17 in
      let l19 = word_lem 31 ItemAttribute.armor refl (omega arith) refl h.signed.1.1.1.1.1.0 l18 in
      let l20 =
        signed_lem 32 1 ItemAttribute.hit_chance refl (omega arith) refl
          (IsSigned-byte (get_int_attr ItemAttribute.hit_chance item) h.signed_byte) l19 in
      let l21 =
        unsigned_lem 33 1 ItemAttribute.shoot_range refl (omega arith) refl h.bytes.1.0 l20 in
      let l22 = string_lem 34 ItemAttribute.special refl (omega arith) refl refl l21 in
      let l23 = load_custom l22 item.custom h.custom h.custom_few plain in
      let l24 =
        unsigned_lem 38 4 ItemAttribute.quickloot_container refl (omega arith) refl h.words.1.0
          l23 in
      unserialize_attr-Loaded taken it base _ _ (imbuement_lem l24)
