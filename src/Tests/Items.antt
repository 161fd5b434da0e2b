-- ===== src/Tests/Items.antt =====
-- Items that are saved and loaded.
use forgotten_land.Base.{
  ℕ, ◌-◌, ◌^◌, ◌≡◌, ◌==◌, if◌then◌else◌, refl, [], ◌∷◌, Option, some, none, inl, inr, ◌≤◌, sym, ap,
  Bool-cases, length, true, false, arith,
}
use mathlib.Core.Option as Option
use mathlib.Core.Bool.{true≢false}
use forgotten_land.Network.Message.Bytes.{le_bytes, from_le}
use forgotten_land.Loading.PropStream.{read, skip, read_text, read_string, write, write_string}
use forgotten_land.Items.ItemAttribute
use forgotten_land.Items.Attributes.{
  CustomAttribute, Item, ItemType, Text, is_set, is_empty, text_or_empty, is_str_attr_type,
  get_int_attr, get_str_attr, set_int_attr, set_action_id, set_unique_id, set_str_attr,
  to_lower_case_string, same_text, remove_key, set_custom_attribute, get_sub_type, set_sub_type,
  get_decaying, get_duration,
}
use forgotten_land.Items.Serialize.{
  case_of, sign_extend, write_custom_attribute, read_variant, read_custom_attribute, read_custom,
  read_case, read_attr, unserialize_from, unserialize_attr,
}
use forgotten_land.Items.Saving.{
  save_number, save_string, save_int_attr, save_str_attr, save_nonzero, save_nonempty,
  write_entries, save_custom, serialize_attr,
}
use forgotten_land.Items.RoundTrip.{IsSavable}
use forgotten_land.Items.Restored.{IsRestored, unserialize_attr-serialize_attr}

program : Unit {0}
unfolding le_bytes from_le read skip read_text read_string write write_string is_str_attr_type
    get_int_attr get_str_attr set_int_attr set_action_id set_unique_id set_str_attr
    to_lower_case_string same_text remove_key set_custom_attribute get_sub_type set_sub_type
    get_decaying get_duration case_of sign_extend write_custom_attribute read_variant
    read_custom_attribute read_custom read_case read_attr unserialize_from unserialize_attr
    save_number save_string save_int_attr save_str_attr save_nonzero save_nonempty write_entries
    save_custom serialize_attr
program = tt

abbrev letter : ItemType
letter = record {
  is_fluid_container = false;
  is_splash = false;
  stackable = false;
  charges = 0;
  moveable = true;
}

-- A new letter, and one with an action, a text, an attack of -2 and two custom attributes, which has
-- 500 milliseconds to go at the time 1000.
abbrev fresh : Item
fresh = record { count = 1; integers = λ t. none; strings = λ t. none; custom = none }

abbrev numbers : ℕ → Option ℕ
numbers t =
    if t == ItemAttribute.action_id
    then some 4000
    else if t == ItemAttribute.attack
    then some (2 ^ 64 - 2)
    else if t == ItemAttribute.duration
    then some 900
    else if t == ItemAttribute.decay_state
    then some 1
    else if t == ItemAttribute.duration_timestamp
    then some 1500
    else none

abbrev texts : ℕ → Option Text
texts t = if t == ItemAttribute.text then some (104 ∷ 105 ∷ []) else none

abbrev sample : Item
sample = record {
  count = 1;
  integers = numbers;
  strings = texts;
  custom =
      some (
        (97 ∷ [], CustomAttribute.boolean true)
        ∷ (98 ∷ [], CustomAttribute.string (120 ∷ []))
        ∷ []);
}

sample_saved :
    serialize_attr letter 1000 sample
    ≡ 4 ∷ 160 ∷ 15 ∷ 6 ∷ 2 ∷ 0 ∷ 104 ∷ 105 ∷ 16 ∷ 244 ∷ 1 ∷ 0 ∷ 0 ∷ 17 ∷ 1 ∷ 28 ∷ 254 ∷ 255 ∷ 255
      ∷ 255 ∷ 37 ∷ 2 ∷ 0 ∷ 0 ∷ 0 ∷ 0 ∷ 0 ∷ 0 ∷ 0 ∷ 1 ∷ 0 ∷ 97 ∷ 4 ∷ 1 ∷ 1 ∷ 0 ∷ 98 ∷ 1 ∷ 1 ∷ 0 ∷ 120
      ∷ []
sample_saved = unfold program in refl

-- Of a coin, which is stackable, the charges are loaded as its count.
abbrev coin : ItemType
coin = record {
  is_fluid_container = false;
  is_splash = false;
  stackable = true;
  charges = 0;
  moveable = true;
}

abbrev charged : Item
charged = record fresh {
  count = 40;
  integers = λ t. if t == ItemAttribute.charges then some 7 else none;
}

charges_loaded :
    Option.map
      (λ (x : Item). x.count)
      (unserialize_attr (λ n. false) coin (serialize_attr coin 0 charged) fresh)
    ≡ some 7
charges_loaded = unfold program in refl

-- The type of an imbuement is not set.
imbuement :
    (set_str_attr ItemAttribute.imbuement_type (97 ∷ []) fresh).strings ItemAttribute.imbuement_type
    ≡ none
imbuement = unfold program in refl

-- An action of 50 is loaded as 100.
action_raised :
    Option.map
      (λ (x : Item). x.integers ItemAttribute.action_id)
      (unserialize_attr (λ n. false) letter (4 ∷ 50 ∷ 0 ∷ []) fresh)
    ≡ some (some 100)
action_raised = unfold program in refl

-- An identifier that another item has is not set.
unique_id_taken :
    Option.map
      (λ (x : Item). x.integers ItemAttribute.unique_id)
      (unserialize_attr (λ n. n == 3000) letter (5 ∷ 184 ∷ 11 ∷ []) fresh)
    ≡ some none
unique_id_taken = unfold program in refl

-- A truncated string is refused.
truncated : unserialize_attr (λ n. false) letter (6 ∷ 3 ∷ 0 ∷ 104 ∷ []) fresh ≡ none
truncated = unfold program in refl

texts_short : (type : ℕ) → length (text_or_empty (texts type)) ≤ 65535
texts_short type = elim (Bool-cases (type == ItemAttribute.text)) [
  | inl e ↦ rw e (omega arith)
  | inr e ↦ rw e (omega arith)
]

sample_short : (type : ℕ) → length (get_str_attr type sample) ≤ 65535
unfolding get_str_attr
sample_short type = elim (Bool-cases (is_str_attr_type type)) [
  | inl e ↦ rw e (texts_short type)
  | inr e ↦ rw e (omega arith)
]

sample_full : (type : ℕ) (value : Text) → texts type ≡ some value → is_empty value ≡ false
sample_full type value h = elim (Bool-cases (type == ItemAttribute.text)) [
  | inl e ↦ sym (ap (λ (o : Option Text). is_empty (text_or_empty o)) (rw e at h))
  | inr e ↦ absurd (true≢false (sym (ap is_set (rw e at h))))
]

sample-IsSavable : IsSavable letter 1000 sample
unfolding get_str_attr is_str_attr_type get_int_attr get_sub_type get_duration get_decaying
    to_lower_case_string same_text
sample-IsSavable = record {
  short = sample_short;
  full = sample_full;
  no_imbuement = refl;
  sub_type = λ e. omega arith;
  duration = omega arith;
  words = (omega arith, (omega arith, tt));
  bytes = (omega arith, (omega arith, tt));
  action_id = omega arith;
  signed = (
    inl (omega arith),
    (
      inr (omega arith, omega arith),
      (inl (omega arith), (inl (omega arith), (inl (omega arith), (inl (omega arith), tt)))),
    ),
  );
  signed_byte = inl (omega arith);
  custom =
      ((refl, (omega arith, tt)), ((refl, tt), ((refl, (omega arith, omega arith)), (tt, tt))));
  custom_few = omega arith;
}

unserialize_attr-serialize_attr_example :
    (loaded : Item) × (unserialize_attr
        (λ n. false)
        letter
        (serialize_attr letter 1000 sample)
        fresh
      ≡ some loaded)
    × IsRestored letter 1000 sample fresh loaded
unserialize_attr-serialize_attr_example =
    unserialize_attr-serialize_attr (λ n. false) letter 1000 sample fresh sample-IsSavable refl
      (inr (unfold program in refl))
