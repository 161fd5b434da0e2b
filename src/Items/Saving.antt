-- ===== src/Items/Saving.antt =====
-- `serializeAttr` of src/items/item.cpp.
use forgotten_land.Base.{
  ℕ, Bool, true, not, ◌&&◌, ◌||◌, ◌==◌, if◌then◌else◌, Option, none, some, List, [], ◌∷◌, length,
}
use forgotten_land.Base.Words.{u16}
use forgotten_land.Loading.PropStream.{write, write_string}
use forgotten_land.Items.ItemAttribute
use forgotten_land.Items.Attributes.{
  Text, CustomAttributeMap, Item, ItemType, is_set, is_empty, get_int_attr, get_str_attr,
  get_sub_type, get_decaying, get_duration,
}
use forgotten_land.Items.Serialize.{write_custom_attribute}

-- `if (present) { write<uint8_t>(code); write… }`
unfoldable pub save_number : Bool → ℕ → ℕ → ℕ → List ℕ → List ℕ
unfolding write
save_number present code width value buffer =
    if present then write width value (write 1 code buffer) else buffer

unfoldable pub save_string : Bool → ℕ → Text → List ℕ → List ℕ
unfolding write write_string
save_string present code value buffer =
    if present then write_string value (write 1 code buffer) else buffer

-- An attribute of the item that is a number, or a string, if it is set.
unfoldable pub save_int_attr : ℕ → ℕ → ℕ → Item → List ℕ → List ℕ
unfolding save_number get_int_attr
save_int_attr code width type item =
    save_number (is_set (item.integers type)) code width (get_int_attr type item)

unfoldable pub save_str_attr : ℕ → ℕ → Item → List ℕ → List ℕ
unfolding save_string get_str_attr
save_str_attr code type item =
    save_string (is_set (item.strings type)) code (get_str_attr type item)

-- An attribute that is a number, if it is not 0, and a string, if it is not empty.
unfoldable pub save_nonzero : Bool → ℕ → ℕ → ℕ → List ℕ → List ℕ
unfolding save_number
save_nonzero applies code width value = save_number (applies && not (value == 0)) code width value

unfoldable pub save_nonempty : ℕ → ℕ → Item → List ℕ → List ℕ
unfolding save_string get_str_attr
save_nonempty code type item =
    save_string (not (is_empty (get_str_attr type item))) code (get_str_attr type item)

unfoldable pub write_entries : CustomAttributeMap → List ℕ → List ℕ
unfolding write_string write_custom_attribute
write_entries [] buffer = buffer
write_entries (entry ∷ entries) buffer =
    write_entries entries (write_custom_attribute entry.1 (write_string entry.0 buffer))

unfoldable pub save_custom : Option CustomAttributeMap → List ℕ → List ℕ
unfolding write write_entries
save_custom none buffer = buffer
save_custom (some entries) buffer =
    write_entries entries (write 8 (length entries) (write 1 37 buffer))

-- 1 and 2 are DECAYING_TRUE and DECAYING_PENDING.
unfoldable pub serialize_attr : ItemType → ℕ → Item → List ℕ
unfolding save_int_attr save_str_attr save_nonzero save_nonempty save_custom get_sub_type
    get_duration
serialize_attr it now item =
    let decay_state = get_decaying item in
    let has_sub_type = it.stackable || (it.is_fluid_container || it.is_splash) in
    let b1 = save_number has_sub_type 15 1 (get_sub_type it item) [] in
    let b2 = save_nonzero true 22 2 (u16 (get_int_attr ItemAttribute.charges item)) b1 in
    let b3 = save_nonzero it.moveable 4 2 (u16 (get_int_attr ItemAttribute.action_id item)) b2 in
    let b4 = save_nonempty 6 ItemAttribute.text item b3 in
    let b5 = save_nonzero true 18 4 (get_int_attr ItemAttribute.date item) b4 in
    let b6 = save_nonempty 19 ItemAttribute.writer item b5 in
    let b7 = save_nonempty 7 ItemAttribute.description item b6 in
    let b8 =
      save_number (is_set (item.integers ItemAttribute.duration)) 16 4 (get_duration now item) b7 in
    let b9 = save_number (decay_state == 1 || decay_state == 2) 17 1 decay_state b8 in
    let b10 = save_str_attr 24 ItemAttribute.name item b9 in
    let b11 = save_str_attr 25 ItemAttribute.article item b10 in
    let b12 = save_str_attr 26 ItemAttribute.plural_name item b11 in
    let b13 = save_int_attr 27 4 ItemAttribute.weight item b12 in
    let b14 = save_int_attr 28 4 ItemAttribute.attack item b13 in
    let b15 = save_int_attr 29 4 ItemAttribute.defense item b14 in
    let b16 = save_int_attr 30 4 ItemAttribute.extra_defense item b15 in
    let b17 = save_int_attr 35 4 ItemAttribute.imbuement_slot item b16 in
    let b18 = save_int_attr 36 1 ItemAttribute.open_container item b17 in
    let b19 = save_int_attr 31 4 ItemAttribute.armor item b18 in
    let b20 = save_int_attr 32 1 ItemAttribute.hit_chance item b19 in
    let b21 = save_int_attr 33 1 ItemAttribute.shoot_range item b20 in
    let b22 = save_str_attr 34 ItemAttribute.special item b21 in
    let b23 = save_custom item.custom b22 in
    let b24 = save_int_attr 38 4 ItemAttribute.quickloot_container item b23 in
    save_str_attr 39 ItemAttribute.imbuement_type item b24
