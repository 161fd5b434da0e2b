-- ===== src/Items/Attributes.antt =====
-- The attributes of an item: ItemAttributes of src/items/item.h and item.cpp. An attribute is the
-- number of its bit in itemAttrTypes. The bits that are set and the vector of values are two maps, of
-- numbers and of strings, and the map of custom attributes; where a bit is not set there is `none`.
-- Numbers are int64_t, as words.
use forgotten_land.Base.{
  ℕ, ◌+◌, ◌-◌, ◌^◌, Bool, true, false, not, ◌&&◌, ◌||◌, ◌==◌, leb, ltb, if◌then◌else◌, Option, none,
  some, List, [], ◌∷◌, ◌++◌,
}
use forgotten_land.Items.ItemAttribute
use forgotten_land.Base.Words.{u8, u16, u32, u64, not_below_zero}

abbrev pub Text : Type 0
Text = List ℕ

-- A variant; the bytes of a floating point number are kept as they are.
pub data CustomAttribute : Type 0 where
  blank : CustomAttribute
  string : Text → CustomAttribute
  integer : ℕ → CustomAttribute
  double : ℕ → CustomAttribute
  boolean : Bool → CustomAttribute

-- The map of custom attributes, in the order in which it lists them.
abbrev pub CustomAttributeMap : Type 0
CustomAttributeMap = List (Text × CustomAttribute)

pub record Item : Type 0 where
  pub count : ℕ
  pub integers : ℕ → Option ℕ
  pub strings : ℕ → Option Text
  pub custom : Option CustomAttributeMap

pub record ItemType : Type 0 where
  pub is_fluid_container : Bool
  pub is_splash : Bool
  pub stackable : Bool
  pub charges : ℕ
  pub moveable : Bool

abbrev pub is_set {ℓ} : {A : Type ℓ} → Option A → Bool
is_set none = false
is_set (some a) = true

unfoldable pub is_str_attr_type : ℕ → Bool
is_str_attr_type type =
    (type == ItemAttribute.description)
    || (type == ItemAttribute.text)
    || (type == ItemAttribute.writer)
    || (type == ItemAttribute.name)
    || (type == ItemAttribute.article)
    || (type == ItemAttribute.plural_name)
    || (type == ItemAttribute.special)

abbrev pub number_or_zero : Option ℕ → ℕ
number_or_zero none = 0
number_or_zero (some value) = value

abbrev pub text_or_empty : Option Text → Text
text_or_empty none = []
text_or_empty (some value) = value

unfoldable pub get_int_attr : ℕ → Item → ℕ
get_int_attr type item = number_or_zero (item.integers type)

unfoldable pub get_str_attr : ℕ → Item → Text
unfolding is_str_attr_type
get_str_attr type item = if is_str_attr_type type then text_or_empty (item.strings type) else []

-- The calls here are of attributes that are numbers.
unfoldable pub set_int_attr : ℕ → ℕ → Item → Item
set_int_attr type value item = record item {
  integers = λ t. if t == type then some value else item.integers t;
}

-- `Item::setActionId`, with a `uint16_t`.
unfoldable pub set_action_id : ℕ → Item → Item
unfolding set_int_attr
set_action_id n item = set_int_attr ItemAttribute.action_id (if ltb n 100 then 100 else n) item

-- `Item::setUniqueId`; `taken` are the identifiers for which `Game::addUniqueItem` finds an item.
unfoldable pub set_unique_id : (ℕ → Bool) → ℕ → Item → Item
unfolding set_int_attr
set_unique_id taken n item =
    if is_set (item.integers ItemAttribute.unique_id)
    then item
    else if taken n
    then item
    else set_int_attr ItemAttribute.unique_id n item

abbrev pub is_empty : Text → Bool
is_empty [] = true
is_empty (c ∷ cs) = false

unfoldable pub set_str_attr : ℕ → Text → Item → Item
unfolding is_str_attr_type
set_str_attr type value item =
    if not (is_str_attr_type type)
    then item
    else if is_empty value
    then item
    else record item { strings = λ t. if t == type then some value else item.strings t }

-- `tolower` on ASCII.
unfoldable pub to_lower_case_string : Text → Text
to_lower_case_string [] = []
to_lower_case_string (c ∷ cs) =
    let rest = to_lower_case_string cs in if leb 65 c && leb c 90 then (c + 32) ∷ rest else c ∷ rest

unfoldable pub same_text : Text → Text → Bool
same_text [] [] = true
same_text (c ∷ cs) (d ∷ ds) = let rest = same_text cs ds in (c == d) && rest
same_text _ _ = false

unfoldable pub remove_key : Text → CustomAttributeMap → CustomAttributeMap
unfolding same_text
remove_key key [] = []
remove_key key (entry ∷ entries) =
    let rest = remove_key key entries in if same_text entry.0 key then entries else entry ∷ rest

abbrev pub custom_map : Option CustomAttributeMap → CustomAttributeMap
custom_map none = []
custom_map (some entries) = entries

-- A new key is listed behind the others.
unfoldable pub set_custom_attribute : Text → CustomAttribute → Item → Item
unfolding remove_key to_lower_case_string
set_custom_attribute key value item =
    let lower = to_lower_case_string key in
    record item {
      custom = some (remove_key lower (custom_map item.custom) ++ ((lower, value) ∷ []));
    }

unfoldable pub get_sub_type : ItemType → Item → ℕ
unfolding get_int_attr
get_sub_type it item =
    if it.is_fluid_container || it.is_splash
    then u16 (get_int_attr ItemAttribute.fluid_type item)
    else if it.stackable
    then item.count
    else if not (it.charges == 0)
    then u16 (get_int_attr ItemAttribute.charges item)
    else item.count

unfoldable pub set_sub_type : ItemType → ℕ → Item → Item
unfolding set_int_attr
set_sub_type it n item =
    if it.is_fluid_container || it.is_splash
    then set_int_attr ItemAttribute.fluid_type n item
    else if it.stackable
    then record item { count = u8 n }
    else if not (it.charges == 0)
    then set_int_attr ItemAttribute.charges n item
    else record item { count = u8 n }

unfoldable pub get_decaying : Item → ℕ
unfolding get_int_attr
get_decaying item = u8 (get_int_attr ItemAttribute.decay_state item)

-- 1 and 3 are DECAYING_TRUE and DECAYING_STOPPING.
unfoldable pub get_duration : ℕ → Item → ℕ
unfolding get_decaying
get_duration now item =
    if get_decaying item == 1 || get_decaying item == 3
    then not_below_zero (get_int_attr ItemAttribute.duration_timestamp item + (2 ^ 64 - u64 now))
    else u32 (get_int_attr ItemAttribute.duration item)
