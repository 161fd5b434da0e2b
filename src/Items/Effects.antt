-- ===== src/Items/Effects.antt =====
-- What a saved attribute makes of the item that it is loaded into, attribute by attribute.
use forgotten_land.Base.{
  ℕ, ◌≡◌, refl, Bool, true, false, not, ◌&&◌, ◌||◌, ◌==◌, ltb, if◌then◌else◌, some,
}
use forgotten_land.Base.Words.{u8}
use forgotten_land.Items.ItemAttribute
use forgotten_land.Items.Attributes.{
  Text, Item, ItemType, is_empty, is_str_attr_type, set_int_attr, set_str_attr, set_sub_type,
}

unfoldable pub put_int : Bool → ℕ → ℕ → Item → Item
put_int present type value item = record item {
  integers =
      λ t. if t == type then (if present then some value else item.integers t) else item.integers t;
}

unfoldable pub put_str : Bool → ℕ → Text → Item → Item
put_str present type value item = record item {
  strings =
      λ t. if t == type then (if present then some value else item.strings t) else item.strings t;
}

abbrev pub is_fluid : ItemType → Bool
is_fluid it = it.is_fluid_container || it.is_splash

abbrev pub is_charged : ItemType → Bool
is_charged it = not (is_fluid it) && (not it.stackable && not (it.charges == 0))

abbrev pub is_counted : ItemType → Bool
is_counted it = not (is_fluid it) && (it.stackable || it.charges == 0)

unfoldable pub put_sub_type : Bool → ItemType → ℕ → Item → Item
unfolding put_int
put_sub_type present it value item =
    record (put_int (present && is_fluid it) ItemAttribute.fluid_type value
      (put_int (present && is_charged it) ItemAttribute.charges value item)) {
        count = if present && is_counted it then u8 value else item.count;
      }

if_same {ℓ} : {A : Type ℓ} (b : Bool) (x : A) → (if b then x else x) ≡ x
if_same true x = refl
if_same false x = refl

pub put_int-false : (type value : ℕ) (item : Item) → put_int false type value item ≡ item
unfolding put_int
put_int-false type value item =
    λ i. record item { integers = λ t. if_same (t == type) (item.integers t) i }

pub put_int-true :
    (type value : ℕ) (item : Item) → put_int true type value item ≡ set_int_attr type value item
unfolding put_int set_int_attr
put_int-true type value item = refl

pub put_str-false : (type : ℕ) (value : Text) (item : Item) → put_str false type value item ≡ item
unfolding put_str
put_str-false type value item =
    λ i. record item { strings = λ t. if_same (t == type) (item.strings t) i }

pub put_str-true :
    (type : ℕ) (value : Text) (item : Item)
    → is_str_attr_type type ≡ true
    → is_empty value ≡ false
    → set_str_attr type value item ≡ put_str true type value item
unfolding put_str set_str_attr
put_str-true type value item a b = rw (a, b)

pub put_sub_type-false :
    (it : ItemType) (value : ℕ) (item : Item) → put_sub_type false it value item ≡ item
unfolding put_sub_type
put_sub_type-false it value item =
    rw (put_int-false ItemAttribute.charges value item)
      (put_int-false ItemAttribute.fluid_type value item)

-- An action as `setActionId` sets it.
abbrev pub raised : ℕ → ℕ
raised value = if ltb value 100 then 100 else value

-- The same, with the tests on the type of the item.
sub_type_cases :
    (f s c : Bool) (value : ℕ) (item : Item)
    → record (put_int f ItemAttribute.fluid_type value
        (put_int (not f && (not s && not c)) ItemAttribute.charges value item)) {
          count = if not f && (s || c) then u8 value else item.count;
        }
      ≡ (if f
          then set_int_attr ItemAttribute.fluid_type value item
          else if s
          then record item { count = u8 value }
          else if not c
          then set_int_attr ItemAttribute.charges value item
          else record item { count = u8 value })
unfolding set_int_attr
sub_type_cases true s c value item = rw (
  put_int-false ItemAttribute.charges value item,
  put_int-true ItemAttribute.fluid_type value item,
)
sub_type_cases false true c value item = rw (
  put_int-false ItemAttribute.charges value item,
  put_int-false ItemAttribute.fluid_type value item,
)
sub_type_cases false false true value item = rw (
  put_int-false ItemAttribute.charges value item,
  put_int-false ItemAttribute.fluid_type value item,
)
sub_type_cases false false false value item = rw (
  put_int-true ItemAttribute.charges value item,
  put_int-false ItemAttribute.fluid_type (value) (set_int_attr ItemAttribute.charges value item),
)

pub put_sub_type-true :
    (it : ItemType) (value : ℕ) (item : Item)
    → put_sub_type true it value item ≡ set_sub_type it value item
unfolding put_sub_type set_sub_type
put_sub_type-true it value item =
    sub_type_cases (is_fluid it) it.stackable (it.charges == 0) value item
