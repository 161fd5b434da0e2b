-- ===== src/Items/Serialize.antt =====
-- Saving and loading the attributes of an item: `serializeAttr`, `readAttr` and `unserializeAttr` of
-- src/items/item.cpp, and CustomAttribute of src/items/item.h, over the streams of
-- src/io/fileloader.h. Loading that fails is `none`.
use forgotten_land.Base.{
  ℕ, zero, suc, ◌+◌, ◌-◌, ◌*◌, ◌^◌, Bool, not, ◌==◌, leb, if◌then◌else◌, Option, none, some, ◌>>=◌,
  List, [], ◌∷◌, length,
}
use forgotten_land.Base.Words.{not_below_zero}
use forgotten_land.Loading.PropStream.{read, skip, read_string, write, write_string}
use forgotten_land.Items.ItemAttribute
use forgotten_land.Items.Attributes.{
  CustomAttribute, Item, ItemType, set_int_attr, set_action_id, set_unique_id, set_str_attr,
  set_custom_attribute, set_sub_type,
}

-- What a case of `readAttr` reads and where it puts it. The bytes of a signed number are extended by the sign.
pub data Case : Type 0 where
  sub_type : ℕ → Case
  unsigned signed : ℕ → ℕ → Case
  string : ℕ → Case
  action_id unique_id duration decaying custom refused : Case
  skipped : ℕ → Case

-- The values of AttrTypes_t with their cases; any other is refused, as is that of the items in a container.
abbrev cases : List (ℕ × Case)
cases =
    (4, Case.action_id)
    ∷ (5, Case.unique_id)
    ∷ (6, Case.string ItemAttribute.text)
    ∷ (7, Case.string ItemAttribute.description)
    ∷ (8, Case.skipped 5)
    ∷ (10, Case.skipped 2)
    ∷ (12, Case.sub_type 1)
    ∷ (14, Case.skipped 1)
    ∷ (15, Case.sub_type 1)
    ∷ (16, Case.duration)
    ∷ (17, Case.decaying)
    ∷ (18, Case.signed 4 ItemAttribute.date)
    ∷ (19, Case.string ItemAttribute.writer)
    ∷ (20, Case.skipped 4)
    ∷ (21, Case.skipped 4)
    ∷ (22, Case.sub_type 2)
    ∷ (24, Case.string ItemAttribute.name)
    ∷ (25, Case.string ItemAttribute.article)
    ∷ (26, Case.string ItemAttribute.plural_name)
    ∷ (27, Case.unsigned 4 ItemAttribute.weight)
    ∷ (28, Case.signed 4 ItemAttribute.attack)
    ∷ (29, Case.signed 4 ItemAttribute.defense)
    ∷ (30, Case.signed 4 ItemAttribute.extra_defense)
    ∷ (31, Case.signed 4 ItemAttribute.armor)
    ∷ (32, Case.signed 1 ItemAttribute.hit_chance)
    ∷ (33, Case.unsigned 1 ItemAttribute.shoot_range)
    ∷ (34, Case.string ItemAttribute.special)
    ∷ (35, Case.signed 4 ItemAttribute.imbuement_slot)
    ∷ (36, Case.unsigned 1 ItemAttribute.open_container)
    ∷ (37, Case.custom)
    ∷ (38, Case.unsigned 4 ItemAttribute.quickloot_container)
    ∷ (39, Case.string ItemAttribute.imbuement_type)
    ∷ []

abbrev find_case : ℕ → List (ℕ × Case) → Case
find_case code [] = Case.refused
find_case code (c ∷ cs) = let rest = find_case code cs in if code == c.0 then c.1 else rest

unfoldable pub case_of : ℕ → Case
case_of code = find_case code cases

-- The number that the bytes of a signed one stand for, as a word of 64 bits.
unfoldable pub sign_extend : ℕ → ℕ → ℕ
sign_extend width value =
    if leb (2 ^ (8 * width - 1)) value then value + (2 ^ 64 - 2 ^ (8 * width)) else value

-- `serialize` and `unserialize` of a custom attribute.
unfoldable pub write_custom_attribute : CustomAttribute → List ℕ → List ℕ
unfolding write write_string
write_custom_attribute CustomAttribute.blank buffer = write 1 0 buffer
write_custom_attribute (CustomAttribute.string value) buffer = write_string value (write 1 1 buffer)
write_custom_attribute (CustomAttribute.integer value) buffer = write 8 value (write 1 2 buffer)
write_custom_attribute (CustomAttribute.double value) buffer = write 8 value (write 1 3 buffer)
write_custom_attribute (CustomAttribute.boolean value) buffer =
    write 1 (if value then 1 else 0) (write 1 4 buffer)

unfoldable pub read_variant : ℕ → List ℕ → Option (CustomAttribute × List ℕ)
unfolding read read_string
read_variant pos stream =
    if pos == 1
    then (read_string stream >>= λ got. some (CustomAttribute.string got.0, got.1))
    else if pos == 2
    then (read 8 stream >>= λ got. some (CustomAttribute.integer got.0, got.1))
    else if pos == 3
    then (read 8 stream >>= λ got. some (CustomAttribute.double got.0, got.1))
    else if pos == 4
    then (read 1 stream >>= λ got. some (CustomAttribute.boolean (not (got.0 == 0)), got.1))
    else none

unfoldable pub read_custom_attribute : List ℕ → Option (CustomAttribute × List ℕ)
unfolding read_variant
read_custom_attribute stream = read 1 stream >>= λ pos. read_variant pos.0 pos.1

-- The loop over the custom attributes.
unfoldable pub read_custom : ℕ → List ℕ → Item → Option (List ℕ × Item)
unfolding read_custom_attribute set_custom_attribute
read_custom zero stream item = some (stream, item)
read_custom (suc rounds) stream item = read_string stream >>= λ key.
    read_custom_attribute key.1 >>= λ val.
    read_custom rounds val.1 (set_custom_attribute key.0 val.0 item)

unfoldable pub read_case : (ℕ → Bool) → ItemType → Case → List ℕ → Item → Option (List ℕ × Item)
unfolding read skip read_string read_custom sign_extend set_int_attr set_action_id set_unique_id
    set_str_attr set_sub_type
read_case taken it (Case.sub_type width) stream item =
    read width stream >>= λ got. some (got.1, set_sub_type it got.0 item)
read_case taken it (Case.unsigned width type) stream item =
    read width stream >>= λ got. some (got.1, set_int_attr type got.0 item)
read_case taken it Case.action_id stream item =
    read 2 stream >>= λ got. some (got.1, set_action_id got.0 item)
read_case taken it Case.unique_id stream item =
    read 2 stream >>= λ got. some (got.1, set_unique_id taken got.0 item)
read_case taken it (Case.signed width type) stream item =
    read width stream >>= λ got. some (got.1, set_int_attr type (sign_extend width got.0) item)
read_case taken it (Case.string type) stream item =
    read_string stream >>= λ got. some (got.1, set_str_attr type got.0 item)
read_case taken it Case.duration stream item = read 4 stream >>= λ got.
    some (got.1, set_int_attr ItemAttribute.duration (not_below_zero got.0) item)
read_case taken it Case.decaying stream item = read 1 stream >>= λ got.
    some (got.1, if got.0 == 0 then item else set_int_attr ItemAttribute.decay_state 2 item)
read_case taken it Case.custom stream item =
    read 8 stream >>= λ size. read_custom size.0 size.1 item
read_case taken it (Case.skipped n) stream item = skip n stream >>= λ rest. some (rest, item)
read_case taken it Case.refused stream item = none

-- `readAttr`; 2 is DECAYING_PENDING.
unfoldable pub read_attr : (ℕ → Bool) → ItemType → ℕ → List ℕ → Item → Option (List ℕ × Item)
unfolding case_of read_case
read_attr taken it code stream item = read_case taken it (case_of code) stream item

unfoldable pub unserialize_from : (ℕ → Bool) → ItemType → ℕ → List ℕ → Item → Option Item
unfolding read_attr
unserialize_from taken it fuel [] item = some item
unserialize_from taken it zero (code ∷ stream) item = none
unserialize_from taken it (suc fuel) (code ∷ stream) item =
    if code == 0
    then some item
    else read_attr taken it code stream item >>= λ next.
        unserialize_from taken it fuel next.0 next.1

-- The loop reads a byte at least in every round, which is its fuel.
unfoldable pub unserialize_attr : (ℕ → Bool) → ItemType → List ℕ → Item → Option Item
unfolding unserialize_from
unserialize_attr taken it stream item = unserialize_from taken it (length stream) stream item
