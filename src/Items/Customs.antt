-- ===== src/Items/Customs.antt =====
-- The custom attributes that `serializeAttr` of src/items/item.cpp writes, as `readAttr` reads them.
use forgotten_land.Base.{
  ℕ, ◌^◌, ◌≤◌, ◌<◌, ◌≡◌, refl, ap, sym, ◌∙◌, Bool, true, false, ltb, if◌then◌else◌, Option, none,
  some, List, [], ◌∷◌, ◌++◌, length, arith, All,
}
use mathlib.Core.List.{append-nil, append_assoc}
use forgotten_land.Network.Message.Bytes.{le_bytes, from_le}
use forgotten_land.Loading.PropStream.{read, write, write_string}
use forgotten_land.Loading.Streams.{read_exact, read-le_bytes, read_string_lem}
use forgotten_land.Items.Attributes.{
  Text, CustomAttribute, CustomAttributeMap, Item, ItemType, same_text, remove_key,
  to_lower_case_string, custom_map, set_custom_attribute,
}
use forgotten_land.Items.Serialize.{
  write_custom_attribute, read_variant, read_custom_attribute, read_custom, case_of, read_case,
}
use forgotten_land.Items.Saving.{write_entries, save_custom}
use forgotten_land.Items.Loaded.{Loaded}
use forgotten_land.Items.Fields.{load_code}

-- A value that is loaded again.
abbrev pub Storable : CustomAttribute → Type 0
Storable CustomAttribute.blank = ⊥
Storable (CustomAttribute.string value) = length value ≤ 65535
Storable (CustomAttribute.integer value) = value < 2 ^ 64
Storable (CustomAttribute.double value) = value < 2 ^ 64
Storable (CustomAttribute.boolean value) = Unit

-- Keys as `setCustomAttribute` leaves them: in lower case, each once.
abbrev Entry : Text × CustomAttribute → Type 0
Entry entry =
    (to_lower_case_string entry.0 ≡ entry.0) × ((length entry.0 ≤ 65535) × Storable entry.1)

abbrev pub Storables : CustomAttributeMap → Type 0
Storables [] = Unit
Storables (entry ∷ entries) =
    Entry entry × (All (λ other. same_text entry.0 other.0 ≡ false) entries × Storables entries)

-- The bytes of a value and of an entry.
unfoldable bytes_of : CustomAttribute → List ℕ
bytes_of CustomAttribute.blank = 0 ∷ []
bytes_of (CustomAttribute.string value) = 1 ∷ (le_bytes 2 (length value) ++ value)
bytes_of (CustomAttribute.integer value) = 2 ∷ le_bytes 8 value
bytes_of (CustomAttribute.double value) = 3 ∷ le_bytes 8 value
bytes_of (CustomAttribute.boolean value) = 4 ∷ (if value then 1 else 0) ∷ []

unfoldable entry_bytes : CustomAttributeMap → List ℕ
unfolding bytes_of
entry_bytes [] = []
entry_bytes (entry ∷ entries) =
    (le_bytes 2 (length entry.0) ++ entry.0) ++ (bytes_of entry.1 ++ entry_bytes entries)

write_string_short :
    (str buffer : List ℕ)
    → length str ≤ 65535
    → write_string str buffer ≡ buffer ++ (le_bytes 2 (length str) ++ str)
unfolding write_string write
write_string_short str buffer h =
    let fits : ltb 65535 (length str) ≡ false = ground arith in
    rw fits (append_assoc buffer (le_bytes 2 (length str)) str)

write_custom_attribute_lem :
    (value : CustomAttribute) (buffer : List ℕ)
    → Storable value
    → write_custom_attribute value buffer ≡ buffer ++ bytes_of value
unfolding write_custom_attribute bytes_of write le_bytes
write_custom_attribute_lem CustomAttribute.blank buffer h = refl
write_custom_attribute_lem (CustomAttribute.string value) buffer h =
    write_string_short value (buffer ++ (1 ∷ [])) h
    ∙ append_assoc buffer (1 ∷ []) (le_bytes 2 (length value) ++ value)
write_custom_attribute_lem (CustomAttribute.integer value) buffer h =
    append_assoc buffer (2 ∷ []) (le_bytes 8 value)
write_custom_attribute_lem (CustomAttribute.double value) buffer h =
    append_assoc buffer (3 ∷ []) (le_bytes 8 value)
write_custom_attribute_lem (CustomAttribute.boolean true) buffer h =
    append_assoc buffer (4 ∷ []) (1 ∷ [])
write_custom_attribute_lem (CustomAttribute.boolean false) buffer h =
    append_assoc buffer (4 ∷ []) (0 ∷ [])

read_byte : (byte : ℕ) (rest : List ℕ) → read 1 (byte ∷ rest) ≡ some (byte, rest)
read_byte byte rest =
    let exact = read_exact 1 (byte ∷ []) rest refl in
    let same : from_le (byte ∷ []) ≡ byte = unfold from_le in omega arith in rw same at exact

read_custom_attribute_lem :
    (value : CustomAttribute) (rest : List ℕ)
    → Storable value
    → read_custom_attribute (bytes_of value ++ rest) ≡ some (value, rest)
unfolding read_custom_attribute read_variant bytes_of
read_custom_attribute_lem CustomAttribute.blank rest h = absurd h
read_custom_attribute_lem (CustomAttribute.string value) rest h = rw (
  append_assoc (le_bytes 2 (length value)) value rest,
  read_byte 1 (le_bytes 2 (length value) ++ (value ++ rest)),
  read_string_lem value rest h,
)
read_custom_attribute_lem (CustomAttribute.integer value) rest h =
    rw (read_byte 2 (le_bytes 8 value ++ rest), read-le_bytes 8 value rest h)
read_custom_attribute_lem (CustomAttribute.double value) rest h =
    rw (read_byte 3 (le_bytes 8 value ++ rest), read-le_bytes 8 value rest h)
read_custom_attribute_lem (CustomAttribute.boolean true) rest h =
    rw (read_byte 4 (1 ∷ rest), read_byte 1 rest)
read_custom_attribute_lem (CustomAttribute.boolean false) rest h =
    rw (read_byte 4 (0 ∷ rest), read_byte 0 rest)

write_entries_lem :
    (entries : CustomAttributeMap) (buffer : List ℕ)
    → Storables entries
    → write_entries entries buffer ≡ buffer ++ entry_bytes entries
unfolding write_entries entry_bytes
write_entries_lem [] buffer h = sym (append-nil buffer)
write_entries_lem (entry ∷ entries) buffer h =
    let key = le_bytes 2 (length entry.0) ++ entry.0 in
    rw
      (
        write_string_short entry.0 buffer h.0.1.0,
        write_custom_attribute_lem entry.1 (buffer ++ key) h.0.1.1,
      )
      (write_entries_lem entries ((buffer ++ key) ++ bytes_of entry.1) h.1.1
        ∙ append_assoc (buffer ++ key) (bytes_of entry.1) (entry_bytes entries)
        ∙ append_assoc buffer key (bytes_of entry.1 ++ entry_bytes entries))

-- The entries of a map behind those that are there.
abbrev pub more_custom : Option CustomAttributeMap → CustomAttributeMap → Option CustomAttributeMap
more_custom o [] = o
more_custom o (entry ∷ entries) = some (custom_map o ++ (entry ∷ entries))

unfoldable pub put_custom : CustomAttributeMap → Item → Item
put_custom entries item = record item { custom = more_custom item.custom entries }

abbrev Without : CustomAttributeMap → Text → Type 0
Without entries key = All (λ other. same_text other.0 key ≡ false) entries

remove_key-Without :
    (key : Text) (entries : CustomAttributeMap)
    → Without entries key
    → remove_key key entries ≡ entries
unfolding remove_key
remove_key-Without key [] h = refl
remove_key-Without key (entry ∷ entries) h =
    rw h.0 (ap (λ (t : CustomAttributeMap). entry ∷ t) (remove_key-Without key entries h.1))

Without-append :
    (key : Text) (entries : CustomAttributeMap) (entry : Text × CustomAttribute)
    → Without entries key
    → same_text entry.0 key ≡ false
    → Without (entries ++ (entry ∷ [])) key
Without-append key [] entry h e = (e, tt)
Without-append key (first ∷ entries) entry h e = (h.0, Without-append key entries entry h.1 e)

abbrev Apart : CustomAttributeMap → CustomAttributeMap → Type 0
Apart entries [] = Unit
Apart entries (entry ∷ others) = Without entries entry.0 × Apart entries others

Apart-append :
    (entries others : CustomAttributeMap) (entry : Text × CustomAttribute)
    → Apart entries others
    → All (λ other. same_text entry.0 other.0 ≡ false) others
    → Apart (entries ++ (entry ∷ [])) others
Apart-append entries [] entry h e = tt
Apart-append entries (other ∷ others) entry h e =
    (Without-append other.0 entries entry h.0 e.0, Apart-append entries others entry h.1 e.1)

Apart-none : (entries : CustomAttributeMap) → Apart [] entries
Apart-none [] = tt
Apart-none (entry ∷ entries) = (tt, Apart-none entries)

put_custom_next :
    (entry : Text × CustomAttribute) (entries : CustomAttributeMap) (item : Item)
    → put_custom entries (record item { custom = some (custom_map item.custom ++ (entry ∷ [])) })
      ≡ put_custom (entry ∷ entries) item
unfolding put_custom
put_custom_next entry [] item = refl
put_custom_next entry (other ∷ entries) item = λ i. record item {
  custom = some (append_assoc (custom_map item.custom) (entry ∷ []) (other ∷ entries) i);
}

read_custom_lem :
    (entries : CustomAttributeMap) (rest : List ℕ) (item : Item)
    → Storables entries
    → Apart (custom_map item.custom) entries
    → read_custom (length entries) (entry_bytes entries ++ rest) item
      ≡ some (rest, put_custom entries item)
unfolding read_custom entry_bytes set_custom_attribute put_custom
read_custom_lem [] rest item h apart = refl
read_custom_lem (entry ∷ entries) rest item h apart =
    let bytes = le_bytes 2 (length entry.0) in
    let more = entry_bytes entries ++ rest in
    let next = record item { custom = some (custom_map item.custom ++ (entry ∷ [])) } in
    let others = Apart-append (custom_map item.custom) entries entry apart.1 h.1.0 in
    rw
      (
        append_assoc (bytes ++ entry.0) (bytes_of entry.1 ++ entry_bytes entries) rest,
        append_assoc (bytes_of entry.1) (entry_bytes entries) rest,
        append_assoc bytes entry.0 (bytes_of entry.1 ++ more),
        read_string_lem entry.0 (bytes_of entry.1 ++ more) h.0.1.0,
        read_custom_attribute_lem entry.1 more h.0.1.1,
        h.0.0,
        remove_key-Without entry.0 (custom_map item.custom) apart.0,
      )
      (read_custom_lem entries rest next h.1.1 others
        ∙ ap (λ (x : Item). some (rest, x)) (put_custom_next entry entries item))

module _ {taken : ℕ → Bool} {it : ItemType} {base : Item} {buffer : List ℕ} {item : Item}
    (l : Loaded taken it base buffer item) where
  pub load_custom :
      (o : Option CustomAttributeMap)
      → Storables (custom_map o)
      → length (custom_map o) < 2 ^ 64
      → item.custom ≡ none
      → Loaded taken it base (save_custom o buffer) (put_custom (custom_map o) item)
  unfolding save_custom write read_case case_of put_custom
  load_custom none h short e = l
  load_custom (some entries) h short e =
      let bytes = le_bytes 8 (length entries) in
      let empty : Apart (custom_map item.custom) entries = rw e (Apart-none entries) in
      let loaded =
        load_code l 37 (bytes ++ entry_bytes entries) (put_custom entries item) refl (omega arith)
          (λ rest.
            rw
              (
                append_assoc bytes (entry_bytes entries) rest,
                read-le_bytes 8 (length entries) (entry_bytes entries ++ rest) short,
              )
              (read_custom_lem entries rest item h empty)) in
      rw
        (
          write_entries_lem entries (write 8 (length entries) (write 1 37 buffer)) h,
          append_assoc (write 1 37 buffer) bytes (entry_bytes entries),
        )
        loaded
