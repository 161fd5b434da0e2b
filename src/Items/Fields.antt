-- ===== src/Items/Fields.antt =====
-- Each attribute that `serializeAttr` of src/items/item.cpp writes, as `readAttr` reads it.
use forgotten_land.Base.{
  ℕ, ◌+◌, ◌%◌, ◌^◌, ◌≤◌, ◌<◌, ◌≡◌, refl, ap, sym, ◌⊎◌, Bool, true, false, ◌||◌, ◌==◌, ltb, some,
  List, [], ◌∷◌, ◌++◌, length, arith,
}
use mathlib.Core.Path.{subst}
use mathlib.Core.List.{append_assoc}
use forgotten_land.Base.Words.{not_below_zero}
use forgotten_land.Network.Message.Bytes.{le_bytes, from_le, length-le_bytes}
use forgotten_land.Loading.PropStream.{write, write_string}
use forgotten_land.Loading.Streams.{read_exact, read-le_bytes, read_string_lem}
use forgotten_land.Items.ItemAttribute
use forgotten_land.Items.Attributes.{
  Text, Item, ItemType, is_empty, is_str_attr_type, set_action_id,
}
use forgotten_land.Items.Serialize.{Case, case_of, sign_extend, read_case, read_attr}
use forgotten_land.Items.Saving.{save_number, save_string}
use forgotten_land.Items.Effects.{
  put_int, put_str, put_sub_type, put_int-false, put_int-true, put_str-false, put_str-true,
  put_sub_type-false, put_sub_type-true, raised,
}
use forgotten_land.Items.Loaded.{Loaded, load_round}

-- A number that a byte, or four, can hold with its sign.
abbrev pub IsSigned : ℕ → ℕ → Type 0
IsSigned bound value = (value < bound) ⊎ ((2 ^ 64 ≤ value + bound) × (value < 2 ^ 64))

-- What the bytes of such a number are extended to.
pub IsSigned-byte :
    (value : ℕ) → IsSigned (2 ^ 7) value → sign_extend 1 (from_le (le_bytes 1 value)) ≡ value
unfolding sign_extend from_le le_bytes
IsSigned-byte value h = ground arith

pub IsSigned-word :
    (value : ℕ) → IsSigned (2 ^ 31) value → sign_extend 4 (from_le (le_bytes 4 value)) ≡ value
unfolding sign_extend from_le le_bytes
IsSigned-word value h = ground arith

module _ {taken : ℕ → Bool} {it : ItemType} {base : Item} {buffer : List ℕ} {item : Item}
    (l : Loaded taken it base buffer item) where
  -- A code, and what stands behind it.
  pub load_code :
      (code : ℕ) (bytes : List ℕ) (item' : Item)
      → (code == 0) ≡ false
      → code < 256
      → ((rest : List ℕ)
          → read_case taken it (case_of code) (bytes ++ rest) item ≡ some (rest, item'))
      → Loaded taken it base (write 1 code buffer ++ bytes) item'
  unfolding write le_bytes read_attr
  load_code code bytes item' nonzero byte reads =
      let same : code % 256 ≡ code = omega arith in
      rw (same, append_assoc buffer (code ∷ []) bytes)
        (load_round taken it base buffer item code bytes item' nonzero reads l)

  -- A number, present or not, with the case that its code has.
  load_number :
      (present : Bool) (code width value : ℕ) (item' : Item)
      → (code == 0) ≡ false
      → code < 256
      → (present ≡ false → item ≡ item')
      → (present ≡ true
          → (rest : List ℕ)
          → read_case taken it (case_of code) (le_bytes width value ++ rest) item
            ≡ some (rest, item'))
      → Loaded taken it base (save_number present code width value buffer) item'
  unfolding save_number write
  load_number false code width value item' nonzero byte same reads =
      subst (Loaded taken it base buffer) (same refl) l
  load_number true code width value item' nonzero byte same reads =
      load_code code (le_bytes width value) item' nonzero byte (reads refl)

  module _ (present : Bool) (code type value : ℕ) (nonzero : (code == 0) ≡ false)
      (byte : code < 256) where
    absent : (present ≡ false) → item ≡ put_int present type value item
    absent e = rw e (sym (put_int-false type value item))

    pub load_unsigned :
        (width : ℕ)
        → case_of code ≡ Case.unsigned width type
        → value < 256 ^ width
        → Loaded taken it base
            (save_number present code width value buffer)
            (put_int present type value item)
    unfolding read_case
    load_unsigned width found fits =
        load_number present code width value (put_int present type value item) nonzero byte absent
          (λ e rest.
            rw (e, found, read-le_bytes width value rest fits, put_int-true type value item))

    pub load_signed :
        (width : ℕ)
        → case_of code ≡ Case.signed width type
        → sign_extend width (from_le (le_bytes width value)) ≡ value
        → Loaded taken it base
            (save_number present code width value buffer)
            (put_int present type value item)
    unfolding read_case
    load_signed width found fits =
        load_number present code width value (put_int present type value item) nonzero byte absent
          (λ e rest. rw (
            e,
            found,
            read_exact width (le_bytes width value) rest (length-le_bytes width value),
            fits,
            put_int-true type value item,
          ))

  pub load_sub_type :
      (present : Bool) (code width value : ℕ)
      → (code == 0) ≡ false
      → code < 256
      → case_of code ≡ Case.sub_type width
      → (present ≡ true → value < 256 ^ width)
      → Loaded taken it base
          (save_number present code width value buffer)
          (put_sub_type present it value item)
  unfolding read_case
  load_sub_type present code width value nonzero byte found fits =
      load_number present code width value (put_sub_type present it value item) nonzero byte
        (λ e. rw e (sym (put_sub_type-false it value item)))
        (λ e rest.
          rw (e, found, read-le_bytes width value rest (fits e), put_sub_type-true it value item))

  -- An action of 1 to 99 is loaded as 100.
  pub load_action_id :
      (present : Bool) (value : ℕ)
      → value < 2 ^ 16
      → Loaded taken it base
          (save_number present 4 2 value buffer)
          (put_int present ItemAttribute.action_id (raised value) item)
  unfolding read_case case_of set_action_id
  load_action_id present value fits =
      load_number present 4 2 value (put_int present ItemAttribute.action_id (raised value) item)
        refl (omega arith)
        (absent present 4 ItemAttribute.action_id (raised value) refl (omega arith))
        (λ e rest. rw (
          e,
          read-le_bytes 2 value rest (omega arith),
          put_int-true ItemAttribute.action_id (raised value) item,
        ))

  pub load_duration :
      (present : Bool) (value : ℕ)
      → value < 2 ^ 31
      → Loaded taken it base
          (save_number present 16 4 value buffer)
          (put_int present ItemAttribute.duration value item)
  unfolding read_case case_of put_int
  load_duration present value fits =
      let kept : not_below_zero value ≡ value = ground arith in
      load_number present 16 4 value (put_int present ItemAttribute.duration value item) refl
        (omega arith) (absent present 16 ItemAttribute.duration value refl (omega arith))
        (λ e rest. rw (
          e,
          read-le_bytes 4 value rest (omega arith),
          kept,
          put_int-true ItemAttribute.duration value item,
        ))

  -- An item that decays or waits to is loaded as one that waits.
  pub load_decaying :
      (state : ℕ)
      → state < 256
      → Loaded taken it base
          (save_number (state == 1 || state == 2) 17 1 state buffer)
          (put_int (state == 1 || state == 2) ItemAttribute.decay_state 2 item)
  unfolding read_case case_of put_int
  load_decaying state fits =
      let present = state == 1 || state == 2 in
      load_number present 17 1 state (put_int present ItemAttribute.decay_state 2 item) refl
        (omega arith) (absent present 17 ItemAttribute.decay_state 2 refl (omega arith))
        (λ e rest.
          let some_state : (state == 0) ≡ false = ground arith in
          rw (
            e,
            read-le_bytes 1 state rest (omega arith),
            some_state,
            put_int-true ItemAttribute.decay_state 2 item,
          ))

  pub load_string :
      (present : Bool) (code type : ℕ) (value : Text)
      → (code == 0) ≡ false
      → code < 256
      → case_of code ≡ Case.string type
      → is_str_attr_type type ≡ true
      → length value ≤ 65535
      → (present ≡ true → is_empty value ≡ false)
      → Loaded taken it base
          (save_string present code value buffer)
          (put_str present type value item)
  unfolding save_string write write_string read_case
  load_string false code type value nonzero byte found string short full =
      rw (put_str-false type value item) l
  load_string true code type value nonzero byte found string short full =
      let fits : ltb 65535 (length value) ≡ false = ground arith in
      let text = le_bytes 2 (length value) ++ value in
      let loaded = load_code code text (put_str true type value item) nonzero byte (λ rest.
        rw
          (
            append_assoc (le_bytes 2 (length value)) value rest,
            found,
            read_string_lem value rest short,
          )
          (ap (λ (x : Item). some (rest, x)) (put_str-true type value item string (full refl)))) in
      rw (fits, append_assoc (write 1 code buffer) (le_bytes 2 (length value)) value) loaded
