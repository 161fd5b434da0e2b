-- ===== src/Decay/Items.antt =====
-- The attributes of `Item` in src/items/item.h and src/items/item.cpp that decay is about. An
-- attribute that an item does not have is `none`; a signed word is kept in two's complement.
use forgotten_land.Base.{
  ℕ, ◌+◌, ◌-◌, ◌^◌, Bool, true, false, not, ◌||◌, Option, none, some, ◌==◌, if◌then◌else◌,
}
use forgotten_land.Base.Words.{u32, u64, is_negative, not_below_zero}

pub data ItemDecayState : Type 0 where
  decaying_false decaying_true decaying_pending decaying_stopping : ItemDecayState

-- `removed` is what `isRemoved` answers, which asks the place where the item is.
pub record Item : Type 0 where
  pub id : ℕ
  pub duration : Option ℕ
  pub decay_state : Option ItemDecayState
  pub duration_timestamp : Option ℕ
  pub unique_id : Bool
  pub removed : Bool
  pub reference_counter : ℕ

pub record ItemType : Type 0 where
  pub decay_to : ℕ
  pub decay_time : ℕ

abbrev pub has_attribute {ℓ} : {A : Type ℓ} → Option A → Bool
has_attribute none = false
has_attribute (some a) = true

-- `getIntAttr`: 0 where there is no attribute.
abbrev pub get_int_attr : Option ℕ → ℕ
get_int_attr none = 0
get_int_attr (some value) = value

abbrev pub get_decaying : Item → ItemDecayState
get_decaying item = elim item.decay_state [ none ↦ ItemDecayState.decaying_false | some s ↦ s ]

abbrev pub is_decaying : ItemDecayState → Bool
is_decaying ItemDecayState.decaying_true = true
is_decaying _ = false

abbrev pub is_stopping : ItemDecayState → Bool
is_stopping ItemDecayState.decaying_stopping = true
is_stopping _ = false

-- What is left until the time stamp, or what the attribute says.
unfoldable pub get_duration : ℕ → Item → ℕ
get_duration now item =
    if is_decaying (get_decaying item) || is_stopping (get_decaying item)
    then not_below_zero (get_int_attr item.duration_timestamp + (2 ^ 64 - u64 now))
    else u32 (get_int_attr item.duration)

unfoldable pub set_duration : ℕ → Item → Item
set_duration time item = record item { duration = some (not_below_zero time) }

unfoldable pub set_decaying : ItemDecayState → Item → Item
set_decaying ItemDecayState.decaying_false item = record item {
  decay_state = some ItemDecayState.decaying_false;
  duration_timestamp = none;
}
set_decaying s item = record item { decay_state = some s }

unfoldable pub set_duration_timestamp : ℕ → Item → Item
set_duration_timestamp timestamp item = record item { duration_timestamp = some timestamp }

-- `types` is the table `Item::items`.
unfoldable pub can_decay : (ℕ → ItemType) → Item → Bool
can_decay types item =
    let it = types item.id in
    if item.removed
    then false
    else if is_negative it.decay_to || it.decay_time == 0
    then false
    else not item.unique_id

unfoldable pub increment_reference_counter : Item → Item
increment_reference_counter item = record item {
  reference_counter = u32 (item.reference_counter + 1);
}

unfoldable pub decrement_reference_counter : Item → Item
decrement_reference_counter item = record item {
  reference_counter = u32 (item.reference_counter + (2 ^ 32 - 1));
}
