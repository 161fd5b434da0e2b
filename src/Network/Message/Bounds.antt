-- ===== src/Network/Message/Bounds.antt =====
-- Memory safety of `NetworkMessage`: where the writers and the readers may touch the buffer.
use forgotten_land.Base.{
  ℕ, ◌+◌, ◌^◌, ◌≤◌, ◌<◌, ◌≡◌, refl, ◌∙◌, ◌⊎◌, inl, inr, true, false, List, [], ◌∷◌, length, arith,
  Bool-cases, ltb, ◌==◌,
}
use forgotten_land.Network.Message.{
  NetworkMessage, Position, max_size, max_body_length, put, advance, can_add, can_read, get,
  get_byte, get_bytes, get_string, get_position, add, add_byte, add_bytes, add_padding_bytes,
  add_string, add_position, add_item_id,
}
use forgotten_land.Network.Message.Bytes.{
  store_outside, le_bytes, length-le_bytes, replicate, length-replicate,
}
use forgotten_land.Network.Message.Fields.{Shape, read}
use forgotten_land.Network.Message.RoundTrip.{read_all}

-- The calls that write to a message.
pub data Write : Type 0 where
  byte : ℕ → Write
  word : ℕ → ℕ → Write
  raw : List ℕ → Write
  padding : ℕ → Write
  text : List ℕ → Write
  place : Position → Write
  item : (ℕ → ℕ) → ℕ → Write

unfoldable pub run : Write → NetworkMessage → NetworkMessage
run (Write.byte v) m = add_byte v m
run (Write.word size v) m = add size v m
run (Write.raw bytes) m = add_bytes bytes m
run (Write.padding n) m = add_padding_bytes n m
run (Write.text value) m = add_string value m
run (Write.place pos) m = add_position pos m
run (Write.item client_id item_id) m = add_item_id client_id item_id m

-- Only cells from the old position on and below the body's end may differ, and the position
-- neither falls nor leaves the body, unless it was outside before.
pub record Confined (m m' : NetworkMessage) : Type 0 where
  pub outside : (k : ℕ) → (k < m.position) ⊎ (max_body_length ≤ k) → m'.buffer k ≡ m.buffer k
  pub grows : m.position ≤ m'.position
  pub inside : (m'.position ≡ m.position) ⊎ (m'.position < max_body_length)

Confined-refl : (m : NetworkMessage) → Confined m m
Confined-refl m = record { outside = λ k h. refl; grows = omega arith; inside = inl refl }

Confined-trans : (a b c : NetworkMessage) → Confined a b → Confined b c → Confined a c
Confined-trans a b c p q = record {
  outside = λ k h. q.outside k (omega (arith, p.grows)) ∙ p.outside k h;
  grows = omega (arith, p.grows, q.grows);
  inside = omega (arith, p.inside, q.inside);
}

put-Confined :
    (bs : List ℕ) (m : NetworkMessage)
    → length bs + m.position < max_body_length
    → Confined m (put bs m)
unfolding put
put-Confined bs m h = record {
  outside = λ k o. store_outside m.buffer m.position bs k (omega arith);
  grows = omega arith;
  inside = inr (omega arith);
}

-- `canAdd` answers truly where the sum of its `size_t` and the position does not wrap.
room :
    (size : ℕ) (m : NetworkMessage)
    → m.position < 2 ^ 16
    → size + 2 ^ 16 ≤ 2 ^ 64
    → can_add m size ≡ true
    → size + m.position < max_body_length
unfolding can_add
room size m bounded small e = ground arith

add-Confined :
    (size v : ℕ) (m : NetworkMessage)
    → m.position < 2 ^ 16
    → size + 2 ^ 16 ≤ 2 ^ 64
    → Confined m (add size v m)
unfolding add
add-Confined size v m bounded small = elim (Bool-cases (can_add m size)) [
  | inl e ↦
      let fits = room size m bounded small e in
      rw e (put-Confined (le_bytes size v) m (omega (arith, length-le_bytes size v, fits)))
  | inr e ↦ rw e (Confined-refl m)
]

add-word :
    (size v : ℕ) (m : NetworkMessage) → m.position < 2 ^ 16 → (add size v m).position < 2 ^ 16
unfolding add put
add-word size v m bounded = elim (Bool-cases (can_add m size)) [
  | inl e ↦ rw e (omega arith)
  | inr e ↦ rw e bounded
]

add_byte-add : (v : ℕ) (m : NetworkMessage) → add_byte v m ≡ add 1 v m
unfolding add add_byte
add_byte-add v m = refl

add_bytes-Confined :
    (bs : List ℕ) (m : NetworkMessage) → m.position < 2 ^ 16 → Confined m (add_bytes bs m)
unfolding add_bytes
add_bytes-Confined bs m bounded = elim (Bool-cases (can_add m (length bs))) [
  | inl e ↦ rw e (elim (Bool-cases (ltb 8192 (length bs))) [
    | inl long ↦ rw long (Confined-refl m)
    | inr fits ↦ rw fits (put-Confined bs m (room (length bs) m bounded (ground arith) e))
  ])
  | inr e ↦ rw e (Confined-refl m)
]

add_padding_bytes-Confined :
    (n : ℕ) (m : NetworkMessage)
    → m.position < 2 ^ 16
    → n + 2 ^ 16 ≤ 2 ^ 64
    → Confined m (add_padding_bytes n m)
unfolding add_padding_bytes
add_padding_bytes-Confined n m bounded small = elim (Bool-cases (can_add m n)) [
  | inl e ↦
      let fits = room n m bounded small e in
      rw e (record {
        outside = λ k o.
            store_outside m.buffer m.position (replicate n 0x33) k
              (omega (arith, length-replicate n 0x33, fits, o));
        grows = omega arith;
        inside = inl refl;
      })
  | inr e ↦ rw e (Confined-refl m)
]

position-add :
    (size v : ℕ) (m : NetworkMessage)
    → size + m.position < max_body_length
    → (add size v m).position ≡ m.position + size
unfolding add can_add put
position-add size v m h = ground (arith, length-le_bytes size v)

add_string-Confined :
    (bs : List ℕ) (m : NetworkMessage) → m.position < 2 ^ 16 → Confined m (add_string bs m)
unfolding add_string
add_string-Confined bs m bounded = elim (Bool-cases (can_add m (length bs + 2))) [
  | inl e ↦ rw e (elim (Bool-cases (ltb 8192 (length bs))) [
    | inl long ↦ rw long (Confined-refl m)
    | inr fits ↦
        let fit = room (length bs + 2) m bounded (ground arith) e in
        rw fits (
          Confined-trans m _ _ (add-Confined 2 (length bs) m bounded (omega arith))
            (put-Confined bs (add 2 (length bs) m) (omega (arith, position-add 2 (length bs) m))))
  ])
  | inr e ↦ rw e (Confined-refl m)
]

add_position-Confined :
    (pos : Position) (m : NetworkMessage) → m.position < 2 ^ 16 → Confined m (add_position pos m)
unfolding add_position
add_position-Confined pos m bounded =
    let first = add 2 pos.x m in
    let second = add 2 pos.y first in
    let bounded₁ = add-word 2 pos.x m bounded in
    let bounded₂ = add-word 2 pos.y first bounded₁ in
    Confined-trans m _ _ (add-Confined 2 pos.x m bounded (omega arith)) (
      Confined-trans first _ _ (add-Confined 2 pos.y first bounded₁ (omega arith))
        (rw (add_byte-add pos.z second) (add-Confined 1 pos.z second bounded₂ (omega arith))))

add_item_id-Confined :
    (client_id : ℕ → ℕ) (item_id : ℕ) (m : NetworkMessage)
    → m.position < 2 ^ 16
    → Confined m (add_item_id client_id item_id m)
unfolding add_item_id
add_item_id-Confined client_id item_id m bounded =
    add-Confined 2 (client_id item_id) m bounded (omega arith)

-- The sizes for which the sum with a position does not wrap: that of a type, and of a padding.
abbrev pub HasSize : Write → Type 0
HasSize (Write.word size v) = size + 2 ^ 16 ≤ 2 ^ 64
HasSize (Write.padding n) = n + 2 ^ 16 ≤ 2 ^ 64
HasSize _ = Unit

-- Every writing call on a message whose position fits 16 bits, at any argument but a padding or a
-- type of nearly 2 ^ 64 bytes, leaves the bytes before the position and those from the end of
-- the body on as they were; the position never falls, and where it moves it stays within the body.
pub run-Confined :
    (w : Write) (m : NetworkMessage) → m.position < 2 ^ 16 → HasSize w → Confined m (run w m)
unfolding run
run-Confined (Write.byte v) m bounded small =
    rw (add_byte-add v m) (add-Confined 1 v m bounded (omega arith))
run-Confined (Write.word size v) m bounded small = add-Confined size v m bounded small
run-Confined (Write.raw bytes) m bounded small = add_bytes-Confined bytes m bounded
run-Confined (Write.padding n) m bounded small = add_padding_bytes-Confined n m bounded small
run-Confined (Write.text value) m bounded small = add_string-Confined value m bounded
run-Confined (Write.place pos) m bounded small = add_position-Confined pos m bounded
run-Confined (Write.item client_id item_id) m bounded small =
    add_item_id-Confined client_id item_id m bounded

-- The reading position stands within the message and within the array.
abbrev pub IsReading : NetworkMessage → Type 0
IsReading m = (m.position ≤ m.length + 8) × (m.position < max_size)

-- What a reading call keeps: the bytes, the length, an overrun that was noted, and the bounds.
pub record Keeps (m m' : NetworkMessage) : Type 0 where
  pub buffer : m'.buffer ≡ m.buffer
  pub length : m'.length ≡ m.length
  pub overrun : m.overrun ≡ true → m'.overrun ≡ true
  pub reading : IsReading m → IsReading m'

Keeps-refl : (m : NetworkMessage) → Keeps m m
Keeps-refl m = record { buffer = refl; length = refl; overrun = λ h. h; reading = λ h. h }

Keeps-trans : (a b c : NetworkMessage) → Keeps a b → Keeps b c → Keeps a c
Keeps-trans a b c p q = record {
  buffer = q.buffer ∙ p.buffer;
  length = q.length ∙ p.length;
  overrun = λ h. q.overrun (p.overrun h);
  reading = λ h. q.reading (p.reading h);
}

-- A read of `size` bytes that ends in `m'`: it either fits and moves on by `size`, or it is noted
-- as an overrun and moves nothing.
abbrev ReadsTo : ℕ → NetworkMessage → NetworkMessage → Type 0
ReadsTo size m m' =
    ((m' ≡ advance size m) × (m.position + size ≤ m.length + 8) × (m.position + size < max_size))
    ⊎ (m' ≡ record m { overrun = true })

ReadsTo-Keeps : (size : ℕ) (m m' : NetworkMessage) → ReadsTo size m m' → Keeps m m'
unfolding advance
ReadsTo-Keeps size m m' (inl (e, h, b)) =
    rw e (record { buffer = refl; length = refl; overrun = λ o. o; reading = λ r. omega arith })
ReadsTo-Keeps size m m' (inr e) =
    rw e (record { buffer = refl; length = refl; overrun = λ o. refl; reading = λ r. r })

can_read_cases :
    (size : ℕ) (m : NetworkMessage)
    → ((can_read m size ≡ (true, m))
        × (m.position + size ≤ m.length + 8)
        × (m.position + size < max_size))
      ⊎ (can_read m size ≡ (false, record m { overrun = true }))
unfolding can_read
can_read_cases size m = ground arith

get_byte-Keeps : (m : NetworkMessage) → Keeps m (get_byte m).1
get_byte-Keeps m = ReadsTo-Keeps 1 m _ (elim (can_read_cases 1 m) [
  | inl (e, h, b) ↦ inl (unfold get_byte in rw (e, get_byte), h, b)
  | inr e ↦ inr (unfold get_byte in rw (e, get_byte))
])

get-Keeps : (size : ℕ) (m : NetworkMessage) → Keeps m (get size m).1
get-Keeps size m = ReadsTo-Keeps size m _ (elim (can_read_cases size m) [
  | inl (e, h, b) ↦ inl (unfold get in rw (e, get), h, b)
  | inr e ↦ inr (unfold get in rw (e, get))
])

get_bytes-Keeps : (size : ℕ) (m : NetworkMessage) → Keeps m (get_bytes size m).1
get_bytes-Keeps size m = ReadsTo-Keeps size m _ (elim (can_read_cases size m) [
  | inl (e, h, b) ↦ inl (unfold get_bytes in rw (e, get_bytes), h, b)
  | inr e ↦ inr (unfold get_bytes in rw (e, get_bytes))
])

get_string-Keeps : (len : ℕ) (m : NetworkMessage) → Keeps m (get_string len m).1
unfolding get_string
get_string-Keeps len m = elim (Bool-cases (len == 0)) [
  | inl e ↦ rw e (Keeps-trans m _ _ (get-Keeps 2 m) (get_bytes-Keeps (get 2 m).0 (get 2 m).1))
  | inr e ↦ rw e (get_bytes-Keeps len m)
]

get_position-Keeps : (m : NetworkMessage) → Keeps m (get_position m).1
unfolding get_position
get_position-Keeps m =
    let m₁ = (get 2 m).1 in
    let m₂ = (get 2 m₁).1 in
    Keeps-trans m _ _ (get-Keeps 2 m) (Keeps-trans m₁ _ _ (get-Keeps 2 m₁) (get_byte-Keeps m₂))

read-Keeps : (s : Shape) (m : NetworkMessage) → Keeps m (read s m).1
unfolding read
read-Keeps Shape.byte m = get_byte-Keeps m
read-Keeps (Shape.word size) m = get-Keeps size m
read-Keeps Shape.text m = get_string-Keeps 0 m
read-Keeps Shape.place m = get_position-Keeps m

-- Whatever bytes a peer sent, parsing any sequence of fields changes neither the bytes nor the
-- length, never forgets an overrun, and keeps a position that stands within the message and
-- within the array there.
pub read_all-Keeps : (ss : List Shape) (m : NetworkMessage) → Keeps m (read_all ss m).1
unfolding read_all
read_all-Keeps [] m = Keeps-refl m
read_all-Keeps (s ∷ ss) m = Keeps-trans m _ _ (read-Keeps s m) (read_all-Keeps ss (read s m).1)
