-- ===== src/Network/Message/RoundTrip.antt =====
-- A whole message: what a sequence of `add…` calls writes, the matching `get…` calls read.
use forgotten_land.Base.{
  ℕ, ◌+◌, ◌^◌, ◌<◌, ◌≡◌, refl, sym, ◌∙◌, false, List, [], ◌∷◌, ◌++◌, map, length, length-append,
  All, arith,
}
use forgotten_land.Base.Words.{u16}
use forgotten_land.Network.Message.{
  NetworkMessage, max_body_length, initial_buffer_position, put, advance, reset,
  set_buffer_position,
}
use forgotten_land.Network.Message.Bytes.{Holds, Holds-append, store-Holds, store}
use forgotten_land.Network.Message.Access.{Readable, put-append}
use forgotten_land.Network.Message.Fields.{
  Field, Shape, shape, write, read, encode, Fits, size, length-encode, write_lem, read_lem,
  advance-advance, Holds-advance, Readable-advance,
}

unfoldable pub write_all : List Field → NetworkMessage → NetworkMessage
write_all [] m = m
write_all (f ∷ fs) m = write_all fs (write f m)

unfoldable pub read_all : List Shape → NetworkMessage → List Field × NetworkMessage
read_all [] m = ([], m)
read_all (s ∷ ss) m = let (f, m') = read s m in let (fs, m'') = read_all ss m' in (f ∷ fs, m'')

abbrev pub encode_all : List Field → List ℕ
encode_all [] = []
encode_all (f ∷ fs) = encode f ++ encode_all fs

abbrev pub total : List Field → ℕ
total [] = 0
total (f ∷ fs) = size f + total fs

pub length-encode_all : (fs : List Field) → length (encode_all fs) ≡ total fs
length-encode_all [] = refl
length-encode_all (f ∷ fs) =
    omega (arith, length-append (encode f) (encode_all fs), length-encode f, length-encode_all fs)

put_nil : (m : NetworkMessage) → m.position < 2 ^ 16 → m.length < 2 ^ 16 → put [] m ≡ m
unfolding put store
put_nil m p l =
    let e : u16 (m.position + 0) ≡ m.position = omega arith in
    let d : u16 (m.length + 0) ≡ m.length = omega arith in
    λ i. record {
      buffer = store m.buffer m.position [];
      length = d i;
      position = e i;
      overrun = m.overrun;
    }

-- The counters after a copy that fits.
put_fit :
    (bs : List ℕ) (m : NetworkMessage)
    → m.position + length bs < 2 ^ 16
    → ((put bs m).position ≡ m.position + length bs) × ((put bs m).length < 2 ^ 16)
unfolding put
put_fit bs m h = omega arith

-- Fields that fit are written one behind the other, with no gap.
pub write_all_lem :
    (fs : List Field) (m : NetworkMessage)
    → All Fits fs
    → m.length < 2 ^ 16
    → m.position + total fs < max_body_length
    → write_all fs m ≡ put (encode_all fs) m
unfolding write_all
write_all_lem [] m h l p = sym (put_nil m (omega arith) l)
write_all_lem (f ∷ fs) m h l p =
    let le = length-encode f in
    let fit = put_fit (encode f) m (omega (arith, le)) in
    rw (write_lem f m h.0 (omega arith)) (
      write_all_lem fs (put (encode f) m) h.1 fit.1 (omega (arith, fit.0, le))
      ∙ put-append (encode f) (encode_all fs) m (omega (arith, le)))

advance_zero : (m : NetworkMessage) → m.position < 2 ^ 16 → advance 0 m ≡ m
unfolding advance
advance_zero m p =
    let e : u16 (m.position + 0) ≡ m.position = omega arith in
    λ i. record { buffer = m.buffer; length = m.length; position = e i; overrun = m.overrun }

-- Fields that stand one behind the other are read in turn.
pub read_all_lem :
    (fs : List Field) (m : NetworkMessage)
    → All Fits fs
    → Readable m (total fs)
    → Holds m.buffer m.position (encode_all fs)
    → read_all (map shape fs) m ≡ (fs, advance (total fs) m)
unfolding read_all
read_all_lem [] m h r held = rw (advance_zero m (omega arith))
read_all_lem (f ∷ fs) m h r held =
    let le = length-encode f in
    let parts = Holds-append m.buffer m.position (encode f) (encode_all fs) held in
    let first = read_lem f m h.0 (omega arith) parts.0 in
    let rest_held =
      rw le at (Holds-advance (encode f) (encode_all fs) m (omega (arith, le)) held) in
    let rest =
      read_all_lem fs (advance (size f) m) h.1 (Readable-advance (size f) (total fs) m r).0
        rest_held in
    rw (first, rest, advance-advance (size f) (total fs) m)

-- A fresh message that took `bs` and was set back to its start.
abbrev rewound : List ℕ → NetworkMessage → NetworkMessage
rewound bs m = set_buffer_position initial_buffer_position (put bs (reset m))

rewound_lem :
    (bs : List ℕ) (m : NetworkMessage)
    → initial_buffer_position + length bs < max_body_length
    → Readable (rewound bs m) (length bs)
      × Holds (rewound bs m).buffer (rewound bs m).position bs
      × ((advance (length bs) (rewound bs m)).overrun ≡ false)
      × ((put bs (reset m)).length ≡ length bs)
      × ((advance (length bs) (rewound bs m)).position ≡ 8 + length bs)
unfolding set_buffer_position put reset advance
rewound_lem bs m p = (omega arith, store-Holds m.buffer 8 bs, refl, omega arith, omega arith)

pub reset_counters :
    (m : NetworkMessage) → ((reset m).length ≡ 0) × ((reset m).position ≡ initial_buffer_position)
unfolding reset
reset_counters m = (refl, refl)

-- A message that starts fresh and takes fields (bytes, words, strings of at most 8192 bytes,
-- positions) which fit their types, in a total that fits the body, is read back field by field from
-- the initial position: the same fields in the same order, with no overrun and to the last byte;
-- its length is the total of the fields.
pub read_all-write_all :
    (fs : List Field) (m : NetworkMessage)
    → All Fits fs
    → initial_buffer_position + total fs < max_body_length
    → let sent = write_all fs (reset m) in
      let got = read_all (map shape fs) (set_buffer_position initial_buffer_position sent) in
      (got.0 ≡ fs)
      × (got.1.overrun ≡ false)
      × (sent.length ≡ total fs)
      × (got.1.position ≡ 8 + total fs)
read_all-write_all fs m h p =
    let bs = encode_all fs in
    let le : length bs ≡ total fs = length-encode_all fs in
    let facts = rw le at (rewound_lem bs m (omega (arith, le))) in
    let sent : write_all fs (reset m) ≡ put bs (reset m) =
      write_all_lem fs (reset m) h (omega (arith, reset_counters m))
        (omega (arith, reset_counters m)) in
    rw (sent, read_all_lem fs (rewound bs m) h facts.0 facts.1) (refl, facts.2, facts.3, facts.4)
