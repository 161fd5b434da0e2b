-- ===== src/Decay/Entries.antt =====
-- The map `decayMap` of src/items/decay/decay.h, from time stamps to vectors of items: a list of
-- entries that ascends.
use forgotten_land.Base.{ℕ, List, [], ◌∷◌, ◌++◌, Option, none, some, leb, ltb, ◌==◌, if◌then◌else◌}

pub record Entry : Type 0 where
  pub timestamp : ℕ
  pub decay_items : List ℕ

unfoldable pub find_entry : ℕ → List Entry → Option (List ℕ)
find_entry k [] = none
find_entry k (e ∷ es) =
    let rest = find_entry k es in if e.timestamp == k then some e.decay_items else rest

unfoldable pub erase_entry : ℕ → List Entry → List Entry
erase_entry k [] = []
erase_entry k (e ∷ es) = let rest = erase_entry k es in if e.timestamp == k then es else e ∷ rest

unfoldable pub put_entry : ℕ → List ℕ → List Entry → List Entry
put_entry k xs [] = []
put_entry k xs (e ∷ es) =
    let rest = put_entry k xs es in
    if e.timestamp == k then record e { decay_items = xs } ∷ es else e ∷ rest

-- `decayMap[timestamp].push_back(item)`
unfoldable pub push_back : ℕ → ℕ → List Entry → List Entry
push_back k item [] = record { timestamp = k; decay_items = item ∷ [] } ∷ []
push_back k item (e ∷ es) =
    let rest = push_back k item es in
    if e.timestamp == k
    then record e { decay_items = e.decay_items ++ item ∷ [] } ∷ es
    else if ltb k e.timestamp
    then record { timestamp = k; decay_items = item ∷ [] } ∷ e ∷ es
    else e ∷ rest

-- `decayItems[i] = decayItems.back(); decayItems.pop_back();`
unfoldable pub last_of : ℕ → List ℕ → ℕ
last_of y [] = y
last_of y (z ∷ zs) = last_of z zs

unfoldable pub without_last : ℕ → List ℕ → List ℕ
without_last y [] = []
without_last y (z ∷ zs) = y ∷ without_last z zs

abbrev pub back_first : List ℕ → List ℕ
back_first [] = []
back_first (y ∷ ys) = last_of y ys ∷ without_last y ys

unfoldable pub swap_out : ℕ → List ℕ → List ℕ
swap_out item [] = []
swap_out item (x ∷ xs) =
    let rest = swap_out item xs in if x == item then back_first xs else x ∷ rest

-- The items of the entries up to a time, and the entries after it.
unfoldable pub take_due : ℕ → List Entry → List ℕ × List Entry
take_due now [] = ([], [])
take_due now (e ∷ es) =
    let (items, rest) = take_due now es in
    if leb e.timestamp now then (e.decay_items ++ items, rest) else ([], e ∷ es)
