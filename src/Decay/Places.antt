-- ===== src/Decay/Places.antt =====
-- The places of an item in the map of src/items/decay/decay.cpp: how the changes of the map count them.
use mathlib.Core.Option.{some-injective}
use forgotten_land.Base.{
  ℕ, ◌+◌, ◌≡◌, refl, inl, inr, true, List, [], ◌∷◌, ◌++◌, some, ◌==◌, if◌then◌else◌, length, arith,
  Bool-cases, ◌⊎◌,
}
use forgotten_land.Base.Ids.{contains, occurrences, occurrences-append}
use forgotten_land.Decay.Entries.{
  Entry, find_entry, erase_entry, put_entry, push_back, swap_out, take_due, last_of, without_last,
}

unfoldable pub items_of : List Entry → List ℕ
items_of [] = []
items_of (e ∷ es) = e.decay_items ++ items_of es

-- What the changes of the vector and of the map do to the places of an item.
pub occurrences-back_first :
    (i y : ℕ) (ys : List ℕ)
    → occurrences i (last_of y ys ∷ without_last y ys) ≡ occurrences i (y ∷ ys)
unfolding occurrences last_of without_last
occurrences-back_first i y [] = refl
occurrences-back_first i y (z ∷ zs) = ground (arith, occurrences-back_first i z zs)

pub occurrences-swap_out :
    (i j : ℕ) (xs : List ℕ)
    → contains j xs ≡ true
    → (if j == i then 1 else 0) + occurrences i (swap_out j xs) ≡ occurrences i xs
unfolding contains occurrences swap_out
occurrences-swap_out i j [] h = absurd (cc)
occurrences-swap_out i j (x ∷ []) h = ground arith
occurrences-swap_out i j (x ∷ y ∷ ys) h =
    ground (arith, occurrences-swap_out i j (y ∷ ys), occurrences-back_first i y ys)

pub occurrences-put_entry :
    (i k : ℕ) (xs ys : List ℕ) (es : List Entry)
    → find_entry k es ≡ some xs
    → occurrences i (items_of (put_entry k ys es)) + occurrences i xs
      ≡ occurrences i (items_of es) + occurrences i ys
unfolding find_entry put_entry items_of
occurrences-put_entry i k xs ys [] h = absurd (cc)
occurrences-put_entry i k xs ys (e ∷ es) h = elim (Bool-cases (e.timestamp == k)) [
  | inl here ↦
      let same_items : e.decay_items ≡ xs = some-injective _ _ (rw (find_entry, here) at h) in
      rw
        (
          here,
          occurrences-append i ys (items_of es),
          occurrences-append i e.decay_items (items_of es),
          same_items,
        )
        (omega arith)
  | inr there ↦
      let below = occurrences-put_entry i k xs ys es (rw (find_entry, there) at h) in
      rw
        (
          there,
          occurrences-append i e.decay_items (items_of (put_entry k ys es)),
          occurrences-append i e.decay_items (items_of es),
        )
        (omega arith)
]

pub occurrences-erase_entry :
    (i k : ℕ) (xs : List ℕ) (es : List Entry)
    → find_entry k es ≡ some xs
    → occurrences i (items_of (erase_entry k es)) + occurrences i xs ≡ occurrences i (items_of es)
unfolding find_entry erase_entry items_of
occurrences-erase_entry i k xs [] h = absurd (cc)
occurrences-erase_entry i k xs (e ∷ es) h = elim (Bool-cases (e.timestamp == k)) [
  | inl here ↦
      let same_items : e.decay_items ≡ xs = some-injective _ _ (rw (find_entry, here) at h) in
      rw (here, occurrences-append i e.decay_items (items_of es), same_items) (omega arith)
  | inr there ↦
      let below = occurrences-erase_entry i k xs es (rw (find_entry, there) at h) in
      rw
        (
          there,
          occurrences-append i e.decay_items (items_of (erase_entry k es)),
          occurrences-append i e.decay_items (items_of es),
        )
        (omega arith)
]

pub occurrences-push_back :
    (i k j : ℕ) (es : List Entry)
    → occurrences i (items_of (push_back k j es))
      ≡ (if j == i then 1 else 0) + occurrences i (items_of es)
unfolding push_back items_of occurrences
occurrences-push_back i k j [] = ground arith
occurrences-push_back i k j (e ∷ es) = ground (
  arith,
  occurrences-push_back i k j es,
  occurrences-append i e.decay_items (items_of es),
  occurrences-append i e.decay_items (items_of (push_back k j es)),
  occurrences-append i (e.decay_items ++ j ∷ []) (items_of es),
  occurrences-append i e.decay_items (j ∷ []),
)

pub occurrences-take_due :
    (i now : ℕ) (es : List Entry)
    → occurrences i (take_due now es).0 + occurrences i (items_of (take_due now es).1)
      ≡ occurrences i (items_of es)
unfolding take_due items_of occurrences
occurrences-take_due i now [] = refl
occurrences-take_due i now (e ∷ es) = ground (
  arith,
  occurrences-take_due i now es,
  occurrences-append i e.decay_items (items_of es),
  occurrences-append i e.decay_items (take_due now es).0,
)

pub occurrences-single :
    (i j : ℕ) (xs : List ℕ)
    → contains i xs ≡ true
    → (length xs == 1) ≡ true
    → occurrences j xs ≡ (if i == j then 1 else 0)
unfolding contains occurrences
occurrences-single i j [] found single = absurd (cc)
occurrences-single i j (x ∷ []) found single = ground arith
occurrences-single i j (x ∷ y ∷ ys) found single = absurd (ground arith)

pub occurrences-at_end :
    (i j : ℕ) (xs : List ℕ)
    → occurrences j (xs ++ i ∷ []) ≡ occurrences j xs + (if i == j then 1 else 0)
unfolding occurrences
occurrences-at_end i j xs = ground (arith, occurrences-append j xs (i ∷ []))

pub entries-cases :
    (es : List Entry) → (es ≡ []) ⊎ ((e : Entry) × (es' : List Entry) × (es ≡ e ∷ es'))
entries-cases [] = inl refl
entries-cases (e ∷ es) = inr (e, es, refl)
