-- ===== src/Decay/Order.antt =====
-- The order of the entries of the map of src/items/decay/decay.cpp, and which items are due.
use forgotten_land.Base.{
  ℕ, ◌≡◌, ◌<◌, refl, inl, inr, Bool, true, false, List, [], ◌∷◌, ◌++◌, leb, ltb, ◌==◌, length,
  arith, Bool-cases,
}
use forgotten_land.Base.Ids.{contains}
use forgotten_land.Decay.Entries.{Entry, erase_entry, put_entry, push_back, swap_out, take_due}

abbrev pub is_empty : List ℕ → Bool
is_empty [] = true
is_empty (x ∷ xs) = false

abbrev pub Before : ℕ → List Entry → Type 0
Before k [] = Unit
Before k (e ∷ es) = k < e.timestamp

-- The time stamps ascend, and no entry is empty.
unfoldable pub IsOrdered : List Entry → Type 0
IsOrdered [] = Unit
IsOrdered (e ∷ es) = (is_empty e.decay_items ≡ false) × Before e.timestamp es × IsOrdered es

Before-tail :
    (k : ℕ) (e : Entry) (es : List Entry) → k < e.timestamp → Before e.timestamp es → Before k es
Before-tail k e [] h b = tt
Before-tail k e (e' ∷ es) h b = omega arith

Before-erase_entry :
    (k j : ℕ) (es : List Entry) → IsOrdered es → Before k es → Before k (erase_entry j es)
unfolding erase_entry IsOrdered
Before-erase_entry k j [] o b = tt
Before-erase_entry k j (e ∷ es) (full, next, o) b = elim (Bool-cases (e.timestamp == j)) [
  | inl here ↦ rw here (Before-tail k e es b next)
  | inr there ↦ rw there b
]

pub erase_entry-IsOrdered : (k : ℕ) (es : List Entry) → IsOrdered es → IsOrdered (erase_entry k es)
unfolding erase_entry IsOrdered
erase_entry-IsOrdered k [] o = tt
erase_entry-IsOrdered k (e ∷ es) (full, next, o) = elim (Bool-cases (e.timestamp == k)) [
  | inl here ↦ rw here o
  | inr there ↦
      rw there (full, Before-erase_entry e.timestamp k es o next, erase_entry-IsOrdered k es o)
]

Before-put_entry :
    (k j : ℕ) (xs : List ℕ) (es : List Entry) → Before k es → Before k (put_entry j xs es)
unfolding put_entry
Before-put_entry k j xs [] b = tt
Before-put_entry k j xs (e ∷ es) b = elim (Bool-cases (e.timestamp == j)) [
  | inl here ↦ rw here b
  | inr there ↦ rw there b
]

pub put_entry-IsOrdered :
    (k : ℕ) (xs : List ℕ) (es : List Entry)
    → is_empty xs ≡ false
    → IsOrdered es
    → IsOrdered (put_entry k xs es)
unfolding put_entry IsOrdered
put_entry-IsOrdered k xs [] full_xs o = tt
put_entry-IsOrdered k xs (e ∷ es) full_xs (full, next, o) = elim (Bool-cases (e.timestamp == k)) [
  | inl here ↦ rw here (full_xs, next, o)
  | inr there ↦
      rw there
        (full, Before-put_entry e.timestamp k xs es next, put_entry-IsOrdered k xs es full_xs o)
]

Before-push_back : (k j i : ℕ) (es : List Entry) → k < j → Before k es → Before k (push_back j i es)
unfolding push_back
Before-push_back k j i [] h b = h
Before-push_back k j i (e ∷ es) h b = elim (Bool-cases (e.timestamp == j)) [
  | inl here ↦ rw here b
  | inr there ↦ elim (Bool-cases (ltb j e.timestamp)) [
    | inl before ↦ rw (there, before) h
    | inr after ↦ rw (there, after) b
  ]
]

is_empty-append : (i : ℕ) (xs : List ℕ) → is_empty (xs ++ i ∷ []) ≡ false
is_empty-append i [] = refl
is_empty-append i (x ∷ xs) = refl

pub push_back-IsOrdered : (k i : ℕ) (es : List Entry) → IsOrdered es → IsOrdered (push_back k i es)
unfolding push_back IsOrdered
push_back-IsOrdered k i [] o = (refl, tt, tt)
push_back-IsOrdered k i (e ∷ es) (full, next, o) = elim (Bool-cases (e.timestamp == k)) [
  | inl here ↦ rw here (is_empty-append i e.decay_items, next, o)
  | inr there ↦ elim (Bool-cases (ltb k e.timestamp)) [
    | inl before ↦ rw (there, before) (refl, ground arith, (full, next, o))
    | inr after ↦
        rw (there, after)
          (
            full,
            Before-push_back e.timestamp k i es (ground arith) next,
            push_back-IsOrdered k i es o,
          )
  ]
]

pub swap_out-is_empty :
    (i : ℕ) (xs : List ℕ)
    → contains i xs ≡ true
    → (length xs == 1) ≡ false
    → is_empty (swap_out i xs) ≡ false
unfolding swap_out contains
swap_out-is_empty i [] found several = absurd (cc)
swap_out-is_empty i (x ∷ []) found several = absurd (ground arith)
swap_out-is_empty i (x ∷ y ∷ ys) found several = ground arith

pub take_due-IsOrdered : (now : ℕ) (es : List Entry) → IsOrdered es → IsOrdered (take_due now es).1
unfolding take_due IsOrdered
take_due-IsOrdered now [] o = tt
take_due-IsOrdered now (e ∷ es) (full, next, o) = elim (Bool-cases (leb e.timestamp now)) [
  | inl due ↦ rw due (take_due-IsOrdered now es o)
  | inr later ↦ rw later (full, next, o)
]
