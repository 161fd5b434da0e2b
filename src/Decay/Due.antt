-- ===== src/Decay/Due.antt =====
-- What a check of src/items/decay/decay.cpp finds due, and what it does with it.
use mathlib.Core.List.{append_assoc}
use forgotten_land.Base.{
  ℕ, ◌≡◌, ◌≤◌, refl, sym, ap, ◌∙◌, inl, inr, false, List, [], ◌∷◌, ◌++◌, Option, none, some, leb,
  ◌==◌, if◌then◌else◌, arith, Bool-cases,
}
use forgotten_land.Scheduling.Queue.{PriorityQueue}
use forgotten_land.Decay.Items.{Item, can_decay}
use forgotten_land.Decay.Entries.{Entry, find_entry, take_due}
use forgotten_land.Decay.Timetable.{
  Call, Game, Decaying, set_item, release_item, game_acquire, game_release, check_again, call,
  calls, decay_item, decay_items_of, check_decay, first_timestamp,
}
use forgotten_land.Decay.Places.{items_of}
use forgotten_land.Decay.Checks.{check_again-kept}
use forgotten_land.Decay.Order.{IsOrdered, Before}

-- The entry of a time, empty where there is none.
abbrev pub entry_items : Option (List ℕ) → List ℕ
entry_items none = []
entry_items (some xs) = xs

-- An entry that is not there before the first one.
find_entry-Before :
    (k j : ℕ) (es : List Entry) → k ≤ j → IsOrdered es → Before j es → find_entry k es ≡ none
unfolding find_entry IsOrdered
find_entry-Before k j [] h o b = refl
find_entry-Before k j (e ∷ es) h (full, next, o) b =
    let below = find_entry-Before k e.timestamp es (omega arith) o next in ground arith

find_entry-take_due :
    (now k : ℕ) (es : List Entry)
    → IsOrdered es
    → entry_items (find_entry k (take_due now es).1)
      ≡ (if leb k now then [] else entry_items (find_entry k es))
unfolding find_entry take_due IsOrdered
find_entry-take_due now k [] o = ground arith
find_entry-take_due now k (e ∷ es) (full, next, o) = elim (Bool-cases (leb e.timestamp now)) [
  | inl due ↦
      let below = find_entry-take_due now k es o in
      elim (Bool-cases (leb k now)) [
        | inl early ↦ rw (due, early) (rw early at below)
        | inr late ↦
            let other : (e.timestamp == k) ≡ false = ground arith in
            rw (due, late, other) (rw late at below)
      ]
  | inr later ↦ elim (Bool-cases (leb k now)) [
    | inl early ↦
        let other : (e.timestamp == k) ≡ false = ground arith in
        let no_other = find_entry-Before k e.timestamp es (ground arith) o next in
        rw (later, early, other, no_other) refl
    | inr late ↦ rw (later, late) refl
  ]
]

take_due-all :
    (now : ℕ) (es : List Entry) → (take_due now es).0 ++ items_of (take_due now es).1 ≡ items_of es
unfolding take_due items_of
take_due-all now [] = refl
take_due-all now (e ∷ es) = elim (Bool-cases (leb e.timestamp now)) [
  | inl due ↦ rw due (
      append_assoc e.decay_items (take_due now es).0 (items_of (take_due now es).1)
      ∙ ap (λ xs. e.decay_items ++ xs) (take_due-all now es))
  | inr later ↦ rw later refl
]

-- A game that calls nothing of the decay of items while an item decays.
abbrev pub Quiet : List Call → Type 0
Quiet [] = Unit
Quiet (Call.change i item ∷ cs) = Quiet cs
Quiet (Call.acquire i ∷ cs) = Quiet cs
Quiet (Call.release i ∷ cs) = Quiet cs
Quiet (Call.start i duration ∷ cs) = ⊥
Quiet (Call.stop i timestamp ∷ cs) = ⊥

module _ (queue : PriorityQueue) where
  -- The state goes on, with the same map, and with more to release.
  unfoldable GoesOn : Decaying queue → List ℕ → Option (Decaying queue) → Type 0
  GoesOn d is o =
      (d' : Decaying queue) × (o ≡ some d')
      × (d'.decay_map ≡ d.decay_map)
      × (d'.to_release ≡ d.to_release ++ is)

  append_nil : (xs : List ℕ) → xs ++ [] ≡ xs
  append_nil [] = refl
  append_nil (x ∷ xs) = ap (λ ys. x ∷ ys) (append_nil xs)

  calls-GoesOn :
      (g : Game) (now : ℕ) (it : Option ℕ) (cs : List Call) (d : Decaying queue)
      → Quiet cs
      → GoesOn d [] (calls queue g now it cs d)
  unfolding GoesOn calls call game_acquire game_release
  calls-GoesOn g now it [] d q = (d, refl, refl, sym (append_nil d.to_release))
  calls-GoesOn g now it (Call.change i item ∷ cs) d q =
      calls-GoesOn g now it cs
        (set_item queue i (record item { reference_counter = (d.items i).reference_counter }) d) q
  calls-GoesOn g now it (Call.acquire i ∷ cs) d q =
      calls-GoesOn g now it cs (game_acquire queue i d) q
  calls-GoesOn g now it (Call.release i ∷ cs) d q =
      calls-GoesOn g now it cs (game_release queue i d) q
  calls-GoesOn g now it (Call.start i duration ∷ cs) d q = absurd q
  calls-GoesOn g now it (Call.stop i timestamp ∷ cs) d q = absurd q

  decay_item-GoesOn :
      (g : Game) (now : ℕ) (it : Option ℕ) (i : ℕ) (d : Decaying queue)
      → ((items : ℕ → Item) → Quiet (g.internal_decay_item i items))
      → GoesOn d [] (decay_item queue g now it i d)
  unfolding GoesOn decay_item
  decay_item-GoesOn g now it i d q = elim (Bool-cases (can_decay g.types (d.items i))) [
    | inl able ↦ rw (decay_item, able) (calls-GoesOn g now it (g.internal_decay_item i _) _ (q _))
    | inr unable ↦ rw (decay_item, unable) (_, refl, refl, sym (append_nil d.to_release))
  ]

  decay_items_of-GoesOn :
      (g : Game) (now : ℕ) (it : Option ℕ) (is : List ℕ) (d : Decaying queue)
      → ((i : ℕ) (items : ℕ → Item) → Quiet (g.internal_decay_item i items))
      → GoesOn d is (decay_items_of queue g now it is d)
  unfolding GoesOn decay_items_of release_item
  decay_items_of-GoesOn g now it [] d q = (d, refl, refl, sym (append_nil d.to_release))
  decay_items_of-GoesOn g now it (i ∷ is) d q =
      let (d₁, e₁, map₁, release₁) = decay_item-GoesOn g now it i d (q i) in
      let (d₂, e₂, map₂, release₂) =
        decay_items_of-GoesOn g now it is (release_item queue i d₁) q in
      (
        d₂,
        rw (decay_items_of, e₁) e₂,
        map₂ ∙ map₁,
        release₂
            ∙ append_assoc d₁.to_release (i ∷ []) is
            ∙ ap (λ xs. xs ++ i ∷ is) (release₁ ∙ append_nil d.to_release),
      )

  -- A check at a time, of a map whose time stamps ascend and whose entries are not empty, where the game
  -- calls nothing of the decay of items while an item decays: it ends; the entries up to the time are
  -- gone and all others as they were; and the items of the entries that are gone are given to be
  -- released, in the order of their time stamps.
  pub check_decay-due :
      (g : Game) (now : ℕ) (d : Decaying queue)
      → IsOrdered d.decay_map
      → ((i : ℕ) (items : ℕ → Item) → Quiet (g.internal_decay_item i items))
      → (d' : Decaying queue) × (due : List ℕ) × (check_decay queue g now d ≡ some d')
        × ((k : ℕ)
            → entry_items (find_entry k d'.decay_map)
              ≡ (if leb k now then [] else entry_items (find_entry k d.decay_map)))
        × (d'.to_release ≡ d.to_release ++ due)
        × (due ++ items_of d'.decay_map ≡ items_of d.decay_map)
  unfolding check_decay GoesOn
  check_decay-due g now d ordered quiet =
      let (due, rest) = take_due now d.decay_map in
      let it = first_timestamp queue rest in
      let off : Decaying queue = record d { decay_map = rest } in
      let (d₁, e₁, map₁, release₁) = decay_items_of-GoesOn g now it due off quiet in
      let (map₂, release₂) = check_again-kept queue g now it d₁ in
      let same_map : (check_again queue g now it d₁).decay_map ≡ rest = map₂ ∙ map₁ in
      (
        check_again queue g now it d₁,
        due,
        rw (check_decay, e₁) refl,
        λ k.
            ap (λ m. entry_items (find_entry k m)) same_map
            ∙ find_entry-take_due now k d.decay_map ordered,
        release₂ ∙ release₁,
        ap (λ m. due ++ items_of m) same_map ∙ take_due-all now d.decay_map,
      )
