-- ===== src/Decay/Counting.antt =====
-- The references that src/items/decay/decay.cpp holds to items, one for each place in the map and one
-- for each item that it gave to the game to release, and the operations on single items.
use mathlib.Core.Path.{subst}
use forgotten_land.Base.{
  ℕ, ◌+◌, ◌≡◌, refl, sym, ap, ◌∙◌, inl, inr, Bool, true, false, List, ◌==◌, if◌then◌else◌, length,
  arith, Bool-cases, Option-cases, ==_iff,
}
use forgotten_land.Base.Ids.{contains, update, occurrences}
use forgotten_land.Base.Words.{u32}
use forgotten_land.Scheduling.Queue.{PriorityQueue}
use forgotten_land.Decay.Items.{
  Item, has_attribute, set_duration, set_decaying, get_duration, set_duration_timestamp,
  increment_reference_counter,
}
use forgotten_land.Decay.Entries.{find_entry, swap_out}
use forgotten_land.Decay.Timetable.{Game, Decaying, release_item, let_go, stop_decay, schedule}
use forgotten_land.Decay.Checks.{set_check-kept}
use forgotten_land.Decay.Places.{
  items_of, occurrences-swap_out, occurrences-put_entry, occurrences-erase_entry,
  occurrences-push_back, occurrences-single, occurrences-at_end,
}

-- What `stopDecay` keeps of the duration.
kept-counter :
    (now : ℕ) (item : Item)
    → (if has_attribute item.duration
        then set_duration (get_duration now item) item
        else item).reference_counter
      ≡ item.reference_counter
unfolding set_duration
kept-counter now item = elim (Bool-cases (has_attribute item.duration)) [
  | inl has ↦ rw has refl
  | inr hasnt ↦ rw hasnt refl
]

module _ (queue : PriorityQueue) where
  -- `pending` are the items that `checkDecay` has taken off the map and not yet released.
  unfoldable pub held : ℕ → List ℕ → Decaying queue → ℕ
  held i pending d =
      occurrences i (items_of d.decay_map)
      + occurrences i pending
      + occurrences i d.to_release
      + d.game_references i

  -- Beside the references of `outside`, those that are held and that the game has taken are all that
  -- are counted.
  unfoldable pub Counted : (ℕ → ℕ) → List ℕ → Decaying queue → Type 0
  Counted outside pending d =
      (i : ℕ) → (d.items i).reference_counter ≡ u32 (outside i + held i pending d)

  -- What changes neither a counter nor what is held.
  pub same-Counted :
      (outside : ℕ → ℕ) (pending pending' : List ℕ) (d d' : Decaying queue)
      → ((i : ℕ) → (d'.items i).reference_counter ≡ (d.items i).reference_counter)
      → ((i : ℕ) → held i pending' d' ≡ held i pending d)
      → Counted outside pending d
      → Counted outside pending' d'
  unfolding Counted
  same-Counted outside pending pending' d d' counters places h i =
      counters i ∙ h i ∙ ap (λ n. u32 (outside i + n)) (sym (places i))

  pub update-counter :
      (items : ℕ → Item) (i : ℕ) (item : Item)
      → item.reference_counter ≡ (items i).reference_counter
      → (j : ℕ) → (update items i item j).reference_counter ≡ (items j).reference_counter
  update-counter items i item e j = elim (Bool-cases (i == j)) [
    | inl here ↦
        rw here (
          subst (λ k. item.reference_counter ≡ (items k).reference_counter) ((==_iff i j).0 here) e)
    | inr there ↦ rw there refl
  ]

  pub set_item-Counted :
      (outside : ℕ → ℕ) (pending : List ℕ) (d : Decaying queue) (i : ℕ) (item : Item)
      → item.reference_counter ≡ (d.items i).reference_counter
      → Counted outside pending d
      → Counted outside pending (record d { items = update d.items i item })
  set_item-Counted outside pending d i item e h =
      same-Counted outside pending pending d _ (update-counter d.items i item e)
        (λ j. unfold held in refl) h

  let_go-counter :
      (now i : ℕ) (d : Decaying queue) (j : ℕ)
      → ((let_go queue now i d).items j).reference_counter ≡ (d.items j).reference_counter
  unfolding let_go release_item
  let_go-counter now i d j = update-counter d.items i _ (kept-counter now (d.items i)) j

  stop_decay-counter :
      (now i timestamp : ℕ) (d : Decaying queue) (j : ℕ)
      → ((stop_decay queue now i timestamp d).items j).reference_counter
        ≡ (d.items j).reference_counter
  unfolding stop_decay
  stop_decay-counter now i timestamp d j = elim (Option-cases (find_entry timestamp d.decay_map)) [
    | inl not_there ↦ rw (stop_decay, not_there) refl
    | inr (xs, there) ↦ elim (Bool-cases (contains i xs)) [
      | inl found ↦ elim (Bool-cases (length xs == 1)) [
        | inl single ↦ rw (stop_decay, there, found, single) (let_go-counter now i d j)
        | inr several ↦ rw (stop_decay, there, found, several) (let_go-counter now i d j)
      ]
      | inr not_found ↦ rw (stop_decay, there, not_found) refl
    ]
  ]

  held-stop_decay :
      (now i timestamp : ℕ) (pending : List ℕ) (d : Decaying queue) (j : ℕ)
      → held j pending (stop_decay queue now i timestamp d) ≡ held j pending d
  unfolding held stop_decay let_go release_item
  held-stop_decay now i timestamp pending d j =
      elim (Option-cases (find_entry timestamp d.decay_map)) [
        | inl not_there ↦ rw (stop_decay, not_there) refl
        | inr (xs, there) ↦ elim (Bool-cases (contains i xs)) [
          | inl found ↦ elim (Bool-cases (length xs == 1)) [
            | inl single ↦
                let gone = occurrences-single i j xs found single in
                let erased = occurrences-erase_entry j timestamp xs d.decay_map there in
                let given = occurrences-at_end i j d.to_release in
                rw (held, stop_decay, there, found, single, given) (unfold held in omega arith)
            | inr several ↦
                let gone = occurrences-swap_out j i xs found in
                let put = occurrences-put_entry j timestamp xs (swap_out i xs) d.decay_map there in
                let given = occurrences-at_end i j d.to_release in
                rw (held, stop_decay, there, found, several, given) (unfold held in omega arith)
          ]
          | inr not_found ↦ rw (stop_decay, there, not_found) refl
        ]
      ]

  pub stop_decay-Counted :
      (outside : ℕ → ℕ) (now i timestamp : ℕ) (pending : List ℕ) (d : Decaying queue)
      → Counted outside pending d
      → Counted outside pending (stop_decay queue now i timestamp d)
  stop_decay-Counted outside now i timestamp pending d =
      same-Counted outside pending pending d (stop_decay queue now i timestamp d)
        (stop_decay-counter now i timestamp d) (held-stop_decay now i timestamp pending d)

  schedule-counter :
      (g : Game) (now i duration : ℕ) (d : Decaying queue) (j : ℕ)
      → ((schedule queue g now i duration d).items j).reference_counter ≡ (
          if i == j then u32 ((d.items j).reference_counter + 1) else (d.items j).reference_counter)
  unfolding schedule
  schedule-counter g now i duration d j =
      let (_, same_items, _, _) = set_check-kept queue g now duration d in
      elim (Bool-cases (i == j)) [
        | inl here ↦
            rw (schedule, here, sym ((==_iff i j).0 here), same_items)
              (unfold set_duration_timestamp increment_reference_counter set_decaying in refl)
        | inr there ↦ rw (schedule, there, same_items) refl
      ]

  pub held-schedule :
      (g : Game) (now i duration : ℕ) (pending : List ℕ) (d : Decaying queue) (j : ℕ)
      → held j pending (schedule queue g now i duration d)
        ≡ held j pending d + (if i == j then 1 else 0)
  unfolding held schedule
  held-schedule g now i duration pending d j =
      let (same_map, _, same_release, same_references) = set_check-kept queue g now duration d in
      let pushed = occurrences-push_back j (now + duration) i d.decay_map in
      rw (held, schedule, same_map, same_release, same_references, pushed)
        (unfold held in omega arith)

  count_one :
      (a c n : ℕ) (b : Bool)
      → c ≡ u32 (a + n)
      → (if b then u32 (c + 1) else c) ≡ u32 (a + (n + (if b then 1 else 0)))
  count_one a c n true e = omega arith
  count_one a c n false e = omega arith

  pub schedule-Counted :
      (outside : ℕ → ℕ) (g : Game) (now i duration : ℕ) (pending : List ℕ) (d : Decaying queue)
      → Counted outside pending d
      → Counted outside pending (schedule queue g now i duration d)
  unfolding Counted
  schedule-Counted outside g now i duration pending d h j =
      schedule-counter g now i duration d j
      ∙ count_one (outside j) _ (held j pending d) (i == j) (h j)
      ∙ ap (λ n. u32 (outside j + n)) (sym (held-schedule g now i duration pending d j))
