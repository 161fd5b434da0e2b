-- ===== src/Decay/References.antt =====
-- The references that src/items/decay/decay.cpp holds to items, in every history of the server.
use forgotten_land.Base.{
  ℕ, ◌<◌, ◌+◌, ◌-◌, ◌^◌, ◌≡◌, refl, inl, inr, List, [], ◌∷◌, Option, none, some, ◌==◌, arith,
  Bool-cases, ==_iff,
}
use forgotten_land.Base.Ids.{update, occurrences}
use forgotten_land.Base.Words.{u32}
use forgotten_land.Scheduling.Queue.{PriorityQueue}
use forgotten_land.Decay.Items.{decrement_reference_counter, increment_reference_counter}
use forgotten_land.Decay.Entries.{take_due}
use forgotten_land.Decay.Timetable.{
  Game, Decaying, release_item, add_check, check_again, decrement_all, cleanup, give_back,
  game_acquire, game_release,
}
use forgotten_land.Decay.Histories.{Kept, Op, round, run}
use forgotten_land.Decay.Keeping.{run-kept_some}
use forgotten_land.Decay.Places.{items_of, occurrences-at_end, occurrences-take_due}
use forgotten_land.Decay.Counting.{
  held, Counted, same-Counted, set_item-Counted, stop_decay-Counted, schedule-Counted,
}

module _ (queue : PriorityQueue) where
  decrement-Counted :
      (outside : ℕ → ℕ) (i : ℕ) (is : List ℕ) (d : Decaying queue)
      → Counted queue outside (i ∷ is) (record d { to_release = [] })
      → Counted queue outside is (record d {
        to_release = [];
        items = update d.items i (decrement_reference_counter (d.items i));
      })
  unfolding Counted held occurrences
  decrement-Counted outside i is d h j = elim (Bool-cases (i == j)) [
    | inl here ↦
        let e : i ≡ j = (==_iff i j).0 here in
        let before = h j in
        rw (here, e) (unfold decrement_reference_counter held occurrences in ground arith)
    | inr there ↦ let before = h j in rw there (ground arith)
  ]

  decrement_all-Counted :
      (outside : ℕ → ℕ) (is : List ℕ) (d : Decaying queue)
      → Counted queue outside is (record d { to_release = [] })
      → Counted queue outside [] (record (decrement_all queue is d) { to_release = [] })
  unfolding decrement_all
  decrement_all-Counted outside [] d h = h
  decrement_all-Counted outside (i ∷ is) d h =
      decrement_all-Counted outside is _ (decrement-Counted outside i is d h)

  give_one-Counted :
      (outside : ℕ → ℕ) (i : ℕ) (d : Decaying queue)
      → Counted queue outside [] d
      → Counted queue outside [] (record d {
        items = update d.items i (decrement_reference_counter (d.items i));
        game_references = update d.game_references i (u32 (d.game_references i + (2 ^ 32 - 1)));
      })
  unfolding Counted held
  give_one-Counted outside i d h j = elim (Bool-cases (i == j)) [
    | inl here ↦
        let e : i ≡ j = (==_iff i j).0 here in
        let before = h j in rw (here, e) (unfold decrement_reference_counter in ground arith)
    | inr there ↦ let before = h j in rw there (ground arith)
  ]

  give_back-Counted :
      (outside : ℕ → ℕ) (is : List ℕ) (d : Decaying queue)
      → Counted queue outside [] d
      → Counted queue outside [] (give_back queue is d)
  unfolding give_back
  give_back-Counted outside [] d h = h
  give_back-Counted outside (i ∷ is) d h =
      give_back-Counted outside is _ (give_one-Counted outside i d h)

  cleanup-Counted :
      (outside : ℕ → ℕ) (d : Decaying queue)
      → Counted queue outside [] d
      → Counted queue outside [] (cleanup queue d)
  unfolding cleanup held
  cleanup-Counted outside d h =
      let emptied : Decaying queue = record d { to_release = [] } in
      let decayed = decrement_all-Counted outside d.to_release d (
        same-Counted queue outside [] d.to_release d emptied (λ j. refl)
          (λ j. unfold held occurrences in omega arith) h) in
      let all = give_back-Counted outside d.game_releases _ decayed in
      same-Counted queue outside [] [] _ (cleanup queue d) (λ j. refl) (λ j. refl) all

  game_acquire-Counted :
      (outside : ℕ → ℕ) (i : ℕ) (pending : List ℕ) (d : Decaying queue)
      → Counted queue outside pending d
      → Counted queue outside pending (game_acquire queue i d)
  unfolding game_acquire Counted held
  game_acquire-Counted outside i pending d h j = elim (Bool-cases (i == j)) [
    | inl here ↦
        let e : i ≡ j = (==_iff i j).0 here in
        let before = h j in rw (here, e) (unfold increment_reference_counter in ground arith)
    | inr there ↦ let before = h j in rw there (ground arith)
  ]

  game_release-Counted :
      (outside : ℕ → ℕ) (i : ℕ) (pending : List ℕ) (d : Decaying queue)
      → Counted queue outside pending d
      → Counted queue outside pending (game_release queue i d)
  unfolding game_release
  game_release-Counted outside i pending d h =
      same-Counted queue outside pending pending d _ (λ j. refl) (λ j. unfold held in refl) h

  release_item-Counted :
      (outside : ℕ → ℕ) (i : ℕ) (pending : List ℕ) (d : Decaying queue)
      → Counted queue outside (i ∷ pending) d
      → Counted queue outside pending (release_item queue i d)
  unfolding release_item
  release_item-Counted outside i pending d =
      same-Counted queue outside (i ∷ pending) pending d (release_item queue i d) (λ j. refl)
        (λ j.
          let given = occurrences-at_end i j d.to_release in
          unfold held occurrences in ground (arith, given))

  due-Counted :
      (outside : ℕ → ℕ) (now n : ℕ) (d : Decaying queue)
      → Counted queue outside [] d
      → Counted queue outside
          (take_due now d.decay_map).0
          (record d { decay_map = (take_due now d.decay_map).1; dispatched = n })
  due-Counted outside now n d =
      let off : Decaying queue = record d {
        decay_map = (take_due now d.decay_map).1;
        dispatched = n;
      } in
      same-Counted queue outside [] (take_due now d.decay_map).0 d off (λ j. refl)
        (λ j.
          let taken = occurrences-take_due j now d.decay_map in
          unfold held occurrences in omega arith)

  check_again-Counted :
      (outside : ℕ → ℕ) (g : Game) (now : ℕ) (it : Option ℕ) (d : Decaying queue)
      → Counted queue outside [] d
      → Counted queue outside [] (check_again queue g now it d)
  unfolding check_again add_check
  check_again-Counted outside g now none d h = h
  check_again-Counted outside g now (some k) d h =
      same-Counted queue outside [] [] d _ (λ j. refl) (λ j. unfold held in refl) h

  round-Counted :
      (outside : ℕ → ℕ) (now : ℕ) (d : Decaying queue)
      → Counted queue outside [] d
      → Counted queue outside [] (round queue now d)
  unfolding round
  round-Counted outside now d =
      same-Counted queue outside [] [] d (round queue now d) (λ j. refl) (λ j. unfold held in refl)

  Counted-Kept : (outside : ℕ → ℕ) → Kept queue (λ c. Counted queue outside)
  Counted-Kept outside = record {
    keep_stop = λ c. stop_decay-Counted queue outside;
    keep_schedule = λ c. schedule-Counted queue outside;
    keep_change = λ c i item pending d. set_item-Counted queue outside pending d i item;
    keep_release = λ c. release_item-Counted outside;
    keep_game_release = λ c. game_release-Counted outside;
    keep_game_acquire = λ c. game_acquire-Counted outside;
    keep_due = due-Counted outside;
    keep_again = check_again-Counted outside;
    keep_cleanup = cleanup-Counted outside;
    keep_round = round-Counted outside;
  }

  at_start :
      (d : Decaying queue) (i : ℕ)
      → d.decay_map ≡ []
      → d.to_release ≡ []
      → d.game_references i ≡ 0
      → (d.items i).reference_counter < 2 ^ 32
      → (d.items i).reference_counter ≡ u32 ((d.items i).reference_counter + held queue i [] d)
  unfolding held items_of occurrences
  at_start d i no_entry none_to_release none_taken bounded =
      rw (held, no_entry, none_to_release, none_taken) (omega arith)

  from_Counted :
      (outside : ℕ → ℕ) (d : Decaying queue) (i : ℕ)
      → (d.items i).reference_counter ≡ u32 (outside i + held queue i [] d)
      → (d.items i).reference_counter
        ≡ u32 (
            outside i
            + d.game_references i
            + occurrences i (items_of d.decay_map)
            + occurrences i d.to_release)
  unfolding held occurrences
  from_Counted outside d i h = omega arith

  -- After a history of starts, stops, changes, rounds of the scheduler, checks and releases, in which
  -- the rest of the game too takes references and gives items to release, at any time and while an
  -- item decays, and no check has followed an iterator to an erased entry: the counter of an item is,
  -- in 32 bits, what it was when no item decayed, plus the references that the game has taken since
  -- less those that it has given back, plus one for each place of the item in the map, plus one for
  -- each time that decay gave it to release and it was not yet.
  pub run-reference_counter :
      (g : Game) (ops : List Op) (d d' : Decaying queue)
      → d.decay_map ≡ []
      → d.to_release ≡ []
      → ((i : ℕ) → d.game_references i ≡ 0)
      → ((i : ℕ) → (d.items i).reference_counter < 2 ^ 32)
      → run queue g ops d ≡ some d'
      → (i : ℕ)
      → (d'.items i).reference_counter
        ≡ u32 (
            (d.items i).reference_counter
            + d'.game_references i
            + occurrences i (items_of d'.decay_map)
            + occurrences i d'.to_release)
  unfolding Counted
  run-reference_counter g ops d d' no_entry none_to_release none_taken bounded ran i =
      let outside = λ (i : ℕ). (d.items i).reference_counter in
      from_Counted outside d' i (
        run-kept_some queue (λ c. Counted queue outside) (Counted-Kept outside) g ops d d'
          (λ j. at_start d j no_entry none_to_release (none_taken j) (bounded j)) ran i)
