-- ===== src/Decay/Checks.antt =====
-- What the parts of `Decay::startDecay` and `Decay::stopDecay` of src/items/decay/decay.cpp keep of a
-- state.
use forgotten_land.Base.{
  ℕ, ◌+◌, ◌≡◌, refl, ◌∙◌, inl, inr, List, [], ◌∷◌, Option, none, some, ltb, Bool-cases,
}
use forgotten_land.Scheduling.Queue.{PriorityQueue}
use forgotten_land.Decay.Timetable.{
  Game, Decaying, set_check, add_check, stop_check, check_again, set_item, decrement_all, give_back,
  cleanup,
}
use forgotten_land.Decay.Items.{decrement_reference_counter}
use forgotten_land.Decay.Places.{entries-cases}

module _ (queue : PriorityQueue) where
  -- The events of the scheduler are set without a change of the rest.
  pub set_check-kept :
      (g : Game) (now duration : ℕ) (d : Decaying queue)
      → let d' = set_check queue g now duration d in
        (d'.decay_map ≡ d.decay_map)
        × (d'.items ≡ d.items)
        × (d'.to_release ≡ d.to_release)
        × (d'.game_references ≡ d.game_references)
  unfolding set_check add_check stop_check
  set_check-kept g now duration d = elim (entries-cases d.decay_map) [
    | inl e ↦ rw (set_check, e) (e, refl, refl, refl)
    | inr (first, rest, e) ↦ elim (Bool-cases (ltb (now + duration) first.timestamp)) [
      | inl before ↦ rw (set_check, e, before) (e, refl, refl, refl)
      | inr after ↦ rw (set_check, e, after) (e, refl, refl, refl)
    ]
  ]

  pub check_again-kept :
      (g : Game) (now : ℕ) (it : Option ℕ) (d : Decaying queue)
      → let d' = check_again queue g now it d in
        (d'.decay_map ≡ d.decay_map) × (d'.to_release ≡ d.to_release)
  unfolding check_again add_check
  check_again-kept g now none d = (refl, refl)
  check_again-kept g now (some k) d = (refl, refl)

  decrement_all-kept :
      (is : List ℕ) (d : Decaying queue)
      → let d' = decrement_all queue is d in
        (d'.decay_map ≡ d.decay_map)
        × (d'.scheduler ≡ d.scheduler)
        × (d'.dispatched ≡ d.dispatched)
        × (d'.game_releases ≡ d.game_releases)
  unfolding decrement_all
  decrement_all-kept [] d = (refl, refl, refl, refl)
  decrement_all-kept (i ∷ is) d =
      decrement_all-kept is (set_item queue i (decrement_reference_counter (d.items i)) d)

  give_back-kept :
      (is : List ℕ) (d : Decaying queue)
      → let d' = give_back queue is d in
        (d'.decay_map ≡ d.decay_map) × (d'.scheduler ≡ d.scheduler) × (d'.dispatched ≡ d.dispatched)
  unfolding give_back
  give_back-kept [] d = (refl, refl, refl)
  give_back-kept (i ∷ is) d = give_back-kept is _

  pub cleanup-kept :
      (d : Decaying queue)
      → let d' = cleanup queue d in
        (d'.decay_map ≡ d.decay_map) × (d'.scheduler ≡ d.scheduler) × (d'.dispatched ≡ d.dispatched)
  unfolding cleanup
  cleanup-kept d =
      let (map₁, events₁, checks₁, _) = decrement_all-kept d.to_release d in
      let (map₂, events₂, checks₂) =
        give_back-kept d.game_releases
          (record (decrement_all queue d.to_release d) { to_release = [] }) in
      (map₂ ∙ map₁, events₂ ∙ events₁, checks₂ ∙ checks₁)
