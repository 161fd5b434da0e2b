-- ===== src/Decay/Keeping.antt =====
-- What the single operations of src/items/decay/decay.cpp keep, every history keeps.
use mathlib.Core.Path.{subst}
use forgotten_land.Base.{
  zero, suc, ◌⊎◌, ℕ, ◌≡◌, refl, ◌∙◌, inl, inr, Bool, true, false, not, ◌&&◌, ◌||◌, List, [], ◌∷◌,
  Option, none, some, ltb, if◌then◌else◌, Bool-cases, Option-cases,
}
use forgotten_land.Base.Words.{u32, is_negative}
use forgotten_land.Scheduling.Queue.{PriorityQueue}
use forgotten_land.Decay.Items.{
  Item, ItemDecayState, has_attribute, get_decaying, is_decaying, is_stopping, get_int_attr,
  set_duration, set_decaying, get_duration, can_decay,
}
use forgotten_land.Decay.Entries.{find_entry, take_due}
use forgotten_land.Decay.Timetable.{
  Call, Game, Decaying, release_item, stop_decay, forget, start_decay, watch, call, calls,
  decay_item, decay_items_of, check_decay, game_stop_decay, game_start_decay, first_timestamp,
}
use forgotten_land.Decay.Histories.{Op, Context, Kept, step, run}

set_duration-counter :
    (t : ℕ) (item : Item) → (set_duration t item).reference_counter ≡ item.reference_counter
unfolding set_duration
set_duration-counter t item = refl

set_decaying-counter :
    (s : ItemDecayState) (item : Item)
    → (set_decaying s item).reference_counter ≡ item.reference_counter
unfolding set_decaying
set_decaying-counter ItemDecayState.decaying_false item = refl
set_decaying-counter ItemDecayState.decaying_true item = refl
set_decaying-counter ItemDecayState.decaying_pending item = refl
set_decaying-counter ItemDecayState.decaying_stopping item = refl

dispatched-cases : (n : ℕ) → (n ≡ 0) ⊎ ((m : ℕ) × (n ≡ suc m))
dispatched-cases zero = inl refl
dispatched-cases (suc m) = inr (m, refl)

module _ (queue : PriorityQueue) where
  if-After :
      (P : Option (Decaying queue) → Type 0) (b : Bool) (x y : Option (Decaying queue))
      → P x
      → P y
      → P (if b then x else y)
  if-After P true x y hx hy = hx
  if-After P false x y hx hy = hy

  -- What holds of a state, if there is one.
  abbrev After : (Decaying queue → Type 0) → Option (Decaying queue) → Type 0
  After P none = Unit
  After P (some d) = P d

  and_then :
      (P Q : Decaying queue → Type 0) (o : Option (Decaying queue))
      (f : Decaying queue → Option (Decaying queue))
      → After P o
      → ((d : Decaying queue) → P d → After Q (f d))
      → After Q (elim o [ none ↦ none | some d ↦ f d ])
  and_then P Q none f h step = tt
  and_then P Q (some d) f h step = step d h

  watch-After :
      (P : Decaying queue → Type 0) (it : Option ℕ) (d : Decaying queue)
      → P d
      → After P (watch queue it d)
  unfolding watch
  watch-After P none d h = h
  watch-After P (some k) d h = elim (Option-cases (find_entry k d.decay_map)) [
    | inl e ↦ rw (watch, e) tt
    | inr (xs, e) ↦ rw (watch, e) h
  ]

  module _ (P : Context → List ℕ → Decaying queue → Type 0) (kept : Kept queue P) where
    forget-kept :
        (c : Context) (now i : ℕ) (pending : List ℕ) (d : Decaying queue)
        → P c pending d
        → P c pending (forget queue now i d)
    unfolding forget
    forget-kept c now i pending d h = elim (Option-cases (d.items i).duration_timestamp) [
      | inl e ↦ rw (forget, e) h
      | inr (ts, e) ↦ rw (forget, e) (kept.keep_stop c now i ts pending d h)
    ]

    call-kept :
        (c : Context) (g : Game) (now : ℕ) (it : Option ℕ) (pending : List ℕ) (k : Call)
        (d : Decaying queue)
        → P c pending d
        → After (P c pending) (call queue g now it k d)
    unfolding call
    call-kept c g now it pending (Call.start i duration) d h =
        and_then (P c pending) (P c pending) (watch queue it (forget queue now i d)) _
          (watch-After (P c pending) it _ (forget-kept c now i pending d h))
          (λ d' h'. kept.keep_schedule c g now i duration pending d' h')
    call-kept c g now it pending (Call.stop i timestamp) d h =
        watch-After (P c pending) it _ (kept.keep_stop c now i timestamp pending d h)
    call-kept c g now it pending (Call.change i item) d h = kept.keep_change c i _ pending d refl h
    call-kept c g now it pending (Call.acquire i) d h = kept.keep_game_acquire c i pending d h
    call-kept c g now it pending (Call.release i) d h = kept.keep_game_release c i pending d h

    calls-kept :
        (c : Context) (g : Game) (now : ℕ) (it : Option ℕ) (pending : List ℕ) (cs : List Call)
        (d : Decaying queue)
        → P c pending d
        → After (P c pending) (calls queue g now it cs d)
    unfolding calls
    calls-kept c g now it pending [] d h = h
    calls-kept c g now it pending (k ∷ cs) d h =
        and_then (P c pending) (P c pending) (call queue g now it k d) _
          (call-kept c g now it pending k d h) (λ d' h'. calls-kept c g now it pending cs d' h')

    decay_item-kept :
        (c : Context) (g : Game) (now : ℕ) (it : Option ℕ) (pending : List ℕ) (i : ℕ)
        (d : Decaying queue)
        → P c pending d
        → After (P c pending) (decay_item queue g now it i d)
    unfolding decay_item
    decay_item-kept c g now it pending i d h = elim (Bool-cases (can_decay g.types (d.items i))) [
      | inl able ↦
          rw (decay_item, able)
            (calls-kept c g now it pending (g.internal_decay_item i _) _
              (kept.keep_change c i _ pending d (set_decaying-counter _ (d.items i)) h))
      | inr unable ↦
          rw (decay_item, unable)
            (kept.keep_change c i _ pending d
              (set_decaying-counter _ (set_duration (get_duration now (d.items i)) (d.items i))
                ∙ set_duration-counter (get_duration now (d.items i)) (d.items i))
              h)
    ]

    decay_items_of-kept :
        (c : Context) (g : Game) (now : ℕ) (it : Option ℕ) (is : List ℕ) (d : Decaying queue)
        → P c is d
        → After (P c []) (decay_items_of queue g now it is d)
    unfolding decay_items_of
    decay_items_of-kept c g now it [] d h = h
    decay_items_of-kept c g now it (i ∷ is) d h =
        and_then (P c (i ∷ is)) (P c []) (decay_item queue g now it i d) _
          (decay_item-kept c g now it (i ∷ is) i d h)
          (λ d' h'.
            decay_items_of-kept c g now it is (release_item queue i d')
              (kept.keep_release c i is d' h'))

    check_decay-kept :
        (g : Game) (now n : ℕ) (d : Decaying queue)
        → P Context.outside [] d
        → After (P Context.outside []) (check_decay queue g now (record d { dispatched = n }))
    unfolding check_decay
    check_decay-kept g now n d h =
        let (due, rest) = take_due now d.decay_map in
        let it = first_timestamp queue rest in
        let off : Decaying queue = record d { decay_map = rest; dispatched = n } in
        let within = Context.checking now it in
        and_then (P within []) (P Context.outside []) (decay_items_of queue g now it due off) _
          (decay_items_of-kept within g now it due off (kept.keep_due now n d h))
          (λ d' h'. kept.keep_again g now it d' h')

    game_stop_decay-kept :
        (now i : ℕ) (d : Decaying queue)
        → P Context.outside [] d
        → P Context.outside [] (game_stop_decay queue now i d)
    unfolding game_stop_decay
    game_stop_decay-kept now i d h = elim (Bool-cases (has_attribute (d.items i).decay_state)) [
      | inr hasnt ↦ rw (game_stop_decay, hasnt) h
      | inl has ↦ elim (Option-cases (d.items i).duration_timestamp) [
        | inl e ↦ rw (game_stop_decay, has, e) (kept.keep_change Context.outside i _ [] d refl h)
        | inr (ts, e) ↦
            rw (game_stop_decay, has, e)
              (kept.keep_change Context.outside i _ [] (stop_decay queue now i ts d) refl
                (kept.keep_stop Context.outside now i ts [] d h))
      ]
    ]

    game_start_decay-kept :
        (g : Game) (now i : ℕ) (d : Decaying queue)
        → P Context.outside [] d
        → After (P Context.outside []) (game_start_decay queue g now i d)
    unfolding game_start_decay start_decay
    game_start_decay-kept g now i d h =
        let item = d.items i in
        let decaying = is_decaying (get_decaying item) in
        let able = can_decay g.types item in
        let duration = u32 (get_int_attr item.duration) in
        let Q = After (P Context.outside []) in
        if-After Q (is_stopping (get_decaying item) || (not able && decaying)) _ _
          (game_stop_decay-kept now i d h)
          (if-After Q (not able || decaying) _ _ h (
            if-After Q (not (is_negative duration) && ltb 0 duration) _ _
              (kept.keep_schedule Context.outside g now i duration [] _
                (forget-kept Context.outside now i [] d h))
              (calls-kept Context.outside g now none [] (g.internal_decay_item i d.items) d h)))

    step-kept :
        (g : Game) (op : Op) (d : Decaying queue)
        → P Context.outside [] d
        → After (P Context.outside []) (step queue g op d)
    unfolding step call
    step-kept g (Op.start_at now i) d h = game_start_decay-kept g now i d h
    step-kept g (Op.stop_at now i) d h = game_stop_decay-kept now i d h
    step-kept g (Op.round_at now) d h = kept.keep_round now d h
    step-kept g (Op.check_at now) d h = elim (dispatched-cases d.dispatched) [
      | inl e ↦ rw (step, e) h
      | inr (n, e) ↦ rw (step, e) (check_decay-kept g now n d h)
    ]
    step-kept g (Op.change_item i item) d h = kept.keep_change Context.outside i _ [] d refl h
    step-kept g (Op.acquire_item i) d h = kept.keep_game_acquire Context.outside i [] d h
    step-kept g (Op.give_item i) d h = kept.keep_game_release Context.outside i [] d h
    step-kept g Op.clean d h = kept.keep_cleanup d h

    -- What every single operation keeps holds after every history.
    run-kept :
        (g : Game) (ops : List Op) (d : Decaying queue)
        → P Context.outside [] d
        → After (P Context.outside []) (run queue g ops d)
    unfolding run
    run-kept g [] d h = h
    run-kept g (op ∷ ops) d h =
        and_then (P Context.outside []) (P Context.outside []) (step queue g op d) _
          (step-kept g op d h) (λ d' h'. run-kept g ops d' h')

    pub run-kept_some :
        (g : Game) (ops : List Op) (d d' : Decaying queue)
        → P Context.outside [] d
        → run queue g ops d ≡ some d'
        → P Context.outside [] d'
    run-kept_some g ops d d' h e = subst (After (P Context.outside [])) e (run-kept g ops d h)
