-- ===== src/Login/WaitingList/Order.antt =====
-- Nobody is moved back in its list.
use forgotten_land.Base.{
  ℕ, ◌+◌, ◌-◌, ◌≤◌, ◌≡◌, sym, ◌∙◌, ◌≢◌, inl, inr, Bool, List, [], ◌∷◌, ◌++◌, some, leb, ◌==◌, arith,
  Bool-cases,
}
use forgotten_land.Login.WaitingList.{
  Wait, WaitListInfo, Player, Place, find_in, set_timeout, erase, deadline, retry, enqueue,
  wait_or_enter,
}
use forgotten_land.Login.WaitingList.Admission.{find_in-set_timeout}
use forgotten_land.Login.WaitingList.Cases.{wait_or_enter_cases}

-- A player is not moved back: who stood in a list still stands in it, no later.
abbrev pub NotLater : ℕ → List Wait → List Wait → Type 0
NotLater g before after =
    (k : ℕ) → find_in g 1 before ≡ some k → (k' : ℕ) × (find_in g 1 after ≡ some k') × (k' ≤ k)

find_in_shift :
    (g slot : ℕ) (ws : List Wait) (k : ℕ)
    → find_in g (slot + 1) ws ≡ some k
    → find_in g slot ws ≡ some (k - 1)
unfolding find_in
find_in_shift g slot [] k e = absurd (cc)
find_in_shift g slot (w ∷ ws) k e = ground (arith, find_in_shift g (slot + 1) ws k)

find_in-erase :
    (g guid slot : ℕ) (ws : List Wait) (k : ℕ)
    → guid ≢ g
    → find_in g slot ws ≡ some k
    → (k' : ℕ) × (find_in g slot (erase guid ws) ≡ some k') × (k' ≤ k)
unfolding find_in erase
find_in-erase g guid slot [] k ne e = absurd (cc)
find_in-erase g guid slot (w ∷ ws) k ne e = elim (Bool-cases (w.player_guid == guid)) [
  | inl gone ↦ (k - 1, ground (arith, find_in_shift g slot ws k), omega arith)
  | inr kept ↦ elim (Bool-cases (w.player_guid == g)) [
    | inl mine ↦ (k, ground arith, omega arith)
    | inr other ↦
        let next : find_in g (slot + 1) ws ≡ some k = ground arith in
        let (k', found, le) = find_in-erase g guid (slot + 1) ws k ne next in (k', ground arith, le)
  ]
]

find_in-append_left :
    (g slot : ℕ) (ws vs : List Wait) (k : ℕ)
    → find_in g slot ws ≡ some k
    → find_in g slot (ws ++ vs) ≡ some k
unfolding find_in
find_in-append_left g slot [] vs k e = absurd (cc)
find_in-append_left g slot (w ∷ ws) vs k e =
    ground (arith, find_in-append_left g (slot + 1) ws vs k)

NotLater-refl : (g : ℕ) (ws : List Wait) → NotLater g ws ws
NotLater-refl g ws k e = (k, e, omega arith)

NotLater-set_timeout : (g guid t : ℕ) (ws : List Wait) → NotLater g ws (set_timeout guid t ws)
NotLater-set_timeout g guid t ws k e = (k, rw (find_in-set_timeout g guid t 1 ws) e, omega arith)

-- Both lists, for the player `g`.
abbrev pub KeepsPlace : ℕ → WaitListInfo → WaitListInfo → Type 0
KeepsPlace g info info' =
    NotLater g info.priority_wait_list info'.priority_wait_list
    × NotLater g info.wait_list info'.wait_list

enqueue-KeepsPlace :
    (p : Player) (time g : ℕ) (info : WaitListInfo) → KeepsPlace g info (enqueue p time info)
unfolding enqueue
enqueue-KeepsPlace p time g info = elim (Bool-cases p.is_premium) [
  | inl e ↦ rw e (
    λ k f. (k, find_in-append_left g 1 info.priority_wait_list _ k f, omega arith),
    NotLater-refl g info.wait_list,
  )
  | inr e ↦ rw e (
    NotLater-refl g info.priority_wait_list,
    λ k f. (k, find_in-append_left g 1 info.wait_list _ k f, omega arith),
  )
]

retry-KeepsPlace :
    (place : Place) (slot : ℕ) (p : Player) (online max time : ℕ) (info info' : WaitListInfo)
    (done : Bool) (g : ℕ)
    → p.guid ≢ g
    → retry place slot p online max time info ≡ some (done, info')
    → KeepsPlace g info info'
unfolding retry
retry-KeepsPlace Place.in_wait slot p online max time info info' done g ne e =
    elim (Bool-cases (leb (online + slot) max)) [
      | inl room ↦
          let same : record info { wait_list = erase p.guid info.wait_list } ≡ info' =
            ground arith in
          rw (← same) (
            NotLater-refl g info.priority_wait_list,
            λ k f. find_in-erase g p.guid 1 info.wait_list k ne f,
          )
      | inr full ↦
          let ws = set_timeout p.guid (deadline time slot) info.wait_list in
          let same : record info { wait_list = ws } ≡ info' = ground arith in
          rw (← same) (
            NotLater-refl g info.priority_wait_list,
            NotLater-set_timeout g p.guid (deadline time slot) info.wait_list,
          )
    ]
retry-KeepsPlace Place.in_priority slot p online max time info info' done g ne e =
    let ws = set_timeout p.guid (deadline time slot) info.priority_wait_list in
    let same : record info { priority_wait_list = ws } ≡ info' = ground arith in
    rw (← same) (
      NotLater-set_timeout g p.guid (deadline time slot) info.priority_wait_list,
      NotLater-refl g info.wait_list,
    )
retry-KeepsPlace Place.at_end slot p online max time info info' done g ne e =
    let ws = set_timeout p.guid (deadline time slot) info.wait_list in
    let same : record info { wait_list = ws } ≡ info' = ground arith in
    rw (← same) (
      NotLater-refl g info.priority_wait_list,
      NotLater-set_timeout g p.guid (deadline time slot) info.wait_list,
    )

-- A login of one player moves no other player back, in either list, from the place that it has
-- once the due entries are gone.
pub wait_or_enter-KeepsPlace :
    (p : Player) (online max time : ℕ) (info info' : WaitListInfo) (done : Bool) (g : ℕ)
    → p.guid ≢ g
    → wait_or_enter p online max time info ≡ some (done, info')
    → KeepsPlace g info info'
wait_or_enter-KeepsPlace p online max time info info' done g ne e =
    elim (wait_or_enter_cases p online max time info) [
      | inl (_, _, added) ↦
          let same : enqueue p time info ≡ info' = ground (arith, added) in
          rw (← same) (enqueue-KeepsPlace p time g info)
      | inr (place, slot, tried, _, _) ↦
          retry-KeepsPlace place slot p online max time info info' done g ne (sym tried ∙ e)
    ]
