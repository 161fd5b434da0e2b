-- ===== src/Login/WaitingList/Cases.antt =====
-- The ways that a login takes through the waiting lists.
use forgotten_land.Base.{
  ℕ, ◌+◌, ◌≤◌, ◌≡◌, ◌⊎◌, inl, inr, true, false, none, some, length, arith, Option-cases,
}
use forgotten_land.Base.Words.{u32}
use forgotten_land.Login.WaitingList.{
  WaitListInfo, Player, Place, find_in, find_client, retry, enqueue, wait_or_enter, client_login,
  get_client_slot,
}
use forgotten_land.Login.WaitingList.Admission.{cleaned, find_in-le}

pub find_client_cases :
    (guid : ℕ) (info : WaitListInfo)
    → let next = length info.priority_wait_list + 1 in
      ((find_in guid 1 info.priority_wait_list ≡ none)
        × (find_in guid next info.wait_list ≡ none)
        × (find_client guid info
            ≡ (Place.at_end, length info.priority_wait_list + length info.wait_list + 1)))
      ⊎ ((k : ℕ) × (1 ≤ k) × (find_client guid info ≡ (Place.in_wait, k)))
      ⊎ ((k : ℕ) × (1 ≤ k) × (find_client guid info ≡ (Place.in_priority, k)))
unfolding find_client
find_client_cases guid info =
    let next = length info.priority_wait_list + 1 in
    elim (Option-cases (find_in guid 1 info.priority_wait_list)) [
      | inl e ↦ elim (Option-cases (find_in guid next info.wait_list)) [
        | inl d ↦ inl (e, d, rw (e, d, find_client))
        | inr (k, d) ↦
            let le = find_in-le guid next info.wait_list k d in
            inr (inl (k, omega arith, rw (e, d, find_client)))
      ]
      | inr (k, e) ↦
          inr (inr (k, find_in-le guid 1 info.priority_wait_list k e, rw (e, find_client)))
    ]

-- Either the player is new and is added, or it is at its place.
pub wait_or_enter_cases :
    (p : Player) (online max time : ℕ) (info : WaitListInfo)
    → ((find_in p.guid 1 info.priority_wait_list ≡ none)
        × (find_in p.guid (length info.priority_wait_list + 1) info.wait_list ≡ none)
        × (wait_or_enter p online max time info ≡ some (false, enqueue p time info)))
      ⊎ ((place : Place) × (slot : ℕ) × (wait_or_enter p online max time info
            ≡ retry place slot p online max time info)
          × (get_client_slot p info ≡ slot)
          × (1 ≤ slot))
unfolding wait_or_enter get_client_slot
wait_or_enter_cases p online max time info = elim (find_client_cases p.guid info) [
  | inl (e, d, f) ↦ inl (e, d, rw (f, wait_or_enter))
  | inr (inl (k, pos, f)) ↦ inr (Place.in_wait, k, ground arith, ground arith, pos)
  | inr (inr (k, pos, f)) ↦ inr (Place.in_priority, k, ground arith, ground arith, pos)
]

pub client_login_cases :
    (p : Player) (max_number online time : ℕ) (info : WaitListInfo)
    → (client_login p max_number online time info ≡ some (true, info))
      ⊎ (client_login p max_number online time info
          ≡ wait_or_enter p online (u32 max_number) time (cleaned time info))
unfolding client_login
client_login_cases p max_number online time info = ground arith
