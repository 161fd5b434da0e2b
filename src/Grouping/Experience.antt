-- ===== src/Grouping/Experience.antt =====
-- Shared experience of a party: `canUseSharedExperience` and what depends on it in
-- src/creatures/players/grouping/party.cpp. None of it changes who belongs to the party.
use forgotten_land.Base.{
  ℕ, ◌+◌, ◌-◌, ◌^◌, Bool, true, false, not, List, [], ◌∷◌, none, some, ltb, leb, ◌==◌, ◌&&◌, ◌||◌,
  if◌then◌else◌,
}
use forgotten_land.Base.Ids.{update}
use forgotten_land.Base.Words.{u64}
use forgotten_land.Network.Message.{Position}
use forgotten_land.Grouping.State.{Party, Game, is_nil}

-- `std::abs` of the difference of two coordinates.
unfoldable pub distance : ℕ → ℕ → ℕ
distance a b = if leb a b then b - a else a - b

unfoldable pub are_in_range : ℕ → ℕ → ℕ → Position → Position → Bool
unfolding distance
are_in_range deltax deltay deltaz p q =
    leb (distance p.x q.x) deltax && leb (distance p.y q.y) deltay && leb (distance p.z q.z) deltaz

unfoldable pub highest_level : Game → ℕ → List ℕ → ℕ
highest_level g highest [] = highest
highest_level g highest (m ∷ ms) =
    highest_level g (if ltb highest (g.level m) then g.level m else highest) ms

unfoldable pub can_use_shared_experience : Game → Party → ℕ → Bool
unfolding highest_level are_in_range
can_use_shared_experience g q player =
    if is_nil q.member_list
    then false
    else if ltb (g.level player) (g.min_level (highest_level g (g.level q.leader) q.member_list))
    then false
    else if not (are_in_range 30 30 1 (g.position q.leader) (g.position player))
    then false
    else if g.not_gain_in_fight player
    then true
    else elim (q.ticks_map player) [
      | none ↦ false
      | some t ↦ not (ltb g.pz_locked (u64 (g.now + (2 ^ 64 - u64 t))))
    ]

unfoldable pub all_can_use : Game → Party → List ℕ → Bool
all_can_use g q [] = true
all_can_use g q (m ∷ ms) =
    if not (can_use_shared_experience g q m) then false else all_can_use g q ms

unfoldable pub can_enable_shared_experience : Game → Party → Bool
can_enable_shared_experience g q =
    if not (can_use_shared_experience g q q.leader) then false else all_can_use g q q.member_list

unfoldable pub update_shared_experience : Game → Party → Party
update_shared_experience g q =
    if q.shared_exp_active
    then record q { shared_exp_enabled = can_enable_shared_experience g q }
    else q

unfoldable pub set_shared_experience : Game → ℕ → Bool → Party → Bool × Party
set_shared_experience g player active q =
    let q' : Party = record q { shared_exp_active = active } in
    if not (q.leader == player)
    then (false, q)
    else if (active && q.shared_exp_active) || (not active && not q.shared_exp_active)
    then (true, q)
    else if active
    then (true, record q' { shared_exp_enabled = can_enable_shared_experience g q' })
    else (true, q')

unfoldable pub update_player_ticks : Game → ℕ → ℕ → Party → Party
update_player_ticks g player points q =
    if not (points == 0) && not (g.not_gain_in_fight player)
    then update_shared_experience g
        (record q { ticks_map = update q.ticks_map player (some g.now) })
    else q

unfoldable pub clear_player_points : Game → ℕ → Party → Party
clear_player_points g player q = elim (q.ticks_map player) [
  | none ↦ q
  | some t ↦ update_shared_experience g (record q { ticks_map = update q.ticks_map player none })
]
