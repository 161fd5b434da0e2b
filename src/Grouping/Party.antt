-- ===== src/Grouping/Party.antt =====
-- The operations of `Party` in src/creatures/players/grouping/party.cpp, on the party `q` that
-- lives at the address `p`. Each returns its result and the world.
use forgotten_land.Base.{
  ℕ, Bool, true, false, not, List, [], ◌∷◌, ◌++◌, Option, none, some, ◌==◌, ◌&&◌, ◌||◌,
  if◌then◌else◌,
}
use forgotten_land.Base.Ids.{contains, erase}
use forgotten_land.Grouping.State.{
  Party, World, Game, is_nil, empty, points_to, put_party, set_party, add_party_invitation,
  remove_party_invitation,
}
use forgotten_land.Grouping.Experience.{update_shared_experience, clear_player_points}

-- The loops of `disband` over the invited and over the members.
unfoldable pub remove_invitations : ℕ → List ℕ → World → World
remove_invitations p [] w = w
remove_invitations p (i ∷ is) w = remove_invitations p is (remove_party_invitation i p w)

unfoldable pub clear_parties : List ℕ → World → World
clear_parties [] w = w
clear_parties (m ∷ ms) w = clear_parties ms (set_party m none w)

-- The party is deleted at the end.
unfoldable pub disband : Game → ℕ → Party → World → World
disband g p q w =
    if not (g.event_party_on_disband p)
    then put_party p (some q) w
    else put_party p none (
        clear_parties q.member_list
          (remove_invitations p q.invite_list (set_party q.leader none w)))

-- The pointer of the new leader is passed in: the operation reads nothing else of the world.
unfoldable pub pass_party_leadership : Game → ℕ → ℕ → Option ℕ → Party → Bool × Party
pass_party_leadership g p player pointer q =
    if q.leader == player || not (points_to p pointer) then (false, q) else (
      true,
      update_shared_experience g
          (record q { leader = player; member_list = q.leader ∷ erase player q.member_list }),
    )

-- In `leaveParty`: whether no one is left to lead, and the party after the leadership was passed on.
unfoldable pub missing_leader : ℕ → Party → Bool
missing_leader player q =
    q.leader == player
    && (elim q.member_list [ [] ↦ true | m ∷ ms ↦ is_nil ms && is_nil q.invite_list ])

unfoldable pub successor : Game → ℕ → Party → World → List ℕ → Party
successor g p q w [] = q
successor g p q w (m ∷ ms) = (pass_party_leadership g p m (w.party_of m) q).1

unfoldable pub succeed : Game → ℕ → ℕ → Party → World → Party
succeed g p player q w =
    if q.leader == player && not (missing_leader player q)
    then successor g p q w q.member_list
    else q

unfoldable pub leave_party : Game → ℕ → Party → ℕ → World → Bool × World
leave_party g p q player w =
    let missing = missing_leader player q in
    let passed = succeed g p player q w in
    let left : Party = record passed { member_list = erase player passed.member_list } in
    let w' = set_party player none w in
    let q' = clear_player_points g player (update_shared_experience g left) in
    if not (points_to p (w.party_of player)) && not (q.leader == player)
    then (false, w)
    else if not (g.event_party_on_leave p player)
    then (false, w)
    else if missing || empty q'
    then (true, disband g p q' w')
    else (true, put_party p (some q') w')

unfoldable pub join_party : Game → ℕ → Party → ℕ → World → Bool × World
join_party g p q player w =
    let joined : Party = record q {
      invite_list = erase player q.invite_list;
      member_list = q.member_list ++ player ∷ [];
    } in
    if not (g.event_party_on_join p player)
    then (false, w)
    else if not (contains player q.invite_list)
    then (false, w)
    else (
      true,
      put_party p (some (update_shared_experience g joined))
          (remove_party_invitation player p (set_party player (some p) w)),
    )

unfoldable pub remove_invite : Game → ℕ → Party → ℕ → Bool → World → Bool × World
remove_invite g p q player remove_from_player w =
    let q' : Party = record q { invite_list = erase player q.invite_list } in
    let w' = if remove_from_player then remove_party_invitation player p w else w in
    if not (contains player q.invite_list)
    then (false, w)
    else if empty q'
    then (true, disband g p q' w')
    else (true, put_party p (some q') w')

unfoldable pub invite_player : ℕ → Party → ℕ → World → Bool × World
invite_player p q player w = if contains player q.invite_list then (false, w) else (
  true,
  add_party_invitation player p
      (put_party p (some (record q { invite_list = q.invite_list ++ player ∷ [] })) w),
)
