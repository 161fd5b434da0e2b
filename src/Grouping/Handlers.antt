-- ===== src/Grouping/Handlers.antt =====
-- The handlers of src/game/game.cpp that players reach parties by, and what
-- `Player::onRemoveCreature` of src/creatures/players/player.cpp does to them when a player logs out.
-- A pointer to a deleted party that is followed is a fault, `none`.
use forgotten_land.Base.{
  ℕ, suc, Bool, true, false, not, List, [], ◌∷◌, Option, none, some, ◌>>=◌, ◌==◌, ◌&&◌, ◌||◌,
  if◌then◌else◌,
}
use forgotten_land.Base.Ids.{contains, update}
use forgotten_land.Grouping.State.{Party, World, Game, new_party, points_to, put_party, set_party}
use forgotten_land.Grouping.Experience.{set_shared_experience}
use forgotten_land.Grouping.Party.{
  leave_party, pass_party_leadership, join_party, remove_invite, invite_player,
}

-- `Player::isInviting`
unfoldable pub is_inviting : World → ℕ → ℕ → Option Bool
is_inviting w inviter player = elim (w.party_of inviter) [
  | none ↦ some false
  | some p ↦ elim (w.parties p) [
    | none ↦ none
    | some q ↦ some (q.leader == inviter && contains player q.invite_list)
  ]
]

-- `Player::isPartner`
unfoldable pub is_partner : World → ℕ → ℕ → Bool
is_partner w player other = elim (w.party_of player) [
  | none ↦ false
  | some p ↦ not (other == player) && points_to p (w.party_of other)
]

-- The party of a player who leads it. What follows is skipped if there is none.
abbrev pub if_leader : World → ℕ → (ℕ → Party → Option World) → Option World
if_leader w player k = elim (w.party_of player) [
  | none ↦ some w
  | some p ↦ elim (w.parties p) [
    | none ↦ none
    | some q ↦ if not (q.leader == player) then some w else k p q
  ]
]

-- `new Party(player)`
unfoldable pub make_party : ℕ → World → World
make_party player w =
    let p = w.next_party in
    record (set_party player (some p) (put_party p (some (new_party player)) w)) {
      next_party = suc p;
    }

unfoldable pub player_invite_to_party : Game → ℕ → ℕ → World → Option World
player_invite_to_party g player invited w =
    if player == invited
    then some w
    else if not (g.is_online player)
    then some w
    else if not (g.is_online invited)
    then some w
    else (do
      inviting ← is_inviting w invited player
      if inviting then some w else elim (w.party_of invited) [
        | some _ ↦ some w
        | none ↦ elim (w.party_of player) [
          | none ↦
              some (invite_player w.next_party (new_party player) invited (make_party player w)).1
          | some p ↦ if_leader w player (λ p q. some (invite_player p q invited w).1)
        ]
      ])

unfoldable pub player_join_party : Game → ℕ → ℕ → World → Option World
player_join_party g player leader w =
    if not (g.is_online player) then some w else if not (g.is_online leader) then some w else (do
      inviting ← is_inviting w leader player
      if not inviting
          then some w
          else if_leader w leader (λ p q. elim (w.party_of player) [
            | some _ ↦ some w
            | none ↦ some (join_party g p q player w).1
          ]))

unfoldable pub player_revoke_party_invitation : Game → ℕ → ℕ → World → Option World
player_revoke_party_invitation g player invited w =
    if not (g.is_online player)
    then some w
    else if_leader w player (λ p q. if not (g.is_online invited) then some w else (do
      inviting ← is_inviting w player invited
      if not inviting then some w else some (remove_invite g p q invited true w).1))

unfoldable pub player_pass_party_leadership : Game → ℕ → ℕ → World → Option World
player_pass_party_leadership g player new_leader w =
    if not (g.is_online player)
    then some w
    else if_leader w player (λ p q.
      if not (g.is_online new_leader) || not (is_partner w player new_leader)
      then some w
      else some
          (put_party p (some (pass_party_leadership g p new_leader (w.party_of new_leader) q).1) w))

unfoldable pub player_leave_party : Game → ℕ → World → Option World
player_leave_party g player w =
    if not (g.is_online player) then some w else elim (w.party_of player) [
      | none ↦ some w
      | some p ↦
          if g.in_fight player
          then some w
          else elim (w.parties p) [ none ↦ none | some q ↦ some (leave_party g p q player w).1 ]
    ]

unfoldable pub player_enable_shared_party_experience : Game → ℕ → Bool → World → Option World
player_enable_shared_party_experience g player active w =
    if not (g.is_online player) then some w else elim (w.party_of player) [
      | none ↦ some w
      | some p ↦
          if g.in_fight player && g.has_tile player && not (g.in_protection_zone player)
          then some w
          else elim (w.parties p) [
            | none ↦ none
            | some q ↦ some (put_party p (some (set_shared_experience g player active q).1) w)
          ]
    ]

-- `Player::clearPartyInvitations`
unfoldable pub remove_invites : Game → ℕ → List ℕ → World → Option World
remove_invites g player [] w = some w
remove_invites g player (p ∷ ps) w = elim (w.parties p) [
  | none ↦ none
  | some q ↦ remove_invites g player ps (remove_invite g p q player false w).1
]

unfoldable pub clear_party_invitations : Game → ℕ → World → Option World
clear_party_invitations g player w = do
  w' ← remove_invites g player (w.invite_party_list player) w
  some (record w' { invite_party_list = update w'.invite_party_list player [] })

unfoldable pub log_out : Game → ℕ → World → Option World
log_out g player w = do
  w' ← clear_party_invitations g player w
  elim (w'.party_of player) [
    | none ↦ some w'
    | some p ↦ elim (w'.parties p) [ none ↦ none | some q ↦ some (leave_party g p q player w').1 ]
  ]
