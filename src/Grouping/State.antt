-- ===== src/Grouping/State.antt =====
-- The objects that party operations share: parties by address, and of each player the pointer to
-- a party and the list of parties that invited them. Network messages to clients and texts are
-- left out: they change no state.
use forgotten_land.Base.{
  ℕ, Bool, true, false, List, [], ◌∷◌, Option, none, some, ◌==◌, ◌&&◌, if◌then◌else◌,
}
use forgotten_land.Base.Ids.{contains, remove_all, update}
use forgotten_land.Network.Message.{Position}

pub record Party : Type 0 where
  pub leader : ℕ
  pub member_list : List ℕ
  pub invite_list : List ℕ
  pub shared_exp_active : Bool
  pub shared_exp_enabled : Bool
  pub ticks_map : ℕ → Option ℕ

-- `next_party` is an address that was never given out.
pub record World : Type 0 where
  pub party_of : ℕ → Option ℕ
  pub invite_party_list : ℕ → List ℕ
  pub parties : ℕ → Option Party
  pub next_party : ℕ

-- What a call finds around it: the results of the scripts' events, the players that are online,
-- their levels, places and conditions, the time and the settings. `min_level` is two thirds of the
-- highest level, which the source computes in floating point.
pub record Game : Type 0 where
  pub event_party_on_disband : ℕ → Bool
  pub event_party_on_leave : ℕ → ℕ → Bool
  pub event_party_on_join : ℕ → ℕ → Bool
  pub is_online : ℕ → Bool
  pub level : ℕ → ℕ
  pub position : ℕ → Position
  pub not_gain_in_fight : ℕ → Bool
  pub in_fight : ℕ → Bool
  pub in_protection_zone : ℕ → Bool
  pub has_tile : ℕ → Bool
  pub now : ℕ
  pub pz_locked : ℕ
  pub min_level : ℕ → ℕ

-- `Party::Party`, but for the pointer that it gives to the leader.
unfoldable pub new_party : ℕ → Party
new_party leader = record {
  leader = leader;
  member_list = [];
  invite_list = [];
  shared_exp_active = false;
  shared_exp_enabled = false;
  ticks_map = λ id. none;
}

abbrev pub is_nil : List ℕ → Bool
is_nil [] = true
is_nil (x ∷ xs) = false

unfoldable pub empty : Party → Bool
empty q = is_nil q.member_list && is_nil q.invite_list

-- A comparison of a player's pointer with the address of a party.
abbrev pub points_to : ℕ → Option ℕ → Bool
points_to p none = false
points_to p (some r) = r == p

-- Writes to the party at an address, and to the fields of one player.
unfoldable pub put_party : ℕ → Option Party → World → World
put_party p o w = record w { parties = update w.parties p o }

unfoldable pub set_party : ℕ → Option ℕ → World → World
set_party player o w = record w { party_of = update w.party_of player o }

-- `addPartyInvitation`, `removePartyInvitation`
unfoldable pub add_party_invitation : ℕ → ℕ → World → World
add_party_invitation player p w =
    let invitations = w.invite_party_list player in
    if contains p invitations
    then w
    else record w { invite_party_list = update w.invite_party_list player (p ∷ invitations) }

unfoldable pub remove_party_invitation : ℕ → ℕ → World → World
remove_party_invitation player p w = record w {
  invite_party_list = update w.invite_party_list player (remove_all p (w.invite_party_list player));
}
