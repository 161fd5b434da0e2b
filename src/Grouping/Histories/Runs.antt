-- ===== src/Grouping/Histories/Runs.antt =====
-- Sequences of the calls by which players reach their parties.
use forgotten_land.Base.{ℕ, ◌≡◌, refl, Bool, List, [], ◌∷◌, Option, none, some, ◌>>=◌, arith, All}
use forgotten_land.Base.Ids.{contains, occurrences}
use forgotten_land.Grouping.State.{World, Game}
use forgotten_land.Grouping.Handlers.{
  player_invite_to_party, player_join_party, player_revoke_party_invitation,
  player_pass_party_leadership, player_leave_party, player_enable_shared_party_experience, log_out,
}
use forgotten_land.Grouping.Invariant.{IsValid}
use forgotten_land.Grouping.Histories.{
  Fine, Allows, player_invite_to_party-Fine, player_join_party-Fine,
  player_revoke_party_invitation-Fine, player_pass_party_leadership-Fine, player_leave_party-Fine,
  player_enable_shared_party_experience-Fine,
}
use forgotten_land.Grouping.Histories.LogOut.{log_out-Fine}

pub data Call : Type 0 where
  invite_to_party join_party revoke_party_invitation pass_party_leadership : ℕ → ℕ → Call
  leave_party log_out_of_game : ℕ → Call
  enable_shared_party_experience : ℕ → Bool → Call

unfoldable pub answer : Game → Call → World → Option World
answer g (Call.invite_to_party a b) w = player_invite_to_party g a b w
answer g (Call.join_party a b) w = player_join_party g a b w
answer g (Call.revoke_party_invitation a b) w = player_revoke_party_invitation g a b w
answer g (Call.pass_party_leadership a b) w = player_pass_party_leadership g a b w
answer g (Call.leave_party a) w = player_leave_party g a w
answer g (Call.log_out_of_game a) w = log_out g a w
answer g (Call.enable_shared_party_experience a active) w =
    player_enable_shared_party_experience g a active w

-- Each call finds a game of its own around it.
unfoldable pub run : List (Game × Call) → World → Option World
run [] w = some w
run ((g, c) ∷ calls) w = answer g c w >>= run calls

-- The world when the server starts.
unfoldable pub no_parties : World
no_parties = record {
  party_of = λ i. none;
  invite_party_list = λ i. [];
  parties = λ p. none;
  next_party = 1;
}

answer-Fine : (g : Game) (c : Call) (w : World) → Allows g → IsValid w → Fine (answer g c w)
unfolding answer
answer-Fine g (Call.invite_to_party a b) w allows v = player_invite_to_party-Fine g allows w v a b
answer-Fine g (Call.join_party a b) w allows v = player_join_party-Fine g allows w v a b
answer-Fine g (Call.revoke_party_invitation a b) w allows v =
    player_revoke_party_invitation-Fine g allows w v a b
answer-Fine g (Call.pass_party_leadership a b) w allows v =
    player_pass_party_leadership-Fine g allows w v a b
answer-Fine g (Call.leave_party a) w allows v = player_leave_party-Fine g allows w v a
answer-Fine g (Call.log_out_of_game a) w allows v = log_out-Fine g a w allows v
answer-Fine g (Call.enable_shared_party_experience a active) w allows v =
    player_enable_shared_party_experience-Fine g allows w v a active

run_from-IsValid :
    (calls : List (Game × Call)) (w : World)
    → All (λ (c : Game × Call). Allows c.0) calls
    → IsValid w
    → Fine (run calls w)
unfolding run
run_from-IsValid [] w allows v = (w, refl, v)
run_from-IsValid ((g, c) ∷ calls) w allows v =
    let (w', e, v') = answer-Fine g c w allows.0 v in rw e (run_from-IsValid calls w' allows.1 v')

no_parties-IsValid : IsValid no_parties
unfolding no_parties occurrences contains
no_parties-IsValid = record {
  belongs = λ p i. refl;
  invites = λ p i. refl;
  good = λ p q e. absurd (cc);
  once_inviting = λ i k. omega arith;
  fresh = λ p le. refl;
}

-- From the start of the server on, every sequence of invitations, joins, withdrawals, changes of
-- leader, departures, settings and log-outs, by any players and whatever the scripts answer but
-- that they let every party be disbanded, runs without following a pointer to a deleted party.
-- Afterwards a player points to a party exactly if the party is there and has the player as its
-- leader or a member, and lists an invitation exactly if the party is there and lists the player;
-- nobody stands in a list twice, and no party has only its leader.
pub run-IsValid :
    (calls : List (Game × Call))
    → All (λ (c : Game × Call). Allows c.0) calls
    → (w : World) × (run calls no_parties ≡ some w) × IsValid w
run-IsValid calls allows = run_from-IsValid calls no_parties allows no_parties-IsValid
