-- ===== src/Tests/Grouping.antt =====
-- A party of three players, numbered 5, 6 and 7.
use mathlib.Core.Path.{subst}
use mathlib.Core.Option.{some-injective}
use forgotten_land.Base.{
  ℕ, ◌*◌, ◌/◌, ◌≤◌, inl, inr, Bool-cases, ◌≡◌, refl, true, false, List, [], ◌∷◌, Option, none, some,
  ◌==◌, ◌||◌, if◌then◌else◌, arith,
}
use forgotten_land.Base.Ids.{contains, erase, remove_all, occurrences}
use forgotten_land.Grouping.State.{
  Party, World, Game, new_party, empty, put_party, set_party, add_party_invitation,
  remove_party_invitation,
}
use forgotten_land.Grouping.Experience.{
  are_in_range, distance, highest_level, can_use_shared_experience, update_shared_experience,
  clear_player_points,
}
use forgotten_land.Grouping.Party.{
  disband, remove_invitations, clear_parties, pass_party_leadership, missing_leader, successor,
  succeed, leave_party, join_party, remove_invite, invite_player,
}
use forgotten_land.Grouping.Handlers.{
  is_inviting, is_partner, make_party, player_invite_to_party, player_join_party,
  player_revoke_party_invitation, player_pass_party_leadership, player_leave_party,
  player_enable_shared_party_experience, remove_invites, clear_party_invitations, log_out,
}
use forgotten_land.Grouping.Invariant.{in_party, invited, IsValid, IsGood}
use forgotten_land.Grouping.Histories.Runs.{Call, answer, run, no_parties, run-IsValid}
use forgotten_land.Grouping.Outcomes.{
  leave_party-leader, can_use_shared_experience-level, log_out-forgets,
}

program : Unit {0}
unfolding contains erase remove_all occurrences new_party empty put_party set_party
    add_party_invitation remove_party_invitation distance are_in_range highest_level
    can_use_shared_experience update_shared_experience clear_player_points disband
    remove_invitations clear_parties pass_party_leadership missing_leader successor succeed
    leave_party join_party remove_invite invite_player is_inviting is_partner make_party
    player_invite_to_party player_join_party player_revoke_party_invitation
    player_pass_party_leadership player_leave_party player_enable_shared_party_experience
    remove_invites clear_party_invitations log_out answer run no_parties
program = tt

abbrev game : Game
game = record {
  event_party_on_disband = λ p. true;
  event_party_on_leave = λ p i. true;
  event_party_on_join = λ p i. true;
  is_online = λ i. true;
  level = λ i. 10 * i;
  position = λ i. record { x = 100; y = 100; z = 7 };
  not_gain_in_fight = λ i. false;
  in_fight = λ i. false;
  in_protection_zone = λ i. false;
  has_tile = λ i. true;
  now = 1000;
  pz_locked = 60000;
  min_level = λ h. h * 2 / 3;
}

-- 5 invites 6 and 7, who join; 5 leaves, so 6 leads; 6 logs out, and the party ends.
abbrev gathered : List (Game × Call)
gathered =
    (game, Call.invite_to_party 5 6)
    ∷ (game, Call.join_party 6 5)
    ∷ (game, Call.invite_to_party 5 7)
    ∷ (game, Call.join_party 7 5)
    ∷ []

abbrev calls : List (Game × Call)
calls =
    (game, Call.invite_to_party 5 6)
    ∷ (game, Call.join_party 6 5)
    ∷ (game, Call.invite_to_party 5 7)
    ∷ (game, Call.join_party 7 5)
    ∷ (game, Call.leave_party 5)
    ∷ (game, Call.log_out_of_game 6)
    ∷ []

pointer_of : ℕ → Option World → Option ℕ
pointer_of i none = none
pointer_of i (some w) = w.party_of i

gathered_7 : pointer_of 7 (run gathered no_parties) ≡ some 1
gathered_7 = unfold program pointer_of in refl

ended_7 : pointer_of 7 (run calls no_parties) ≡ none
ended_7 = unfold program pointer_of in refl

run-IsValid_example : (w : World) × (run calls no_parties ≡ some w) × IsValid w
run-IsValid_example =
    run-IsValid calls
      (λ p. refl, (λ p. refl, (λ p. refl, (λ p. refl, (λ p. refl, (λ p. refl, tt))))))

abbrev team : Party
team = record {
  leader = 5;
  member_list = 6 ∷ 7 ∷ [];
  invite_list = 8 ∷ [];
  shared_exp_active = false;
  shared_exp_enabled = false;
  ticks_map = λ i. none;
}

abbrev world : World
world = record {
  party_of = λ i. if i == 5 || i == 6 || i == 7 then some 1 else none;
  invite_party_list = λ i. if i == 8 then 1 ∷ [] else [];
  parties = λ p. if p == 1 then some team else none;
  next_party = 2;
}

team-IsGood : IsGood team
unfolding occurrences empty
team-IsGood = record { once = λ i. ground arith; once_invited = λ i. ground arith; company = refl }

world-IsValid : IsValid world
unfolding contains occurrences
world-IsValid = record {
  belongs = λ p i. ground arith;
  invites = λ p i. ground arith;
  good = λ p q e. elim (Bool-cases (p == 1)) [
    | inl here ↦ subst (λ r. IsGood r) (some-injective _ _ (rw here at e)) team-IsGood
    | inr away ↦ absurd (cc (rw away at e))
  ];
  once_inviting = λ i k. ground arith;
  fresh = λ p le. ground arith;
}

leave_party-leader_example :
    let (result, w') = leave_party game 1 team 5 world in
    (result ≡ true)
    × (w'.party_of 5 ≡ none)
    × ((q' : Party) × (w'.parties 1 ≡ some q')
        × (q'.leader ≡ 6)
        × (q'.member_list ≡ 7 ∷ [])
        × (q'.invite_list ≡ 8 ∷ []))
leave_party-leader_example =
    leave_party-leader game world 1 team 6 (7 ∷ []) world-IsValid refl refl refl refl

log_out-forgets_example :
    (w' : World) × (log_out game 8 world ≡ some w')
    × (w'.party_of 8 ≡ none)
    × ((p : ℕ) → (in_party (w'.parties p) 8 ≡ false) × (invited (w'.parties p) 8 ≡ false))
log_out-forgets_example = log_out-forgets game 8 world (λ p. refl) (λ p. refl) world-IsValid

-- 6 may share the experience of 5 and 7 while it does not fight.
abbrev peaceful : Game
peaceful = record game { not_gain_in_fight = λ i. true }

grows : (a b : ℕ) → a ≤ b → a * 2 / 3 ≤ b * 2 / 3
grows a b h = omega arith

can_use_shared_experience-level_example :
    (50 * 2 / 3 ≤ 60) × ((i : ℕ) → contains i (6 ∷ 7 ∷ []) ≡ true → 10 * i * 2 / 3 ≤ 60)
can_use_shared_experience-level_example =
    can_use_shared_experience-level peaceful team 6 grows (unfold program in refl)
