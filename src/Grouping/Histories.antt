-- ===== src/Grouping/Histories.antt =====
-- Sequences of the calls by which players reach their parties (src/game/game.cpp, and the log-out in
-- src/creatures/players/player.cpp).
pub mod LogOut
pub mod Runs
use mathlib.Core.Path.{subst, fun_ext}
use forgotten_land.Base.{
  ℕ, suc, ◌+◌, ◌≤◌, ◌<◌, ◌≡◌, refl, sym, ap, ◌∙◌, ◌⊎◌, inl, inr, Bool, true, false, not, List, [],
  ◌∷◌, ◌++◌, Option, none, some, ◌==◌, ◌&&◌, ◌||◌, ◌>>=◌, if◌then◌else◌, arith, Bool-cases,
  Option-cases, ==_iff, All,
}
use forgotten_land.Base.Ids.{contains, erase, update, occurrences, contains-occurrences}
use forgotten_land.Grouping.State.{
  Party, World, Game, points_to, put_party, set_party, new_party, empty,
}
use forgotten_land.Grouping.Experience.{set_shared_experience}
use forgotten_land.Grouping.Party.{invite_player, remove_invite}
use forgotten_land.Grouping.Handlers.{
  is_inviting, is_partner, if_leader, make_party, player_invite_to_party, player_join_party,
  player_revoke_party_invitation, player_pass_party_leadership, player_leave_party,
  player_enable_shared_party_experience, remove_invites, clear_party_invitations, log_out,
}
use forgotten_land.Grouping.Invariant.{in_party, invited, IsValid}
use forgotten_land.Grouping.Preserved.{
  put-Same-IsValid, set_shared_experience-Same, member_iff, invited_iff,
}
use forgotten_land.Grouping.Preserved.Joining.{join_party-IsValid}
use forgotten_land.Grouping.Preserved.Inviting.{invite_player-IsValid, make_party-IsValid}
use forgotten_land.Grouping.Preserved.Withdrawing.{
  remove_invite-IsValid, disband_alone, deleted-IsValid, kept-IsValid,
}
use forgotten_land.Grouping.Preserved.Leaving.{leave_party-IsValid}
use forgotten_land.Grouping.Preserved.Succession.{pass_party_leadership-IsValid}

-- A call that ends, without a fault, in a valid world.
abbrev pub Fine : Option World → Type 0
Fine o = (w : World) × (o ≡ some w) × IsValid w

-- The scripts let every party be disbanded.
abbrev pub Allows : Game → Type 0
Allows g = (p : ℕ) → g.event_party_on_disband p ≡ true

pub fine : (w : World) → IsValid w → Fine (some w)
fine w v = (w, refl, v)

Fine-if :
    (b : Bool) (x y : Option World) → Fine x → (b ≡ false → Fine y) → Fine (if b then x else y)
Fine-if true x y f h = f
Fine-if false x y f h = h refl

pub Fine-option :
    (o : Option ℕ) (x : Option World) (k : ℕ → Option World)
    → (o ≡ none → Fine x)
    → ((p : ℕ) → o ≡ some p → Fine (k p))
    → Fine (elim o [ none ↦ x | some p ↦ k p ])
Fine-option none x k h l = h refl
Fine-option (some p) x k h l = l p refl

-- A pointer of a player leads to a party that has the player.
pub party_lives :
    (w : World) (i p : ℕ)
    → IsValid w
    → w.party_of i ≡ some p
    → (q : Party) × (w.parties p ≡ some q) × (in_party (some q) i ≡ true)
party_lives w i p v e = elim (Option-cases (w.parties p)) [
  | inl gone ↦ absurd (ground (arith, v.belongs p i, gone, ap (points_to p) e))
  | inr (q, live) ↦ (q, live, member_iff w p q i v live ∙ ap (points_to p) e ∙ ground arith)
]

is_inviting_lem : (w : World) (a b : ℕ) → IsValid w → (r : Bool) × (is_inviting w a b ≡ some r)
unfolding is_inviting
is_inviting_lem w a b v = elim (Option-cases (w.party_of a)) [
  | inl e ↦ (false, rw (is_inviting, e) refl)
  | inr (p, e) ↦
      let (q, live, _) = party_lives w a p v e in
      (q.leader == a && contains b q.invite_list, rw (is_inviting, e, live) refl)
]

-- The rest of a handler after the test of a party's invitation.
inviting-Fine :
    (w : World) (a b : ℕ) (k : Bool → Option World)
    → IsValid w
    → ((r : Bool) → Fine (k r))
    → Fine (is_inviting w a b >>= k)
inviting-Fine w a b k v h = let (r, e) = is_inviting_lem w a b v in rw e (h r)

if_leader-Fine :
    (w : World) (player : ℕ) (k : ℕ → Party → Option World)
    → IsValid w
    → ((p : ℕ) (q : Party) → w.party_of player ≡ some p → w.parties p ≡ some q → Fine (k p q))
    → Fine (if_leader w player k)
if_leader-Fine w player k v h = elim (Option-cases (w.party_of player)) [
  | inl e ↦ rw (if_leader, e) (fine w v)
  | inr (p, e) ↦
      let (q, live, _) = party_lives w player p v e in
      rw (if_leader, e, live)
        (Fine-if (not (q.leader == player)) _ _ (fine w v) (λ _. h p q e live))
]

module _ (g : Game) (allows : Allows g) (w : World) (v : IsValid w) where
  pub player_invite_to_party-Fine : (a b : ℕ) → Fine (player_invite_to_party g a b w)
  unfolding player_invite_to_party
  player_invite_to_party-Fine a b = Fine-if (a == b) _ _ (fine w v) λ _.
      Fine-if (not (g.is_online a)) _ _ (fine w v) λ _.
        Fine-if (not (g.is_online b)) _ _ (fine w v) λ _. inviting-Fine w b a _ v λ r.
          Fine-if r _ _ (fine w v) λ _.
            Fine-option (w.party_of b) _ _
              (λ free.
                Fine-option (w.party_of a) _ _
                  (λ no_party. fine _ (make_party-IsValid w a b v no_party))
                  (λ p e.
                    if_leader-Fine w a _ v
                      λ p' q e' live. fine _ (invite_player-IsValid w p' q b v live)))
              (λ p e. fine w v)

  pub player_join_party-Fine : (a b : ℕ) → Fine (player_join_party g a b w)
  unfolding player_join_party
  player_join_party-Fine a b = Fine-if (not (g.is_online a)) _ _ (fine w v) λ _.
      Fine-if (not (g.is_online b)) _ _ (fine w v) λ _. inviting-Fine w b a _ v λ r.
        Fine-if (not r) _ _ (fine w v) λ _. if_leader-Fine w b _ v λ p q e live.
          Fine-option (w.party_of a) _ _ (λ free. fine _ (join_party-IsValid g w p q a v live free))
            (λ p' e'. fine w v)

  pub player_revoke_party_invitation-Fine :
      (a b : ℕ) → Fine (player_revoke_party_invitation g a b w)
  unfolding player_revoke_party_invitation
  player_revoke_party_invitation-Fine a b = Fine-if (not (g.is_online a)) _ _ (fine w v) λ _.
      if_leader-Fine w a _ v λ p q e live. Fine-if (not (g.is_online b)) _ _ (fine w v) λ _.
        inviting-Fine w a b _ v λ r.
          Fine-if (not r) _ _ (fine w v)
            λ _. fine _ (remove_invite-IsValid g w p q b v live (allows p))

  pub player_pass_party_leadership-Fine : (a b : ℕ) → Fine (player_pass_party_leadership g a b w)
  unfolding player_pass_party_leadership
  player_pass_party_leadership-Fine a b = Fine-if (not (g.is_online a)) _ _ (fine w v) λ _.
      if_leader-Fine w a _ v λ p q e live.
        Fine-if (not (g.is_online b) || not (is_partner w a b)) _ _ (fine w v)
          λ _. fine _ (pass_party_leadership-IsValid g w p q v live b)

  -- A player's party, which lives.
  pub with_party-Fine :
      (a p : ℕ) (k : Party → Option World)
      → w.party_of a ≡ some p
      → ((q : Party) → w.parties p ≡ some q → Fine (k q))
      → Fine (elim (w.parties p) [ none ↦ none | some q ↦ k q ])
  with_party-Fine a p k e h =
      let (q, live, _) = party_lives w a p v e in
      subst (λ o. Fine (elim o [ none ↦ none | some r ↦ k r ])) (sym live) (h q live)

  pub player_leave_party-Fine : (a : ℕ) → Fine (player_leave_party g a w)
  unfolding player_leave_party
  player_leave_party-Fine a = Fine-if (not (g.is_online a)) _ _ (fine w v) λ _.
      Fine-option (w.party_of a) _ _ (λ e. fine w v)
        λ p e. Fine-if (g.in_fight a) _ _ (fine w v) λ _.
          with_party-Fine a p _ e λ q live. fine _ (leave_party-IsValid g w p q v live a (allows p))

  pub player_enable_shared_party_experience-Fine :
      (a : ℕ) (active : Bool) → Fine (player_enable_shared_party_experience g a active w)
  unfolding player_enable_shared_party_experience
  player_enable_shared_party_experience-Fine a active =
      Fine-if (not (g.is_online a)) _ _ (fine w v) λ _.
        Fine-option (w.party_of a) _ _ (λ e. fine w v)
          λ p e.
            Fine-if (g.in_fight a && g.has_tile a && not (g.in_protection_zone a)) _ _ (fine w v)
              λ _. with_party-Fine a p _ e λ q live. fine _ (
                put-Same-IsValid w p q (set_shared_experience g a active q).1 v live
                  (set_shared_experience-Same g a active q))
