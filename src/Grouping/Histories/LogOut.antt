-- ===== src/Grouping/Histories/LogOut.antt =====
-- The log-out of a player: `clearPartyInvitations` of src/creatures/players/player.cpp, then
-- `leaveParty`.
use mathlib.Core.Path.{subst, fun_ext}
use forgotten_land.Base.{
  ℕ, ◌≤◌, ◌≡◌, refl, sym, ap, ◌∙◌, inl, inr, true, false, List, [], ◌∷◌, some, ◌==◌, ◌&&◌,
  if◌then◌else◌, arith, Bool-cases, Option-cases, ==_iff,
}
use forgotten_land.Base.Ids.{contains, erase, update, occurrences, contains-occurrences}
use forgotten_land.Grouping.State.{Party, World, Game, put_party, set_party, empty}
use forgotten_land.Grouping.Party.{remove_invite}
use forgotten_land.Grouping.Handlers.{remove_invites, clear_party_invitations, log_out}
use forgotten_land.Grouping.Invariant.{invited, IsValid}
use forgotten_land.Grouping.Preserved.{invited_iff}
use forgotten_land.Grouping.Preserved.Withdrawing.{disband_alone, deleted-IsValid, kept-IsValid}
use forgotten_land.Grouping.Preserved.Leaving.{leave_party-IsValid}
use forgotten_land.Grouping.Histories.{Fine, Allows, fine, Fine-option, with_party-Fine}

-- The world without the invitations of a player but for those that are still to be gone through.
abbrev pub with_invitations : ℕ → List ℕ → World → World
with_invitations player ps w = record w { invite_party_list = update w.invite_party_list player ps }

itself :
    (player : ℕ) (w : World) (i : ℕ)
    → update w.invite_party_list player (w.invite_party_list player) i ≡ w.invite_party_list i
itself player w i = elim (Bool-cases (player == i)) [
  | inl e ↦ rw e (ap w.invite_party_list ((==_iff player i).0 e))
  | inr e ↦ rw e refl
]

pub with_invitations_self :
    (player : ℕ) (w : World) → with_invitations player (w.invite_party_list player) w ≡ w
with_invitations_self player w =
    let e : update w.invite_party_list player (w.invite_party_list player) ≡ w.invite_party_list =
      fun_ext λ i. itself player w i in
    λ t. record w { invite_party_list = e t }

invited_here :
    (player p : ℕ) (ps : List ℕ) (w : World) (q : Party)
    → IsValid (with_invitations player (p ∷ ps) w)
    → w.parties p ≡ some q
    → contains player q.invite_list ≡ true
unfolding contains
invited_here player p ps w q v live =
    invited_iff (with_invitations player (p ∷ ps) w) p q player v live ∙ ground arith

inviter_lives :
    (player p : ℕ) (ps : List ℕ) (w : World)
    → IsValid (with_invitations player (p ∷ ps) w)
    → (q : Party) × (w.parties p ≡ some q)
unfolding contains
inviter_lives player p ps w v = elim (Option-cases (w.parties p)) [
  | inl gone ↦ absurd (ground (arith, v.invites p player, ap (λ o. invited o player) gone))
  | inr (q, live) ↦ (q, live)
]

step_once :
    (player p : ℕ) (ps : List ℕ) (w : World)
    → IsValid (with_invitations player (p ∷ ps) w)
    → (i k : ℕ) → occurrences k ((with_invitations player ps w).invite_party_list i) ≤ 1
unfolding occurrences
step_once player p ps w v i k = ground (arith, v.once_inviting i k)

step_gone :
    (player p : ℕ) (ps : List ℕ) (w : World)
    → IsValid (with_invitations player (p ∷ ps) w)
    → (i k : ℕ)
    → contains k ((with_invitations player ps w).invite_party_list i) ≡ (
        if player == i && p == k
        then false
        else contains k ((with_invitations player (p ∷ ps) w).invite_party_list i))
unfolding occurrences contains
step_gone player p ps w v i k =
    ground (arith, v.once_inviting i k, contains-occurrences k ps, ==_iff p k)

-- One round of `clearPartyInvitations`.
remove_invites_step :
    (g : Game) (player p : ℕ) (ps : List ℕ) (w : World) (q : Party)
    → Allows g
    → IsValid (with_invitations player (p ∷ ps) w)
    → w.parties p ≡ some q
    → IsValid (with_invitations player ps (remove_invite g p q player false w).1)
unfolding remove_invite put_party set_party
remove_invites_step g player p ps w q allows v live =
    let w₀ = with_invitations player (p ∷ ps) w in
    let w₁ = with_invitations player ps w in
    let u : Party = record q { invite_list = erase player q.invite_list } in
    let gone = step_gone player p ps w v in
    let once = step_once player p ps w v in
    let here : contains player q.invite_list ≡ true = invited_here player p ps w q v live in
    elim (Bool-cases (empty u)) [
      | inl alone ↦
          rw (here, alone, disband_alone g p u w (allows p) alone)
            (deleted-IsValid w₀ w₁ p q player v live refl refl refl gone once alone)
      | inr more ↦
          rw (here, more) (kept-IsValid w₀ w₁ p q player v live refl refl refl gone once more)
    ]

pub remove_invites_lem :
    (g : Game) (player : ℕ) (ps : List ℕ) (w : World)
    → Allows g
    → IsValid (with_invitations player ps w)
    → (w' : World) × (remove_invites g player ps w ≡ some w')
      × IsValid (with_invitations player [] w')
unfolding remove_invites
remove_invites_lem g player [] w allows v = (w, refl, v)
remove_invites_lem g player (p ∷ ps) w allows v =
    let (q, live) = inviter_lives player p ps w v in
    let (w', e, v') =
      remove_invites_lem g player ps (remove_invite g p q player false w).1 allows
        (remove_invites_step g player p ps w q allows v live) in
    (w', rw (remove_invites, live) e, v')

pub log_out-Fine :
    (g : Game) (player : ℕ) (w : World) → Allows g → IsValid w → Fine (log_out g player w)
unfolding log_out clear_party_invitations
log_out-Fine g player w allows v =
    let v₀ = subst (λ u. IsValid u) (sym (with_invitations_self player w)) v in
    let (w', e, v') = remove_invites_lem g player (w.invite_party_list player) w allows v₀ in
    rw e (
      Fine-option (w'.party_of player) _ _ (λ none. fine _ v')
        (λ p e'.
          with_party-Fine g allows (with_invitations player [] w') v' player p _ e' (λ q live.
            fine _ (
              leave_party-IsValid g (with_invitations player [] w') p q v' live player
                (allows p)))))
