-- ===== src/Grouping/Preserved/Leaving.antt =====
-- `leaveParty` of src/creatures/players/grouping/party.cpp keeps the invariant.
use mathlib.Core.Path.{subst}
use mathlib.Core.Option.{some-injective}
use forgotten_land.Base.{
  ℕ, ◌≡◌, refl, ap, ◌∙◌, inl, inr, true, false, not, none, some, ◌==◌, ◌&&◌, if◌then◌else◌, arith,
  Bool-cases, ==_iff,
}
use forgotten_land.Base.Ids.{contains, erase, occurrences, contains-erase}
use forgotten_land.Grouping.State.{Party, World, Game, empty, points_to, put_party, set_party}
use forgotten_land.Grouping.Invariant.{in_party, IsGood, IsValid, replace_lem, points_to-other}
use forgotten_land.Grouping.Preserved.{
  Same, below_next, member_iff, invited_iff, update_shared_experience-Same,
  clear_player_points-Same,
}
use forgotten_land.Grouping.Experience.{update_shared_experience, clear_player_points}
use forgotten_land.Grouping.Party.{missing_leader, leave_party, disband}
use forgotten_land.Grouping.Disband.{disband-IsValid}
use forgotten_land.Grouping.Preserved.Succession.{Goes, once_in, missing_lem, left, left-Goes}

module _ (g : Game) (w : World) (p : ℕ) (q : Party) (v : IsValid w)
    (live : w.parties p ≡ some q) where
  -- The world in which the player has left, and the party then.
  abbrev pub freed : ℕ → World
  freed player = set_party player none w

  abbrev pub after : ℕ → Party
  after player =
      clear_player_points g player (update_shared_experience g (left g w p q v live player))

  pub after-Same : (player : ℕ) → Same (left g w p q v live player) (after player)
  after-Same player =
      let s = update_shared_experience-Same g (left g w p q v live player) in
      let t =
        clear_player_points-Same g player
          (update_shared_experience g (left g w p q v live player)) in
      (t.0 ∙ s.0, t.1 ∙ s.1, t.2 ∙ s.2)

  disbanded-IsValid :
      (player : ℕ) (r : Party)
      → g.event_party_on_disband p ≡ true
      → ((i : ℕ) → in_party (some r) i ≡ true → in_party (some q) i ≡ true)
      → ((i : ℕ) → in_party (some q) i ≡ true → (player == i) ≡ false → in_party (some r) i ≡ true)
      → in_party (some q) player ≡ true
      → r.invite_list ≡ q.invite_list
      → IsValid (disband g p r (freed player))
  unfolding set_party
  disbanded-IsValid player r allowed inside known belongs invitees =
      disband-IsValid g p r w (freed player) v allowed refl refl (below_next w p q v live)
        (λ i k ne. ground (
          arith,
          member_iff w p q player v live,
          points_to-other p k (w.party_of player),
          ==_iff player i,
        ))
        (λ i. ground (arith, member_iff w p q i v live, known i))
        (λ i k.
          ground (arith, member_iff w p q i v live, inside i, points_to-other p k (w.party_of i)))
        (λ i k ne. refl) (λ i. ground (arith, invited_iff w p q i v live, ap (contains i) invitees))
        v.once_inviting

  missing-IsValid :
      (player : ℕ)
      → g.event_party_on_disband p ≡ true
      → in_party (some q) player ≡ true
      → missing_leader player q ≡ true
      → IsValid (disband g p (after player) (freed player))
  unfolding contains occurrences
  missing-IsValid player allowed belongs missing =
      let facts = missing_lem g w p q v live player missing in
      let s = after-Same player in
      let same_left : left g w p q v live player
          ≡ record q { member_list = erase player q.member_list } =
        ap (λ (r : Party). record r { member_list = erase player r.member_list }) facts.1 in
      let leads : (after player).leader ≡ q.leader = s.0 ∙ ap (λ (r : Party). r.leader) same_left in
      let rest : (after player).member_list ≡ erase player q.member_list =
        s.1 ∙ ap (λ (r : Party). r.member_list) same_left in
      disbanded-IsValid player (after player) allowed
        (λ i. ground (
          arith,
          leads,
          ap (contains i) rest,
          contains-erase i player q.member_list,
          once_in g w p q v live player,
        ))
        (λ i. ground (
          arith,
          leads,
          ap (contains i) rest,
          contains-erase i player q.member_list,
          once_in g w p q v live player,
        ))
        belongs (s.2 ∙ ap (λ (r : Party). r.invite_list) same_left)

  module _ (player : ℕ) (allowed : g.event_party_on_disband p ≡ true)
      (belongs : in_party (some q) player ≡ true) (more : missing_leader player q ≡ false) where
    goes : Goes g w p q v live player (left g w p q v live player)
    goes = left-Goes g w p q v live player belongs more

    after-people :
        (i : ℕ)
        → in_party (some (after player)) i ≡ (if player == i then false else in_party (some q) i)
    after-people i = let s = after-Same player in rw (s.0, s.1) (goes.people i)

    emptied-IsValid : IsValid (disband g p (after player) (freed player))
    emptied-IsValid =
        disbanded-IsValid player (after player) allowed (λ i. ground (arith, after-people i))
          (λ i. ground (arith, after-people i)) belongs ((after-Same player).2 ∙ goes.invitees)

    goes_on-IsValid :
        empty (after player) ≡ false → IsValid (put_party p (some (after player)) (freed player))
    unfolding put_party set_party
    goes_on-IsValid company =
        let s = after-Same player in
        replace_lem w (put_party p (some (after player)) (freed player)) p (some (after player)) v
          (λ k. refl) (omega arith) (below_next w p q v live)
          (λ i. ground (arith, after-people i, member_iff w p q i v live))
          (λ i k ne. ground (
            arith,
            member_iff w p q player v live,
            points_to-other p k (w.party_of player),
            ==_iff player i,
          ))
          (λ i. rw (s.2, goes.invitees) (invited_iff w p q i v live)) (λ i k ne. refl)
          v.once_inviting
          (λ r e.
            subst (λ r'. IsGood r') (some-injective _ _ e)
              (record {
                once = λ i. rw (s.0, s.1) (goes.once i);
                once_invited = λ i. rw (s.2, goes.invitees) ((v.good p q live).once_invited i);
                company = company;
              }))

  pub leave_party-IsValid :
      (player : ℕ) → g.event_party_on_disband p ≡ true → IsValid (leave_party g p q player w).1
  unfolding leave_party
  leave_party-IsValid player allowed =
      elim (Bool-cases (not (points_to p (w.party_of player)) && not (q.leader == player))) [
        | inl stranger ↦ rw stranger v
        | inr known ↦
            let belongs : in_party (some q) player ≡ true =
              ground (arith, member_iff w p q player v live) in
            elim (Bool-cases (g.event_party_on_leave p player)) [
              | inr refused ↦ rw (known, refused) v
              | inl agreed ↦ elim (Bool-cases (missing_leader player q)) [
                | inl missing ↦
                    rw (known, agreed, missing) (missing-IsValid player allowed belongs missing)
                | inr more ↦ elim (Bool-cases (empty (after player))) [
                  | inl gone ↦
                      rw (known, agreed, more, gone) (emptied-IsValid player allowed belongs more)
                  | inr company ↦
                      rw (known, agreed, more, company)
                        (goes_on-IsValid player allowed belongs more company)
                ]
              ]
            ]
      ]
