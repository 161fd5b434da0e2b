-- ===== src/Grouping/Preserved/Joining.antt =====
-- `joinParty` of src/creatures/players/grouping/party.cpp keeps the invariant.
use mathlib.Core.Path.{subst}
use mathlib.Core.Option.{some-injective}
use forgotten_land.Base.{
  ℕ, ◌≤◌, ◌≡◌, refl, ap, inl, inr, true, false, [], ◌∷◌, ◌++◌, none, some, ◌==◌, if◌then◌else◌,
  arith, Bool-cases, ==_iff,
}
use forgotten_land.Base.Ids.{
  contains, erase, occurrences, occurrences-append, occurrences-contains, contains-append,
  contains-erase, contains-remove_all, occurrences-remove_all, occurrences-erase,
}
use forgotten_land.Grouping.State.{
  Party, World, Game, empty, points_to, put_party, set_party, remove_party_invitation,
}
use forgotten_land.Grouping.Invariant.{in_party, IsGood, IsValid, replace_lem}
use forgotten_land.Grouping.Preserved.{
  Same-IsGood, is_nil-append, below_next, member_iff, invited_iff, update_shared_experience-Same,
}
use forgotten_land.Grouping.Experience.{update_shared_experience}
use forgotten_land.Grouping.Party.{join_party}

module _ (g : Game) (w : World) (p : ℕ) (q : Party) (player : ℕ) (v : IsValid w)
    (live : w.parties p ≡ some q) (free : w.party_of player ≡ none) where
  -- The party with the new member, and the world with the pointers of the new member.
  abbrev joined : Party
  joined = record q {
    invite_list = erase player q.invite_list;
    member_list = q.member_list ++ player ∷ [];
  }

  abbrev welcomed : World
  welcomed =
      put_party p (some (update_shared_experience g joined))
        (remove_party_invitation player p (set_party player (some p) w))

  stranger : in_party (some q) player ≡ false
  stranger = ground (arith, member_iff w p q player v live)

  once_in : (i : ℕ) → occurrences i (q.leader ∷ q.member_list) ≤ 1
  once_in = (v.good p q live).once

  joined-in_party :
      (i : ℕ) → in_party (some joined) i ≡ (if player == i then true else in_party (some q) i)
  unfolding contains
  joined-in_party i = ground (arith, contains-append i q.member_list (player ∷ []))

  joined-IsGood : IsGood joined
  unfolding empty occurrences contains
  joined-IsGood = record {
    once = λ i. ground (
      arith,
      occurrences-append i q.member_list (player ∷ []),
      once_in i,
      stranger,
      occurrences-contains i q.member_list,
      ==_iff player i,
    );
    once_invited = λ i.
        omega (arith, occurrences-erase i player q.invite_list, (v.good p q live).once_invited i);
    company = rw (is_nil-append q.member_list player) refl;
  }

  welcomed-IsValid : IsValid welcomed
  unfolding put_party remove_party_invitation set_party
  welcomed-IsValid =
      let s = update_shared_experience-Same g joined in
      replace_lem w welcomed p (some (update_shared_experience g joined)) v (λ k. refl)
        (omega arith) (below_next w p q v live)
        (λ i. rw (s.0, s.1) (ground (arith, joined-in_party i, member_iff w p q i v live)))
        (λ i k ne. ground (arith, ap (points_to k) free, ==_iff player i))
        (λ i. rw s.2 (
          ground (
            arith,
            contains-erase i player q.invite_list,
            (v.good p q live).once_invited player,
            invited_iff w p q i v live,
            contains-remove_all p p (w.invite_party_list player),
            ==_iff player i,
          )))
        (λ i k ne.
          ground (arith, contains-remove_all k p (w.invite_party_list player), ==_iff player i))
        (λ i k. ground (
          arith,
          v.once_inviting i k,
          v.once_inviting player k,
          occurrences-remove_all k p (w.invite_party_list player),
        ))
        (λ r e.
          subst (λ r'. IsGood r') (some-injective _ _ e)
            (Same-IsGood joined (update_shared_experience g joined) s joined-IsGood))

  pub join_party-IsValid : IsValid (join_party g p q player w).1
  unfolding join_party
  join_party-IsValid = elim (Bool-cases (g.event_party_on_join p player)) [
    | inl yes_event ↦ elim (Bool-cases (contains player q.invite_list)) [
      | inl e ↦ rw (yes_event, e) welcomed-IsValid
      | inr e ↦ rw (yes_event, e) v
    ]
    | inr e ↦ rw e v
  ]
