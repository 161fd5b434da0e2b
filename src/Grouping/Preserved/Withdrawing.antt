-- ===== src/Grouping/Preserved/Withdrawing.antt =====
-- `removeInvite` of src/creatures/players/grouping/party.cpp keeps the invariant.
use mathlib.Core.Path.{subst}
use mathlib.Core.Option.{some-injective}
use forgotten_land.Base.{
  ℕ, ◌≤◌, ◌≡◌, refl, sym, ap, ◌∙◌, inl, inr, true, false, List, [], ◌∷◌, none, some, ◌==◌, ◌&&◌,
  if◌then◌else◌, arith, Bool-cases, ==_iff,
}
use forgotten_land.Base.Ids.{
  contains, erase, occurrences, contains-erase, contains-remove_all, occurrences-erase,
  occurrences-remove_all,
}
use forgotten_land.Grouping.State.{
  Party, World, Game, empty, is_nil, points_to, put_party, set_party, remove_party_invitation,
}
use forgotten_land.Grouping.Invariant.{IsGood, IsValid, replace_lem, points_to-other}
use forgotten_land.Grouping.Preserved.{below_next, member_iff, invited_iff}
use forgotten_land.Grouping.Party.{remove_invite, disband, clear_parties, remove_invitations}

is_nil_eq : (xs : List ℕ) → is_nil xs ≡ true → xs ≡ []
is_nil_eq [] h = refl
is_nil_eq (x ∷ xs) h = absurd (cc)

-- A party without members and invitees only frees its leader.
pub disband_alone :
    (g : Game) (p : ℕ) (q : Party) (w : World)
    → g.event_party_on_disband p ≡ true
    → empty q ≡ true
    → disband g p q w ≡ put_party p none (set_party q.leader none w)
unfolding disband empty clear_parties remove_invitations
disband_alone g p q w allowed alone =
    let no_members : q.member_list ≡ [] = is_nil_eq q.member_list (ground arith) in
    let no_invites : q.invite_list ≡ [] = is_nil_eq q.invite_list (ground arith) in
    simp (allowed, no_members, no_invites)

-- The party `q` loses the invitee `player`; `w₁` is the world in which the invitation is gone.
module _ (w w₁ : World) (p : ℕ) (q : Party) (player : ℕ) (v : IsValid w)
    (live : w.parties p ≡ some q) (parties : w₁.parties ≡ w.parties)
    (pointers : w₁.party_of ≡ w.party_of) (next : w₁.next_party ≡ w.next_party)
    (gone : (i k : ℕ)
      → contains k (w₁.invite_party_list i)
        ≡ (if player == i && p == k then false else contains k (w.invite_party_list i)))
    (once : (i k : ℕ) → occurrences k (w₁.invite_party_list i) ≤ 1) where
  abbrev pub uninvited : Party
  uninvited = record q { invite_list = erase player q.invite_list }

  still_invited :
      (i : ℕ) → contains i (erase player q.invite_list) ≡ contains p (w₁.invite_party_list i)
  still_invited i = ground (
    arith,
    contains-erase i player q.invite_list,
    (v.good p q live).once_invited player,
    invited_iff w p q i v live,
    gone i p,
  )

  uninvited-IsGood : empty uninvited ≡ false → IsGood uninvited
  uninvited-IsGood more = record {
    once = (v.good p q live).once;
    once_invited = λ i.
        omega (arith, occurrences-erase i player q.invite_list, (v.good p q live).once_invited i);
    company = more;
  }

  pub kept-IsValid : empty uninvited ≡ false → IsValid (put_party p (some uninvited) w₁)
  unfolding put_party
  kept-IsValid more =
      replace_lem w (put_party p (some uninvited) w₁) p (some uninvited) v
        (λ k. ap (λ f. if p == k then some uninvited else f k) parties) (omega (arith, next))
        (omega (arith, next, below_next w p q v live))
        (λ i. rw pointers (member_iff w p q i v live)) (λ i k ne. rw pointers refl) still_invited
        (λ i k ne. ground (arith, gone i k)) once
        (λ r e. subst (λ r'. IsGood r') (some-injective _ _ e) (uninvited-IsGood more))

  only_leader :
      empty uninvited ≡ true
      → (q.member_list ≡ []) × ((i : ℕ) → contains p (w₁.invite_party_list i) ≡ false)
  unfolding empty contains
  only_leader alone =
      let no_members : q.member_list ≡ [] = is_nil_eq q.member_list (ground arith) in
      let no_invites : erase player q.invite_list ≡ [] =
        is_nil_eq (erase player q.invite_list) (ground arith) in
      (no_members, λ i. sym (still_invited i) ∙ ap (contains i) no_invites)

  pub deleted-IsValid :
      empty uninvited ≡ true → IsValid (put_party p none (set_party q.leader none w₁))
  unfolding put_party set_party contains
  deleted-IsValid alone =
      let (no_members, no_invites) = only_leader alone in
      replace_lem w (put_party p none (set_party q.leader none w₁)) p none v
        (λ k. ap (λ f. if p == k then none else f k) parties) (omega (arith, next))
        (omega (arith, next, below_next w p q v live))
        (λ i. ground (
          arith,
          ap (λ f. points_to p (f i)) pointers,
          member_iff w p q i v live,
          ap (contains i) no_members,
        ))
        (λ i k ne. ground (
          arith,
          ap (λ f. points_to k (f i)) pointers,
          member_iff w p q i v live,
          points_to-other p k (w.party_of i),
        ))
        (λ i. sym (no_invites i)) (λ i k ne. ground (arith, gone i k)) once (λ r e. absurd (cc))

gone_lem :
    (w : World) (player p i k : ℕ)
    → contains k ((remove_party_invitation player p w).invite_party_list i)
      ≡ (if player == i && p == k then false else contains k (w.invite_party_list i))
unfolding remove_party_invitation
gone_lem w player p i k =
    ground (arith, contains-remove_all k p (w.invite_party_list player), ==_iff player i)

once_lem :
    (w : World) (player p i k : ℕ)
    → IsValid w
    → occurrences k ((remove_party_invitation player p w).invite_party_list i) ≤ 1
unfolding remove_party_invitation
once_lem w player p i k v = ground (
  arith,
  v.once_inviting i k,
  v.once_inviting player k,
  occurrences-remove_all k p (w.invite_party_list player),
)

others_lem :
    (w : World) (player p : ℕ)
    → ((remove_party_invitation player p w).parties ≡ w.parties)
      × ((remove_party_invitation player p w).party_of ≡ w.party_of)
      × ((remove_party_invitation player p w).next_party ≡ w.next_party)
unfolding remove_party_invitation
others_lem w player p = (refl, refl, refl)

pub remove_invite-IsValid :
    (g : Game) (w : World) (p : ℕ) (q : Party) (player : ℕ)
    → IsValid w
    → w.parties p ≡ some q
    → g.event_party_on_disband p ≡ true
    → IsValid (remove_invite g p q player true w).1
unfolding remove_invite
remove_invite-IsValid g w p q player v live allowed =
    let w₁ = remove_party_invitation player p w in
    let u : Party = record q { invite_list = erase player q.invite_list } in
    let gone : (i k : ℕ)
        → contains k (w₁.invite_party_list i)
          ≡ (if player == i && p == k then false else contains k (w.invite_party_list i)) =
      λ i k. gone_lem w player p i k in
    let once : (i k : ℕ) → occurrences k (w₁.invite_party_list i) ≤ 1 =
      λ i k. once_lem w player p i k v in
    let same = others_lem w player p in
    elim (Bool-cases (contains player q.invite_list)) [
      | inl e ↦ elim (Bool-cases (empty u)) [
        | inl alone ↦
            rw (e, alone, disband_alone g p u w₁ allowed alone)
              (deleted-IsValid w w₁ p q player v live same.0 same.1 same.2 gone once alone)
        | inr more ↦
            rw (e, more) (kept-IsValid w w₁ p q player v live same.0 same.1 same.2 gone once more)
      ]
      | inr e ↦ rw e v
    ]
