-- ===== src/Grouping/Preserved/Inviting.antt =====
-- `invitePlayer` and `removeInvite` of src/creatures/players/grouping/party.cpp keep the invariant.
use mathlib.Core.Path.{subst}
use mathlib.Core.Option.{some-injective}
use forgotten_land.Base.{
  ℕ, ◌≤◌, ◌<◌, ◌≡◌, refl, sym, ap, ◌∙◌, inl, inr, true, false, [], ◌∷◌, ◌++◌, none, some, ◌==◌,
  ◌&&◌, if◌then◌else◌, arith, Bool-cases, ==_iff,
}
use forgotten_land.Base.Ids.{
  contains, occurrences, occurrences-append, occurrences-contains, contains-append,
}
use forgotten_land.Grouping.State.{
  Party, World, new_party, empty, points_to, put_party, set_party, add_party_invitation,
}
use forgotten_land.Grouping.Invariant.{in_party, invited, IsGood, IsValid, replace_lem}
use forgotten_land.Grouping.Preserved.{is_nil-append, below_next, member_iff, invited_iff}
use forgotten_land.Grouping.Party.{invite_player}
use forgotten_land.Grouping.Handlers.{make_party}

abbrev invite_to : Party → ℕ → Party
invite_to q player = record q { invite_list = q.invite_list ++ player ∷ [] }

contains-add_party_invitation :
    (w : World) (player p i k : ℕ)
    → contains k ((add_party_invitation player p w).invite_party_list i)
      ≡ (if player == i && p == k then true else contains k (w.invite_party_list i))
unfolding add_party_invitation contains
contains-add_party_invitation w player p i k = ground (arith, ==_iff player i, ==_iff p k)

add_party_invitation-others :
    (w : World) (player p : ℕ)
    → ((add_party_invitation player p w).parties ≡ w.parties)
      × ((add_party_invitation player p w).party_of ≡ w.party_of)
      × ((add_party_invitation player p w).next_party ≡ w.next_party)
unfolding add_party_invitation
add_party_invitation-others w player p = (ground arith, ground arith, ground arith)

add_party_invitation-once :
    (w : World) (player p i k : ℕ)
    → occurrences k (w.invite_party_list i) ≤ 1
    → occurrences k ((add_party_invitation player p w).invite_party_list i) ≤ 1
unfolding add_party_invitation occurrences
add_party_invitation-once w player p i k h =
    ground (arith, ==_iff player i, ==_iff p k, occurrences-contains p (w.invite_party_list player))

invite_to-IsGood :
    (q : Party) (player : ℕ)
    → contains player q.invite_list ≡ false
    → ((i : ℕ) → occurrences i (q.leader ∷ q.member_list) ≤ 1)
    → ((i : ℕ) → occurrences i q.invite_list ≤ 1)
    → IsGood (invite_to q player)
unfolding empty occurrences contains
invite_to-IsGood q player new once once_invited = record {
  once = once;
  once_invited = λ i. ground (
    arith,
    occurrences-append i q.invite_list (player ∷ []),
    once_invited i,
    occurrences-contains player q.invite_list,
    ==_iff player i,
  );
  company = ground (arith, is_nil-append q.invite_list player);
}

itself :
    (w : World) (p : ℕ) (q : Party) (k : ℕ)
    → w.parties p ≡ some q
    → w.parties k ≡ (if p == k then some q else w.parties k)
itself w p q k live = elim (Bool-cases (p == k)) [
  | inl e ↦ rw e (ap w.parties (sym ((==_iff p k).0 e)) ∙ live)
  | inr e ↦ rw e refl
]

invited_one :
    (q : Party) (player i : ℕ)
    → contains i (q.invite_list ++ player ∷ [])
      ≡ (if player == i then true else contains i q.invite_list)
unfolding contains
invited_one q player i = ground (arith, contains-append i q.invite_list (player ∷ []))

-- An invitation to the party `q` at `p`, in a world `w₁` that differs from a valid one about that
-- party only, and where it may have no one but its leader.
invite-IsValid :
    (w w₁ : World) (p : ℕ) (q : Party) (player : ℕ)
    → IsValid w
    → ((k : ℕ) → w₁.parties k ≡ (if p == k then some q else w.parties k))
    → w.next_party ≤ w₁.next_party
    → p < w₁.next_party
    → ((i : ℕ) → in_party (some q) i ≡ points_to p (w₁.party_of i))
    → ((i k : ℕ) → (p == k) ≡ false → points_to k (w₁.party_of i) ≡ points_to k (w.party_of i))
    → ((i : ℕ) → contains i q.invite_list ≡ contains p (w.invite_party_list i))
    → w₁.invite_party_list ≡ w.invite_party_list
    → IsGood (invite_to q player)
    → IsValid (add_party_invitation player p (put_party p (some (invite_to q player)) w₁))
unfolding put_party
invite-IsValid w w₁ p q player v same next below members others invites pointers good =
    let w₂ = put_party p (some (invite_to q player)) w₁ in
    let kept = add_party_invitation-others w₂ player p in
    replace_lem w (add_party_invitation player p w₂) p (some (invite_to q player)) v
      (λ k. rw kept.0 (ground (arith, same k))) (rw kept.2 next) (rw kept.2 below)
      (λ i. rw kept.1 (members i)) (λ i k ne. rw kept.1 (others i k ne))
      (λ i. ground (
        arith,
        contains-add_party_invitation w₂ player p i p,
        ap (λ f. contains p (f i)) pointers,
        invites i,
        invited_one q player i,
      ))
      (λ i k ne.
        ground (
          arith,
          contains-add_party_invitation w₂ player p i k,
          ap (λ f. contains k (f i)) pointers,
        ))
      (λ i k. ground (
        arith,
        add_party_invitation-once w₂ player p i k,
        ap (λ f. occurrences k (f i)) pointers,
        v.once_inviting i k,
      ))
      (λ r e. subst (λ r'. IsGood r') (some-injective _ _ e) good)

pub invite_player-IsValid :
    (w : World) (p : ℕ) (q : Party) (player : ℕ)
    → IsValid w
    → w.parties p ≡ some q
    → IsValid (invite_player p q player w).1
unfolding invite_player
invite_player-IsValid w p q player v live = elim (Bool-cases (contains player q.invite_list)) [
  | inl e ↦ rw e v
  | inr e ↦
      let good = v.good p q live in
      rw e (
        invite-IsValid w w p q player v (λ k. itself w p q k live) (omega arith)
          (below_next w p q v live) (λ i. member_iff w p q i v live) (λ i k ne. refl)
          (λ i. invited_iff w p q i v live) refl
          (invite_to-IsGood q player e good.once good.once_invited))
]

-- The first invitation of a player without a party, who makes one.
pub make_party-IsValid :
    (w : World) (player other : ℕ)
    → IsValid w
    → w.party_of player ≡ none
    → IsValid (invite_player w.next_party (new_party player) other (make_party player w)).1
unfolding invite_player make_party new_party contains put_party set_party
make_party-IsValid w player other v free =
    let p = w.next_party in
    let none_there : w.parties p ≡ none = v.fresh p (omega arith) in
    invite-IsValid w (make_party player w) p (new_party player) other v (λ k. refl) (omega arith)
      (omega arith) (λ i. ground (arith, v.belongs p i, ap (λ o. in_party o i) none_there))
      (λ i k ne. ground (arith, ap (points_to k) free, ==_iff player i))
      (λ i. ap (λ o. invited o i) (sym none_there) ∙ v.invites p i) refl
      (unfold occurrences in
        invite_to-IsGood (new_party player) other refl (λ i. ground arith) (λ i. omega arith))
