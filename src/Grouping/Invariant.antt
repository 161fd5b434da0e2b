-- ===== src/Grouping/Invariant.antt =====
-- What holds between the parties and the pointers of the players: who belongs to a party points to
-- it and the other way round, also of invitations, so that no pointer is left to a deleted party.
use forgotten_land.Base.{
  ℕ, ◌≤◌, ◌<◌, ◌≡◌, refl, sym, ap, ◌∙◌, inl, inr, Bool, true, false, List, [], ◌∷◌, Option, none,
  some, ◌==◌, ◌&&◌, ◌||◌, if◌then◌else◌, arith, Bool-cases, ==_iff,
}
use mathlib.Core.Path.{subst}
use forgotten_land.Base.Ids.{contains, occurrences, contains-remove_all, occurrences-remove_all}
use forgotten_land.Grouping.State.{
  Party, World, empty, points_to, set_party, remove_party_invitation,
}
use forgotten_land.Grouping.Party.{remove_invitations, clear_parties}

abbrev pub in_party : Option Party → ℕ → Bool
in_party none i = false
in_party (some q) i = q.leader == i || contains i q.member_list

abbrev pub invited : Option Party → ℕ → Bool
invited none i = false
invited (some q) i = contains i q.invite_list

-- Nobody stands in a party twice, and no leader is left alone in one.
pub record IsGood (q : Party) : Type 0 where
  pub once : (i : ℕ) → occurrences i (q.leader ∷ q.member_list) ≤ 1
  pub once_invited : (i : ℕ) → occurrences i q.invite_list ≤ 1
  pub company : empty q ≡ false

pub record IsValid (w : World) : Type 0 where
  pub belongs : (p i : ℕ) → in_party (w.parties p) i ≡ points_to p (w.party_of i)
  pub invites : (p i : ℕ) → invited (w.parties p) i ≡ contains p (w.invite_party_list i)
  pub good : (p : ℕ) (q : Party) → w.parties p ≡ some q → IsGood q
  pub once_inviting : (i k : ℕ) → occurrences k (w.invite_party_list i) ≤ 1
  pub fresh : (p : ℕ) → w.next_party ≤ p → w.parties p ≡ none

pub points_to-other :
    (p k : ℕ) (o : Option ℕ) → points_to p o ≡ true → (p == k) ≡ false → points_to k o ≡ false
points_to-other p k none h ne = ground arith
points_to-other p k (some r) h ne = ground arith

pub points_to-some : (p : ℕ) (o : Option ℕ) → points_to p o ≡ true → o ≡ some p
points_to-some p none h = absurd (cc)
points_to-some p (some r) h = ap some (ground arith)

-- A world that differs from a valid one at one party only, where it is valid too.
pub replace_lem :
    (w w' : World) (p : ℕ) (o : Option Party)
    → IsValid w
    → ((k : ℕ) → w'.parties k ≡ (if p == k then o else w.parties k))
    → w.next_party ≤ w'.next_party
    → p < w'.next_party
    → ((i : ℕ) → in_party o i ≡ points_to p (w'.party_of i))
    → ((i k : ℕ) → (p == k) ≡ false → points_to k (w'.party_of i) ≡ points_to k (w.party_of i))
    → ((i : ℕ) → invited o i ≡ contains p (w'.invite_party_list i))
    → ((i k : ℕ)
        → (p == k) ≡ false
        → contains k (w'.invite_party_list i) ≡ contains k (w.invite_party_list i))
    → ((i k : ℕ) → occurrences k (w'.invite_party_list i) ≤ 1)
    → ((q : Party) → o ≡ some q → IsGood q)
    → IsValid w'
replace_lem w w' p o v same next below belongs others invites other_invites once good = record {
  once_inviting = once;
  belongs = λ k i. elim (Bool-cases (p == k)) [
    | inl e ↦
        let here : p ≡ k = ground arith in
        ap (λ r. in_party r i) (same k ∙ rw e refl)
        ∙ subst (λ k'. in_party o i ≡ points_to k' (w'.party_of i)) here (belongs i)
    | inr e ↦ ap (λ r. in_party r i) (same k ∙ rw e refl) ∙ v.belongs k i ∙ sym (others i k e)
  ];
  invites = λ k i. elim (Bool-cases (p == k)) [
    | inl e ↦
        let here : p ≡ k = ground arith in
        ap (λ r. invited r i) (same k ∙ rw e refl)
        ∙ subst (λ k'. invited o i ≡ contains k' (w'.invite_party_list i)) here (invites i)
    | inr e ↦ ap (λ r. invited r i) (same k ∙ rw e refl) ∙ v.invites k i ∙ sym (other_invites i k e)
  ];
  good = λ k q found. elim (Bool-cases (p == k)) [
    | inl e ↦ good q (sym (same k ∙ rw e refl) ∙ found)
    | inr e ↦ v.good k q (sym (same k ∙ rw e refl) ∙ found)
  ];
  fresh =
      λ k le. same k ∙ (let e : (p == k) ≡ false = ground arith in rw e (v.fresh k (omega arith)));
}

-- The loops of `disband`.
pub clear_parties_lem :
    (ms : List ℕ) (w : World) (i : ℕ)
    → (clear_parties ms w).party_of i ≡ (if contains i ms then none else w.party_of i)
unfolding clear_parties set_party contains
clear_parties_lem [] w i = refl
clear_parties_lem (m ∷ ms) w i = ground (arith, clear_parties_lem ms (set_party m none w) i)

pub clear_parties-others :
    (ms : List ℕ) (w : World)
    → ((clear_parties ms w).parties ≡ w.parties)
      × ((clear_parties ms w).invite_party_list ≡ w.invite_party_list)
      × ((clear_parties ms w).next_party ≡ w.next_party)
unfolding clear_parties set_party
clear_parties-others [] w = (refl, refl, refl)
clear_parties-others (m ∷ ms) w = clear_parties-others ms (set_party m none w)

pub remove_invitations_lem :
    (p : ℕ) (is : List ℕ) (w : World) (i k : ℕ)
    → contains k ((remove_invitations p is w).invite_party_list i)
      ≡ (if contains i is && p == k then false else contains k (w.invite_party_list i))
unfolding remove_invitations remove_party_invitation contains
remove_invitations_lem p [] w i k = refl
remove_invitations_lem p (j ∷ is) w i k = ground (
  arith,
  remove_invitations_lem p is (remove_party_invitation j p w) i k,
  contains-remove_all k p (w.invite_party_list j),
  ==_iff j i,
)

pub remove_invitations-others :
    (p : ℕ) (is : List ℕ) (w : World)
    → ((remove_invitations p is w).parties ≡ w.parties)
      × ((remove_invitations p is w).party_of ≡ w.party_of)
      × ((remove_invitations p is w).next_party ≡ w.next_party)
unfolding remove_invitations remove_party_invitation
remove_invitations-others p [] w = (refl, refl, refl)
remove_invitations-others p (j ∷ is) w =
    remove_invitations-others p is (remove_party_invitation j p w)

pub remove_invitations-once :
    (p : ℕ) (is : List ℕ) (w : World)
    → ((i k : ℕ) → occurrences k (w.invite_party_list i) ≤ 1)
    → (i k : ℕ) → occurrences k ((remove_invitations p is w).invite_party_list i) ≤ 1
unfolding remove_invitations remove_party_invitation
remove_invitations-once p [] w h = h
remove_invitations-once p (j ∷ is) w h =
    remove_invitations-once p is (remove_party_invitation j p w)
      (λ i k. ground (arith, h i k, h j k, occurrences-remove_all k p (w.invite_party_list j)))
