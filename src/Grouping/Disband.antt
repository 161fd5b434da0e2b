-- ===== src/Grouping/Disband.antt =====
-- After `disband` of src/creatures/players/grouping/party.cpp no player points to the party.
use forgotten_land.Base.{
  ℕ, ◌≤◌, ◌<◌, ◌≡◌, refl, ap, ◌∙◌, true, false, none, some, ◌==◌, ◌&&◌, if◌then◌else◌, arith,
}
use forgotten_land.Base.Ids.{contains, occurrences}
use forgotten_land.Grouping.State.{Party, World, Game, points_to, put_party, set_party}
use forgotten_land.Grouping.Party.{disband, remove_invitations}
use forgotten_land.Grouping.Invariant.{
  in_party, IsValid, replace_lem, clear_parties_lem, clear_parties-others, remove_invitations_lem,
  remove_invitations-others, remove_invitations-once,
}

module _ (g : Game) (p : ℕ) (q : Party) (w : World)
    (allowed : g.event_party_on_disband p ≡ true) where
  disband_parties : (k : ℕ) → (disband g p q w).parties k ≡ (if p == k then none else w.parties k)
  unfolding disband put_party set_party
  disband_parties k =
      let freed = set_party q.leader none w in
      let cleared = remove_invitations p q.invite_list freed in
      rw
        (
          allowed,
          (clear_parties-others q.member_list cleared).0,
          (remove_invitations-others p q.invite_list freed).0,
        )
        refl

  disband_next : (disband g p q w).next_party ≡ w.next_party
  unfolding disband put_party set_party
  disband_next =
      let freed = set_party q.leader none w in
      let cleared = remove_invitations p q.invite_list freed in
      rw allowed (
        (clear_parties-others q.member_list cleared).2
        ∙ (remove_invitations-others p q.invite_list freed).2)

  pub disband_pointers :
      (i : ℕ) → (disband g p q w).party_of i ≡ (if in_party (some q) i then none else w.party_of i)
  unfolding disband put_party set_party
  disband_pointers i =
      let freed = set_party q.leader none w in
      let cleared = remove_invitations p q.invite_list freed in
      rw allowed (
        clear_parties_lem q.member_list cleared i
        ∙ rw ((remove_invitations-others p q.invite_list freed).1) (ground arith))

  pub disband_invitations :
      (i k : ℕ)
      → contains k ((disband g p q w).invite_party_list i)
        ≡ (if contains i q.invite_list && p == k then false else contains k (w.invite_party_list i))
  unfolding disband put_party set_party
  disband_invitations i k =
      let freed = set_party q.leader none w in
      let cleared = remove_invitations p q.invite_list freed in
      rw (allowed, (clear_parties-others q.member_list cleared).1)
        (remove_invitations_lem p q.invite_list freed i k)

  disband_once :
      ((i k : ℕ) → occurrences k (w.invite_party_list i) ≤ 1)
      → (i k : ℕ) → occurrences k ((disband g p q w).invite_party_list i) ≤ 1
  unfolding disband put_party set_party
  disband_once h i k =
      let freed = set_party q.leader none w in
      let cleared = remove_invitations p q.invite_list freed in
      rw (allowed, (clear_parties-others q.member_list cleared).1)
        (remove_invitations-once p q.invite_list freed h i k)

-- A world `w'` that differs from a valid one about the party at `p` only, and in which nobody else
-- points to that party than the party knows of.
pub disband-IsValid :
    (g : Game) (p : ℕ) (q : Party) (w w' : World)
    → IsValid w
    → g.event_party_on_disband p ≡ true
    → w'.parties ≡ w.parties
    → w'.next_party ≡ w.next_party
    → p < w.next_party
    → ((i k : ℕ) → (p == k) ≡ false → points_to k (w'.party_of i) ≡ points_to k (w.party_of i))
    → ((i : ℕ) → points_to p (w'.party_of i) ≡ true → in_party (some q) i ≡ true)
    → ((i k : ℕ)
        → in_party (some q) i ≡ true
        → (p == k) ≡ false
        → points_to k (w'.party_of i) ≡ false)
    → ((i k : ℕ)
        → (p == k) ≡ false
        → contains k (w'.invite_party_list i) ≡ contains k (w.invite_party_list i))
    → ((i : ℕ) → contains p (w'.invite_party_list i) ≡ true → contains i q.invite_list ≡ true)
    → ((i k : ℕ) → occurrences k (w'.invite_party_list i) ≤ 1)
    → IsValid (disband g p q w')
disband-IsValid g p q w w' v allowed same next below others known apart others_invited known_invited
      once =
    replace_lem w (disband g p q w') p none v
      (λ k. disband_parties g p q w' allowed k ∙ ap (λ f. if p == k then none else f k) same)
      (omega (arith, disband_next g p q w' allowed, next))
      (omega (arith, disband_next g p q w' allowed, next))
      (λ i. ground (arith, disband_pointers g p q w' allowed i, known i))
      (λ i k ne. ground (arith, disband_pointers g p q w' allowed i, apart i k, others i k ne))
      (λ i. ground (arith, disband_invitations g p q w' allowed i p, known_invited i))
      (λ i k ne. ground (arith, disband_invitations g p q w' allowed i k, others_invited i k ne))
      (disband_once g p q w' allowed once) (λ q' e. absurd (cc))
