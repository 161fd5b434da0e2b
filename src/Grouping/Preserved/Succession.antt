-- ===== src/Grouping/Preserved/Succession.antt =====
-- `passPartyLeadership` of src/creatures/players/grouping/party.cpp, and who is left in a party that a
-- member leaves.
use mathlib.Core.Path.{subst}
use mathlib.Core.Option.{some-injective}
use forgotten_land.Base.{
  ℕ, ◌≤◌, ◌≡◌, refl, ap, ◌∙◌, ◌⊎◌, inl, inr, true, false, List, [], ◌∷◌, some, ◌==◌, if◌then◌else◌,
  arith, Bool-cases, ==_iff,
}
use forgotten_land.Base.Ids.{
  contains, erase, occurrences, contains-erase, occurrences-erase, contains-occurrences,
  occurrences-erase_found,
}
use forgotten_land.Grouping.State.{Party, World, Game, empty, put_party}
use forgotten_land.Grouping.Invariant.{in_party, IsGood, IsValid, replace_lem}
use forgotten_land.Grouping.Preserved.{
  Same, Same-IsGood, below_next, member_iff, invited_iff, update_shared_experience-Same,
}
use forgotten_land.Grouping.Experience.{update_shared_experience}
use forgotten_land.Grouping.Party.{pass_party_leadership, missing_leader, successor, succeed}

List-cases : (xs : List ℕ) → (xs ≡ []) ⊎ ((x : ℕ) × (ys : List ℕ) × (xs ≡ x ∷ ys))
List-cases [] = inl refl
List-cases (x ∷ xs) = inr (x, xs, refl)

leader_of_missing : (player : ℕ) (q : Party) → missing_leader player q ≡ true → q.leader ≡ player
unfolding missing_leader
leader_of_missing player q missing = ground arith

missing_alone :
    (player : ℕ) (q : Party)
    → (q.leader == player) ≡ true
    → q.member_list ≡ []
    → missing_leader player q ≡ true
unfolding missing_leader
missing_alone player q leads e = simp (leads, e)

module _ (g : Game) (w : World) (p : ℕ) (q : Party) (v : IsValid w)
    (live : w.parties p ≡ some q) where
  pub once_in : (i : ℕ) → occurrences i (q.leader ∷ q.member_list) ≤ 1
  once_in = (v.good p q live).once

  -- The party that a member leads instead of the old leader.
  abbrev pub handed : ℕ → Party
  handed m = record q { leader = m; member_list = q.leader ∷ erase m q.member_list }

  pass_lem :
      (m : ℕ)
      → contains m q.member_list ≡ true
      → pass_party_leadership g p m (w.party_of m) q ≡ (true, update_shared_experience g (handed m))
  unfolding pass_party_leadership occurrences
  pass_lem m member = ground (
    arith,
    once_in m,
    contains-occurrences m q.member_list,
    member_iff w p q m v live,
    ==_iff q.leader m,
  )

  -- The same people as before, in another order.
  handed-in_party :
      (m i : ℕ)
      → contains m q.member_list ≡ true
      → in_party (some (handed m)) i ≡ in_party (some q) i
  unfolding contains occurrences
  handed-in_party m i member =
      ground (arith, contains-erase i m q.member_list, once_in m, ==_iff m i)

  handed-IsGood : (m : ℕ) → contains m q.member_list ≡ true → IsGood (handed m)
  unfolding occurrences empty
  handed-IsGood m member = record {
    once = λ i. ground (arith, once_in i, occurrences-erase_found i m q.member_list);
    once_invited = (v.good p q live).once_invited;
    company = refl;
  }

  refused_lem :
      (m : ℕ)
      → contains m q.member_list ≡ false
      → pass_party_leadership g p m (w.party_of m) q ≡ (false, q)
  unfolding pass_party_leadership
  refused_lem m stranger = ground (arith, member_iff w p q m v live)

  put_people-IsValid :
      (q' : Party)
      → ((i : ℕ) → in_party (some q') i ≡ in_party (some q) i)
      → q'.invite_list ≡ q.invite_list
      → IsGood q'
      → IsValid (put_party p (some q') w)
  unfolding put_party
  put_people-IsValid q' people invites good =
      replace_lem w (put_party p (some q') w) p (some q') v (λ k. refl) (omega arith)
        (below_next w p q v live) (λ i. people i ∙ member_iff w p q i v live) (λ i k ne. refl)
        (λ i. rw invites (invited_iff w p q i v live)) (λ i k ne. refl) v.once_inviting
        (λ r e. subst (λ r'. IsGood r') (some-injective _ _ e) good)

  pub pass_party_leadership-IsValid :
      (m : ℕ) → IsValid (put_party p (some (pass_party_leadership g p m (w.party_of m) q).1) w)
  pass_party_leadership-IsValid m = elim (Bool-cases (contains m q.member_list)) [
    | inl member ↦
        let s = update_shared_experience-Same g (handed m) in
        rw (pass_lem m member) (
          put_people-IsValid (update_shared_experience g (handed m))
            (λ i. rw (s.0, s.1) (handed-in_party m i member)) s.2
            (Same-IsGood (handed m) _ s (handed-IsGood m member)))
    | inr stranger ↦
        rw (refused_lem m stranger) (put_people-IsValid q (λ i. refl) refl (v.good p q live))
  ]

  -- Nobody is left to lead: the leader goes, and at most one member remains.
  pub missing_lem :
      (player : ℕ)
      → missing_leader player q ≡ true
      → (q.leader ≡ player) × (succeed g p player q w ≡ q)
  unfolding succeed
  missing_lem player missing = (leader_of_missing player q missing, rw missing (ground arith))

  -- The people that are left, in the party before the member who goes is erased and after.
  abbrev pub left : ℕ → Party
  left player =
      let passed = succeed g p player q w in
      record passed { member_list = erase player passed.member_list }

  left-Ordinary :
      (player : ℕ)
      → (q.leader == player) ≡ false
      → left player ≡ record q { member_list = erase player q.member_list }
  unfolding succeed
  left-Ordinary player other = rw other refl

  chosen :
      (player : ℕ)
      → (q.leader == player) ≡ true
      → missing_leader player q ≡ false
      → succeed g p player q w ≡ successor g p q w q.member_list
  unfolding succeed
  chosen player leads more = rw (leads, more) refl

  succeed_lem :
      (player m : ℕ) (ms : List ℕ)
      → (q.leader == player) ≡ true
      → missing_leader player q ≡ false
      → q.member_list ≡ m ∷ ms
      → succeed g p player q w ≡ update_shared_experience g (handed m)
  unfolding contains successor
  succeed_lem player m ms leads more e =
      let member : contains m q.member_list ≡ true = ap (contains m) e ∙ ground arith in
      chosen player leads more ∙ ap (successor g p q w) e ∙ ap (λ r. r.1) (pass_lem m member)

  pub left-Leader :
      (player m : ℕ) (ms : List ℕ)
      → (q.leader == player) ≡ true
      → missing_leader player q ≡ false
      → q.member_list ≡ m ∷ ms
      → Same (record q { leader = m; member_list = ms }) (left player)
  unfolding erase
  left-Leader player m ms leads more e =
      let s = update_shared_experience-Same g (handed m) in
      rw (succeed_lem player m ms leads more e) (s.0, rw s.1 (ground (arith, ap (erase m) e)), s.2)

  -- What is left of a party that goes on.
  pub record Goes (player : ℕ) (r : Party) : Type 0 where
    pub people :
        (i : ℕ) → in_party (some r) i ≡ (if player == i then false else in_party (some q) i)
    pub once : (i : ℕ) → occurrences i (r.leader ∷ r.member_list) ≤ 1
    pub invitees : r.invite_list ≡ q.invite_list

  pub left-Goes :
      (player : ℕ)
      → in_party (some q) player ≡ true
      → missing_leader player q ≡ false
      → Goes player (left player)
  unfolding occurrences contains
  left-Goes player belongs more = elim (Bool-cases (q.leader == player)) [
    | inr other ↦ rw (left-Ordinary player other) (record {
      people = λ i.
          ground (arith, contains-erase i player q.member_list, once_in player, ==_iff player i);
      once = λ i. ground (arith, once_in i, occurrences-erase i player q.member_list);
      invitees = refl;
    })
    | inl leads ↦ elim (List-cases q.member_list) [
      | inl e ↦ absurd (cc (missing_alone player q leads e, more))
      | inr (m, ms, e) ↦
          let s = left-Leader player m ms leads more e in
          record {
            people = λ i. ground (
              arith,
              ap (contains i) e,
              s.0,
              ap (contains i) s.1,
              once_in player,
              once_in m,
              ==_iff player i,
              ap (occurrences player) e,
              ap (occurrences m) e,
              contains-occurrences player ms,
            );
            once =
                λ i. ground (arith, once_in i, s.0, ap (occurrences i) s.1, ap (occurrences i) e);
            invitees = s.2;
          }
    ]
  ]
