-- ===== src/Grouping/Outcomes.antt =====
-- What single calls about a party come to.
use mathlib.Core.Path.{subst}
use mathlib.Core.Option.{some-injective}
use forgotten_land.Base.{
  ℕ, ◌≤◌, ◌≡◌, refl, sym, ap, ◌∙◌, ◌⊎◌, inl, inr, true, false, not, List, [], ◌∷◌, none, some, ◌==◌,
  ◌&&◌, ◌||◌, arith, Bool-cases, Option-cases, ==_iff, ltb,
}
use forgotten_land.Base.Ids.{contains, erase}
use forgotten_land.Grouping.State.{
  Party, World, Game, points_to, put_party, set_party, empty, is_nil,
}
use forgotten_land.Grouping.Experience.{
  highest_level, can_use_shared_experience, update_shared_experience, clear_player_points,
}
use forgotten_land.Grouping.Party.{leave_party, succeed, missing_leader, disband}
use forgotten_land.Grouping.Handlers.{log_out, clear_party_invitations}
use forgotten_land.Grouping.Invariant.{in_party, invited, IsValid}
use forgotten_land.Grouping.Disband.{disband_pointers, disband_invitations}
use forgotten_land.Grouping.Preserved.Succession.{left-Leader}
use forgotten_land.Grouping.Preserved.Leaving.{after, after-Same}
use forgotten_land.Grouping.Histories.{Allows}
use forgotten_land.Grouping.Histories.LogOut.{
  log_out-Fine, remove_invites_lem, with_invitations, with_invitations_self,
}

missing_lem :
    (player m : ℕ) (ms : List ℕ) (q : Party)
    → q.leader ≡ player
    → q.member_list ≡ m ∷ ms
    → (is_nil ms && is_nil q.invite_list) ≡ false
    → missing_leader player q ≡ false
unfolding missing_leader
missing_lem player m ms q leads e some_left = simp (e, some_left) (ground arith)

company :
    (g : Game) (w : World) (p : ℕ) (q : Party) (v : IsValid w) (live : w.parties p ≡ some q)
    (player : ℕ) (ms : List ℕ)
    → (after g w p q v live player).member_list ≡ ms
    → (after g w p q v live player).invite_list ≡ q.invite_list
    → (is_nil ms && is_nil q.invite_list) ≡ false
    → empty (after g w p q v live player) ≡ false
unfolding empty
company g w p q v live player ms members invites some_left = rw (members, invites) some_left

-- Where the leader of a party in a valid world leaves, the scripts agree and someone else remains
-- than the first member alone, without invitations, the first member leads the others from then on,
-- the invitations stand, and the one who left points to no party.
pub leave_party-leader :
    (g : Game) (w : World) (p : ℕ) (q : Party) (m : ℕ) (ms : List ℕ)
    → IsValid w
    → w.parties p ≡ some q
    → q.member_list ≡ m ∷ ms
    → (is_nil ms && is_nil q.invite_list) ≡ false
    → g.event_party_on_leave p q.leader ≡ true
    → let (result, w') = leave_party g p q q.leader w in
      (result ≡ true)
      × (w'.party_of q.leader ≡ none)
      × ((q' : Party) × (w'.parties p ≡ some q')
          × (q'.leader ≡ m)
          × (q'.member_list ≡ ms)
          × (q'.invite_list ≡ q.invite_list))
unfolding leave_party put_party set_party
leave_party-leader g w p q m ms v live e some_left agreed =
    let player = q.leader in
    let itself : (q.leader == player) ≡ true = ground arith in
    let known : (not (points_to p (w.party_of player)) && not (q.leader == player)) ≡ false =
      ground arith in
    let missing = missing_lem player m ms q refl e some_left in
    let s = left-Leader g w p q v live player m ms itself missing e in
    let t = after-Same g w p q v live player in
    let there : empty (after g w p q v live player) ≡ false =
      company g w p q v live player ms (t.1 ∙ s.1) (t.2 ∙ s.2) some_left in
    rw (known, agreed, missing, there)
      (
        refl,
        ground arith,
        (after g w p q v live player, ground arith, t.0 ∙ s.0, t.1 ∙ s.1, t.2 ∙ s.2),
      )

-- The highest level is `start` or that of a member, and none of them exceeds it.
highest_level_bounds :
    (g : Game) (start : ℕ) (ms : List ℕ)
    → (start ≤ highest_level g start ms)
      × ((i : ℕ) → contains i ms ≡ true → g.level i ≤ highest_level g start ms)
      × ((highest_level g start ms ≡ start)
          ⊎ ((i : ℕ) × (contains i ms ≡ true) × (highest_level g start ms ≡ g.level i)))
unfolding highest_level contains
highest_level_bounds g start [] = (omega arith, λ i h. absurd (cc), inl refl)
highest_level_bounds g start (m ∷ ms) = elim (Bool-cases (ltb start (g.level m))) [
  | inl e ↦
      let (low, each, reached) = highest_level_bounds g (g.level m) ms in
      rw e (
        ground arith,
        λ i h. elim (Bool-cases (m == i)) [
          | inl same ↦ omega (arith, low, ap g.level ((==_iff m i).0 same))
          | inr other ↦ each i (ground arith)
        ],
        elim reached [
          | inl first ↦ inr (m, ground arith, first)
          | inr (i, there, found) ↦ inr (i, ground arith, found)
        ],
      )
  | inr e ↦
      let (low, each, reached) = highest_level_bounds g start ms in
      rw e (
        low,
        λ i h. elim (Bool-cases (m == i)) [
          | inl same ↦ ground (arith, low, ap g.level ((==_iff m i).0 same))
          | inr other ↦ each i (ground arith)
        ],
        elim reached [
          | inl first ↦ inl first
          | inr (i, there, found) ↦ inr (i, ground arith, found)
        ],
      )
]

highest_level_able :
    (g : Game) (q : Party) (player : ℕ)
    → can_use_shared_experience g q player ≡ true
    → g.min_level (highest_level g (g.level q.leader) q.member_list) ≤ g.level player
unfolding can_use_shared_experience
highest_level_able g q player able = ground arith

-- Where the least level grows with the highest one, whoever can use the shared experience of a
-- party with members has at least the least level that goes with the level of the leader and with
-- that of each member.
pub can_use_shared_experience-level :
    (g : Game) (q : Party) (player : ℕ)
    → ((a b : ℕ) → a ≤ b → g.min_level a ≤ g.min_level b)
    → can_use_shared_experience g q player ≡ true
    → (g.min_level (g.level q.leader) ≤ g.level player)
      × ((i : ℕ) → contains i q.member_list ≡ true → g.min_level (g.level i) ≤ g.level player)
can_use_shared_experience-level g q player grows able =
    let (low, each, reached) = highest_level_bounds g (g.level q.leader) q.member_list in
    let enough = highest_level_able g q player able in
    (
      omega (arith, enough, grows _ _ low),
      λ i there. omega (arith, enough, grows _ _ (each i there)),
    )

-- A player without a party and without invitations.
abbrev Forgotten : ℕ → World → Type 0
Forgotten player w =
    (w.party_of player ≡ none) × ((k : ℕ) → contains k (w.invite_party_list player) ≡ false)

disband-Forgotten :
    (g : Game) (p : ℕ) (r : Party) (w : World) (player : ℕ)
    → Allows g
    → Forgotten player w
    → Forgotten player (disband g p r w)
disband-Forgotten g p r w player allows (free, nobody) = (
  disband_pointers g p r w (allows p) player ∙ ground arith,
  λ k. disband_invitations g p r w (allows p) player k ∙ ground (arith, nobody k),
)

set_party-Forgotten :
    (player : ℕ) (w : World)
    → w.invite_party_list player ≡ []
    → Forgotten player (set_party player none w)
unfolding set_party contains
set_party-Forgotten player w nobody = (ground arith, λ k. rw nobody refl)

-- The one who leaves points to no party, and has no new invitation.
leave_party-forgets :
    (g : Game) (w : World) (p : ℕ) (q : Party) (player : ℕ)
    → Allows g
    → points_to p (w.party_of player) ≡ true
    → g.event_party_on_leave p player ≡ true
    → w.invite_party_list player ≡ []
    → Forgotten player (leave_party g p q player w).1
unfolding leave_party put_party
leave_party-forgets g w p q player allows member agreed nobody =
    let known : (not (points_to p (w.party_of player)) && not (q.leader == player)) ≡ false =
      ground arith in
    let free = set_party-Forgotten player w nobody in
    let passed = succeed g p player q w in
    let r = clear_player_points g player (
      update_shared_experience g
        (record passed { member_list = erase player passed.member_list })) in
    elim (Bool-cases (missing_leader player q || empty r)) [
      | inl e ↦
          rw (known, agreed, e)
            (disband-Forgotten g p r (set_party player none w) player allows free)
      | inr e ↦ rw (known, agreed, e) free
    ]

-- The end of a log-out, from the world in which the invitations are gone.
rest-Forgotten :
    (g : Game) (player : ℕ) (w w' : World)
    → Allows g
    → ((p : ℕ) → g.event_party_on_leave p player ≡ true)
    → w.invite_party_list player ≡ []
    → (elim (w.party_of player) [
      | none ↦ some w
      | some p ↦ elim (w.parties p) [ none ↦ none | some q ↦ some (leave_party g p q player w).1 ]
    ])
      ≡ some w'
    → Forgotten player w'
unfolding contains
rest-Forgotten g player w w' allows agrees nobody done = elim (Option-cases (w.party_of player)) [
  | inl free ↦
      subst (λ u. Forgotten player u) (some-injective _ _ (rw free at done))
        (free, λ k. rw nobody refl)
  | inr (p, e) ↦ elim (Option-cases (w.parties p)) [
    | inl gone ↦ absurd (cc (rw (e, gone) at done))
    | inr (q, live) ↦
        let ends = rw (e, live) at done in
        subst (λ u. Forgotten player u) (some-injective _ _ ends)
          (leave_party-forgets g w p q player allows (ground arith) (agrees p) nobody)
  ]
]

log_out-Forgotten :
    (g : Game) (player : ℕ) (w w' : World)
    → Allows g
    → ((p : ℕ) → g.event_party_on_leave p player ≡ true)
    → IsValid w
    → log_out g player w ≡ some w'
    → Forgotten player w'
unfolding log_out clear_party_invitations
log_out-Forgotten g player w w' allows agrees v done =
    let v₀ = subst (λ u. IsValid u) (sym (with_invitations_self player w)) v in
    let (w₁, e, _) = remove_invites_lem g player (w.invite_party_list player) w allows v₀ in
    rest-Forgotten g player (with_invitations player [] w₁) w' allows agrees (ground arith)
      (rw e at done)

-- A player who logs out of a valid world, whose departure the scripts agree to and who let parties
-- be disbanded, is no pointer of any party afterwards, neither as leader nor as a member nor as an
-- invited player, and points to none.
pub log_out-forgets :
    (g : Game) (player : ℕ) (w : World)
    → Allows g
    → ((p : ℕ) → g.event_party_on_leave p player ≡ true)
    → IsValid w
    → (w' : World) × (log_out g player w ≡ some w')
      × (w'.party_of player ≡ none)
      × ((p : ℕ)
          → (in_party (w'.parties p) player ≡ false) × (invited (w'.parties p) player ≡ false))
log_out-forgets g player w allows agrees v =
    let (w', done, v') = log_out-Fine g player w allows v in
    let (free, nobody) = log_out-Forgotten g player w w' allows agrees v done in
    (
      w',
      done,
      free,
      λ p. (v'.belongs p player ∙ ap (points_to p) free, v'.invites p player ∙ nobody p),
    )
