-- ===== src/Grouping/Preserved.antt =====
-- Joining, inviting and withdrawing invitations keep the parties and the pointers in step.
pub mod Joining
pub mod Inviting
pub mod Withdrawing
pub mod Succession
pub mod Leaving
use forgotten_land.Base.{
  ℕ, suc, ◌+◌, ◌≤◌, ◌<◌, ◌≡◌, refl, sym, ap, ◌∙◌, ◌⊎◌, inl, inr, Bool, true, false, not, List, [],
  ◌∷◌, ◌++◌, Option, none, some, ◌==◌, ◌&&◌, ◌||◌, if◌then◌else◌, arith, Bool-cases, ==_iff,
}
use mathlib.Core.Path.{subst}
use mathlib.Core.Option.{some-injective}
use forgotten_land.Base.Ids.{
  contains, erase, remove_all, update, occurrences, occurrences-append, occurrences-contains,
  contains-append, contains-erase, contains-remove_all, occurrences-erase,
}
use forgotten_land.Grouping.State.{
  Party, World, Game, new_party, empty, is_nil, points_to, put_party, set_party,
  add_party_invitation, remove_party_invitation,
}
use forgotten_land.Grouping.Experience.{
  update_shared_experience, set_shared_experience, clear_player_points,
}
use forgotten_land.Grouping.Party.{join_party, remove_invite, invite_player, disband}
use forgotten_land.Grouping.Invariant.{
  in_party, invited, IsGood, IsValid, replace_lem, points_to-other,
}
use forgotten_land.Grouping.Disband.{disband-IsValid}

-- Parties with the same people.
abbrev pub Same : Party → Party → Type 0
Same q q' =
    (q'.leader ≡ q.leader) × (q'.member_list ≡ q.member_list) × (q'.invite_list ≡ q.invite_list)

pub update_shared_experience-Same : (g : Game) (q : Party) → Same q (update_shared_experience g q)
unfolding update_shared_experience
update_shared_experience-Same g q = (ground arith, ground arith, ground arith)

pub clear_player_points-Same :
    (g : Game) (player : ℕ) (q : Party) → Same q (clear_player_points g player q)
unfolding clear_player_points update_shared_experience
clear_player_points-Same g player q = (ground arith, ground arith, ground arith)

pub set_shared_experience-Same :
    (g : Game) (player : ℕ) (active : Bool) (q : Party)
    → Same q (set_shared_experience g player active q).1
unfolding set_shared_experience
set_shared_experience-Same g player active q = (ground arith, ground arith, ground arith)

pub Same-IsGood : (q q' : Party) → Same q q' → IsGood q → IsGood q'
unfolding empty
Same-IsGood q q' s h = record {
  once = λ i. ground (arith, ap (occurrences i) s.1, h.once i, s.0);
  once_invited = λ i. ground (arith, ap (occurrences i) s.2, h.once_invited i);
  company = rw (s.1, s.2) h.company;
}

is_nil-append : (xs : List ℕ) (x : ℕ) → is_nil (xs ++ x ∷ []) ≡ false
is_nil-append [] x = refl
is_nil-append (y ∷ xs) x = refl

pub below_next :
    (w : World) (p : ℕ) (q : Party) → IsValid w → w.parties p ≡ some q → p < w.next_party
below_next w p q v live = ground (arith, v.fresh p)

-- What the invariant says of a party that lives.
pub member_iff :
    (w : World) (p : ℕ) (q : Party) (i : ℕ)
    → IsValid w
    → w.parties p ≡ some q
    → in_party (some q) i ≡ points_to p (w.party_of i)
member_iff w p q i v live = sym (ap (λ o. in_party o i) live) ∙ v.belongs p i

pub invited_iff :
    (w : World) (p : ℕ) (q : Party) (i : ℕ)
    → IsValid w
    → w.parties p ≡ some q
    → contains i q.invite_list ≡ contains p (w.invite_party_list i)
invited_iff w p q i v live = sym (ap (λ o. invited o i) live) ∙ v.invites p i

-- A party of which only the experience was changed.
pub put-Same-IsValid :
    (w : World) (p : ℕ) (q q' : Party)
    → IsValid w
    → w.parties p ≡ some q
    → Same q q'
    → IsValid (put_party p (some q') w)
unfolding put_party
put-Same-IsValid w p q q' v live s =
    replace_lem w (put_party p (some q') w) p (some q') v (λ k. refl) (omega arith)
      (below_next w p q v live) (λ i. rw (s.0, s.1) (member_iff w p q i v live)) (λ i k ne. refl)
      (λ i. rw s.2 (invited_iff w p q i v live)) (λ i k ne. refl) v.once_inviting
      (λ r e. subst (λ r'. IsGood r') (some-injective _ _ e) (Same-IsGood q q' s (v.good p q live)))
