-- ===== src/Advancing/Requirements.antt =====
-- What the caches of src/creatures/players/vocations/vocation.cpp answer.
use forgotten_land.Base.{
  ℕ, ◌≡◌, ◌≤◌, ◌<◌, refl, sym, ap, ◌∙◌, inl, inr, false, ◌||◌, List, [], ◌∷◌, none, some, leb, ltb,
  ◌==◌, if◌then◌else◌, Bool-cases, Option-cases, arith, ==_iff,
}
use mathlib.Core.Path.{subst}
use mathlib.Core.Option.{some-injective}
use forgotten_land.Base.Words.{u32}
use forgotten_land.Advancing.Vocation.{
  Formulas, Cache, find_level, skill_last, get_req_skill_tries, get_req_mana,
}
use forgotten_land.Advancing.Totals.{Answers}

-- A cache that agrees with some values.
abbrev pub Agrees : (ℕ → ℕ) → Cache → Type 0
Agrees value c = (l v : ℕ) → find_level l c ≡ some v → v ≡ value l

abbrev pub mana_value : Formulas → ℕ → ℕ
mana_value f level = if level == 0 then 0 else f.mana level

find_level-here : (l v : ℕ) (c : Cache) → find_level l ((l, v) ∷ c) ≡ some v
unfolding find_level
find_level-here l v c = ground arith

Agrees-cons :
    (value : ℕ → ℕ) (k v : ℕ) (c : Cache) → v ≡ value k → Agrees value c → Agrees value ((k, v) ∷ c)
unfolding find_level
Agrees-cons value k v c e h l w found = elim (Bool-cases (k == l)) [
  | inl here ↦ some-injective w v (sym (rw here at found)) ∙ e ∙ ap value ((==_iff k l).0 here)
  | inr there ↦ h l w (rw there at found)
]

get_req_mana-answer :
    (f : Formulas) (l : ℕ) (c : Cache)
    → Agrees (mana_value f) c
    → ((get_req_mana f l c).0 ≡ mana_value f l) × Agrees (mana_value f) (get_req_mana f l c).1
unfolding get_req_mana
get_req_mana-answer f l c h = elim (Bool-cases (l == 0)) [
  | inl start ↦ rw (get_req_mana, start) (refl, h)
  | inr later ↦
      let here : f.mana l ≡ mana_value f l = rw later refl in
      elim (Option-cases (find_level l c)) [
        | inl new ↦
            rw (get_req_mana, later, new) (refl, Agrees-cons (mana_value f) l (f.mana l) c here h)
        | inr (v, old) ↦ rw (get_req_mana, later, old) (h l v old ∙ sym here, h)
      ]
]

pub get_req_mana-Answers :
    (f : Formulas) → Answers (get_req_mana f) (Agrees (mana_value f)) (mana_value f)
get_req_mana-Answers f = record {
  answer = λ l c h. (get_req_mana-answer f l c h).0;
  stays = λ l c h. (get_req_mana-answer f l c h).1;
}

-- The cache after the vocation was asked for the tries of some levels.
unfoldable pub asked : Formulas → ℕ → List ℕ → Cache → Cache
asked f skill [] c = c
asked f skill (l ∷ ls) c = asked f skill ls (get_req_skill_tries f skill l c).1

-- A value that is in the cache stays.
find_level-get_req_skill_tries :
    (f : Formulas) (skill k l v : ℕ) (c : Cache)
    → find_level l c ≡ some v
    → find_level l (get_req_skill_tries f skill k c).1 ≡ some v
unfolding get_req_skill_tries
find_level-get_req_skill_tries f skill k l v c e =
    elim (Bool-cases (ltb skill_last skill || leb k 10)) [
      | inl none_needed ↦ rw (get_req_skill_tries, none_needed) e
      | inr some_needed ↦ elim (Option-cases (find_level k c)) [
        | inl new ↦
            rw (get_req_skill_tries, some_needed, new)
              (elim (Bool-cases (k == l)) [
                | inl here ↦
                    absurd (cc (subst (λ j. find_level j c ≡ none) ((==_iff k l).0 here) new))
                | inr there ↦ unfold find_level in rw there e
              ])
        | inr (w, old) ↦ rw (get_req_skill_tries, some_needed, old) e
      ]
    ]

find_level-asked :
    (f : Formulas) (skill l v : ℕ) (ls : List ℕ) (c : Cache)
    → find_level l c ≡ some v
    → find_level l (asked f skill ls c) ≡ some v
unfolding asked
find_level-asked f skill l v [] c e = e
find_level-asked f skill l v (k ∷ ls) c e =
    find_level-asked f skill l v ls _ (find_level-get_req_skill_tries f skill k l v c e)

-- The tries that a vocation requires of a skill for a level above 10 that it was not asked for yet are
-- those of the formula; from then on, whatever else it is asked for, they are the low 32 bits of it.
pub get_req_skill_tries-asked :
    (f : Formulas) (skill level : ℕ) (ls : List ℕ) (c : Cache)
    → skill ≤ skill_last
    → 10 < level
    → find_level level c ≡ none
    → let (first, c') = get_req_skill_tries f skill level c in
      (first ≡ f.tries skill level)
      × ((get_req_skill_tries f skill level (asked f skill ls c')).0 ≡ u32 (f.tries skill level))
unfolding get_req_skill_tries
get_req_skill_tries-asked f skill level ls c known high new =
    let needed : (ltb skill_last skill || leb level 10) ≡ false = ground arith in
    let there =
      find_level-asked f skill level (u32 (f.tries skill level)) ls
        ((level, u32 (f.tries skill level)) ∷ c)
        (find_level-here level (u32 (f.tries skill level)) c) in
    rw (get_req_skill_tries, needed, new) (refl, rw there refl)
