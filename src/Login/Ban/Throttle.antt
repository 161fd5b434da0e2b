-- ===== src/Login/Ban/Throttle.antt =====
-- How many connections of one address are accepted.
use forgotten_land.Base.{
  ℕ, ◌+◌, ◌-◌, ◌^◌, ◌≤◌, ◌<◌, ◌≡◌, sym, ap, ◌∙◌, ◌≢◌, ◌↔◌, ◌⊎◌, inl, inr, Bool, true, false, List,
  [], ◌∷◌, some, length, ◌==◌, if◌then◌else◌, arith, ==_iff, Option-cases, Bool-cases,
}
use mathlib.Core.Bool.{false≢true}
use forgotten_land.Login.Ban.{ConnectBlock, IpConnectMap, find, store, attempt, accept_connection}

-- A counter never passes five.
abbrev pub IsValid : IpConnectMap → Type 0
IsValid m = (ip : ℕ) (b : ConnectBlock) → find ip m ≡ some b → b.count ≤ 5

pub find-store :
    (ip j : ℕ) (b : ConnectBlock) (m : IpConnectMap)
    → find j (store ip b m) ≡ (if ip == j then some b else find j m)
unfolding find store
find-store ip j b [] = ground arith
find-store ip j b ((i, c) ∷ m) = ground (arith, find-store ip j b m)

attempt_count : (now : ℕ) (b : ConnectBlock) → b.count ≤ 5 → (attempt now b).1.count ≤ 5
unfolding attempt
attempt_count now b h = ground arith

-- The time of an attempt fits 63 bits and does not lie before the last accepted one.
abbrev pub IsAfter : ℕ → ConnectBlock → Type 0
IsAfter now b = (b.last_attempt ≤ now) × (now < 2 ^ 63)

-- An attempt of a known address whose counter is at most five, made no earlier than its last
-- counted one, is accepted exactly if the address is not blocked and its counter is below five or
-- more than half a second has passed.
pub attempt_accepted :
    (now : ℕ) (b : ConnectBlock)
    → b.count ≤ 5
    → IsAfter now b
    → ((attempt now b).0 ≡ true)
      ↔ ((b.block_time ≤ now) × ((b.count < 5) ⊎ (500 < now - b.last_attempt)))
unfolding attempt
attempt_accepted now b h after = ground arith

-- An accepted attempt of a burst is counted.
attempt_burst :
    (now : ℕ) (b : ConnectBlock)
    → b.count ≤ 5
    → b.last_attempt ≤ now
    → now ≤ b.last_attempt + 500
    → now < 2 ^ 63
    → (attempt now b).0 ≡ true
    → ((attempt now b).1.count ≡ b.count + 1) × ((attempt now b).1.last_attempt ≡ now)
unfolding attempt
attempt_burst now b h lo hi small ok = ground arith

-- Attempts at the listed times, one after the other: were all of them accepted?
unfoldable pub all_accepted : List ℕ → ConnectBlock → Bool
all_accepted [] b = true
all_accepted (now ∷ times) b =
    let (accepted, b') = attempt now b in
    let rest = all_accepted times b' in if accepted then rest else false

-- Each time lies at most half a second after the one before.
abbrev pub IsBurst : ℕ → List ℕ → Type 0
IsBurst last [] = Unit
IsBurst last (now ∷ times) = (last ≤ now) × (now ≤ last + 500) × (now < 2 ^ 63) × IsBurst now times

-- However an address behaved before, no more connection attempts in a row, each at most half a
-- second after the one before, are accepted than are missing to five on its counter.
pub all_accepted-le :
    (times : List ℕ) (b : ConnectBlock)
    → b.count ≤ 5
    → IsBurst b.last_attempt times
    → all_accepted times b ≡ true
    → b.count + length times ≤ 5
unfolding all_accepted
all_accepted-le [] b h burst ok = omega arith
all_accepted-le (now ∷ times) b h burst ok = elim (Bool-cases (attempt now b).0) [
  | inl yes' ↦
      let (counted, moved) = attempt_burst now b h burst.0 burst.1 burst.2 yes' in
      let rest : all_accepted times (attempt now b).1 ≡ true = rw yes' at ok in
      omega (
        arith,
        all_accepted-le times (attempt now b).1 (attempt_count now b h) (rw moved burst.3) rest,
        counted,
      )
  | inr no' ↦ absurd (false≢true (rw no' at ok))
]

-- An attempt from one address leaves what is known of the others.
accept_connection_others :
    (now ip j : ℕ) (m : IpConnectMap) → ip ≢ j → find j (accept_connection now ip m).1 ≡ find j m
unfolding accept_connection
accept_connection_others now ip j m ne = elim (Option-cases (find ip m)) [
  | inl e ↦ rw (e, accept_connection) (rw (find-store ip j _ m) (ground arith))
  | inr (b, e) ↦ rw (e, accept_connection) (rw (find-store ip j _ m) (ground arith))
]

find-accept_connection :
    (now ip : ℕ) (m : IpConnectMap)
    → (b : ConnectBlock) × (find ip (accept_connection now ip m).1 ≡ some b)
      × (IsValid m → b.count ≤ 5)
unfolding accept_connection
find-accept_connection now ip m = elim (Option-cases (find ip m)) [
  | inl e ↦ (
    record { last_attempt = now; block_time = 0; count = 1 },
    rw (e, accept_connection) (rw (find-store ip ip _ m) (ground arith)),
    λ v. omega arith,
  )
  | inr (b, e) ↦ (
    (attempt now b).1,
    rw (e, accept_connection) (rw (find-store ip ip _ m) (ground arith)),
    λ v. attempt_count now b (v ip b e),
  )
]

-- Every connection attempt keeps all counters at five or below, and leaves the blocks of all other
-- addresses as they were.
pub accept_connection-IsValid :
    (now ip : ℕ) (m : IpConnectMap)
    → IsValid m
    → IsValid (accept_connection now ip m).1
      × ((j : ℕ) → ip ≢ j → find j (accept_connection now ip m).1 ≡ find j m)
accept_connection-IsValid now ip m v = (valid, λ j ne. accept_connection_others now ip j m ne)
  where
    valid : IsValid (accept_connection now ip m).1
    valid j b e = elim (Bool-cases (ip == j)) [
      | inl same ↦
          let (b', found, bound) = find-accept_connection now ip m in
          let i : ip ≡ j = (==_iff ip j).0 same in
          let f : some b' ≡ some b =
            sym found ∙ ap (λ (k : ℕ). find k (accept_connection now ip m).1) i ∙ e in
          ground (arith, bound v)
      | inr other ↦ v j b (
          sym
            (accept_connection_others now ip j m (λ i. false≢true (sym other ∙ (==_iff ip j).1 i)))
          ∙ e)
    ]
