-- ===== src/Login/Ban.antt =====
-- `Ban::acceptConnection` of src/creatures/players/management/ban.{h,cpp}. The map from addresses
-- is an association list; `now` is `OTSYS_TIME()`, in milliseconds.
pub mod Throttle
use forgotten_land.Base.{
  ℕ, ◌+◌, ◌-◌, ◌^◌, Bool, true, false, ◌||◌, List, [], ◌∷◌, Option, none, some, ltb, leb, ◌==◌,
  if◌then◌else◌,
}
use forgotten_land.Base.Words.{u32, u64}

pub record ConnectBlock : Type 0 where
  pub last_attempt : ℕ
  pub block_time : ℕ
  pub count : ℕ

abbrev pub IpConnectMap : Type 0
IpConnectMap = List (ℕ × ConnectBlock)

unfoldable pub find : ℕ → IpConnectMap → Option ConnectBlock
find ip [] = none
find ip ((j, b) ∷ m) = if ip == j then some b else find ip m

-- Writes the block of an address that is there, or adds it.
unfoldable pub store : ℕ → ConnectBlock → IpConnectMap → IpConnectMap
store ip b [] = (ip, b) ∷ []
store ip b ((j, c) ∷ m) = if ip == j then (ip, b) ∷ m else (j, c) ∷ store ip b m

-- `int64_t timeDiff = currentTime - connectBlock.lastAttempt`, as its 64 bits.
abbrev pub time_diff : ℕ → ConnectBlock → ℕ
time_diff now b = u64 (now + (2 ^ 64 - b.last_attempt))

-- A comparison of those bits, read with their sign, to a number that is not negative.
abbrev pub signed_leb : ℕ → ℕ → Bool
signed_leb d n = leb d n || leb (2 ^ 63) d

-- An attempt from an address that has a block.
unfoldable pub attempt : ℕ → ConnectBlock → Bool × ConnectBlock
attempt now b =
    let diff = time_diff now b in
    let count = u32 (b.count + 1) in
    if ltb now b.block_time
    then (false, record b { block_time = u64 (b.block_time + 250) })
    else if signed_leb diff 5000
    then (if ltb 5 count
        then (if signed_leb diff 500
            then (false, record { last_attempt = now; count = 0; block_time = u64 (now + 3000) })
            else (true, record b { last_attempt = now; count = 0 }))
        else (true, record b { last_attempt = now; count = count }))
    else (true, record b { last_attempt = now; count = 1 })

unfoldable pub accept_connection : ℕ → ℕ → IpConnectMap → Bool × IpConnectMap
accept_connection now ip m = elim (find ip m) [
  | none ↦ (true, store ip (record { last_attempt = now; block_time = 0; count = 1 }) m)
  | some b ↦ let (accepted, b') = attempt now b in (accepted, store ip b' m)
]
