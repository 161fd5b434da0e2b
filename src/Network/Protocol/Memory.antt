-- ===== src/Network/Protocol/Memory.antt =====
-- Memory that holds bytes only, and the stretches of it that the framing reads and writes.
use forgotten_land.Base.{
  ℕ, zero, suc, ◌+◌, ◌-◌, ◌*◌, ◌/◌, ◌%◌, ◌^◌, ◌≤◌, ◌<◌, ◌≡◌, refl, ◌∙◌, inl, inr, List, [], ◌∷◌,
  length, AreBytes, arith, Bool-cases, ◌==◌, ltb, true,
}
use forgotten_land.Base.Words.{u64}
use forgotten_land.Network.Message.{max_body_length, add_padding_bytes, can_add}
use forgotten_land.Network.Message.Bytes.{
  Buffer, update, store, load, le_bytes, replicate, store_outside, Holds,
}
use forgotten_land.Network.Output.{OutputMessage}
use forgotten_land.Network.Protocol.{pad}
use forgotten_land.Network.Xtea.Blocks.{IsBlocks}

abbrev pub IsBytes : Buffer → Type 0
IsBytes buf = (k : ℕ) → buf k < 256

pub store-IsBytes :
    (buf : Buffer) (p : ℕ) (bs : List ℕ) → IsBytes buf → AreBytes bs → IsBytes (store buf p bs)
unfolding store update
store-IsBytes buf p [] h bytes = h
store-IsBytes buf p (b ∷ bs) h bytes =
    store-IsBytes (update buf p b) (p + 1) bs (λ k. ground (arith, h k)) bytes.1

pub le_bytes-AreBytes : (n v : ℕ) → AreBytes (le_bytes n v)
unfolding le_bytes
le_bytes-AreBytes zero v = tt
le_bytes-AreBytes (suc n) v = (omega arith, le_bytes-AreBytes n (v / 256))

pub replicate-AreBytes : (n v : ℕ) → v < 256 → AreBytes (replicate n v)
unfolding replicate
replicate-AreBytes zero v h = tt
replicate-AreBytes (suc n) v h = (h, replicate-AreBytes n v h)

-- Blocks as many as `q`, counted so that a load unfolds block by block.
eight_times : ℕ → ℕ
eight_times zero = 0
eight_times (suc q) = suc (suc (suc (suc (suc (suc (suc (suc (eight_times q))))))))

eight_times_lem : (q : ℕ) → eight_times q ≡ 8 * q
unfolding eight_times
eight_times_lem zero = refl
eight_times_lem (suc q) = omega (arith, eight_times_lem q)

load-IsBlocks_eight : (buf : Buffer) (p q : ℕ) → IsBytes buf → IsBlocks (load buf p (eight_times q))
unfolding load eight_times
load-IsBlocks_eight buf p zero h = tt
load-IsBlocks_eight buf p (suc q) h = (
  (h _, h _, h _, h _),
  (h _, h _, h _, h _),
  load-IsBlocks_eight buf (p + 1 + 1 + 1 + 1 + 1 + 1 + 1 + 1) q h,
)

pub load-IsBlocks : (buf : Buffer) (p q : ℕ) → IsBytes buf → IsBlocks (load buf p (8 * q))
load-IsBlocks buf p q h = rw (← eight_times_lem q) (load-IsBlocks_eight buf p q h)

-- A stretch that is copied out and in again.
pub store-load :
    (src buf : Buffer) (p n k : ℕ) → p ≤ k → k < p + n → store buf p (load src p n) k ≡ src k
unfolding store load
store-load src buf p zero k lo hi = absurd (omega arith)
store-load src buf p (suc n) k lo hi = elim (Bool-cases (k == p)) [
  | inl e ↦
      let e' : k ≡ p = ground arith in
      rw e' (
        store_outside (update buf p (src p)) (p + 1) (load src (p + 1) n) p (inl (omega arith))
        ∙ unfold update in ground arith)
  | inr e ↦ store-load src (update buf p (src p)) (p + 1) n k (ground arith) (omega arith)
]

-- Memory that agrees on a stretch holds the same bytes there.
pub Holds-ext :
    (buf buf' : Buffer) (p : ℕ) (bs : List ℕ)
    → ((k : ℕ) → p ≤ k → k < p + length bs → buf' k ≡ buf k)
    → Holds buf p bs
    → Holds buf' p bs
Holds-ext buf buf' p [] same h = tt
Holds-ext buf buf' p (b ∷ bs) same h = (
  same p (omega arith) (omega arith) ∙ h.0,
  Holds-ext buf buf' (p + 1) bs (λ k lo hi. same k (omega arith) (omega arith)) h.1,
)

pub Holds-load : (buf : Buffer) (p n : ℕ) → Holds buf p (load buf p n)
unfolding load
Holds-load buf p zero = tt
Holds-load buf p (suc n) = (refl, Holds-load buf (p + 1) n)

-- What padding does: the length grows to a multiple of 8, nothing before the position changes.
pub record IsPadded (o o' : OutputMessage) : Type 0 where
  pub start : o'.output_buffer_start ≡ o.output_buffer_start
  pub length : o'.msg.length ≡ 8 * ((o.msg.length + 7) / 8)
  pub bytes : IsBytes o.msg.buffer → IsBytes o'.msg.buffer
  pub before : (k : ℕ) → k < o.msg.position → o'.msg.buffer k ≡ o.msg.buffer k

pub pad-IsPadded :
    (o : OutputMessage)
    → o.msg.position + 8 < max_body_length
    → o.msg.length + 8 < 2 ^ 16
    → IsPadded o (pad o)
unfolding pad add_padding_bytes can_add
pad-IsPadded o room small = elim (Bool-cases (o.msg.length % 8 == 0)) [
  | inl e ↦
      rw e (record { start = refl; length = ground arith; bytes = λ h. h; before = λ k h. refl })
  | inr e ↦
      let n = 8 - o.msg.length % 8 in
      let fits : ltb (u64 (n + o.msg.position)) max_body_length ≡ true = ground arith in
      rw (e, fits)
        (record {
          start = refl;
          length = ground arith;
          bytes = λ h.
              store-IsBytes o.msg.buffer o.msg.position (replicate n 0x33) h
                (replicate-AreBytes n 0x33 (omega arith));
          before = λ k h. store_outside o.msg.buffer o.msg.position (replicate n 0x33) k (inl h);
        })
]
