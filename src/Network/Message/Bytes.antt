-- ===== src/Network/Message/Bytes.antt =====
-- Raw memory of a message: copying bytes in and out (`memcpy`), and words as little-endian bytes.
use forgotten_land.Base.{
  ℕ, zero, suc, ◌+◌, ◌*◌, ◌/◌, ◌%◌, ◌^◌, ◌≤◌, ◌<◌, ◌≡◌, refl, ap, ◌∙◌, ◌⊎◌, inl, List, [], ◌∷◌,
  ◌++◌, ◌==◌, if◌then◌else◌, length, arith,
}
use native.Mathlib.Nat.{pow-suc}

abbrev pub Buffer : Type 0
Buffer = ℕ → ℕ

unfoldable pub update : Buffer → ℕ → ℕ → Buffer
update buf i v k = if k == i then v else buf k

-- `memcpy(buf + p, bytes, length bytes)`
unfoldable pub store : Buffer → ℕ → List ℕ → Buffer
unfolding update
store buf p [] = buf
store buf p (b ∷ bs) = store (update buf p b) (p + 1) bs

-- `memcpy(out, buf + p, n)`
unfoldable pub load : Buffer → ℕ → ℕ → List ℕ
load buf p zero = []
load buf p (suc n) = buf p ∷ load buf (p + 1) n

-- The lowest `n` bytes of a value, the lowest first.
unfoldable pub le_bytes : ℕ → ℕ → List ℕ
le_bytes zero v = []
le_bytes (suc n) v = v % 256 ∷ le_bytes n (v / 256)

unfoldable pub from_le : List ℕ → ℕ
from_le [] = 0
from_le (b ∷ bs) = b + 256 * from_le bs

unfoldable pub replicate : ℕ → ℕ → List ℕ
replicate zero v = []
replicate (suc n) v = v ∷ replicate n v

pub length-le_bytes : (n v : ℕ) → length (le_bytes n v) ≡ n
unfolding le_bytes
length-le_bytes zero v = refl
length-le_bytes (suc n) v = ap suc (length-le_bytes n (v / 256))

pub length-replicate : (n v : ℕ) → length (replicate n v) ≡ n
unfolding replicate
length-replicate zero v = refl
length-replicate (suc n) v = ap suc (length-replicate n v)

pub length-load : (buf : Buffer) (p n : ℕ) → length (load buf p n) ≡ n
unfolding load
length-load buf p zero = refl
length-load buf p (suc n) = ap suc (length-load buf (p + 1) n)

-- A word that fits its bytes comes back.
pub from_le-le_bytes : (n v : ℕ) → v < 256 ^ n → from_le (le_bytes n v) ≡ v
unfolding from_le le_bytes
from_le-le_bytes zero v h = omega arith
from_le-le_bytes (suc n) v h =
    let e : 256 ^ suc n ≡ 256 * 256 ^ n = omega (arith, pow-suc 256 n) in
    omega (arith, from_le-le_bytes n (v / 256) (omega arith))

-- A copy changes nothing before it and nothing behind it.
pub store_outside :
    (buf : Buffer) (p : ℕ) (bs : List ℕ) (k : ℕ)
    → (k < p) ⊎ (p + length bs ≤ k)
    → store buf p bs k ≡ buf k
unfolding store
store_outside buf p [] k h = refl
store_outside buf p (b ∷ bs) k h =
    store_outside (update buf p b) (p + 1) bs k (omega arith) ∙ ground arith

pub load_ext :
    (buf buf' : Buffer) (p n : ℕ)
    → ((k : ℕ) → p ≤ k → k < p + n → buf k ≡ buf' k)
    → load buf p n ≡ load buf' p n
unfolding load
load_ext buf buf' p zero h = refl
load_ext buf buf' p (suc n) h =
    let rest = load_ext buf buf' (p + 1) n (λ k a b. h k (omega arith) (omega arith)) in
    cc (h p (omega arith) (omega arith), rest)

-- What was copied in is read back.
pub load-store : (buf : Buffer) (p : ℕ) (bs : List ℕ) → load (store buf p bs) p (length bs) ≡ bs
unfolding store load
load-store buf p [] = refl
load-store buf p (b ∷ bs) =
    let first : store (update buf p b) (p + 1) bs p ≡ b =
      store_outside (update buf p b) (p + 1) bs p (inl (omega arith)) ∙ ground arith in
    cc (first, load-store (update buf p b) (p + 1) bs)

-- Two copies in a row are one.
pub store-append :
    (buf : Buffer) (p : ℕ) (xs ys : List ℕ)
    → store (store buf p xs) (p + length xs) ys ≡ store buf p (xs ++ ys)
unfolding store
store-append buf p [] ys = let e : p + 0 ≡ p = omega arith in rw e
store-append buf p (x ∷ xs) ys =
    let e : p + suc (length xs) ≡ p + 1 + length xs = omega arith in
    rw e (store-append (update buf p x) (p + 1) xs ys)

-- A read of two stretches is the read of both.
pub load-append :
    (buf : Buffer) (p n m : ℕ) → load buf p (n + m) ≡ load buf p n ++ load buf (p + n) m
unfolding load
load-append buf p zero m =
    let e : p + 0 ≡ p = omega arith in let d : 0 + m ≡ m = omega arith in rw (e, d)
load-append buf p (suc n) m =
    let d : suc n + m ≡ suc (n + m) = omega arith in
    let e : p + suc n ≡ p + 1 + n = omega arith in
    rw (d, e) (ap (λ (t : List ℕ). buf p ∷ t) (load-append buf (p + 1) n m))

-- The bytes stand in the buffer from `p` on.
abbrev pub Holds : Buffer → ℕ → List ℕ → Type 0
Holds buf p [] = Unit
Holds buf p (b ∷ bs) = (buf p ≡ b) × Holds buf (p + 1) bs

pub load-Holds : (buf : Buffer) (p : ℕ) (bs : List ℕ) → Holds buf p bs → load buf p (length bs) ≡ bs
unfolding load
load-Holds buf p [] h = refl
load-Holds buf p (b ∷ bs) h = cc (h.0, load-Holds buf (p + 1) bs h.1)

pub store-Holds : (buf : Buffer) (p : ℕ) (bs : List ℕ) → Holds (store buf p bs) p bs
unfolding store
store-Holds buf p [] = tt
store-Holds buf p (b ∷ bs) = (
  store_outside (update buf p b) (p + 1) bs p (inl (omega arith)) ∙ ground arith,
  store-Holds (update buf p b) (p + 1) bs,
)

pub Holds-append :
    (buf : Buffer) (p : ℕ) (xs ys : List ℕ)
    → Holds buf p (xs ++ ys)
    → Holds buf p xs × Holds buf (p + length xs) ys
Holds-append buf p [] ys h = let e : p + 0 ≡ p = omega arith in (tt, rw e h)
Holds-append buf p (x ∷ xs) ys h =
    let e : p + suc (length xs) ≡ p + 1 + length xs = omega arith in
    let rest = Holds-append buf (p + 1) xs ys h.1 in ((h.0, rest.0), rw e rest.1)
