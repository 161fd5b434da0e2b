-- ===== src/Network/Adler/Reference.antt =====
-- The checksum against its definition (RFC 1950): sums over unbounded numbers, reduced once at the
-- end. No 32-bit sum of the code overflows, which is why a chunk has 5552 bytes.
use Prim.Native.Nat.{bit_or}
use forgotten_land.Base.{
  ℕ, zero, suc, ◌+◌, ◌*◌, ◌%◌, ◌^◌, ◌≤◌, ◌<◌, ◌≡◌, refl, sym, ap, ◌∙◌, List, [], ◌∷◌, ◌++◌, ltb,
  ◌==◌, if◌then◌else◌, length, length-append, AreBytes, arith, false,
}
use mathlib.Core.Path.{subst}
use forgotten_land.Base.Words.{u32, add32}
use forgotten_land.Base.Bits.{bit_or-shift, bit_or_comm}
use forgotten_land.Network.Message.{max_size}
use forgotten_land.Network.Adler.{adler, Sums, sum_chunk, sum_all, adler_checksum}

-- The start and the bytes.
unfoldable pub sum_a : ℕ → List ℕ → ℕ
sum_a a [] = a
sum_a a (x ∷ xs) = sum_a (a + x) xs

-- All the values that the first sum takes.
unfoldable pub sum_b : ℕ → ℕ → List ℕ → ℕ
sum_b a b [] = b
sum_b a b (x ∷ xs) = sum_b (a + x) (b + (a + x)) xs

-- `n` more bytes overflow neither sum.
abbrev HasRoom : ℕ → ℕ → ℕ → Type 0
HasRoom n a b = (a + 255 * n < 2 ^ 32) × (2 * b + 2 * (n * a) + 255 * (n * (n + 1)) < 2 ^ 33)

HasRoom-step : (n a b x : ℕ) → x < 256 → HasRoom (suc n) a b → HasRoom n (a + x) (b + (a + x))
HasRoom-step n a b x h room =
    let p : n * x ≤ n * 255 = grind arith in (omega arith, omega (arith, p))

sum_chunk_lem :
    (a b : ℕ) (xs ys : List ℕ)
    → AreBytes xs
    → HasRoom (length xs) a b
    → sum_chunk (length xs) a b (xs ++ ys) ≡ record { a = sum_a a xs; b = sum_b a b xs; rest = ys }
unfolding sum_chunk add32 sum_a sum_b
sum_chunk_lem a b [] ys h room = refl
sum_chunk_lem a b (x ∷ xs) ys h room =
    let next = HasRoom-step (length xs) a b x h.0 room in
    let e : u32 (a + x) ≡ a + x = omega arith in
    let d : u32 (b + (a + x)) ≡ b + (a + x) = omega (arith, next) in
    rw (e, d) (sum_chunk_lem (a + x) (b + (a + x)) xs ys h.1 next)

-- Reduced sums have room for a whole chunk, and for no longer one.
chunk_HasRoom : (n a b : ℕ) → n ≤ 5552 → a < adler → b < adler → HasRoom n a b
chunk_HasRoom n a b h ha hb =
    let p : n * a ≤ 5552 * 65520 = grind arith in
    let q : n * (n + 1) ≤ 5552 * 5553 = grind arith in (omega arith, omega (arith, p, q))

sum_a-append : (a : ℕ) (xs ys : List ℕ) → sum_a a (xs ++ ys) ≡ sum_a (sum_a a xs) ys
unfolding sum_a
sum_a-append a [] ys = refl
sum_a-append a (x ∷ xs) ys = sum_a-append (a + x) xs ys

sum_b-append :
    (a b : ℕ) (xs ys : List ℕ) → sum_b a b (xs ++ ys) ≡ sum_b (sum_a a xs) (sum_b a b xs) ys
unfolding sum_a sum_b
sum_b-append a b [] ys = refl
sum_b-append a b (x ∷ xs) ys = sum_b-append (a + x) (b + (a + x)) xs ys

-- The sums depend on their starts by remainder only.
sum_a-mod :
    (a a' : ℕ) (xs : List ℕ) → a % adler ≡ a' % adler → sum_a a xs % adler ≡ sum_a a' xs % adler
unfolding sum_a
sum_a-mod a a' [] e = e
sum_a-mod a a' (x ∷ xs) e = sum_a-mod (a + x) (a' + x) xs (omega arith)

sum_b-mod :
    (a a' b b' : ℕ) (xs : List ℕ)
    → a % adler ≡ a' % adler
    → b % adler ≡ b' % adler
    → sum_b a b xs % adler ≡ sum_b a' b' xs % adler
unfolding sum_b
sum_b-mod a a' b b' [] e d = d
sum_b-mod a a' b b' (x ∷ xs) e d =
    sum_b-mod (a + x) (a' + x) (b + (a + x)) (b' + (a' + x)) xs (omega arith) (omega arith)

split_at :
    (n : ℕ) (bytes : List ℕ)
    → n ≤ length bytes
    → (xs : List ℕ) × (ys : List ℕ) × (bytes ≡ xs ++ ys) × (length xs ≡ n)
split_at zero bytes h = ([], bytes, refl, refl)
split_at (suc n) [] h = absurd (omega arith)
split_at (suc n) (x ∷ bytes) h =
    let (xs, ys, e, l) = split_at n bytes (omega arith) in
    (x ∷ xs, ys, ap (λ (t : List ℕ). x ∷ t) e, omega (arith, l))

AreBytes-append : (xs ys : List ℕ) → AreBytes (xs ++ ys) → AreBytes xs × AreBytes ys
AreBytes-append [] ys h = (tt, h)
AreBytes-append (x ∷ xs) ys h = let r = AreBytes-append xs ys h.1 in ((h.0, r.0), r.1)

-- With fuel for the bytes, the loop computes both sums by remainder.
abbrev Computes : ℕ → ℕ → List ℕ → Sums → Type 0
Computes a b bytes s = (s.a ≡ sum_a a bytes % adler) × (s.b ≡ sum_b a b bytes % adler)

sum_all_step :
    (fuel a b : ℕ) (xs ys : List ℕ)
    → AreBytes xs
    → HasRoom (length xs) a b
    → (if ltb 5552 (length (xs ++ ys)) then 5552 else length (xs ++ ys)) ≡ length xs
    → 0 < length xs
    → sum_all (suc fuel) a b (xs ++ ys)
      ≡ sum_all fuel (sum_a a xs % adler) (sum_b a b xs % adler) ys
unfolding sum_all
sum_all_step fuel a b xs ys h room chunk pos =
    let more : (length (xs ++ ys) == 0) ≡ false = ground (arith, length-append xs ys) in
    rw (more, chunk, sum_chunk_lem a b xs ys h room)

sum_all_lem :
    (fuel a b : ℕ) (bytes : List ℕ)
    → length bytes ≤ fuel
    → a < adler
    → b < adler
    → AreBytes bytes
    → Computes a b bytes (sum_all fuel a b bytes)
sum_all_lem zero a b [] h ha hb bs = unfold sum_all sum_a sum_b in omega arith
sum_all_lem zero a b (x ∷ bytes) h ha hb bs = absurd (omega arith)
sum_all_lem (suc fuel) a b [] h ha hb bs = unfold sum_all sum_a sum_b in omega arith
sum_all_lem (suc fuel) a b (x ∷ bytes) h ha hb bs =
    let all = x ∷ bytes in
    let tmp = if ltb 5552 (length all) then 5552 else length all in
    let bound : (tmp ≤ length all) × (tmp ≤ 5552) × (0 < tmp) = ground arith in
    let (xs, ys, e, l) = split_at tmp all bound.0 in
    let parts = AreBytes-append xs ys (subst (λ t. AreBytes t) e bs) in
    let room = chunk_HasRoom (length xs) a b (omega (arith, l)) ha hb in
    let a' = sum_a a xs in
    let b' = sum_b a b xs in
    let chunk : (if ltb 5552 (length (xs ++ ys)) then 5552 else length (xs ++ ys)) ≡ length xs =
      rw (← e) (sym l) in
    let rest =
      sum_all_lem fuel (a' % adler) (b' % adler) ys
        (omega (arith, ap length e, length-append xs ys, l)) (omega arith) (omega arith) parts.1 in
    rw
      (
        e,
        sum_all_step fuel a b xs ys parts.0 room chunk (omega (arith, l)),
        sum_a-append a xs ys,
        sum_b-append a b xs ys,
      )
      (
        rest.0 ∙ sum_a-mod (a' % adler) a' ys (omega arith),
        rest.1 ∙ sum_b-mod (a' % adler) a' (b' % adler) b' ys (omega arith) (omega arith),
      )

-- Of at most 24590 bytes the checksum is the sum of all partial sums, by remainder modulo 65521,
-- in the high 16 bits, and one more than the sum of the bytes, by remainder, in the low 16 bits;
-- of more bytes it is 0.
pub adler_checksum_lem :
    (bytes : List ℕ)
    → AreBytes bytes
    → adler_checksum bytes ≡ (
        if ltb max_size (length bytes)
        then 0
        else sum_b 1 0 bytes % adler * 2 ^ 16 + sum_a 1 bytes % adler)
unfolding adler_checksum
adler_checksum_lem bytes h =
    let s = sum_all (length bytes) 1 0 bytes in
    let sums : Computes 1 0 bytes s =
      sum_all_lem (length bytes) 1 0 bytes (omega arith) (omega arith) (omega arith) h in
    let e : u32 (s.b * 2 ^ 16) ≡ s.b * 2 ^ 16 = omega (arith, sums.1) in
    let or : bit_or (u32 (s.b * 2 ^ 16)) s.a ≡ s.b * 2 ^ 16 + s.a = rw e (
      bit_or_comm (s.b * 2 ^ 16) s.a
      ∙ bit_or-shift 16 s.a s.b (omega (arith, sums.0))
      ∙ omega arith) in
    rw (or, sums.0, sums.1)
