-- ===== src/Base/Ids.antt =====
-- Lists of identifiers and of pointers, as the program searches and erases in them (`std::find`,
-- `vector::erase`, `unordered_set`), and functions from them that are changed at one place.
use forgotten_land.Base.Tests.{◌==◌, if◌then◌else◌}
use Prim.Native.Nat.{ℕ, suc, ◌+◌, ◌≤◌}
use mathlib.Core.Path.{◌≡◌, refl}
use mathlib.Core.Bool.{Bool, true, false, ◌||◌}
use mathlib.Core.List.{List, [], ◌∷◌, ◌++◌}
use native.Mathlib.Omega.{arith}

-- `find` of an identifier, and `erase` of its first occurrence.
unfoldable pub contains : ℕ → List ℕ → Bool
contains id [] = false
contains id (j ∷ ids) = j == id || contains id ids

unfoldable pub insert : ℕ → List ℕ → List ℕ
unfolding contains
insert id ids = if contains id ids then ids else id ∷ ids

unfoldable pub erase : ℕ → List ℕ → List ℕ
erase id [] = []
erase id (j ∷ ids) = if j == id then ids else j ∷ erase id ids

-- `list::remove`: all occurrences.
unfoldable pub remove_all : ℕ → List ℕ → List ℕ
remove_all id [] = []
remove_all id (j ∷ ids) = let rest = remove_all id ids in if j == id then rest else j ∷ rest

abbrev pub update {ℓ} : {A : Type ℓ} → (ℕ → A) → ℕ → A → ℕ → A
update f k v j = if k == j then v else f j

-- How often an identifier stands in a list.
unfoldable pub occurrences : ℕ → List ℕ → ℕ
occurrences id [] = 0
occurrences id (j ∷ ids) = let rest = occurrences id ids in if j == id then suc rest else rest

pub occurrences-contains :
    (id : ℕ) (ids : List ℕ) → contains id ids ≡ false → occurrences id ids ≡ 0
unfolding contains occurrences
occurrences-contains id [] h = refl
occurrences-contains id (j ∷ ids) h = ground (arith, occurrences-contains id ids)

pub contains-occurrences : (id : ℕ) (ids : List ℕ) → contains id ids ≡ true → 1 ≤ occurrences id ids
unfolding contains occurrences
contains-occurrences id [] h = ground arith
contains-occurrences id (j ∷ ids) h = ground (arith, contains-occurrences id ids)

-- What an erased identifier stood for is gone from the list.
pub occurrences-erase_found :
    (id j : ℕ) (ids : List ℕ)
    → contains j ids ≡ true
    → (if j == id then 1 else 0) + occurrences id (erase j ids) ≤ occurrences id ids
unfolding contains occurrences erase
occurrences-erase_found id j [] h = ground arith
occurrences-erase_found id j (k ∷ ids) h = ground (arith, occurrences-erase_found id j ids)

pub occurrences-erase :
    (id j : ℕ) (ids : List ℕ) → occurrences id (erase j ids) ≤ occurrences id ids
unfolding occurrences erase
occurrences-erase id j [] = omega arith
occurrences-erase id j (k ∷ ids) = ground (arith, occurrences-erase id j ids)

pub occurrences-insert :
    (id j : ℕ) (ids : List ℕ)
    → occurrences id (insert j ids) ≤ (if j == id then 1 else 0) + occurrences id ids
unfolding occurrences insert
occurrences-insert id j ids = ground arith

pub occurrences-insert_once :
    (id j : ℕ) (ids : List ℕ) → occurrences id ids ≤ 1 → occurrences id (insert j ids) ≤ 1
unfolding occurrences insert
occurrences-insert_once id j ids h = ground (arith, occurrences-contains id ids)

pub occurrences-append :
    (id : ℕ) (xs ys : List ℕ) → occurrences id (xs ++ ys) ≡ occurrences id xs + occurrences id ys
unfolding occurrences
occurrences-append id [] ys = omega arith
occurrences-append id (x ∷ xs) ys = ground (arith, occurrences-append id xs ys)

pub contains-append :
    (id : ℕ) (xs ys : List ℕ) → contains id (xs ++ ys) ≡ (contains id xs || contains id ys)
unfolding contains
contains-append id [] ys = refl
contains-append id (x ∷ xs) ys = ground (arith, contains-append id xs ys)

-- An identifier that stands in a list once is gone after the erasure; all others are left.
pub contains-erase :
    (id j : ℕ) (ids : List ℕ)
    → occurrences j ids ≤ 1
    → contains id (erase j ids) ≡ (if j == id then false else contains id ids)
unfolding contains occurrences erase
contains-erase id j [] h = ground arith
contains-erase id j (k ∷ ids) h =
    ground (arith, contains-erase id j ids, contains-occurrences j ids)

pub contains-remove_all :
    (id j : ℕ) (ids : List ℕ)
    → contains id (remove_all j ids) ≡ (if j == id then false else contains id ids)
unfolding contains remove_all
contains-remove_all id j [] = ground arith
contains-remove_all id j (k ∷ ids) = ground (arith, contains-remove_all id j ids)

pub occurrences-remove_all :
    (id j : ℕ) (ids : List ℕ) → occurrences id (remove_all j ids) ≤ occurrences id ids
unfolding occurrences remove_all
occurrences-remove_all id j [] = omega arith
occurrences-remove_all id j (k ∷ ids) = ground (arith, occurrences-remove_all id j ids)
