-- ===== src/Items/Loaded.antt =====
-- Bytes that the loop of `unserializeAttr` (src/items/item.cpp) takes off the front of a stream, and the
-- item that it has by then.
use forgotten_land.Base.{
  ℕ, suc, ◌+◌, ◌-◌, ◌≤◌, ◌≡◌, Bool, false, ◌==◌, some, List, [], ◌∷◌, ◌++◌, length, arith,
  length-append,
}
use mathlib.Core.List.{append-nil, append_assoc}
use forgotten_land.Items.Attributes.{Item, ItemType}
use forgotten_land.Items.Serialize.{read_attr, unserialize_from, unserialize_attr}

-- So many rounds, and for each a byte at least.
pub record Loaded (taken : ℕ → Bool) (it : ItemType) (base : Item) (buffer : List ℕ) (item : Item)
    : Type 0 where
  pub rounds : ℕ
  pub rounds_le : rounds ≤ length buffer
  pub after :
      (fuel : ℕ) (rest : List ℕ)
      → unserialize_from taken it (rounds + fuel) (buffer ++ rest) base
        ≡ unserialize_from taken it fuel rest item

module _ (taken : ℕ → Bool) (it : ItemType) (base : Item) where
  pub Loaded-nil : Loaded taken it base [] base
  Loaded-nil = record {
    rounds = 0;
    rounds_le = omega arith;
    after = λ fuel rest. let e : 0 + fuel ≡ fuel = omega arith in rw e;
  }

  pub load_round :
      (buffer : List ℕ) (item : Item) (code : ℕ) (bytes : List ℕ) (item' : Item)
      → (code == 0) ≡ false
      → ((rest : List ℕ) → read_attr taken it code (bytes ++ rest) item ≡ some (rest, item'))
      → Loaded taken it base buffer item
      → Loaded taken it base (buffer ++ (code ∷ bytes)) item'
  unfolding unserialize_from
  load_round buffer item code bytes item' nonzero reads l = record {
    rounds = l.rounds + 1;
    rounds_le = omega (arith, l.rounds_le, length-append buffer (code ∷ bytes));
    after = λ fuel rest.
        let e : l.rounds + 1 + fuel ≡ l.rounds + suc fuel = omega arith in
        rw (
          e,
          append_assoc buffer (code ∷ bytes) rest,
          l.after (suc fuel) (code ∷ (bytes ++ rest)),
          nonzero,
          reads rest,
        );
  }

  -- All of the buffer.
  pub unserialize_attr-Loaded :
      (buffer : List ℕ) (item : Item)
      → Loaded taken it base buffer item
      → unserialize_attr taken it buffer base ≡ some item
  unfolding unserialize_attr unserialize_from
  unserialize_attr-Loaded buffer item l =
      let spare = length buffer - l.rounds in
      let e : length buffer ≡ l.rounds + spare = omega (arith, l.rounds_le) in
      let whole = rw (append-nil buffer) at (l.after spare []) in rw e whole
