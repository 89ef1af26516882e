-- ===== src/Tests/Tables.antt =====
-- A hash table of two slots, with one pair in slot 0, and the theorems at it.
use catch_os.Base.{
  ℕ, ◌≡◌, ◌==◌, ◌%◌, ◌-◌, false, refl, arith, none, some, List, [], ◌∷◌, null, if◌then◌else◌, pos,
}
use catch_os.Base.{Bool-cases, inl, inr}
use catch_os.LinkedList.{Heap}
use catch_os.HashTable.{HashTable, hashtable_get}
use catch_os.HashTable.Pairs.{Pair, Pairs}
use catch_os.HashTable.Refine.{IsTable, Fresh, hashtable_get-view}
use catch_os.HashTable.Keyed.{Inserted}
use catch_os.HashTable.Insert.{hashtable_insert-view}

abbrev stored : Pair
stored = record { at_node = 100; at_data = 300; key = 97 ∷ []; bytes = 5 ∷ 6 ∷ [] }

abbrev pub one_pair : Heap
one_pair = record {
  node = λ a. if a == 100 then some (record { next = null; content = 300 }) else none;
  block = λ a. if a == 300 then some (5 ∷ 6 ∷ []) else if a == 108 then some (97 ∷ []) else none;
  supply = 200 ∷ 400 ∷ [];
  freed = [];
}

abbrev slot_of : List ℕ → ℕ → ℕ
slot_of [] n = 0
slot_of (c ∷ cs) n = (c - 97) % n

abbrev pub small_table : HashTable
small_table = record {
  nodes = λ i. if i == 0 then 100 else null;
  array = 50;
  size = 2;
  hash = slot_of;
}

abbrev pub slots : ℕ → Pairs
slots i = if i == 0 then stored ∷ [] else []

pub small_table-IsTable : IsTable one_pair small_table slots
small_table-IsTable = record {
  chains = λ i. elim (Bool-cases (i == 0)) [
    | inl e ↦ rw e (omega arith, refl, refl, refl, tt, tt)
    | inr e ↦ rw e tt
  ];
  heads = λ i. ground arith;
  separate = λ i j ne. elim (Bool-cases (i == 0)) [
    | inl e ↦ (let other : (j == 0) ≡ false = ground arith in rw (e, other) (tt, tt))
    | inr e ↦ rw e tt
  ];
}

pub next_two-Fresh : Fresh 200 400 slots
next_two-Fresh = record {
  real = (omega arith, omega arith, omega arith);
  node = λ i. elim (Bool-cases (i == 0)) [ inl e ↦ rw e (omega arith, tt) | inr e ↦ rw e tt ];
  block = λ i. elim (Bool-cases (i == 0)) [
    | inl e ↦ rw e (omega arith, omega arith, tt)
    | inr e ↦ rw e tt
  ];
  key = λ i. elim (Bool-cases (i == 0)) [
    | inl e ↦ rw e (omega arith, omega arith, tt)
    | inr e ↦ rw e tt
  ];
}

hashtable_get-view_example :
    hashtable_get 2 small_table (97 ∷ []) 1 one_pair ≡ some ((pos 0, 5 ∷ []), one_pair)
hashtable_get-view_example =
    hashtable_get-view 2 one_pair small_table slots (97 ∷ []) 1 small_table-IsTable (omega arith)

-- The key `c` falls into the slot of `a`.
hashtable_insert-view_example : Inserted 2 one_pair small_table slots (99 ∷ []) (8 ∷ 9 ∷ [])
hashtable_insert-view_example =
    hashtable_insert-view 2 one_pair small_table slots 200 400 [] (99 ∷ []) (8 ∷ 9 ∷ [])
      small_table-IsTable refl next_two-Fresh (omega arith) (omega arith)
