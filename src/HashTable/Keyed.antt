-- ===== src/HashTable/Keyed.antt =====
-- What a table answers for each key once a pair is added to the slot of its key.
use catch_os.Base.{
  ℕ, zero, suc, ◌≤◌, length, ◌≡◌, ◌≢◌, refl, sym, ap, ◌∙◌, arith, Option, none, some, List, [], ◌∷◌,
  ◌++◌,
}
use catch_os.Base.{◌==◌, update, update_self, Bool-cases, inl, inr, true, false, ℤ, pos, negsuc}
use catch_os.LinkedList.{Heap}
use catch_os.HashTable.{HashTable, same_key, hashtable_insert}
use catch_os.HashTable.Pairs.{Pair, Pairs, search_pairs}
use catch_os.Str.Compare.{compare_bytes, compare_bytes_eq, compare_bytes_self}
use catch_os.HashTable.Refine.{IsTable, view, bytes_of}

same_key_self : (key : List ℕ) → same_key key key ≡ true
same_key_self key = rw (same_key, compare_bytes_self key) refl

same_key-eq : (a b : List ℕ) → same_key a b ≡ true → a ≡ b
same_key-eq a b e = compare_bytes_eq a b (go (compare_bytes a b) e)
  where
    go : (c : ℤ) → (elim c [ pos zero ↦ true | _ ↦ false ]) ≡ true → c ≡ pos 0
    go (pos zero) h = refl
    go (pos (suc n)) h = absurd (cc)
    go (negsuc n) h = absurd (cc)

same_key-other : (a b : List ℕ) → a ≢ b → same_key a b ≡ false
same_key-other a b ne = elim (Bool-cases (same_key a b)) [
  | inl y ↦ absurd (ne (same_key-eq a b y))
  | inr n ↦ n
]

-- A value that is there stays, and otherwise the new one counts.
abbrev pub keep_first : Option (List ℕ) → List ℕ → List ℕ
keep_first none bytes = bytes
keep_first (some old) bytes = old

-- What an insertion has left.
pub record Inserted (f : ℕ) (h : Heap) (ht : HashTable) (pairs : ℕ → Pairs) (key bytes : List ℕ)
    : Type 0 where
  pub table : HashTable
  pub heap : Heap
  pub after : ℕ → Pairs
  pub runs : hashtable_insert f ht key bytes h ≡ some (table, heap)
  pub inv : IsTable heap table after
  pub longer : (j : ℕ) → length (after j) ≤ suc (length (pairs j))
  pub here : view table after key ≡ some (keep_first (view ht pairs key) bytes)
  pub there : (k : List ℕ) → k ≢ key → view table after k ≡ view ht pairs k

search-here :
    (new : Pair) (cs : Pairs)
    → bytes_of (search_pairs new.key (cs ++ new ∷ []))
      ≡ some (keep_first (bytes_of (search_pairs new.key cs)) new.bytes)
search-here new [] = ground (arith, same_key_self new.key)
search-here new (c ∷ cs) = ground (arith, search-here new cs)

search-there :
    (new : Pair) (k : List ℕ) (cs : Pairs)
    → k ≢ new.key
    → search_pairs k (cs ++ new ∷ []) ≡ search_pairs k cs
search-there new k [] ne = ground (arith, same_key-other new.key k (λ e. ne (sym e)))
search-there new k (c ∷ cs) ne = ground (arith, search-there new k cs ne)

module _ (ht : HashTable) (pairs : ℕ → Pairs) (new : Pair) (nodes : ℕ → ℕ) where
  abbrev slot : ℕ
  slot = ht.hash new.key ht.size

  abbrev grown_view : List ℕ → Option (List ℕ)
  grown_view = view (record ht { nodes = nodes }) (update pairs slot (pairs slot ++ new ∷ []))

  pub view_here : grown_view new.key ≡ some (keep_first (view ht pairs new.key) new.bytes)
  view_here =
      ap (λ cs. bytes_of (search_pairs new.key cs))
        (update_self pairs slot (pairs slot ++ new ∷ []))
      ∙ search-here new (pairs slot)

  pub view_there : (k : List ℕ) → k ≢ new.key → grown_view k ≡ view ht pairs k
  view_there k ne = elim (Bool-cases (ht.hash k ht.size == slot)) [
    | inr e ↦ ap (λ cs. bytes_of (search_pairs k cs)) (rw e refl)
    | inl e ↦
        (let same : ht.hash k ht.size ≡ slot = ground arith in
          ap (λ j. bytes_of (search_pairs k (update pairs slot (pairs slot ++ new ∷ []) j))) same
          ∙ ap (λ cs. bytes_of (search_pairs k cs))
              (update_self pairs slot (pairs slot ++ new ∷ []))
          ∙ ap bytes_of (search-there new k (pairs slot) ne)
          ∙ ap (λ j. bytes_of (search_pairs k (pairs j))) (sym same))
  ]

length-grown : (cs : Pairs) (new : Pair) → length (cs ++ new ∷ []) ≤ suc (length cs)
length-grown [] new = omega arith
length-grown (c ∷ cs) new = let r = length-grown cs new in omega arith

pub grown_length :
    (pairs : ℕ → Pairs) (i : ℕ) (new : Pair) (j : ℕ)
    → length (update pairs i (pairs i ++ new ∷ []) j) ≤ suc (length (pairs j))
grown_length pairs i new j = elim (Bool-cases (j == i)) [
  | inl e ↦ (let same : j ≡ i = ground arith in rw (e, same) (length-grown (pairs i) new))
  | inr e ↦ rw e (omega arith)
]
