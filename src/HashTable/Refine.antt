-- ===== src/HashTable/Refine.antt =====
-- The hash table as a map from keys: the first insertion of a key counts.
use catch_os.Base.{ℕ, ◌<◌, ◌≡◌, ◌≢◌, refl, arith, Option, none, some, List, [], ◌∷◌}
use catch_os.Base.{◌==◌, null, length, take, Option-cases, inl, inr, false, ℤ, pos, negsuc}
use catch_os.LinkedList.{Heap}
use catch_os.LinkedList.Walk.{load-ok}
use catch_os.Queue.Fifo.{read-ok}
use catch_os.HashTable.{HashTable, key_at, hashtable_get}
use catch_os.HashTable.Pairs.{Pair, Pairs, first, search_pairs, NotNode, NotBlock, IsChain}
use catch_os.HashTable.Pairs.{find_pair-search, search-stored}

-- No node of the one chain is in the other.
abbrev pub Apart : Pairs → Pairs → Type 0
Apart [] ds = Unit
Apart (c ∷ cs) ds = NotNode c.at_node ds × Apart cs ds

-- The heap has the chain `pairs i` in each slot `i` of the table.
pub record IsTable (h : Heap) (ht : HashTable) (pairs : ℕ → Pairs) : Type 0 where
  pub chains : (i : ℕ) → IsChain h (pairs i)
  pub heads : (i : ℕ) → ht.nodes i ≡ first (pairs i)
  pub separate : (i j : ℕ) → i ≢ j → Apart (pairs i) (pairs j)

-- The bytes of a pair.
abbrev pub bytes_of : Option Pair → Option (List ℕ)
bytes_of none = none
bytes_of (some c) = some c.bytes

-- The table as a map: the bytes of the first pair with the key.
abbrev pub view : HashTable → (ℕ → Pairs) → List ℕ → Option (List ℕ)
view ht pairs key = bytes_of (search_pairs key (pairs (ht.hash key ht.size)))

-- The status and the bytes that `hashtable_get` gives for a value of the map.
abbrev pub answer : ℕ → Option (List ℕ) → ℤ × List ℕ
answer n none = (negsuc 0, [])
answer n (some bytes) = (pos 0, take n bytes)

null-first :
    (h : Heap) (c : Pair) (cs : Pairs) → IsChain h (c ∷ cs) → (first (c ∷ cs) == null) ≡ false
null-first h c cs ch = ground (arith, ch.0)

-- `hashtable_get` looks the key up in the map that a well-formed table stands for, when the fuel
-- exceeds the length of the chain: it returns 0 and the first `n` bytes of the value, or -1 when
-- the key has none, and changes nothing.
pub hashtable_get-view :
    (f : ℕ) (h : Heap) (ht : HashTable) (pairs : ℕ → Pairs) (key : List ℕ) (n : ℕ)
    → IsTable h ht pairs
    → length (pairs (ht.hash key ht.size)) < f
    → hashtable_get f ht key n h ≡ some (answer n (view ht pairs key), h)
unfolding hashtable_get
hashtable_get-view f h ht pairs key n t lt =
    let i = ht.hash key ht.size in go (pairs i) (t.chains i) (t.heads i) lt
  where
    go :
        (cs : Pairs)
        → IsChain h cs
        → ht.nodes (ht.hash key ht.size) ≡ first cs
        → length cs < f
        → hashtable_get f ht key n h ≡ some (answer n (bytes_of (search_pairs key cs)), h)
    go [] ch e l = rw (hashtable_get, e) refl
    go (c ∷ cs) ch e l =
        let found = find_pair-search f h key (c ∷ cs) ch l in
        let start = null-first h c cs ch in
        elim (Option-cases (search_pairs key (c ∷ cs))) [
          | inl e0 ↦ rw (hashtable_get, e, start, found, e0) refl
          | inr (b, e0) ↦
              (let (ne, at, hn, hb) = search-stored h key (c ∷ cs) b ch e0 in
                let real : (b.at_node == null) ≡ false = ground (arith, ne) in
                rw
                  (
                    hashtable_get,
                    e,
                    start,
                    found,
                    e0,
                    real,
                    load-ok h b.at_node at ne hn,
                    read-ok h at.content b.bytes hb,
                  )
                  refl)
        ]

-- The two addresses that the allocator gives next are not in use by the table.
pub record Fresh (p d : ℕ) (pairs : ℕ → Pairs) : Type 0 where
  pub real : (p ≢ null) × (d ≢ null) × (d ≢ key_at p)
  pub node : (i : ℕ) → NotNode p (pairs i)
  pub block : (i : ℕ) → NotBlock d (pairs i)
  pub key : (i : ℕ) → NotBlock (key_at p) (pairs i)
