-- ===== src/HashTable/Insert.antt =====
-- `hashtable_insert` of kernel/utils/hashtable.c: both branches, and the table they leave.
use catch_os.Base.{
  ℕ, zero, suc, ◌<◌, ◌≤◌, ◌≡◌, ◌≢◌, refl, sym, ap, ◌∙◌, arith, Option, some, List, [], ◌∷◌, ◌++◌,
}
use catch_os.Base.{◌==◌, null, update, update_self, update_ne, length, take, Bool-cases, inl, inr}
use catch_os.LinkedList.{Node, Heap, list_get_tail}
use catch_os.HashTable.{HashTable, key_at, hashtable_insert, ht_max_key_len}
use catch_os.HashTable.Pairs.{
  Pair, Pairs, first, last_of, NotNode, NotBlock, IsChain, IsChain-frame, IsChain-last,
  IsChain-snoc,
}
use catch_os.HashTable.Pairs.{NotNode-last, Appended, Changed, tail-last}
use catch_os.HashTable.Refine.{IsTable, Fresh}
use catch_os.HashTable.Steps.{stored_new, with_first, with_last, insert_first, insert_last}
use catch_os.HashTable.Grow.{Apart-last, more-IsTable}
use catch_os.HashTable.Keyed.{Inserted, grown_length, view_here, view_there}

take-short : (n : ℕ) (xs : List ℕ) → length xs ≤ n → take n xs ≡ xs
take-short zero [] lt = refl
take-short zero (x ∷ xs) lt = absurd (omega arith)
take-short (suc n) [] lt = refl
take-short (suc n) (x ∷ xs) lt = ap (λ r. x ∷ r) (take-short n xs (omega arith))

same_content :
    (x y : ℕ)
    → Path
        (Option Node)
        (some (record { next = null; content = x }))
        (some (record { next = null; content = y }))
    → x ≡ y
same_content x y e = cc

module _ (f : ℕ) (h : Heap) (ht : HashTable) (pairs : ℕ → Pairs) (p d : ℕ) (ps key bytes : List ℕ)
    (t : IsTable h ht pairs) (supplied : h.supply ≡ p ∷ d ∷ ps) (fresh : Fresh p d pairs)
    (short : length key < ht_max_key_len) where
  abbrev index : ℕ
  index = ht.hash key ht.size

  abbrev new_pair : Pair
  new_pair = record { at_node = p; at_data = d; key = key; bytes = bytes }

  abbrev first_heap : Heap
  first_heap = with_first h p d bytes ps supplied fresh.real.0 fresh.real.1 key

  stored_key : take ht_max_key_len key ≡ key
  stored_key = take-short ht_max_key_len key (omega arith)

  first-Changed : Changed h first_heap p p d (key_at p)
  first-Changed = record {
    nodes = λ a n1 n2. update_ne h.node p _ a n1;
    blocks = λ a n1 n2.
        update_ne (update h.block d (some bytes)) (key_at p) _ a n2 ∙ update_ne h.block d _ a n1;
  }

  first-grown : pairs index ≡ [] → IsChain first_heap (pairs index ++ new_pair ∷ [])
  first-grown e = rw e (
    fresh.real.0,
    update_self h.node p _,
    update_ne (update h.block d (some bytes)) (key_at p) _ d fresh.real.2 ∙ update_self h.block d _,
    update_self (update h.block d (some bytes)) (key_at p) _ ∙ ap some stored_key,
    tt,
    tt,
  )

  abbrev after_first : HashTable
  after_first = record ht { nodes = update ht.nodes index p }

  first_heads :
      pairs index ≡ []
      → (j : ℕ) → after_first.nodes j ≡ first (update pairs index (pairs index ++ new_pair ∷ []) j)
  first_heads e j = elim (Bool-cases (j == index)) [
    | inl y ↦ rw (y, e) refl
    | inr n ↦ rw n (t.heads j)
  ]

  Inserted-first : pairs index ≡ [] → Inserted f h ht pairs key bytes
  Inserted-first e = record {
    table = after_first;
    heap = first_heap;
    after = update pairs index (pairs index ++ new_pair ∷ []);
    runs =
        insert_first h p d bytes ps supplied fresh.real.0 fresh.real.1 f ht key
          (t.heads index ∙ ap first e);
    inv =
        more-IsTable h first_heap ht pairs new_pair index p t fresh first-Changed
          (λ j ne. fresh.node j) (first-grown e) after_first.nodes (first_heads e);
    longer = grown_length pairs index new_pair;
    here = view_here ht pairs new_pair after_first.nodes;
    there = view_there ht pairs new_pair after_first.nodes;
  }

  module _ (c : Pair) (cs : Pairs) (chain : pairs index ≡ c ∷ cs)
      (enough : length (c ∷ cs) < f) where
    abbrev last : ℕ
    last = last_of (c ∷ cs)

    old : IsChain h (c ∷ cs)
    old = rw chain at (t.chains index)

    fresh_node : NotNode p (c ∷ cs)
    fresh_node = rw chain at (fresh.node index)

    fresh_block : NotBlock d (c ∷ cs)
    fresh_block = rw chain at (fresh.block index)

    fresh_key : NotBlock (key_at p) (c ∷ cs)
    fresh_key = rw chain at (fresh.key index)

    -- The heap with the cleared node.
    abbrev cleared : Heap
    cleared = record h {
      node = update h.node p (some (record { next = null; content = null }));
      supply = d ∷ ps;
    }

    cleared-Changed : Changed h cleared p p d d
    cleared-Changed = record {
      nodes = λ a n1 n2. update_ne h.node p _ a n1;
      blocks = λ a n1 n2. refl;
    }

    last-ne : last ≢ p
    last-ne e = NotNode-last p c cs fresh_node (sym e)

    tail_found : list_get_tail f (ht.nodes index) cleared ≡ some (last, cleared)
    tail_found =
        rw (t.heads index, chain)
          (tail-last f cleared c cs
            (IsChain-frame h cleared p p d d (c ∷ cs) cleared-Changed fresh_node fresh_node
              fresh_block fresh_block old)
            enough)

    abbrev content_of : ℕ
    content_of = (IsChain-last h c cs old).1

    abbrev last_heap : Heap
    last_heap = with_last h p d bytes ps supplied fresh.real.0 fresh.real.1 key last content_of

    last-runs : hashtable_insert f ht key bytes h ≡ some (ht, last_heap)
    last-runs =
        insert_last h p d bytes ps supplied fresh.real.0 fresh.real.1 f last content_of ht key
          (λ e. old.0 (sym (t.heads index ∙ ap first chain) ∙ e)) (IsChain-last h c cs old).0
          last-ne (IsChain-last h c cs old).2 tail_found

    last-Appended : Appended h last_heap last new_pair
    last-Appended =
        let m1 = update h.node p (some (record { next = null; content = null })) in
        let m2 =
          update m1 p (some (stored_new h p d bytes ps supplied fresh.real.0 fresh.real.1)) in
        let m3 =
          update m2 p (some (stored_new h p d bytes ps supplied fresh.real.0 fresh.real.1)) in
        record {
          real = fresh.real.0;
          relinked = λ x at.
              update_self m3 last _
              ∙ ap (λ o. some (record { next = p; content = o }))
                  (same_content content_of x (sym (IsChain-last h c cs old).2 ∙ at));
          node = update_ne m3 last _ p (λ e. last-ne (sym e)) ∙ update_self m2 p _;
          block =
              update_ne (update h.block d (some bytes)) (key_at p) _ d fresh.real.2
              ∙ update_self h.block d _;
          key = update_self (update h.block d (some bytes)) (key_at p) _ ∙ ap some stored_key;
          changed = record {
            nodes = λ a n1 n2.
                update_ne m3 last _ a n2
                ∙ update_ne m2 p _ a n1
                ∙ update_ne m1 p _ a n1
                ∙ update_ne h.node p _ a n1;
            blocks = λ a n1 n2.
                update_ne (update h.block d (some bytes)) (key_at p) _ a n2
                ∙ update_ne h.block d _ a n1;
          };
        }

    last-grown : IsChain last_heap (pairs index ++ new_pair ∷ [])
    last-grown =
        rw chain (
          IsChain-snoc h last_heap new_pair c cs last-Appended fresh_node fresh_block fresh_key old)

    Inserted-last : Inserted f h ht pairs key bytes
    Inserted-last = record {
      table = ht;
      heap = last_heap;
      after = update pairs index (pairs index ++ new_pair ∷ []);
      runs = last-runs;
      inv =
          more-IsTable h last_heap ht pairs new_pair index last t fresh last-Appended.changed
            (λ j ne. Apart-last c cs (pairs j) (rw chain at (t.separate index j (λ e. ne (sym e)))))
            last-grown ht.nodes last_heads;
      longer = grown_length pairs index new_pair;
      here = view_here ht pairs new_pair ht.nodes;
      there = view_there ht pairs new_pair ht.nodes;
    }
      where
        last_heads :
            (j : ℕ) → ht.nodes j ≡ first (update pairs index (pairs index ++ new_pair ∷ []) j)
        last_heads j = elim (Bool-cases (j == index)) [
          | inl y ↦
              (let same : j ≡ index = ground arith in
                rw (y, same, chain) (t.heads index ∙ ap first chain))
          | inr n ↦ rw n (t.heads j)
        ]

-- When the allocator next gives two addresses that a well-formed table does not use, the key has
-- fewer than 64 bytes and the fuel exceeds the length of its chain, `hashtable_insert` returns and
-- leaves a well-formed table. In the map it stands for, the key has the value it had before, if
-- any, and otherwise the new one; the other keys are as before.
pub hashtable_insert-view :
    (f : ℕ) (h : Heap) (ht : HashTable) (pairs : ℕ → Pairs) (p d : ℕ) (ps key bytes : List ℕ)
    → IsTable h ht pairs
    → h.supply ≡ p ∷ d ∷ ps
    → Fresh p d pairs
    → length key < ht_max_key_len
    → length (pairs (ht.hash key ht.size)) < f
    → Inserted f h ht pairs key bytes
hashtable_insert-view f h ht pairs p d ps key bytes t supplied fresh short enough =
    go (pairs (ht.hash key ht.size)) refl
  where
    go : (cs : Pairs) → pairs (ht.hash key ht.size) ≡ cs → Inserted f h ht pairs key bytes
    go [] e = Inserted-first f h ht pairs p d ps key bytes t supplied fresh short e
    go (c ∷ cs) e =
        Inserted-last f h ht pairs p d ps key bytes t supplied fresh short c cs e (rw e at enough)
