-- ===== src/HashTable/Steps.antt =====
-- One insertion, step by step: what it does to the heap.
use catch_os.Base.{ℕ, ◌≡◌, ◌≢◌, refl, ◌∙◌, arith, Option, some, List, ◌∷◌}
use catch_os.Base.{◌==◌, null, update, update_self, update_ne, take, false}
use catch_os.LinkedList.{
  Node, Heap, list_get_tail, mmap, fill, store, list_create_noalloc, list_insert_after_noalloc,
  list_insert_back_noalloc,
}
use catch_os.LinkedList.Walk.{load-ok, set_next-ok}
use catch_os.HashTable.{HashTable, key_at, hashtable_insert, ht_max_key_len}

module _ (h : Heap) (p d : ℕ) (bytes ps : List ℕ) (supplied : h.supply ≡ p ∷ d ∷ ps) (hp : p ≢ null)
    (hd : d ≢ null) where
  abbrev pub stored_new : Node
  stored_new = record { next = null; content = d }

  -- The heap with the first pair of a chain.
  abbrev pub with_first : List ℕ → Heap
  with_first key = record {
    node = update h.node p (some stored_new);
    block = update (update h.block d (some bytes)) (key_at p) (some (take ht_max_key_len key));
    supply = ps;
    freed = h.freed;
  }

  -- The heap with a pair behind `last`, whose data is `x`.
  abbrev pub with_last : List ℕ → ℕ → ℕ → Heap
  with_last key last x = record (with_first key) {
    node =
        update
          (update
            (update (update h.node p (some (record { next = null; content = null }))) p
              (some stored_new))
            p (some stored_new))
          last (some (record { next = p; content = x }));
  }

  -- After the first address is handed out.
  abbrev pub handed : Heap
  handed = record h { supply = d ∷ ps }

  mmap-handed : mmap h ≡ some (p, handed)
  unfolding mmap
  mmap-handed = rw (mmap, supplied) refl

  store-ok :
      (g : Heap) (n : Node) → store p n g ≡ some (tt, record g { node = update g.node p (some n) })
  unfolding store
  store-ok g n = let real : (p == null) ≡ false = ground (arith, hp) in rw (store, real) refl

  create-ok :
      (m : ℕ → Option Node)
      → list_create_noalloc bytes p (record handed { node = m })
        ≡ some (
          p,
          record handed {
            node = update m p (some stored_new);
            block = update h.block d (some bytes);
            supply = ps;
          },
        )
  unfolding list_create_noalloc mmap fill store
  create-ok m = ground arith

  pub insert_first :
      (f : ℕ) (ht : HashTable) (key : List ℕ)
      → ht.nodes (ht.hash key ht.size) ≡ null
      → hashtable_insert f ht key bytes h
        ≡ some (record ht { nodes = update ht.nodes (ht.hash key ht.size) p }, with_first key)
  unfolding hashtable_insert fill
  insert_first f ht key e =
      let real : (p == null) ≡ false = ground (arith, hp) in
      rw (hashtable_insert, e, mmap-handed, create-ok h.node, real) refl

  insert_back :
      (f last x head : ℕ) (key : List ℕ)
      → last ≢ null
      → last ≢ p
      → h.node last ≡ some (record { next = null; content = x })
      → list_get_tail f head
          (record handed { node = update h.node p (some (record { next = null; content = null })) })
        ≡ some (
          last,
          record handed { node = update h.node p (some (record { next = null; content = null })) },
        )
      → (list_insert_back_noalloc f head bytes p (record handed {
        node = update h.node p (some (record { next = null; content = null }));
      }))
        ≡ some (p, record (with_last key last x) { block = update h.block d (some bytes) })
  unfolding list_insert_back_noalloc list_insert_after_noalloc
  insert_back f last x head key ne np at tail =
      let real : (last == null) ≡ false = ground (arith, ne) in
      let m1 = update h.node p (some (record { next = null; content = null })) in
      let m2 = update m1 p (some stored_new) in
      let g2 : Heap = record handed {
        node = m2;
        block = update h.block d (some bytes);
        supply = ps;
      } in
      let g3 : Heap = record g2 { node = update m2 p (some stored_new) } in
      let at2 : m2 last ≡ some (record { next = null; content = x }) =
        update_ne m1 p _ last np ∙ update_ne h.node p _ last np ∙ at in
      let at3 : g3.node last ≡ some (record { next = null; content = x }) =
        update_ne m2 p _ last np ∙ at2 in
      rw
        (
          list_insert_back_noalloc,
          tail,
          list_insert_after_noalloc,
          real,
          create-ok m1,
          load-ok g2 last _ ne at2,
          set_next-ok g2 p stored_new hp (update_self m1 p _) null,
          set_next-ok g3 last _ ne at3 p,
        )
        refl

  pub insert_last :
      (f last x : ℕ) (ht : HashTable) (key : List ℕ)
      → ht.nodes (ht.hash key ht.size) ≢ null
      → last ≢ null
      → last ≢ p
      → h.node last ≡ some (record { next = null; content = x })
      → list_get_tail f
          (ht.nodes (ht.hash key ht.size))
          (record handed { node = update h.node p (some (record { next = null; content = null })) })
        ≡ some (
          last,
          record handed { node = update h.node p (some (record { next = null; content = null })) },
        )
      → hashtable_insert f ht key bytes h ≡ some (ht, with_last key last x)
  unfolding hashtable_insert fill
  insert_last f last x ht key used ne np at tail =
      let real : (p == null) ≡ false = ground (arith, hp) in
      let taken : (ht.nodes (ht.hash key ht.size) == null) ≡ false = ground (arith, used) in
      rw
        (
          hashtable_insert,
          taken,
          mmap-handed,
          store-ok handed (record { next = null; content = null }),
          insert_back f last x (ht.nodes (ht.hash key ht.size)) key ne np at tail,
          real,
        )
        refl
