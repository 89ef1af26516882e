-- ===== src/HashTable/Grow.antt =====
-- A pair behind the last one of a slot leaves a well-formed table.
use catch_os.Base.{ℕ, ◌≡◌, ◌≢◌, refl, sym, arith, [], ◌∷◌, ◌++◌}
use catch_os.Base.{◌==◌, update, Bool-cases, inl, inr, false}
use catch_os.LinkedList.{Heap}
use catch_os.HashTable.{HashTable, key_at}
use catch_os.HashTable.Pairs.{Pair, Pairs, first, last_of, NotNode, IsChain, IsChain-frame}
use catch_os.HashTable.Pairs.{Changed}
use catch_os.HashTable.Refine.{Apart, IsTable, Fresh}

Apart-snoc :
    (cs ds : Pairs) (new : Pair) → Apart cs ds → NotNode new.at_node ds → Apart (cs ++ new ∷ []) ds
Apart-snoc [] ds new a n = (n, tt)
Apart-snoc (c ∷ cs) ds new a n = (a.0, Apart-snoc cs ds new a.1 n)

NotNode-snoc' :
    (p : ℕ) (cs : Pairs) (new : Pair) → NotNode p cs → p ≢ new.at_node → NotNode p (cs ++ new ∷ [])
NotNode-snoc' p [] new h ne = (ne, tt)
NotNode-snoc' p (c ∷ cs) new h ne = (h.0, NotNode-snoc' p cs new h.1 ne)

Apart-snoc_right :
    (cs ds : Pairs) (new : Pair) → Apart cs ds → NotNode new.at_node cs → Apart cs (ds ++ new ∷ [])
Apart-snoc_right [] ds new a n = tt
Apart-snoc_right (c ∷ cs) ds new a n =
    (NotNode-snoc' c.at_node ds new a.0 (λ e. n.0 (sym e)), Apart-snoc_right cs ds new a.1 n.1)

pub Apart-last : (c : Pair) (cs ds : Pairs) → Apart (c ∷ cs) ds → NotNode (last_of (c ∷ cs)) ds
Apart-last c [] ds a = a.0
Apart-last c (d ∷ cs) ds a = Apart-last d cs ds a.1

first-snoc : (c new : Pair) (cs : Pairs) → first (c ∷ cs ++ new ∷ []) ≡ first (c ∷ cs)
first-snoc c new cs = refl

module _ (h g : Heap) (ht : HashTable) (pairs : ℕ → Pairs) (new : Pair) (i last : ℕ)
    (t : IsTable h ht pairs) (fresh : Fresh new.at_node new.at_data pairs)
    (a : Changed h g new.at_node last new.at_data (key_at new.at_node))
    (elsewhere : (j : ℕ) → j ≢ i → NotNode last (pairs j))
    (grown : IsChain g (pairs i ++ new ∷ [])) where
  abbrev more : ℕ → Pairs
  more = update pairs i (pairs i ++ new ∷ [])

  pub more-IsTable :
      (nodes : ℕ → ℕ)
      → ((j : ℕ) → nodes j ≡ first (more j))
      → IsTable g (record ht { nodes = nodes }) more
  more-IsTable nodes heads = record {
    chains = λ j. elim (Bool-cases (j == i)) [
      | inl e ↦ rw e grown
      | inr e ↦ rw e (
          IsChain-frame h g new.at_node last new.at_data (key_at new.at_node) (pairs j) a
            (fresh.node j) (elsewhere j (ground arith)) (fresh.block j) (fresh.key j) (t.chains j))
    ];
    heads = heads;
    separate = λ j k ne. elim (Bool-cases (j == i)) [
      | inl e ↦
          (let other : (k == i) ≡ false = ground arith in
            let same : j ≡ i = ground arith in
            rw (e, other)
              (Apart-snoc (pairs i) (pairs k) new (rw same at (t.separate j k ne)) (fresh.node k)))
      | inr e ↦ elim (Bool-cases (k == i)) [
        | inl e2 ↦
            (let same : k ≡ i = ground arith in
              rw (e, e2)
                (Apart-snoc_right (pairs j) (pairs i) new (rw same at (t.separate j k ne))
                  (fresh.node j)))
        | inr e2 ↦ rw (e, e2) (t.separate j k ne)
      ]
    ];
  }
