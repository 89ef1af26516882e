-- ===== src/Queue/Fifo.antt =====
-- The queue is first in, first out.
use catch_os.Base.{
  ℕ, suc, ◌<◌, ◌≡◌, ◌≢◌, refl, sym, ap, ◌∙◌, arith, Option, some, List, [], ◌∷◌, ◌++◌,
}
use catch_os.Base.{◌==◌, null, update, update_self, update_ne, length, take, true, false}
use catch_os.Base.{pos, ◌+ℤ◌, ◌-ℤ◌}
use catch_os.LinkedList.{Node, Heap, mmap, store, fill, list_create, list_insert_after}
use catch_os.LinkedList.Chain.{
  Cell, Cells, Chain, Apart, Linked, Chain-snoc, Chain-last, first, last_of, Apart-last, last-snoc,
}
use catch_os.LinkedList.Walk.{load-ok, set_next-ok, list_remove-head}
use catch_os.Queue.{Queue, queue_push, queue_pop, read}

abbrev pub IsLast : ℕ → Cells → Type 0
IsLast p [] = Unit
IsLast p (c ∷ cs) = p ≡ last_of (c ∷ cs)

-- The queue holds the cells `cs`, the oldest first.
pub record IsQueue (h : Heap) (q : Queue) (cs : Cells) : Type 0 where
  pub front : q.head ≡ first cs
  pub back : IsLast q.tail cs
  pub counted : q.size ≡ pos (length cs)
  pub chain : Chain h cs

abbrev pub cell : ℕ → ℕ → List ℕ → Cell
cell p d bytes = record { at_node = p; at_data = d; bytes = bytes }

IsLast-tail : (p : ℕ) (c : Cell) (cs : Cells) → IsLast p (c ∷ cs) → IsLast p cs
IsLast-tail p c [] h = tt
IsLast-tail p c (d ∷ cs) h = h

-- The heap with a new node at `p` and its data at `d`.
abbrev created : Heap → ℕ → ℕ → List ℕ → List ℕ → Heap
created h p d bytes ps = record {
  node = update h.node p (some (record { next = null; content = d }));
  block = update h.block d (some bytes);
  supply = ps;
  freed = h.freed;
}

one_more : (n : ℕ) → pos n +ℤ pos 1 ≡ pos (suc n)
unfolding ◌+ℤ◌
one_more n = ground arith

one_less : (n : ℕ) → pos (suc n) -ℤ pos 1 ≡ pos n
unfolding ◌-ℤ◌
one_less n = ground arith

abbrev stored : ℕ → Option Node
stored x = some (record { next = null; content = x })

stored_inj : (x y : ℕ) → stored x ≡ stored y → x ≡ y
stored_inj x y e = ground arith

length-snoc : (c new : Cell) (cs : Cells) → suc (length (c ∷ cs)) ≡ length (c ∷ cs ++ new ∷ [])
length-snoc c new [] = refl
length-snoc c new (d ∷ cs) = ap suc (length-snoc d new cs)

module _ (h : Heap) (p d : ℕ) (bytes ps : List ℕ) (supplied : h.supply ≡ p ∷ d ∷ ps) (hp : p ≢ null)
    (hd : d ≢ null) where
  list_create-created : list_create bytes h ≡ some (p, created h p d bytes ps)
  unfolding list_create mmap fill store
  list_create-created = ground arith

  -- The heap behind `list_insert_after` at a last node with the data `x`.
  abbrev linked : ℕ → ℕ → Heap
  linked last x =
      let g = created h p d bytes ps in
      record g {
        node =
            update (update g.node p (some (record { next = null; content = d }))) last
              (some (record { next = p; content = x }));
      }

  list_insert_after-linked :
      (last x : ℕ)
      → last ≢ null
      → last ≢ p
      → h.node last ≡ some (record { next = null; content = x })
      → list_insert_after last bytes h ≡ some (p, linked last x)
  unfolding list_insert_after
  list_insert_after-linked last x ne np e =
      let e1 : (last == null) ≡ false = ground arith in
      let g = created h p d bytes ps in
      let g' : Heap = record g {
        node = update g.node p (some (record { next = null; content = d }));
      } in
      let at_last : g.node last ≡ some (record { next = null; content = x }) =
        update_ne h.node p _ last np ∙ e in
      let at_last' : g'.node last ≡ some (record { next = null; content = x }) =
        update_ne g.node p _ last np ∙ at_last in
      rw
        (
          e1,
          list_create-created,
          load-ok g last _ ne at_last,
          set_next-ok g p _ hp (update_self h.node p _) null,
          set_next-ok g' last _ ne at_last' p,
        )
        refl

  abbrev new : Cell
  new = cell p d bytes

  push_empty :
      (q : Queue)
      → IsQueue h q []
      → p ≢ d
      → (q' : Queue) × (g : Heap) × (queue_push q bytes h ≡ some (q', g)) × IsQueue g q' (new ∷ [])
  unfolding queue_push
  push_empty q inv pd =
      let e : (q.head == null) ≡ true = ground (arith, inv.front) in
      (
        record { head = p; tail = p; size = pos 1 },
        created h p d bytes ps,
        rw (e, list_create-created) refl,
        record {
          front = refl;
          back = refl;
          counted = refl;
          chain = (hp, update_self h.node p _, update_self h.block d _, tt, tt, pd, tt);
        },
      )

  push_more :
      (q : Queue) (c : Cell) (cs : Cells)
      → IsQueue h q (c ∷ cs)
      → p ≢ d
      → Apart p (c ∷ cs)
      → Apart d (c ∷ cs)
      → (q' : Queue) × (g : Heap) × (queue_push q bytes h ≡ some (q', g))
        × IsQueue g q' (c ∷ cs ++ new ∷ [])
  unfolding queue_push
  push_more q c cs inv pd an ad =
      let e : (q.head == null) ≡ false = ground (arith, inv.front, inv.chain.0) in
      let (ne, x, last) = Chain-last h c cs inv.chain in
      let np : last_of (c ∷ cs) ≢ p = λ s. Apart-last p c cs an (sym s) in
      let z = last_of (c ∷ cs) in
      let made = (created h p d bytes ps).node in
      let before = update made p (stored d) in
      let l : Linked h (linked z x) z new = record {
        real = hp;
        two = pd;
        relinked = λ y ey.
            update_self before z _
            ∙ ap (λ w. some (record { next = p; content = w })) (stored_inj _ _ (sym last ∙ ey));
        node = update_ne before z _ p (λ s. np (sym s)) ∙ update_self made p _;
        block = update_self h.block d _;
        nodes = λ a na nb.
            update_ne before z _ a na ∙ update_ne made p _ a nb ∙ update_ne h.node p _ a nb;
        blocks = λ a na. update_ne h.block d _ a na;
      } in
      (
        record q { tail = p; size = q.size +ℤ pos 1 },
        linked (last_of (c ∷ cs)) x,
        rw (e, inv.back, list_insert_after-linked (last_of (c ∷ cs)) x ne np last) refl,
        record {
          front = inv.front;
          back = sym (last-snoc c new cs);
          counted = ap (λ z. z +ℤ pos 1) inv.counted ∙ one_more _ ∙ ap pos (length-snoc c new cs);
          chain = Chain-snoc h _ new c cs l an ad inv.chain;
        },
      )

  -- When the allocator next gives two different addresses, neither null nor in use by the queue,
  -- `queue_push` returns, and the queue then holds what it held, in order, with the pushed bytes
  -- behind it.
  pub queue_push-IsQueue :
      (q : Queue) (cs : Cells)
      → IsQueue h q cs
      → p ≢ d
      → Apart p cs
      → Apart d cs
      → (q' : Queue) × (g : Heap) × (queue_push q bytes h ≡ some (q', g))
        × IsQueue g q' (cs ++ cell p d bytes ∷ [])
  queue_push-IsQueue q [] inv pd an ad = push_empty q inv pd
  queue_push-IsQueue q (c ∷ cs) inv pd an ad = push_more q c cs inv pd an ad

pub read-ok :
    (h : Heap) (p : ℕ) (bytes : List ℕ) → h.block p ≡ some bytes → read p h ≡ some (bytes, h)
unfolding read
read-ok h p bytes e = rw (read, e) refl

-- `queue_pop` of a queue whose oldest element is `c` returns 0 and copies out the first `n` bytes
-- of `c`, when the fuel exceeds the number of the others. The queue then holds the others, in
-- order, and the heap is as it was: neither the node nor its data is freed.
pub queue_pop-IsQueue :
    (f : ℕ) (h : Heap) (q : Queue) (n : ℕ) (c : Cell) (cs : Cells)
    → IsQueue h q (c ∷ cs)
    → length cs < f
    → (q' : Queue) × (queue_pop f q n h ≡ some ((pos 0, take n c.bytes, q'), h)) × IsQueue h q' cs
unfolding queue_pop
queue_pop-IsQueue f h q n c cs inv lt =
    let e : (c.at_node == null) ≡ false = ground (arith, inv.chain.0) in
    (
      record { head = first cs; tail = q.tail; size = q.size -ℤ pos 1 },
      rw
          (
            inv.front,
            e,
            load-ok h c.at_node _ inv.chain.0 inv.chain.1,
            read-ok h c.at_data _ inv.chain.2,
            list_remove-head f h c cs inv.chain lt,
          )
          refl,
      record {
        front = refl;
        back = IsLast-tail q.tail c cs inv.back;
        counted = ap (λ z. z -ℤ pos 1) inv.counted ∙ one_less _;
        chain = inv.chain.6;
      },
    )
