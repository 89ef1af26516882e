-- ===== src/LinkedList/Walk.antt =====
-- One access to a node, and the walks over a list.
use catch_os.Base.{ℕ, zero, suc, ◌<◌, ◌≡◌, ◌≢◌, refl, arith, some, [], ◌∷◌}
use catch_os.Base.{◌==◌, null, update, length, false, negsuc}
use catch_os.LinkedList.{
  Node, Heap, load, store, set_next, get_tail_loop, list_get_tail, list_remove,
}
use catch_os.LinkedList.Chain.{Cell, Cells, Chain, Apart, first, last_of}

module _ (h : Heap) (p : ℕ) (n : Node) (ne : p ≢ null) (e : h.node p ≡ some n) where
  pub load-ok : load p h ≡ some (n, h)
  unfolding load
  load-ok = ground arith

  pub set_next-ok :
      (q : ℕ)
      → set_next p q h
        ≡ some (tt, record h { node = update h.node p (some (record n { next = q })) })
  unfolding set_next store
  set_next-ok q = rw load-ok (ground arith)

-- `list_get_tail` finds the last node when the fuel exceeds the length.
get_tail_loop-last :
    (f : ℕ) (h : Heap) (c : Cell) (cs : Cells) (before : ℕ)
    → Chain h (c ∷ cs)
    → length (c ∷ cs) < f
    → get_tail_loop f c.at_node before h ≡ some (last_of (c ∷ cs), h)
unfolding get_tail_loop
get_tail_loop-last zero h c cs before ch lt = absurd (omega arith)
get_tail_loop-last (suc zero) h c cs before ch lt = absurd (omega arith)
get_tail_loop-last (suc (suc f)) h c [] before ch lt =
    let e : (c.at_node == null) ≡ false = ground (arith, ch.0) in
    rw (e, load-ok h c.at_node _ ch.0 ch.1) refl
get_tail_loop-last (suc f) h c (d ∷ cs) before ch lt =
    let e : (c.at_node == null) ≡ false = ground (arith, ch.0) in
    rw (e, load-ok h c.at_node _ ch.0 ch.1)
      (get_tail_loop-last f h d cs c.at_node ch.6 (omega arith))

-- `list_get_tail` of a list returns its last node when the fuel exceeds the length, null for no
-- node, and changes nothing.
list_get_tail-last :
    (f : ℕ) (h : Heap) (cs : Cells)
    → Chain h cs
    → length cs < f
    → list_get_tail f (first cs) h ≡ some (last_of cs, h)
unfolding list_get_tail
list_get_tail-last zero h cs ch lt = absurd (omega arith)
list_get_tail-last (suc f) h [] ch lt = unfold get_tail_loop in refl
list_get_tail-last (suc f) h (c ∷ cs) ch lt = get_tail_loop-last (suc f) h c cs null ch lt

-- A node whose address stands in no `next` field of the list is not removed.
list_remove-head_from :
    (f : ℕ) (h : Heap) (node : ℕ) (c : Cell) (cs : Cells)
    → Chain h (c ∷ cs)
    → Apart node cs
    → length cs < f
    → list_remove f c.at_node node h ≡ some (negsuc 0, h)
unfolding list_remove
list_remove-head_from zero h node c cs ch ap lt = absurd (omega arith)
list_remove-head_from (suc f) h node c [] ch ap lt = rw (load-ok h c.at_node _ ch.0 ch.1) refl
list_remove-head_from (suc f) h node c (d ∷ cs) ch ap lt =
    let e : (d.at_node == null) ≡ false = ground (arith, ch.6.0) in
    let e2 : (d.at_node == node) ≡ false = ground (arith, ap.0) in
    rw (load-ok h c.at_node _ ch.0 ch.1, e, e2)
      (list_remove-head_from f h node d cs ch.6 ap.2 (omega arith))

-- `list_remove` of the first node of a list returns -1, when the fuel exceeds the number of the
-- other nodes, and neither unlinks nor frees anything.
pub list_remove-head :
    (f : ℕ) (h : Heap) (c : Cell) (cs : Cells)
    → Chain h (c ∷ cs)
    → length cs < f
    → list_remove f c.at_node c.at_node h ≡ some (negsuc 0, h)
list_remove-head f h c cs ch lt = list_remove-head_from f h c.at_node c cs ch ch.3 lt
