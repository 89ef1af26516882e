-- ===== src/LinkedList/Chain.antt =====
-- What a null-terminated list of nodes holds, and what leaves it as it is.
use catch_os.Base.{ℕ, ◌≡◌, ◌≢◌, refl, sym, ◌∙◌, some, List, [], ◌∷◌, ◌++◌}
use catch_os.Base.{null}
use catch_os.LinkedList.{Heap}

-- One node: its address, the address of its data, and the data.
pub record Cell : Type 0 where
  pub at_node : ℕ
  pub at_data : ℕ
  pub bytes : List ℕ

abbrev pub Cells : Type 0
Cells = List Cell

-- The address of the first node; null for no node.
abbrev pub first : Cells → ℕ
first [] = null
first (c ∷ cs) = c.at_node

-- The address of the last node.
abbrev pub last_of : Cells → ℕ
last_of [] = null
last_of (c ∷ []) = c.at_node
last_of (c ∷ d ∷ cs) = last_of (d ∷ cs)

-- `p` is the address of none of the nodes, nor of their data.
abbrev pub Apart : ℕ → Cells → Type 0
Apart p [] = Unit
Apart p (c ∷ cs) = (p ≢ c.at_node) × (p ≢ c.at_data) × Apart p cs

-- The nodes of `cs` are linked in order to the null pointer, at distinct addresses.
abbrev pub Chain : Heap → Cells → Type 0
Chain h [] = Unit
Chain h (c ∷ cs) =
    (c.at_node ≢ null)
    × (h.node c.at_node ≡ some (record { next = first cs; content = c.at_data }))
    × (h.block c.at_data ≡ some c.bytes)
    × Apart c.at_node cs
    × Apart c.at_data cs
    × (c.at_node ≢ c.at_data)
    × Chain h cs

-- `g` is `h` but for the nodes and blocks at two addresses.
abbrev pub SameBut : ℕ → ℕ → Heap → Heap → Type 0
SameBut p q h g = (a : ℕ) → a ≢ p → a ≢ q → (g.node a ≡ h.node a) × (g.block a ≡ h.block a)

-- A list survives any change away from its addresses.
pub Chain-frame :
    (h g : Heap) (p q : ℕ) (cs : Cells)
    → SameBut p q h g
    → Apart p cs
    → Apart q cs
    → Chain h cs
    → Chain g cs
Chain-frame h g p q [] same ap aq ch = tt
Chain-frame h g p q (c ∷ cs) same (pn, pd, ap) (qn, qd, aq) (ne, hn, hb, an, ad, nd, ch) = (
  ne,
  (same c.at_node (λ e. pn (sym e)) (λ e. qn (sym e))).0 ∙ hn,
  (same c.at_data (λ e. pd (sym e)) (λ e. qd (sym e))).1 ∙ hb,
  an,
  ad,
  nd,
  Chain-frame h g p q cs same ap aq ch,
)

pub Apart-last : (p : ℕ) (c : Cell) (cs : Cells) → Apart p (c ∷ cs) → p ≢ last_of (c ∷ cs)
Apart-last p c [] h = h.0
Apart-last p c (d ∷ cs) h = Apart-last p d cs h.2

Apart-snoc :
    (p : ℕ) (new : Cell) (cs : Cells)
    → Apart p cs
    → p ≢ new.at_node
    → p ≢ new.at_data
    → Apart p (cs ++ new ∷ [])
Apart-snoc p new [] h ne nd = (ne, nd, tt)
Apart-snoc p new (c ∷ cs) h ne nd = (h.0, h.1, Apart-snoc p new cs h.2 ne nd)

-- `g` has a new node behind the node `last`, which `h` did not have.
pub record Linked (h g : Heap) (last : ℕ) (new : Cell) : Type 0 where
  pub real : new.at_node ≢ null
  pub two : new.at_node ≢ new.at_data
  pub relinked :
      (x : ℕ)
      → h.node last ≡ some (record { next = null; content = x })
      → g.node last ≡ some (record { next = new.at_node; content = x })
  pub node : g.node new.at_node ≡ some (record { next = null; content = new.at_data })
  pub block : g.block new.at_data ≡ some new.bytes
  pub nodes : (a : ℕ) → a ≢ last → a ≢ new.at_node → g.node a ≡ h.node a
  pub blocks : (a : ℕ) → a ≢ new.at_data → g.block a ≡ h.block a

pub Chain-snoc :
    (h g : Heap) (new c : Cell) (cs : Cells)
    → Linked h g (last_of (c ∷ cs)) new
    → Apart new.at_node (c ∷ cs)
    → Apart new.at_data (c ∷ cs)
    → Chain h (c ∷ cs)
    → Chain g (c ∷ cs ++ new ∷ [])
Chain-snoc h g new c [] l an ad (ne, hn, hb, _, _, nd, _) = (
  ne,
  l.relinked _ hn,
  l.blocks c.at_data (λ e. ad.1 (sym e)) ∙ hb,
  (λ e. an.0 (sym e), λ e. ad.0 (sym e), tt),
  (λ e. an.1 (sym e), λ e. ad.1 (sym e), tt),
  nd,
  (l.real, l.node, l.block, tt, tt, l.two, tt),
)
Chain-snoc h g new c (d ∷ cs) l an ad (ne, hn, hb, cn, cd, nd, ch) = (
  ne,
  l.nodes c.at_node (Apart-last c.at_node d cs cn) (λ e. an.0 (sym e)) ∙ hn,
  l.blocks c.at_data (λ e. ad.1 (sym e)) ∙ hb,
  Apart-snoc c.at_node new (d ∷ cs) cn (λ e. an.0 (sym e)) (λ e. ad.0 (sym e)),
  Apart-snoc c.at_data new (d ∷ cs) cd (λ e. an.1 (sym e)) (λ e. ad.1 (sym e)),
  nd,
  Chain-snoc h g new d cs l an.2 ad.2 ch,
)

-- The last node ends the list.
pub Chain-last :
    (h : Heap) (c : Cell) (cs : Cells)
    → Chain h (c ∷ cs)
    → (last_of (c ∷ cs) ≢ null)
      × (x : ℕ) × (h.node (last_of (c ∷ cs)) ≡ some (record { next = null; content = x }))
Chain-last h c [] ch = (ch.0, c.at_data, ch.1)
Chain-last h c (d ∷ cs) ch = Chain-last h d cs ch.6

pub last-snoc : (c new : Cell) (cs : Cells) → last_of (c ∷ cs ++ new ∷ []) ≡ new.at_node
last-snoc c new [] = refl
last-snoc c new (d ∷ cs) = last-snoc d new cs
