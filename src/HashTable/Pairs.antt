-- ===== src/HashTable/Pairs.antt =====
-- The pairs of one chain, what a search in them finds, and what leaves a chain as it is.
use catch_os.Base.{
  ℕ, zero, suc, ◌<◌, ◌≡◌, ◌≢◌, refl, sym, ◌∙◌, arith, Option, none, some, List, [], ◌∷◌, ◌++◌,
}
use catch_os.Base.{◌==◌, if◌then◌else◌, null, length, Bool-cases, inl, inr, false}
use catch_os.LinkedList.{Node, Heap, get_tail_loop, list_get_tail}
use catch_os.LinkedList.Walk.{load-ok}
use catch_os.Queue.Fifo.{read-ok}
use catch_os.HashTable.{key_at, same_key, find_pair}

pub record Pair : Type 0 where
  pub at_node : ℕ
  pub at_data : ℕ
  pub key : List ℕ
  pub bytes : List ℕ

abbrev pub Pairs : Type 0
Pairs = List Pair

abbrev pub first : Pairs → ℕ
first [] = null
first (c ∷ cs) = c.at_node

abbrev pub last_of : Pairs → ℕ
last_of [] = null
last_of (c ∷ []) = c.at_node
last_of (c ∷ d ∷ cs) = last_of (d ∷ cs)

-- The first pair with the key.
abbrev pub search_pairs : List ℕ → Pairs → Option Pair
search_pairs key [] = none
search_pairs key (c ∷ cs) = if same_key c.key key then some c else search_pairs key cs

-- `p` is the address of none of the nodes.
abbrev pub NotNode : ℕ → Pairs → Type 0
NotNode p [] = Unit
NotNode p (c ∷ cs) = (p ≢ c.at_node) × NotNode p cs

-- `q` is the address of no data and of no key.
abbrev pub NotBlock : ℕ → Pairs → Type 0
NotBlock q [] = Unit
NotBlock q (c ∷ cs) = (q ≢ c.at_data) × (q ≢ key_at c.at_node) × NotBlock q cs

abbrev pub IsChain : Heap → Pairs → Type 0
IsChain h [] = Unit
IsChain h (c ∷ cs) =
    (c.at_node ≢ null)
    × (h.node c.at_node ≡ some (record { next = first cs; content = c.at_data }))
    × (h.block c.at_data ≡ some c.bytes)
    × (h.block (key_at c.at_node) ≡ some c.key)
    × NotNode c.at_node cs
    × IsChain h cs

-- The nodes of `g` but for two addresses, and its blocks but for two others, are those of `h`.
pub record Changed (h g : Heap) (p last d k : ℕ) : Type 0 where
  pub nodes : (a : ℕ) → a ≢ p → a ≢ last → g.node a ≡ h.node a
  pub blocks : (a : ℕ) → a ≢ d → a ≢ k → g.block a ≡ h.block a

pub IsChain-frame :
    (h g : Heap) (p last d k : ℕ) (cs : Pairs)
    → Changed h g p last d k
    → NotNode p cs
    → NotNode last cs
    → NotBlock d cs
    → NotBlock k cs
    → IsChain h cs
    → IsChain g cs
IsChain-frame h g p last d k [] ch np nl nd nk c = tt
IsChain-frame h g p last d k (c ∷ cs) ch np nl nd nk (ne, hn, hb, hk, apart, rest) = (
  ne,
  ch.nodes c.at_node (λ e. np.0 (sym e)) (λ e. nl.0 (sym e)) ∙ hn,
  ch.blocks c.at_data (λ e. nd.0 (sym e)) (λ e. nk.0 (sym e)) ∙ hb,
  ch.blocks (key_at c.at_node) (λ e. nd.1 (sym e)) (λ e. nk.1 (sym e)) ∙ hk,
  apart,
  IsChain-frame h g p last d k cs ch np.1 nl.1 nd.2 nk.2 rest,
)

pub NotNode-last : (p : ℕ) (c : Pair) (cs : Pairs) → NotNode p (c ∷ cs) → p ≢ last_of (c ∷ cs)
NotNode-last p c [] h = h.0
NotNode-last p c (d ∷ cs) h = NotNode-last p d cs h.1

NotNode-snoc :
    (p : ℕ) (new : Pair) (cs : Pairs) → NotNode p cs → p ≢ new.at_node → NotNode p (cs ++ new ∷ [])
NotNode-snoc p new [] h ne = (ne, tt)
NotNode-snoc p new (c ∷ cs) h ne = (h.0, NotNode-snoc p new cs h.1 ne)

-- The last pair ends the chain.
pub IsChain-last :
    (h : Heap) (c : Pair) (cs : Pairs)
    → IsChain h (c ∷ cs)
    → (last_of (c ∷ cs) ≢ null)
      × (x : ℕ) × (h.node (last_of (c ∷ cs)) ≡ some (record { next = null; content = x }))
IsChain-last h c [] ch = (ch.0, c.at_data, ch.1)
IsChain-last h c (d ∷ cs) ch = IsChain-last h d cs ch.5

-- A pair behind the last one.
pub record Appended (h g : Heap) (last : ℕ) (new : Pair) : Type 0 where
  pub real : new.at_node ≢ null
  pub relinked :
      (x : ℕ)
      → h.node last ≡ some (record { next = null; content = x })
      → g.node last ≡ some (record { next = new.at_node; content = x })
  pub node : g.node new.at_node ≡ some (record { next = null; content = new.at_data })
  pub block : g.block new.at_data ≡ some new.bytes
  pub key : g.block (key_at new.at_node) ≡ some new.key
  pub changed : Changed h g new.at_node last new.at_data (key_at new.at_node)

pub IsChain-snoc :
    (h g : Heap) (new c : Pair) (cs : Pairs)
    → Appended h g (last_of (c ∷ cs)) new
    → NotNode new.at_node (c ∷ cs)
    → NotBlock new.at_data (c ∷ cs)
    → NotBlock (key_at new.at_node) (c ∷ cs)
    → IsChain h (c ∷ cs)
    → IsChain g (c ∷ cs ++ new ∷ [])
IsChain-snoc h g new c [] a np nd nk (ne, hn, hb, hk, _, _) = (
  ne,
  a.relinked _ hn,
  a.changed.blocks c.at_data (λ e. nd.0 (sym e)) (λ e. nk.0 (sym e)) ∙ hb,
  a.changed.blocks (key_at c.at_node) (λ e. nd.1 (sym e)) (λ e. nk.1 (sym e)) ∙ hk,
  (λ e. np.0 (sym e), tt),
  (a.real, a.node, a.block, a.key, tt, tt),
)
IsChain-snoc h g new c (d ∷ cs) a np nd nk (ne, hn, hb, hk, apart, ch) = (
  ne,
  a.changed.nodes c.at_node (λ e. np.0 (sym e)) (NotNode-last c.at_node d cs apart) ∙ hn,
  a.changed.blocks c.at_data (λ e. nd.0 (sym e)) (λ e. nk.0 (sym e)) ∙ hb,
  a.changed.blocks (key_at c.at_node) (λ e. nd.1 (sym e)) (λ e. nk.1 (sym e)) ∙ hk,
  NotNode-snoc c.at_node new (d ∷ cs) apart (λ e. np.0 (sym e)),
  IsChain-snoc h g new d cs a np.1 nd.2 nk.2 ch,
)

tail_loop-last :
    (f : ℕ) (h : Heap) (c : Pair) (cs : Pairs) (before : ℕ)
    → IsChain h (c ∷ cs)
    → length (c ∷ cs) < f
    → get_tail_loop f c.at_node before h ≡ some (last_of (c ∷ cs), h)
unfolding get_tail_loop
tail_loop-last zero h c cs before ch lt = absurd (omega arith)
tail_loop-last (suc zero) h c cs before ch lt = absurd (omega arith)
tail_loop-last (suc (suc f)) h c [] before ch lt =
    let e : (c.at_node == null) ≡ false = ground (arith, ch.0) in
    rw (e, load-ok h c.at_node _ ch.0 ch.1) refl
tail_loop-last (suc f) h c (d ∷ cs) before ch lt =
    let e : (c.at_node == null) ≡ false = ground (arith, ch.0) in
    rw (e, load-ok h c.at_node _ ch.0 ch.1) (tail_loop-last f h d cs c.at_node ch.5 (omega arith))

pub tail-last :
    (f : ℕ) (h : Heap) (c : Pair) (cs : Pairs)
    → IsChain h (c ∷ cs)
    → length (c ∷ cs) < f
    → list_get_tail f c.at_node h ≡ some (last_of (c ∷ cs), h)
unfolding list_get_tail
tail-last f h c cs ch lt = tail_loop-last f h c cs null ch lt

-- The address that a search ends with.
abbrev pub found_at : Option Pair → ℕ
found_at none = null
found_at (some c) = c.at_node

pub find_pair-search :
    (f : ℕ) (h : Heap) (key : List ℕ) (cs : Pairs)
    → IsChain h cs
    → length cs < f
    → find_pair f key (first cs) h ≡ some (found_at (search_pairs key cs), h)
unfolding find_pair
find_pair-search zero h key cs ch lt = absurd (omega arith)
find_pair-search (suc f) h key [] ch lt = refl
find_pair-search (suc f) h key (c ∷ cs) ch lt =
    let e : (c.at_node == null) ≡ false = ground (arith, ch.0) in
    let k = read-ok h (key_at c.at_node) c.key ch.3 in
    elim (Bool-cases (same_key c.key key)) [
      | inl y ↦ rw (find_pair, e, k, y) refl
      | inr n ↦
          rw (find_pair, e, k, n, load-ok h c.at_node _ ch.0 ch.1)
            (find_pair-search f h key cs ch.5 (omega arith))
    ]

-- What a search finds is in the chain.
pub search-stored :
    (h : Heap) (key : List ℕ) (cs : Pairs) (c : Pair)
    → IsChain h cs
    → search_pairs key cs ≡ some c
    → (c.at_node ≢ null)
      × (n : Node) × (h.node c.at_node ≡ some n)
      × (h.block n.content ≡ some c.bytes)
search-stored h key [] c ch e = absurd (cc)
search-stored h key (b ∷ cs) c ch e = elim (Bool-cases (same_key b.key key)) [
  | inl y ↦ (let same : b ≡ c = ground (arith, y) in rw (← same) (ch.0, _, ch.1, ch.2))
  | inr n ↦ search-stored h key cs c ch.5 (ground (arith, n))
]

pub search-append :
    (key : List ℕ) (cs ds : Pairs)
    → search_pairs key (cs ++ ds)
      ≡ elim (search_pairs key cs) [ none ↦ search_pairs key ds | some c ↦ some c ]
search-append key [] ds = refl
search-append key (c ∷ cs) ds = ground (arith, search-append key cs ds)
