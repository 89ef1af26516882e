-- ===== src/LinkedList.antt =====
-- kernel/utils/list.c: singly linked lists of nodes on the heap, each with a copy of its data.
-- `none` is a fault (a null or dangling pointer followed) or, in a loop, the end of its fuel.
-- `mmu_mmap` and `mmu_munmap` are the allocator of a third party: `supply` lists the addresses that
-- it will hand out, null when it fails, and `freed` what was given back, the latest first.
pub mod Chain
pub mod Walk
use catch_os.Base.{
  ℕ, zero, suc, ◌+◌, Option, none, some, List, [], ◌∷◌, ℤ, pos, negsuc, Bool, true, false,
}
use catch_os.Base.{◌==◌, if◌then◌else◌, null, update, not, ◌&&◌}

-- `struct list_head`
pub record Node : Type 0 where
  pub next : ℕ
  pub content : ℕ

pub record Heap : Type 0 where
  pub node : ℕ → Option Node
  pub block : ℕ → Option (List ℕ)
  pub supply : List ℕ
  pub freed : List ℕ

abbrev pub Cmd : Type 0 → Type 0
Cmd A = Heap → Option (A × Heap)

abbrev pub pure : {A : Type 0} → A → Cmd A
pure a h = some (a, h)

module _ {A B : Type 0} where
  abbrev pub and_then : Option (A × Heap) → (A → Cmd B) → Option (B × Heap)
  and_then none k = none
  and_then (some (a, h)) k = k a h

  infixl 5 ◌>>=◌ ◌>>◌
  abbrev pub ◌>>=◌ : Cmd A → (A → Cmd B) → Cmd B
  command >>= rest = λ g. and_then (command g) rest

  abbrev pub ◌>>◌ : Cmd A → Cmd B → Cmd B
  command >> rest = command >>= λ _. rest

unfoldable pub mmap : Cmd ℕ
mmap h = elim h.supply [ [] ↦ some (null, h) | p ∷ ps ↦ some (p, record h { supply = ps }) ]

unfoldable pub munmap : ℕ → Cmd (Unit {0})
munmap p h = some (
  tt,
  record h { node = update h.node p none; block = update h.block p none; freed = p ∷ h.freed },
)

-- `*p`
unfoldable pub load : ℕ → Cmd Node
load p h = if p == null then none else elim (h.node p) [ none ↦ none | some n ↦ some (n, h) ]

unfoldable pub store : ℕ → Node → Cmd (Unit {0})
store p n h = if p == null then none else some (tt, record h { node = update h.node p (some n) })

-- `_memcpy(p, data, data_size)` into a block of that size
unfoldable pub fill : ℕ → List ℕ → Cmd (Unit {0})
fill p bytes h = some (tt, record h { block = update h.block p (some bytes) })

unfoldable pub set_next : ℕ → ℕ → Cmd (Unit {0})
set_next p q = do n ← load p; store p (record n { next = q })

-- `data` stands for the bytes that the caller's pointer and `data_size` name.
unfoldable pub list_create_noalloc : List ℕ → ℕ → Cmd ℕ
list_create_noalloc bytes newnode = do
  tmp ← mmap
  if tmp == null
      then pure null
      else do fill tmp bytes; store newnode (record { next = null; content = tmp }); pure newnode

unfoldable pub list_create : List ℕ → Cmd ℕ
list_create bytes = do
  node ← mmap
  if node == null then pure null else do
    tmp ← mmap
    if tmp == null
        then pure null
        else do fill tmp bytes; store node (record { next = null; content = tmp }); pure node

unfoldable pub list_insert_after : ℕ → List ℕ → Cmd ℕ
list_insert_after node bytes = if node == null then pure null else do
  newnode ← list_create bytes
  n ← load node
  set_next newnode n.next
  set_next node newnode
  pure newnode

unfoldable pub list_insert_after_noalloc : ℕ → List ℕ → ℕ → Cmd ℕ
list_insert_after_noalloc node bytes newnode = if node == null then pure null else do
  list_create_noalloc bytes newnode
  n ← load node
  set_next newnode n.next
  set_next node newnode
  pure newnode

unfoldable pub list_insert_before : ℕ → List ℕ → Cmd ℕ
list_insert_before list bytes = do newnode ← list_create bytes; set_next newnode list; pure newnode

-- `list_get_tail`, with `head` the last node passed.
unfoldable pub get_tail_loop : ℕ → ℕ → ℕ → Cmd ℕ
get_tail_loop zero node head = λ h. none
get_tail_loop (suc f) node head =
    if node == null then pure head else do n ← load node; get_tail_loop f n.next node

unfoldable pub list_get_tail : ℕ → ℕ → Cmd ℕ
list_get_tail f list = get_tail_loop f list null

unfoldable pub list_insert_back : ℕ → ℕ → List ℕ → Cmd ℕ
list_insert_back f node bytes = do tail ← list_get_tail f node; list_insert_after tail bytes

unfoldable pub list_insert_back_noalloc : ℕ → ℕ → List ℕ → ℕ → Cmd ℕ
list_insert_back_noalloc f node bytes newnode = do
  tail ← list_get_tail f node
  list_insert_after_noalloc tail bytes newnode

-- The end of `list_remove`, at the node `list` where the walk stopped.
abbrev pub unlink : ℕ → Node → ℕ → Cmd ℤ
unlink list l node =
    if l.next == null
    then pure (negsuc 0)
    else do n ← load node; set_next list n.next; munmap n.content; munmap node; pure (pos 0)

-- The walk of `list_remove`: `while (list->next && list->next != node) list = list->next;`
unfoldable pub list_remove : ℕ → ℕ → ℕ → Cmd ℤ
list_remove zero list node = λ h. none
list_remove (suc f) list node = do
  l ← load list
  if not (l.next == null) && not (l.next == node)
      then list_remove f l.next node
      else unlink list l node

-- `list_foreach`; the callback sees the address of the data and returns a number.
unfoldable pub list_foreach : ℕ → ℕ → (ℕ → Cmd ℤ) → Cmd ℤ
list_foreach zero node func = λ h. none
list_foreach (suc f) node func = if node == null then pure (pos 0) else do
  n ← load node
  r ← func n.content
  elim r [ pos zero ↦ (do m ← load node; list_foreach f m.next func) | _ ↦ pure (negsuc 0) ]

-- The walk of `list_free`; the caller's pointer is null afterwards.
unfoldable pub list_free : ℕ → ℕ → Cmd (Unit {0})
list_free zero node = λ h. none
list_free (suc f) node = if node == null then pure tt else do
  n ← load node
  if n.content == null then pure tt else munmap n.content
  munmap node
  list_free f n.next

unfoldable pub list_find : ℕ → ℕ → (ℕ → Cmd ℤ) → Cmd ℕ
list_find zero node func = λ h. none
list_find (suc f) node func = if node == null then pure null else do
  n ← load node
  r ← func n.content
  elim r [ pos zero ↦ pure node | _ ↦ (do m ← load node; list_find f m.next func) ]
