-- ===== src/HashTable.antt =====
-- kernel/utils/hashtable.c: chained hash tables on the lists of list.c. A key is the bytes of its
-- string. A pair is a list node at its address, and its key is the block 8 bytes further on.
pub mod Pairs
pub mod Refine
pub mod Steps
pub mod Grow
pub mod Keyed
pub mod Insert
use catch_os.Base.{
  ℕ, zero, suc, ◌+◌, ◌*◌, ◌%◌, ◌^◌, Option, none, some, List, [], ◌∷◌, pos, negsuc, ℤ, take,
  bit_xor,
}
use catch_os.Base.{◌==◌, if◌then◌else◌, null, update, Bool, true, false}
use catch_os.Str.Compare.{compare_bytes}
use catch_os.LinkedList.{
  Heap, Node, Cmd, pure, and_then, ◌>>=◌, ◌>>◌, mmap, munmap, fill, load, store, list_free,
}
use catch_os.LinkedList.{list_create_noalloc, list_insert_back_noalloc}
use catch_os.Queue.{read}

abbrev pub ht_max_key_len : ℕ
ht_max_key_len = 64

abbrev fnv_loop : ℕ → List ℕ → ℕ
fnv_loop hash [] = hash
fnv_loop hash (c ∷ cs) = fnv_loop (bit_xor (hash * 0x811C9DC5 % 2 ^ 32) c) cs

unfoldable pub hash_fnv : List ℕ → ℕ → ℕ
hash_fnv str max = fnv_loop 0 str % max

-- `struct hashtable`: the chains by their first pairs, and the hash function.
pub record HashTable : Type 0 where
  pub nodes : ℕ → ℕ
  pub array : ℕ
  pub size : ℕ
  pub hash : List ℕ → ℕ → ℕ

-- `memset` comes before the test for a failed allocation, so that faults unless the size is 0.
unfoldable pub hashtable_init : Option (List ℕ → ℕ → ℕ) → ℕ → Cmd (ℤ × HashTable)
hashtable_init hashfunc size = do
  p ← mmap
  let ht : HashTable = record {
    nodes = λ _. null;
    array = p;
    size = size;
    hash = elim hashfunc [ none ↦ hash_fnv | some f ↦ f ];
  }
  if p == null then (if size == 0 then pure (negsuc 0, ht) else λ h. none) else pure (pos 0, ht)

-- The address of the key of a pair: behind `struct list_head`.
abbrev pub key_at : ℕ → ℕ
key_at p = p + 8

-- `_strncpy` into the cleared key; a key is shorter than the array if it is terminated there.
abbrev set_key : ℕ → List ℕ → Cmd (Unit {0})
set_key p key = if p == null then (λ h. none) else fill (key_at p) (take ht_max_key_len key)

unfoldable pub hashtable_insert : ℕ → HashTable → List ℕ → List ℕ → Cmd HashTable
hashtable_insert f ht key bytes =
    let index = ht.hash key ht.size in
    if ht.nodes index == null
    then (do
      p ← mmap
      list_create_noalloc bytes p
      set_key p key
      pure (record ht { nodes = update ht.nodes index p }))
    else (do
      newnode ← mmap
      store newnode (record { next = null; content = null })
      list_insert_back_noalloc f (ht.nodes index) bytes newnode
      set_key newnode key
      pure ht)

-- `_strcmp(a, b) == 0`
abbrev pub same_key : List ℕ → List ℕ → Bool
same_key a b = elim (compare_bytes a b) [ pos zero ↦ true | _ ↦ false ]

-- The walk to the pair with the key, null if there is none.
unfoldable pub find_pair : ℕ → List ℕ → ℕ → Cmd ℕ
find_pair zero key real = λ h. none
find_pair (suc f) key real = if real == null then pure null else do
  stored ← read (key_at real)
  if same_key stored key then pure real else do n ← load real; find_pair f key n.next

unfoldable pub hashtable_get : ℕ → HashTable → List ℕ → ℕ → Cmd (ℤ × List ℕ)
hashtable_get f ht key data_size =
    let index = ht.hash key ht.size in
    if ht.nodes index == null then pure (negsuc 0, []) else do
      real ← find_pair f key (ht.nodes index)
      if real == null
          then pure (negsuc 0, [])
          else do n ← load real; bytes ← read n.content; pure (pos 0, take data_size bytes)

-- The loop of `hashtable_uninit`, by the rounds left.
unfoldable pub free_chains : ℕ → HashTable → ℕ → ℕ → Cmd (Unit {0})
free_chains f ht zero i = pure tt
free_chains f ht (suc n) i = do
  if ht.nodes i == null then pure tt else list_free f (ht.nodes i)
  free_chains f ht n (i + 1)

unfoldable pub hashtable_uninit : ℕ → HashTable → Cmd (Unit {0})
hashtable_uninit f ht = do free_chains f ht ht.size 0; munmap ht.array
