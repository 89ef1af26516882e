-- ===== src/Queue.antt =====
-- kernel/utils/queue.c: a queue as a linked list with its last node at hand.
pub mod Fifo
use catch_os.Base.{
  ℕ, zero, suc, ◌+◌, ◌-◌, ◌%◌, ◌^◌, Option, none, some, List, [], ◌∷◌, pos, negsuc, ℤ, take,
}
use catch_os.Base.{◌+ℤ◌, ◌-ℤ◌, ◌==◌, if◌then◌else◌, null}
use catch_os.LinkedList.{
  Heap, Node, Cmd, pure, and_then, ◌>>=◌, ◌>>◌, load, list_create, list_insert_after,
}
use catch_os.LinkedList.{list_remove}

-- `struct queue`, outside the heap: the functions return the new value.
pub record Queue : Type 0 where
  pub head : ℕ
  pub tail : ℕ
  pub size : ℤ

unfoldable pub queue_push : Queue → List ℕ → Cmd Queue
queue_push q bytes =
    if q.head == null
    then (do node ← list_create bytes; pure (record { head = node; tail = node; size = pos 1 }))
    else (do
      p ← list_insert_after q.tail bytes
      pure (record q { tail = p; size = q.size +ℤ pos 1 }))

-- The bytes behind a data pointer.
unfoldable pub read : ℕ → Cmd (List ℕ)
read p h = elim (h.block p) [ none ↦ none | some bytes ↦ some (bytes, h) ]

-- The status, the bytes copied out, and the queue. The fuel is for `list_remove`.
unfoldable pub queue_pop : ℕ → Queue → ℕ → Cmd (ℤ × List ℕ × Queue)
queue_pop f q data_size = if q.head == null then pure (negsuc 0, [], q) else do
  n ← load q.head
  bytes ← read n.content
  r ← list_remove f q.head q.head
  pure (pos 0, take data_size bytes, record q { head = n.next; size = q.size -ℤ pos 1 })

abbrev pub queue_size : Queue → ℤ
queue_size q = q.size
