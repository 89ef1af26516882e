-- ===== src/Tests/Lists.antt =====
-- A list of three nodes and the queue that has it.
use catch_os.Base.{◌≡◌, refl, arith, [], ◌∷◌, ◌==◌, none, some, if◌then◌else◌, pos}
use catch_os.LinkedList.{Heap}
use catch_os.LinkedList.Chain.{Cell, Chain}
use catch_os.Queue.{Queue, queue_push, queue_pop}
use catch_os.Queue.Fifo.{IsQueue, cell, queue_push-IsQueue, queue_pop-IsQueue}

abbrev one : Cell
one = cell 10 20 (7 ∷ 8 ∷ [])

abbrev two : Cell
two = cell 11 21 (9 ∷ 6 ∷ [])

abbrev two_nodes : Heap
two_nodes = record {
  node = λ a.
      if a == 10
      then some (record { next = 11; content = 20 })
      else if a == 11
      then some (record { next = 0; content = 21 })
      else none;
  block = λ a. if a == 20 then some (7 ∷ 8 ∷ []) else if a == 21 then some (9 ∷ 6 ∷ []) else none;
  supply = 12 ∷ 22 ∷ [];
  freed = [];
}

two_nodes-Chain : Chain two_nodes (one ∷ two ∷ [])
two_nodes-Chain = (
  omega arith,
  refl,
  refl,
  (omega arith, omega arith, tt),
  (omega arith, omega arith, tt),
  omega arith,
  (omega arith, refl, refl, tt, tt, omega arith, tt),
)

abbrev two_waiting : Queue
two_waiting = record { head = 10; tail = 11; size = pos 2 }

two_waiting-IsQueue : IsQueue two_nodes two_waiting (one ∷ two ∷ [])
two_waiting-IsQueue = record { front = refl; back = refl; counted = refl; chain = two_nodes-Chain }

queue_push-IsQueue_example :
    (q' : Queue) × (g : Heap) × (queue_push two_waiting (5 ∷ []) two_nodes ≡ some (q', g))
    × IsQueue g q' (one ∷ two ∷ cell 12 22 (5 ∷ []) ∷ [])
queue_push-IsQueue_example =
    queue_push-IsQueue two_nodes 12 22 (5 ∷ []) [] refl (omega arith) (omega arith) two_waiting
      (one ∷ two ∷ []) two_waiting-IsQueue (omega arith)
      (omega arith, omega arith, (omega arith, omega arith, tt))
      (omega arith, omega arith, (omega arith, omega arith, tt))

queue_pop-IsQueue_example :
    (q' : Queue) × (queue_pop 2 two_waiting 2 two_nodes ≡ some ((pos 0, 7 ∷ 8 ∷ [], q'), two_nodes))
    × IsQueue two_nodes q' (two ∷ [])
queue_pop-IsQueue_example =
    queue_pop-IsQueue 2 two_nodes two_waiting 2 one (two ∷ []) two_waiting-IsQueue (omega arith)
