-- ===== src/Tests/Links.antt =====
-- Runs of the linked queue of include/hyperliquid/order.h.
use hyperliquid_matching_eng.Base.{◌≡◌, refl, arith, none, some, [], ◌∷◌, ◌++◌, ◌==◌, if◌then◌else◌}
use hyperliquid_matching_eng.Base.Int.{pos}
use hyperliquid_matching_eng.Order as Queue
use hyperliquid_matching_eng.Order.{Order, LevelFifo, deref}
use hyperliquid_matching_eng.Order.Links.{Store, LinkedFifo, enqueue, erase}
use hyperliquid_matching_eng.Order.Links.Chains.{node, SameOutside}
use hyperliquid_matching_eng.Order.Links.Refinement.{
  Represents, enqueue-Represents, erase-Represents,
}
use hyperliquid_matching_eng.Tests.Book.{resting}

abbrev first_order : Order
first_order = resting 1 10 6

abbrev second_order : Order
second_order = resting 2 11 4

abbrev new_order : Order
new_order = resting 3 12 5

-- Two nodes in a queue, and one that is not linked.
abbrev store : Store
store a =
    if a == 10
    then some (node first_order none (some 11))
    else if a == 11
    then some (node second_order (some 10) none)
    else if a == 12
    then some (node new_order none none)
    else none

abbrev fifo : LinkedFifo
fifo = record { head = some 10; tail = some 11; total_qty = pos 10 }

abbrev level : LevelFifo
level = record { orders = first_order ∷ second_order ∷ []; total_qty = pos 10 }

store-Represents : Represents store fifo level
store-Represents = record {
  head = refl;
  tail = refl;
  total_qty = refl;
  chain = (refl, (refl, tt));
  distinct = ((omega arith, tt), (tt, tt));
}

enqueue-Represents_example :
    (f' : LinkedFifo) × (h' : Store) × (enqueue fifo 12 store ≡ some (f', h'))
    × Represents h' f' (Queue.enqueue level new_order)
    × SameOutside (level.orders ++ new_order ∷ []) h' store
enqueue-Represents_example =
    enqueue-Represents store fifo level new_order none none store-Represents refl
      (omega arith, (omega arith, tt))

second_at : deref 11 level.orders ≡ some second_order
unfolding deref
second_at = refl

erase-Represents_example :
    (f' : LinkedFifo) × (h' : Store) × (erase fifo 11 store ≡ some (f', h'))
    × Represents h' f' (Queue.erase level second_order)
    × (h' 11 ≡ some (node second_order none none))
    × SameOutside level.orders h' store
erase-Represents_example =
    erase-Represents store fifo level 11 second_order store-Represents second_at
