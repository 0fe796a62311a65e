-- ===== src/SlabPool.antt =====
-- include/hyperliquid/mempool.h: `SlabPool`, the free list of fixed-size slots that the order
-- nodes come from. `mmap` is outside the source: the regions that it returns are taken to be
-- disjoint, so slot i of slab k is the address k * slab_objects + i.
pub mod Allocating
pub mod Sharing
use hyperliquid_matching_eng.Base.{ℕ, zero, suc, ◌+◌, ◌-◌, ◌*◌, List, [], ◌∷◌, Option, none, some}
use hyperliquid_matching_eng.Order.{Addr}

-- `slab_objects` is SLAB_SIZE / sizeof(T).
pub record SlabPool : Type 0 where
  pub slab_objects : ℕ
  pub num_slabs : ℕ
  pub free_list : List Addr
  pub capacity : ℕ
  pub in_use : ℕ

-- The loop that links the `n` slots from `base` on into the free list.
unfoldable pub link_slots : Addr → ℕ → List Addr → List Addr
link_slots base zero free_list = free_list
link_slots base (suc n) free_list = link_slots (base + 1) n (base ∷ free_list)

unfoldable pub add_slab : SlabPool → SlabPool
unfolding link_slots
add_slab p = record p {
  num_slabs = p.num_slabs + 1;
  free_list = link_slots (p.num_slabs * p.slab_objects) p.slab_objects p.free_list;
  capacity = p.capacity + p.slab_objects;
}

unfoldable pub add_slabs : ℕ → SlabPool → SlabPool
unfolding add_slab
add_slabs zero p = p
add_slabs (suc n) p = add_slabs n (add_slab p)

-- The constructor SlabPool(initial_slabs)
unfoldable pub init : ℕ → ℕ → SlabPool
unfolding add_slabs
init slab_objects initial_slabs = add_slabs initial_slabs (record {
  slab_objects = slab_objects;
  num_slabs = 0;
  free_list = [];
  capacity = 0;
  in_use = 0;
})

unfoldable pub take_free : SlabPool → List Addr → Option (Addr × SlabPool)
take_free p [] = none
take_free p (node ∷ rest) = some (node, record p { free_list = rest; in_use = p.in_use + 1 })

-- `if (!free_list_) add_slab();`
unfoldable pub with_slot : SlabPool → List Addr → SlabPool
unfolding add_slab
with_slot p [] = add_slab p
with_slot p (node ∷ rest) = p

-- `none` is a slab too small for one object.
unfoldable pub alloc : SlabPool → Option (Addr × SlabPool)
unfolding take_free with_slot
alloc p = let q = with_slot p p.free_list in take_free q q.free_list

-- The source asserts that the pool is in use, so `--in_use_` does not wrap.
unfoldable pub free : SlabPool → Addr → SlabPool
free p ptr = record p { free_list = ptr ∷ p.free_list; in_use = p.in_use - 1 }
