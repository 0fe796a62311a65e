-- ===== src/SlabPool/Sharing.antt =====
-- Every node of the pool of include/hyperliquid/mempool.h is free or in use, never both.
use hyperliquid_matching_eng.Base.{
  ℕ, zero, suc, ◌+◌, ◌*◌, ◌≤◌, ◌<◌, ◌≡◌, refl, arith, some, sym, ap, subst, List, [], ◌∷◌, ltb, leb,
  ◌&&◌, if◌then◌else◌, some_inj,
}
use hyperliquid_matching_eng.Order.{Addr}
use hyperliquid_matching_eng.Order.Copies.{one, count, IsMoved}
use hyperliquid_matching_eng.SlabPool.{
  SlabPool, alloc, free, init, link_slots, take_free, with_slot, add_slab, add_slabs,
}

-- The end of the pool's slabs.
abbrev pub limit_of : SlabPool → Addr
limit_of p = p.num_slabs * p.slab_objects

-- With `used` the number of times that an address is in use outside the pool: no address is free
-- or in use twice, and none past the slabs is.
pub record IsShared (p : SlabPool) (used : Addr → ℕ) : Type 0 where
  pub once : (a : Addr) → count a p.free_list + used a ≤ 1
  pub within : (a : Addr) → limit_of p ≤ a → count a p.free_list + used a ≡ 0
  pub slots : 0 < p.slab_objects

abbrev between : Addr → Addr → ℕ → ℕ
between a base n = if leb base a && ltb a (base + n) then 1 else 0

count-link_slots :
    (a : Addr) (n base : ℕ) (free_list : List Addr)
    → count a (link_slots base n free_list) ≡ between a base n + count a free_list
unfolding link_slots count
count-link_slots a zero base free_list = ground arith
count-link_slots a (suc n) base free_list =
    let ih = count-link_slots a n (base + 1) (base ∷ free_list) in ground arith

limit-add_slab : (k n : ℕ) → (k + 1) * n ≡ k * n + n
limit-add_slab k n = omega arith

pub add_slab-IsShared :
    (p : SlabPool) (used : Addr → ℕ) → IsShared p used → IsShared (add_slab p) used
unfolding add_slab
add_slab-IsShared p used v =
    let base = limit_of p in
    let n = p.slab_objects in
    let top = limit-add_slab p.num_slabs n in
    record {
      once = λ a.
          let c = count-link_slots a n base p.free_list in
          let o = v.once a in let w = v.within a in ground arith;
      within = λ a h.
          let c = count-link_slots a n base p.free_list in
          let w = v.within a (omega arith) in ground arith;
      slots = v.slots;
    }

take_free-IsShared :
    (p p' : SlabPool) (used : Addr → ℕ) (nodes : List Addr) (node : Addr)
    → nodes ≡ p.free_list
    → IsShared p used
    → take_free p nodes ≡ some (node, p')
    → IsShared p' (λ a. one a node + used a)
unfolding take_free count
take_free-IsShared p p' used [] node same v h = cc
take_free-IsShared p p' used (x ∷ nodes) node same v h =
    subst (λ (y : Addr × SlabPool). IsShared (y.1) (λ a. one a (y.0) + used a)) (some_inj h)
      (record {
        once = λ a. omega (arith, ap (count a) same, v.once a);
        within = λ a k. omega (arith, ap (count a) same, v.within a k);
        slots = v.slots;
      })

pub alloc-IsShared :
    (p p' : SlabPool) (used : Addr → ℕ) (node : Addr)
    → IsShared p used
    → alloc p ≡ some (node, p')
    → IsShared p' (λ a. one a node + used a)
unfolding alloc
alloc-IsShared p p' used node v h =
    take_free-IsShared (with_slot p p.free_list) p' used (with_slot p p.free_list).free_list node
      refl (with_slot-IsShared p.free_list) h
  where
    with_slot-IsShared : (nodes : List Addr) → IsShared (with_slot p nodes) used
    with_slot-IsShared [] = add_slab-IsShared p used v
    with_slot-IsShared (x ∷ nodes) = v

add_slabs-IsShared :
    (n : ℕ) (p : SlabPool) (used : Addr → ℕ) → IsShared p used → IsShared (add_slabs n p) used
unfolding add_slabs
add_slabs-IsShared zero p used v = v
add_slabs-IsShared (suc n) p used v =
    add_slabs-IsShared n (add_slab p) used (add_slab-IsShared p used v)

pub init-IsShared :
    (slab_objects n : ℕ) → 0 < slab_objects → IsShared (init slab_objects n) (λ a. 0)
unfolding init count
init-IsShared slab_objects n h =
    add_slabs-IsShared n _ (λ a. 0)
      (record { once = λ a. omega arith; within = λ a k. refl; slots = h })

pub IsMoved-IsShared :
    (p p' : SlabPool) (u u' rest : Addr → ℕ)
    → IsMoved p p' u u'
    → IsShared p (λ a. u a + rest a)
    → IsShared p' (λ a. u' a + rest a)
IsMoved-IsShared p p' u u' rest m v = record {
  once = λ a. omega (arith, m.balance a, v.once a);
  within =
      λ a h. omega (arith, m.balance a, v.within a (rw (sym m.num_slabs, sym m.slab_objects) h));
  slots = rw (m.slab_objects) (v.slots);
}

pub free-IsShared :
    (p : SlabPool) (u u' : Addr → ℕ) (node : Addr)
    → IsShared p u
    → ((a : Addr) → u a ≡ one a node + u' a)
    → IsShared (free p node) u'
unfolding free count
free-IsShared p u u' node v less = record {
  once = λ a. omega (arith, v.once a, less a);
  within = λ a h. omega (arith, v.within a h, less a);
  slots = v.slots;
}

pub IsShared-same :
    (p : SlabPool) (u u' : Addr → ℕ) → ((a : Addr) → u' a ≡ u a) → IsShared p u → IsShared p u'
IsShared-same p u u' same v = record {
  once = λ a. omega (arith, v.once a, same a);
  within = λ a h. omega (arith, v.within a h, same a);
  slots = v.slots;
}
