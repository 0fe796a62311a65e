-- ===== src/SlabPool/Allocating.antt =====
-- `alloc` of include/hyperliquid/mempool.h always has a node to give.
use hyperliquid_matching_eng.Base.{
  ℕ, zero, suc, ◌+◌, ◌-◌, ◌*◌, ◌≤◌, ◌<◌, ◌≡◌, refl, arith, some, ◌⊎◌, inl, inr, ◌∙◌, ap, List, [],
  ◌∷◌,
}
use hyperliquid_matching_eng.Order.{Addr}
use hyperliquid_matching_eng.SlabPool.{SlabPool, alloc, link_slots, take_free, with_slot, add_slab}

-- A node that `alloc` may hand out: the first of the free list, or one of the next slab.
abbrev pub IsFreeNode : SlabPool → Addr → Type 0
IsFreeNode p a =
    ((rest : List Addr) × (p.free_list ≡ a ∷ rest)) ⊎ (p.num_slabs * p.slab_objects ≤ a)

link_slots-head :
    (n base : ℕ) (free_list : List Addr)
    → (rest : List Addr) × (link_slots base (suc n) free_list ≡ (base + n) ∷ rest)
unfolding link_slots
link_slots-head zero base free_list = (free_list, ap (λ k. k ∷ free_list) (omega arith))
link_slots-head (suc n) base free_list =
    let (rest, e) = link_slots-head n (base + 1) (base ∷ free_list) in
    (rest, e ∙ ap (λ k. k ∷ rest) (omega arith))

-- A pool whose slabs hold at least one object always has a node to give.
pub alloc-total :
    (p : SlabPool)
    → 0 < p.slab_objects
    → (node : Addr) × (p' : SlabPool) × (alloc p ≡ some (node, p')) × IsFreeNode p node
unfolding alloc take_free with_slot add_slab
alloc-total p h = elim (nil-cases p.free_list) [
  | inl out ↦
      let n = p.slab_objects - 1 in
      let base = p.num_slabs * p.slab_objects in
      let (rest, e) = link_slots-head n base [] in
      let full : link_slots base p.slab_objects [] ≡ (base + n) ∷ rest =
        ap (λ k. link_slots base k []) {x = p.slab_objects} {y = suc n} (omega arith) ∙ e in
      (
        base + n,
        record (add_slab p) { free_list = rest; in_use = p.in_use + 1 },
        rw (out, full) refl,
        inr (omega arith),
      )
  | inr (node, rest, e) ↦
      (node, record p { free_list = rest; in_use = p.in_use + 1 }, rw e refl, inl (rest, e))
]
  where
    nil-cases :
        (free_list : List Addr)
        → (free_list ≡ []) ⊎ ((a : Addr) × (rest : List Addr) × (free_list ≡ a ∷ rest))
    nil-cases [] = inl refl
    nil-cases (a ∷ rest) = inr (a, rest, refl)
