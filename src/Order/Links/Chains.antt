-- ===== src/Order/Links/Chains.antt =====
-- Chains of linked nodes (include/hyperliquid/order.h): what a list of orders looks like in the store.
use hyperliquid_matching_eng.Base.{
  ◌≡◌, ◌≢◌, refl, sym, ◌∙◌, ap, List, [], ◌∷◌, ◌++◌, none, some, arith,
}
use hyperliquid_matching_eng.Order.{Addr, Order}
use hyperliquid_matching_eng.Order.Laws.{Apart, Distinct}
use hyperliquid_matching_eng.Order.Links.{Ptr, Node, Store, write, link_next, link_prev}

-- The first node of a list in front of `after`, and the last one behind `before`.
abbrev pub first : List Order → Ptr → Ptr
first [] after = after
first (o ∷ os) after = some o.addr

abbrev pub last : Ptr → List Order → Ptr
last before [] = before
last before (o ∷ os) = last (some o.addr) os

abbrev pub node : Order → Ptr → Ptr → Node
node o prev next = record { order = o; prev = prev; next = next }

-- The orders stand in the store, linked both ways, between `before` and `after`.
abbrev pub Chain : Store → Ptr → List Order → Ptr → Type 0
Chain h before [] after = Unit {0}
Chain h before (o ∷ os) after =
    (h o.addr ≡ some (node o before (first os after))) × Chain h (some o.addr) os after

-- Two stores agree on the nodes of a list.
abbrev pub Agree : Store → Store → List Order → Type 0
Agree g h [] = Unit {0}
Agree g h (o ∷ os) = (g o.addr ≡ h o.addr) × Agree g h os

pub Chain-Agree :
    (g h : Store) (before : Ptr) (os : List Order) (after : Ptr)
    → Agree g h os
    → Chain h before os after
    → Chain g before os after
Chain-Agree g h before [] after same c = tt
Chain-Agree g h before (o ∷ os) after same c =
    (same.0 ∙ c.0, Chain-Agree g h (some o.addr) os after same.1 c.1)

-- The stores agree outside the nodes of a list.
abbrev pub SameOutside : List Order → Store → Store → Type 0
SameOutside os g h = (a : Addr) → Apart a os → g a ≡ h a

-- No node of the first list is one of the second.
abbrev pub AllApart : List Order → List Order → Type 0
AllApart [] ys = Unit {0}
AllApart (x ∷ xs) ys = Apart x.addr ys × AllApart xs ys

pub Agree-outside :
    (g h : Store) (xs ys : List Order) → SameOutside ys g h → AllApart xs ys → Agree g h xs
Agree-outside g h [] ys same apart = tt
Agree-outside g h (x ∷ xs) ys same apart =
    (same x.addr apart.0, Agree-outside g h xs ys same apart.1)

pub write_self : (h : Store) (a : Addr) (n : Node) → write h a n a ≡ some n
unfolding write
write_self h a n = ground arith

pub write_other : (h : Store) (a b : Addr) (n : Node) → a ≢ b → write h a n b ≡ h b
unfolding write
write_other h a b n ne = ground arith

Agree-write :
    (h : Store) (a : Addr) (n : Node) (os : List Order) → Apart a os → Agree (write h a n) h os
Agree-write h a n [] apart = tt
Agree-write h a n (o ∷ os) apart =
    (write_other h a o.addr n (λ e. apart.0 (sym e)), Agree-write h a n os apart.1)

pub Chain-write :
    (h : Store) (a : Addr) (n : Node) (before : Ptr) (os : List Order) (after : Ptr)
    → Apart a os
    → Chain h before os after
    → Chain (write h a n) before os after
Chain-write h a n before os after apart c =
    Chain-Agree (write h a n) h before os after (Agree-write h a n os apart) c

-- A chain in two parts.
pub first-append :
    (xs ys : List Order) (after : Ptr) → first (xs ++ ys) after ≡ first xs (first ys after)
first-append [] ys after = refl
first-append (x ∷ xs) ys after = refl

pub last-append :
    (before : Ptr) (xs ys : List Order) → last before (xs ++ ys) ≡ last (last before xs) ys
last-append before [] ys = refl
last-append before (x ∷ xs) ys = last-append (some x.addr) xs ys

pub Chain-split :
    (h : Store) (before : Ptr) (xs ys : List Order) (after : Ptr)
    → Chain h before (xs ++ ys) after
    → Chain h before xs (first ys after) × Chain h (last before xs) ys after
Chain-split h before [] ys after c = (tt, c)
Chain-split h before (x ∷ xs) ys after c =
    let (l, r) = Chain-split h (some x.addr) xs ys after c.1 in
    ((c.0 ∙ ap (λ p. some (node x before p)) (first-append xs ys after), l), r)

pub Chain-append :
    (h : Store) (before : Ptr) (xs ys : List Order) (after : Ptr)
    → Chain h before xs (first ys after)
    → Chain h (last before xs) ys after
    → Chain h before (xs ++ ys) after
Chain-append h before [] ys after l r = r
Chain-append h before (x ∷ xs) ys after l r = (
  l.0 ∙ ap (λ p. some (node x before p)) (sym (first-append xs ys after)),
  Chain-append h (some x.addr) xs ys after l.1 r,
)

-- The last node of a chain is led elsewhere.
link_next-last :
    (h : Store) (before : Ptr) (o : Order) (os : List Order) (after after' : Ptr)
    → Distinct (o ∷ os)
    → Chain h before (o ∷ os) after
    → (g : Store) × (link_next (last before (o ∷ os)) after' h ≡ some g)
      × Chain g before (o ∷ os) after'
      × SameOutside (o ∷ os) g h
unfolding link_next
link_next-last h before o [] after after' d c = (
  write h o.addr (node o before after'),
  rw (c.0) refl,
  (write_self h o.addr _, tt),
  λ a apart. write_other h o.addr a _ apart.0,
)
link_next-last h before o (p ∷ os) after after' d c =
    let (g, e, chain, same) = link_next-last h (some o.addr) p os after after' d.1 c.1 in
    (g, e, (same o.addr d.0 ∙ c.0, chain), λ a apart. same a apart.1)

pub link_next-Chain :
    (h : Store) (os : List Order) (after after' : Ptr)
    → Distinct os
    → Chain h none os after
    → (g : Store) × (link_next (last none os) after' h ≡ some g)
      × Chain g none os after'
      × SameOutside os g h
unfolding link_next
link_next-Chain h [] after after' d c = (h, refl, tt, λ a apart. refl)
link_next-Chain h (o ∷ os) after after' d c = link_next-last h none o os after after' d c

-- The first node of a chain is led elsewhere.
pub link_prev-Chain :
    (h : Store) (before before' : Ptr) (os : List Order)
    → Distinct os
    → Chain h before os none
    → (g : Store) × (link_prev (first os none) before' h ≡ some g)
      × Chain g before' os none
      × SameOutside os g h
unfolding link_prev
link_prev-Chain h before before' [] d c = (h, refl, tt, λ a apart. refl)
link_prev-Chain h before before' (o ∷ os) d c = (
  write h o.addr (node o before' (first os none)),
  rw (c.0) refl,
  (write_self h o.addr _, Chain-write h o.addr _ (some o.addr) os none d.0 c.1),
  λ a apart. write_other h o.addr a _ apart.0,
)

-- A list of distinct nodes in two parts.
pub Apart-append : (a : Addr) (xs ys : List Order) → Apart a (xs ++ ys) → Apart a xs × Apart a ys
Apart-append a [] ys h = (tt, h)
Apart-append a (x ∷ xs) ys h = let (l, r) = Apart-append a xs ys h.1 in ((h.0, l), r)

pub Distinct-split :
    (xs ys : List Order) → Distinct (xs ++ ys) → Distinct xs × Distinct ys × AllApart xs ys
Distinct-split [] ys d = (tt, d, tt)
Distinct-split (x ∷ xs) ys d =
    let (dx, dy, apart) = Distinct-split xs ys d.1 in
    let (ax, ay) = Apart-append x.addr xs ys d.0 in ((ax, dx), dy, (ay, apart))

AllApart-nil : (ys : List Order) → AllApart ys []
AllApart-nil [] = tt
AllApart-nil (y ∷ ys) = (tt, AllApart-nil ys)

AllApart-∷ :
    (x : Order) (xs ys : List Order) → Apart x.addr ys → AllApart ys xs → AllApart ys (x ∷ xs)
AllApart-∷ x xs [] h k = tt
AllApart-∷ x xs (y ∷ ys) h k = ((λ e. h.0 (sym e), k.0), AllApart-∷ x xs ys h.1 k.1)

pub AllApart-swap : (xs ys : List Order) → AllApart xs ys → AllApart ys xs
AllApart-swap [] ys h = AllApart-nil ys
AllApart-swap (x ∷ xs) ys h = AllApart-∷ x xs ys h.0 (AllApart-swap xs ys h.1)

pub AllApart-tail :
    (xs : List Order) (y : Order) (ys : List Order) → AllApart xs (y ∷ ys) → AllApart xs ys
AllApart-tail [] y ys h = tt
AllApart-tail (x ∷ xs) y ys h = (h.0.1, AllApart-tail xs y ys h.1)
