-- ===== src/Bridge/Identifiers.antt =====
-- The identifiers of the active orders of tools/engine_bridge.cpp.
use hyperliquid_matching_eng.Base.{
  ℕ, zero, suc, ◌+◌, ◌<◌, ◌≡◌, refl, ap, arith, some, true, inl, inr, [], ◌∷◌, get_elem?, length,
  Bool-cases, some_inj, ◌==◌,
}
use hyperliquid_matching_eng.Types.{OrderId}
use hyperliquid_matching_eng.Command.{OrderCommand}
use hyperliquid_matching_eng.Bridge.Loop.{ActiveOrders, put_active, erase_active}

-- Every identifier is an earlier one.
abbrev pub AllBelow : OrderId → ActiveOrders → Type 0
AllBelow n [] = Unit {0}
AllBelow n (x ∷ xs) = (x.0 < n) × AllBelow n xs

pub AllBelow-up : (n : OrderId) (xs : ActiveOrders) → AllBelow n xs → AllBelow (n + 1) xs
AllBelow-up n [] v = tt
AllBelow-up n (x ∷ xs) v = (omega (arith, v.0), AllBelow-up n xs v.1)

pub put_active-AllBelow :
    (n : OrderId) (cmd : OrderCommand) (xs : ActiveOrders)
    → AllBelow n xs
    → AllBelow (n + 1) (put_active n cmd xs) × (length (put_active n cmd xs) ≡ suc (length xs))
unfolding put_active
put_active-AllBelow n cmd [] v = ((omega arith, tt), refl)
put_active-AllBelow n cmd (x ∷ xs) v = elim (Bool-cases (x.0 == n)) [
  | inl hit ↦ absurd (ground (arith, v.0))
  | inr miss ↦
      let (w, e) = put_active-AllBelow n cmd xs v.1 in rw miss ((omega (arith, v.0), w), ap suc e)
]

pub erase_active-AllBelow :
    (n : OrderId) (i : ℕ) (it : OrderId × OrderCommand) (xs : ActiveOrders)
    → AllBelow n xs
    → get_elem? xs i ≡ some it
    → AllBelow n (erase_active (it.0) xs) × (suc (length (erase_active (it.0) xs)) ≡ length xs)
unfolding erase_active
erase_active-AllBelow n i it [] v h = cc
erase_active-AllBelow n zero it (x ∷ xs) v h =
    let same : (x.0 == it.0) ≡ true =
      ground (arith, ap (λ (z : OrderId × OrderCommand). z.0) (some_inj h)) in
    rw same (v.1, refl)
erase_active-AllBelow n (suc i) it (x ∷ xs) v h = elim (Bool-cases (x.0 == it.0)) [
  | inl hit ↦ rw hit (v.1, refl)
  | inr miss ↦ let (w, e) = erase_active-AllBelow n i it xs v.1 h in rw miss ((v.0, w), ap suc e)
]
