-- ===== src/Pipeline/History.antt =====
-- What the steps of the program (src/main.cpp) are for one symbol: a run of the threads of its lane.
use mathlib.Core.List.{append-nil}
use hyperliquid_matching_eng.Base.{
  ℕ, suc, ◌≡◌, ◌≢◌, refl, sym, ◌∙◌, subst, arith, some, some_inj, List, [], ◌∷◌, ◌++◌, get_elem?,
  set, get_elem?-set_self, get_elem?-set_ne, lt-of_get_elem?, ℕ_discrete,
}
use hyperliquid_matching_eng.Types.{Timestamp}
use hyperliquid_matching_eng.Command.{OrderCommand, AnyEvent}
use hyperliquid_matching_eng.FeedHandler.Routing.{for_symbol}
use hyperliquid_matching_eng.Pipeline.{
  Lane, LaneStep, Label, fed, inside, published, LaneRuns, goes_on, fed_by, published_by,
}
use hyperliquid_matching_eng.Pipeline.System.{
  System, LogEntry, SystemStep, skips, routes, works, logs, of_lane,
}

of_lane-append :
    (i : ℕ) (xs ys : List LogEntry) → of_lane i (xs ++ ys) ≡ of_lane i xs ++ of_lane i ys
unfolding of_lane
of_lane-append i [] ys = refl
of_lane-append i ((j, e) ∷ xs) ys = ground (arith, of_lane-append i xs ys)

pub for_symbol-append :
    (i : ℕ) (xs ys : List OrderCommand)
    → for_symbol i (xs ++ ys) ≡ for_symbol i xs ++ for_symbol i ys
unfolding for_symbol
for_symbol-append i [] ys = refl
for_symbol-append i (x ∷ xs) ys = ground (arith, for_symbol-append i xs ys)

pub for_symbol-own :
    (c : OrderCommand) (cs : List OrderCommand)
    → for_symbol c.symbol_id (c ∷ cs) ≡ c ∷ for_symbol c.symbol_id cs
unfolding for_symbol
for_symbol-own c cs = ground arith

for_symbol-one : (i : ℕ) (c : OrderCommand) → c.symbol_id ≢ i → for_symbol i (c ∷ []) ≡ []
unfolding for_symbol
for_symbol-one i c ne = ground arith

of_lane-own : (i : ℕ) (e : AnyEvent) → of_lane i ((i, e) ∷ []) ≡ e ∷ []
unfolding of_lane
of_lane-own i e = ground arith

of_lane-other : (i j : ℕ) (e : AnyEvent) → j ≢ i → of_lane i ((j, e) ∷ []) ≡ []
unfolding of_lane
of_lane-other i j e ne = ground arith

-- A lane that has run from its start.
abbrev pub HasRun :
    (ℕ → Timestamp) → Lane → ℕ → List OrderCommand → List LogEntry → List Lane → Type 0
HasRun now_ns first i cs log lanes =
    (n : ℕ) × (l : Lane) × (get_elem? lanes i ≡ some l)
    × LaneRuns now_ns first (for_symbol i cs) (of_lane i log) n l

module _ (now_ns : ℕ → Timestamp) (first : Lane) (i : ℕ) (cs used : List OrderCommand)
    (log out : List LogEntry) (lanes : List Lane) where
  -- A step elsewhere.
  HasRun-same :
      (lanes' : List Lane)
      → get_elem? lanes' i ≡ get_elem? lanes i
      → for_symbol i used ≡ []
      → of_lane i out ≡ []
      → HasRun now_ns first i cs log lanes
      → HasRun now_ns first i (cs ++ used) (log ++ out) lanes'
  HasRun-same lanes' same no_use no_out (n, l, at, r) = (
    n,
    l,
    same ∙ at,
    rw
        (
          for_symbol-append i cs used,
          of_lane-append i log out,
          no_use,
          no_out,
          append-nil (for_symbol i cs),
          append-nil (of_lane i log),
        )
        r,
  )

  -- A step of this lane.
  HasRun-step :
      (j : ℕ) (a : Label) (l l' : Lane)
      → j ≡ i
      → get_elem? lanes j ≡ some l
      → for_symbol i used ≡ fed_by a
      → of_lane i out ≡ published_by a
      → LaneStep now_ns l a l'
      → HasRun now_ns first i cs log lanes
      → HasRun now_ns first i (cs ++ used) (log ++ out) (set lanes j l')
  HasRun-step j a l l' same at_j in_use going step (n, k, at, r) =
      let here : get_elem? lanes i ≡ some l = subst (λ x. get_elem? lanes x ≡ some l) same at_j in
      (
        suc n,
        l',
        subst (λ x. get_elem? (set lanes x l') i ≡ some l') (sym same)
            (get_elem?-set_self lanes i l' (lt-of_get_elem? lanes i l here)),
        rw (for_symbol-append i cs used, of_lane-append i log out, in_use, going)
            (goes_on r (subst (λ x. LaneStep now_ns x a l') (some_inj (sym here ∙ at)) step)),
      )

module _ (clocks : ℕ → ℕ → Timestamp) where
  -- Each step of the program is a step of at most one lane.
  pub SystemStep-HasRun :
      (first : Lane) (i : ℕ) (cs used : List OrderCommand) (log out : List LogEntry) (s s' : System)
      → HasRun (clocks i) first i cs log s.lanes
      → SystemStep clocks s used out s'
      → HasRun (clocks i) first i (cs ++ used) (log ++ out) s'.lanes
  unfolding for_symbol of_lane
  SystemStep-HasRun first i cs used log out s s' r (skips {c} next no_lane) =
      let (n, l, at, run) = r in
      let other : c.symbol_id ≢ i = λ e. absurd (omega (arith, lt-of_get_elem? s.lanes i l at)) in
      HasRun-same (clocks i) first i cs used log out s.lanes s.lanes refl (for_symbol-one i c other)
        refl r
  SystemStep-HasRun first i cs used log out s s' r (routes {c} {l} {l'} next at step) =
      elim (ℕ_discrete c.symbol_id i) [
        | no other ↦
            HasRun-same (clocks i) first i cs used log out s.lanes s'.lanes
              (get_elem?-set_ne s.lanes l' other) (for_symbol-one i c other) refl r
        | yes same ↦
            HasRun-step (clocks i) first i cs used log out s.lanes c.symbol_id (fed c) l l' same at
              (subst (λ k. for_symbol k (c ∷ []) ≡ c ∷ []) same (for_symbol-own c [])) refl
              (subst (λ x. LaneStep (clocks x) l (fed c) l') same step) r
      ]
  SystemStep-HasRun first i cs used log out s s' r (works j {l} {l'} at step) =
      elim (ℕ_discrete j i) [
        | no other ↦
            HasRun-same (clocks i) first i cs used log out s.lanes s'.lanes
              (get_elem?-set_ne s.lanes l' other) refl refl r
        | yes same ↦
            HasRun-step (clocks i) first i cs used log out s.lanes j inside l l' same at refl refl
              (subst (λ x. LaneStep (clocks x) l inside l') same step) r
      ]
  SystemStep-HasRun first i cs used log out s s' r (logs j {e} {l} {l'} at step) =
      elim (ℕ_discrete j i) [
        | no other ↦
            HasRun-same (clocks i) first i cs used log out s.lanes s'.lanes
              (get_elem?-set_ne s.lanes l' other) refl (of_lane-other i j e other) r
        | yes same ↦
            HasRun-step (clocks i) first i cs used log out s.lanes j (published e) l l' same at refl
              (subst (λ k. of_lane k ((j, e) ∷ []) ≡ e ∷ []) same (of_lane-own j e))
              (subst (λ x. LaneStep (clocks x) l (published e) l') same step) r
      ]
