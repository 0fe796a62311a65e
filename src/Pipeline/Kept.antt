-- ===== src/Pipeline/Kept.antt =====
-- What every run of the program (src/main.cpp) keeps: the file, the lanes and the logs.
use mathlib.Core.List.{append_assoc}
use hyperliquid_matching_eng.Base.{
  ℕ, ◌≡◌, refl, sym, ◌∙◌, ap, some, List, [], ◌∷◌, ◌++◌, map, get_elem?, length, length-set,
}
use hyperliquid_matching_eng.Types.{Timestamp}
use hyperliquid_matching_eng.Command.{OrderCommand, AnyEvent}
use hyperliquid_matching_eng.FeedHandler.Routing.{for_symbol}
use hyperliquid_matching_eng.Publisher.Logs.{Logged, Logged-append, Logged-nil, Logged-one}
use hyperliquid_matching_eng.Pipeline.{Lane, starts}
use hyperliquid_matching_eng.Pipeline.System.{
  System, LogEntry, SystemStep, SystemRuns, skips, routes, works, logs, begins, follows, of_lane,
}
use hyperliquid_matching_eng.Pipeline.History.{HasRun, SystemStep-HasRun}

abbrev pub events_of : List LogEntry → List AnyEvent
events_of = map (λ (x : LogEntry). x.1)

map-append : (xs ys : List LogEntry) → events_of (xs ++ ys) ≡ events_of xs ++ events_of ys
map-append [] ys = refl
map-append (x ∷ xs) ys = ap (λ es. x.1 ∷ es) (map-append xs ys)

module _ (clocks : ℕ → ℕ → Timestamp) where
  -- What every run of the program keeps.
  pub record Kept (s0 : System) (cs : List OrderCommand) (log : List LogEntry) (s : System)
      : Type 0 where
    pub file : s0.file ≡ cs ++ s.file
    pub width : length s.lanes ≡ length s0.lanes
    pub logged : Logged s0.publisher s.publisher (events_of log)
    pub run :
        (i : ℕ) (l : Lane) → get_elem? s0.lanes i ≡ some l → HasRun (clocks i) l i cs log s.lanes

  SystemStep-Kept :
      (s0 s s' : System) (cs used : List OrderCommand) (log out : List LogEntry)
      → Kept s0 cs log s
      → SystemStep clocks s used out s'
      → (s.file ≡ used ++ s'.file)
        × (length s'.lanes ≡ length s.lanes)
        × Logged s.publisher s'.publisher (events_of out)
  SystemStep-Kept s0 s s' cs used log out v (skips next no_lane) =
      (next, refl, Logged-nil s.publisher)
  SystemStep-Kept s0 s s' cs used log out v (routes {c} {l'} next at step) =
      (next, length-set s.lanes c.symbol_id l', Logged-nil s.publisher)
  SystemStep-Kept s0 s s' cs used log out v (works i {l'} at step) =
      (refl, length-set s.lanes i l', Logged-nil s.publisher)
  SystemStep-Kept s0 s s' cs used log out v (logs i {e} {l'} at step) =
      (refl, length-set s.lanes i l', Logged-one s.publisher e)

  pub SystemRuns-Kept :
      (s0 s : System) (cs : List OrderCommand) (log : List LogEntry)
      → SystemRuns clocks s0 cs log s
      → Kept s0 cs log s
  unfolding for_symbol of_lane
  SystemRuns-Kept s0 s cs log begins = record {
    file = refl;
    width = refl;
    logged = Logged-nil s0.publisher;
    run = λ i l at. (0, l, at, starts);
  }
  SystemRuns-Kept s0 s cs log (follows {cs = ds} {used} {log = old} {out} {s = a} r step) =
      let v = SystemRuns-Kept s0 a ds old r in
      let (file, width, logged) = SystemStep-Kept s0 a s ds used old out v step in
      record {
        file = v.file ∙ ap (λ x. ds ++ x) file ∙ sym (append_assoc ds used s.file);
        width = width ∙ v.width;
        logged = rw (map-append old out) (
            Logged-append s0.publisher a.publisher s.publisher (events_of old) (events_of out)
              v.logged logged);
        run = λ i l at. SystemStep-HasRun clocks l i ds used old out a s (v.run i l at) step;
      }
