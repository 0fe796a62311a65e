-- ===== src/Pipeline/Whole.antt =====
-- The whole program (src/main.cpp) against its engines one by one: what the commands of each symbol
-- lead to, what stands in the logs, and that the threads come to an end of the file.
use hyperliquid_matching_eng.Base.{
  ℕ, zero, suc, ◌≤◌, ◌<◌, ◌≡◌, refl, sym, ◌∙◌, ap, subst, arith, some, some_inj, List, [], ◌∷◌,
  ◌++◌, map, get_elem?, length, length-map, lt-of_get_elem?, get_elem?-of_lt, ℕ_discrete, dec_lt,
  ◌⊎◌, inl, inr, List-cases,
}
use hyperliquid_matching_eng.Types.{Timestamp}
use hyperliquid_matching_eng.Command.{OrderCommand, AnyEvent}
use hyperliquid_matching_eng.SpscQueue.{capacity}
use hyperliquid_matching_eng.SpscQueue.Fifo.{Holds}
use hyperliquid_matching_eng.Book.State.{OrderBook}
use hyperliquid_matching_eng.Book.Sound.{IsSound}
use hyperliquid_matching_eng.MatchingEngine.{MatchingEngine}
use hyperliquid_matching_eng.FeedHandler.Routing.{for_symbol}
use hyperliquid_matching_eng.Publisher.{Publisher}
use hyperliquid_matching_eng.Publisher.Logs.{Logged}
use hyperliquid_matching_eng.Pipeline.{Lane, LaneStep, Label, fed, inside, published}
use hyperliquid_matching_eng.Pipeline.Serial.{serve_all, AllSane}
use hyperliquid_matching_eng.Pipeline.Progress.{LaneRuns-serve_all, GoesOn, IsNext}
use hyperliquid_matching_eng.Pipeline.System.{
  System, LogEntry, SystemStep, SystemRuns, skips, routes, works, logs, of_lane, launch,
}
use hyperliquid_matching_eng.Pipeline.Kept.{Kept, SystemRuns-Kept, events_of}
use hyperliquid_matching_eng.Pipeline.History.{for_symbol-append, for_symbol-own}

-- An engine before the threads start.
pub record IsReady (e : MatchingEngine) : Type 0 where
  pub sound : IsSound e.order_book
  pub input : Holds e.config.input_queue []
  pub output : Holds e.config.output_queue []
  pub input_room : 0 < capacity e.config.input_queue
  pub output_room : 0 < capacity e.config.output_queue

abbrev pub first_lane : MatchingEngine → Lane
first_lane e = record { engine = e; outgoing = [] }

get_elem?-map :
    (es : List MatchingEngine) (i : ℕ) (e : MatchingEngine)
    → get_elem? es i ≡ some e
    → get_elem? (map first_lane es) i ≡ some (first_lane e)
get_elem?-map [] i e h = cc
get_elem?-map (x ∷ es) zero e h = ap (λ y. some (first_lane y)) (some_inj h)
get_elem?-map (x ∷ es) (suc i) e h = get_elem?-map es i e h

abbrev head_of : OrderCommand → List OrderCommand → OrderCommand
head_of d [] = d
head_of d (c ∷ rest) = c

-- Every event that the engine makes of its symbol's commands, served one after another, and the
-- book after them: `log` begins them.
abbrev pub Serial : (ℕ → Timestamp) → MatchingEngine → List OrderCommand → List AnyEvent → Type 0
Serial now_ns e cs logged =
    (all : List AnyEvent) × (last : OrderBook) × (rest : List AnyEvent) × (serve_all now_ns [] cs
        e.order_book
      ≡ some (all, last))
    × (all ≡ logged ++ rest)

-- All the events of a symbol have been logged.
abbrev pub SymbolDone :
    (ℕ → ℕ → Timestamp) → List MatchingEngine → List OrderCommand → List LogEntry → ℕ → Type 0
SymbolDone clocks engines file log i =
    (e : MatchingEngine)
    → get_elem? engines i ≡ some e
    → (last : OrderBook) × (serve_all (clocks i) [] (for_symbol i file) e.order_book
        ≡ some (of_lane i log, last))

-- Some thread can go on.
abbrev pub CanGoOn : (ℕ → ℕ → Timestamp) → System → Type 0
CanGoOn clocks s =
    (used : List OrderCommand) × (out : List LogEntry) × (s' : System) × SystemStep clocks s used
      out s'

module _ (clocks : ℕ → ℕ → Timestamp) (engines : List MatchingEngine) (file : List OrderCommand)
    (publisher : Publisher)
    (ready : (i : ℕ) (e : MatchingEngine) → get_elem? engines i ≡ some e → IsReady e)
    (sane : (i : ℕ) (e : MatchingEngine)
      → get_elem? engines i ≡ some e
      → AllSane (clocks i) (for_symbol i file) e.order_book)
    (cs : List OrderCommand) (log : List LogEntry) (s : System)
    (runs : SystemRuns clocks (launch engines file publisher) cs log s) where
  kept : Kept clocks (launch engines file publisher) cs log s
  kept = SystemRuns-Kept clocks (launch engines file publisher) s cs log runs

  symbol :
      (i : ℕ) (e : MatchingEngine)
      → get_elem? engines i ≡ some e
      → Serial (clocks i) e (for_symbol i file) (of_lane i log)
        × (((for_symbol i s.file ≡ []) × SymbolDone clocks engines file log i)
            ⊎ ((l : Lane) × (get_elem? s.lanes i ≡ some l)
                × GoesOn (clocks i) e.order_book (for_symbol i s.file) l))
  unfolding launch
  symbol i e at =
      let v = kept in
      let w = ready i e at in
      let (n, l, here, r) = v.run i (first_lane e) (get_elem?-map engines i e at) in
      let split : for_symbol i file ≡ for_symbol i cs ++ for_symbol i s.file =
        ap (for_symbol i) v.file ∙ for_symbol-append i cs s.file in
      let (all, last, served, (rest, begun), bound, end) =
        LaneRuns-serve_all (clocks i) e (for_symbol i cs) (for_symbol i s.file) (of_lane i log) n l
          w.sound w.input w.output w.input_room w.output_room
          (subst (λ x. AllSane (clocks i) x e.order_book) split (sane i e at)) r in
      let serial : serve_all (clocks i) [] (for_symbol i file) e.order_book ≡ some (all, last) =
        ap (λ x. serve_all (clocks i) [] x e.order_book) split ∙ served in
      (
        (all, last, rest, serial, begun),
        elim end [
          | inl (none_left, same, book) ↦ inl (
            none_left,
            λ d at_d.
                subst
                  (λ (x : MatchingEngine).
                    (z : OrderBook) × (serve_all (clocks i) [] (for_symbol i file) x.order_book
                      ≡ some (of_lane i log, z)))
                  (some_inj (sym at ∙ at_d)) (last, serial ∙ ap (λ x. some (x, last)) (sym same)),
          )
          | inr more ↦ inr (l, here, more)
        ],
      )

  -- A step of a lane is one of the program, if a command that it feeds is the next of the file.
  lane_moves :
      (i : ℕ) (l l' : Lane) (a : Label)
      → get_elem? s.lanes i ≡ some l
      → LaneStep (clocks i) l a l'
      → ((c : OrderCommand)
          → a ≡ fed c
          → (c.symbol_id ≡ i) × (rest : List OrderCommand) × (s.file ≡ c ∷ rest))
      → CanGoOn clocks s
  lane_moves i l l' (fed c) here step next =
      let (same, rest, e) = next c refl in
      (
        c ∷ [],
        [],
        _,
        routes e (subst (λ k. get_elem? s.lanes k ≡ some l) (sym same) here)
            (subst (λ k. LaneStep (clocks k) l (fed c) l') (sym same) step),
      )
  lane_moves i l l' inside here step next = ([], [], _, works i here step)
  lane_moves i l l' (published e) here step next = ([], (i, e) ∷ [], _, logs i here step)

  -- At the end of the file, the symbols up to a number are done, or one of their lanes can go on.
  search_lanes :
      (k : ℕ)
      → k ≤ length engines
      → s.file ≡ []
      → ((i : ℕ) → i < k → SymbolDone clocks engines file log i) ⊎ CanGoOn clocks s
  unfolding for_symbol
  search_lanes zero h end = inl (λ i lt. absurd (omega arith))
  search_lanes (suc k) h end = elim (search_lanes k (omega arith) end) [
    | inr more ↦ inr more
    | inl before ↦
        let (e, at) = get_elem?-of_lt engines k (omega arith) in
        elim ((symbol k e at).1) [
          | inl (none_left, done) ↦ inl λ i lt. elim (ℕ_discrete i k) [
            | yes same ↦ subst (SymbolDone clocks engines file log) (sym same) done
            | no other ↦ before i (omega arith)
          ]
          | inr (l, here, (a, l', step, next)) ↦ inr (
              lane_moves k l l' a here step λ c is.
                let (rest, e) : IsNext (fed c) (for_symbol k s.file) =
                  subst (λ x. IsNext x (for_symbol k s.file)) is next in
                let no : [] ≡ c ∷ rest = ap (for_symbol k) (sym end) ∙ e in absurd (ground arith))
        ]
  ]

  -- The lane of the next command of the file can go on, or the command is for no symbol.
  next_command :
      (c : OrderCommand) (rest : List OrderCommand) → s.file ≡ c ∷ rest → CanGoOn clocks s
  unfolding launch
  next_command c rest e = elim (dec_lt c.symbol_id (length engines)) [
    | no out ↦ (c ∷ [], [], _, skips e (omega (arith, kept.width, length-map engines first_lane)))
    | yes lt ↦
        let (g, at) = get_elem?-of_lt engines c.symbol_id lt in
        let own : for_symbol c.symbol_id s.file ≡ c ∷ for_symbol c.symbol_id rest =
          ap (for_symbol c.symbol_id) e ∙ for_symbol-own c rest in
        elim ((symbol c.symbol_id g at).1) [
          | inl (none_left, done) ↦
              let no : c ∷ for_symbol c.symbol_id rest ≡ [] = sym own ∙ none_left in
              absurd (ground arith)
          | inr (l, here, (a, l', step, next)) ↦ lane_moves c.symbol_id l l' a here step λ d is.
              let (more, f) : IsNext (fed d) (for_symbol c.symbol_id s.file) =
                subst (λ x. IsNext x (for_symbol c.symbol_id s.file)) is next in
              let same : d ≡ c = ap (head_of c) (sym f ∙ own) in
              (
                ap (λ (x : OrderCommand). x.symbol_id) same,
                rest,
                subst (λ x. s.file ≡ x ∷ rest) (sym same) e,
              )
        ]
  ]

  -- Engines with sound books and two empty rings of at least two slots each are launched over a
  -- file, in which the commands of each symbol are sane when they are served in turn. In whatever
  -- order the feed, the engines and the publisher make their steps: the logs hold exactly the
  -- trades and the book updates of the events that have come out of the rings, in order, and
  -- count them; those of each symbol are a beginning of the events that its engine makes of all
  -- its commands, served one after another; and either the file has been read and every symbol's
  -- events are all in the logs, or some thread can go on.
  pub SystemRuns-Serial :
      Logged publisher s.publisher (events_of log)
      × ((i : ℕ) (e : MatchingEngine)
          → get_elem? engines i ≡ some e
          → Serial (clocks i) e (for_symbol i file) (of_lane i log))
      × (((s.file ≡ []) × ((i : ℕ) → SymbolDone clocks engines file log i)) ⊎ CanGoOn clocks s)
  unfolding launch
  SystemRuns-Serial = (
    kept.logged,
    λ i e at. (symbol i e at).0,
    elim (List-cases s.file) [
      | inr (c, rest, more) ↦ inr (next_command c rest more)
      | inl end ↦ elim (search_lanes (length engines) (omega arith) end) [
        | inr more ↦ inr more
        | inl all ↦ inl (end, λ i e at. all i (lt-of_get_elem? engines i e at) e at)
      ]
    ],
  )
