-- ===== src/Pipeline/Progress.antt =====
-- How the threads of one symbol (src/main.cpp) come to an end of the commands.
use mathlib.Core.List.{append_assoc, append-nil}
use hyperliquid_matching_eng.Base.{
  ℕ, ◌+◌, ◌*◌, ◌≤◌, ◌<◌, ◌≡◌, refl, sym, ◌∙◌, ap, subst, arith, some, some_inj, List, [], ◌∷◌, ◌++◌,
  length, length-append, ◌⊎◌, inl, inr, List-cases,
}
use hyperliquid_matching_eng.Types.{Timestamp}
use hyperliquid_matching_eng.Command.{OrderCommand, AnyEvent}
use hyperliquid_matching_eng.SpscQueue.{capacity}
use hyperliquid_matching_eng.SpscQueue.Fifo.{Holds, push-Holds, pop-Holds}
use hyperliquid_matching_eng.Book.State.{OrderBook}
use hyperliquid_matching_eng.Book.Sound.{IsSound}
use hyperliquid_matching_eng.MatchingEngine.{MatchingEngine}
use hyperliquid_matching_eng.MatchingEngine.Serving.{cleared, cleared-IsSound, dispatch-IsSound}
use hyperliquid_matching_eng.Pipeline.{
  Lane, LaneStep, Label, fed, inside, published, feeds, takes, emits, publishes, LaneRuns, starts,
  goes_on,
}
use hyperliquid_matching_eng.Pipeline.Serial.{
  serve_all, serve_all-append, serve_all-total, serve_all-extends, AllSane, AllSane-append,
}
use hyperliquid_matching_eng.Pipeline.Lanes.{IsLane, LaneStep-IsLane, start-IsLane}

-- A command that a step feeds is the next one of the file.
abbrev pub IsNext : Label → List OrderCommand → Type 0
IsNext (fed c) waiting = (rest : List OrderCommand) × (waiting ≡ c ∷ rest)
IsNext inside waiting = Unit {0}
IsNext (published e) waiting = Unit {0}

module _ (now_ns : ℕ → Timestamp) (start : OrderBook) where
  pub LaneRuns-IsLane :
      (e : MatchingEngine) (cs : List OrderCommand) (es : List AnyEvent) (n : ℕ) (l : Lane)
      → IsLane now_ns start [] [] 0 (record { engine = e; outgoing = [] })
      → LaneRuns now_ns (record { engine = e; outgoing = [] }) cs es n l
      → IsLane now_ns start cs es n l
  LaneRuns-IsLane e cs es n l v starts = v
  LaneRuns-IsLane e cs es n l v (goes_on {cs = ds} {es = fs} {n = m} {l = k} r step) =
      LaneStep-IsLane now_ns start ds fs m (LaneRuns-IsLane e ds fs m k v r) step

  -- The lane has published all the events of the commands.
  abbrev pub IsFinished : List OrderCommand → List OrderCommand → List AnyEvent → Lane → Type 0
  IsFinished waiting cs es l =
      (waiting ≡ []) × (serve_all now_ns [] cs start ≡ some (es, l.engine.order_book))

  -- Some thread can go on.
  abbrev pub GoesOn : List OrderCommand → Lane → Type 0
  GoesOn waiting l = (a : Label) × (l' : Lane) × LaneStep now_ns l a l' × IsNext a waiting

  module _ (waiting cs : List OrderCommand) (es : List AnyEvent) (n : ℕ) (l : Lane)
      (v : IsLane now_ns start cs es n l) where
    IsLane-Finished :
        v.going ≡ [] → l.outgoing ≡ [] → v.coming ≡ [] → waiting ≡ [] → IsFinished waiting cs es l
    IsLane-Finished out idle inn none_left =
        let all_taken : cs ≡ v.taken = v.commands ∙ rw inn (append-nil v.taken) in
        let all_out : v.made ≡ es = v.events ∙ rw (out, idle) (simp append-nil) in
        (
          none_left,
          ap (λ x. serve_all now_ns [] x start) all_taken
              ∙ v.served
              ∙ ap (λ x. some (x, l.engine.order_book)) all_out,
        )

    takes-next :
        (c : OrderCommand) (rest : List OrderCommand)
        → IsSound start
        → AllSane now_ns (cs ++ waiting) start
        → l.outgoing ≡ []
        → v.coming ≡ c ∷ rest
        → GoesOn waiting l
    takes-next c rest sound sane idle inn =
        let split : cs ++ waiting ≡ v.taken ++ c ∷ (rest ++ waiting) =
          rw (v.commands, inn) (append_assoc v.taken (c ∷ rest) waiting) in
        let (w, fair) =
          AllSane-append now_ns v.taken (c ∷ (rest ++ waiting)) [] v.made start l.engine.order_book
            sound (subst (λ x. AllSane now_ns x start) split sane) v.served in
        let (b, d, z) =
          dispatch-IsSound now_ns c (cleared l.engine.order_book)
            (cleared-IsSound l.engine.order_book w) fair.0 in
        let (q, p, h) =
          pop-Holds l.engine.config.input_queue c rest
            (subst (Holds l.engine.config.input_queue) inn v.input) in
        (inside, _, takes idle p d, tt)

    progress :
        IsSound start
        → AllSane now_ns (cs ++ waiting) start
        → IsFinished waiting cs es l ⊎ GoesOn waiting l
    progress sound sane = elim (List-cases v.going) [
      | inr (e, rest, out) ↦
          let (q, p, h) =
            pop-Holds l.engine.config.output_queue e rest
              (subst (Holds l.engine.config.output_queue) out v.output) in
          inr (published e, _, publishes p, tt)
      | inl out ↦ elim (List-cases l.outgoing) [
        | inr (e, rest, busy) ↦
            let (q, p, h) =
              push-Holds l.engine.config.output_queue e []
                (subst (Holds l.engine.config.output_queue) out v.output) v.output_room in
            inr (inside, _, emits busy p, tt)
        | inl idle ↦ elim (List-cases v.coming) [
          | inr (c, rest, inn) ↦ inr (takes-next c rest sound sane idle inn)
          | inl inn ↦ elim (List-cases waiting) [
            | inr (c, rest, more) ↦
                let (q, p, h) =
                  push-Holds l.engine.config.input_queue c []
                    (subst (Holds l.engine.config.input_queue) inn v.input) v.input_room in
                inr (fed c, _, feeds p, (rest, more))
            | inl none_left ↦ inl (IsLane-Finished out idle inn none_left)
          ]
        ]
      ]
    ]

    -- What the lane has made so far begins what all the commands make.
    made-begins :
        (all : List AnyEvent) (last : OrderBook)
        → serve_all now_ns [] (cs ++ waiting) start ≡ some (all, last)
        → (rest : List AnyEvent) × (all ≡ v.made ++ rest)
    made-begins all last h =
        let split : cs ++ waiting ≡ v.taken ++ (v.coming ++ waiting) =
          rw (v.commands) (append_assoc v.taken v.coming waiting) in
        serve_all-extends now_ns (v.coming ++ waiting) v.made all l.engine.order_book last (
          sym (
            serve_all-append now_ns v.taken (v.coming ++ waiting) [] v.made start
              l.engine.order_book v.served)
          ∙ ap (λ x. serve_all now_ns [] x start) (sym split)
          ∙ h)

-- An engine at its start, with a sound book and two empty rings of at least two slots, and the
-- commands of its symbol, each sane when its turn comes: the commands `cs` have come in, and
-- `waiting` are still in the file. In whatever order the feed, the engine and the publisher make
-- their steps, the events that have been published are a beginning of those that the engine makes
-- of all the commands served one after another; the steps are at most two for each command and
-- two for each event; and either all the events have been published, the book being the one that
-- the commands in turn lead to, or some thread can go on.
pub LaneRuns-serve_all :
    (now_ns : ℕ → Timestamp) (e : MatchingEngine) (cs waiting : List OrderCommand)
    (es : List AnyEvent) (n : ℕ) (l : Lane)
    → IsSound e.order_book
    → Holds e.config.input_queue []
    → Holds e.config.output_queue []
    → 0 < capacity e.config.input_queue
    → 0 < capacity e.config.output_queue
    → AllSane now_ns (cs ++ waiting) e.order_book
    → LaneRuns now_ns (record { engine = e; outgoing = [] }) cs es n l
    → (all : List AnyEvent) × (last : OrderBook) × (serve_all now_ns [] (cs ++ waiting) e.order_book
        ≡ some (all, last))
      × ((rest : List AnyEvent) × (all ≡ es ++ rest))
      × (n ≤ 2 * length (cs ++ waiting) + 2 * length all)
      × (((waiting ≡ []) × (es ≡ all) × (l.engine.order_book ≡ last))
          ⊎ GoesOn now_ns e.order_book waiting l)
LaneRuns-serve_all now_ns e cs waiting es n l sound input output room_in room_out sane r =
    let start = e.order_book in
    let v =
      LaneRuns-IsLane now_ns start e cs es n l
        (start-IsLane now_ns start e refl input output room_in room_out) r in
    let (all, last, served, z) = serve_all-total now_ns (cs ++ waiting) [] start sound sane in
    let (rest, begins) = made-begins now_ns start waiting cs es n l v all last served in
    (
      all,
      last,
      served,
      (v.going ++ l.outgoing ++ rest, begins ∙ rw (v.events) (simp append_assoc)),
      omega (
        arith,
        v.steps,
        ap (λ xs. length xs) v.commands,
        length-append v.taken v.coming,
        length-append cs waiting,
        ap (λ xs. length xs) v.events,
        length-append es v.going,
        length-append (es ++ v.going) l.outgoing,
        ap (λ xs. length xs) begins,
        length-append v.made rest,
      ),
      elim (progress now_ns start waiting cs es n l v sound sane) [
        | inr more ↦ inr more
        | inl (none_left, done) ↦
            let same = some_inj (
              sym done
              ∙ ap (λ x. serve_all now_ns [] x start)
                  (sym (append-nil cs) ∙ ap (λ w. cs ++ w) (sym none_left))
              ∙ served) in
            inl (
              none_left,
              ap (λ (x : List AnyEvent × OrderBook). x.0) same,
              ap (λ (x : List AnyEvent × OrderBook). x.1) same,
            )
      ],
    )
