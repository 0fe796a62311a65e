-- ===== src/Pipeline/Lanes.antt =====
-- What the threads of one symbol keep (src/main.cpp): the commands on their way in, the events on
-- their way out, and the engine between them.
use mathlib.Core.List.{append_assoc, append-nil}
use hyperliquid_matching_eng.Base.{
  ℕ, suc, ◌+◌, ◌*◌, ◌<◌, ◌≡◌, refl, sym, ◌∙◌, ap, subst, arith, some, some_inj, true, false, List,
  [], ◌∷◌, ◌++◌, Option, length, length-append, Bool, dec_lt,
}
use hyperliquid_matching_eng.Types.{Timestamp}
use hyperliquid_matching_eng.Command.{OrderCommand, AnyEvent}
use hyperliquid_matching_eng.SpscQueue.{SpscQueue, push, pop, capacity}
use hyperliquid_matching_eng.SpscQueue.Fifo.{Holds, push-Holds, push-full, pop-Holds, pop-empty}
use hyperliquid_matching_eng.Book.State.{OrderBook}
use hyperliquid_matching_eng.MatchingEngine.{MatchingEngine}
use hyperliquid_matching_eng.Pipeline.{
  Lane, LaneStep, Label, feeds, takes, emits, publishes, fed_by, published_by,
}
use hyperliquid_matching_eng.Pipeline.Serial.{serve_all, serve_all-append, serve_all-one}

-- A push that has returned true found room, and a pop that has returned true found the oldest item.
module _ {T : Type 0} where
  push-capacity : (q : SpscQueue T) (x : T) → capacity (push x q).1 ≡ capacity q
  unfolding push capacity
  push-capacity q x = ground arith

  pop-capacity : (q : SpscQueue T) → capacity (pop q).2 ≡ capacity q
  unfolding pop capacity
  pop-capacity q = ground arith

  pub pushed-Holds :
      (q r : SpscQueue T) (x : T) (xs : List T)
      → Holds q xs
      → push x q ≡ (true, r)
      → Holds r (xs ++ x ∷ []) × (capacity r ≡ capacity q)
  unfolding capacity
  pushed-Holds q r x xs v e = elim (dec_lt (length xs) (capacity q)) [
    | yes room ↦
        let (z, f, w) = push-Holds q x xs v room in
        (
          subst (λ k. Holds k (xs ++ x ∷ [])) (ap (λ (p : Bool × SpscQueue T). p.1) (sym f ∙ e)) w,
          sym (ap (λ (p : Bool × SpscQueue T). capacity p.1) e) ∙ push-capacity q x,
        )
    | no full ↦
        let f = push-full q x xs v (omega (arith, v.fits)) in
        let no_push : false ≡ true = ap (λ (p : Bool × SpscQueue T). p.0) (sym f ∙ e) in
        absurd (ground arith)
  ]

  pub popped-Holds :
      (q r : SpscQueue T) (x : T) (xs : List T)
      → Holds q xs
      → pop q ≡ (true, some x, r)
      → (ys : List T) × (xs ≡ x ∷ ys) × Holds r ys × (capacity r ≡ capacity q)
  popped-Holds q r x [] v e =
      let no_pop : false ≡ true =
        ap (λ (p : Bool × Option T × SpscQueue T). p.0) (sym (pop-empty q v) ∙ e) in
      absurd (ground arith)
  popped-Holds q r x (y ∷ ys) v e =
      let (z, f, w) = pop-Holds q y ys v in
      let same = sym f ∙ e in
      (
        ys,
        ap (λ k. k ∷ ys) (some_inj (ap (λ (p : Bool × Option T × SpscQueue T). p.1) same)),
        subst (λ k. Holds k ys) (ap (λ (p : Bool × Option T × SpscQueue T). p.2) same) w,
        sym (ap (λ (p : Bool × Option T × SpscQueue T). capacity p.2) e) ∙ pop-capacity q,
      )

-- The state of a lane into which the commands `cs` have come and out of which the events `es` have
-- gone in `n` steps, when it started from the book `start`: what is on its way, and what the engine has made of
-- the commands that it has taken.
pub record IsLane (now_ns : ℕ → Timestamp) (start : OrderBook) (cs : List OrderCommand)
    (es : List AnyEvent) (n : ℕ) (l : Lane) : Type 0 where
  pub taken : List OrderCommand
  pub coming : List OrderCommand
  pub going : List AnyEvent
  pub made : List AnyEvent
  pub input : Holds l.engine.config.input_queue coming
  pub output : Holds l.engine.config.output_queue going
  pub input_room : 0 < capacity l.engine.config.input_queue
  pub output_room : 0 < capacity l.engine.config.output_queue
  pub steps : n ≡ 2 * length taken + length coming + 2 * length es + length going
  pub commands : cs ≡ taken ++ coming
  pub served : serve_all now_ns [] taken start ≡ some (made, l.engine.order_book)
  pub events : made ≡ es ++ going ++ l.outgoing

module _ (now_ns : ℕ → Timestamp) (start : OrderBook) where
  -- Every step of the three threads keeps it.
  pub LaneStep-IsLane :
      {l l' : Lane} {a : Label} (cs : List OrderCommand) (es : List AnyEvent) (n : ℕ)
      → IsLane now_ns start cs es n l
      → LaneStep now_ns l a l'
      → IsLane now_ns start (cs ++ fed_by a) (es ++ published_by a) (suc n) l'
  LaneStep-IsLane {l} cs es n v (feeds {cmd} {q} e) =
      let (w, same) = pushed-Holds l.engine.config.input_queue q cmd v.coming v.input e in
      record {
        taken = v.taken;
        coming = v.coming ++ cmd ∷ [];
        going = v.going;
        made = v.made;
        input = w;
        output = v.output;
        input_room = rw same (v.input_room);
        output_room = v.output_room;
        steps = rw (append-nil es) (omega (arith, v.steps, length-append v.coming (cmd ∷ [])));
        commands = rw (v.commands) (append_assoc v.taken v.coming (cmd ∷ []));
        served = v.served;
        events = rw (append-nil es) (v.events);
      }
  LaneStep-IsLane {l} cs es n v (takes {cmd} {q} {b} idle e d) =
      let (rest, first, w, same) =
        popped-Holds l.engine.config.input_queue q cmd v.coming v.input e in
      record {
        taken = v.taken ++ cmd ∷ [];
        coming = rest;
        going = v.going;
        made = v.made ++ b.events;
        input = w;
        output = v.output;
        input_room = rw same (v.input_room);
        output_room = v.output_room;
        steps =
            rw (append-nil es) (
              omega (arith, v.steps, ap (λ xs. length xs) first, length-append v.taken (cmd ∷ [])));
        commands =
            append-nil cs
            ∙ v.commands
            ∙ ap (λ x. v.taken ++ x) first
            ∙ sym (append_assoc v.taken (cmd ∷ []) rest);
        served =
            serve_all-append now_ns v.taken (cmd ∷ []) [] v.made start l.engine.order_book v.served
            ∙ serve_all-one now_ns v.made cmd l.engine.order_book b d;
        events =
            ap (λ x. x ++ b.events)
              (v.events ∙ rw (idle, append-nil (es ++ v.going), append-nil es) refl);
      }
  LaneStep-IsLane {l} cs es n v (emits {e} {es = rest} {q} out f) =
      let (w, same) = pushed-Holds l.engine.config.output_queue q e v.going v.output f in
      record {
        taken = v.taken;
        coming = v.coming;
        going = v.going ++ e ∷ [];
        made = v.made;
        input = v.input;
        output = w;
        input_room = v.input_room;
        output_room = rw same (v.output_room);
        steps = rw (append-nil es) (omega (arith, v.steps, length-append v.going (e ∷ [])));
        commands = append-nil cs ∙ v.commands;
        served = v.served;
        events = v.events ∙ rw out (simp (append_assoc, append-nil));
      }
  LaneStep-IsLane {l} cs es n v (publishes {e} {q} f) =
      let (rest, first, w, same) =
        popped-Holds l.engine.config.output_queue q e v.going v.output f in
      record {
        taken = v.taken;
        coming = v.coming;
        going = rest;
        made = v.made;
        input = v.input;
        output = w;
        input_room = v.input_room;
        output_room = rw same (v.output_room);
        steps = omega (arith, v.steps, ap (λ xs. length xs) first, length-append es (e ∷ []));
        commands = append-nil cs ∙ v.commands;
        served = v.served;
        events = v.events ∙ rw first (simp append_assoc);
      }

  -- The lane at its start, with empty rings.
  pub start-IsLane :
      (e : MatchingEngine)
      → e.order_book ≡ start
      → Holds e.config.input_queue []
      → Holds e.config.output_queue []
      → 0 < capacity e.config.input_queue
      → 0 < capacity e.config.output_queue
      → IsLane now_ns start [] [] 0 (record { engine = e; outgoing = [] })
  unfolding serve_all
  start-IsLane e same input output room_in room_out = record {
    taken = [];
    coming = [];
    going = [];
    made = [];
    input = input;
    output = output;
    input_room = room_in;
    output_room = room_out;
    steps = omega arith;
    commands = refl;
    served = ap (λ b. some ([], b)) (sym same);
    events = refl;
  }
