-- ===== src/Pipeline/Serial.antt =====
-- What an engine (src/matching_engine.cpp) makes of commands that it serves one after another.
use mathlib.Core.List.{append_assoc, append-nil}
use hyperliquid_matching_eng.Base.{
  ℕ, ◌≡◌, refl, sym, ◌∙◌, ap, subst, arith, none, some, some_inj, List, [], ◌∷◌, ◌++◌, Option,
  ◌>>=◌, inl, inr, Option-cases,
}
use hyperliquid_matching_eng.Types.{Timestamp}
use hyperliquid_matching_eng.Command.{OrderCommand, AnyEvent}
use hyperliquid_matching_eng.Book.State.{OrderBook}
use hyperliquid_matching_eng.Book.Sound.{IsSound}
use hyperliquid_matching_eng.MatchingEngine.{dispatch}
use hyperliquid_matching_eng.MatchingEngine.Serving.{
  cleared, cleared-IsSound, IsSane, dispatch-IsSound,
}

module _ (now_ns : ℕ → Timestamp) where
  -- The events of the commands in order, behind those of `es`, and the book that they leave.
  unfoldable pub serve_all :
      List AnyEvent → List OrderCommand → OrderBook → Option (List AnyEvent × OrderBook)
  serve_all es [] b = some (es, b)
  serve_all es (c ∷ cs) b = do
    b' ← dispatch now_ns c.type c (cleared b)
    serve_all (es ++ b'.events) cs b'

  serve_all-nil : (es : List AnyEvent) (b : OrderBook) → serve_all es [] b ≡ some (es, b)
  unfolding serve_all
  serve_all-nil es b = refl

  serve_all-∷ :
      (es : List AnyEvent) (c : OrderCommand) (cs : List OrderCommand) (b b' : OrderBook)
      → dispatch now_ns c.type c (cleared b) ≡ some b'
      → serve_all es (c ∷ cs) b ≡ serve_all (es ++ b'.events) cs b'
  unfolding serve_all
  serve_all-∷ es c cs b b' d = rw d refl

  stuck-serve_all :
      (es : List AnyEvent) (c : OrderCommand) (cs : List OrderCommand) (b : OrderBook)
      → dispatch now_ns c.type c (cleared b) ≡ none
      → serve_all es (c ∷ cs) b ≡ none
  unfolding serve_all
  stuck-serve_all es c cs b d = rw d refl

  -- Further commands are served from where the first of them have led.
  pub serve_all-append :
      (cs ds : List OrderCommand) (es fs : List AnyEvent) (b b' : OrderBook)
      → serve_all es cs b ≡ some (fs, b')
      → serve_all es (cs ++ ds) b ≡ serve_all fs ds b'
  serve_all-append [] ds es fs b b' h =
      let same = some_inj (sym (serve_all-nil es b) ∙ h) in
      ap (λ (x : List AnyEvent × OrderBook). serve_all x.0 ds x.1) same
  serve_all-append (c ∷ cs) ds es fs b b' h =
      elim (Option-cases (dispatch now_ns c.type c (cleared b))) [
        | inl stuck ↦ let no = sym (stuck-serve_all es c cs b stuck) ∙ h in absurd (ground arith)
        | inr (b1, d) ↦
            serve_all-∷ es c (cs ++ ds) b b1 d
            ∙ serve_all-append cs ds (es ++ b1.events) fs b1 b'
                (sym (serve_all-∷ es c cs b b1 d) ∙ h)
      ]

  pub serve_all-one :
      (es : List AnyEvent) (c : OrderCommand) (b b' : OrderBook)
      → dispatch now_ns c.type c (cleared b) ≡ some b'
      → serve_all es (c ∷ []) b ≡ some (es ++ b'.events, b')
  serve_all-one es c b b' d = serve_all-∷ es c [] b b' d ∙ serve_all-nil (es ++ b'.events) b'

  -- The events begin with those that stood there.
  pub serve_all-extends :
      (cs : List OrderCommand) (es fs : List AnyEvent) (b b' : OrderBook)
      → serve_all es cs b ≡ some (fs, b')
      → (gs : List AnyEvent) × (fs ≡ es ++ gs)
  serve_all-extends [] es fs b b' h =
      let same = some_inj (sym (serve_all-nil es b) ∙ h) in
      ([], sym (ap (λ (x : List AnyEvent × OrderBook). x.0) same) ∙ sym (append-nil es))
  serve_all-extends (c ∷ cs) es fs b b' h =
      elim (Option-cases (dispatch now_ns c.type c (cleared b))) [
        | inl stuck ↦ let no = sym (stuck-serve_all es c cs b stuck) ∙ h in absurd (ground arith)
        | inr (b1, d) ↦
            let (gs, e) =
              serve_all-extends cs (es ++ b1.events) fs b1 b'
                (sym (serve_all-∷ es c cs b b1 d) ∙ h) in
            (b1.events ++ gs, e ∙ append_assoc es b1.events gs)
      ]

  -- Every command is sane when its turn comes.
  abbrev pub AllSane : List OrderCommand → OrderBook → Type 0
  AllSane [] b = Unit {0}
  AllSane (c ∷ cs) b =
      IsSane c.type c (cleared b)
      × ((b' : OrderBook) → dispatch now_ns c.type c (cleared b) ≡ some b' → AllSane cs b')

  -- Sane commands from a sound book are all served.
  pub serve_all-total :
      (cs : List OrderCommand) (es : List AnyEvent) (b : OrderBook)
      → IsSound b
      → AllSane cs b
      → (fs : List AnyEvent) × (b' : OrderBook) × (serve_all es cs b ≡ some (fs, b')) × IsSound b'
  serve_all-total [] es b v sane = (es, b, serve_all-nil es b, v)
  serve_all-total (c ∷ cs) es b v sane =
      let (b1, d, w) = dispatch-IsSound now_ns c (cleared b) (cleared-IsSound b v) sane.0 in
      let (fs, b2, e, z) = serve_all-total cs (es ++ b1.events) b1 w (sane.1 b1 d) in
      (fs, b2, serve_all-∷ es c cs b b1 d ∙ e, z)

  -- A command behind others that have been served is sane, and the book is sound.
  pub AllSane-append :
      (cs ds : List OrderCommand) (es fs : List AnyEvent) (b b' : OrderBook)
      → IsSound b
      → AllSane (cs ++ ds) b
      → serve_all es cs b ≡ some (fs, b')
      → IsSound b' × AllSane ds b'
  AllSane-append [] ds es fs b b' v sane h =
      let same =
        ap (λ (x : List AnyEvent × OrderBook). x.1) (some_inj (sym (serve_all-nil es b) ∙ h)) in
      (subst (λ x. IsSound x) same v, subst (λ x. AllSane ds x) same sane)
  AllSane-append (c ∷ cs) ds es fs b b' v sane h =
      let (b1, d, w) = dispatch-IsSound now_ns c (cleared b) (cleared-IsSound b v) sane.0 in
      AllSane-append cs ds (es ++ b1.events) fs b1 b' w (sane.1 b1 d)
        (sym (serve_all-∷ es c cs b b1 d) ∙ h)
