-- ===== src/Tests/Program.antt =====
-- Runs of src/main.cpp.
use hyperliquid_matching_eng.Base.{
  ◌≡◌, refl, some, List, [], ◌∷◌, ℕ, replicate, length, length-replicate, get_elem?, arith,
}
use hyperliquid_matching_eng.Base.Int.{0ℤ, pos}
use hyperliquid_matching_eng.Types.{tick}
use hyperliquid_matching_eng.Json.{Bytes, codes, same_text}
use hyperliquid_matching_eng.Program.{
  ProgramConfig, config, default_config, split_list, split_commas, parse_args,
}
use hyperliquid_matching_eng.Command.{AnyEvent, book_update}
use hyperliquid_matching_eng.Book.State.{update_of}
use hyperliquid_matching_eng.MatchingEngine.{MatchingEngine}
use hyperliquid_matching_eng.Program.{make_engines}
use hyperliquid_matching_eng.Program.Engines.{IsStarted, make_engines-IsStarted}
use hyperliquid_matching_eng.Tests.Book.{clock, book}
use hyperliquid_matching_eng.Tests.Engine.{sell_20}
use hyperliquid_matching_eng.Program.Splitting.{split_commas-join, join, NoCommas}

split_commas-join_example :
    (pieces : List Bytes) × (split_commas (codes "BTC,ETH") ≡ some pieces)
    × (join pieces ≡ codes "BTC,ETH")
    × NoCommas pieces
split_commas-join_example = split_commas-join (codes "BTC,ETH")

two_symbols :
    parse_args
      (λ s. some (pos 0))
      (λ s. some (tick 0))
      (codes "--input" ∷ codes "orders.bin" ∷ codes "--symbols" ∷ codes "BTC,ETH" ∷ codes "-v" ∷ [])
      default_config
    ≡ some (
        config (record default_config {
          input_file = codes "orders.bin";
          symbols = codes "BTC" ∷ codes "ETH" ∷ [];
        }))
unfolding parse_args same_text split_list
two_symbols = refl

abbrev two_engines : ProgramConfig
two_engines = record default_config { symbols = codes "BTC" ∷ codes "ETH" ∷ [] }

abbrev quiet : AnyEvent
quiet = book_update (update_of clock book 0ℤ 0ℤ)

make_engines-IsStarted_example :
    let engines = make_engines 8 (replicate 65536 sell_20) (replicate 65536 quiet) two_engines in
    (length engines ≡ 2)
    × ((i : ℕ) (e : MatchingEngine) → get_elem? engines i ≡ some e → IsStarted i e)
make_engines-IsStarted_example =
    make_engines-IsStarted 8 (replicate 65536 sell_20) (replicate 65536 quiet) (omega arith)
      (length-replicate 65536 sell_20) (length-replicate 65536 quiet) two_engines (omega arith)
      (omega arith) (omega arith)
