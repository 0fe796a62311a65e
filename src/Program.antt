-- ===== src/Program.antt =====
-- src/main.cpp: the arguments of the program, and the engines, queues and threads that it makes of
-- them.
pub mod Splitting
pub mod Engines
use hyperliquid_matching_eng.Base.{
  ℕ, zero, suc, ◌+◌, ◌-◌, Bool, true, false, List, [], ◌∷◌, ◌++◌, Option, none, some, ◌==◌, ltb,
  if◌then◌else◌, ◌>>=◌, length, get_elem?, replicate,
}
use hyperliquid_matching_eng.Base.Int.{ℤ}
use hyperliquid_matching_eng.Types.{Tick, SymbolId, PriceBand, tick}
use hyperliquid_matching_eng.Command.{OrderCommand, AnyEvent}
use hyperliquid_matching_eng.Json.{Bytes, codes, same_text}
use hyperliquid_matching_eng.SpscQueue
use hyperliquid_matching_eng.SpscQueue.{SpscQueue}
use hyperliquid_matching_eng.MatchingEngine
use hyperliquid_matching_eng.MatchingEngine.{MatchingEngine}

pub record ProgramConfig : Type 0 where
  pub input_file : Bytes
  pub output_dir : Bytes
  pub symbols : List Bytes
  pub cpu_cores : List ℤ
  pub min_price : Tick
  pub max_price : Tick

abbrev pub default_config : ProgramConfig
default_config = record {
  input_file = [];
  output_dir = codes "results";
  symbols = [];
  cpu_cores = [];
  min_price = tick 1;
  max_price = tick 100000;
}

-- `find(c)`, with what `substr(0, pos)` and `substr(pos + 1)` are then.
unfoldable pub cut_at : ℕ → Bytes → Option (Bytes × Bytes)
cut_at c [] = none
cut_at c (d ∷ s) =
    let later = cut_at c s in
    if d == c then some ([], s) else (do (front, back) ← later; some (d ∷ front, back))

-- The loop that pushes the piece before each comma and erases it, and the push of what is left. It
-- runs on fuel, and `none` is fuel that ran out.
unfoldable pub split_list : ℕ → Bytes → Option (List Bytes)
unfolding cut_at
split_list zero s = none
split_list (suc fuel) s = elim (cut_at b',' s) [
  | none ↦ some (s ∷ [])
  | some (piece, rest) ↦ do pieces ← split_list fuel rest; some (piece ∷ pieces)
]

-- Each round but the last takes a comma away.
unfoldable pub split_commas : Bytes → Option (List Bytes)
split_commas s = split_list (length s + 1) s

pub data Flag : Type 0 where
  input output symbols price_band cpu_cores help other : Flag

-- The tests of `argv[i]`; those before `--help` want an argument behind them.
unfoldable pub flag_of : Bytes → Flag
flag_of a =
    if same_text a (codes "--input")
    then input
    else if same_text a (codes "--output")
    then output
    else if same_text a (codes "--symbols")
    then symbols
    else if same_text a (codes "--price-band")
    then price_band
    else if same_text a (codes "--cpu-cores")
    then cpu_cores
    else if same_text a (codes "--help")
    then help
    else other

-- What the arguments say: a configuration, or the end of the program after its usage.
pub data Parsed : Type 0 where
  config : ProgramConfig → Parsed
  usage : Parsed

-- `std::stoi` and `std::stoll` are given; `none` is the exception that they throw.
module _ (stoi : Bytes → Option ℤ) (stoll : Bytes → Option Tick) where
  unfoldable pub all_cores : List Bytes → Option (List ℤ)
  all_cores [] = some []
  all_cores (s ∷ pieces) = do core ← stoi s; cores ← all_cores pieces; some (core ∷ cores)

  -- What an option with the argument `v` does to the configuration.
  unfoldable pub set_option : Flag → Bytes → ProgramConfig → Option ProgramConfig
  unfolding split_commas cut_at all_cores
  set_option input v c = some (record c { input_file = v })
  set_option output v c = some (record c { output_dir = v })
  set_option symbols v c = do
    pieces ← split_commas v
    some (record c { symbols = c.symbols ++ pieces })
  set_option price_band v c = elim (cut_at b':' v) [
    | none ↦ some c
    | some (low, high) ↦ do
      min_price ← stoll low
      max_price ← stoll high
      some (record c { min_price = min_price; max_price = max_price })
  ]
  set_option cpu_cores v c = do
    pieces ← split_commas v
    cores ← all_cores pieces
    some (record c { cpu_cores = c.cpu_cores ++ cores })
  set_option help v c = some c
  set_option other v c = some c

  -- The loop over `argv`, from the argument `i` on. An option without an argument behind it is
  -- passed over, as is what is no option.
  unfoldable pub parse_args : List Bytes → ProgramConfig → Option Parsed
  unfolding flag_of set_option
  parse_args [] c = some (config c)
  parse_args (a ∷ []) c = elim (flag_of a) [ help ↦ some usage | f ↦ some (config c) ]
  parse_args (a ∷ (v ∷ rest)) c = elim (flag_of a) [
    | help ↦ some usage
    | other ↦ parse_args (v ∷ rest) c
    | f ↦ do c' ← set_option f v c; parse_args rest c'
  ]

-- The exit codes of the tests after the arguments; `none` goes on.
unfoldable pub refused : ProgramConfig → Option ℕ
refused c = elim c.input_file [
  | [] ↦ some 1
  | b ∷ bs ↦ elim c.symbols [ [] ↦ some 1 | s ∷ ss ↦ none ]
]

-- The engines that are made for the symbols, from number `i` on, each over its own two queues of
-- 65536 slots. `slab_objects` is the number of nodes in a slab of an engine's pool.
unfoldable pub engines_from :
    ℕ → List OrderCommand → List AnyEvent → PriceBand → ℕ → List Bytes → List MatchingEngine
engines_from slab_objects commands events band i [] = []
engines_from slab_objects commands events band i (s ∷ names) =
    MatchingEngine.init slab_objects (record {
      symbol_id = i;
      price_band = band;
      input_queue = SpscQueue.init 65536 commands;
      output_queue = SpscQueue.init 65536 events;
    })
    ∷ engines_from slab_objects commands events band (i + 1) names

unfoldable pub make_engines :
    ℕ → List OrderCommand → List AnyEvent → ProgramConfig → List MatchingEngine
unfolding engines_from
make_engines slab_objects commands events c =
    engines_from slab_objects commands events
      (record { min_tick = c.min_price; max_tick = c.max_price; tick_size = 1 }) 0 c.symbols

-- The cores that the threads are pinned to, as positions in `cpu_cores`; `none` is not pinned.
unfoldable pub publisher_core : ProgramConfig → Option ℕ
publisher_core c =
    if ltb (length c.symbols + 1) (length c.cpu_cores) then some (length c.cpu_cores - 1) else none

unfoldable pub engine_core : ProgramConfig → ℕ → Option ℕ
engine_core c i = if ltb (i + 1) (length c.cpu_cores) then some (i + 1) else none

unfoldable pub feed_core : ProgramConfig → Option ℕ
feed_core c = if ltb 0 (length c.cpu_cores) then some 0 else none
